-- ===== src/Connection/Streams.antt =====
-- network/Connection.ts: messages written at one end of a socket are read at the other, in whatever
-- chunks their bytes arrive.
use hazelcast_nodejs_client.Prelude.{
  ℕ, suc, ◌≡◌, refl, ap, sym, ◌∙◌, All, List, [], ◌∷◌, ◌++◌, append_assoc, append-nil, arith,
  length, length-append, pos_part, ◌+ℤ◌,
}
use hazelcast_nodejs_client.Buffers.{Buffer}
use hazelcast_nodejs_client.Connection.Message.{Message}
use hazelcast_nodejs_client.Connection.Reader.{Reader, concat, append, on_data, on_chunks}
use hazelcast_nodejs_client.Connection.Written.{
  IsWritable, frame_bytes, stream_bytes, length-frame_bytes,
}
use hazelcast_nodejs_client.Connection.Framing.{Header, unread, known, Awaits}
use hazelcast_nodejs_client.Connection.Steps.{Short}
use hazelcast_nodejs_client.Connection.Receiving.{
  done, Emits-trans, Emits-All, Received, read_all-Received,
}

concat-snoc :
    (chunks : List Buffer) (buffer : Buffer)
    → concat (chunks ++ buffer ∷ []) ≡ concat chunks ++ buffer
concat-snoc [] buffer = append-nil buffer
concat-snoc (chunk ∷ chunks) buffer =
    ap (λ c. chunk ++ c) (concat-snoc chunks buffer)
    ∙ sym (append_assoc chunk (concat chunks) buffer)

-- A chunk that arrives moves from what is to come to what is there.
Header-append :
    {fs : Message} {r : Reader} (buffer : Buffer) → Header fs r → Header fs (append buffer r)
unfolding append
Header-append buffer (unread e) = unread e
Header-append {r} buffer (known e f h) = known e f (
    omega
      (arith, h, ap length (concat-snoc r.chunks buffer), length-append (concat r.chunks) buffer))

Awaits-append :
    {fs : Message} {future : Buffer} {r : Reader} (buffer : Buffer)
    → Awaits fs (buffer ++ future) r
    → Awaits fs future (append buffer r)
unfolding append ◌+ℤ◌
Awaits-append {future} {r} buffer w = record {
  bytes =
      ap (λ c. c ++ future) (concat-snoc r.chunks buffer)
      ∙ append_assoc (concat r.chunks) buffer future
      ∙ w.bytes;
  total =
      rw (w.total, concat-snoc r.chunks buffer, length-append (concat r.chunks) buffer)
        (ground arith);
  header = Header-append buffer w.header;
}

-- All chunks of a stream, one after the other.
pub on_chunks-Received :
    (chunks : List Buffer) (fs : Message) (r : Reader)
    → All IsWritable fs
    → Awaits fs (concat chunks) r
    → Short fs (length (concat r.chunks))
    → Received fs [] r (on_chunks chunks r)
unfolding on_chunks on_data append
on_chunks-Received [] fs r fits w short = record {
  messages = [];
  after = r;
  left = fs;
  returns = refl;
  awaits = w;
  emits = done;
  short = short;
}
on_chunks-Received (buffer ∷ chunks) fs r fits w short =
    let next = Awaits-append buffer w in
    let first =
      read_all-Received (concat chunks) (suc (pos_part ((append buffer r).chunks_total_size))) fs
        (append buffer r) fits next (omega (arith, ap pos_part next.total)) in
    let later =
      on_chunks-Received chunks first.left first.after (Emits-All first.emits fits) first.awaits
        first.short in
    record {
      messages = first.messages ++ later.messages;
      after = later.after;
      left = later.left;
      returns = rw (first.returns, later.returns);
      awaits = later.awaits;
      emits = Emits-trans first.emits later.emits;
      short = later.short;
    }

-- At the end of the stream nothing is left.
pub end_of_stream :
    (left : Message) (r : Reader)
    → Awaits left [] r
    → Short left (length (concat r.chunks))
    → (left ≡ []) × (concat r.chunks ≡ [])
end_of_stream [] r w short = (refl, sym (append-nil (concat r.chunks)) ∙ w.bytes)
end_of_stream (f ∷ left) r w short = absurd (
    omega (
      arith,
      short,
      ap length w.bytes,
      length-append {A = ℕ} (concat r.chunks) [],
      length-append (frame_bytes f) (stream_bytes left),
      length-frame_bytes f,
    ))
