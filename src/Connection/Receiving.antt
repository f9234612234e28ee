-- ===== src/Connection/Receiving.antt =====
-- network/Connection.ts: the loops of the reader, over all chunks of a stream.
use hazelcast_nodejs_client.Prelude.{
  ℕ, zero, suc, ◌≡◌, ◌<◌, ap, sym, subst, ◌∙◌, inl, inr, All, true, false, Bool-cases, List, [],
  ◌∷◌, ◌++◌, Option, none, some, arith, length, pos_part,
}
use hazelcast_nodejs_client.Buffers.{Buffer}
use hazelcast_nodejs_client.Connection.Message.{BytesFrame, Message}
use hazelcast_nodejs_client.Connection.Reader.{
  Reader, concat, extend_message, read_frame, after_frame, is_complete, read, read_all,
}
use hazelcast_nodejs_client.Connection.Written.{IsWritable}
use hazelcast_nodejs_client.Connection.Framing.{Header, unread, known, Awaits}
use hazelcast_nodejs_client.Connection.Steps.{Short, waits, takes, read_frame-Progress}

-- How frames that follow a message in part make messages, and leave one in part.
pub data Emits : Option Message → Message → List Message → Option Message → Message → Type 0 where
  done : {c : Option Message} {fs : Message} → Emits c fs [] c fs
  continues :
      {c c' : Option Message} {f : BytesFrame} {fs fs' : Message} {ms : List Message}
      → is_complete (some (extend_message c f)) ≡ false
      → Emits (some (extend_message c f)) fs ms c' fs'
      → Emits c (f ∷ fs) ms c' fs'
  completes :
      {c c' : Option Message} {f : BytesFrame} {fs fs' : Message} {ms : List Message}
      → is_complete (some (extend_message c f)) ≡ true
      → Emits none fs ms c' fs'
      → Emits c (f ∷ fs) (extend_message c f ∷ ms) c' fs'

pub Emits-trans :
    {c d e : Option Message} {fs gs hs : Message} {ms ns : List Message}
    → Emits c fs ms d gs
    → Emits d gs ns e hs
    → Emits c fs (ms ++ ns) e hs
Emits-trans done q = q
Emits-trans (continues h p) q = continues h (Emits-trans p q)
Emits-trans (completes h p) q = completes h (Emits-trans p q)

-- What is left of the frames can be written as well.
pub Emits-All :
    {c d : Option Message} {fs gs : Message} {ms : List Message}
    → Emits c fs ms d gs
    → All IsWritable fs
    → All IsWritable gs
Emits-All done fits = fits
Emits-All (continues h p) (_, fits) = Emits-All p fits
Emits-All (completes h p) (_, fits) = Emits-All p fits

-- What `read` does: it waits with a message in part, or gives one that is complete.
pub data Reads (fuel : ℕ) (fs : Message) (future : Buffer) (r : Reader) : Type 0 where
  stops :
      (s : Reader) (rest : Message)
      → read fuel r ≡ some (none, s)
      → Awaits rest future s
      → Emits r.client_message fs [] s.client_message rest
      → Short rest (length (concat s.chunks))
      → Reads fuel fs future r
  gives :
      (m : Message) (s : Reader) (rest : Message)
      → read fuel r ≡ some (some m, s)
      → Awaits rest future s
      → Emits r.client_message fs (m ∷ []) s.client_message rest
      → length (concat s.chunks) < length (concat r.chunks)
      → Reads fuel fs future r

-- What the reader knows of a frame does not depend on the message in part.
Header-client_message :
    {fs : Message} {s : Reader} (c : Option Message)
    → Header fs s
    → Header fs (record s { client_message = c })
Header-client_message c (unread e) = unread e
Header-client_message c (known e f h) = known e f h

pub Awaits-client_message :
    {fs : Message} {future : Buffer} {s : Reader} (c : Option Message)
    → Awaits fs future s
    → Awaits fs future (record s { client_message = c })
Awaits-client_message c w = record {
  bytes = w.bytes;
  total = w.total;
  header = Header-client_message c w.header;
}

after_frame_complete :
    (loop : Reader → Option (Option Message × Reader)) (s : Reader)
    → is_complete s.client_message ≡ true
    → after_frame loop (true, s) ≡ some (s.client_message, record s { client_message = none })
unfolding after_frame
after_frame_complete loop s e = rw (after_frame, e)

after_frame_incomplete :
    (loop : Reader → Option (Option Message × Reader)) (s : Reader)
    → is_complete s.client_message ≡ false
    → after_frame loop (true, s) ≡ loop s
unfolding after_frame
after_frame_incomplete loop s e = rw (after_frame, e)

module _ (future : Buffer) (fuel : ℕ) (f : BytesFrame) (fs : Message) (r s : Reader)
    (e : read_frame r ≡ some (true, s)) (v : Awaits fs future s)
    (extended : s.client_message ≡ some (extend_message r.client_message f))
    (less : length (concat s.chunks) < length (concat r.chunks)) where
  -- The frame that was taken completes a message.
  read-completed : is_complete s.client_message ≡ true → Reads (suc fuel) (f ∷ fs) future r
  unfolding read
  read-completed complete =
      gives (extend_message r.client_message f) (record s { client_message = none }) fs
        (rw (e) (
          after_frame_complete (read fuel) s complete
          ∙ ap (λ c. some (c, record s { client_message = none })) extended))
        (Awaits-client_message none v) (completes (ap is_complete (sym extended) ∙ complete) done)
        less

  -- It does not, and reading goes on.
  read-continued :
      is_complete s.client_message ≡ false
      → Reads fuel fs future s
      → Reads (suc fuel) (f ∷ fs) future r
  unfolding read
  read-continued incomplete later =
      let open_message = ap is_complete (sym extended) ∙ incomplete in
      elim later [
        | stops t rest g w p short ↦
            stops t rest (rw (e) (after_frame_incomplete (read fuel) s incomplete ∙ g)) w
              (continues open_message (subst (λ c. Emits c fs [] t.client_message rest) extended p))
              short
        | gives m t rest g w p shorter ↦
            gives m t rest (rw (e) (after_frame_incomplete (read fuel) s incomplete ∙ g)) w
              (continues open_message
                (subst (λ c. Emits c fs (m ∷ []) t.client_message rest) extended p))
              (omega (arith, shorter, less))
      ]

module _ (future : Buffer) where
  -- More rounds than bytes are enough.
  pub read-Reads :
      (fuel : ℕ) (fs : Message) (r : Reader)
      → All IsWritable fs
      → Awaits fs future r
      → length (concat r.chunks) < fuel
      → Reads fuel fs future r
  unfolding read after_frame
  read-Reads zero fs r fits w enough = absurd (omega arith)
  read-Reads (suc fuel) fs r fits w enough = elim (read_frame-Progress fs future r fits w) [
    | waits s e v same short ↦
        stops s fs (rw (e)) v (subst (λ c. Emits r.client_message fs [] c fs) (sym same) done) short
    | takes f rest s split e v extended less ↦
        let (_, others) = subst (All IsWritable) split fits in
        let later = read-Reads fuel rest s others v (omega arith) in
        subst (λ gs. Reads (suc fuel) gs future r) (sym split)
          (elim (Bool-cases (is_complete s.client_message)) [
            | inl complete ↦ read-completed future fuel f rest r s e v extended less complete
            | inr partial ↦ read-continued future fuel f rest r s e v extended less partial later
          ])
  ]

-- What all rounds of reading give.
pub record Received (fs : Message) (future : Buffer) (r : Reader)
    (result : Option (List Message × Reader)) : Type 0 where
  pub messages : List Message
  pub after : Reader
  pub left : Message
  pub returns : result ≡ some (messages, after)
  pub awaits : Awaits left future after
  pub emits : Emits r.client_message fs messages after.client_message left
  pub short : Short left (length (concat after.chunks))

module _ (future : Buffer) where
  pub read_all-Received :
      (fuel : ℕ) (fs : Message) (r : Reader)
      → All IsWritable fs
      → Awaits fs future r
      → length (concat r.chunks) < fuel
      → Received fs future r (read_all fuel r)
  unfolding read_all
  read_all-Received zero fs r fits w enough = absurd (omega arith)
  read_all-Received (suc fuel) fs r fits w enough =
      let fuel_left : suc (pos_part r.chunks_total_size) ≡ suc (length (concat r.chunks)) =
        ap (λ z. suc (pos_part z)) w.total in
      elim (read-Reads future (suc (length (concat r.chunks))) fs r fits w (omega arith)) [
        | stops s rest e v p short ↦ record {
          messages = [];
          after = s;
          left = rest;
          returns = rw (fuel_left, e);
          awaits = v;
          emits = p;
          short = short;
        }
        | gives m s rest e v p less ↦
            let later = read_all-Received fuel rest s (Emits-All p fits) v (omega arith) in
            record {
              messages = m ∷ later.messages;
              after = later.after;
              left = later.left;
              returns = rw (fuel_left, e, later.returns);
              awaits = later.awaits;
              emits = Emits-trans p later.emits;
              short = later.short;
            }
      ]
