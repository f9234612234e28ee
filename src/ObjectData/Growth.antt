-- ===== src/ObjectData/Growth.antt =====
-- serialization/ObjectData.ts: the buffer of an output grows before it is written, and what was
-- written stays.
use hazelcast_nodejs_client.Prelude.{
  ℕ, ◌+◌, ◌≡◌, ◌≤◌, refl, ap, ◌∙◌, List, ◌++◌, some, arith, length, take, ltb_ℤ, ◌-ℤ◌, pos, inl,
  inr, Bool-cases,
}
use hazelcast_nodejs_client.Buffers.{Buffer, overwrite, write_bytes}
use hazelcast_nodejs_client.Buffers.Words.{
  take-overwrite, length-overwrite, write_bytes-eq, length-take,
}
use hazelcast_nodejs_client.ObjectData.Output.{Output, to_buffer, available, ensure_available}

-- `after` is `out` with some bytes more.
pub record Appends (bytes : List ℕ) (out after : Output) : Type 0 where
  pub contents : to_buffer after ≡ to_buffer out ++ bytes
  pub moved : after.position ≡ out.position + length bytes
  pub same_order : after.is_big_endian ≡ out.is_big_endian
  pub sound : after.position ≤ length after.buffer

module _ (alloc_unsafe : ℕ → Buffer) where
  -- The output after some bytes were written at its position.
  unfoldable pub placed : ℕ → List ℕ → Output → Output
  placed size bytes out =
      let grown = ensure_available alloc_unsafe size out in
      record grown {
        buffer = overwrite grown.buffer grown.position bytes;
        position = grown.position + size;
      }

-- `grown` holds what `out` does, and has room for some bytes more.
pub record Grows (size : ℕ) (out grown : Output) : Type 0 where
  pub contents : take out.position grown.buffer ≡ take out.position out.buffer
  pub same_position : grown.position ≡ out.position
  pub same_order : grown.is_big_endian ≡ out.is_big_endian
  pub room : out.position + size ≤ length grown.buffer

module _ (alloc_unsafe : ℕ → Buffer) (length-alloc_unsafe : (n : ℕ) → length (alloc_unsafe n) ≡ n)
    (size : ℕ) (out : Output) (h : out.position ≤ length out.buffer) where
  -- The new buffer starts with the old contents.
  contents-moved :
      take out.position
        (overwrite (alloc_unsafe (out.position + size)) 0 (take out.position out.buffer))
      ≡ take out.position out.buffer
  contents-moved =
      take-overwrite (alloc_unsafe (out.position + size)) 0 (take out.position out.buffer)
        out.position (omega (arith, length-take out.position out.buffer h))
        (omega (arith, length-alloc_unsafe (out.position + size)))

  pub ensure_available-Grows : Grows size out (ensure_available alloc_unsafe size out)
  unfolding ensure_available available ◌-ℤ◌
  ensure_available-Grows = elim (Bool-cases (ltb_ℤ (available out) (pos size))) [
    | inl e ↦ rw (e) (record {
      contents = contents-moved;
      same_position = refl;
      same_order = refl;
      room = omega (
        arith,
        length-alloc_unsafe (out.position + size),
        length-overwrite (alloc_unsafe (out.position + size)) 0 (take out.position out.buffer),
      );
    })
    | inr e ↦
        rw (e)
          (record { contents = refl; same_position = refl; same_order = refl; room = ground arith })
  ]

  module _ (bytes : List ℕ) (i : size ≡ length bytes) where
    pub placed-Appends : Appends bytes out (placed alloc_unsafe size bytes out)
    unfolding placed to_buffer
    placed-Appends =
        let g = ensure_available alloc_unsafe size out in
        let G = ensure_available-Grows in
        record {
          contents =
              take-overwrite g.buffer g.position bytes (g.position + size) (omega (arith, i))
                (omega (arith, G.room, G.same_position))
              ∙ ap (λ p. take p g.buffer ++ bytes) G.same_position
              ∙ ap (λ b. b ++ bytes) G.contents;
          moved = omega (arith, G.same_position, i);
          same_order = G.same_order;
          sound =
              omega (arith, G.room, G.same_position, length-overwrite g.buffer g.position bytes);
        }

    -- A write of that many bytes succeeds in the buffer that has grown.
    pub write_bytes-ensure_available :
        let grown = ensure_available alloc_unsafe size out in
        write_bytes grown.buffer grown.position bytes
        ≡ some (overwrite grown.buffer grown.position bytes)
    write_bytes-ensure_available =
        let g = ensure_available alloc_unsafe size out in
        let G = ensure_available-Grows in
        write_bytes-eq g.buffer g.position bytes (omega (arith, G.room, G.same_position, i))
