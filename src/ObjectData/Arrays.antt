-- ===== src/ObjectData/Arrays.antt =====
-- serialization/ObjectData.ts: arrays of values that meet the contract meet it, null arrays included.
use hazelcast_nodejs_client.Prelude.{
  ℕ, ◌≡◌, ◌≤◌, ◌<◌, ◌^◌, refl, ap, sym, subst, ◌∙◌, Bool, List, [], ◌∷◌, ◌++◌, append_assoc,
  append-nil, Option, none, some, arith, lt→ltb, length, length-append, All, ℤ, pos, negsuc,
}
use hazelcast_nodejs_client.Buffers.{Buffer, fits32}
use hazelcast_nodejs_client.ObjectData.Output.{
  Output, to_buffer, for_each, array_length, write_array,
}
use hazelcast_nodejs_client.ObjectData.Growth.{Appends}
use hazelcast_nodejs_client.ObjectData.Input.{
  Input, read_times, read_array, move_to, settle, rounds,
}
use hazelcast_nodejs_client.ObjectData.RoundTrips.{Codes, stream}
use hazelcast_nodejs_client.ObjectData.Fields.{int_Codes}

pub Appends-nil : (out : Output) → out.position ≤ length out.buffer → Appends [] out out
unfolding to_buffer
Appends-nil out h = record {
  contents = sym (append-nil (to_buffer out));
  moved = omega arith;
  same_order = refl;
  sound = h;
}

pub Appends-trans :
    {xs ys : List ℕ} {out next after : Output}
    → Appends xs out next
    → Appends ys next after
    → Appends (xs ++ ys) out after
unfolding to_buffer
Appends-trans {xs} {ys} {out} p q = record {
  contents = q.contents ∙ ap (λ c. c ++ ys) p.contents ∙ append_assoc (to_buffer out) xs ys;
  moved = omega (arith, p.moved, q.moved, length-append xs ys);
  same_order = q.same_order ∙ p.same_order;
  sound = q.sound;
}

module _ {A : Type 0} {write : A → Output → Option Output}
    {read_back : Option ℤ → Input → Option (A × Input)} {IsValid : A → Type 0}
    (c : Codes write read_back IsValid) where
  abbrev pub all_bytes : List A → Bool → List ℕ
  all_bytes [] b = []
  all_bytes (a ∷ arr) b = c.bytes a b ++ all_bytes arr b

  pub for_each-Appends :
      (arr : List A) (out : Output)
      → All IsValid arr
      → out.position ≤ length out.buffer
      → (after : Output) × (for_each write arr out ≡ some after)
        × Appends (all_bytes arr out.is_big_endian) out after
  unfolding for_each
  for_each-Appends [] out _ h = (out, refl, Appends-nil out h)
  for_each-Appends (a ∷ arr) out (valid, rest) h =
      let (next, e, first) = c.writes a out valid h in
      let (after, f, others) = for_each-Appends arr next rest (first.sound) in
      (
        after,
        rw (e) f,
        Appends-trans first
            (subst (λ b. Appends (all_bytes arr b) next after) (first.same_order) others),
      )

  pub read_times-all_bytes :
      (arr : List A)
      → All IsValid arr
      → (before rest : List ℕ) (offset : ℕ) (b : Bool)
      → read_times read_back (length arr) (stream before (all_bytes arr b ++ rest) offset b)
        ≡ some (arr, stream (before ++ all_bytes arr b) rest offset b)
  unfolding read_times
  read_times-all_bytes [] _ before rest offset b = rw (append-nil before)
  read_times-all_bytes (a ∷ arr) (valid, others) before rest offset b = rw (
    append_assoc (c.bytes a b) (all_bytes arr b) rest,
    c.reads a valid before (all_bytes arr b ++ rest) offset b,
    read_times-all_bytes arr others (before ++ c.bytes a b) rest offset b,
    append_assoc before (c.bytes a b) (all_bytes arr b),
  )

-- An array has fewer than 2 ^ 31 elements, or it is null.
abbrev pub IsArray : {A : Type 0} → (A → Type 0) → Option (List A) → Type 0
IsArray IsValid none = Unit
IsArray IsValid (some arr) = (length arr < 2 ^ 31) × All IsValid arr

module _ (alloc_unsafe : ℕ → Buffer) (length-alloc_unsafe : (n : ℕ) → length (alloc_unsafe n) ≡ n)
    {A : Type 0} {write : A → Output → Option Output}
    {read_back : Option ℤ → Input → Option (A × Input)} {IsValid : A → Type 0}
    (c : Codes write read_back IsValid) where
  abbrev length_bytes : ℤ → Bool → List ℕ
  length_bytes = (int_Codes alloc_unsafe length-alloc_unsafe).bytes

  abbrev pub array_bytes : Option (List A) → Bool → List ℕ
  array_bytes none b = length_bytes (negsuc 0) b
  array_bytes (some arr) b = length_bytes (pos (length arr)) b ++ all_bytes c arr b

  write_array-Appends :
      (arr : Option (List A)) (out : Output)
      → IsArray IsValid arr
      → out.position ≤ length out.buffer
      → (after : Output) × (write_array alloc_unsafe write arr out ≡ some after)
        × Appends (array_bytes arr out.is_big_endian) out after
  unfolding write_array array_length fits32
  write_array-Appends none out valid h =
      (int_Codes alloc_unsafe length-alloc_unsafe).writes (negsuc 0) out refl h
  write_array-Appends (some arr) out (short, valid) h =
      let (next, e, p) =
        (int_Codes alloc_unsafe length-alloc_unsafe).writes (pos (length arr)) out
          (lt→ltb (length arr) (2 ^ 31) short) h in
      let (after, f, q) = for_each-Appends c arr next valid (p.sound) in
      (
        after,
        rw (e) f,
        Appends-trans p (subst (λ b. Appends (all_bytes c arr b) next after) (p.same_order) q),
      )

  read_array-stream :
      (arr : Option (List A))
      → IsArray IsValid arr
      → (before rest : List ℕ) (offset : ℕ) (b : Bool)
      → read_array read_back none (stream before (array_bytes arr b ++ rest) offset b)
        ≡ some (arr, stream (before ++ array_bytes arr b) rest offset b)
  unfolding read_array move_to settle rounds fits32
  read_array-stream none valid before rest offset b =
      rw ((int_Codes alloc_unsafe length-alloc_unsafe).reads (negsuc 0) refl before rest offset b)
  read_array-stream (some arr) (short, valid) before rest offset b =
      let n = pos (length arr) in
      rw (
        append_assoc (length_bytes n b) (all_bytes c arr b) rest,
        (int_Codes alloc_unsafe length-alloc_unsafe).reads n (lt→ltb (length arr) (2 ^ 31) short)
            before (all_bytes c arr b ++ rest) offset b,
        read_times-all_bytes c arr valid (before ++ length_bytes n b) rest offset b,
        append_assoc before (length_bytes n b) (all_bytes c arr b),
      )

  pub write_array-Codes :
      Codes (write_array alloc_unsafe write) (read_array read_back) (IsArray IsValid)
  write_array-Codes = record {
    bytes = array_bytes;
    writes = λ arr out valid h. write_array-Appends arr out valid h;
    reads = λ arr valid before rest offset b. read_array-stream arr valid before rest offset b;
  }
