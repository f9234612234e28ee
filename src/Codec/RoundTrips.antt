-- ===== src/Codec/RoundTrips.antt =====
-- What is written is read back.
use hazelcast_nodejs_client.Prelude.{
  ℕ, zero, suc, ◌≤◌, ◌<◌, ◌≡◌, refl, sym, ◌∙◌, ap, Bool, true, false, List, [], ◌∷◌, ◌++◌, Option,
  none, some, arith, append_assoc, length, length-append,
}
use hazelcast_nodejs_client.Codec.{
  Frame, is_null_frame, is_end_frame, is_flag_set, begin_frame, end_frame, null_frame,
  encode_nullable, encode_all, encode_list, decode_nullable, decode_all, decode_list,
  encode_list_contains_nullable, decode_list_contains_nullable, encode_list_nullable,
  decode_list_nullable,
}

-- A codec of elements: what it writes is read back before any other frames, and it begins with a
-- frame that is neither an end frame nor, where `nulls` says so, a null frame.
pub record Codec (B A : Type 0) (nulls : Bool) : Type 0 where
  pub encode : A → List (Frame B)
  pub decode : List (Frame B) → Option (A × List (Frame B))
  pub first : A → Frame B
  pub others : A → List (Frame B)
  pub begins : (a : A) → encode a ≡ first a ∷ others a
  pub not_end : (a : A) → is_end_frame (first a) ≡ false
  pub not_null : (a : A) → nulls ≡ true → is_null_frame (first a) ≡ false
  pub round_trip : (a : A) (rest : List (Frame B)) → decode (encode a ++ rest) ≡ some (a, rest)

decode_all_step :
    {B A : Type 0} (decoder : List (Frame B) → Option (A × List (Frame B))) (fuel : ℕ) (f : Frame B)
    (frames tail after : List (Frame B)) (a : A) (list : List A)
    → is_end_frame f ≡ false
    → decoder (f ∷ frames) ≡ some (a, tail)
    → decode_all decoder fuel tail ≡ some (list, after)
    → decode_all decoder (suc fuel) (f ∷ frames) ≡ some (a ∷ list, after)
unfolding decode_all
decode_all_step decoder fuel f frames tail after a list e g h = rw (e, g, h, decode_all) refl

module _ {B A : Type 0} {nulls : Bool} (empty : B) (c : Codec B A nulls) where
  decodes_first :
      (a : A) (tail : List (Frame B)) → c.decode (c.first a ∷ c.others a ++ tail) ≡ some (a, tail)
  decodes_first a tail =
      sym (ap (λ frames. c.decode (frames ++ tail)) (c.begins a)) ∙ c.round_trip a tail

  decode_all-encode_all :
      (list : List A) (fuel : ℕ) (rest : List (Frame B))
      → length list < fuel
      → decode_all c.decode fuel (encode_all c.encode list ++ end_frame empty ∷ rest)
        ≡ some (list, rest)
  unfolding decode_all encode_all is_end_frame is_flag_set
  decode_all-encode_all list zero rest h = absurd (omega (arith, h))
  decode_all-encode_all [] (suc fuel) rest h = refl
  decode_all-encode_all (a ∷ list) (suc fuel) rest h =
      let tail = encode_all c.encode list ++ end_frame empty ∷ rest in
      let shape : (c.encode a ++ encode_all c.encode list) ++ end_frame empty ∷ rest
          ≡ c.first a ∷ c.others a ++ tail =
        append_assoc (c.encode a) (encode_all c.encode list) (end_frame empty ∷ rest)
        ∙ ap (λ frames. frames ++ tail) (c.begins a) in
      ap (decode_all c.decode (suc fuel)) shape
      ∙ decode_all_step c.decode fuel (c.first a) (c.others a ++ tail) tail rest a list
          (c.not_end a) (decodes_first a tail)
          (decode_all-encode_all list fuel rest (omega (arith, h)))

  length-encode_all-ge : (list : List A) → length list ≤ length (encode_all c.encode list)
  unfolding encode_all
  length-encode_all-ge [] = omega arith
  length-encode_all-ge (a ∷ list) = ground (
    arith,
    length-encode_all-ge list,
    length-append (c.encode a) (encode_all c.encode list),
    c.begins a,
  )

  -- A list is read back as it was written, whatever frames follow it.
  pub decode_list-encode_list :
      (list : List A) (rest : List (Frame B))
      → decode_list c.decode (encode_list empty c.encode list ++ rest) ≡ some (list, rest)
  unfolding decode_list encode_list
  decode_list-encode_list list rest =
      let frames = encode_all c.encode list in
      let size : length list < length (frames ++ end_frame empty ∷ rest) =
        omega (arith, length-encode_all-ge list, length-append frames (end_frame empty ∷ rest)) in
      let shape : (frames ++ end_frame empty ∷ []) ++ rest ≡ frames ++ end_frame empty ∷ rest =
        append_assoc frames (end_frame empty ∷ []) rest in
      rw shape (decode_all-encode_all list (length (frames ++ end_frame empty ∷ rest)) rest size)

  decode_nullable-encode_nullable :
      (o : Option A) (rest : List (Frame B))
      → nulls ≡ true
      → decode_nullable c.decode (encode_nullable empty c.encode o ++ rest) ≡ some (o, rest)
  unfolding decode_nullable encode_nullable is_null_frame is_flag_set
  decode_nullable-encode_nullable none rest n = refl
  decode_nullable-encode_nullable (some a) rest n =
      rw (c.begins a, c.not_null a n, decodes_first a rest, decode_nullable) refl

module _ {B : Type 0} (empty : B) where
  begin-not_end : is_end_frame (begin_frame empty) ≡ false
  unfolding is_end_frame is_flag_set
  begin-not_end = refl

  begin-not_null : is_null_frame (begin_frame empty) ≡ false
  unfolding is_null_frame is_flag_set
  begin-not_null = refl

  lists-begins :
      {A : Type 0} {nulls : Bool} (c : Codec B A nulls) (list : List A)
      → encode_list empty c.encode list
        ≡ begin_frame empty ∷ encode_all c.encode list ++ end_frame empty ∷ []
  unfolding encode_list
  lists-begins c list = refl

  nullable-begins :
      {A : Type 0} (c : Codec B A true) (o : Option A)
      → encode_nullable empty c.encode o
        ≡ elim o [ none ↦ null_frame empty | some a ↦ c.first a ]
          ∷ elim o [ none ↦ [] | some a ↦ c.others a ]
  unfolding encode_nullable
  nullable-begins c none = refl
  nullable-begins c (some a) = c.begins a

  nullable-not_end :
      {A : Type 0} (c : Codec B A true) (o : Option A)
      → is_end_frame (elim o [ none ↦ null_frame empty | some a ↦ c.first a ]) ≡ false
  unfolding is_end_frame is_flag_set
  nullable-not_end c none = refl
  nullable-not_end c (some a) = c.not_end a

module _ {B A : Type 0} (empty : B) where
  -- Values that may be `null`, and lists, have codecs where their elements have.
  abbrev nullable : Codec B A true → Codec B (Option A) false
  nullable c = record {
    encode = encode_nullable empty c.encode;
    decode = decode_nullable c.decode;
    first = λ o. elim o [ none ↦ null_frame empty | some a ↦ c.first a ];
    others = λ o. elim o [ none ↦ [] | some a ↦ c.others a ];
    begins = nullable-begins empty c;
    not_end = nullable-not_end empty c;
    not_null = λ o n. absurd (cc);
    round_trip = λ o rest. decode_nullable-encode_nullable empty c o rest refl;
  }

  abbrev lists : {nulls : Bool} → Codec B A nulls → Codec B (List A) true
  lists c = record {
    encode = encode_list empty c.encode;
    decode = decode_list c.decode;
    first = λ list. begin_frame empty;
    others = λ list. encode_all c.encode list ++ end_frame empty ∷ [];
    begins = lists-begins empty c;
    not_end = λ list. begin-not_end empty;
    not_null = λ list n. begin-not_null empty;
    round_trip = decode_list-encode_list empty c;
  }

  -- A list whose elements may be `null` is read back as it was written.
  pub decode-encode_list_contains_nullable :
      (c : Codec B A true) (list : List (Option A)) (rest : List (Frame B))
      → decode_list_contains_nullable c.decode
          (encode_list_contains_nullable empty c.encode list ++ rest)
        ≡ some (list, rest)
  unfolding decode_list_contains_nullable encode_list_contains_nullable
  decode-encode_list_contains_nullable c list rest =
      decode_list-encode_list empty (nullable c) list rest

  -- A list that may itself be `null` is read back as it was written.
  pub decode-encode_list_nullable :
      {nulls : Bool} (c : Codec B A nulls) (list : Option (List A)) (rest : List (Frame B))
      → decode_list_nullable c.decode (encode_list_nullable empty c.encode list ++ rest)
        ≡ some (list, rest)
  unfolding decode_list_nullable encode_list_nullable
  decode-encode_list_nullable c list rest =
      decode_nullable-encode_nullable empty (lists c) list rest refl
