-- ===== src/ObjectData/Input.antt =====
-- serialization/ObjectData.ts: `ObjectDataInput`. A position that is given is `some`; reading there
-- leaves the stream where it was.
use hazelcast_nodejs_client.Prelude.{
  ℕ, zero, suc, ◌-◌, Bool, true, false, not, ◌&&◌, List, [], ◌∷◌, Option, none, some, ltb, ◌==◌,
  if◌then◌else◌, length, take, drop, guard, ◌>>◌, ◌>>=◌, ℤ, pos, negsuc, ◌+ℤ◌, ◌-ℤ◌, leb_ℤ, eqb_ℤ,
}
use hazelcast_nodejs_client.Buffers.{Buffer, slice, read_uint8, read_uint16, read_int16, read_int32}
use hazelcast_nodejs_client.ObjectData.{Long}

pub record Input : Type 0 where
  pub buffer : Buffer
  pub offset : ℕ
  pub is_big_endian : Bool
  pub position : ℤ

unfoldable pub new_input : Buffer → ℕ → Bool → Input
new_input buffer offset is_big_endian = record {
  buffer = buffer;
  offset = offset;
  is_big_endian = is_big_endian;
  position = pos offset;
}

-- The bytes that `toString` decodes: a negative index is 0.
unfoldable pub text_bytes : Buffer → ℤ → ℤ → Buffer
text_bytes buffer (pos i) (pos j) = take (j - i) (drop i buffer)
text_bytes buffer (negsuc i) (pos j) = take j buffer
text_bytes buffer _ (negsuc j) = []

-- `assertAvailable`, at a given position or at the stream's.
unfoldable pub position_or : Option ℤ → Input → ℤ
position_or none inp = inp.position
position_or (some at) inp = at

unfoldable pub assert_available : ℕ → Option ℤ → Input → Option (Unit {0})
unfolding position_or ◌+ℤ◌
assert_available num_of_bytes at inp = do
  guard (leb_ℤ (pos 0) (position_or at inp))
  guard (leb_ℤ (position_or at inp +ℤ pos num_of_bytes) (pos (length inp.buffer)))

unfoldable pub advance : ℤ → Input → Input
unfolding ◌+ℤ◌
advance count inp = record inp { position = inp.position +ℤ count }

-- The value that stands at a position, and the stream, which moves if no position was given.
unfoldable pub read_field :
    {A : Type 0} → ℕ → (ℤ → Option A) → Option ℤ → Input → Option (A × Input)
unfolding advance
read_field size field none inp = do val ← field inp.position; some (val, advance (pos size) inp)
read_field size field (some at) inp = do val ← field at; some (val, inp)

-- The two reads of `readLong`.
unfoldable pub read_two_ints : Input → ℤ → Option (ℤ × ℤ)
unfolding read_int32 ◌+ℤ◌
read_two_ints inp p = do
  first ← read_int32 inp.buffer p inp.is_big_endian
  second ← read_int32 inp.buffer (p +ℤ pos 4) inp.is_big_endian
  some (first, second)

module _ (at : Option ℤ) (inp : Input) where
  unfoldable pub read : Option (ℕ × Input)
  unfolding assert_available read_field read_uint8
  read = do assert_available 1 at inp; read_field 1 (read_uint8 inp.buffer) at inp

  unfoldable pub read_boolean : Option (Bool × Input)
  read_boolean = do (byte, rest) ← read; some (byte == 1, rest)

  -- What is asserted is that the char is available at the stream's position.
  unfoldable pub read_char : Option (ℕ × Input)
  unfolding assert_available read_field read_uint16
  read_char = do
    assert_available 2 none inp
    read_field 2 (λ p. read_uint16 inp.buffer p inp.is_big_endian) at inp

  unfoldable pub read_short : Option (ℤ × Input)
  unfolding assert_available read_field read_int16
  read_short = do
    assert_available 2 at inp
    read_field 2 (λ p. read_int16 inp.buffer p inp.is_big_endian) at inp

  unfoldable pub read_int : Option (ℤ × Input)
  unfolding assert_available read_field read_int32
  read_int = do
    assert_available 4 at inp
    read_field 4 (λ p. read_int32 inp.buffer p inp.is_big_endian) at inp

  unfoldable pub read_long : Option (Long × Input)
  unfolding assert_available read_field read_two_ints
  read_long = do
    assert_available 8 at inp
    ((first, second), rest) ← read_field 8 (read_two_ints inp) at inp
    let long : Long =
        if inp.is_big_endian
        then record { low = second; high = first }
        else record { low = first; high = second }
    some (long, rest)

-- The stream at the position where an array is read.
unfoldable pub move_to : Option ℤ → Input → Input
move_to none inp = inp
move_to (some at) inp = record inp { position = at }

-- The position that reading an array leaves behind: the old one, if one was given.
unfoldable pub settle : Option ℤ → Input → Input → Input
settle none before after = after
settle (some at) before after = record after { position = before.position }

unfoldable pub read_times :
    {A : Type 0} → (Option ℤ → Input → Option (A × Input)) → ℕ → Input → Option (List A × Input)
read_times func zero inp = some ([], inp)
read_times func (suc n) inp = do
  (a, next) ← func none inp
  (arr, rest) ← read_times func n next
  some (a ∷ arr, rest)

-- The rounds of `for (let i = 0; i < len; i++)`.
unfoldable pub rounds : ℤ → ℕ
rounds (pos n) = n
rounds (negsuc n) = 0

-- The length -1 is read as `null`.
unfoldable pub read_array :
    {A : Type 0}
    → (Option ℤ → Input → Option (A × Input))
    → Option ℤ
    → Input
    → Option (Option (List A) × Input)
read_array func at inp = do
  (len, next) ← read_int none (move_to at inp)
  elim (eqb_ℤ len (negsuc 0)) [
    | true ↦ some (none, settle at inp next)
    | false ↦ do
      (arr, rest) ← read_times func (rounds len) next
      some (some arr, settle at inp rest)
  ]

unfoldable pub read_byte_array : Option ℤ → Input → Option (Option Buffer × Input)
unfolding ◌+ℤ◌
read_byte_array at inp = do
  (len, next) ← read_int none (move_to at inp)
  elim (eqb_ℤ len (negsuc 0)) [
    | true ↦ some (none, settle at inp next)
    | false ↦ some (
      some (slice next.buffer next.position (next.position +ℤ len)),
      settle at inp (advance len next),
    )
  ]

module _ (at : Option ℤ) where
  unfoldable pub read_boolean_array : Input → Option (Option (List Bool) × Input)
  unfolding read_array read_boolean
  read_boolean_array = read_array read_boolean at

  unfoldable pub read_char_array : Input → Option (Option (List ℕ) × Input)
  unfolding read_array read_char
  read_char_array = read_array read_char at

  unfoldable pub read_int_array : Input → Option (Option (List ℤ) × Input)
  unfolding read_array read_int
  read_int_array = read_array read_int at

  unfoldable pub read_long_array : Input → Option (Option (List Long) × Input)
  unfolding read_array read_long
  read_long_array = read_array read_long at

  unfoldable pub read_short_array : Input → Option (Option (List ℤ) × Input)
  unfolding read_array read_short
  read_short_array = read_array read_short at

-- `readData`: the bytes, of which heap data has none or at least its overhead.
unfoldable pub read_data : Input → Option (Option Buffer × Input)
unfolding read_byte_array
read_data inp = do
  (bytes, next) ← read_byte_array none inp
  elim bytes [
    | none ↦ some (none, next)
    | some payload ↦ do
      guard (not (ltb 0 (length payload) && ltb (length payload) 8))
      some (some payload, next)
  ]

-- `addOrUndefined(pos, 4) || this.pos`: a sum that is 0 counts as none.
unfoldable pub text_position : Option ℤ → Input → ℤ
unfolding ◌+ℤ◌
text_position none next = next.position
text_position (some at) next = if eqb_ℤ (at +ℤ pos 4) (pos 0) then next.position else at +ℤ pos 4

-- `readString`, with the UTF-8 decoder of the platform.
unfoldable pub read_string :
    {Str : Type 0} → (Buffer → Str) → Option ℤ → Input → Option (Option Str × Input)
unfolding ◌+ℤ◌
read_string utf8 at inp = do
  (len, next) ← read_int at inp
  let start = text_position at next
  elim (eqb_ℤ len (negsuc 0)) [
    | true ↦ some (none, next)
    | false ↦ some (
      some (utf8 (text_bytes next.buffer start (start +ℤ len))),
      elim at [ none ↦ advance len next | some _ ↦ next ],
    )
  ]

unfoldable pub read_string_array :
    {Str : Type 0} → (Buffer → Str) → Option ℤ → Input → Option (Option (List (Option Str)) × Input)
unfolding read_array read_string
read_string_array utf8 at = read_array (read_string utf8) at

unfoldable pub reset : Input → Input
reset inp = record inp { position = pos 0 }

unfoldable pub skip_bytes : ℤ → Input → Input
unfolding advance
skip_bytes count = advance count

unfoldable pub available : Input → ℤ
unfolding ◌-ℤ◌
available inp = pos (length inp.buffer) -ℤ inp.position

unfoldable pub read_raw : ℕ → Input → Option (Buffer × Input)
unfolding assert_available slice advance
read_raw num_of_bytes inp = do
  assert_available num_of_bytes (some inp.position) inp
  some (
    slice inp.buffer inp.position (inp.position +ℤ pos num_of_bytes),
    advance (pos num_of_bytes) inp,
  )
