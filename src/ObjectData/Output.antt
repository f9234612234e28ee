-- ===== src/ObjectData/Output.antt =====
-- serialization/ObjectData.ts: `ObjectDataOutput` and `PositionalObjectDataOutput`.
use hazelcast_nodejs_client.Prelude.{
  ℕ, zero, suc, ◌+◌, Bool, true, List, [], ◌∷◌, Option, none, some, ltb, if◌then◌else◌, length,
  take, ◌>>=◌, ℤ, pos, negsuc, ◌-ℤ◌, ltb_ℤ,
}
use hazelcast_nodejs_client.Buffers.{
  Buffer, overwrite, write_uint8, write_uint16, write_int16, write_int32,
}
use hazelcast_nodejs_client.ObjectData.{Long, mask_1byte}

pub record Output : Type 0 where
  pub buffer : Buffer
  pub is_big_endian : Bool
  pub position : ℕ

unfoldable pub to_buffer : Output → Buffer
to_buffer out = take out.position out.buffer

-- `position(newPosition)`: the old position is returned.
unfoldable pub set_position : ℕ → Output → Output × ℕ
set_position new_position out = (record out { position = new_position }, out.position)

unfoldable pub available : Output → ℤ
unfolding ◌-ℤ◌
available out = pos (length out.buffer) -ℤ pos out.position

-- `forEach` of an array, and the length that is written before it.
unfoldable pub for_each :
    {A : Type 0} → (A → Output → Option Output) → List A → Output → Option Output
for_each func [] out = some out
for_each func (a ∷ arr) out = do next ← func a out; for_each func arr next

unfoldable pub array_length : {A : Type 0} → Option (List A) → ℤ
array_length none = negsuc 0
array_length (some arr) = pos (length arr)

-- The contents of new memory are the platform's.
module _ (alloc_unsafe : ℕ → Buffer) where
  unfoldable pub new_output : Bool → Output
  new_output is_big_endian = record {
    buffer = alloc_unsafe (8 + 8);
    is_big_endian = is_big_endian;
    position = 0;
  }

  unfoldable pub clear : Output → Output
  clear out = record out { buffer = alloc_unsafe (length out.buffer); position = 0 }

  unfoldable pub ensure_available : ℕ → Output → Output
  unfolding available overwrite
  ensure_available size out =
      if ltb_ℤ (available out) (pos size)
      then record out {
        buffer = overwrite (alloc_unsafe (out.position + size)) 0 (take out.position out.buffer);
      }
      else out

  -- `write` of a buffer
  unfoldable pub write_buffer : Buffer → Output → Option Output
  unfolding ensure_available overwrite
  write_buffer bytes out = do
    let grown = ensure_available (length bytes) out
    some (record grown {
      buffer = overwrite grown.buffer grown.position bytes;
      position = grown.position + length bytes;
    })

  -- `write` of a number
  unfoldable pub write_byte : ℤ → Output → Option Output
  unfolding ensure_available write_uint8 mask_1byte
  write_byte byte out = do
    let grown = ensure_available 1 out
    buffer ← write_uint8 grown.buffer grown.position (mask_1byte byte)
    some (record grown { buffer = buffer; position = grown.position + 1 })

  unfoldable pub write_boolean : Bool → Output → Option Output
  unfolding write_byte
  write_boolean val = write_byte (if val then pos 1 else pos 0)

  -- A char is a UTF-16 code unit.
  unfoldable pub write_char : ℕ → Output → Option Output
  unfolding ensure_available write_uint16
  write_char char out = do
    let grown = ensure_available 2 out
    buffer ← write_uint16 grown.buffer grown.position char grown.is_big_endian
    some (record grown { buffer = buffer; position = grown.position + 2 })

  unfoldable pub write_short : ℤ → Output → Option Output
  unfolding ensure_available write_int16
  write_short short out = do
    let grown = ensure_available 2 out
    buffer ← write_int16 grown.buffer grown.position short grown.is_big_endian
    some (record grown { buffer = buffer; position = grown.position + 2 })

  unfoldable pub write_int : ℤ → Output → Option Output
  unfolding ensure_available write_int32
  write_int int out = do
    let grown = ensure_available 4 out
    buffer ← write_int32 grown.buffer grown.position int grown.is_big_endian
    some (record grown { buffer = buffer; position = grown.position + 4 })

  unfoldable pub write_int_be : ℤ → Output → Option Output
  unfolding ensure_available write_int32
  write_int_be int out = do
    let grown = ensure_available 4 out
    buffer ← write_int32 grown.buffer grown.position int true
    some (record grown { buffer = buffer; position = grown.position + 4 })

  unfoldable pub write_long : Long → Output → Option Output
  write_long long out = do
    let grown = ensure_available 8 out
    let at = grown.position
    let (first, second) =
        if grown.is_big_endian then (long.high, long.low) else (long.low, long.high)
    once ← write_int32 grown.buffer at first grown.is_big_endian
    twice ← write_int32 once (at + 4) second grown.is_big_endian
    some (record grown { buffer = twice; position = at + 4 + 4 })

  -- `for (let i = 0; i < count; i++) { this.write(0); }`
  unfoldable pub write_zero_bytes : ℕ → Output → Option Output
  unfolding write_byte
  write_zero_bytes zero out = some out
  write_zero_bytes (suc count) out = do next ← write_byte (pos 0) out; write_zero_bytes count next

  unfoldable pub write_array :
      {A : Type 0} → (A → Output → Option Output) → Option (List A) → Output → Option Output
  unfolding array_length
  write_array {A} func none out = write_int (array_length {A = A} none) out
  write_array func (some arr) out = do
    next ← write_int (array_length (some arr)) out
    for_each func arr next

  unfoldable pub write_boolean_array : Option (List Bool) → Output → Option Output
  unfolding write_array write_boolean
  write_boolean_array = write_array write_boolean

  unfoldable pub write_char_array : Option (List ℕ) → Output → Option Output
  unfolding write_array write_char
  write_char_array = write_array write_char

  unfoldable pub write_int_array : Option (List ℤ) → Output → Option Output
  unfolding write_array write_int
  write_int_array = write_array write_int

  unfoldable pub write_long_array : Option (List Long) → Output → Option Output
  unfolding write_array write_long
  write_long_array = write_array write_long

  unfoldable pub write_short_array : Option (List ℤ) → Output → Option Output
  unfolding write_array write_short
  write_short_array = write_array write_short

  unfoldable pub write_byte_array : Option Buffer → Output → Option Output
  unfolding array_length
  write_byte_array none out = write_int (array_length {A = ℕ} none) out
  write_byte_array (some bytes) out = do
    next ← write_int (array_length (some bytes)) out
    if ltb 0 (length bytes) then write_buffer bytes next else some next

  -- The code units of a string, one after the other.
  unfoldable pub write_chars : Option (List ℕ) → Output → Option Output
  unfolding write_int array_length for_each write_char
  write_chars none out = write_int (array_length {A = ℕ} none) out
  write_chars (some chars) out = do
    next ← write_int (array_length (some chars)) out
    for_each write_char chars next

  -- `writeData`, of the buffer of the data.
  unfoldable pub write_data : Option Buffer → Output → Option Output
  unfolding write_int array_length for_each write_byte
  write_data none out = write_int (array_length {A = ℕ} none) out
  write_data (some bytes) out = do
    next ← write_int (array_length (some bytes)) out
    for_each (λ b. write_byte (pos b)) bytes next

  -- `writeString`, with the UTF-8 encoder of the platform.
  unfoldable pub write_string :
      {Str : Type 0} → (Str → Buffer) → Option Str → Output → Option Output
  unfolding array_length
  write_string utf8 none out = write_int (array_length {A = ℕ} none) out
  write_string utf8 (some val) out = do
    next ← write_int (array_length (some (utf8 val))) out
    write_buffer (utf8 val) next

  unfoldable pub write_string_array :
      {Str : Type 0} → (Str → Buffer) → Option (List (Option Str)) → Output → Option Output
  unfolding write_array write_string
  write_string_array utf8 = write_array (write_string utf8)

-- `PositionalObjectDataOutput`: writes at a given place, which move nothing and grow nothing.
module _ (position : ℕ) where
  unfoldable pub pwrite_buffer : Buffer → Output → Output
  unfolding overwrite
  pwrite_buffer bytes out = record out { buffer = overwrite out.buffer position bytes }

  -- An index past the end stores nothing.
  unfoldable pub pwrite_byte : ℤ → Output → Output
  unfolding overwrite mask_1byte
  pwrite_byte byte out = record out {
    buffer = overwrite out.buffer position (mask_1byte byte ∷ []);
  }

  unfoldable pub pwrite_boolean : Bool → Output → Output
  unfolding pwrite_byte
  pwrite_boolean val = pwrite_byte (if val then pos 1 else pos 0)

  unfoldable pub pwrite_char : ℕ → Output → Option Output
  unfolding write_uint16
  pwrite_char char out = do
    buffer ← write_uint16 out.buffer position char out.is_big_endian
    some (record out { buffer = buffer })

  unfoldable pub pwrite_short : ℤ → Output → Option Output
  unfolding write_int16
  pwrite_short short out = do
    buffer ← write_int16 out.buffer position short out.is_big_endian
    some (record out { buffer = buffer })

  unfoldable pub pwrite_int : ℤ → Output → Option Output
  unfolding write_int32
  pwrite_int int out = do
    buffer ← write_int32 out.buffer position int out.is_big_endian
    some (record out { buffer = buffer })

  unfoldable pub pwrite_int_be : ℤ → Output → Option Output
  unfolding write_int32
  pwrite_int_be int out = do
    buffer ← write_int32 out.buffer position int true
    some (record out { buffer = buffer })

  unfoldable pub pwrite_long : Long → Output → Option Output
  unfolding write_int32
  pwrite_long long out = do
    let (first, second) = if out.is_big_endian then (long.high, long.low) else (long.low, long.high)
    once ← write_int32 out.buffer position first out.is_big_endian
    twice ← write_int32 once (position + 4) second out.is_big_endian
    some (record out { buffer = twice })
