-- ===== src/Io/ArrayStream.antt =====
-- src/bas/io/Uint8ArrayInputStream.cpp: a stream over an array of bytes.
pub mod Left
use bas_cpp.Prelude.{
  ℕ, zero, suc, ◌+◌, ◌-◌, ◌*◌, ◌%◌, ◌^◌, ◌≤◌, ◌<◌, min, ◌≡◌, ◌≢◌, ◌⊎◌, inl, inr, refl, sym, ap, ◌∙◌,
  Bool, true, false, not, ◌&&◌, ◌||◌, Option, none, some, List, [], ◌∷◌, ◌++◌, arith, if◌then◌else◌,
  ◌==◌, ltb, leb, Bool-cases, length, length-append, get_or, take, drop, Bytes, slice, length-slice,
  slice-append, slice-cons,
}
use bas_cpp.Io.RawStream.{RawStream, SeekDir}

-- Uint8ArrayInputStream; `data` stands for the bytes from m_ptr to m_ptr + m_len.
pub record ArrayStream : Type 0 where
  pub data_bytes : Bytes
  pub position : ℕ
  pub closed : Bool

-- The constructor that takes a whole array.
pub create : Bytes → ArrayStream
create bytes = record { data_bytes = bytes; position = 0; closed = false }

-- read()
unfoldable pub read : ArrayStream → Option ℕ × ArrayStream
read s =
    if s.closed || leb (length s.data_bytes) s.position
    then (none, s)
    else (some (get_or s.data_bytes s.position 0), record s { position = s.position + 1 })

-- read(buf, off, len) into a buffer that is not null.
unfoldable pub read_block : ArrayStream → ℕ → Bytes × ArrayStream
read_block s len =
    let remaining = length s.data_bytes - s.position in
    let to_read = min len remaining in
    if s.closed || (len == 0) || (remaining == 0) then ([], s) else (
      slice s.data_bytes s.position (s.position + to_read),
      record s { position = s.position + to_read },
    )

-- close
pub close : ArrayStream → ArrayStream
close s = record s { closed = true }

-- skip, of a length that is not negative.
unfoldable pub skip : ArrayStream → ℕ → ℕ × ArrayStream
skip s len =
    let remaining = length s.data_bytes - s.position in
    let to_skip = min remaining len in
    if s.closed || (len == 0) || (remaining == 0)
    then (0, s)
    else (to_skip, record s { position = s.position + to_skip })

-- position(); `none` is -1.
pub tell : ArrayStream → Option ℕ
tell s = if s.closed then none else some s.position

-- `m_position + offset` or `m_len + offset` on `int64_t`; none where it is negative.
add_signed : ℕ → ℕ → Option ℕ
add_signed x offset = let sum = (x + offset) % 2 ^ 64 in if ltb sum (2 ^ 63) then some sum else none

-- The place that seek goes to.
target : ArrayStream → ℕ → SeekDir → Option ℕ
target s offset SeekDir.beg = add_signed 0 offset
target s offset SeekDir.cur = add_signed s.position offset
target s offset SeekDir.end = add_signed (length s.data_bytes) offset

move_to : ArrayStream → Option ℕ → Bool × ArrayStream
move_to s none = (false, s)
move_to s (some pos) =
    if ltb (length s.data_bytes) pos then (false, s) else (true, record s { position = pos })

-- seek; the offset is the 64 bits of an `int64_t`.
pub seek : ArrayStream → ℕ → SeekDir → Bool × ArrayStream
seek s offset dir = if s.closed then (false, s) else move_to s (target s offset dir)

-- What is left to read: nothing once the stream is closed.
unfoldable pub left_in_array : ArrayStream → Bytes
left_in_array s = if s.closed then [] else drop s.position s.data_bytes
