-- ===== src/Io/LookAhead.antt =====
-- src/bas/io/LAInputStream.{hpp,cpp}: a stream with a buffer in front of another stream, so that bytes can
-- be looked at before they are read, and read bytes can be given back.
pub mod View
pub mod Prefetch
pub mod Reads
pub mod Blocks
pub mod Moves
pub mod Lines
pub mod Session
pub mod Seeks
pub mod Tests
use mathlib.Core.Option
use bas_cpp.Prelude.{
  ℕ, zero, suc, ◌+◌, ◌-◌, ◌*◌, ◌%◌, ◌^◌, min, max, ◌≡◌, refl, Bool, true, false, not, ◌&&◌, ◌||◌,
  Option, none, some, List, [], ◌∷◌, ◌++◌, if◌then◌else◌, ◌==◌, ltb, leb, is_nil, length, get_or,
  set, take, drop, Bytes, put_bytes, slice,
}
use bas_cpp.Io.RawStream.{RawStream, SeekDir}

-- LAInputStream over a stream of the state `S`. `m_lookAheadCapacity` is only read by the constructor. The
-- position is an `int64_t`, kept as its 64 bits.
pub record LookAhead (S : Type 0) : Type 0 where
  pub unlimit : Bool
  pub buffer : Bytes
  pub pos : ℕ
  pub limit : ℕ
  pub position : ℕ
  pub raw : S

abbrev pub block_capacity : ℕ
block_capacity = 4096

abbrev pub zeros : ℕ → Bytes
zeros zero = []
zeros (suc n) = 0 ∷ zeros n

-- The loop of alignToNextPowerOfTwo, which doubles `power` at most 64 times.
align_from : ℕ → ℕ → ℕ → ℕ
align_from zero power value = power
align_from (suc fuel) power value =
    let doubled = align_from fuel (power * 2) value in if ltb power value then doubled else power

pub align_to_next_power_of_two : ℕ → ℕ
align_to_next_power_of_two value = align_from 64 1 value

-- std::vector::resize
resize : Bytes → ℕ → Bytes
resize xs n = xs ++ zeros (n - length xs)

-- `x < y` on `int64_t`.
abbrev pub less_signed : ℕ → ℕ → Bool
less_signed x y = ltb ((x + 2 ^ 63) % 2 ^ 64) ((y + 2 ^ 63) % 2 ^ 64)

abbrev pub is_negative : ℕ → Bool
is_negative x = not (ltb x (2 ^ 63))

abbrev pub minus : ℕ → ℕ → ℕ
minus x y = (x + 2 ^ 64 - y % 2 ^ 64) % 2 ^ 64

module _ {S : Type 0} where
  -- The constructor.
  unfoldable pub create : ℕ → S → LookAhead S
  create look_ahead_capacity raw = record {
    unlimit = look_ahead_capacity == 0;
    buffer = zeros (if look_ahead_capacity == 0 then block_capacity else look_ahead_capacity);
    pos = 0;
    limit = 0;
    position = 0;
    raw = raw;
  }

  abbrev pub unread : LookAhead S → ℕ
  unread a = a.limit - a.pos

  -- expandCapacity; its result is never used.
  pub expand_capacity : LookAhead S → ℕ → LookAhead S
  expand_capacity a capacity =
      let aligned = align_to_next_power_of_two capacity in
      if a.unlimit && ltb (length a.buffer) aligned
      then record a { buffer = resize a.buffer aligned }
      else a

  pub compact : LookAhead S → LookAhead S
  compact a = if a.unlimit || (a.pos == 0) then a else record a {
    buffer = put_bytes a.buffer 0 (slice a.buffer a.pos a.limit);
    limit = a.limit - a.pos;
    pos = 0;
  }

  -- discardPrefetch
  pub discard_prefetch : LookAhead S → LookAhead S
  discard_prefetch a = record a { pos = 0; limit = 0 }

  -- reject
  pub reject : LookAhead S → ℕ → Bool × LookAhead S
  reject a len =
      if ltb a.pos len
      then (false, a)
      else (true, record a { pos = a.pos - len; position = (a.position + 2 ^ 64 - len) % 2 ^ 64 })

  -- `m_pos += delta; m_position += delta`, in 64 bits.
  move_by : LookAhead S → ℕ → LookAhead S
  move_by a delta = record a {
    pos = (a.pos + delta) % 2 ^ 64;
    position = (a.position + delta) % 2 ^ 64;
  }

  -- The two tests of seek on `delta`, with its comparisons of signed with unsigned.
  pub seek_by : LookAhead S → ℕ → Bool × LookAhead S
  seek_by a delta =
      if is_negative delta
      then (if ltb (minus 0 delta) a.pos then (false, a) else (true, move_by a delta))
      else (if ltb (unread a) delta then (false, a) else (true, move_by a delta))

  -- seek; the offset is the 64 bits of an `int64_t`.
  pub seek : LookAhead S → ℕ → SeekDir → Bool × LookAhead S
  seek a offset SeekDir.beg =
      let start = minus a.position a.pos in
      let first = if is_negative start then 0 else start in
      let last = (a.position + unread a) % 2 ^ 64 in
      if not (less_signed offset first) && less_signed offset last
      then seek_by a (minus offset first)
      else (false, a)
  seek a offset SeekDir.cur = seek_by a offset
  seek a offset SeekDir.end = (false, a)

  -- canSeek
  pub can_seek : LookAhead S → SeekDir → Bool
  can_seek a SeekDir.beg = true
  can_seek a SeekDir.cur = true
  can_seek a SeekDir.end = false

module _ {S : Type 0} (r : RawStream S) where
  open r use {read_raw_byte, read_raw, skip_raw}

  -- One byte into the buffer: `toRead == 1`.
  fill_byte : LookAhead S → Option ℕ × S → Bool × LookAhead S
  fill_byte a (none, raw) = (false, record a { raw = raw })
  fill_byte a (some b, raw) =
      (true, record a { raw = raw; buffer = set a.buffer a.limit b; limit = a.limit + 1 })

  -- A block into the buffer.
  fill_block : LookAhead S → ℕ → Bytes × S → Bool × LookAhead S
  fill_block a len (out, raw) =
      let filled = record a {
        raw = raw;
        buffer = put_bytes a.buffer a.limit out;
        limit = a.limit + length out;
      } in
      (leb len (unread filled), filled)

  fill : LookAhead S → ℕ → ℕ → Bool × LookAhead S
  fill a len to_read =
      if to_read == 1
      then fill_byte a (read_raw_byte a.raw)
      else fill_block a len (read_raw a.raw to_read)

  -- prefetch, once the buffer is large enough where it can grow.
  prefetch_expanded : LookAhead S → ℕ → Bool × LookAhead S
  prefetch_expanded a len =
      let capacity = length a.buffer in
      let b = if ltb (capacity - a.pos) len then compact a else a in
      if leb len (unread a)
      then (true, a)
      else fill b len (min (len - unread a) (capacity - b.limit))

  pub prefetch : LookAhead S → ℕ → Bool × LookAhead S
  prefetch a len = prefetch_expanded (expand_capacity a (a.pos + len)) len

  -- The byte at the front, read.
  take_byte : Bool × LookAhead S → Option ℕ × LookAhead S
  take_byte (false, a) = (none, a)
  take_byte (true, a) =
      (some (get_or a.buffer a.pos 0), record a { pos = a.pos + 1; position = a.position + 1 })

  -- read(); `none` is -1.
  pub read : LookAhead S → Option ℕ × LookAhead S
  read a = take_byte (prefetch a 1)

  -- The loop of read(buf, off, len), `len` what is left of it. A round copies a byte at least, so `len`
  -- rounds are enough.
  copy_loop : ℕ → LookAhead S → ℕ → Bytes × LookAhead S
  copy_loop zero a len = ([], a)
  copy_loop (suc fuel) a len =
      let b = (prefetch a len).1 in
      let to_copy = min len (unread b) in
      let (out, c) = copy_loop fuel (record b { pos = b.pos + to_copy }) (len - to_copy) in
      if (len == 0) || (unread b == 0)
      then ([], if len == 0 then a else b)
      else (slice b.buffer b.pos (b.pos + to_copy) ++ out, c)

  -- read(buf, off, len) into a buffer that is not null; the bytes that it writes there.
  pub read_block : LookAhead S → ℕ → Bytes × LookAhead S
  read_block a len =
      let (out, b) = copy_loop len a len in (out, record b { position = b.position + length out })

  peek : Bool × LookAhead S → Option ℕ × LookAhead S
  peek (false, a) = (none, a)
  peek (true, a) = (some (get_or a.buffer a.pos 0), a)

  -- lookAhead(); `none` is -1.
  pub look_ahead : LookAhead S → Option ℕ × LookAhead S
  look_ahead a = peek (prefetch a 1)

  -- lookAhead(buf, off, len)
  pub look_ahead_block : LookAhead S → ℕ → Bytes × LookAhead S
  look_ahead_block a len =
      let b = (prefetch a len).1 in (slice b.buffer b.pos (b.pos + min len (unread b)), b)

  skip_rest : LookAhead S → ℕ → ℕ × S → ℕ × LookAhead S
  skip_rest a skipped (n, raw) =
      (skipped + n, record a { raw = raw; pos = 0; limit = 0; position = a.position + skipped + n })

  -- skip, of a length that is not negative; a negative one skips nothing, as 0 does.
  pub skip : LookAhead S → ℕ → ℕ × LookAhead S
  skip a len =
      if leb len (unread a)
      then (len, record a { pos = a.pos + len; position = a.position + len })
      else skip_rest a (unread a) (skip_raw a.raw (len - unread a))

  -- readBytesUntilEOF, on fuel; `none` means that it has not returned.
  read_on : (LookAhead S → Option Bytes) → Option ℕ × LookAhead S → Option Bytes
  read_on next (none, a) = some []
  read_on next (some b, a) = Option.map (λ bs. b ∷ bs) (next a)

  pub read_until_eof : ℕ → LookAhead S → Option Bytes
  read_until_eof zero a = none
  read_until_eof (suc fuel) a = read_on (read_until_eof fuel) (read a)

  -- readRawLine, on fuel; `none` means that it has not returned.
  line_on :
      (LookAhead S → Option (Bytes × LookAhead S))
      → Option ℕ × LookAhead S
      → Option (Bytes × LookAhead S)
  line_on next (none, a) = some ([], a)
  line_on next (some b, a) =
      let further = Option.map (λ x. (b ∷ x.0, x.1)) (next a) in
      if b == b'\n' then some (b ∷ [], a) else further

  pub read_raw_line : ℕ → LookAhead S → Option (Bytes × LookAhead S)
  read_raw_line zero a = none
  read_raw_line (suc fuel) a = line_on (read_raw_line fuel) (read a)

-- readRawLineChopped, from the line that readRawLine answers: without its newline, and without the
-- carriage return before that.
pub drop_last : ℕ → Bytes → Bytes
drop_last b [] = []
drop_last b (x ∷ []) = if x == b then [] else x ∷ []
drop_last b (x ∷ y ∷ xs) = x ∷ drop_last b (y ∷ xs)

abbrev pub is_last : ℕ → Bytes → Bool
is_last b [] = false
is_last b (x ∷ []) = x == b
is_last b (x ∷ y ∷ xs) = is_last b (y ∷ xs)

pub chopped : Bytes → Bytes
chopped line = if is_last b'\n' line then drop_last b'\r' (drop_last b'\n' line) else line

module _ {S : Type 0} (r : RawStream S) where
  pub read_raw_line_chopped : ℕ → LookAhead S → Option (Bytes × LookAhead S)
  read_raw_line_chopped fuel a = Option.map (λ x. (chopped x.0, x.1)) (read_raw_line r fuel a)
