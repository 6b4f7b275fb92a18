-- ===== src/Io/RawStream.antt =====
-- What src/bas/io/LAInputStream.hpp asks of the stream under it: readUnbuffered and skipUnbuffered, as
-- their comments document them.
use bas_cpp.Prelude.{ℕ, ◌≤◌, ◌≡◌, ◌⊎◌, Option, none, some, [], ◌∷◌, ◌++◌, length, drop, Bytes}

-- The operations on the states `S`, and what is left to read in a state. `read_raw` may answer fewer
-- bytes than are asked for, but none only at the end.
pub record RawStream (S : Type 0) : Type 0 where
  pub left_in : S → Bytes
  pub read_raw_byte : S → Option ℕ × S
  pub read_raw : S → ℕ → Bytes × S
  pub skip_raw : S → ℕ → ℕ × S
  pub byte_read :
      (s : S) (b : ℕ) (s' : S) → read_raw_byte s ≡ (some b, s') → left_in s ≡ b ∷ left_in s'
  pub no_byte : (s s' : S) → read_raw_byte s ≡ (none, s') → (left_in s ≡ []) × (left_in s' ≡ [])
  pub bytes_read :
      (s : S) (n : ℕ) (out : Bytes) (s' : S)
      → read_raw s n ≡ (out, s')
      → (left_in s ≡ out ++ left_in s') × (length out ≤ n)
  pub no_bytes : (s : S) (n : ℕ) (s' : S) → read_raw s n ≡ ([], s') → (n ≡ 0) ⊎ (left_in s ≡ [])
  pub bytes_skipped :
      (s : S) (n k : ℕ) (s' : S)
      → skip_raw s n ≡ (k, s')
      → (k ≤ n) × (k ≤ length (left_in s)) × (left_in s' ≡ drop k (left_in s))

-- std::ios::seekdir
pub data SeekDir : Type 0 where
  beg : SeekDir
  cur : SeekDir
  end : SeekDir
