-- ===== src/Io/ArrayStream/Left.antt =====
-- An array stream is a stream that a look-ahead stream can stand on.
use bas_cpp.Prelude.{
  ℕ, ◌+◌, ◌-◌, ◌≤◌, ◌<◌, min, ◌≡◌, ◌⊎◌, inl, inr, refl, sym, ap, subst, ◌∙◌, true, false, ◌||◌,
  Option, none, some, [], ◌∷◌, ◌++◌, arith, if◌then◌else◌, ◌==◌, leb, Bool-cases, length, get_or,
  drop, Bytes, length-slice, slice-drop, drop-all, length-drop, drop-cons, drop-drop,
}
use bas_cpp.Io.RawStream.{RawStream}
use bas_cpp.Io.ArrayStream.{ArrayStream, left_in_array, read, read_block, skip}

module _ (s : ArrayStream) where
  read_at_end : (s.closed || leb (length s.data_bytes) s.position) ≡ true → left_in_array s ≡ []
  unfolding left_in_array
  read_at_end e = elim (Bool-cases s.closed) [
    | inl c ↦ rw c refl
    | inr c ↦ rw c (drop-all s.position s.data_bytes (ground (arith, e, c)))
  ]

  -- Where something is left, the stream is open and not at its end.
  left-more :
      (s.closed || leb (length s.data_bytes) s.position) ≡ false
      → (s.closed ≡ false) × (s.position < length s.data_bytes)
  left-more e = elim (Bool-cases s.closed) [
    | inl c ↦ absurd (ground (arith, e, c))
    | inr c ↦ (c, ground (arith, e, c))
  ]

  at_end_same :
      (n : ℕ)
      → (s.closed || (n == 0) || (length s.data_bytes - s.position == 0)) ≡ false
      → (s.closed ≡ false) × (0 < n) × (s.position < length s.data_bytes)
  at_end_same n e = elim (Bool-cases s.closed) [
    | inl c ↦ absurd (ground (arith, e, c))
    | inr c ↦ (c, ground (arith, e, c), ground (arith, e, c))
  ]

  read-left :
      (x : Option ℕ × ArrayStream)
      → read s ≡ x
      → ((x.0 ≡ none) × (left_in_array s ≡ []) × (x.1 ≡ s))
        ⊎ ((b : ℕ) × (x.0 ≡ some b) × (left_in_array s ≡ b ∷ left_in_array x.1))
  unfolding read left_in_array
  read-left x h = elim (Bool-cases (s.closed || leb (length s.data_bytes) s.position)) [
    | inl e ↦ rw (← h, e) (inl (refl, read_at_end e, refl))
    | inr e ↦
        let (c, more) = left-more e in
        rw (← h, e)
          (inr
            (get_or s.data_bytes s.position 0, refl, rw c (drop-cons s.position s.data_bytes more)))
  ]

  -- What a block read answers was in front of what is left.
  read_block-left :
      (n : ℕ)
      → (left_in_array s ≡ (read_block s n).0 ++ left_in_array (read_block s n).1)
        × (length (read_block s n).0 ≤ n)
        × (length (read_block s n).0 ≡ 0 → (n ≡ 0) ⊎ (left_in_array s ≡ []))
  unfolding read_block left_in_array
  read_block-left n =
      elim (Bool-cases (s.closed || (n == 0) || (length s.data_bytes - s.position == 0))) [
        | inl e ↦ rw e (refl, omega arith, λ _. nothing e)
        | inr e ↦
            let (c, some_asked, more) = at_end_same n e in
            let m = min n (length s.data_bytes - s.position) in
            let l = length-slice s.data_bytes s.position (s.position + m) (omega arith) in
            rw (e, c)
              (
                sym (slice-drop s.data_bytes s.position m),
                omega (arith, l),
                λ z. absurd (omega (arith, l, z, some_asked, more)),
              )
      ]
    where
      nothing :
          (s.closed || (n == 0) || (length s.data_bytes - s.position == 0)) ≡ true
          → (n ≡ 0) ⊎ ((if s.closed then [] else drop s.position s.data_bytes) ≡ [])
      nothing e = elim (Bool-cases s.closed) [
        | inl c ↦ rw c (inr refl)
        | inr c ↦ elim (Bool-cases (n == 0)) [
          | inl z ↦ inl (ground (arith, z))
          | inr nz ↦ rw c (inr (drop-all s.position s.data_bytes (ground (arith, e, c, nz))))
        ]
      ]

  -- As many bytes as skip answers are dropped from what is left.
  skip-left :
      (n : ℕ)
      → ((skip s n).0 ≤ n)
        × ((skip s n).0 ≤ length (left_in_array s))
        × (left_in_array (skip s n).1 ≡ drop (skip s n).0 (left_in_array s))
  unfolding skip left_in_array
  skip-left n =
      elim (Bool-cases (s.closed || (n == 0) || (length s.data_bytes - s.position == 0))) [
        | inl e ↦ rw e (omega arith, omega arith, refl)
        | inr e ↦
            let (c, some_asked, more) = at_end_same n e in
            let m = min (length s.data_bytes - s.position) n in
            let l = length-drop s.position s.data_bytes in
            rw (e, c) (omega arith, omega (arith, l), sym (drop-drop s.position m s.data_bytes))
      ]

module _ (s : ArrayStream) where
  pub array-byte_read :
      (b : ℕ) (s' : ArrayStream) → read s ≡ (some b, s') → left_in_array s ≡ b ∷ left_in_array s'
  array-byte_read b s' h = elim (read-left s (some b, s') h) [
    | inl (e, _, _) ↦ absurd cc
    | inr (b', e, l) ↦ let same : b' ≡ b = cc in rw (← same) l
  ]

  pub array-no_byte :
      (s' : ArrayStream) → read s ≡ (none, s') → (left_in_array s ≡ []) × (left_in_array s' ≡ [])
  array-no_byte s' h = elim (read-left s (none, s') h) [
    | inl (_, l, same) ↦ (l, ap left_in_array same ∙ l)
    | inr (b', e, l) ↦ absurd cc
  ]

  pub array-bytes_read :
      (n : ℕ) (out : Bytes) (s' : ArrayStream)
      → read_block s n ≡ (out, s')
      → (left_in_array s ≡ out ++ left_in_array s') × (length out ≤ n)
  array-bytes_read n out s' h =
      let (l, few, _) = read_block-left s n in
      subst (λ x. (left_in_array s ≡ x.0 ++ left_in_array x.1) × (length x.0 ≤ n)) h (l, few)

  pub array-no_bytes :
      (n : ℕ) (s' : ArrayStream) → read_block s n ≡ ([], s') → (n ≡ 0) ⊎ (left_in_array s ≡ [])
  array-no_bytes n s' h = let (_, _, ended) = read_block-left s n in ended (ap (λ x. length x.0) h)

  pub array-bytes_skipped :
      (n k : ℕ) (s' : ArrayStream)
      → skip s n ≡ (k, s')
      → (k ≤ n) × (k ≤ length (left_in_array s)) × (left_in_array s' ≡ drop k (left_in_array s))
  array-bytes_skipped n k s' h =
      subst
        (λ x.
          (x.0 ≤ n)
          × (x.0 ≤ length (left_in_array s))
          × (left_in_array x.1 ≡ drop x.0 (left_in_array s)))
        h (skip-left s n)

-- The interface of the stream under a look-ahead stream is met.
abbrev pub array_raw : RawStream ArrayStream
array_raw = record {
  left_in = left_in_array;
  read_raw_byte = read;
  read_raw = read_block;
  skip_raw = skip;
  byte_read = array-byte_read;
  no_byte = array-no_byte;
  bytes_read = array-bytes_read;
  no_bytes = array-no_bytes;
  bytes_skipped = array-bytes_skipped;
}
