-- ===== src/Io/LookAhead/Lines.antt =====
-- readBytesUntilEOF and the lines: their loops end, and answer parts of what is left.
use bas_cpp.Prelude.{
  ℕ, zero, suc, ◌+◌, ◌^◌, ◌≤◌, ◌<◌, ◌≡◌, inl, inr, refl, ap, Option, none, some, [], ◌∷◌, arith,
  if◌then◌else◌, ◌==◌, Bool-cases, length, Bytes,
}
use bas_cpp.Io.RawStream.{RawStream}
use bas_cpp.Io.LookAhead.{LookAhead, read, read_on, read_until_eof, line_on, read_raw_line}
use bas_cpp.Io.LookAhead.View.{IsOpen, view}
use bas_cpp.Io.LookAhead.Reads.{IsByteRead, read-IsByteRead}

-- The first line of a text, with its newline, and what is behind it.
abbrev pub line_of : Bytes → Bytes
line_of [] = []
line_of (b ∷ bs) = if b == b'\n' then b ∷ [] else b ∷ line_of bs

abbrev pub after_line : Bytes → Bytes
after_line [] = []
after_line (b ∷ bs) = if b == b'\n' then bs else after_line bs

module _ {S : Type 0} (r : RawStream S) where
  -- What a loop comes to that goes on with `next` after a byte.
  read_on-view :
      (a : LookAhead S) (next : LookAhead S → Option Bytes) (x : Option ℕ × LookAhead S)
      → IsByteRead r a x
      → (length (view r x.1) < length (view r a) → next x.1 ≡ some (view r x.1))
      → read_on r next x ≡ some (view r a)
  unfolding read_on
  read_on-view a next (none, b) h go = elim h.answer [
    | inl (_, empty, _, _) ↦ rw empty refl
    | inr (_, e, _, _, _) ↦ absurd cc
  ]
  read_on-view a next (some c, b) h go = elim h.answer [
    | inl (e, _, _, _) ↦ absurd cc
    | inr (c', e, there, _, _) ↦
        let same : c' ≡ c = cc in
        let longer = ap length there in rw (there, same, go (omega (arith, longer))) refl
  ]

  -- readBytesUntilEOF on an open stream returns, after at most as many rounds as bytes are left and one
  -- more, and answers all that is left, where that many bytes and the index in the buffer are at most
  -- 2^63.
  pub read_until_eof-view :
      (fuel : ℕ) (a : LookAhead S)
      → IsOpen a
      → length (view r a) < fuel
      → a.pos + fuel ≤ 2 ^ 63
      → read_until_eof r fuel a ≡ some (view r a)
  unfolding read_until_eof
  read_until_eof-view zero a h enough small = absurd (omega (arith, enough))
  read_until_eof-view (suc fuel) a h enough small =
      let one = read-IsByteRead r a h (omega (arith, small)) in
      let moved = one.moves in
      read_on-view a (read_until_eof r fuel) (read r a) one (λ shorter.
        read_until_eof-view fuel (read r a).1 one.is_open (omega (arith, shorter, enough))
          (omega (arith, moved, small)))

  -- What readRawLine answers where `a` has left what it has: the line, with a stream that has the rest.
  pub IsLineRead : LookAhead S → Option (Bytes × LookAhead S) → Type 0
  IsLineRead a x =
      (b : LookAhead S) × (x ≡ some (line_of (view r a), b)) × (view r b ≡ after_line (view r a))

  line_on-IsLineRead :
      (a : LookAhead S) (next : LookAhead S → Option (Bytes × LookAhead S))
      (x : Option ℕ × LookAhead S)
      → IsByteRead r a x
      → (length (view r x.1) < length (view r a) → IsLineRead x.1 (next x.1))
      → IsLineRead a (line_on r next x)
  unfolding line_on IsLineRead
  line_on-IsLineRead a next (none, b) h go = elim h.answer [
    | inl (_, empty, still, _) ↦ (b, rw empty refl, rw empty still)
    | inr (_, e, _, _, _) ↦ absurd cc
  ]
  line_on-IsLineRead a next (some c, b) h go = elim h.answer [
    | inl (e, _, _, _) ↦ absurd cc
    | inr (c', e, there, _, _) ↦
        let same : c' ≡ c = cc in
        let longer = ap length there in
        let (d, line, rest) = go (omega (arith, longer)) in
        elim (Bool-cases (c == b'\n')) [
          | inl n ↦ (b, rw (there, same, n) refl, rw (there, same, n) refl)
          | inr n ↦ (d, rw (there, same, n, line) refl, rw (there, same, n) rest)
        ]
  ]

  -- readRawLine on an open stream returns, after at most as many rounds as bytes are left and one more:
  -- it answers what is left up to the first newline and with it, or all where there is none, and leaves
  -- what is behind. The bytes left and the index in the buffer are at most 2^63.
  pub read_raw_line-IsLineRead :
      (fuel : ℕ) (a : LookAhead S)
      → IsOpen a
      → length (view r a) < fuel
      → a.pos + fuel ≤ 2 ^ 63
      → IsLineRead a (read_raw_line r fuel a)
  unfolding read_raw_line
  read_raw_line-IsLineRead zero a h enough small = absurd (omega (arith, enough))
  read_raw_line-IsLineRead (suc fuel) a h enough small =
      let one = read-IsByteRead r a h (omega (arith, small)) in
      let moved = one.moves in
      line_on-IsLineRead a (read_raw_line r fuel) (read r a) one (λ shorter.
        read_raw_line-IsLineRead fuel (read r a).1 one.is_open (omega (arith, shorter, enough))
          (omega (arith, moved, small)))
