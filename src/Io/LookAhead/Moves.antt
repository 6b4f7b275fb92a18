-- ===== src/Io/LookAhead/Moves.antt =====
-- Moving without reading: skip, and reject after a byte was read.
use bas_cpp.Prelude.{
  ℕ, ◌+◌, ◌-◌, ◌^◌, ◌≤◌, ◌<◌, ◌≡◌, inl, inr, refl, sym, ap, ◌∙◌, Bool, true, false, ◌++◌, arith,
  ltb, leb, Bool-cases, length, length-append, drop, drop-append_left, drop-append_right,
  drop-slice,
}
use bas_cpp.Io.RawStream.{RawStream}
use bas_cpp.Io.LookAhead.{LookAhead, unread, prefetch, take_byte, read, skip_rest, skip, reject}
use bas_cpp.Io.LookAhead.View.{IsOpen, front, view, length-front}
use bas_cpp.Io.LookAhead.Prefetch.{Prefetched, prefetch-Prefetched}

-- As many bytes as are answered are dropped in front of what is left.
pub record IsSkipped {S : Type 0} (r : RawStream S) (a : LookAhead S) (len : ℕ)
    (x : ℕ × LookAhead S) : Type 0 where
  pub is_open : IsOpen x.1
  pub moves : x.1.pos ≤ a.pos + len
  pub at_most : x.0 ≤ len
  pub in_rest : x.0 ≤ length (view r a)
  pub dropped : view r x.1 ≡ drop x.0 (view r a)
  pub place_moved : x.1.position ≡ a.position + x.0

module _ {S : Type 0} (r : RawStream S) where
  open r use {left_in, skip_raw, bytes_skipped}

  -- What is skipped is in the buffer.
  front-IsSkipped :
      (a : LookAhead S) (len : ℕ)
      → IsOpen a
      → len ≤ unread a
      → IsSkipped r a len (len, record a { pos = a.pos + len; position = a.position + len })
  front-IsSkipped a len h enough =
      let ordered = h.in_order in
      let inside = h.in_buffer in
      let n = length-front a h in
      let both = length-append (front a) (left_in a.raw) in
      record {
        is_open = record { in_order = omega arith; in_buffer = inside; some_room = h.some_room };
        moves = omega arith;
        at_most = omega arith;
        in_rest = omega (arith, n, both);
        dropped = rw (drop-append_left (front a) (left_in a.raw) len (omega (arith, n))) (
            ap (λ t. t ++ left_in a.raw)
              (sym (drop-slice a.buffer a.pos a.limit len (omega arith) inside)));
        place_moved = refl;
      }

  skip_rest-IsSkipped :
      (a : LookAhead S) (len : ℕ) (x : ℕ × S)
      → IsOpen a
      → unread a < len
      → skip_raw a.raw (len - unread a) ≡ x
      → IsSkipped r a len (skip_rest r a (unread a) x)
  unfolding skip_rest
  skip_rest-IsSkipped a len (k, raw) h more e =
      let (few, there, rest) = bytes_skipped a.raw (len - unread a) k raw e in
      let n = length-front a h in
      let both = length-append (front a) (left_in a.raw) in
      record {
        is_open = record {
          in_order = omega arith;
          in_buffer = omega arith;
          some_room = h.some_room;
        };
        moves = omega arith;
        at_most = omega (arith, few, more);
        in_rest = omega (arith, n, both, there);
        dropped =
            rest
            ∙ sym (
                ap (λ t. drop (t + k) (view r a)) (sym n)
                ∙ drop-append_right (front a) (left_in a.raw) k);
        place_moved = omega arith;
      }

  pub skip-IsSkipped : (a : LookAhead S) (len : ℕ) → IsOpen a → IsSkipped r a len (skip r a len)
  unfolding skip
  skip-IsSkipped a len h = elim (Bool-cases (leb len (unread a))) [
    | inl e ↦ rw e (front-IsSkipped a len h (ground arith))
    | inr e ↦
        rw e (skip_rest-IsSkipped a len (skip_raw a.raw (len - unread a)) h (ground arith) refl)
  ]

  -- Giving back one byte after `take_byte` gives back the byte that it took.
  reject-take_byte :
      (a b : LookAhead S) (ok : Bool)
      → Prefetched r a 1 (ok, b)
      → ok ≡ true
      → a.position < 2 ^ 63
      → ((reject (take_byte r (ok, b)).1 1).0 ≡ true)
        × (view r (reject (take_byte r (ok, b)).1 1).1 ≡ view r a)
        × ((reject (take_byte r (ok, b)).1 1).1.position ≡ a.position)
  unfolding take_byte reject
  reject-take_byte a b false h f small = absurd cc
  reject-take_byte a b true h f small =
      let place = h.place_kept in
      let at : ltb (b.pos + 1) 1 ≡ false = ground arith in
      let back : b.pos + 1 - 1 ≡ b.pos = omega arith in
      rw (at, back) (refl, h.same_view, omega (arith, place, small))

  -- One byte is given back after it was read.
  pub reject-read :
      (a : LookAhead S)
      → IsOpen a
      → a.pos + 1 ≤ 2 ^ 63
      → a.position < 2 ^ 63
      → 0 < length (view r a)
      → ((reject (read r a).1 1).0 ≡ true)
        × (view r (reject (read r a).1 1).1 ≡ view r a)
        × ((reject (read r a).1 1).1.position ≡ a.position)
  unfolding read
  reject-read a h small place some_left =
      let pre = prefetch-Prefetched r a 1 h small in
      reject-take_byte a (prefetch r a 1).1 (prefetch r a 1).0 pre (has_byte (prefetch r a 1) pre)
        place
    where
      has_byte : (x : Bool × LookAhead S) → Prefetched r a 1 x → x.0 ≡ true
      has_byte (true, b) f = refl
      has_byte (false, b) f =
          let none_left =
            ap length (sym f.same_view ∙ f.at_end (omega arith) (f.not_found refl refl)) in
          absurd (omega (arith, none_left, some_left))
