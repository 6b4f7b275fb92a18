-- ===== src/Io/LookAhead/Reads.antt =====
-- Reading and looking ahead: what is answered, and what is left to read.
use bas_cpp.Prelude.{
  ℕ, ◌+◌, ◌^◌, ◌≤◌, ◌<◌, ◌≡◌, ◌⊎◌, inl, inr, refl, sym, ap, ◌∙◌, Bool, true, false, Option, none,
  some, [], ◌∷◌, ◌++◌, arith, get_or, slice, slice-cons,
}
use bas_cpp.Io.RawStream.{RawStream}
use bas_cpp.Io.LookAhead.{LookAhead, unread, prefetch, take_byte, read, peek, look_ahead}
use bas_cpp.Io.LookAhead.View.{IsOpen, view, first_of}
use bas_cpp.Io.LookAhead.Prefetch.{Prefetched, prefetch-Prefetched}

-- A byte was read, or there was none.
pub record IsByteRead {S : Type 0} (r : RawStream S) (a : LookAhead S) (x : Option ℕ × LookAhead S)
    : Type 0 where
  pub is_open : IsOpen x.1
  pub moves : x.1.pos ≤ a.pos + 1
  pub answer :
      ((x.0 ≡ none) × (view r a ≡ []) × (view r x.1 ≡ []) × (x.1.position ≡ a.position))
      ⊎ ((b : ℕ) × (x.0 ≡ some b)
          × (view r a ≡ b ∷ view r x.1)
          × (x.1.position ≡ a.position + 1)
          × (0 < x.1.pos))

module _ {S : Type 0} (r : RawStream S) where
  open r use {left_in}

  view-cons :
      (a : LookAhead S)
      → IsOpen a
      → 0 < unread a
      → view r a ≡ get_or a.buffer a.pos 0 ∷ (slice a.buffer (a.pos + 1) a.limit ++ left_in a.raw)
  view-cons a h some_unread =
      let inside = h.in_buffer in rw (slice-cons a.buffer a.pos a.limit (omega arith) inside) refl

  take_byte-IsByteRead :
      (a : LookAhead S) (x : Bool × LookAhead S)
      → Prefetched r a 1 x
      → IsByteRead r a (take_byte r x)
  unfolding take_byte
  take_byte-IsByteRead a (false, b) h =
      let later = h.not_later in
      let ended = h.at_end (omega arith) (h.not_found refl refl) in
      record {
        is_open = h.is_open;
        moves = omega (arith, later);
        answer = inl (refl, sym h.same_view ∙ ended, ended, h.place_kept);
      }
  take_byte-IsByteRead a (true, b) h =
      let later = h.not_later in
      let some_unread = h.found refl (omega arith) in
      let o = h.is_open in
      let inside = o.in_buffer in
      let place = h.place_kept in
      record {
        is_open = record { in_order = omega arith; in_buffer = inside; some_room = o.some_room };
        moves = omega (arith, later);
        answer = inr (
          get_or b.buffer b.pos 0,
          refl,
          sym h.same_view ∙ view-cons b o some_unread,
          omega (arith, place),
          omega arith,
        );
      }

  pub read-IsByteRead :
      (a : LookAhead S) → IsOpen a → a.pos + 1 ≤ 2 ^ 63 → IsByteRead r a (read r a)
  unfolding read
  read-IsByteRead a h small =
      take_byte-IsByteRead a (prefetch r a 1) (prefetch-Prefetched r a 1 h small)

  -- The byte looked at is the one in front, and the stream is as it was.
  peek-Looks :
      (a : LookAhead S) (x : Bool × LookAhead S)
      → Prefetched r a 1 x
      → IsOpen (peek r x).1
        × ((peek r x).1.pos ≤ a.pos)
        × (view r (peek r x).1 ≡ view r a)
        × ((peek r x).1.position ≡ a.position)
        × ((peek r x).0 ≡ first_of (view r a))
  unfolding peek
  peek-Looks a (false, b) h =
      let ended = h.at_end (omega arith) (h.not_found refl refl) in
      (
        h.is_open,
        h.not_later,
        h.same_view,
        h.place_kept,
        sym (ap first_of (sym h.same_view ∙ ended)),
      )
  peek-Looks a (true, b) h =
      let some_unread = h.found refl (omega arith) in
      (
        h.is_open,
        h.not_later,
        h.same_view,
        h.place_kept,
        sym (ap first_of (sym h.same_view ∙ view-cons b h.is_open some_unread)),
      )

  pub look_ahead-Looks :
      (a : LookAhead S)
      → IsOpen a
      → a.pos + 1 ≤ 2 ^ 63
      → IsOpen (look_ahead r a).1
        × ((look_ahead r a).1.pos ≤ a.pos)
        × (view r (look_ahead r a).1 ≡ view r a)
        × ((look_ahead r a).1.position ≡ a.position)
        × ((look_ahead r a).0 ≡ first_of (view r a))
  unfolding look_ahead
  look_ahead-Looks a h small = peek-Looks a (prefetch r a 1) (prefetch-Prefetched r a 1 h small)
