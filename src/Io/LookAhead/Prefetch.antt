-- ===== src/Io/LookAhead/Prefetch.antt =====
-- prefetch: it changes nothing of what is left to read, and finds a byte if there is one.
use bas_cpp.Prelude.{
  ℕ, ◌+◌, ◌-◌, ◌^◌, ◌≤◌, ◌<◌, min, ◌≡◌, inl, inr, refl, sym, ap, ◌∙◌, Bool, true, false, Option,
  none, some, [], ◌∷◌, ◌++◌, append_assoc, arith, ◌==◌, ltb, leb, Bool-cases, length, Bytes,
  put_bytes, length-put_bytes, slice-put_bytes,
}
use bas_cpp.Io.RawStream.{RawStream}
use bas_cpp.Io.LookAhead.{
  LookAhead, unread, expand_capacity, compact, fill_byte, fill_block, fill, prefetch_expanded,
  prefetch,
}
use bas_cpp.Io.LookAhead.View.{
  IsOpen, front, view, length-front, SameFront, expand_capacity-SameFront, expand_capacity-room,
  compact-SameFront, compact-pos,
}

-- What a prefetch of `len` bytes comes to.
pub record Prefetched {S : Type 0} (r : RawStream S) (a : LookAhead S) (len : ℕ)
    (x : Bool × LookAhead S) : Type 0 where
  pub is_open : IsOpen x.1
  pub same_view : view r x.1 ≡ view r a
  pub place_kept : x.1.position ≡ a.position
  pub not_later : x.1.pos ≤ a.pos
  pub found : x.0 ≡ true → 0 < len → 0 < unread x.1
  pub not_found : x.0 ≡ false → len ≡ 1 → unread x.1 ≡ 0
  pub at_end : 0 < len → unread x.1 ≡ 0 → view r x.1 ≡ []

module _ {S : Type 0} (r : RawStream S) where
  open r use {left_in, read_raw_byte, read_raw, byte_read, no_byte, bytes_read, no_bytes}

  -- A stream with nothing unread in its buffer.
  view-left : (a : LookAhead S) → IsOpen a → unread a ≡ 0 → left_in a.raw ≡ [] → view r a ≡ []
  view-left a h none_unread ended =
      let n = length-front a h in rw ended (nothing (front a) (omega (arith, n, none_unread)))
    where
      nothing : (xs : Bytes) → length xs ≡ 0 → xs ++ [] ≡ []
      nothing [] e = refl
      nothing (x ∷ xs) e = absurd (omega (arith, e))

  fill_byte-Prefetched :
      (a : LookAhead S) (len : ℕ) (x : Option ℕ × S)
      → IsOpen a
      → a.limit < length a.buffer
      → unread a < len
      → read_raw_byte a.raw ≡ x
      → Prefetched r a len (fill_byte r a x)
  unfolding fill_byte
  fill_byte-Prefetched a len (none, raw) h room short e =
      let (before, after) = no_byte a.raw raw e in
      let same : left_in raw ≡ left_in a.raw = after ∙ sym before in
      record {
        is_open = record {
          in_order = h.in_order;
          in_buffer = h.in_buffer;
          some_room = h.some_room;
        };
        same_view = ap (λ t. front a ++ t) same;
        place_kept = refl;
        not_later = omega arith;
        found = λ f. absurd cc;
        not_found = λ _ one. omega (arith, short, one);
        at_end = λ _ z. same_view_end a raw h z after;
      }
    where
      same_view_end :
          (a : LookAhead S) (raw : S)
          → IsOpen a
          → unread a ≡ 0
          → left_in raw ≡ []
          → front a ++ left_in raw ≡ []
      same_view_end a raw h z ended =
          view-left (record a { raw = raw })
            (record { in_order = h.in_order; in_buffer = h.in_buffer; some_room = h.some_room }) z
            ended
  fill_byte-Prefetched a len (some b, raw) h room short e =
      let rest = byte_read a.raw b raw e in
      let ordered = h.in_order in
      let longer = slice-put_bytes a.buffer a.pos a.limit (b ∷ []) ordered (omega arith) in
      let l = length-put_bytes a.buffer a.limit (b ∷ []) in
      unfold put_bytes in
      record {
        is_open = record {
          in_order = omega arith;
          in_buffer = omega (arith, l);
          some_room = λ _. omega (arith, l);
        };
        same_view = rw (longer, rest) (append_assoc (front a) (b ∷ []) (left_in raw));
        place_kept = refl;
        not_later = omega arith;
        found = λ _ _. omega arith;
        not_found = λ f. absurd cc;
        at_end = λ _ z. absurd (omega (arith, z));
      }

  view-no_bytes :
      (a : LookAhead S) (n : ℕ) (out : Bytes) (raw : S)
      → IsOpen a
      → unread a ≡ 0
      → 0 < n
      → length out ≡ 0
      → read_raw a.raw n ≡ (out, raw)
      → view r a ≡ []
  view-no_bytes a n [] raw h none_unread pos z e = elim (no_bytes a.raw n raw e) [
    | inl none_asked ↦ absurd (omega (arith, pos, none_asked))
    | inr ended ↦ view-left a h none_unread ended
  ]
  view-no_bytes a n (b ∷ out) raw h none_unread pos z e = absurd (omega (arith, z))

  fill_block-Prefetched :
      (a : LookAhead S) (len to_read : ℕ) (x : Bytes × S)
      → IsOpen a
      → a.limit + to_read ≤ length a.buffer
      → (unread a ≡ 0 → 0 < len → 0 < to_read)
      → read_raw a.raw to_read ≡ x
      → Prefetched r a len (fill_block r a len x)
  unfolding fill_block
  fill_block-Prefetched a len to_read (out, raw) h room some_asked e =
      let (rest, few) = bytes_read a.raw to_read out raw e in
      let ordered = h.in_order in
      let inside = h.in_buffer in
      let longer = slice-put_bytes a.buffer a.pos a.limit out ordered (omega arith) in
      let l = length-put_bytes a.buffer a.limit out in
      record {
        is_open = record {
          in_order = omega arith;
          in_buffer = omega (arith, l);
          some_room = λ u. let s = h.some_room u in omega (arith, l, s);
        };
        same_view = rw (longer, rest) (append_assoc (front a) out (left_in raw));
        place_kept = refl;
        not_later = omega arith;
        found = λ f pos. ground arith;
        not_found = λ f one. ground arith;
        at_end = λ pos z.
            rw (longer, append_assoc (front a) out (left_in raw), ← rest)
              (view-no_bytes a to_read out raw h (omega (arith, z))
                (some_asked (omega (arith, z)) pos) (omega (arith, z)) e);
      }

  fill-Prefetched :
      (a : LookAhead S) (len to_read : ℕ)
      → IsOpen a
      → a.limit + to_read ≤ length a.buffer
      → unread a < len
      → (unread a ≡ 0 → 0 < len → 0 < to_read)
      → Prefetched r a len (fill r a len to_read)
  unfolding fill
  fill-Prefetched a len to_read h room short some_asked = elim (Bool-cases (to_read == 1)) [
    | inl e ↦ rw e (fill_byte-Prefetched a len (read_raw_byte a.raw) h (ground arith) short refl)
    | inr e ↦
        rw e (fill_block-Prefetched a len to_read (read_raw a.raw to_read) h room some_asked refl)
  ]

  -- The same for a state with the same unread bytes.
  Prefetched-SameFront :
      (a b : LookAhead S) (len : ℕ) (x : Bool × LookAhead S)
      → SameFront a b
      → Prefetched r b len x
      → Prefetched r a len x
  Prefetched-SameFront a b len x same h =
      let earlier = same.no_later in
      let later = h.not_later in
      record {
        is_open = h.is_open;
        same_view = rw (← same.same_front, ← same.same_raw) h.same_view;
        place_kept = h.place_kept ∙ same.same_position;
        not_later = omega (arith, earlier, later);
        found = h.found;
        not_found = h.not_found;
        at_end = h.at_end;
      }

  already-Prefetched :
      (a : LookAhead S) (len : ℕ) → IsOpen a → len ≤ unread a → Prefetched r a len (true, a)
  already-Prefetched a len h enough = record {
    is_open = h;
    same_view = refl;
    place_kept = refl;
    not_later = omega arith;
    found = λ _ pos. omega arith;
    not_found = λ f. absurd cc;
    at_end = λ pos z. absurd (omega (arith, z, pos, enough));
  }

  -- A buffer that can grow has grown enough.
  abbrev HasRoom : LookAhead S → ℕ → Type 0
  HasRoom a len = a.unlimit ≡ true → a.pos + len ≤ length a.buffer

  kept_fill :
      (a : LookAhead S) (len : ℕ)
      → IsOpen a
      → unread a < len
      → len ≤ length a.buffer - a.pos
      → Prefetched r a len (fill r a len (min (len - unread a) (length a.buffer - a.limit)))
  kept_fill a len h short room =
      let ordered = h.in_order in
      let inside = h.in_buffer in
      fill-Prefetched a len (min (len - unread a) (length a.buffer - a.limit)) h (omega arith) short
        (λ z pos. omega arith)

  compacted_fill :
      (a : LookAhead S) (len : ℕ)
      → IsOpen a
      → a.unlimit ≡ false
      → unread a < len
      → Prefetched r a len
          (fill r (compact a) len (min (len - unread a) (length a.buffer - (compact a).limit)))
  compacted_fill a len h u short =
      let same = compact-SameFront a h in
      let (at, size) = compact-pos a u in
      let b = compact a in
      let ob = same.still_open in
      let same_unread = same.same_unread in
      let inside = ob.in_buffer in
      let some = h.some_room u in
      Prefetched-SameFront a b len (fill r b len (min (len - unread a) (length a.buffer - b.limit)))
        same
        (fill-Prefetched b len (min (len - unread a) (length a.buffer - b.limit)) ob
          (omega (arith, size, inside)) (omega (arith, same_unread))
          (λ z pos. omega (arith, z, pos, at, size, some, same_unread)))

  prefetch_expanded-Prefetched :
      (a : LookAhead S) (len : ℕ)
      → IsOpen a
      → HasRoom a len
      → Prefetched r a len (prefetch_expanded r a len)
  unfolding prefetch_expanded
  prefetch_expanded-Prefetched a len h room = elim (Bool-cases (leb len (unread a))) [
    | inl enough ↦ rw enough (already-Prefetched a len h (ground arith))
    | inr short ↦ rw short (elim (Bool-cases (ltb (length a.buffer - a.pos) len)) [
      | inr kept ↦ rw kept (kept_fill a len h (ground arith) (ground arith))
      | inl moved ↦
          rw moved (compacted_fill a len h (not_growing a len h room moved) (ground arith))
    ])
  ]
    where
      not_growing :
          (a : LookAhead S) (len : ℕ)
          → IsOpen a
          → HasRoom a len
          → ltb (length a.buffer - a.pos) len ≡ true
          → a.unlimit ≡ false
      not_growing a len h room moved = elim (Bool-cases a.unlimit) [
        | inl u ↦ let enough = room u in absurd (ground arith)
        | inr u ↦ u
      ]

  -- prefetch on a stream that is open.
  pub prefetch-Prefetched :
      (a : LookAhead S) (len : ℕ)
      → IsOpen a
      → a.pos + len ≤ 2 ^ 63
      → Prefetched r a len (prefetch r a len)
  unfolding prefetch
  prefetch-Prefetched a len h small =
      let b = expand_capacity a (a.pos + len) in
      let same = expand_capacity-SameFront a (a.pos + len) h in
      let earlier = same.no_later in
      Prefetched-SameFront a b len (prefetch_expanded r b len) same (
        prefetch_expanded-Prefetched b len same.still_open (λ u.
          let room =
            expand_capacity-room a (a.pos + len) (omega arith) (sym same.same_unlimit ∙ u) in
          omega (arith, room, earlier)))
