-- ===== src/Io/LookAhead/Blocks.antt =====
-- Reading and looking ahead by blocks: what is answered, and what is left to read.
use bas_cpp.Prelude.{
  ℕ, zero, suc, ◌+◌, ◌-◌, ◌^◌, ◌≤◌, ◌<◌, min, ◌≡◌, ◌⊎◌, inl, inr, refl, sym, ap, ◌∙◌, Bool, [],
  ◌++◌, append_assoc, arith, ◌==◌, Bool-cases, length, length-append, Bytes, slice, length-slice,
  slice-append,
}
use bas_cpp.Io.RawStream.{RawStream}
use bas_cpp.Io.LookAhead.{LookAhead, unread, prefetch, copy_loop, read_block, look_ahead_block}
use bas_cpp.Io.LookAhead.View.{IsOpen, view}
use bas_cpp.Io.LookAhead.Prefetch.{Prefetched, prefetch-Prefetched}

-- The bytes that were read: as many as were asked for, or all that were left.
pub record IsBlockRead {S : Type 0} (r : RawStream S) (a : LookAhead S) (len : ℕ)
    (x : Bytes × LookAhead S) : Type 0 where
  pub is_open : IsOpen x.1
  pub moves : x.1.pos ≤ a.pos + len
  pub in_front : view r a ≡ x.0 ++ view r x.1
  pub at_most : length x.0 ≤ len
  pub place_kept : x.1.position ≡ a.position
  pub all_or_end : (length x.0 ≡ len) ⊎ (view r x.1 ≡ [])

module _ {S : Type 0} (r : RawStream S) where
  open r use {left_in}

  nothing_asked : (a : LookAhead S) (len : ℕ) → IsOpen a → len ≡ 0 → IsBlockRead r a len ([], a)
  nothing_asked a len h z = record {
    is_open = h;
    moves = omega arith;
    in_front = refl;
    at_most = omega arith;
    place_kept = refl;
    all_or_end = inl (sym z);
  }

  nothing_left :
      (a b : LookAhead S) (ok : Bool) (len : ℕ)
      → Prefetched r a len (ok, b)
      → 0 < len
      → unread b ≡ 0
      → IsBlockRead r a len ([], b)
  nothing_left a b ok len h pos z =
      let later = h.not_later in
      record {
        is_open = h.is_open;
        moves = omega (arith, later);
        in_front = sym h.same_view;
        at_most = omega arith;
        place_kept = h.place_kept;
        all_or_end = inr (h.at_end pos z);
      }

  -- A part is read from the buffer, and the rest by further rounds.
  part_read :
      (a b : LookAhead S) (ok : Bool) (len n : ℕ) (x : Bytes × LookAhead S)
      → Prefetched r a len (ok, b)
      → n ≤ len
      → n ≤ unread b
      → IsBlockRead r (record b { pos = b.pos + n }) (len - n) x
      → IsBlockRead r a len (slice b.buffer b.pos (b.pos + n) ++ x.0, x.1)
  part_read a b ok len n x h few there rest =
      let later = h.not_later in
      let moved = rest.moves in
      let o = h.is_open in
      let ordered = o.in_order in
      let inside = o.in_buffer in
      let part = slice b.buffer b.pos (b.pos + n) in
      let l = length-slice b.buffer b.pos (b.pos + n) (omega arith) in
      let joined = length-append part x.0 in
      let short = rest.at_most in
      let split =
        slice-append b.buffer b.pos (b.pos + n) b.limit (omega arith) (omega arith) inside in
      record {
        is_open = rest.is_open;
        moves = omega (arith, later, moved);
        in_front =
            sym h.same_view
            ∙ ap (λ t. t ++ left_in b.raw) (sym split)
            ∙ append_assoc part (slice b.buffer (b.pos + n) b.limit) (left_in b.raw)
            ∙ ap (λ t. part ++ t) rest.in_front
            ∙ sym (append_assoc part x.0 (view r x.1));
        at_most = omega (arith, l, joined, short);
        place_kept = rest.place_kept ∙ h.place_kept;
        all_or_end = elim rest.all_or_end [
          | inl all ↦ inl (omega (arith, l, joined, all))
          | inr ended ↦ inr ended
        ];
      }

  -- The loop of a block read, on enough fuel.
  copy_loop-IsBlockRead :
      (fuel : ℕ) (a : LookAhead S) (len : ℕ)
      → IsOpen a
      → len ≤ fuel
      → a.pos + len ≤ 2 ^ 63
      → IsBlockRead r a len (copy_loop r fuel a len)
  unfolding copy_loop
  copy_loop-IsBlockRead zero a len h enough small = nothing_asked a len h (omega arith)
  copy_loop-IsBlockRead (suc fuel) a len h enough small =
      let pre = prefetch-Prefetched r a len h small in
      let later = pre.not_later in
      let o = pre.is_open in
      let ordered = o.in_order in
      let b = (prefetch r a len).1 in
      let n = min len (unread b) in
      let next : 0 < n
          → IsBlockRead r (record b { pos = b.pos + n }) (len - n)
              (copy_loop r fuel (record b { pos = b.pos + n }) (len - n)) =
        λ some_there.
          copy_loop-IsBlockRead fuel (record b { pos = b.pos + n }) (len - n)
            (record { in_order = omega arith; in_buffer = o.in_buffer; some_room = o.some_room })
            (omega arith) (omega (arith, later)) in
      elim (Bool-cases (len == 0)) [
        | inl e ↦ rw e (nothing_asked a len h (ground arith))
        | inr e ↦ elim (Bool-cases (unread b == 0)) [
          | inl z ↦
              rw (e, z)
                (nothing_left a b (prefetch r a len).0 len pre (ground arith) (ground arith))
          | inr nz ↦
              rw (e, nz)
                (part_read a b (prefetch r a len).0 len n
                  (copy_loop r fuel (record b { pos = b.pos + n }) (len - n)) pre (omega arith)
                  (omega arith) (next (ground arith)))
        ]
      ]

  -- A block read: what is answered was in front of what is left, and the position moves on by as much.
  pub read_block-IsBlockRead :
      (a : LookAhead S) (len : ℕ)
      → IsOpen a
      → a.pos + len ≤ 2 ^ 63
      → IsOpen (read_block r a len).1
        × ((read_block r a len).1.pos ≤ a.pos + len)
        × (view r a ≡ (read_block r a len).0 ++ view r (read_block r a len).1)
        × (length (read_block r a len).0 ≤ len)
        × ((length (read_block r a len).0 ≡ len) ⊎ (view r (read_block r a len).1 ≡ []))
        × ((read_block r a len).1.position ≡ a.position + length (read_block r a len).0)
  unfolding read_block
  read_block-IsBlockRead a len h small =
      let b = copy_loop-IsBlockRead len a len h (omega arith) small in
      let o = b.is_open in
      (
        record { in_order = o.in_order; in_buffer = o.in_buffer; some_room = o.some_room },
        b.moves,
        b.in_front,
        b.at_most,
        b.all_or_end,
        ap (λ t. t + length (copy_loop r len a len).0) b.place_kept,
      )

  -- The bytes looked at are in front, and there are some unless the stream is at its end.
  pub look_ahead_block-Looks :
      (a : LookAhead S) (len : ℕ)
      → IsOpen a
      → a.pos + len ≤ 2 ^ 63
      → IsOpen (look_ahead_block r a len).1
        × ((look_ahead_block r a len).1.pos ≤ a.pos)
        × (view r (look_ahead_block r a len).1 ≡ view r a)
        × ((look_ahead_block r a len).1.position ≡ a.position)
        × ((zs : Bytes) × (view r a ≡ (look_ahead_block r a len).0 ++ zs))
        × (length (look_ahead_block r a len).0 ≤ len)
        × (0 < len → length (look_ahead_block r a len).0 ≡ 0 → view r a ≡ [])
  unfolding look_ahead_block
  look_ahead_block-Looks a len h small =
      let pre = prefetch-Prefetched r a len h small in
      let b = (prefetch r a len).1 in
      let o = pre.is_open in
      let ordered = o.in_order in
      let inside = o.in_buffer in
      let n = min len (unread b) in
      let l = length-slice b.buffer b.pos (b.pos + n) (omega arith) in
      let split =
        slice-append b.buffer b.pos (b.pos + n) b.limit (omega arith) (omega arith) inside in
      (
        o,
        pre.not_later,
        pre.same_view,
        pre.place_kept,
        (
          slice b.buffer (b.pos + n) b.limit ++ left_in b.raw,
          sym pre.same_view
              ∙ ap (λ t. t ++ left_in b.raw) (sym split)
              ∙ append_assoc (slice b.buffer b.pos (b.pos + n)) (slice b.buffer (b.pos + n) b.limit)
                  (left_in b.raw),
        ),
        omega (arith, l),
        λ pos z. sym pre.same_view ∙ pre.at_end pos (omega (arith, l, z, pos)),
      )
