-- ===== src/Io/LookAhead/View.antt =====
-- What a stream has left to read: the unread bytes of the buffer, then those of the stream under it.
use bas_cpp.Prelude.{
  ℕ, zero, suc, ◌+◌, ◌-◌, ◌*◌, ◌^◌, ◌≤◌, ◌<◌, ◌≡◌, inl, inr, refl, ap, ◌∙◌, true, false, ◌&&◌, ◌||◌,
  Option, none, some, [], ◌∷◌, ◌++◌, arith, ◌==◌, ltb, Bool-cases, length, length-append, Bytes,
  put_bytes, slice, length-put_bytes, length-slice, get_or-slice, slice_ext, get_or-append_left,
  get_or-put_bytes_in,
}
use bas_cpp.Io.RawStream.{RawStream}
use bas_cpp.Io.LookAhead.{
  LookAhead, unread, zeros, align_from, align_to_next_power_of_two, resize, expand_capacity,
  compact,
}

-- The indices are in order, and there is room for a byte unless the buffer can grow.
pub record IsOpen {S : Type 0} (a : LookAhead S) : Type 0 where
  pub in_order : a.pos ≤ a.limit
  pub in_buffer : a.limit ≤ length a.buffer
  pub some_room : a.unlimit ≡ false → 0 < length a.buffer

abbrev pub front : {S : Type 0} → LookAhead S → Bytes
front a = slice a.buffer a.pos a.limit

abbrev pub view : {S : Type 0} → RawStream S → LookAhead S → Bytes
view r a = front a ++ r.left_in a.raw

pub length-front : {S : Type 0} (a : LookAhead S) → IsOpen a → length (front a) ≡ unread a
length-front a h = let b = h.in_buffer in length-slice a.buffer a.pos a.limit b

align_from-ge :
    (fuel power value : ℕ) → value ≤ power * 2 ^ fuel → value ≤ align_from fuel power value
unfolding align_from
align_from-ge zero power value h = omega (arith, h)
align_from-ge (suc fuel) power value h =
    let ih = align_from-ge fuel (power * 2) value (grind (arith, h)) in ground arith

pub align-ge : (value : ℕ) → value ≤ 2 ^ 64 → value ≤ align_to_next_power_of_two value
unfolding align_to_next_power_of_two
align-ge value h = align_from-ge 64 1 value (omega (arith, h))

length-zeros : (n : ℕ) → length (zeros n) ≡ n
length-zeros zero = refl
length-zeros (suc n) = ap suc (length-zeros n)

length-resize : (xs : Bytes) (n : ℕ) → length xs ≤ n → length (resize xs n) ≡ n
unfolding resize
length-resize xs n h =
    let l = length-append xs (zeros (n - length xs)) in
    let z = length-zeros (n - length xs) in omega (arith, l, z)

-- The same bytes are unread, in another place of the buffer.
pub record SameFront {S : Type 0} (a b : LookAhead S) : Type 0 where
  pub same_unlimit : b.unlimit ≡ a.unlimit
  pub same_front : front b ≡ front a
  pub same_unread : unread b ≡ unread a
  pub same_position : b.position ≡ a.position
  pub same_raw : b.raw ≡ a.raw
  pub no_later : b.pos ≤ a.pos
  pub no_smaller : length a.buffer ≤ length b.buffer
  pub still_open : IsOpen b

pub SameFront-refl : {S : Type 0} (a : LookAhead S) → IsOpen a → SameFront a a
SameFront-refl a h = record {
  same_unlimit = refl;
  same_front = refl;
  same_unread = refl;
  same_position = refl;
  same_raw = refl;
  no_later = omega arith;
  no_smaller = omega arith;
  still_open = h;
}

resized :
    {S : Type 0} (a : LookAhead S) (n : ℕ)
    → IsOpen a
    → length a.buffer < n
    → SameFront a (record a { buffer = resize a.buffer n })
resized a n h more =
    let l = length-resize a.buffer n (omega arith) in
    let ordered = h.in_order in
    let inside = h.in_buffer in
    record {
      same_unlimit = refl;
      same_front =
          slice_ext (resize a.buffer n) a.buffer a.pos a.limit a.pos a.limit (omega (arith, l))
            inside refl
            (λ k b.
              unfold resize in
              get_or-append_left a.buffer (zeros (n - length a.buffer)) (a.pos + k) (omega arith));
      same_unread = refl;
      same_position = refl;
      same_raw = refl;
      no_later = omega arith;
      no_smaller = omega (arith, l);
      still_open = record {
        in_order = ordered;
        in_buffer = omega (arith, l);
        some_room = λ _. omega (arith, l);
      };
    }

pub expand_capacity-SameFront :
    {S : Type 0} (a : LookAhead S) (n : ℕ) → IsOpen a → SameFront a (expand_capacity a n)
unfolding expand_capacity
expand_capacity-SameFront a n h =
    elim (Bool-cases (a.unlimit && ltb (length a.buffer) (align_to_next_power_of_two n))) [
      | inl e ↦ rw e (resized a (align_to_next_power_of_two n) h (ground arith))
      | inr e ↦ rw e (SameFront-refl a h)
    ]

-- A buffer that can grow has room for what is asked.
pub expand_capacity-room :
    {S : Type 0} (a : LookAhead S) (n : ℕ)
    → n ≤ 2 ^ 64
    → a.unlimit ≡ true
    → n ≤ length (expand_capacity a n).buffer
unfolding expand_capacity
expand_capacity-room a n h u =
    let large = align-ge n h in
    elim (Bool-cases (ltb (length a.buffer) (align_to_next_power_of_two n))) [
      | inl e ↦
          let l = length-resize a.buffer (align_to_next_power_of_two n) (ground arith) in
          rw (u, e) (omega (arith, l, large))
      | inr e ↦ rw (u, e) (ground (arith, large))
    ]

compacted :
    {S : Type 0} (a : LookAhead S)
    → IsOpen a
    → SameFront a
        (record a { buffer = put_bytes a.buffer 0 (front a); limit = a.limit - a.pos; pos = 0 })
compacted a h =
    let ordered = h.in_order in
    let inside = h.in_buffer in
    let n = length-front a h in
    let l = length-put_bytes a.buffer 0 (front a) in
    record {
      same_unlimit = refl;
      same_front =
          slice_ext (put_bytes a.buffer 0 (front a)) a.buffer 0 (a.limit - a.pos) a.pos a.limit
            (omega (arith, l)) inside (omega arith)
            (λ k b.
              get_or-put_bytes_in a.buffer 0 k (front a) (omega (arith, n)) (omega (arith, n))
              ∙ get_or-slice a.buffer a.pos a.limit k (omega arith));
      same_unread = omega arith;
      same_position = refl;
      same_raw = refl;
      no_later = omega arith;
      no_smaller = omega (arith, l);
      still_open = record {
        in_order = omega arith;
        in_buffer = omega (arith, l);
        some_room = λ u. let s = h.some_room u in omega (arith, l, s);
      };
    }

pub compact-SameFront : {S : Type 0} (a : LookAhead S) → IsOpen a → SameFront a (compact a)
unfolding compact
compact-SameFront a h = elim (Bool-cases (a.unlimit || (a.pos == 0))) [
  | inl e ↦ rw e (SameFront-refl a h)
  | inr e ↦ rw e (compacted a h)
]

-- A buffer of fixed size is empty in front after it is compacted, and has its size.
pub compact-pos :
    {S : Type 0} (a : LookAhead S)
    → a.unlimit ≡ false
    → ((compact a).pos ≡ 0) × (length (compact a).buffer ≡ length a.buffer)
unfolding compact
compact-pos a u = elim (Bool-cases (a.pos == 0)) [
  | inl e ↦ rw (u, e) (ground arith, refl)
  | inr e ↦ rw (u, e) (refl, length-put_bytes a.buffer 0 (front a))
]

-- The byte in front, or none at the end.
abbrev pub first_of : Bytes → Option ℕ
first_of [] = none
first_of (b ∷ bs) = some b
