-- ===== src/Prelude/Memory.antt =====
-- memcpy: bytes written over others, and the parts of a list of bytes.
use Prim.Native.Nat.{ℕ, zero, suc, ◌+◌, ◌-◌, ◌≤◌, ◌<◌, min}
use mathlib.Core.Path.{◌≡◌, refl, sym, ap, ◌∙◌}
use mathlib.Core.Logic.{◌≢◌, ◌⊎◌, inl}
use mathlib.Core.List.{[], ◌∷◌, ◌++◌}
use native.Mathlib.Omega.{arith}
use native.Mathlib.Decide.{dec_lt}
use bas_cpp.Prelude.Lists.{
  length, get_or, set, take, drop, length-set, length-append, get_or-set_self, get_or-set_ne,
  get_or-take, get_or-drop, list_ext,
}
use bas_cpp.Prelude.Text.{Bytes}

-- memcpy into `bytes`, from `offset` on.
unfoldable pub put_bytes : Bytes → ℕ → Bytes → Bytes
put_bytes bytes offset [] = bytes
put_bytes bytes offset (b ∷ bs) = put_bytes (set bytes offset b) (offset + 1) bs

pub length-put_bytes :
    (bytes : Bytes) (offset : ℕ) (bs : Bytes) → length (put_bytes bytes offset bs) ≡ length bytes
unfolding put_bytes
length-put_bytes bytes offset [] = refl
length-put_bytes bytes offset (b ∷ bs) =
    rw (length-put_bytes (set bytes offset b) (offset + 1) bs) (length-set bytes offset b)

pub put_bytes-append :
    (bytes : Bytes) (offset : ℕ) (front back : Bytes)
    → put_bytes bytes offset (front ++ back)
      ≡ put_bytes (put_bytes bytes offset front) (offset + length front) back
unfolding put_bytes
put_bytes-append bytes offset [] back = let at : offset + 0 ≡ offset = omega arith in rw at refl
put_bytes-append bytes offset (b ∷ front) back =
    let ih = put_bytes-append (set bytes offset b) (offset + 1) front back in
    let at : offset + 1 + length front ≡ offset + suc (length front) = omega arith in rw (← at) ih

pub get_or-put_bytes_out :
    (bytes : Bytes) (offset i : ℕ) (bs : Bytes)
    → (i < offset) ⊎ (offset + length bs ≤ i)
    → get_or (put_bytes bytes offset bs) i 0 ≡ get_or bytes i 0
unfolding put_bytes
get_or-put_bytes_out bytes offset i [] h = refl
get_or-put_bytes_out bytes offset i (b ∷ bs) h =
    let ih = get_or-put_bytes_out (set bytes offset b) (offset + 1) i bs (ground arith) in
    let apart : offset ≢ i = ground arith in rw ih (get_or-set_ne bytes offset i b 0 apart)

-- The first of the bytes that were put.
get_or-put_bytes_head :
    (bytes : Bytes) (p b : ℕ) (bs : Bytes)
    → p < length bytes
    → get_or (put_bytes bytes p (b ∷ bs)) p 0 ≡ b
unfolding put_bytes
get_or-put_bytes_head bytes p b bs h =
    rw (get_or-put_bytes_out (set bytes p b) (p + 1) p bs (inl (omega arith)))
      (get_or-set_self bytes p b 0 h)

-- The bytes that were put are read back from their places.
pub get_or-put_bytes_in :
    (bytes : Bytes) (p k : ℕ) (bs : Bytes)
    → k < length bs
    → p + length bs ≤ length bytes
    → get_or (put_bytes bytes p bs) (p + k) 0 ≡ get_or bs k 0
unfolding put_bytes
get_or-put_bytes_in bytes p k [] h room = absurd (omega arith)
get_or-put_bytes_in bytes p zero (b ∷ bs) h room =
    let at : p + 0 ≡ p = omega arith in rw at (get_or-put_bytes_head bytes p b bs (omega arith))
get_or-put_bytes_in bytes p (suc k) (b ∷ bs) h room =
    let kept = length-set bytes p b in
    let ih = get_or-put_bytes_in (set bytes p b) (p + 1) k bs (omega arith) (omega (arith, kept)) in
    let at : p + 1 + k ≡ p + suc k = omega arith in rw (← at) ih

pub get_or-append_left :
    (xs ys : Bytes) (i : ℕ) → i < length xs → get_or (xs ++ ys) i 0 ≡ get_or xs i 0
get_or-append_left [] ys i h = absurd (omega arith)
get_or-append_left (x ∷ xs) ys zero h = refl
get_or-append_left (x ∷ xs) ys (suc i) h = get_or-append_left xs ys i (omega arith)

pub get_or-append_right :
    (xs ys : Bytes) (i k : ℕ) → i ≡ length xs + k → get_or (xs ++ ys) i 0 ≡ get_or ys k 0
get_or-append_right [] ys i k h = let e : i ≡ k = omega (arith, h) in rw e refl
get_or-append_right (x ∷ xs) ys zero k h = absurd (omega (arith, h))
get_or-append_right (x ∷ xs) ys (suc i) k h = get_or-append_right xs ys i k (omega (arith, h))

-- The bytes from `i` to `j`.
abbrev pub slice : Bytes → ℕ → ℕ → Bytes
slice xs i j = take (j - i) (drop i xs)

length-drop_lem : (n : ℕ) (xs : Bytes) → length (drop n xs) ≡ length xs - n
length-drop_lem zero xs = omega arith
length-drop_lem (suc n) [] = omega arith
length-drop_lem (suc n) (x ∷ xs) = omega (arith, length-drop_lem n xs)

length-take_lem : (n : ℕ) (xs : Bytes) → n ≤ length xs → length (take n xs) ≡ n
length-take_lem zero xs h = refl
length-take_lem (suc n) [] h = absurd (omega arith)
length-take_lem (suc n) (x ∷ xs) h = ap suc (length-take_lem n xs (omega arith))

pub length-slice : (xs : Bytes) (i j : ℕ) → j ≤ length xs → length (slice xs i j) ≡ j - i
length-slice xs i j h =
    let d = length-drop_lem i xs in length-take_lem (j - i) (drop i xs) (omega (arith, d))

pub get_or-slice :
    (xs : Bytes) (i j k : ℕ) → k < j - i → get_or (slice xs i j) k 0 ≡ get_or xs (i + k) 0
get_or-slice xs i j k h = get_or-take (j - i) k (drop i xs) 0 h ∙ get_or-drop i k xs 0

-- Slices of the same bytes are equal.
pub slice_ext :
    (xs ys : Bytes) (i j i' j' : ℕ)
    → j ≤ length xs
    → j' ≤ length ys
    → j - i ≡ j' - i'
    → ((k : ℕ) → k < j - i → get_or xs (i + k) 0 ≡ get_or ys (i' + k) 0)
    → slice xs i j ≡ slice ys i' j'
slice_ext xs ys i j i' j' h h' len same =
    let l = length-slice xs i j h in
    let l' = length-slice ys i' j' h' in
    list_ext (slice xs i j) (slice ys i' j') 0 (omega (arith, l, l', len)) (λ k b.
      get_or-slice xs i j k (omega (arith, l))
      ∙ same k (omega (arith, l))
      ∙ sym (get_or-slice ys i' j' k (omega (arith, l, len))))

-- Two slices, one behind the other.
pub slice-append :
    (xs : Bytes) (i m j : ℕ)
    → i ≤ m
    → m ≤ j
    → j ≤ length xs
    → slice xs i m ++ slice xs m j ≡ slice xs i j
slice-append xs i m j h₁ h₂ h₃ =
    let l₁ = length-slice xs i m (omega arith) in
    let l₂ = length-slice xs m j h₃ in
    let l₃ = length-slice xs i j h₃ in
    let l = length-append (slice xs i m) (slice xs m j) in
    list_ext (slice xs i m ++ slice xs m j) (slice xs i j) 0 (omega (arith, l, l₁, l₂, l₃)) (λ k b.
      elim (dec_lt k (m - i)) [
        | yes left ↦
            get_or-append_left (slice xs i m) (slice xs m j) k (omega (arith, l₁))
            ∙ get_or-slice xs i m k left
            ∙ sym (get_or-slice xs i j k (omega arith))
        | no right ↦
            let at : m + (k - (m - i)) ≡ i + k = omega arith in
            get_or-append_right (slice xs i m) (slice xs m j) k (k - (m - i)) (omega (arith, l₁))
            ∙ get_or-slice xs m j (k - (m - i)) (omega (arith, l, l₁, l₂))
            ∙ rw at (sym (get_or-slice xs i j k (omega (arith, l, l₁, l₂))))
      ])

-- What was put behind a slice makes it longer.
pub slice-put_bytes :
    (xs : Bytes) (i j : ℕ) (out : Bytes)
    → i ≤ j
    → j + length out ≤ length xs
    → slice (put_bytes xs j out) i (j + length out) ≡ slice xs i j ++ out
slice-put_bytes xs i j out h room =
    let kept = length-put_bytes xs j out in
    let l₁ = length-slice (put_bytes xs j out) i (j + length out) (omega (arith, kept)) in
    let l₂ = length-slice xs i j (omega arith) in
    let l = length-append (slice xs i j) out in
    list_ext (slice (put_bytes xs j out) i (j + length out)) (slice xs i j ++ out) 0
      (omega (arith, l, l₁, l₂))
      (λ k b.
        get_or-slice (put_bytes xs j out) i (j + length out) k (omega (arith, l₁))
        ∙ elim (dec_lt k (j - i)) [
          | yes left ↦
              get_or-put_bytes_out xs j (i + k) out (inl (omega arith))
              ∙ sym (
                  get_or-append_left (slice xs i j) out k (omega (arith, l₂))
                  ∙ get_or-slice xs i j k left)
          | no right ↦
              let at : j + (k - (j - i)) ≡ i + k = omega arith in
              rw (← at) (get_or-put_bytes_in xs j (k - (j - i)) out (omega (arith, l₁)) room)
              ∙ sym (get_or-append_right (slice xs i j) out k (k - (j - i)) (omega (arith, l₂)))
        ])

pub slice-cons :
    (xs : Bytes) (i j : ℕ)
    → i < j
    → j ≤ length xs
    → slice xs i j ≡ get_or xs i 0 ∷ slice xs (i + 1) j
slice-cons xs i j h room =
    let l = length-slice xs i j room in
    let l' = length-slice xs (i + 1) j room in
    list_ext (slice xs i j) (get_or xs i 0 ∷ slice xs (i + 1) j) 0 (omega (arith, l, l'))
      (λ k b. get_or-slice xs i j k (omega (arith, l)) ∙ sym (nth k (omega (arith, l))))
  where
    nth :
        (k : ℕ) → k < j - i → get_or (get_or xs i 0 ∷ slice xs (i + 1) j) k 0 ≡ get_or xs (i + k) 0
    nth zero b = let at : i + 0 ≡ i = omega arith in rw at refl
    nth (suc k) b =
        let at : i + 1 + k ≡ i + suc k = omega arith in
        rw (← at) (get_or-slice xs (i + 1) j k (omega arith))

pub drop-append_left : (xs ys : Bytes) (n : ℕ) → n ≤ length xs → drop n (xs ++ ys) ≡ drop n xs ++ ys
drop-append_left xs ys zero h = refl
drop-append_left [] ys (suc n) h = absurd (omega (arith, h))
drop-append_left (x ∷ xs) ys (suc n) h = drop-append_left xs ys n (omega (arith, h))

pub drop-append_right : (xs ys : Bytes) (n : ℕ) → drop (length xs + n) (xs ++ ys) ≡ drop n ys
drop-append_right [] ys n = let at : 0 + n ≡ n = omega arith in rw at refl
drop-append_right (x ∷ xs) ys n =
    let at : suc (length xs) + n ≡ suc (length xs + n) = omega arith in
    rw at (drop-append_right xs ys n)

pub drop-slice :
    (xs : Bytes) (i j k : ℕ)
    → i + k ≤ j
    → j ≤ length xs
    → drop k (slice xs i j) ≡ slice xs (i + k) j
drop-slice xs i j zero h l = let at : i + 0 ≡ i = omega arith in rw at refl
drop-slice xs i j (suc k) h l =
    let next : i + suc k ≡ i + 1 + k = omega arith in
    rw (slice-cons xs i j (omega arith) l, next) (drop-slice xs (i + 1) j k (omega arith) l)

pub drop-drop : (i n : ℕ) (xs : Bytes) → drop n (drop i xs) ≡ drop (i + n) xs
drop-drop zero n xs = let at : 0 + n ≡ n = omega arith in rw at refl
drop-drop (suc i) zero [] = let at : suc i + 0 ≡ suc i = omega arith in rw at refl
drop-drop (suc i) (suc n) [] = let at : suc i + suc n ≡ suc (i + suc n) = omega arith in rw at refl
drop-drop (suc i) n (x ∷ xs) =
    let at : suc i + n ≡ suc (i + n) = omega arith in rw at (drop-drop i n xs)

pub take-append-drop : (n : ℕ) (xs : Bytes) → take n xs ++ drop n xs ≡ xs
take-append-drop zero xs = refl
take-append-drop (suc n) [] = refl
take-append-drop (suc n) (x ∷ xs) = ap (λ t. x ∷ t) (take-append-drop n xs)

-- The bytes from a place on.
pub slice-drop : (xs : Bytes) (i n : ℕ) → slice xs i (i + n) ++ drop (i + n) xs ≡ drop i xs
slice-drop xs i n =
    let back : i + n - i ≡ n = omega arith in
    rw (back, ← drop-drop i n xs) (take-append-drop n (drop i xs))

pub drop-all : (n : ℕ) (xs : Bytes) → length xs ≤ n → drop n xs ≡ []
drop-all zero [] h = refl
drop-all zero (x ∷ xs) h = absurd (omega (arith, h))
drop-all (suc n) [] h = refl
drop-all (suc n) (x ∷ xs) h = drop-all n xs (omega (arith, h))

pub length-drop : (n : ℕ) (xs : Bytes) → length (drop n xs) ≡ length xs - n
length-drop zero xs = omega arith
length-drop (suc n) [] = omega arith
length-drop (suc n) (x ∷ xs) = let ih = length-drop n xs in rw ih (omega arith)

pub drop-cons : (n : ℕ) (xs : Bytes) → n < length xs → drop n xs ≡ get_or xs n 0 ∷ drop (n + 1) xs
drop-cons n [] h = absurd (omega (arith, h))
drop-cons zero (x ∷ xs) h = refl
drop-cons (suc n) (x ∷ xs) h =
    let at : suc n + 1 ≡ suc (n + 1) = omega arith in rw at (drop-cons n xs (omega (arith, h)))

pub length-take : (n : ℕ) (xs : Bytes) → length (take n xs) ≡ min n (length xs)
length-take zero xs = omega arith
length-take (suc n) [] = omega arith
length-take (suc n) (x ∷ xs) = let ih = length-take n xs in rw ih (omega arith)
