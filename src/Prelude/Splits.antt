-- ===== src/Prelude/Splits.antt =====
-- A text split at the first or the last of a byte: `find`, `rfind`, `find_last_of` with `substr`.
use Prim.Native.Nat.{ℕ}
use mathlib.Core.Bool.{Bool, false}
use mathlib.Core.List.{[], ◌∷◌, ◌++◌}
use mathlib.Core.Logic.{inl, inr}
use mathlib.Core.Option.{Option, none, some}
use mathlib.Core.Path.{◌≡◌, refl, ap}
use bas_cpp.Prelude.Tests.{◌==◌, if◌then◌else◌, ==_iff, Bool-cases}
use bas_cpp.Prelude.Text.{Bytes, any_byte}

-- The text up to the first `c` and the text behind it: `find(c)` and the two substr.
unfoldable pub split_first : ℕ → Bytes → Option (Bytes × Bytes)
split_first c [] = none
split_first c (x ∷ s) =
    if x == c
    then some ([], s)
    else elim (split_first c s) [ none ↦ none | some (a, b) ↦ some (x ∷ a, b) ]

-- The same at the last `c`: `rfind(c)`.
unfoldable pub split_here : ℕ → ℕ → Bytes → Option (Bytes × Bytes) → Option (Bytes × Bytes)
split_here c x s (some (a, b)) = some (x ∷ a, b)
split_here c x s none = if x == c then some ([], s) else none

unfoldable pub split_last : ℕ → Bytes → Option (Bytes × Bytes)
split_last c [] = none
split_last c (x ∷ s) = split_here c x s (split_last c s)

abbrev pub has_byte : ℕ → Bytes → Bool
has_byte c s = any_byte (λ d. d == c) s

-- What a split at the last `c` is: the parts around it, and no `c` in the second; or no `c` at all.
abbrev pub IsLastSplit : ℕ → Bytes → Option (Bytes × Bytes) → Type 0
IsLastSplit c s none = has_byte c s ≡ false
IsLastSplit c s (some (front, back)) = (s ≡ front ++ c ∷ back) × (has_byte c back ≡ false)

split_here-IsLastSplit :
    (c x : ℕ) (s : Bytes) (r : Option (Bytes × Bytes))
    → IsLastSplit c s r
    → IsLastSplit c (x ∷ s) (split_here c x s r)
unfolding split_here
split_here-IsLastSplit c x s (some (a, b)) h = (ap (λ t. x ∷ t) h.0, h.1)
split_here-IsLastSplit c x s none h = elim (Bool-cases (x == c)) [
  | inl e ↦ rw e (ap (λ y. y ∷ s) ((==_iff x c).0 e), h)
  | inr e ↦ rw (e, h) (rw e refl)
]

pub split_last-IsLastSplit : (c : ℕ) (s : Bytes) → IsLastSplit c s (split_last c s)
unfolding split_last
split_last-IsLastSplit c [] = refl
split_last-IsLastSplit c (x ∷ s) =
    split_here-IsLastSplit c x s (split_last c s) (split_last-IsLastSplit c s)
