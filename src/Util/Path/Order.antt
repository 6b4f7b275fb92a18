-- ===== src/Util/Path/Order.antt =====
-- pathCompareC orders the paths.
use bas_cpp.Prelude.{
  ℕ, ◌+◌, ◌<◌, ◌≡◌, ◌↔◌, ◌⊎◌, refl, ap, ◌∙◌, true, false, [], ◌∷◌, arith, if◌then◌else◌, ◌==◌,
  ==_refl, ltb, Bool-cases, inl, inr, Bytes,
}
use bas_cpp.Util.Path.{Comparison, before, equal, behind, compare_bytes, path_compare}

-- The rank of a byte: a slash stands before all others.
abbrev rank : ℕ → ℕ
rank c = if c == b'/' then 0 else c + 1

-- A path stands before another one: it is the front of it, or its byte at the first difference has the
-- lower rank.
pub IsBefore : Bytes → Bytes → Type 0
IsBefore [] [] = ⊥
IsBefore [] (b ∷ t) = Unit
IsBefore (a ∷ s) [] = ⊥
IsBefore (a ∷ s) (b ∷ t) = (rank a < rank b) ⊎ ((a ≡ b) × IsBefore s t)

rank_apart : (a b : ℕ) → (a == b) ≡ false → (rank a < rank b) ⊎ (rank b < rank a)
rank_apart a b h = ground arith

lower_rank : (a b : ℕ) → (a == b) ≡ false → rank a < rank b → compare_bytes a b ≡ before
unfolding compare_bytes
lower_rank a b h less = elim (Bool-cases (a == b'/')) [
  | inl e ↦ rw e refl
  | inr e ↦
      let other : (b == b'/') ≡ false = ground (arith, e, less) in
      let t : ltb a b ≡ true = ground (arith, e, less, other) in rw (e, other, t) refl
]

higher_rank : (a b : ℕ) → (a == b) ≡ false → rank b < rank a → compare_bytes a b ≡ behind
unfolding compare_bytes
higher_rank a b h less =
    let e : (a == b'/') ≡ false = ground (arith, less) in
    elim (Bool-cases (b == b'/')) [
      | inl t ↦ rw (e, t) refl
      | inr t ↦ let f : ltb a b ≡ false = ground (arith, e, t, less) in rw (e, t, f) refl
    ]

-- What a comparison says.
Says : Bytes → Bytes → Comparison → Type 0
Says s t before = IsBefore s t
Says s t equal = s ≡ t
Says s t behind = IsBefore t s

extended : (a : ℕ) (s t : Bytes) (c : Comparison) → Says s t c → Says (a ∷ s) (a ∷ t) c
unfolding Says IsBefore
extended a s t before h = inr (refl, h)
extended a s t equal h = ap (λ u. a ∷ u) h
extended a s t behind h = inr (refl, h)

path_compare-Says : (s t : Bytes) → Says s t (path_compare s t)
unfolding path_compare Says IsBefore
path_compare-Says [] [] = refl
path_compare-Says [] (b ∷ t) = tt
path_compare-Says (a ∷ s) [] = tt
path_compare-Says (a ∷ s) (b ∷ t) = elim (Bool-cases (a == b)) [
  | inl e ↦
      let same : a ≡ b = ground (arith, e) in
      rw (same, ==_refl b) (extended b s t (path_compare s t) (path_compare-Says s t))
  | inr e ↦ elim (rank_apart a b e) [
    | inl less ↦ rw (e, lower_rank a b e less) (inl less)
    | inr more ↦ rw (e, higher_rank a b e more) (inl more)
  ]
]

IsBefore-trans : (s t u : Bytes) → IsBefore s t → IsBefore t u → IsBefore s u
unfolding IsBefore
IsBefore-trans [] [] u h k = absurd h
IsBefore-trans [] (b ∷ t) [] h k = absurd k
IsBefore-trans [] (b ∷ t) (c ∷ u) h k = tt
IsBefore-trans (a ∷ s) [] u h k = absurd h
IsBefore-trans (a ∷ s) (b ∷ t) [] h k = absurd k
IsBefore-trans (a ∷ s) (b ∷ t) (c ∷ u) (inl h) (inl k) = inl (omega (arith, h, k))
IsBefore-trans (a ∷ s) (b ∷ t) (c ∷ u) (inl h) (inr (e, k)) = inl (rw e at h)
IsBefore-trans (a ∷ s) (b ∷ t) (c ∷ u) (inr (e, h)) (inl k) = inl (rw (← e) at k)
IsBefore-trans (a ∷ s) (b ∷ t) (c ∷ u) (inr (e, h)) (inr (f, k)) =
    inr (e ∙ f, IsBefore-trans s t u h k)

IsBefore-irrefl : (s : Bytes) → ¬ IsBefore s s
unfolding IsBefore
IsBefore-irrefl [] h = h
IsBefore-irrefl (a ∷ s) (inl h) = absurd (omega (arith, h))
IsBefore-irrefl (a ∷ s) (inr (e, h)) = IsBefore-irrefl s h

only :
    (s t : Bytes) (c : Comparison)
    → Says s t c
    → ((c ≡ before) ↔ IsBefore s t) × ((c ≡ equal) ↔ (s ≡ t)) × ((c ≡ behind) ↔ IsBefore t s)
unfolding Says
only s t before h = (
  (λ _. h, λ _. refl),
  (λ e. absurd cc, λ e. absurd (IsBefore-irrefl t (rw e at h))),
  (λ e. absurd cc, λ k. absurd (IsBefore-irrefl s (IsBefore-trans s t s h k))),
)
only s t equal h = (
  (λ e. absurd cc, λ k. absurd (IsBefore-irrefl t (rw h at k))),
  (λ _. h, λ _. refl),
  (λ e. absurd cc, λ k. absurd (IsBefore-irrefl t (rw h at k))),
)
only s t behind h = (
  (λ e. absurd cc, λ k. absurd (IsBefore-irrefl s (IsBefore-trans s t s k h))),
  (λ e. absurd cc, λ e. absurd (IsBefore-irrefl t (rw e at h))),
  (λ _. h, λ _. refl),
)

-- The three answers of a comparison of paths are those of one strict total order, in which a path stands
-- before its continuations and a slash before all other bytes: -1 is the answer where the first path
-- stands before the second, 0 where they are equal, 1 where the second stands before the first; and the
-- order is transitive.
pub path_compare_iff :
    (s t u : Bytes)
    → ((path_compare s t ≡ before) ↔ IsBefore s t)
      × ((path_compare s t ≡ equal) ↔ (s ≡ t))
      × ((path_compare s t ≡ behind) ↔ IsBefore t s)
      × (IsBefore s t → IsBefore t u → IsBefore s u)
path_compare_iff s t u =
    let (b, e, h) = only s t (path_compare s t) (path_compare-Says s t) in
    (b, e, h, IsBefore-trans s t u)
