-- ===== src/Volume/Fat32/Flush/Sorting.antt =====
-- The list of marked clusters, sorted and with its duplicates removed: the same members.
use bas_cpp.Prelude.{
  ℕ, ◌≡◌, ◌⊎◌, inl, inr, subst, List, [], ◌∷◌, arith, All, Any, leb, ◌==◌, Bool-cases,
}
use bas_cpp.Volume.Fat32.Flush.{insert_sorted, sort, unique_after, unique}

module _ (P : ℕ → Type 0) where
  Any-insert_sorted : (x : ℕ) (xs : List ℕ) → P x ⊎ Any P xs → Any P (insert_sorted x xs)
  unfolding insert_sorted
  Any-insert_sorted x [] h = h
  Any-insert_sorted x (y ∷ ys) h =
      let ih = Any-insert_sorted x ys in
      elim (Bool-cases (leb x y)) [
        | inl e ↦ rw e h
        | inr e ↦ rw e (elim h [
          | inl p ↦ inr (ih (inl p))
          | inr (inl q) ↦ inl q
          | inr (inr r) ↦ inr (ih (inr r))
        ])
      ]

  All-insert_sorted : (x : ℕ) (xs : List ℕ) → P x → All P xs → All P (insert_sorted x xs)
  unfolding insert_sorted
  All-insert_sorted x [] p h = (p, h)
  All-insert_sorted x (y ∷ ys) p h =
      let ih = All-insert_sorted x ys p h.1 in
      elim (Bool-cases (leb x y)) [ inl e ↦ rw e (p, h) | inr e ↦ rw e (h.0, ih) ]

  Any-sort : (xs : List ℕ) → Any P xs → Any P (sort xs)
  unfolding sort
  Any-sort [] h = h
  Any-sort (x ∷ xs) (inl p) = Any-insert_sorted x (sort xs) (inl p)
  Any-sort (x ∷ xs) (inr r) = Any-insert_sorted x (sort xs) (inr (Any-sort xs r))

  All-sort : (xs : List ℕ) → All P xs → All P (sort xs)
  unfolding sort
  All-sort [] h = h
  All-sort (x ∷ xs) h = All-insert_sorted x (sort xs) h.0 (All-sort xs h.1)

  Any-unique_after : (x : ℕ) (xs : List ℕ) → P x ⊎ Any P xs → Any P (unique_after x xs)
  unfolding unique_after
  Any-unique_after x [] h = h
  Any-unique_after x (y ∷ ys) h =
      let kept = Any-unique_after y ys in
      let dropped = Any-unique_after x ys in
      elim (Bool-cases (x == y)) [
        | inl e ↦
            let same : y ≡ x = ground arith in
            rw e (elim h [
              | inl p ↦ dropped (inl p)
              | inr (inl q) ↦ dropped (inl (subst P same q))
              | inr (inr r) ↦ dropped (inr r)
            ])
        | inr e ↦ rw e (elim h [ inl p ↦ inl p | inr r ↦ inr (kept r) ])
      ]

  All-unique_after : (x : ℕ) (xs : List ℕ) → P x → All P xs → All P (unique_after x xs)
  unfolding unique_after
  All-unique_after x [] p h = (p, h)
  All-unique_after x (y ∷ ys) p h =
      let kept = All-unique_after y ys h.0 h.1 in
      let dropped = All-unique_after x ys p h.1 in
      elim (Bool-cases (x == y)) [ inl e ↦ rw e dropped | inr e ↦ rw e (p, kept) ]

  Any-unique : (xs : List ℕ) → Any P xs → Any P (unique xs)
  unfolding unique
  Any-unique [] h = h
  Any-unique (x ∷ xs) h = Any-unique_after x xs h

  All-unique : (xs : List ℕ) → All P xs → All P (unique xs)
  unfolding unique
  All-unique [] h = h
  All-unique (x ∷ xs) h = All-unique_after x xs h.0 h.1

  pub Any-unique-sort : (xs : List ℕ) → Any P xs → Any P (unique (sort xs))
  Any-unique-sort xs h = Any-unique (sort xs) (Any-sort xs h)

  pub All-unique-sort : (xs : List ℕ) → All P xs → All P (unique (sort xs))
  All-unique-sort xs h = All-unique (sort xs) (All-sort xs h)
