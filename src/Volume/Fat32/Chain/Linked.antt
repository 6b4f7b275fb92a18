-- ===== src/Volume/Fat32/Chain/Linked.antt =====
-- What a chain of clusters is, apart from the code that follows it, and how many entries are in use.
use bas_cpp.Prelude.{
  ℕ, zero, suc, ◌≤◌, ◌<◌, ◌≡◌, ◌≢◌, ◌⊎◌, inl, inr, refl, sym, subst, false, List, [], ◌∷◌, arith,
  ◌==◌, if◌then◌else◌, length, get_or, set, All, Any, Bool-cases, eq_cases, length-set,
  get_or-set_ne,
}
use bas_cpp.Volume.Fat32.Chain.{end_of_chain}

abbrev pub Mem : ℕ → List ℕ → Type 0
Mem c cs = Any (λ x. x ≡ c) cs

abbrev pub Distinct : List ℕ → Type 0
Distinct [] = Unit
Distinct (c ∷ cs) = (¬ Mem c cs) × Distinct cs

-- Each cluster's entry is the next cluster, and the last one's is the end of the chain.
abbrev pub Linked : List ℕ → List ℕ → Type 0
Linked entries [] = Unit
Linked entries (c ∷ []) = get_or entries c 0 ≡ end_of_chain
Linked entries (c ∷ d ∷ cs) = (get_or entries c 0 ≡ d) × Linked entries (d ∷ cs)

abbrev pub InRange : ℕ → List ℕ → Type 0
InRange n cs = All (λ c. (2 ≤ c) × (c < n)) cs

-- The clusters, in the order given, are a chain of the table.
pub record IsChain (entries cs : List ℕ) : Type 0 where
  pub linked : Linked entries cs
  pub distinct : Distinct cs
  pub in_range : InRange (length entries) cs

pub Linked-frame :
    (entries after cs : List ℕ)
    → ((k : ℕ) → Mem k cs → get_or after k 0 ≡ get_or entries k 0)
    → Linked entries cs
    → Linked after cs
Linked-frame entries after [] same h = tt
Linked-frame entries after (c ∷ []) same h = rw (same c (inl refl)) h
Linked-frame entries after (c ∷ d ∷ cs) same h =
    (rw (same c (inl refl)) h.0, Linked-frame entries after (d ∷ cs) (λ k m. same k (inr m)) h.1)

pub IsChain-frame :
    (entries after cs : List ℕ)
    → length after ≡ length entries
    → ((k : ℕ) → Mem k cs → get_or after k 0 ≡ get_or entries k 0)
    → IsChain entries cs
    → IsChain after cs
IsChain-frame entries after cs len same h = record {
  linked = Linked-frame entries after cs same h.linked;
  distinct = h.distinct;
  in_range = rw len h.in_range;
}

pub IsChain-tail :
    (entries : List ℕ) (c : ℕ) (cs : List ℕ) → IsChain entries (c ∷ cs) → IsChain entries cs
IsChain-tail entries c [] h = record { linked = tt; distinct = tt; in_range = tt }
IsChain-tail entries c (d ∷ cs) h = record {
  linked = h.linked.1;
  distinct = h.distinct.1;
  in_range = h.in_range.1;
}

-- The entry of a cluster of a chain is not 0.
pub IsChain-used :
    (entries : List ℕ) (c : ℕ) (cs : List ℕ) → IsChain entries (c ∷ cs) → get_or entries c 0 ≢ 0
IsChain-used entries c [] h e = let l = h.linked in absurd (omega (arith, l, e))
IsChain-used entries c (d ∷ cs) h e =
    let l = h.linked.0 in let r = h.in_range.1.0.0 in absurd (omega (arith, l, e, r))

-- How many entries are not 0.
pub count_used : List ℕ → ℕ
count_used [] = 0
count_used (v ∷ vs) = if v == 0 then count_used vs else suc (count_used vs)

pub count_used_le : (entries : List ℕ) → count_used entries ≤ length entries
unfolding count_used
count_used_le [] = omega arith
count_used_le (v ∷ vs) = ground (arith, count_used_le vs)

-- Clearing an entry that is in use makes one less.
pub count_used-set :
    (entries : List ℕ) (c : ℕ)
    → c < length entries
    → get_or entries c 0 ≢ 0
    → suc (count_used (set entries c 0)) ≡ count_used entries
unfolding count_used
count_used-set [] c h used = absurd (omega arith)
count_used-set (v ∷ vs) zero h used = let e : (v == 0) ≡ false = ground arith in rw e refl
count_used-set (v ∷ vs) (suc c) h used =
    let ih = count_used-set vs c (omega arith) used in
    elim (Bool-cases (v == 0)) [ inl e ↦ rw e ih | inr e ↦ rw e (omega (arith, ih)) ]

-- A chain is no longer than the number of entries in use.
pub length-IsChain : (entries cs : List ℕ) → IsChain entries cs → length cs ≤ count_used entries
length-IsChain entries [] h = omega arith
length-IsChain entries (c ∷ cs) h =
    let used = IsChain-used entries c cs h in
    let cleared = set entries c 0 in
    let less = count_used-set entries c h.in_range.0.1 used in
    let fresh = h.distinct.0 in
    let tail =
      IsChain-frame entries cleared cs (length-set entries c 0)
        (λ k m. get_or-set_ne entries c k 0 0 (λ e. fresh (subst (λ x. Mem x cs) (sym e) m)))
        (IsChain-tail entries c cs h) in
    let ih = length-IsChain cleared cs tail in omega (arith, ih, less)

pub IsChain-used_all :
    (entries cs : List ℕ) (k : ℕ) → IsChain entries cs → Mem k cs → get_or entries k 0 ≢ 0
IsChain-used_all entries [] k h m = absurd m
IsChain-used_all entries (c ∷ cs) k h m = elim m [
  | inl e ↦ subst (λ k. get_or entries k 0 ≢ 0) e (IsChain-used entries c cs h)
  | inr m ↦ IsChain-used_all entries cs k (IsChain-tail entries c cs h) m
]

pub mem_cases : (k : ℕ) (cs : List ℕ) → Mem k cs ⊎ (¬ Mem k cs)
mem_cases k [] = inr (λ m. m)
mem_cases k (c ∷ cs) =
    let ih = mem_cases k cs in
    elim (eq_cases c k) [
      | inl e ↦ inl (inl e)
      | inr ne ↦ elim ih [
        | inl m ↦ inl (inr m)
        | inr nm ↦ inr (λ m. elim m [ inl e ↦ ne e | inr m ↦ nm m ])
      ]
    ]
