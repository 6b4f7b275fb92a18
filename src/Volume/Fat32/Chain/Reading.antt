-- ===== src/Volume/Fat32/Chain/Reading.antt =====
-- readClusterChain: it comes to an end on every table, and it reads back exactly a chain.
use bas_cpp.Prelude.{
  ℕ, zero, suc, ◌+◌, ◌≤◌, ◌<◌, ◌≡◌, ◌≢◌, ◌⊎◌, inl, inr, refl, sym, subst, ◌∙◌, Bool, true, false,
  ◌||◌, List, [], ◌∷◌, ◌++◌, append_assoc, arith, ltb, ◌==◌, ==_iff, if◌then◌else◌, Bool-cases,
  eq_cases, ltb→lt, length, any, Any-append,
}
use bas_cpp.Volume.Fat32.ClusterManager.{Fat, fat_entries, entry_at}
use bas_cpp.Volume.Fat32.Chain.{
  Outcome, read_loop, read_cluster_chain, is_data_cluster, end_of_chain,
}
use bas_cpp.Volume.Fat32.Chain.Frame.{get_entry-ok, get_entry-throws, is_data_cluster-true, Ends}
use bas_cpp.Volume.Fat32.Chain.Linked.{Mem, IsChain, IsChain-tail, count_used_le, length-IsChain}

abbrev is_seen : ℕ → List ℕ → Bool
is_seen c chain = any (λ s. s == c) chain

is_seen-snoc :
    (k c : ℕ) (chain : List ℕ) → is_seen k (chain ++ c ∷ []) ≡ (is_seen k chain || (c == k))
is_seen-snoc k c [] = elim (Bool-cases (c == k)) [ inl e ↦ rw e refl | inr e ↦ rw e refl ]
is_seen-snoc k c (s ∷ chain) = let ih = is_seen-snoc k c chain in ground arith

is_seen-false : (c : ℕ) (chain : List ℕ) → ¬ Mem c chain → is_seen c chain ≡ false
is_seen-false c [] h = refl
is_seen-false c (s ∷ chain) h =
    let ih = is_seen-false c chain (λ m. h (inr m)) in
    let ne : s ≢ c = λ e. h (inl e) in ground arith

read_loop_stop :
    (fuel c : ℕ) (chain : List ℕ) (f : Fat)
    → is_data_cluster c ≡ false
    → read_loop fuel c chain f ≡ Outcome.ok chain f
unfolding read_loop
read_loop_stop zero c chain f h = rw h refl
read_loop_stop (suc fuel) c chain f h = rw h refl

read_loop_throws :
    (fuel c : ℕ) (chain : List ℕ) (f : Fat)
    → is_data_cluster c ≡ true
    → (is_seen c chain ≡ true) ⊎ (ltb c (fat_entries f) ≡ false)
    → read_loop (suc fuel) c chain f ≡ Outcome.throws f
unfolding read_loop
read_loop_throws fuel c chain f h (inl seen) = rw (h, seen) refl
read_loop_throws fuel c chain f h (inr invalid) = elim (Bool-cases (is_seen c chain)) [
  | inl e ↦ rw (h, e) refl
  | inr e ↦ rw (h, e, get_entry-throws f c invalid) refl
]

read_loop_step :
    (fuel c : ℕ) (chain : List ℕ) (f : Fat)
    → is_data_cluster c ≡ true
    → is_seen c chain ≡ false
    → c < fat_entries f
    → read_loop (suc fuel) c chain f ≡ read_loop fuel (entry_at f c) (chain ++ c ∷ []) f
unfolding read_loop
read_loop_step fuel c chain f h new valid = rw (h, new, get_entry-ok f c valid) refl

-- How many clusters below `n` are not in the chain.
unseen : ℕ → List ℕ → ℕ
unseen zero chain = 0
unseen (suc n) chain = let rest = unseen n chain in if is_seen n chain then rest else suc rest

unseen_le : (n : ℕ) (chain : List ℕ) → unseen n chain ≤ n
unfolding unseen
unseen_le zero chain = omega arith
unseen_le (suc n) chain = ground (arith, unseen_le n chain)

unseen-above : (n c : ℕ) (chain : List ℕ) → n ≤ c → unseen n (chain ++ c ∷ []) ≡ unseen n chain
unfolding unseen
unseen-above zero c chain h = refl
unseen-above (suc n) c chain h =
    let ih = unseen-above n c chain (omega arith) in
    let other : (c == n) ≡ false = ground arith in
    elim (Bool-cases (is_seen n chain)) [
      | inl e ↦ rw (is_seen-snoc n c chain, e) ih
      | inr e ↦ rw (is_seen-snoc n c chain, e, other, ih) refl
    ]

unseen-snoc :
    (n c : ℕ) (chain : List ℕ)
    → c < n
    → is_seen c chain ≡ false
    → suc (unseen n (chain ++ c ∷ [])) ≡ unseen n chain
unfolding unseen
unseen-snoc zero c chain h new = absurd (omega arith)
unseen-snoc (suc n) c chain h new =
    let later = unseen-snoc n c chain in
    elim (eq_cases c n) [
      | inl e ↦
          let here : (c == n) ≡ true = (==_iff c n).1 e in
          let new' : is_seen n chain ≡ false = subst (λ k. is_seen k chain ≡ false) e new in
          rw (is_seen-snoc n c chain, new', here, unseen-above n c chain (omega (arith, e))) refl
      | inr ne ↦
          let other : (c == n) ≡ false = ground arith in
          let ih = later (omega arith) new in
          elim (Bool-cases (is_seen n chain)) [
            | inl e ↦ rw (is_seen-snoc n c chain, e) ih
            | inr e ↦ rw (is_seen-snoc n c chain, e, other, ih) refl
          ]
    ]

read_loop-Ends :
    (fuel c : ℕ) (chain : List ℕ) (f : Fat)
    → unseen (fat_entries f) chain < fuel
    → Ends (read_loop fuel c chain f)
read_loop-Ends zero c chain f h = absurd (omega arith)
read_loop-Ends (suc fuel) c chain f h =
    let later : c < fat_entries f
        → is_seen c chain ≡ false
        → Ends (read_loop fuel (entry_at f c) (chain ++ c ∷ []) f) =
      λ valid new.
        let less = unseen-snoc (fat_entries f) c chain valid new in
        read_loop-Ends fuel (entry_at f c) (chain ++ c ∷ []) f (omega (arith, less)) in
    elim (Bool-cases (is_data_cluster c)) [
      | inr e ↦ rw (read_loop_stop (suc fuel) c chain f e) tt
      | inl e ↦ elim (Bool-cases (is_seen c chain)) [
        | inl seen ↦ rw (read_loop_throws fuel c chain f e (inl seen)) tt
        | inr new ↦ elim (Bool-cases (ltb c (fat_entries f))) [
          | inr invalid ↦ rw (read_loop_throws fuel c chain f e (inr invalid)) tt
          | inl valid ↦
              let v = ltb→lt c (fat_entries f) valid in
              rw (read_loop_step fuel c chain f e new v) (later v new)
        ]
      ]
    ]

-- Reading from any first cluster ends, on any table: a loop of clusters is met as an exception.
pub read_cluster_chain-Ends : (f : Fat) (first : ℕ) → Ends (read_cluster_chain first f)
unfolding read_cluster_chain
read_cluster_chain-Ends f first =
    read_loop-Ends (fat_entries f + 1) first [] f (omega (arith, unseen_le (fat_entries f) []))

-- No cluster of the second list is in the first.
abbrev Apart : List ℕ → List ℕ → Type 0
Apart chain cs = (k : ℕ) → Mem k cs → ¬ Mem k chain

Apart-snoc :
    (chain : List ℕ) (c : ℕ) (cs : List ℕ)
    → Apart chain (c ∷ cs)
    → ¬ Mem c cs
    → Apart (chain ++ c ∷ []) cs
Apart-snoc chain c cs h fresh k m n = elim ((Any-append (λ x. x ≡ k) chain (c ∷ [])).0 n) [
  | inl old ↦ h k (inr m) old
  | inr (inl e) ↦ fresh (subst (λ x. Mem x cs) (sym e) m)
  | inr (inr e) ↦ absurd e
]

read_loop-IsChain :
    (cs : List ℕ) (c fuel : ℕ) (chain : List ℕ) (f : Fat)
    → fat_entries f ≤ end_of_chain
    → IsChain f.entries (c ∷ cs)
    → Apart chain (c ∷ cs)
    → length (c ∷ cs) ≤ fuel
    → read_loop fuel c chain f ≡ Outcome.ok (chain ++ c ∷ cs) f
read_loop-IsChain cs c zero chain f small h apart enough = absurd (omega arith)
read_loop-IsChain [] c (suc fuel) chain f small h apart enough =
    let valid = h.in_range.0 in
    let new = is_seen-false c chain (apart c (inl refl)) in
    let is_last : entry_at f c ≡ end_of_chain = h.linked in
    let data_cluster = is_data_cluster-true c valid.0 (omega arith) in
    read_loop_step fuel c chain f data_cluster new valid.1
    ∙ rw is_last (read_loop_stop fuel end_of_chain (chain ++ c ∷ []) f refl)
read_loop-IsChain (d ∷ cs) c (suc fuel) chain f small h apart enough =
    let valid = h.in_range.0 in
    let new = is_seen-false c chain (apart c (inl refl)) in
    let is_next : entry_at f c ≡ d = h.linked.0 in
    let data_cluster = is_data_cluster-true c valid.0 (omega arith) in
    let ih =
      read_loop-IsChain cs d fuel (chain ++ c ∷ []) f small (IsChain-tail f.entries c (d ∷ cs) h)
        (Apart-snoc chain c (d ∷ cs) apart h.distinct.0) (omega arith) in
    read_loop_step fuel c chain f data_cluster new valid.1
    ∙ rw is_next (rw (append_assoc chain (c ∷ []) (d ∷ cs)) at ih)

-- From the first cluster of a chain, in a table of at most 2^28 - 8 entries, reading answers the chain and
-- leaves the table alone.
pub read_cluster_chain-IsChain :
    (f : Fat) (c : ℕ) (cs : List ℕ)
    → fat_entries f ≤ end_of_chain
    → IsChain f.entries (c ∷ cs)
    → read_cluster_chain c f ≡ Outcome.ok (c ∷ cs) f
unfolding read_cluster_chain
read_cluster_chain-IsChain f c cs small h =
    let short = length-IsChain f.entries (c ∷ cs) h in
    let used = count_used_le f.entries in
    read_loop-IsChain cs c (fat_entries f + 1) [] f small h (λ k m n. n)
      (omega (arith, short, used))
