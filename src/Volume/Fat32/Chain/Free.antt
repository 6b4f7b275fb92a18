-- ===== src/Volume/Fat32/Chain/Free.antt =====
-- freeClusterChain: it comes to an end on every table, and it frees exactly a chain.
use bas_cpp.Prelude.{
  ℕ, zero, suc, ◌+◌, ◌≤◌, ◌<◌, ◌≡◌, ◌≢◌, inl, inr, refl, sym, subst, ◌∙◌, true, false, ◌||◌, List,
  [], ◌∷◌, arith, ltb, leb, ◌==◌, if◌then◌else◌, Bool-cases, eq_cases, ltb→lt, length,
}
use bas_cpp.Volume.Fat32.ClusterManager.{Fat, fat_entries, entry_at, put_entry}
use bas_cpp.Volume.Fat32.ClusterManager.Entries.{
  fat_entries-put_entry, entry_at-put_entry_self, entry_at-put_entry_ne,
}
use bas_cpp.Volume.Fat32.Chain.{
  Outcome, free_loop, free_cluster_chain, is_data_cluster, end_of_chain,
}
use bas_cpp.Volume.Fat32.Chain.Frame.{
  get_entry-ok, get_entry-throws, set_entry-ok, entries-put_entry_zero, is_data_cluster-true, Ends,
}
use bas_cpp.Volume.Fat32.Chain.Linked.{
  Mem, IsChain, IsChain-tail, IsChain-frame, count_used, count_used_le, count_used-set,
  length-IsChain,
}

-- The loop is at a cluster that is not of a chain.
free_loop_stop :
    (fuel c : ℕ) (f : Fat) → is_data_cluster c ≡ false → free_loop fuel c f ≡ Outcome.ok tt f
unfolding free_loop
free_loop_stop zero c f h = rw h refl
free_loop_stop (suc fuel) c f h = rw h refl

-- One round of the loop at a valid cluster.
free_loop_step :
    (fuel c : ℕ) (f : Fat)
    → is_data_cluster c ≡ true
    → c < fat_entries f
    → free_loop (suc fuel) c f ≡ (
        if leb end_of_chain (entry_at f c) || (entry_at f c == c)
        then Outcome.ok tt (put_entry f c 0)
        else free_loop fuel (entry_at f c) (put_entry f c 0))
unfolding free_loop
free_loop_step fuel c f data_cluster valid =
    rw (data_cluster, get_entry-ok f c valid, set_entry-ok f c 0 valid)
      (elim (Bool-cases (leb end_of_chain (entry_at f c) || (entry_at f c == c))) [
        | inl e ↦ rw e refl
        | inr e ↦ rw e refl
      ])

free_loop_throws :
    (fuel c : ℕ) (f : Fat)
    → is_data_cluster c ≡ true
    → ltb c (fat_entries f) ≡ false
    → free_loop (suc fuel) c f ≡ Outcome.throws f
unfolding free_loop
free_loop_throws fuel c f data_cluster invalid =
    rw (data_cluster, get_entry-throws f c invalid) refl

free_loop-Ends : (fuel c : ℕ) (f : Fat) → count_used f.entries < fuel → Ends (free_loop fuel c f)
free_loop-Ends zero c f h = absurd (omega arith)
free_loop-Ends (suc fuel) c f h =
    let after = put_entry f c 0 in
    let later : entry_at f c ≢ 0 → c < fat_entries f → Ends (free_loop fuel (entry_at f c) after) =
      λ used valid.
        let less = count_used-set f.entries c valid used in
        let kept = entries-put_entry_zero f c used in
        free_loop-Ends fuel (entry_at f c) after (rw kept (omega (arith, less))) in
    elim (Bool-cases (is_data_cluster c)) [
      | inr e ↦ rw (free_loop_stop (suc fuel) c f e) tt
      | inl e ↦ elim (Bool-cases (ltb c (fat_entries f))) [
        | inr invalid ↦ rw (free_loop_throws fuel c f e invalid) tt
        | inl valid ↦
            rw (free_loop_step fuel c f e (ltb→lt c (fat_entries f) valid))
              (elim (Bool-cases (leb end_of_chain (entry_at f c) || (entry_at f c == c))) [
                | inl stop ↦ rw stop tt
                | inr go ↦ rw go (elim (eq_cases (entry_at f c) 0) [
                  | inl z ↦ rw (z, free_loop_stop fuel 0 after refl) tt
                  | inr used ↦ later used (ltb→lt c (fat_entries f) valid)
                ])
              ])
      ]
    ]

-- Freeing from any first cluster ends, on any table, a damaged one with loops included.
pub free_cluster_chain-Ends : (f : Fat) (first : ℕ) → Ends (free_cluster_chain first f)
unfolding free_cluster_chain
free_cluster_chain-Ends f first =
    free_loop-Ends (fat_entries f + 1) first f (omega (arith, count_used_le f.entries))

-- The clusters of a list are free, and nothing else of the table differs.
pub record IsFreed (f : Fat) (cs : List ℕ) (after : Fat) : Type 0 where
  pub same_length : fat_entries after ≡ fat_entries f
  pub cleared : (k : ℕ) → Mem k cs → entry_at after k ≡ 0
  pub others : (k : ℕ) → ¬ Mem k cs → entry_at after k ≡ entry_at f k

IsFreed-last : (f : Fat) (c : ℕ) → c < fat_entries f → IsFreed f (c ∷ []) (put_entry f c 0)
IsFreed-last f c valid = record {
  same_length = fat_entries-put_entry f c 0;
  cleared = λ k m. elim m [
    | inl e ↦ subst (λ k. entry_at (put_entry f c 0) k ≡ 0) e (entry_at-put_entry_self f c 0 valid)
    | inr m ↦ absurd m
  ];
  others = λ k m. entry_at-put_entry_ne f c 0 k (λ e. m (inl e));
}

IsFreed-more :
    (f after : Fat) (c : ℕ) (cs : List ℕ)
    → c < fat_entries f
    → ¬ Mem c cs
    → IsFreed (put_entry f c 0) cs after
    → IsFreed f (c ∷ cs) after
IsFreed-more f after c cs valid fresh h = record {
  same_length = h.same_length ∙ fat_entries-put_entry f c 0;
  cleared = λ k m. elim m [
    | inl e ↦
        subst (λ k. entry_at after k ≡ 0) e (h.others c fresh ∙ entry_at-put_entry_self f c 0 valid)
    | inr m ↦ h.cleared k m
  ];
  others = λ k m. h.others k (λ n. m (inr n)) ∙ entry_at-put_entry_ne f c 0 k (λ e. m (inl e));
}

abbrev FreesFrom : ℕ → ℕ → List ℕ → Fat → Type 0
FreesFrom fuel c cs f =
    (after : Fat) × (free_loop fuel c f ≡ Outcome.ok tt after) × IsFreed f cs after

free_loop-FreesFrom :
    (cs : List ℕ) (c fuel : ℕ) (f : Fat)
    → fat_entries f ≤ end_of_chain
    → IsChain f.entries (c ∷ cs)
    → length (c ∷ cs) ≤ fuel
    → FreesFrom fuel c (c ∷ cs) f
free_loop-FreesFrom cs c zero f small h enough = absurd (omega arith)
free_loop-FreesFrom [] c (suc fuel) f small h enough =
    let valid = h.in_range.0 in
    let is_last : entry_at f c ≡ end_of_chain = h.linked in
    let stop : leb end_of_chain (entry_at f c) || (entry_at f c == c) ≡ true = rw is_last refl in
    let data_cluster = is_data_cluster-true c valid.0 (omega arith) in
    (
      put_entry f c 0,
      rw (free_loop_step fuel c f data_cluster valid.1, stop) refl,
      IsFreed-last f c valid.1,
    )
free_loop-FreesFrom (d ∷ cs) c (suc fuel) f small h enough =
    let valid = h.in_range.0 in
    let is_next : entry_at f c ≡ d = h.linked.0 in
    let fresh = h.distinct.0 in
    let ne : d ≢ c = λ e. fresh (inl e) in
    let later = h.in_range.1.0.1 in
    let go : leb end_of_chain (entry_at f c) || (entry_at f c == c) ≡ false =
      rw is_next (ground arith) in
    let data_cluster = is_data_cluster-true c valid.0 (omega arith) in
    let after = put_entry f c 0 in
    let len = fat_entries-put_entry f c 0 in
    let tail =
      IsChain-frame f.entries after.entries (d ∷ cs) len
        (λ k m. entry_at-put_entry_ne f c 0 k (λ e. fresh (subst (λ x. Mem x (d ∷ cs)) (sym e) m)))
        (IsChain-tail f.entries c (d ∷ cs) h) in
    let (f', runs, freed) = free_loop-FreesFrom cs d fuel after (rw len small) tail (omega arith) in
    (
      f',
      rw (free_loop_step fuel c f data_cluster valid.1, go, is_next) runs,
      IsFreed-more f f' c (d ∷ cs) valid.1 fresh freed,
    )

-- From the first cluster of a chain, in a table of at most 2^28 - 8 entries, freeing succeeds: the clusters
-- of the chain become free, and no other entry changes.
pub free_cluster_chain_frees :
    (f : Fat) (c : ℕ) (cs : List ℕ)
    → fat_entries f ≤ end_of_chain
    → IsChain f.entries (c ∷ cs)
    → (after : Fat) × (free_cluster_chain c f ≡ Outcome.ok tt after) × IsFreed f (c ∷ cs) after
unfolding free_cluster_chain
free_cluster_chain_frees f c cs small h =
    let short = length-IsChain f.entries (c ∷ cs) h in
    let used = count_used_le f.entries in
    free_loop-FreesFrom cs c (fat_entries f + 1) f small h (omega (arith, short, used))
