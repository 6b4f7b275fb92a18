-- ===== src/Volume/Fat32/Chain/Allocation.antt =====
-- allocateCluster and allocateClusterChain as a whole, and a chain read back or given back.
use bas_cpp.Prelude.{
  ℕ, zero, suc, ◌+◌, ◌≤◌, ◌<◌, ◌≡◌, inl, inr, refl, ap, subst, false, Option, none, some, List, ◌∷◌,
  arith, ◌==◌, ltb, leb, Bool-cases, ◌&&◌,
}
use bas_cpp.Volume.Fat32.ClusterManager.{Fat, fat_entries, find_contiguous_free_run, set_alloc_hint}
use bas_cpp.Volume.Fat32.ClusterManager.FreeRuns.{
  IsFreeRun, find_contiguous_free_run-IsFreeRun, same_entries_find_contiguous_free_run,
}
use bas_cpp.Volume.Fat32.Chain.{
  Outcome, end_of_chain, find_run, set_hint, allocate_from, allocate_cluster_chain,
  free_cluster_chain, read_cluster_chain,
}
use bas_cpp.Volume.Fat32.Chain.Free.{free_cluster_chain_frees}
use bas_cpp.Volume.Fat32.Chain.Reading.{read_cluster_chain-IsChain}
use bas_cpp.Volume.Fat32.Chain.Runs.{range, length-range, link_run-IsAllocated}
use bas_cpp.Volume.Fat32.Chain.Fragments.{rolled_back, allocate_each_first-IsAllocation}
use bas_cpp.Volume.Fat32.Chain.Allocated.{IsAllocated, IsAllocation}

entries-set_alloc_hint : (f : Fat) (c : ℕ) → (set_alloc_hint f c).entries ≡ f.entries
unfolding set_alloc_hint
entries-set_alloc_hint f c = elim (Bool-cases (leb 2 c && ltb c (fat_entries f))) [
  | inl e ↦ rw e refl
  | inr e ↦ rw e refl
]

run_found :
    (n start : ℕ) (f f' : Fat)
    → fat_entries f ≤ end_of_chain
    → IsFreeRun f (suc n) start f'
    → IsAllocation f.entries (suc n) (allocate_from (suc n) (some start) f')
unfolding allocate_from set_hint
run_found n start f f' small h =
    let same = h.run_entries in
    let (after, runs, done) =
      link_run-IsAllocated n start f' (rw same small) h.above (rw same h.below)
        (rw same h.run_free) in
    rw (runs, entries-set_alloc_hint after (start + suc n))
      (
        length-range start (suc n),
        subst (λ b. IsAllocated b (range start (suc n)) after.entries) same done,
      )

chain_from :
    (n : ℕ) (f : Fat)
    → fat_entries f ≤ end_of_chain
    → (hit : Option ℕ) (f' : Fat) → find_contiguous_free_run f (suc n) ≡ (hit, f')
    → f'.entries ≡ f.entries
    → IsAllocation f.entries (suc n) (allocate_from (suc n) hit f')
chain_from n f small none f' h same =
    subst (λ b. IsAllocation b (suc n) (allocate_from (suc n) none f')) same
      (unfold allocate_from in
        allocate_each_first-IsAllocation (suc n) f' (omega arith) (rw same small))
chain_from n f small (some start) f' h same = run_found n start f f' small (
    subst (λ r. IsFreeRun f (suc n) start r.1) h
      (find_contiguous_free_run-IsFreeRun f (suc n) start (ap (λ r. r.0) h)))

-- Allocation of a chain of `count` clusters from a table of at most 2^28 - 8 entries, along either path: it
-- answers `count` clusters that were free and are now a chain in that order, with no other entry
-- changed; or it throws, the table is as it was, and fewer than `count` clusters of it are free. It never
-- runs out of fuel.
pub allocate_cluster_chain-IsAllocation :
    (f : Fat) (count : ℕ)
    → 0 < count
    → fat_entries f ≤ end_of_chain
    → IsAllocation f.entries count (allocate_cluster_chain count f)
unfolding allocate_cluster_chain find_run
allocate_cluster_chain-IsAllocation f zero pos small = absurd (omega arith)
allocate_cluster_chain-IsAllocation f (suc n) pos small =
    let e : (suc n == 0) ≡ false = ground arith in
    rw e (
      chain_from n f small (find_contiguous_free_run f (suc n)).0
        (find_contiguous_free_run f (suc n)).1 refl
        (same_entries_find_contiguous_free_run f (suc n)))

-- What is allocated is read back from its first cluster.
pub read-allocate_cluster_chain :
    (f after : Fat) (count c : ℕ) (cs : List ℕ)
    → 0 < count
    → fat_entries f ≤ end_of_chain
    → allocate_cluster_chain count f ≡ Outcome.ok (c ∷ cs) after
    → read_cluster_chain c after ≡ Outcome.ok (c ∷ cs) after
read-allocate_cluster_chain f after count c cs pos small runs =
    let h =
      subst (λ r. IsAllocation f.entries count r) runs
        (allocate_cluster_chain-IsAllocation f count pos small) in
    let len = h.1.same_length in read_cluster_chain-IsChain after c cs (rw len small) h.1.chain

-- What is allocated and then freed from its first cluster leaves the table as it was before.
pub free-allocate_cluster_chain :
    (f after : Fat) (count c : ℕ) (cs : List ℕ)
    → 0 < count
    → fat_entries f ≤ end_of_chain
    → allocate_cluster_chain count f ≡ Outcome.ok (c ∷ cs) after
    → (freed : Fat) × (free_cluster_chain c after ≡ Outcome.ok tt freed)
      × (freed.entries ≡ f.entries)
free-allocate_cluster_chain f after count c cs pos small runs =
    let h =
      subst (λ r. IsAllocation f.entries count r) runs
        (allocate_cluster_chain-IsAllocation f count pos small) in
    let len = h.1.same_length in
    let (freed, frees, is_freed) = free_cluster_chain_frees after c cs (rw len small) h.1.chain in
    (freed, frees, rolled_back f.entries (c ∷ cs) after freed h.1 is_freed)
