-- ===== src/Volume/Fat32/Realloc/Spec.antt =====
-- What a change of a file's chain comes to, and the old chain given back after a new one is allocated.
use bas_cpp.Prelude.{ℕ, ◌≤◌, ◌<◌, ◌≡◌, ◌⊎◌, inr, refl, ◌∙◌, List, [], ◌∷◌, length, get_or}
use bas_cpp.Volume.Fat32.ClusterManager.{Fat, fat_entries}
use bas_cpp.Volume.Fat32.Chain.{Outcome, end_of_chain, allocate_cluster_chain}
use bas_cpp.Volume.Fat32.Chain.Linked.{Mem, IsChain, IsChain-frame, IsChain-used_all}
use bas_cpp.Volume.Fat32.Chain.Free.{IsFreed, free_cluster_chain_frees}
use bas_cpp.Volume.Fat32.Chain.Allocated.{IsAllocated, IsAllocation}
use bas_cpp.Volume.Fat32.Chain.Allocation.{allocate_cluster_chain-IsAllocation}
use bas_cpp.Volume.Fat32.Realloc.{Reallocated, flushed, free_all, reallocate}

-- The chain `clusters` has become the chain `cs`, of the length that is needed: what came to it was free,
-- what left it is free, and no other entry differs.
pub record IsReallocated (before clusters : List ℕ) (need : ℕ) (cs after : List ℕ) : Type 0 where
  pub count : length cs ≡ need
  pub same_length : length after ≡ length before
  pub chain : IsChain after cs
  pub came_free : (k : ℕ) → Mem k cs → Mem k clusters ⊎ (get_or before k 0 ≡ 0)
  pub left_free : (k : ℕ) → Mem k clusters → ¬ Mem k cs → get_or after k 0 ≡ 0
  pub others : (k : ℕ) → ¬ Mem k clusters → ¬ Mem k cs → get_or after k 0 ≡ get_or before k 0

-- Such a chain, or an exception that leaves the entries as they were.
abbrev pub IsReallocation : List ℕ → List ℕ → ℕ → Outcome Reallocated → Type 0
IsReallocation before clusters need (Outcome.ok r after) =
    IsReallocated before clusters need r.clusters after.entries
IsReallocation before clusters need (Outcome.throws after) = after.entries ≡ before
IsReallocation before clusters need (Outcome.out_of_fuel after) = ⊥

pub free_all_frees :
    (f : Fat) (clusters : List ℕ)
    → fat_entries f ≤ end_of_chain
    → IsChain f.entries clusters
    → (after : Fat) × (free_all clusters f ≡ Outcome.ok tt after) × IsFreed f clusters after
unfolding free_all
free_all_frees f [] small h =
    (f, refl, record { same_length = refl; cleared = λ k m. absurd m; others = λ k m. refl })
free_all_frees f (c ∷ cs) small h = free_cluster_chain_frees f c cs small h

-- A chain that is allocated has no cluster of one that was there.
apart_from_old :
    (before clusters cs mid : List ℕ) (k : ℕ)
    → IsChain before clusters
    → IsAllocated before cs mid
    → Mem k cs
    → ¬ Mem k clusters
apart_from_old before clusters cs mid k old new m n =
    IsChain-used_all before clusters k old n (new.were_free k m)

pub old-IsChain_kept :
    (before clusters cs mid : List ℕ)
    → IsChain before clusters
    → IsAllocated before cs mid
    → IsChain mid clusters
old-IsChain_kept before clusters cs mid old new =
    IsChain-frame before mid clusters new.same_length
      (λ k m. new.others k (λ n. apart_from_old before clusters cs mid k old new n m)) old

-- A new chain is allocated, and the old one is freed.
pub IsReallocated-moved :
    (before clusters cs : List ℕ) (need : ℕ) (f after : Fat)
    → length cs ≡ need
    → IsChain before clusters
    → IsAllocated before cs f.entries
    → IsFreed f clusters after
    → IsReallocated before clusters need cs after.entries
IsReallocated-moved before clusters cs need f after len old new freed = record {
  count = len;
  same_length = freed.same_length ∙ new.same_length;
  chain =
      IsChain-frame f.entries after.entries cs freed.same_length
        (λ k m. freed.others k (apart_from_old before clusters cs f.entries k old new m)) new.chain;
  came_free = λ k m. inr (new.were_free k m);
  left_free = λ k m n. freed.cleared k m;
  others = λ k m n. freed.others k m ∙ new.others k n;
}

reallocate_ok :
    (clusters : List ℕ) (need : ℕ) (f mid after : Fat) (cs : List ℕ)
    → allocate_cluster_chain need f ≡ Outcome.ok cs mid
    → free_all clusters mid ≡ Outcome.ok tt after
    → reallocate clusters need f ≡ Outcome.ok (flushed cs) after
unfolding reallocate
reallocate_ok clusters need f mid after cs h₁ h₂ = rw (h₁, h₂) refl

reallocate_throws :
    (clusters : List ℕ) (need : ℕ) (f mid : Fat)
    → allocate_cluster_chain need f ≡ Outcome.throws mid
    → reallocate clusters need f ≡ Outcome.throws mid
unfolding reallocate
reallocate_throws clusters need f mid h = rw h refl

pub reallocate-IsReallocation :
    (f : Fat) (clusters : List ℕ) (need : ℕ)
    → 0 < need
    → fat_entries f ≤ end_of_chain
    → IsChain f.entries clusters
    → IsReallocation f.entries clusters need (reallocate clusters need f)
reallocate-IsReallocation f clusters need pos small old =
    reallocate_case (allocate_cluster_chain need f) refl
      (allocate_cluster_chain-IsAllocation f need pos small)
  where
    reallocate_case :
        (r : Outcome (List ℕ))
        → allocate_cluster_chain need f ≡ r
        → IsAllocation f.entries need r
        → IsReallocation f.entries clusters need (reallocate clusters need f)
    reallocate_case (Outcome.ok cs mid) runs h =
        let len = h.1.same_length in
        let (after, frees, freed) =
          free_all_frees mid clusters (rw len small)
            (old-IsChain_kept f.entries clusters cs mid.entries old h.1) in
        rw (reallocate_ok clusters need f mid after cs runs frees)
          (IsReallocated-moved f.entries clusters cs need mid after h.0 old h.1 freed)
    reallocate_case (Outcome.throws mid) runs h =
        rw (reallocate_throws clusters need f mid runs) h.unchanged
    reallocate_case (Outcome.out_of_fuel mid) runs h = absurd h
