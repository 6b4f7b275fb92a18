-- ===== src/Volume/Fat32/Realloc/Outcomes.antt =====
-- reallocClusters as a whole, over all its strategies.
use bas_cpp.Prelude.{
  ℕ, ◌+◌, ◌-◌, ◌≤◌, ◌<◌, ◌≡◌, inl, inr, refl, sym, ap, subst, ◌∙◌, Option, none, some, List, [],
  ◌∷◌, ◌++◌, arith, length, length-append, Any-append,
}
use bas_cpp.Volume.Fat32.ClusterManager.{Fat, fat_entries, find_contiguous_free_run}
use bas_cpp.Volume.Fat32.ClusterManager.FreeRuns.{AllFree, same_entries_find_contiguous_free_run}
use bas_cpp.Volume.Fat32.Chain.{Outcome, end_of_chain, find_run, ◌>>=◌}
use bas_cpp.Volume.Fat32.Chain.Linked.{IsChain}
use bas_cpp.Volume.Fat32.Chain.Free.{IsFreed}
use bas_cpp.Volume.Fat32.Chain.Allocated.{IsAllocated}
use bas_cpp.Volume.Fat32.Chain.Runs.{range, length-range, Mem-range}
use bas_cpp.Volume.Fat32.Realloc.{
  flushed, back, extend_run, extend, by_run, move_strategy, apply_strategy,
}
use bas_cpp.Volume.Fat32.Realloc.Spec.{
  IsReallocated, IsReallocation, free_all_frees, reallocate-IsReallocation,
}
use bas_cpp.Volume.Fat32.Realloc.Extend.{extend_run-IsAllocated}
use bas_cpp.Volume.Fat32.Realloc.Relocate.{relocate-IsReallocation}

-- All clusters but the last.
abbrev front : List ℕ → List ℕ
front [] = []
front (c ∷ []) = []
front (c ∷ d ∷ cs) = c ∷ front (d ∷ cs)

front-back : (c : ℕ) (cs : List ℕ) → front (c ∷ cs) ++ back (c ∷ cs) ∷ [] ≡ c ∷ cs
front-back c [] = refl
front-back c (d ∷ cs) = ap (λ xs. c ∷ xs) (front-back d cs)

-- A chain is an allocation from the table in which it is freed.
IsAllocated-freed :
    (f freed : Fat) (cs : List ℕ)
    → IsChain f.entries cs
    → IsFreed f cs freed
    → IsAllocated freed.entries cs f.entries
IsAllocated-freed f freed cs h free = record {
  same_length = sym free.same_length;
  chain = h;
  were_free = free.cleared;
  others = λ k m. sym (free.others k m);
}

-- The chain with a run of free clusters behind it.
stretched-IsReallocated :
    (f freed after : Fat) (clusters : List ℕ) (start n : ℕ)
    → IsFreed f clusters freed
    → AllFree f.entries start n
    → IsAllocated freed.entries (clusters ++ range start n) after.entries
    → IsReallocated f.entries clusters
        (length clusters + n)
        (clusters ++ range start n)
        after.entries
stretched-IsReallocated f freed after clusters start n free run h =
    let join = λ (k : ℕ). Any-append (λ x. x ≡ k) clusters (range start n) in
    record {
      count = rw (length-append clusters (range start n), length-range start n) refl;
      same_length = h.same_length ∙ free.same_length;
      chain = h.chain;
      came_free = λ k m. elim ((join k).0 m) [
        | inl old ↦ inl old
        | inr new ↦ let b = Mem-range k start n new in inr (run k b.0 b.1)
      ];
      left_free = λ k m out. absurd (out ((join k).1 (inl m)));
      others = λ k m out. h.others k out ∙ free.others k m;
    }

extend_ok :
    (clusters : List ℕ) (need : ℕ) (f after : Fat) (out : List ℕ)
    → extend_run (need - length clusters) (back clusters) clusters f ≡ Outcome.ok out after
    → extend clusters need f ≡ Outcome.ok (flushed out) after
unfolding extend
extend_ok clusters need f after out h = rw h refl

pub extend-IsReallocation :
    (f : Fat) (c : ℕ) (cs : List ℕ) (need : ℕ)
    → length (c ∷ cs) ≤ need
    → fat_entries f ≤ end_of_chain
    → IsChain f.entries (c ∷ cs)
    → AllFree f.entries (back (c ∷ cs) + 1) (need - length (c ∷ cs))
    → back (c ∷ cs) + 1 + (need - length (c ∷ cs)) ≤ fat_entries f
    → IsReallocation f.entries (c ∷ cs) need (extend (c ∷ cs) need f)
extend-IsReallocation f c cs need more small old run room =
    let clusters = c ∷ cs in
    let p = back clusters in
    let n = need - length clusters in
    let whole = front-back c cs in
    let total : length clusters + n ≡ need = omega arith in
    let (freed, _, free) = free_all_frees f clusters small old in
    let (after, runs, h) =
      extend_run-IsAllocated n p freed.entries (front clusters) f small
        (subst (λ xs. IsAllocated freed.entries xs f.entries) (sym whole)
          (IsAllocated-freed f freed clusters old free))
        run room in
    let runs' =
      subst (λ xs. extend_run n p xs f ≡ Outcome.ok (xs ++ range (p + 1) n) after) whole runs in
    let h' =
      subst (λ xs. IsAllocated freed.entries (xs ++ range (p + 1) n) after.entries) whole h in
    rw (extend_ok clusters need f after (clusters ++ range (p + 1) n) runs') (
      subst (λ m. IsReallocated f.entries clusters m (clusters ++ range (p + 1) n) after.entries)
        total (stretched-IsReallocated f freed after clusters (p + 1) n free run h'))

-- The chain moves: to a run, or to fragments.
by_run-IsReallocation :
    (f : Fat) (clusters : List ℕ) (need : ℕ) (hit : Option ℕ)
    → 0 < need
    → fat_entries f ≤ end_of_chain
    → IsChain f.entries clusters
    → IsReallocation f.entries clusters need (apply_strategy clusters need (by_run hit) f)
unfolding apply_strategy
by_run-IsReallocation f clusters need none pos small old =
    reallocate-IsReallocation f clusters need pos small old
by_run-IsReallocation f clusters need (some start) pos small old =
    relocate-IsReallocation f clusters need pos small old

pub move-IsReallocation :
    (f : Fat) (clusters : List ℕ) (need : ℕ)
    → 0 < need
    → fat_entries f ≤ end_of_chain
    → IsChain f.entries clusters
    → IsReallocation f.entries clusters need
        ((move_strategy need >>= apply_strategy clusters need) f)
unfolding move_strategy find_run
move-IsReallocation f clusters need pos small old =
    let r = find_contiguous_free_run f need in
    let same = same_entries_find_contiguous_free_run f need in
    subst (λ b. IsReallocation b clusters need (apply_strategy clusters need (by_run r.0) r.1)) same
      (by_run-IsReallocation r.1 clusters need r.0 pos (rw same small) (rw same old))
