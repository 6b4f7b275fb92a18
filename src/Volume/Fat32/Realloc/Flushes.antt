-- ===== src/Volume/Fat32/Realloc/Flushes.antt =====
-- reallocClusters flushes the table unless it answers the chain that it was given.
use bas_cpp.Prelude.{
  ℕ, ◌-◌, ◌≡◌, ◌⊎◌, inl, inr, refl, Bool, true, false, List, [], if◌then◌else◌, ◌==◌, length,
  get_or, take, drop,
}
use bas_cpp.Volume.Fat32.ClusterManager.{Fat}
use bas_cpp.Volume.Fat32.Chain.{
  Outcome, Op, and_then, ◌>>=◌, ◌>>◌, done, set_entry, find_run, end_of_chain,
  allocate_cluster_chain,
}
use bas_cpp.Volume.Fat32.Realloc.{
  Reallocated, ReallocStrategy, flushed, free_all, back, analyze_realloc_strategy, shrink,
  extend_run, extend, reallocate, rebuild, run_base, link_rebuilt, relocate, apply_strategy,
  realloc_table,
}

-- The result asks for a flush, or is the old chain.
abbrev pub AsksFlush : List ℕ → Outcome Reallocated → Type 0
AsksFlush clusters (Outcome.ok r f) = (r.clusters ≡ clusters) ⊎ (r.flush ≡ true)
AsksFlush clusters (Outcome.throws f) = Unit
AsksFlush clusters (Outcome.out_of_fuel f) = Unit

abbrev Flushes : List ℕ → Op Reallocated → Type 0
Flushes clusters m = (f : Fat) → AsksFlush clusters (m f)

module _ (clusters : List ℕ) where
  Flushes-then :
      {A : Type 0} (r : Outcome A) (next : A → Op Reallocated)
      → ((a : A) → Flushes clusters (next a))
      → AsksFlush clusters (and_then r next)
  Flushes-then (Outcome.ok a f) next h = h a f
  Flushes-then (Outcome.throws f) next h = tt
  Flushes-then (Outcome.out_of_fuel f) next h = tt

  Flushes-bind :
      {A : Type 0} (m : Op A) (next : A → Op Reallocated)
      → ((a : A) → Flushes clusters (next a))
      → Flushes clusters (m >>= next)
  Flushes-bind m next h f = Flushes-then (m f) next h

  Flushes-if :
      (b : Bool) (x y : Op Reallocated)
      → Flushes clusters x
      → Flushes clusters y
      → Flushes clusters (if b then x else y)
  Flushes-if true x y hx hy = hx
  Flushes-if false x y hx hy = hy

  flushed-Flushes : (cs : List ℕ) → Flushes clusters (done (flushed cs))
  flushed-Flushes cs f = inr refl

  shrink-Flushes : (need : ℕ) → Flushes clusters (shrink clusters need)
  unfolding shrink
  shrink-Flushes need =
      let last = get_or clusters (need - 1) 0 in
      let cut = done (flushed (take need clusters)) in
      Flushes-bind (free_all (drop need clusters)) (λ _. set_entry last end_of_chain >> cut)
        (λ _.
          Flushes-bind (set_entry last end_of_chain) (λ _. cut)
            (λ _. flushed-Flushes (take need clusters)))

  extend-Flushes : (need : ℕ) → Flushes clusters (extend clusters need)
  unfolding extend
  extend-Flushes need =
      Flushes-bind (extend_run (need - length clusters) (back clusters) clusters)
        (λ out. done (flushed out)) flushed-Flushes

  freed-Flushes : (cs : List ℕ) → Flushes clusters (free_all clusters >> done (flushed cs))
  freed-Flushes cs =
      Flushes-bind (free_all clusters) (λ _. done (flushed cs)) (λ _. flushed-Flushes cs)

  reallocate-Flushes : (need : ℕ) → Flushes clusters (reallocate clusters need)
  unfolding reallocate
  reallocate-Flushes need =
      Flushes-bind (allocate_cluster_chain need) (λ cs. free_all clusters >> done (flushed cs))
        freed-Flushes

  relocate-Flushes : (need : ℕ) → Flushes clusters (relocate clusters need)
  unfolding relocate
  relocate-Flushes need =
      let finish = λ (rebuilt : List ℕ) (linked : Bool).
        if linked
        then (free_all clusters >> done (flushed rebuilt))
        else reallocate clusters need in
      let move = λ (rebuilt : List ℕ). link_rebuilt rebuilt >>= finish rebuilt in
      Flushes-bind (find_run need) (λ hit. move (rebuild (run_base hit) need))
        (λ hit.
          let rebuilt = rebuild (run_base hit) need in
          Flushes-bind (link_rebuilt rebuilt) (finish rebuilt) (λ linked.
            Flushes-if linked (free_all clusters >> done (flushed rebuilt))
              (reallocate clusters need) (freed-Flushes rebuilt) (reallocate-Flushes need)))

  apply_strategy-Flushes :
      (need : ℕ) (s : ReallocStrategy) → Flushes clusters (apply_strategy clusters need s)
  unfolding apply_strategy
  apply_strategy-Flushes need ReallocStrategy.keep_as_is = λ f. inl refl
  apply_strategy-Flushes need ReallocStrategy.shrink_tail = shrink-Flushes need
  apply_strategy-Flushes need ReallocStrategy.extend_tail_contiguous = extend-Flushes need
  apply_strategy-Flushes need ReallocStrategy.relocate_contiguous = relocate-Flushes need
  apply_strategy-Flushes need ReallocStrategy.realloc_fragmented = reallocate-Flushes need

  pub realloc_table-AsksFlush :
      (need : ℕ) (f : Fat) → AsksFlush clusters (realloc_table clusters need f)
  unfolding realloc_table
  realloc_table-AsksFlush need =
      Flushes-if (need == 0) (free_all clusters >> done (flushed []))
        (analyze_realloc_strategy clusters need >>= apply_strategy clusters need) (freed-Flushes [])
        (Flushes-bind (analyze_realloc_strategy clusters need) (apply_strategy clusters need)
          (apply_strategy-Flushes need))
