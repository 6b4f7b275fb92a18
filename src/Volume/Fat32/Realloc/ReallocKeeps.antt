-- ===== src/Volume/Fat32/Realloc/ReallocKeeps.antt =====
-- Every strategy of reallocClusters keeps the tables in memory and on the device coherent.
use bas_cpp.Prelude.{
  ℕ, zero, suc, ◌+◌, ◌-◌, Bool, false, List, [], ◌∷◌, ◌++◌, if◌then◌else◌, ◌==◌, ltb, is_nil,
  length, get_or, take, drop,
}
use bas_cpp.Volume.Fat32.Flush.{Disk}
use bas_cpp.Volume.Fat32.Chain.{
  ◌>>=◌, ◌>>◌, done, get_entry, set_entry, find_run, end_of_chain, allocate_cluster_chain,
}
use bas_cpp.Volume.Fat32.Chain.Keeps.{
  Keeps, Keeps-bind, Keeps-if, get_entry-Keeps, set_entry-Keeps, find_run-Keeps,
  free_cluster_chain-Keeps,
}
use bas_cpp.Volume.Fat32.Chain.AllocationKeeps.{Keeps-seq, allocate_cluster_chain-Keeps}
use bas_cpp.Volume.Fat32.Realloc.{
  ReallocStrategy, flushed, free_all, back, tail_free, by_run, move_strategy,
  analyze_realloc_strategy, shrink, extend_run, extend, reallocate, rebuild, run_base, next_or_end,
  link_rebuilt, relocate, apply_strategy, realloc_table,
}

module _ (d : Disk) where
  tail_free-Keeps : (n c : ℕ) → Keeps d (tail_free n c)
  unfolding tail_free
  tail_free-Keeps zero c = λ f h. h
  tail_free-Keeps (suc n) c =
      let rest = tail_free n (c + 1) in
      let later = tail_free-Keeps n (c + 1) in
      Keeps-bind d (get_entry c) (λ entry. if entry == 0 then rest else done false)
        (get_entry-Keeps d c) (λ entry. Keeps-if d (entry == 0) rest (done false) later (λ f h. h))

  move_strategy-Keeps : (need : ℕ) → Keeps d (move_strategy need)
  unfolding move_strategy
  move_strategy-Keeps need =
      Keeps-bind d (find_run need) (λ hit. done (by_run hit)) (find_run-Keeps d need) (λ _ f h. h)

  analyze_realloc_strategy-Keeps :
      (clusters : List ℕ) (need : ℕ) → Keeps d (analyze_realloc_strategy clusters need)
  unfolding analyze_realloc_strategy
  analyze_realloc_strategy-Keeps clusters need =
      let move = move_strategy need in
      let choose = λ (contiguous : Bool).
        if contiguous then done ReallocStrategy.extend_tail_contiguous else move in
      let look = tail_free (need - length clusters) (back clusters + 1) >>= choose in
      let longer = if is_nil clusters then move else look in
      let other = if ltb need (length clusters) then done ReallocStrategy.shrink_tail else longer in
      Keeps-if d (length clusters == need) (done ReallocStrategy.keep_as_is) other (λ f h. h)
        (Keeps-if d (ltb need (length clusters)) (done ReallocStrategy.shrink_tail) longer
          (λ f h. h)
          (Keeps-if d (is_nil clusters) move look (move_strategy-Keeps need) (
            Keeps-bind d (tail_free (need - length clusters) (back clusters + 1)) choose
              (tail_free-Keeps (need - length clusters) (back clusters + 1))
              (λ contiguous.
                Keeps-if d contiguous (done ReallocStrategy.extend_tail_contiguous) move (λ f h. h)
                  (move_strategy-Keeps need)))))

  free_all-Keeps : (clusters : List ℕ) → Keeps d (free_all clusters)
  unfolding free_all
  free_all-Keeps [] = λ f h. h
  free_all-Keeps (c ∷ cs) = free_cluster_chain-Keeps d c

  shrink-Keeps : (clusters : List ℕ) (need : ℕ) → Keeps d (shrink clusters need)
  unfolding shrink
  shrink-Keeps clusters need =
      let last = get_or clusters (need - 1) 0 in
      Keeps-seq d (free_all (drop need clusters))
        (set_entry last end_of_chain >> done (flushed (take need clusters)))
        (free_all-Keeps (drop need clusters))
        (Keeps-seq d (set_entry last end_of_chain) (done (flushed (take need clusters)))
          (set_entry-Keeps d last end_of_chain) (λ f h. h))

  extend_run-Keeps : (n prev : ℕ) (out : List ℕ) → Keeps d (extend_run n prev out)
  unfolding extend_run
  extend_run-Keeps zero prev out = λ f h. h
  extend_run-Keeps (suc n) prev out =
      let c = prev + 1 in
      let rest = extend_run n c (out ++ c ∷ []) in
      let later = extend_run-Keeps n c (out ++ c ∷ []) in
      Keeps-seq d (set_entry prev c) (set_entry c end_of_chain >> rest) (set_entry-Keeps d prev c)
        (Keeps-seq d (set_entry c end_of_chain) rest (set_entry-Keeps d c end_of_chain) later)

  extend-Keeps : (clusters : List ℕ) (need : ℕ) → Keeps d (extend clusters need)
  unfolding extend
  extend-Keeps clusters need =
      Keeps-bind d (extend_run (need - length clusters) (back clusters) clusters)
        (λ out. done (flushed out))
        (extend_run-Keeps (need - length clusters) (back clusters) clusters) (λ _ f h. h)

  reallocate-Keeps : (clusters : List ℕ) (need : ℕ) → Keeps d (reallocate clusters need)
  unfolding reallocate
  reallocate-Keeps clusters need =
      Keeps-bind d (allocate_cluster_chain need)
        (λ rebuilt. free_all clusters >> done (flushed rebuilt))
        (allocate_cluster_chain-Keeps d need)
        (λ rebuilt.
          Keeps-seq d (free_all clusters) (done (flushed rebuilt)) (free_all-Keeps clusters)
            (λ f h. h))

  link_rebuilt-Keeps : (cs : List ℕ) → Keeps d (link_rebuilt cs)
  unfolding link_rebuilt
  link_rebuilt-Keeps [] = λ f h. h
  link_rebuilt-Keeps (c ∷ cs) =
      let write = set_entry c (next_or_end cs) in
      let later = link_rebuilt-Keeps cs in
      Keeps-bind d (get_entry c)
        (λ entry. if entry == 0 then (write >> link_rebuilt cs) else done false)
        (get_entry-Keeps d c)
        (λ entry.
          Keeps-if d (entry == 0) (write >> link_rebuilt cs) (done false)
            (Keeps-seq d write (link_rebuilt cs) (set_entry-Keeps d c (next_or_end cs)) later)
            (λ f h. h))

  relocate-Keeps : (clusters : List ℕ) (need : ℕ) → Keeps d (relocate clusters need)
  unfolding relocate
  relocate-Keeps clusters need =
      let finish = λ (rebuilt : List ℕ) (linked : Bool).
        if linked
        then (free_all clusters >> done (flushed rebuilt))
        else reallocate clusters need in
      let move = λ (rebuilt : List ℕ). link_rebuilt rebuilt >>= finish rebuilt in
      Keeps-bind d (find_run need) (λ hit. move (rebuild (run_base hit) need))
        (find_run-Keeps d need)
        (λ hit.
          let rebuilt = rebuild (run_base hit) need in
          Keeps-bind d (link_rebuilt rebuilt) (finish rebuilt) (link_rebuilt-Keeps rebuilt)
            (λ linked.
              Keeps-if d linked (free_all clusters >> done (flushed rebuilt))
                (reallocate clusters need)
                (Keeps-seq d (free_all clusters) (done (flushed rebuilt)) (free_all-Keeps clusters)
                  (λ f h. h))
                (reallocate-Keeps clusters need)))

  apply_strategy-Keeps :
      (clusters : List ℕ) (need : ℕ) (s : ReallocStrategy)
      → Keeps d (apply_strategy clusters need s)
  unfolding apply_strategy
  apply_strategy-Keeps clusters need ReallocStrategy.keep_as_is = λ f h. h
  apply_strategy-Keeps clusters need ReallocStrategy.shrink_tail = shrink-Keeps clusters need
  apply_strategy-Keeps clusters need ReallocStrategy.extend_tail_contiguous =
      extend-Keeps clusters need
  apply_strategy-Keeps clusters need ReallocStrategy.relocate_contiguous =
      relocate-Keeps clusters need
  apply_strategy-Keeps clusters need ReallocStrategy.realloc_fragmented =
      reallocate-Keeps clusters need

  pub realloc_table-Keeps : (clusters : List ℕ) (need : ℕ) → Keeps d (realloc_table clusters need)
  unfolding realloc_table
  realloc_table-Keeps clusters need =
      Keeps-if d (need == 0) (free_all clusters >> done (flushed []))
        (analyze_realloc_strategy clusters need >>= apply_strategy clusters need)
        (Keeps-seq d (free_all clusters) (done (flushed [])) (free_all-Keeps clusters) (λ f h. h))
        (Keeps-bind d (analyze_realloc_strategy clusters need) (apply_strategy clusters need)
          (analyze_realloc_strategy-Keeps clusters need) (apply_strategy-Keeps clusters need))
