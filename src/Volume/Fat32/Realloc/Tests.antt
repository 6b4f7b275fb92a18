-- ===== src/Volume/Fat32/Realloc/Tests.antt =====
-- Files of a small table that grow and shrink.
use bas_cpp.Prelude.{◌≡◌, inl, inr, refl, [], ◌∷◌, arith}
use bas_cpp.Volume.Fat32.ClusterManager.{
  Fat, put_entry, set_fat_entry, get_fat_entry, find_contiguous_free_run, scan_run, first_run,
  second_run, found_run,
}
use bas_cpp.Volume.Fat32.Chain.{
  Outcome, end_of_chain, get_entry, got, set_entry, put, find_run, free_loop, free_cluster_chain,
}
use bas_cpp.Volume.Fat32.Chain.Linked.{IsChain}
use bas_cpp.Volume.Fat32.Flush.Tests.{chained_disk, chained_disk-Coherent}
use bas_cpp.Volume.Fat32.Realloc.Durable.{DurableResult, realloc_clusters-DurableResult}
use bas_cpp.Volume.Fat32.Realloc.Spec.{IsReallocation}
use bas_cpp.Volume.Fat32.Realloc.Total.{realloc_table-IsReallocation}
use bas_cpp.Volume.Fat32.Realloc.{
  realloc_clusters, realloc_table, analyze_realloc_strategy, apply_strategy, tail_free,
  move_strategy, extend, extend_run, shrink, free_all, relocate, link_rebuilt, flushed,
}

-- The file's only cluster is the last of the table; 3 and 4 are free.
abbrev at_the_end : Fat
at_the_end = record {
  entries = 268435448 ∷ 268435455 ∷ 268435448 ∷ 0 ∷ 0 ∷ end_of_chain ∷ [];
  dirty_clusters = [];
  alloc_hint = 2;
}

-- A file at the end of the table cannot grow, although clusters are free: the look at the cluster
-- after it throws.
grow_at_the_end : realloc_table (5 ∷ []) 2 at_the_end ≡ Outcome.throws at_the_end
unfolding realloc_table analyze_realloc_strategy tail_free get_entry got get_fat_entry
grow_at_the_end = refl

-- The last three clusters are the only free ones.
abbrev free_at_the_end : Fat
free_at_the_end = record {
  entries = 268435448 ∷ 268435455 ∷ end_of_chain ∷ end_of_chain ∷ 0 ∷ 0 ∷ 0 ∷ [];
  dirty_clusters = [];
  alloc_hint = 2;
}

-- A new file of three clusters does not get them: the second search begins at the last cluster, where
-- the first one left the hint.
move_to_the_end :
    realloc_table [] 3 free_at_the_end ≡ Outcome.throws (record free_at_the_end { alloc_hint = 7 })
unfolding realloc_table analyze_realloc_strategy move_strategy apply_strategy relocate link_rebuilt
    find_run find_contiguous_free_run scan_run first_run second_run found_run get_entry got
    get_fat_entry
move_to_the_end = refl

-- The chain 2, 3 with the clusters 4 and 5 free behind it.
abbrev growing : Fat
growing = record {
  entries = 268435448 ∷ 268435455 ∷ 3 ∷ end_of_chain ∷ 0 ∷ 0 ∷ 9 ∷ [];
  dirty_clusters = [];
  alloc_hint = 2;
}

grow_in_place :
    realloc_table (2 ∷ 3 ∷ []) 4 growing
    ≡ Outcome.ok (flushed (2 ∷ 3 ∷ 4 ∷ 5 ∷ [])) (record {
      entries = 268435448 ∷ 268435455 ∷ 3 ∷ 4 ∷ 5 ∷ end_of_chain ∷ 9 ∷ [];
      dirty_clusters = 3 ∷ 4 ∷ 4 ∷ 5 ∷ [];
      alloc_hint = 2;
    })
unfolding realloc_table analyze_realloc_strategy tail_free apply_strategy extend extend_run
    get_entry got get_fat_entry set_entry put set_fat_entry put_entry
grow_in_place = refl

shrink_to_one :
    realloc_table (2 ∷ 3 ∷ []) 1 growing
    ≡ Outcome.ok (flushed (2 ∷ [])) (record {
      entries = 268435448 ∷ 268435455 ∷ end_of_chain ∷ 0 ∷ 0 ∷ 0 ∷ 9 ∷ [];
      dirty_clusters = 3 ∷ 2 ∷ [];
      alloc_hint = 2;
    })
unfolding realloc_table analyze_realloc_strategy apply_strategy shrink free_all free_cluster_chain
    free_loop get_entry got get_fat_entry set_entry put set_fat_entry put_entry
shrink_to_one = refl

two_three-IsChain : IsChain growing.entries (2 ∷ 3 ∷ [])
two_three-IsChain = record {
  linked = (refl, refl);
  distinct = (λ m. elim m [ inl e ↦ omega (arith, e) | inr n ↦ n ], (λ m. m, tt));
  in_range = ((omega arith, omega arith), ((omega arith, omega arith), tt));
}

realloc_table-IsReallocation_example :
    IsReallocation growing.entries (2 ∷ 3 ∷ []) 4 (realloc_table (2 ∷ 3 ∷ []) 4 growing)
realloc_table-IsReallocation_example =
    realloc_table-IsReallocation growing (2 ∷ 3 ∷ []) 4 (omega arith) two_three-IsChain

chained_two_three-IsChain : IsChain chained_disk.fat.entries (2 ∷ 3 ∷ [])
chained_two_three-IsChain = record {
  linked = (refl, refl);
  distinct = (λ m. elim m [ inl e ↦ omega (arith, e) | inr n ↦ n ], (λ m. m, tt));
  in_range = ((omega arith, omega arith), ((omega arith, omega arith), tt));
}

realloc_clusters-DurableResult_example :
    DurableResult chained_disk (2 ∷ 3 ∷ []) 1 (realloc_clusters chained_disk (2 ∷ 3 ∷ []) 512 512)
realloc_clusters-DurableResult_example =
    realloc_clusters-DurableResult chained_disk (2 ∷ 3 ∷ []) 512 512 chained_disk-Coherent
      (omega arith) chained_two_three-IsChain
