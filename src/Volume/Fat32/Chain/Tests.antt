-- ===== src/Volume/Fat32/Chain/Tests.antt =====
-- Chains of a small table.
use bas_cpp.Prelude.{◌≡◌, inl, inr, refl, some, [], ◌∷◌, arith}
use bas_cpp.Volume.Fat32.ClusterManager.{
  Fat, put_entry, set_fat_entry, get_fat_entry, set_alloc_hint, find_free_from_hint,
  find_contiguous_free_run, scan_free, scan_run, first_scan, second_scan, hint_after, first_run,
  second_run, found_run,
}
use bas_cpp.Volume.Fat32.ClusterManager.Search.{IsFreeSearch, find_free_from_hint-IsFreeSearch}
use bas_cpp.Volume.Fat32.ClusterManager.FreeRuns.{IsFreeRun, find_contiguous_free_run-IsFreeRun}
use bas_cpp.Volume.Fat32.Chain.{
  Outcome, end_of_chain, get_entry, got, set_entry, put, find_free, find_run, set_hint, link_to,
  allocate_cluster, free_loop, free_cluster_chain, link_run, roll_back, allocate_each,
  allocate_from, allocate_cluster_chain, read_loop, read_cluster_chain,
}
use bas_cpp.Volume.Fat32.Chain.Frame.{Ends}
use bas_cpp.Volume.Fat32.Chain.Linked.{IsChain}
use bas_cpp.Volume.Fat32.Chain.Free.{IsFreed, free_cluster_chain-Ends, free_cluster_chain_frees}
use bas_cpp.Volume.Fat32.Chain.Reading.{read_cluster_chain-Ends, read_cluster_chain-IsChain}
use bas_cpp.Volume.Fat32.Chain.Allocated.{IsAllocation}
use bas_cpp.Volume.Fat32.Chain.Allocation.{
  allocate_cluster_chain-IsAllocation, read-allocate_cluster_chain, free-allocate_cluster_chain,
}

-- The chain 2, 4 and free clusters 3, 5 and 6.
abbrev holes : Fat
holes = record {
  entries = 268435448 ∷ 268435455 ∷ 4 ∷ 0 ∷ end_of_chain ∷ 0 ∷ 0 ∷ [];
  dirty_clusters = [];
  alloc_hint = 3;
}

abbrev two_taken : Fat
two_taken = record {
  entries = 268435448 ∷ 268435455 ∷ 4 ∷ 0 ∷ end_of_chain ∷ 6 ∷ end_of_chain ∷ [];
  dirty_clusters = 5 ∷ 6 ∷ [];
  alloc_hint = 7;
}

allocate_two : allocate_cluster_chain 2 holes ≡ Outcome.ok (5 ∷ 6 ∷ []) two_taken
unfolding allocate_cluster_chain find_run find_contiguous_free_run scan_run first_run second_run
    found_run allocate_from link_run set_entry put set_fat_entry put_entry set_hint set_alloc_hint
allocate_two = refl

-- No run of three is free: the chain is of fragments.
allocate_three :
    allocate_cluster_chain 3 holes
    ≡ Outcome.ok (3 ∷ 5 ∷ 6 ∷ []) (record {
      entries = 268435448 ∷ 268435455 ∷ 4 ∷ 5 ∷ end_of_chain ∷ 6 ∷ end_of_chain ∷ [];
      dirty_clusters = 3 ∷ 5 ∷ 3 ∷ 6 ∷ 5 ∷ [];
      alloc_hint = 2;
    })
unfolding allocate_cluster_chain find_run find_contiguous_free_run scan_run first_run second_run
    found_run allocate_from allocate_each find_free find_free_from_hint scan_free first_scan
    second_scan hint_after link_to set_entry put set_fat_entry put_entry
allocate_three = refl

-- Four are too many: the exception leaves the entries as they were.
allocate_four :
    allocate_cluster_chain 4 holes
    ≡ Outcome.throws
        (record holes { dirty_clusters = 3 ∷ 5 ∷ 3 ∷ 6 ∷ 5 ∷ 3 ∷ 5 ∷ 6 ∷ []; alloc_hint = 2 })
unfolding allocate_cluster_chain find_run find_contiguous_free_run scan_run first_run second_run
    found_run allocate_from allocate_each find_free find_free_from_hint scan_free first_scan
    second_scan hint_after link_to set_entry put set_fat_entry put_entry roll_back
    free_cluster_chain free_loop get_entry got get_fat_entry
allocate_four = refl

append_one :
    allocate_cluster 4 holes
    ≡ Outcome.ok 3 (record {
      entries = 268435448 ∷ 268435455 ∷ 4 ∷ end_of_chain ∷ 3 ∷ 0 ∷ 0 ∷ [];
      dirty_clusters = 3 ∷ 4 ∷ [];
      alloc_hint = 4;
    })
unfolding allocate_cluster find_free find_free_from_hint scan_free first_scan second_scan hint_after
    link_to set_entry put set_fat_entry put_entry
append_one = refl

-- A table whose cluster 2 leads to itself over 3.
abbrev looped : Fat
looped = record { entries = 0 ∷ 0 ∷ 3 ∷ 2 ∷ []; dirty_clusters = []; alloc_hint = 2 }

read_loop_found : read_cluster_chain 2 looped ≡ Outcome.throws looped
unfolding read_cluster_chain read_loop get_entry got get_fat_entry
read_loop_found = refl

find_free_from_hint-IsFreeSearch_example : IsFreeSearch holes (find_free_from_hint holes)
find_free_from_hint-IsFreeSearch_example = find_free_from_hint-IsFreeSearch holes

run_of_two : (find_contiguous_free_run holes 2).0 ≡ some 5
unfolding find_contiguous_free_run scan_run first_run second_run found_run
run_of_two = refl

find_contiguous_free_run-IsFreeRun_example :
    IsFreeRun holes 2 5 (find_contiguous_free_run holes 2).1
find_contiguous_free_run-IsFreeRun_example = find_contiguous_free_run-IsFreeRun holes 2 5 run_of_two

free_cluster_chain-Ends_example : Ends (free_cluster_chain 2 looped)
free_cluster_chain-Ends_example = free_cluster_chain-Ends looped 2

read_cluster_chain-Ends_example : Ends (read_cluster_chain 2 looped)
read_cluster_chain-Ends_example = read_cluster_chain-Ends looped 2

two_four-IsChain : IsChain holes.entries (2 ∷ 4 ∷ [])
two_four-IsChain = record {
  linked = (refl, refl);
  distinct = (λ m. elim m [ inl e ↦ omega (arith, e) | inr n ↦ n ], (λ m. m, tt));
  in_range = ((omega arith, omega arith), ((omega arith, omega arith), tt));
}

free_cluster_chain_frees_example :
    (after : Fat) × (free_cluster_chain 2 holes ≡ Outcome.ok tt after)
    × IsFreed holes (2 ∷ 4 ∷ []) after
free_cluster_chain_frees_example =
    free_cluster_chain_frees holes 2 (4 ∷ []) (omega arith) two_four-IsChain

read_cluster_chain-IsChain_example : read_cluster_chain 2 holes ≡ Outcome.ok (2 ∷ 4 ∷ []) holes
read_cluster_chain-IsChain_example =
    read_cluster_chain-IsChain holes 2 (4 ∷ []) (omega arith) two_four-IsChain

allocate_cluster_chain-IsAllocation_example :
    IsAllocation holes.entries 3 (allocate_cluster_chain 3 holes)
allocate_cluster_chain-IsAllocation_example =
    allocate_cluster_chain-IsAllocation holes 3 (omega arith) (omega arith)

read-allocate_cluster_chain_example :
    read_cluster_chain 5 two_taken ≡ Outcome.ok (5 ∷ 6 ∷ []) two_taken
read-allocate_cluster_chain_example =
    read-allocate_cluster_chain holes two_taken 2 5 (6 ∷ []) (omega arith) (omega arith)
      allocate_two

free-allocate_cluster_chain_example :
    (freed : Fat) × (free_cluster_chain 5 two_taken ≡ Outcome.ok tt freed)
    × (freed.entries ≡ holes.entries)
free-allocate_cluster_chain_example =
    free-allocate_cluster_chain holes two_taken 2 5 (6 ∷ []) (omega arith) (omega arith)
      allocate_two
