-- ===== src/Volume/Fat32/Realloc.antt =====
-- Fat32Volume::reallocClusters of src/bas/volume/fat32/Fat32Volume_write.cpp: the chain of a file is
-- changed to the number of clusters that its new size needs.
pub mod Spec
pub mod Shrink
pub mod Extend
pub mod Relocate
pub mod Outcomes
pub mod Total
pub mod ReallocKeeps
pub mod Flushes
pub mod Durable
pub mod Tests
use bas_cpp.Prelude.{
  ℕ, zero, suc, ◌+◌, ◌-◌, ◌*◌, ◌/◌, ◌%◌, ◌^◌, ◌≡◌, refl, Bool, true, false, Option, none, some,
  List, [], ◌∷◌, ◌++◌, if◌then◌else◌, ◌==◌, ltb, is_nil, length, get_or, take, drop,
}
use bas_cpp.Volume.Fat32.ClusterManager.{Fat}
use bas_cpp.Volume.Fat32.Flush.{Disk, flush_dirty}
use bas_cpp.Volume.Fat32.Chain.{
  Outcome, Op, ◌>>=◌, ◌>>◌, done, get_entry, set_entry, find_run, free_cluster_chain,
  allocate_cluster_chain, end_of_chain,
}

-- Fat32Volume::ReallocStrategy
pub data ReallocStrategy : Type 0 where
  keep_as_is : ReallocStrategy
  shrink_tail : ReallocStrategy
  extend_tail_contiguous : ReallocStrategy
  relocate_contiguous : ReallocStrategy
  realloc_fragmented : ReallocStrategy

-- The loop of analyzeReallocStrategy, from the cluster `c` on: are they free? No cluster overflows 32
-- bits, since the read of one out of the table throws.
pub tail_free : ℕ → ℕ → Op Bool
tail_free zero c = done true
tail_free (suc n) c =
    let rest = tail_free n (c + 1) in
    do entry ← get_entry c; if entry == 0 then rest else done false

-- The last of the clusters.
abbrev pub back : List ℕ → ℕ
back [] = 0
back (c ∷ []) = c
back (c ∷ d ∷ cs) = back (d ∷ cs)

-- What is chosen when the chain cannot grow in place.
abbrev pub by_run : Option ℕ → ReallocStrategy
by_run none = ReallocStrategy.realloc_fragmented
by_run (some start) = ReallocStrategy.relocate_contiguous

pub move_strategy : ℕ → Op ReallocStrategy
move_strategy need = do hit ← find_run need; done (by_run hit)

-- Fat32Volume::analyzeReallocStrategy
pub analyze_realloc_strategy : List ℕ → ℕ → Op ReallocStrategy
analyze_realloc_strategy clusters need =
    if length clusters == need
    then done ReallocStrategy.keep_as_is
    else if ltb need (length clusters)
    then done ReallocStrategy.shrink_tail
    else if is_nil clusters
    then move_strategy need
    else (do
      contiguous ← tail_free (need - length clusters) (back clusters + 1)
      if contiguous then done ReallocStrategy.extend_tail_contiguous else move_strategy need)

-- `if (!clusters.empty()) freeClusterChain(clusters.front())`
pub free_all : List ℕ → Op (Unit {0})
free_all [] = done tt
free_all (c ∷ cs) = free_cluster_chain c

-- The clusters of the file, and whether the marked entries are flushed.
pub record Reallocated : Type 0 where
  pub clusters : List ℕ
  pub flush : Bool

abbrev pub flushed : List ℕ → Reallocated
flushed clusters = record { clusters = clusters; flush = true }

-- SHRINK_TAIL
pub shrink : List ℕ → ℕ → Op Reallocated
shrink clusters need = do
  free_all (drop need clusters)
  set_entry (get_or clusters (need - 1) 0) end_of_chain
  done (flushed (take need clusters))

-- The loop of EXTEND_TAIL_CONTIGUOUS: `prev` is the last of `out`, and the next cluster follows it.
pub extend_run : ℕ → ℕ → List ℕ → Op (List ℕ)
extend_run zero prev out = done out
extend_run (suc n) prev out =
    let rest = extend_run n (prev + 1) (out ++ (prev + 1) ∷ []) in
    do set_entry prev (prev + 1); set_entry (prev + 1) end_of_chain; rest

pub extend : List ℕ → ℕ → Op Reallocated
extend clusters need = do
  out ← extend_run (need - length clusters) (back clusters) clusters
  done (flushed out)

-- Allocation anew, and the old chain given back.
pub reallocate : List ℕ → ℕ → Op Reallocated
reallocate clusters need = do
  rebuilt ← allocate_cluster_chain need
  free_all clusters
  done (flushed rebuilt)

-- `static_cast<uint32_t>(runStart)`, where -1 stands for no run.
abbrev pub run_base : Option ℕ → ℕ
run_base none = 2 ^ 32 - 1
run_base (some start) = start

-- The clusters `static_cast<uint32_t>(runStart) + i`, in 32 bits.
abbrev pub rebuild : ℕ → ℕ → List ℕ
rebuild base zero = []
rebuild base (suc n) = base % 2 ^ 32 ∷ rebuild (base + 1) n

abbrev pub next_or_end : List ℕ → ℕ
next_or_end [] = end_of_chain
next_or_end (d ∷ cs) = d

-- The loop of RELOCATE_CONTIGUOUS; false where a cluster turned out not to be free.
pub link_rebuilt : List ℕ → Op Bool
link_rebuilt [] = done true
link_rebuilt (c ∷ cs) =
    let rest = link_rebuilt cs in
    do
      entry ← get_entry c
      if entry == 0 then (set_entry c (next_or_end cs) >> rest) else done false

-- RELOCATE_CONTIGUOUS
pub relocate : List ℕ → ℕ → Op Reallocated
relocate clusters need = do
  hit ← find_run need
  let rebuilt = rebuild (run_base hit) need
  linked ← link_rebuilt rebuilt
  if linked then (free_all clusters >> done (flushed rebuilt)) else reallocate clusters need

pub apply_strategy : List ℕ → ℕ → ReallocStrategy → Op Reallocated
apply_strategy clusters need ReallocStrategy.keep_as_is =
    done (record { clusters = clusters; flush = false })
apply_strategy clusters need ReallocStrategy.shrink_tail = shrink clusters need
apply_strategy clusters need ReallocStrategy.extend_tail_contiguous = extend clusters need
apply_strategy clusters need ReallocStrategy.relocate_contiguous = relocate clusters need
apply_strategy clusters need ReallocStrategy.realloc_fragmented = reallocate clusters need

-- reallocClusters up to the flush of the table.
pub realloc_table : List ℕ → ℕ → Op Reallocated
realloc_table clusters need =
    if need == 0
    then (free_all clusters >> done (flushed []))
    else analyze_realloc_strategy clusters need >>= apply_strategy clusters need

-- The number of clusters that a size needs; `newSize + m_clusterSize - 1` has 64 bits, the result 32.
abbrev pub need_clusters : ℕ → ℕ → ℕ
need_clusters new_size cluster_size =
    if new_size == 0 then 0 else ((new_size + cluster_size - 1) % 2 ^ 64 / cluster_size) % 2 ^ 32

set_fat : Disk → Fat → Disk
set_fat d f = record d { fat = f }

after_flush : List ℕ → Bool × Disk → Option (List ℕ) × Disk
after_flush clusters (true, d) = (some clusters, d)
after_flush clusters (false, d) = (none, d)

flush_if : Disk → Reallocated → Option (List ℕ) × Disk
flush_if d r = if r.flush then after_flush r.clusters (flush_dirty d) else (some r.clusters, d)

finish_realloc : Disk → Outcome Reallocated → Option (List ℕ) × Disk
finish_realloc d (Outcome.ok r f) = flush_if (set_fat d f) r
finish_realloc d (Outcome.throws f) = (none, set_fat d f)
finish_realloc d (Outcome.out_of_fuel f) = (none, set_fat d f)

-- Fat32Volume::reallocClusters; `none` is the IOException.
pub realloc_clusters : Disk → List ℕ → ℕ → ℕ → Option (List ℕ) × Disk
realloc_clusters d clusters new_size cluster_size =
    finish_realloc d (realloc_table clusters (need_clusters new_size cluster_size) d.fat)
