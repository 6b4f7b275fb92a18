-- ===== src/Volume/Fat32/Realloc/Durable.antt =====
-- reallocClusters on the disk: the table it leaves in memory and on the device.
use bas_cpp.Prelude.{
  ℕ, ◌≤◌, ◌≡◌, ◌⊎◌, inl, inr, ap, ◌∙◌, Bool, true, false, Option, none, some, List, [], arith,
  length, if◌then◌else◌,
}
use bas_cpp.Volume.Fat32.ClusterManager.{fat_entries}
use bas_cpp.Volume.Device.{is_view}
use bas_cpp.Volume.Fat32.Flush.{Disk, flush_dirty}
use bas_cpp.Volume.Fat32.Flush.Coherence.{Coherent}
use bas_cpp.Volume.Fat32.Flush.WriteBack.{IsFlush, flush_dirty-IsFlush}
use bas_cpp.Volume.Fat32.Chain.{Outcome, end_of_chain}
use bas_cpp.Volume.Fat32.Chain.Keeps.{left, CoherentWith}
use bas_cpp.Volume.Fat32.Chain.Linked.{IsChain}
use bas_cpp.Volume.Fat32.Realloc.{
  Reallocated, need_clusters, realloc_table, realloc_clusters, finish_realloc, flush_if,
  after_flush, set_fat,
}
use bas_cpp.Volume.Fat32.Realloc.Flushes.{AsksFlush, realloc_table-AsksFlush}
use bas_cpp.Volume.Fat32.Realloc.ReallocKeeps.{realloc_table-Keeps}
use bas_cpp.Volume.Fat32.Realloc.Spec.{IsReallocated, IsReallocation}
use bas_cpp.Volume.Fat32.Realloc.Total.{realloc_table-IsReallocation}

IsFlush-Coherent : (d : Disk) (r : Bool × Disk) → Coherent d → IsFlush d r → Coherent r.1
IsFlush-Coherent d r h flush =
    let ready = h.ready in
    let rest = flush.rest in
    let room = ready.room in
    let same_size = rest.same_size in
    let same_offset = rest.same_offset in
    let n = ap (λ xs. length {A = ℕ} xs) flush.same_entries in
    record {
      ready = record {
        small = rw flush.same_entries ready.small;
        room = omega (arith, room, same_size, same_offset, n);
        writable = ap is_view rest.same_own ∙ ready.writable;
      };
      marked_in_range = rw flush.none_marked tt;
      clean_or_marked = λ c hc. inl (flush.all_clean c (rw n at hc));
    }

-- What reallocClusters comes to on a disk: a new chain, with the tables coherent and, unless the chain
-- stayed as it was, written back; or an exception, with the entries as they were.
abbrev pub DurableResult : Disk → List ℕ → ℕ → Option (List ℕ) × Disk → Type 0
DurableResult d clusters need (none, after) = (after.fat.entries ≡ d.fat.entries) × Coherent after
DurableResult d clusters need (some cs, after) =
    IsReallocated d.fat.entries clusters need cs after.fat.entries
    × Coherent after
    × ((cs ≡ clusters) ⊎ (after.fat.dirty_clusters ≡ []))

flush_if-DurableResult :
    (d before : Disk) (clusters : List ℕ) (need : ℕ) (r : Reallocated)
    → Coherent d
    → IsReallocated before.fat.entries clusters need r.clusters d.fat.entries
    → (r.clusters ≡ clusters) ⊎ (r.flush ≡ true)
    → DurableResult before clusters need (flush_if d r)
unfolding flush_if after_flush
flush_if-DurableResult d before clusters need r h new asks =
    flush_case (flush_dirty d) (flush_dirty-IsFlush d h) r.flush asks
  where
    flush_case :
        (x : Bool × Disk)
        → IsFlush d x
        → (flush : Bool) → (r.clusters ≡ clusters) ⊎ (flush ≡ true)
        → DurableResult before clusters need
            (if flush then after_flush r.clusters x else (some r.clusters, d))
    flush_case (true, d') flush true asks =
        (rw flush.same_entries new, IsFlush-Coherent d (true, d') h flush, inr flush.none_marked)
    flush_case (false, d') flush true asks = let ok = flush.succeeds in absurd cc
    flush_case x flush false (inl same) = (new, h, inl same)
    flush_case x flush false (inr e) = absurd cc

finish_realloc-DurableResult :
    (d : Disk) (clusters : List ℕ) (need : ℕ) (r : Outcome Reallocated)
    → CoherentWith d (left r)
    → IsReallocation d.fat.entries clusters need r
    → AsksFlush clusters r
    → DurableResult d clusters need (finish_realloc d r)
unfolding finish_realloc set_fat
finish_realloc-DurableResult d clusters need (Outcome.ok r f) h new asks =
    flush_if-DurableResult (record d { fat = f }) d clusters need r h new asks
finish_realloc-DurableResult d clusters need (Outcome.throws f) h new asks = (new, h)
finish_realloc-DurableResult d clusters need (Outcome.out_of_fuel f) h new asks = absurd new

-- Reallocation on a disk whose tables are coherent and have at most 2^28 - 8 entries, for a chain of it and
-- a new size: it answers a chain as long as the size needs, made of old and formerly free clusters, or it
-- throws and the entries are as they were. The tables stay coherent in both cases, and no marked cluster
-- is left unless the answer is the old chain.
pub realloc_clusters-DurableResult :
    (d : Disk) (clusters : List ℕ) (new_size cluster_size : ℕ)
    → Coherent d
    → fat_entries d.fat ≤ end_of_chain
    → IsChain d.fat.entries clusters
    → DurableResult d clusters
        (need_clusters new_size cluster_size)
        (realloc_clusters d clusters new_size cluster_size)
unfolding realloc_clusters
realloc_clusters-DurableResult d clusters new_size cluster_size h small old =
    let need = need_clusters new_size cluster_size in
    finish_realloc-DurableResult d clusters need (realloc_table clusters need d.fat)
      (realloc_table-Keeps d clusters need d.fat h)
      (realloc_table-IsReallocation d.fat clusters need small old)
      (realloc_table-AsksFlush clusters need d.fat)
