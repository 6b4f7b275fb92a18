-- ===== src/Volume/Fat32/Realloc/Relocate.antt =====
-- RELOCATE_CONTIGUOUS: the chain moves to a run of free clusters, or the second search for the run finds
-- none and the first read throws.
use bas_cpp.Prelude.{
  ℕ, zero, suc, ◌+◌, ◌-◌, ◌%◌, ◌^◌, ◌≤◌, ◌<◌, ◌≡◌, refl, ap, subst, ◌∙◌, true, false, Option, none,
  some, List, [], ◌∷◌, arith, ltb,
}
use bas_cpp.Volume.Fat32.ClusterManager.{
  Fat, fat_entries, entry_at, put_entry, find_contiguous_free_run,
}
use bas_cpp.Volume.Fat32.ClusterManager.Entries.{fat_entries-put_entry, entry_at-put_entry_ne}
use bas_cpp.Volume.Fat32.ClusterManager.FreeRuns.{
  AllFree, IsFreeRun, find_contiguous_free_run-IsFreeRun, same_entries_find_contiguous_free_run,
}
use bas_cpp.Volume.Fat32.Chain.{Outcome, end_of_chain, find_run}
use bas_cpp.Volume.Fat32.Chain.Frame.{get_entry-ok, get_entry-throws, set_entry-ok}
use bas_cpp.Volume.Fat32.Chain.Linked.{Mem, IsChain}
use bas_cpp.Volume.Fat32.Chain.Allocated.{IsAllocated, IsAllocated-one, IsAllocated-cons}
use bas_cpp.Volume.Fat32.Chain.Runs.{range, length-range, Mem-range}
use bas_cpp.Volume.Fat32.Realloc.{
  flushed, free_all, rebuild, run_base, link_rebuilt, next_or_end, relocate,
}
use bas_cpp.Volume.Fat32.Realloc.Spec.{
  IsReallocation, IsReallocated-moved, free_all_frees, old-IsChain_kept,
}

-- Far below 2^32, the clusters are those of the run.
rebuild-range : (base n : ℕ) → base + n ≤ 2 ^ 28 → rebuild base n ≡ range base n
rebuild-range base zero h = refl
rebuild-range base (suc n) h =
    let small : base % 2 ^ 32 ≡ base = omega arith in
    let ih = rebuild-range (base + 1) n (omega arith) in rw (small, ih) refl

link_rebuilt_step :
    (c : ℕ) (cs : List ℕ) (f : Fat)
    → c < fat_entries f
    → entry_at f c ≡ 0
    → link_rebuilt (c ∷ cs) f ≡ link_rebuilt cs (put_entry f c (next_or_end cs))
unfolding link_rebuilt
link_rebuilt_step c cs f valid free =
    rw (get_entry-ok f c valid, free, set_entry-ok f c (next_or_end cs) valid) refl

link_rebuilt_throws :
    (c : ℕ) (cs : List ℕ) (f : Fat)
    → ltb c (fat_entries f) ≡ false
    → link_rebuilt (c ∷ cs) f ≡ Outcome.throws f
unfolding link_rebuilt
link_rebuilt_throws c cs f h = rw (get_entry-throws f c h) refl

link_rebuilt_done : (f : Fat) → link_rebuilt [] f ≡ Outcome.ok true f
unfolding link_rebuilt
link_rebuilt_done f = refl

link_rebuilt-IsAllocated :
    (n c : ℕ) (f : Fat)
    → fat_entries f ≤ end_of_chain
    → 2 ≤ c
    → c + suc n ≤ fat_entries f
    → AllFree f.entries c (suc n)
    → (after : Fat) × (link_rebuilt (range c (suc n)) f ≡ Outcome.ok true after)
      × IsAllocated f.entries (range c (suc n)) after.entries
link_rebuilt-IsAllocated zero c f small low room free =
    let here = free c (omega arith) (omega arith) in
    let after = put_entry f c end_of_chain in
    (
      after,
      link_rebuilt_step c [] f (omega arith) here ∙ link_rebuilt_done after,
      IsAllocated-one f c low (omega arith) here,
    )
link_rebuilt-IsAllocated (suc n) c f small low room free =
    let here = free c (omega arith) (omega arith) in
    let next = put_entry f c (c + 1) in
    let len = fat_entries-put_entry f c (c + 1) in
    let (after, runs, h) =
      link_rebuilt-IsAllocated n (c + 1) next (rw len small) (omega arith)
        (omega (arith, len, room))
        (λ k lo hi.
          entry_at-put_entry_ne f c (c + 1) k (omega arith) ∙ free k (omega arith) (omega arith)) in
    let fresh : ¬ Mem c (range (c + 1) (suc n)) =
      λ m. let b = Mem-range c (c + 1) (suc n) m in omega (arith, b) in
    (
      after,
      link_rebuilt_step c (range (c + 1) (suc n)) f (omega arith) here ∙ runs,
      IsAllocated-cons f c (c + 1) (range (c + 1 + 1) n) after.entries low (omega arith)
          (omega arith) here fresh h,
    )

relocate_ok :
    (clusters : List ℕ) (need start : ℕ) (f f' mid after : Fat)
    → find_contiguous_free_run f need ≡ (some start, f')
    → link_rebuilt (rebuild start need) f' ≡ Outcome.ok true mid
    → free_all clusters mid ≡ Outcome.ok tt after
    → relocate clusters need f ≡ Outcome.ok (flushed (rebuild start need)) after
unfolding relocate find_run
relocate_ok clusters need start f f' mid after h₁ h₂ h₃ = rw (h₁, h₂, h₃) refl

relocate_throws :
    (clusters : List ℕ) (need : ℕ) (f f' : Fat)
    → find_contiguous_free_run f need ≡ (none, f')
    → link_rebuilt (rebuild (run_base none) need) f' ≡ Outcome.throws f'
    → relocate clusters need f ≡ Outcome.throws f'
unfolding relocate find_run
relocate_throws clusters need f f' h₁ h₂ = rw (h₁, h₂) refl

relocate_case :
    (n : ℕ) (f : Fat) (clusters : List ℕ) (hit : Option ℕ) (f' : Fat)
    → fat_entries f ≤ end_of_chain
    → IsChain f.entries clusters
    → find_contiguous_free_run f (suc n) ≡ (hit, f')
    → f'.entries ≡ f.entries
    → IsReallocation f.entries clusters (suc n) (relocate clusters (suc n) f)
relocate_case n f clusters none f' small old h same =
    let far : ltb ((2 ^ 32 - 1) % 2 ^ 32) (fat_entries f') ≡ false = rw same (ground arith) in
    let fails = link_rebuilt_throws ((2 ^ 32 - 1) % 2 ^ 32) (rebuild (2 ^ 32 - 1 + 1) n) f' far in
    rw (relocate_throws clusters (suc n) f f' h fails) same
relocate_case n f clusters (some start) f' small old h same =
    let run =
      subst (λ r. IsFreeRun f (suc n) start r.1) h
        (find_contiguous_free_run-IsFreeRun f (suc n) start (ap (λ r. r.0) h)) in
    let below = run.below in
    let clusters_are = rebuild-range start (suc n) (omega arith) in
    let (mid, links, h') =
      link_rebuilt-IsAllocated n start f' (rw same small) run.above (rw same below)
        (rw same run.run_free) in
    let new = subst (λ b. IsAllocated b (range start (suc n)) mid.entries) same h' in
    let len = new.same_length in
    let (after, frees, freed) =
      free_all_frees mid clusters (rw len small)
        (old-IsChain_kept f.entries clusters (range start (suc n)) mid.entries old new) in
    rw
      (
        relocate_ok clusters (suc n) start f f' mid after h (rw clusters_are links) frees,
        clusters_are,
      )
      (IsReallocated-moved f.entries clusters (range start (suc n)) (suc n) mid after
        (length-range start (suc n)) old new freed)

pub relocate-IsReallocation :
    (f : Fat) (clusters : List ℕ) (need : ℕ)
    → 0 < need
    → fat_entries f ≤ end_of_chain
    → IsChain f.entries clusters
    → IsReallocation f.entries clusters need (relocate clusters need f)
relocate-IsReallocation f clusters zero pos small old = absurd (omega arith)
relocate-IsReallocation f clusters (suc n) pos small old =
    let r = find_contiguous_free_run f (suc n) in
    relocate_case n f clusters r.0 r.1 small old refl
      (same_entries_find_contiguous_free_run f (suc n))
