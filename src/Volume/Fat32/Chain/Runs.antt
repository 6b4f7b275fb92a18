-- ===== src/Volume/Fat32/Chain/Runs.antt =====
-- The fast path of allocateClusterChain: a run of free clusters becomes a chain.
use bas_cpp.Prelude.{
  ℕ, zero, suc, ◌+◌, ◌≤◌, ◌<◌, ◌≡◌, inl, inr, refl, ap, ◌∙◌, false, List, [], ◌∷◌, arith, ◌==◌,
  length,
}
use bas_cpp.Volume.Fat32.ClusterManager.{Fat, fat_entries, put_entry}
use bas_cpp.Volume.Fat32.ClusterManager.Entries.{fat_entries-put_entry, entry_at-put_entry_ne}
use bas_cpp.Volume.Fat32.ClusterManager.FreeRuns.{AllFree}
use bas_cpp.Volume.Fat32.Chain.{Outcome, end_of_chain, link_run}
use bas_cpp.Volume.Fat32.Chain.Frame.{set_entry-ok}
use bas_cpp.Volume.Fat32.Chain.Linked.{Mem}
use bas_cpp.Volume.Fat32.Chain.Allocated.{IsAllocated, IsAllocated-one, IsAllocated-cons}

-- The clusters of a run.
abbrev pub range : ℕ → ℕ → List ℕ
range c zero = []
range c (suc n) = c ∷ range (c + 1) n

pub length-range : (c n : ℕ) → length (range c n) ≡ n
length-range c zero = refl
length-range c (suc n) = ap suc (length-range (c + 1) n)

pub Mem-range : (k c n : ℕ) → Mem k (range c n) → (c ≤ k) × (k < c + n)
Mem-range k c zero m = absurd m
Mem-range k c (suc n) m = elim m [
  | inl e ↦ (omega (arith, e), omega (arith, e))
  | inr m ↦ let ih = Mem-range k (c + 1) n m in (omega (arith, ih), omega (arith, ih))
]

link_run_last :
    (c : ℕ) (f : Fat)
    → c < fat_entries f
    → link_run 1 c f ≡ Outcome.ok (c ∷ []) (put_entry f c end_of_chain)
unfolding link_run
link_run_last c f valid = rw (set_entry-ok f c end_of_chain valid) refl

link_run_more :
    (n c : ℕ) (f after : Fat) (out : List ℕ)
    → c < fat_entries f
    → link_run (suc n) (c + 1) (put_entry f c (c + 1)) ≡ Outcome.ok out after
    → link_run (suc (suc n)) c f ≡ Outcome.ok (c ∷ out) after
unfolding link_run
link_run_more n c f after out valid h =
    let e : (suc n == 0) ≡ false = ground arith in rw (e, set_entry-ok f c (c + 1) valid, h) refl

pub link_run-IsAllocated :
    (n c : ℕ) (f : Fat)
    → fat_entries f ≤ end_of_chain
    → 2 ≤ c
    → c + suc n ≤ fat_entries f
    → AllFree f.entries c (suc n)
    → (after : Fat) × (link_run (suc n) c f ≡ Outcome.ok (range c (suc n)) after)
      × IsAllocated f.entries (range c (suc n)) after.entries
link_run-IsAllocated zero c f small low room free = (
  put_entry f c end_of_chain,
  link_run_last c f (omega arith),
  IsAllocated-one f c low (omega arith) (free c (omega arith) (omega arith)),
)
link_run-IsAllocated (suc n) c f small low room free =
    let next = put_entry f c (c + 1) in
    let len = fat_entries-put_entry f c (c + 1) in
    let (after, runs, h) =
      link_run-IsAllocated n (c + 1) next (rw len small) (omega arith) (omega (arith, len, room))
        (λ k lo hi.
          entry_at-put_entry_ne f c (c + 1) k (omega arith) ∙ free k (omega arith) (omega arith)) in
    let fresh : ¬ Mem c (range (c + 1) (suc n)) =
      λ m. let b = Mem-range c (c + 1) (suc n) m in omega (arith, b) in
    (
      after,
      link_run_more n c f after (range (c + 1) (suc n)) (omega arith) runs,
      IsAllocated-cons f c (c + 1) (range (c + 1 + 1) n) after.entries low (omega arith)
          (omega arith) (free c (omega arith) (omega arith)) fresh h,
    )
