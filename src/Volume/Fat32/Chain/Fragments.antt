-- ===== src/Volume/Fat32/Chain/Fragments.antt =====
-- The fragmented path of allocateClusterChain: one free cluster after another, and the way back.
use bas_cpp.Prelude.{
  ℕ, zero, suc, ◌+◌, ◌≤◌, ◌<◌, ◌≡◌, ◌≢◌, inl, inr, refl, sym, subst, ◌∙◌, true, false, List, [],
  ◌∷◌, ◌++◌, arith, ◌==◌, eq_cases, length, length-append, get_or, list_ext,
}
use bas_cpp.Volume.Fat32.ClusterManager.{Fat, fat_entries, entry_at, put_entry, find_free_from_hint}
use bas_cpp.Volume.Fat32.ClusterManager.Entries.{fat_entries-put_entry}
use bas_cpp.Volume.Fat32.ClusterManager.Search.{IsFreeSearch, find_free_from_hint-IsFreeSearch}
use bas_cpp.Volume.Fat32.Chain.{end_of_chain, find_free, link_to, roll_back, allocate_each}
use bas_cpp.Volume.Fat32.Chain.Frame.{set_entry-ok}
use bas_cpp.Volume.Fat32.Chain.Free.{IsFreed, free_cluster_chain_frees}
use bas_cpp.Volume.Fat32.Chain.Linked.{Mem, mem_cases}
use bas_cpp.Volume.Fat32.Chain.Allocated.{IsAllocated, IsAllocation, IsAllocated-one}
use bas_cpp.Volume.Fat32.Chain.Growth.{grow, CanGrow, CanGrow-last, IsAllocated-grow}

-- No cluster of the table is free.
abbrev Exhausted : Fat → Type 0
Exhausted f = (k : ℕ) → 2 ≤ k → k < fat_entries f → entry_at f k ≢ 0

each_full :
    (n prev : ℕ) (out : List ℕ) (f : Fat)
    → (find_free_from_hint f).0 ≡ 0
    → allocate_each (suc n) prev out f ≡ roll_back out (find_free_from_hint f).1
unfolding allocate_each find_free
each_full n prev out f h = let e : ((find_free_from_hint f).0 == 0) ≡ true = rw h refl in rw e refl

each_more :
    (n prev : ℕ) (out : List ℕ) (f : Fat) (c : ℕ) (f' : Fat)
    → find_free_from_hint f ≡ (c, f')
    → c ≢ 0
    → c < fat_entries f'
    → prev ≢ 0
    → prev < fat_entries f'
    → allocate_each (suc n) prev out f ≡ allocate_each n c (out ++ c ∷ []) (grow f' prev c)
unfolding allocate_each find_free link_to
each_more n prev out f c f' search found valid linked prev_valid =
    let e : (c == 0) ≡ false = ground arith in
    let e' : (prev == 0) ≡ false = ground arith in
    let len = fat_entries-put_entry f' c end_of_chain in
    rw
      (
        search,
        e,
        set_entry-ok f' c end_of_chain valid,
        e',
        set_entry-ok (put_entry f' c end_of_chain) prev c (rw len prev_valid),
      )
      refl

each_first :
    (n : ℕ) (f : Fat) (c : ℕ) (f' : Fat)
    → find_free_from_hint f ≡ (c, f')
    → c ≢ 0
    → c < fat_entries f'
    → allocate_each (suc n) 0 [] f ≡ allocate_each n c (c ∷ []) (put_entry f' c end_of_chain)
unfolding allocate_each find_free link_to
each_first n f c f' search found valid =
    let e : (c == 0) ≡ false = ground arith in
    rw (search, e, set_entry-ok f' c end_of_chain valid) refl

pub rolled_back :
    (before cs : List ℕ) (f after : Fat)
    → IsAllocated before cs f.entries
    → IsFreed f cs after
    → after.entries ≡ before
rolled_back before cs f after h freed =
    list_ext after.entries before 0 (freed.same_length ∙ h.same_length) (λ k b.
      elim (mem_cases k cs) [
        | inl m ↦ freed.cleared k m ∙ sym (h.were_free k m)
        | inr m ↦ freed.others k m ∙ h.others k m
      ])

-- The chain so far holds every cluster that was free.
all_taken :
    (before cs : List ℕ) (f : Fat)
    → IsAllocated before cs f.entries
    → Exhausted f
    → (k : ℕ) → 2 ≤ k
    → k < length before
    → get_or before k 0 ≡ 0
    → Mem k cs
all_taken before cs f h none_left k low high free = elim (mem_cases k cs) [
  | inl m ↦ m
  | inr m ↦ let len = h.same_length in absurd (none_left k low (rw len high) (h.others k m ∙ free))
]

roll_back-IsAllocation :
    (before cs : List ℕ) (count : ℕ) (f : Fat)
    → length before ≤ end_of_chain
    → 0 < length cs
    → length cs < count
    → IsAllocated before cs f.entries
    → Exhausted f
    → IsAllocation before count (roll_back cs f)
unfolding roll_back
roll_back-IsAllocation before [] count f small some_taken short h none_left = absurd (omega arith)
roll_back-IsAllocation before (c ∷ cs) count f small some_taken short h none_left =
    let len = h.same_length in
    let (after, runs, freed) = free_cluster_chain_frees f c cs (rw len small) h.chain in
    rw runs (record {
      unchanged = rolled_back before (c ∷ cs) f after h freed;
      covered = (c ∷ cs, short, all_taken before (c ∷ cs) f h none_left);
    })

-- A search that found a cluster, in a table with the same entries.
found_cluster :
    (f : Fat) (c : ℕ) (f' : Fat)
    → IsFreeSearch f (c, f')
    → c ≢ 0
    → (2 ≤ c) × (c < fat_entries f') × (entry_at f' c ≡ 0)
found_cluster f c f' s found =
    let same = s.same_entries in
    let bounds = s.in_range found in (bounds.0, rw same bounds.1, rw same (s.is_free found))

no_cluster : (f : Fat) (c : ℕ) (f' : Fat) → IsFreeSearch f (c, f') → c ≡ 0 → Exhausted f'
no_cluster f c f' s none_found k low high =
    let same = s.same_entries in rw same (s.exhausted none_found k low (rw same at high))

grown :
    (before init : List ℕ) (p : ℕ) (f : Fat) (c : ℕ) (f' : Fat)
    → length before ≤ end_of_chain
    → IsAllocated before (init ++ p ∷ []) f.entries
    → IsFreeSearch f (c, f')
    → c ≢ 0
    → CanGrow before init p c f'
grown before init p f c f' small h s found =
    let same = s.same_entries in
    let len = h.same_length in
    let (low, valid, free) = found_cluster f c f' s found in
    record {
      small = rw (same, len) small;
      so_far = rw same h;
      low = low;
      valid = valid;
      free = free;
    }

-- The loop, from a chain that ends in `p` on.
allocate_each-IsAllocation :
    (n p : ℕ) (before init : List ℕ) (count : ℕ) (f : Fat)
    → length before ≤ end_of_chain
    → IsAllocated before (init ++ p ∷ []) f.entries
    → length (init ++ p ∷ []) + n ≡ count
    → IsAllocation before count (allocate_each n p (init ++ p ∷ []) f)
unfolding allocate_each
allocate_each-IsAllocation zero p before init count f small h len = (omega (arith, len), h)
allocate_each-IsAllocation (suc n) p before init count f small h len =
    let out = init ++ p ∷ [] in
    let c = (find_free_from_hint f).0 in
    let f' = (find_free_from_hint f).1 in
    let s = find_free_from_hint-IsFreeSearch f in
    let some_taken = length-append init (p ∷ []) in
    let longer = length-append out (c ∷ []) in
    let kept = s.same_entries in
    let later : c ≢ 0
        → IsAllocation before count (allocate_each n c (out ++ c ∷ []) (grow f' p c)) =
      λ found.
        allocate_each-IsAllocation n c before out count (grow f' p c) small
          (IsAllocated-grow before init p c f' (grown before init p f c f' small h s found))
          (omega (arith, len, longer)) in
    elim (eq_cases c 0) [
      | inl e ↦ rw (each_full n p out f e) (
          roll_back-IsAllocation before out count f' small (omega (arith, some_taken))
            (omega (arith, len)) (rw kept h) (no_cluster f c f' s e))
      | inr found ↦
          let can = grown before init p f c f' small h s found in
          let last = CanGrow-last before init p c f' can in
          let valid = can.valid in
          rw (each_more n p out f c f' refl found valid (omega (arith, last)) last.1) (later found)
    ]

-- The whole of the fragmented path.
pub allocate_each_first-IsAllocation :
    (count : ℕ) (f : Fat)
    → 0 < count
    → fat_entries f ≤ end_of_chain
    → IsAllocation f.entries count (allocate_each count 0 [] f)
allocate_each_first-IsAllocation zero f pos small = absurd (omega arith)
allocate_each_first-IsAllocation (suc n) f pos small =
    let c = (find_free_from_hint f).0 in
    let f' = (find_free_from_hint f).1 in
    let s = find_free_from_hint-IsFreeSearch f in
    let kept = s.same_entries in
    elim (eq_cases c 0) [
      | inl e ↦ rw (each_full n 0 [] f e) (
          unfold roll_back in
          record {
            unchanged = kept;
            covered = ([], pos, λ k low high free. absurd (s.exhausted e k low high free));
          })
      | inr found ↦
          let (low, valid, free) = found_cluster f c f' s found in
          rw (each_first n f c f' refl found valid) (
            allocate_each-IsAllocation n c f.entries [] (suc n) (put_entry f' c end_of_chain) small
              (subst (λ b. IsAllocated b (c ∷ []) (put_entry f' c end_of_chain).entries) kept
                (IsAllocated-one f' c low valid free))
              (omega arith))
    ]
