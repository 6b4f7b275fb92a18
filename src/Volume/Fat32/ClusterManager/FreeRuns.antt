-- ===== src/Volume/Fat32/ClusterManager/FreeRuns.antt =====
-- The search for a run of src/bas/volume/fat32/Fat32ClusterManager.cpp: what it finds is free.
use bas_cpp.Prelude.{
  ℕ, zero, suc, ◌+◌, ◌-◌, ◌≤◌, ◌<◌, ◌≡◌, ◌≢◌, ◌⊎◌, refl, false, Option, none, some, List, arith,
  ◌==◌, ◌||◌, leb, get_or, Bool-cases, inl, inr, if◌then◌else◌,
}
use native.Mathlib.Decide.{dec_lt}
use bas_cpp.Volume.Fat32.ClusterManager.{
  Fat, fat_entries, search_begin, scan_run, found_run, first_run, second_run,
  find_contiguous_free_run,
}

-- `count` clusters from `start` on are free.
abbrev pub AllFree : List ℕ → ℕ → ℕ → Type 0
AllFree entries start count = (k : ℕ) → start ≤ k → k < start + count → get_or entries k 0 ≡ 0

AllFree-snoc :
    (entries : List ℕ) (start n c : ℕ)
    → AllFree entries start n
    → start + n ≡ c
    → get_or entries c 0 ≡ 0
    → AllFree entries start (n + 1)
AllFree-snoc entries start n c free e h k lo hi = elim (dec_lt k c) [
  | yes p ↦ free k lo (omega arith)
  | no p ↦ let same : k ≡ c = omega arith in rw same h
]

-- The run so far is empty, or it ends in front of `c`.
abbrev RunEnds : ℕ → ℕ → ℕ → Type 0
RunEnds run_start run_len c = (run_len ≡ 0) ⊎ (run_start + run_len ≡ c)

abbrev start_of : ℕ → ℕ → ℕ → ℕ
start_of run_start run_len c = if run_len == 0 then c else run_start

start_of_lem :
    (entries : List ℕ) (run_start run_len c : ℕ)
    → RunEnds run_start run_len c
    → AllFree entries run_start run_len
    → (start_of run_start run_len c + run_len ≡ c)
      × AllFree entries (start_of run_start run_len c) run_len
start_of_lem entries run_start zero c ends free = (omega arith, λ k lo hi. absurd (omega arith))
start_of_lem entries run_start (suc n) c (inl e) free = absurd (omega (arith, e))
start_of_lem entries run_start (suc n) c (inr e) free =
    let long : (suc n == 0) ≡ false = ground arith in rw long (e, free)

-- One cluster is free: the run is one longer.
free_step :
    (entries : List ℕ) (count rounds c start run_len s : ℕ) (longer : Option ℕ)
    → AllFree entries start (run_len + 1)
    → start + run_len ≡ c
    → run_len < count
    → (run_len + 1 < count
        → longer ≡ some s
        → (2 ≤ s) × (s + count ≤ c + 1 + rounds) × AllFree entries s count)
    → 2 ≤ start
    → (if leb count (run_len + 1) then some start else longer) ≡ some s
    → (2 ≤ s) × (s + count ≤ c + suc rounds) × AllFree entries s count
free_step entries count rounds c start run_len s longer free at short later low h =
    elim (Bool-cases (leb count (run_len + 1))) [
      | inl full ↦
          let len : run_len + 1 ≡ count = ground arith in
          let here : start ≡ s = ground arith in (omega arith, omega arith, rw (← here, ← len) free)
      | inr more ↦ let (l, b, f) = later (ground arith) (ground arith) in (l, omega arith, f)
    ]

scan_run_sound :
    (entries : List ℕ) (count rounds c run_start run_len s : ℕ)
    → run_len < count
    → 2 ≤ c
    → (run_len ≢ 0 → 2 ≤ run_start)
    → RunEnds run_start run_len c
    → AllFree entries run_start run_len
    → scan_run entries count rounds c run_start run_len ≡ some s
    → (2 ≤ s) × (s + count ≤ c + rounds) × AllFree entries s count
unfolding scan_run
scan_run_sound entries count zero c run_start run_len s short low slow ends free h = cc
scan_run_sound entries count (suc rounds) c run_start run_len s short low slow ends free h =
    let start = start_of run_start run_len c in
    let (at, kept) = start_of_lem entries run_start run_len c ends free in
    let high : 2 ≤ start = ground arith in
    elim (Bool-cases (get_or entries c 0 == 0)) [
      | inl e ↦
          let grown = AllFree-snoc entries start run_len c kept at (ground arith) in
          free_step entries count rounds c start run_len s
            (scan_run entries count rounds (c + 1) start (run_len + 1)) grown at short
            (λ more.
              scan_run_sound entries count rounds (c + 1) start (run_len + 1) s more (omega arith)
                (λ _. high) (inr (omega arith)) grown)
            high (rw e at h)
      | inr e ↦
          let (l, b, f) =
            scan_run_sound entries count rounds (c + 1) run_start 0 s (omega arith) (omega arith)
              (λ n. absurd (n refl)) (inl refl) (λ k lo hi. absurd (omega arith)) (rw e at h) in
          (l, omega arith, f)
    ]

-- What a run that was found is: `count` free clusters in range. The hint alone changed.
pub record IsFreeRun (f : Fat) (count start : ℕ) (after : Fat) : Type 0 where
  pub above : 2 ≤ start
  pub below : start + count ≤ fat_entries f
  pub run_free : AllFree f.entries start count
  pub run_entries : after.entries ≡ f.entries
  pub run_dirty : after.dirty_clusters ≡ f.dirty_clusters

abbrev RunBounds : Fat → ℕ → ℕ → Type 0
RunBounds f count begin = (0 < count) × (2 ≤ begin) × (begin < fat_entries f)

run_hit :
    (f : Fat) (count begin rounds s start : ℕ)
    → 0 < count
    → 2 ≤ begin
    → begin + rounds ≤ fat_entries f
    → scan_run f.entries count rounds begin 0 0 ≡ some s
    → IsFreeRun f count s (record f { alloc_hint = s + count })
run_hit f count begin rounds s start pos low room h =
    let (l, b, free) =
      scan_run_sound f.entries count rounds begin 0 0 s pos low (λ n. absurd (n refl)) (inl refl)
        (λ k lo hi. absurd (omega arith)) h in
    record { above = l; below = omega arith; run_free = free; run_entries = refl; run_dirty = refl }

second_run-IsFreeRun :
    (f : Fat) (count begin start : ℕ)
    → RunBounds f count begin
    → (hit : Option ℕ) → scan_run f.entries count (begin - 2) 2 0 0 ≡ hit
    → (second_run f count hit).0 ≡ some start
    → IsFreeRun f count start (second_run f count hit).1
unfolding second_run found_run
second_run-IsFreeRun f count begin start b none h e = cc
second_run-IsFreeRun f count begin start b (some s) h e =
    let same : s ≡ start = cc in
    rw (← same) (run_hit f count 2 (begin - 2) s start b.0 (omega arith) (omega arith) h)

first_run-IsFreeRun :
    (f : Fat) (count begin start : ℕ)
    → RunBounds f count begin
    → (hit : Option ℕ) → scan_run f.entries count (fat_entries f - begin) begin 0 0 ≡ hit
    → (first_run f count begin hit).0 ≡ some start
    → IsFreeRun f count start (first_run f count begin hit).1
unfolding first_run found_run
first_run-IsFreeRun f count begin start b none h e =
    second_run-IsFreeRun f count begin start b (scan_run f.entries count (begin - 2) 2 0 0) refl e
first_run-IsFreeRun f count begin start b (some s) h e =
    let same : s ≡ start = cc in
    rw (← same) (run_hit f count begin (fat_entries f - begin) s start b.0 b.1 (omega arith) h)

-- Where the search for a run of `count` clusters answers a cluster, `count` clusters from it on are free
-- and in the range of the table, whatever the hint was; the search changes the hint alone.
pub find_contiguous_free_run-IsFreeRun :
    (f : Fat) (count start : ℕ)
    → (find_contiguous_free_run f count).0 ≡ some start
    → IsFreeRun f count start (find_contiguous_free_run f count).1
unfolding find_contiguous_free_run
find_contiguous_free_run-IsFreeRun f count start h =
    elim (Bool-cases ((count == 0) || leb (fat_entries f) 2)) [
      | inl none_wanted ↦ absurd (ground arith)
      | inr wanted ↦ rw wanted (
          first_run-IsFreeRun f count (search_begin f) start
            (ground arith, ground arith, ground arith)
            (scan_run f.entries count (fat_entries f - search_begin f) (search_begin f) 0 0) refl
            (rw wanted at h))
    ]

same_second_run :
    (f : Fat) (count : ℕ) (hit : Option ℕ) → (second_run f count hit).1.entries ≡ f.entries
unfolding second_run found_run
same_second_run f count none = refl
same_second_run f count (some s) = refl

same_first_run :
    (f : Fat) (count begin : ℕ) (hit : Option ℕ)
    → (first_run f count begin hit).1.entries ≡ f.entries
unfolding first_run found_run
same_first_run f count begin none =
    same_second_run f count (scan_run f.entries count (begin - 2) 2 0 0)
same_first_run f count begin (some s) = refl

-- The search for a run leaves the entries alone.
pub same_entries_find_contiguous_free_run :
    (f : Fat) (count : ℕ) → (find_contiguous_free_run f count).1.entries ≡ f.entries
unfolding find_contiguous_free_run
same_entries_find_contiguous_free_run f count =
    elim (Bool-cases ((count == 0) || leb (fat_entries f) 2)) [
      | inl e ↦ rw e refl
      | inr e ↦ rw e (
          same_first_run f count (search_begin f)
            (scan_run f.entries count (fat_entries f - search_begin f) (search_begin f) 0 0))
    ]

same_dirty_second_run :
    (f : Fat) (count : ℕ) (hit : Option ℕ)
    → (second_run f count hit).1.dirty_clusters ≡ f.dirty_clusters
unfolding second_run found_run
same_dirty_second_run f count none = refl
same_dirty_second_run f count (some s) = refl

same_dirty_first_run :
    (f : Fat) (count begin : ℕ) (hit : Option ℕ)
    → (first_run f count begin hit).1.dirty_clusters ≡ f.dirty_clusters
unfolding first_run found_run
same_dirty_first_run f count begin none =
    same_dirty_second_run f count (scan_run f.entries count (begin - 2) 2 0 0)
same_dirty_first_run f count begin (some s) = refl

-- Nor does it mark a cluster.
pub same_dirty_find_contiguous_free_run :
    (f : Fat) (count : ℕ) → (find_contiguous_free_run f count).1.dirty_clusters ≡ f.dirty_clusters
unfolding find_contiguous_free_run
same_dirty_find_contiguous_free_run f count =
    elim (Bool-cases ((count == 0) || leb (fat_entries f) 2)) [
      | inl e ↦ rw e refl
      | inr e ↦ rw e (
          same_dirty_first_run f count (search_begin f)
            (scan_run f.entries count (fat_entries f - search_begin f) (search_begin f) 0 0))
    ]
