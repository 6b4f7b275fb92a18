-- ===== src/Volume/Fat32/ClusterManager/Search.antt =====
-- The search for one free cluster of src/bas/volume/fat32/Fat32ClusterManager.cpp: what it finds is free,
-- and it overlooks none.
use bas_cpp.Prelude.{
  ℕ, zero, suc, ◌+◌, ◌-◌, ◌≤◌, ◌<◌, ◌≡◌, ◌≢◌, refl, none, some, List, arith, leb, get_or,
  Bool-cases, Option-cases, inl, inr,
}
use native.Mathlib.Decide.{dec_lt}
use bas_cpp.Volume.Fat32.ClusterManager.{
  Fat, fat_entries, entry_at, scan_free, search_begin, first_scan, second_scan, find_free_from_hint,
}

scan_free_sound :
    (entries : List ℕ) (rounds c r : ℕ)
    → scan_free entries rounds c ≡ some r
    → (c ≤ r) × (r < c + rounds) × (get_or entries r 0 ≡ 0)
unfolding scan_free
scan_free_sound entries zero c r h = cc
scan_free_sound entries (suc rounds) c r h =
    ground (arith, scan_free_sound entries rounds (c + 1) r)

scan_free_complete :
    (entries : List ℕ) (rounds c k : ℕ)
    → scan_free entries rounds c ≡ none
    → c ≤ k
    → k < c + rounds
    → get_or entries k 0 ≢ 0
unfolding scan_free
scan_free_complete entries zero c k h lo hi = absurd (omega arith)
scan_free_complete entries (suc rounds) c k h lo hi =
    ground (arith, scan_free_complete entries rounds (c + 1) k)

-- What the search for one free cluster promises: a free cluster in range with only the hint changed,
-- or 0 where the table has no free cluster.
pub record IsFreeSearch (f : Fat) (r : ℕ × Fat) : Type 0 where
  pub in_range : r.0 ≢ 0 → (2 ≤ r.0) × (r.0 < fat_entries f)
  pub is_free : r.0 ≢ 0 → entry_at f r.0 ≡ 0
  pub exhausted : r.0 ≡ 0 → (k : ℕ) → 2 ≤ k → k < fat_entries f → entry_at f k ≢ 0
  pub same_entries : r.1.entries ≡ f.entries
  pub same_dirty : r.1.dirty_clusters ≡ f.dirty_clusters

abbrev BeginBounds : Fat → ℕ → Type 0
BeginBounds f begin = (2 ≤ begin) × (begin < fat_entries f)

-- The first loop found a cluster.
first_hit :
    (f : Fat) (begin c : ℕ)
    → BeginBounds f begin
    → scan_free f.entries (fat_entries f - begin) begin ≡ some c
    → IsFreeSearch f (first_scan f begin (some c))
unfolding first_scan
first_hit f begin c b h =
    let (lo, hi, free) = scan_free_sound f.entries (fat_entries f - begin) begin c h in
    record {
      in_range = λ _. (omega arith, omega arith);
      is_free = λ _. free;
      exhausted = λ e. absurd (omega arith);
      same_entries = refl;
      same_dirty = refl;
    }

second_hit :
    (f : Fat) (begin c : ℕ)
    → BeginBounds f begin
    → scan_free f.entries (begin - 2) 2 ≡ some c
    → IsFreeSearch f (second_scan f begin (some c))
unfolding second_scan
second_hit f begin c b h =
    let (lo, hi, free) = scan_free_sound f.entries (begin - 2) 2 c h in
    record {
      in_range = λ _. (omega arith, omega arith);
      is_free = λ _. free;
      exhausted = λ e. absurd (omega arith);
      same_entries = refl;
      same_dirty = refl;
    }

no_hit :
    (f : Fat) (begin : ℕ)
    → BeginBounds f begin
    → scan_free f.entries (fat_entries f - begin) begin ≡ none
    → scan_free f.entries (begin - 2) 2 ≡ none
    → IsFreeSearch f (second_scan f begin none)
unfolding second_scan
no_hit f begin b h₁ h₂ = record {
  in_range = λ e. absurd (e refl);
  is_free = λ e. absurd (e refl);
  exhausted = λ _ k lo hi. elim (dec_lt k begin) [
    | yes p ↦ scan_free_complete f.entries (begin - 2) 2 k h₂ lo (omega arith)
    | no p ↦
        scan_free_complete f.entries (fat_entries f - begin) begin k h₁ (omega arith) (omega arith)
  ];
  same_entries = refl;
  same_dirty = refl;
}

scan_cases :
    (f : Fat) (begin : ℕ)
    → BeginBounds f begin
    → IsFreeSearch f (first_scan f begin (scan_free f.entries (fat_entries f - begin) begin))
scan_cases f begin b = elim (Option-cases (scan_free f.entries (fat_entries f - begin) begin)) [
  | inr (c, h) ↦ rw h (first_hit f begin c b h)
  | inl h₁ ↦ rw h₁ (elim (Option-cases (scan_free f.entries (begin - 2) 2)) [
    | inr (c, h) ↦ unfold first_scan in rw h (second_hit f begin c b h)
    | inl h₂ ↦ unfold first_scan in rw h₂ (no_hit f begin b h₁ h₂)
  ])
]

-- The search for a free cluster finds one in range, wherever the hint stands, unless the table has
-- none; it changes the hint alone.
pub find_free_from_hint-IsFreeSearch : (f : Fat) → IsFreeSearch f (find_free_from_hint f)
unfolding find_free_from_hint
find_free_from_hint-IsFreeSearch f = elim (Bool-cases (leb (fat_entries f) 2)) [
  | inl small ↦ rw small (record {
    in_range = λ e. absurd (e refl);
    is_free = λ e. absurd (e refl);
    exhausted = λ _ k lo hi. absurd (ground arith);
    same_entries = refl;
    same_dirty = refl;
  })
  | inr large ↦ rw large (scan_cases f (search_begin f) (ground arith, ground arith))
]
