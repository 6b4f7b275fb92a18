-- ===== src/Volume/Fat32/ClusterManager.antt =====
-- src/bas/volume/fat32/Fat32ClusterManager.{hpp,cpp}: the allocation table in memory, the search for
-- free clusters, and the write-back of the clusters that changed. A cluster number or a table value is
-- a `uint32_t`; the table holds values of 28 bits, and `x & 0x0FFFFFFF` is `x % 2 ^ 28`.
pub mod Search
pub mod FreeRuns
pub mod Entries
use bas_cpp.Prelude.{
  ℕ, zero, suc, ◌+◌, ◌-◌, ◌*◌, ◌/◌, ◌%◌, ◌^◌, min, max, ◌≡◌, refl, Bool, true, false, ◌&&◌, ◌||◌,
  Option, none, some, List, [], ◌∷◌, ◌++◌, if◌then◌else◌, ◌==◌, ltb, leb, length, get_or, set,
}

-- Fat32ClusterManager. The field `m_fatEntries` is the length of `m_entries`: the constructor
-- resizes the vector to it, and nothing changes it later.
pub record Fat : Type 0 where
  pub entries : List ℕ
  pub dirty_clusters : List ℕ
  pub alloc_hint : ℕ

abbrev pub fat_entries : Fat → ℕ
fat_entries f = length f.entries

-- isValidCluster
abbrev pub is_valid_cluster : Fat → ℕ → Bool
is_valid_cluster f cluster = ltb cluster (fat_entries f)

abbrev pub entry_at : Fat → ℕ → ℕ
entry_at f cluster = get_or f.entries cluster 0

-- Fat32ClusterManager::get, which is also Fat32Volume::getFatEntry; `none` is the IOException.
unfoldable pub get_fat_entry : Fat → ℕ → Option ℕ
get_fat_entry f cluster = if is_valid_cluster f cluster then some (entry_at f cluster) else none

-- normalizeValue
abbrev pub normalize_value : ℕ → ℕ
normalize_value value = value % 2 ^ 28

-- The effect of Fat32ClusterManager::set on a valid cluster.
unfoldable pub put_entry : Fat → ℕ → ℕ → Fat
put_entry f cluster value = if entry_at f cluster == normalize_value value then f else record f {
  entries = set f.entries cluster (normalize_value value);
  dirty_clusters = f.dirty_clusters ++ cluster ∷ [];
}

-- Fat32ClusterManager::set, which is also Fat32Volume::setFatEntry.
unfoldable pub set_fat_entry : Fat → ℕ → ℕ → Option Fat
set_fat_entry f cluster value =
    if is_valid_cluster f cluster then some (put_entry f cluster value) else none

-- Fat32ClusterManager::setAllocHint
unfoldable pub set_alloc_hint : Fat → ℕ → Fat
set_alloc_hint f cluster =
    if leb 2 cluster && ltb cluster (fat_entries f) then record f { alloc_hint = cluster } else f

-- `for (c = start; c < start + rounds; ++c)`: the first free cluster.
unfoldable pub scan_free : List ℕ → ℕ → ℕ → Option ℕ
scan_free entries zero c = none
scan_free entries (suc rounds) c =
    let rest = scan_free entries rounds (c + 1) in if get_or entries c 0 == 0 then some c else rest

-- Where the searches begin.
abbrev pub search_begin : Fat → ℕ
search_begin f = max 2 (min f.alloc_hint (fat_entries f - 1))

unfoldable pub hint_after : Fat → ℕ → ℕ
hint_after f c = if ltb (c + 1) (fat_entries f) then c + 1 else 2

unfoldable pub second_scan : Fat → ℕ → Option ℕ → ℕ × Fat
second_scan f begin (some c) = (c, record f { alloc_hint = c + 1 })
second_scan f begin none = (0, f)

unfoldable pub first_scan : Fat → ℕ → Option ℕ → ℕ × Fat
first_scan f begin (some c) = (c, record f { alloc_hint = hint_after f c })
first_scan f begin none = second_scan f begin (scan_free f.entries (begin - 2) 2)

-- Fat32ClusterManager::findFreeFromHint, which is also Fat32Volume::findFreeCluster; 0 means that no
-- cluster is free.
unfoldable pub find_free_from_hint : Fat → ℕ × Fat
find_free_from_hint f =
    if leb (fat_entries f) 2
    then (0, f)
    else let begin = search_begin f in
      first_scan f begin (scan_free f.entries (fat_entries f - begin) begin)

-- The λ `search` of `findContiguousFreeRun`, with the run so far: the start of the first run of
-- `count` free clusters.
unfoldable pub scan_run : List ℕ → ℕ → ℕ → ℕ → ℕ → ℕ → Option ℕ
scan_run entries count zero c run_start run_len = none
scan_run entries count (suc rounds) c run_start run_len =
    let start = if run_len == 0 then c else run_start in
    let longer = scan_run entries count rounds (c + 1) start (run_len + 1) in
    let broken = scan_run entries count rounds (c + 1) run_start 0 in
    if get_or entries c 0 == 0
    then (if leb count (run_len + 1) then some start else longer)
    else broken

unfoldable pub found_run : Fat → ℕ → ℕ → Option ℕ × Fat
found_run f count start = (some start, record f { alloc_hint = start + count })

unfoldable pub second_run : Fat → ℕ → Option ℕ → Option ℕ × Fat
second_run f count (some start) = found_run f count start
second_run f count none = (none, f)

unfoldable pub first_run : Fat → ℕ → ℕ → Option ℕ → Option ℕ × Fat
first_run f count begin (some start) = found_run f count start
first_run f count begin none = second_run f count (scan_run f.entries count (begin - 2) 2 0 0)

-- Fat32ClusterManager::findContiguousFreeRun; `none` is the result -1.
unfoldable pub find_contiguous_free_run : Fat → ℕ → Option ℕ × Fat
find_contiguous_free_run f count =
    if (count == 0) || leb (fat_entries f) 2
    then (none, f)
    else let begin = search_begin f in
      first_run f count begin (scan_run f.entries count (fat_entries f - begin) begin 0 0)
