-- ===== src/Volume/Fat32/Chain.antt =====
-- The chains of clusters of src/bas/volume/fat32/Fat32Volume_write.cpp and Fat32Volume.cpp: allocation,
-- release and reading. An operation takes the table and answers with the table it leaves, also where it
-- throws.
pub mod Linked
pub mod Frame
pub mod Free
pub mod Allocated
pub mod Runs
pub mod Growth
pub mod Fragments
pub mod Allocation
pub mod Reading
pub mod Keeps
pub mod AllocationKeeps
pub mod Tests
use bas_cpp.Prelude.{
  ℕ, zero, suc, ◌+◌, ◌-◌, ◌≡◌, refl, Bool, true, false, ◌&&◌, ◌||◌, not, Option, none, some, List,
  [], ◌∷◌, ◌++◌, if◌then◌else◌, ◌==◌, ltb, leb, length, any,
}
use bas_cpp.Volume.Fat32.ClusterManager.{
  Fat, fat_entries, get_fat_entry, set_fat_entry, find_free_from_hint, find_contiguous_free_run,
  set_alloc_hint,
}

-- The end of a chain, 0x0FFFFFF8.
abbrev pub end_of_chain : ℕ
end_of_chain = 268435448

-- What an operation on the table comes to: a result, an IOException, or no fuel left in a loop, each with
-- the table at that point.
pub data Outcome (A : Type 0) : Type 0 where
  ok : A → Fat → Outcome A
  throws : Fat → Outcome A
  out_of_fuel : Fat → Outcome A

abbrev pub Op : Type 0 → Type 0
Op A = Fat → Outcome A

abbrev pub and_then : {A B : Type 0} → Outcome A → (A → Op B) → Outcome B
and_then (ok a f) next = next a f
and_then (throws f) next = throws f
and_then (out_of_fuel f) next = out_of_fuel f

infixl 5 ◌>>=◌ ◌>>◌
abbrev pub ◌>>=◌ : {A B : Type 0} → Op A → (A → Op B) → Op B
m >>= next = λ f. and_then (m f) next

abbrev pub ◌>>◌ : {B : Type 0} → Op (Unit {0}) → Op B → Op B
m >> next = m >>= λ _. next

abbrev pub done : {A : Type 0} → A → Op A
done a = λ f. ok a f

-- throw IOException
abbrev pub fail : {A : Type 0} → Op A
fail = λ f. throws f

unfoldable pub got : Fat → Option ℕ → Outcome ℕ
got f none = throws f
got f (some v) = ok v f

-- Fat32Volume::getFatEntry
unfoldable pub get_entry : ℕ → Op ℕ
get_entry cluster = λ f. got f (get_fat_entry f cluster)

unfoldable pub put : Fat → Option Fat → Outcome (Unit {0})
put f none = throws f
put f (some f') = ok tt f'

-- Fat32Volume::setFatEntry
unfoldable pub set_entry : ℕ → ℕ → Op (Unit {0})
set_entry cluster value = λ f. put f (set_fat_entry f cluster value)

-- Fat32Volume::findFreeCluster
pub find_free : Op ℕ
find_free = λ f. let (c, f') = find_free_from_hint f in ok c f'

-- Fat32Volume::findContiguousFreeRun; `none` is -1.
unfoldable pub find_run : ℕ → Op (Option ℕ)
find_run count = λ f. let (hit, f') = find_contiguous_free_run f count in ok hit f'

pub set_hint : ℕ → Op (Unit {0})
set_hint cluster = λ f. ok tt (set_alloc_hint f cluster)

-- `if (prev != 0) setFatEntry(prev, c)`
pub link_to : ℕ → ℕ → Op (Unit {0})
link_to prev c = if prev == 0 then done tt else set_entry prev c

-- Fat32Volume::allocateCluster; 0 means that no cluster is free.
pub allocate_cluster : ℕ → Op ℕ
allocate_cluster prev = do
  cluster ← find_free
  if cluster == 0
      then done 0
      else do set_entry cluster end_of_chain; link_to prev cluster; done cluster

-- `cluster >= 2 && cluster < 0x0FFFFFF8`
abbrev pub is_data_cluster : ℕ → Bool
is_data_cluster cluster = leb 2 cluster && ltb cluster end_of_chain

-- The loop of freeClusterChain.
unfoldable pub free_loop : ℕ → ℕ → Op (Unit {0})
free_loop zero cluster = λ f. if is_data_cluster cluster then out_of_fuel f else ok tt f
free_loop (suc fuel) cluster =
    let rest = free_loop fuel in
    if is_data_cluster cluster
    then (do
      next ← get_entry cluster
      set_entry cluster 0
      if leb end_of_chain next || (next == cluster) then done tt else rest next)
    else done tt

-- Fat32Volume::freeClusterChain. A round clears an entry that was not 0, except for the last.
unfoldable pub free_cluster_chain : ℕ → Op (Unit {0})
free_cluster_chain first = λ f. free_loop (fat_entries f + 1) first f

-- The loop of the fast path of allocateClusterChain, from the cluster `c` on, and its result.
pub link_run : ℕ → ℕ → Op (List ℕ)
link_run zero c = done []
link_run (suc n) c =
    let rest = link_run n (c + 1) in
    do set_entry c (if n == 0 then end_of_chain else c + 1); out ← rest; done (c ∷ out)

-- What the loop of the fragmented path does when no cluster is free.
pub roll_back : List ℕ → Op (List ℕ)
roll_back [] = fail
roll_back (first ∷ out) = free_cluster_chain first >> fail

-- The loop of the fragmented path: `out` is what it has so far, `prev` the last of it or 0.
pub allocate_each : ℕ → ℕ → List ℕ → Op (List ℕ)
allocate_each zero prev out = done out
allocate_each (suc n) prev out =
    let rest = allocate_each n in
    do
      c ← find_free
      if c == 0
          then roll_back out
          else do set_entry c end_of_chain; link_to prev c; rest c (out ++ c ∷ [])

-- The two paths; a run never starts below 2.
pub allocate_from : ℕ → Option ℕ → Op (List ℕ)
allocate_from count (some start) = do out ← link_run count start; set_hint (start + count); done out
allocate_from count none = allocate_each count 0 []

-- Fat32Volume::allocateClusterChain
pub allocate_cluster_chain : ℕ → Op (List ℕ)
allocate_cluster_chain count =
    if count == 0 then done [] else (find_run count >>= allocate_from count)

-- The loop of readClusterChain; `seen` holds the clusters of `chain`.
pub read_loop : ℕ → ℕ → List ℕ → Op (List ℕ)
read_loop zero c chain = λ f. if is_data_cluster c then out_of_fuel f else ok chain f
read_loop (suc fuel) c chain =
    let rest = read_loop fuel in
    if is_data_cluster c
    then (if any (λ s. s == c) chain
        then fail
        else do next ← get_entry c; rest next (chain ++ c ∷ []))
    else done chain

-- Fat32Volume::readClusterChain
pub read_cluster_chain : ℕ → Op (List ℕ)
read_cluster_chain first = λ f. read_loop (fat_entries f + 1) first [] f
