-- ===== src/Volume/Fat32/Chain/Keeps.antt =====
-- Operations that keep the tables in memory and on the device coherent: all that are built of the reads,
-- the writes and the searches of the cluster manager.
use bas_cpp.Prelude.{
  ℕ, zero, suc, ◌+◌, ◌≡◌, inl, inr, refl, Bool, true, false, ◌&&◌, ◌||◌, Option, none, some,
  if◌then◌else◌, ◌==◌, leb, ltb, Bool-cases,
}
use bas_cpp.Volume.Fat32.ClusterManager.{
  Fat, fat_entries, get_fat_entry, set_fat_entry, set_alloc_hint, find_free_from_hint,
  find_contiguous_free_run,
}
use bas_cpp.Volume.Fat32.ClusterManager.Search.{find_free_from_hint-IsFreeSearch}
use bas_cpp.Volume.Fat32.ClusterManager.FreeRuns.{
  same_entries_find_contiguous_free_run, same_dirty_find_contiguous_free_run,
}
use bas_cpp.Volume.Fat32.Flush.{Disk}
use bas_cpp.Volume.Fat32.Flush.Coherence.{Coherent}
use bas_cpp.Volume.Fat32.Flush.WriteBack.{set_fat_entry-Coherent}
use bas_cpp.Volume.Fat32.Chain.{
  Outcome, Op, and_then, ◌>>=◌, ◌>>◌, done, get_entry, got, set_entry, put, find_free, find_run,
  set_hint, link_to, free_loop, free_cluster_chain, is_data_cluster, end_of_chain,
}

-- The table that an operation leaves.
abbrev pub left : {A : Type 0} → Outcome A → Fat
left (Outcome.ok a f) = f
left (Outcome.throws f) = f
left (Outcome.out_of_fuel f) = f

abbrev pub CoherentWith : Disk → Fat → Type 0
CoherentWith d f = Coherent (record d { fat = f })

abbrev pub Keeps : {A : Type 0} → Disk → Op A → Type 0
Keeps d m = (f : Fat) → CoherentWith d f → CoherentWith d (left (m f))

module _ (d : Disk) where
  Keeps-then :
      {A B : Type 0} (r : Outcome A) (next : A → Op B)
      → CoherentWith d (left r)
      → ((a : A) → Keeps d (next a))
      → CoherentWith d (left (and_then r next))
  Keeps-then (Outcome.ok a f) next h k = k a f h
  Keeps-then (Outcome.throws f) next h k = h
  Keeps-then (Outcome.out_of_fuel f) next h k = h

  pub Keeps-bind :
      {A B : Type 0} (m : Op A) (next : A → Op B)
      → Keeps d m
      → ((a : A) → Keeps d (next a))
      → Keeps d (m >>= next)
  Keeps-bind m next h k f c = Keeps-then (m f) next (h f c) k

  pub Keeps-if :
      {A : Type 0} (b : Bool) (x y : Op A) → Keeps d x → Keeps d y → Keeps d (if b then x else y)
  Keeps-if true x y hx hy = hx
  Keeps-if false x y hx hy = hy

  -- Only the entries and the marks matter.
  same_table :
      (f f' : Fat)
      → f'.entries ≡ f.entries
      → f'.dirty_clusters ≡ f.dirty_clusters
      → CoherentWith d f
      → CoherentWith d f'
  same_table f f' e m h =
      let ready = h.ready in
      record {
        ready = record {
          small = rw e ready.small;
          room = rw e ready.room;
          writable = ready.writable;
        };
        marked_in_range = rw (e, m) h.marked_in_range;
        clean_or_marked = rw (e, m) h.clean_or_marked;
      }

  left-got : (f : Fat) (r : Option ℕ) → left (got f r) ≡ f
  unfolding got
  left-got f none = refl
  left-got f (some v) = refl

  pub get_entry-Keeps : (c : ℕ) → Keeps d (get_entry c)
  unfolding get_entry
  get_entry-Keeps c f h = rw (left-got f (get_fat_entry f c)) h

  put-CoherentWith :
      (f : Fat) (c v : ℕ) (r : Option Fat)
      → CoherentWith d f
      → set_fat_entry f c v ≡ r
      → CoherentWith d (left (put f r))
  unfolding put
  put-CoherentWith f c v none h e = h
  put-CoherentWith f c v (some f') h e = set_fat_entry-Coherent (record d { fat = f }) f' c v h e

  pub set_entry-Keeps : (c v : ℕ) → Keeps d (set_entry c v)
  unfolding set_entry
  set_entry-Keeps c v f h = put-CoherentWith f c v (set_fat_entry f c v) h refl

  pub find_free-Keeps : Keeps d find_free
  unfolding find_free
  find_free-Keeps f h =
      let s = find_free_from_hint-IsFreeSearch f in
      same_table f (find_free_from_hint f).1 s.same_entries s.same_dirty h

  pub find_run-Keeps : (count : ℕ) → Keeps d (find_run count)
  unfolding find_run
  find_run-Keeps count f h =
      same_table f (find_contiguous_free_run f count).1
        (same_entries_find_contiguous_free_run f count)
        (same_dirty_find_contiguous_free_run f count) h

  pub set_hint-Keeps : (c : ℕ) → Keeps d (set_hint c)
  unfolding set_hint set_alloc_hint
  set_hint-Keeps c f h = elim (Bool-cases (leb 2 c && ltb c (fat_entries f))) [
    | inl e ↦ rw e (same_table f (record f { alloc_hint = c }) refl refl h)
    | inr e ↦ rw e h
  ]

  pub link_to-Keeps : (prev c : ℕ) → Keeps d (link_to prev c)
  unfolding link_to
  link_to-Keeps prev c =
      Keeps-if (prev == 0) (done tt) (set_entry prev c) (λ f h. h) (set_entry-Keeps prev c)

  free_loop-Keeps : (fuel c : ℕ) → Keeps d (free_loop fuel c)
  unfolding free_loop
  free_loop-Keeps zero c =
      λ f h. elim (Bool-cases (is_data_cluster c)) [ inl e ↦ rw e h | inr e ↦ rw e h ]
  free_loop-Keeps (suc fuel) c =
      let later = free_loop-Keeps fuel in
      Keeps-if (is_data_cluster c)
        (do
          next ← get_entry c
          set_entry c 0
          if leb end_of_chain next || (next == c) then done tt else free_loop fuel next)
        (done tt)
        (Keeps-bind (get_entry c)
          (λ next.
            set_entry c 0
            >> (if leb end_of_chain next || (next == c) then done tt else free_loop fuel next))
          (get_entry-Keeps c)
          (λ next.
            Keeps-bind (set_entry c 0)
              (λ _. if leb end_of_chain next || (next == c) then done tt else free_loop fuel next)
              (set_entry-Keeps c 0)
              (λ _.
                Keeps-if (leb end_of_chain next || (next == c)) (done tt) (free_loop fuel next)
                  (λ f h. h) (later next))))
        (λ f h. h)

  pub free_cluster_chain-Keeps : (first : ℕ) → Keeps d (free_cluster_chain first)
  unfolding free_cluster_chain
  free_cluster_chain-Keeps first f h = free_loop-Keeps (fat_entries f + 1) first f h
