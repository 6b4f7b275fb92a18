-- ===== src/Volume/Fat32/Flush/WriteBack.antt =====
-- What flushDirty promises, and the operations that keep the two tables coherent.
use bas_cpp.Prelude.{
  ℕ, ◌^◌, ◌<◌, ◌≡◌, ◌⊎◌, inl, inr, refl, sym, ap, subst, Bool, true, false, some, List, [], ◌∷◌,
  ◌++◌, arith, ◌==◌, Bool-cases, is_nil, All, Any, All-append, Any-append, eq_cases,
}
use bas_cpp.Volume.Fat32.ClusterManager.{
  Fat, entry_at, fat_entries, normalize_value, put_entry, set_fat_entry,
}
use bas_cpp.Volume.Fat32.ClusterManager.Entries.{
  fat_entries-put_entry, entry_at-put_entry_self, entry_at-put_entry_ne, set_fat_entry-some_sound,
}
use bas_cpp.Volume.Fat32.Flush.{Disk, sort, unique, flush_list, set_dirty, clear_dirty, flush_dirty}
use bas_cpp.Volume.Fat32.Flush.Coherence.{Ready, IsClean, Coherent, SameRest}
use bas_cpp.Volume.Fat32.Flush.Sorting.{Any-unique-sort, All-unique-sort}
use bas_cpp.Volume.Fat32.Flush.Runs.{Flushed, SameRest-refl, flush_runs-Flushed}

-- What flushDirty promises.
pub record IsFlush (d : Disk) (r : Bool × Disk) : Type 0 where
  pub succeeds : r.0 ≡ true
  pub same_entries : r.1.fat.entries ≡ d.fat.entries
  pub same_hint : r.1.fat.alloc_hint ≡ d.fat.alloc_hint
  pub none_marked : r.1.fat.dirty_clusters ≡ []
  pub all_clean : (c : ℕ) → c < fat_entries d.fat → IsClean r.1 c
  pub rest : SameRest d r.1

flush_list-Flushed :
    (d : Disk) (clusters : List ℕ)
    → Ready d
    → All (λ c. c < fat_entries d.fat) clusters
    → Flushed d (λ c. Any (λ x. x ≡ c) clusters) (flush_list d clusters)
unfolding flush_list
flush_list-Flushed d [] ready all = record {
  ok = refl;
  same_fat = refl;
  rest = SameRest-refl d;
  clean = λ c hc h. elim h [ inl k ↦ k | inr e ↦ absurd e ];
}
flush_list-Flushed d (s ∷ rest) ready all =
    let h = flush_runs-Flushed d s s rest ready (omega arith, all.0) all.1 in
    record {
      ok = h.ok;
      same_fat = h.same_fat;
      rest = h.rest;
      clean = λ c hc t. h.clean c hc (elim t [
        | inl k ↦ inl k
        | inr (inl e) ↦ inr (inl (omega (arith, e), omega (arith, e)))
        | inr (inr m) ↦ inr (inr m)
      ]);
    }

cleared :
    (d : Disk) (clusters : List ℕ) (r : Bool × Disk)
    → ((c : ℕ) → c < fat_entries d.fat → IsClean d c ⊎ Any (λ x. x ≡ c) clusters)
    → Flushed (set_dirty d clusters) (λ c. Any (λ x. x ≡ c) clusters) r
    → IsFlush d (clear_dirty r)
unfolding clear_dirty set_dirty
cleared d clusters (false, d') c h = let ok = h.ok in absurd cc
cleared d clusters (true, d') marked h =
    let rest = h.rest in
    let kept = h.same_fat in
    record {
      succeeds = refl;
      same_entries = ap (λ f. f.entries) kept;
      same_hint = ap (λ f. f.alloc_hint) kept;
      none_marked = refl;
      all_clean = λ c hc. h.clean c hc (marked c hc);
      rest = record {
        same_offset = rest.same_offset;
        same_own = rest.same_own;
        same_size = rest.same_size;
        outside = rest.outside;
      };
    }

is_nil-nil : (xs : List ℕ) → is_nil xs ≡ true → xs ≡ []
is_nil-nil [] e = refl
is_nil-nil (x ∷ xs) e = cc

not_Any-nil : (c : ℕ) (xs : List ℕ) → is_nil xs ≡ true → Any (λ x. x ≡ c) xs → ⊥
not_Any-nil c [] e h = h
not_Any-nil c (x ∷ xs) e h = cc

Ready-set_dirty : (d : Disk) (clusters : List ℕ) → Ready d → Ready (set_dirty d clusters)
unfolding set_dirty
Ready-set_dirty d clusters h = record { small = h.small; room = h.room; writable = h.writable }

in_range-set_dirty :
    (d : Disk) (clusters : List ℕ)
    → All (λ c. c < fat_entries d.fat) clusters
    → All (λ c. c < fat_entries (set_dirty d clusters).fat) clusters
unfolding set_dirty
in_range-set_dirty d clusters h = h

nothing_marked : (d : Disk) → Coherent d → is_nil d.fat.dirty_clusters ≡ true → IsFlush d (true, d)
nothing_marked d h e = record {
  succeeds = refl;
  same_entries = refl;
  same_hint = refl;
  none_marked = is_nil-nil d.fat.dirty_clusters e;
  all_clean = λ c hc. elim (h.clean_or_marked c hc) [
    | inl k ↦ k
    | inr m ↦ absurd (not_Any-nil c d.fat.dirty_clusters e m)
  ];
  rest = SameRest-refl d;
}

-- From coherent tables, flushDirty succeeds whatever the order and the repetitions of the marked
-- clusters are: afterwards no cluster is marked and the word of each on the device is its entry, while
-- the entries and the hint stay and no byte outside the table changes.
pub flush_dirty-IsFlush : (d : Disk) → Coherent d → IsFlush d (flush_dirty d)
unfolding flush_dirty
flush_dirty-IsFlush d h = elim (Bool-cases (is_nil d.fat.dirty_clusters)) [
  | inl e ↦ rw e (nothing_marked d h e)
  | inr e ↦
      let clusters = unique (sort d.fat.dirty_clusters) in
      let sorted_in = λ (c : ℕ). Any-unique-sort (λ x. x ≡ c) d.fat.dirty_clusters in
      rw e (
        cleared d clusters (flush_list (set_dirty d clusters) clusters)
          (λ c hc. elim (h.clean_or_marked c hc) [ inl k ↦ inl k | inr m ↦ inr (sorted_in c m) ])
          (flush_list-Flushed (set_dirty d clusters) clusters (Ready-set_dirty d clusters h.ready) (
            in_range-set_dirty d clusters (
              All-unique-sort (λ c. c < fat_entries d.fat) d.fat.dirty_clusters
                h.marked_in_range))))
]

dirty_clusters-put_entry :
    (f : Fat) (cluster value : ℕ)
    → (put_entry f cluster value ≡ f)
      ⊎ ((put_entry f cluster value).dirty_clusters ≡ f.dirty_clusters ++ cluster ∷ [])
unfolding put_entry
dirty_clusters-put_entry f cluster value =
    elim (Bool-cases (entry_at f cluster == normalize_value value)) [
      | inl e ↦ rw e (inl refl)
      | inr e ↦ rw e (inr refl)
    ]

put_entry-Coherent :
    (d : Disk) (cluster value : ℕ)
    → Coherent d
    → cluster < fat_entries d.fat
    → Coherent (record d { fat = put_entry d.fat cluster value })
put_entry-Coherent d cluster value h valid = elim (dirty_clusters-put_entry d.fat cluster value) [
  | inl same ↦ subst (λ f. Coherent (record d { fat = f })) (sym same) h
  | inr marked ↦
      let f = put_entry d.fat cluster value in
      let len = fat_entries-put_entry d.fat cluster value in
      let r = h.ready in
      record {
        ready = record {
          small = λ k. elim (eq_cases cluster k) [
            | inl e ↦
                subst (λ k. entry_at f k < 2 ^ 28) e
                  (rw (entry_at-put_entry_self d.fat cluster value valid) (omega arith))
            | inr ne ↦ rw (entry_at-put_entry_ne d.fat cluster value k ne) (r.small k)
          ];
          room = rw len r.room;
          writable = r.writable;
        };
        marked_in_range =
            rw (marked, len)
              (All-append (λ c. c < fat_entries d.fat) d.fat.dirty_clusters (cluster ∷ [])
                h.marked_in_range (valid, tt));
        clean_or_marked = λ c hc. rw marked (elim (eq_cases cluster c) [
          | inl e ↦
              inr ((Any-append (λ x. x ≡ c) d.fat.dirty_clusters (cluster ∷ [])).1 (inr (inl e)))
          | inr ne ↦ elim (h.clean_or_marked c (rw len at hc)) [
            | inl k ↦ inl (rw (entry_at-put_entry_ne d.fat cluster value c ne) k)
            | inr m ↦ inr ((Any-append (λ x. x ≡ c) d.fat.dirty_clusters (cluster ∷ [])).1 (inl m))
          ]
        ]);
      }
]

-- A set entry is marked, so coherent tables stay coherent.
pub set_fat_entry-Coherent :
    (d : Disk) (f : Fat) (cluster value : ℕ)
    → Coherent d
    → set_fat_entry d.fat cluster value ≡ some f
    → Coherent (record d { fat = f })
set_fat_entry-Coherent d f cluster value h e =
    let (valid, put) = set_fat_entry-some_sound d.fat f cluster value e in
    subst (λ f. Coherent (record d { fat = f })) put (put_entry-Coherent d cluster value h valid)
