-- ===== src/Volume/Fat32/ClusterManager/Entries.antt =====
-- What Fat32ClusterManager::set does to the table: one entry changes, and the cluster is marked.
use bas_cpp.Prelude.{
  ℕ, ◌<◌, ◌≡◌, ◌≢◌, refl, true, some, arith, ◌==◌, ltb, Bool-cases, inl, inr, length-set,
  get_or-set_self, get_or-set_ne, ==_iff,
}
use bas_cpp.Volume.Fat32.ClusterManager.{
  Fat, fat_entries, entry_at, put_entry, set_fat_entry, normalize_value,
}

pub fat_entries-put_entry :
    (f : Fat) (cluster value : ℕ) → fat_entries (put_entry f cluster value) ≡ fat_entries f
unfolding put_entry
fat_entries-put_entry f cluster value =
    elim (Bool-cases (entry_at f cluster == normalize_value value)) [
      | inl e ↦ rw e refl
      | inr e ↦ rw e (length-set f.entries cluster (normalize_value value))
    ]

pub entry_at-put_entry_self :
    (f : Fat) (cluster value : ℕ)
    → cluster < fat_entries f
    → entry_at (put_entry f cluster value) cluster ≡ normalize_value value
unfolding put_entry
entry_at-put_entry_self f cluster value h =
    elim (Bool-cases (entry_at f cluster == normalize_value value)) [
      | inl e ↦ rw e ((==_iff (entry_at f cluster) (normalize_value value)).0 e)
      | inr e ↦ rw e (get_or-set_self f.entries cluster (normalize_value value) 0 h)
    ]

pub entry_at-put_entry_ne :
    (f : Fat) (cluster value other : ℕ)
    → cluster ≢ other
    → entry_at (put_entry f cluster value) other ≡ entry_at f other
unfolding put_entry
entry_at-put_entry_ne f cluster value other h =
    elim (Bool-cases (entry_at f cluster == normalize_value value)) [
      | inl e ↦ rw e refl
      | inr e ↦ rw e (get_or-set_ne f.entries cluster other (normalize_value value) 0 h)
    ]

pub set_fat_entry-some :
    (f : Fat) (cluster value : ℕ)
    → cluster < fat_entries f
    → set_fat_entry f cluster value ≡ some (put_entry f cluster value)
unfolding set_fat_entry
set_fat_entry-some f cluster value h =
    let valid : ltb cluster (fat_entries f) ≡ true = ground arith in rw valid refl

pub set_fat_entry-some_sound :
    (f after : Fat) (cluster value : ℕ)
    → set_fat_entry f cluster value ≡ some after
    → (cluster < fat_entries f) × (put_entry f cluster value ≡ after)
unfolding set_fat_entry
set_fat_entry-some_sound f after cluster value h = elim (Bool-cases (ltb cluster (fat_entries f))) [
  | inl e ↦ (ground arith, ground arith)
  | inr e ↦ absurd (ground arith)
]
