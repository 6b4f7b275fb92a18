-- ===== src/Volume/Fat32/Chain/Frame.antt =====
-- The reads and writes of one entry, at a cluster that is valid.
use bas_cpp.Prelude.{ℕ, ◌≤◌, ◌<◌, ◌≡◌, ◌≢◌, refl, true, false, arith, ltb, ◌==◌, set}
use bas_cpp.Volume.Fat32.ClusterManager.{
  Fat, fat_entries, entry_at, get_fat_entry, put_entry, normalize_value,
}
use bas_cpp.Volume.Fat32.ClusterManager.Entries.{set_fat_entry-some}
use bas_cpp.Volume.Fat32.Chain.{
  Outcome, get_entry, got, set_entry, put, is_data_cluster, end_of_chain,
}

pub get_entry-ok :
    (f : Fat) (c : ℕ) → c < fat_entries f → get_entry c f ≡ Outcome.ok (entry_at f c) f
unfolding get_entry got get_fat_entry
get_entry-ok f c h = let valid : ltb c (fat_entries f) ≡ true = ground arith in rw valid refl

pub get_entry-throws :
    (f : Fat) (c : ℕ) → ltb c (fat_entries f) ≡ false → get_entry c f ≡ Outcome.throws f
unfolding get_entry got get_fat_entry
get_entry-throws f c h = rw h refl

pub set_entry-ok :
    (f : Fat) (c v : ℕ) → c < fat_entries f → set_entry c v f ≡ Outcome.ok tt (put_entry f c v)
unfolding set_entry put
set_entry-ok f c v h = rw (set_fat_entry-some f c v h) refl

-- The entries after the write of 0.
pub entries-put_entry_zero :
    (f : Fat) (c : ℕ) → entry_at f c ≢ 0 → (put_entry f c 0).entries ≡ set f.entries c 0
unfolding put_entry
entries-put_entry_zero f c used =
    let e : (entry_at f c == normalize_value 0) ≡ false = ground arith in rw e refl

pub is_data_cluster-true : (c : ℕ) → 2 ≤ c → c < end_of_chain → is_data_cluster c ≡ true
is_data_cluster-true c lo hi = ground arith

-- The operation ends, with a result or an exception: its loop had enough fuel.
abbrev pub Ends : {A : Type 0} → Outcome A → Type 0
Ends (Outcome.ok a f) = Unit
Ends (Outcome.throws f) = Unit
Ends (Outcome.out_of_fuel f) = ⊥
