-- ===== src/Volume/Fat32/Vol.antt =====
-- A volume of src/bas/volume/fat32/Fat32Volume.hpp with its device and its table, and the operations of
-- Fat32Volume.cpp and Fat32Volume_write.cpp on it, in a monad of steps that may throw.
use bas_cpp.Prelude.{
  ℕ, ◌+◌, ◌-◌, ◌*◌, Bool, true, false, Option, none, some, List, if◌then◌else◌, ltb, Bytes,
}
use bas_cpp.Volume.Device.{MemDevice, read_device, write_device}
use bas_cpp.Volume.Fat32.ClusterManager.{Fat}
use bas_cpp.Volume.Fat32.Flush.{Disk, flush_dirty}
use bas_cpp.Volume.Fat32.Chain.{Outcome, ok, throws, out_of_fuel, Op, read_cluster_chain}

-- Fat32Volume, as far as its directories need it: the cluster manager with its device, and where the
-- clusters lie.
pub record Vol : Type 0 where
  pub disk : Disk
  pub data_offset : ℕ
  pub cluster_size : ℕ

-- What an operation comes to: a result, or an IOException, with the volume at that point.
pub data Result (A : Type 0) : Type 0 where
  did : A → Vol → Result A
  raised : Vol → Result A

abbrev pub Act : Type 0 → Type 0
Act A = Vol → Result A

abbrev pub after : {A B : Type 0} → Result A → (A → Act B) → Result B
after (did a v) next = next a v
after (raised v) next = raised v

infixl 5 ◌>>=◌ ◌>>◌
abbrev pub ◌>>=◌ : {A B : Type 0} → Act A → (A → Act B) → Act B
m >>= next = λ v. after (m v) next

abbrev pub ◌>>◌ : {B : Type 0} → Act (Unit {0}) → Act B → Act B
m >> next = m >>= λ _. next

abbrev pub pure : {A : Type 0} → A → Act A
pure a = λ v. did a v

abbrev pub raise : {A : Type 0} → Act A
raise = λ v. raised v

abbrev pub ask : Act Vol
ask = λ v. did v v

abbrev set_table : Vol → Fat → Vol
set_table v f = record v { disk = record v.disk { fat = f } }

-- An operation on the table; the loops there always have fuel enough.
pub lifted : {A : Type 0} → Vol → Outcome A → Result A
lifted v (ok a f) = did a (set_table v f)
lifted v (throws f) = raised (set_table v f)
lifted v (out_of_fuel f) = raised (set_table v f)

pub on_table : {A : Type 0} → Op A → Act A
on_table op = λ v. lifted v (op v.disk.fat)

unfoldable pub found_or_raise : {A : Type 0} → Option A → Act A
found_or_raise none = raise
found_or_raise (some a) = pure a

-- clusterToOffset
unfoldable pub cluster_to_offset : ℕ → Act ℕ
cluster_to_offset cluster =
    λ v. if ltb cluster 2 then raised v else did (v.data_offset + (cluster - 2) * v.cluster_size) v

-- readAt; a failure is an answer.
unfoldable pub read_at : ℕ → ℕ → Act (Option Bytes)
read_at offset len = λ v. did (read_device v.disk.device offset len) v

set_device : Vol → Option MemDevice → Bool × Vol
set_device v none = (false, v)
set_device v (some d) = (true, record v { disk = record v.disk { device = d } })

-- writeAt
pub write_at : ℕ → Bytes → Act Bool
write_at offset src =
    λ v. let (written, v') = set_device v (write_device v.disk.device offset src) in did written v'

-- `if (!writeAt(…)) throw`
pub write_or_raise : ℕ → Bytes → Act (Unit {0})
write_or_raise offset src = do written ← write_at offset src; if written then pure tt else raise

-- m_clusterManager->flushDirty()
finish_flush : Vol → Bool × Disk → Result (Unit {0})
finish_flush v (true, d) = did tt (record v { disk = d })
finish_flush v (false, d) = raised (record v { disk = d })

pub flush : Act (Unit {0})
flush = λ v. finish_flush v (flush_dirty v.disk)

-- readClusterChain
pub chain_of : ℕ → Act (List ℕ)
chain_of first = on_table (read_cluster_chain first)
