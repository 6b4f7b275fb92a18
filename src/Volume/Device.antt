-- ===== src/Volume/Device.antt =====
-- src/bas/volume/dev/MemDevice.cpp: a block device that stands on bytes in memory. The pointer to the
-- data is never null after the constructor, nor is the one that a caller passes.
use bas_cpp.Prelude.{
  put_bytes, ℕ, ◌+◌, Bool, true, false, ◌||◌, Option, none, some, if◌then◌else◌, ◌==◌, ltb, length,
  take, drop, Bytes,
}

-- OwnType. `auto` stands for no device that was built: the constructor replaces it.
pub data OwnType : Type 0 where
  view : OwnType
  borrowed : OwnType
  array : OwnType
  malloc : OwnType

-- m_ownType == OwnType::VIEW
abbrev pub is_view : OwnType → Bool
is_view view = true
is_view borrowed = false
is_view array = false
is_view malloc = false

-- MemDevice, less its name.
pub record MemDevice : Type 0 where
  pub bytes : Bytes
  pub own_type : OwnType

-- MemDevice::size
abbrev pub size : MemDevice → ℕ
size d = length d.bytes

-- MemDevice::read; `none` is the answer false.
unfoldable pub read_device : MemDevice → ℕ → ℕ → Option Bytes
read_device d offset len =
    if (len == 0) || ltb (size d) (offset + len)
    then none
    else some (take len (drop offset d.bytes))

-- MemDevice::write; `none` is the answer false.
unfoldable pub write_device : MemDevice → ℕ → Bytes → Option MemDevice
write_device d offset src =
    if is_view d.own_type
    then none
    else if (length src == 0) || ltb (size d) (offset + length src)
    then none
    else some (record d { bytes = put_bytes d.bytes offset src })
