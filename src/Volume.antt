-- ===== src/Volume.antt =====
-- src/bas/volume: storage back ends. The device in memory and the FAT32 volume are modelled.
pub mod Device
pub mod Fat32
