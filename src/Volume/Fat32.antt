-- ===== src/Volume/Fat32.antt =====
-- src/bas/volume/fat32: the file allocation table with its manager, and the chains of clusters in it.
pub mod ClusterManager
pub mod Flush
pub mod Chain
pub mod Realloc
pub mod Dates
pub mod Names
pub mod Entry
pub mod Vol
pub mod Directory
pub mod Removal
pub mod Boot
