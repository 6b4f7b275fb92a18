-- ===== src/Util.antt =====
-- src/bas/util: paths.
pub mod Path
pub mod PathHelper
