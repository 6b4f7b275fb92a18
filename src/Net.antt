-- ===== src/Net.antt =====
-- src/bas/net: the URI type.
pub mod Uri
