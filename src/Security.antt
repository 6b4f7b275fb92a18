-- ===== src/Security.antt =====
-- src/bas/security: who may do what. Permissions and their matching, realms and identities, and the
-- stores and resolvers that decide a request.
pub mod Permission
pub mod Types
pub mod Realm
pub mod Acl
pub mod Resolver
pub mod PolicyStore
