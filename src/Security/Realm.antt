-- ===== src/Security/Realm.antt =====
-- src/bas/security/Realm.{hpp,cpp} and Identity.hpp: realms, identities, and the comparisons that
-- grants and bindings are looked up by.
pub mod Comparison
mod Tests
use bas_cpp.Prelude.{
  ℕ, ◌≡◌, refl, Bool, true, false, not, ◌&&◌, ◌||◌, Option, none, some, [], ◌∷◌, ◌++◌,
  if◌then◌else◌, leb, is_nil, Bytes, codes, str_eq,
}
use bas_cpp.Security.Types.{IdentityState, IdentitySource, is_active_state}

pub record Realm : Type 0 where
  pub type : Bytes
  pub uuid : Bytes
  pub name : Bytes
  pub description : Bytes
  pub image : Bytes

-- Realm::empty
abbrev pub is_empty : Realm → Bool
is_empty r =
    is_nil r.type && (is_nil r.uuid && (is_nil r.name && (is_nil r.description && is_nil r.image)))

-- Realm::hasKey
abbrev pub has_key : Realm → Bool
has_key r = not (is_nil r.type) || (not (is_nil r.uuid) || not (is_nil r.name))

-- Realm::matchType
match_type : Realm → Realm → Bool
match_type r hint = if is_nil hint.type then true else str_eq r.type hint.type

-- Realm::match
unfoldable pub match : Realm → Realm → Bool
unfolding match_type
match r hint =
    if is_empty hint || not (has_key hint)
    then true
    else if not (match_type r hint)
    then false
    else if not (is_nil hint.uuid)
    then str_eq r.uuid hint.uuid
    else if not (is_nil hint.name)
    then str_eq r.name hint.name
    else if not (is_nil hint.type)
    then str_eq r.type hint.type
    else true

-- Both texts are there.
both : Bytes → Bytes → Bool
both s t = not (is_nil s) && not (is_nil t)

-- Realm::same
unfoldable pub same : Realm → Realm → Bool
unfolding both
same r o =
    if is_empty r || is_empty o
    then true
    else if both r.type o.type && not (str_eq r.type o.type)
    then false
    else if both r.uuid o.uuid
    then str_eq r.uuid o.uuid
    else if both r.name o.name
    then str_eq r.name o.name
    else if both r.type o.type
    then str_eq r.type o.type
    else false

-- Realm::scopedEqual
pub scoped_equal : Realm → Realm → Bool
unfolding both
scoped_equal r o =
    if both r.type o.type && not (str_eq r.type o.type)
    then false
    else if both r.uuid o.uuid
    then str_eq r.uuid o.uuid
    else if both r.name o.name
    then str_eq r.name o.name
    else if both r.type o.type
    then str_eq r.type o.type
    else is_empty r && is_empty o

-- Realm::storageKey
pub storage_key : Realm → Bytes
storage_key r =
    if not (is_nil r.uuid)
    then codes "uuid:" ++ r.uuid
    else if not (is_nil r.type) && not (is_nil r.name)
    then r.type ++ (b':' ∷ r.name)
    else if not (is_nil r.name)
    then codes "name:" ++ r.name
    else if not (is_nil r.type)
    then codes "type:" ++ r.type
    else codes "global"

pub record IdentityRef : Type 0 where
  pub type : Bytes
  pub realm : Realm
  pub name : Bytes

-- IdentityRef::operator==
unfoldable pub ref_equal : IdentityRef → IdentityRef → Bool
unfolding same
ref_equal a b =
    if not (str_eq a.type b.type) || not (str_eq a.name b.name) then false else same a.realm b.realm

-- A point of time is the count of clock ticks from the earliest one that the clock shows; only its
-- order is used here. `attributes`, an opaque JSON object, is left out.
pub record Identity : Type 0 where
  pub type : Bytes
  pub name : Bytes
  pub realm : Realm
  pub display_name : Bytes
  pub service_id : Bytes
  pub source : IdentitySource
  pub state : IdentityState
  pub issued_at : ℕ
  pub expires_at : Option ℕ

-- Identity::ref
abbrev pub ref : Identity → IdentityRef
ref i = record { type = i.type; realm = i.realm; name = i.name }

-- Identity::isExpired
unfoldable pub is_expired : Identity → ℕ → Bool
is_expired i now = elim i.expires_at [ none ↦ false | some t ↦ leb t now ]

-- Identity::isActive
unfoldable pub is_active : Identity → ℕ → Bool
unfolding is_expired
is_active i now = is_active_state i.state && not (is_expired i now)

abbrev pub no_realm : Realm
no_realm = record { type = []; uuid = []; name = []; description = []; image = [] }
