-- ===== src/Security/Realm/Comparison.antt =====
-- The comparisons of src/bas/security/Realm.cpp: `same` is symmetric and not transitive, and two
-- realms may share a storage key.
use bas_cpp.Prelude.{◌≡◌, ◌≢◌, true, ◌||◌, [], arith, Bytes, codes, str_eq, str_eq_iff, str_eq_refl}
use bas_cpp.Security.Realm.{Realm, is_empty, same, scoped_equal, storage_key, has_key}

str_eq_comm : (s t : Bytes) → str_eq s t ≡ str_eq t s
str_eq_comm s t = ground (arith, str_eq_iff s t, str_eq_iff t s)

-- Realm equality does not depend on the side, for the lookup's comparison and for the strict one.
pub same_comm : (r o : Realm) → (same r o ≡ same o r) × (scoped_equal r o ≡ scoped_equal o r)
unfolding same scoped_equal
same_comm r o =
    rw (str_eq_comm o.type r.type, str_eq_comm o.uuid r.uuid, str_eq_comm o.name r.name)
      (ground arith, ground arith)

-- A realm equals itself exactly if it is empty or has a key: one that has a description or an image
-- alone is not equal to itself.
pub same_self_iff : (r : Realm) → same r r ≡ (is_empty r || has_key r)
unfolding same
same_self_iff r = rw (str_eq_refl r.type, str_eq_refl r.uuid, str_eq_refl r.name) (ground arith)

-- A realm of type "uuid" with a name shares its storage key with every realm that has that name for
-- its UUID, whatever else the two hold.
pub storage_key_collision :
    (r o : Realm)
    → r.type ≡ codes "uuid"
    → r.uuid ≡ []
    → r.name ≢ []
    → o.uuid ≡ r.name
    → storage_key r ≡ storage_key o
unfolding storage_key
storage_key_collision r o ht hu hn ho = ground arith

-- Where both realms have a UUID, equal realms have one storage key, and the key tells UUIDs apart.
pub same-storage_key :
    (r o : Realm)
    → r.uuid ≢ []
    → o.uuid ≢ []
    → (same r o ≡ true → storage_key r ≡ storage_key o)
      × (storage_key r ≡ storage_key o → r.uuid ≡ o.uuid)
unfolding same storage_key
same-storage_key r o hr ho = (λ h. ground (arith, str_eq_iff r.uuid o.uuid), λ h. ground arith)
