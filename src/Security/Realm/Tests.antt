-- ===== src/Security/Realm/Tests.antt =====
-- Realms at concrete values.
use bas_cpp.Prelude.{◌≡◌, refl, true, false, codes}
use bas_cpp.Security.Realm.{Realm, no_realm, same, storage_key}

wildcard : same no_realm (record no_realm { name = codes "a" }) ≡ true
unfolding same
wildcard = refl

key_of_app :
    storage_key (record no_realm { type = codes "app"; name = codes "demo" }) ≡ codes "app:demo"
unfolding storage_key
key_of_app = refl

abbrev device : Realm
device = record no_realm { type = codes "device"; uuid = codes "1a2b" }

abbrev app : Realm
app = record no_realm { type = codes "uuid"; name = codes "1a2b" }

abbrev picture : Realm
picture = record no_realm { image = codes "logo.png" }

-- An image alone makes a realm that is not equal to itself.
not_itself : same picture picture ≡ false
unfolding same
not_itself = refl
