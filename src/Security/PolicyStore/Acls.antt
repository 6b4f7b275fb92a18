-- ===== src/Security/PolicyStore/Acls.antt =====
-- The named lists of a policy store (src/bas/security/PolicyStore.cpp): lookups after each change,
-- the invariant that names are unique, and the bindings that a change drops.
use bas_cpp.Prelude.{
  ◌≡◌, refl, ◌∙◌, Bool, false, ◌||◌, none, some, List, [], ◌∷◌, ◌++◌, arith, if◌then◌else◌, filter,
  any, Bytes, str_eq, str_eq_iff, str_eq_refl, Bool-cases, inl, inr,
}
use bas_cpp.Security.Acl.{AcList, PolicyBinding, AccessGrant}
use bas_cpp.Security.PolicyStore.{
  PolicyStore, find_acl, get_acl, remove_acl, add_acl, update_acl, replace_acl, other_acl,
  add_grant, remove_grant, add_binding, remove_binding, clear,
}

-- The list has that name.
abbrev is_named : Bytes → AcList → Bool
is_named acl_id acl = str_eq acl.id acl_id

find_acl-filter :
    (k j : Bytes) (acls : List AcList)
    → find_acl j (filter (other_acl k) acls) ≡ (if str_eq k j then none else find_acl j acls)
unfolding find_acl other_acl
find_acl-filter k j [] = ground arith
find_acl-filter k j (a ∷ acls) =
    ground (arith, find_acl-filter k j acls, str_eq_iff a.id k, str_eq_iff a.id j, str_eq_iff k j)

find_acl-concat :
    (a : AcList) (j : Bytes) (acls : List AcList)
    → find_acl a.id acls ≡ none
    → find_acl j (acls ++ a ∷ []) ≡ (if str_eq a.id j then some a else find_acl j acls)
unfolding find_acl
find_acl-concat a j [] h = refl
find_acl-concat a j (b ∷ acls) h =
    ground
      (arith, find_acl-concat a j acls, str_eq_iff a.id j, str_eq_iff b.id j, str_eq_iff b.id a.id)

find_acl-replace_acl :
    (a : AcList) (j : Bytes) (acls : List AcList)
    → find_acl j (replace_acl a acls) ≡ (if str_eq a.id j then some a else find_acl j acls)
unfolding find_acl replace_acl
find_acl-replace_acl a j [] = refl
find_acl-replace_acl a j (b ∷ acls) = ground (
  arith,
  find_acl-replace_acl a j acls,
  str_eq_iff a.id j,
  str_eq_iff b.id j,
  str_eq_iff b.id a.id,
)

-- After a removal, an addition and an update, each name is looked up as that change says.
pub get_acl_laws :
    (s : PolicyStore) (a : AcList) (k j : Bytes)
    → (get_acl (remove_acl s k) j ≡ (if str_eq k j then none else get_acl s j))
      × (get_acl (add_acl s a) j ≡ (if str_eq a.id j then some a else get_acl s j))
      × (get_acl (update_acl s a) j ≡ (if str_eq a.id j then some a else get_acl s j))
unfolding get_acl remove_acl add_acl update_acl
get_acl_laws s a k j =
    let gone : find_acl a.id (filter (other_acl a.id) s.acls) ≡ none =
      find_acl-filter a.id a.id s.acls ∙ rw (str_eq_refl a.id) in
    (
      find_acl-filter k j s.acls,
      find_acl-concat a j _ gone ∙ (rw (find_acl-filter a.id j s.acls) (ground arith)),
      find_acl-replace_acl a j s.acls,
    )

-- No two lists have one name.
abbrev pub Unique : List AcList → Type 0
Unique [] = Unit
Unique (a ∷ acls) = (any (is_named a.id) acls ≡ false) × Unique acls

any-filter :
    (k j : Bytes) (acls : List AcList)
    → any (is_named j) acls ≡ false
    → any (is_named j) (filter (other_acl k) acls) ≡ false
unfolding other_acl
any-filter k j [] h = refl
any-filter k j (a ∷ acls) h = ground (arith, any-filter k j acls)

filter-Unique : (k : Bytes) (acls : List AcList) → Unique acls → Unique (filter (other_acl k) acls)
unfolding other_acl
filter-Unique k [] u = tt
filter-Unique k (a ∷ acls) u = elim (Bool-cases (str_eq a.id k)) [
  | inl named ↦ rw named (filter-Unique k acls u.1)
  | inr other ↦ rw other (any-filter k a.id acls u.0, filter-Unique k acls u.1)
]

any-filter_self :
    (k : Bytes) (acls : List AcList) → any (is_named k) (filter (other_acl k) acls) ≡ false
unfolding other_acl
any-filter_self k [] = refl
any-filter_self k (a ∷ acls) = ground (arith, any-filter_self k acls)

any-concat :
    (j : Bytes) (acls : List AcList) (a : AcList)
    → any (is_named j) (acls ++ a ∷ []) ≡ (any (is_named j) acls || str_eq a.id j)
any-concat j [] a = ground arith
any-concat j (b ∷ acls) a = ground (arith, any-concat j acls a)

concat-Unique :
    (acls : List AcList) (a : AcList)
    → Unique acls
    → any (is_named a.id) acls ≡ false
    → Unique (acls ++ a ∷ [])
concat-Unique [] a u h = (refl, tt)
concat-Unique (b ∷ acls) a u h = (
  any-concat b.id acls a ∙ ground (arith, str_eq_iff a.id b.id, str_eq_iff b.id a.id),
  concat-Unique acls a u.1 (ground arith),
)

any-replace_acl :
    (j : Bytes) (a : AcList) (acls : List AcList)
    → str_eq a.id j ≡ false
    → any (is_named j) acls ≡ false
    → any (is_named j) (replace_acl a acls) ≡ false
unfolding replace_acl
any-replace_acl j a [] h e = ground arith
any-replace_acl j a (b ∷ acls) h e = ground (arith, any-replace_acl j a acls)

replace_acl-Unique : (a : AcList) (acls : List AcList) → Unique acls → Unique (replace_acl a acls)
unfolding replace_acl
replace_acl-Unique a [] u = (refl, tt)
replace_acl-Unique a (b ∷ acls) u = elim (Bool-cases (str_eq b.id a.id)) [
  | inl named ↦ rw named (rw ((str_eq_iff b.id a.id).0 named) at u.0, u.1)
  | inr other ↦ rw other (
    any-replace_acl b.id a acls (ground (arith, str_eq_iff a.id b.id, str_eq_iff b.id a.id)) u.0,
    replace_acl-Unique a acls u.1,
  )
]

-- The changes that a client makes to a store.
pub data Change : Type 0 where
  adding_acl updating_acl : AcList → Change
  removing_acl : Bytes → Change
  adding_grant removing_grant : AccessGrant → Change
  adding_binding removing_binding : PolicyBinding → Change
  clearing : Change

pub apply : PolicyStore → Change → PolicyStore
apply s (adding_acl a) = add_acl s a
apply s (updating_acl a) = update_acl s a
apply s (removing_acl k) = remove_acl s k
apply s (adding_grant g) = add_grant s g
apply s (removing_grant g) = remove_grant s g
apply s (adding_binding b) = add_binding s b
apply s (removing_binding b) = remove_binding s b
apply s clearing = clear s

-- Every change of a policy store keeps the names of its lists unique.
pub apply-Unique : (s : PolicyStore) (c : Change) → Unique s.acls → Unique (apply s c).acls
unfolding apply add_acl update_acl remove_acl add_grant remove_grant add_binding remove_binding
    clear
apply-Unique s (adding_acl a) u =
    concat-Unique _ a (filter-Unique a.id s.acls u) (any-filter_self a.id s.acls)
apply-Unique s (updating_acl a) u = replace_acl-Unique a s.acls u
apply-Unique s (removing_acl k) u = filter-Unique k s.acls u
apply-Unique s clearing u = tt
apply-Unique s _ u = u
