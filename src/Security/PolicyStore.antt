-- ===== src/Security/PolicyStore.antt =====
-- src/bas/security/PolicyStore.{hpp,cpp}: `DefaultPolicyStore` and the policy checks over it.
pub mod Acls
pub mod Checks
mod Tests
use bas_cpp.Prelude.{
  ℕ, ◌+◌, ◌≡◌, refl, Bool, true, false, not, Option, none, some, List, [], ◌∷◌, ◌++◌, map,
  if◌then◌else◌, filter, Bytes, codes, str_eq,
}
use bas_cpp.Security.Acl.{
  AcEntry, AcList, AccessGrant, PolicyBinding, AceMatch, grant_equal, binding_equal,
}
use bas_cpp.Security.Permission.{Permission}
use bas_cpp.Security.Permission.Matcher.{permission_matches, specificity}
use bas_cpp.Security.Realm.{Identity, IdentityRef, ref, ref_equal, is_active}
use bas_cpp.Security.Resolver.{resolve_matches}
use bas_cpp.Security.Types.{AccessEffect, priority}

-- DefaultPolicyStore
pub record PolicyStore : Type 0 where
  pub acls : List AcList
  pub grants : List AccessGrant
  pub bindings : List PolicyBinding

abbrev pub empty_store : PolicyStore
empty_store = record { acls = []; grants = []; bindings = [] }

find_acl : Bytes → List AcList → Option AcList
find_acl acl_id [] = none
find_acl acl_id (acl ∷ acls) = if str_eq acl.id acl_id then some acl else find_acl acl_id acls

pub get_acl : PolicyStore → Bytes → Option AcList
unfolding find_acl
get_acl s acl_id = find_acl acl_id s.acls

pub has_acl : PolicyStore → Bytes → Bool
has_acl s acl_id = elim (get_acl s acl_id) [ none ↦ false | some acl ↦ true ]

pub list_acls : PolicyStore → List Bytes
list_acls s = map (λ (acl : AcList). acl.id) s.acls

other_acl : Bytes → AcList → Bool
other_acl acl_id acl = not (str_eq acl.id acl_id)

other_binding : Bytes → PolicyBinding → Bool
other_binding acl_id binding = not (str_eq binding.acl_id acl_id)

pub remove_acl : PolicyStore → Bytes → PolicyStore
unfolding other_acl other_binding
remove_acl s acl_id = record s {
  acls = filter (other_acl acl_id) s.acls;
  bindings = filter (other_binding acl_id) s.bindings;
}

pub add_acl : PolicyStore → AcList → PolicyStore
unfolding remove_acl
add_acl s acl = let s' = remove_acl s acl.id in record s' { acls = s'.acls ++ acl ∷ [] }

replace_acl : AcList → List AcList → List AcList
replace_acl acl [] = acl ∷ []
replace_acl acl (existing ∷ acls) =
    if str_eq existing.id acl.id then acl ∷ acls else existing ∷ replace_acl acl acls

pub update_acl : PolicyStore → AcList → PolicyStore
unfolding replace_acl
update_acl s acl = record s { acls = replace_acl acl s.acls }

pub grants_of : PolicyStore → IdentityRef → List AccessGrant
grants_of s identity = filter (λ grant. ref_equal grant.identity identity) s.grants

pub add_grant : PolicyStore → AccessGrant → PolicyStore
add_grant s grant = record s { grants = s.grants ++ grant ∷ [] }

pub remove_grant : PolicyStore → AccessGrant → PolicyStore
remove_grant s grant = record s { grants = filter (λ g. not (grant_equal g grant)) s.grants }

pub bindings_of : PolicyStore → IdentityRef → List PolicyBinding
bindings_of s identity = filter (λ binding. ref_equal binding.identity identity) s.bindings

pub add_binding : PolicyStore → PolicyBinding → PolicyStore
add_binding s binding = record s { bindings = s.bindings ++ binding ∷ [] }

pub remove_binding : PolicyStore → PolicyBinding → PolicyStore
remove_binding s binding = record s {
  bindings = filter (λ b. not (binding_equal b binding)) s.bindings;
}

-- The entries that a binding stands for; a list that is not there has none.
bound_entries : PolicyStore → PolicyBinding → List AcEntry
bound_entries s binding = elim (get_acl s binding.acl_id) [ none ↦ [] | some acl ↦ acl.entries ]

all_bound : PolicyStore → List PolicyBinding → List AcEntry
all_bound s [] = []
all_bound s (binding ∷ bindings) = bound_entries s binding ++ all_bound s bindings

pub effective_entries_of : PolicyStore → IdentityRef → List AcEntry
effective_entries_of s identity =
    map (λ (grant : AccessGrant). grant.ace) (grants_of s identity)
    ++ all_bound s (bindings_of s identity)

pub clear : PolicyStore → PolicyStore
clear s = empty_store

-- The loop of `policyFind`.
find_matches : IdentityRef → Permission → List AcEntry → List AceMatch
find_matches identity permission [] = []
find_matches identity permission (entry ∷ entries) =
    let rest = find_matches identity permission entries in
    if permission_matches entry.permission permission
    then record {
      entry = entry;
      identity = identity;
      permission_specificity = specificity entry.permission;
      identity_specificity = 10;
    }
      ∷ rest
    else rest

-- policyFind, over a store that is no RealmPolicyStore.
pub policy_find : PolicyStore → IdentityRef → Permission → List AceMatch
policy_find s identity permission =
    find_matches identity permission (effective_entries_of s identity)

-- policyCheck, with the default matcher and resolver.
pub policy_check : PolicyStore → IdentityRef → Permission → AccessEffect
policy_check s identity permission = resolve_matches (policy_find s identity permission)

raise_specificity : ℕ → List AceMatch → List AceMatch
raise_specificity n [] = []
raise_specificity n (m ∷ matches) =
    record m { identity_specificity = m.identity_specificity + n } ∷ raise_specificity n matches

-- The loop of `policyCheckAny`, at the time `now`.
gather : PolicyStore → List Identity → Permission → ℕ → List AceMatch
unfolding raise_specificity
gather s [] permission now = []
gather s (identity ∷ identities) permission now =
    let rest = gather s identities permission now in
    if is_active identity now
    then raise_specificity (priority identity.source) (policy_find s (ref identity) permission)
      ++ rest
    else rest

pub policy_check_any : PolicyStore → List Identity → Permission → ℕ → AccessEffect
unfolding gather
policy_check_any s identities permission now = resolve_matches (gather s identities permission now)
