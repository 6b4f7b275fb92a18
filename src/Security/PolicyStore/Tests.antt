-- ===== src/Security/PolicyStore/Tests.antt =====
-- A policy store with one list, one binding and one grant.
use bas_cpp.Prelude.{◌≡◌, ◌↔◌, refl, some, [], ◌∷◌, codes, str_ne}
use bas_cpp.Security.Acl.{AcList, AccessDecisionType}
use bas_cpp.Security.Permission.{Permission}
use bas_cpp.Security.Realm.{IdentityRef, Identity, no_realm, ref_equal}
use bas_cpp.Security.Resolver.{resolve_request}
use bas_cpp.Security.Types.{AccessEffect, IdentitySource, IdentityState}
use bas_cpp.Security.PolicyStore.{
  PolicyStore, policy_check, policy_check_any, effective_entries_of, bindings_of,
}
use bas_cpp.Security.PolicyStore.Acls.{Unique, updating_acl, apply, apply-Unique}
use bas_cpp.Security.PolicyStore.Checks.{
  policy_check_agrees, active_entries, policy_check_any_agrees, Unbound,
}

abbrev readers : AcList
readers = record {
  id = codes "readers";
  entries =
      record {
        permission = record { action = codes "file.read"; resource = [] };
        effect = AccessEffect.allow;
      }
      ∷ [];
}

abbrev operator : IdentityRef
operator = record { type = codes "role"; realm = no_realm; name = codes "operator" }

abbrev store : PolicyStore
store = record {
  acls = readers ∷ [];
  grants = [];
  bindings = record { acl_id = codes "readers"; identity = operator } ∷ [];
}

abbrev request : Permission
request = record { action = codes "file.read"; resource = codes "/a" }

abbrev session : Identity
session = record {
  type = codes "role";
  name = codes "operator";
  realm = no_realm;
  display_name = [];
  service_id = [];
  source = IdentitySource.login;
  state = IdentityState.active;
  issued_at = 5;
  expires_at = some 9;
}

apply-Unique_example : Unique (apply store (updating_acl readers)).acls
apply-Unique_example = apply-Unique store (updating_acl readers) (refl, tt)

policy_check_agrees_example : (policy_check store operator request ≡ AccessEffect.allow) ↔ (
    (resolve_request request (effective_entries_of store operator)).type ≡ AccessDecisionType.allow)
policy_check_agrees_example = policy_check_agrees store operator request

policy_check_any_agrees_example :
    (policy_check_any store (session ∷ []) request 7 ≡ AccessEffect.allow) ↔ (
      (resolve_request request (active_entries store (session ∷ []) 7)).type
      ≡ AccessDecisionType.allow)
policy_check_any_agrees_example = policy_check_any_agrees store (session ∷ []) request 7

Unbound-writers : Unbound (codes "writers") (bindings_of store operator)
unfolding bindings_of ref_equal
Unbound-writers = (str_ne (codes "readers") (codes "writers") refl, tt)
