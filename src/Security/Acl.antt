-- ===== src/Security/Acl.antt =====
-- src/bas/security/ACList.hpp, Binding.hpp and AccessDecision.hpp: access control entries, named lists
-- of them, grants to an identity, bindings of a list to an identity, and decisions.
use bas_cpp.Prelude.{Bool, true, false, ◌&&◌, ℕ, List, Bytes, str_eq}
use bas_cpp.Security.Permission.{Permission}
use bas_cpp.Security.Realm.{IdentityRef, ref_equal}
use bas_cpp.Security.Types.{AccessEffect}

pub record AcEntry : Type 0 where
  pub permission : Permission
  pub effect : AccessEffect

pub record AcList : Type 0 where
  pub id : Bytes
  pub entries : List AcEntry

-- The base class ACEntry is a field; AccessGrant::ace is that field.
pub record AccessGrant : Type 0 where
  pub ace : AcEntry
  pub identity : IdentityRef

pub record PolicyBinding : Type 0 where
  pub acl_id : Bytes
  pub identity : IdentityRef

-- `matcher.specificity` gives no negative number, so the two scores are naturals.
pub record AceMatch : Type 0 where
  pub entry : AcEntry
  pub identity : IdentityRef
  pub permission_specificity : ℕ
  pub identity_specificity : ℕ

pub data AccessDecisionType : Type 0 where
  allow deny challenge_required error : AccessDecisionType

pub record AccessDecision : Type 0 where
  pub type : AccessDecisionType
  pub permission : Permission
  pub reason : Bytes
  pub matched_identities : List IdentityRef
  pub matched_grants : List AccessGrant

-- AccessDecision::effect
unfoldable pub decision_effect : AccessDecision → AccessEffect
decision_effect d = elim d.type [
  | AccessDecisionType.allow ↦ AccessEffect.allow
  | _ ↦ AccessEffect.deny
]

abbrev effect_equal : AccessEffect → AccessEffect → Bool
effect_equal AccessEffect.allow AccessEffect.allow = true
effect_equal AccessEffect.deny AccessEffect.deny = true
effect_equal AccessEffect.unknown AccessEffect.unknown = true
effect_equal _ _ = false

-- Permission::operator==
permission_equal : Permission → Permission → Bool
permission_equal a b = str_eq a.action b.action && str_eq a.resource b.resource

-- AccessGrant::operator==
pub grant_equal : AccessGrant → AccessGrant → Bool
unfolding permission_equal
grant_equal a b =
    ref_equal a.identity b.identity
    && (permission_equal a.ace.permission b.ace.permission
        && effect_equal a.ace.effect b.ace.effect)

-- PolicyBinding::operator==
pub binding_equal : PolicyBinding → PolicyBinding → Bool
binding_equal a b = str_eq a.acl_id b.acl_id && ref_equal a.identity b.identity
