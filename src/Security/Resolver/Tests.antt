-- ===== src/Security/Resolver/Tests.antt =====
-- The resolvers at concrete entries.
use bas_cpp.Prelude.{◌≡◌, ◌≢◌, ◌↔◌, refl, List, [], ◌∷◌, map, codes}
use bas_cpp.Security.Acl.{AcEntry, AceMatch, AccessDecisionType}
use bas_cpp.Security.Permission.{Permission}
use bas_cpp.Security.Permission.Matcher.{permission_matches, specificity}
use bas_cpp.Security.Realm.{no_realm}
use bas_cpp.Security.Types.{AccessEffect}
use bas_cpp.Security.Resolver.{
  resolve_request, resolve_matches, scored, decide_scored, note_entries, max_entry, max_match,
  top_matches, effect_of_top, any_deny, best_allow, better_allow,
}
use bas_cpp.Security.Resolver.Votes.{Denies, Allows}
use bas_cpp.Security.Resolver.Matches.{vote_of, resolve_matches_iff}
use bas_cpp.Security.Resolver.Request.{votes_on, resolve_request_iff}

abbrev request : Permission
request = record { action = codes "file.read"; resource = codes "/a" }

abbrev any_file_denied : AcEntry
any_file_denied = record {
  permission = record { action = codes "file.*"; resource = [] };
  effect = AccessEffect.deny;
}

abbrev read_allowed : AcEntry
read_allowed = record {
  permission = record { action = codes "file.read"; resource = [] };
  effect = AccessEffect.allow;
}

abbrev entries : List AcEntry
entries = any_file_denied ∷ read_allowed ∷ []

-- The more specific allow outvotes the deny.
specific_wins : (resolve_request request entries).type ≡ AccessDecisionType.allow
unfolding resolve_request scored decide_scored note_entries max_entry permission_matches specificity
specific_wins = refl

resolve_request_iff_example :
    (((resolve_request request entries).type ≡ AccessDecisionType.allow)
      ↔ ((¬ Denies (votes_on request entries)) × Allows (votes_on request entries)))
    × ((resolve_request request entries).type ≢ AccessDecisionType.allow
        → (resolve_request request entries).type ≡ AccessDecisionType.deny)
resolve_request_iff_example = resolve_request_iff request entries

abbrev operator_match : AceMatch
operator_match = record {
  entry = read_allowed;
  identity = record { type = codes "role"; realm = no_realm; name = codes "operator" };
  permission_specificity = 20;
  identity_specificity = 14;
}

resolve_matches_runs :
    resolve_matches (operator_match ∷ record operator_match { entry = any_file_denied } ∷ [])
    ≡ AccessEffect.deny
unfolding resolve_matches max_match top_matches effect_of_top any_deny best_allow better_allow
resolve_matches_runs = refl

resolve_matches_iff_example :
    ((resolve_matches (operator_match ∷ []) ≡ AccessEffect.deny)
      ↔ Denies (map vote_of (operator_match ∷ [])))
    × ((resolve_matches (operator_match ∷ []) ≡ AccessEffect.allow) ↔ (
        (¬ Denies (map vote_of (operator_match ∷ [])))
        × Allows (map vote_of (operator_match ∷ []))))
resolve_matches_iff_example = resolve_matches_iff (operator_match ∷ [])
