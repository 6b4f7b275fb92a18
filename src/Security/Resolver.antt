-- ===== src/Security/Resolver.antt =====
-- src/bas/security/AccessDecisionResolver.cpp: `DefaultAccessDecisionResolver` decides a request from
-- entries, `DefaultACResolvePolicy` from matches that are already scored.
pub mod Votes
pub mod Matches
pub mod Request
mod Tests
use bas_cpp.Prelude.{
  ℕ, max, ◌≡◌, refl, Bool, true, false, Option, none, some, List, [], ◌∷◌, if◌then◌else◌, ◌==◌, ltb,
  is_nil, Bytes, codes,
}
use bas_cpp.Security.Acl.{AcEntry, AceMatch, AccessDecision, AccessDecisionType}
use bas_cpp.Security.Permission.{Permission}
use bas_cpp.Security.Permission.Matcher.{permission_matches, specificity}
use bas_cpp.Security.Types.{AccessEffect, is_allow, is_deny}

pub record ScoredEntry : Type 0 where
  pub entry : AcEntry
  pub specificity : ℕ

-- The entries that match, scored.
pub scored : Permission → List AcEntry → List ScoredEntry
scored request [] = []
scored request (e ∷ entries) =
    let rest = scored request entries in
    if permission_matches e.permission request
    then record { entry = e; specificity = specificity e.permission } ∷ rest
    else rest

-- The loops of `std::max`. They start at INT_MIN over lists that are not empty; no score is negative,
-- so 0 is as good a start.
max_entry : List ScoredEntry → ℕ → ℕ
max_entry [] best = best
max_entry (item ∷ items) best = max_entry items (max best item.specificity)

max_match : List AceMatch → ℕ → ℕ
max_match [] best = best
max_match (m ∷ matches) best = max_match matches (max best m.permission_specificity)

-- `hasDeny` and `allowEntry` of the second loop of `resolve`.
record Found : Type 0 where
  has_deny : Bool
  allow_entry : Option AcEntry

first_allow : AcEntry → Option AcEntry → Option AcEntry
first_allow e none = if is_allow e.effect then some e else none
first_allow e (some found) = some found

note_entry : ℕ → ScoredEntry → Found → Found
unfolding first_allow
note_entry top item found =
    if item.specificity == top
    then (if is_deny item.entry.effect
        then record found { has_deny = true }
        else record found { allow_entry = first_allow item.entry found.allow_entry })
    else found

note_entries : ℕ → List ScoredEntry → Found → Found
unfolding note_entry
note_entries top [] found = found
note_entries top (item ∷ items) found = note_entries top items (note_entry top item found)

decided : Permission → AccessDecisionType → Bytes → AccessDecision
decided request type reason = record {
  type = type;
  permission = request;
  reason = reason;
  matched_identities = [];
  matched_grants = [];
}

conclude : Permission → Found → AccessDecision
unfolding decided
conclude request found =
    if found.has_deny
    then decided request AccessDecisionType.deny (codes "explicit deny")
    else elim found.allow_entry [
      | some e ↦ decided request AccessDecisionType.allow (codes "explicit allow")
      | none ↦ decided request AccessDecisionType.deny (codes "no decisive ACE")
    ]

decide_scored : Permission → List ScoredEntry → AccessDecision
unfolding conclude
decide_scored request matched =
    if is_nil matched
    then decided request AccessDecisionType.deny (codes "no matching ACE")
    else conclude request (
        note_entries (max_entry matched 0) matched
          (record { has_deny = false; allow_entry = none }))

-- DefaultAccessDecisionResolver::resolve
pub resolve_request : Permission → List AcEntry → AccessDecision
resolve_request request entries = decide_scored request (scored request entries)

-- The matches of the highest score.
top_matches : ℕ → List AceMatch → List AceMatch
top_matches top [] = []
top_matches top (m ∷ matches) =
    let rest = top_matches top matches in if m.permission_specificity == top then m ∷ rest else rest

any_deny : List AceMatch → Bool
any_deny [] = false
any_deny (m ∷ matches) =
    let rest = any_deny matches in if is_deny m.entry.effect then true else rest

better_allow : AceMatch → Option AceMatch → Option AceMatch
better_allow m none = some m
better_allow m (some best) =
    if ltb best.identity_specificity m.identity_specificity then some m else some best

-- The loop over `bestAllow`.
best_allow : List AceMatch → Option AceMatch → Option AceMatch
best_allow [] best = best
best_allow (m ∷ matches) best =
    best_allow matches (if is_allow m.entry.effect then better_allow m best else best)

effect_of_top : List AceMatch → AccessEffect
effect_of_top top =
    if any_deny top
    then AccessEffect.deny
    else elim (best_allow top none) [ some m ↦ AccessEffect.allow | none ↦ AccessEffect.unknown ]

-- DefaultACResolvePolicy::resolve
pub resolve_matches : List AceMatch → AccessEffect
resolve_matches matches =
    if is_nil matches
    then AccessEffect.unknown
    else effect_of_top (top_matches (max_match matches 0) matches)
