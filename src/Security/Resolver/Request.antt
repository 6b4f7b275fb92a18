-- ===== src/Security/Resolver/Request.antt =====
-- `DefaultAccessDecisionResolver::resolve` (src/bas/security/AccessDecisionResolver.cpp) follows the
-- rule of the votes, and agrees with the policy resolver on the same entries.
use bas_cpp.Prelude.{
  ℕ, max, ◌≡◌, ◌≢◌, ◌↔◌, refl, Bool, true, false, ◌||◌, Option, none, some, List, [], ◌∷◌, map,
  arith, if◌then◌else◌, Bool-cases, inl, inr,
}
use bas_cpp.Security.Acl.{AcEntry, AccessDecisionType}
use bas_cpp.Security.Permission.{Permission}
use bas_cpp.Security.Permission.Matcher.{permission_matches, specificity}
use bas_cpp.Security.Types.{AccessEffect, is_allow, is_deny}
use bas_cpp.Security.Resolver.{
  ScoredEntry, scored, max_entry, Found, note_entry, note_entries, decided, conclude, decide_scored,
  resolve_request,
}
use bas_cpp.Security.Resolver.Votes.{
  Vote, Denies, Allows, deny_in_front, max_vote, top_any, top_deny_iff, top_allow_iff,
}

-- The votes on a request: the effects of the entries that match it, scored by their patterns.
unfoldable pub votes_on : Permission → List AcEntry → List Vote
votes_on request [] = []
votes_on request (e ∷ entries) =
    let rest = votes_on request entries in
    if permission_matches e.permission request
    then record { score = specificity e.permission; effect = e.effect } ∷ rest
    else rest

abbrev vote_of : ScoredEntry → Vote
vote_of item = record { score = item.specificity; effect = item.entry.effect }

map-scored :
    (request : Permission) (es : List AcEntry)
    → map vote_of (scored request es) ≡ votes_on request es
unfolding scored votes_on
map-scored request [] = refl
map-scored request (e ∷ es) = ground (arith, map-scored request es)

max_entry-map :
    (items : List ScoredEntry) (best : ℕ) → max_entry items best ≡ max_vote (map vote_of items) best
unfolding max_entry max_vote
max_entry-map [] best = refl
max_entry-map (item ∷ items) best = max_entry-map items (max best item.specificity)

has : Option AcEntry → Bool
has none = false
has (some e) = true

deny-note_entries :
    (top : ℕ) (items : List ScoredEntry) (f : Found)
    → (note_entries top items f).has_deny ≡ (f.has_deny || top_any is_deny top (map vote_of items))
unfolding note_entries
deny-note_entries top [] f = ground arith
deny-note_entries top (item ∷ items) f =
    ground (arith, deny-note_entries top items (note_entry top item f))

allow-note_entries :
    (top : ℕ) (items : List ScoredEntry) (f : Found)
    → has (note_entries top items f).allow_entry
      ≡ (has f.allow_entry || top_any is_allow top (map vote_of items))
unfolding note_entries has
allow-note_entries top [] f = ground arith
allow-note_entries top (item ∷ items) f =
    ground (arith, allow-note_entries top items (note_entry top item f))

-- The type of the decision, from the two tests.
abbrev verdict : Bool → Bool → AccessDecisionType
verdict denied allowed =
    if denied
    then AccessDecisionType.deny
    else if allowed
    then AccessDecisionType.allow
    else AccessDecisionType.deny

type-conclude :
    (request : Permission) (f : Found)
    → (conclude request f).type ≡ verdict f.has_deny (has f.allow_entry)
unfolding conclude has
type-conclude request f = ground arith

type-decide_scored :
    (request : Permission) (items : List ScoredEntry)
    → (decide_scored request items).type ≡ (
        let votes = map vote_of items in
        let top = max_vote votes 0 in
        verdict (top_any is_deny top votes) (top_any is_allow top votes))
unfolding decide_scored has
type-decide_scored request [] = unfold decided in refl
type-decide_scored request (item ∷ items) =
    let start : Found = record { has_deny = false; allow_entry = none } in
    rw (
      type-conclude,
      max_entry-map (item ∷ items) 0,
      deny-note_entries (max_vote (map vote_of (item ∷ items)) 0) (item ∷ items) start,
      allow-note_entries (max_vote (map vote_of (item ∷ items)) 0) (item ∷ items) start,
    )

type-resolve_request :
    (request : Permission) (es : List AcEntry)
    → (resolve_request request es).type ≡ (
        let votes = votes_on request es in
        let top = max_vote votes 0 in
        verdict (top_any is_deny top votes) (top_any is_allow top votes))
unfolding resolve_request
type-resolve_request request es =
    rw (← map-scored request es) (type-decide_scored request (scored request es))

verdict_allow : (d a : Bool) → (verdict d a ≡ AccessDecisionType.allow) ↔ ((d ≢ true) × (a ≡ true))
verdict_allow d a = ground arith

verdict_deny :
    (d a : Bool) → verdict d a ≢ AccessDecisionType.allow → verdict d a ≡ AccessDecisionType.deny
verdict_deny d a h = ground arith

-- A request is allowed exactly if, among the matching entries of the highest specificity, none
-- denies and one allows; otherwise it is denied.
pub resolve_request_iff :
    (request : Permission) (es : List AcEntry)
    → (((resolve_request request es).type ≡ AccessDecisionType.allow)
        ↔ ((¬ Denies (votes_on request es)) × Allows (votes_on request es)))
      × ((resolve_request request es).type ≢ AccessDecisionType.allow
          → (resolve_request request es).type ≡ AccessDecisionType.deny)
resolve_request_iff request es =
    let votes = votes_on request es in
    let denies = top_deny_iff votes in
    let allows = top_allow_iff votes in
    rw (type-resolve_request request es) (
      (
        λ h. (λ d. ((verdict_allow _ _).0 h).0 (denies.1 d), allows.0 ((verdict_allow _ _).0 h).1),
        λ h. (verdict_allow _ _).1 (λ d. h.0 (denies.0 d), allows.1 h.1),
      ),
      verdict_deny _ _,
    )

votes_on_match :
    (request : Permission) (e : AcEntry) (es : List AcEntry)
    → permission_matches e.permission request ≡ true
    → votes_on request (e ∷ es)
      ≡ record { score = specificity e.permission; effect = e.effect } ∷ votes_on request es
unfolding votes_on
votes_on_match request e es m = rw m

votes_on_other :
    (request : Permission) (e : AcEntry) (es : List AcEntry)
    → permission_matches e.permission request ≡ false
    → votes_on request (e ∷ es) ≡ votes_on request es
unfolding votes_on
votes_on_other request e es m = rw m

allowed_without :
    (request : Permission) (e : AcEntry) (es : List AcEntry)
    → e.effect ≡ AccessEffect.deny
    → (¬ Denies (votes_on request (e ∷ es))) × Allows (votes_on request (e ∷ es))
    → (¬ Denies (votes_on request es)) × Allows (votes_on request es)
allowed_without request e es deny g = elim (Bool-cases (permission_matches e.permission request)) [
  | inl m ↦
      let h = rw (votes_on_match request e es m) at g in
      deny_in_front _ (votes_on request es) deny h.0 h.1
  | inr m ↦ rw (votes_on_other request e es m) at g
]

-- One more deny never turns a refusal into an allow.
pub deny_never_grants :
    (request : Permission) (e : AcEntry) (es : List AcEntry)
    → e.effect ≡ AccessEffect.deny
    → (resolve_request request (e ∷ es)).type ≡ AccessDecisionType.allow
    → (resolve_request request es).type ≡ AccessDecisionType.allow
deny_never_grants request e es deny h =
    (resolve_request_iff request es).0.1
      (allowed_without request e es deny ((resolve_request_iff request (e ∷ es)).0.0 h))
