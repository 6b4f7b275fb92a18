-- ===== src/Security/Resolver/Matches.antt =====
-- `DefaultACResolvePolicy::resolve` (src/bas/security/AccessDecisionResolver.cpp) follows the rule of
-- the votes.
use bas_cpp.Prelude.{
  ℕ, max, ◌≡◌, ◌≢◌, ◌↔◌, refl, Bool, true, false, ◌||◌, Option, none, some, List, [], ◌∷◌, map,
  arith, any, if◌then◌else◌,
}
use bas_cpp.Security.Acl.{AceMatch}
use bas_cpp.Security.Types.{AccessEffect, is_allow, is_deny}
use bas_cpp.Security.Resolver.{
  max_match, top_matches, any_deny, better_allow, best_allow, effect_of_top, resolve_matches,
}
use bas_cpp.Security.Resolver.Votes.{
  Vote, Denies, Allows, max_vote, top_any, top_deny_iff, top_allow_iff,
}

abbrev pub vote_of : AceMatch → Vote
vote_of m = record { score = m.permission_specificity; effect = m.entry.effect }

-- The outcome of the two tests, in the order of the code.
abbrev pub verdict : Bool → Bool → AccessEffect
verdict denied allowed =
    if denied
    then AccessEffect.deny
    else if allowed
    then AccessEffect.allow
    else AccessEffect.unknown

has : Option AceMatch → Bool
has none = false
has (some m) = true

max_match-map : (ms : List AceMatch) (best : ℕ) → max_match ms best ≡ max_vote (map vote_of ms) best
unfolding max_match max_vote
max_match-map [] best = refl
max_match-map (m ∷ ms) best = max_match-map ms (max best m.permission_specificity)

any_deny-top_matches :
    (top : ℕ) (ms : List AceMatch)
    → any_deny (top_matches top ms) ≡ top_any is_deny top (map vote_of ms)
unfolding any_deny top_matches
any_deny-top_matches top [] = refl
any_deny-top_matches top (m ∷ ms) = ground (arith, any_deny-top_matches top ms)

has-best_allow :
    (ms : List AceMatch) (best : Option AceMatch)
    → has (best_allow ms best) ≡ (has best || any (λ m. is_allow m.entry.effect) ms)
unfolding has best_allow better_allow
has-best_allow [] best = ground arith
has-best_allow (m ∷ ms) none = ground (arith, has-best_allow ms (some m), has-best_allow ms none)
has-best_allow (m ∷ ms) (some best) =
    ground (arith, has-best_allow ms (some m), has-best_allow ms (some best))

any_allow-top_matches :
    (top : ℕ) (ms : List AceMatch)
    → any (λ m. is_allow m.entry.effect) (top_matches top ms)
      ≡ top_any is_allow top (map vote_of ms)
unfolding top_matches
any_allow-top_matches top [] = refl
any_allow-top_matches top (m ∷ ms) = ground (arith, any_allow-top_matches top ms)

effect_of_top_lem :
    (ms : List AceMatch)
    → effect_of_top ms ≡ verdict (any_deny ms) (any (λ m. is_allow m.entry.effect) ms)
unfolding effect_of_top has
effect_of_top_lem ms = ground (arith, has-best_allow ms none)

-- The resolver computes the two tests of the rule.
pub resolve_matches-verdict :
    (ms : List AceMatch)
    → resolve_matches ms ≡ (
        let votes = map vote_of ms in
        let top = max_vote votes 0 in
        verdict (top_any is_deny top votes) (top_any is_allow top votes))
unfolding resolve_matches
resolve_matches-verdict [] = refl
resolve_matches-verdict (m ∷ ms) = rw (
  max_match-map (m ∷ ms) 0,
  effect_of_top_lem,
  any_deny-top_matches (max_vote (map vote_of (m ∷ ms)) 0) (m ∷ ms),
  any_allow-top_matches (max_vote (map vote_of (m ∷ ms)) 0) (m ∷ ms),
)

verdict_deny : (d a : Bool) → (verdict d a ≡ AccessEffect.deny) ↔ (d ≡ true)
verdict_deny d a = ground arith

verdict_allow : (d a : Bool) → (verdict d a ≡ AccessEffect.allow) ↔ ((d ≢ true) × (a ≡ true))
verdict_allow d a = ground arith

-- The policy resolver answers Deny exactly if a match of the highest permission specificity denies,
-- and Allow exactly if none of these denies and one allows.
pub resolve_matches_iff :
    (ms : List AceMatch)
    → ((resolve_matches ms ≡ AccessEffect.deny) ↔ Denies (map vote_of ms))
      × ((resolve_matches ms ≡ AccessEffect.allow)
          ↔ ((¬ Denies (map vote_of ms)) × Allows (map vote_of ms)))
resolve_matches_iff ms =
    let votes = map vote_of ms in
    let denies = top_deny_iff votes in
    let allows = top_allow_iff votes in
    rw (resolve_matches-verdict ms) (
      (λ h. denies.0 ((verdict_deny _ _).0 h), λ h. (verdict_deny _ _).1 (denies.1 h)),
      (
        λ h. (λ d. ((verdict_allow _ _).0 h).0 (denies.1 d), allows.0 ((verdict_allow _ _).0 h).1),
        λ h. (verdict_allow _ _).1 (λ d. h.0 (denies.0 d), allows.1 h.1),
      ),
    )
