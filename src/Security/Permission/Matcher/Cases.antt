-- ===== src/Security/Permission/Matcher/Cases.antt =====
-- The cases of `DefaultPermissionMatcher::matches` (src/bas/security/Permission.cpp).
use bas_cpp.Prelude.{
  ℕ, ◌-◌, ◌≡◌, ◌↔◌, ◌⊎◌, refl, true, List, [], ◌∷◌, arith, Bytes, length, str_eq_refl, inl, inr,
  leb,
}
use bas_cpp.Security.Permission.{Permission}
use bas_cpp.Security.Permission.Matcher.{
  split_permission_tokens, match_tokens, action_matches, resource_matches, permission_matches,
  ends_with, split_path,
}
use bas_cpp.Security.Permission.Matcher.Tokens.{AreTokens, split_permission_tokens_iff}
use bas_cpp.Security.Permission.Matcher.Glob.{Matches, end, same, match_tokens_iff}

Matches-refl : (ts : List Bytes) → Matches ts ts
Matches-refl [] = end
Matches-refl (t ∷ ts) = same t t refl (Matches-refl ts)

match_tokens_refl : (ts : List Bytes) → match_tokens ts ts ≡ true
match_tokens_refl ts = (match_tokens_iff ts ts).1 (Matches-refl ts)

action_matches_refl : (a : Bytes) → action_matches a a ≡ true
unfolding action_matches
action_matches_refl a = ground (arith, match_tokens_refl (split_permission_tokens a))

ends_with_tail : (c : ℕ) (t : Bytes) → ends_with (c ∷ t) t ≡ true
unfolding ends_with
ends_with_tail c t =
    let one : length (c ∷ t) - length t ≡ 1 = omega arith in
    let fits : leb (length t) (length (c ∷ t)) ≡ true = ground arith in
    rw (one, fits) (str_eq_refl t)

resource_matches_refl : (r : Bytes) → resource_matches r r ≡ true
unfolding resource_matches
resource_matches_refl [] = refl
resource_matches_refl (c ∷ t) =
    ground (arith, ends_with_tail c t, match_tokens_refl (split_path (c ∷ t)), str_eq_refl (c ∷ t))

-- Every permission matches itself as a pattern, wildcards and extension patterns included.
pub permission_matches_refl : (p : Permission) → permission_matches p p ≡ true
unfolding permission_matches
permission_matches_refl p = rw (action_matches_refl p.action, resource_matches_refl p.resource)

-- The tokens of a pattern match those of an action.
pub TokensMatch : Bytes → Bytes → Type 0
TokensMatch pattern action =
    (ts : List Bytes) × (us : List Bytes) × AreTokens pattern ts
    × AreTokens action us
    × Matches ts us

-- An action pattern matches an action exactly when one of the two is empty, or when the pieces between the
-- dots of the pattern, a final dot left out, match those of the action, with the wildcards that stand for
-- one piece and for any number of them.
pub action_matches_iff :
    (pattern action : Bytes)
    → (action_matches pattern action ≡ true)
      ↔ ((pattern ≡ []) ⊎ ((action ≡ []) ⊎ TokensMatch pattern action))
unfolding action_matches TokensMatch
action_matches_iff [] action = (λ h. inl refl, λ h. refl)
action_matches_iff (c ∷ pattern) [] = (λ h. inr (inl refl), λ h. refl)
action_matches_iff (c ∷ pattern) (d ∷ action) =
    let ts = split_permission_tokens (c ∷ pattern) in
    let us = split_permission_tokens (d ∷ action) in
    let both = match_tokens_iff ts us in
    (
      λ h. inr (
          inr (
            ts,
            us,
            (split_permission_tokens_iff c pattern ts).1 refl,
            (split_permission_tokens_iff d action us).1 refl,
            both.0 h,
          )),
      λ h. elim h [
        | inl e ↦ absurd cc
        | inr (inl e) ↦ absurd cc
        | inr (inr (qs, bs, q, b, m)) ↦
            let same = (split_permission_tokens_iff c pattern qs).0 q in
            let same' = (split_permission_tokens_iff d action bs).0 b in
            both.1 (rw (same, same') at m)
      ],
    )
