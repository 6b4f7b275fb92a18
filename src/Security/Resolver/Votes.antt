-- ===== src/Security/Resolver/Votes.antt =====
-- The rule that both resolvers of src/bas/security/AccessDecisionResolver.cpp follow, with no mention
-- of their loops: among the votes of the highest score a deny wins, then an allow.
use bas_cpp.Prelude.{
  ℕ, ◌≤◌, max, ◌≡◌, ◌↔◌, inl, inr, Bool, true, ◌&&◌, List, [], ◌∷◌, arith, All, All-map, Any,
  Any-map, Any-All, any, any_iff, ◌==◌,
}
use bas_cpp.Security.Types.{AccessEffect, is_allow, is_deny}

pub record Vote : Type 0 where
  pub score : ℕ
  pub effect : AccessEffect

-- No vote has a higher score.
abbrev pub IsTop : List Vote → Vote → Type 0
IsTop votes v = All (λ w. w.score ≤ v.score) votes

-- Some vote of the highest score denies.
abbrev pub Denies : List Vote → Type 0
Denies votes = Any (λ v. (v.effect ≡ AccessEffect.deny) × IsTop votes v) votes

-- Some vote of the highest score allows.
abbrev pub Allows : List Vote → Type 0
Allows votes = Any (λ v. (v.effect ≡ AccessEffect.allow) × IsTop votes v) votes

unfoldable pub max_vote : List Vote → ℕ → ℕ
max_vote [] best = best
max_vote (v ∷ votes) best = max_vote votes (max best v.score)

le-max_vote : (votes : List Vote) (best : ℕ) → best ≤ max_vote votes best
unfolding max_vote
le-max_vote [] best = omega arith
le-max_vote (v ∷ votes) best = omega (arith, le-max_vote votes (max best v.score))

max_vote_upper : (votes : List Vote) (best : ℕ) → All (λ v. v.score ≤ max_vote votes best) votes
unfolding max_vote
max_vote_upper [] best = tt
max_vote_upper (v ∷ votes) best =
    (omega (arith, le-max_vote votes (max best v.score)), max_vote_upper votes (max best v.score))

max_vote_least :
    (votes : List Vote) (best bound : ℕ)
    → best ≤ bound
    → All (λ v. v.score ≤ bound) votes
    → max_vote votes best ≤ bound
unfolding max_vote
max_vote_least [] best bound h all = h
max_vote_least (v ∷ votes) best bound h all =
    max_vote_least votes (max best v.score) bound (omega arith) all.1

-- A vote has the maximum for its score exactly if no vote has a higher one.
IsTop-iff :
    (votes : List Vote) (v : Vote)
    → v.score ≤ max_vote votes 0
    → (v.score ≡ max_vote votes 0) ↔ IsTop votes v
IsTop-iff votes v le = (
  λ e. All-map _ _ votes (λ w h. omega (arith, h, e)) (max_vote_upper votes 0),
  λ h. omega (arith, le, max_vote_least votes 0 v.score (omega arith) h),
)

-- Some vote of the score `top` passes the test.
abbrev pub top_any : (AccessEffect → Bool) → ℕ → List Vote → Bool
top_any test top = any (λ v. v.score == top && test v.effect)

deny_iff : (e : AccessEffect) → (is_deny e ≡ true) ↔ (e ≡ AccessEffect.deny)
deny_iff e = ground arith

allow_iff : (e : AccessEffect) → (is_allow e ≡ true) ↔ (e ≡ AccessEffect.allow)
allow_iff e = ground arith

module _ (test : AccessEffect → Bool) (effect : AccessEffect)
    (decides : (e : AccessEffect) → (test e ≡ true) ↔ (e ≡ effect)) where
  vote_at_max :
      (votes : List Vote) (v : Vote)
      → v.score ≤ max_vote votes 0
      → ((v.score == max_vote votes 0 && test v.effect) ≡ true)
        ↔ ((v.effect ≡ effect) × IsTop votes v)
  vote_at_max votes v le = (
    λ h. ((decides v.effect).0 (ground arith), (IsTop-iff votes v le).0 (ground arith)),
    λ h. ground (arith, (decides v.effect).1 h.0, (IsTop-iff votes v le).1 h.1),
  )

  top_any_iff :
      (votes : List Vote)
      → (top_any test (max_vote votes 0) votes ≡ true)
        ↔ Any (λ v. (v.effect ≡ effect) × IsTop votes v) votes
  top_any_iff votes =
      any_iff _ _ votes (All-map _ _ votes (vote_at_max votes) (max_vote_upper votes 0))

pub top_deny_iff :
    (votes : List Vote) → (top_any is_deny (max_vote votes 0) votes ≡ true) ↔ Denies votes
top_deny_iff = top_any_iff is_deny AccessEffect.deny deny_iff

pub top_allow_iff :
    (votes : List Vote) → (top_any is_allow (max_vote votes 0) votes ≡ true) ↔ Allows votes
top_allow_iff = top_any_iff is_allow AccessEffect.allow allow_iff

-- A deny in front of votes that it does not outvote leaves an allow with them.
pub deny_in_front :
    (v : Vote) (votes : List Vote)
    → v.effect ≡ AccessEffect.deny
    → ¬ Denies (v ∷ votes)
    → Allows (v ∷ votes)
    → (¬ Denies votes) × Allows votes
deny_in_front v votes e no_deny (inl allow) = absurd (cc (e, allow.0))
deny_in_front v votes e no_deny (inr allow) = (
  λ d. no_deny (
      inr (
        Any-map _ _ votes
          (λ w h.
            let (u, pu, le) = Any-All _ _ votes allow h.1 in
            (h.0, (omega (arith, pu.1.0, le), h.1)))
          d)),
  Any-map _ _ votes (λ w h. (h.0, h.1.1)) allow,
)
