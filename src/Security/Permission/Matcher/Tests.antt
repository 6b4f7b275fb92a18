-- ===== src/Security/Permission/Matcher/Tests.antt =====
-- The matcher of permissions at concrete patterns.
use bas_cpp.Prelude.{◌≡◌, ◌↔◌, ◌⊎◌, refl, true, List, [], ◌∷◌, Bytes, codes}
use bas_cpp.Security.Permission.Matcher.{
  split_permission_tokens, tokens_from, split_path, cut_at_slashes, drop_slash, drop_last_slashes,
  match_tokens, action_matches, permission_matches, specificity,
}
use bas_cpp.Security.Permission.Matcher.Glob.{Matches, match_tokens_iff}
use bas_cpp.Security.Permission.Matcher.Cases.{TokensMatch, action_matches_iff}

tokens : split_permission_tokens (codes "a..b.") ≡ codes "a" ∷ [] ∷ codes "b" ∷ []
unfolding split_permission_tokens tokens_from
tokens = refl

slashes : split_path (codes "/a//b//") ≡ codes "a" ∷ [] ∷ codes "b" ∷ []
unfolding split_path cut_at_slashes drop_slash drop_last_slashes
slashes = refl

double_star :
    match_tokens
      (codes "a" ∷ codes "**" ∷ codes "d" ∷ [])
      (codes "a" ∷ codes "b" ∷ codes "c" ∷ codes "d" ∷ [])
    ≡ true
unfolding match_tokens
double_star = refl

extension :
    permission_matches
      (record { action = codes "file.*"; resource = codes "*.pdf" })
      (record { action = codes "file.read"; resource = codes "/doc/a.pdf" })
    ≡ true
unfolding permission_matches
extension = refl

score : specificity (record { action = codes "file.*.**"; resource = codes "/doc" }) ≡ 31
unfolding specificity
score = refl

abbrev name_tokens : List Bytes
name_tokens = codes "a" ∷ codes "b" ∷ codes "d" ∷ []

abbrev pattern_tokens : List Bytes
pattern_tokens = codes "a" ∷ codes "**" ∷ codes "d" ∷ []

match_tokens_iff_example :
    (match_tokens pattern_tokens name_tokens ≡ true) ↔ Matches pattern_tokens name_tokens
match_tokens_iff_example = match_tokens_iff pattern_tokens name_tokens

action_matches_iff_example : (action_matches (codes "file.*") (codes "file.read") ≡ true) ↔ (
    (codes "file.*" ≡ [])
    ⊎ ((codes "file.read" ≡ []) ⊎ TokensMatch (codes "file.*") (codes "file.read")))
action_matches_iff_example = action_matches_iff (codes "file.*") (codes "file.read")
