-- ===== src/Security/Permission/Matcher.antt =====
-- src/bas/security/Permission.cpp: `splitPermissionTokens` and `DefaultPermissionMatcher`.
pub mod Glob
mod Tests
pub mod Tokens
pub mod Cases
use bas_cpp.Prelude.{
  ℕ, zero, suc, ◌+◌, ◌-◌, ◌≡◌, refl, Bool, true, false, not, ◌&&◌, ◌||◌, List, [], ◌∷◌, ◌++◌,
  if◌then◌else◌, ◌==◌, leb, is_nil, length, drop, Bytes, codes, str_eq, any_byte,
}
use bas_cpp.Security.Permission.{Permission}

-- The loop of `splitPermissionTokens`; `token` is the part of the current token that is passed. A
-- dot at the end of the text starts no token.
tokens_from : Bytes → Bytes → List Bytes
tokens_from token [] = token ∷ []
tokens_from token (c ∷ []) = if c == b'.' then token ∷ [] else (token ++ c ∷ []) ∷ []
tokens_from token (c ∷ d ∷ text) =
    let cut = token ∷ tokens_from [] (d ∷ text) in
    let grow = tokens_from (token ++ c ∷ []) (d ∷ text) in if c == b'.' then cut else grow

pub split_permission_tokens : Bytes → List Bytes
split_permission_tokens [] = []
split_permission_tokens (c ∷ text) = tokens_from [] (c ∷ text)

abbrev pub any_number : Bytes
any_number = codes "**"

abbrev pub any_one : Bytes
any_one = codes "*"

-- `for (k = gi; k <= size; ++k)`: some suffix of the tokens passes the test.
pub some_suffix : (List Bytes → Bool) → List Bytes → Bool
some_suffix test [] = test []
some_suffix test (g ∷ gs) = test (g ∷ gs) || some_suffix test gs

-- The last branch of `matchTokens`: one token against one token.
match_one : Bytes → (List Bytes → Bool) → List Bytes → Bool
match_one p rest [] = false
match_one p rest (g ∷ gs) = if str_eq p any_one || str_eq p g then rest gs else false

-- matchTokens; an index into a vector is the list from that index on.
pub match_tokens : List Bytes → List Bytes → Bool
unfolding some_suffix match_one
match_tokens [] gs = is_nil gs
match_tokens (p ∷ ps) gs =
    if str_eq p any_number
    then some_suffix (match_tokens ps) gs
    else match_one p (match_tokens ps) gs

pub action_matches : Bytes → Bytes → Bool
action_matches pattern action =
    if is_nil pattern || is_nil action
    then true
    else match_tokens (split_permission_tokens pattern) (split_permission_tokens action)

drop_slash : Bytes → Bytes
drop_slash [] = []
drop_slash (c ∷ text) = if c == b'/' then text else c ∷ text

drop_last_slashes : Bytes → Bytes
drop_last_slashes [] = []
drop_last_slashes (c ∷ text) =
    let kept = drop_last_slashes text in if c == b'/' && is_nil kept then [] else c ∷ kept

cut_at_slashes : Bytes → Bytes → List Bytes
cut_at_slashes token [] = token ∷ []
cut_at_slashes token (c ∷ text) =
    let cut = token ∷ cut_at_slashes [] text in
    let grow = cut_at_slashes (token ++ c ∷ []) text in if c == b'/' then cut else grow

-- The λ `splitPath` of `resourceMatches`.
pub split_path : Bytes → List Bytes
split_path [] = []
split_path (c ∷ text) = cut_at_slashes [] (drop_last_slashes (drop_slash (c ∷ text)))

is_slash : ℕ → Bool
is_slash c = c == b'/'

is_star : ℕ → Bool
is_star c = c == b'*'

has_double_star : Bytes → Bool
has_double_star [] = false
has_double_star (c ∷ []) = false
has_double_star (c ∷ d ∷ text) = (c == b'*' && d == b'*') || has_double_star (d ∷ text)

-- A pattern `*.ext`.
is_suffix_pattern : Bytes → Bool
is_suffix_pattern [] = false
is_suffix_pattern (c ∷ []) = false
is_suffix_pattern (c ∷ d ∷ text) = c == b'*' && d == b'.'

ends_with : Bytes → Bytes → Bool
ends_with text suffix =
    leb (length suffix) (length text) && str_eq (drop (length text - length suffix) text) suffix

is_path_pattern : Bytes → Bool
is_path_pattern pattern =
    any_byte is_slash pattern || has_double_star pattern || any_byte is_star pattern

pub resource_matches : Bytes → Bytes → Bool
resource_matches pattern resource =
    if is_nil pattern || is_nil resource
    then true
    else if str_eq pattern any_one || str_eq resource any_one
    then true
    else if is_suffix_pattern pattern
    then ends_with resource (drop 1 pattern)
    else if is_path_pattern pattern
    then match_tokens (split_path pattern) (split_path resource)
    else str_eq pattern resource

-- DefaultPermissionMatcher::matches
unfoldable pub permission_matches : Permission → Permission → Bool
unfolding action_matches resource_matches match_tokens split_permission_tokens tokens_from
    split_path cut_at_slashes drop_slash drop_last_slashes is_slash is_star has_double_star
    is_suffix_pattern ends_with is_path_pattern
permission_matches pattern permission =
    action_matches pattern.action permission.action
    && resource_matches pattern.resource permission.resource

token_score : Bytes → ℕ
token_score token = if str_eq token any_number then 0 else if str_eq token any_one then 1 else 10

sum_scores : List Bytes → ℕ → ℕ
sum_scores [] score = score
sum_scores (token ∷ tokens) score = sum_scores tokens (score + token_score token)

-- DefaultPermissionMatcher::specificity; the score is never negative.
unfoldable pub specificity : Permission → ℕ
unfolding token_score sum_scores split_permission_tokens tokens_from
specificity pattern =
    let score =
      if not (is_nil pattern.resource) && not (str_eq pattern.resource any_one) then 20 else 0 in
    if is_nil pattern.action
    then score
    else sum_scores (split_permission_tokens pattern.action) score
