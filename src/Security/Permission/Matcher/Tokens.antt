-- ===== src/Security/Permission/Matcher/Tokens.antt =====
-- What `splitPermissionTokens` of src/bas/security/Permission.cpp cuts a text into.
use bas_cpp.Prelude.{
  ℕ, ap, ◌∙◌, ◌↔◌, ◌≡◌, ◌≢◌, refl, sym, List, [], ◌∷◌, ◌++◌, append_assoc, append-nil, arith, Bytes,
  All, All-append, if◌then◌else◌, ◌==◌, Bool-cases, inl, inr,
}
use bas_cpp.Security.Permission.Matcher.{tokens_from, split_permission_tokens}

abbrev pub LacksDot : Bytes → Type 0
LacksDot = All (λ c. c ≢ b'.')

-- The tokens with a dot between each two.
pub join_dots : List Bytes → Bytes
join_dots [] = []
join_dots (t ∷ []) = t
join_dots (t ∷ u ∷ ts) = t ++ (b'.' ∷ join_dots (u ∷ ts))

-- The text without the dot that it ends in, if it ends in one.
pub drop_final_dot : Bytes → Bytes
drop_final_dot [] = []
drop_final_dot (c ∷ []) = if c == b'.' then [] else c ∷ []
drop_final_dot (c ∷ d ∷ text) = c ∷ drop_final_dot (d ∷ text)

join_dots-cons :
    (token t : Bytes) (text : Bytes)
    → join_dots (token ∷ tokens_from t text) ≡ token ++ (b'.' ∷ join_dots (tokens_from t text))
unfolding tokens_from join_dots
join_dots-cons token t [] = refl
join_dots-cons token t (c ∷ []) = ground arith
join_dots-cons token t (c ∷ d ∷ text) = elim (Bool-cases (c == b'.')) [
  | inl dot ↦ rw dot
  | inr other ↦ rw other (join_dots-cons token (t ++ c ∷ []) (d ∷ text))
]

join-tokens_from :
    (token text : Bytes) → join_dots (tokens_from token text) ≡ token ++ drop_final_dot text
unfolding tokens_from drop_final_dot
join-tokens_from token [] = unfold join_dots in sym (append-nil token)
join-tokens_from token (c ∷ []) = elim (Bool-cases (c == b'.')) [
  | inl dot ↦ rw dot (unfold join_dots in sym (append-nil token))
  | inr other ↦ rw other (unfold join_dots in refl)
]
join-tokens_from token (c ∷ d ∷ text) = elim (Bool-cases (c == b'.')) [
  | inl dot ↦
      rw (dot, join_dots-cons token [] (d ∷ text), join-tokens_from [] (d ∷ text)) (ground arith)
  | inr other ↦ rw (other, join-tokens_from (token ++ c ∷ []) (d ∷ text), append_assoc)
]

tokens_from-LacksDot : (token text : Bytes) → LacksDot token → All LacksDot (tokens_from token text)
unfolding tokens_from
tokens_from-LacksDot token [] h = (h, tt)
tokens_from-LacksDot token (c ∷ []) h = elim (Bool-cases (c == b'.')) [
  | inl dot ↦ rw dot (h, tt)
  | inr other ↦ rw other (All-append _ token (c ∷ []) h (ground arith, tt), tt)
]
tokens_from-LacksDot token (c ∷ d ∷ text) h = elim (Bool-cases (c == b'.')) [
  | inl dot ↦ rw dot (h, tokens_from-LacksDot [] (d ∷ text) tt)
  | inr other ↦ rw other (
      tokens_from-LacksDot (token ++ c ∷ []) (d ∷ text)
        (All-append _ token (c ∷ []) h (ground arith, tt)))
]

-- The tokens of a text that is not empty: at least one, none with a dot in it, and joined by dots they are
-- the text, less one dot at its end.
pub record AreTokens (text : Bytes) (ts : List Bytes) : Type 0 where
  pub some_token : ts ≢ []
  pub no_dots : All LacksDot ts
  pub joined : join_dots ts ≡ drop_final_dot text

tokens_from-cons : (token text : Bytes) → tokens_from token text ≢ []
unfolding tokens_from
tokens_from-cons token [] e = absurd cc
tokens_from-cons token (c ∷ []) e = ground (arith, e)
tokens_from-cons token (c ∷ d ∷ text) e = elim (Bool-cases (c == b'.')) [
  | inl dot ↦ let f = rw dot at e in absurd cc
  | inr other ↦ let f = rw other at e in tokens_from-cons (token ++ c ∷ []) (d ∷ text) f
]

-- A text is cut at its first dot in one way.
first_dot :
    (t u x y : Bytes)
    → LacksDot t
    → LacksDot u
    → t ++ (b'.' ∷ x) ≡ u ++ (b'.' ∷ y)
    → (t ≡ u) × (x ≡ y)
first_dot [] [] x y h k e = (refl, cc)
first_dot [] (d ∷ u) x y h k e = absurd (k.0 cc)
first_dot (c ∷ t) [] x y h k e = absurd (h.0 cc)
first_dot (c ∷ t) (d ∷ u) x y h k e = let (same, rest) = first_dot t u x y h.1 k.1 cc in (cc, rest)

no_first_dot : (t u y : Bytes) → LacksDot t → t ≡ u ++ (b'.' ∷ y) → ⊥
no_first_dot [] [] y h e = absurd cc
no_first_dot [] (d ∷ u) y h e = absurd cc
no_first_dot (c ∷ t) [] y h e = h.0 cc
no_first_dot (c ∷ t) (d ∷ u) y h e = no_first_dot t u y h.1 cc

join_dots-injective :
    (t u : Bytes) (ts us : List Bytes)
    → All LacksDot (t ∷ ts)
    → All LacksDot (u ∷ us)
    → join_dots (t ∷ ts) ≡ join_dots (u ∷ us)
    → t ∷ ts ≡ u ∷ us
unfolding join_dots
join_dots-injective t u [] [] h k e = ap (λ v. v ∷ []) e
join_dots-injective t u [] (v ∷ us) h k e = absurd (no_first_dot t u (join_dots (v ∷ us)) h.0 e)
join_dots-injective t u (v ∷ ts) [] h k e =
    absurd (no_first_dot u t (join_dots (v ∷ ts)) k.0 (sym e))
join_dots-injective t u (v ∷ ts) (w ∷ us) h k e =
    let (same, rest) = first_dot t u (join_dots (v ∷ ts)) (join_dots (w ∷ us)) h.0 k.0 e in
    let further = join_dots-injective v w ts us h.1 k.1 rest in cc

AreTokens-unique :
    (text : Bytes) (ts us : List Bytes) → AreTokens text ts → AreTokens text us → ts ≡ us
AreTokens-unique text [] us h k = absurd (h.some_token refl)
AreTokens-unique text (t ∷ ts) [] h k = absurd (k.some_token refl)
AreTokens-unique text (t ∷ ts) (u ∷ us) h k =
    join_dots-injective t u ts us h.no_dots k.no_dots (h.joined ∙ sym k.joined)

-- The tokens hold no dot, and joined by dots they give the text back, less one dot at its end.
pub join-split_permission_tokens :
    (text : Bytes)
    → (join_dots (split_permission_tokens text) ≡ drop_final_dot text)
      × All LacksDot (split_permission_tokens text)
unfolding split_permission_tokens
join-split_permission_tokens [] = (unfold join_dots drop_final_dot in refl, tt)
join-split_permission_tokens (c ∷ text) =
    (join-tokens_from [] (c ∷ text), tokens_from-LacksDot [] (c ∷ text) tt)

split_permission_tokens-AreTokens :
    (c : ℕ) (text : Bytes) → AreTokens (c ∷ text) (split_permission_tokens (c ∷ text))
split_permission_tokens-AreTokens c text =
    let (joined, no_dots) = join-split_permission_tokens (c ∷ text) in
    record {
      some_token = unfold split_permission_tokens in tokens_from-cons [] (c ∷ text);
      no_dots = no_dots;
      joined = joined;
    }

-- What splitPermissionTokens answers for a text that is not empty are its tokens, and no others are.
pub split_permission_tokens_iff :
    (c : ℕ) (text : Bytes) (ts : List Bytes)
    → AreTokens (c ∷ text) ts ↔ (ts ≡ split_permission_tokens (c ∷ text))
split_permission_tokens_iff c text ts =
    let it = split_permission_tokens-AreTokens c text in
    (λ h. AreTokens-unique (c ∷ text) ts (split_permission_tokens (c ∷ text)) h it, λ e. rw e it)
