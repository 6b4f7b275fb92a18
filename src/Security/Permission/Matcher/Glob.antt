-- ===== src/Security/Permission/Matcher/Glob.antt =====
-- What the matcher of src/bas/security/Permission.cpp decides: `matchTokens` against an inductive
-- relation, and the cases in which a pattern matches.
use bas_cpp.Prelude.{
  ◌≡◌, ◌↔◌, inl, inr, refl, sym, ◌∙◌, ◌||◌, Bool, true, false, List, [], ◌∷◌, arith, Bytes, str_eq,
  str_eq_iff, Bool-cases,
}
use bas_cpp.Security.Permission.Matcher.{any_number, any_one, some_suffix, match_one, match_tokens}

-- The tokens of a pattern against those of a name: `*` stands for one token, `**` for any number of
-- them, any other token for itself.
pub data Matches : List Bytes → List Bytes → Type 0 where
  end : Matches [] []
  same : {ps gs : List Bytes} (p g : Bytes) → p ≡ g → Matches ps gs → Matches (p ∷ ps) (g ∷ gs)
  one : {ps gs : List Bytes} (p g : Bytes) → p ≡ any_one → Matches ps gs → Matches (p ∷ ps) (g ∷ gs)
  stop : {ps gs : List Bytes} (p : Bytes) → p ≡ any_number → Matches ps gs → Matches (p ∷ ps) gs
  skip :
      {ps gs : List Bytes} (p g : Bytes)
      → p ≡ any_number
      → Matches (p ∷ ps) gs
      → Matches (p ∷ ps) (g ∷ gs)

match_many :
    (p : Bytes) (ps gs : List Bytes)
    → str_eq p any_number ≡ true
    → match_tokens (p ∷ ps) gs ≡ some_suffix (match_tokens ps) gs
unfolding match_tokens
match_many p ps gs e = rw e

match_single :
    (p : Bytes) (ps gs : List Bytes)
    → str_eq p any_number ≡ false
    → match_tokens (p ∷ ps) gs ≡ match_one p (match_tokens ps) gs
unfolding match_tokens
match_single p ps gs e = rw e

some_suffix_here :
    (test : List Bytes → Bool) (gs : List Bytes) → test gs ≡ true → some_suffix test gs ≡ true
unfolding some_suffix
some_suffix_here test [] h = h
some_suffix_here test (g ∷ gs) h = rw h

some_suffix_later :
    (test : List Bytes → Bool) (g : Bytes) (gs : List Bytes)
    → some_suffix test gs ≡ true
    → some_suffix test (g ∷ gs) ≡ true
unfolding some_suffix
some_suffix_later test g gs h = ground arith

-- The loop over the suffixes finds a match only where there is one.
some_suffix_sound :
    (p : Bytes) (ps gs : List Bytes)
    → p ≡ any_number
    → ((hs : List Bytes) → match_tokens ps hs ≡ true → Matches ps hs)
    → some_suffix (match_tokens ps) gs ≡ true
    → Matches (p ∷ ps) gs
unfolding some_suffix
some_suffix_sound p ps [] e sound h = stop p e (sound [] h)
some_suffix_sound p ps (g ∷ gs) e sound h = elim (Bool-cases (match_tokens ps (g ∷ gs))) [
  | inl here ↦ stop p e (sound (g ∷ gs) here)
  | inr later ↦ skip p g e (some_suffix_sound p ps gs e sound (ground arith))
]

match_one_sound :
    (p : Bytes) (ps gs : List Bytes)
    → ((hs : List Bytes) → match_tokens ps hs ≡ true → Matches ps hs)
    → match_one p (match_tokens ps) gs ≡ true
    → Matches (p ∷ ps) gs
unfolding match_one
match_one_sound p ps [] sound h = cc
match_one_sound p ps (g ∷ gs) sound h = elim (Bool-cases (str_eq p any_one)) [
  | inl wild ↦ one p g ((str_eq_iff p any_one).0 wild) (sound gs (ground arith))
  | inr plain ↦ same p g ((str_eq_iff p g).0 (ground arith)) (sound gs (ground arith))
]

match_tokens_sound : (ps gs : List Bytes) → match_tokens ps gs ≡ true → Matches ps gs
match_tokens_sound [] [] h = end
match_tokens_sound [] (g ∷ gs) h = absurd (unfold match_tokens in cc h)
match_tokens_sound (p ∷ ps) gs h = elim (Bool-cases (str_eq p any_number)) [
  | inl many ↦
      some_suffix_sound p ps gs ((str_eq_iff p any_number).0 many) (match_tokens_sound ps)
        (sym (match_many p ps gs many) ∙ h)
  | inr single ↦
      match_one_sound p ps gs (match_tokens_sound ps) (sym (match_single p ps gs single) ∙ h)
]

is_number : (p : Bytes) → p ≡ any_number → str_eq p any_number ≡ true
is_number p e = (str_eq_iff p any_number).1 e

-- One more token on both sides, where the pattern's token admits it.
match_tokens_cons :
    (p g : Bytes) (ps gs : List Bytes)
    → (str_eq p any_one || str_eq p g) ≡ true
    → match_tokens ps gs ≡ true
    → match_tokens (p ∷ ps) (g ∷ gs) ≡ true
match_tokens_cons p g ps gs fits h = elim (Bool-cases (str_eq p any_number)) [
  | inl many ↦ match_many p ps (g ∷ gs) many ∙ some_suffix_later _ g gs (some_suffix_here _ gs h)
  | inr single ↦ match_single p ps (g ∷ gs) single ∙ (unfold match_one in ground arith)
]

match_tokens_complete : {ps gs : List Bytes} → Matches ps gs → match_tokens ps gs ≡ true
match_tokens_complete end = unfold match_tokens in refl
match_tokens_complete (same {ps = ps} {gs = gs} p g e m) =
    match_tokens_cons p g ps gs (ground (arith, str_eq_iff p g)) (match_tokens_complete m)
match_tokens_complete (one {ps = ps} {gs = gs} p g e m) =
    match_tokens_cons p g ps gs (ground (arith, str_eq_iff p any_one)) (match_tokens_complete m)
match_tokens_complete (stop {ps = ps} {gs = gs} p e m) =
    match_many p ps gs (is_number p e) ∙ some_suffix_here _ gs (match_tokens_complete m)
match_tokens_complete (skip {ps = ps} {gs = gs} p g e m) =
    match_many p ps (g ∷ gs) (is_number p e)
    ∙ some_suffix_later _ g gs (sym (match_many p ps gs (is_number p e)) ∙ match_tokens_complete m)

-- The matcher of token lists answers true exactly when the pattern matches, by the relation.
pub match_tokens_iff : (ps gs : List Bytes) → (match_tokens ps gs ≡ true) ↔ Matches ps gs
match_tokens_iff ps gs = (match_tokens_sound ps gs, match_tokens_complete)
