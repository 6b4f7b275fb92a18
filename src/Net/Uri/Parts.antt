-- ===== src/Net/Uri/Parts.antt =====
-- What each part of a URI adds to the text that is put together of it, from the path on.
use bas_cpp.Prelude.{
  split_last, ℕ, ◌≡◌, inl, inr, refl, sym, ap, ◌∙◌, Bool, true, Option, none, some, [], ◌∷◌, ◌++◌,
  append_assoc, append-nil, ◌==◌, ==_iff, Bool-cases, Bytes, scan_until, rest_from,
  scan-append-rest,
}
use bas_cpp.Net.Uri.{
  Uri, spec, parse_path, set_path, derive_dir_base, dir_base_at, parse_query, parse_fragment,
  is_path_end, is_hash,
}

-- The text is empty or begins with a byte of the class.
abbrev pub Begins : (ℕ → Bool) → Bytes → Type 0
Begins p [] = Unit
Begins p (c ∷ s) = p c ≡ true

pub rest_from-Begins : (p : ℕ → Bool) (s : Bytes) → Begins p (rest_from p s)
rest_from-Begins p [] = tt
rest_from-Begins p (c ∷ s) =
    let ih = rest_from-Begins p s in elim (Bool-cases (p c)) [ inl e ↦ rw e e | inr e ↦ rw e ih ]

parse_fragment-spec :
    (u : Uri) (s : Bytes)
    → u.fragment ≡ none
    → Begins is_hash s
    → spec (parse_fragment u s) ≡ spec u ++ s
unfolding parse_fragment spec
parse_fragment-spec u [] h b = sym (append-nil (spec u))
parse_fragment-spec u (c ∷ s) h b =
    let hash : c ≡ b'#' = (==_iff c b'#').0 b in rw (b, h, hash) (simp (append_assoc, append-nil))

query-spec :
    (u : Uri) (text : Bytes)
    → u.query ≡ none
    → u.fragment ≡ none
    → spec (record u { query = some text }) ≡ spec u ++ b'?' ∷ text
unfolding spec
query-spec u text hq hf = rw (hq, hf) (simp (append_assoc, append-nil))

path-spec :
    (u : Uri) (text : Bytes)
    → u.path ≡ none
    → u.query ≡ none
    → u.fragment ≡ none
    → spec (record u { path = some text }) ≡ spec u ++ text
unfolding spec
path-spec u text hp hq hf = rw (hp, hq, hf) (simp (append_assoc, append-nil))

dir_base_case :
    (u : Uri) (path : Bytes) (r : Option (Bytes × Bytes)) → spec (dir_base_at u path r) ≡ spec u
unfolding dir_base_at spec
dir_base_case u path none = refl
dir_base_case u path (some ([], base)) = refl
dir_base_case u path (some (c ∷ dir, base)) = refl

query-dir_base_at :
    (u : Uri) (path : Bytes) (r : Option (Bytes × Bytes)) → (dir_base_at u path r).query ≡ u.query
unfolding dir_base_at
query-dir_base_at u path none = refl
query-dir_base_at u path (some ([], base)) = refl
query-dir_base_at u path (some (c ∷ dir, base)) = refl

fragment-dir_base_at :
    (u : Uri) (path : Bytes) (r : Option (Bytes × Bytes))
    → (dir_base_at u path r).fragment ≡ u.fragment
unfolding dir_base_at
fragment-dir_base_at u path none = refl
fragment-dir_base_at u path (some ([], base)) = refl
fragment-dir_base_at u path (some (c ∷ dir, base)) = refl

parse_query-spec :
    (u : Uri) (s : Bytes)
    → u.query ≡ none
    → u.fragment ≡ none
    → Begins is_path_end s
    → spec (parse_query u s) ≡ spec u ++ s
unfolding parse_query
parse_query-spec u [] hq hf b = sym (append-nil (spec u))
parse_query-spec u (c ∷ s) hq hf b = elim (Bool-cases (c == b'?')) [
  | inl e ↦
      let mark : c ≡ b'?' = (==_iff c b'?').0 e in
      let rest = rest_from is_hash s in
      let text = scan_until is_hash s in
      let whole = scan-append-rest is_hash s in
      rw e (
        parse_fragment-spec (record u { query = some text }) rest hf (rest_from-Begins is_hash s)
        ∙ ap (λ t. t ++ rest) (query-spec u text hq hf)
        ∙ append_assoc (spec u) (b'?' ∷ text) rest
        ∙ rw (whole, mark) refl)
  | inr e ↦ let hash : is_hash c ≡ true = rw e at b in rw e (parse_fragment-spec u (c ∷ s) hf hash)
]

-- What a path adds to the text: the directory and the base name are not part of it.
derive_dir_base-spec : (u : Uri) (path : Bytes) → spec (derive_dir_base u path) ≡ spec u
unfolding derive_dir_base
derive_dir_base-spec u path = dir_base_case u path (split_last b'/' path)

set_path-spec :
    (u : Uri) (path : Bytes)
    → u.path ≡ none
    → u.query ≡ none
    → u.fragment ≡ none
    → spec (set_path u path) ≡ spec u ++ path
unfolding set_path
set_path-spec u [] hp hq hf = sym (append-nil (spec u))
set_path-spec u (c ∷ path) hp hq hf =
    derive_dir_base-spec (record u { path = some (c ∷ path) }) (c ∷ path)
    ∙ path-spec u (c ∷ path) hp hq hf

set_path-query : (u : Uri) (path : Bytes) → (set_path u path).query ≡ u.query
unfolding set_path derive_dir_base
set_path-query u [] = refl
set_path-query u (c ∷ path) =
    query-dir_base_at (record u { path = some (c ∷ path) }) (c ∷ path) (split_last b'/' (c ∷ path))

set_path-fragment : (u : Uri) (path : Bytes) → (set_path u path).fragment ≡ u.fragment
unfolding set_path derive_dir_base
set_path-fragment u [] = refl
set_path-fragment u (c ∷ path) =
    fragment-dir_base_at (record u { path = some (c ∷ path) }) (c ∷ path)
      (split_last b'/' (c ∷ path))

-- A URI that has nothing from the path on.
pub record IsFresh (u : Uri) : Type 0 where
  pub no_path : u.path ≡ none
  pub no_query : u.query ≡ none
  pub no_fragment : u.fragment ≡ none

pub parse_path-spec : (u : Uri) (s : Bytes) → IsFresh u → spec (parse_path u s) ≡ spec u ++ s
unfolding parse_path
parse_path-spec u s h =
    let path = scan_until is_path_end s in
    let rest = rest_from is_path_end s in
    parse_query-spec (set_path u path) rest (set_path-query u path ∙ h.no_query)
      (set_path-fragment u path ∙ h.no_fragment) (rest_from-Begins is_path_end s)
    ∙ ap (λ t. t ++ rest) (set_path-spec u path h.no_path h.no_query h.no_fragment)
    ∙ append_assoc (spec u) path rest
    ∙ ap (λ t. spec u ++ t) (scan-append-rest is_path_end s)
