-- ===== src/Net/Uri/RoundTrip.antt =====
-- A URI read from a text and put together again.
use bas_cpp.Prelude.{
  split_first, split_last, ℕ, ◌≡◌, ◌⊎◌, inl, inr, refl, sym, ap, subst, ◌∙◌, ◌&&◌, Option, none,
  some, [], ◌∷◌, ◌++◌, append_assoc, append-nil, arith, ◌==◌, ==_iff, Bool-cases, Bytes, codes,
  is_alpha, scan_until, rest_from, scan-append-rest,
}
use bas_cpp.Net.Uri.{
  Uri, parse, spec, at_scheme, trim_scheme, after_scheme, set_authority, parse_authority,
  authority_at, set_user, set_host, parse_path, is_authority_end, is_scheme_end, no_uri,
}
use bas_cpp.Net.Uri.Parts.{Begins, rest_from-Begins, IsFresh, parse_path-spec}

-- The fields that the text is put together of are the same.
record SameText (u v : Uri) : Type 0 where
  same_scheme : u.scheme ≡ v.scheme
  same_authority : u.authority ≡ v.authority
  same_path : u.path ≡ v.path
  same_query : u.query ≡ v.query
  same_fragment : u.fragment ≡ v.fragment

spec-SameText : (u v : Uri) → SameText u v → spec u ≡ spec v
unfolding spec
spec-SameText u v h =
    rw (h.same_scheme, h.same_authority, h.same_path, h.same_query, h.same_fragment) refl

set_host-SameText : (u : Uri) (host_port : Bytes) → SameText (set_host u host_port) u
unfolding set_host
set_host-SameText u host_port = record {
  same_scheme = refl;
  same_authority = refl;
  same_path = refl;
  same_query = refl;
  same_fragment = refl;
}

set_user-SameText :
    (u : Uri) (host_port user_info : Bytes) (r : Option (Bytes × Bytes))
    → SameText (set_host (set_user u user_info r) host_port) u
unfolding set_user set_host
set_user-SameText u host_port user_info none = record {
  same_scheme = refl;
  same_authority = refl;
  same_path = refl;
  same_query = refl;
  same_fragment = refl;
}
set_user-SameText u host_port user_info (some (user, password)) = record {
  same_scheme = refl;
  same_authority = refl;
  same_path = refl;
  same_query = refl;
  same_fragment = refl;
}

authority_at-SameText :
    (u : Uri) (auth : Bytes) (r : Option (Bytes × Bytes)) → SameText (authority_at u auth r) u
unfolding authority_at
authority_at-SameText u auth none = set_host-SameText u auth
authority_at-SameText u auth (some (user_info, host_port)) =
    set_user-SameText u host_port user_info (split_first b':' user_info)

parse_authority-SameText : (u : Uri) (c : ℕ) (s : Bytes) → SameText (parse_authority u (c ∷ s)) u
unfolding parse_authority
parse_authority-SameText u c s = authority_at-SameText u (c ∷ s) (split_last b'@' (c ∷ s))

authority-spec :
    (u : Uri) (text : Bytes)
    → IsFresh u
    → u.authority ≡ none
    → spec (record u { authority = some text }) ≡ spec u ++ (codes "//" ++ text)
unfolding spec
authority-spec u text h ha =
    rw (ha, h.no_path, h.no_query, h.no_fragment) (simp (append_assoc, append-nil))

set_authority-spec :
    (u : Uri) (c : ℕ) (s rest : Bytes)
    → IsFresh u
    → u.authority ≡ none
    → spec (parse_path (set_authority u (c ∷ s)) rest) ≡ spec u ++ (codes "//" ++ ((c ∷ s) ++ rest))
unfolding set_authority
set_authority-spec u c s rest h ha =
    let v = record u { authority = some (c ∷ s) } in
    let w = parse_authority v (c ∷ s) in
    let same = parse_authority-SameText v c s in
    let fresh : IsFresh w = record {
      no_path = same.same_path ∙ h.no_path;
      no_query = same.same_query ∙ h.no_query;
      no_fragment = same.same_fragment ∙ h.no_fragment;
    } in
    parse_path-spec w rest fresh
    ∙ ap (λ t. t ++ rest) (spec-SameText w v same ∙ authority-spec u (c ∷ s) h ha)
    ∙ append_assoc (spec u) (codes "//" ++ c ∷ s) rest

-- What became of the text `rest` behind `front`: it is all there, or it began with the slashes of an
-- empty authority and is there without them.
abbrev KeptBehind : Bytes → Bytes → Bytes → Type 0
KeptBehind front rest out =
    (out ≡ front ++ rest)
    ⊎ ((tail : Bytes) × (rest ≡ codes "//" ++ tail)
        × Begins is_authority_end tail
        × (out ≡ front ++ tail))

authority_case :
    (u : Uri) (auth rest : Bytes)
    → IsFresh u
    → u.authority ≡ none
    → Begins is_authority_end rest
    → KeptBehind
        (spec u)
        (codes "//" ++ (auth ++ rest))
        (spec (parse_path (set_authority u auth) rest))
authority_case u [] rest h ha b =
    unfold set_authority in inr (rest, refl, b, parse_path-spec u rest h)
authority_case u (c ∷ s) rest h ha b = inl (set_authority-spec u c s rest h ha)

after_scheme-KeptBehind :
    (u : Uri) (rest : Bytes)
    → IsFresh u
    → u.authority ≡ none
    → KeptBehind (spec u) rest (spec (after_scheme u rest))
unfolding after_scheme
after_scheme-KeptBehind u [] h ha = inl (parse_path-spec u [] h)
after_scheme-KeptBehind u (c ∷ []) h ha = inl (parse_path-spec u (c ∷ []) h)
after_scheme-KeptBehind u (c ∷ d ∷ s) h ha = elim (Bool-cases (c == b'/' && d == b'/')) [
  | inr e ↦ rw e (inl (parse_path-spec u (c ∷ d ∷ s) h))
  | inl e ↦
      let slashes : (c ≡ b'/') × (d ≡ b'/') = (ground arith, ground arith) in
      rw (e, slashes.0, slashes.1)
        (subst
          (λ t. KeptBehind (spec u) (codes "//" ++ t) (
            spec (
              parse_path (set_authority u (scan_until is_authority_end s))
                (rest_from is_authority_end s))))
          (scan-append-rest is_authority_end s)
          (authority_case u (scan_until is_authority_end s) (rest_from is_authority_end s) h ha
            (rest_from-Begins is_authority_end s)))
]

no_uri-IsFresh : IsFresh no_uri
no_uri-IsFresh = record { no_path = refl; no_query = refl; no_fragment = refl }

-- The text of the URI that was read from `s`: `s` itself, or `s` without the `//` behind the colon of its
-- scheme.
pub IsRebuilt : Bytes → Bytes → Type 0
IsRebuilt s out =
    (out ≡ s)
    ⊎ ((scheme : Bytes) × (tail : Bytes) × (s ≡ scheme ++ (codes "://" ++ tail))
        × Begins is_authority_end tail
        × (out ≡ scheme ++ (codes ":" ++ tail)))

path_only : (s : Bytes) → IsRebuilt s (spec (parse_path no_uri s))
unfolding IsRebuilt spec
path_only s = inl (parse_path-spec no_uri s no_uri-IsFresh)

spec-scheme : (scheme : Bytes) → spec (record no_uri { scheme = some scheme }) ≡ scheme ++ codes ":"
unfolding spec
spec-scheme scheme = simp (append-nil)

IsRebuilt-behind :
    (scheme rest out : Bytes)
    → KeptBehind (scheme ++ codes ":") rest out
    → IsRebuilt (scheme ++ b':' ∷ rest) out
unfolding IsRebuilt
IsRebuilt-behind scheme rest out (inl h) = inl (h ∙ append_assoc scheme (codes ":") rest)
IsRebuilt-behind scheme rest out (inr (tail, behind, begins, h)) = inr (
  scheme,
  tail,
  ap (λ t. scheme ++ b':' ∷ t) behind,
  begins,
  h ∙ append_assoc scheme (codes ":") tail,
)

at_scheme-IsRebuilt :
    (s scheme rest : Bytes) → s ≡ scheme ++ rest → IsRebuilt s (spec (at_scheme s scheme rest))
unfolding at_scheme
at_scheme-IsRebuilt s [] rest h = path_only s
at_scheme-IsRebuilt s (c ∷ scheme) [] h = path_only s
at_scheme-IsRebuilt s (c ∷ scheme) (d ∷ rest) h = elim (Bool-cases (d == b':')) [
  | inr e ↦ rw e (path_only s)
  | inl e ↦
      let colon : d ≡ b':' = (==_iff d b':').0 e in
      let u = record no_uri { scheme = some (c ∷ scheme) } in
      let fresh : IsFresh u = record { no_path = refl; no_query = refl; no_fragment = refl } in
      let kept = after_scheme-KeptBehind u rest fresh refl in
      let out = spec (after_scheme u rest) in
      rw e (
        subst (λ t. IsRebuilt t out) (sym (h ∙ ap (λ x. (c ∷ scheme) ++ x ∷ rest) colon))
          (IsRebuilt-behind (c ∷ scheme) rest out
            (subst (λ front. KeptBehind front rest out) (spec-scheme (c ∷ scheme)) kept)))
]

-- No scheme, or what precedes the first byte that cannot be in one.
scheme_split : (s : Bytes) → (trim_scheme s ≡ []) ⊎ (s ≡ trim_scheme s ++ rest_from is_scheme_end s)
unfolding trim_scheme
scheme_split [] = inl refl
scheme_split (c ∷ s) = elim (Bool-cases (is_alpha c)) [
  | inl e ↦ rw e (inr (sym (scan-append-rest is_scheme_end (c ∷ s))))
  | inr e ↦ rw e (inl refl)
]

no_scheme-IsRebuilt : (s rest : Bytes) → IsRebuilt s (spec (at_scheme s [] rest))
unfolding at_scheme
no_scheme-IsRebuilt s rest = path_only s

-- For every text, the URI read from it is put together again as that text, or as the text without the
-- `//` behind the colon of its scheme, which happens only where the authority between `//` and the next
-- `/`, `?`, `#` or the end is empty.
pub spec-parse-IsRebuilt : (s : Bytes) → IsRebuilt s (spec (parse s))
unfolding parse
spec-parse-IsRebuilt s = elim (scheme_split s) [
  | inl none_there ↦ rw none_there (no_scheme-IsRebuilt s (rest_from is_scheme_end s))
  | inr whole ↦ at_scheme-IsRebuilt s (trim_scheme s) (rest_from is_scheme_end s) whole
]
