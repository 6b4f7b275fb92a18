-- ===== src/Util/PathHelper/Components.antt =====
-- splitPath and buildPath.
use bas_cpp.Prelude.{
  ℕ, ◌≡◌, ◌≢◌, refl, sym, ap, ◌∙◌, true, false, ◌&&◌, List, [], ◌∷◌, ◌++◌, append-nil, map, arith,
  if◌then◌else◌, ◌==◌, Bool-cases, inl, inr, Bytes, codes, str_eq, str_eq_iff, All,
}
use bas_cpp.Util.PathHelper.{
  unix_byte, to_unix_path, from_root, chop_slash, without_last_slash, single_slashes,
  normalize_path, add_component, components_from, components, split_path, slashed, build_path,
}

-- A byte in front of texts that split alike.
components_from-cons :
    (c : ℕ) (s t : Bytes)
    → components_from s ≡ components_from t
    → components_from (c ∷ s) ≡ components_from (c ∷ t)
unfolding components_from
components_from-cons c s t e =
    ap (λ x. if c == b'/' then ([], add_component x.0 x.1) else (c ∷ x.0, x.1)) e

single_slashes-components : (s : Bytes) → components_from (single_slashes s) ≡ components_from s
unfolding single_slashes
single_slashes-components [] = refl
single_slashes-components (c ∷ []) = refl
single_slashes-components (c ∷ d ∷ s) =
    let ih = single_slashes-components (d ∷ s) in
    elim (Bool-cases ((c == b'/') && (d == b'/'))) [
      | inl e ↦
          let first : (c == b'/') ≡ true = ground (arith, e) in
          let second : (d == b'/') ≡ true = ground (arith, e) in
          rw e (ih ∙ unfold components_from in unfold add_component in rw (first, second) refl)
      | inr e ↦ rw e (components_from-cons c (single_slashes (d ∷ s)) (d ∷ s) ih)
    ]

chop_slash-components : (s : Bytes) → components_from (chop_slash s) ≡ components_from s
unfolding chop_slash
chop_slash-components [] = refl
chop_slash-components (c ∷ []) = elim (Bool-cases (c == b'/')) [
  | inl e ↦ rw e (unfold components_from in unfold add_component in rw e refl)
  | inr e ↦ rw e refl
]
chop_slash-components (c ∷ d ∷ s) =
    components_from-cons c (chop_slash (d ∷ s)) (d ∷ s) (chop_slash-components (d ∷ s))

without_last_slash-components :
    (s : Bytes) → components_from (without_last_slash s) ≡ components_from s
unfolding without_last_slash
without_last_slash-components [] = refl
without_last_slash-components (c ∷ s) =
    components_from-cons c (chop_slash s) s (chop_slash-components s)

components_ext : (s t : Bytes) → components_from s ≡ components_from t → components s ≡ components t
unfolding components
components_ext s t e = ap (λ x. add_component x.0 x.1) e

from_root-components : (s : Bytes) → components (from_root s) ≡ components s
unfolding from_root
from_root-components [] =
    unfold components in unfold components_from in unfold add_component in refl
from_root-components (c ∷ s) = elim (Bool-cases (c == b'/')) [
  | inl e ↦ rw e refl
  | inr e ↦ rw e (unfold components in unfold components_from in unfold add_component in refl)
]

-- splitPath finds the components of the path as it is given, but for its backslashes.
split_path-components : (path : Bytes) → split_path path ≡ components (to_unix_path path)
unfolding split_path normalize_path
split_path-components [] =
    unfold components in
    unfold components_from in unfold add_component in unfold to_unix_path in refl
split_path-components (c ∷ s) =
    let rooted = from_root (to_unix_path (c ∷ s)) in
    let same =
      components_ext (single_slashes (without_last_slash rooted)) rooted (
        single_slashes-components (without_last_slash rooted)
        ∙ without_last_slash-components rooted)
      ∙ from_root-components (to_unix_path (c ∷ s)) in
    at_root (single_slashes (without_last_slash rooted)) same
  where
    at_root :
        (normalized : Bytes)
        → components normalized ≡ components (to_unix_path (c ∷ s))
        → (if str_eq normalized (codes "/") then [] else components normalized)
          ≡ components (to_unix_path (c ∷ s))
    at_root normalized same = elim (Bool-cases (str_eq normalized (codes "/"))) [
      | inl e ↦
          let root = (str_eq_iff normalized (codes "/")).0 e in
          rw e (sym root_empty ∙ ap components (sym root) ∙ same)
      | inr e ↦ rw e same
    ]
      where
        root_empty : components (codes "/") ≡ []
        root_empty = unfold components in unfold components_from in unfold add_component in refl

-- A component: not empty, without slashes of either kind.
abbrev pub IsComponent : Bytes → Type 0
IsComponent name = (name ≢ []) × All (λ c. (c ≢ b'/') × (c ≢ b'\\')) name

components_from-append :
    (name rest : Bytes)
    → All (λ c. (c ≢ b'/') × (c ≢ b'\\')) name
    → components_from (name ++ rest) ≡ (name ++ (components_from rest).0, (components_from rest).1)
unfolding components_from
components_from-append [] rest h = refl
components_from-append (c ∷ name) rest ((no_slash, _), h) =
    let e : (c == b'/') ≡ false = ground (arith, no_slash) in
    rw (e, components_from-append name rest h) refl

add_component-cons :
    (name : Bytes) (rest : List Bytes) → name ≢ [] → add_component name rest ≡ name ∷ rest
unfolding add_component
add_component-cons [] rest h = absurd (h refl)
add_component-cons (c ∷ name) rest h = refl

components_from-nil : components_from [] ≡ ([], [])
unfolding components_from
components_from-nil = refl

components_from-slash :
    (rest : Bytes) (word : Bytes) (words : List Bytes)
    → components_from rest ≡ (word, words)
    → components_from (b'/' ∷ rest) ≡ ([], add_component word words)
unfolding components_from
components_from-slash rest word words e = ap (λ x. ([], add_component x.0 x.1)) e

components_from-slashed :
    (names : List Bytes) → All IsComponent names → components_from (slashed names) ≡ ([], names)
unfolding slashed
components_from-slashed [] h = components_from-nil
components_from-slashed (name ∷ names) ((some_byte, no_slash), h) =
    let tail = components_from-append name (slashed names) no_slash in
    let rest = components_from-slashed names h in
    let all : components_from (name ++ slashed names) ≡ (name, names) =
      rw rest at tail ∙ ap (λ t. (t, names)) (append-nil name) in
    components_from-slash (name ++ slashed names) name names all
    ∙ ap (λ t. ([], t)) (add_component-cons name names some_byte)

unix-append :
    (name rest : Bytes)
    → All (λ c. (c ≢ b'/') × (c ≢ b'\\')) name
    → map unix_byte (name ++ rest) ≡ name ++ map unix_byte rest
unix-append [] rest h = refl
unix-append (c ∷ name) rest ((_, no_backslash), h) =
    let e : unix_byte c ≡ c = unfold unix_byte in ground (arith, no_backslash) in
    rw (e, unix-append name rest h) refl

unix-slashed :
    (names : List Bytes) → All IsComponent names → map unix_byte (slashed names) ≡ slashed names
unfolding slashed
unix-slashed [] h = refl
unix-slashed (name ∷ names) (one, h) =
    let e : unix_byte b'/' ≡ b'/' = unfold unix_byte in refl in
    rw (e, unix-append name (slashed names) one.1, unix-slashed names h) refl

-- splitPath gives back the components that buildPath made a path of, each of them not empty and without a
-- slash or a backslash.
pub split_path-build_path :
    (names : List Bytes) → All IsComponent names → split_path (build_path names) ≡ names
unfolding build_path to_unix_path components add_component components_from unix_byte
split_path-build_path [] h = split_path-components (codes "/")
split_path-build_path (name ∷ names) h =
    let unix = unix-slashed (name ∷ names) h in
    let found = components_from-slashed (name ∷ names) h in
    split_path-components (slashed (name ∷ names))
    ∙ ap components unix
    ∙ ap (λ x. add_component x.0 x.1) found
