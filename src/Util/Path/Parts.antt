-- ===== src/Util/Path/Parts.antt =====
-- The parts of a path make up the path.
use bas_cpp.Prelude.{
  ◌≡◌, refl, sym, ap, ◌∙◌, Option, none, some, [], ◌∷◌, ◌++◌, append_assoc, append-nil, false, true,
  Bytes, split_last, has_byte, IsLastSplit, split_last-IsLastSplit,
}
use bas_cpp.Util.Path.{
  dir_slash_at, base_at, dir_with_slash, base, name_at, dot_extension_at, path_name, dot_extension,
  replace_name, replace_base, replace_dir, replace_extension, with_slash, ends_with_slash, dotted,
}

dir_and_base :
    (path : Bytes) (r : Option (Bytes × Bytes))
    → IsLastSplit b'/' path r
    → (dir_slash_at r ++ base_at path r ≡ path) × (has_byte b'/' (base_at path r) ≡ false)
unfolding dir_slash_at base_at
dir_and_base path none h = (refl, h)
dir_and_base path (some (front, back)) h = (append_assoc front (b'/' ∷ []) back ∙ sym h.0, h.1)

name_and_extension :
    (base : Bytes) (r : Option (Bytes × Bytes))
    → IsLastSplit b'.' base r
    → name_at base r ++ dot_extension_at r ≡ base
unfolding name_at dot_extension_at
name_and_extension base none h = append-nil base
name_and_extension base (some ([], ext)) h = append-nil base
name_and_extension base (some (c ∷ front, ext)) h = sym h.0

ends_with_slash-append : (front : Bytes) → ends_with_slash (front ++ b'/' ∷ []) ≡ true
unfolding ends_with_slash
ends_with_slash-append [] = refl
ends_with_slash-append (c ∷ []) = refl
ends_with_slash-append (c ∷ d ∷ front) = ends_with_slash-append (d ∷ front)

-- The directory with its slash needs no other, and an extension with its dot none.
with_slash-dir_slash_at :
    (r : Option (Bytes × Bytes)) → with_slash (dir_slash_at r) ≡ dir_slash_at r
unfolding with_slash dir_slash_at
with_slash-dir_slash_at none = refl
with_slash-dir_slash_at (some ([], back)) = unfold ends_with_slash in refl
with_slash-dir_slash_at (some (c ∷ front, back)) = rw (ends_with_slash-append (c ∷ front)) refl

dotted-dot_extension_at :
    (r : Option (Bytes × Bytes)) → dotted (dot_extension_at r) ≡ dot_extension_at r
unfolding dotted dot_extension_at
dotted-dot_extension_at none = refl
dotted-dot_extension_at (some ([], ext)) = refl
dotted-dot_extension_at (some (c ∷ front, ext)) = refl

-- Every path is its directory with the slash, its name and its extension with the dot, one after the
-- other; its base name is the last two of these and has no slash in it. The path is the same with its own
-- name or base name put in, or with its directory as dir_() answers it, with the slash, or with its
-- extension as extension(true) answers it, with the dot.
pub parts-IsWhole :
    (path : Bytes)
    → (dir_with_slash path ++ (path_name path ++ dot_extension path) ≡ path)
      × (path_name path ++ dot_extension path ≡ base path)
      × (has_byte b'/' (base path) ≡ false)
      × (replace_name path (path_name path) ≡ path)
      × (replace_base path (base path) ≡ path)
      × (replace_dir path (dir_with_slash path) ≡ path)
      × (replace_extension path (dot_extension path) ≡ path)
unfolding dir_with_slash base path_name dot_extension replace_name replace_base replace_dir
    replace_extension
parts-IsWhole path =
    let slash = split_last b'/' path in
    let (whole, no_slash) = dir_and_base path slash (split_last-IsLastSplit b'/' path) in
    let b = base_at path slash in
    let dot = split_last b'.' b in
    let joined = name_and_extension b dot (split_last-IsLastSplit b'.' b) in
    let d = dir_slash_at slash in
    let all = ap (λ t. d ++ t) joined ∙ whole in
    let named = append_assoc d (name_at b dot) (dot_extension_at dot) ∙ all in
    (
      all,
      joined,
      no_slash,
      named,
      whole,
      rw (with_slash-dir_slash_at slash) whole,
      rw (dotted-dot_extension_at dot) named,
    )
