-- ===== src/Util/Path/Tests.antt =====
-- Paths.
use bas_cpp.Prelude.{
  ◌≡◌, ◌↔◌, ◌⊎◌, refl, split_last, split_here, false, none, some, [], ◌++◌, codes, has_byte,
}
use bas_cpp.Util.Path.{
  path_compare, before, equal, behind, dir_with_slash, path_name, base, dot_extension, replace_name,
  replace_base, normalize, replace_dir, path_dir, dir_at, with_slash, base_at, replace_extension,
  path_extension, extension_of, dir_slash_at, name_at, dotted,
}
use bas_cpp.Util.Path.Order.{IsBefore, path_compare_iff}
use bas_cpp.Util.Path.Parts.{parts-IsWhole}
use bas_cpp.Util.Path.Normalize.{EndsInDots, normalize_lem}

path_compare_iff_example :
    ((path_compare (codes "a/b") (codes "a-b") ≡ before) ↔ IsBefore (codes "a/b") (codes "a-b"))
    × ((path_compare (codes "a/b") (codes "a-b") ≡ equal) ↔ (codes "a/b" ≡ codes "a-b"))
    × ((path_compare (codes "a/b") (codes "a-b") ≡ behind) ↔ IsBefore (codes "a-b") (codes "a/b"))
    × (IsBefore (codes "a/b") (codes "a-b")
        → IsBefore (codes "a-b") (codes "c")
        → IsBefore (codes "a/b") (codes "c"))
path_compare_iff_example = path_compare_iff (codes "a/b") (codes "a-b") (codes "c")

-- The directory before a first name is the root, and its getter without the slash answers nothing, so
-- that the root is lost where it is put back; so is a dot at the end of a name.
getters_without_separators :
    (replace_dir (codes "/a") (path_dir (codes "/a")) ≡ codes "a")
    × (replace_extension (codes "a.") (path_extension (codes "a.")) ≡ codes "a")
unfolding replace_dir path_dir dir_at with_slash base base_at replace_extension path_extension
    extension_of dir_with_slash dir_slash_at path_name name_at dotted split_last split_here
getters_without_separators = (refl, refl)

-- A path as a file stands before the same path with a slash behind it.
file_before_directory : path_compare (codes "a") (codes "a/") ≡ before
unfolding path_compare
file_before_directory = refl

parts-IsWhole_example :
    (dir_with_slash (codes "/a/b.c.d")
        ++ (path_name (codes "/a/b.c.d") ++ dot_extension (codes "/a/b.c.d"))
      ≡ codes "/a/b.c.d")
    × (path_name (codes "/a/b.c.d") ++ dot_extension (codes "/a/b.c.d") ≡ base (codes "/a/b.c.d"))
    × (has_byte b'/' (base (codes "/a/b.c.d")) ≡ false)
    × (replace_name (codes "/a/b.c.d") (path_name (codes "/a/b.c.d")) ≡ codes "/a/b.c.d")
    × (replace_base (codes "/a/b.c.d") (base (codes "/a/b.c.d")) ≡ codes "/a/b.c.d")
    × (replace_dir (codes "/a/b.c.d") (dir_with_slash (codes "/a/b.c.d")) ≡ codes "/a/b.c.d")
    × (replace_extension (codes "/a/b.c.d") (dot_extension (codes "/a/b.c.d")) ≡ codes "/a/b.c.d")
parts-IsWhole_example = parts-IsWhole (codes "/a/b.c.d")

normalize_lem_example :
    ((normalize 10 (codes "/a/..") ≡ none) ↔ EndsInDots (codes "/a/.."))
    × ((normalize 10 (codes "/a/..") ≡ none) ⊎ (normalize 10 (codes "/a/..") ≡ some []))
normalize_lem_example = normalize_lem (codes "/a/..") 9
