-- ===== src/Util/PathHelper/Tests.antt =====
-- Paths of PathHelper.
use bas_cpp.Prelude.{◌≡◌, refl, [], ◌∷◌, arith, codes}
use bas_cpp.Util.PathHelper.{
  unix_byte, to_unix_path, from_root, chop_slash, without_last_slash, single_slashes,
  normalize_path, split_path, build_path,
}
use bas_cpp.Util.PathHelper.Components.{split_path-build_path}

split_path-build_path_example :
    split_path (build_path (codes "a" ∷ codes "b" ∷ [])) ≡ codes "a" ∷ codes "b" ∷ []
split_path-build_path_example = split_path-build_path (codes "a" ∷ codes "b" ∷ []) (
  ((λ e. cc), ((omega arith, omega arith), tt)),
  (((λ e. cc), ((omega arith, omega arith), tt)), tt),
)

-- Of several slashes at the end one is left.
slash_left : normalize_path (codes "/a//") ≡ codes "/a/"
unfolding normalize_path single_slashes without_last_slash chop_slash from_root to_unix_path
    unix_byte
slash_left = refl
