-- ===== src/Net/Uri/Splitting.antt =====
-- Splits at the first or the last of a byte, and the directory and the base name of a path.
use bas_cpp.Prelude.{
  split_last, has_byte, IsLastSplit, split_last-IsLastSplit, ◌≡◌, ◌⊎◌, inl, inr, refl, false,
  Option, none, some, [], ◌∷◌, ◌++◌, Bytes, codes,
}
use bas_cpp.Net.Uri.{Uri, derive_dir_base, dir_base_at}

-- The directory and the base name of a path. Without a slash the path is the base name; else the base
-- name is what follows the last slash, and the directory what precedes it, or `/` if that is nothing.
pub IsDirBase : Bytes → Option Bytes → Option Bytes → Type 0
IsDirBase path dir none = ⊥
IsDirBase path none (some base) = (path ≡ base) × (has_byte b'/' path ≡ false)
IsDirBase path (some dir) (some base) =
    (has_byte b'/' base ≡ false)
    × ((path ≡ dir ++ b'/' ∷ base) ⊎ ((dir ≡ codes "/") × (path ≡ dir ++ base)))

dir_base_at-IsDirBase :
    (u : Uri) (path : Bytes) (r : Option (Bytes × Bytes))
    → IsLastSplit b'/' path r
    → IsDirBase path (dir_base_at u path r).dir (dir_base_at u path r).base
unfolding dir_base_at IsDirBase
dir_base_at-IsDirBase u path none h = (refl, h)
dir_base_at-IsDirBase u path (some ([], base)) h = (h.1, inr (refl, h.0))
dir_base_at-IsDirBase u path (some (c ∷ dir, base)) h = (h.1, inl h.0)

-- For every path that is not empty, deriveDirBase splits it at its last slash: the base name has no slash,
-- and the path is the directory, a slash and the base name, where a directory `/` stands for nothing
-- in front of the slash; a path with no slash is all base name.
pub derive_dir_base-IsDirBase :
    (u : Uri) (path : Bytes)
    → IsDirBase path (derive_dir_base u path).dir (derive_dir_base u path).base
unfolding derive_dir_base
derive_dir_base-IsDirBase u path =
    dir_base_at-IsDirBase u path (split_last b'/' path) (split_last-IsLastSplit b'/' path)
