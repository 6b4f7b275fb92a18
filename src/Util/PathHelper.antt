-- ===== src/Util/PathHelper.antt =====
-- src/bas/util/PathHelper.cpp: paths as texts. isSecurePath asks the operating system and is left out.
pub mod Components
pub mod Tests
use bas_cpp.Prelude.{
  ℕ, zero, suc, ◌+◌, ◌-◌, ◌≤◌, ◌≡◌, Bool, true, false, ◌&&◌, ◌||◌, not, Option, none, some, List,
  [], ◌∷◌, ◌++◌, map, if◌then◌else◌, ◌==◌, ltb, leb, is_nil, length, Bytes, codes, str_eq,
  split_last,
}

-- std::replace of backslashes, which is also toUnixPath.
unfoldable pub unix_byte : ℕ → ℕ
unix_byte c = if c == b'\\' then b'/' else c

unfoldable pub to_unix_path : Bytes → Bytes
to_unix_path path = map unix_byte path

unfoldable pub from_root : Bytes → Bytes
from_root [] = b'/' ∷ []
from_root (c ∷ s) = if c == b'/' then c ∷ s else b'/' ∷ c ∷ s

-- `if (normalized.length() > 1 && normalized.back() == '/') normalized.pop_back()`, behind the first byte.
unfoldable pub chop_slash : Bytes → Bytes
chop_slash [] = []
chop_slash (c ∷ []) = if c == b'/' then [] else c ∷ []
chop_slash (c ∷ d ∷ s) = c ∷ chop_slash (d ∷ s)

unfoldable pub without_last_slash : Bytes → Bytes
without_last_slash [] = []
without_last_slash (c ∷ s) = c ∷ chop_slash s

-- The loop that replaces `//` by `/` until there is none.
unfoldable pub single_slashes : Bytes → Bytes
single_slashes [] = []
single_slashes (c ∷ []) = c ∷ []
single_slashes (c ∷ d ∷ s) =
    let rest = single_slashes (d ∷ s) in if (c == b'/') && (d == b'/') then rest else c ∷ rest

-- normalizePath
unfoldable pub normalize_path : Bytes → Bytes
normalize_path path =
    if is_nil path
    then codes "/"
    else single_slashes (without_last_slash (from_root (to_unix_path path)))

-- joinPaths, once neither is empty.
unfoldable pub slash_behind : Bytes → Bytes
slash_behind [] = []
slash_behind (c ∷ []) = if c == b'/' then c ∷ [] else c ∷ b'/' ∷ []
slash_behind (c ∷ d ∷ s) = c ∷ slash_behind (d ∷ s)

unfoldable pub without_first_slash : Bytes → Bytes
without_first_slash [] = []
without_first_slash (c ∷ s) = if c == b'/' then s else c ∷ s

pub join_paths : Bytes → Bytes → Bytes
join_paths base relative =
    if is_nil base
    then normalize_path relative
    else if is_nil relative
    then normalize_path base
    else normalize_path (slash_behind base ++ without_first_slash relative)

parent_at : Option (Bytes × Bytes) → Bytes
parent_at none = []
parent_at (some ([], back)) = codes "/"
parent_at (some (c ∷ front, back)) = c ∷ front

file_at : Bytes → Option (Bytes × Bytes) → Bytes
file_at path none = path
file_at path (some (front, back)) = back

-- getParentPath and getFileName; a normalized path has a slash.
pub get_parent_path : Bytes → Bytes
get_parent_path path =
    let normalized = normalize_path path in
    if str_eq normalized (codes "/") then codes "/" else parent_at (split_last b'/' normalized)

pub get_file_name : Bytes → Bytes
get_file_name path =
    let normalized = normalize_path path in
    if str_eq normalized (codes "/") then [] else file_at normalized (split_last b'/' normalized)

file_extension_at : Option (Bytes × Bytes) → Bytes
file_extension_at none = []
file_extension_at (some ([], ext)) = []
file_extension_at (some (c ∷ front, ext)) = ext

base_name_at : Bytes → Option (Bytes × Bytes) → Bytes
base_name_at file none = file
base_name_at file (some ([], ext)) = file
base_name_at file (some (c ∷ front, ext)) = c ∷ front

-- getFileExtension and getBaseName
pub get_file_extension : Bytes → Bytes
get_file_extension path = file_extension_at (split_last b'.' (get_file_name path))

pub get_base_name : Bytes → Bytes
get_base_name path = base_name_at (get_file_name path) (split_last b'.' (get_file_name path))

-- isAbsolutePath
pub is_absolute_path : Bytes → Bool
is_absolute_path [] = false
is_absolute_path (c ∷ s) = c == b'/'

has_dot_dot : Bytes → Bool
has_dot_dot [] = false
has_dot_dot (c ∷ []) = false
has_dot_dot (c ∷ d ∷ s) = ((c == b'.') && (d == b'.')) || has_dot_dot (d ∷ s)

-- isValidPath; the string of invalid characters is empty, since it is made of the literal "\0".
pub is_valid_path : Bytes → Bool
is_valid_path path = if is_nil path then false else not (has_dot_dot path)

-- The loop of splitPath with std::getline: a component and those behind it, without the empty ones.
unfoldable pub add_component : Bytes → List Bytes → List Bytes
add_component [] components = components
add_component (c ∷ s) components = (c ∷ s) ∷ components

unfoldable pub components_from : Bytes → Bytes × List Bytes
components_from [] = ([], [])
components_from (c ∷ s) =
    let (word, words) = components_from s in
    if c == b'/' then ([], add_component word words) else (c ∷ word, words)

unfoldable pub components : Bytes → List Bytes
components path = let (word, words) = components_from path in add_component word words

-- splitPath
unfoldable pub split_path : Bytes → List Bytes
split_path path =
    let normalized = normalize_path path in
    if str_eq normalized (codes "/") then [] else components normalized

-- buildPath
unfoldable pub slashed : List Bytes → Bytes
slashed [] = []
slashed (c ∷ cs) = b'/' ∷ (c ++ slashed cs)

unfoldable pub build_path : List Bytes → Bytes
build_path [] = codes "/"
build_path (c ∷ cs) = slashed (c ∷ cs)
