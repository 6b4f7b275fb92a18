-- ===== src/Util/Path.antt =====
-- src/bas/util/Path.cpp: a path as a text, with the parts that initCache finds in it. The text has no
-- zero byte.
pub mod Order
pub mod Parts
pub mod Normalize
pub mod Tests
use bas_cpp.Prelude.{
  ℕ, zero, suc, ◌+◌, ◌-◌, ◌*◌, ◌≤◌, ◌≡◌, Bool, true, false, ◌&&◌, ◌||◌, not, Option, none, some,
  List, [], ◌∷◌, ◌++◌, if◌then◌else◌, ◌==◌, ltb, leb, is_nil, length, Bytes, codes, str_eq,
  split_last,
}

-- The answers of pathCompareC: -1, 0 and 1.
pub data Comparison : Type 0 where
  before : Comparison
  equal : Comparison
  behind : Comparison

-- Two bytes that differ.
unfoldable pub compare_bytes : ℕ → ℕ → Comparison
compare_bytes a b =
    if a == b'/' then before else if b == b'/' then behind else if ltb a b then before else behind

-- pathCompareC, which is Path::compare.
unfoldable pub path_compare : Bytes → Bytes → Comparison
path_compare [] [] = equal
path_compare [] (b ∷ t) = before
path_compare (a ∷ s) [] = behind
path_compare (a ∷ s) (b ∷ t) =
    let rest = path_compare s t in if a == b then rest else compare_bytes a b

-- isAbsolute
unfoldable pub is_absolute : Bytes → Bool
is_absolute [] = false
is_absolute (c ∷ s) = c == b'/'

unfoldable pub ends_with_slash : Bytes → Bool
ends_with_slash [] = false
ends_with_slash (c ∷ []) = c == b'/'
ends_with_slash (c ∷ d ∷ s) = ends_with_slash (d ∷ s)

-- `if (!dir.empty() && dir.back() != '/') dir.append("/")`
unfoldable pub with_slash : Bytes → Bytes
with_slash [] = []
with_slash (c ∷ s) = if ends_with_slash (c ∷ s) then c ∷ s else (c ∷ s) ++ b'/' ∷ []

-- path_join, which is the constructor of a directory and a tail.
pub path_join : Bytes → Bytes → Bytes
path_join dir tail = if is_absolute tail then tail else with_slash dir ++ tail

-- The directory, the directory with its slash and the rest, at the last slash.
dir_at : Option (Bytes × Bytes) → Bytes
dir_at none = []
dir_at (some (front, back)) = front

dir_slash_at : Option (Bytes × Bytes) → Bytes
dir_slash_at none = []
dir_slash_at (some (front, back)) = front ++ b'/' ∷ []

base_at : Bytes → Option (Bytes × Bytes) → Bytes
base_at path none = path
base_at path (some (front, back)) = back

-- dir(), dir_() and base().
pub path_dir : Bytes → Bytes
path_dir path = dir_at (split_last b'/' path)

pub dir_with_slash : Bytes → Bytes
dir_with_slash path = dir_slash_at (split_last b'/' path)

pub base : Bytes → Bytes
base path = base_at path (split_last b'/' path)

-- The name and the extension of a base name, at the last dot that is not its first byte.
name_at : Bytes → Option (Bytes × Bytes) → Bytes
name_at base none = base
name_at base (some ([], ext)) = base
name_at base (some (c ∷ name, ext)) = c ∷ name

extension_of : Option (Bytes × Bytes) → Bytes
extension_of none = []
extension_of (some ([], ext)) = []
extension_of (some (c ∷ name, ext)) = ext

dot_extension_at : Option (Bytes × Bytes) → Bytes
dot_extension_at none = []
dot_extension_at (some ([], ext)) = []
dot_extension_at (some (c ∷ name, ext)) = b'.' ∷ ext

-- name(), extension(false) and extension(true).
pub path_name : Bytes → Bytes
path_name path = name_at (base path) (split_last b'.' (base path))

pub path_extension : Bytes → Bytes
path_extension path = extension_of (split_last b'.' (base path))

pub dot_extension : Bytes → Bytes
dot_extension path = dot_extension_at (split_last b'.' (base path))

-- The setters, each a new path.
pub replace_dir : Bytes → Bytes → Bytes
replace_dir path new_dir = with_slash new_dir ++ base path

pub replace_base : Bytes → Bytes → Bytes
replace_base path new_base = dir_with_slash path ++ new_base

pub replace_name : Bytes → Bytes → Bytes
replace_name path new_name = (dir_with_slash path ++ new_name) ++ dot_extension path

dotted : Bytes → Bytes
dotted [] = []
dotted (c ∷ ext) = if c == b'.' then c ∷ ext else b'.' ∷ c ∷ ext

pub replace_extension : Bytes → Bytes → Bytes
replace_extension path new_extension =
    (dir_with_slash path ++ path_name path) ++ dotted new_extension

-- toAbsolute, toRelative, toDir, toFile, getParent
pub to_absolute : Bytes → Bytes
to_absolute path = if is_absolute path then path else b'/' ∷ path

pub to_relative : Bytes → Bytes
to_relative [] = []
to_relative (c ∷ []) = c ∷ []
to_relative (c ∷ d ∷ s) = if c == b'/' then d ∷ s else c ∷ d ∷ s

pub to_dir : Bytes → Bytes
to_dir path = if ends_with_slash path then path else path ++ b'/' ∷ []

without_last : Bytes → Bytes
without_last [] = []
without_last (c ∷ []) = []
without_last (c ∷ d ∷ s) = c ∷ without_last (d ∷ s)

pub to_file : Bytes → Bytes
to_file path = if ltb 1 (length path) && ends_with_slash path then without_last path else path

pub get_parent : Bytes → Bytes
get_parent path = path_dir path

-- join, for a path that is not empty, and href.
pub join : Bytes → Bytes → Bytes
join path other = if is_absolute other then other else to_dir path ++ other

pub href : Bytes → Bytes → Bytes
href path other = if is_absolute other then other else dir_with_slash path ++ other

-- The token that a round of normalize looks at: from the end back to the last slash, its dots and its
-- other bytes counted.
pub record Token : Type 0 where
  pub slash : Bool
  pub dots : ℕ
  pub others : ℕ

unfoldable pub count_byte : ℕ → Token → Token
count_byte c t =
    if c == b'.' then record t { dots = t.dots + 1 } else record t { others = t.others + 1 }

-- The scan back, as a scan forward: a slash starts the token anew.
unfoldable pub token_from : Token → Bytes → Token
token_from t [] = t
token_from t (c ∷ s) =
    if c == b'/'
    then token_from (record { slash = true; dots = 0; others = 0 }) s
    else token_from (count_byte c t) s

abbrev pub last_token : Bytes → Token
last_token path = token_from (record { slash = false; dots = 0; others = 0 }) path

-- The loop of normalize, on fuel: how many `..` are pending and the buffer when it is left. No branch
-- changes `end`, so each round looks at the same token; the code behind the branches is not reached.
unfoldable pub normalize_loop : ℕ → Token → ℕ → Bytes → Option (ℕ × Bytes)
normalize_loop zero t parent buf = none
normalize_loop (suc fuel) t parent buf =
    let skip = normalize_loop fuel t parent buf in
    let up = normalize_loop fuel t (parent + 1) buf in
    let down = normalize_loop fuel t (parent - 1) buf in
    let down_dot = normalize_loop fuel t (parent - 1) (buf ++ b'.' ∷ []) in
    if (t.others == 0) && t.slash && (t.dots == 1)
    then skip
    else if (t.others == 0) && t.slash && (t.dots == 2)
    then up
    else if parent == 0
    then some (parent, buf)
    else if t.slash
    then down
    else down_dot

-- The loop that drops `/.` at the end of the buffer, which is written backward.
unfoldable pub drop_dots : ℕ → Bytes → Bytes
drop_dots zero buf = buf
drop_dots (suc fuel) [] = []
drop_dots (suc fuel) (c ∷ []) = c ∷ []
drop_dots (suc fuel) (c ∷ d ∷ s) =
    let shorter = drop_dots fuel s in if (c == b'.') && (d == b'/') then shorter else c ∷ d ∷ s

unfoldable pub parents : ℕ → Bytes → Bytes
parents zero buf = buf
parents (suc n) buf = parents n (b'.' ∷ b'.' ∷ b'/' ∷ buf)

unfoldable pub reversed : Bytes → Bytes → Bytes
reversed out [] = out
reversed out (c ∷ s) = reversed (c ∷ out) s

-- What normalize makes of the buffer; `buf` here begins with the byte that was written last.
unfoldable pub finish_path : Bytes → ℕ × Bytes → Bytes
finish_path path (parent, buf) =
    let out = parents parent (drop_dots (length buf) (reversed [] buf)) in
    if length out == length path then path else out

unfoldable pub normalized_at : Bytes → Option (ℕ × Bytes) → Option Bytes
normalized_at path none = none
normalized_at path (some x) = some (finish_path path x)

-- normalize, on fuel; `none` means that it has not returned.
unfoldable pub normalize : ℕ → Bytes → Option Bytes
normalize fuel path =
    if is_nil path then some [] else normalized_at path (normalize_loop fuel (last_token path) 0 [])
