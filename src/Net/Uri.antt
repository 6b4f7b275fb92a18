-- ===== src/Net/Uri.antt =====
-- src/bas/net/URI.{hpp,cpp}: the parts of a URI, read from a text and put together again.
pub mod Splitting
pub mod Parts
pub mod RoundTrip
pub mod Tests
use bas_cpp.Prelude.{
  split_first, split_last, ℕ, zero, suc, ◌+◌, ◌-◌, ◌*◌, ◌^◌, ◌≡◌, refl, Bool, true, false, not,
  ◌&&◌, ◌||◌, Option, none, some, List, [], ◌∷◌, ◌++◌, if◌then◌else◌, ◌==◌, ltb, leb, is_nil, Bytes,
  codes, is_alpha, is_digit, scan_until, rest_from, any_byte,
}

-- URI. `none` is std::nullopt.
pub record Uri : Type 0 where
  pub scheme : Option Bytes
  pub authority : Option Bytes
  pub user : Option Bytes
  pub password : Option Bytes
  pub host : Option Bytes
  pub port : Option ℕ
  pub path : Option Bytes
  pub dir : Option Bytes
  pub base : Option Bytes
  pub query : Option Bytes
  pub fragment : Option Bytes

-- std::stoi on digits, before the range check.
abbrev decimal : ℕ → Bytes → ℕ
decimal n [] = n
decimal n (d ∷ s) = decimal (n * 10 + (d - b'0')) s

-- std::stoi; out of the range of an `int` it throws, and the port stays unset.
port_of : Bytes → Option ℕ
port_of digits = let n = decimal 0 digits in if ltb n (2 ^ 31) then some n else none

-- hostPort, once its last colon is found.
host_at_colon : Bytes → Option (Bytes × Bytes) → Option Bytes × Option ℕ
host_at_colon host_port (some (c ∷ host, digits)) =
    if not (any_byte (λ d. not (is_digit d)) digits) && not (is_nil digits)
    then (some (c ∷ host), port_of digits)
    else (some host_port, none)
host_at_colon host_port (some ([], digits)) = (some host_port, none)
host_at_colon host_port none = (some host_port, none)

host_and_port : Bytes → Option Bytes × Option ℕ
host_and_port [] = (none, none)
host_and_port (c ∷ s) = host_at_colon (c ∷ s) (split_last b':' (c ∷ s))

set_host : Uri → Bytes → Uri
set_host u host_port =
    let (host, port) = host_and_port host_port in record u { host = host; port = port }

set_user : Uri → Bytes → Option (Bytes × Bytes) → Uri
set_user u user_info (some (user, password)) = record u {
  user = some user;
  password = some password;
}
set_user u user_info none = record u { user = some user_info }

-- parseAuthority, once its last `@` is found.
authority_at : Uri → Bytes → Option (Bytes × Bytes) → Uri
authority_at u auth (some (user_info, host_port)) =
    set_host (set_user u user_info (split_first b':' user_info)) host_port
authority_at u auth none = set_host u auth

-- parseAuthority
pub parse_authority : Uri → Bytes → Uri
parse_authority u [] = u
parse_authority u (c ∷ s) = authority_at u (c ∷ s) (split_last b'@' (c ∷ s))

-- deriveDirBase, once the last slash is found.
pub dir_base_at : Uri → Bytes → Option (Bytes × Bytes) → Uri
dir_base_at u path none = record u { dir = none; base = some path }
dir_base_at u path (some ([], base)) = record u { dir = some (codes "/"); base = some base }
dir_base_at u path (some (c ∷ dir, base)) = record u { dir = some (c ∷ dir); base = some base }

-- URI::deriveDirBase, for a path that is set and not empty.
pub derive_dir_base : Uri → Bytes → Uri
derive_dir_base u path = dir_base_at u path (split_last b'/' path)

abbrev pub no_uri : Uri
no_uri = record {
  scheme = none;
  authority = none;
  user = none;
  password = none;
  host = none;
  port = none;
  path = none;
  dir = none;
  base = none;
  query = none;
  fragment = none;
}

-- ALPHA / DIGIT / "+" / "-" / "."
unfoldable pub is_scheme_char : ℕ → Bool
is_scheme_char c = is_alpha c || is_digit c || c == b'+' || c == b'-' || c == b'.'

abbrev pub is_scheme_end : ℕ → Bool
is_scheme_end c = not (is_scheme_char c)

abbrev pub is_authority_end : ℕ → Bool
is_authority_end c = c == b'/' || c == b'?' || c == b'#'

abbrev pub is_path_end : ℕ → Bool
is_path_end c = c == b'?' || c == b'#'

abbrev pub is_hash : ℕ → Bool
is_hash c = c == b'#'

-- The fragment, and the end.
pub parse_fragment : Uri → Bytes → Uri
parse_fragment u [] = u
parse_fragment u (c ∷ s) = if c == b'#' then record u { fragment = some s } else u

pub parse_query : Uri → Bytes → Uri
parse_query u [] = u
parse_query u (c ∷ s) =
    if c == b'?'
    then parse_fragment (record u { query = some (scan_until is_hash s) }) (rest_from is_hash s)
    else parse_fragment u (c ∷ s)

set_path : Uri → Bytes → Uri
set_path u [] = u
set_path u (c ∷ s) = derive_dir_base (record u { path = some (c ∷ s) }) (c ∷ s)

-- From the path on.
pub parse_path : Uri → Bytes → Uri
parse_path u s = parse_query (set_path u (scan_until is_path_end s)) (rest_from is_path_end s)

set_authority : Uri → Bytes → Uri
set_authority u [] = u
set_authority u (c ∷ s) = parse_authority (record u { authority = some (c ∷ s) }) (c ∷ s)

-- Behind the colon of the scheme.
pub after_scheme : Uri → Bytes → Uri
after_scheme u (c ∷ d ∷ s) =
    if c == b'/' && d == b'/'
    then parse_path (set_authority u (scan_until is_authority_end s)) (rest_from is_authority_end s)
    else parse_path u (c ∷ d ∷ s)
after_scheme u s = parse_path u s

-- trimScheme
pub trim_scheme : Bytes → Bytes
trim_scheme [] = []
trim_scheme (c ∷ s) = if is_alpha c then scan_until is_scheme_end (c ∷ s) else []

-- What follows the scheme `scheme`, if it is one; else all of `s` from the path on.
at_scheme : Bytes → Bytes → Bytes → Uri
at_scheme s [] rest = parse_path no_uri s
at_scheme s (c ∷ scheme) [] = parse_path no_uri s
at_scheme s (c ∷ scheme) (d ∷ rest) =
    if d == b':'
    then after_scheme (record no_uri { scheme = some (c ∷ scheme) }) rest
    else parse_path no_uri s

-- URI::parse
pub parse : Bytes → Uri
parse s = at_scheme s (trim_scheme s) (rest_from is_scheme_end s)

-- `o << mark << *part`, or nothing.
abbrev pub part : Bytes → Option Bytes → Bytes
part mark none = []
part mark (some text) = mark ++ text

abbrev pub scheme_part : Option Bytes → Bytes
scheme_part none = []
scheme_part (some scheme) = scheme ++ codes ":"

-- URI::spec
pub spec : Uri → Bytes
spec u =
    scheme_part u.scheme
    ++ part (codes "//") u.authority
    ++ part [] u.path
    ++ part (codes "?") u.query
    ++ part (codes "#") u.fragment
