-- ===== src/Security/Permission.antt =====
-- src/bas/security/Permission.{hpp,cpp}: the permission record, its text form and its parser. The
-- matcher is the child `Matcher`; the other children hold the proofs.
pub mod Parse
mod Tests
mod Values
pub mod RoundTrip
pub mod Matcher
use bas_cpp.Prelude.{
  ℕ, zero, suc, ◌≡◌, refl, Bool, true, false, not, ◌&&◌, ◌||◌, Option, none, some, List, [], ◌∷◌,
  ◌++◌, if◌then◌else◌, ◌==◌, is_nil, length, Bytes, codes, str_eq, is_space, scan_until, rest_from,
  any_byte,
}

-- An empty field means "all".
pub record Permission : Type 0 where
  pub action : Bytes
  pub resource : Bytes

abbrev pub all_permission : Permission
all_permission = record { action = []; resource = [] }

-- Permission::empty
abbrev pub is_empty : Permission → Bool
is_empty p = is_nil p.action && is_nil p.resource

-- The bytes that make `needsQuotes` answer true.
needs_quoting : ℕ → Bool
needs_quoting ch = ch == b';' || ch == b'=' || ch == b'"' || ch == b'\'' || is_space ch

needs_quotes : Bytes → Bool
needs_quotes [] = false
needs_quotes (ch ∷ value) = needs_quoting ch || needs_quotes value

-- The loop of `quoteValue`.
pub escape : Bytes → Bytes
escape [] = []
escape (ch ∷ value) =
    let out = escape value in if ch == b'"' || ch == b'\\' then b'\\' ∷ ch ∷ out else ch ∷ out

pub quote_value : Bytes → Bytes
quote_value value = if needs_quotes value then b'"' ∷ (escape value ++ b'"' ∷ []) else value

-- Permission::toString
pub to_string : Permission → Bytes
to_string p =
    if is_empty p
    then []
    else let out = if is_nil p.action then [] else codes "action=" ++ quote_value p.action in
      if is_nil p.resource
      then out
      else (if is_nil out then [] else out ++ b';' ∷ [])
        ++ (codes "resource=" ++ quote_value p.resource)

abbrev prepend : ℕ → Bytes × Bytes → Bytes × Bytes
prepend c (value, rest) = (c ∷ value, rest)

-- The loop of `parseValue` over a quoted value, `quote` being the opening byte. It returns the value
-- and what is left of the text.
pub read_quoted : ℕ → Bytes → Bytes × Bytes
read_quoted quote [] = ([], [])
read_quoted quote (c ∷ []) = if c == quote then ([], []) else (c ∷ [], [])
read_quoted quote (c ∷ d ∷ text) =
    let escaped = prepend d (read_quoted quote text) in
    let plain = prepend c (read_quoted quote (d ∷ text)) in
    if c == b'\\' then escaped else if c == quote then ([], d ∷ text) else plain

-- Drops the spaces at the end: `while (!s.empty() && isspace(s.back())) s.remove_suffix(1)`.
pub trim_right : Bytes → Bytes
trim_right [] = []
trim_right (c ∷ text) =
    let kept = trim_right text in if is_space c && is_nil kept then [] else c ∷ kept

is_visible : ℕ → Bool
is_visible c = not (is_space c)

is_semicolon : ℕ → Bool
is_semicolon c = c == b';'

is_quote : ℕ → Bool
is_quote c = c == b'"' || c == b'\''

value_at : Bytes → Bytes × Bytes
value_at [] = ([], [])
value_at (c ∷ text) =
    if is_quote c
    then read_quoted c text
    else (trim_right (scan_until is_semicolon (c ∷ text)), rest_from is_semicolon (c ∷ text))

-- parseValue: the value that stands at the start of the text, and the text behind it.
pub parse_value : Bytes → Bytes × Bytes
parse_value text = value_at (rest_from is_visible text)

-- What a key may not be preceded by, and where it ends.
is_key_start : ℕ → Bool
is_key_start c = not (c == b';' || is_space c)

is_key_end : ℕ → Bool
is_key_end c = c == b'=' || c == b';'

assign : Bytes → Bytes → Permission → Permission
assign key value p =
    if str_eq key (codes "action")
    then record p { action = value }
    else if str_eq key (codes "resource")
    then record p { resource = value }
    else p

-- The part of the loop body that follows the key: `text` is what the key's scan has left.
after_key : Bytes → Bytes → Permission → Bytes × Permission
after_key key [] p = ([], p)
after_key key (c ∷ text) p =
    if c == b'='
    then (let (value, rest) = parse_value text in (rest, assign (trim_right key) value p))
    else (rest_from is_semicolon (c ∷ text), p)

-- One round of the loop of `parse` over a keyed text.
segment : Bytes → Permission → Bytes × Permission
segment text p =
    let from_key = rest_from is_key_start text in
    after_key (scan_until is_key_end from_key) (rest_from is_key_end from_key) p

-- `while (i < text.size())`, with fuel; `none` means that the fuel ran out.
segments : ℕ → Bytes → Permission → Option Permission
segments zero text p = none
segments (suc fuel) [] p = some p
segments (suc fuel) (c ∷ text) p = let (rest, p') = segment (c ∷ text) p in segments fuel rest p'

is_colon : ℕ → Bool
is_colon c = c == b':'

split_shorthand : Bytes → Bytes → Bytes → Permission
split_shorthand text before [] = record { action = text; resource = [] }
split_shorthand text before (c ∷ after) =
    if is_nil before
    then record { action = text; resource = [] }
    else record { action = before; resource = after }

-- The legacy form "action" or "action:resource".
shorthand : Bytes → Permission
shorthand text = split_shorthand text (scan_until is_colon text) (rest_from is_colon text)

trim : Bytes → Bytes
trim text = trim_right (rest_from is_visible text)

is_equals : ℕ → Bool
is_equals c = c == b'='

parse_trimmed : Bytes → Option Permission
parse_trimmed text =
    if is_nil text
    then some all_permission
    else if any_byte is_equals text
    then segments (suc (length text)) text all_permission
    else some (shorthand text)

-- Permission::parse
pub parse : Bytes → Option Permission
unfolding trim parse_trimmed segments segment after_key assign parse_value value_at read_quoted
    trim_right shorthand split_shorthand is_visible is_semicolon is_quote is_key_start is_key_end
    is_colon is_equals
parse text = parse_trimmed (trim text)
