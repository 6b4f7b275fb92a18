-- ===== src/Security/Permission/Tests.antt =====
-- The parser and the printer of permissions at concrete texts.
use bas_cpp.Prelude.{◌≡◌, refl, some, codes, is_space}
use bas_cpp.Security.Permission.{
  Permission, parse, to_string, quote_value, needs_quotes, needs_quoting, escape,
}
use bas_cpp.Security.Permission.Parse.{parse_total}
use bas_cpp.Security.Permission.RoundTrip.{parse-to_string}

parse_keyed :
    parse (codes " action=read ; resource=\"a;\\\"b\" ;x;")
    ≡ some (record { action = codes "read"; resource = codes "a;\"b" })
unfolding parse is_space
parse_keyed = refl

parse_shorthand :
    parse (codes "read:/tmp") ≡ some (record { action = codes "read"; resource = codes "/tmp" })
unfolding parse is_space
parse_shorthand = refl

abbrev odd_permission : Permission
odd_permission = record { action = codes "read"; resource = codes "a;\"b\\ c" }

printed : to_string odd_permission ≡ codes "action=read;resource=\"a;\\\"b\\\\ c\""
unfolding to_string quote_value needs_quotes needs_quoting escape is_space
printed = refl

parse_total_example : (r : Permission) × (parse (codes ";;=;x") ≡ some r)
parse_total_example = parse_total (codes ";;=;x")

parse-to_string_example : parse (to_string odd_permission) ≡ some odd_permission
parse-to_string_example = parse-to_string odd_permission
