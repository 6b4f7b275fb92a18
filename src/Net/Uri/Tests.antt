-- ===== src/Net/Uri/Tests.antt =====
-- URIs read from texts.
use bas_cpp.Prelude.{
  split_first, split_last, split_here, ◌≡◌, refl, some, codes, is_alpha, is_digit,
}
use bas_cpp.Net.Uri.Splitting.{IsDirBase, derive_dir_base-IsDirBase}
use bas_cpp.Net.Uri.RoundTrip.{IsRebuilt, spec-parse-IsRebuilt}
use bas_cpp.Net.Uri.{
  no_uri, parse, spec, at_scheme, trim_scheme, after_scheme, set_authority, parse_authority,
  authority_at, set_user, set_host, host_and_port, host_at_colon, port_of, parse_path, set_path,
  derive_dir_base, dir_base_at, parse_query, parse_fragment, is_scheme_char,
}

parsed : parse (codes "http://me:pw@h.org:8080/a/b.c?x=1#top") ≡ record {
  scheme = some (codes "http");
  authority = some (codes "me:pw@h.org:8080");
  user = some (codes "me");
  password = some (codes "pw");
  host = some (codes "h.org");
  port = some 8080;
  path = some (codes "/a/b.c");
  dir = some (codes "/a");
  base = some (codes "b.c");
  query = some (codes "x=1");
  fragment = some (codes "top");
}
unfolding parse at_scheme trim_scheme after_scheme set_authority parse_authority authority_at
    set_user set_host host_and_port host_at_colon port_of split_first split_last split_here
    parse_path set_path derive_dir_base dir_base_at parse_query parse_fragment is_scheme_char
    is_alpha is_digit
parsed = refl

-- The path `//b` is read back as the authority `b`.
empty_authority : spec (parse (codes "a:////b")) ≡ codes "a://b"
unfolding spec parse at_scheme trim_scheme after_scheme set_authority parse_path set_path
    derive_dir_base dir_base_at split_last split_here parse_query parse_fragment is_scheme_char
    is_alpha is_digit
empty_authority = refl

spec-parse-IsRebuilt_example : IsRebuilt (codes "file:///a?b") (spec (parse (codes "file:///a?b")))
spec-parse-IsRebuilt_example = spec-parse-IsRebuilt (codes "file:///a?b")

derive_dir_base-IsDirBase_example :
    IsDirBase
      (codes "/a/b.c")
      (derive_dir_base no_uri (codes "/a/b.c")).dir
      (derive_dir_base no_uri (codes "/a/b.c")).base
derive_dir_base-IsDirBase_example = derive_dir_base-IsDirBase no_uri (codes "/a/b.c")
