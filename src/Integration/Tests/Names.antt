-- ===== src/Integration/Tests/Names.antt =====
-- User names and filters.
use rustdesk_server_nemo.Base.{
  ◌≡◌, refl, false, some, ◌∷◌, ◌++◌, any, length, Str, codes, trim, is_whitespace, has_char,
  split_once, strip_prefix,
}
use rustdesk_server_nemo.Integration.Names.{
  backslash, raw_username, escape_char, escape_filter, replace_from, build_search_filter, dn,
  parse_authzid, auth_principal,
}
use rustdesk_server_nemo.Integration.Names.Filter.{structure, structure-build_search_filter}
use rustdesk_server_nemo.Integration.Names.Decode.{decode_from, decode-escape_filter}
use rustdesk_server_nemo.Integration.Names.Spellings.{raw_username_spellings}

-- `\` is one character of a literal's two.
backslash_literal : codes "\\5c" ≡ backslash ∷ codes "5c"
backslash_literal = refl

abbrev template : Str
template = codes "(|(uid={username})(mail={upn}))"

filter_run :
    build_search_filter template (codes "a*)(b") (codes "x.org")
    ≡ codes "(|(uid=a\\2a\\29\\28b)(mail=a\\2a\\29\\28b@x.org))"
unfolding build_search_filter replace_from strip_prefix escape_filter escape_char raw_username trim
    is_whitespace split_once length
filter_run = refl

structure-build_search_filter_example :
    structure (build_search_filter template (codes "a*)(b") (codes "x.org")) ≡ structure template
structure-build_search_filter_example =
    structure-build_search_filter template (codes "a*)(b") (codes "x.org")

decode-escape_filter_example : decode_from 0 (escape_filter (codes "a*b")) ≡ codes "a*b"
decode-escape_filter_example = decode-escape_filter (codes "a*b")

-- Of a name with both separators the part behind the backslash is left as it is.
mixed_spelling : raw_username (codes "lab\\ann@x.org") ≡ codes "ann@x.org"
unfolding raw_username trim is_whitespace split_once
mixed_spelling = refl

authzid_run : parse_authzid (codes " dn: cn=ann ") ≡ some (dn (codes "cn=ann"))
unfolding parse_authzid trim is_whitespace strip_prefix
authzid_run = refl

principal_run : auth_principal (codes "ann") (codes "x.org") ≡ codes "ann@x.org"
unfolding auth_principal trim is_whitespace any
principal_run = refl

no_backslash : has_char backslash (codes "ann") ≡ false
unfolding any
no_backslash = refl

no_at : has_char b'@' (codes "ann") ≡ false
unfolding any
no_at = refl

domain_no_backslash : has_char backslash (codes "lab") ≡ false
unfolding any
domain_no_backslash = refl

user_trimmed : trim (codes "ann") ≡ codes "ann"
unfolding trim is_whitespace
user_trimmed = refl

down_level_trimmed :
    trim (codes "lab" ++ (backslash ∷ codes "ann")) ≡ codes "lab" ++ (backslash ∷ codes "ann")
unfolding trim is_whitespace
down_level_trimmed = refl

upn_trimmed : trim (codes "ann" ++ (b'@' ∷ codes "lab")) ≡ codes "ann" ++ (b'@' ∷ codes "lab")
unfolding trim is_whitespace
upn_trimmed = refl

raw_username_spellings_example :
    (raw_username (codes "ann") ≡ codes "ann")
    × (raw_username (codes "lab" ++ (backslash ∷ codes "ann")) ≡ codes "ann")
    × (raw_username (codes "ann" ++ (b'@' ∷ codes "lab")) ≡ codes "ann")
raw_username_spellings_example =
    raw_username_spellings (codes "ann") (codes "lab") no_backslash no_at domain_no_backslash
      user_trimmed down_level_trimmed upn_trimmed
