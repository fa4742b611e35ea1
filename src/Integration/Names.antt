-- ===== src/Integration/Names.antt =====
-- Usernames, bind principals and LDAP filters (src/nemo_integration.rs).
pub mod Filter
pub mod Decode
pub mod Spellings
use rustdesk_server_nemo.Base.{
  ℕ, zero, suc, ◌+◌, ◌-◌, Bool, true, false, not, ◌&&◌, ◌||◌, Option, none, some, List, [], ◌∷◌,
  ◌++◌, length, Str, Dict, codes, lookup, is_empty, trim, has_char, split_once, strip_prefix, ◌==◌,
  if◌then◌else◌,
}

-- The character `\`.
abbrev pub backslash : ℕ
backslash = 92

-- `raw_username`.
unfoldable pub raw_username : Str → Str
raw_username raw =
    let input = trim raw in
    elim (split_once backslash input) [
      | some (_, rest) ↦ rest
      | none ↦ elim (split_once b'@' input) [ some (head, _) ↦ head | none ↦ input ]
    ]

-- `normalize_lookup_username`, over the Unicode lower-casing of the standard library.
unfoldable pub normalize_lookup_username : (Str → Str) → Str → Str
normalize_lookup_username to_lowercase input = to_lowercase (raw_username input)

-- `auth_principal`.
unfoldable pub auth_principal : Str → Str → Str
auth_principal raw_name raw_domain =
    let username = trim raw_name in
    let domain = trim raw_domain in
    if has_char b'@' username || has_char backslash username
    then username
    else if is_empty domain
    then username
    else username ++ (codes "@" ++ domain)

-- What `escape_filter` writes for one character.
unfoldable pub escape_char : ℕ → Str
escape_char c =
    if c == backslash
    then codes "\\5c"
    else if c == b'*'
    then codes "\\2a"
    else if c == b'('
    then codes "\\28"
    else if c == b')'
    then codes "\\29"
    else if c == 0
    then codes "\\00"
    else if c == b'/'
    then codes "\\2f"
    else c ∷ []

-- `escape_filter`.
unfoldable pub escape_filter : Str → Str
unfolding escape_char
escape_filter [] = []
escape_filter (c ∷ s) = escape_char c ++ escape_filter s

-- `str::replace`, from left to right; `skip` characters of a match are still to be passed over.
unfoldable pub replace_from : Str → Str → ℕ → Str → Str
replace_from pat to skip [] = []
replace_from pat to (suc skip) (c ∷ s) = replace_from pat to skip s
replace_from pat to zero (c ∷ s) =
    let after = replace_from pat to (length pat - 1) s in
    let on = replace_from pat to 0 s in
    elim (strip_prefix pat (c ∷ s)) [ none ↦ c ∷ on | some _ ↦ to ++ after ]

-- `str::replace` of a pattern that is not empty.
abbrev pub replace : Str → Str → Str → Str
replace pat to s = replace_from pat to 0 s

-- `build_search_filter`.
unfoldable pub build_search_filter : Str → Str → Str → Str
unfolding replace_from
build_search_filter template username domain =
    let raw = raw_username username in
    let upn = if is_empty (trim domain) then raw else raw ++ (codes "@" ++ trim domain) in
    replace (codes "{upn}") (escape_filter upn) (
      replace (codes "{raw_username}") (escape_filter raw)
        (replace (codes "{username}") (escape_filter (trim username)) template))

-- `first_attr`.
unfoldable pub first_attr : Dict (List Str) → Str → Str
first_attr attrs key = elim (lookup key attrs) [
  | none ↦ []
  | some values ↦ elim values [ [] ↦ [] | v ∷ _ ↦ trim v ]
]

-- `AuthzId`.
pub data AuthzId : Type 0 where
  dn user : Str → AuthzId

-- `parse_authzid`.
unfoldable pub parse_authzid : Str → Option AuthzId
parse_authzid authzid =
    let s = trim authzid in
    elim (strip_prefix (codes "dn:") s) [
      | some rest ↦ if is_empty (trim rest) then none else some (dn (trim rest))
      | none ↦ elim (strip_prefix (codes "u:") s) [
        | some rest ↦ if is_empty (trim rest) then none else some (user (trim rest))
        | none ↦ none
      ]
    ]

-- `canonical_username`.
unfoldable pub canonical_username : (Str → Str) → Dict (List Str) → Str → Str
unfolding first_attr normalize_lookup_username
canonical_username to_lowercase attrs raw_input =
    let sam = first_attr attrs (codes "sAMAccountName") in
    let upn = first_attr attrs (codes "userPrincipalName") in
    let uid = first_attr attrs (codes "uid") in
    normalize_lookup_username to_lowercase (
      if not (is_empty sam)
      then sam
      else if not (is_empty upn)
      then upn
      else if not (is_empty uid)
      then uid
      else raw_input)
