-- ===== src/Integration/Directory.antt =====
-- The directory picker's search (src/nemo_integration.rs) and the rule on certificates.
pub mod Structure
use rustdesk_server_nemo.Base.{
  ℕ, Bool, true, false, List, [], ◌∷◌, ◌++◌, Str, codes, is_empty, trim, has_char, split_whitespace,
  ◌==◌, if◌then◌else◌, Result, ok, err,
}
use rustdesk_server_nemo.Integration.Names.{backslash}

-- What `escape_filter_keep_wildcard` writes for one character: a star stays.
unfoldable pub escape_keep_char : ℕ → Str
escape_keep_char c =
    if c == backslash
    then codes "\\5c"
    else if c == b'('
    then codes "\\28"
    else if c == b')'
    then codes "\\29"
    else if c == 0
    then codes "\\00"
    else if c == b'/'
    then codes "\\2f"
    else c ∷ []

-- `escape_filter_keep_wildcard`.
unfoldable pub escape_filter_keep_wildcard : Str → Str
unfolding escape_keep_char
escape_filter_keep_wildcard [] = []
escape_filter_keep_wildcard (c ∷ s) = escape_keep_char c ++ escape_filter_keep_wildcard s

-- `DIRECTORY_SEARCH_ATTRS`.
unfoldable pub directory_search_attrs : List Str
directory_search_attrs =
    codes "sAMAccountName"
    ∷ codes "userPrincipalName"
    ∷ codes "uid"
    ∷ codes "displayName"
    ∷ codes "cn"
    ∷ codes "givenName"
    ∷ codes "sn"
    ∷ codes "mail"
    ∷ codes "department"
    ∷ codes "title"
    ∷ codes "description"
    ∷ codes "physicalDeliveryOfficeName"
    ∷ codes "company"
    ∷ codes "memberOf"
    ∷ []

-- `DIRECTORY_BASELINE`.
unfoldable pub directory_baseline : Str
directory_baseline =
    codes "(objectCategory=person)(objectClass=user)"
    ++ (codes "(!(userAccountControl:1.2.840.113556.1.4.803:=2))"
        ++ codes "(!(isCriticalSystemObject=TRUE))(!(sAMAccountName=*$))")

-- The pattern of a term: as typed if it has a star, else matched anywhere.
unfoldable pub term_pattern : Str → Str
unfolding escape_filter_keep_wildcard
term_pattern term =
    let e = escape_filter_keep_wildcard term in
    if has_char b'*' term then e else codes "*" ++ (e ++ codes "*")

-- One assertion for each attribute.
unfoldable pub assertions : List Str → Str → Str
assertions [] pat = []
assertions (attr ∷ attrs) pat =
    (codes "(" ++ (attr ++ (codes "=" ++ (pat ++ codes ")")))) ++ assertions attrs pat

-- The group of one term.
unfoldable pub term_group : Str → Str
term_group term = codes "(|" ++ (assertions directory_search_attrs (term_pattern term) ++ codes ")")

-- The loop over the terms.
unfoldable pub term_groups : List Str → Str
term_groups [] = []
term_groups (term ∷ terms) = term_group term ++ term_groups terms

-- `directory_search_filter`.
unfoldable pub directory_search_filter : Str → Str
directory_search_filter query =
    let q = trim query in
    if is_empty q
    then codes "(&" ++ (directory_baseline ++ codes ")")
    else codes "(&" ++ (directory_baseline ++ (term_groups (split_whitespace q) ++ codes ")"))

-- `ldap_tls_verify_effective`.
unfoldable pub ldap_tls_verify_effective : Bool → Bool → Result Bool
ldap_tls_verify_effective tls_verify insecure_allowed =
    if tls_verify
    then ok true
    else if insecure_allowed
    then ok false
    else err (codes "LDAP tls_verify is disabled, but accepting any DC certificate is refused.")
