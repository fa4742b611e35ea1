-- ===== src/Integration/Names/Filter.antt =====
-- A search filter is proof against injection: no user name or domain changes its structure.
use rustdesk_server_nemo.Base.{
  sym, ℕ, zero, suc, ◌-◌, ◌≡◌, refl, ap, retain-append, drop, ◌∙◌, inl, inr, Bool, false, ◌||◌,
  some, [], ◌∷◌, length, retain, Str, codes, trim, strip_prefix, arith, ◌==◌, Bool-cases,
  Option-cases,
}
use rustdesk_server_nemo.Integration.Names.{
  raw_username, escape_char, escape_filter, replace_from, replace, build_search_filter,
}

-- The characters that give a filter its structure.
abbrev pub is_structural : ℕ → Bool
is_structural c = (c == b'(') || ((c == b')') || ((c == b'*') || (c == 0)))

-- The structure of a filter: what is left of it without all other characters.
abbrev pub structure : Str → Str
structure = retain is_structural

structure-escape_char : (c : ℕ) → structure (escape_char c) ≡ []
unfolding escape_char retain
structure-escape_char c = ground arith

-- An escaped value has no structure.
pub structure-escape_filter : (s : Str) → structure (escape_filter s) ≡ []
unfolding escape_filter retain
structure-escape_filter [] = refl
structure-escape_filter (c ∷ s) = rw (
  retain-append is_structural (escape_char c) (escape_filter s),
  structure-escape_char c,
  structure-escape_filter s,
)

structure-cons :
    (c : ℕ) (s t : Str) → structure s ≡ structure t → structure (c ∷ s) ≡ structure (c ∷ t)
unfolding retain
structure-cons c s t h = elim (Bool-cases (is_structural c)) [
  | inl e ↦ rw e (ap (◌∷◌ c) h)
  | inr e ↦ rw e h
]

-- What a prefix leaves is the text past its length.
strip_prefix-drop : (pat s rest : Str) → strip_prefix pat s ≡ some rest → rest ≡ drop (length pat) s
unfolding strip_prefix
strip_prefix-drop [] s rest h = cc
strip_prefix-drop (p ∷ ps) [] rest h = absurd (cc)
strip_prefix-drop (p ∷ ps) (c ∷ s) rest h = ground (arith, strip_prefix-drop ps s rest)

strip_prefix-structure :
    (pat s rest : Str)
    → strip_prefix pat s ≡ some rest
    → structure pat ≡ []
    → structure s ≡ structure rest
unfolding strip_prefix retain
strip_prefix-structure [] s rest h plain = let same : s ≡ rest = cc in ap structure same
strip_prefix-structure (p ∷ ps) [] rest h plain = absurd (cc)
strip_prefix-structure (p ∷ ps) (c ∷ s) rest h plain = elim (Bool-cases (is_structural p)) [
  | inl e ↦ let no : (p ∷ structure ps) ≡ [] = rw e at plain in absurd (cc no)
  | inr e ↦ elim (Bool-cases (p == c)) [
    | inr differs ↦ absurd (ground arith)
    | inl same ↦
        let eq : p ≡ c = ground arith in
        let here : is_structural c ≡ false = rw (← eq) e in
        rw here (strip_prefix-structure ps s rest (ground arith) (rw e at plain))
  ]
]

-- Replacing a plain pattern by a plain text keeps the structure.
module _ (pat to : Str) (plain : structure pat ≡ []) (safe : structure to ≡ [])
    (some_pat : length pat ≡ suc (length pat - 1)) where
  structure-replace_from :
      (skip : ℕ) (s : Str) → structure (replace_from pat to skip s) ≡ structure (drop skip s)
  unfolding replace_from
  structure-replace_from zero [] = refl
  structure-replace_from (suc skip) [] = refl
  structure-replace_from (suc skip) (c ∷ s) = structure-replace_from skip s
  structure-replace_from zero (c ∷ s) = elim (Option-cases (strip_prefix pat (c ∷ s))) [
    | inl e ↦ rw (e, replace_from) (structure-cons c _ s (structure-replace_from zero s))
    | inr (rest, e) ↦
        let left : rest ≡ drop (length pat - 1) s =
          strip_prefix-drop pat (c ∷ s) rest e ∙ ap (λ (n : ℕ). drop n (c ∷ s)) some_pat in
        rw (e, replace_from)
          (retain-append is_structural to (replace_from pat to (length pat - 1) s)
            ∙ rw (safe) (
                structure-replace_from (length pat - 1) s
                ∙ sym (strip_prefix-structure pat (c ∷ s) rest e plain ∙ ap structure left)))
  ]

-- So does the replacement of a placeholder by an escaped value.
fill :
    (pat value s : Str)
    → structure pat ≡ []
    → length pat ≡ suc (length pat - 1)
    → structure (replace pat (escape_filter value) s) ≡ structure s
fill pat value s plain some_pat =
    structure-replace_from pat (escape_filter value) plain (structure-escape_filter value) some_pat
      0 s

placeholders :
    (structure (codes "{username}") ≡ [])
    × (structure (codes "{raw_username}") ≡ [])
    × (structure (codes "{upn}") ≡ [])
unfolding retain
placeholders = (refl, refl, refl)

-- Whatever the user name and the domain, the filter that is built has the parentheses, the stars and
-- the NULs of its template, in their order, and no others.
pub structure-build_search_filter :
    (template username domain : Str)
    → structure (build_search_filter template username domain) ≡ structure template
unfolding build_search_filter
structure-build_search_filter template username domain =
    fill (codes "{upn}") _ _ placeholders.2 refl
    ∙ (fill (codes "{raw_username}") (raw_username username) _ placeholders.1 refl
        ∙ fill (codes "{username}") (trim username) template placeholders.0 refl)
