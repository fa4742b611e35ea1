-- ===== src/Integration/Directory/Structure.antt =====
-- No query can add or take a parenthesis of the search filter.
use rustdesk_server_nemo.Base.{
  ℕ, ◌≡◌, refl, sym, ap, ◌∙◌, inl, inr, Bool, true, ◌||◌, List, [], ◌∷◌, ◌++◌, retain,
  retain-append, Str, codes, is_empty, trim, has_char, split_whitespace, words_from, arith, ◌==◌,
  Bool-cases,
}
use rustdesk_server_nemo.Integration.Directory.{
  escape_keep_char, escape_filter_keep_wildcard, directory_search_attrs, directory_baseline,
  term_pattern, assertions, term_group, term_groups, directory_search_filter,
}

abbrev pub is_paren : ℕ → Bool
is_paren c = (c == b'(') || (c == b')')

-- The parentheses of a filter, in their order.
abbrev pub parens : Str → Str
parens = retain is_paren

parens-escape_keep_char : (c : ℕ) → parens (escape_keep_char c) ≡ []
unfolding escape_keep_char retain
parens-escape_keep_char c = ground arith

parens-escape_filter_keep_wildcard : (s : Str) → parens (escape_filter_keep_wildcard s) ≡ []
unfolding escape_filter_keep_wildcard retain
parens-escape_filter_keep_wildcard [] = refl
parens-escape_filter_keep_wildcard (c ∷ s) = rw (
  retain-append is_paren (escape_keep_char c) (escape_filter_keep_wildcard s),
  parens-escape_keep_char c,
  parens-escape_filter_keep_wildcard s,
)

parens-term_pattern : (term : Str) → parens (term_pattern term) ≡ []
unfolding term_pattern retain
parens-term_pattern term =
    let escaped = parens-escape_filter_keep_wildcard term in
    elim (Bool-cases (has_char b'*' term)) [
      | inl e ↦ rw e escaped
      | inr e ↦
          rw (e, retain-append is_paren (escape_filter_keep_wildcard term) (codes "*"), escaped)
    ]

-- The parentheses of an assertion are its own and those of its attribute and its pattern.
parens-assertion :
    (attr pat : Str)
    → parens (codes "(" ++ (attr ++ (codes "=" ++ (pat ++ codes ")"))))
      ≡ codes "(" ++ (parens attr ++ (parens pat ++ codes ")"))
unfolding retain
parens-assertion attr pat = rw (
  retain-append is_paren attr (codes "=" ++ (pat ++ codes ")")),
  retain-append is_paren pat (codes ")"),
)

parens-assertions :
    (attrs : List Str) (pat pat' : Str)
    → parens pat ≡ parens pat'
    → parens (assertions attrs pat) ≡ parens (assertions attrs pat')
unfolding assertions
parens-assertions [] pat pat' h = refl
parens-assertions (attr ∷ attrs) pat pat' h =
    let head : Str → Str = λ p. codes "(" ++ (attr ++ (codes "=" ++ (p ++ codes ")"))) in
    let heads : parens (head pat) ≡ parens (head pat') =
      parens-assertion attr pat
      ∙ (ap (λ p. codes "(" ++ (parens attr ++ (p ++ codes ")"))) h
          ∙ sym (parens-assertion attr pat')) in
    retain-append is_paren (head pat) (assertions attrs pat)
    ∙ (ap (λ p. p ++ parens (assertions attrs pat)) heads
        ∙ (ap (λ p. parens (head pat') ++ p) (parens-assertions attrs pat pat' h)
            ∙ sym (retain-append is_paren (head pat') (assertions attrs pat'))))

-- What one term adds, whatever it is: a group with one assertion for each attribute.
abbrev pub one_group : Str
one_group = codes "(" ++ (parens (assertions directory_search_attrs []) ++ codes ")")

parens-term_group : (term : Str) → parens (term_group term) ≡ one_group
unfolding term_group retain
parens-term_group term =
    let same =
      parens-assertions directory_search_attrs (term_pattern term) [] (parens-term_pattern term) in
    ap (◌∷◌ b'(') (
      retain-append is_paren (assertions directory_search_attrs (term_pattern term)) (codes ")")
      ∙ ap (λ p. p ++ codes ")") same)

-- One group for each term.
pub groups_of : List Str → Str
groups_of [] = []
groups_of (term ∷ terms) = one_group ++ groups_of terms

parens_nil : parens [] ≡ []
unfolding retain
parens_nil = refl

parens-term_groups : (terms : List Str) → parens (term_groups terms) ≡ groups_of terms
unfolding term_groups groups_of
parens-term_groups [] = parens_nil
parens-term_groups (term ∷ terms) =
    retain-append is_paren (term_group term) (term_groups terms)
    ∙ (ap (λ p. p ++ parens (term_groups terms)) (parens-term_group term)
        ∙ ap (λ p. one_group ++ p) (parens-term_groups terms))

append_nil : (q : Str) → is_empty q ≡ true → groups_of (split_whitespace q) ≡ []
unfolding split_whitespace groups_of words_from
append_nil [] h = refl
append_nil (c ∷ s) h = absurd (cc)

-- The parentheses of the filter depend on the query only by the number of its terms: those of the
-- baseline, and one group for each term, with one assertion for each attribute.
pub parens-directory_search_filter :
    (query : Str)
    → parens (directory_search_filter query)
      ≡ codes "("
        ++ (parens directory_baseline ++ (groups_of (split_whitespace (trim query)) ++ codes ")"))
unfolding directory_search_filter retain
parens-directory_search_filter query = elim (Bool-cases (is_empty (trim query))) [
  | inl e ↦ rw (e, retain-append is_paren directory_baseline (codes ")"), append_nil (trim query) e)
  | inr e ↦
      let terms = split_whitespace (trim query) in
      rw (
        e,
        retain-append is_paren directory_baseline (term_groups terms ++ codes ")"),
        retain-append is_paren (term_groups terms) (codes ")"),
        parens-term_groups terms,
      )
]
