-- ===== src/Management/Endpoints/Rows.antt =====
-- Which endpoints a controller is told (src/nemo_management.rs, `direct_endpoint_map`).
pub mod Clean
use rustdesk_server_nemo.Base.{
  ℕ, ◌≡◌, refl, sym, ap, ◌∙◌, ◌⊎◌, inl, inr, ◌↔◌, Bool, true, false, not, ◌&&◌, ◌||◌, Option, List,
  [], ◌∷◌, ◌++◌, map, retain, any, Elem, Str, str_mem, str_eq, str_eq_iff, Dict, str_ltb, has_char,
  is_empty, ◌==◌, if◌then◌else◌, arith, Bool-cases, subst,
}
use rustdesk_server_nemo.Management.Controller.{split_by, target_allowed_by_controller_policy}
use rustdesk_server_nemo.Management.Controller.Identity.{Reaches, target_allowed_iff}
use rustdesk_server_nemo.Management.Endpoints.{
  is_semicolon, insert_sorted, sort_rows, join_rows, row_of, is_told, direct_endpoint_map,
  revalidated,
}
use Clean.{revalidated-clean}

Elem-insert_sorted :
    (x row : Str) (rows : List Str) → Elem x (insert_sorted row rows) ↔ ((x ≡ row) ⊎ Elem x rows)
unfolding insert_sorted
Elem-insert_sorted x row [] = (λ h. h, λ h. h)
Elem-insert_sorted x row (r ∷ rows) = elim (Bool-cases (str_ltb r row)) [
  | inr e ↦ rw e (λ h. h, λ h. h)
  | inl e ↦ rw e (
    λ h. elim h [
      | inl first ↦ inr (inl first)
      | inr later ↦ elim ((Elem-insert_sorted x row rows).0 later) [
        | inl new ↦ inl new
        | inr old ↦ inr (inr old)
      ]
    ],
    λ h. elim h [
      | inl new ↦ inr ((Elem-insert_sorted x row rows).1 (inl new))
      | inr (inl first) ↦ inl first
      | inr (inr old) ↦ inr ((Elem-insert_sorted x row rows).1 (inr old))
    ],
  )
]

Elem-sort_rows : (x : Str) (rows : List Str) → Elem x (sort_rows rows) ↔ Elem x rows
unfolding sort_rows
Elem-sort_rows x [] = (λ h. h, λ h. h)
Elem-sort_rows x (row ∷ rows) =
    let (there, back) = Elem-sort_rows x rows in
    let (out_of, into) = Elem-insert_sorted x row (sort_rows rows) in
    (
      λ h. elim (out_of h) [ inl new ↦ inl new | inr old ↦ inr (there old) ],
      λ h. elim h [ inl new ↦ into (inl new) | inr old ↦ into (inr (back old)) ],
    )

-- A row of the entries that pass.
abbrev pub IsRowOf : (Str × Str → Bool) → Dict Str → Str → Type 0
IsRowOf p endpoints row = (e : Str × Str) × Elem e endpoints × (p e ≡ true) × (row ≡ row_of e)

Elem-told :
    (p : Str × Str → Bool) (endpoints : Dict Str) (row : Str)
    → Elem row (map row_of (retain p endpoints)) ↔ IsRowOf p endpoints row
unfolding retain
Elem-told p [] row = (λ h. absurd h, λ (e, h, _, _). absurd h)
Elem-told p (e ∷ endpoints) row = elim (Bool-cases (p e)) [
  | inl passes ↦ rw passes (
    λ h. elim h [
      | inl first ↦ (e, inl refl, passes, first)
      | inr later ↦
          let (d, at, ok, same) = (Elem-told p endpoints row).0 later in (d, inr at, ok, same)
    ],
    λ (d, at, ok, same). elim at [
      | inl first ↦ inl (same ∙ ap row_of first)
      | inr later ↦ inr ((Elem-told p endpoints row).1 (d, later, ok, same))
    ],
  )
  | inr fails ↦ rw fails (
    λ h. let (d, at, ok, same) = (Elem-told p endpoints row).0 h in (d, inr at, ok, same),
    λ (d, at, ok, same). elim at [
      | inl first ↦ absurd (ground (arith, ap p first))
      | inr later ↦ (Elem-told p endpoints row).1 (d, later, ok, same)
    ],
  )
]

-- Splitting at a separator ends a clean prefix.
split_by-prefix :
    (a s : Str)
    → has_char b';' a ≡ false
    → split_by is_semicolon (a ++ (b';' ∷ s)) ≡ a ∷ split_by is_semicolon s
unfolding split_by any
split_by-prefix [] s h = refl
split_by-prefix (c ∷ a) s h = elim (Bool-cases (is_semicolon c)) [
  | inl e ↦ absurd (ground arith)
  | inr e ↦ ground (arith, split_by-prefix a s)
]

split_by-clean : (a : Str) → has_char b';' a ≡ false → split_by is_semicolon a ≡ a ∷ []
unfolding split_by any
split_by-clean [] h = refl
split_by-clean (c ∷ a) h = elim (Bool-cases (is_semicolon c)) [
  | inl e ↦ absurd (ground arith)
  | inr e ↦ ground (arith, split_by-clean a)
]

-- The pieces of a joined list are its rows.
split_by-join_rows :
    (row : Str) (rows : List Str)
    → ((x : Str) → Elem x (row ∷ rows) → has_char b';' x ≡ false)
    → split_by is_semicolon (join_rows (row ∷ rows)) ≡ row ∷ rows
unfolding join_rows
split_by-join_rows row [] clean = split_by-clean row (clean row (inl refl))
split_by-join_rows row (r ∷ rows) clean =
    split_by-prefix row (join_rows (r ∷ rows)) (clean row (inl refl))
    ∙ ap (λ rest. row ∷ rest) (split_by-join_rows r rows (λ x at. clean x (inr at)))

Elem-split_by-join_rows :
    (row : Str) (rows : List Str)
    → is_empty row ≡ false
    → ((x : Str) → Elem x rows → has_char b';' x ≡ false)
    → Elem row (split_by is_semicolon (join_rows rows)) ↔ Elem row rows
unfolding join_rows split_by
Elem-split_by-join_rows row [] filled clean = (
  λ h. elim h [
    | inl e ↦ absurd (ground (arith, ap is_empty e))
    | inr impossible ↦ absurd impossible
  ],
  λ h. absurd h,
)
Elem-split_by-join_rows row (r ∷ rows) filled clean =
    rw (split_by-join_rows r rows clean) (λ h. h, λ h. h)

-- The row is of an entry whose peer is not blocked and is reached by the targets.
abbrev pub IsTold : List Str → Option Str → Dict Str → Str → Type 0
IsTold blocked targets endpoints row =
    (e : Str × Str) × Elem e endpoints
    × (¬ Elem e.0 blocked)
    × Reaches targets e.0
    × (row ≡ row_of e)

str_mem-false_iff : (a : Str) (s : List Str) → (str_mem a s ≡ false) ↔ (¬ Elem a s)
unfolding any
str_mem-false_iff a [] = (λ _ h. absurd h, λ _. refl)
str_mem-false_iff a (b ∷ s) = elim (Bool-cases (str_eq b a)) [
  | inl same ↦ (λ h. absurd (ground arith), λ h. absurd (h (inl (sym ((str_eq_iff b a).0 same)))))
  | inr other ↦ (
    λ h in_list. elim in_list [
      | inl here ↦ absurd (ground (arith, (str_eq_iff b a).1 (sym here)))
      | inr there ↦ (str_mem-false_iff a s).0 (ground arith) there
    ],
    λ h. ground (arith, (str_mem-false_iff a s).1 (λ there. h (inr there))),
  )
]

is_told_iff :
    (blocked : List Str) (targets : Option Str) (e : Str × Str)
    → (is_told blocked targets e ≡ true) ↔ ((¬ Elem e.0 blocked) × Reaches targets e.0)
is_told_iff blocked targets e = (
  λ h. (
    (str_mem-false_iff e.0 blocked).0 (ground arith),
    (target_allowed_iff targets e.0).0 (ground arith),
  ),
  λ (free, reached).
      ground
        (arith, (str_mem-false_iff e.0 blocked).1 free, (target_allowed_iff targets e.0).1 reached),
)

rows_iff :
    (blocked : List Str) (targets : Option Str) (endpoints : Dict Str) (row : Str)
    → IsRowOf (is_told blocked targets) endpoints row ↔ IsTold blocked targets endpoints row
rows_iff blocked targets endpoints row = (
  λ (e, at, told, same).
      let (free, reached) = (is_told_iff blocked targets e).0 told in (e, at, free, reached, same),
  λ (e, at, free, reached, same). (e, at, (is_told_iff blocked targets e).1 (free, reached), same),
)

-- Over a file of endpoints whose ids have no semicolon: the entries that a client finds in the value
-- that it is told are exactly those of the file that are valid, of a peer that is not blocked and that
-- the controller's targets reach: there is no list of targets, or a blank one, or one that names the
-- peer or `*`.
pub direct_endpoint_map-rows :
    (blocked : List Str) (targets : Option Str) (file : Dict Str) (row : Str)
    → ((e : Str × Str) → Elem e file → has_char b';' e.0 ≡ false)
    → is_empty row ≡ false
    → Elem row (split_by is_semicolon (direct_endpoint_map blocked targets (revalidated file)))
      ↔ IsTold blocked targets (revalidated file) row
unfolding direct_endpoint_map
direct_endpoint_map-rows blocked targets file row ids filled =
    let told = map row_of (retain (is_told blocked targets) (revalidated file)) in
    let clean : (x : Str) → Elem x (sort_rows told) → has_char b';' x ≡ false = λ x at.
      let (e, there, _, same) =
        (Elem-told (is_told blocked targets) (revalidated file) x).0
          ((Elem-sort_rows x told).0 at) in
      subst (λ y. has_char b';' y ≡ false) (sym same) (revalidated-clean file e ids there) in
    let (out_of, into) = Elem-split_by-join_rows row (sort_rows told) filled clean in
    let (unsorted, sorted) = Elem-sort_rows row told in
    let (of_entry, to_row) = Elem-told (is_told blocked targets) (revalidated file) row in
    let (tell, untell) = rows_iff blocked targets (revalidated file) row in
    (λ h. tell (of_entry (unsorted (out_of h))), λ h. into (sorted (to_row (untell h))))
