-- ===== src/Management/Controller/Identity.antt =====
-- The gates on a controller run on an identity that was proved, or on a marker when nothing was; and
-- what a list of targets allows (src/nemo_management.rs).
use rustdesk_server_nemo.Base.{
  ◌≡◌, ◌≢◌, refl, ◌⊎◌, inl, inr, ◌↔◌, Bool, true, not, ◌&&◌, ◌||◌, Option, none, some, List, [],
  ◌∷◌, Str, codes, str_eq, str_eq_iff, is_empty, trim, any, arith, Bool-cases,
}
use rustdesk_server_nemo.Management.Controller.{
  NemoSource, Source, controller_source_any, identity, resolve_marker, resolve_controller_identity,
  split_by, is_separator, target_allowed_by_controller_policy,
}

-- Who the controller is: the device that the connection proved, which a marker may confirm, with the
-- marker's uuid; or, if it proved none, whom the marker names.
abbrev pub IsController : Option Str → Option Source → Str → Option Str → Type 0
IsController none none id uuid = ⊥
IsController none (some (claimed, u, token)) id uuid = (id ≡ claimed) × (uuid ≡ some u)
IsController (some proven) none id uuid = (id ≡ proven) × (uuid ≡ none)
IsController (some proven) (some (claimed, u, token)) id uuid =
    (id ≡ proven) × (claimed ≡ proven) × (uuid ≡ some u)

resolve_marker_iff :
    (authed : Option Str) (marker : Option Source) (id : Str) (uuid : Option Str)
    → (resolve_marker authed marker ≡ identity id uuid) ↔ IsController authed marker id uuid
unfolding resolve_marker
resolve_marker_iff none none id uuid = (λ h. ground arith, λ h. absurd h)
resolve_marker_iff none (some (claimed, u, token)) id uuid = (λ h. ground arith, λ h. ground arith)
resolve_marker_iff (some proven) none id uuid = (λ h. ground arith, λ h. ground arith)
resolve_marker_iff (some proven) (some (claimed, u, token)) id uuid =
    elim (Bool-cases (str_eq claimed proven)) [
      | inl same ↦
          (λ h. (ground arith, (str_eq_iff claimed proven).0 same, ground arith), λ h. ground arith)
      | inr other ↦ (
        λ h. absurd (ground arith),
        λ (a, b, c). absurd (ground (arith, (str_eq_iff claimed proven).1 b)),
      )
    ]

pub resolve_controller_identity_iff :
    (decode : Str → Option Str) (proto : Option NemoSource) (source_field : Str)
    (authed : Option Str) (id : Str) (uuid : Option Str)
    → (resolve_controller_identity decode proto source_field authed ≡ identity id uuid)
      ↔ IsController authed (controller_source_any decode proto source_field) id uuid
unfolding resolve_controller_identity
resolve_controller_identity_iff decode proto source_field authed id uuid =
    resolve_marker_iff authed (controller_source_any decode proto source_field) id uuid

-- Some element satisfies a predicate.
abbrev pub Some : {A : Type 0} → (A → Type 0) → List A → Type 0
Some P [] = ⊥
Some P (x ∷ xs) = P x ⊎ Some P xs

pub any_iff :
    {A : Type 0} (p : A → Bool) (P : A → Type 0)
    → ((x : A) → (p x ≡ true) ↔ P x)
    → (xs : List A) → (any p xs ≡ true) ↔ Some P xs
unfolding any
any_iff p P h [] = (λ e. absurd (cc), λ e. absurd e)
any_iff p P h (x ∷ xs) = elim (Bool-cases (p x)) [
  | inl e ↦ (λ _. inl ((h x).0 e), λ _. ground arith)
  | inr e ↦ (
    λ found. inr ((any_iff p P h xs).0 (ground arith)),
    λ some_one. elim some_one [
      | inl here ↦ absurd (ground (arith, (h x).1 here))
      | inr there ↦ ground (arith, (any_iff p P h xs).1 there)
    ],
  )
]

-- The piece of a list of targets, without the white space around it, is `*` or the target.
abbrev pub Names : Str → Str → Type 0
Names target_id piece = (trim piece ≢ []) × ((trim piece ≡ codes "*") ⊎ (trim piece ≡ target_id))

-- There is no list of targets, or a blank one, or some piece of it names the target.
abbrev pub Reaches : Option Str → Str → Type 0
Reaches none target_id = Unit
Reaches (some targets) target_id =
    (trim targets ≡ []) ⊎ Some (Names target_id) (split_by is_separator targets)

pub is_empty_iff : (s : Str) → (is_empty s ≡ true) ↔ (s ≡ [])
is_empty_iff [] = (λ _. refl, λ _. refl)
is_empty_iff (c ∷ s) = (λ h. absurd (cc), λ h. absurd (cc))

piece_iff :
    (target_id piece : Str)
    → (not (is_empty (trim piece))
          && (str_eq (trim piece) (codes "*") || str_eq (trim piece) target_id)
        ≡ true)
      ↔ Names target_id piece
piece_iff target_id piece = (
  λ h. (
    λ gone. absurd (ground (arith, (is_empty_iff (trim piece)).1 gone)),
    elim (Bool-cases (str_eq (trim piece) (codes "*"))) [
      | inl star ↦ inl ((str_eq_iff (trim piece) (codes "*")).0 star)
      | inr apart ↦ inr ((str_eq_iff (trim piece) target_id).0 (ground arith))
    ],
  ),
  λ (there, which). elim (Bool-cases (is_empty (trim piece))) [
    | inl gone ↦ absurd (there ((is_empty_iff (trim piece)).0 gone))
    | inr full ↦ elim which [
      | inl star ↦ ground (arith, (str_eq_iff (trim piece) (codes "*")).1 star)
      | inr same ↦ ground (arith, (str_eq_iff (trim piece) target_id).1 same)
    ]
  ],
)

pub target_allowed_iff :
    (targets : Option Str) (target_id : Str)
    → (target_allowed_by_controller_policy targets target_id ≡ true) ↔ Reaches targets target_id
unfolding target_allowed_by_controller_policy
target_allowed_iff none target_id = (λ _. tt, λ _. refl)
target_allowed_iff (some targets) target_id = elim (Bool-cases (is_empty (trim targets))) [
  | inl blank ↦ (λ _. inl ((is_empty_iff (trim targets)).0 blank), λ _. ground arith)
  | inr full ↦ (
    λ h. inr ((any_iff _ (Names target_id) (piece_iff target_id) _).0 (ground arith)),
    λ h. elim h [
      | inl blank ↦ absurd (ground (arith, (is_empty_iff (trim targets)).1 blank))
      | inr found ↦ ground (arith, (any_iff _ (Names target_id) (piece_iff target_id) _).1 found)
    ],
  )
]
