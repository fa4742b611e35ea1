-- ===== src/Management/Controller.antt =====
-- Who the controller of a session is, and which targets it may reach (src/nemo_management.rs).
pub mod Identity
use rustdesk_server_nemo.Base.{
  ℕ, Bool, true, false, not, ◌&&◌, ◌||◌, Option, none, some, List, [], ◌∷◌, any, Str, codes, str_eq,
  is_empty, is_whitespace, trim, strip_prefix, split_once, split_whitespace, ◌==◌, if◌then◌else◌,
}

-- `NEMO_SOURCE_PREFIX`.
abbrev pub nemo_source_prefix : Str
nemo_source_prefix = codes "nemo-source-v1:"

-- `NemoSource`, as far as the server reads it.
pub record NemoSource : Type 0 where
  pub id : Str
  pub uuid : Str
  pub token : Str

-- What follows the first place of a pattern that is not empty.
unfoldable pub find_after : Str → Str → Option Str
find_after pat [] = none
find_after pat (c ∷ s) =
    let later = find_after pat s in
    elim (strip_prefix pat (c ∷ s)) [ none ↦ later | some rest ↦ some rest ]

-- A text that is not empty.
abbrev pub non_empty : Str → Option Str
non_empty s = if is_empty s then none else some s

-- The parts of a marker, with the token if it has a third part: `splitn(3, ':')`.
unfoldable pub marker_parts : Str → Option (Str × Str × Option Str)
marker_parts payload = elim (split_once b':' payload) [
  | none ↦ none
  | some (source_id, rest) ↦ elim (split_once b':' rest) [
    | none ↦ some (trim source_id, trim rest, none)
    | some (uuid, token) ↦ some (trim source_id, trim uuid, non_empty (trim token))
  ]
]

-- What a marker says of the controller: its id, its uuid and a user's token.
abbrev pub Source : Type 0
Source = Str × Str × Option Str

-- `controller_source_identity`, over base64.
unfoldable pub controller_source_identity : (Str → Option Str) → Str → Option Source
controller_source_identity decode source_field = elim (find_after nemo_source_prefix source_field) [
  | none ↦ none
  | some after ↦ elim (split_whitespace after) [
    | [] ↦ none
    | payload ∷ _ ↦ elim (marker_parts payload) [
      | none ↦ none
      | some (source_id, uuid, token) ↦
          if is_empty source_id || is_empty uuid
          then none
          else elim (decode uuid) [ none ↦ none | some bytes ↦ some (source_id, bytes, token) ]
    ]
  ]
]

-- `controller_source_any`.
unfoldable pub controller_source_any : (Str → Option Str) → Option NemoSource → Str → Option Source
controller_source_any decode none source_field = controller_source_identity decode source_field
controller_source_any decode (some src) source_field =
    if is_empty (trim src.id)
    then controller_source_identity decode source_field
    else some (trim src.id, src.uuid, non_empty (trim src.token))

-- The answer of `resolve_controller_identity`.
pub data Resolved : Type 0 where
  identity : Str → Option Str → Resolved
  refusal : Str → Str → Resolved

-- `resolve_controller_identity`, on the marker that `controller_source_any` found.
unfoldable pub resolve_marker : Option Str → Option Source → Resolved
resolve_marker (some proven) (some (claimed, uuid, token)) =
    if str_eq claimed proven
    then identity proven (some uuid)
    else refusal proven (codes "controller identity does not match the proven device key")
resolve_marker (some proven) none = identity proven none
resolve_marker none (some (claimed, uuid, token)) = identity claimed (some uuid)
resolve_marker none none =
    refusal (codes "?") (codes "controller identity could not be established")

-- `resolve_controller_identity`.
unfoldable pub resolve_controller_identity :
    (Str → Option Str) → Option NemoSource → Str → Option Str → Resolved
resolve_controller_identity decode proto source_field authed_peer_id =
    resolve_marker authed_peer_id (controller_source_any decode proto source_field)

abbrev pub cons_head : ℕ → List Str → List Str
cons_head c [] = (c ∷ []) ∷ []
cons_head c (w ∷ ws) = (c ∷ w) ∷ ws

-- `str::split` by a predicate.
unfoldable pub split_by : (ℕ → Bool) → Str → List Str
split_by p [] = [] ∷ []
split_by p (c ∷ s) = let rest = split_by p s in if p c then [] ∷ rest else cons_head c rest

abbrev pub is_separator : ℕ → Bool
is_separator c = (c == b',') || ((c == b';') || is_whitespace c)

-- `target_allowed_by_controller_policy`.
unfoldable pub target_allowed_by_controller_policy : Option Str → Str → Bool
target_allowed_by_controller_policy none target_id = true
target_allowed_by_controller_policy (some targets) target_id =
    is_empty (trim targets)
    || any
        (λ piece.
          not (is_empty (trim piece))
          && (str_eq (trim piece) (codes "*") || str_eq (trim piece) target_id))
        (split_by is_separator targets)
