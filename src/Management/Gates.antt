-- ===== src/Management/Gates.antt =====
-- The gates that a controller passes before a session is brokered (src/nemo_management.rs): the policy of
-- its own row in the table of peers, and the permissions of the user who is signed in on it.
pub mod Passing
pub mod SignedIn
use Prim.Native.Nat.{bit_or}
use rustdesk_server_nemo.Base.{
  ℕ, ◌+◌, ◌*◌, ◌^◌, Bool, true, false, not, ◌&&◌, ◌||◌, Option, none, some, List, [], ◌∷◌, Str,
  Dict, codes, str_eq, lookup, trim, ltb, is_empty, ◌==◌, if◌then◌else◌, Result, ok, err,
}
use rustdesk_server_nemo.Integration.Config.{World, Session}
use rustdesk_server_nemo.Integration.Settings.{user_is_enabled}
use rustdesk_server_nemo.Integration.Sessions.{session_for_token, effective_permission}
use rustdesk_server_nemo.Integration.Permissions.{user_policy, user_allowed_target}
use rustdesk_server_nemo.Management.Controller.{
  NemoSource, controller_source_any, identity, refusal, resolve_controller_identity,
  target_allowed_by_controller_policy,
}
use rustdesk_server_nemo.Management.Policy.{PolicyText, management_policy_from_peer}
use rustdesk_server_nemo.Management.Secrets.{ManagementPolicy}
use rustdesk_server_nemo.Peers.{PeerMap, is_peer_allowed_for_control}
use rustdesk_server_nemo.Peers.Table.{Row, get_peer}

-- `is_peer_allowed`, over `COMPANY_ONLY`.
abbrev pub is_peer_allowed : Bool → Str → PeerMap → Bool
is_peer_allowed company_only id pm = is_peer_allowed_for_control id company_only pm

-- The uuid of a marker is not the one of the row.
abbrev pub uuid_differs : Option Str → Row → Bool
uuid_differs none source = false
uuid_differs (some uuid) source = is_empty uuid || not (str_eq source.uuid uuid)

abbrev pub is_blocked : Option ℕ → Bool
is_blocked none = false
is_blocked (some s) = s == 0

-- An option is there and has this value.
abbrev pub is_set_to : Str → Option Str → Bool
is_set_to value none = false
is_set_to value (some v) = str_eq v value

module _ (text : PolicyText) where
  -- The gates of `controller_policy_rejection` on the controller's row.
  unfoldable pub row_rejection : Row → Option Str → Str → Option Str
  row_rejection source source_uuid target_id =
      let policy = management_policy_from_peer text source.management_policy in
      if uuid_differs source_uuid source
      then some (codes "controller identity rejected by TBF policy")
      else if is_blocked source.status
      then some (codes "controller is blocked by TBF policy")
      else if is_set_to (codes "N") (lookup (codes "nemo-outbound-enabled") policy.options)
      then some (codes "outgoing connections are disabled by TBF policy")
      else if not (
          target_allowed_by_controller_policy
            (lookup (codes "nemo-outbound-targets") policy.options) target_id)
      then some (codes "target is not allowed by TBF policy")
      else none

  -- `controller_policy_rejection`.
  unfoldable pub controller_policy_rejection : PeerMap → Str → Option Str → Str → Option Str
  controller_policy_rejection pm raw source_uuid target_id =
      let source_id = trim raw in
      if is_empty source_id
      then some (codes "controller did not identify itself")
      else elim (get_peer source_id pm.db) [
        | err _ ↦ some (codes "controller policy could not be verified")
        | ok none ↦ some (codes "controller is not registered by TBF policy")
        | ok (some source) ↦ row_rejection source source_uuid target_id
      ]

  -- `controller_policy_rejection_from_field`.
  unfoldable pub controller_policy_rejection_from_field :
      (Str → Option Str) → PeerMap → Option NemoSource → Str → Str → Option Str → Option (Str × Str)
  controller_policy_rejection_from_field decode pm proto source_field target_id authed_peer_id =
      elim (resolve_controller_identity decode proto source_field authed_peer_id) [
        | refusal id reason ↦ some (id, reason)
        | identity id uuid ↦ elim (controller_policy_rejection pm id uuid target_id) [
          | none ↦ none
          | some reason ↦ some (id, reason)
        ]
      ]

-- The token of a source.
abbrev pub token_of : Option (Str × Str × Option Str) → Option Str
token_of none = none
token_of (some (_, _, token)) = token

abbrev pub id_of : Option (Str × Str × Option Str) → Str
id_of none = []
id_of (some (id, _, _)) = id

-- `control_permissions::Permission`, as far as a policy can name it.
pub data Permission : Type 0 where
  keyboard remote_printer clipboard file audio camera terminal : Permission
  tunnel restart recording block_input privacy_mode remote_modify : Permission

-- `CONTROL_PERMISSION_KEYS`.
unfoldable pub control_permission_keys : List (Str × Permission)
control_permission_keys =
    (codes "enable-keyboard", keyboard)
    ∷ (codes "enable-remote-printer", remote_printer)
    ∷ (codes "enable-clipboard", clipboard)
    ∷ (codes "enable-file-transfer", file)
    ∷ (codes "enable-audio", audio)
    ∷ (codes "enable-camera", camera)
    ∷ (codes "enable-terminal", terminal)
    ∷ (codes "enable-tunnel", tunnel)
    ∷ (codes "enable-remote-restart", restart)
    ∷ (codes "enable-record-session", recording)
    ∷ (codes "enable-block-input", block_input)
    ∷ (codes "enable-privacy-mode", privacy_mode)
    ∷ (codes "allow-remote-config-modification", remote_modify)
    ∷ []

-- `eq_ignore_ascii_case("N")`.
abbrev pub is_n : Str → Bool
is_n [] = false
is_n (c ∷ s) = (c == b'N' || c == b'n') && is_empty s

-- The session is bound to a key that the connection did not prove.
abbrev pub key_differs : Str → Option Str → Bool
key_differs bound none = not (is_empty bound)
key_differs bound (some proved) = not (is_empty bound) && not (str_eq proved bound)

-- The loop of `control_permissions_for`, over the numbers of the permissions in the protocol.
unfoldable pub permission_bits : (Permission → ℕ) → List (Str × Permission) → Dict Str → ℕ → ℕ
permission_bits index [] options bits = bits
permission_bits index ((key, permission) ∷ keys) options bits =
    permission_bits index keys options (elim (lookup key options) [
      | none ↦ bits
      | some value ↦
          if not (ltb (index permission) 32)
          then bits
          else bit_or bits ((if is_n value then 1 else 2) * 2 ^ (index permission * 2))
    ])

module _ (to_lowercase : Str → Str) where
  -- The session of a token whose user is enabled.
  unfoldable pub user_of_token : Option Str → ℕ → World → World × Option Session
  user_of_token none now w = (w, none)
  user_of_token (some token) now w =
      let (w1, found) = session_for_token token now w in
      (
        w1,
        elim found [
          | none ↦ none
          | some s ↦ if user_is_enabled to_lowercase s.username w1 then some s else none
        ],
      )

  -- `nemo_user_connection_rejection`.
  unfoldable pub nemo_user_connection_rejection :
      Option Str → Option Str → Str → ℕ → World → World × Option Str
  unfolding user_of_token
  nemo_user_connection_rejection token authed_device_pub target_id now w =
      let (w1, user) = user_of_token token now w in
      (
        w1,
        elim user [
          | none ↦
              if w1.config.require_login then some (codes "log in to TBFDesk to connect") else none
          | some session ↦
              if key_differs session.device_key_pub authed_device_pub
              then some
                  (codes "this sign-in is bound to another computer; sign in again from this one")
              else (let (is_admin, allowed) =
                    effective_permission to_lowercase session.username w1 in
                  if user_allowed_target is_admin allowed target_id
                  then none
                  else some (codes "you are not permitted to connect to this computer"))
        ],
      )

  -- `nemo_user_rejection_from_field`.
  unfoldable pub nemo_user_rejection_from_field :
      (Str → Option Str)
      → Option NemoSource
      → Str
      → Str
      → Option Str
      → ℕ
      → World
      → World × Option (Str × Str)
  unfolding nemo_user_connection_rejection
  nemo_user_rejection_from_field decode proto source_field target_id authed_device_pub now w =
      let parsed = controller_source_any decode proto source_field in
      let (w1, reason) =
        nemo_user_connection_rejection (token_of parsed) authed_device_pub target_id now w in
      (w1, elim reason [ none ↦ none | some r ↦ some (id_of parsed, r) ])

  -- `control_permissions_for`: the bits, if any is set.
  unfoldable pub control_permissions_for :
      (Permission → ℕ) → (Str → Option Str) → Option NemoSource → Str → ℕ → World → World × Option ℕ
  unfolding user_of_token permission_bits
  control_permissions_for index decode proto source_field now w =
      let (w1, user) =
        user_of_token (token_of (controller_source_any decode proto source_field)) now w in
      (
        w1,
        elim user [
          | none ↦ none
          | some session ↦
              let policy = user_policy to_lowercase session.username w1 in
              let bits = permission_bits index control_permission_keys policy.options 0 in
              if bits == 0 then none else some bits
        ],
      )
