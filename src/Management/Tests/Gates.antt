-- ===== src/Management/Tests/Gates.antt =====
-- Controllers and users at the gates (src/nemo_management.rs).
use rustdesk_server_nemo.Base.{
  ◌≡◌, refl, ◌↔◌, ◌⊎◌, false, none, some, Option, [], Str, codes, str_eq, trim, is_whitespace, find,
  lookup,
}
use rustdesk_server_nemo.Integration.Config.{Session, UserPermission}
use rustdesk_server_nemo.Integration.Tests.Data.{key_b, world}
use rustdesk_server_nemo.Management.Controller.{
  NemoSource, controller_source_any, resolve_marker, resolve_controller_identity,
  target_allowed_by_controller_policy,
}
use rustdesk_server_nemo.Management.Controller.Identity.{IsController}
use rustdesk_server_nemo.Management.Policy.{PolicyText, management_policy_from_peer}
use rustdesk_server_nemo.Management.Gates.{
  row_rejection, controller_policy_rejection, controller_policy_rejection_from_field,
  nemo_user_connection_rejection,
}
use rustdesk_server_nemo.Management.Gates.Passing.{Registered, policy_rejection_from_field-none_iff}
use rustdesk_server_nemo.Management.Gates.SignedIn.{SignedIn, MayReach, user_rejection-none_iff}
use rustdesk_server_nemo.Peers.Table.{get_peer}
use rustdesk_server_nemo.Peers.Tests.{started}

abbrev text : PolicyText
text = record { from_str = λ s. none; is_library_key = λ s. false }

abbrev bytes_of : Str → Option Str
bytes_of s = some s

abbrev marker : Option NemoSource
marker = some (record { id = codes "333444"; uuid = codes "u1"; token = [] })

abbrev target : Str
target = codes "555666"

policy_rejection_from_field-none_iff_example :
    (controller_policy_rejection_from_field text bytes_of started marker [] target none ≡ none) ↔ (
      (id : Str) × (uuid : Option Str) × IsController none
        (controller_source_any bytes_of marker [])
        id
        uuid
      × Registered text started id uuid target)
policy_rejection_from_field-none_iff_example =
    policy_rejection_from_field-none_iff text bytes_of started marker [] target none

-- The free peer passes, a proof of another id does not.
passing_run :
    controller_policy_rejection_from_field text bytes_of started marker [] target none ≡ none
unfolding controller_policy_rejection_from_field controller_policy_rejection row_rejection
    resolve_controller_identity resolve_marker controller_source_any management_policy_from_peer
    target_allowed_by_controller_policy get_peer find str_eq trim is_whitespace lookup
passing_run = refl

borrowed_run :
    controller_policy_rejection_from_field text bytes_of started marker [] target
      (some (codes "111222"))
    ≡ some (codes "111222", codes "controller identity does not match the proven device key")
unfolding controller_policy_rejection_from_field resolve_controller_identity resolve_marker
    controller_source_any str_eq trim is_whitespace
borrowed_run = refl

abbrev same_case : Str → Str
same_case s = s

user_rejection-none_iff_example :
    ((nemo_user_connection_rejection same_case
        (some (codes "token"))
        (some key_b)
        target
        10
        world).1
      ≡ none)
    ↔ (((s : Session) × (p : UserPermission) × SignedIn same_case world
            (some (codes "token"))
            10
            s
            p
          × ((s.device_key_pub ≡ []) ⊎ (some key_b ≡ some s.device_key_pub))
          × MayReach same_case p target)
        ⊎ ((¬ (
              (s : Session) × (p : UserPermission) × SignedIn same_case world
                (some (codes "token"))
                10
                s
                p))
            × (world.config.require_login ≡ false)))
user_rejection-none_iff_example =
    user_rejection-none_iff same_case (some (codes "token")) (some key_b) target 10 world
