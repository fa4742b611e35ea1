-- ===== src/Integration/Tests/Claims.antt =====
-- Requests for a key: filing, denying, approving, and a history of them.
use rustdesk_server_nemo.Base.{
  ◌≡◌, refl, ◌≢◌, ◌⊎◌, none, some, List, [], ◌∷◌, length, find, count, update_first, Str, codes,
  str_eq, trim, is_whitespace, is_ascii_alphanumeric, byte_len, all, if◌then◌else◌, ok, arith,
}
use rustdesk_server_nemo.Integration.Config.{DeviceKey, PendingClaim, World}
use rustdesk_server_nemo.Integration.DeviceKeys.{has_public_key, claim_device_key_in, valid_peer_id}
use rustdesk_server_nemo.Integration.Claims.{
  denied, of_key, of_row, deny, out_of_fuel, make_room, register_pending_claim_in,
  register_pending_claim, deny_device_key_claim, approve_device_key_claim,
}
use rustdesk_server_nemo.Integration.Claims.Eviction.{make_room-total}
use rustdesk_server_nemo.Integration.Claims.Invariant.{
  nil-ClaimsIsValid, register_pending_claim_in-ClaimsIsValid,
}
use rustdesk_server_nemo.Integration.Claims.Denial.{Request, file_all, deny_persists}
use rustdesk_server_nemo.Integration.Claims.Approval.{approve-binds}
use rustdesk_server_nemo.Integration.Claims.Steps.{
  register, here, next, refuse, HasValidClaims, Reach-HasValidClaims,
}
use rustdesk_server_nemo.Integration.Tests.Data.{
  key_a, key_b, peer_1, peer_2, noon, device_a, asking, world,
}

abbrev tcp : Str
tcp = codes "tcp"

file_run : (register_pending_claim_in [] (codes "AbCd") key_a peer_1 tcp noon).1 ≡ asking ∷ []
unfolding register_pending_claim_in find count valid_peer_id all byte_len trim is_whitespace
    is_ascii_alphanumeric length
file_run = refl

world-HasValidClaims : HasValidClaims world
world-HasValidClaims =
    rw (← file_run) (
      register_pending_claim_in-ClaimsIsValid (codes "AbCd") key_a peer_1 tcp noon
        nil-ClaimsIsValid)

make_room-total_example : make_room 1 (asking ∷ []) ≢ out_of_fuel
make_room-total_example = make_room-total 1 (asking ∷ []) (omega arith)

abbrev after_denial : World
after_denial = (deny_device_key_claim (codes "AbCd") peer_1 world).0

deny_run : deny_device_key_claim (codes "AbCd") peer_1 world ≡ (after_denial, ok (deny asking))
unfolding deny_device_key_claim find update_first str_eq
deny_run = refl

abbrev history : List Request
history =
    record { public_key = key_a; peer_id = peer_2; via = tcp; now = noon }
    ∷ record { public_key = key_b; peer_id = peer_1; via = tcp; now = noon }
    ∷ []

trimmed_key : trim key_a ≡ key_a
unfolding trim is_whitespace
trimmed_key = refl

trimmed_peer : trim peer_1 ≡ peer_1
unfolding trim is_whitespace
trimmed_peer = refl

still_pinned : find (has_public_key key_a) after_denial.config.device_keys ≢ none
unfolding deny_device_key_claim find update_first str_eq
still_pinned e = ground arith

deny_persists_example :
    (register_pending_claim key_a peer_1 tcp noon (file_all history after_denial)).1 ≡ denied
deny_persists_example =
    deny_persists (codes "AbCd") peer_1 world after_denial (deny asking) history key_a peer_1 tcp
      noon world-HasValidClaims deny_run trimmed_key trimmed_peer still_pinned

abbrev approved_a : DeviceKey
approved_a = record device_a { peer_id = peer_1; claimed_at = codes "13:00" }

abbrev after_approval : World
after_approval = (approve_device_key_claim (codes "AbCd") peer_1 (codes "13:00") world).0

approve_run :
    approve_device_key_claim (codes "AbCd") peer_1 (codes "13:00") world
    ≡ (after_approval, ok approved_a)
unfolding approve_device_key_claim claim_device_key_in find update_first str_eq trim is_whitespace
approve_run = refl

approve-binds_example :
    (c : PendingClaim) × (old : DeviceKey) × (find
        (of_row (codes "AbCd") peer_1)
        world.config.pending_device_key_claims
      ≡ some c)
    × (find (has_public_key c.public_key) world.config.device_keys ≡ some old)
    × ((old.peer_id ≡ []) ⊎ (old.peer_id ≡ trim peer_1))
    × (approved_a.peer_id ≡ trim peer_1)
    × (find (has_public_key key_b) after_approval.config.device_keys ≡ (
        if str_eq c.public_key key_b
        then some approved_a
        else find (has_public_key key_b) world.config.device_keys))
    × (count (of_key c.public_key) after_approval.config.pending_device_key_claims ≡ 0)
approve-binds_example =
    approve-binds (codes "AbCd") peer_1 (codes "13:00") world after_approval approved_a key_b
      world-HasValidClaims approve_run

-- A request, a denial and another request.
abbrev reached : World
reached = (register_pending_claim key_a peer_2 tcp noon after_denial).0

Reach-HasValidClaims_example : HasValidClaims reached
Reach-HasValidClaims_example =
    Reach-HasValidClaims world-HasValidClaims
      (next (next here (refuse (codes "AbCd") peer_1)) (register key_a peer_2 tcp noon))
