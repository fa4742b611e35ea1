-- ===== src/Rendezvous/Tests/Relaying.antt =====
-- A session over the relay, from the controller's request to the grant (src/rendezvous_server.rs).
use rustdesk_server_nemo.Base.{
  ℕ, ◌≡◌, ◌≢◌, refl, ap, inr, true, false, Bool, none, some, [], length, find, codes, str_eq, trim,
  is_whitespace, lookup, arith, any,
}
use rustdesk_server_nemo.Integration.Config.{default_config}
use rustdesk_server_nemo.Management.Controller.{
  controller_source_any, resolve_marker, resolve_controller_identity,
  target_allowed_by_controller_policy,
}
use rustdesk_server_nemo.Management.Policy.{management_policy_from_peer}
use rustdesk_server_nemo.Management.Gates.{
  row_rejection, controller_policy_rejection, controller_policy_rejection_from_field, user_of_token,
  nemo_user_connection_rejection, nemo_user_rejection_from_field, control_permissions_for,
}
use rustdesk_server_nemo.Peers.{is_peer_allowed_for_control, peer_status, get}
use rustdesk_server_nemo.Peers.Table.{get_peer}
use rustdesk_server_nemo.Rendezvous.Net.{ip_eq, addr_eq}
use rustdesk_server_nemo.Rendezvous.State.{Hbbs, PendingRelay, put_at}
use rustdesk_server_nemo.Rendezvous.Reach.{
  push_to_peer, send_to_tcp, note_pending, park_sink, get_pk, get_relay_server, is_lan,
}
use rustdesk_server_nemo.Rendezvous.Punch.{gates}
use rustdesk_server_nemo.Rendezvous.Grants.{
  forward, handle_request_relay, answered_server, answered_key, answer, is_impostor,
  handle_relay_response,
}
use rustdesk_server_nemo.Rendezvous.Dispatch.{request_relay, Channel, Fresh, handle_tcp}
use rustdesk_server_nemo.Rendezvous.Grants.Sends.{IsDiscreet}
use rustdesk_server_nemo.Rendezvous.Dispatch.Tokens.Frames.{handle_tcp-IsDiscreet}
use rustdesk_server_nemo.Rendezvous.Dispatch.Brokered.{
  Reach, here, next, frame, WasBrokered, relay_response-brokered,
}
use rustdesk_server_nemo.Rendezvous.Tests.Data.{
  out, server, target, target_peer, target_device, controller_addr, asks, answers,
}

abbrev is_nat_type : ℕ → Bool
is_nat_type n = true

-- The controller's connection, which proved nothing.
abbrev channel : Channel
channel = record {
  addr = controller_addr;
  conn = 3;
  sink = some 3;
  authed = none;
  key = [];
  ws = false;
}

abbrev fresh : Fresh
fresh = record { now = 5001000; guid = codes "g"; nonce = [] }

abbrev asked : Hbbs out
asked = (handle_tcp out is_nat_type (request_relay asks) channel fresh server).0

reached : Reach out is_nat_type server asked
reached = next here (frame (request_relay asks) channel fresh)

abbrev pending : PendingRelay
pending = record { target_id = target; source_id = codes "333444"; expires = 5061000 }

pending_run : asked.pending_relay controller_addr ≡ some pending
unfolding handle_tcp handle_request_relay forward gates park_sink push_to_peer note_pending
    controller_policy_rejection_from_field controller_policy_rejection row_rejection
    resolve_controller_identity resolve_marker controller_source_any management_policy_from_peer
    target_allowed_by_controller_policy nemo_user_rejection_from_field
    nemo_user_connection_rejection user_of_token control_permissions_for is_peer_allowed_for_control
    peer_status get_peer find str_eq trim is_whitespace lookup addr_eq ip_eq default_config
pending_run = refl

asked_records : length asked.records ≡ 1
unfolding handle_tcp handle_request_relay forward gates park_sink push_to_peer note_pending
    controller_policy_rejection_from_field controller_policy_rejection row_rejection
    resolve_controller_identity resolve_marker controller_source_any management_policy_from_peer
    target_allowed_by_controller_policy nemo_user_rejection_from_field
    nemo_user_connection_rejection user_of_token control_permissions_for is_peer_allowed_for_control
    peer_status get_peer find str_eq trim is_whitespace lookup addr_eq ip_eq default_config
asked_records = refl

-- The target answers on its own connection, which proved its id.
abbrev answered : Hbbs out
answered =
    handle_relay_response out answers (target_peer.socket_addr) (some 4) (some target_device) []
      5002000 asked

answered_records : length answered.records ≡ 3
unfolding handle_tcp handle_request_relay forward gates park_sink push_to_peer note_pending
    controller_policy_rejection_from_field controller_policy_rejection row_rejection
    resolve_controller_identity resolve_marker controller_source_any management_policy_from_peer
    target_allowed_by_controller_policy nemo_user_rejection_from_field
    nemo_user_connection_rejection user_of_token control_permissions_for is_peer_allowed_for_control
    peer_status get_peer find str_eq trim is_whitespace lookup addr_eq ip_eq default_config
    handle_relay_response answer answered_server answered_key get_pk get get_relay_server is_lan
    send_to_tcp
answered_records = refl

moved : answered.records ≢ asked.records
moved e = absurd (ground (arith, asked_records, answered_records, ap (λ rs. length rs) e))

relay_response-brokered_example :
    (p : PendingRelay) × (asked.pending_relay controller_addr ≡ some p)
    × (answered.pending_relay controller_addr ≡ none)
    × (is_impostor out (some target_device) p ≡ false)
    × WasBrokered out is_nat_type reached controller_addr p
relay_response-brokered_example =
    relay_response-brokered out is_nat_type answers (target_peer.socket_addr) (some 4)
      (some target_device) [] 5002000 reached (λ a. refl) (inr moved)

-- An entry that has expired is answered all the same, by the grant, its record and the target's.
abbrev waiting : Hbbs out
waiting = record server { pending_relay = put_at controller_addr pending (λ a. none) }

late_run :
    length
      (handle_relay_response out answers
        (target_peer.socket_addr)
        (some 4)
        (some target_device)
        []
        6000000
        waiting).records
    ≡ 2
unfolding handle_relay_response answer answered_server answered_key get_pk get get_relay_server
    is_lan send_to_tcp str_eq addr_eq ip_eq
late_run = refl

server-IsDiscreet : IsDiscreet out server
unfolding any
server-IsDiscreet = refl

-- The request names its controller; what is sent on does not.
handle_tcp-IsDiscreet_example : IsDiscreet out asked
handle_tcp-IsDiscreet_example =
    handle_tcp-IsDiscreet out is_nat_type (request_relay asks) channel fresh server
      server-IsDiscreet

sent_on_run : length asked.sent ≡ 1
unfolding handle_tcp handle_request_relay forward gates park_sink push_to_peer note_pending
    controller_policy_rejection_from_field controller_policy_rejection row_rejection
    resolve_controller_identity resolve_marker controller_source_any management_policy_from_peer
    target_allowed_by_controller_policy nemo_user_rejection_from_field
    nemo_user_connection_rejection user_of_token control_permissions_for is_peer_allowed_for_control
    peer_status get_peer find str_eq trim is_whitespace lookup addr_eq ip_eq default_config
sent_on_run = refl
