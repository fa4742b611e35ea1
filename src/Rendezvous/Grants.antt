-- ===== src/Rendezvous/Grants.antt =====
-- A controller asks for the relay and its target answers (src/rendezvous_server.rs, the arms RequestRelay
-- and RelayResponse of `handle_tcp`, and the answers to a punch).
pub mod Pending
pub mod Sends
use rustdesk_server_nemo.Base.{
  ℕ, ◌/◌, Bool, true, false, not, ◌&&◌, ◌||◌, Option, none, some, List, [], ◌∷◌, Str, codes, str_eq,
  is_empty, if◌then◌else◌,
}
use rustdesk_server_nemo.Management.Controller.{controller_source_any}
use rustdesk_server_nemo.Management.Gates.{id_of, control_permissions_for}
use rustdesk_server_nemo.Relay.Grant.{relay_grant_mint, relay_grant_ttl_secs}
use rustdesk_server_nemo.Peers.{Peer}
use rustdesk_server_nemo.Rendezvous.Net.{Ip, Addr}
use rustdesk_server_nemo.Rendezvous.State.{
  Outside, Hbbs, AuthedDevice, PendingRelay, RequestRelay, RelayResponse, PunchHoleSent, LocalAddr,
  PunchHoleResponse, Message, request_relay, relay_answer, punch_answer, relay_request, relay_grant,
  relay_response, punch_response, local_addr_response, log, send_to_sink, forget_at,
}
use rustdesk_server_nemo.Rendezvous.Reach.{
  is_lan, get_relay_server, note_pending, push_to_peer, send_to_tcp, get_pk,
}
use rustdesk_server_nemo.Rendezvous.Punch.{gates, proved_peer}

-- `RelayResponse::default()`.
abbrev pub empty_response : RelayResponse
empty_response = record {
  socket_addr = [];
  uuid = [];
  relay_server = [];
  id = [];
  pk = [];
  version = [];
  refuse_reason = [];
}

module _ (out : Outside) where
  -- Who asks: the id that was proved, or the one that is claimed.
  abbrev pub asking : Option AuthedDevice → RequestRelay → Str
  asking none rf = id_of (controller_source_any out.decode rf.nemo_source rf.licence_key)
  asking (some who) rf =
      if is_empty who.peer_id
      then id_of (controller_source_any out.decode rf.nemo_source rf.licence_key)
      else who.peer_id

  -- The request as the target gets it: with the controller's address, and without its token.
  abbrev pub forwarded_request : RequestRelay → Addr → Option ℕ → RequestRelay
  forwarded_request rf addr permissions = record rf {
    socket_addr = out.encode_addr addr;
    licence_key = [];
    nemo_source = none;
    control_permissions = permissions;
  }

  -- The request goes to its target, which is in memory.
  unfoldable pub forward :
      RequestRelay → Addr → Option AuthedDevice → Peer → ℕ → Hbbs out → Hbbs out
  forward rf addr authed peer now s =
      let (w, permissions) =
        control_permissions_for out.to_lowercase out.permission_index out.decode rf.nemo_source
          rf.licence_key now s.world in
      note_pending out addr rf.id (asking authed rf) now (
        push_to_peer out rf.id (request_relay (forwarded_request rf addr permissions))
          peer.socket_addr (record s { world = w }))

  -- The arm of RequestRelay, after its sink waits.
  unfoldable pub handle_request_relay :
      RequestRelay → Addr → Option AuthedDevice → ℕ → Hbbs out → Hbbs out
  unfolding forward
  handle_request_relay rf addr authed now s =
      let (s1, refused) =
        gates out (not (is_empty rf.id)) rf.nemo_source rf.licence_key rf.id
          (codes "relay target is not allowed by TBF policy") addr authed now s in
      elim refused [
        | some reason ↦
            send_to_tcp out
              (relay_answer (record empty_response { id = rf.id; refuse_reason = reason })) addr s1
        | none ↦
            let is_there : Bool = elim (s1.pm.map rf.id) [ none ↦ false | some _ ↦ true ] in
            let s2 : Hbbs out = elim (s1.pm.map rf.id) [
              | none ↦ s1
              | some peer ↦ forward rf addr authed peer now s1
            ] in
            if is_empty rf.id then s2 else log out (relay_request rf.id addr is_there) s2
      ]

  -- The relay server that the controller is told.
  unfoldable pub answered_server : Str → Addr → Hbbs out → Hbbs out × Str
  answered_server server addr_b s =
      if is_empty server
      then (s, server)
      else if is_lan out addr_b s
      then (s, s.inner.local_ip)
      else if str_eq server s.inner.local_ip
      then get_relay_server out s
      else (s, server)

  -- The key that the controller is told.
  unfoldable pub answered_key : RelayResponse → ℕ → Hbbs out → Hbbs out × Str
  answered_key rr now s = if is_empty rr.id then (s, rr.pk) else get_pk out rr.version rr.id now s

  -- The id and the key of an answer exclude each other (a `oneof`), so `set_pk` clears the id.
  -- The grant is minted: to the target on its connection, and on to the controller.
  unfoldable pub answer :
      RelayResponse
      → Addr
      → Addr
      → Option ℕ
      → PendingRelay
      → out.scheme.SecretKey
      → List ℕ
      → ℕ
      → Hbbs out
      → Hbbs out
  answer rr addr addr_b sink pending sk nonce now s =
      let uuid = relay_grant_mint out.scheme sk nonce (now / 1000) relay_grant_ttl_secs in
      let s1 = send_to_sink out sink (relay_answer (record empty_response { uuid = uuid })) (
        log out (relay_grant (out.relay_session_label uuid) pending.source_id pending.target_id)
          s) in
      let (s2, pk) = answered_key rr now s1 in
      let (s3, server) = answered_server rr.relay_server addr_b s2 in
      let s4 = if is_empty rr.id then s3 else log out (relay_response rr.id addr server) s3 in
      send_to_tcp out
        (relay_answer
          (record rr { socket_addr = []; uuid = uuid; id = []; pk = pk; relay_server = server }))
        addr_b s4

  -- The answer comes from a connection that proved another id.
  abbrev pub is_impostor : Option AuthedDevice → PendingRelay → Bool
  is_impostor none pending = false
  is_impostor (some who) pending = not (str_eq who.peer_id pending.target_id)

  -- The arm of RelayResponse; `nonce` is fresh.
  unfoldable pub handle_relay_response :
      RelayResponse → Addr → Option ℕ → Option AuthedDevice → List ℕ → ℕ → Hbbs out → Hbbs out
  handle_relay_response rr addr sink authed nonce now s =
      let addr_b = out.decode_addr rr.socket_addr in
      let s1 : Hbbs out = record s { pending_relay = forget_at addr_b s.pending_relay } in
      elim (s.pending_relay addr_b) [
        | none ↦ s1
        | some pending ↦ if is_impostor authed pending then s1 else elim s.inner.sk [
          | none ↦ s1
          | some sk ↦ answer rr addr addr_b sink pending sk nonce now s1
        ]
      ]

  -- `handle_hole_sent` over TCP; `valid_nat_type` is that the protocol has the number.
  unfoldable pub handle_hole_sent : (ℕ → Bool) → PunchHoleSent → Addr → ℕ → Hbbs out → Hbbs out
  handle_hole_sent valid_nat_type phs addr now s =
      let (s1, pk) =
        get_pk out phs.version phs.id now
          (log out (punch_response phs.id addr phs.relay_server phs.nat_type) s) in
      send_to_tcp out
        (punch_answer (record {
          socket_addr = out.encode_addr addr;
          pk = pk;
          relay_server = phs.relay_server;
          socket_addr_v6 = phs.socket_addr_v6;
          upnp_port = phs.upnp_port;
          nat_type = if valid_nat_type phs.nat_type then phs.nat_type else 0;
          is_local = false;
        }))
        (out.decode_addr phs.socket_addr) s1

  -- `handle_local_addr` over TCP.
  unfoldable pub handle_local_addr : LocalAddr → Addr → ℕ → Hbbs out → Hbbs out
  handle_local_addr la addr now s =
      let (s1, pk) =
        get_pk out la.version la.id now
          (log out (local_addr_response la.id addr la.relay_server) s) in
      send_to_tcp out
        (punch_answer (record {
          socket_addr = la.local_addr;
          pk = pk;
          relay_server = la.relay_server;
          socket_addr_v6 = la.socket_addr_v6;
          upnp_port = 0;
          nat_type = 0;
          is_local = true;
        }))
        (out.decode_addr la.socket_addr) s1
