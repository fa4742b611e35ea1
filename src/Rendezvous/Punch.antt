-- ===== src/Rendezvous/Punch.antt =====
-- A controller asks for a way to a peer (src/rendezvous_server.rs, `handle_punch_hole_request`).
use rustdesk_server_nemo.Base.{
  ℕ, ◌-◌, Bool, true, false, not, ◌&&◌, ◌||◌, Option, none, some, List, [], ◌∷◌, ◌++◌, Str, codes,
  length, take, drop, str_eq, is_empty, ltb, leb, if◌then◌else◌,
}
use mathlib.Core.List.{reverse}
use rustdesk_server_nemo.Management.Gates.{
  is_peer_allowed, controller_policy_rejection_from_field, nemo_user_rejection_from_field,
  control_permissions_for,
}
use rustdesk_server_nemo.Management.Controller.{NemoSource}
use rustdesk_server_nemo.Peers.{get}
use rustdesk_server_nemo.Rendezvous.Net.{Addr, ip_eq}
use rustdesk_server_nemo.Rendezvous.Blocker.{secs_since}
use rustdesk_server_nemo.Rendezvous.State.{
  Outside, Hbbs, AuthedDevice, PunchReqEntry, PunchHoleRequest, Message, punch_failure, punch_hole,
  fetch_local_addr, id_not_exist, offline, license_mismatch, policy_rejection,
  connection_negotiation, log,
}
use rustdesk_server_nemo.Rendezvous.Reach.{
  is_lan, get_relay_server, note_pending, push_to_peer, send_to_tcp,
}

-- `REG_TIMEOUT`, `PUNCH_REQ_DEDUPE_SEC` and `MAX_PUNCH_REQS`.
abbrev pub reg_timeout : ℕ
reg_timeout = 30000

abbrev pub punch_req_dedupe_sec : ℕ
punch_req_dedupe_sec = 60

abbrev pub max_punch_reqs : ℕ
max_punch_reqs = 10000

-- `NatType::SYMMETRIC`.
abbrev pub symmetric : ℕ
symmetric = 2

-- Who a connection proved to be.
abbrev pub proved_peer : Option AuthedDevice → Option Str
proved_peer none = none
proved_peer (some who) = some who.peer_id

abbrev pub proved_key : Option AuthedDevice → Option Str
proved_key none = none
proved_key (some who) = some who.device_pub_b64

-- The search of the last entries, newest first: the newest one of the two decides.
unfoldable pub is_repeated : Str → Str → ℕ → List PunchReqEntry → Bool
is_repeated from_ip to_id now [] = false
is_repeated from_ip to_id now (e ∷ es) =
    if str_eq e.from_ip from_ip && str_eq e.to_id to_id
    then ltb (secs_since e.tm now) punch_req_dedupe_sec
    else is_repeated from_ip to_id now es

-- The recording of a request in `PUNCH_REQS`, oldest first.
unfoldable pub note_punch_req : Str → Str → Str → ℕ → List PunchReqEntry → List PunchReqEntry
unfolding is_repeated
note_punch_req from_ip to_ip to_id now reqs =
    let entry : PunchReqEntry = record {
      tm = now;
      from_ip = from_ip;
      to_ip = to_ip;
      to_id = to_id;
    } in
    let all =
      if is_repeated from_ip to_id now (take 30 (reverse reqs))
      then reqs
      else reqs ++ (entry ∷ []) in
    drop (length all - max_punch_reqs) all

module _ (out : Outside) where
  -- The gates that a request for a session passes, with what is written on the way: `none` is a pass.
  -- `named` is that the target is looked at.
  unfoldable pub gates :
      Bool
      → Option NemoSource
      → Str
      → Str
      → Str
      → Addr
      → Option AuthedDevice
      → ℕ
      → Hbbs out
      → Hbbs out × Option Str
  gates named proto source_field target_id target_refusal addr authed now s =
      if named && not (is_peer_allowed s.company_only target_id s.pm)
      then (log out (policy_rejection target_id addr target_refusal) s, some target_refusal)
      else elim (controller_policy_rejection_from_field out.policy_text out.decode s.pm proto
          source_field target_id (proved_peer authed)) [
            | some (controller_id, reason) ↦
                (log out (policy_rejection controller_id addr reason) s, some reason)
            | none ↦
                let (w, rejection) =
                  nemo_user_rejection_from_field out.to_lowercase out.decode proto source_field
                    target_id (proved_key authed) now s.world in
                let s1 : Hbbs out = record s { world = w } in
                elim rejection [
                  | some (controller_id, reason) ↦
                      (log out (policy_rejection controller_id addr reason) s1, some reason)
                  | none ↦ (s1, none)
                ]
          ]

  -- The request may go direct inside one network.
  abbrev pub is_same_intranet : Bool → Bool → Bool → Addr → Addr → Bool
  is_same_intranet ws peer_is_lan is_lan peer_addr addr =
      not ws && ((peer_is_lan && is_lan) || ip_eq peer_addr.ip addr.ip)

  abbrev xor : Bool → Bool → Bool
  xor a b = if a then not b else b

  abbrev pub source_of : Option AuthedDevice → Str
  source_of none = []
  source_of (some who) = who.peer_id

  -- The answer to a request that passed, for a peer that is online.
  unfoldable pub negotiate :
      Addr
      → PunchHoleRequest
      → Bool
      → Option AuthedDevice
      → Addr
      → ℕ
      → Hbbs out
      → Hbbs out × Message
  negotiate addr ph ws authed peer_addr now s =
      let peer_is_lan = is_lan out peer_addr s in
      let here_is_lan = is_lan out addr s in
      let (s1, rotated) = get_relay_server out s in
      let forced = s.always_use_relay || (ph.force_relay || xor peer_is_lan here_is_lan) in
      let relay_server = if forced && peer_is_lan then s.inner.local_ip else rotated in
      let nat_type = if forced then symmetric else ph.nat_type in
      let same_intranet = is_same_intranet ws peer_is_lan here_is_lan peer_addr addr in
      let (w, permissions) =
        control_permissions_for out.to_lowercase out.permission_index out.decode ph.nemo_source
          ph.version now s1.world in
      let s2 =
        log out
          (connection_negotiation ph.id addr peer_addr ph.nat_type forced same_intranet
            relay_server)
          (record s1 { world = w }) in
      if same_intranet
      then (
        s2,
        fetch_local_addr (record {
          socket_addr = out.encode_addr addr;
          relay_server = relay_server;
          control_permissions = permissions;
          socket_addr_v6 = ph.socket_addr_v6;
        }),
      )
      else (
        note_pending out addr ph.id (source_of authed) now s2,
        punch_hole (record {
          socket_addr = out.encode_addr addr;
          nat_type = nat_type;
          relay_server = relay_server;
          control_permissions = permissions;
          udp_port = ph.udp_port;
          upnp_port = ph.upnp_port;
          socket_addr_v6 = ph.socket_addr_v6;
          force_relay = ph.force_relay;
        }),
      )

  -- `handle_punch_hole_request`: the answer, and the peer that it goes to if it is not the controller.
  unfoldable pub handle_punch_hole_request :
      Addr
      → PunchHoleRequest
      → Str
      → Bool
      → Option AuthedDevice
      → ℕ
      → Hbbs out
      → Hbbs out × Message × Option (Str × Addr)
  handle_punch_hole_request addr ph key ws authed now s =
      if not (is_empty key) && not (str_eq ph.licence_key key)
      then (
        log out (policy_rejection ph.id addr (codes "invalid server key")) s,
        punch_failure license_mismatch [],
        none,
      )
      else (let (s1, refused) =
            gates true ph.nemo_source ph.version ph.id
              (codes "target peer is not allowed by TBF policy") addr authed now s in
          elim refused [
            | some reason ↦ (s1, punch_failure offline reason, none)
            | none ↦
                let (pm, found) = get out.json ph.id now s1.pm in
                let s2 : Hbbs out = record s1 { pm = pm } in
                elim found [
                  | none ↦ (s2, punch_failure id_not_exist [], none)
                  | some peer ↦
                      if leb reg_timeout (now - peer.last_reg_time)
                      then (s2, punch_failure offline [], none)
                      else (let s3 : Hbbs out = record s2 {
                        punch_reqs =
                            note_punch_req (out.ip_to_string (out.try_into_v4 addr).ip)
                              (out.ip_to_string (out.try_into_v4 peer.socket_addr).ip) ph.id now
                              s2.punch_reqs;
                      } in
                          let (s4, msg) = negotiate addr ph ws authed peer.socket_addr now s3 in
                          (s4, msg, some (ph.id, peer.socket_addr)))
                ]
          ])

  -- `handle_tcp_punch_hole_request`.
  unfoldable pub handle_tcp_punch_hole_request :
      Addr → PunchHoleRequest → Str → Bool → Option AuthedDevice → ℕ → Hbbs out → Hbbs out
  handle_tcp_punch_hole_request addr ph key ws authed now s =
      let (s1, msg, to_peer) = handle_punch_hole_request addr ph key ws authed now s in
      elim to_peer [
        | some (id, peer_addr) ↦ push_to_peer out id msg peer_addr s1
        | none ↦ send_to_tcp out msg addr s1
      ]
