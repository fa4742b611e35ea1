-- ===== src/Rendezvous/Dispatch.antt =====
-- What a frame does, by its kind (src/rendezvous_server.rs, `handle_tcp` and `handle_udp`), and which peers
-- are online (`handle_online_request`).
pub mod Entries
pub mod Frames
pub mod Brokered
pub mod Tokens
use Prim.Native.Nat.{bit_or}
use rustdesk_server_nemo.Base.{
  ℕ, zero, suc, ◌+◌, ◌-◌, ◌*◌, ◌/◌, ◌%◌, ◌^◌, Bool, true, false, not, ◌&&◌, ◌||◌, Option, none,
  some, List, [], ◌∷◌, Str, codes, str_eq, is_empty, retain, ltb, length, drop, if◌then◌else◌,
}
use rustdesk_server_nemo.Peers.{Peer, PeerMap, is_peer_blocked}
use rustdesk_server_nemo.Rendezvous.Net.{Ip, Addr, is_loopback}
use rustdesk_server_nemo.Rendezvous.State.{
  Outside, Inner, Hbbs, AuthedDevice, RequestRelay, RelayResponse, PunchHoleRequest, PunchHoleSent,
  LocalAddr, Message, register_peer_response, register_pk_response, test_nat_response,
  software_answer, peer_seen, policy_rejection, log, send_to_sink, to_udp,
}
use rustdesk_server_nemo.Rendezvous.Registration.{
  RegisterPk, register_pk_core, update_addr_core, register_peer_push,
}
use rustdesk_server_nemo.Rendezvous.Reach.{park_sink}
use rustdesk_server_nemo.Rendezvous.Punch.{reg_timeout, handle_tcp_punch_hole_request}
use rustdesk_server_nemo.Rendezvous.Grants.{
  handle_request_relay, handle_relay_response, handle_hole_sent, handle_local_addr,
}

-- The union of `RendezvousMessage`, as far as a peer's frame is read.
pub data Frame : Type 0 where
  punch_hole_request : PunchHoleRequest → Frame
  request_relay : RequestRelay → Frame
  relay_response : RelayResponse → Frame
  punch_hole_sent : PunchHoleSent → Frame
  local_addr : LocalAddr → Frame
  test_nat_request : ℕ → Frame
  register_peer : Str → ℕ → Frame
  register_pk : RegisterPk → Frame
  configure_update : ℕ → List Str → Frame
  software_update : Str → Frame
  other : Frame

-- A connection as a frame meets it: its address and number, whether its sink is still its own, what it
-- proved, the server key, and whether it is a websocket.
pub record Channel : Type 0 where
  pub addr : Addr
  pub conn : ℕ
  pub sink : Option ℕ
  pub authed : Option AuthedDevice
  pub key : Str
  pub ws : Bool

-- The connection proved another id than this one.
abbrev pub claims_other : Option AuthedDevice → Str → Bool
claims_other none id = false
claims_other (some who) id = not (str_eq who.peer_id id)

-- What is fresh in a run of a handler: the time, a guid, and a grant's nonce.
pub record Fresh : Type 0 where
  pub now : ℕ
  pub guid : Str
  pub nonce : List ℕ

module _ (out : Outside) (valid_nat_type : ℕ → Bool) where
  -- The ConfigUpdate of the server's own configuration.
  abbrev own_configuration : Hbbs out → ℕ × List Str
  own_configuration s = (s.inner.serial, s.rendezvous_servers)

  -- The arm of RegisterPeer over TCP; `true` keeps the connection.
  unfoldable pub heartbeat : Str → ℕ → Channel → ℕ → Hbbs out → Hbbs out × Bool
  heartbeat id serial c now s =
      if is_empty id
      then (s, true)
      else (let s1 = log out (peer_seen id c.addr) s in
          if is_peer_blocked id s1.pm
          then (log out (policy_rejection id c.addr (codes "peer is blocked")) s1, false)
          else if claims_other c.authed id
          then (s1, false)
          else (let (s2, request_pk) =
                update_addr_core out id c.addr now (register_peer_push out id c.conn s1) in
              let s3 = send_to_sink out c.sink (register_peer_response request_pk) s2 in
              (
                if ltb serial s3.inner.serial
                    then send_to_sink out c.sink
                        (Message.configure_update s3.inner.serial s3.rendezvous_servers) s3
                    else s3,
                true,
              )))

  -- The arm of RegisterPk over TCP.
  unfoldable pub register_over_tcp : RegisterPk → Channel → Fresh → Hbbs out → Hbbs out × Bool
  register_over_tcp rk c fresh s =
      if claims_other c.authed rk.id
      then (s, false)
      else (let (s1, answer) =
            register_pk_core out rk c.addr fresh.guid fresh.now
              (register_peer_push out rk.id c.conn s) in
          (
            elim answer [
              | none ↦ s1
              | some result ↦ send_to_sink out c.sink (register_pk_response result) s1
            ],
            true,
          ))

  -- `handle_tcp`: what is left of the sink, and whether the connection stays.
  unfoldable pub handle_tcp : Frame → Channel → Fresh → Hbbs out → Hbbs out × Option ℕ × Bool
  unfolding heartbeat register_over_tcp
  handle_tcp (punch_hole_request ph) c fresh s = (
    handle_tcp_punch_hole_request out c.addr ph c.key c.ws c.authed fresh.now
        (park_sink out c.sink c.addr s),
    none,
    true,
  )
  handle_tcp (request_relay rf) c fresh s = (
    handle_request_relay out rf c.addr c.authed fresh.now (park_sink out c.sink c.addr s),
    none,
    true,
  )
  handle_tcp (relay_response rr) c fresh s =
      (handle_relay_response out rr c.addr c.sink c.authed fresh.nonce fresh.now s, c.sink, false)
  handle_tcp (punch_hole_sent phs) c fresh s =
      (handle_hole_sent out valid_nat_type phs c.addr fresh.now s, c.sink, false)
  handle_tcp (local_addr la) c fresh s =
      (handle_local_addr out la c.addr fresh.now s, c.sink, false)
  handle_tcp (test_nat_request serial) c fresh s = (
    send_to_sink out c.sink
        (test_nat_response c.addr.port
          (if ltb serial s.inner.serial then some (own_configuration s) else none))
        s,
    c.sink,
    false,
  )
  handle_tcp (register_peer id serial) c fresh s =
      let (s1, keep) = heartbeat id serial c fresh.now s in (s1, c.sink, keep)
  handle_tcp (register_pk rk) c fresh s =
      let (s1, keep) = register_over_tcp rk c fresh s in (s1, c.sink, keep)
  handle_tcp (configure_update serial servers) c fresh s = (s, c.sink, false)
  handle_tcp (software_update url) c fresh s = (s, c.sink, false)
  handle_tcp other c fresh s = (s, c.sink, false)

  -- A datagram to an address.
  abbrev pub send_udp : Addr → Message → Hbbs out → Hbbs out
  send_udp addr msg s = record s { sent = to_udp addr msg ∷ s.sent }

  -- `handle_udp`; `valid_server` is `test_if_valid_server`, which asks the resolver.
  unfoldable pub handle_udp : (Str → Bool) → Frame → Addr → Fresh → Hbbs out → Hbbs out
  handle_udp valid_server (register_peer id serial) addr fresh s =
      if not s.udp_registration || is_empty id
      then s
      else (let s1 = log out (peer_seen id addr) s in
          if is_peer_blocked id s1.pm
          then log out (policy_rejection id addr (codes "peer is blocked")) s1
          else (let (s2, request_pk) = update_addr_core out id addr fresh.now s1 in
              let s3 = send_udp addr (register_peer_response request_pk) s2 in
              if ltb serial s3.inner.serial
              then send_udp addr (Message.configure_update s3.inner.serial s3.rendezvous_servers) s3
              else s3))
  handle_udp valid_server (register_pk rk) addr fresh s =
      if not s.udp_registration
      then s
      else (let (s1, answer) = register_pk_core out rk addr fresh.guid fresh.now s in
          elim answer [ none ↦ s1 | some result ↦ send_udp addr (register_pk_response result) s1 ])
  handle_udp valid_server (configure_update serial servers) addr fresh s =
      if is_loopback (out.try_into_v4 addr).ip && ltb s.inner.serial serial
      then record s {
        inner = record (s.inner) { serial = serial };
        rendezvous_servers = retain (λ x. not (is_empty x) && valid_server x) servers;
      }
      else s
  handle_udp valid_server (software_update url) addr fresh s =
      if not (is_empty s.inner.version) && not (str_eq url s.inner.version)
      then send_udp addr (software_answer s.inner.software_url) s
      else s
  handle_udp valid_server (punch_hole_request ph) addr fresh s = s
  handle_udp valid_server (request_relay rf) addr fresh s = s
  handle_udp valid_server (relay_response rr) addr fresh s = s
  handle_udp valid_server (punch_hole_sent phs) addr fresh s = s
  handle_udp valid_server (local_addr la) addr fresh s = s
  handle_udp valid_server (test_nat_request serial) addr fresh s = s
  handle_udp valid_server other addr fresh s = s

-- A peer is online in the answer to an OnlineRequest.
abbrev pub is_online : ℕ → PeerMap → Str → Bool
is_online now pm id = elim (pm.map id) [
  | none ↦ false
  | some peer ↦ ltb (now - peer.last_reg_time) reg_timeout
]

-- `states[i] |= bit`.
unfoldable pub or_at : ℕ → ℕ → List ℕ → List ℕ
or_at i bit [] = []
or_at zero bit (x ∷ xs) = bit_or x bit ∷ xs
or_at (suc i) bit (x ∷ xs) = x ∷ or_at i bit xs

-- The loop of `handle_online_request`, from the index `i` on.
unfoldable pub mark_online : (Str → Bool) → ℕ → List Str → List ℕ → List ℕ
mark_online online i [] states = states
mark_online online i (id ∷ ids) states =
    mark_online online (i + 1) ids
      (if online id then or_at (i / 8) (2 ^ (7 - i % 8)) states else states)

abbrev zeros : ℕ → List ℕ
zeros zero = []
zeros (suc n) = 0 ∷ zeros n

-- `handle_online_request`: the bytes of the answer.
unfoldable pub handle_online_request : ℕ → List Str → PeerMap → List ℕ
unfolding or_at mark_online
handle_online_request now peers pm =
    mark_online (is_online now pm) 0 peers (zeros ((length peers + 7) / 8))
