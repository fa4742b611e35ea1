-- ===== src/Rendezvous/Dispatch/Tokens.antt =====
-- The requests for a session and their answers keep the controller's token on the server
-- (src/rendezvous_server.rs, the arms of `handle_tcp`).
pub mod Frames
use rustdesk_server_nemo.Base.{
  ℕ, ◌-◌, ◌≡◌, refl, sym, ap, ◌∙◌, ◌⊎◌, inl, inr, Bool, true, false, not, ◌&&◌, ◌||◌, Option, none,
  some, List, [], ◌∷◌, any, Str, codes, str_eq, is_empty, leb, ltb, if◌then◌else◌, arith,
  Bool-cases, Option-cases,
}
use rustdesk_server_nemo.Management.Gates.{control_permissions_for}
use rustdesk_server_nemo.Peers.{Peer, get, is_peer_blocked}
use rustdesk_server_nemo.Rendezvous.Net.{Addr, is_loopback}
use rustdesk_server_nemo.Rendezvous.State.{
  Outside, Hbbs, AuthedDevice, PendingRelay, Record, RequestRelay, RelayResponse, PunchHoleSent,
  LocalAddr, PunchHoleRequest, Message, relay_answer, log, send_to_sink, peer_seen,
  policy_rejection, register_peer_response, register_pk_response,
}
use rustdesk_server_nemo.Rendezvous.Registration.{
  RegisterPk, register_peer_push, register_pk_core, update_addr_core,
}
use rustdesk_server_nemo.Rendezvous.Reach.{
  is_lan, get_relay_server, note_pending, park_sink, push_to_peer, send_to_tcp, get_pk,
}
use rustdesk_server_nemo.Rendezvous.Punch.{
  gates, negotiate, handle_punch_hole_request, handle_tcp_punch_hole_request, reg_timeout,
  is_same_intranet, note_punch_req,
}
use rustdesk_server_nemo.Rendezvous.Grants.{
  forward, forwarded_request, empty_response, handle_request_relay, handle_relay_response, answer,
  answered_server, answered_key, is_impostor, handle_hole_sent, handle_local_addr,
}
use rustdesk_server_nemo.Rendezvous.Grants.Sends.{
  is_tokenless, SameSent, IsDiscreet, AreTokenless-same, get_relay_server-sent,
  push_to_peer-IsDiscreet, send_to_sink-IsDiscreet, send_to_tcp-IsDiscreet, park_sink-sent,
  get_pk-sent, gates-sent, register_peer_push-sent, update_addr_core-sent, register_pk_core-sent,
}
use rustdesk_server_nemo.Rendezvous.Dispatch.{
  Frame, punch_hole_request, request_relay, relay_response, punch_hole_sent, local_addr,
  test_nat_request, register_peer, register_pk, configure_update, software_update, other, Channel,
  Fresh, claims_other, heartbeat, register_over_tcp, handle_tcp, handle_udp,
}

module _ (out : Outside) where
  negotiate-sent :
      (addr : Addr) (ph : PunchHoleRequest) (ws : Bool) (authed : Option AuthedDevice)
      (peer_addr : Addr) (now : ℕ) (s : Hbbs out)
      → let (s', msg) = negotiate out addr ph ws authed peer_addr now s in
        SameSent out s s' × (is_tokenless msg ≡ true)
  unfolding negotiate note_pending is_tokenless
  negotiate-sent addr ph ws authed peer_addr now s =
      elim (Bool-cases
        (is_same_intranet out ws (is_lan out peer_addr s) (is_lan out addr s) peer_addr addr)) [
          | inl e ↦ (ground (arith, get_relay_server-sent out s), ground arith)
          | inr e ↦ (ground (arith, get_relay_server-sent out s), ground arith)
        ]

  punch-sent :
      (addr : Addr) (ph : PunchHoleRequest) (key : Str) (ws : Bool) (authed : Option AuthedDevice)
      (now : ℕ) (s : Hbbs out)
      → let (s', msg, _) = handle_punch_hole_request out addr ph key ws authed now s in
        SameSent out s s' × (is_tokenless msg ≡ true)
  unfolding handle_punch_hole_request is_tokenless
  punch-sent addr ph key ws authed now s =
      elim (Bool-cases (not (is_empty key) && not (str_eq ph.licence_key key))) [
        | inl e ↦ rw e (refl, refl)
        | inr e ↦ elim (Option-cases gated.1) [
          | inr (reason, f) ↦ rw (e, f) (same, refl)
          | inl f ↦ elim (Option-cases (get out.json ph.id now gated.0.pm).1) [
            | inl g ↦ rw (e, f, g) (same, refl)
            | inr (peer, g) ↦ elim (Bool-cases (leb reg_timeout (now - peer.last_reg_time))) [
              | inl late ↦ rw (e, f, g, late) (same, refl)
              | inr online ↦
                  let (sent, tokenless) =
                    negotiate-sent addr ph ws authed peer.socket_addr now (met peer) in
                  rw (e, f, g, online) (sent ∙ same, tokenless)
            ]
          ]
        ]
      ]
    where
      gated : Hbbs out × Option Str
      gated =
          gates out true ph.nemo_source ph.version ph.id
            (codes "target peer is not allowed by TBF policy") addr authed now s

      same : gated.0.sent ≡ s.sent
      same = gates-sent out true ph.nemo_source ph.version ph.id _ addr authed now s

      met : Peer → Hbbs out
      met peer = record gated.0 {
        pm = (get out.json ph.id now gated.0.pm).0;
        punch_reqs =
            note_punch_req (out.ip_to_string (out.try_into_v4 addr).ip)
              (out.ip_to_string (out.try_into_v4 peer.socket_addr).ip) ph.id now gated.0.punch_reqs;
      }

  pub punch_frame-IsDiscreet :
      (ph : PunchHoleRequest) (c : Channel) (now : ℕ) (s : Hbbs out)
      → IsDiscreet out s
      → IsDiscreet out (handle_tcp_punch_hole_request out c.addr ph c.key c.ws c.authed now s)
  unfolding handle_tcp_punch_hole_request
  punch_frame-IsDiscreet ph c now s h = elim (Option-cases r.2) [
    | inl e ↦
        rw (handle_tcp_punch_hole_request, e)
          (send_to_tcp-IsDiscreet out r.1 c.addr r.0 tokenless discreet)
    | inr ((id, peer_addr), e) ↦
        rw (handle_tcp_punch_hole_request, e)
          (push_to_peer-IsDiscreet out id r.1 peer_addr r.0 tokenless discreet)
  ]
    where
      r : Hbbs out × Message × Option (Str × Addr)
      r = handle_punch_hole_request out c.addr ph c.key c.ws c.authed now s

      discreet : IsDiscreet out r.0
      discreet = AreTokenless-same (punch-sent c.addr ph c.key c.ws c.authed now s).0 h

      tokenless : is_tokenless r.1 ≡ true
      tokenless = (punch-sent c.addr ph c.key c.ws c.authed now s).1

  -- The request goes to its target without the marker.
  forward-IsDiscreet :
      (rf : RequestRelay) (addr : Addr) (authed : Option AuthedDevice) (peer : Peer) (now : ℕ)
      (s : Hbbs out)
      → IsDiscreet out s
      → IsDiscreet out (forward out rf addr authed peer now s)
  unfolding forward note_pending is_tokenless
  forward-IsDiscreet rf addr authed peer now s h =
      push_to_peer-IsDiscreet out rf.id _ peer.socket_addr _ refl h

  logged-IsDiscreet :
      (b : Bool) (r : Record) (s : Hbbs out)
      → IsDiscreet out s
      → IsDiscreet out (if b then s else log out r s)
  logged-IsDiscreet true r s h = h
  logged-IsDiscreet false r s h = h

  pub relay-IsDiscreet :
      (rf : RequestRelay) (addr : Addr) (authed : Option AuthedDevice) (now : ℕ) (s : Hbbs out)
      → IsDiscreet out s
      → IsDiscreet out (handle_request_relay out rf addr authed now s)
  unfolding handle_request_relay is_tokenless
  relay-IsDiscreet rf addr authed now s h = elim (Option-cases gated.1) [
    | inr (reason, f) ↦
        rw (handle_request_relay, f) (send_to_tcp-IsDiscreet out _ addr gated.0 refl discreet)
    | inl f ↦ elim (Option-cases (gated.0.pm.map rf.id)) [
      | inl g ↦
          rw (handle_request_relay, f, g) (logged-IsDiscreet (is_empty rf.id) _ gated.0 discreet)
      | inr (peer, g) ↦
          rw (handle_request_relay, f, g)
            (logged-IsDiscreet (is_empty rf.id) _ _
              (forward-IsDiscreet rf addr authed peer now gated.0 discreet))
    ]
  ]
    where
      gated : Hbbs out × Option Str
      gated =
          gates out (not (is_empty rf.id)) rf.nemo_source rf.licence_key rf.id
            (codes "relay target is not allowed by TBF policy") addr authed now s

      discreet : IsDiscreet out gated.0
      discreet =
          AreTokenless-same
            (gates-sent out (not (is_empty rf.id)) rf.nemo_source rf.licence_key rf.id _ addr authed
              now s)
            h

  answered_server-sent :
      (server : Str) (addr : Addr) (s : Hbbs out)
      → SameSent out s (answered_server out server addr s).0
  unfolding answered_server
  answered_server-sent server addr s = ground (arith, get_relay_server-sent out s)

  answered_key-sent :
      (rr : RelayResponse) (now : ℕ) (s : Hbbs out) → SameSent out s (answered_key out rr now s).0
  unfolding answered_key
  answered_key-sent rr now s = ground (arith, get_pk-sent out rr.version rr.id now s)

  answered-IsDiscreet :
      (rr : RelayResponse) (addr addr_b : Addr) (sink : Option ℕ) (pending : PendingRelay)
      (sk : out.scheme.SecretKey) (nonce : List ℕ) (now : ℕ) (s : Hbbs out)
      → IsDiscreet out s
      → IsDiscreet out (answer out rr addr addr_b sink pending sk nonce now s)
  unfolding answer is_tokenless
  answered-IsDiscreet rr addr addr_b sink pending sk nonce now s h =
      send_to_tcp-IsDiscreet out _ addr_b _ refl (
        logged-IsDiscreet (is_empty rr.id) _ _ (
          AreTokenless-same (answered_server-sent rr.relay_server addr_b _) (
            AreTokenless-same (answered_key-sent rr now _)
              (send_to_sink-IsDiscreet out sink _ _ refl h))))

  pub response-IsDiscreet :
      (rr : RelayResponse) (addr : Addr) (sink : Option ℕ) (authed : Option AuthedDevice)
      (nonce : List ℕ) (now : ℕ) (s : Hbbs out)
      → IsDiscreet out s
      → IsDiscreet out (handle_relay_response out rr addr sink authed nonce now s)
  unfolding handle_relay_response
  response-IsDiscreet rr addr sink authed nonce now s h =
      elim (Option-cases (s.pending_relay (out.decode_addr rr.socket_addr))) [
        | inl e ↦ rw (handle_relay_response, e) h
        | inr (pending, e) ↦ elim (Bool-cases (is_impostor out authed pending)) [
          | inl i ↦ rw (handle_relay_response, e, i) h
          | inr i ↦ elim (Option-cases s.inner.sk) [
            | inl k ↦ rw (handle_relay_response, e, i, k) h
            | inr (sk, k) ↦
                rw (handle_relay_response, e, i, k)
                  (answered-IsDiscreet rr addr (out.decode_addr rr.socket_addr) sink pending sk
                    nonce now _ h)
          ]
        ]
      ]

  pub hole_sent-IsDiscreet :
      (valid : ℕ → Bool) (phs : PunchHoleSent) (addr : Addr) (now : ℕ) (s : Hbbs out)
      → IsDiscreet out s
      → IsDiscreet out (handle_hole_sent out valid phs addr now s)
  unfolding handle_hole_sent is_tokenless
  hole_sent-IsDiscreet valid phs addr now s h =
      send_to_tcp-IsDiscreet out _ _ _ refl
        (AreTokenless-same (get_pk-sent out phs.version phs.id now _) h)

  pub local_addr-IsDiscreet :
      (la : LocalAddr) (addr : Addr) (now : ℕ) (s : Hbbs out)
      → IsDiscreet out s
      → IsDiscreet out (handle_local_addr out la addr now s)
  unfolding handle_local_addr is_tokenless
  local_addr-IsDiscreet la addr now s h =
      send_to_tcp-IsDiscreet out _ _ _ refl
        (AreTokenless-same (get_pk-sent out la.version la.id now _) h)
