-- ===== src/Rendezvous/Dispatch/Entries.antt =====
-- What the requests for a session put in the table of pending relays (src/rendezvous_server.rs,
-- `handle_punch_hole_request` and the arm of RequestRelay).
use rustdesk_server_nemo.Base.{
  ℕ, ◌+◌, ◌≡◌, refl, sym, ap, ◌∙◌, ◌⊎◌, inl, inr, Bool, true, false, not, ◌&&◌, Option, none, some,
  Str, codes, str_eq, str_eq_iff, is_empty, leb, ◌-◌, arith, Bool-cases, Option-cases, [], ◌∷◌,
}
use rustdesk_server_nemo.Management.Gates.{control_permissions_for}
use rustdesk_server_nemo.Peers.{Peer, get}
use rustdesk_server_nemo.Rendezvous.Net.{Addr, addr_eq, addr_eq_iff}
use rustdesk_server_nemo.Rendezvous.State.{
  Outside, Hbbs, AuthedDevice, PendingRelay, RequestRelay, PunchHoleRequest, Message, relay_answer,
}
use rustdesk_server_nemo.Rendezvous.Reach.{
  is_lan, note_pending, pending_relay_ttl, park_sink, push_to_peer,
}
use rustdesk_server_nemo.Rendezvous.Punch.{
  gates, negotiate, handle_punch_hole_request, reg_timeout, is_same_intranet, source_of,
  note_punch_req,
}
use rustdesk_server_nemo.Rendezvous.Grants.{
  forward, asking, forwarded_request, empty_response, handle_request_relay,
}
use rustdesk_server_nemo.Rendezvous.Grants.Pending.{
  get_relay_server-pending, push_to_peer-pending, send_to_tcp-pending, gates-pending,
}
use rustdesk_server_nemo.Rendezvous.Dispatch.{
  Frame, punch_hole_request, request_relay, Channel, Fresh,
}

key_ok :
    (key given : Str)
    → (not (is_empty key) && not (str_eq given key)) ≡ false
    → (key ≡ []) ⊎ (given ≡ key)
key_ok [] given h = inl refl
key_ok (c ∷ key) given h = inr (ground (arith, str_eq_iff given (c ∷ key)))

module _ (out : Outside) where
  -- An entry that a request from an address makes.
  abbrev pub IsEntry : Addr → Str → ℕ → Addr → PendingRelay → Type 0
  IsEntry addr target now a p =
      (a ≡ out.try_into_v4 addr) × (p.target_id ≡ target) × (p.expires ≡ now + pending_relay_ttl)

  note_pending-inv :
      (addr : Addr) (target source : Str) (now : ℕ) (s : Hbbs out) (a : Addr) (p : PendingRelay)
      → (note_pending out addr target source now s).pending_relay a ≡ some p
      → (s.pending_relay a ≡ some p) ⊎ IsEntry addr target now a p
  unfolding note_pending
  note_pending-inv addr target source now s a p h =
      elim (Bool-cases (addr_eq (out.try_into_v4 addr) a)) [
        | inl same ↦
            inr (sym ((addr_eq_iff (out.try_into_v4 addr) a).0 same), ground arith, ground arith)
        | inr apart ↦ elim (Option-cases (s.pending_relay a)) [
          | inl e ↦ absurd (ground arith)
          | inr (q, e) ↦ inl (ground arith)
        ]
      ]

  -- `note_pending` on a state with the same table.
  note_pending-of :
      (addr : Addr) (target source : Str) (now : ℕ) (s t : Hbbs out) (a : Addr) (p : PendingRelay)
      → t.pending_relay ≡ s.pending_relay
      → (note_pending out addr target source now t).pending_relay a ≡ some p
      → (s.pending_relay a ≡ some p) ⊎ IsEntry addr target now a p
  note_pending-of addr target source now s t a p same h =
      elim (note_pending-inv addr target source now t a p h) [
        | inl old ↦ inl (ap (λ m. m a) (sym same) ∙ old)
        | inr new ↦ inr new
      ]

  -- The gates let a request for a target through.
  abbrev pub Passed : Frame → Channel → Fresh → Hbbs out → Str → Type 0
  Passed (punch_hole_request ph) c fresh s target =
      (target ≡ ph.id)
      × (((c.key ≡ []) ⊎ (ph.licence_key ≡ c.key))
          × ((gates out true ph.nemo_source ph.version ph.id
                (codes "target peer is not allowed by TBF policy") c.addr c.authed fresh.now s).1
              ≡ none))
  Passed (request_relay rf) c fresh s target =
      (target ≡ rf.id)
      × ((gates out (not (is_empty rf.id)) rf.nemo_source rf.licence_key rf.id
            (codes "relay target is not allowed by TBF policy") c.addr c.authed fresh.now s).1
          ≡ none)
  Passed f c fresh s target = ⊥

  -- A frame in a state brokers an entry: it is a request from the entry's address for its target, and
  -- it passed the gates.
  abbrev pub Brokers : Frame → Channel → Fresh → Hbbs out → Addr → PendingRelay → Type 0
  Brokers f c fresh s a p =
      Passed f c fresh (park_sink out c.sink c.addr s) p.target_id
      × IsEntry c.addr p.target_id fresh.now a p

  negotiate-inv :
      (addr : Addr) (ph : PunchHoleRequest) (ws : Bool) (authed : Option AuthedDevice)
      (peer_addr : Addr) (now : ℕ) (s : Hbbs out) (a : Addr) (p : PendingRelay)
      → (negotiate out addr ph ws authed peer_addr now s).0.pending_relay a ≡ some p
      → (s.pending_relay a ≡ some p) ⊎ IsEntry addr ph.id now a p
  unfolding negotiate
  negotiate-inv addr ph ws authed peer_addr now s a p h =
      elim (Bool-cases
        (is_same_intranet out ws (is_lan out peer_addr s) (is_lan out addr s) peer_addr addr)) [
          | inl e ↦ inl (ground (arith, get_relay_server-pending out s))
          | inr e ↦
              note_pending-of addr ph.id (source_of out authed) now s _ a p
                (get_relay_server-pending out s) (rw e at h)
        ]

  -- A punch brokers what it puts in the table.
  pub punch-inv :
      (addr : Addr) (ph : PunchHoleRequest) (key : Str) (ws : Bool) (authed : Option AuthedDevice)
      (now : ℕ) (s : Hbbs out) (a : Addr) (p : PendingRelay)
      → (handle_punch_hole_request out addr ph key ws authed now s).0.pending_relay a ≡ some p
      → (s.pending_relay a ≡ some p)
        ⊎ (((key ≡ []) ⊎ (ph.licence_key ≡ key))
            × ((gates out true ph.nemo_source ph.version ph.id
                  (codes "target peer is not allowed by TBF policy")
                  addr
                  authed
                  now
                  s).1
                ≡ none)
            × IsEntry addr ph.id now a p)
  unfolding handle_punch_hole_request
  punch-inv addr ph key ws authed now s a p h =
      elim (Bool-cases (not (is_empty key) && not (str_eq ph.licence_key key))) [
        | inl e ↦ inl (ground arith)
        | inr e ↦ elim (Option-cases gated.1) [
          | inr (reason, f) ↦ inl (ground (arith, same))
          | inl f ↦ elim (Option-cases (get out.json ph.id now gated.0.pm).1) [
            | inl g ↦ inl (ground (arith, same))
            | inr (peer, g) ↦ elim (Bool-cases (leb reg_timeout (now - peer.last_reg_time))) [
              | inl late ↦ inl (ground (arith, same))
              | inr online ↦
                  elim (negotiate-inv addr ph ws authed peer.socket_addr now (met peer) a p
                    (ground arith)) [
                      | inl old ↦ inl (ap (λ m. m a) (sym same) ∙ old)
                      | inr new ↦ inr (key_ok key ph.licence_key e, f, new)
                    ]
            ]
          ]
        ]
      ]
    where
      gated : Hbbs out × Option Str
      gated =
          gates out true ph.nemo_source ph.version ph.id
            (codes "target peer is not allowed by TBF policy") addr authed now s

      same : gated.0.pending_relay ≡ s.pending_relay
      same = gates-pending out true ph.nemo_source ph.version ph.id _ addr authed now s

      met : Peer → Hbbs out
      met peer = record gated.0 {
        pm = (get out.json ph.id now gated.0.pm).0;
        punch_reqs =
            note_punch_req (out.ip_to_string (out.try_into_v4 addr).ip)
              (out.ip_to_string (out.try_into_v4 peer.socket_addr).ip) ph.id now gated.0.punch_reqs;
      }

  -- A request for the relay brokers what it puts in the table.
  pub relay-inv :
      (rf : RequestRelay) (addr : Addr) (authed : Option AuthedDevice) (now : ℕ) (s : Hbbs out)
      (a : Addr) (p : PendingRelay)
      → (handle_request_relay out rf addr authed now s).pending_relay a ≡ some p
      → (s.pending_relay a ≡ some p)
        ⊎ (((gates out
                (not (is_empty rf.id))
                rf.nemo_source
                rf.licence_key
                rf.id
                (codes "relay target is not allowed by TBF policy")
                addr
                authed
                now
                s).1
              ≡ none)
            × IsEntry addr rf.id now a p)
  unfolding handle_request_relay forward
  relay-inv rf addr authed now s a p h = elim (Option-cases gated.1) [
    | inr (reason, f) ↦ inl (
        ap (λ m. m a) (sym (send_to_tcp-pending out (refused_by reason) addr gated.0 ∙ same))
        ∙ ground arith)
    | inl f ↦ elim (Option-cases (gated.0.pm.map rf.id)) [
      | inl g ↦ elim (Bool-cases (is_empty rf.id)) [
        | inl e ↦ inl (ground (arith, same))
        | inr e ↦ inl (ground (arith, same))
      ]
      | inr (peer, g) ↦
          elim (note_pending-of addr rf.id (asking out authed rf) now s (pushed peer) a p
            (push_to_peer-pending out rf.id
                (Message.request_relay (forwarded_request out rf addr (permissions gated.0)))
                peer.socket_addr (with_world gated.0)
              ∙ same)
            (elim (Bool-cases (is_empty rf.id)) [ inl e ↦ ground arith | inr e ↦ ground arith ])) [
              | inl old ↦ inl old
              | inr new ↦ inr (f, new)
            ]
    ]
  ]
    where
      gated : Hbbs out × Option Str
      gated =
          gates out (not (is_empty rf.id)) rf.nemo_source rf.licence_key rf.id
            (codes "relay target is not allowed by TBF policy") addr authed now s

      same : gated.0.pending_relay ≡ s.pending_relay
      same =
          gates-pending out (not (is_empty rf.id)) rf.nemo_source rf.licence_key rf.id _ addr authed
            now s

      refused_by : Str → Message
      refused_by reason =
          relay_answer (record empty_response { id = rf.id; refuse_reason = reason })

      permissions : Hbbs out → Option ℕ
      permissions t =
          (control_permissions_for out.to_lowercase out.permission_index out.decode rf.nemo_source
            rf.licence_key now t.world).1

      with_world : Hbbs out → Hbbs out
      with_world t = record t {
        world =
            (control_permissions_for out.to_lowercase out.permission_index out.decode rf.nemo_source
              rf.licence_key now t.world).0;
      }

      pushed : Peer → Hbbs out
      pushed peer =
          push_to_peer out rf.id
            (Message.request_relay (forwarded_request out rf addr (permissions gated.0)))
            peer.socket_addr (with_world gated.0)
