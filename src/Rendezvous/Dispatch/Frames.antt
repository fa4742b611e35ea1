-- ===== src/Rendezvous/Dispatch/Frames.antt =====
-- Which frames leave the table of pending relays alone (src/rendezvous_server.rs).
use rustdesk_server_nemo.Base.{
  ℕ, ◌≡◌, refl, ◌∙◌, inl, inr, Bool, true, false, Option, none, some, Str, is_empty, arith,
  Bool-cases, Option-cases, if◌then◌else◌, List,
}
use rustdesk_server_nemo.Peers.{PkResult, is_peer_blocked}
use rustdesk_server_nemo.Rendezvous.Net.{Addr}
use rustdesk_server_nemo.Rendezvous.State.{
  Outside, Hbbs, AuthedDevice, PendingRelay, RelayResponse, PunchHoleSent, LocalAddr, Record,
  Message, register_pk_response, log, send_to_sink, forget_at,
}
use rustdesk_server_nemo.Rendezvous.Registration.{RegisterPk, register_peer_push, register_pk_core}
use rustdesk_server_nemo.Rendezvous.Grants.{
  answered_key, answered_server, handle_relay_response, answer, is_impostor, handle_hole_sent,
  handle_local_addr,
}
use rustdesk_server_nemo.Rendezvous.Grants.Pending.{
  SamePending, get_relay_server-pending, send_to_tcp-pending, send_to_sink-pending, get_pk-pending,
  register_peer_push-pending, update_addr_core-pending, register_pk_core-pending,
}
use rustdesk_server_nemo.Rendezvous.Dispatch.{
  Channel, Fresh, heartbeat, register_over_tcp, claims_other,
}

module _ (out : Outside) where
  answered_server-pending :
      (server : Str) (addr : Addr) (s : Hbbs out)
      → SamePending out s (answered_server out server addr s).0
  unfolding answered_server
  answered_server-pending server addr s = ground (arith, get_relay_server-pending out s)

  answered_key-pending :
      (rr : RelayResponse) (now : ℕ) (s : Hbbs out)
      → SamePending out s (answered_key out rr now s).0
  unfolding answered_key
  answered_key-pending rr now s = ground (arith, get_pk-pending out rr.version rr.id now s)

  log-pending :
      (b : Bool) (r : Record) (s : Hbbs out) → SamePending out s (if b then s else log out r s)
  log-pending true r s = refl
  log-pending false r s = refl

  pub answer-pending :
      (rr : RelayResponse) (addr addr_b : Addr) (sink : Option ℕ) (pending : PendingRelay)
      (sk : out.scheme.SecretKey) (nonce : List ℕ) (now : ℕ) (s : Hbbs out)
      → SamePending out s (answer out rr addr addr_b sink pending sk nonce now s)
  unfolding answer
  answer-pending rr addr addr_b sink pending sk nonce now s =
      send_to_tcp-pending out _ addr_b _
      ∙ (log-pending (is_empty rr.id) _ _
          ∙ (answered_server-pending rr.relay_server addr_b _
              ∙ (answered_key-pending rr now _ ∙ send_to_sink-pending out sink _ _)))

  -- The answer to a pending relay takes it out of the table, and adds none.
  pub response-inv :
      (rr : RelayResponse) (addr : Addr) (sink : Option ℕ) (authed : Option AuthedDevice)
      (nonce : List ℕ) (now : ℕ) (s : Hbbs out) (a : Addr)
      → (handle_relay_response out rr addr sink authed nonce now s).pending_relay a
        ≡ forget_at (out.decode_addr rr.socket_addr) s.pending_relay a
  unfolding handle_relay_response
  response-inv rr addr sink authed nonce now s a =
      elim (Option-cases (s.pending_relay (out.decode_addr rr.socket_addr))) [
        | inl e ↦ ground arith
        | inr (pending, e) ↦ elim (Bool-cases (is_impostor out authed pending)) [
          | inl i ↦ ground arith
          | inr i ↦ elim (Option-cases s.inner.sk) [
            | inl k ↦ ground arith
            | inr (sk, k) ↦ ground (
              arith,
              answer-pending rr addr (out.decode_addr rr.socket_addr) sink pending sk nonce now
                  (record s {
                    pending_relay = forget_at (out.decode_addr rr.socket_addr) s.pending_relay;
                  }),
            )
          ]
        ]
      ]

  pub hole_sent-pending :
      (valid : ℕ → Bool) (phs : PunchHoleSent) (addr : Addr) (now : ℕ) (s : Hbbs out)
      → SamePending out s (handle_hole_sent out valid phs addr now s)
  unfolding handle_hole_sent
  hole_sent-pending valid phs addr now s =
      send_to_tcp-pending out _ _ _ ∙ get_pk-pending out phs.version phs.id now _

  pub local_addr-pending :
      (la : LocalAddr) (addr : Addr) (now : ℕ) (s : Hbbs out)
      → SamePending out s (handle_local_addr out la addr now s)
  unfolding handle_local_addr
  local_addr-pending la addr now s =
      send_to_tcp-pending out _ _ _ ∙ get_pk-pending out la.version la.id now _

  heartbeat_sends-pending :
      (b : Bool) (sink : Option ℕ) (msg : Message) (s t : Hbbs out)
      → SamePending out s t
      → SamePending out s (if b then send_to_sink out sink msg t else t)
  heartbeat_sends-pending true sink msg s t same = send_to_sink-pending out sink msg t ∙ same
  heartbeat_sends-pending false sink msg s t same = same

module _ (out : Outside) (valid_nat_type : ℕ → Bool) where
  pub heartbeat-pending :
      (id : Str) (serial : ℕ) (c : Channel) (now : ℕ) (s : Hbbs out)
      → SamePending out s (heartbeat out valid_nat_type id serial c now s).0
  unfolding heartbeat
  heartbeat-pending id serial c now s = elim (Bool-cases (is_empty id)) [
    | inl e ↦ ground arith
    | inr e ↦ elim (Bool-cases (is_peer_blocked id s.pm)) [
      | inl b ↦ ground arith
      | inr b ↦ elim (Bool-cases (claims_other c.authed id)) [
        | inl o ↦ ground arith
        | inr o ↦
            rw (e, b, o)
              (heartbeat_sends-pending out _ c.sink _ s _ (
                send_to_sink-pending out c.sink _ _
                ∙ (update_addr_core-pending out id c.addr now _
                    ∙ register_peer_push-pending out id c.conn _)))
      ]
    ]
  ]

  pub answer_sink-pending :
      (answer : Option PkResult) (sink : Option ℕ) (s : Hbbs out)
      → SamePending out s (elim answer [
        | none ↦ s
        | some result ↦ send_to_sink out sink (register_pk_response result) s
      ])
  answer_sink-pending none sink s = refl
  answer_sink-pending (some result) sink s = send_to_sink-pending out sink _ s

  pub register-pending :
      (rk : RegisterPk) (c : Channel) (fresh : Fresh) (s : Hbbs out)
      → SamePending out s (register_over_tcp out valid_nat_type rk c fresh s).0
  unfolding register_over_tcp
  register-pending rk c fresh s = elim (Bool-cases (claims_other c.authed rk.id)) [
    | inl o ↦ ground arith
    | inr o ↦ rw o (
        answer_sink-pending
          (register_pk_core out rk c.addr fresh.guid fresh.now
            (register_peer_push out rk.id c.conn s)).1
          c.sink _
        ∙ (register_pk_core-pending out rk c.addr fresh.guid fresh.now _
            ∙ register_peer_push-pending out rk.id c.conn s))
  ]
