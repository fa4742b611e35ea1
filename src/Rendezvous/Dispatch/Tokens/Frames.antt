-- ===== src/Rendezvous/Dispatch/Tokens/Frames.antt =====
-- The token of a controller stays on the server (src/rendezvous_server.rs, `handle_tcp`).
use rustdesk_server_nemo.Base.{
  ℕ, ◌≡◌, refl, inl, inr, ◌∙◌, Bool, true, false, Option, none, some, Str, is_empty, if◌then◌else◌,
  Bool-cases,
}
use rustdesk_server_nemo.Peers.{PkResult, is_peer_blocked}
use rustdesk_server_nemo.Rendezvous.State.{
  Outside, Hbbs, Message, send_to_sink, register_pk_response,
}
use rustdesk_server_nemo.Rendezvous.Registration.{RegisterPk}
use rustdesk_server_nemo.Rendezvous.Grants.Sends.{
  is_tokenless, IsDiscreet, AreTokenless-same, send_to_sink-IsDiscreet, park_sink-sent,
  register_peer_push-sent, update_addr_core-sent, register_pk_core-sent,
}
use rustdesk_server_nemo.Rendezvous.Dispatch.{
  Frame, punch_hole_request, request_relay, relay_response, punch_hole_sent, local_addr,
  test_nat_request, register_peer, register_pk, configure_update, software_update, other, Channel,
  Fresh, claims_other, heartbeat, register_over_tcp, handle_tcp,
}
use rustdesk_server_nemo.Rendezvous.Dispatch.Tokens.{
  punch_frame-IsDiscreet, relay-IsDiscreet, response-IsDiscreet, hole_sent-IsDiscreet,
  local_addr-IsDiscreet,
}

module _ (out : Outside) where
  sent_if-IsDiscreet :
      (b : Bool) (sink : Option ℕ) (msg : Message) (s : Hbbs out)
      → is_tokenless msg ≡ true
      → IsDiscreet out s
      → IsDiscreet out (if b then send_to_sink out sink msg s else s)
  sent_if-IsDiscreet true sink msg s m h = send_to_sink-IsDiscreet out sink msg s m h
  sent_if-IsDiscreet false sink msg s m h = h

  answer_sink-IsDiscreet :
      (answer : Option PkResult) (sink : Option ℕ) (s : Hbbs out)
      → IsDiscreet out s
      → IsDiscreet out (elim answer [
        | none ↦ s
        | some result ↦ send_to_sink out sink (register_pk_response result) s
      ])
  unfolding is_tokenless
  answer_sink-IsDiscreet none sink s h = h
  answer_sink-IsDiscreet (some result) sink s h = send_to_sink-IsDiscreet out sink _ s refl h

module _ (out : Outside) (valid_nat_type : ℕ → Bool) where
  heartbeat-IsDiscreet :
      (id : Str) (serial : ℕ) (c : Channel) (now : ℕ) (s : Hbbs out)
      → IsDiscreet out s
      → IsDiscreet out (heartbeat out valid_nat_type id serial c now s).0
  unfolding heartbeat is_tokenless
  heartbeat-IsDiscreet id serial c now s h = elim (Bool-cases (is_empty id)) [
    | inl e ↦ rw (heartbeat, e) h
    | inr e ↦ elim (Bool-cases (is_peer_blocked id s.pm)) [
      | inl b ↦ rw (heartbeat, e, b) h
      | inr b ↦ elim (Bool-cases (claims_other c.authed id)) [
        | inl o ↦ rw (heartbeat, e, b, o) h
        | inr o ↦
            rw (heartbeat, e, b, o)
              (sent_if-IsDiscreet out _ c.sink _ _ refl (
                send_to_sink-IsDiscreet out c.sink _ _ refl (
                  AreTokenless-same
                    (update_addr_core-sent out id c.addr now _
                      ∙ register_peer_push-sent out id c.conn _)
                    h)))
      ]
    ]
  ]

  register-IsDiscreet :
      (rk : RegisterPk) (c : Channel) (fresh : Fresh) (s : Hbbs out)
      → IsDiscreet out s
      → IsDiscreet out (register_over_tcp out valid_nat_type rk c fresh s).0
  unfolding register_over_tcp
  register-IsDiscreet rk c fresh s h = elim (Bool-cases (claims_other c.authed rk.id)) [
    | inl o ↦ rw (register_over_tcp, o) h
    | inr o ↦
        rw (register_over_tcp, o)
          (answer_sink-IsDiscreet out _ c.sink _ (
            AreTokenless-same
              (register_pk_core-sent out rk c.addr fresh.guid fresh.now _
                ∙ register_peer_push-sent out rk.id c.conn s)
              h))
  ]

  -- As long as no request that was sent carries a controller's marker, which has the session token of
  -- its user in it, none does after any frame on a connection: also a request for the relay that is
  -- passed on to its target goes without the marker it came with.
  pub handle_tcp-IsDiscreet :
      (f : Frame) (c : Channel) (fresh : Fresh) (s : Hbbs out)
      → IsDiscreet out s
      → IsDiscreet out (handle_tcp out valid_nat_type f c fresh s).0
  unfolding handle_tcp is_tokenless
  handle_tcp-IsDiscreet (punch_hole_request ph) c fresh s h =
      punch_frame-IsDiscreet out ph c fresh.now _
        (AreTokenless-same (park_sink-sent out c.sink c.addr s) h)
  handle_tcp-IsDiscreet (request_relay rf) c fresh s h =
      relay-IsDiscreet out rf c.addr c.authed fresh.now _
        (AreTokenless-same (park_sink-sent out c.sink c.addr s) h)
  handle_tcp-IsDiscreet (relay_response rr) c fresh s h =
      response-IsDiscreet out rr c.addr c.sink c.authed fresh.nonce fresh.now s h
  handle_tcp-IsDiscreet (punch_hole_sent phs) c fresh s h =
      hole_sent-IsDiscreet out valid_nat_type phs c.addr fresh.now s h
  handle_tcp-IsDiscreet (local_addr la) c fresh s h =
      local_addr-IsDiscreet out la c.addr fresh.now s h
  handle_tcp-IsDiscreet (test_nat_request serial) c fresh s h =
      send_to_sink-IsDiscreet out c.sink _ s refl h
  handle_tcp-IsDiscreet (register_peer id serial) c fresh s h =
      heartbeat-IsDiscreet id serial c fresh.now s h
  handle_tcp-IsDiscreet (register_pk rk) c fresh s h = register-IsDiscreet rk c fresh s h
  handle_tcp-IsDiscreet (configure_update serial servers) c fresh s h = h
  handle_tcp-IsDiscreet (software_update url) c fresh s h = h
  handle_tcp-IsDiscreet other c fresh s h = h
