-- ===== src/Rendezvous/Dispatch/Brokered.antt =====
-- A relay grant is minted only for a session that the server brokered (src/rendezvous_server.rs,
-- `pending_relay` through all frames).
use rustdesk_server_nemo.Base.{
  ℕ, ◌≡◌, ◌≢◌, refl, sym, ap, ◌∙◌, ◌⊎◌, inl, inr, Bool, true, false, Option, none, some, Str, arith,
  Bool-cases, Option-cases, List,
}
use rustdesk_server_nemo.Rendezvous.Net.{Addr, addr_eq, addr_eq_iff}
use rustdesk_server_nemo.Rendezvous.State.{
  Outside, Hbbs, AuthedDevice, PendingRelay, RelayResponse, PunchHoleRequest, Message,
}
use rustdesk_server_nemo.Rendezvous.Reach.{park_sink}
use rustdesk_server_nemo.Rendezvous.Punch.{handle_punch_hole_request, handle_tcp_punch_hole_request}
use rustdesk_server_nemo.Rendezvous.Grants.{handle_relay_response, is_impostor}
use rustdesk_server_nemo.Rendezvous.Grants.Pending.{
  SamePending, push_to_peer-pending, send_to_tcp-pending, send_to_sink-pending, park_sink-pending,
}
use rustdesk_server_nemo.Rendezvous.Dispatch.{
  Frame, punch_hole_request, request_relay, relay_response, punch_hole_sent, local_addr,
  test_nat_request, register_peer, register_pk, configure_update, software_update, other, Channel,
  Fresh, handle_tcp,
}
use rustdesk_server_nemo.Rendezvous.Dispatch.Entries.{Brokers, punch-inv, relay-inv}
use rustdesk_server_nemo.Rendezvous.Dispatch.Frames.{
  response-inv, hole_sent-pending, local_addr-pending, heartbeat-pending, register-pending,
}

-- What an operation that leaves the table leaves of an entry.
left_over :
    {old new : Addr → Option PendingRelay} (a : Addr) (p : PendingRelay)
    → new ≡ old
    → new a ≡ some p
    → old a ≡ some p
left_over a p same h = ap (λ m. m a) (sym same) ∙ h

module _ (out : Outside) (valid_nat_type : ℕ → Bool) where
  punch_frame-pending :
      (ph : PunchHoleRequest) (c : Channel) (now : ℕ) (s : Hbbs out)
      → SamePending out
          (handle_punch_hole_request out c.addr ph c.key c.ws c.authed now s).0
          (handle_tcp_punch_hole_request out c.addr ph c.key c.ws c.authed now s)
  unfolding handle_tcp_punch_hole_request
  punch_frame-pending ph c now s = elim (Option-cases r.2) [
    | inl e ↦ ground (arith, send_to_tcp-pending out r.1 c.addr r.0)
    | inr ((id, peer_addr), e) ↦ ground (arith, push_to_peer-pending out id r.1 peer_addr r.0)
  ]
    where
      r : Hbbs out × Message × Option (Str × Addr)
      r = handle_punch_hole_request out c.addr ph c.key c.ws c.authed now s

  -- A frame leaves an entry, or brokers it.
  handle_tcp-Brokers :
      (f : Frame) (c : Channel) (fresh : Fresh) (s : Hbbs out) (a : Addr) (p : PendingRelay)
      → (handle_tcp out valid_nat_type f c fresh s).0.pending_relay a ≡ some p
      → (s.pending_relay a ≡ some p) ⊎ Brokers out f c fresh s a p
  unfolding handle_tcp
  handle_tcp-Brokers (punch_hole_request ph) c fresh s a p h =
      elim (punch-inv out c.addr ph c.key c.ws c.authed fresh.now parked a p
        (left_over a p (punch_frame-pending ph c fresh.now parked) h)) [
          | inl old ↦ inl (left_over a p (park_sink-pending out c.sink c.addr s) old)
          | inr (key, passed, entry) ↦ inr ((entry.1, (key, passed)), (entry.0, refl, entry.2))
        ]
    where
      parked : Hbbs out
      parked = park_sink out c.sink c.addr s
  handle_tcp-Brokers (request_relay rf) c fresh s a p h =
      elim (relay-inv out rf c.addr c.authed fresh.now parked a p h) [
        | inl old ↦ inl (left_over a p (park_sink-pending out c.sink c.addr s) old)
        | inr (passed, entry) ↦ inr ((entry.1, passed), (entry.0, refl, entry.2))
      ]
    where
      parked : Hbbs out
      parked = park_sink out c.sink c.addr s
  handle_tcp-Brokers (relay_response rr) c fresh s a p h =
      elim (Bool-cases (addr_eq (out.decode_addr rr.socket_addr) a)) [
        | inl same ↦
            absurd
              (ground (arith, response-inv out rr c.addr c.sink c.authed fresh.nonce fresh.now s a))
        | inr apart ↦
            inl
              (ground (arith, response-inv out rr c.addr c.sink c.authed fresh.nonce fresh.now s a))
      ]
  handle_tcp-Brokers (punch_hole_sent phs) c fresh s a p h =
      inl (left_over a p (hole_sent-pending out valid_nat_type phs c.addr fresh.now s) h)
  handle_tcp-Brokers (local_addr la) c fresh s a p h =
      inl (left_over a p (local_addr-pending out la c.addr fresh.now s) h)
  handle_tcp-Brokers (test_nat_request serial) c fresh s a p h =
      inl (left_over a p (send_to_sink-pending out c.sink _ s) h)
  handle_tcp-Brokers (register_peer id serial) c fresh s a p h =
      inl (left_over a p (heartbeat-pending out valid_nat_type id serial c fresh.now s) h)
  handle_tcp-Brokers (register_pk rk) c fresh s a p h =
      inl (left_over a p (register-pending out valid_nat_type rk c fresh s) h)
  handle_tcp-Brokers (configure_update serial servers) c fresh s a p h = inl h
  handle_tcp-Brokers (software_update url) c fresh s a p h = inl h
  handle_tcp-Brokers other c fresh s a p h = inl h

  -- What happens to the server: a frame on a connection, or anything that leaves the table of pending
  -- relays, such as a datagram, the end of a connection or the operator's work.
  pub data Step (s : Hbbs out) : Hbbs out → Type 0 where
    frame :
        (f : Frame) (c : Channel) (fresh : Fresh)
        → Step s (handle_tcp out valid_nat_type f c fresh s).0
    elsewhere : {t : Hbbs out} → SamePending out s t → Step s t

  pub data Reach (start : Hbbs out) : Hbbs out → Type 0 where
    here : Reach start start
    next : {s t : Hbbs out} → Reach start s → Step s t → Reach start t

  -- In this history, the last frame that made the entry was a request, which passed the gates in the
  -- state that it came in; and since then the entry stayed.
  pub WasBrokered : {start s : Hbbs out} → Reach start s → Addr → PendingRelay → Type 0
  WasBrokered here a p = ⊥
  WasBrokered (next {s} reach (frame f c fresh)) a p =
      ((s.pending_relay a ≡ some p) × WasBrokered reach a p)
      ⊎ (Brokers out f c fresh s a p
          × ((handle_tcp out valid_nat_type f c fresh s).0.pending_relay a ≡ some p))
  WasBrokered (next {s} reach (elsewhere same)) a p =
      (s.pending_relay a ≡ some p) × WasBrokered reach a p

  entry-brokered :
      {start s : Hbbs out} (a : Addr) (p : PendingRelay) (reach : Reach start s)
      → start.pending_relay a ≡ none
      → s.pending_relay a ≡ some p
      → WasBrokered reach a p
  unfolding WasBrokered
  entry-brokered a p here empty h = absurd (ground arith)
  entry-brokered a p (next {s} reach (frame f c fresh)) empty h =
      elim (handle_tcp-Brokers f c fresh s a p h) [
        | inl old ↦ inl (old, entry-brokered a p reach empty old)
        | inr new ↦ inr (new, h)
      ]
  entry-brokered a p (next {s} {t} reach (elsewhere same)) empty h =
      let old = left_over a p same h in (old, entry-brokered a p reach empty old)

  -- An answer that no entry waits for, or from an impostor, sends nothing.
  unanswered :
      (rr : RelayResponse) (addr : Addr) (sink : Option ℕ) (authed : Option AuthedDevice)
      (nonce : List ℕ) (now : ℕ) (s : Hbbs out)
      → s.pending_relay (out.decode_addr rr.socket_addr) ≡ none
      → let s' = handle_relay_response out rr addr sink authed nonce now s in
        (s'.sent ≡ s.sent) × (s'.records ≡ s.records)
  unfolding handle_relay_response
  unanswered rr addr sink authed nonce now s e = (ground arith, ground arith)

  turned_away :
      (rr : RelayResponse) (addr : Addr) (sink : Option ℕ) (authed : Option AuthedDevice)
      (nonce : List ℕ) (now : ℕ) (s : Hbbs out) (p : PendingRelay)
      → s.pending_relay (out.decode_addr rr.socket_addr) ≡ some p
      → is_impostor out authed p ≡ true
      → let s' = handle_relay_response out rr addr sink authed nonce now s in
        (s'.sent ≡ s.sent) × (s'.records ≡ s.records)
  unfolding handle_relay_response
  turned_away rr addr sink authed nonce now s p e i = (ground arith, ground arith)

  unmoved :
      (s t : Hbbs out)
      → (t.sent ≡ s.sent) × (t.records ≡ s.records)
      → (t.sent ≢ s.sent) ⊎ (t.records ≢ s.records)
      → ⊥
  unmoved s t (sent, records) (inl m) = m sent
  unmoved s t (sent, records) (inr m) = m records

  -- In every state that the server reaches from an empty table of pending relays: if an answer from a
  -- target sends anything or writes any record, a grant among them, then an entry for the controller's
  -- address was pending, and it is gone; in the history that led there, the last frame that made the
  -- entry was a request from that address for the entry's target, which passed the gates in the state
  -- that it came in, and since then the entry stayed; and a connection that proved an id proved the
  -- target's.
  pub relay_response-brokered :
      {start s : Hbbs out} (rr : RelayResponse) (addr : Addr) (sink : Option ℕ)
      (authed : Option AuthedDevice) (nonce : List ℕ) (now : ℕ) (reach : Reach start s)
      → ((a : Addr) → start.pending_relay a ≡ none)
      → let s' = handle_relay_response out rr addr sink authed nonce now s in
        let a = out.decode_addr rr.socket_addr in
        ((s'.sent ≢ s.sent) ⊎ (s'.records ≢ s.records))
        → (p : PendingRelay) × (s.pending_relay a ≡ some p)
          × (s'.pending_relay a ≡ none)
          × (is_impostor out authed p ≡ false)
          × WasBrokered reach a p
  relay_response-brokered {start} {s} rr addr sink authed nonce now reach empty moved =
      elim (Option-cases (s.pending_relay (out.decode_addr rr.socket_addr))) [
        | inl e ↦ absurd (
            unmoved s (handle_relay_response out rr addr sink authed nonce now s)
              (unanswered rr addr sink authed nonce now s e) moved)
        | inr (p, e) ↦ elim (Bool-cases (is_impostor out authed p)) [
          | inl i ↦ absurd (
              unmoved s (handle_relay_response out rr addr sink authed nonce now s)
                (turned_away rr addr sink authed nonce now s p e i) moved)
          | inr i ↦ (
            p,
            e,
            ground (
              arith,
              addr_eq_iff (out.decode_addr rr.socket_addr) (out.decode_addr rr.socket_addr),
              response-inv out rr addr sink authed nonce now s (out.decode_addr rr.socket_addr),
            ),
            i,
            entry-brokered (out.decode_addr rr.socket_addr) p reach
                (empty (out.decode_addr rr.socket_addr)) e,
          )
        ]
      ]
