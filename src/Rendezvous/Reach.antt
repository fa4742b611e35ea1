-- ===== src/Rendezvous/Reach.antt =====
-- How the rendezvous server reaches its peers, and what it tells of them (src/rendezvous_server.rs,
-- the helpers that the handlers share).
use rustdesk_server_nemo.Base.{
  ℕ, ◌+◌, ◌%◌, ◌^◌, ◌*◌, ltb, Bool, false, Option, none, some, List, [], ◌∷◌, Str, length,
  get_elem?, is_empty, ◌==◌, if◌then◌else◌,
}
use rustdesk_server_nemo.Peers.{get, forget}
use rustdesk_server_nemo.Relay.Grant.{relay_grant_ttl_secs}
use rustdesk_server_nemo.Rendezvous.Net.{v4, v6, Addr}
use rustdesk_server_nemo.Rendezvous.State.{
  Outside, Hbbs, Message, to_push, to_udp, put_at, forget_at, send_to_sink, PendingRelay,
}

-- `PENDING_RELAY_TTL`, in milliseconds.
abbrev pub pending_relay_ttl : ℕ
pending_relay_ttl = relay_grant_ttl_secs * 1000

module _ (out : Outside) where
  -- `is_lan`.
  unfoldable pub is_lan : Addr → Hbbs out → Bool
  is_lan addr s = elim s.inner.mask [
    | none ↦ false
    | some network ↦ elim addr.ip [
      | v4 a ↦ out.contains network a
      | v6 a ↦ elim (out.to_ipv4 a) [ none ↦ false | some b ↦ out.contains network b ]
    ]
  ]

  abbrev at_or_empty : List Str → ℕ → Str
  at_or_empty servers i = elim (get_elem? servers i) [ none ↦ [] | some x ↦ x ]

  -- `get_relay_server`: the servers in turn. The counter is a `usize`.
  unfoldable pub get_relay_server : Hbbs out → Hbbs out × Str
  get_relay_server s =
      if length s.relay_servers == 0
      then (s, [])
      else if length s.relay_servers == 1
      then (s, at_or_empty s.relay_servers 0)
      else (
        record s { rotation = (s.rotation + 1) % 2 ^ 64 },
        at_or_empty s.relay_servers (s.rotation % length s.relay_servers),
      )

  -- `push_to_peer`: down the peer's own connection, or in a datagram. A push to a connection that is
  -- closed forgets it.
  unfoldable pub push_to_peer : Str → Message → Addr → Hbbs out → Hbbs out
  push_to_peer id msg addr s =
      if is_empty id then record s { sent = to_udp addr msg ∷ s.sent } else elim (s.tcp_peers id) [
        | none ↦ record s { sent = to_udp addr msg ∷ s.sent }
        | some conn ↦
            if s.open_push conn
            then record s { sent = to_push conn msg ∷ s.sent }
            else record s { tcp_peers = forget id s.tcp_peers; sent = to_udp addr msg ∷ s.sent }
      ]

  -- `send_to_tcp_sync`, and `send_to_tcp`, which sends from a task of its own.
  unfoldable pub send_to_tcp : Message → Addr → Hbbs out → Hbbs out
  send_to_tcp msg addr s =
      let key = out.try_into_v4 addr in
      send_to_sink out (s.tcp_punch key) msg (record s { tcp_punch = forget_at key s.tcp_punch })

  -- The start of the arms that answer later: `sink.take()`, and the sink that waits.
  unfoldable pub park_sink : Option ℕ → Addr → Hbbs out → Hbbs out
  park_sink none addr s = s
  park_sink (some conn) addr s = record s {
    tcp_punch = put_at (out.try_into_v4 addr) conn s.tcp_punch;
  }

  -- `get_pk`.
  unfoldable pub get_pk : Str → Str → ℕ → Hbbs out → Hbbs out × Str
  get_pk version id now s = if is_empty version then (s, []) else elim s.inner.sk [
    | none ↦ (s, [])
    | some sk ↦
        let (pm, found) = get out.json id now s.pm in
        (record s { pm = pm }, elim found [ none ↦ [] | some peer ↦ out.sign_id_pk id peer.pk sk ])
  ]

  -- A pending relay that has not expired.
  abbrev pub live_pending : ℕ → Option PendingRelay → Option PendingRelay
  live_pending now none = none
  live_pending now (some p) = if ltb now p.expires then some p else none

  -- `pending_relay`'s `retain` and `insert`.
  unfoldable pub note_pending : Addr → Str → Str → ℕ → Hbbs out → Hbbs out
  note_pending addr target_id source_id now s = record s {
    pending_relay =
        put_at (out.try_into_v4 addr)
          (record {
            target_id = target_id;
            source_id = source_id;
            expires = now + pending_relay_ttl;
          })
          (λ a. live_pending now (s.pending_relay a));
  }
