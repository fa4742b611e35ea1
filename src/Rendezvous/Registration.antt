-- ===== src/Rendezvous/Registration.antt =====
-- How a peer registers its key and its address (src/rendezvous_server.rs, `register_pk_core`,
-- `update_addr_core` and the handles by which a peer is reached). A handler's clock stands still while
-- it runs.
pub mod Ownership
pub mod Rows
use rustdesk_server_nemo.Base.{
  ℕ, ◌+◌, Bool, true, false, not, ◌&&◌, ◌||◌, Option, none, some, Str, str_eq, is_empty, byte_len,
  ltb, leb, ◌==◌, codes, if◌then◌else◌,
}
use rustdesk_server_nemo.Peers.{
  Peer, PeerMap, PkResult, pk_ok, uuid_mismatch, too_frequent, get_or, update_pk, write_peer,
  is_peer_blocked, put,
}
use rustdesk_server_nemo.Rendezvous.Net.{Ip, Addr, ip_eq, is_loopback}
use rustdesk_server_nemo.Rendezvous.Blocker.{check_ip_blocker, note_ip_change, secs_since}
use rustdesk_server_nemo.Rendezvous.State.{
  Outside, Hbbs, Record, register_pk, policy_rejection, log,
}

-- `RegisterPk`.
pub record RegisterPk : Type 0 where
  pub id : Str
  pub uuid : Str
  pub pk : Str

-- What `register_pk_core` makes of the keys that a peer has: a mismatch, or whether anything and
-- whether the ip changes.
pub data Comparison : Type 0 where
  mismatch : Comparison
  changes : Bool → Bool → Comparison

unfoldable pub compare_keys : Peer → RegisterPk → Str → Comparison
compare_keys peer rk ip =
    if is_empty peer.uuid
    then changes true false
    else if str_eq peer.uuid rk.uuid
    then (if not (str_eq peer.ip ip) && not (str_eq peer.pk rk.pk)
        then mismatch
        else changes
            (not (str_eq peer.uuid rk.uuid)
              || (not (str_eq peer.pk rk.pk) || not (str_eq peer.ip ip)))
            (not (str_eq peer.ip ip)))
    else mismatch

-- The counter of registrations, or a refusal.
unfoldable pub reg_pk_after : ℕ × ℕ → ℕ → Option (ℕ × ℕ)
reg_pk_after (n, at) now =
    if ltb 6 (secs_since at now) then some (1, now) else if ltb 2 n then none else some (n + 1, now)

module _ (out : Outside) where
  -- `register_pk_core` from the comparison on.
  unfoldable pub register_peer :
      RegisterPk → Addr → Str → Str → ℕ → Peer → Hbbs out → Hbbs out × Option PkResult
  register_peer rk addr ip guid now peer s = elim (compare_keys peer rk ip) [
    | mismatch ↦ (s, some uuid_mismatch)
    | changes changed ip_changed ↦ elim (reg_pk_after peer.reg_pk now) [
      | none ↦ (s, some too_frequent)
      | some req_pk ↦
          let counted = record peer { reg_pk = req_pk } in
          let s1 : Hbbs out = record s {
            pm = write_peer rk.id counted s.pm;
            ip_changes =
                if ip_changed then note_ip_change rk.id ip now s.ip_changes else s.ip_changes;
          } in
          let s2 : Hbbs out =
            if changed
            then record s1 {
              pm = (update_pk out.json rk.id counted addr rk.uuid rk.pk ip guid now s1.pm).0;
            }
            else s1 in
          (log out (register_pk rk.id addr true) s2, some pk_ok)
    ]
  ]

  -- `register_pk_core`, with the fresh guid of a new row.
  unfoldable pub register_pk_core :
      RegisterPk → Addr → Str → ℕ → Hbbs out → Hbbs out × Option PkResult
  register_pk_core rk addr guid now s =
      let ip = out.ip_to_string addr.ip in
      if is_empty rk.uuid || is_empty rk.pk
      then (s, none)
      else if is_peer_blocked rk.id s.pm
      then (
        log out (policy_rejection rk.id addr (codes "peer is blocked"))
            (log out (register_pk rk.id addr false) s),
        some too_frequent,
      )
      else if ltb (byte_len rk.id) 6
      then (s, some uuid_mismatch)
      else (let (blocker, passes) = check_ip_blocker ip rk.id now s.ip_blocker in
          let s1 : Hbbs out = record s { ip_blocker = blocker } in
          if not passes
          then (s1, some too_frequent)
          else (let (pm, peer) = get_or out.json rk.id now s1.pm in
              register_peer rk addr ip guid now peer (record s1 { pm = pm })))

  -- The ip of `update_addr_core` is new to the peer.
  abbrev pub is_ip_change : Peer → Addr → Bool
  is_ip_change old socket_addr =
      (if not (old.socket_addr.port == 0)
        then not (ip_eq socket_addr.ip old.socket_addr.ip)
        else not (str_eq (out.ip_to_string socket_addr.ip) old.ip))
      && not (is_loopback socket_addr.ip)

  -- `update_addr_core`: whether the server wants the peer's key.
  unfoldable pub update_addr_core : Str → Addr → ℕ → Hbbs out → Hbbs out × Bool
  update_addr_core id socket_addr now s = elim (s.pm.map id) [
    | none ↦ (s, true)
    | some old ↦ if is_empty old.pk || is_ip_change old socket_addr then (s, true) else (
      record s {
        pm = write_peer id (record old { socket_addr = socket_addr; last_reg_time = now }) s.pm;
      },
      false,
    )
  ]

  -- `register_peer_push`: entries whose receiver is gone are swept.
  unfoldable pub register_peer_push : Str → ℕ → Hbbs out → Hbbs out
  register_peer_push id conn s = if is_empty id then s else record s {
    tcp_peers = put id conn (λ j. elim (s.tcp_peers j) [
      | none ↦ none
      | some c ↦ if s.open_push c then some c else none
    ]);
  }
