-- ===== src/Peers/Mirror/Keys.antt =====
-- Filing a peer's key (src/peer.rs, `update_pk`) keeps the mirror of the table, also where the query fails.
use rustdesk_server_nemo.Base.{
  ℕ, ◌≡◌, refl, inl, inr, true, false, not, ◌&&◌, ◌||◌, some, ◌∷◌, Str, str_eq, any, is_empty,
  arith, Bool-cases, if◌then◌else◌,
}
use rustdesk_server_nemo.Rendezvous.Net.{Addr}
use rustdesk_server_nemo.Peers.{Peer, PeerMap, Json, update_pk, write_peer, with_pk, put}
use rustdesk_server_nemo.Peers.Table.{
  Row, has_guid, update_rows, new_row, insert_peer, update_pk_row,
}
use rustdesk_server_nemo.Peers.Mirror.{
  Mirrors, Reflects, IsFresh, put-Reflects, insert-Reflects, same-Mirrors, rows-Reflects,
}

module _ (json : Json) where
  -- The three ends of `update_pk`.
  pub update_pk-refused :
      (id : Str) (peer : Peer) (addr : Addr) (uuid pk ip guid : Str) (now : ℕ) (pm : PeerMap)
      → (not pm.db.up
          || (if is_empty peer.guid
              then any (λ (q : Row). str_eq q.id id || str_eq q.guid guid) pm.db.rows
              else any (λ (q : Row). str_eq q.id id && not (str_eq q.guid peer.guid)) pm.db.rows))
        ≡ true
      → (update_pk json id peer addr uuid pk ip guid now pm).0
        ≡ write_peer id (with_pk addr uuid pk ip now peer) pm
  unfolding update_pk insert_peer update_pk_row
  update_pk-refused id peer addr uuid pk ip guid now pm h = elim (Bool-cases (is_empty peer.guid)) [
    | inl new ↦ ground arith
    | inr old ↦ ground arith
  ]

  pub update_pk-inserts :
      (id : Str) (peer : Peer) (addr : Addr) (uuid pk ip guid : Str) (now : ℕ) (pm : PeerMap)
      → is_empty peer.guid ≡ true
      → pm.db.up ≡ true
      → any (λ (q : Row). str_eq q.id id || str_eq q.guid guid) pm.db.rows ≡ false
      → (update_pk json id peer addr uuid pk ip guid now pm).0 ≡ record pm {
        map =
            put id
              (record (with_pk addr uuid pk ip now peer) { guid = guid })
              (put id (with_pk addr uuid pk ip now peer) pm.map);
        db = record (pm.db) { rows = new_row id uuid pk (json.to_string ip) guid ∷ pm.db.rows };
      }
  unfolding update_pk insert_peer
  update_pk-inserts id peer addr uuid pk ip guid now pm new up free = ground arith

  pub update_pk-updates :
      (id : Str) (peer : Peer) (addr : Addr) (uuid pk ip guid : Str) (now : ℕ) (pm : PeerMap)
      → is_empty peer.guid ≡ false
      → pm.db.up ≡ true
      → any (λ (q : Row). str_eq q.id id && not (str_eq q.guid peer.guid)) pm.db.rows ≡ false
      → (update_pk json id peer addr uuid pk ip guid now pm).0 ≡ record pm {
        map = put id (with_pk addr uuid pk ip now peer) pm.map;
        db = record (pm.db) {
          rows =
              update_rows
                (has_guid peer.guid)
                (λ r. record r { id = id; pk = pk; info = json.to_string ip })
                pm.db.rows;
        };
      }
  unfolding update_pk update_pk_row
  update_pk-updates id peer addr uuid pk ip guid now pm old up free = ground arith

  pub update_pk-Reflects :
      (id : Str) (peer : Peer) (addr : Addr) (uuid pk ip guid : Str) (now : ℕ) (pm : PeerMap)
      → pm.map id ≡ some peer
      → IsFresh guid pm
      → Reflects pm
      → Reflects (update_pk json id peer addr uuid pk ip guid now pm).0
  update_pk-Reflects id peer addr uuid pk ip guid now pm at fresh r =
      elim (Bool-cases (
        not pm.db.up
        || (if is_empty peer.guid
            then any (λ (q : Row). str_eq q.id id || str_eq q.guid guid) pm.db.rows
            else any (λ (q : Row). str_eq q.id id && not (str_eq q.guid peer.guid)) pm.db.rows))) [
              | inl taken ↦ rw (update_pk-refused id peer addr uuid pk ip guid now pm taken) written
              | inr free ↦ elim (Bool-cases (is_empty peer.guid)) [
                | inl new ↦
                    rw
                      (update_pk-inserts id peer addr uuid pk ip guid now pm new (ground arith)
                        (ground arith))
                      (insert-Reflects id (with_pk addr uuid pk ip now peer)
                        (new_row id uuid pk (json.to_string ip) guid)
                        (write_peer id (with_pk addr uuid pk ip now peer) pm) written mirror
                        (ground arith) refl refl still_fresh)
                | inr old ↦
                    rw
                      (update_pk-updates id peer addr uuid pk ip guid now pm old (ground arith)
                        (ground arith))
                      (rows-Reflects id peer.guid
                        (λ q. record q { id = id; pk = pk; info = json.to_string ip })
                        (write_peer id (with_pk addr uuid pk ip now peer) pm) written
                        (mirror.own old) (λ q. refl) (λ q. refl) (λ q. refl))
              ]
            ]
    where
      mirror : Mirrors pm.db.rows id (with_pk addr uuid pk ip now peer)
      mirror = same-Mirrors pm.db.rows id peer _ refl refl (r.mirrors id peer at)

      written : Reflects (write_peer id (with_pk addr uuid pk ip now peer) pm)
      written = put-Reflects id _ pm r mirror

      still_fresh : IsFresh guid (write_peer id (with_pk addr uuid pk ip now peer) pm)
      still_fresh j q h = elim (Bool-cases (str_eq id j)) [
        | inr other ↦ fresh j q (ground arith)
        | inl same ↦ ground (arith, fresh id peer at)
      ]
