-- ===== src/Peers/Mirror.antt =====
-- A memory of peers (src/peer.rs) that mirrors the table of the database: a write to one of them, or to
-- both, that keeps it so.
pub mod Lookups
pub mod Keys
pub mod Rows
pub mod Writes
use rustdesk_server_nemo.Base.{
  ℕ, ◌≡◌, refl, sym, ◌∙◌, ◌⊎◌, inl, inr, Bool, true, false, not, ◌&&◌, ◌||◌, Option, none, some,
  List, [], ◌∷◌, Str, str_eq, str_eq_iff, str_eq_refl, any, find, retain, is_empty, arith,
  Bool-cases, Option-cases, if◌then◌else◌, Result, ok, err,
}
use rustdesk_server_nemo.Rendezvous.Net.{Addr}
use rustdesk_server_nemo.Peers.{
  Peer, PeerMap, Json, get, get_or, update_pk, set_peer_status, set_peer_management_policy,
  delete_registered, peer_status, write_peer, peer_of_row, with_pk, default_peer, put, forget,
}
use rustdesk_server_nemo.Peers.Table.{
  Row, Database, has_id, has_guid, status_of, IsKeyed, is_strange, update_rows, new_row,
  with_status, with_policy, get_peer, insert_peer, update_pk_row, set_status_row, set_policy_row,
  delete_row,
}
use rustdesk_server_nemo.Peers.Table.Queries.{
  any-update_rows, any-retain-false, any_and_false, any_or_left, any_or_right, update_rows-IsKeyed,
  retain-IsKeyed, found-not_strange, status-update_guid, strange-update_guid, status-update_id,
  status_of-absent, status-retain, status-update_other,
}

-- What is known of a peer that is in memory under an id.
pub record Mirrors (rows : List Row) (id : Str) (p : Peer) : Type 0 where
  pub status : p.status ≡ status_of id rows
  pub own : is_empty p.guid ≡ false → is_strange p.guid id rows ≡ false

-- Every peer in memory mirrors the table.
pub record Reflects (pm : PeerMap) : Type 0 where
  pub keyed : IsKeyed pm.db.rows
  pub mirrors : (id : Str) (p : Peer) → pm.map id ≡ some p → Mirrors pm.db.rows id p

-- A guid that no peer in memory has.
abbrev pub IsFresh : Str → PeerMap → Type 0
IsFresh guid pm = (id : Str) (p : Peer) → pm.map id ≡ some p → str_eq guid p.guid ≡ false

-- A write in memory of a peer that mirrors the table.
pub put-Reflects :
    (id : Str) (p : Peer) (pm : PeerMap)
    → Reflects pm
    → Mirrors pm.db.rows id p
    → Reflects (record pm { map = λ j. if str_eq id j then some p else pm.map j })
put-Reflects id p pm r m = record {
  keyed = r.keyed;
  mirrors = λ j q h. elim (Bool-cases (str_eq id j)) [
    | inr other ↦ r.mirrors j q (ground arith)
    | inl same ↦ ground (arith, str_eq_iff id j)
  ];
}

-- A row that is new to the table.
pub insert-Reflects :
    (id : Str) (p : Peer) (row : Row) (pm : PeerMap)
    → Reflects pm
    → Mirrors pm.db.rows id p
    → any (λ (r : Row). str_eq r.id id || str_eq r.guid row.guid) pm.db.rows ≡ false
    → row.id ≡ id
    → row.status ≡ none
    → IsFresh row.guid pm
    → Reflects (record pm {
      map = λ j. if str_eq id j then some (record p { guid = row.guid }) else pm.map j;
      db = record (pm.db) { rows = row ∷ pm.db.rows };
    })
unfolding find any
insert-Reflects id p row pm r m free at unset fresh = record {
  keyed = (no_guid, r.keyed);
  mirrors = λ j q h. elim (Bool-cases (str_eq id j)) [
    | inr other ↦
        let old : pm.map j ≡ some q = ground arith in
        let before : Mirrors pm.db.rows j q = r.mirrors j q old in
        record {
          status = ground (arith, before.status, at, str_eq_iff id j);
          own = λ g. ground (arith, before.own g, fresh j q old);
        }
    | inl same ↦
        let this : q ≡ record p { guid = row.guid } = ground arith in
        let here : j ≡ id = ground (arith, str_eq_iff id j) in
        rw (this, here)
          (record {
            status = ground (arith, m.status, status_of-absent id pm.db.rows no_id, str_eq_refl id);
            own = λ _. ground (arith, str_eq_refl id, strange_free);
          })
  ];
}
  where
    no_guid : any (has_guid row.guid) pm.db.rows ≡ false
    no_guid = any_or_right (has_id id) (has_guid row.guid) pm.db.rows free

    no_id : any (has_id id) pm.db.rows ≡ false
    no_id = any_or_left (has_id id) (has_guid row.guid) pm.db.rows free

    strange_free : is_strange row.guid id pm.db.rows ≡ false
    strange_free = any_and_false (has_guid row.guid) (λ s. not (str_eq s.id id)) pm.db.rows no_guid

-- A write through a peer's lock that leaves its guid and its status.
pub same-Mirrors :
    (rows : List Row) (id : Str) (p q : Peer)
    → q.guid ≡ p.guid
    → q.status ≡ p.status
    → Mirrors rows id p
    → Mirrors rows id q
same-Mirrors rows id p q g s m = record {
  status = s ∙ m.status;
  own = λ h. rw g (m.own (ground arith));
}

-- The table after `update_pk_row`.
pub rows-Reflects :
    (id guid : Str) (f : Row → Row) (pm : PeerMap)
    → Reflects pm
    → is_strange guid id pm.db.rows ≡ false
    → ((r : Row) → (f r).id ≡ id)
    → ((r : Row) → (f r).guid ≡ r.guid)
    → ((r : Row) → (f r).status ≡ r.status)
    → Reflects
        (record pm { db = record (pm.db) { rows = update_rows (has_guid guid) f pm.db.rows } })
rows-Reflects id guid f pm r own ids guids keep = record {
  keyed = update_rows-IsKeyed (has_guid guid) f pm.db.rows guids r.keyed;
  mirrors = λ j q h. record {
    status =
        (r.mirrors j q h).status ∙ sym (status-update_guid j guid id f pm.db.rows ids keep own);
    own = λ g.
        strange-update_guid q.guid j guid id f pm.db.rows ids guids own ∙ (r.mirrors j q h).own g;
  };
}

-- What a query leaves that keeps ids and guids, if the memory follows it.
pub table-Reflects :
    (p : Row → Bool) (f : Row → Row) (map' : Str → Option Peer) (pm : PeerMap)
    → Reflects pm
    → ((r : Row) → (f r).id ≡ r.id)
    → ((r : Row) → (f r).guid ≡ r.guid)
    → ((j : Str) (q : Peer)
        → map' j ≡ some q
        → (q.status ≡ status_of j (update_rows p f pm.db.rows))
          × ((old : Peer) × (pm.map j ≡ some old) × (q.guid ≡ old.guid)))
    → Reflects (record { map = map'; db = record (pm.db) { rows = update_rows p f pm.db.rows } })
table-Reflects p f map' pm r ids guids follows = record {
  keyed = update_rows-IsKeyed p f pm.db.rows guids r.keyed;
  mirrors = λ j q h.
      let found = follows j q h in
      record {
        status = found.0;
        own = λ e.
            any-update_rows (λ (r : Row). str_eq r.guid q.guid && not (str_eq r.id j)) p f
              pm.db.rows (λ r _. rw (ids r, guids r) refl)
            ∙ rw found.1.2 ((r.mirrors j found.1.0 found.1.1).own (ground (arith, found.1.2)));
      };
}
