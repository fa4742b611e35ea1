-- ===== src/Peers/Mirror/Rows.antt =====
-- The rows that filing a peer's key leaves (src/peer.rs, `update_pk`; src/database.rs, `update_pk`).
use rustdesk_server_nemo.Base.{
  ℕ, ◌≡◌, refl, sym, ap, ◌∙◌, ◌⊎◌, inl, inr, true, false, not, ◌&&◌, ◌||◌, some, List, [], ◌∷◌, Str,
  str_eq, str_eq_iff, is_empty, any, find, find-holds, any_of_find, arith, Bool-cases,
  if◌then◌else◌,
}
use rustdesk_server_nemo.Peers.{Peer, PeerMap, Json, update_pk}
use rustdesk_server_nemo.Peers.Table.{Row, has_id, has_guid, is_strange, new_row, update_rows}
use rustdesk_server_nemo.Peers.Table.Queries.{any_or_left}
use rustdesk_server_nemo.Peers.Mirror.Keys.{update_pk-refused, update_pk-inserts, update_pk-updates}
use rustdesk_server_nemo.Rendezvous.Net.{Addr}

-- The row of an id after a write on one guid, whose rows have the id that is written.
find-update_guid :
    (j guid id : Str) (f : Row → Row) (rows : List Row) (r : Row)
    → ((x : Row) → (f x).id ≡ id)
    → is_strange guid id rows ≡ false
    → find (has_id j) rows ≡ some r
    → find (has_id j) (update_rows (has_guid guid) f rows)
      ≡ some (if has_guid guid r then f r else r)
unfolding find any
find-update_guid j guid id f [] r ids own h = absurd (cc)
find-update_guid j guid id f (x ∷ rows) r ids own h =
    ground (arith, ids x, str_eq_iff x.id id, find-update_guid j guid id f rows r ids)

strange-id :
    (guid id : Str) (rows : List Row) (j : Str) (r : Row)
    → is_strange guid id rows ≡ false
    → find (has_id j) rows ≡ some r
    → has_guid guid r ≡ true
    → str_eq r.id id ≡ true
unfolding find any
strange-id guid id [] j r own h g = absurd (cc)
strange-id guid id (x ∷ rows) j r own h g = ground (arith, strange-id guid id rows j r)

-- The peer has no guid, or the rows of its guid have its id.
abbrev pub Owns : List Row → Str → Peer → Type 0
Owns rows id peer = (is_empty peer.guid ≡ true) ⊎ (is_strange peer.guid id rows ≡ false)

-- The row that `update_pk` writes.
abbrev with_key : Str → Str → Str → Row → Row
with_key id pk info q = record q { id = id; pk = pk; info = info }

-- The row of an id after `update_pk`.
pub update_pk-rows :
    (json : Json) (id : Str) (peer : Peer) (addr : Addr) (uuid pk ip guid : Str) (now : ℕ)
    (pm : PeerMap) (j : Str) (r : Row)
    → Owns pm.db.rows id peer
    → find (has_id j) pm.db.rows ≡ some r
    → let rows = (update_pk json id peer addr uuid pk ip guid now pm).0.db.rows in
      (find (has_id j) rows ≡ some r)
      ⊎ ((id ≡ j) × (find (has_id j) rows ≡ some (record r { pk = pk; info = json.to_string ip })))
unfolding find
update_pk-rows json id peer addr uuid pk ip guid now pm j r own h =
    elim (Bool-cases (
      not pm.db.up
      || (if is_empty peer.guid
          then any (λ (q : Row). str_eq q.id id || str_eq q.guid guid) pm.db.rows
          else any (λ (q : Row). str_eq q.id id && not (str_eq q.guid peer.guid)) pm.db.rows))) [
            | inl taken ↦ inl (
                ap (λ m. find (has_id j) m.db.rows)
                  (update_pk-refused json id peer addr uuid pk ip guid now pm taken)
                ∙ h)
            | inr free ↦ elim (Bool-cases (is_empty peer.guid)) [
              | inl new ↦ inl (
                  ap (λ m. find (has_id j) m.db.rows)
                    (update_pk-inserts json id peer addr uuid pk ip guid now pm new (ground arith)
                      (ground arith))
                  ∙ inserted (ground arith))
              | inr old ↦ updated old (ground arith) (ground arith)
            ]
          ]
  where
    inserted :
        any (λ (q : Row). str_eq q.id id || str_eq q.guid guid) pm.db.rows ≡ false
        → find (has_id j) (new_row id uuid pk (json.to_string ip) guid ∷ pm.db.rows) ≡ some r
    inserted free = elim (Bool-cases (str_eq id j)) [
      | inr other ↦ ground arith
      | inl same ↦
          let is : id ≡ j = (str_eq_iff id j).0 same in
          let no_id = any_or_left (has_id id) (has_guid guid) pm.db.rows free in
          let found : any (has_id id) pm.db.rows ≡ true =
            rw is (any_of_find (has_id j) pm.db.rows r h) in
          absurd (cc (no_id, found))
    ]

    updated :
        is_empty peer.guid ≡ false
        → pm.db.up ≡ true
        → any (λ (q : Row). str_eq q.id id && not (str_eq q.guid peer.guid)) pm.db.rows ≡ false
        → let rows = (update_pk json id peer addr uuid pk ip guid now pm).0.db.rows in
          (find (has_id j) rows ≡ some r)
          ⊎ ((id ≡ j)
              × (find (has_id j) rows ≡ some (record r { pk = pk; info = json.to_string ip })))
    updated old up free = elim own [
      | inl none_there ↦ absurd (cc (none_there, old))
      | inr mine ↦
          let at =
            ap (λ m. find (has_id j) m.db.rows)
              (update_pk-updates json id peer addr uuid pk ip guid now pm old up free)
            ∙ find-update_guid j peer.guid id (with_key id pk (json.to_string ip)) pm.db.rows r
                (λ x. refl) mine h in
          elim (Bool-cases (has_guid peer.guid r)) [
            | inr other ↦ inl (at ∙ rw other refl)
            | inl same ↦
                let is_id : r.id ≡ id =
                  (str_eq_iff r.id id).0 (strange-id peer.guid id pm.db.rows j r mine h same) in
                let is_j : r.id ≡ j =
                  (str_eq_iff r.id j).0 (find-holds (has_id j) pm.db.rows r h) in
                inr (sym is_id ∙ is_j, at ∙ rw (same, ← is_id) refl)
          ]
    ]
