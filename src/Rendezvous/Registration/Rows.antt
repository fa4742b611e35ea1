-- ===== src/Rendezvous/Registration/Rows.antt =====
-- What a registration writes in the table (src/rendezvous_server.rs, `register_pk_core`; src/database.rs,
-- `update_pk`).
use rustdesk_server_nemo.Base.{◌≡◌, ◌⊎◌, some, List, Str, find}
use rustdesk_server_nemo.Peers.{Peer}
use rustdesk_server_nemo.Peers.Table.{Row, has_id}
use rustdesk_server_nemo.Rendezvous.State.{Outside}
use rustdesk_server_nemo.Rendezvous.Registration.{RegisterPk}

module _ (out : Outside) where
  -- The row of the id is left, or it has the key of a request for the id that shows the peer's uuid, and
  -- that has the key already or comes from the ip that the peer registered from.
  abbrev pub RowKept : Str → RegisterPk → Str → Peer → List Row → Row → Type 0
  RowKept j rk ip p rows r =
      (find (has_id j) rows ≡ some r)
      ⊎ ((rk.id ≡ j)
          × (rk.uuid ≡ p.uuid)
          × ((rk.pk ≡ p.pk) ⊎ (p.ip ≡ ip))
          × (find (has_id j) rows ≡ some (record r { pk = rk.pk; info = out.json.to_string ip })))
