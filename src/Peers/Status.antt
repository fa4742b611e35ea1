-- ===== src/Peers/Status.antt =====
-- The memory of peers is a cache (src/peer.rs): what it says of a peer's status is what the table says,
-- unless `get_or` was called in an outage of the database.
use rustdesk_server_nemo.Base.{
  ℕ, ◌≡◌, inl, inr, Bool, true, Option, none, some, Str, find, arith, Option-cases, ok,
}
use rustdesk_server_nemo.Rendezvous.Net.{Addr}
use rustdesk_server_nemo.Peers.{
  Peer, PeerMap, Json, get, get_or, update_pk, set_peer_status, set_peer_management_policy,
  delete_registered, peer_status,
}
use rustdesk_server_nemo.Peers.Table.{Database, has_id, status_of, IsKeyed, get_peer}
use rustdesk_server_nemo.Peers.Mirror.{Reflects, IsFresh}
use rustdesk_server_nemo.Peers.Mirror.Lookups.{get-Reflects, get_or-Reflects}
use rustdesk_server_nemo.Peers.Mirror.Keys.{update_pk-Reflects}
use rustdesk_server_nemo.Peers.Mirror.Writes.{status-Reflects, policy-Reflects, delete-Reflects}

module _ (json : Json) where
  -- What happens to the map of peers. `get_or` needs an answer; an outage may begin or end at any time.
  pub data Step : PeerMap → PeerMap → Type 0 where
    look : (id : Str) (now : ℕ) (pm : PeerMap) → Step pm (get json id now pm).0
    take_or :
        (id : Str) (now : ℕ) (pm : PeerMap) → pm.db.up ≡ true → Step pm (get_or json id now pm).0
    key :
        (id : Str) (peer : Peer) (addr : Addr) (uuid pk ip guid : Str) (now : ℕ) (pm : PeerMap)
        → pm.map id ≡ some peer
        → IsFresh guid pm
        → Step pm (update_pk json id peer addr uuid pk ip guid now pm).0
    status :
        (id : Str) (s : Option ℕ) (remark : Option Str) (pm : PeerMap)
        → Step pm (set_peer_status id s remark pm).0
    policy :
        (id : Str) (text : Option Str) (pm : PeerMap)
        → Step pm (set_peer_management_policy id text pm).0
    delete : (id : Str) (pm : PeerMap) → Step pm (delete_registered id pm).0
    outage : (up : Bool) (pm : PeerMap) → Step pm (record pm { db = record (pm.db) { up = up } })

  pub data Reach (start : PeerMap) : PeerMap → Type 0 where
    here : Reach start start
    next : {pm pm' : PeerMap} → Reach start pm → Step pm pm' → Reach start pm'

module _ (json : Json) where
  Step-Reflects : {pm pm' : PeerMap} → Step json pm pm' → Reflects pm → Reflects pm'
  Step-Reflects (look id now pm) r = get-Reflects json id now pm r
  Step-Reflects (take_or id now pm up) r = get_or-Reflects json id now pm up r
  Step-Reflects (key id peer addr uuid pk ip guid now pm at fresh) r =
      update_pk-Reflects json id peer addr uuid pk ip guid now pm at fresh r
  Step-Reflects (status id s remark pm) r = status-Reflects id s remark pm r
  Step-Reflects (policy id text pm) r = policy-Reflects id text pm r
  Step-Reflects (delete id pm) r = delete-Reflects id pm r
  Step-Reflects (outage up pm) r = record { keyed = r.keyed; mirrors = r.mirrors }

  pub Reach-Reflects : {start pm : PeerMap} → Reach json start pm → Reflects start → Reflects pm
  Reach-Reflects here r = r
  Reach-Reflects (next reach step) r = Step-Reflects step (Reach-Reflects reach r)

-- A server that starts over a table with unique guids.
pub start-Reflects :
    (db : Database) → IsKeyed db.rows → Reflects (record { map = λ id. none; db = db })
start-Reflects db k = record { keyed = k; mirrors = λ id p h. absurd (cc) }

-- In every state that the map of peers reaches from an empty memory over a table with unique guids, by
-- its operations and by outages of the database in any order, `get_or` being called when the database
-- answers: once the database answers, the status of an id is the one in the table.
pub peer_status-refines :
    (json : Json) (db : Database) (pm : PeerMap) (id : Str)
    → IsKeyed db.rows
    → Reach json (record { map = λ _. none; db = db }) pm
    → pm.db.up ≡ true
    → peer_status id pm ≡ ok (status_of id pm.db.rows)
unfolding peer_status get_peer
peer_status-refines json db pm id k reach up = elim (Option-cases (pm.map id)) [
  | inr (p, e) ↦ ground (arith, (r.mirrors id p e).status)
  | inl e ↦ elim (Option-cases (find (has_id id) pm.db.rows)) [
    | inl f ↦ ground arith
    | inr (row, f) ↦ ground arith
  ]
]
  where
    r : Reflects pm
    r = Reach-Reflects json reach (start-Reflects db k)
