-- ===== src/Peers/Tests.antt =====
-- Runs of the map of peers, and the theorems on the same data (src/peer.rs, src/database.rs).
use rustdesk_server_nemo.Base.{
  ◌≡◌, refl, true, false, none, some, [], ◌∷◌, any, find, retain, codes, str_eq, ok,
}
use rustdesk_server_nemo.Peers.{
  PeerMap, Json, get, get_or, is_peer_blocked, peer_status, set_peer_status, delete_registered,
}
use rustdesk_server_nemo.Peers.Table.{
  Row, Database, IsKeyed, get_peer, set_status_row, delete_row, status_of,
}
use rustdesk_server_nemo.Peers.Status.{look, status, outage, Reach, here, next, peer_status-refines}

abbrev pub json : Json
json = record { to_string = λ ip. ip; from_str = λ info. some info }

-- A peer that the operator has blocked.
abbrev blocked : Row
blocked = record {
  guid = codes "g1";
  id = codes "111222";
  uuid = codes "u1";
  pk = codes "k1";
  status = some 0;
  note = none;
  management_policy = none;
  info = codes "10.0.0.1";
}

abbrev pub free : Row
free = record blocked { guid = codes "g2"; id = codes "333444"; status = none }

abbrev pub db : Database
db = record { rows = blocked ∷ free ∷ []; up = true }

abbrev pub started : PeerMap
started = record { map = λ _. none; db = db }

db-IsKeyed : IsKeyed db.rows
unfolding any str_eq
db-IsKeyed = (refl, (refl, tt))

-- The free peer comes into memory and is then blocked.
abbrev seen : PeerMap
seen = (get json (codes "333444") 5000000 started).0

abbrev reached : PeerMap
reached = (set_peer_status (codes "333444") (some 0) none seen).0

reach : Reach json started reached
reach =
    next (next here (look (codes "333444") 5000000 started))
      (status (codes "333444") (some 0) none seen)

reached_up : reached.db.up ≡ true
unfolding get get_peer set_peer_status set_status_row any find str_eq
reached_up = refl

peer_status-refines_example :
    peer_status (codes "333444") reached ≡ ok (status_of (codes "333444") reached.db.rows)
peer_status-refines_example =
    peer_status-refines json db reached (codes "333444") db-IsKeyed reach reached_up

block_run : is_peer_blocked (codes "333444") reached ≡ true
unfolding get get_peer set_peer_status set_status_row any find str_eq is_peer_blocked peer_status
block_run = refl

delete_run : (delete_registered (codes "333444") reached).0.map (codes "333444") ≡ none
unfolding get get_peer set_peer_status set_status_row delete_registered delete_row any find retain
    str_eq
delete_run = refl

-- The database does not answer.
abbrev down : PeerMap
down = record started { db = record db { up = false } }

abbrev forgotten : PeerMap
forgotten = (get_or json (codes "111222") 5000000 down).0

abbrev up_again : PeerMap
up_again = record forgotten { db = record (forgotten.db) { up = true } }

abbrev later : PeerMap
later = (set_peer_status (codes "333444") (some 1) none up_again).0

since_then : Reach json forgotten later
since_then =
    next (next here (outage true forgotten)) (status (codes "333444") (some 1) none up_again)

-- The blocked peer is refused before, and let through after.
outage_run :
    let after = (get_or json (codes "111222") 5000000 down).0 in
    (is_peer_blocked (codes "111222") started ≡ true)
    × (is_peer_blocked (codes "111222") (record after { db = record (after.db) { up = true } })
        ≡ false)
unfolding get_or get get_peer is_peer_blocked peer_status find str_eq
outage_run = (refl, refl)
