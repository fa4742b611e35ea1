-- ===== src/Peers/Outage.antt =====
-- What an outage of the database leaves in the memory of peers (src/peer.rs, `get_or`).
use rustdesk_server_nemo.Base.{◌≡◌, ◌≢◌, none, some, Str}
use rustdesk_server_nemo.Peers.{PeerMap, Peer, Json}
use rustdesk_server_nemo.Peers.Status.{
  look, take_or, key, status, policy, delete, outage, Reach, here, next,
}

-- The peer is in memory, and has no status there.
abbrev HasNoStatus : Str → PeerMap → Type 0
HasNoStatus id pm = (p : Peer) × (pm.map id ≡ some p) × (p.status ≡ none)

module _ (json : Json) where
  -- On the way, nothing sets the status of the id, and nothing deletes it.
  unfoldable pub Spares : {start pm : PeerMap} → Reach json start pm → Str → Type 0
  Spares here id = Unit
  Spares (next reach (look i now pm)) id = Spares reach id
  Spares (next reach (take_or i now pm up)) id = Spares reach id
  Spares (next reach (key i peer addr uuid pk ip guid now pm at fresh)) id = Spares reach id
  Spares (next reach (status i s remark pm)) id = (i ≢ id) × Spares reach id
  Spares (next reach (policy i text pm)) id = Spares reach id
  Spares (next reach (delete i pm)) id = (i ≢ id) × Spares reach id
  Spares (next reach (outage up pm)) id = Spares reach id
