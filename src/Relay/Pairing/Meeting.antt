-- ===== src/Relay/Pairing/Meeting.antt =====
-- Two sides that show the same grant meet (src/relay_server.rs, `make_pair_`).
use rustdesk_server_nemo.Base.{◌≢◌, Option, none, some, Str}
use rustdesk_server_nemo.Relay.Grant.{Scheme}
use rustdesk_server_nemo.Relay.Pairing.{Hbbr}
use rustdesk_server_nemo.Relay.Pairing.Granted.{request, close, give_up, Reach, here, next}

module _ (scheme : Scheme) (key : Str) (server_key : Option scheme.PublicKey)
    (label : Str → Str) where
  -- On the way, no request shows the text, and no wait under it ends.
  unfoldable pub Spares : {s t : Hbbr} → Reach scheme key server_key label s t → Str → Type 0
  Spares here uuid = Unit
  Spares (next reach (request conn none now)) uuid = Spares reach uuid
  Spares (next reach (request conn (some rf) now)) uuid = (rf.uuid ≢ uuid) × Spares reach uuid
  Spares (next reach (close addr)) uuid = Spares reach uuid
  Spares (next reach (give_up gone)) uuid = (gone ≢ uuid) × Spares reach uuid
