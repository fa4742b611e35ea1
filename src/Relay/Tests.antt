-- ===== src/Relay/Tests.antt =====
-- Runs of the relay's model, and the theorems on the same data.
use rustdesk_server_nemo.Base.{
  ℕ, zero, suc, ◌==◌, ◌+◌, ◌<◌, ◌≡◌, refl, true, false, Option, none, some, List, [], ◌∷◌, ◌++◌,
  length, take, Str, codes, lookup, insert, str_eq, ltb, if◌then◌else◌, ok, err, to_be_bytes,
  from_be_bytes, arith,
}
use rustdesk_server_nemo.Relay.Grant.{
  Scheme, signed_text, relay_grant_mint, verify_parts, relay_grant_verify,
}
use rustdesk_server_nemo.Relay.Grant.Soundness.{
  IsSound, relay_grant_verify-relay_grant_mint, relay_grant_verify-inv,
}
use rustdesk_server_nemo.Relay.Pairing.{
  Conn, Hbbr, RequestRelay, paired, is_admissible, make_pair, session_over, wait_over,
}
use rustdesk_server_nemo.Relay.Pairing.Granted.{
  Reach, HasGrant, WasParked, request, close, give_up, here, next, started, make_pair-granted,
}
use rustdesk_server_nemo.Relay.Session.{
  Limits, Relayed, Event, from_peer, from_stream, timer, Clock, going, charge, on_event, sampled,
  sample, round, relay,
}
use rustdesk_server_nemo.Relay.Session.Moves.{Moves}
use rustdesk_server_nemo.Relay.Session.Forwarding.{
  frames_of_peer, frames_of_stream, bits, relay-Moves,
}

abbrev pub repeated : ℕ → ℕ → List ℕ
repeated zero b = []
repeated (suc n) b = b ∷ repeated n b

-- A scheme for the tests: a signature is the key, sixty-four times.
abbrev pub toy : Scheme
toy = record {
  SecretKey = ℕ;
  PublicKey = ℕ;
  encode = λ b. b;
  decode = λ s. some s;
  sign_detached = λ m sk. repeated 64 sk;
  signature_ok = λ sig. length sig == 64;
  verify_detached = λ sig m pk. str_eq sig (repeated 64 pk);
}

toy-IsSound : IsSound toy 7 7
unfolding length str_eq
toy-IsSound = record {
  decodes = λ b. refl;
  signature_length = λ m. refl;
  well_formed = λ m. refl;
  verifies = λ m. refl;
}

abbrev nonce : List ℕ
nonce = repeated 16 1

abbrev grant : Str
grant = relay_grant_mint toy 7 nonce 1000 60

sixteen : length nonce ≡ 16
unfolding length
sixteen = refl

relay_grant_verify-relay_grant_mint_example :
    relay_grant_verify toy 7 grant 1060
    ≡ (if ltb 1060 (1000 + 60) then ok tt else err (codes "relay grant expired"))
relay_grant_verify-relay_grant_mint_example =
    relay_grant_verify-relay_grant_mint toy 7 7 nonce 1000 60 1060 toy-IsSound sixteen (omega arith)

fresh_run : relay_grant_verify toy 7 grant 1010 ≡ ok tt
fresh_run =
    relay_grant_verify-relay_grant_mint toy 7 7 nonce 1000 60 1010 toy-IsSound sixteen (omega arith)

relay_grant_verify-inv_example :
    (nonce : List ℕ) × (exp : List ℕ) × (sig : List ℕ) × (some grant ≡ some (nonce ++ (exp ++ sig)))
    × (length nonce ≡ 16)
    × (length exp ≡ 8)
    × (length sig ≡ 64)
    × (toy.verify_detached sig (signed_text nonce exp) 7 ≡ true)
    × (1010 < from_be_bytes 0 exp)
relay_grant_verify-inv_example = relay_grant_verify-inv toy 7 grant 1010 fresh_run

abbrev conn_of : Str → Conn
conn_of addr = record { addr = addr; is_ws = false; keyed = true; raw = false }

abbrev first : Conn
first = conn_of (codes "10.0.0.1:1")

abbrev second : Conn
second = conn_of (codes "10.0.0.2:2")

abbrev asked : RequestRelay
asked = record { licence_key = codes "key"; uuid = grant }

abbrev server_key : Option ℕ
server_key = some 7

abbrev label : Str → Str
label s = take 8 s

abbrev waiting : Hbbr
waiting = (make_pair toy (codes "key") server_key label first (some asked) 1005 (started [] [])).0

abbrev raw_of : Conn → Conn
raw_of c = record c { keyed = false; raw = true }

pair_run :
    (make_pair toy (codes "key") server_key label second (some asked) 1010 waiting).1
    ≡ paired (raw_of second) (raw_of first)
unfolding make_pair is_admissible relay_grant_verify verify_parts relay_grant_mint to_be_bytes
    from_be_bytes lookup insert str_eq length
pair_run = refl

first_asks : Reach toy (codes "key") server_key label (started [] []) waiting
first_asks = next here (request first (some asked) 1005)

make_pair-granted_example :
    HasGrant toy (codes "key") server_key label asked 1010
    × ((raw_of second).addr ≡ second.addr)
    × ((peer : Conn) × ((raw_of first).addr ≡ peer.addr)
        × (lookup grant waiting.peers ≡ some peer)
        × WasParked toy (codes "key") server_key label first_asks grant peer)
    × (lookup grant
          (make_pair toy (codes "key") server_key label second (some asked) 1010 waiting).0.peers
        ≡ none)
make_pair-granted_example =
    make_pair-granted toy (codes "key") server_key label [] [] waiting second (raw_of second)
      (raw_of first) asked 1010 first_asks pair_run

-- The first side waits while a session ends and a wait under no text is over.
abbrev later : Hbbr
later = wait_over [] (session_over (codes "10.0.0.5:5") waiting)

meanwhile : Reach toy (codes "key") server_key label waiting later
meanwhile = next (next here (close (codes "10.0.0.5:5"))) (give_up [])

abbrev limits : Limits
limits = record { downgrade_threshold = 1; downgrade_start_check = 1000 }

abbrev fresh : Relayed
fresh = record {
  elapsed = 0;
  total = 0;
  total_s = 0;
  highest_s = 0;
  downgrade = false;
  blacked = false;
  to_stream = [];
  to_peer = [];
  fast_bits = 0;
  slow_bits = 0;
  usage = none;
}

abbrev clock : Clock
clock = record { millis = 1500; is_blocked = false; is_blacked = false }

abbrev quick : Clock
quick = record { millis = 5; is_blocked = false; is_blacked = false }

-- A long first frame exceeds one bit for a millisecond, so the second frame is charged as slow.
abbrev events : List (Event × Clock)
events =
    (from_peer (some (repeated 200 1)) true, clock)
    ∷ (from_stream (some (2 ∷ 3 ∷ [])) true, quick)
    ∷ (timer 3, quick)
    ∷ []

abbrev after : Relayed
after = record {
  elapsed = 1500;
  total = 1616;
  total_s = 16;
  highest_s = 1;
  downgrade = true;
  blacked = false;
  to_stream = repeated 200 1 ∷ [];
  to_peer = (2 ∷ 3 ∷ []) ∷ [];
  fast_bits = 1600;
  slow_bits = 16;
  usage = some (1500, 1600, 1, 1);
}

relay_run : relay limits events fresh ≡ going after
unfolding relay round on_event sample sampled charge length
relay_run = refl

relay-Moves_example :
    Moves (frames_of_peer events) (frames_of_stream events) (bits events) fresh after
relay-Moves_example = relay-Moves limits events fresh after (omega arith) relay_run
