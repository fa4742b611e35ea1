-- ===== src/Rendezvous/Tests/Registering.antt =====
-- Registrations (src/rendezvous_server.rs, `check_ip_blocker` and `register_pk_core`).
use rustdesk_server_nemo.Base.{
  ℕ, zero, suc, ◌*◌, ◌≤◌, ◌≡◌, refl, find, inl, inr, true, false, none, some, List, [], ◌∷◌, any,
  length, Str, codes, str_eq, str_mem, byte_len, arith,
}
use rustdesk_server_nemo.Peers.{
  Peer, pk_ok, uuid_mismatch, get, get_or, update_pk, is_peer_blocked, peer_status, peer_of_row,
}
use rustdesk_server_nemo.Peers.Tests.{json, free}
use rustdesk_server_nemo.Peers.Table.{Row, get_peer, insert_peer, update_pk_row}
use rustdesk_server_nemo.Rendezvous.Net.{v4, Addr}
use rustdesk_server_nemo.Rendezvous.Blocker.{count_after, ids_after, check_entry, check_ip_blocker}
use rustdesk_server_nemo.Rendezvous.Blocker.Burst.{
  Call, passed, WithinMinute, after, check_ip_blocker-burst,
}
use rustdesk_server_nemo.Rendezvous.Blocker.Recovery.{IsQuiet, calls_of, check_ip_blocker-recovers}
use rustdesk_server_nemo.Rendezvous.State.{Hbbs}
use rustdesk_server_nemo.Rendezvous.Registration.{
  RegisterPk, compare_keys, reg_pk_after, register_peer, register_pk_core,
}
use rustdesk_server_nemo.Rendezvous.Tests.Data.{out, server, target, target_peer}

abbrev ip : Str
ip = codes "10.0.0.9"

abbrev earlier : List Call
earlier = (ip, target, 1000) ∷ []

-- Two registrations of one ip between which another ip comes.
abbrev calls : List Call
calls = (ip, target, 2000) ∷ (codes "10.0.0.8", target, 2500) ∷ (ip, codes "111222", 3000) ∷ []

calls-WithinMinute : WithinMinute 2000 calls
calls-WithinMinute =
    ((omega arith, omega arith), ((omega arith, omega arith), ((omega arith, omega arith), tt)))

check_ip_blocker-burst_example : passed ip calls (after earlier) ≤ 32
check_ip_blocker-burst_example = check_ip_blocker-burst ip 2000 earlier calls calls-WithinMinute

passed_run : passed ip calls (after earlier) ≡ 2
unfolding passed check_ip_blocker check_entry count_after ids_after str_eq str_mem any length after
passed_run = refl

-- An ip that has used up its minute.
rapid : ℕ → List Call
rapid zero = []
rapid (suc n) = (ip, target, 1000) ∷ rapid n

refused_run : (check_ip_blocker ip target 2000 (after (rapid 33))).1 ≡ false
unfolding check_ip_blocker check_entry count_after ids_after after rapid str_eq str_mem any length
refused_run = refl

rapid-IsQuiet : (n : ℕ) → IsQuiet (61 * 1000) ip 62000 (rapid n)
unfolding rapid
rapid-IsQuiet zero = tt
rapid-IsQuiet (suc n) = (inr (omega arith), rapid-IsQuiet n)

rapid_calls : calls_of ip (rapid 33) ≡ 33
unfolding rapid calls_of str_eq
rapid_calls = refl

check_ip_blocker-recovers_example : (check_ip_blocker ip target 62000 (after (rapid 33))).1 ≡ true
check_ip_blocker-recovers_example =
    check_ip_blocker-recovers ip target 62000 (rapid 33) (rapid-IsQuiet 33)
      (inl (omega (arith, rapid_calls)))

-- The target registers a new key from its own ip.
abbrev home : Addr
home = record { ip = v4 9; port = 1009 }

abbrev request : RegisterPk
request = record { id = target; uuid = codes "u9"; pk = codes "new" }

abbrev registered : Hbbs out
registered = (register_pk_core out request home (codes "g") 5001000 server).0

abbrev renewed : Peer
renewed = record target_peer { pk = codes "new"; last_reg_time = 5001000; reg_pk = (1, 5001000) }

registered_run : registered.pm.map target ≡ some renewed
unfolding register_pk_core register_peer compare_keys reg_pk_after check_ip_blocker check_entry
    get_or get update_pk update_pk_row get_peer is_peer_blocked peer_status str_eq any byte_len
registered_run = refl

-- A peer that only the table has renews its key from its ip.
abbrev known_row : Row
known_row = record free { info = 9 ∷ [] }

abbrev restarted : Hbbs out
restarted = record server {
  pm = record { map = λ id. none; db = record { rows = known_row ∷ []; up = true } };
}

abbrev known_peer : Peer
known_peer = peer_of_row json 5001000 known_row

abbrev renewal : RegisterPk
renewal = record { id = codes "333444"; uuid = codes "u1"; pk = codes "new" }

abbrev after_renewal : Hbbs out
after_renewal = (register_pk_core out renewal home (codes "g") 5001000 restarted).0

renewal_run : after_renewal.pm.db.rows ≡ record known_row { pk = codes "new" } ∷ []
unfolding register_pk_core register_peer compare_keys reg_pk_after check_ip_blocker check_entry
    get_or get update_pk update_pk_row get_peer is_peer_blocked peer_status str_eq any byte_len find
renewal_run = refl

-- From elsewhere it is refused.
moved_run :
    (register_pk_core out request (record { ip = v4 8; port = 1 }) (codes "g") 5001000 server).1
    ≡ some uuid_mismatch
unfolding register_pk_core register_peer compare_keys check_ip_blocker check_entry get_or get
    is_peer_blocked peer_status str_eq byte_len
moved_run = refl

-- The database stays silent, so the key of a peer that is not in memory is anyone's, and the answer
-- to the failed write is a success.
abbrev silent : Hbbs out
silent = record server { pm = record (server.pm) { db = record (server.pm.db) { up = false } } }

taken_run :
    let (s, answer) =
      register_pk_core out
        (record request { id = codes "333444"; uuid = codes "thief" })
        home
        (codes "g")
        5001000
        silent in
    ((get json (codes "333444") 5001000 (record (s.pm) { db = server.pm.db })).1
      ≡ some (record renewed { uuid = codes "thief"; guid = []; status = none }))
    × (answer ≡ some pk_ok)
unfolding register_pk_core register_peer compare_keys reg_pk_after check_ip_blocker check_entry
    get_or get update_pk insert_peer get_peer is_peer_blocked peer_status str_eq any byte_len
taken_run = (refl, refl)
