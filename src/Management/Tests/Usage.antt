-- ===== src/Management/Tests/Usage.antt =====
-- Relayed bytes of two sessions (src/nemo_management.rs, `apply_relay_usage`).
use rustdesk_server_nemo.Base.{
  ◌≡◌, refl, ◌⊎◌, ◌<◌, ◌++◌, List, [], ◌∷◌, length, count, find, update_first, Str, codes, str_eq,
  arith, ℕ,
}
use rustdesk_server_nemo.Management.Usage.{
  RelaySessionRecord, RelayUsageSample, UsageStore, relay_session_memory, brokered,
  record_relay_grant, apply_sample, apply_samples, apply_relay_usage, evict_rows,
}
use rustdesk_server_nemo.Management.Usage.Room.{is_live, is_over, record_relay_grant-room}
use rustdesk_server_nemo.Management.Usage.Accounts.{
  sum_of, bytes_of, bytes_at, Grows, Balances, apply_relay_usage-Balances,
}

abbrev no_sessions : UsageStore
no_sessions = record { relay_bytes = 0; peers = λ id. 0; relay_sessions = [] }

abbrev one_session : UsageStore
one_session =
    record_relay_grant (codes "s1") (codes "333444") (codes "555666") (codes "12:00") no_sessions

record_relay_grant-room_example :
    (kept : List RelaySessionRecord) × ((record_relay_grant
        (codes "s2")
        (codes "333444")
        (codes "111222")
        (codes "12:01")
        one_session).relay_sessions
      ≡ kept ++ (brokered (codes "s2") (codes "333444") (codes "111222") (codes "12:01") ∷ []))
    × (length kept < relay_session_memory)
    × ((count is_live kept ≡ count is_live one_session.relay_sessions) ⊎ (count is_over kept ≡ 0))
record_relay_grant-room_example =
    record_relay_grant-room (codes "s2") (codes "333444") (codes "111222") (codes "12:01")
      one_session

abbrev sample_of : Str → ℕ → RelayUsageSample
sample_of session bytes = record {
  session = session;
  bytes = bytes;
  kbps = 8;
  peak_kbps = 9;
  ms = 3000;
}

-- The session moves 100 bytes, then 50 more.
abbrev samples : List RelayUsageSample
samples = sample_of (codes "s1") 100 ∷ sample_of (codes "s1") 150 ∷ []

samples_grow : Grows (codes "12:02") samples one_session
unfolding Grows apply_sample record_relay_grant evict_rows find update_first str_eq
samples_grow = ((_, refl, omega arith), ((_, refl, omega arith), tt))

apply_relay_usage-Balances_example :
    let after = apply_relay_usage samples (codes "12:02") one_session in
    Balances one_session.relay_bytes
      (sum_of bytes_of one_session.relay_sessions)
      after.relay_bytes
      (sum_of bytes_of after.relay_sessions)
    × Balances
        (one_session.peers (codes "555666"))
        (sum_of (bytes_at (codes "555666")) one_session.relay_sessions)
        (after.peers (codes "555666"))
        (sum_of (bytes_at (codes "555666")) after.relay_sessions)
apply_relay_usage-Balances_example =
    apply_relay_usage-Balances samples (codes "12:02") one_session (codes "555666") samples_grow

usage_run :
    let after = apply_relay_usage samples (codes "12:02") one_session in
    (after.relay_bytes ≡ 150)
    × (after.peers (codes "333444") ≡ 150)
    × (after.peers (codes "555666") ≡ 150)
unfolding apply_relay_usage apply_samples apply_sample record_relay_grant evict_rows find
    update_first str_eq
usage_run = (refl, refl, refl)

-- A session that this server did not broker moved 100 bytes in all. Two polls count them twice.
stranger_run :
    let poll = sample_of (codes "other") 100 ∷ [] in
    (apply_relay_usage poll
      (codes "12:03")
      (apply_relay_usage poll (codes "12:02") no_sessions)).relay_bytes
    ≡ 200
unfolding apply_relay_usage apply_samples apply_sample find str_eq
stranger_run = refl
