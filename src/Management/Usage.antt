-- ===== src/Management/Usage.antt =====
-- The bytes that sessions carried over the relay (src/nemo_management.rs, `record_relay_grant` and
-- `apply_relay_usage`). Counters are u64 and wrap.
pub mod Room
pub mod Accounts
use rustdesk_server_nemo.Base.{
  ℕ, zero, suc, ◌+◌, ◌-◌, ◌/◌, ◌%◌, ◌^◌, Bool, true, false, not, ◌&&◌, ◌||◌, Option, none, some,
  List, [], ◌∷◌, ◌++◌, map, length, find, retain, update_first, remove_at, Str, str_eq, str_mem,
  str_ltb, is_empty, ltb, ◌==◌, if◌then◌else◌,
}

-- `RELAY_SESSION_MEMORY`.
abbrev pub relay_session_memory : ℕ
relay_session_memory = 256

-- `RelaySessionRecord`.
pub record RelaySessionRecord : Type 0 where
  pub session : Str
  pub source_id : Str
  pub target_id : Str
  pub brokered_at : Str
  pub bytes : ℕ
  pub kbps : ℕ
  pub peak_kbps : ℕ
  pub seconds : ℕ
  pub last_sample_at : Option Str
  pub live : Bool

-- `RelayUsageSample`.
pub record RelayUsageSample : Type 0 where
  pub session : Str
  pub bytes : ℕ
  pub kbps : ℕ
  pub peak_kbps : ℕ
  pub ms : ℕ

-- The part of `NemoStatsStore` about the relay: `totals.relay_bytes`, the `relay_bytes` of each peer
-- and the sessions.
pub record UsageStore : Type 0 where
  pub relay_bytes : ℕ
  pub peers : Str → ℕ
  pub relay_sessions : List RelaySessionRecord

-- The order of `record_relay_grant`'s victims: ended before live, then the older one. The earlier of
-- two equal rows goes first.
abbrev pub goes_before : RelaySessionRecord → RelaySessionRecord → Bool
goes_before r q =
    if r.live
    then q.live && str_ltb r.brokered_at q.brokered_at
    else q.live || str_ltb r.brokered_at q.brokered_at

-- `min_by_key`, from the position `i` on.
unfoldable pub victim_from :
    ℕ → List RelaySessionRecord → Option (ℕ × RelaySessionRecord) → Option (ℕ × RelaySessionRecord)
victim_from i [] best = best
victim_from i (r ∷ rows) none = victim_from (suc i) rows (some (i, r))
victim_from i (r ∷ rows) (some best) =
    victim_from (suc i) rows (some (if goes_before r best.1 then (i, r) else best))

-- The loop `while len() >= RELAY_SESSION_MEMORY`, one round for each row.
unfoldable pub evict_rows : ℕ → List RelaySessionRecord → List RelaySessionRecord
unfolding victim_from
evict_rows zero rows = rows
evict_rows (suc fuel) rows =
    if ltb (length rows) relay_session_memory then rows else elim (victim_from 0 rows none) [
      | none ↦ rows
      | some (i, _) ↦ evict_rows fuel (remove_at i rows)
    ]

abbrev pub brokered : Str → Str → Str → Str → RelaySessionRecord
brokered session source_id target_id now_iso = record {
  session = session;
  source_id = source_id;
  target_id = target_id;
  brokered_at = now_iso;
  bytes = 0;
  kbps = 0;
  peak_kbps = 0;
  seconds = 0;
  last_sample_at = none;
  live = false;
}

-- `record_relay_grant`.
unfoldable pub record_relay_grant : Str → Str → Str → Str → UsageStore → UsageStore
unfolding evict_rows
record_relay_grant session source_id target_id now_iso store = record store {
  relay_sessions =
      evict_rows (length store.relay_sessions) store.relay_sessions
      ++ (brokered session source_id target_id now_iso ∷ []);
}

abbrev pub of_session : Str → RelaySessionRecord → Bool
of_session session r = str_eq r.session session

-- The row after a sample.
abbrev pub sampled_row : RelayUsageSample → Str → RelaySessionRecord → RelaySessionRecord
sampled_row sample at r = record r {
  bytes = sample.bytes;
  kbps = sample.kbps;
  peak_kbps = sample.peak_kbps;
  seconds = sample.ms / 1000;
  last_sample_at = some at;
  live = true;
}

-- One end of a session is charged.
abbrev pub charge_peer : Str → ℕ → (Str → ℕ) → Str → ℕ
charge_peer id delta peers j =
    if not (is_empty id) && str_eq id j then (peers j + delta) % 2 ^ 64 else peers j

-- One round of `apply_relay_usage`. `-` on ℕ is `saturating_sub`.
unfoldable pub apply_sample : Str → RelayUsageSample → UsageStore → UsageStore
apply_sample at sample store =
    if is_empty sample.session
    then store
    else elim (find (of_session sample.session) store.relay_sessions) [
      | none ↦ record store { relay_bytes = (store.relay_bytes + sample.bytes) % 2 ^ 64 }
      | some row ↦
          let delta = sample.bytes - row.bytes in
          record store {
            relay_bytes = (store.relay_bytes + delta) % 2 ^ 64;
            peers = charge_peer row.target_id delta (charge_peer row.source_id delta store.peers);
            relay_sessions =
                update_first (of_session sample.session) (sampled_row sample at)
                  store.relay_sessions;
          }
    ]

unfoldable pub apply_samples : Str → List RelayUsageSample → UsageStore → UsageStore
unfolding apply_sample
apply_samples at [] store = store
apply_samples at (sample ∷ samples) store = apply_samples at samples (apply_sample at sample store)

-- A session that the relay no longer reports has ended.
abbrev pub ended : List Str → RelaySessionRecord → RelaySessionRecord
ended seen row =
    if row.live && not (str_mem row.session seen)
    then record row { live = false; kbps = 0 }
    else row

-- `apply_relay_usage`.
unfoldable pub apply_relay_usage : List RelayUsageSample → Str → UsageStore → UsageStore
unfolding apply_samples
apply_relay_usage samples at store =
    let seen =
      retain (λ s. not (is_empty s))
        (map (λ (sample : RelayUsageSample). sample.session) samples) in
    let applied = apply_samples at samples store in
    record applied { relay_sessions = map (ended seen) applied.relay_sessions }
