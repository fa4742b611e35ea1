-- ===== src/Management/Replay.antt =====
-- The replay guards of sealed logins and sealed requests (src/nemo_management.rs).
pub mod Once
pub mod Bound
use rustdesk_server_nemo.Base.{
  ℕ, zero, suc, ◌-◌, Bool, true, false, ◌||◌, Option, none, some, List, [], ◌∷◌, length, Str, Dict,
  codes, lookup, insert, remove, contains_key, retain_values, is_empty, byte_len, trim, leb, ltb,
  if◌then◌else◌, Result, ok, err,
}

-- `SEALED_LOGIN_MAX_AGE_SECS`, `SEALED_LOGIN_MAX_SKEW_SECS`, `MAX_SEEN_NONCES` and `MAX_NONCE_LEN`.
abbrev pub sealed_login_max_age_secs : ℕ
sealed_login_max_age_secs = 300

abbrev pub sealed_login_max_skew_secs : ℕ
sealed_login_max_skew_secs = 60

abbrev pub max_seen_nonces : ℕ
max_seen_nonces = 100000

abbrev pub max_nonce_len : ℕ
max_nonce_len = 64

-- `iter().min_by_key(time)`: the first of the oldest entries.
unfoldable pub oldest_seen : Dict ℕ → Option (Str × ℕ) → Option (Str × ℕ)
oldest_seen [] best = best
oldest_seen ((k, t) ∷ m) none = oldest_seen m (some (k, t))
oldest_seen ((k, t) ∷ m) (some best) = oldest_seen m (some (if ltb t best.1 then (k, t) else best))

-- The loop `while seen.len() >= MAX_SEEN_NONCES`, one round for each entry.
unfoldable pub evict_seen : ℕ → Dict ℕ → Dict ℕ
evict_seen zero seen = seen
evict_seen (suc fuel) seen =
    if ltb (length seen) max_seen_nonces then seen else elim (oldest_seen seen none) [
      | none ↦ seen
      | some oldest ↦ evict_seen fuel (remove oldest.0 seen)
    ]

-- An entry that `retain` keeps.
abbrev pub is_kept : ℕ → ℕ → Bool
is_kept now seen_at = leb (now - seen_at) sealed_login_max_age_secs

-- The time stamp lies outside the window. `-` on ℕ is `saturating_sub`.
abbrev pub is_stale : ℕ → ℕ → Bool
is_stale ts now =
    ltb sealed_login_max_age_secs (now - ts) || ltb sealed_login_max_skew_secs (ts - now)

-- `sealed_login_guard`.
unfoldable pub sealed_login_guard : ℕ → Str → ℕ → Dict ℕ → Dict ℕ × Result (Unit {0})
sealed_login_guard ts raw now seen =
    let nonce = trim raw in
    let kept = retain_values (is_kept now) seen in
    if is_stale ts now
    then (seen, err (codes "sealed credential expired; please retry"))
    else if ltb max_nonce_len (byte_len nonce)
    then (seen, err (codes "sealed credential nonce is too long"))
    else if is_empty nonce
    then (seen, ok tt)
    else if contains_key nonce kept
    then (kept, err (codes "sealed credential replayed; please retry"))
    else (insert nonce now (evict_seen (length kept) kept), ok tt)

-- `sealed_request_guard`.
unfoldable pub sealed_request_guard : ℕ → Str → ℕ → Dict ℕ → Dict ℕ × Result (Unit {0})
sealed_request_guard ts nonce now seen =
    if is_empty (trim nonce)
    then (seen, err (codes "sealed request envelope without a nonce"))
    else sealed_login_guard ts nonce now seen
