-- ===== src/Integration/Login/Backoff.antt =====
-- The delay of a failed login, and the counter behind it.
use rustdesk_server_nemo.Base.{
  ℕ, zero, suc, ◌-◌, ◌*◌, ◌^◌, ◌≤◌, min, ◌≡◌, refl, inl, inr, true, false, none, some, Str, lookup,
  retain_values, str_eq, str_eq_refl, arith, leb, leb→le, le→leb, ◌==◌, if◌then◌else◌, sat_add,
  Bool-cases, lookup-insert, IsMap, lookup-retain,
}
use native.Mathlib.Nat.{pow-le-pow_right}
use rustdesk_server_nemo.Integration.Names.{normalize_lookup_username}
use rustdesk_server_nemo.Integration.Login.{
  u32_top, Failures, is_recent, note_login_failure, login_backoff_ms,
}

leb-false : (a b : ℕ) → leb a b ≡ false → b ≤ a
leb-false a b h = ground arith

backoff_zero : login_backoff_ms 0 ≡ 0
unfolding login_backoff_ms
backoff_zero = refl

-- The delay is 250 ms times two to the number of earlier failures, at most 30 s: neither the cap on
-- the exponent nor the saturating product shows.
pub login_backoff_ms-eq : (n : ℕ) → login_backoff_ms (suc n) ≡ min (250 * 2 ^ n) 30000
unfolding login_backoff_ms
login_backoff_ms-eq n = elim (Bool-cases (leb n 12)) [
  | inl small ↦
      let le : n ≤ 12 = leb→le n 12 small in
      let exponent : min (suc n - 1) 12 ≡ n = omega arith in
      let bound : 2 ^ n ≤ 2 ^ 12 = pow-le-pow_right (omega arith) le in
      let fits : leb (250 * 2 ^ n) 18446744073709551615 ≡ true = le→leb _ _ (omega arith) in
      let counted : (suc n == 0) ≡ false = ground arith in rw (counted, exponent, fits)
  | inr large ↦
      let exponent : min (suc n - 1) 12 ≡ 12 = ground arith in
      let bound : 2 ^ 12 ≤ 2 ^ n = pow-le-pow_right (omega arith) (leb-false n 12 large) in
      let counted : (suc n == 0) ≡ false = ground arith in rw (counted, exponent) (omega arith)
]

-- More failures never wait less, no failure waits 0, and no one waits more than 30 s.
pub login_backoff_ms_mono :
    (m n : ℕ) → m ≤ n → (login_backoff_ms m ≤ login_backoff_ms n) × (login_backoff_ms n ≤ 30000)
login_backoff_ms_mono zero zero h = (omega arith, rw backoff_zero (omega arith))
login_backoff_ms_mono zero (suc n) h =
    (rw backoff_zero (omega arith), rw (login_backoff_ms-eq n) (omega arith))
login_backoff_ms_mono (suc m) zero h = absurd (omega arith)
login_backoff_ms_mono (suc m) (suc n) h =
    let bound : 2 ^ m ≤ 2 ^ n = pow-le-pow_right (omega arith) (omega arith) in
    (
      rw (login_backoff_ms-eq m, login_backoff_ms-eq n) (omega arith),
      rw (login_backoff_ms-eq n) (omega arith),
    )

module _ (to_lowercase : Str → Str) where
  -- The count before a failure at `now`: what is recorded, if it is recent.
  abbrev pub failures_before : Str → ℕ → Failures → ℕ
  failures_before key now m = elim (lookup key m) [
    | none ↦ 0
    | some e ↦ if is_recent now e then e.0 else 0
  ]

  -- In a map, the new count is one more than the recent count of the same normalised name (up to
  -- the top of a u32); afterwards that name has this count as its recent one, recorded with the
  -- time, and all other names have the recent counts that they had.
  pub note_login_failure-counts :
      (username other : Str) (now : ℕ) (m : Failures)
      → IsMap m
      → let key = normalize_lookup_username to_lowercase username in
        let (m', n) = note_login_failure to_lowercase username now m in
        (n ≡ sat_add u32_top (failures_before key now m) 1)
        × (lookup key m' ≡ some (n, now))
        × (failures_before other now m'
            ≡ (if str_eq key other then n else failures_before other now m))
  unfolding note_login_failure
  note_login_failure-counts username other now m unique =
      let key = normalize_lookup_username to_lowercase username in
      let kept = lookup-retain key (is_recent now) m unique in
      let map = retain_values (is_recent now) m in
      let n = (note_login_failure to_lowercase username now m).1 in
      (
        ground (arith, kept),
        ground (arith, lookup-insert key key (n, now) map, str_eq_refl key),
        ground (
          arith,
          lookup-insert key other (n, now) map,
          lookup-retain other (is_recent now) m unique,
        ),
      )
