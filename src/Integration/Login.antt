-- ===== src/Integration/Login.antt =====
-- Login backoff and the guard against password spraying (src/nemo_integration.rs). The time in
-- seconds is an argument of each function, and the process state a record.
pub mod Backoff
pub mod Guard
pub mod OneUser
use rustdesk_server_nemo.Base.{
  ℕ, zero, suc, ◌+◌, ◌-◌, ◌*◌, ◌^◌, min, Bool, true, false, not, ◌&&◌, ◌||◌, Option, none, some,
  List, [], ◌∷◌, length, retain, Str, Dict, codes, lookup, insert, remove, retain_values,
  contains_key, str_eq, str_mem, is_empty, leb, ltb, ◌==◌, if◌then◌else◌, sat_add,
}
use rustdesk_server_nemo.Integration.Names.{normalize_lookup_username}

abbrev pub u32_top : ℕ
u32_top = 2 ^ 32 - 1

abbrev pub u64_top : ℕ
u64_top = 2 ^ 64 - 1

abbrev pub login_failure_window_secs : ℕ
login_failure_window_secs = 900

abbrev pub login_backoff_base_ms : ℕ
login_backoff_base_ms = 250

abbrev pub login_backoff_max_ms : ℕ
login_backoff_max_ms = 30000

-- `LOGIN_FAILURES`: consecutive failures, and the time of the last.
abbrev pub Failures : Type 0
Failures = Dict (ℕ × ℕ)

-- The failure falls in the window. `-` on ℕ is `saturating_sub`.
abbrev pub is_recent : ℕ → ℕ × ℕ → Bool
is_recent now e = ltb (now - e.1) login_failure_window_secs

module _ (to_lowercase : Str → Str) where
  -- `note_login_failure`.
  unfoldable pub note_login_failure : Str → ℕ → Failures → Failures × ℕ
  note_login_failure username now failures =
      let key = normalize_lookup_username to_lowercase username in
      let map = retain_values (is_recent now) failures in
      let found : ℕ × ℕ = elim (lookup key map) [ none ↦ (0, now) | some e ↦ e ] in
      let entry : ℕ × ℕ =
        if leb login_failure_window_secs (now - found.1) then (0, now) else found in
      let n = sat_add u32_top entry.0 1 in (insert key (n, now) map, n)

  -- `clear_login_failures`.
  unfoldable pub clear_login_failures : Str → Failures → Failures
  clear_login_failures username = remove (normalize_lookup_username to_lowercase username)

-- `u64::saturating_mul`.
abbrev sat_mul : ℕ → ℕ → ℕ
sat_mul a b = if leb (a * b) u64_top then a * b else u64_top

-- `login_backoff_ms`.
unfoldable pub login_backoff_ms : ℕ → ℕ
login_backoff_ms failures =
    if failures == 0
    then 0
    else min (sat_mul login_backoff_base_ms (2 ^ min (failures - 1) 12)) login_backoff_max_ms

abbrev pub spray_ip_window_secs : ℕ
spray_ip_window_secs = 300

abbrev pub spray_ip_max_users : ℕ
spray_ip_max_users = 10

abbrev pub spray_ip_cooldown_secs : ℕ
spray_ip_cooldown_secs = 60

abbrev pub spray_global_window_secs : ℕ
spray_global_window_secs = 60

abbrev pub spray_global_max_users : ℕ
spray_global_max_users = 30

abbrev pub spray_global_cooldown_secs : ℕ
spray_global_cooldown_secs = 120

abbrev pub spray_max_tracked_ips : ℕ
spray_max_tracked_ips = 4096

-- `SprayWindow`: the set of users as a list without repetition.
pub record SprayWindow : Type 0 where
  pub users : List Str
  pub started : ℕ
  pub blocked_until : ℕ

-- `HashSet::insert`.
abbrev pub add_user : Str → List Str → List Str
add_user u us = if str_mem u us then us else u ∷ us

-- `SprayWindow::roll`.
unfoldable pub roll : ℕ → ℕ → SprayWindow → SprayWindow
roll now window s =
    if leb window (now - s.started) then record s { users = []; started = now } else s

-- `SprayWindow::trip`.
unfoldable pub trip : ℕ → ℕ → SprayWindow → SprayWindow × Bool
trip now cooldown s =
    if ltb now s.blocked_until
    then (s, false)
    else (record { users = []; started = now; blocked_until = sat_add u64_top now cooldown }, true)

-- `SPRAY_BY_IP` and `SPRAY_GLOBAL`.
pub record Spray : Type 0 where
  pub by_ip : Dict SprayWindow
  pub fleet : SprayWindow

-- The two reasons of `login_spray_block`.
pub data SprayBlock : Type 0 where
  server_busy network_busy : SprayBlock

-- `login_spray_block`.
unfoldable pub login_spray_block : Option Str → ℕ → Spray → Spray × Option SprayBlock
login_spray_block source_ip now s =
    if ltb now s.fleet.blocked_until
    then (s, some server_busy)
    else (let s1 = record s { fleet = roll now spray_global_window_secs s.fleet } in
        elim source_ip [
          | none ↦ (s1, none)
          | some ip ↦ elim (lookup ip s1.by_ip) [
            | none ↦ (s1, none)
            | some entry ↦
                if ltb now entry.blocked_until then (s1, some network_busy) else (s1, none)
          ]
        ])

-- One window takes a failure: it is rolled, counts the user, and trips past its bound.
unfoldable pub count_failure : ℕ → ℕ → ℕ → ℕ → Str → SprayWindow → SprayWindow × Bool
count_failure now window max_users cooldown user s =
    let rolled = roll now window s in
    let counted : SprayWindow = record rolled { users = add_user user rolled.users } in
    if ltb max_users (length counted.users) then trip now cooldown counted else (counted, false)

-- A window that is still blocked or still counting stays in the table.
abbrev pub is_tracked : ℕ → SprayWindow → Bool
is_tracked now s = ltb now s.blocked_until || ltb (now - s.started) spray_ip_window_secs

-- The fleet's window after a failure.
abbrev pub fleet_after : Str → ℕ → Spray → SprayWindow × Bool
fleet_after user now s =
    count_failure now spray_global_window_secs spray_global_max_users spray_global_cooldown_secs
      user s.fleet

-- The table of sources that are still tracked.
abbrev pub tracked : ℕ → Spray → Dict SprayWindow
tracked now s = retain_values (is_tracked now) s.by_ip

-- `or_insert_with`: the window of a source, or a fresh one.
abbrev pub window_of : Str → ℕ → Spray → SprayWindow
window_of ip now s = elim (lookup ip (tracked now s)) [
  | none ↦ record { users = []; started = now; blocked_until = 0 }
  | some e ↦ e
]

-- A source's window after a failure.
abbrev pub source_after : Str → Str → ℕ → Spray → SprayWindow × Bool
source_after ip user now s =
    count_failure now spray_ip_window_secs spray_ip_max_users spray_ip_cooldown_secs user
      (window_of ip now s)

-- `note_login_spray`, on a user name that has been normalised.
unfoldable pub note_spray_of : Option Str → Str → ℕ → Spray → Spray × Bool
note_spray_of source_ip user now s = if is_empty user then (s, false) else elim source_ip [
  | none ↦ (record s { fleet = (fleet_after user now s).0 }, (fleet_after user now s).1)
  | some ip ↦
      if leb spray_max_tracked_ips (length (tracked now s)) && not (contains_key ip (tracked now s))
      then (
        record { by_ip = tracked now s; fleet = (fleet_after user now s).0 },
        (fleet_after user now s).1,
      )
      else (
        record {
          by_ip = insert ip (source_after ip user now s).0 (tracked now s);
          fleet = (fleet_after user now s).0;
        },
        (fleet_after user now s).1 || (source_after ip user now s).1,
      )
]

-- `note_login_spray`.
unfoldable pub note_login_spray : (Str → Str) → Option Str → Str → ℕ → Spray → Spray × Bool
unfolding note_spray_of
note_login_spray to_lowercase source_ip username =
    note_spray_of source_ip (normalize_lookup_username to_lowercase username)
