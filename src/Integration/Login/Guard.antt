-- ===== src/Integration/Login/Guard.antt =====
-- The guard against password spraying: when it refuses, whom it never refuses, and how far its table
-- grows.
use rustdesk_server_nemo.Base.{
  ℕ, ◌≤◌, ◌≡◌, inl, inr, true, Option, none, some, [], length, Str, lookup, arith, sat_add,
  Option-cases, length-retain-le, length-insert-le, length-insert_old,
}
use rustdesk_server_nemo.Integration.Login.{
  u64_top, spray_max_tracked_ips, SprayWindow, Spray, trip, count_failure, is_tracked,
  note_spray_of, source_after, tracked,
}

-- A failure that trips a window blocks it for the whole cooldown, and starts it afresh.
pub count_failure-trips :
    (now window max_users cooldown : ℕ) (user : Str) (s : SprayWindow)
    → (count_failure now window max_users cooldown user s).1 ≡ true
    → let s' = (count_failure now window max_users cooldown user s).0 in
      (s'.blocked_until ≡ sat_add u64_top now cooldown) × (s'.users ≡ []) × (s'.started ≡ now)
unfolding count_failure trip
count_failure-trips now window max_users cooldown user s h = ground arith

-- The table of sources stays within its bound.
pub note_spray_of-bounded :
    (source_ip : Option Str) (user : Str) (now : ℕ) (s : Spray)
    → length s.by_ip ≤ spray_max_tracked_ips
    → length (note_spray_of source_ip user now s).0.by_ip ≤ spray_max_tracked_ips
unfolding note_spray_of
note_spray_of-bounded none user now s h = ground arith
note_spray_of-bounded (some ip) user now s h = elim (Option-cases (lookup ip (tracked now s))) [
  | inl fresh ↦ ground (
    arith,
    length-retain-le (λ (x : Str × SprayWindow). is_tracked now x.1) s.by_ip,
    length-insert-le ip (source_after ip user now s).0 (tracked now s),
  )
  | inr (e, old) ↦ ground (
    arith,
    length-retain-le (λ (x : Str × SprayWindow). is_tracked now x.1) s.by_ip,
    length-insert_old ip e (source_after ip user now s).0 (tracked now s) old,
  )
]
