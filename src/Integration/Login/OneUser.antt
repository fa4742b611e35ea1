-- ===== src/Integration/Login/OneUser.antt =====
-- A user who mistypes a password, however often and from wherever, is not taken for a sprayer.
use rustdesk_server_nemo.Base.{
  ℕ, ◌≤◌, ◌≡◌, refl, ◌⊎◌, inl, inr, Bool, false, not, ◌&&◌, ◌||◌, Option, none, some, List, [], ◌∷◌,
  length, any, All, All-retain, Str, lookup, contains_key, str_eq_refl, is_empty, arith, leb, ltb,
  Bool-cases, Option-cases, lookup-All, insert-All,
}
use rustdesk_server_nemo.Integration.Login.{
  spray_ip_max_users, spray_global_max_users, spray_ip_window_secs, spray_global_window_secs,
  spray_ip_cooldown_secs, spray_global_cooldown_secs, spray_max_tracked_ips, SprayWindow, Spray,
  roll, count_failure, is_tracked, add_user, note_spray_of, fleet_after, source_after, window_of,
  tracked,
}

-- A window that has counted no other user than `u`.
abbrev pub CountsOnly : Str → SprayWindow → Type 0
CountsOnly u s = (s.users ≡ []) ⊎ (s.users ≡ u ∷ [])

roll-CountsOnly :
    (u : Str) (now window : ℕ) (s : SprayWindow) → CountsOnly u s → CountsOnly u (roll now window s)
unfolding roll
roll-CountsOnly u now window s h = ground arith

add_user-CountsOnly : (u : Str) (us : List Str) → (us ≡ []) ⊎ (us ≡ u ∷ []) → add_user u us ≡ u ∷ []
unfolding any
add_user-CountsOnly u us (inl e) = rw e
add_user-CountsOnly u us (inr e) = rw (e, str_eq_refl u)

count_failure-CountsOnly :
    (u : Str) (now window max_users cooldown : ℕ) (s : SprayWindow)
    → 1 ≤ max_users
    → CountsOnly u s
    → CountsOnly u (count_failure now window max_users cooldown u s).0
      × ((count_failure now window max_users cooldown u s).1 ≡ false)
unfolding count_failure
count_failure-CountsOnly u now window max_users cooldown s room h =
    let counted : add_user u (roll now window s).users ≡ u ∷ [] =
      add_user-CountsOnly u (roll now window s).users (roll-CountsOnly u now window s h) in
    let few : ltb max_users 1 ≡ false = ground arith in (inr (rw (counted, few)), rw (counted, few))

-- No window of the guard has counted another user than `u`.
abbrev pub AllCountOnly : Str → Spray → Type 0
AllCountOnly u s = CountsOnly u s.fleet × All (λ (e : Str × SprayWindow). CountsOnly u e.1) s.by_ip

kept_only :
    (u : Str) (now : ℕ) (s : Spray)
    → AllCountOnly u s
    → All (λ (e : Str × SprayWindow). CountsOnly u e.1) (tracked now s)
kept_only u now s h =
    All-retain (λ (e : Str × SprayWindow). CountsOnly u e.1)
      (λ (e : Str × SprayWindow). is_tracked now e.1) s.by_ip h.1

window_of-CountsOnly :
    (u ip : Str) (now : ℕ) (s : Spray) → AllCountOnly u s → CountsOnly u (window_of ip now s)
window_of-CountsOnly u ip now s h = elim (Option-cases (lookup ip (tracked now s))) [
  | inl fresh ↦ rw (fresh, window_of) (inl refl)
  | inr (e, found) ↦
      rw (found, window_of)
        (lookup-All (CountsOnly u) ip (tracked now s) e (kept_only u now s h) found)
]

source_after-CountsOnly :
    (u ip : Str) (now : ℕ) (s : Spray)
    → AllCountOnly u s
    → CountsOnly u (source_after ip u now s).0 × ((source_after ip u now s).1 ≡ false)
source_after-CountsOnly u ip now s h =
    count_failure-CountsOnly u now spray_ip_window_secs spray_ip_max_users spray_ip_cooldown_secs
      (window_of ip now s) (omega arith) (window_of-CountsOnly u ip now s h)

fleet_after-CountsOnly :
    (u : Str) (now : ℕ) (s : Spray)
    → AllCountOnly u s
    → CountsOnly u (fleet_after u now s).0 × ((fleet_after u now s).1 ≡ false)
fleet_after-CountsOnly u now s h =
    count_failure-CountsOnly u now spray_global_window_secs spray_global_max_users
      spray_global_cooldown_secs s.fleet (omega arith) h.0

-- Whether a source is not in a full table.
abbrev is_left_out : Str → ℕ → Spray → Bool
is_left_out ip now s =
    leb spray_max_tracked_ips (length (tracked now s)) && not (contains_key ip (tracked now s))

note_spray_of-CountsOnly :
    (u : Str) (source_ip : Option Str) (now : ℕ) (s : Spray)
    → AllCountOnly u s
    → AllCountOnly u (note_spray_of source_ip u now s).0
      × ((note_spray_of source_ip u now s).1 ≡ false)
unfolding note_spray_of
note_spray_of-CountsOnly u none now s h =
    let (fleet, quiet) = fleet_after-CountsOnly u now s h in
    elim (Bool-cases (is_empty u)) [
      | inl nameless ↦ rw nameless (h, refl)
      | inr named ↦ rw named ((fleet, h.1), quiet)
    ]
note_spray_of-CountsOnly u (some ip) now s h =
    let (fleet, quiet) = fleet_after-CountsOnly u now s h in
    let (own, own_quiet) = source_after-CountsOnly u ip now s h in
    let kept = kept_only u now s h in
    elim (Bool-cases (is_empty u)) [
      | inl nameless ↦ rw nameless (h, refl)
      | inr named ↦ rw named (elim (Bool-cases (is_left_out ip now s)) [
        | inl out ↦ rw out ((fleet, kept), quiet)
        | inr counted ↦ rw counted (
          (
            fleet,
            insert-All (CountsOnly u) ip (source_after ip u now s).0 (tracked now s) kept own,
          ),
          rw (quiet, own_quiet),
        )
      ])
    ]

-- The failures of one user, each with its source and time, one after the other; whether any tripped.
pub note_all : Str → List (Option Str × ℕ) → Spray → Bool
note_all u [] s = false
note_all u ((source_ip, now) ∷ rest) s =
    let (s', tripped) = note_spray_of source_ip u now s in tripped || note_all u rest s'

-- However often one user fails, at whatever times and from whatever sources, no cooldown trips in a
-- guard that has counted no other user.
pub one_user_never_trips :
    (u : Str) (failures : List (Option Str × ℕ)) (s : Spray)
    → AllCountOnly u s
    → note_all u failures s ≡ false
unfolding note_all
one_user_never_trips u [] s h = refl
one_user_never_trips u ((source_ip, now) ∷ rest) s h =
    let (only, quiet) = note_spray_of-CountsOnly u source_ip now s h in
    rw quiet (one_user_never_trips u rest (note_spray_of source_ip u now s).0 only)
