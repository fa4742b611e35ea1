-- ===== src/Rendezvous/Blocker/Burst.antt =====
-- How many registrations of an ip pass in a minute (src/rendezvous_server.rs, `check_ip_blocker`).
use rustdesk_server_nemo.Base.{
  ℕ, suc, ◌+◌, ◌*◌, ◌≤◌, ◌<◌, ◌≡◌, refl, sym, ap, ◌∙◌, ◌⊎◌, inl, inr, true, false, Option, none,
  some, List, [], ◌∷◌, Str, length, All, str_eq, str_eq_iff, str_eq_refl, arith, Bool-cases,
  Option-cases, if◌then◌else◌, ltb,
}
use rustdesk_server_nemo.Rendezvous.Blocker.{
  IpBlock, count_after, ids_after, check_entry, check_ip_blocker, secs_since, day_seconds,
}

-- A call of `check_ip_blocker`: the ip, the id and the time.
abbrev pub Call : Type 0
Call = Str × Str × ℕ

-- How many calls of an ip pass.
unfoldable pub passed : Str → List Call → (Str → Option IpBlock) → ℕ
passed ip [] blocker = 0
passed ip ((from, id, now) ∷ calls) blocker =
    let (blocker', passes) = check_ip_blocker from id now blocker in
    let rest = passed ip calls blocker' in
    if str_eq from ip then (if passes then suc rest else rest) else rest

-- The time of each call lies in the minute from `start`.
abbrev pub WithinMinute : ℕ → List Call → Type 0
WithinMinute start = All (λ c. (start ≤ c.2) × (c.2 < start + 61 * 1000))

-- Calls of another ip do not touch the entry of this one, and calls of this one are decided by it.
pub check-other :
    (ip from id : Str) (now : ℕ) (blocker : Str → Option IpBlock)
    → str_eq from ip ≡ false
    → (check_ip_blocker from id now blocker).0 ip ≡ blocker ip
unfolding check_ip_blocker check_entry
check-other ip from id now blocker other = elim (Option-cases (blocker from)) [
  | inl e ↦ ground arith
  | inr (b, e) ↦ ground arith
]

-- The table of ids leaves the counter.
pub ids_after-count :
    (old : IpBlock) (id : Str) (now : ℕ)
    → ((ids_after old id now).0.count ≡ old.count)
      × ((ids_after old id now).0.count_at ≡ old.count_at)
unfolding ids_after
ids_after-count old id now = elim (Bool-cases (ltb day_seconds (secs_since old.ids_at now))) [
  | inl e ↦ rw e (refl, refl)
  | inr e ↦ rw e (elim (Bool-cases (ltb 300 (length old.ids))) [
    | inl f ↦ rw f (refl, refl)
    | inr f ↦ rw f (refl, refl)
  ])
]

-- A call is refused by the counter, which it leaves, or it is counted.
check_entry-cases :
    (id : Str) (now : ℕ) (old : IpBlock)
    → ((check_entry id now (some old) ≡ (some old, false))
        × (30 < old.count)
        × (now < old.count_at + 61 * 1000))
      ⊎ ((new : IpBlock) × ((check_entry id now (some old)).0 ≡ some new)
          × (new.count_at ≡ now)
          × ((old.count_at + 61 * 1000 ≤ now) ⊎ ((new.count ≡ old.count + 1) × (old.count ≤ 30)))
          × ((new.count ≡ 1) ⊎ ((new.count ≡ old.count + 1) × (old.count ≤ 30))))
unfolding check_entry count_after
check_entry-cases id now old = elim (Option-cases (count_after old now)) [
  | inl e ↦ inl (ground arith, ground arith, ground arith)
  | inr (n, e) ↦
      let counted : IpBlock = record old { count = n; count_at = now } in
      inr (
        (ids_after counted id now).0,
        ground arith,
        (ids_after-count counted id now).1,
        ground (arith, ids_after-count counted id now),
        ground (arith, ids_after-count counted id now),
      )
]

check-same :
    (ip id : Str) (now : ℕ) (blocker : Str → Option IpBlock) (new : IpBlock)
    → (check_entry id now (blocker ip)).0 ≡ some new
    → (check_ip_blocker ip id now blocker).0 ip ≡ some new
unfolding check_ip_blocker
check-same ip id now blocker new e = ground (arith, str_eq_refl ip)

check-passes :
    (ip id : Str) (now : ℕ) (blocker : Str → Option IpBlock)
    → (check_ip_blocker ip id now blocker).1 ≡ (check_entry id now (blocker ip)).1
unfolding check_ip_blocker
check-passes ip id now blocker = refl

pub check-first :
    (ip from id : Str) (now : ℕ) (blocker : Str → Option IpBlock)
    → str_eq from ip ≡ true
    → blocker ip ≡ none
    → let r = check_ip_blocker from id now blocker in
      (r.0 ip ≡ some (record { count = 0; count_at = now; ids = []; ids_at = now })) × (r.1 ≡ true)
unfolding check_ip_blocker check_entry
check-first ip from id now blocker same e = ground (arith, str_eq_iff from ip, str_eq_refl ip)

-- `check_entry-cases` on the table.
check-cases :
    (ip from id : Str) (now : ℕ) (blocker : Str → Option IpBlock) (old : IpBlock)
    → str_eq from ip ≡ true
    → blocker ip ≡ some old
    → let r = check_ip_blocker from id now blocker in
      ((r.0 ip ≡ some old) × (r.1 ≡ false) × (30 < old.count) × (now < old.count_at + 61 * 1000))
      ⊎ ((new : IpBlock) × (r.0 ip ≡ some new)
          × (new.count_at ≡ now)
          × ((old.count_at + 61 * 1000 ≤ now) ⊎ ((new.count ≡ old.count + 1) × (old.count ≤ 30)))
          × ((new.count ≡ 1) ⊎ ((new.count ≡ old.count + 1) × (old.count ≤ 30))))
check-cases ip from id now blocker old same e =
    let is : from ≡ ip = (str_eq_iff from ip).0 same in
    rw is (elim (check_entry-cases id now old) [
      | inl (r, full, recent) ↦ inl (
        check-same ip id now blocker old (rw e (ap (λ x. x.0) r)),
        check-passes ip id now blocker ∙ rw e (ap (λ x. x.1) r),
        full,
        recent,
      )
      | inr (new, r, at, a, b) ↦ inr (new, check-same ip id now blocker new (rw e r), at, a, b)
    ])

-- After one call that was counted in the minute, 31 less the count are left.
passed-counted :
    (ip : Str) (start : ℕ) (calls : List Call) (blocker : Str → Option IpBlock) (old : IpBlock)
    → blocker ip ≡ some old
    → start ≤ old.count_at
    → old.count ≤ 31
    → WithinMinute start calls
    → passed ip calls blocker + old.count ≤ 31
unfolding passed
passed-counted ip start [] blocker old e at small inside = omega arith
passed-counted ip start ((from, id, now) ∷ calls) blocker old e at small inside =
    elim (Bool-cases (str_eq from ip)) [
      | inr other ↦ rw other (
          passed-counted ip start calls (check_ip_blocker from id now blocker).0 old
            (check-other ip from id now blocker other ∙ e) at small inside.1)
      | inl same ↦ elim (check-cases ip from id now blocker old same e) [
        | inl (entry, refused, _, _) ↦
            rw (same, refused)
              (passed-counted ip start calls (check_ip_blocker from id now blocker).0 old entry at
                small inside.1)
        | inr (new, entry, at_now, no_reset, _) ↦ ground (
          arith,
          inside.0,
          passed-counted ip start calls (check_ip_blocker from id now blocker).0 new entry
              (omega arith) (ground (arith, inside.0)) inside.1,
        )
      ]
    ]

-- From a small count of an earlier time, 31 calls are left.
passed-earlier :
    (ip : Str) (start : ℕ) (calls : List Call) (blocker : Str → Option IpBlock) (old : IpBlock)
    → blocker ip ≡ some old
    → old.count ≤ 31
    → WithinMinute start calls
    → passed ip calls blocker ≤ 31
unfolding passed
passed-earlier ip start [] blocker old e small inside = omega arith
passed-earlier ip start ((from, id, now) ∷ calls) blocker old e small inside =
    elim (Bool-cases (str_eq from ip)) [
      | inr other ↦ rw other (
          passed-earlier ip start calls (check_ip_blocker from id now blocker).0 old
            (check-other ip from id now blocker other ∙ e) small inside.1)
      | inl same ↦ elim (check-cases ip from id now blocker old same e) [
        | inl (entry, refused, _, _) ↦
            rw (same, refused)
              (passed-earlier ip start calls (check_ip_blocker from id now blocker).0 old entry
                small inside.1)
        | inr (new, entry, at_now, _, counted) ↦ ground (
          arith,
          passed-counted ip start calls (check_ip_blocker from id now blocker).0 new entry
              (omega arith) (ground arith) inside.1,
        )
      ]
    ]

-- A table in which no count is above 31, as every table that grows from the empty one is.
abbrev pub IsSmall : (Str → Option IpBlock) → Type 0
IsSmall blocker = (ip : Str) (b : IpBlock) → blocker ip ≡ some b → b.count ≤ 31

pub check-IsSmall :
    (from id : Str) (now : ℕ) (blocker : Str → Option IpBlock)
    → IsSmall blocker
    → IsSmall (check_ip_blocker from id now blocker).0
check-IsSmall from id now blocker small ip b h = elim (Bool-cases (str_eq from ip)) [
  | inr other ↦ small ip b (sym (check-other ip from id now blocker other) ∙ h)
  | inl same ↦ elim (Option-cases (blocker ip)) [
    | inl e ↦ ground (arith, check-first ip from id now blocker same e)
    | inr (old, e) ↦ elim (check-cases ip from id now blocker old same e) [
      | inl (entry, _, _, _) ↦ ground (arith, small ip old e)
      | inr (new, entry, _, _, counted) ↦ ground (arith, small ip old e)
    ]
  ]
]

-- The calls so far, on an empty table.
unfoldable pub after : List Call → Str → Option IpBlock
after [] = λ ip. none
after ((from, id, now) ∷ calls) = (check_ip_blocker from id now (after calls)).0

after-IsSmall : (calls : List Call) → IsSmall (after calls)
unfolding after
after-IsSmall [] ip b h = absurd (cc)
after-IsSmall ((from, id, now) ∷ calls) ip b h =
    check-IsSmall from id now (after calls) (after-IsSmall calls) ip b h

passed-first :
    (ip : Str) (start : ℕ) (calls : List Call) (blocker : Str → Option IpBlock)
    → blocker ip ≡ none
    → WithinMinute start calls
    → passed ip calls blocker ≤ 32
unfolding passed
passed-first ip start [] blocker e inside = omega arith
passed-first ip start ((from, id, now) ∷ calls) blocker e inside =
    elim (Bool-cases (str_eq from ip)) [
      | inr other ↦ rw other (
          passed-first ip start calls (check_ip_blocker from id now blocker).0
            (check-other ip from id now blocker other ∙ e) inside.1)
      | inl same ↦
          let (entry, _) = check-first ip from id now blocker same e in
          ground (
            arith,
            passed-earlier ip start calls (check_ip_blocker from id now blocker).0 _ entry
                (omega arith) inside.1,
          )
    ]

-- Whatever was registered before, and whatever other ips register in between, in any 61 seconds at
-- most 32 registrations of one ip pass.
pub check_ip_blocker-burst :
    (ip : Str) (start : ℕ) (before calls : List Call)
    → WithinMinute start calls
    → passed ip calls (after before) ≤ 32
check_ip_blocker-burst ip start before calls inside = elim (Option-cases (after before ip)) [
  | inl e ↦ passed-first ip start calls (after before) e inside
  | inr (old, e) ↦ omega (
    arith,
    passed-earlier ip start calls (after before) old e (after-IsSmall before ip old e) inside,
  )
]
