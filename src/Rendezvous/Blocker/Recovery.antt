-- ===== src/Rendezvous/Blocker/Recovery.antt =====
-- An ip that was refused can register again (src/rendezvous_server.rs, `check_ip_blocker`).
use rustdesk_server_nemo.Base.{
  ℕ, suc, ◌+◌, ◌*◌, ◌≤◌, ◌≡◌, ◌≢◌, sym, ap, ◌∙◌, ◌⊎◌, inl, inr, true, false, Option, none, some,
  List, [], ◌∷◌, Str, length, All, str_eq, str_eq_iff, str_eq_refl, str_mem, arith, Bool-cases,
  Option-cases, if◌then◌else◌,
}
use rustdesk_server_nemo.Rendezvous.Blocker.{
  IpBlock, count_after, ids_after, check_entry, check_ip_blocker, day_seconds,
}
use rustdesk_server_nemo.Rendezvous.Blocker.Burst.{Call, after, check-other, check-first}

-- How often an ip called.
unfoldable pub calls_of : Str → List Call → ℕ
calls_of ip [] = 0
calls_of ip ((from, id, now) ∷ calls) =
    let rest = calls_of ip calls in if str_eq from ip then suc rest else rest

-- The calls of the ip, if there are some, are at least so many milliseconds old.
abbrev pub IsQuiet : ℕ → Str → ℕ → List Call → Type 0
IsQuiet wait ip now = All (λ c. (str_eq c.0 ip ≡ false) ⊎ (c.2 + wait ≤ now))

-- What a call leaves of the times and the ids of an entry.
check_entry-keeps :
    (id : Str) (now : ℕ) (old new : IpBlock)
    → (check_entry id now (some old)).0 ≡ some new
    → ((new.count_at ≡ old.count_at) ⊎ (new.count_at ≡ now))
      × ((new.ids_at ≡ old.ids_at) ⊎ (new.ids_at ≡ now))
      × (length new.ids ≤ length old.ids + 1)
unfolding check_entry count_after ids_after
check_entry-keeps id now old new h = ground arith

check_entry-some : (id : Str) (now : ℕ) (old : IpBlock) → (check_entry id now (some old)).0 ≢ none
unfolding check_entry
check_entry-some id now old h = ground arith

check-entry :
    (ip from id : Str) (now : ℕ) (blocker : Str → Option IpBlock) (old new : IpBlock)
    → str_eq from ip ≡ true
    → blocker ip ≡ some old
    → (check_ip_blocker from id now blocker).0 ip ≡ some new
    → (check_entry id now (some old)).0 ≡ some new
unfolding check_ip_blocker
check-entry ip from id now blocker old new same e h =
    let is : from ≡ ip = (str_eq_iff from ip).0 same in
    elim (Option-cases (check_entry id now (some old)).0) [
      | inl f ↦ absurd (ground (arith, check_entry-some id now old))
      | inr (b, f) ↦ ground (arith, ap blocker is)
    ]

-- What the entry of an ip tells of its calls: it has fewer ids than there were calls, and its times are
-- times of calls.
after-entry :
    (wait : ℕ) (ip : Str) (now : ℕ) (before : List Call) (b : IpBlock)
    → after before ip ≡ some b
    → (length b.ids + 1 ≤ calls_of ip before)
      × (IsQuiet wait ip now before → (b.count_at + wait ≤ now) × (b.ids_at + wait ≤ now))
unfolding after calls_of
after-entry wait ip now [] b h = absurd (cc)
after-entry wait ip now ((from, id, t) ∷ calls) b h = elim (Bool-cases (str_eq from ip)) [
  | inr other ↦
      let (few, old) =
        after-entry wait ip now calls b (sym (check-other ip from id t (after calls) other) ∙ h) in
      (rw other few, λ quiet. old quiet.1)
  | inl same ↦ elim (Option-cases (after calls ip)) [
    | inl e ↦
        let first = check-first ip from id t (after calls) same e in
        (ground arith, λ quiet. ground (arith, quiet.0))
    | inr (was, e) ↦
        let (few, old) = after-entry wait ip now calls was e in
        let (counted, listed, ids) =
          check_entry-keeps id t was b (check-entry ip from id t (after calls) was b same e h) in
        (
          ground arith,
          λ quiet. (ground (arith, quiet.0, old quiet.1), ground (arith, quiet.0, old quiet.1)),
        )
  ]
]

-- A call on an entry of old times.
known_ip-passes :
    (ip id : Str) (now : ℕ) (blocker : Str → Option IpBlock) (old : IpBlock)
    → blocker ip ≡ some old
    → old.count_at + 61 * 1000 ≤ now
    → (str_mem id old.ids ≡ true)
      ⊎ ((length old.ids ≤ 300) ⊎ (old.ids_at + (day_seconds + 1) * 1000 ≤ now))
    → (check_ip_blocker ip id now blocker).1 ≡ true
unfolding check_ip_blocker check_entry count_after ids_after
known_ip-passes ip id now blocker old e quiet (inl known) = ground arith
known_ip-passes ip id now blocker old e quiet (inr (inl few)) = ground arith
known_ip-passes ip id now blocker old e quiet (inr (inr late)) = ground arith

-- Whatever was registered before: an ip whose calls are all at least 61 seconds old passes with any
-- id, if it made at most 301 of them, or if they are all older than a day.
pub check_ip_blocker-recovers :
    (ip id : Str) (now : ℕ) (before : List Call)
    → IsQuiet (61 * 1000) ip now before
    → (calls_of ip before ≤ 301) ⊎ IsQuiet ((day_seconds + 1) * 1000) ip now before
    → (check_ip_blocker ip id now (after before)).1 ≡ true
check_ip_blocker-recovers ip id now before quiet long = elim (Option-cases (after before ip)) [
  | inl e ↦ (check-first ip ip id now (after before) (str_eq_refl ip) e).1
  | inr (b, e) ↦
      let (few, old) = after-entry (61 * 1000) ip now before b e in
      known_ip-passes ip id now (after before) b e (old quiet).0 (elim long [
        | inl small ↦ inr (inl (omega arith))
        | inr day ↦ inr (inr ((after-entry ((day_seconds + 1) * 1000) ip now before b e).1 day).1)
      ])
]
