-- ===== src/Integration/Claims/Eviction.antt =====
-- The eviction loop of `register_pending_claim_in`: it ends, it makes room, and it drops no denied
-- row.
use rustdesk_server_nemo.Base.{
  ℕ, zero, suc, ◌+◌, ◌-◌, ◌≤◌, ◌<◌, ◌≡◌, refl, ◌≢◌, ◌⊎◌, inl, inr, Bool, true, false, Option, none,
  some, List, [], ◌∷◌, length, remove_at, get_elem?, arith, ltb, if◌then◌else◌, Bool-cases,
  Option-cases, length-remove_at, some_inj, ap, ltb→lt,
}
use rustdesk_server_nemo.Integration.Config.{PendingClaim}
use rustdesk_server_nemo.Integration.Claims.{
  max_pending_claims, is_older, older, oldest_from, Room, room, no_room, out_of_fuel, make_room,
}

-- The row at position `j`, counted from `i`, is still waiting.
abbrev pub IsWaitingAt : ℕ → List PendingClaim → ℕ × PendingClaim → Type 0
IsWaitingAt i cs (j, c) = (i ≤ j) × (get_elem? cs (j - i) ≡ some c) × (c.denied ≡ false)

shift_waiting :
    (i : ℕ) (d : PendingClaim) (cs : List PendingClaim) (j : ℕ) (c : PendingClaim)
    → IsWaitingAt (i + 1) cs (j, c)
    → IsWaitingAt i (d ∷ cs) (j, c)
shift_waiting i d cs j c (le, at, waiting) =
    let e : j - i ≡ suc (j - (i + 1)) = omega arith in (omega arith, rw e at, waiting)

head_waiting :
    (i : ℕ) (d : PendingClaim) (cs : List PendingClaim) (j : ℕ) (c : PendingClaim)
    → d.denied ≡ false
    → ◌≡◌ {A = ℕ × PendingClaim} (i, d) (j, c)
    → IsWaitingAt i (d ∷ cs) (j, c)
head_waiting i d cs j c waiting e =
    let same_index : i ≡ j = ap (λ (p : ℕ × PendingClaim). p.0) e in
    let same : d ≡ c = ap (λ (p : ℕ × PendingClaim). p.1) e in
    let first : j - i ≡ 0 = omega arith in (omega arith, rw (first, same), rw (← same) waiting)

-- One step of the scan keeps its best so far, or takes a row that is not denied.
older-choice :
    (is_denied : Bool) (best : Option (ℕ × PendingClaim)) (x y : ℕ × PendingClaim)
    → (if is_denied then best else some (older best x)) ≡ some y
    → (best ≡ some y) ⊎ ((is_denied ≡ false) × (x ≡ y))
older-choice true best x y h = inl h
older-choice false none x y h = inr (refl, ground arith)
older-choice false (some b) x y h = elim (Bool-cases (is_older x b)) [
  | inl e ↦ inr (refl, some_inj (rw e at h))
  | inr e ↦ inl (rw e at h)
]

-- What the scan returns is its best so far or a waiting row that it met.
oldest_from-waits :
    (i : ℕ) (cs : List PendingClaim) (best : Option (ℕ × PendingClaim)) (j : ℕ) (c : PendingClaim)
    → oldest_from i cs best ≡ some (j, c)
    → (best ≡ some (j, c)) ⊎ IsWaitingAt i cs (j, c)
unfolding oldest_from
oldest_from-waits i [] best j c h = inl h
oldest_from-waits i (d ∷ cs) best j c h =
    elim (oldest_from-waits (i + 1) cs (if d.denied then best else some (older best (i, d))) j c
      h) [
        | inr later ↦ inr (shift_waiting i d cs j c later)
        | inl here ↦ elim (older-choice d.denied best (i, d) (j, c) here) [
          | inl e ↦ inl e
          | inr (waiting, e) ↦ inr (head_waiting i d cs j c waiting e)
        ]
      ]

-- The row that the loop drops is there, and waits.
pub oldest-waits :
    (cs : List PendingClaim) (j : ℕ) (c : PendingClaim)
    → oldest_from 0 cs none ≡ some (j, c)
    → (get_elem? cs j ≡ some c) × (c.denied ≡ false)
oldest-waits cs j c h = elim (oldest_from-waits 0 cs none j c h) [
  | inl e ↦ absurd (cc e)
  | inr (le, at, waiting) ↦ let same : j - 0 ≡ j = omega arith in (rw same at at, waiting)
]

-- What a property of lists says of the rows that the loop leaves.
abbrev pub InRoom : (List PendingClaim → Type 0) → Room → Type 0
InRoom P (room cs) = P cs
InRoom P (no_room cs) = P cs
InRoom P out_of_fuel = Unit

-- There is room for one more row, if the loop says so.
abbrev pub HasRoom : Room → Type 0
HasRoom (room cs) = length cs < max_pending_claims
HasRoom (no_room cs) = Unit
HasRoom out_of_fuel = Unit

-- A property that every eviction keeps holds of the rows that the loop leaves.
pub make_room_inv :
    (P : List PendingClaim → Type 0)
    → ((cs : List PendingClaim) (j : ℕ) (c : PendingClaim)
        → get_elem? cs j ≡ some c
        → c.denied ≡ false
        → P cs
        → P (remove_at j cs))
    → (fuel : ℕ) (cs : List PendingClaim) → P cs
    → InRoom P (make_room fuel cs)
unfolding make_room
make_room_inv P keep zero cs h = elim (Bool-cases (ltb (length cs) max_pending_claims)) [
  | inl e ↦ rw e h
  | inr e ↦ rw e tt
]
make_room_inv P keep (suc fuel) cs h = elim (Bool-cases (ltb (length cs) max_pending_claims)) [
  | inl e ↦ rw e h
  | inr e ↦ rw e (elim (Option-cases (oldest_from 0 cs none)) [
    | inl none_waits ↦ rw none_waits h
    | inr ((j, c), found) ↦
        let (at, waiting) = oldest-waits cs j c found in
        rw found (make_room_inv P keep fuel (remove_at j cs) (keep cs j c at waiting h))
  ])
]

-- The loop leaves room for one more row.
pub make_room-bounded : (fuel : ℕ) (cs : List PendingClaim) → HasRoom (make_room fuel cs)
unfolding make_room
make_room-bounded zero cs = elim (Bool-cases (ltb (length cs) max_pending_claims)) [
  | inl e ↦ rw e (ltb→lt _ _ e)
  | inr e ↦ rw e tt
]
make_room-bounded (suc fuel) cs = elim (Bool-cases (ltb (length cs) max_pending_claims)) [
  | inl e ↦ rw e (ltb→lt _ _ e)
  | inr e ↦ rw e (elim (Option-cases (oldest_from 0 cs none)) [
    | inl none_waits ↦ rw none_waits tt
    | inr ((j, c), found) ↦ rw found (make_room-bounded fuel (remove_at j cs))
  ])
]

-- One round for each row is enough: the loop ends by its own test, or finds nothing to drop.
pub make_room-total :
    (fuel : ℕ) (cs : List PendingClaim) → length cs ≤ fuel → make_room fuel cs ≢ out_of_fuel
unfolding make_room
make_room-total zero cs h =
    let e : ltb (length cs) max_pending_claims ≡ true = ground arith in rw e (cc)
make_room-total (suc fuel) cs h = elim (Bool-cases (ltb (length cs) max_pending_claims)) [
  | inl e ↦ rw e (cc)
  | inr e ↦ rw e (elim (Option-cases (oldest_from 0 cs none)) [
    | inl none_waits ↦ rw none_waits (cc)
    | inr ((j, c), found) ↦
        let (at, _) = oldest-waits cs j c found in
        rw found (make_room-total fuel (remove_at j cs) (omega (arith, length-remove_at j cs c at)))
  ])
]
