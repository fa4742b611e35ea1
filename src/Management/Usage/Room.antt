-- ===== src/Management/Usage/Room.antt =====
-- The room for a new session among those that the dashboard keeps (src/nemo_management.rs,
-- `record_relay_grant`).
use rustdesk_server_nemo.Base.{
  ℕ, zero, suc, Str, ◌∙◌, ◌-◌, ◌≤◌, ◌<◌, ◌≡◌, refl, ◌⊎◌, inl, inr, Bool, true, not, none, some,
  List, [], ◌∷◌, ◌++◌, length, count, remove_at, get_elem?, ltb, arith, Bool-cases,
  length-remove_at, count-remove_at, count-remove_at-le,
}
use rustdesk_server_nemo.Management.Usage.{
  RelaySessionRecord, UsageStore, relay_session_memory, goes_before, victim_from, evict_rows,
  brokered, record_relay_grant,
}

abbrev Row : Type 0
Row = RelaySessionRecord

-- The row at position `j`, counted from `i`.
abbrev IsAt : ℕ → List Row → ℕ → Row → Type 0
IsAt i rows j r = (i ≤ j) × (get_elem? rows (j - i) ≡ some r)

IsAt-next :
    (i : ℕ) (q : Row) (rows : List Row) (j : ℕ) (r : Row)
    → IsAt (suc i) rows j r
    → IsAt i (q ∷ rows) j r
IsAt-next i q rows j r (le, at) =
    let e : j - i ≡ suc (j - suc i) = omega arith in (omega arith, rw e at)

IsAt-here : (i : ℕ) (q : Row) (rows : List Row) → IsAt i (q ∷ rows) i q
IsAt-here i q rows = let e : i - i ≡ 0 = omega arith in (omega arith, rw e refl)

abbrev pub is_live : Row → Bool
is_live r = r.live

abbrev pub is_over : Row → Bool
is_over r = not r.live

-- The victim is the best so far or a row of the list; it is live only if the best so far and all rows
-- are.
victim_from-some :
    (i : ℕ) (rows : List Row) (b : ℕ) (best : Row)
    → (j : ℕ) × (r : Row) × (victim_from i rows (some (b, best)) ≡ some (j, r))
      × (((j ≡ b) × (r ≡ best)) ⊎ IsAt i rows j r)
      × (r.live ≡ true → (best.live ≡ true) × (count is_over rows ≡ 0))
unfolding victim_from count
victim_from-some i [] b best = (b, best, refl, inl (refl, refl), λ l. (l, refl))
victim_from-some i (q ∷ rows) b best = elim (Bool-cases (goes_before q best)) [
  | inl e ↦
      let (j, r, found, from, live) = victim_from-some (suc i) rows i q in
      (
        j,
        r,
        rw e found,
        inr (elim from [
          | inl (here, same) ↦ rw (here, same) (IsAt-here i q rows)
          | inr later ↦ IsAt-next i q rows j r later
        ]),
        λ l. ground (arith, live l),
      )
  | inr e ↦
      let (j, r, found, from, live) = victim_from-some (suc i) rows b best in
      (
        j,
        r,
        rw e found,
        elim from [ inl same ↦ inl same | inr later ↦ inr (IsAt-next i q rows j r later) ],
        λ l. ground (arith, live l),
      )
]

-- A list that is not empty has a victim, which is one of its rows.
victim-there :
    (q : Row) (rows : List Row)
    → (j : ℕ) × (r : Row) × (victim_from 0 (q ∷ rows) none ≡ some (j, r))
      × (get_elem? (q ∷ rows) j ≡ some r)
      × (r.live ≡ true → count is_over (q ∷ rows) ≡ 0)
unfolding victim_from count
victim-there q rows =
    let (j, r, found, from, live) = victim_from-some 1 rows 0 q in
    (
      j,
      r,
      found,
      elim from [
        | inl (here, same) ↦ rw (here, same) refl
        | inr later ↦
            let same : j - 0 ≡ j = omega arith in rw same at (IsAt-next 0 q rows j r later).1
      ],
      λ l. ground (arith, live l),
    )

-- What an eviction keeps of the rows.
abbrev Spares : List Row → List Row → Type 0
Spares rows kept =
    (length kept < relay_session_memory)
    × (count is_over kept ≤ count is_over rows)
    × ((count is_live kept ≡ count is_live rows) ⊎ (count is_over kept ≡ 0))

evict_rows-Spares :
    (fuel : ℕ) (rows : List Row) → length rows ≤ fuel → Spares rows (evict_rows fuel rows)
unfolding evict_rows
evict_rows-Spares zero [] h = (omega arith, omega arith, inl refl)
evict_rows-Spares zero (q ∷ rows) h = absurd (omega arith)
evict_rows-Spares (suc fuel) [] h = (omega arith, omega arith, inl refl)
evict_rows-Spares (suc fuel) (q ∷ rows) h =
    elim (Bool-cases (ltb (length (q ∷ rows)) relay_session_memory)) [
      | inl few ↦ rw few (ground arith, omega arith, inl refl)
      | inr full ↦
          let (j, r, found, at, live) = victim-there q rows in
          let shorter = length-remove_at j (q ∷ rows) r at in
          let fewer = count-remove_at-le is_over j (q ∷ rows) in
          let (small, over, spared) =
            evict_rows-Spares fuel (remove_at j (q ∷ rows)) (omega arith) in
          rw (full, found)
            (
              small,
              omega (arith, over, fewer),
              elim (Bool-cases r.live) [
                | inl l ↦ inr (omega (arith, over, fewer, live l))
                | inr l ↦ elim spared [
                  | inl same ↦ inl (same ∙ count-remove_at is_live j (q ∷ rows) r at l)
                  | inr none_over ↦ inr none_over
                ]
              ],
            )
    ]

-- However many sessions the dashboard keeps, after a grant they are at most 256, the new one, whose
-- relay has not begun, last; and a session that is live was dropped only if all that are left are live.
pub record_relay_grant-room :
    (session source_id target_id now_iso : Str) (store : UsageStore)
    → let rows = store.relay_sessions in
      (kept : List RelaySessionRecord) × ((record_relay_grant session source_id target_id now_iso
          store).relay_sessions
        ≡ kept ++ (brokered session source_id target_id now_iso ∷ []))
      × (length kept < relay_session_memory)
      × ((count is_live kept ≡ count is_live rows) ⊎ (count is_over kept ≡ 0))
unfolding record_relay_grant
record_relay_grant-room session source_id target_id now_iso store =
    let rows = store.relay_sessions in
    let (few, _, spared) = evict_rows-Spares (length rows) rows (omega arith) in
    (evict_rows (length rows) rows, refl, few, spared)
