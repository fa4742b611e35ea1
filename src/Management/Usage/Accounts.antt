-- ===== src/Management/Usage/Accounts.antt =====
-- Whom the relayed bytes are charged to (src/nemo_management.rs, `apply_relay_usage`).
use rustdesk_server_nemo.Base.{
  ℕ, ◌+◌, ◌-◌, ◌%◌, ◌^◌, ◌≤◌, ◌≡◌, refl, inl, inr, Bool, not, ◌&&◌, some, List, [], ◌∷◌, map, find,
  update_first, retain, Str, str_eq, str_mem, is_empty, if◌then◌else◌, arith, Bool-cases,
}
use rustdesk_server_nemo.Management.Usage.{
  RelaySessionRecord, RelayUsageSample, UsageStore, of_session, sampled_row, charge_peer,
  apply_sample, apply_samples, ended, apply_relay_usage,
}

-- What the rows add up to.
unfoldable pub sum_of : (RelaySessionRecord → ℕ) → List RelaySessionRecord → ℕ
sum_of value [] = 0
sum_of value (r ∷ rows) = value r + sum_of value rows

-- The bytes of a row as far as a peer is an end of it, twice if it is both ends.
abbrev pub bytes_at : Str → RelaySessionRecord → ℕ
bytes_at j r =
    (if not (is_empty r.source_id) && str_eq r.source_id j then r.bytes else 0)
    + (if not (is_empty r.target_id) && str_eq r.target_id j then r.bytes else 0)

abbrev pub bytes_of : RelaySessionRecord → ℕ
bytes_of r = r.bytes

sum_of-update_first :
    (value : RelaySessionRecord → ℕ) (p : RelaySessionRecord → Bool)
    (f : RelaySessionRecord → RelaySessionRecord) (rows : List RelaySessionRecord)
    (r : RelaySessionRecord)
    → find p rows ≡ some r
    → sum_of value (update_first p f rows) + value r ≡ sum_of value rows + value (f r)
unfolding sum_of find update_first
sum_of-update_first value p f [] r h = absurd (cc)
sum_of-update_first value p f (q ∷ rows) r h = elim (Bool-cases (p q)) [
  | inl e ↦ ground arith
  | inr e ↦ ground (arith, sum_of-update_first value p f rows r)
]

-- The samples grow: each is of a session that was brokered, and does not fall behind its row.
unfoldable pub Grows : Str → List RelayUsageSample → UsageStore → Type 0
Grows at [] store = Unit {0}
Grows at (sample ∷ samples) store =
    ((r : RelaySessionRecord) × (find (of_session sample.session) store.relay_sessions ≡ some r)
      × (r.bytes ≤ sample.bytes))
    × Grows at samples (apply_sample at sample store)

-- An account is in balance with the rows, up to the wrap of its counter.
abbrev pub Balances : ℕ → ℕ → ℕ → ℕ → Type 0
Balances before rows_before after rows_after =
    (after + rows_before) % 2 ^ 64 ≡ (before + rows_after) % 2 ^ 64

Balances-trans : (a x b y c z : ℕ) → Balances a x b y → Balances b y c z → Balances a x c z
Balances-trans a x b y c z h k = omega arith

-- One charge to each end of a session.
charge_ends :
    (row : RelaySessionRecord) (now delta : ℕ) (peers : Str → ℕ) (j : Str)
    → now ≡ row.bytes + delta
    → (charge_peer row.target_id delta (charge_peer row.source_id delta peers) j + bytes_at j row)
        % 2 ^ 64
      ≡ (peers j + bytes_at j (record row { bytes = now })) % 2 ^ 64
charge_ends row now delta peers j e =
    elim (Bool-cases (not (is_empty row.source_id) && str_eq row.source_id j)) [
      | inl s ↦ elim (Bool-cases (not (is_empty row.target_id) && str_eq row.target_id j)) [
        | inl t ↦ rw (s, t) (omega arith)
        | inr t ↦ rw (s, t) (omega arith)
      ]
      | inr s ↦ elim (Bool-cases (not (is_empty row.target_id) && str_eq row.target_id j)) [
        | inl t ↦ rw (s, t) (omega arith)
        | inr t ↦ rw (s, t) (omega arith)
      ]
    ]

-- One sample is charged to the fleet once, and to each end of its session.
apply_sample-Balances :
    (at : Str) (sample : RelayUsageSample) (store : UsageStore) (r : RelaySessionRecord) (j : Str)
    → find (of_session sample.session) store.relay_sessions ≡ some r
    → r.bytes ≤ sample.bytes
    → let store' = apply_sample at sample store in
      Balances store.relay_bytes
        (sum_of bytes_of store.relay_sessions)
        store'.relay_bytes
        (sum_of bytes_of store'.relay_sessions)
      × Balances
          (store.peers j)
          (sum_of (bytes_at j) store.relay_sessions)
          (store'.peers j)
          (sum_of (bytes_at j) store'.relay_sessions)
unfolding apply_sample
apply_sample-Balances at sample store r j found grows =
    elim (Bool-cases (is_empty sample.session)) [
      | inl e ↦ rw e (refl, refl)
      | inr e ↦
          let fleet =
            sum_of-update_first bytes_of (of_session sample.session) (sampled_row sample at)
              store.relay_sessions r found in
          let ends =
            sum_of-update_first (bytes_at j) (of_session sample.session) (sampled_row sample at)
              store.relay_sessions r found in
          let charged =
            charge_ends r sample.bytes (sample.bytes - r.bytes) store.peers j (omega arith) in
          rw (e, found) (omega (arith, fleet, grows), omega (arith, ends, charged))
    ]

apply_samples-Balances :
    (at : Str) (samples : List RelayUsageSample) (store : UsageStore) (j : Str)
    → Grows at samples store
    → let store' = apply_samples at samples store in
      Balances store.relay_bytes
        (sum_of bytes_of store.relay_sessions)
        store'.relay_bytes
        (sum_of bytes_of store'.relay_sessions)
      × Balances
          (store.peers j)
          (sum_of (bytes_at j) store.relay_sessions)
          (store'.peers j)
          (sum_of (bytes_at j) store'.relay_sessions)
unfolding apply_samples Grows
apply_samples-Balances at [] store j h = (refl, refl)
apply_samples-Balances at (sample ∷ samples) store j ((r, found, grows), rest) =
    let (fleet, ends) = apply_sample-Balances at sample store r j found grows in
    let next = apply_sample at sample store in
    let last = apply_samples at samples next in
    let (fleet', ends') = apply_samples-Balances at samples next j rest in
    (
      Balances-trans store.relay_bytes (sum_of bytes_of store.relay_sessions) next.relay_bytes
          (sum_of bytes_of next.relay_sessions) last.relay_bytes
          (sum_of bytes_of last.relay_sessions) fleet fleet',
      Balances-trans (store.peers j) (sum_of (bytes_at j) store.relay_sessions) (next.peers j)
          (sum_of (bytes_at j) next.relay_sessions) (last.peers j)
          (sum_of (bytes_at j) last.relay_sessions) ends ends',
    )

-- The end of a session leaves its bytes and its ends.
ended-value :
    (j : Str) (seen : List Str) (row : RelaySessionRecord)
    → (bytes_of (ended seen row) ≡ bytes_of row) × (bytes_at j (ended seen row) ≡ bytes_at j row)
ended-value j seen row = elim (Bool-cases (row.live && not (str_mem row.session seen))) [
  | inl e ↦ rw e (refl, refl)
  | inr e ↦ rw e (refl, refl)
]

sum_of-map :
    (value : RelaySessionRecord → ℕ) (f : RelaySessionRecord → RelaySessionRecord)
    (rows : List RelaySessionRecord)
    → ((r : RelaySessionRecord) → value (f r) ≡ value r)
    → sum_of value (map f rows) ≡ sum_of value rows
unfolding sum_of
sum_of-map value f [] h = refl
sum_of-map value f (r ∷ rows) h = ground (arith, h r, sum_of-map value f rows h)

-- As long as the samples are of brokered sessions and do not fall behind, and up to the wrap of the
-- counters: the bytes of the fleet rise by what the rows of the sessions rise, and the bytes of each
-- peer by what the rows rise that it is an end of, once for each end.
pub apply_relay_usage-Balances :
    (samples : List RelayUsageSample) (at : Str) (store : UsageStore) (j : Str)
    → Grows at samples store
    → let store' = apply_relay_usage samples at store in
      Balances store.relay_bytes
        (sum_of bytes_of store.relay_sessions)
        store'.relay_bytes
        (sum_of bytes_of store'.relay_sessions)
      × Balances
          (store.peers j)
          (sum_of (bytes_at j) store.relay_sessions)
          (store'.peers j)
          (sum_of (bytes_at j) store'.relay_sessions)
unfolding apply_relay_usage
apply_relay_usage-Balances samples at store j h =
    let applied = apply_samples at samples store in
    let seen =
      retain (λ s. not (is_empty s))
        (map (λ (sample : RelayUsageSample). sample.session) samples) in
    rw
      (
        sum_of-map bytes_of (ended seen) applied.relay_sessions (λ r. (ended-value j seen r).0),
        sum_of-map (bytes_at j) (ended seen) applied.relay_sessions (λ r. (ended-value j seen r).1),
      )
      (apply_samples-Balances at samples store j h)
