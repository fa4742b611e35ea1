-- ===== src/Management/Replay/Once.antt =====
-- A sealed request is accepted once.
use rustdesk_server_nemo.Base.{
  ℕ, zero, suc, ◌+◌, ◌-◌, ◌<◌, ◌≤◌, ◌≡◌, ◌≢◌, refl, sym, ap, ◌∙◌, subst, ◌⊎◌, inl, inr, true, false,
  some, List, [], ◌∷◌, All, length, length-retain-le, Str, Dict, lookup, insert, contains_key,
  retain_values, trim, leb, ltb, ok, arith, Bool-cases, lookup-insert, lookup-retain_kept, str_eq,
  str_eq_iff, str_eq_refl,
}
use rustdesk_server_nemo.Management.Replay.{
  sealed_login_max_age_secs, max_seen_nonces, evict_seen, is_kept, is_stale, sealed_login_guard,
  sealed_request_guard,
}

-- A request as the guard sees it.
pub record Call : Type 0 where
  pub ts : ℕ
  pub nonce : Str
  pub now : ℕ

-- The table after a history of requests.
pub after_calls : List Call → Dict ℕ → Dict ℕ
after_calls [] seen = seen
after_calls (c ∷ cs) seen = after_calls cs (sealed_request_guard c.ts c.nonce c.now seen).0

length-insert : (k : Str) (t : ℕ) (m : Dict ℕ) → length (insert k t m) ≤ length m + 1
unfolding insert
length-insert k t [] = omega arith
length-insert k t ((j, u) ∷ m) = ground (arith, length-insert k t m)

-- Below its bound the table loses nothing to the eviction.
evict_seen_below : (fuel : ℕ) (m : Dict ℕ) → length m < max_seen_nonces → evict_seen fuel m ≡ m
unfolding evict_seen
evict_seen_below zero m h = refl
evict_seen_below (suc fuel) m h =
    let e : ltb (length m) max_seen_nonces ≡ true = ground arith in ground arith

-- An accepted request is in the table, with its time.
sealed_request_guard-records :
    (ts : ℕ) (nonce : Str) (now : ℕ) (seen seen' : Dict ℕ)
    → sealed_request_guard ts nonce now seen ≡ (seen', ok tt)
    → lookup (trim nonce) seen' ≡ some now
unfolding sealed_request_guard sealed_login_guard
sealed_request_guard-records ts nonce now seen seen' h =
    let kept = retain_values (is_kept now) seen in
    let table = evict_seen (length kept) kept in
    let recorded = lookup-insert (trim nonce) (trim nonce) now table in
    ground (arith, recorded, str_eq_refl (trim nonce))

-- A nonce that is still in the table is refused.
sealed_request_guard-refuses :
    (ts : ℕ) (nonce : Str) (at now : ℕ) (seen : Dict ℕ)
    → lookup (trim nonce) seen ≡ some at
    → now - at ≤ sealed_login_max_age_secs
    → (sealed_request_guard ts nonce now seen).1 ≢ ok tt
unfolding sealed_request_guard sealed_login_guard
sealed_request_guard-refuses ts nonce at now seen found young accepted =
    let kept = lookup-retain_kept (trim nonce) (is_kept now) seen at found (ground arith) in
    ground (arith, kept)

-- The three things that a request may do to the table.
guard-table :
    (ts : ℕ) (nonce : Str) (now : ℕ) (seen : Dict ℕ)
    → let kept = retain_values (is_kept now) seen in
      ((sealed_request_guard ts nonce now seen).0 ≡ seen)
      ⊎ (((sealed_request_guard ts nonce now seen).0 ≡ kept)
          ⊎ (((sealed_request_guard ts nonce now seen).0
                ≡ insert (trim nonce) now (evict_seen (length kept) kept))
              × (contains_key (trim nonce) kept ≡ false)))
unfolding sealed_request_guard sealed_login_guard
guard-table ts nonce now seen = ground arith

-- Another request leaves the entry of a nonce, while the table is below its bound.
abbrev Keeps : Str → ℕ → Dict ℕ → Dict ℕ → Type 0
Keeps k at seen m = (lookup k m ≡ some at) × (length m ≤ length seen + 1)

-- A nonce that is not in the table is not one that is.
apart_of_fresh :
    (k : Str) (at : ℕ) (n : Str) (m : Dict ℕ)
    → lookup k m ≡ some at
    → contains_key n m ≡ false
    → str_eq n k ≡ false
apart_of_fresh k at n m still fresh = elim (Bool-cases (str_eq n k)) [
  | inr other ↦ other
  | inl same ↦
      let there : lookup n m ≡ some at =
        subst (λ x. lookup x m ≡ some at) (sym ((str_eq_iff n k).0 same)) still in
      absurd (ground arith)
]

sealed_request_guard-Keeps :
    (k : Str) (at : ℕ) (c : Call) (seen : Dict ℕ)
    → lookup k seen ≡ some at
    → c.now - at ≤ sealed_login_max_age_secs
    → length seen < max_seen_nonces
    → Keeps k at seen (sealed_request_guard c.ts c.nonce c.now seen).0
sealed_request_guard-Keeps k at c seen found young room =
    let kept = retain_values (is_kept c.now) seen in
    let still = lookup-retain_kept k (is_kept c.now) seen at found (ground arith) in
    let fewer : length kept ≤ length seen =
      length-retain-le (λ (e : Str × ℕ). is_kept c.now e.1) seen in
    let whole : evict_seen (length kept) kept ≡ kept =
      evict_seen_below (length kept) kept (omega arith) in
    elim (guard-table c.ts c.nonce c.now seen) [
      | inl e ↦ subst (Keeps k at seen) (sym e) (found, omega arith)
      | inr (inl e) ↦ subst (Keeps k at seen) (sym e) (still, omega arith)
      | inr (inr (e, fresh)) ↦
          let longer = length-insert (trim c.nonce) c.now kept in
          let other : str_eq (trim c.nonce) k ≡ false =
            apart_of_fresh k at (trim c.nonce) kept still fresh in
          subst (Keeps k at seen) (sym (e ∙ ap (insert (trim c.nonce) c.now) whole))
            (ground (arith, lookup-insert (trim c.nonce) k c.now kept, still), omega arith)
    ]

after_calls-keeps :
    (k : Str) (at : ℕ) (calls : List Call) (seen : Dict ℕ)
    → lookup k seen ≡ some at
    → All (λ (c : Call). c.now - at ≤ sealed_login_max_age_secs) calls
    → length seen + length calls ≤ max_seen_nonces
    → lookup k (after_calls calls seen) ≡ some at
unfolding after_calls
after_calls-keeps k at [] seen found young room = found
after_calls-keeps k at (c ∷ cs) seen found young room =
    let (still, longer) = sealed_request_guard-Keeps k at c seen found young.0 (omega arith) in
    after_calls-keeps k at cs _ still young.1 (omega arith)

All-young :
    (at later : ℕ) (calls : List Call)
    → later - at ≤ sealed_login_max_age_secs
    → All (λ (c : Call). c.now ≤ later) calls
    → All (λ (c : Call). c.now - at ≤ sealed_login_max_age_secs) calls
All-young at later [] near h = tt
All-young at later (c ∷ cs) near h = (omega (arith, h.0), All-young at later cs near h.1)

guard_stale :
    (ts : ℕ) (nonce : Str) (now : ℕ) (seen : Dict ℕ)
    → is_stale ts now ≡ true
    → (sealed_request_guard ts nonce now seen).1 ≢ ok tt
unfolding sealed_request_guard sealed_login_guard
guard_stale ts nonce now seen stale accepted = ground arith

-- A sealed request that was accepted is never accepted again, whatever other requests come between, in
-- the order of their times, as long as they leave the table of nonces below its bound and the request's
-- time stamp did not lie ahead of the server's clock.
pub sealed_request_guard-once :
    (ts : ℕ) (nonce : Str) (now later : ℕ) (seen seen' : Dict ℕ) (calls : List Call)
    → sealed_request_guard ts nonce now seen ≡ (seen', ok tt)
    → ts ≤ now
    → now ≤ later
    → All (λ (c : Call). c.now ≤ later) calls
    → length seen' + length calls ≤ max_seen_nonces
    → (sealed_request_guard ts nonce later (after_calls calls seen')).1 ≢ ok tt
sealed_request_guard-once ts nonce now later seen seen' calls h past order times room =
    elim (Bool-cases (leb (later - now) sealed_login_max_age_secs)) [
      | inl young ↦
          let recorded = sealed_request_guard-records ts nonce now seen seen' h in
          let near : later - now ≤ sealed_login_max_age_secs = ground arith in
          let still =
            after_calls-keeps (trim nonce) now calls seen' recorded
              (All-young now later calls near times) room in
          sealed_request_guard-refuses ts nonce now later (after_calls calls seen') still near
      | inr old ↦
          let stale : is_stale ts later ≡ true = ground arith in
          guard_stale ts nonce later (after_calls calls seen') stale
    ]
