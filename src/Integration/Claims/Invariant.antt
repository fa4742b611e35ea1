-- ===== src/Integration/Claims/Invariant.antt =====
-- The table of pending claims keeps its bounds under every operation that writes it.
use rustdesk_server_nemo.Base.{
  ℕ, ◌+◌, ◌≤◌, ◌<◌, ◌≡◌, refl, ◌⊎◌, inl, inr, Bool, true, false, List, [], ◌∷◌, ◌++◌, length,
  retain, count, update_first, All, Str, str_eq, trim, arith, if◌then◌else◌, Bool-cases,
  length-remove_at, length-append, length-retain-le, length-update_first, count-retain-le,
  count-update_first, count-remove_at-le, count_of_find-none, All-append, All-retain,
  All-update_first, All-remove_at, count-append_one, str_eq_iff, subst, subst₂,
}
use rustdesk_server_nemo.Base.Text.Trim.{trim-trim}
use rustdesk_server_nemo.Integration.Config.{PendingClaim}
use rustdesk_server_nemo.Integration.DeviceKeys.{valid_peer_id}
use rustdesk_server_nemo.Integration.Claims.{
  max_pending_per_key, max_pending_claims, of_key, of_pair, make_room, refresh,
  register_pending_claim_in,
}
use rustdesk_server_nemo.Integration.Claims.Cases.{first_row, register-by_cases}
use rustdesk_server_nemo.Integration.Claims.Eviction.{
  InRoom, HasRoom, make_room_inv, make_room-bounded,
}

-- What each row of the table satisfies.
abbrev pub IsWellFormed : PendingClaim → Type 0
IsWellFormed c =
    (valid_peer_id c.peer_id ≡ true)
    × (trim c.peer_id ≡ c.peer_id)
    × (trim c.public_key ≡ c.public_key)

pub record ClaimsIsValid (cs : List PendingClaim) : Type 0 where
  pub bounded : length cs ≤ max_pending_claims
  pub per_key : (pk : Str) → count (of_key pk) cs ≤ max_pending_per_key
  pub distinct : (pk peer_id : Str) → count (of_pair pk peer_id) cs ≤ 1
  pub rows : All IsWellFormed cs

-- The empty table.
pub nil-ClaimsIsValid : ClaimsIsValid []
unfolding count
nil-ClaimsIsValid = record {
  bounded = omega arith;
  per_key = λ pk. omega arith;
  distinct = λ pk peer_id. omega arith;
  rows = tt;
}

-- Rows only go.
pub retain-ClaimsIsValid :
    (p : PendingClaim → Bool) {cs : List PendingClaim}
    → ClaimsIsValid cs
    → ClaimsIsValid (retain p cs)
retain-ClaimsIsValid p {cs} h = record {
  bounded = omega (arith, length-retain-le p cs, h.bounded);
  per_key = λ pk. omega (arith, count-retain-le (of_key pk) p cs, h.per_key pk);
  distinct = λ pk i. omega (arith, count-retain-le (of_pair pk i) p cs, h.distinct pk i);
  rows = All-retain IsWellFormed p cs h.rows;
}

-- A row is written, and keeps its key and its peer.
pub update-ClaimsIsValid :
    (p : PendingClaim → Bool) (f : PendingClaim → PendingClaim) {cs : List PendingClaim}
    → ((c : PendingClaim) → (f c).public_key ≡ c.public_key)
    → ((c : PendingClaim) → (f c).peer_id ≡ c.peer_id)
    → ClaimsIsValid cs
    → ClaimsIsValid (update_first p f cs)
update-ClaimsIsValid p f {cs} same_key same_peer h = record {
  bounded = omega (arith, length-update_first p f cs, h.bounded);
  per_key = λ pk. rw (count-update_first (of_key pk) p f cs (λ c. rw (same_key c))) (h.per_key pk);
  distinct = λ pk i.
      rw (count-update_first (of_pair pk i) p f cs (λ c. rw (same_key c, same_peer c)))
        (h.distinct pk i);
  rows = All-update_first IsWellFormed p f cs (λ c k. rw (same_key c, same_peer c) k) h.rows;
}

-- What the eviction loop keeps of a table.
module _ (cs : List PendingClaim) where
  abbrev Kept : List PendingClaim → Type 0
  Kept kept =
      ((q : Str) → count (of_key q) kept ≤ count (of_key q) cs)
      × ((q i : Str) → count (of_pair q i) kept ≤ count (of_pair q i) cs)
      × All IsWellFormed kept

  make_room-Kept : (fuel : ℕ) → All IsWellFormed cs → InRoom Kept (make_room fuel cs)
  make_room-Kept fuel h =
      make_room_inv Kept
        (λ ds j c _ _ k. (
          λ q. omega (arith, count-remove_at-le (of_key q) j ds, k.0 q),
          λ q i. omega (arith, count-remove_at-le (of_pair q i) j ds, k.1 q i),
          All-remove_at IsWellFormed j ds k.2,
        ))
        fuel cs (λ q. omega arith, λ q i. omega arith, h)

  make_room-shorter : (fuel : ℕ) → InRoom (λ k. length k ≤ length cs) (make_room fuel cs)
  make_room-shorter fuel =
      make_room_inv (λ k. length k ≤ length cs)
        (λ ds j c at _ k. omega (arith, length-remove_at j ds c at, k)) fuel cs (omega arith)

  -- What is left when nothing more may be dropped.
  left-ClaimsIsValid :
      (left : List PendingClaim)
      → ClaimsIsValid cs
      → Kept left
      → length left ≤ length cs
      → ClaimsIsValid left
  left-ClaimsIsValid left h k shorter = record {
    bounded = omega (arith, h.bounded);
    per_key = λ q. omega (arith, k.0 q, h.per_key q);
    distinct = λ q i. omega (arith, k.1 q i, h.distinct q i);
    rows = k.2;
  }

  -- A row is new to the table, and its key has not reached its bound.
  push-ClaimsIsValid :
      (kept : List PendingClaim) (c : PendingClaim)
      → ClaimsIsValid cs
      → Kept kept
      → length kept < max_pending_claims
      → IsWellFormed c
      → count (of_key c.public_key) cs < max_pending_per_key
      → count (of_pair c.public_key c.peer_id) cs ≡ 0
      → ClaimsIsValid (kept ++ (c ∷ []))
  push-ClaimsIsValid kept c h k fits wf few fresh = record {
    bounded = omega (arith, length-append kept (c ∷ []));
    per_key = λ q.
        rw (count-append_one (of_key q) kept c) (key_bound q (Bool-cases (str_eq c.public_key q)));
    distinct = λ q i.
        rw (count-append_one (of_pair q i) kept c)
          (pair_bound q i (Bool-cases (str_eq c.public_key q)) (Bool-cases (str_eq c.peer_id i)));
    rows = All-append IsWellFormed kept (c ∷ []) k.2 (wf, tt);
  }
    where
      key_bound :
          (q : Str)
          → (str_eq c.public_key q ≡ true) ⊎ (str_eq c.public_key q ≡ false)
          → count (of_key q) kept + (if of_key q c then 1 else 0) ≤ max_pending_per_key
      key_bound q (inl e) =
          let same : c.public_key ≡ q = (str_eq_iff c.public_key q).0 e in
          let few' : count (of_key q) cs < max_pending_per_key =
            subst (λ (x : Str). count (of_key x) cs < max_pending_per_key) same few in
          rw e (omega (arith, k.0 q))
      key_bound q (inr e) = rw e (omega (arith, k.0 q, h.per_key q))

      pair_bound :
          (q i : Str)
          → (str_eq c.public_key q ≡ true) ⊎ (str_eq c.public_key q ≡ false)
          → (str_eq c.peer_id i ≡ true) ⊎ (str_eq c.peer_id i ≡ false)
          → count (of_pair q i) kept + (if of_pair q i c then 1 else 0) ≤ 1
      pair_bound q i (inl e) (inl f) =
          let none_yet : count (of_pair q i) cs ≡ 0 =
            subst₂ (λ (x y : Str). count (of_pair x y) cs ≡ 0) ((str_eq_iff c.public_key q).0 e)
              ((str_eq_iff c.peer_id i).0 f) fresh in
          rw (e, f) (omega (arith, k.1 q i))
      pair_bound q i (inl e) (inr f) = rw (e, f) (omega (arith, k.1 q i, h.distinct q i))
      pair_bound q i (inr e) f = rw e (omega (arith, k.1 q i, h.distinct q i))

-- Filing a request keeps the table valid: at most 200 rows, at most 5 for a key, no pair twice,
-- and every row with a valid peer id.
pub register_pending_claim_in-ClaimsIsValid :
    (key_id public_key peer_id via now : Str) {cs : List PendingClaim}
    → ClaimsIsValid cs
    → ClaimsIsValid (register_pending_claim_in cs key_id public_key peer_id via now).1
register_pending_claim_in-ClaimsIsValid key_id public_key raw via now {cs} h =
    register-by_cases cs key_id public_key raw via now (λ r. ClaimsIsValid r.1) (λ _. h)
      (λ _ _ _.
        update-ClaimsIsValid (of_pair (trim public_key) (trim raw)) (refresh key_id via now)
          (λ c. refl) (λ c. refl) h)
      (λ _. h)
      (λ left stuck.
        left-ClaimsIsValid cs left h
          (subst (InRoom (Kept cs)) stuck (make_room-Kept cs (length cs) h.rows))
          (subst (InRoom (λ k. length k ≤ length cs)) stuck (make_room-shorter cs (length cs))))
      (λ kept e absent few made.
        push-ClaimsIsValid cs kept (first_row key_id (trim public_key) (trim raw) via now) h
          (subst (InRoom (Kept cs)) made (make_room-Kept cs (length cs) h.rows))
          (subst HasRoom made (make_room-bounded (length cs) cs))
          (e, trim-trim raw, trim-trim public_key) few
          (count_of_find-none (of_pair (trim public_key) (trim raw)) cs absent))
