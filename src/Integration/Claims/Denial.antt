-- ===== src/Integration/Claims/Denial.antt =====
-- A denial stands: no further requests, of whatever keys and peers, evict or reopen it.
use rustdesk_server_nemo.Base.{
  ℕ, ◌≡◌, refl, subst, ◌∙◌, ◌≢◌, str_eq_refl, find-All, inl, inr, true, none, some, List, [], ◌∷◌,
  length, find, Str, trim, arith, Option-cases, ok, find-append, find-update_first_any,
  find-update_first_unique, find-remove_at,
}
use rustdesk_server_nemo.Base.Text.Trim.{trim-trim}
use rustdesk_server_nemo.Integration.Config.{PendingClaim, World}
use rustdesk_server_nemo.Integration.DeviceKeys.{valid_peer_id, has_public_key}
use rustdesk_server_nemo.Integration.Claims.{
  denied, of_pair, of_row, refresh, deny, make_room, register_pending_claim_in,
  register_pending_claim, deny_device_key_claim,
}
use rustdesk_server_nemo.Integration.Claims.Cases.{
  register-by_cases, register_pending_claim_pinned, register_pending_claim_unpinned, deny-inv,
}
use rustdesk_server_nemo.Integration.Claims.Eviction.{InRoom, make_room_inv}
use rustdesk_server_nemo.Integration.Claims.Invariant.{ClaimsIsValid, IsWellFormed}

-- The pair has a row, and the row is denied.
abbrev pub IsDenied : Str → Str → List PendingClaim → Type 0
IsDenied pk peer_id cs =
    (c : PendingClaim) × (find (of_pair pk peer_id) cs ≡ some c) × (c.denied ≡ true)

module _ (pk peer_id : Str) where
  make_room-IsDenied :
      (fuel : ℕ) (cs : List PendingClaim)
      → IsDenied pk peer_id cs
      → InRoom (IsDenied pk peer_id) (make_room fuel cs)
  make_room-IsDenied =
      make_room_inv (IsDenied pk peer_id) (λ cs j x at waiting (c, found, is_denied). (
        c,
        find-remove_at (of_pair pk peer_id) (λ (y : PendingClaim). y.denied) j cs c x found at
            is_denied waiting,
        is_denied,
      ))

  -- Filing any request, of this pair or another, leaves the denial.
  pub register_pending_claim_in-IsDenied :
      (cs : List PendingClaim) (key_id public_key raw via now : Str)
      → IsDenied pk peer_id cs
      → IsDenied pk peer_id (register_pending_claim_in cs key_id public_key raw via now).1
  register_pending_claim_in-IsDenied cs key_id public_key raw via now (c, found, is_denied) =
      register-by_cases cs key_id public_key raw via now (λ r. IsDenied pk peer_id r.1)
        (λ _. (c, found, is_denied))
        (λ _ _ _.
          elim (find-update_first_any (of_pair pk peer_id) (of_pair (trim public_key) (trim raw))
            (refresh key_id via now) cs c (λ y. refl) found) [
              | inl same ↦ (c, same, is_denied)
              | inr written ↦ (refresh key_id via now c, written, is_denied)
            ])
        (λ _. (c, found, is_denied))
        (λ left stuck.
          subst (InRoom (IsDenied pk peer_id)) stuck
            (make_room-IsDenied (length cs) cs (c, found, is_denied)))
        (λ kept _ _ _ made.
          let (d, still, d_denied) =
            subst (InRoom (IsDenied pk peer_id)) made
              (make_room-IsDenied (length cs) cs (c, found, is_denied)) in
          (d, rw (find-append (of_pair pk peer_id) kept _, still), d_denied))

  -- A request of a pair that was denied is answered so.
  register_pending_claim_in-denied :
      (cs : List PendingClaim) (key_id public_key raw via now : Str)
      → IsDenied pk peer_id cs
      → trim public_key ≡ pk
      → trim raw ≡ peer_id
      → valid_peer_id peer_id ≡ true
      → (register_pending_claim_in cs key_id public_key raw via now).0 ≡ denied
  unfolding register_pending_claim_in
  register_pending_claim_in-denied cs key_id public_key raw via now (c, found, is_denied) p q
        valid =
      rw (p, q, valid, found, is_denied)

-- A request as it reaches `register_pending_claim`.
pub record Request : Type 0 where
  pub public_key : Str
  pub peer_id : Str
  pub via : Str
  pub now : Str

-- A history of requests.
pub file_all : List Request → World → World
file_all [] w = w
file_all (r ∷ rs) w = file_all rs (register_pending_claim r.public_key r.peer_id r.via r.now w).0

-- A request writes no key.
pub register_pending_claim-keys :
    (public_key peer_id via now : Str) (w : World)
    → (register_pending_claim public_key peer_id via now w).0.config.device_keys
      ≡ w.config.device_keys
unfolding register_pending_claim
register_pending_claim-keys public_key peer_id via now w = ground arith

register_pending_claim-IsDenied :
    (pk i public_key peer_id via now : Str) (w : World)
    → IsDenied pk i w.config.pending_device_key_claims
    → IsDenied pk i
        (register_pending_claim public_key peer_id via now w).0.config.pending_device_key_claims
register_pending_claim-IsDenied pk i public_key peer_id via now w d =
    elim (Option-cases (find (has_public_key (trim public_key)) w.config.device_keys)) [
      | inl absent ↦ rw (register_pending_claim_unpinned public_key peer_id via now w absent) d
      | inr (key, found) ↦
          rw ((register_pending_claim_pinned public_key peer_id via now w key found).1) (
            register_pending_claim_in-IsDenied pk i w.config.pending_device_key_claims key.id
              (trim public_key) peer_id via now d)
    ]

file_all-IsDenied :
    (pk i : Str) (history : List Request) (w : World)
    → IsDenied pk i w.config.pending_device_key_claims
    → IsDenied pk i (file_all history w).config.pending_device_key_claims
unfolding file_all
file_all-IsDenied pk i [] w d = d
file_all-IsDenied pk i (r ∷ rs) w d =
    file_all-IsDenied pk i rs (register_pending_claim r.public_key r.peer_id r.via r.now w).0
      (register_pending_claim-IsDenied pk i r.public_key r.peer_id r.via r.now w d)

file_all-keys :
    (history : List Request) (w : World)
    → (file_all history w).config.device_keys ≡ w.config.device_keys
unfolding file_all
file_all-keys [] w = refl
file_all-keys (r ∷ rs) w =
    file_all-keys rs (register_pending_claim r.public_key r.peer_id r.via r.now w).0
    ∙ register_pending_claim-keys r.public_key r.peer_id r.via r.now w

-- The row that the operator denies is denied from then on.
deny-IsDenied :
    (key_id peer_id : Str) (w w' : World) (c : PendingClaim)
    → ClaimsIsValid w.config.pending_device_key_claims
    → deny_device_key_claim key_id peer_id w ≡ (w', ok c)
    → IsDenied c.public_key c.peer_id w'.config.pending_device_key_claims
      × IsWellFormed c
      × (w'.config.device_keys ≡ w.config.device_keys)
deny-IsDenied key_id peer_id w w' c valid h =
    let (d, found, same, written, keys) = deny-inv key_id peer_id w w' c h in
    let claims = w.config.pending_device_key_claims in
    let at_pair : of_pair d.public_key d.peer_id d ≡ true =
      rw (str_eq_refl d.public_key, str_eq_refl d.peer_id) in
    let there =
      find-update_first_unique (of_pair d.public_key d.peer_id) (of_row key_id peer_id) deny claims
        d (λ y. refl) (valid.distinct d.public_key d.peer_id) found at_pair in
    let well : IsWellFormed d =
      find-All IsWellFormed (of_row key_id peer_id) claims d valid.rows found in
    (
      subst
          (λ (x : PendingClaim).
            IsDenied x.public_key x.peer_id w'.config.pending_device_key_claims)
          same (deny d, rw written there, refl),
      subst IsWellFormed same well,
      keys,
    )

-- A denial outlives every later request: whatever is filed after it, for this key or for others and
-- even when the table overflows, a client that asks again for the denied pair is answered `denied`,
-- as long as the key stays pinned.
pub deny_persists :
    (key_id peer_id : Str) (w w' : World) (c : PendingClaim) (history : List Request)
    (public_key raw via now : Str)
    → ClaimsIsValid w.config.pending_device_key_claims
    → deny_device_key_claim key_id peer_id w ≡ (w', ok c)
    → trim public_key ≡ c.public_key
    → trim raw ≡ c.peer_id
    → find (has_public_key c.public_key) w'.config.device_keys ≢ none
    → (register_pending_claim public_key raw via now (file_all history w')).1 ≡ denied
deny_persists key_id peer_id w w' c history public_key raw via now valid h p q pinned =
    let (is_denied, well, _) = deny-IsDenied key_id peer_id w w' c valid h in
    let w2 = file_all history w' in
    let still = file_all-IsDenied c.public_key c.peer_id history w' is_denied in
    elim (Option-cases (find (has_public_key (trim public_key)) w2.config.device_keys)) [
      | inl absent ↦ absurd (pinned (rw (p, file_all-keys history w') at absent))
      | inr (key, found) ↦
          (register_pending_claim_pinned public_key raw via now w2 key found).0
          ∙ register_pending_claim_in-denied c.public_key c.peer_id
              w2.config.pending_device_key_claims key.id (trim public_key) raw via now still
              (trim-trim public_key ∙ p) q well.0
    ]
