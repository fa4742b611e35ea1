-- ===== src/Integration/Claims/Cases.antt =====
-- The ways in which `register_pending_claim_in` ends, as one elimination rule.
use rustdesk_server_nemo.Base.{
  ◌<◌, ◌≡◌, refl, ◌⊎◌, inl, inr, true, false, none, some, List, [], ◌∷◌, ◌++◌, length, find, count,
  update_first, Str, trim, arith, leb, if◌then◌else◌, Bool-cases, Option-cases, ok,
}
use rustdesk_server_nemo.Integration.Config.{DeviceKey, PendingClaim, World}
use rustdesk_server_nemo.Integration.DeviceKeys.{valid_peer_id, has_public_key}
use rustdesk_server_nemo.Integration.Claims.{
  max_pending_per_key, PendingOutcome, new, repeat, denied, full, rejected, Room, room, no_room,
  out_of_fuel, of_key, of_pair, make_room, refresh, register_pending_claim_in,
  register_pending_claim, deny_device_key_claim, deny, of_row,
}

-- The row of a first request.
abbrev pub first_row : Str → Str → Str → Str → Str → PendingClaim
first_row key_id pk peer_id via now = record {
  key_id = key_id;
  public_key = pk;
  peer_id = peer_id;
  first_seen = now;
  last_seen = now;
  attempts = 1;
  via = via;
  denied = false;
}

Room-cases :
    (r : Room)
    → ((kept : List PendingClaim) × (r ≡ room kept))
      ⊎ (((left : List PendingClaim) × (r ≡ no_room left)) ⊎ (r ≡ out_of_fuel))
Room-cases (room kept) = inl (kept, refl)
Room-cases (no_room left) = inr (inl (left, refl))
Room-cases out_of_fuel = inr (inr refl)

module _ (cs : List PendingClaim) (key_id public_key raw via now : Str)
    (P : PendingOutcome × List PendingClaim → Type 0) where
  pub register-by_cases :
      (valid_peer_id (trim raw) ≡ false → P (rejected, cs))
      → ((x : PendingClaim)
          → valid_peer_id (trim raw) ≡ true
          → find (of_pair (trim public_key) (trim raw)) cs ≡ some x
          → P (
            if x.denied then denied else repeat,
            update_first (of_pair (trim public_key) (trim raw)) (refresh key_id via now) cs,
          ))
      → (find (of_pair (trim public_key) (trim raw)) cs ≡ none → P (full, cs))
      → ((left : List PendingClaim) → make_room (length cs) cs ≡ no_room left → P (full, left))
      → ((kept : List PendingClaim)
          → valid_peer_id (trim raw) ≡ true
          → find (of_pair (trim public_key) (trim raw)) cs ≡ none
          → count (of_key (trim public_key)) cs < max_pending_per_key
          → make_room (length cs) cs ≡ room kept
          → P (new, kept ++ (first_row key_id (trim public_key) (trim raw) via now ∷ [])))
      → P (register_pending_claim_in cs key_id public_key raw via now)
  unfolding register_pending_claim_in
  register-by_cases on_rejected on_known on_full on_left on_new =
      elim (Bool-cases (valid_peer_id (trim raw))) [
        | inr e ↦ rw e (on_rejected e)
        | inl e ↦ rw e (elim (Option-cases (find (of_pair (trim public_key) (trim raw)) cs)) [
          | inr (x, found) ↦ rw found (on_known x e found)
          | inl absent ↦
              rw absent
                (elim (Bool-cases (leb max_pending_per_key (count (of_key (trim public_key)) cs))) [
                  | inl many ↦ rw many (on_full absent)
                  | inr few ↦ rw few (elim (Room-cases (make_room (length cs) cs)) [
                    | inl (kept, made) ↦ rw made (on_new kept e absent (ground arith) made)
                    | inr (inl (left, stuck)) ↦ rw stuck (on_left left stuck)
                    | inr (inr ran_out) ↦ rw ran_out (on_full absent)
                  ])
                ])
        ])
      ]

-- A request against a key that is pinned goes to the table; what is filed is in memory at once.
pub register_pending_claim_pinned :
    (public_key peer_id via now : Str) (w : World) (key : DeviceKey)
    → find (has_public_key (trim public_key)) w.config.device_keys ≡ some key
    → let r =
        register_pending_claim_in w.config.pending_device_key_claims key.id
          (trim public_key)
          peer_id
          via
          now in
      let (w', outcome) = register_pending_claim public_key peer_id via now w in
      (outcome ≡ r.0) × (w'.config.pending_device_key_claims ≡ r.1)
unfolding register_pending_claim
register_pending_claim_pinned public_key peer_id via now w key h = ground arith

-- A request against a key that is not pinned changes nothing.
pub register_pending_claim_unpinned :
    (public_key peer_id via now : Str) (w : World)
    → find (has_public_key (trim public_key)) w.config.device_keys ≡ none
    → register_pending_claim public_key peer_id via now w ≡ (w, rejected)
unfolding register_pending_claim
register_pending_claim_unpinned public_key peer_id via now w h = rw (h, register_pending_claim)

-- What a successful denial wrote.
pub deny-inv :
    (key_id peer_id : Str) (w w' : World) (c : PendingClaim)
    → deny_device_key_claim key_id peer_id w ≡ (w', ok c)
    → (d : PendingClaim) × (find (of_row key_id peer_id) w.config.pending_device_key_claims
        ≡ some d)
      × (deny d ≡ c)
      × (w'.config.pending_device_key_claims
          ≡ update_first (of_row key_id peer_id) deny w.config.pending_device_key_claims)
      × (w'.config.device_keys ≡ w.config.device_keys)
unfolding deny_device_key_claim
deny-inv key_id peer_id w w' c h =
    elim (Option-cases (find (of_row key_id peer_id) w.config.pending_device_key_claims)) [
      | inl absent ↦ absurd (ground arith)
      | inr (d, found) ↦ (d, found, ground arith, ground arith, ground arith)
    ]
