-- ===== src/Integration/DeviceKeys/Binding.antt =====
-- The binding rule, and the claim of a key that is not bound.
use rustdesk_server_nemo.Base.{
  ◌≡◌, refl, sym, ap, ◌∙◌, ◌≢◌, ◌↔◌, ◌⊎◌, inl, inr, Bool, true, false, some, List, [], ◌∷◌, find,
  update_first, Str, str_eq_iff, is_empty, trim, arith, Option-cases, Result-cases, ok, err,
  some_inj, find-update_first_self, find-update_first_other,
}
use rustdesk_server_nemo.Integration.Config.{DeviceKey}
use rustdesk_server_nemo.Integration.DeviceKeys.{
  has_public_key, proven, claim_on_proof, device_key_binding_decision, claim_device_key_in,
}

-- A bound key authenticates exactly its own peer, whatever the two switches say.
pub bound-proven_iff :
    (bound claimed : Str) (allow_unbound claim_enabled : Bool)
    → bound ≢ []
    → (device_key_binding_decision bound claimed allow_unbound claim_enabled ≡ proven)
      ↔ (bound ≡ claimed)
unfolding device_key_binding_decision
bound-proven_iff [] claimed allow claim h = absurd (h refl)
bound-proven_iff (c ∷ s) claimed allow claim h = ground (arith, str_eq_iff (c ∷ s) claimed)

-- A key that is not bound is accepted only under the loose switch; without it, a proof may at most
-- ask for a claim, and only when claiming is on and an id is given; else it is refused.
pub unbound-decision :
    (claimed : Str) (allow_unbound claim_enabled : Bool)
    → ((device_key_binding_decision [] claimed allow_unbound claim_enabled ≡ proven)
        ↔ (allow_unbound ≡ true))
      × ((device_key_binding_decision [] claimed allow_unbound claim_enabled ≡ claim_on_proof)
          ↔ ((allow_unbound ≡ false) × (claim_enabled ≡ true) × (is_empty (trim claimed) ≡ false)))
unfolding device_key_binding_decision
unbound-decision claimed true claim =
    (((λ _. refl), λ _. refl), ((λ e. absurd (cc e)), λ e. absurd (cc (e.0))))
unbound-decision claimed false true = ground arith
unbound-decision claimed false false = ground arith

abbrev pub bind_to : Str → Str → DeviceKey → DeviceKey
bind_to peer_id at k = record k { peer_id = peer_id; claimed_at = at }

-- The two ways in which a claim succeeds.
pub claim-inv :
    (keys : List DeviceKey) (public_key peer_id at : Str) (wrote : Bool) (keys' : List DeviceKey)
    → claim_device_key_in keys public_key peer_id at ≡ ok (wrote, keys')
    → (k : DeviceKey) × (find (has_public_key (trim public_key)) keys ≡ some k)
      × (((wrote ≡ false) × (k.peer_id ≡ trim peer_id) × (keys' ≡ keys))
          ⊎ ((wrote ≡ true)
              × (k.peer_id ≡ [])
              × (keys'
                  ≡ update_first
                      (has_public_key (trim public_key))
                      (bind_to (trim peer_id) at)
                      keys)))
unfolding claim_device_key_in
claim-inv keys public_key peer_id at wrote keys' h =
    elim (Option-cases (find (has_public_key (trim public_key)) keys)) [
      | inl e ↦ absurd (ground arith)
      | inr (k, e) ↦ (k, e, ground (arith, str_eq_iff k.peer_id (trim peer_id)))
    ]

-- A claim that succeeds names a peer.
claim-named :
    (keys : List DeviceKey) (public_key peer_id at : Str) (wrote : Bool) (keys' : List DeviceKey)
    → claim_device_key_in keys public_key peer_id at ≡ ok (wrote, keys')
    → trim peer_id ≢ []
unfolding claim_device_key_in
claim-named keys public_key peer_id at wrote keys' h = ground arith

-- Distinct keys are told apart by their test.
pub has_public_key-apart :
    (pk q : Str) (k : DeviceKey) → q ≢ pk → has_public_key pk k ≡ true → has_public_key q k ≡ false
has_public_key-apart pk q k ne h =
    ground (arith, str_eq_iff k.public_key pk, str_eq_iff k.public_key q)

-- After a claim the key is bound to the claimant.
pub claim-binds :
    (keys : List DeviceKey) (public_key peer_id at : Str) (wrote : Bool) (keys' : List DeviceKey)
    → claim_device_key_in keys public_key peer_id at ≡ ok (wrote, keys')
    → (k : DeviceKey) × (find (has_public_key (trim public_key)) keys' ≡ some k)
      × (k.peer_id ≡ trim peer_id)
claim-binds keys public_key peer_id at wrote keys' h =
    let (k, found, how) = claim-inv keys public_key peer_id at wrote keys' h in
    elim how [
      | inl (_, same, unchanged) ↦ (k, rw unchanged found, same)
      | inr (_, _, written) ↦ (
        bind_to (trim peer_id) at k,
        rw written (
            find-update_first_self (has_public_key (trim public_key)) (bind_to (trim peer_id) at)
              keys k (λ y. refl) found),
        refl,
      )
    ]

-- A claim writes no other key.
pub claim-others :
    (keys : List DeviceKey) (public_key peer_id at : Str) (wrote : Bool) (keys' : List DeviceKey)
    (q : Str)
    → claim_device_key_in keys public_key peer_id at ≡ ok (wrote, keys')
    → q ≢ trim public_key
    → find (has_public_key q) keys' ≡ find (has_public_key q) keys
claim-others keys public_key peer_id at wrote keys' q h ne =
    let (k, found, how) = claim-inv keys public_key peer_id at wrote keys' h in
    let pk = trim public_key in
    elim how [
      | inl (_, _, unchanged) ↦ rw unchanged
      | inr (_, _, written) ↦ rw written (
          find-update_first_other (has_public_key q) (has_public_key pk) (bind_to (trim peer_id) at)
            keys (λ y e. has_public_key-apart pk q y ne e)
            (λ y e. has_public_key-apart pk q y ne e))
    ]

-- A key that is bound to one peer is never taken by another: the claim of a different id fails.
pub claim-bound_refused :
    (keys : List DeviceKey) (public_key peer_id at : Str) (k : DeviceKey)
    → find (has_public_key (trim public_key)) keys ≡ some k
    → k.peer_id ≢ []
    → k.peer_id ≢ trim peer_id
    → (e : Str) × (claim_device_key_in keys public_key peer_id at ≡ err e)
claim-bound_refused keys public_key peer_id at k found bound ne =
    elim (Result-cases (claim_device_key_in keys public_key peer_id at)) [
      | inr refusal ↦ refusal
      | inl ((wrote, keys'), went) ↦
          let (j, found', how) = claim-inv keys public_key peer_id at wrote keys' went in
          let same : j ≡ k = some_inj (sym found' ∙ found) in
          elim how [
            | inl (_, e, _) ↦ absurd (ne (sym (ap (λ (x : DeviceKey). x.peer_id) same) ∙ e))
            | inr (_, e, _) ↦ absurd (bound (sym (ap (λ (x : DeviceKey). x.peer_id) same) ∙ e))
          ]
    ]

-- Two ids race for one key: when the first claim has gone through, the second is refused.
pub claim-race :
    (keys : List DeviceKey) (public_key first second at at' : Str) (wrote : Bool)
    (keys' : List DeviceKey)
    → claim_device_key_in keys public_key first at ≡ ok (wrote, keys')
    → trim first ≢ trim second
    → (e : Str) × (claim_device_key_in keys' public_key second at' ≡ err e)
claim-race keys public_key first second at at' wrote keys' h ne =
    let (k, found, bound) = claim-binds keys public_key first at wrote keys' h in
    let named : trim first ≢ [] = claim-named keys public_key first at wrote keys' h in
    claim-bound_refused keys' public_key second at' k found (rw bound named) (rw bound ne)
