-- ===== src/Integration/Claims/Steps.antt =====
-- The life of the pinned keys and their requests as a transition system: what clients and the
-- operator may do, in any order.
use rustdesk_server_nemo.Base.{
  ◌≡◌, refl, ◌⊎◌, inl, inr, Bool, not, List, find, retain, update_first, Str, str_eq, trim, arith,
  Option-cases, Result-cases,
}
use rustdesk_server_nemo.Integration.Config.{DeviceKey, PendingClaim, World}
use rustdesk_server_nemo.Integration.DeviceKeys.{
  has_public_key, add_device_key, remove_device_key, set_device_key_peer_id,
  set_device_key_peer_id_in, set_claim_unbound_device_keys, claim_device_key_in,
}
use rustdesk_server_nemo.Integration.Claims.{
  of_key, of_row, deny, register_pending_claim, approve_device_key_claim, deny_device_key_claim,
  forget_device_key_claim,
}
use rustdesk_server_nemo.Integration.Claims.Cases.{
  register_pending_claim_pinned, register_pending_claim_unpinned,
}
use rustdesk_server_nemo.Integration.Claims.Invariant.{
  ClaimsIsValid, retain-ClaimsIsValid, update-ClaimsIsValid,
  register_pending_claim_in-ClaimsIsValid,
}

pub data Step (w : World) : World → Type 0 where
  register :
      (public_key peer_id via now : Str)
      → Step w (register_pending_claim public_key peer_id via now w).0
  approve : (key_id peer_id at : Str) → Step w (approve_device_key_claim key_id peer_id at w).0
  refuse : (key_id peer_id : Str) → Step w (deny_device_key_claim key_id peer_id w).0
  forget : (key_id peer_id : Str) → Step w (forget_device_key_claim key_id peer_id w).0
  add :
      (label public_key at peer_id : Str) → Step w (add_device_key label public_key at peer_id w).0
  drop_key : (id : Str) → Step w (remove_device_key id w).0
  rebind : (id peer_id : Str) → Step w (set_device_key_peer_id id peer_id w).0
  switch : (v : Bool) → Step w (set_claim_unbound_device_keys v w)

pub data Reach (w : World) : World → Type 0 where
  here : Reach w w
  next : {u v : World} → Reach w u → Step u v → Reach w v

-- The state's table of requests is valid.
abbrev pub HasValidClaims : World → Type 0
HasValidClaims w = ClaimsIsValid w.config.pending_device_key_claims

register-HasValidClaims :
    (public_key peer_id via now : Str) (w : World)
    → HasValidClaims w
    → HasValidClaims (register_pending_claim public_key peer_id via now w).0
register-HasValidClaims public_key peer_id via now w h =
    elim (Option-cases (find (has_public_key (trim public_key)) w.config.device_keys)) [
      | inl absent ↦ rw (register_pending_claim_unpinned public_key peer_id via now w absent) h
      | inr (key, found) ↦
          rw ((register_pending_claim_pinned public_key peer_id via now w key found).1)
            (register_pending_claim_in-ClaimsIsValid key.id (trim public_key) peer_id via now h)
    ]

deny-claims :
    (key_id peer_id : Str) (w : World)
    → ((deny_device_key_claim key_id peer_id w).0.config.pending_device_key_claims
        ≡ w.config.pending_device_key_claims)
      ⊎ ((deny_device_key_claim key_id peer_id w).0.config.pending_device_key_claims
          ≡ update_first (of_row key_id peer_id) deny w.config.pending_device_key_claims)
unfolding deny_device_key_claim
deny-claims key_id peer_id w =
    elim (Option-cases (find (of_row key_id peer_id) w.config.pending_device_key_claims)) [
      | inl absent ↦ inl (ground arith)
      | inr (c, found) ↦ inr (ground arith)
    ]

-- An operator's answer, or a change of the keys, leaves the table alone or takes a key's rows out.
abbrev OnlyDrops : World → List PendingClaim → Type 0
OnlyDrops w cs =
    (cs ≡ w.config.pending_device_key_claims)
    ⊎ ((p : PendingClaim → Bool) × (cs ≡ retain p w.config.pending_device_key_claims))

OnlyDrops-ClaimsIsValid :
    (w : World) (cs : List PendingClaim) → OnlyDrops w cs → HasValidClaims w → ClaimsIsValid cs
OnlyDrops-ClaimsIsValid w cs (inl same) h = rw same h
OnlyDrops-ClaimsIsValid w cs (inr (p, dropped)) h = rw dropped (retain-ClaimsIsValid p h)

approve-OnlyDrops :
    (key_id peer_id at : Str) (w : World)
    → OnlyDrops w (approve_device_key_claim key_id peer_id at w).0.config.pending_device_key_claims
unfolding approve_device_key_claim
approve-OnlyDrops key_id peer_id at w =
    elim (Option-cases (find (of_row key_id peer_id) w.config.pending_device_key_claims)) [
      | inl absent ↦ inl (ground arith)
      | inr (c, found) ↦
          elim (Result-cases (claim_device_key_in w.config.device_keys c.public_key peer_id at)) [
            | inr (e, refusal) ↦ inl (ground arith)
            | inl ((wrote, keys), went) ↦ inr ((λ d. not (of_key c.public_key d)), ground arith)
          ]
    ]

remove-OnlyDrops :
    (id : Str) (w : World) → OnlyDrops w (remove_device_key id w).0.config.pending_device_key_claims
unfolding remove_device_key
remove-OnlyDrops id w =
    elim (Option-cases (find (λ (k : DeviceKey). str_eq k.id id) w.config.device_keys)) [
      | inl absent ↦ inl (ground arith)
      | inr (k, found) ↦ inr ((λ d. not (of_key k.public_key d)), ground arith)
    ]

rebind-OnlyDrops :
    (id peer_id : Str) (w : World)
    → OnlyDrops w (set_device_key_peer_id id peer_id w).0.config.pending_device_key_claims
unfolding set_device_key_peer_id
rebind-OnlyDrops id peer_id w =
    elim (Result-cases (set_device_key_peer_id_in w.config.device_keys id peer_id)) [
      | inr (e, refusal) ↦ inl (ground arith)
      | inl ((k, keys), went) ↦ inr ((λ d. not (of_key k.public_key d)), ground arith)
    ]

forget-OnlyDrops :
    (key_id peer_id : Str) (w : World)
    → OnlyDrops w (forget_device_key_claim key_id peer_id w).0.config.pending_device_key_claims
unfolding forget_device_key_claim
forget-OnlyDrops key_id peer_id w = inr ((λ d. not (of_row key_id peer_id d)), ground arith)

add-OnlyDrops :
    (label public_key at peer_id : Str) (w : World)
    → OnlyDrops w (add_device_key label public_key at peer_id w).0.config.pending_device_key_claims
unfolding add_device_key
add-OnlyDrops label public_key at peer_id w = inl (ground arith)

switch-OnlyDrops :
    (v : Bool) (w : World)
    → OnlyDrops w (set_claim_unbound_device_keys v w).config.pending_device_key_claims
unfolding set_claim_unbound_device_keys
switch-OnlyDrops v w = inl (ground arith)

refuse-HasValidClaims :
    (key_id peer_id : Str) (w : World)
    → HasValidClaims w
    → HasValidClaims (deny_device_key_claim key_id peer_id w).0
refuse-HasValidClaims key_id peer_id w h = elim (deny-claims key_id peer_id w) [
  | inl same ↦ rw same h
  | inr written ↦
      rw written (update-ClaimsIsValid (of_row key_id peer_id) deny (λ c. refl) (λ c. refl) h)
]

pub Step-HasValidClaims : {w w' : World} → Step w w' → HasValidClaims w → HasValidClaims w'
Step-HasValidClaims {w} (register pk i via now) h = register-HasValidClaims pk i via now w h
Step-HasValidClaims {w} (refuse key_id i) h = refuse-HasValidClaims key_id i w h
Step-HasValidClaims {w} (approve key_id i at) h =
    OnlyDrops-ClaimsIsValid w _ (approve-OnlyDrops key_id i at w) h
Step-HasValidClaims {w} (forget key_id i) h =
    OnlyDrops-ClaimsIsValid w _ (forget-OnlyDrops key_id i w) h
Step-HasValidClaims {w} (add label pk at i) h =
    OnlyDrops-ClaimsIsValid w _ (add-OnlyDrops label pk at i w) h
Step-HasValidClaims {w} (drop_key id) h = OnlyDrops-ClaimsIsValid w _ (remove-OnlyDrops id w) h
Step-HasValidClaims {w} (rebind id i) h = OnlyDrops-ClaimsIsValid w _ (rebind-OnlyDrops id i w) h
Step-HasValidClaims {w} (switch v) h = OnlyDrops-ClaimsIsValid w _ (switch-OnlyDrops v w) h

-- In every state that clients and the operator can reach, in any order of their actions, the table
-- of requests has at most 200 rows, at most 5 for one key, no pair of key and peer twice, and only
-- rows with a valid peer id.
pub Reach-HasValidClaims : {w w' : World} → HasValidClaims w → Reach w w' → HasValidClaims w'
Reach-HasValidClaims h here = h
Reach-HasValidClaims h (next r s) = Step-HasValidClaims s (Reach-HasValidClaims h r)
