-- ===== src/Integration/Claims/Approval.antt =====
-- The operator's approval: the one way in which a request becomes a binding.
use rustdesk_server_nemo.Base.{
  ◌≡◌, sym, subst, ◌∙◌, ◌≢◌, ◌⊎◌, inl, inr, Bool, false, not, some, List, [], find, count, retain,
  Str, trim, arith, if◌then◌else◌, Option-cases, Result-cases, ok, find-All, count-retain_self,
  some_inj, str_eq, str_eq_iff, Bool-cases,
}
use rustdesk_server_nemo.Integration.Config.{DeviceKey, PendingClaim, World}
use rustdesk_server_nemo.Integration.DeviceKeys.{has_public_key, claim_device_key_in}
use rustdesk_server_nemo.Integration.DeviceKeys.Binding.{claim-inv, claim-binds, claim-others}
use rustdesk_server_nemo.Integration.Claims.{of_key, of_row, approve_device_key_claim}
use rustdesk_server_nemo.Integration.Claims.Invariant.{ClaimsIsValid, IsWellFormed}

-- What a successful approval went through.
approve-inv :
    (key_id peer_id at : Str) (w w' : World) (k : DeviceKey)
    → approve_device_key_claim key_id peer_id at w ≡ (w', ok k)
    → (c : PendingClaim) × (wrote : Bool) × (keys : List DeviceKey) × (find
          (of_row key_id peer_id)
          w.config.pending_device_key_claims
        ≡ some c)
      × (claim_device_key_in w.config.device_keys c.public_key peer_id at ≡ ok (wrote, keys))
      × (find (has_public_key c.public_key) keys ≡ some k)
      × (w'.config.device_keys ≡ keys)
      × (w'.config.pending_device_key_claims
          ≡ retain (λ d. not (of_key c.public_key d)) w.config.pending_device_key_claims)
unfolding approve_device_key_claim
approve-inv key_id peer_id at w w' k h =
    elim (Option-cases (find (of_row key_id peer_id) w.config.pending_device_key_claims)) [
      | inl absent ↦ absurd (ground arith)
      | inr (c, found) ↦
          elim (Result-cases (claim_device_key_in w.config.device_keys c.public_key peer_id at)) [
            | inr (e, refusal) ↦ absurd (ground arith)
            | inl ((wrote, keys), went) ↦
                elim (Option-cases (find (has_public_key c.public_key) keys)) [
                  | inl gone ↦ absurd (ground arith)
                  | inr (j, pinned) ↦
                      (c, wrote, keys, found, went, ground arith, ground arith, ground arith)
                ]
          ]
    ]

ne_of_test : (a b : Str) → str_eq a b ≡ false → b ≢ a
ne_of_test a b h = ground (arith, str_eq_iff a b)

-- An approval that succeeds answers a pending row. The row's key was pinned, and free or the
-- asker's already; it is now bound to the asker; no other key is written; and none of the key's
-- requests is left.
pub approve-binds :
    (key_id peer_id at : Str) (w w' : World) (k : DeviceKey) (q : Str)
    → ClaimsIsValid w.config.pending_device_key_claims
    → approve_device_key_claim key_id peer_id at w ≡ (w', ok k)
    → (c : PendingClaim) × (old : DeviceKey) × (find
          (of_row key_id peer_id)
          w.config.pending_device_key_claims
        ≡ some c)
      × (find (has_public_key c.public_key) w.config.device_keys ≡ some old)
      × ((old.peer_id ≡ []) ⊎ (old.peer_id ≡ trim peer_id))
      × (k.peer_id ≡ trim peer_id)
      × (find (has_public_key q) w'.config.device_keys ≡ (
          if str_eq c.public_key q then some k else find (has_public_key q) w.config.device_keys))
      × (count (of_key c.public_key) w'.config.pending_device_key_claims ≡ 0)
approve-binds key_id peer_id at w w' k q valid h =
    let (c, wrote, keys, found, went, pinned, keys_are, claims_are) =
      approve-inv key_id peer_id at w w' k h in
    let well : IsWellFormed c =
      find-All IsWellFormed (of_row key_id peer_id) w.config.pending_device_key_claims c valid.rows
        found in
    let (j, bound_at, bound_to) =
      claim-binds w.config.device_keys c.public_key peer_id at wrote keys went in
    let same : j ≡ k = some_inj (sym (rw (well.2) at bound_at) ∙ pinned) in
    let (old, was, how) = claim-inv w.config.device_keys c.public_key peer_id at wrote keys went in
    (
      c,
      old,
      found,
      rw (well.2) at was,
      elim how [ inl (_, e, _) ↦ inr e | inr (_, e, _) ↦ inl e ],
      subst (λ (x : DeviceKey). x.peer_id ≡ trim peer_id) same bound_to,
      rw keys_are (elim (Bool-cases (str_eq c.public_key q)) [
        | inl same_key ↦ rw same_key (
            subst (λ (x : Str). find (has_public_key x) keys ≡ some k)
              ((str_eq_iff c.public_key q).0 same_key) pinned)
        | inr differs ↦ rw differs (
            claim-others w.config.device_keys c.public_key peer_id at wrote keys q went
              (rw (well.2) (ne_of_test c.public_key q differs)))
      ]),
      rw claims_are (count-retain_self (of_key c.public_key) w.config.pending_device_key_claims),
    )
