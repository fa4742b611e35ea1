-- ===== src/Management/Proof/Authentic.antt =====
-- Who passes the device proof, and who may file a request for a key.
use rustdesk_server_nemo.Base.{
  ℕ, ◌+◌, ◌≤◌, ◌≡◌, ◌≢◌, refl, ap, ◌∙◌, ◌⊎◌, inl, inr, Bool, true, false, Option, none, some, [],
  ◌∷◌, ◌++◌, Str, str_eq_iff, split_once, ◌==◌, arith, Bool-cases, Option-cases, some_inj,
}
use rustdesk_server_nemo.Integration.Config.{World}
use rustdesk_server_nemo.Integration.DeviceKeys.{
  BindingDecision, proven, claim_on_proof, refused, is_device_key_pinned, device_key_binding,
  device_key_binding_decision,
}
use rustdesk_server_nemo.Integration.DeviceKeys.Binding.{bound-proven_iff, unbound-decision}
use rustdesk_server_nemo.Integration.Claims.{PendingOutcome, register_pending_claim}
use rustdesk_server_nemo.Management.Proof.{
  Signatures, DeviceProof, claim_via_label, parse_u64, split3, text_ok, is_stale_proof,
  signed_message, signature_ok, verify_device_signature_proof,
}

split_once-inv : (c : ℕ) (s a b : Str) → split_once c s ≡ some (a, b) → s ≡ a ++ (c ∷ b)
unfolding split_once
split_once-inv c [] a b h = absurd (cc)
split_once-inv c (d ∷ s) a b h = elim (Bool-cases (d == c)) [
  | inl e ↦ ground arith
  | inr e ↦ elim (Option-cases (split_once c s)) [
    | inl none_left ↦ absurd (ground arith)
    | inr ((x, y), found) ↦ ground (arith, split_once-inv c s x y found)
  ]
]

-- The signature is one of the text `domain:id:time`, with a fresh time.
abbrev pub IsSigned : Signatures → Str → Str → Str → Str → ℕ → Type 0
IsSigned crypto pub_b64 sig_b64 domain id now =
    (stamp : Str) × (ts : ℕ) × (signed_message crypto pub_b64 sig_b64
      ≡ some (domain ++ (b':' ∷ (id ++ (b':' ∷ stamp)))))
    × (parse_u64 stamp ≡ some ts)
    × (now ≤ ts + 300)
    × (ts ≤ now + 60)

split3-inv :
    (text a b stamp : Str)
    → split3 text ≡ some (a, b, stamp)
    → text ≡ a ++ (b':' ∷ (b ++ (b':' ∷ stamp)))
unfolding split3
split3-inv text a b stamp h = elim (Option-cases (split_once b':' text)) [
  | inl e ↦ absurd (ground arith)
  | inr ((x, rest), e) ↦ elim (Option-cases (split_once b':' rest)) [
    | inl e' ↦ absurd (ground arith)
    | inr ((y, z), e') ↦
        let first = split_once-inv b':' text x rest e in
        let second = split_once-inv b':' rest y z e' in
        let same : ◌≡◌ {A = Str × Str × Str} (x, y, z) (a, b, stamp) = some_inj (ground arith) in
        let pieces = ap (λ (p : Str × Str × Str). p.0 ++ (b':' ∷ (p.1 ++ (b':' ∷ p.2)))) same in
        first ∙ (ap (λ r. x ++ (b':' ∷ r)) second ∙ pieces)
  ]
]

text_ok-inv :
    (text domain id : Str) (now : ℕ)
    → text_ok text domain id now ≡ true
    → (stamp : Str) × (ts : ℕ) × (text ≡ domain ++ (b':' ∷ (id ++ (b':' ∷ stamp))))
      × (parse_u64 stamp ≡ some ts)
      × (now ≤ ts + 300)
      × (ts ≤ now + 60)
unfolding text_ok
text_ok-inv text domain id now h = elim (Option-cases (split3 text)) [
  | inl e ↦ absurd (ground arith)
  | inr ((a, b, stamp), e) ↦ elim (Option-cases (parse_u64 stamp)) [
    | inl bad ↦ absurd (ground arith)
    | inr (ts, good) ↦
        let shape = split3-inv text a b stamp e in
        let at : a ≡ domain = (str_eq_iff a domain).0 (ground arith) in
        let bt : b ≡ id = (str_eq_iff b id).0 (ground arith) in
        let young : is_stale_proof ts now ≡ false = ground arith in
        (
          stamp,
          ts,
          shape
              ∙ (ap (λ x. x ++ (b':' ∷ (b ++ (b':' ∷ stamp)))) at
                  ∙ ap (λ x. domain ++ (b':' ∷ (x ++ (b':' ∷ stamp)))) bt),
          good,
          ground arith,
          ground arith,
        )
  ]
]

signature_ok-IsSigned :
    (crypto : Signatures) (pub_b64 sig_b64 domain id : Str) (now : ℕ)
    → signature_ok crypto pub_b64 sig_b64 domain id now ≡ true
    → IsSigned crypto pub_b64 sig_b64 domain id now
unfolding signature_ok
signature_ok-IsSigned crypto pub_b64 sig_b64 domain id now h =
    elim (Option-cases (signed_message crypto pub_b64 sig_b64)) [
      | inl e ↦ absurd (ground arith)
      | inr (text, e) ↦
          let (stamp, ts, shape, good, late, early) =
            text_ok-inv text domain id now (ground arith) in
          (stamp, ts, e ∙ ap some shape, good, late, early)
    ]

decision-cases :
    (d : BindingDecision)
    → (d ≡ proven) ⊎ ((d ≡ claim_on_proof) ⊎ ((reason : Str) × (d ≡ refused reason)))
decision-cases proven = inl refl
decision-cases claim_on_proof = inr (inl refl)
decision-cases (refused reason) = inr (inr (reason, refl))

pub decision-proven :
    (bound id : Str) (allow_unbound claim_enabled : Bool)
    → device_key_binding_decision bound id allow_unbound claim_enabled ≡ proven
    → ((bound ≡ id) × (id ≢ [])) ⊎ ((bound ≡ []) × (allow_unbound ≡ true))
decision-proven [] id allow_unbound claim_enabled h =
    inr (refl, (unbound-decision id allow_unbound claim_enabled).0.0 h)
decision-proven (c ∷ s) id allow_unbound claim_enabled h =
    let same = (bound-proven_iff (c ∷ s) id allow_unbound claim_enabled (λ e. absurd (cc e))).0 h in
    inl (same, λ gone. absurd (cc (same, gone)))

decision-claim :
    (bound id : Str) (allow_unbound claim_enabled : Bool)
    → device_key_binding_decision bound id allow_unbound claim_enabled ≡ claim_on_proof
    → bound ≡ []
unfolding device_key_binding_decision
decision-claim [] id allow_unbound claim_enabled h = refl
decision-claim (c ∷ s) id allow_unbound claim_enabled h = absurd (ground arith)

settled :
    {o : Option Str} {bound id : Str} {allow : Bool}
    → o ≡ some bound
    → ((bound ≡ id) × (id ≢ [])) ⊎ ((bound ≡ []) × (allow ≡ true))
    → ((o ≡ some id) × (id ≢ [])) ⊎ ((o ≡ some []) × (allow ≡ true))
settled b (inl (same, named)) = inl (b ∙ ap some same, named)
settled b (inr (none_bound, loose)) = inr (b ∙ ap some none_bound, loose)

-- A device proof passes only for a pinned key with a fresh signature over the endpoint's domain and
-- the id; the key is then bound to that id, or to none under the loose switch; and nothing is written.
pub verify_device_signature_proof-ok :
    (crypto : Signatures) (pub_b64 sig_b64 domain id : Str) (allow_unbound : Bool) (now : ℕ)
    (now_iso : Str) (w w' : World) (claim : Option PendingOutcome)
    → verify_device_signature_proof crypto pub_b64 sig_b64 domain id allow_unbound now now_iso w
      ≡ (w', record { ok = true; claim = claim })
    → (is_device_key_pinned pub_b64 w ≡ true)
      × (((device_key_binding pub_b64 w ≡ some id) × (id ≢ []))
          ⊎ ((device_key_binding pub_b64 w ≡ some []) × (allow_unbound ≡ true)))
      × IsSigned crypto pub_b64 sig_b64 domain id now
      × (w' ≡ w)
unfolding verify_device_signature_proof
verify_device_signature_proof-ok crypto pub_b64 sig_b64 domain id allow_unbound now now_iso w w'
      claim h =
    elim (Bool-cases (is_device_key_pinned pub_b64 w)) [
      | inr no_pin ↦ absurd (ground arith)
      | inl pin ↦ elim (Option-cases (device_key_binding pub_b64 w)) [
        | inl gone ↦ absurd (ground arith)
        | inr (bound, b) ↦
            elim (decision-cases (
              device_key_binding_decision bound id allow_unbound
                w.config.claim_unbound_device_keys)) [
                  | inr (inr (reason, d)) ↦ absurd (ground arith)
                  | inr (inl d) ↦
                      elim (Bool-cases (signature_ok crypto pub_b64 sig_b64 domain id now)) [
                        | inr bad ↦ absurd (ground arith)
                        | inl good ↦ absurd (ground arith)
                      ]
                  | inl d ↦ elim (Bool-cases (signature_ok crypto pub_b64 sig_b64 domain id now)) [
                    | inr bad ↦ absurd (ground arith)
                    | inl good ↦ (
                      pin,
                      settled b (
                          decision-proven bound id allow_unbound w.config.claim_unbound_device_keys
                            d),
                      signature_ok-IsSigned crypto pub_b64 sig_b64 domain id now good,
                      ground arith,
                    )
                  ]
                ]
      ]
    ]

-- The device proof changes nothing and answers with no request, unless the key is pinned and bound to
-- no one and the signature is a fresh one of the id; and then it does not pass, and the change and the
-- outcome are those of a request of that id for the key.
pub verify_device_signature_proof-files :
    (crypto : Signatures) (pub_b64 sig_b64 domain id : Str) (allow_unbound : Bool) (now : ℕ)
    (now_iso : Str) (w w' : World) (answer : DeviceProof)
    → verify_device_signature_proof crypto pub_b64 sig_b64 domain id allow_unbound now now_iso w
      ≡ (w', answer)
    → ((w' ≡ w) × (answer.claim ≡ none))
      ⊎ ((answer.ok ≡ false)
          × (is_device_key_pinned pub_b64 w ≡ true)
          × (device_key_binding pub_b64 w ≡ some [])
          × IsSigned crypto pub_b64 sig_b64 domain id now
          × (let filed = register_pending_claim pub_b64 id (claim_via_label domain) now_iso w in
              (w' ≡ filed.0) × (answer.claim ≡ some filed.1)))
unfolding verify_device_signature_proof
verify_device_signature_proof-files crypto pub_b64 sig_b64 domain id allow_unbound now now_iso w w'
      answer h =
    elim (Bool-cases (is_device_key_pinned pub_b64 w)) [
      | inr no_pin ↦ inl (ground arith, ground arith)
      | inl pin ↦ elim (Option-cases (device_key_binding pub_b64 w)) [
        | inl gone ↦ inl (ground arith, ground arith)
        | inr (bound, b) ↦
            elim (decision-cases (
              device_key_binding_decision bound id allow_unbound
                w.config.claim_unbound_device_keys)) [
                  | inr (inr (reason, d)) ↦ inl (ground arith, ground arith)
                  | inr (inl d) ↦
                      elim (Bool-cases (signature_ok crypto pub_b64 sig_b64 domain id now)) [
                        | inr bad ↦ inl (ground arith, ground arith)
                        | inl good ↦ inr (
                          ground arith,
                          pin,
                          b
                              ∙ ap some (
                                  decision-claim bound id allow_unbound
                                    w.config.claim_unbound_device_keys d),
                          signature_ok-IsSigned crypto pub_b64 sig_b64 domain id now good,
                          (ground arith, ground arith),
                        )
                      ]
                  | inl d ↦ elim (Bool-cases (signature_ok crypto pub_b64 sig_b64 domain id now)) [
                    | inr bad ↦ inl (ground arith, ground arith)
                    | inl good ↦ inl (ground arith, ground arith)
                  ]
                ]
      ]
    ]
