-- ===== src/Management/Proof.antt =====
-- The device proof of a request to the management service (src/nemo_management.rs). base64, the
-- signature scheme and the decoding of UTF-8 are parameters.
pub mod Authentic
use rustdesk_server_nemo.Base.{
  ℕ, ◌+◌, ◌-◌, ◌*◌, ◌^◌, Bool, true, false, not, ◌&&◌, ◌||◌, Option, none, some, List, [], ◌∷◌, Str,
  codes, str_eq, is_empty, trim, split_once, leb, ltb, ◌==◌, if◌then◌else◌,
}
use rustdesk_server_nemo.Integration.Config.{World}
use rustdesk_server_nemo.Integration.DeviceKeys.{
  BindingDecision, proven, claim_on_proof, refused, is_device_key_pinned, device_key_binding,
  device_key_binding_decision,
}
use rustdesk_server_nemo.Integration.Claims.{PendingOutcome, register_pending_claim}

-- `base64::decode`, `PublicKey::from_slice`, `sign::verify` and `String::from_utf8_lossy`.
pub record Signatures : Type 1 where
  pub PublicKey : Type 0
  pub decode : Str → Option (List ℕ)
  pub from_slice : List ℕ → Option PublicKey
  pub verify : List ℕ → PublicKey → Option (List ℕ)
  pub from_utf8_lossy : List ℕ → Str

-- `DeviceProof`.
pub record DeviceProof : Type 0 where
  pub ok : Bool
  pub claim : Option PendingOutcome

-- `PROOF_REFUSED`.
abbrev pub proof_refused : DeviceProof
proof_refused = record { ok = false; claim = none }

-- `claim_via_label`.
unfoldable pub claim_via_label : Str → Str
claim_via_label domain =
    if str_eq domain (codes "nemo-poll")
    then codes "settings poll"
    else if str_eq domain (codes "nemo-ab")
    then codes "address book"
    else if str_eq domain (codes "nemo-login")
    then codes "sign-in"
    else if str_eq domain (codes "nemo-audit")
    then codes "audit upload"
    else codes "management API"

abbrev is_digit : ℕ → Bool
is_digit c = leb b'0' c && leb c b'9'

-- The digits of `str::parse::<u64>`, after `acc`: an error past the largest u64.
unfoldable pub digits_from : ℕ → Str → Option ℕ
digits_from acc [] = some acc
digits_from acc (c ∷ s) =
    let n = acc * 10 + (c - b'0') in
    let rest = digits_from n s in
    if not (is_digit c) then none else if ltb (2 ^ 64 - 1) n then none else rest

-- `str::parse::<u64>`: one plus sign may stand before the digits.
unfoldable pub parse_u64 : Str → Option ℕ
parse_u64 [] = none
parse_u64 (c ∷ s) =
    if c == b'+' then (if is_empty s then none else digits_from 0 s) else digits_from 0 (c ∷ s)

-- The three parts of `splitn(3, ':')`, if there are three.
unfoldable pub split3 : Str → Option (Str × Str × Str)
split3 text = elim (split_once b':' text) [
  | none ↦ none
  | some (a, rest) ↦ elim (split_once b':' rest) [ none ↦ none | some (b, c) ↦ some (a, b, c) ]
]

-- The time stamp lies outside the window. `-` on ℕ is `saturating_sub`.
abbrev pub is_stale_proof : ℕ → ℕ → Bool
is_stale_proof ts now = ltb 300 (now - ts) || ltb 60 (ts - now)

-- The checks on the text that was signed.
unfoldable pub text_ok : Str → Str → Str → ℕ → Bool
text_ok text domain id now = elim (split3 text) [
  | none ↦ false
  | some (a, b, stamp) ↦
      if not (str_eq a domain) || not (str_eq b id)
      then false
      else elim (parse_u64 stamp) [ none ↦ false | some ts ↦ not (is_stale_proof ts now) ]
]

module _ (crypto : Signatures) where
  -- The text under the signature, if the signature verifies.
  unfoldable pub signed_message : Str → Str → Option Str
  signed_message pub_b64 sig_b64 = elim (crypto.decode (trim pub_b64)) [
    | none ↦ none
    | some pk_bytes ↦ elim (crypto.decode (trim sig_b64)) [
      | none ↦ none
      | some sig_bytes ↦ elim (crypto.from_slice pk_bytes) [
        | none ↦ none
        | some pk ↦ elim (crypto.verify sig_bytes pk) [
          | none ↦ none
          | some msg ↦ some (crypto.from_utf8_lossy msg)
        ]
      ]
    ]
  ]

  -- The checks on the signature, its text and the text's time stamp.
  unfoldable pub signature_ok : Str → Str → Str → Str → ℕ → Bool
  signature_ok pub_b64 sig_b64 domain id now = elim (signed_message pub_b64 sig_b64) [
    | none ↦ false
    | some text ↦ text_ok text domain id now
  ]

  -- `verify_device_signature_proof`; `now` is the time in seconds and `now_iso` in text.
  unfoldable pub verify_device_signature_proof :
      Str → Str → Str → Str → Bool → ℕ → Str → World → World × DeviceProof
  verify_device_signature_proof pub_b64 sig_b64 domain id allow_unbound now now_iso w =
      let checked = signature_ok pub_b64 sig_b64 domain id now in
      if not (is_device_key_pinned pub_b64 w)
      then (w, proof_refused)
      else elim (device_key_binding pub_b64 w) [
        | none ↦ (w, proof_refused)
        | some bound ↦
            elim (device_key_binding_decision bound id allow_unbound
              w.config.claim_unbound_device_keys) [
                | refused reason ↦ (w, proof_refused)
                | proven ↦
                    (w, if checked then record { ok = true; claim = none } else proof_refused)
                | claim_on_proof ↦
                    if checked
                    then (let (w1, outcome) =
                          register_pending_claim pub_b64 id (claim_via_label domain) now_iso w in
                        (w1, record { ok = false; claim = some outcome }))
                    else (w, proof_refused)
              ]
      ]

-- `session_device_binding_ok`.
unfoldable pub session_device_binding_ok : Str → Option Str → Bool
session_device_binding_ok bound none = is_empty bound
session_device_binding_ok bound (some p) = is_empty bound || str_eq p bound
