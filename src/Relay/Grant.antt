-- ===== src/Relay/Grant.antt =====
-- Grants for a relayed session (src/common.rs). base64 and the signature scheme are parameters.
pub mod Soundness
use rustdesk_server_nemo.Base.{
  ℕ, ◌+◌, ◌^◌, ◌%◌, Bool, not, Option, none, some, List, ◌++◌, length, take, drop, Str, codes, leb,
  ◌==◌, if◌then◌else◌, Result, ok, err, to_be_bytes, from_be_bytes,
}

-- `RELAY_GRANT_TTL_SECS`.
abbrev pub relay_grant_ttl_secs : ℕ
relay_grant_ttl_secs = 60

-- `RELAY_GRANT_DOMAIN`.
abbrev pub relay_grant_domain : List ℕ
relay_grant_domain = codes "tbfdesk-relay-grant-v1"

-- `RELAY_GRANT_LEN`: the signature has 64 bytes.
abbrev pub relay_grant_len : ℕ
relay_grant_len = 16 + 8 + 64

-- What `base64` and `sodiumoxide` give.
pub record Scheme : Type 1 where
  pub SecretKey : Type 0
  pub PublicKey : Type 0
  pub encode : List ℕ → Str
  pub decode : Str → Option (List ℕ)
  pub sign_detached : List ℕ → SecretKey → List ℕ
  pub signature_ok : List ℕ → Bool
  pub verify_detached : List ℕ → List ℕ → PublicKey → Bool

-- The text that a grant signs.
abbrev pub signed_text : List ℕ → List ℕ → List ℕ
signed_text nonce exp = relay_grant_domain ++ (nonce ++ exp)

module _ (scheme : Scheme) where
  -- `relay_grant_mint`, with its fresh nonce and the time as arguments.
  unfoldable pub relay_grant_mint : scheme.SecretKey → List ℕ → ℕ → ℕ → Str
  relay_grant_mint sk nonce now ttl_secs =
      let exp = to_be_bytes 8 ((now + ttl_secs) % 2 ^ 64) in
      let sig = scheme.sign_detached (signed_text nonce exp) sk in
      scheme.encode (nonce ++ (exp ++ sig))

  -- `relay_grant_verify` on the parts of a grant of the right length.
  unfoldable pub verify_parts : scheme.PublicKey → ℕ → List ℕ → List ℕ → List ℕ → Result (Unit {0})
  verify_parts pk now nonce exp sig =
      if not (scheme.signature_ok sig)
      then err (codes "relay grant signature is malformed")
      else if not (scheme.verify_detached sig (signed_text nonce exp) pk)
      then err (codes "relay grant signature does not verify")
      else if leb (from_be_bytes 0 exp) now
      then err (codes "relay grant expired")
      else ok tt

  -- `relay_grant_verify`.
  unfoldable pub relay_grant_verify : scheme.PublicKey → Str → ℕ → Result (Unit {0})
  relay_grant_verify pk grant now = elim (scheme.decode grant) [
    | none ↦ err (codes "relay grant is not base64")
    | some raw ↦
        if not (length raw == relay_grant_len)
        then err (codes "relay grant has the wrong length")
        else verify_parts pk now (take 16 raw) (take 8 (drop 16 raw)) (drop 8 (drop 16 raw))
  ]
