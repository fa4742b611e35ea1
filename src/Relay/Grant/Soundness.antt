-- ===== src/Relay/Grant/Soundness.antt =====
-- A grant admits its holder while it is fresh, and nothing but a signed grant admits.
use rustdesk_server_nemo.Base.{
  ℕ, ◌+◌, ◌^◌, ◌%◌, ◌<◌, ◌≡◌, ap, ◌∙◌, inl, inr, true, some, List, ◌++◌, length, take, drop, Str,
  codes, ltb, if◌then◌else◌, ok, err, to_be_bytes, from_be_bytes, from_be_bytes-to_be_bytes,
  length-to_be_bytes, take-append, drop-append, append-take-drop, length-take, length-drop,
  length-append, arith, Option-cases,
}
use rustdesk_server_nemo.Relay.Grant.{
  Scheme, signed_text, relay_grant_mint, verify_parts, relay_grant_verify,
}

-- What the server relies on: base64 decodes what it encodes, and a key's own signature has 64 bytes
-- and verifies under the public half.
pub record IsSound (scheme : Scheme) (sk : scheme.SecretKey) (pk : scheme.PublicKey) : Type 0 where
  pub decodes : (b : List ℕ) → scheme.decode (scheme.encode b) ≡ some b
  pub signature_length : (m : List ℕ) → length (scheme.sign_detached m sk) ≡ 64
  pub well_formed : (m : List ℕ) → scheme.signature_ok (scheme.sign_detached m sk) ≡ true
  pub verifies : (m : List ℕ) → scheme.verify_detached (scheme.sign_detached m sk) m pk ≡ true

-- A grant that is cut where its parts meet.
verify-cut :
    (scheme : Scheme) (pk : scheme.PublicKey) (grant : Str) (now : ℕ) (nonce exp sig : List ℕ)
    → scheme.decode grant ≡ some (nonce ++ (exp ++ sig))
    → length nonce ≡ 16
    → length exp ≡ 8
    → length sig ≡ 64
    → relay_grant_verify scheme pk grant now ≡ verify_parts scheme pk now nonce exp sig
unfolding relay_grant_verify
verify-cut scheme pk grant now nonce exp sig e n x g =
    let whole : length (nonce ++ (exp ++ sig)) ≡ 88 =
      omega (arith, length-append nonce (exp ++ sig), length-append exp sig) in
    rw (
      relay_grant_verify,
      e,
      whole,
      take-append 16 nonce (exp ++ sig) n,
      drop-append 16 nonce (exp ++ sig) n,
      take-append 8 exp sig x,
      drop-append 8 exp sig x,
    )

-- A minted grant is accepted until its time is up, and refused as expired from then on, for a sound
-- scheme, a nonce of sixteen bytes and a time that a u64 holds.
pub relay_grant_verify-relay_grant_mint :
    (scheme : Scheme) (sk : scheme.SecretKey) (pk : scheme.PublicKey) (nonce : List ℕ)
    (now ttl later : ℕ)
    → IsSound scheme sk pk
    → length nonce ≡ 16
    → now + ttl < 2 ^ 64
    → relay_grant_verify scheme pk (relay_grant_mint scheme sk nonce now ttl) later
      ≡ (if ltb later (now + ttl) then ok tt else err (codes "relay grant expired"))
unfolding relay_grant_mint verify_parts
relay_grant_verify-relay_grant_mint scheme sk pk nonce now ttl later h sixteen small =
    let exp = to_be_bytes 8 ((now + ttl) % 2 ^ 64) in
    let text = signed_text nonce exp in
    let sig = scheme.sign_detached text sk in
    let word : (now + ttl) % 2 ^ 64 ≡ now + ttl = omega arith in
    let back : from_be_bytes 0 exp ≡ now + ttl =
      from_be_bytes-to_be_bytes 8 ((now + ttl) % 2 ^ 64) (omega arith) ∙ word in
    verify-cut scheme pk (scheme.encode (nonce ++ (exp ++ sig))) later nonce exp sig
      (h.decodes (nonce ++ (exp ++ sig))) sixteen (length-to_be_bytes 8 ((now + ttl) % 2 ^ 64))
      (h.signature_length text)
    ∙ rw (h.well_formed text, h.verifies text, back) (ground arith)

-- What is accepted is sixteen bytes, an expiry that lies ahead, and a signature of the two under the
-- server's key.
pub relay_grant_verify-inv :
    (scheme : Scheme) (pk : scheme.PublicKey) (grant : Str) (now : ℕ)
    → relay_grant_verify scheme pk grant now ≡ ok tt
    → (nonce : List ℕ) × (exp : List ℕ) × (sig : List ℕ) × (scheme.decode grant
        ≡ some (nonce ++ (exp ++ sig)))
      × (length nonce ≡ 16)
      × (length exp ≡ 8)
      × (length sig ≡ 64)
      × (scheme.verify_detached sig (signed_text nonce exp) pk ≡ true)
      × (now < from_be_bytes 0 exp)
unfolding relay_grant_verify verify_parts
relay_grant_verify-inv scheme pk grant now h = elim (Option-cases (scheme.decode grant)) [
  | inl e ↦ absurd (ground arith)
  | inr (raw, e) ↦
      let whole : length raw ≡ 88 = ground arith in
      let rest : 16 + length (drop 16 raw) ≡ length raw = length-drop 16 raw (omega arith) in
      let last : 8 + length (drop 8 (drop 16 raw)) ≡ length (drop 16 raw) =
        length-drop 8 (drop 16 raw) (omega arith) in
      (
        take 16 raw,
        take 8 (drop 16 raw),
        drop 8 (drop 16 raw),
        e
            ∙ ap some (
                append-take-drop 16 raw
                ∙ ap (λ x. take 16 raw ++ x) (append-take-drop 8 (drop 16 raw))),
        length-take 16 raw (omega arith),
        length-take 8 (drop 16 raw) (omega arith),
        omega arith,
        ground arith,
        ground arith,
      )
]
