-- ===== src/Rendezvous/Handshake/Admitted.antt =====
-- Whose frames the rendezvous server reads, and what a handshake writes (src/rendezvous_server.rs).
use rustdesk_server_nemo.Base.{
  ◌≡◌, ◌≢◌, refl, ◌⊎◌, inl, inr, Bool, true, false, Option, none, some, Str, arith, Bool-cases,
  Option-cases, ok, Result-cases, str_eq_iff, ap, ◌∙◌, [],
}
use rustdesk_server_nemo.Integration.Config.{World}
use rustdesk_server_nemo.Integration.DeviceKeys.{
  BindingDecision, proven, claim_on_proof, refused, is_device_key_pinned, device_key_binding,
  device_key_binding_decision,
}
use rustdesk_server_nemo.Management.Proof.Authentic.{decision-proven}
use rustdesk_server_nemo.Rendezvous.State.{AuthedDevice}
use rustdesk_server_nemo.Rendezvous.Handshake.{
  KeyExchangeMode, off, offer, require, NemoClientAuth, Reply, silence, key_exchange, sealed_auth,
  client_auth, plain, Crypto, key_exchange_open, signature_covers, open_bound,
  nemo_client_auth_open, closed, reading, unproved, with_auth, handshake, admit,
}

module _ (crypto : Crypto) where
  -- What an authenticated reply shows: the key is pinned, and bound to the id or, under the loose
  -- switch, to none, and
  -- its signature covers the server's ephemeral key, the client's two keys and the id.
  pub record Proves (auth : NemoClientAuth) (allow_unbound : Bool) (w : World) (who : AuthedDevice)
      : Type 0 where
    pub pinned : is_device_key_pinned who.device_pub_b64 w ≡ true
    pub key : who.device_pub_b64 ≡ crypto.encode auth.device_pub
    pub id : who.peer_id ≡ auth.peer_id
    pub bound : Str
    pub binding : device_key_binding who.device_pub_b64 w ≡ some bound
    pub accepted :
        ((bound ≡ auth.peer_id) × (auth.peer_id ≢ [])) ⊎ ((bound ≡ []) × (allow_unbound ≡ true))
    pub device_pk : crypto.PublicKey
    pub valid : crypto.from_slice auth.device_pub ≡ some device_pk
    pub signed :
        crypto.verify auth.sig device_pk
        ≡ some (crypto.payload auth.client_box_pk auth.sealed_key auth.peer_id)

  signature_covers-inv :
      (auth : NemoClientAuth)
      → signature_covers crypto auth ≡ ok tt
      → (pk : crypto.PublicKey) × (crypto.from_slice auth.device_pub ≡ some pk)
        × (crypto.verify auth.sig pk
            ≡ some (crypto.payload auth.client_box_pk auth.sealed_key auth.peer_id))
  unfolding signature_covers
  signature_covers-inv auth h = elim (Option-cases (crypto.from_slice auth.device_pub)) [
    | inl e ↦ absurd (ground arith)
    | inr (pk, e) ↦ elim (Option-cases (crypto.verify auth.sig pk)) [
      | inl f ↦ absurd (ground arith)
      | inr (opened, f) ↦
          let covers : opened ≡ crypto.payload auth.client_box_pk auth.sealed_key auth.peer_id =
            (str_eq_iff opened (crypto.payload auth.client_box_pk auth.sealed_key auth.peer_id)).0
              (ground arith) in
          (pk, e, f ∙ ap some covers)
    ]
  ]

  Decision-cases :
      (d : BindingDecision) → (d ≡ proven) ⊎ ((d ≡ claim_on_proof) ⊎ ((r : Str) × (d ≡ refused r)))
  Decision-cases proven = inl refl
  Decision-cases claim_on_proof = inr (inl refl)
  Decision-cases (refused r) = inr (inr (r, refl))

  -- The authenticated reply is accepted only with a full proof, under the session key that it sealed,
  -- and then nothing is written.
  pub nemo_client_auth_open-inv :
      (auth : NemoClientAuth) (allow_unbound : Bool) (now_iso : Str) (w : World)
      (key : crypto.SessionKey) (who : AuthedDevice)
      → (nemo_client_auth_open crypto auth allow_unbound now_iso w).1 ≡ ok (key, who)
      → Proves auth allow_unbound w who
        × (crypto.decode_session auth.sealed_key auth.client_box_pk ≡ ok key)
        × ((nemo_client_auth_open crypto auth allow_unbound now_iso w).0 ≡ w)
  unfolding nemo_client_auth_open open_bound
  nemo_client_auth_open-inv auth allow_unbound now_iso w key who h =
      elim (Bool-cases (is_device_key_pinned (crypto.encode auth.device_pub) w)) [
        | inr e ↦ absurd (ground arith)
        | inl e ↦ elim (Option-cases (device_key_binding (crypto.encode auth.device_pub) w)) [
          | inl f ↦ absurd (ground arith)
          | inr (bound, f) ↦
              elim (Decision-cases (
                device_key_binding_decision bound auth.peer_id allow_unbound
                  w.config.claim_unbound_device_keys)) [
                    | inr (inl d) ↦ elim (Result-cases (signature_covers crypto auth)) [
                      | inl (_, g) ↦ absurd (ground arith)
                      | inr (x, g) ↦ absurd (ground arith)
                    ]
                    | inr (inr (r, d)) ↦ absurd (ground arith)
                    | inl d ↦ elim (Result-cases (signature_covers crypto auth)) [
                      | inr (x, g) ↦ absurd (ground arith)
                      | inl (u, g) ↦
                          elim (Result-cases
                            (crypto.decode_session auth.sealed_key auth.client_box_pk)) [
                              | inr (x, k) ↦ absurd (ground arith)
                              | inl (s, k) ↦ (
                                record {
                                  pinned = ground arith;
                                  key = ground arith;
                                  id = ground arith;
                                  bound = bound;
                                  binding = ground arith;
                                  accepted =
                                      decision-proven bound auth.peer_id allow_unbound
                                        w.config.claim_unbound_device_keys d;
                                  device_pk = (signature_covers-inv auth g).0;
                                  valid = (signature_covers-inv auth g).1;
                                  signed = (signature_covers-inv auth g).2;
                                },
                                ground arith,
                                ground arith,
                              )
                            ]
                    ]
                  ]
        ]
      ]

  unproved-closed :
      (mode : KeyExchangeMode) (session : Option crypto.SessionKey) (w : World)
      → w.config.require_device_key ≡ true
      → unproved crypto mode session w ≡ closed
  unproved-closed mode session w on = ground arith

  -- The first frame is an authenticated reply, bare or in an envelope.
  abbrev pub Carries : Reply → NemoClientAuth → Type 0
  Carries reply auth =
      (reply ≡ client_auth auth)
      ⊎ ((envelope : Str) × (reply ≡ sealed_auth envelope)
          × (crypto.open_sealed envelope ≡ ok auth))

  -- A connection that goes on is secured and has proved its device.
  abbrev pub IsProved :
      NemoClientAuth → Bool → World → Option crypto.SessionKey → Option AuthedDevice → Type 0
  IsProved auth allow_unbound w session authed =
      (key : crypto.SessionKey) × (who : AuthedDevice) × (session ≡ some key)
      × (authed ≡ some who)
      × Proves auth allow_unbound w who
      × (crypto.decode_session auth.sealed_key auth.client_box_pk ≡ ok key)

  with_auth-inv :
      (auth : NemoClientAuth) (allow_unbound : Bool) (now_iso : Str) (w : World)
      (session : Option crypto.SessionKey) (authed : Option AuthedDevice)
      → (with_auth crypto auth allow_unbound now_iso w).1 ≡ reading session authed
      → IsProved auth allow_unbound w session authed
  unfolding with_auth
  with_auth-inv auth allow_unbound now_iso w session authed h =
      elim (Result-cases (nemo_client_auth_open crypto auth allow_unbound now_iso w).1) [
        | inr (x, e) ↦ absurd (ground arith)
        | inl ((key, who), e) ↦
            let (proves, sealed, _) =
              nemo_client_auth_open-inv auth allow_unbound now_iso w key who e in
            (key, who, ground arith, ground arith, proves, sealed)
      ]

  handshake-inv :
      (mode : KeyExchangeMode) (reply : Reply) (allow_unbound : Bool) (now_iso : Str) (w : World)
      (session : Option crypto.SessionKey) (authed : Option AuthedDevice)
      → w.config.require_device_key ≡ true
      → (handshake crypto mode reply allow_unbound now_iso w).1 ≡ reading session authed
      → (auth : NemoClientAuth) × Carries reply auth × IsProved auth allow_unbound w session authed
  unfolding handshake
  handshake-inv mode silence allow_unbound now_iso w session authed on h =
      absurd (ground (arith, unproved-closed mode none w on))
  handshake-inv mode plain allow_unbound now_iso w session authed on h =
      absurd (ground (arith, unproved-closed mode none w on))
  handshake-inv mode (key_exchange keys) allow_unbound now_iso w session authed on h =
      elim (Result-cases (key_exchange_open crypto keys)) [
        | inr (x, e) ↦ absurd (ground arith)
        | inl (key, e) ↦ absurd (ground (arith, unproved-closed mode (some key) w on))
      ]
  handshake-inv mode (client_auth auth) allow_unbound now_iso w session authed on h =
      (auth, inl refl, with_auth-inv auth allow_unbound now_iso w session authed h)
  handshake-inv mode (sealed_auth envelope) allow_unbound now_iso w session authed on h =
      elim (Result-cases (crypto.open_sealed envelope)) [
        | inr (x, e) ↦ absurd (ground arith)
        | inl (auth, e) ↦ (
          auth,
          inr (envelope, refl, e),
          with_auth-inv auth allow_unbound now_iso w session authed (ground arith),
        )
      ]

  -- Under `require_device_key`, with a server key and a mode other than off, no frame is read of a
  -- connection but a secured one whose first frame was an authenticated reply, bare or in an envelope,
  -- with a full proof; and none of a websocket.
  pub admit-IsProved :
      (ws : Bool) (mode : KeyExchangeMode) (reply : Reply) (allow_unbound : Bool) (now_iso : Str)
      (w : World) (session : Option crypto.SessionKey) (authed : Option AuthedDevice)
      → w.config.require_device_key ≡ true
      → mode ≢ off
      → (admit crypto ws mode true reply allow_unbound now_iso w).1 ≡ reading session authed
      → (ws ≡ false)
        × ((auth : NemoClientAuth) × Carries reply auth
            × IsProved auth allow_unbound w session authed)
  unfolding admit
  admit-IsProved true mode reply allow_unbound now_iso w session authed on not_off h = absurd (cc)
  admit-IsProved false off reply allow_unbound now_iso w session authed on not_off h =
      absurd (not_off refl)
  admit-IsProved false offer reply allow_unbound now_iso w session authed on not_off h =
      (refl, handshake-inv offer reply allow_unbound now_iso w session authed on h)
  admit-IsProved false require reply allow_unbound now_iso w session authed on not_off h =
      (refl, handshake-inv require reply allow_unbound now_iso w session authed on h)
