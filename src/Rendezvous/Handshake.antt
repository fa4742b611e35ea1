-- ===== src/Rendezvous/Handshake.antt =====
-- What a connection proves before its frames are read (src/rendezvous_server.rs, `key_exchange_open`,
-- `nemo_client_auth_open` and the start of `handle_listener_inner`). The cryptography is a parameter.
pub mod Admitted
use rustdesk_server_nemo.Base.{
  ℕ, Bool, true, false, not, ◌&&◌, ◌||◌, Option, none, some, List, [], ◌∷◌, ◌++◌, Str, codes,
  str_eq, trim, if◌then◌else◌, Result, ok, err,
}
use rustdesk_server_nemo.Integration.Config.{World}
use rustdesk_server_nemo.Integration.DeviceKeys.{
  BindingDecision, proven, claim_on_proof, refused, is_device_key_pinned, device_key_binding,
  device_key_binding_decision,
}
use rustdesk_server_nemo.Integration.Claims.{
  PendingOutcome, register_pending_claim, new, repeat, denied, full, rejected,
}
use rustdesk_server_nemo.Rendezvous.State.{AuthedDevice}

-- `KeyExchangeMode`.
pub data KeyExchangeMode : Type 0 where
  off offer require : KeyExchangeMode

-- `KeyExchangeMode::parse`.
unfoldable pub parse_mode : (Str → Str) → Str → Result KeyExchangeMode
parse_mode to_lowercase v =
    let word = to_lowercase (trim v) in
    if str_eq word (codes "off")
    then ok off
    else if str_eq word (codes "offer")
    then ok offer
    else if str_eq word (codes "require")
    then ok require
    else if str_eq word []
    then err (
        codes "--key-exchange was given an empty value, expected off|offer|require "
        ++ codes "(omit the flag for the default, require)")
    else err (codes "Invalid --key-exchange=" ++ (word ++ codes ", expected off|offer|require"))

-- `NemoClientAuth`.
pub record NemoClientAuth : Type 0 where
  pub device_pub : Str
  pub client_box_pk : Str
  pub sealed_key : Str
  pub peer_id : Str
  pub sig : Str

-- What the first frame of a client is: a reply to the offer, an envelope with one, an authenticated
-- reply, or another frame.
pub data Reply : Type 0 where
  silence : Reply
  key_exchange : List Str → Reply
  sealed_auth : Str → Reply
  client_auth : NemoClientAuth → Reply
  plain : Reply

-- What the cryptography gives: `Encrypt::decode` and the ephemeral keys of the connection under one
-- name, opening an envelope of a `NemoClientAuth` with the server's key, base64, `PublicKey::from_slice`,
-- `sign::verify` and `nemo_device_auth_payload`.
pub record Crypto : Type 1 where
  pub SessionKey : Type 0
  pub PublicKey : Type 0
  pub decode_session : Str → Str → Result SessionKey
  pub open_sealed : Str → Result NemoClientAuth
  pub encode : Str → Str
  pub from_slice : Str → Option PublicKey
  pub verify : Str → PublicKey → Option Str
  pub payload : Str → Str → Str → Str

module _ (crypto : Crypto) where
  -- `key_exchange_open`.
  unfoldable pub key_exchange_open : List Str → Result crypto.SessionKey
  key_exchange_open (a ∷ b ∷ []) = crypto.decode_session b a
  key_exchange_open [] = err (codes "Key exchange reply does not carry 2 keys")
  key_exchange_open (a ∷ []) = err (codes "Key exchange reply does not carry 2 keys")
  key_exchange_open (a ∷ b ∷ c ∷ ks) = err (codes "Key exchange reply does not carry 2 keys")

  -- Why a claim that was filed, or was not, refuses the handshake.
  unfoldable pub claim_refusal : PendingOutcome → Str
  claim_refusal new = codes "device key is not bound yet: filed a claim"
  claim_refusal repeat = codes "device key is not bound yet: filed a claim"
  claim_refusal denied = codes "the operator denied this device key"
  claim_refusal full =
      codes "too many pending claims against this device key; clear them in the dashboard"
  claim_refusal rejected = codes "cannot claim this device key for this peer id"

  -- The session of a client whose proof holds.
  abbrev pub session_of : NemoClientAuth → Str → Result (crypto.SessionKey × AuthedDevice)
  session_of auth device_pub_b64 = elim (crypto.decode_session auth.sealed_key auth.client_box_pk) [
    | err e ↦ err e
    | ok sym ↦ ok (sym, record { device_pub_b64 = device_pub_b64; peer_id = auth.peer_id })
  ]

  -- The signature of `nemo_client_auth_open`.
  unfoldable pub signature_covers : NemoClientAuth → Result (Unit {0})
  signature_covers auth = elim (crypto.from_slice auth.device_pub) [
    | none ↦ err (codes "device public key is not a valid Ed25519 key")
    | some device_pk ↦ elim (crypto.verify auth.sig device_pk) [
      | none ↦ err (codes "device signature does not verify")
      | some opened ↦
          if str_eq opened (crypto.payload auth.client_box_pk auth.sealed_key auth.peer_id)
          then ok tt
          else err (codes "device signature covers the wrong payload")
    ]
  ]

  -- `nemo_client_auth_open` from the binding rule on.
  unfoldable pub open_bound :
      NemoClientAuth
      → Str
      → BindingDecision
      → Str
      → World
      → World × Result (crypto.SessionKey × AuthedDevice)
  open_bound auth device_pub_b64 (refused reason) now_iso w = (w, err reason)
  open_bound auth device_pub_b64 proven now_iso w = elim (signature_covers auth) [
    | err e ↦ (w, err e)
    | ok _ ↦ (w, session_of auth device_pub_b64)
  ]
  open_bound auth device_pub_b64 claim_on_proof now_iso w = elim (signature_covers auth) [
    | err e ↦ (w, err e)
    | ok _ ↦
        let (w1, outcome) =
          register_pending_claim device_pub_b64 auth.peer_id (codes "rendezvous handshake") now_iso
            w in
        (w1, err (claim_refusal outcome))
  ]

  -- `nemo_client_auth_open`; `allow_unbound` is the operator's switch.
  unfoldable pub nemo_client_auth_open :
      NemoClientAuth → Bool → Str → World → World × Result (crypto.SessionKey × AuthedDevice)
  unfolding open_bound signature_covers
  nemo_client_auth_open auth allow_unbound now_iso w =
      let device_pub_b64 = crypto.encode auth.device_pub in
      if not (is_device_key_pinned device_pub_b64 w)
      then (w, err (codes "device key is not pinned on this server"))
      else elim (device_key_binding device_pub_b64 w) [
        | none ↦ (w, err (codes "device key vanished from the registry mid-handshake"))
        | some bound ↦
            open_bound auth device_pub_b64
              (device_key_binding_decision bound auth.peer_id allow_unbound
                w.config.claim_unbound_device_keys)
              now_iso w
      ]

  -- How the start of `handle_listener_inner` ends: the connection is closed, or its frames are read,
  -- with its session key and what it proved, if anything.
  pub data Admission : Type 0 where
    closed : Admission
    reading : Option crypto.SessionKey → Option AuthedDevice → Admission

  -- A connection without a proof, under `require_device_key` and the mode.
  abbrev pub unproved : KeyExchangeMode → Option crypto.SessionKey → World → Admission
  unproved mode session w = if w.config.require_device_key then closed else elim session [
    | some sym ↦ reading (some sym) none
    | none ↦ elim mode [ require ↦ closed | offer ↦ reading none none | off ↦ reading none none ]
  ]

  -- The authenticated reply.
  unfoldable pub with_auth : NemoClientAuth → Bool → Str → World → World × Admission
  with_auth auth allow_unbound now_iso w =
      let (w1, opened) = nemo_client_auth_open auth allow_unbound now_iso w in
      (w1, elim opened [ err _ ↦ closed | ok (sym, who) ↦ reading (some sym) (some who) ])

  -- The handshake of a server that has a key, on the client's first frame.
  unfoldable pub handshake : KeyExchangeMode → Reply → Bool → Str → World → World × Admission
  unfolding with_auth key_exchange_open
  handshake mode silence allow_unbound now_iso w = (w, unproved mode none w)
  handshake mode plain allow_unbound now_iso w = (w, unproved mode none w)
  handshake mode (key_exchange keys) allow_unbound now_iso w =
      (w, elim (key_exchange_open keys) [ err _ ↦ closed | ok sym ↦ unproved mode (some sym) w ])
  handshake mode (client_auth auth) allow_unbound now_iso w = with_auth auth allow_unbound now_iso w
  handshake mode (sealed_auth envelope) allow_unbound now_iso w =
      elim (crypto.open_sealed envelope) [
        | err _ ↦ (w, closed)
        | ok auth ↦ with_auth auth allow_unbound now_iso w
      ]

  -- The start of `handle_listener_inner`: `ws` is a websocket, `has_key` a server with a key.
  unfoldable pub admit :
      Bool → KeyExchangeMode → Bool → Reply → Bool → Str → World → World × Admission
  unfolding handshake
  admit true mode has_key reply allow_unbound now_iso w = (w, closed)
  admit false off has_key reply allow_unbound now_iso w = (w, reading none none)
  admit false offer true reply allow_unbound now_iso w =
      handshake offer reply allow_unbound now_iso w
  admit false require true reply allow_unbound now_iso w =
      handshake require reply allow_unbound now_iso w
  admit false offer false reply allow_unbound now_iso w = (w, reading none none)
  admit false require false reply allow_unbound now_iso w = (w, closed)

-- The check of the read loop before each frame: the proved key is still pinned.
unfoldable pub may_go_on : Option AuthedDevice → World → Bool
may_go_on none w = true
may_go_on (some who) w = is_device_key_pinned who.device_pub_b64 w
