-- ===== src/Integration/DeviceKeys.antt =====
-- Provisioned device keys (src/nemo_integration.rs): ids, pinning, the binding rule and the
-- operations that write a binding.
pub mod Binding
pub mod Ids
pub mod Revocation
use rustdesk_server_nemo.Base.{
  ℕ, zero, suc, ◌+◌, min, Bool, true, false, not, ◌&&◌, ◌||◌, Option, none, some, List, [], ◌∷◌,
  ◌++◌, length, retain, find, any, all, count, update_first, remove_first, take, Str, codes, str_eq,
  is_empty, str_mem, is_whitespace, is_ascii_alphanumeric, byte_len, trim, leb, ltb, ◌==◌,
  if◌then◌else◌, Result, ok, err,
}
use rustdesk_server_nemo.Integration.Config.{
  DeviceKey, PendingClaim, Session, Config, World, persist, persist_sessions, set_config,
}

-- The letters and digits of a public key: `device_key_id_for`'s `alnum`.
abbrev pub alnum_of : Str → Str
alnum_of public_key = retain is_ascii_alphanumeric public_key

-- Another key already has this id.
abbrev pub collides : List DeviceKey → Str → Str → Bool
collides existing public_key candidate =
    any (λ (k : DeviceKey). str_eq k.id candidate && not (str_eq k.public_key public_key)) existing

-- The `loop` of `device_key_id_for`; `none` means that the fuel ran out.
unfoldable pub id_loop : ℕ → List DeviceKey → Str → ℕ → Option Str
id_loop zero existing public_key len = none
id_loop (suc fuel) existing public_key len =
    let longer = id_loop fuel existing public_key (min (len + 4) (length (alnum_of public_key))) in
    let candidate = take len (alnum_of public_key) in
    if not (collides existing public_key candidate) || leb (length (alnum_of public_key)) len
    then some candidate
    else longer

-- `device_key_id_for`. The loop has one round for each character, which is enough.
unfoldable pub device_key_id_for : Str → List DeviceKey → Str
unfolding id_loop
device_key_id_for public_key existing =
    let alnum = alnum_of public_key in
    if is_empty alnum
    then []
    else elim (id_loop (suc (length alnum)) existing public_key (min 16 (length alnum))) [
      | none ↦ []
      | some id ↦ id
    ]

-- `normalize_peer_id`.
unfoldable pub normalize_peer_id : Str → Str
normalize_peer_id = retain (λ c. not (is_whitespace c))

abbrev pub is_peer_id_char : ℕ → Bool
is_peer_id_char c = is_ascii_alphanumeric c || ((c == b'-') || (c == b'_'))

-- `valid_peer_id`.
unfoldable pub valid_peer_id : Str → Bool
valid_peer_id raw =
    let id = trim raw in leb 6 (byte_len id) && (leb (byte_len id) 64 && all is_peer_id_char id)

-- `add_device_key`.
unfoldable pub add_device_key : Str → Str → Str → Str → World → World × DeviceKey
add_device_key label public_key created_at peer_id w =
    let id = device_key_id_for public_key w.config.device_keys in
    let dk : DeviceKey = record {
      id = id;
      label = label;
      public_key = public_key;
      created_at = created_at;
      peer_id = normalize_peer_id peer_id;
      claimed_at = [];
    } in
    let kept =
      retain (λ (k : DeviceKey). not (str_eq k.public_key public_key) && not (str_eq k.id id))
        w.config.device_keys in
    (persist (set_config w (record (w.config) { device_keys = kept ++ (dk ∷ []) })), dk)

-- `remove_device_key`: with the key go its pending claims and the sessions that it proved.
unfoldable pub remove_device_key : Str → World → World × Option DeviceKey
remove_device_key id w = elim (find (λ (k : DeviceKey). str_eq k.id id) w.config.device_keys) [
  | none ↦ (w, none)
  | some removed ↦
      let w1 = persist (
        set_config w (record (w.config) {
          device_keys = remove_first (λ (k : DeviceKey). str_eq k.id id) w.config.device_keys;
          pending_device_key_claims =
              retain (λ (c : PendingClaim). not (str_eq c.public_key removed.public_key))
                w.config.pending_device_key_claims;
        })) in
      let kept =
        retain (λ (e : Str × Session). not (str_eq e.1.device_key_pub removed.public_key))
          w1.sessions in
      let w2 = record w1 { sessions = kept } in
      (if length kept == length w1.sessions then w2 else persist_sessions w2, some removed)
]

-- The loop of `peer_ids_for_device_keys`.
unfoldable pub peer_ids_from : List Str → List DeviceKey → List Str → List Str
peer_ids_from keys [] out = out
peer_ids_from keys (k ∷ ks) out = peer_ids_from keys ks (
    if not (is_empty k.peer_id) && (str_mem k.public_key keys && not (str_mem k.peer_id out))
    then out ++ (k.peer_id ∷ [])
    else out)

-- `peer_ids_for_device_keys`.
unfoldable pub peer_ids_for_device_keys : List Str → World → List Str
unfolding peer_ids_from
peer_ids_for_device_keys keys w = peer_ids_from keys w.config.device_keys []

-- The test by which a key is found.
abbrev pub has_public_key : Str → DeviceKey → Bool
has_public_key pk k = str_eq k.public_key pk

-- `is_device_key_pinned`.
unfoldable pub is_device_key_pinned : Str → World → Bool
is_device_key_pinned public_key w =
    let pk = trim public_key in not (is_empty pk) && any (has_public_key pk) w.config.device_keys

-- `device_key_binding`: `none` is a key that is not pinned, `some []` one that is not bound.
unfoldable pub device_key_binding : Str → World → Option Str
device_key_binding public_key w =
    let pk = trim public_key in
    if is_empty pk then none else elim (find (has_public_key pk) w.config.device_keys) [
      | none ↦ none
      | some k ↦ some k.peer_id
    ]

-- `BindingDecision`.
pub data BindingDecision : Type 0 where
  proven claim_on_proof : BindingDecision
  refused : Str → BindingDecision

-- `device_key_binding_decision`.
unfoldable pub device_key_binding_decision : Str → Str → Bool → Bool → BindingDecision
device_key_binding_decision bound claimed allow_unbound claim_enabled =
    if not (is_empty bound)
    then (if str_eq bound claimed
        then proven
        else refused (
            codes "device key is bound to peer "
            ++ (bound ++ (codes " but the client claims " ++ claimed))))
    else if allow_unbound
    then proven
    else if claim_enabled
    then (if is_empty (trim claimed)
        then refused (codes "device key has no peer-id binding and the client claims no id")
        else claim_on_proof)
    else refused (
        codes "device key has no peer-id binding (client claims "
        ++ (claimed
            ++ codes
                "); bind it, enable first-use claiming, or pass --allow-unbound-device-keys Y"))

-- `claim_device_key_in`: the answer, and the keys after it.
unfoldable pub claim_device_key_in :
    List DeviceKey → Str → Str → Str → Result (Bool × List DeviceKey)
claim_device_key_in keys public_key raw_peer_id claimed_at =
    let pk = trim public_key in
    let peer_id = trim raw_peer_id in
    if is_empty peer_id
    then err (codes "cannot claim a device key for an empty peer id")
    else elim (find (has_public_key pk) keys) [
      | none ↦ err (codes "device key is no longer pinned on this server")
      | some key ↦
          if str_eq key.peer_id peer_id
          then ok (false, keys)
          else if not (is_empty key.peer_id)
          then err (
              codes "device key was claimed by peer "
              ++ (key.peer_id ++ (codes " first; " ++ (peer_id ++ codes " is refused"))))
          else ok (
            true,
            update_first (has_public_key pk)
                (λ (k : DeviceKey). record k { peer_id = peer_id; claimed_at = claimed_at }) keys,
          )
    ]

-- `set_device_key_peer_id_in` after its first line, on the id less its whitespace.
unfoldable pub bind_key_in : List DeviceKey → Str → Str → Result (DeviceKey × List DeviceKey)
bind_key_in keys id peer_id =
    let rebind = λ (k : DeviceKey). record k { peer_id = peer_id; claimed_at = [] } in
    if not (is_empty peer_id) && not (valid_peer_id peer_id)
    then err (
        codes
          "not a TBFDesk id: use 6-64 characters, letters, digits, '-' or '_' (empty clears the binding)")
    else elim (find (λ (k : DeviceKey). str_eq k.id id) keys) [
      | none ↦ err (codes "no such device key")
      | some k ↦ ok (rebind k, update_first (λ (j : DeviceKey). str_eq j.id id) rebind keys)
    ]

-- `set_device_key_peer_id_in`: the key as written, and the keys after it.
unfoldable pub set_device_key_peer_id_in :
    List DeviceKey → Str → Str → Result (DeviceKey × List DeviceKey)
set_device_key_peer_id_in keys id raw = bind_key_in keys id (normalize_peer_id raw)

-- `set_device_key_peer_id`.
unfoldable pub set_device_key_peer_id : Str → Str → World → World × Result DeviceKey
set_device_key_peer_id id peer_id w =
    elim (set_device_key_peer_id_in w.config.device_keys id peer_id) [
      | err e ↦ (w, err e)
      | ok (updated, keys) ↦ (
        persist (
            set_config w (record (w.config) {
              device_keys = keys;
              pending_device_key_claims =
                  retain (λ (c : PendingClaim). not (str_eq c.public_key updated.public_key))
                    w.config.pending_device_key_claims;
            })),
        ok updated,
      )
    ]

-- `device_key_for_peer`.
unfoldable pub device_key_for_peer : Str → World → Option DeviceKey
device_key_for_peer raw w =
    let peer_id = trim raw in
    if is_empty peer_id
    then none
    else find (λ (k : DeviceKey). str_eq k.peer_id peer_id) w.config.device_keys

-- `set_claim_unbound_device_keys`.
unfoldable pub set_claim_unbound_device_keys : Bool → World → World
set_claim_unbound_device_keys v w =
    persist (set_config w (record (w.config) { claim_unbound_device_keys = v }))

-- `unclaimed_device_key_count`.
unfoldable pub unclaimed_device_key_count : World → ℕ
unclaimed_device_key_count w = count (λ (k : DeviceKey). is_empty k.peer_id) w.config.device_keys
