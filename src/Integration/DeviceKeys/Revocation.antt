-- ===== src/Integration/DeviceKeys/Revocation.antt =====
-- What goes with a device key that is removed, and what an operator's own binding settles.
use rustdesk_server_nemo.Base.{
  ◌≡◌, refl, sym, ap, subst, ◌∙◌, ◌⊎◌, inl, inr, Bool, true, not, some, List, [], ◌∷◌, length, find,
  retain, count, update_first, remove_first, Str, str_eq, str_eq_iff, is_whitespace, arith,
  if◌then◌else◌, Option-cases, ok, count-retain_self, retain-retain, find-update_first_self,
}
use rustdesk_server_nemo.Integration.Config.{DeviceKey, PendingClaim, Session, World}
use rustdesk_server_nemo.Integration.DeviceKeys.{
  remove_device_key, set_device_key_peer_id, set_device_key_peer_id_in, bind_key_in,
  normalize_peer_id, valid_peer_id,
}

-- A session that a device key proved, and a request of that key.
abbrev pub proved_by : Str → Str × Session → Bool
proved_by pk e = str_eq e.1.device_key_pub pk

abbrev pub asks_for : Str → PendingClaim → Bool
asks_for pk c = str_eq c.public_key pk

-- What is left of one key's entries when those of another are taken out.
count-without :
    {A : Type 0} (pk q : Str) (xs : List A) (key : A → Str)
    → count (λ x. str_eq (key x) q) (retain (λ x. not (str_eq (key x) pk)) xs)
      ≡ (if str_eq pk q then 0 else count (λ x. str_eq (key x) q) xs)
unfolding count retain
count-without pk q [] key = ground arith
count-without pk q (x ∷ xs) key =
    ground (
      arith,
      str_eq_iff pk q,
      str_eq_iff (key x) pk,
      str_eq_iff (key x) q,
      count-without pk q xs key,
    )

-- What a removal wrote.
abbrev Removed : Str → World → World → DeviceKey → Type 0
Removed id w w' k =
    (find (λ (j : DeviceKey). str_eq j.id id) w.config.device_keys ≡ some k)
    × (w'.config.device_keys
        ≡ remove_first (λ (j : DeviceKey). str_eq j.id id) w.config.device_keys)
    × (w'.sessions ≡ retain (λ e. not (proved_by k.public_key e)) w.sessions)
    × (w'.config.pending_device_key_claims
        ≡ retain (λ c. not (asks_for k.public_key c)) w.config.pending_device_key_claims)

remove-inv :
    (id : Str) (w w' : World) (k : DeviceKey)
    → remove_device_key id w ≡ (w', some k)
    → Removed id w w' k
unfolding remove_device_key
remove-inv id w w' k h =
    elim (Option-cases (find (λ (j : DeviceKey). str_eq j.id id) w.config.device_keys)) [
      | inl absent ↦ absurd (ground arith)
      | inr (j, found) ↦
          let same : j ≡ k = ground arith in
          subst (Removed id w w') same (found, ground arith, ground arith, ground arith)
    ]

-- Removing a key ends every session that it proved and drops every request for it, and touches the
-- sessions and requests of no other key.
pub remove_device_key-revokes :
    (id : Str) (w w' : World) (k : DeviceKey) (q : Str)
    → remove_device_key id w ≡ (w', some k)
    → (find (λ (j : DeviceKey). str_eq j.id id) w.config.device_keys ≡ some k)
      × (w'.config.device_keys
          ≡ remove_first (λ (j : DeviceKey). str_eq j.id id) w.config.device_keys)
      × (count (proved_by q) w'.sessions
          ≡ (if str_eq k.public_key q then 0 else count (proved_by q) w.sessions))
      × (count (asks_for q) w'.config.pending_device_key_claims ≡ (
          if str_eq k.public_key q
          then 0
          else count (asks_for q) w.config.pending_device_key_claims))
remove_device_key-revokes id w w' k q h =
    let (found, keys, sessions, claims) = remove-inv id w w' k h in
    (
      found,
      keys,
      rw sessions
          (count-without k.public_key q w.sessions (λ (e : Str × Session). e.1.device_key_pub)),
      rw claims (
          count-without k.public_key q w.config.pending_device_key_claims
            (λ (c : PendingClaim). c.public_key)),
    )

-- The write of `set_device_key_peer_id_in`.
abbrev bind_by_hand : Str → DeviceKey → DeviceKey
bind_by_hand raw k = record k { peer_id = normalize_peer_id raw; claimed_at = [] }

-- What a successful hand-written binding went through.
set-inv :
    (id raw : Str) (w w' : World) (k : DeviceKey)
    → set_device_key_peer_id id raw w ≡ (w', ok k)
    → (j : DeviceKey) × (find (λ (x : DeviceKey). str_eq x.id id) w.config.device_keys ≡ some j)
      × (bind_by_hand raw j ≡ k)
      × ((normalize_peer_id raw ≡ []) ⊎ (valid_peer_id (normalize_peer_id raw) ≡ true))
      × (w'.config.device_keys
          ≡ update_first
              (λ (x : DeviceKey). str_eq x.id id)
              (bind_by_hand raw)
              w.config.device_keys)
      × (w'.config.pending_device_key_claims
          ≡ retain (λ c. not (asks_for k.public_key c)) w.config.pending_device_key_claims)
unfolding set_device_key_peer_id set_device_key_peer_id_in bind_key_in
set-inv id raw w w' k h =
    elim (Option-cases (find (λ (x : DeviceKey). str_eq x.id id) w.config.device_keys)) [
      | inl absent ↦ absurd (ground arith)
      | inr (j, found) ↦
          let same : bind_by_hand raw j ≡ k = ground arith in
          let dropped : w'.config.pending_device_key_claims
              ≡ retain (λ c. not (asks_for (bind_by_hand raw j).public_key c))
                  w.config.pending_device_key_claims =
            ground arith in
          (
            j,
            found,
            same,
            ground arith,
            ground arith,
            subst
                (λ (x : DeviceKey).
                  w'.config.pending_device_key_claims
                  ≡ retain (λ c. not (asks_for x.public_key c)) w.config.pending_device_key_claims)
                same dropped,
          )
    ]

normalize-normalize :
    (raw : Str) → normalize_peer_id (normalize_peer_id raw) ≡ normalize_peer_id raw
unfolding normalize_peer_id
normalize-normalize raw = retain-retain (λ c. not (is_whitespace c)) raw

-- Both files on disk follow the removal when the file system accepts the writes: the configuration
-- always, the sessions when one of them went.
pub remove_device_key-saved :
    (id : Str) (w w' : World) (k : DeviceKey)
    → remove_device_key id w ≡ (w', some k)
    → w.disk_ok ≡ true
    → (w'.saved ≡ w'.config)
      × ((w'.saved_sessions ≡ some w'.sessions)
          ⊎ ((w'.saved_sessions ≡ w.saved_sessions) × (length w'.sessions ≡ length w.sessions)))
unfolding remove_device_key
remove_device_key-saved id w w' k h disk =
    elim (Option-cases (find (λ (j : DeviceKey). str_eq j.id id) w.config.device_keys)) [
      | inl absent ↦ absurd (ground arith)
      | inr (j, found) ↦ ground arith
    ]

-- Binding a key by hand: the key with that id takes the id as typed less its whitespace, which is
-- empty or a valid peer id; its claim stamp is cleared, and no request for it is left.
pub set_device_key_peer_id-binds :
    (id raw : Str) (w w' : World) (k : DeviceKey)
    → set_device_key_peer_id id raw w ≡ (w', ok k)
    → (k.peer_id ≡ normalize_peer_id raw)
      × ((k.peer_id ≡ []) ⊎ (valid_peer_id k.peer_id ≡ true))
      × (k.claimed_at ≡ [])
      × (find (λ (j : DeviceKey). str_eq j.id id) w'.config.device_keys ≡ some k)
      × (count (asks_for k.public_key) w'.config.pending_device_key_claims ≡ 0)
set_device_key_peer_id-binds id raw w w' k h =
    let (j, found, same, shape, keys, claims) = set-inv id raw w w' k h in
    (
      ap (λ (x : DeviceKey). x.peer_id) (sym same),
      subst (λ (x : DeviceKey). (x.peer_id ≡ []) ⊎ (valid_peer_id x.peer_id ≡ true)) same shape,
      ap (λ (x : DeviceKey). x.claimed_at) (sym same),
      rw keys (
          find-update_first_self (λ (x : DeviceKey). str_eq x.id id) (bind_by_hand raw)
            w.config.device_keys j (λ y. refl) found
          ∙ ap some same),
      rw claims (count-retain_self (asks_for k.public_key) w.config.pending_device_key_claims),
    )

-- The grouped form that the client displays means the same id as the plain one.
pub set_device_key_peer_id-grouped :
    (id raw : Str) (w : World)
    → set_device_key_peer_id id raw w ≡ set_device_key_peer_id id (normalize_peer_id raw) w
unfolding set_device_key_peer_id set_device_key_peer_id_in
set_device_key_peer_id-grouped id raw w =
    rw (set_device_key_peer_id, set_device_key_peer_id_in, normalize-normalize raw)
