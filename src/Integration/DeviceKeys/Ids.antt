-- ===== src/Integration/DeviceKeys/Ids.antt =====
-- The ids of device keys: the search for one ends, and a new key takes no other key's place.
use rustdesk_server_nemo.Base.{
  ℕ, zero, suc, ◌+◌, ◌≤◌, ◌<◌, min, ◌≡◌, refl, sym, ap, ◌∙◌, ◌≢◌, ◌⊎◌, inl, inr, true, false, not,
  ◌&&◌, none, some, List, [], ◌∷◌, length, take, find, retain, Str, str_eq, str_eq_iff, is_empty,
  arith, leb, leb→le, Bool-cases, find-append, find-retain_found, any_of_found, find-holds,
  find-retain-none, str_eq_refl,
}
use rustdesk_server_nemo.Integration.Config.{DeviceKey, World, config-persist}
use rustdesk_server_nemo.Integration.DeviceKeys.{
  alnum_of, collides, id_loop, device_key_id_for, add_device_key, has_public_key, normalize_peer_id,
}
use rustdesk_server_nemo.Integration.DeviceKeys.Binding.{has_public_key-apart}

take_all : {A : Type 0} (n : ℕ) (xs : List A) → length xs ≤ n → take n xs ≡ xs
take_all zero [] h = refl
take_all zero (x ∷ xs) h = absurd (omega arith)
take_all (suc n) [] h = refl
take_all (suc n) (x ∷ xs) h = ap (◌∷◌ x) (take_all n xs (omega arith))

-- The id is a prefix of the letters and digits, and free unless it is all of them.
abbrev pub IsIdFor : List DeviceKey → Str → Str → Type 0
IsIdFor existing public_key id =
    (n : ℕ) × (id ≡ take n (alnum_of public_key))
    × ((collides existing public_key id ≡ false) ⊎ (id ≡ alnum_of public_key))

empty_lem : (s : Str) → is_empty s ≡ true → s ≡ []
empty_lem [] h = refl
empty_lem (c ∷ s) h = absurd (cc)

module _ (existing : List DeviceKey) (public_key : Str) where
  id_loop-total :
      (fuel len : ℕ)
      → len ≤ length (alnum_of public_key)
      → length (alnum_of public_key) < len + fuel
      → (id : Str) × (id_loop fuel existing public_key len ≡ some id)
        × IsIdFor existing public_key id
  unfolding id_loop
  id_loop-total zero len le h = absurd (omega arith)
  id_loop-total (suc fuel) len le h =
      elim (Bool-cases (collides existing public_key (take len (alnum_of public_key)))) [
        | inr free ↦ (take len (alnum_of public_key), rw free, (len, refl, inl free))
        | inl taken ↦ elim (Bool-cases (leb (length (alnum_of public_key)) len)) [
          | inl whole ↦ (
            take len (alnum_of public_key),
            rw (taken, whole),
            (len, refl, inr (take_all len (alnum_of public_key) (leb→le _ _ whole))),
          )
          | inr more ↦
              let short : len < length (alnum_of public_key) = ground arith in
              let (id, found, shape) =
                id_loop-total fuel (min (len + 4) (length (alnum_of public_key))) (omega arith)
                  (omega arith) in
              (id, rw (taken, more) found, shape)
        ]
      ]

  -- The search for an id ends within its fuel, and its result is a prefix of the key's letters and
  -- digits which no other key has as its id, unless it is all of them.
  pub device_key_id_for-IsIdFor :
      IsIdFor existing public_key (device_key_id_for public_key existing)
  unfolding device_key_id_for
  device_key_id_for-IsIdFor = elim (Bool-cases (is_empty (alnum_of public_key))) [
    | inl e ↦
        let nothing : alnum_of public_key ≡ [] = empty_lem (alnum_of public_key) e in
        rw e (0, refl, inr (sym nothing))
    | inr e ↦
        let (id, found, shape) =
          id_loop-total (suc (length (alnum_of public_key))) (min 16 (length (alnum_of public_key)))
            (omega arith) (omega arith) in
        rw (e, found) shape
  ]

-- A key with another public key and another id than all of `alnum` is not displaced.
kept_lem :
    (keys : List DeviceKey) (public_key q : Str) (k : DeviceKey)
    → q ≢ public_key
    → find (has_public_key q) keys ≡ some k
    → k.id ≢ alnum_of public_key
    → (not (str_eq k.public_key public_key)
        && not (str_eq k.id (device_key_id_for public_key keys)))
      ≡ true
kept_lem keys public_key q k ne found other =
    let id = device_key_id_for public_key keys in
    let (n, prefix, free) = device_key_id_for-IsIdFor keys public_key in
    let is_q : str_eq k.public_key q ≡ true = find-holds (has_public_key q) keys k found in
    let apart : str_eq k.public_key public_key ≡ false =
      has_public_key-apart q public_key k (λ e. ne (sym e)) is_q in
    elim (Bool-cases (str_eq k.id id)) [
      | inr differs ↦ rw (apart, differs)
      | inl same ↦ elim free [
        | inr whole ↦ absurd (other ((str_eq_iff k.id id).0 same ∙ whole))
        | inl unused ↦
            let used =
              any_of_found (has_public_key q)
                (λ (j : DeviceKey). str_eq j.id id && not (str_eq j.public_key public_key)) keys k
                found (rw (same, apart)) in
            absurd (cc (unused, used))
      ]
    ]

-- Pinning a key keeps every other key that is found, as long as its id is not the whole of the new
-- key's letters and digits.
pub add_device_key-keeps :
    (label public_key at peer_id : Str) (w : World) (q : Str) (k : DeviceKey)
    → q ≢ public_key
    → find (has_public_key q) w.config.device_keys ≡ some k
    → k.id ≢ alnum_of public_key
    → find (has_public_key q) (add_device_key label public_key at peer_id w).0.config.device_keys
      ≡ some k
unfolding add_device_key
add_device_key-keeps label public_key at peer_id w q k ne found other =
    let keys = w.config.device_keys in
    let id = device_key_id_for public_key keys in
    let keep = λ (j : DeviceKey). not (str_eq j.public_key public_key) && not (str_eq j.id id) in
    rw (
      config-persist,
      find-append (has_public_key q) (retain keep keys) _,
      find-retain_found (has_public_key q) keep keys k found
          (kept_lem keys public_key q k ne found other),
    )

-- A pinned key is found by its public key as it was just added, bound to the peer id as typed less
-- its whitespace; an earlier entry of the same public key is gone.
pub add_device_key-pins :
    (label public_key at peer_id : Str) (w : World)
    → let (w', dk) = add_device_key label public_key at peer_id w in
      (find (has_public_key public_key) w'.config.device_keys ≡ some dk)
      × (dk.peer_id ≡ normalize_peer_id peer_id)
      × (dk.id ≡ device_key_id_for public_key w.config.device_keys)
unfolding add_device_key find
add_device_key-pins label public_key at peer_id w =
    let keys = w.config.device_keys in
    let id = device_key_id_for public_key keys in
    let keep = λ (j : DeviceKey). not (str_eq j.public_key public_key) && not (str_eq j.id id) in
    let gone : find (has_public_key public_key) (retain keep keys) ≡ none =
      find-retain-none (has_public_key public_key) keep keys (λ y e. ground arith) in
    (
      rw (
        config-persist,
        find-append (has_public_key public_key) (retain keep keys) _,
        gone,
        str_eq_refl public_key,
      ),
      refl,
      refl,
    )
