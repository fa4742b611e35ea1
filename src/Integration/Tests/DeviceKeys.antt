-- ===== src/Integration/Tests/DeviceKeys.antt =====
-- Device keys: ids, bindings, claims and removals.
use rustdesk_server_nemo.Base.{
  ◌≡◌, refl, ◌≢◌, true, false, some, List, [], ◌∷◌, find, count, remove_first, Str, codes, str_eq,
  trim, retain, any, update_first, is_whitespace, is_ascii_alphanumeric, byte_len, take, all,
  if◌then◌else◌, ok, err, arith,
}
use rustdesk_server_nemo.Integration.Config.{DeviceKey, World}
use rustdesk_server_nemo.Integration.DeviceKeys.{
  has_public_key, alnum_of, claim_device_key_in, device_key_id_for, add_device_key,
  remove_device_key, set_device_key_peer_id, set_device_key_peer_id_in, bind_key_in,
  normalize_peer_id, valid_peer_id,
}
use rustdesk_server_nemo.Integration.DeviceKeys.Binding.{claim-race}
use rustdesk_server_nemo.Integration.DeviceKeys.Ids.{
  IsIdFor, device_key_id_for-IsIdFor, add_device_key-keeps,
}
use rustdesk_server_nemo.Integration.DeviceKeys.Revocation.{
  proved_by, asks_for, remove_device_key-revokes,
}
use rustdesk_server_nemo.Integration.Tests.Data.{
  key_a, key_b, peer_1, peer_2, noon, device_a, device_b, world,
}

abbrev keys : List DeviceKey
keys = device_a ∷ device_b ∷ []

abbrev claimed_a : DeviceKey
claimed_a = record device_a { peer_id = peer_1; claimed_at = codes "13:00" }

abbrev claimed : List DeviceKey
claimed = claimed_a ∷ device_b ∷ []

claim_run : claim_device_key_in keys key_a peer_1 (codes "13:00") ≡ ok (true, claimed)
unfolding claim_device_key_in find update_first str_eq trim is_whitespace
claim_run = refl

-- Claiming again is idempotent.
claim_again : claim_device_key_in claimed key_a peer_1 noon ≡ ok (false, claimed)
unfolding claim_device_key_in find str_eq trim is_whitespace
claim_again = refl

keys_differ : key_b ≢ trim key_a
unfolding trim is_whitespace
keys_differ e = ground arith

peers_differ : trim peer_1 ≢ trim peer_2
unfolding trim is_whitespace
peers_differ e = ground arith

claim-race_example : (e : Str) × (claim_device_key_in claimed key_a peer_2 noon ≡ err e)
claim-race_example =
    claim-race keys key_a peer_1 peer_2 (codes "13:00") noon true claimed claim_run peers_differ

-- Four letters and digits are short of sixteen, so the id is all of them.
id_run : device_key_id_for key_a [] ≡ codes "AbCd"
unfolding device_key_id_for retain is_ascii_alphanumeric take any
id_run = refl

device_key_id_for-IsIdFor_example : IsIdFor keys key_b (device_key_id_for key_b keys)
device_key_id_for-IsIdFor_example = device_key_id_for-IsIdFor keys key_b

abbrev key_c : Str
key_c = codes "Zz"

find_b : find (has_public_key key_b) world.config.device_keys ≡ some device_b
unfolding find str_eq
find_b = refl

not_c : key_b ≢ key_c
not_c e = ground arith

other_id : device_b.id ≢ alnum_of key_c
unfolding retain is_ascii_alphanumeric
other_id e = ground arith

add_device_key-keeps_example :
    find (has_public_key key_b) (add_device_key [] key_c noon peer_1 world).0.config.device_keys
    ≡ some device_b
add_device_key-keeps_example =
    add_device_key-keeps [] key_c noon peer_1 world key_b device_b not_c find_b other_id

abbrev without_b : World
without_b = (remove_device_key (codes "Qr9") world).0

remove_run : remove_device_key (codes "Qr9") world ≡ (without_b, some device_b)
unfolding remove_device_key find str_eq
remove_run = refl

remove_device_key-revokes_example :
    (find (λ (j : DeviceKey). str_eq j.id (codes "Qr9")) world.config.device_keys ≡ some device_b)
    × (without_b.config.device_keys
        ≡ remove_first (λ (j : DeviceKey). str_eq j.id (codes "Qr9")) world.config.device_keys)
    × (count (proved_by key_b) without_b.sessions
        ≡ (if str_eq key_b key_b then 0 else count (proved_by key_b) world.sessions))
    × (count (asks_for key_b) without_b.config.pending_device_key_claims ≡ (
        if str_eq key_b key_b
        then 0
        else count (asks_for key_b) world.config.pending_device_key_claims))
remove_device_key-revokes_example =
    remove_device_key-revokes (codes "Qr9") world without_b device_b key_b remove_run

-- The client shows its id in groups of three.
abbrev grouped : Str
grouped = codes "111 222"

abbrev bound_a : DeviceKey
bound_a = record device_a { peer_id = peer_1 }

abbrev with_a : World
with_a = (set_device_key_peer_id (codes "AbCd") grouped world).0

bind_run : set_device_key_peer_id (codes "AbCd") grouped world ≡ (with_a, ok bound_a)
unfolding set_device_key_peer_id set_device_key_peer_id_in bind_key_in normalize_peer_id
    valid_peer_id find update_first str_eq retain trim is_whitespace is_ascii_alphanumeric all
    byte_len
bind_run = refl
