-- ===== src/Rendezvous/Tests/Handshakes.antt =====
-- Handshakes (src/rendezvous_server.rs, `nemo_client_auth_open` and `handle_listener_inner`).
use rustdesk_server_nemo.Base.{
  ◌≡◌, ◌≢◌, refl, true, false, none, some, [], ◌++◌, Str, codes, str_eq, trim, is_whitespace, find,
  any, ok, err,
}
use rustdesk_server_nemo.Integration.Config.{World, default_config}
use rustdesk_server_nemo.Integration.DeviceKeys.{
  is_device_key_pinned, device_key_binding, device_key_binding_decision,
}
use rustdesk_server_nemo.Integration.Tests.Data.{key_b, peer_2, noon, world}
use rustdesk_server_nemo.Rendezvous.State.{AuthedDevice}
use rustdesk_server_nemo.Rendezvous.Handshake.{
  off, offer, require, NemoClientAuth, client_auth, plain, Crypto, signature_covers, open_bound,
  nemo_client_auth_open, closed, reading, with_auth, handshake, admit,
}
use rustdesk_server_nemo.Rendezvous.Handshake.Admitted.{Carries, IsProved, admit-IsProved}

-- A signature is the text that it signs.
abbrev crypto : Crypto
crypto = record {
  SessionKey = Str;
  PublicKey = Str;
  decode_session = λ sealed box. ok sealed;
  open_sealed = λ envelope. err [];
  encode = λ key. key;
  from_slice = λ key. some key;
  verify = λ sig key. some sig;
  payload = λ box sealed id. box ++ (sealed ++ id);
}

-- Key b is bound to peer 2, which signs in.
abbrev auth : NemoClientAuth
auth = record {
  device_pub = key_b;
  client_box_pk = codes "box";
  sealed_key = codes "sealed";
  peer_id = peer_2;
  sig = codes "box" ++ (codes "sealed" ++ peer_2);
}

abbrev who : AuthedDevice
who = record { device_pub_b64 = key_b; peer_id = peer_2 }

abbrev strict : World
strict = record world { config = record (world.config) { require_device_key = true } }

open_run : (nemo_client_auth_open crypto auth false noon strict).1 ≡ ok (codes "sealed", who)
unfolding nemo_client_auth_open open_bound signature_covers is_device_key_pinned device_key_binding
    device_key_binding_decision default_config find any str_eq trim is_whitespace
open_run = refl

require_not_off : require ≢ off
require_not_off e = absurd (cc)

admit_run :
    (admit crypto false require true (client_auth auth) false noon strict).1
    ≡ reading (some (codes "sealed")) (some who)
unfolding admit handshake with_auth nemo_client_auth_open open_bound signature_covers
    is_device_key_pinned device_key_binding device_key_binding_decision default_config find any
    str_eq trim is_whitespace
admit_run = refl

admit-IsProved_example :
    (false ≡ false)
    × ((sent : NemoClientAuth) × Carries crypto (client_auth auth) sent
        × IsProved crypto sent false strict (some (codes "sealed")) (some who))
admit-IsProved_example =
    admit-IsProved crypto false require (client_auth auth) false noon strict (some (codes "sealed"))
      (some who) refl require_not_off admit_run

-- A server without a key reads every frame in the mode offer, also under `require_device_key`.
keyless_run : (admit crypto false offer false plain false noon strict).1 ≡ reading none none
unfolding admit
keyless_run = refl

plain_run : (admit crypto false require true plain false noon strict).1 ≡ closed
unfolding admit handshake
plain_run = refl
