-- ===== src/Integration/Tests/Data.antt =====
-- Keys, peers and users that the tests share.
use rustdesk_server_nemo.Base.{true, false, none, [], ◌∷◌, Str, codes}
use rustdesk_server_nemo.Integration.Config.{
  DeviceKey, PendingClaim, Session, Config, World, default_config, empty_permission,
}

abbrev pub key_a : Str
key_a = codes "AbCd+/=="

abbrev pub key_b : Str
key_b = codes "Qr9="

abbrev pub peer_1 : Str
peer_1 = codes "111222"

abbrev pub peer_2 : Str
peer_2 = codes "333444"

abbrev pub noon : Str
noon = codes "12:00"

-- Key a waits for its first use, key b is bound.
abbrev pub device_a : DeviceKey
device_a = record {
  id = codes "AbCd";
  label = codes "desk";
  public_key = key_a;
  created_at = noon;
  peer_id = [];
  claimed_at = [];
}

abbrev pub device_b : DeviceKey
device_b = record {
  id = codes "Qr9";
  label = codes "lab";
  public_key = key_b;
  created_at = noon;
  peer_id = peer_2;
  claimed_at = noon;
}

-- Peer 1 asks for key a.
abbrev pub asking : PendingClaim
asking = record {
  key_id = codes "AbCd";
  public_key = key_a;
  peer_id = peer_1;
  first_seen = noon;
  last_seen = noon;
  attempts = 1;
  via = codes "tcp";
  denied = false;
}

abbrev pub session_of : Str → Str → Session
session_of user pk = record {
  username = user;
  display_name = user;
  email = [];
  device_key_pub = pk;
  expires_at = 1000;
}

abbrev pub ann : Str
ann = codes "ann"

-- No session, and both keys pinned.
abbrev pub config : Config
config = record default_config {
  device_keys = device_a ∷ device_b ∷ [];
  pending_device_key_claims = asking ∷ [];
  permissions = (ann, empty_permission) ∷ [];
}

abbrev pub world : World
world = record {
  config = config;
  saved = config;
  sessions = (codes "token", session_of ann key_b) ∷ [];
  saved_sessions = none;
  ab_version = 0;
  disk_ok = true;
}
