-- ===== src/Rendezvous/Tests/Data.antt =====
-- A server, its peers and the packages under it, for the tests (src/rendezvous_server.rs).
use rustdesk_server_nemo.Base.{ℕ, true, false, none, some, [], ◌∷◌, Str, codes}
use rustdesk_server_nemo.Integration.Tests.Data.{world}
use rustdesk_server_nemo.Management.Policy.{PolicyText}
use rustdesk_server_nemo.Peers.{Peer, put}
use rustdesk_server_nemo.Peers.Tests.{json, db}
use rustdesk_server_nemo.Relay.Tests.{toy}
use rustdesk_server_nemo.Rendezvous.Net.{Ip, v4, v6, Addr}
use rustdesk_server_nemo.Rendezvous.State.{
  Outside, Inner, Hbbs, AuthedDevice, RelayResponse, RequestRelay,
}

-- An address in a frame: its number and its port.
abbrev number_of : Ip → ℕ
number_of (v4 a) = a
number_of (v6 a) = a

abbrev addr_of_frame : Str → Addr
addr_of_frame [] = record { ip = v4 0; port = 0 }
addr_of_frame (a ∷ []) = record { ip = v4 a; port = 0 }
addr_of_frame (a ∷ port ∷ s) = record { ip = v4 a; port = port }

abbrev pub text : PolicyText
text = record { from_str = λ s. none; is_library_key = λ s. false }

abbrev pub out : Outside
out = record {
  scheme = toy;
  json = json;
  try_into_v4 = λ a. a;
  encode_addr = λ a. number_of a.ip ∷ a.port ∷ [];
  decode_addr = addr_of_frame;
  ip_to_string = λ ip. number_of ip ∷ [];
  decode = λ s. some s;
  to_lowercase = λ s. s;
  policy_text = text;
  permission_index = λ p. 0;
  Mask = Unit;
  contains = λ m a. false;
  to_ipv4 = λ a. none;
  relay_session_label = λ s. s;
  sign_id_pk = λ id pk sk. pk;
}

-- A target that is in memory, and the controller's address.
abbrev pub target : Str
target = codes "555666"

abbrev pub target_peer : Peer
target_peer = record {
  socket_addr = record { ip = v4 9; port = 1009 };
  last_reg_time = 5000000;
  guid = codes "g9";
  uuid = codes "u9";
  pk = codes "k9";
  ip = 9 ∷ [];
  status = some 1;
  reg_pk = (0, 5000000);
}

abbrev pub controller_addr : Addr
controller_addr = record { ip = v4 7; port = 1007 }

abbrev pub inner : Inner out
inner = record {
  serial = 0;
  version = codes "1";
  software_url = [];
  mask = none;
  local_ip = [];
  sk = some 7;
}

abbrev pub server : Hbbs out
server = record {
  pm = record { map = put target target_peer (λ id. none); db = db };
  world = world;
  tcp_punch = λ a. none;
  pending_relay = λ a. none;
  tcp_peers = λ id. none;
  open_push = λ c. true;
  relay_servers = codes "relay" ∷ [];
  relay_servers0 = codes "relay" ∷ [];
  rotation = 0;
  rendezvous_servers = [];
  inner = inner;
  always_use_relay = false;
  udp_registration = false;
  company_only = false;
  punch_reqs = [];
  ip_blocker = λ ip. none;
  ip_changes = λ id. none;
  records = [];
  sent = [];
}

-- The controller is a free peer of the table, and names itself.
abbrev pub asks : RequestRelay
asks = record {
  id = target;
  uuid = [];
  socket_addr = [];
  relay_server = [];
  secure = true;
  licence_key = [];
  nemo_source = some (record { id = codes "333444"; uuid = codes "u1"; token = [] });
  control_permissions = none;
}

abbrev pub answers : RelayResponse
answers = record {
  socket_addr = 7 ∷ 1007 ∷ [];
  uuid = [];
  relay_server = codes "relay";
  id = target;
  pk = [];
  version = codes "1";
  refuse_reason = [];
}

abbrev pub target_device : AuthedDevice
target_device = record { device_pub_b64 = codes "Qr9="; peer_id = target }
