-- ===== src/Rendezvous/State.antt =====
-- The state of the rendezvous server (src/rendezvous_server.rs, `RendezvousServer` and the tables
-- beside it) and what it takes from other packages. A connection is a number: its sink, its cipher and
-- its push channel go by it.
use rustdesk_server_nemo.Base.{ℕ, Bool, Option, none, some, List, ◌∷◌, Str, Dict, if◌then◌else◌}
use rustdesk_server_nemo.Integration.Config.{World}
use rustdesk_server_nemo.Management.Controller.{NemoSource}
use rustdesk_server_nemo.Management.Policy.{PolicyText}
use rustdesk_server_nemo.Management.Gates.{Permission}
use rustdesk_server_nemo.Peers.{PeerMap, PkResult, Json}
use rustdesk_server_nemo.Relay.Grant.{Scheme}
use rustdesk_server_nemo.Rendezvous.Net.{Ip, Addr, addr_eq}
use rustdesk_server_nemo.Rendezvous.Blocker.{IpBlock}

-- `PunchReqEntry`.
pub record PunchReqEntry : Type 0 where
  pub tm : ℕ
  pub from_ip : Str
  pub to_ip : Str
  pub to_id : Str

-- `PendingRelay`.
pub record PendingRelay : Type 0 where
  pub target_id : Str
  pub source_id : Str
  pub expires : ℕ

-- `AuthedDevice`.
pub record AuthedDevice : Type 0 where
  pub device_pub_b64 : Str
  pub peer_id : Str

-- What the handlers hand to the statistics of the management service, one constructor for each
-- `record_…` function; a negotiation is recorded without the controller's marker.
pub data Record : Type 0 where
  peer_seen : Str → Addr → Record
  policy_rejection : Str → Addr → Str → Record
  register_pk : Str → Addr → Bool → Record
  relay_request : Str → Addr → Bool → Record
  relay_grant : Str → Str → Str → Record
  relay_response : Str → Addr → Str → Record
  punch_response : Str → Addr → Str → ℕ → Record
  local_addr_response : Str → Addr → Str → Record
  connection_negotiation : Str → Addr → Addr → ℕ → Bool → Bool → Str → Record

-- `punch_hole_response::Failure`, as far as the server answers it.
pub data Failure : Type 0 where
  id_not_exist offline license_mismatch : Failure

-- `RequestRelay` and `PunchHoleRequest`, as far as the server reads them.
pub record RequestRelay : Type 0 where
  pub id : Str
  pub uuid : Str
  pub socket_addr : Str
  pub relay_server : Str
  pub secure : Bool
  pub licence_key : Str
  pub nemo_source : Option NemoSource
  pub control_permissions : Option ℕ

pub record PunchHoleRequest : Type 0 where
  pub id : Str
  pub nat_type : ℕ
  pub licence_key : Str
  pub version : Str
  pub nemo_source : Option NemoSource
  pub udp_port : ℕ
  pub upnp_port : ℕ
  pub socket_addr_v6 : Str
  pub force_relay : Bool

-- `RelayResponse`.
pub record RelayResponse : Type 0 where
  pub socket_addr : Str
  pub uuid : Str
  pub relay_server : Str
  pub id : Str
  pub pk : Str
  pub version : Str
  pub refuse_reason : Str

-- `PunchHoleSent` and `LocalAddr`.
pub record PunchHoleSent : Type 0 where
  pub socket_addr : Str
  pub id : Str
  pub relay_server : Str
  pub nat_type : ℕ
  pub version : Str
  pub socket_addr_v6 : Str
  pub upnp_port : ℕ

pub record LocalAddr : Type 0 where
  pub socket_addr : Str
  pub local_addr : Str
  pub relay_server : Str
  pub id : Str
  pub version : Str
  pub socket_addr_v6 : Str

-- `PunchHoleResponse`, an answer that found its peer.
pub record PunchHoleResponse : Type 0 where
  pub socket_addr : Str
  pub pk : Str
  pub relay_server : Str
  pub socket_addr_v6 : Str
  pub upnp_port : ℕ
  pub nat_type : ℕ
  pub is_local : Bool

-- `PunchHole` and `FetchLocalAddr`.
pub record PunchHole : Type 0 where
  pub socket_addr : Str
  pub nat_type : ℕ
  pub relay_server : Str
  pub control_permissions : Option ℕ
  pub udp_port : ℕ
  pub upnp_port : ℕ
  pub socket_addr_v6 : Str
  pub force_relay : Bool

pub record FetchLocalAddr : Type 0 where
  pub socket_addr : Str
  pub relay_server : Str
  pub control_permissions : Option ℕ
  pub socket_addr_v6 : Str

-- `RendezvousMessage`, as far as the server sends it.
pub data Message : Type 0 where
  request_relay : RequestRelay → Message
  relay_answer : RelayResponse → Message
  punch_failure : Failure → Str → Message
  punch_answer : PunchHoleResponse → Message
  punch_hole : PunchHole → Message
  fetch_local_addr : FetchLocalAddr → Message
  register_peer_response : Bool → Message
  register_pk_response : PkResult → Message
  configure_update : ℕ → List Str → Message
  software_answer : Str → Message
  test_nat_response : ℕ → Option (ℕ × List Str) → Message

-- Where a message goes: down a connection, through the push channel of one, or in a datagram.
pub data Sent : Type 0 where
  to_sink to_push : ℕ → Message → Sent
  to_udp : Addr → Message → Sent

-- What other packages and the standard library give: addresses in print and in frames, the lower case,
-- base64, JSON, signatures, the network mask, and the label of a relayed session. `sign_id_pk` signs
-- an `IdPk`.
pub record Outside : Type 1 where
  pub scheme : Scheme
  pub json : Json
  pub try_into_v4 : Addr → Addr
  pub encode_addr : Addr → Str
  pub decode_addr : Str → Addr
  pub ip_to_string : Ip → Str
  pub decode : Str → Option Str
  pub to_lowercase : Str → Str
  pub policy_text : PolicyText
  pub permission_index : Permission → ℕ
  pub Mask : Type 0
  pub contains : Mask → ℕ → Bool
  pub to_ipv4 : ℕ → Option ℕ
  pub relay_session_label : Str → Str
  pub sign_id_pk : Str → Str → scheme.SecretKey → Str

-- `put` and `forget` on a map by addresses.
abbrev pub put_at {ℓ} : {A : Type ℓ} → Addr → A → (Addr → Option A) → Addr → Option A
put_at k a m j = if addr_eq k j then some a else m j

abbrev pub forget_at {ℓ} : {A : Type ℓ} → Addr → (Addr → Option A) → Addr → Option A
forget_at k m j = if addr_eq k j then none else m j

module _ (out : Outside) where
  -- `Inner`.
  pub record Inner : Type 0 where
    pub serial : ℕ
    pub version : Str
    pub software_url : Str
    pub mask : Option out.Mask
    pub local_ip : Str
    pub sk : Option out.scheme.SecretKey

  -- `RendezvousServer`, `PUNCH_REQS`, `IP_BLOCKER`, `IP_CHANGES`, `ALWAYS_USE_RELAY`,
  -- `UDP_REGISTRATION`, `ROTATION_RELAY_SERVER`, `COMPANY_ONLY`, the state of the integration, the
  -- records for the statistics and what was sent, both newest first. `open_push` says whose push
  -- channel still has its receiver.
  pub record Hbbs : Type 0 where
    pub pm : PeerMap
    pub world : World
    pub tcp_punch : Addr → Option ℕ
    pub pending_relay : Addr → Option PendingRelay
    pub tcp_peers : Str → Option ℕ
    pub open_push : ℕ → Bool
    pub relay_servers : List Str
    pub relay_servers0 : List Str
    pub rotation : ℕ
    pub rendezvous_servers : List Str
    pub inner : Inner
    pub always_use_relay : Bool
    pub udp_registration : Bool
    pub company_only : Bool
    pub punch_reqs : List PunchReqEntry
    pub ip_blocker : Str → Option IpBlock
    pub ip_changes : Str → Option (ℕ × Dict ℕ)
    pub records : List Record
    pub sent : List Sent

  abbrev pub log : Record → Hbbs → Hbbs
  log r s = record s { records = r ∷ s.records }

  -- `send_to_sink`: a connection whose sink is gone gets nothing.
  abbrev pub send_to_sink : Option ℕ → Message → Hbbs → Hbbs
  send_to_sink none msg s = s
  send_to_sink (some conn) msg s = record s { sent = to_sink conn msg ∷ s.sent }
