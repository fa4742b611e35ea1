-- ===== src/Peers.antt =====
-- The peers that the rendezvous server knows (src/peer.rs): a memory over the table of the database. A
-- `LockPeer` is shared, so an operation through one is an operation on the memory at its id. Times
-- count milliseconds, and `PeerInfo` in JSON is a parameter.
pub mod Table
pub mod Mirror
pub mod Outage
pub mod Status
pub mod Tests
use rustdesk_server_nemo.Base.{
  ℕ, zero, suc, ◌+◌, ◌-◌, ◌*◌, Bool, true, false, not, Option, none, some, List, [], ◌∷◌, Str,
  str_eq, is_empty, leb, ltb, ◌==◌, if◌then◌else◌, Result, ok, err,
}
use rustdesk_server_nemo.Rendezvous.Net.{Ip, v4, Addr}
use Table.{
  Row, Database, get_peer, insert_peer, update_pk_row, set_status_row, set_policy_row, delete_row,
}

-- `get_expired_time`: an hour ago, if the clock goes back as far.
abbrev pub get_expired_time : ℕ → ℕ
get_expired_time now = if leb 3600000 now then now - 3600000 else now

-- `Peer`, with the `ip` of its `PeerInfo`.
pub record Peer : Type 0 where
  pub socket_addr : Addr
  pub last_reg_time : ℕ
  pub guid : Str
  pub uuid : Str
  pub pk : Str
  pub ip : Str
  pub status : Option ℕ
  pub reg_pk : ℕ × ℕ

-- `Peer::default()`.
abbrev pub default_peer : ℕ → Peer
default_peer now = record {
  socket_addr = record { ip = v4 0; port = 0 };
  last_reg_time = get_expired_time now;
  guid = [];
  uuid = [];
  pk = [];
  ip = [];
  status = none;
  reg_pk = (0, get_expired_time now);
}

-- `PeerMap`.
pub record PeerMap : Type 0 where
  pub map : Str → Option Peer
  pub db : Database

-- `HashMap::insert` and `HashMap::remove` on a map as a function.
abbrev pub put {ℓ} : {A : Type ℓ} → Str → A → (Str → Option A) → Str → Option A
put k a m j = if str_eq k j then some a else m j

abbrev pub forget {ℓ} : {A : Type ℓ} → Str → (Str → Option A) → Str → Option A
forget k m j = if str_eq k j then none else m j

-- A write through the lock of a peer that is in memory.
abbrev pub write_peer : Str → Peer → PeerMap → PeerMap
write_peer id peer pm = record pm { map = put id peer pm.map }

-- `register_pk_response::Result`, as far as the server answers it.
pub data PkResult : Type 0 where
  pk_ok uuid_mismatch too_frequent server_error : PkResult

-- `PeerInfo` in JSON: its only field is the ip.
pub record Json : Type 0 where
  pub to_string : Str → Str
  pub from_str : Str → Option Str

-- The peer under `update_pk`'s lock.
abbrev pub with_pk : Addr → Str → Str → Str → ℕ → Peer → Peer
with_pk addr uuid pk ip now peer = record peer {
  socket_addr = addr;
  uuid = uuid;
  pk = pk;
  last_reg_time = now;
  ip = ip;
}

module _ (json : Json) where
  abbrev pub ip_of_info : Str → Str
  ip_of_info info = elim (json.from_str info) [ none ↦ [] | some ip ↦ ip ]

  -- The peer of a row.
  abbrev pub peer_of_row : ℕ → Row → Peer
  peer_of_row now r = record (default_peer now) {
    guid = r.guid;
    uuid = r.uuid;
    pk = r.pk;
    ip = ip_of_info r.info;
    status = r.status;
  }

  -- `get`.
  unfoldable pub get : Str → ℕ → PeerMap → PeerMap × Option Peer
  get id now pm = elim (pm.map id) [
    | some p ↦ (pm, some p)
    | none ↦ elim (get_peer id pm.db) [
      | err _ ↦ (pm, none)
      | ok none ↦ (pm, none)
      | ok (some r) ↦ (write_peer id (peer_of_row now r) pm, some (peer_of_row now r))
    ]
  ]

  -- `get_or`.
  unfoldable pub get_or : Str → ℕ → PeerMap → PeerMap × Peer
  get_or id now pm =
      let (pm1, found) = get id now pm in
      elim found [
        | some p ↦ (pm1, p)
        | none ↦ (write_peer id (default_peer now) pm1, default_peer now)
      ]

  -- `update_pk`, with the fresh guid that `insert_peer` takes.
  unfoldable pub update_pk :
      Str → Peer → Addr → Str → Str → Str → Str → ℕ → PeerMap → PeerMap × PkResult
  update_pk id peer addr uuid pk ip guid now pm =
      let w = with_pk addr uuid pk ip now peer in
      let pm1 = write_peer id w pm in
      let info = json.to_string ip in
      if is_empty w.guid
      then (let (db, inserted) = insert_peer id uuid pk info guid pm1.db in
          elim inserted [
            | err _ ↦ (record pm1 { db = db }, server_error)
            | ok g ↦ (write_peer id (record w { guid = g }) (record pm1 { db = db }), pk_ok)
          ])
      else (let (db, updated) = update_pk_row w.guid id pk info pm1.db in
          elim updated [
            | err _ ↦ (record pm1 { db = db }, server_error)
            | ok _ ↦ (record pm1 { db = db }, pk_ok)
          ])

-- `set_peer_status`.
unfoldable pub set_peer_status : Str → Option ℕ → Option Str → PeerMap → PeerMap × Result Bool
set_peer_status id status note pm =
    let (db, updated) = set_status_row id status note pm.db in
    let pm1 = record pm { db = db } in
    elim updated [
      | err e ↦ (pm1, err e)
      | ok false ↦ (pm1, ok false)
      | ok true ↦ elim (pm.map id) [
        | none ↦ (pm1, ok true)
        | some p ↦ (write_peer id (record p { status = status }) pm1, ok true)
      ]
    ]

-- `set_peer_management_policy`.
unfoldable pub set_peer_management_policy : Str → Option Str → PeerMap → PeerMap × Result Bool
set_peer_management_policy id policy pm =
    let (db, updated) = set_policy_row id policy pm.db in (record pm { db = db }, updated)

-- `delete_registered`.
unfoldable pub delete_registered : Str → PeerMap → PeerMap × Result Bool
delete_registered id pm =
    let (db, deleted) = delete_row id pm.db in
    let pm1 = record pm { db = db } in
    elim deleted [
      | err e ↦ (pm1, err e)
      | ok false ↦ (pm1, ok false)
      | ok true ↦ (record pm1 { map = forget id pm1.map }, ok true)
    ]

-- `peer_status`.
unfoldable pub peer_status : Str → PeerMap → Result (Option ℕ)
peer_status id pm = elim (pm.map id) [
  | some p ↦ ok p.status
  | none ↦ elim (get_peer id pm.db) [
    | err e ↦ err e
    | ok none ↦ ok none
    | ok (some r) ↦ ok r.status
  ]
]

-- `is_peer_blocked`.
unfoldable pub is_peer_blocked : Str → PeerMap → Bool
is_peer_blocked id pm = elim (peer_status id pm) [
  | ok (some zero) ↦ true
  | ok (some (suc n)) ↦ false
  | ok none ↦ false
  | err e ↦ false
]

-- `is_peer_allowed_for_control`.
unfoldable pub is_peer_allowed_for_control : Str → Bool → PeerMap → Bool
is_peer_allowed_for_control id company_only pm = elim (peer_status id pm) [
  | err e ↦ not company_only
  | ok none ↦ not company_only
  | ok (some s) ↦ if s == 0 then false else if s == 1 then true else not company_only
]

-- `PEER_ONLINE_TIMEOUT_MS`.
abbrev pub peer_online_timeout_ms : ℕ
peer_online_timeout_ms = 30000

-- `PeerRuntimeSnapshot`, its public address not printed.
pub record PeerRuntimeSnapshot : Type 0 where
  pub public_addr : Option Addr
  pub last_seen_ms_ago : Option ℕ
  pub online : Bool
  pub registered_ip : Option Str
  pub status : Option ℕ

-- `runtime_snapshot`.
unfoldable pub runtime_snapshot : Str → ℕ → PeerMap → Option PeerRuntimeSnapshot
runtime_snapshot id now pm = elim (pm.map id) [
  | none ↦ none
  | some peer ↦ some (record {
    public_addr = if peer.socket_addr.port == 0 then none else some peer.socket_addr;
    last_seen_ms_ago = some (now - peer.last_reg_time);
    online = ltb (now - peer.last_reg_time) peer_online_timeout_ms;
    registered_ip = if is_empty peer.ip then none else some peer.ip;
    status = peer.status;
  })
]
