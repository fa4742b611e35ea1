-- ===== src/Relay/Pairing.antt =====
-- Letting connections in and joining two of them (src/relay_server.rs): `handle_connection`,
-- `make_pair` and `make_pair_`. Each part of a handler between two waits is a function on the state.
pub mod Granted
pub mod Meeting
use rustdesk_server_nemo.Base.{
  ℕ, Bool, true, false, not, ◌&&◌, ◌||◌, Option, none, some, List, [], ◌∷◌, Str, Dict, codes,
  lookup, insert, remove, str_eq, str_mem, is_empty, if◌then◌else◌, Result, ok, err,
}
use rustdesk_server_nemo.Relay.Grant.{Scheme, relay_grant_verify}

-- A stream as the relay sees it: the peer's `ip:port`, whether it is a websocket, and what was done to
-- its codec.
pub record Conn : Type 0 where
  pub addr : Str
  pub is_ws : Bool
  pub keyed : Bool
  pub raw : Bool

-- `Usage`: milliseconds, bits, highest and present bits for a millisecond.
abbrev pub Usage : Type 0
Usage = ℕ × ℕ × ℕ × ℕ

-- `PEERS`, `USAGE`, `SESSION_LABELS`, `BLACKLIST` and `BLOCKLIST`.
pub record Hbbr : Type 0 where
  pub peers : Dict Conn
  pub usage : Dict Usage
  pub session_labels : Dict Str
  pub blacklist : List Str
  pub blocklist : List Str

-- `RequestRelay`, as far as the relay reads it.
pub record RequestRelay : Type 0 where
  pub licence_key : Str
  pub uuid : Str

-- What `handle_connection` and `make_pair` do with a connection.
pub data Admission : Type 0 where
  command blocked refused admitted : Admission

-- `relay_key_exchange`, on the keys of the reply, if a reply came that has some; `decode` is
-- `Encrypt::decode`, under the relay's half of the offer.
unfoldable pub relay_key_exchange :
    {Sk Key : Type 0} → Option Sk → Option (List Str) → (Str → Str → Result Key) → Result Key
relay_key_exchange none reply decode =
    err (codes "relay has no signing key; cannot secure the control frame")
relay_key_exchange (some sk) none decode = err (codes "expected a KeyExchange reply")
relay_key_exchange (some sk) (some (a ∷ b ∷ [])) decode = decode b a
relay_key_exchange (some sk) (some []) decode =
    err (codes "key exchange reply carries 0 keys, expected 2")
relay_key_exchange (some sk) (some (a ∷ [])) decode =
    err (codes "key exchange reply carries 1 keys, expected 2")
relay_key_exchange (some sk) (some (a ∷ b ∷ c ∷ ks)) decode =
    err (codes "key exchange reply carries more keys, expected 2")

-- `handle_connection`, with the start of `make_pair`: `exchanged` is that `relay_key_exchange` ends well.
unfoldable pub handle_connection : Bool → Bool → Str → Bool → Hbbr → Admission
handle_connection ws is_loopback ip exchanged s =
    if not ws && is_loopback
    then command
    else if str_mem ip s.blocklist
    then blocked
    else if ws
    then refused
    else if exchanged
    then admitted
    else refused

-- How `make_pair_` goes on with a message.
pub data Pairing : Type 0 where
  turned_away parked : Pairing
  paired : Conn → Conn → Pairing

abbrev pub drop_key : Conn → Conn
drop_key c = record c { keyed = false }

-- `set_raw`: a websocket has no raw mode.
abbrev pub set_raw : Conn → Conn
set_raw c = if c.is_ws then c else record c { raw = true }

-- Two streams become raw together.
abbrev pub raw_pair : Conn → Conn → Pairing
raw_pair stream peer =
    if not stream.is_ws && not peer.is_ws
    then paired (set_raw stream) (set_raw peer)
    else paired stream peer

module _ (scheme : Scheme) (key : Str) (server_key : Option scheme.PublicKey) where
  -- The checks of `make_pair_` on a request.
  unfoldable pub is_admissible : RequestRelay → ℕ → Bool
  is_admissible rf now =
      if not (is_empty key) && not (str_eq rf.licence_key key) then false else elim server_key [
        | none ↦ false
        | some pk ↦ elim (relay_grant_verify scheme pk rf.uuid now) [
          | err _ ↦ false
          | ok _ ↦ not (is_empty rf.uuid)
        ]
      ]

  -- `make_pair_` up to the relaying or the wait, over `relay_session_label`; `none` is no message, or
  -- one of another kind.
  unfoldable pub make_pair : (Str → Str) → Conn → Option RequestRelay → ℕ → Hbbr → Hbbr × Pairing
  make_pair label conn none now s = (s, turned_away)
  make_pair label conn (some rf) now s =
      let stream = drop_key conn in
      if not (is_admissible rf now) then (s, turned_away) else elim (lookup rf.uuid s.peers) [
        | some peer ↦ (
          record s {
            peers = remove rf.uuid s.peers;
            usage = insert conn.addr (0, 0, 0, 0) s.usage;
            session_labels = insert conn.addr (label rf.uuid) s.session_labels;
          },
          raw_pair stream peer,
        )
        | none ↦ (record s { peers = insert rf.uuid stream s.peers }, parked)
      ]

-- `make_pair_` when the relaying is over, and when the wait of thirty seconds is.
unfoldable pub session_over : Str → Hbbr → Hbbr
session_over addr s = record s {
  usage = remove addr s.usage;
  session_labels = remove addr s.session_labels;
}

unfoldable pub wait_over : Str → Hbbr → Hbbr
wait_over uuid s = record s { peers = remove uuid s.peers }
