-- ===== src/Rendezvous/Grants/Sends.antt =====
-- Which operations of the rendezvous server send nothing, and what a send adds
-- (src/rendezvous_server.rs).
use rustdesk_server_nemo.Base.{
  ℕ, ◌≡◌, refl, inl, inr, Bool, not, ◌&&◌, ◌||◌, Option, none, some, Str, is_empty, byte_len, ltb,
  any, List, true, false, arith, Bool-cases, Option-cases,
}
use rustdesk_server_nemo.Management.Controller.{NemoSource}
use rustdesk_server_nemo.Management.Gates.{
  is_peer_allowed, controller_policy_rejection_from_field, nemo_user_rejection_from_field,
}
use rustdesk_server_nemo.Peers.{Peer, is_peer_blocked, get_or}
use rustdesk_server_nemo.Rendezvous.Net.{Addr}
use rustdesk_server_nemo.Rendezvous.Blocker.{check_ip_blocker}
use rustdesk_server_nemo.Rendezvous.State.{
  Outside, Hbbs, AuthedDevice, Message, Sent, to_sink, to_push, to_udp, send_to_sink, request_relay,
  relay_answer, punch_failure, punch_answer, punch_hole, fetch_local_addr, register_peer_response,
  register_pk_response, configure_update, software_answer, test_nat_response,
}
use rustdesk_server_nemo.Rendezvous.Registration.{
  RegisterPk, compare_keys, reg_pk_after, register_peer, register_pk_core, is_ip_change,
  update_addr_core, register_peer_push,
}
use rustdesk_server_nemo.Rendezvous.Registration.Ownership.{Comparison-cases}
use rustdesk_server_nemo.Rendezvous.Reach.{
  get_relay_server, push_to_peer, send_to_tcp, park_sink, get_pk,
}
use rustdesk_server_nemo.Rendezvous.Punch.{gates, proved_peer, proved_key}

-- What a message would tell of its controller: only a request for the relay has room for it.
unfoldable pub is_tokenless : Message → Bool
is_tokenless (request_relay rf) =
    is_empty rf.licence_key && (elim rf.nemo_source [ none ↦ true | some _ ↦ false ])
is_tokenless (relay_answer r) = true
is_tokenless (punch_failure f reason) = true
is_tokenless (punch_answer r) = true
is_tokenless (punch_hole r) = true
is_tokenless (fetch_local_addr r) = true
is_tokenless (register_peer_response b) = true
is_tokenless (register_pk_response r) = true
is_tokenless (configure_update serial servers) = true
is_tokenless (software_answer url) = true
is_tokenless (test_nat_response port cu) = true

abbrev pub message_of : Sent → Message
message_of (to_sink conn msg) = msg
message_of (to_push conn msg) = msg
message_of (to_udp addr msg) = msg

-- No message of a list carries a controller's marker, with the session token in it.
abbrev pub AreTokenless : List Sent → Type 0
AreTokenless sent = any (λ x. not (is_tokenless (message_of x))) sent ≡ false

pub AreTokenless-same : {xs ys : List Sent} → ys ≡ xs → AreTokenless xs → AreTokenless ys
AreTokenless-same same h = rw same h

module _ (out : Outside) where
  abbrev pub SameSent : Hbbs out → Hbbs out → Type 0
  SameSent s t = t.sent ≡ s.sent

  pub get_relay_server-sent : (s : Hbbs out) → SameSent s (get_relay_server out s).0
  unfolding get_relay_server
  get_relay_server-sent s = ground arith

  abbrev pub IsDiscreet : Hbbs out → Type 0
  IsDiscreet s = AreTokenless s.sent

  pub push_to_peer-IsDiscreet :
      (id : Str) (msg : Message) (addr : Addr) (s : Hbbs out)
      → is_tokenless msg ≡ true
      → IsDiscreet s
      → IsDiscreet (push_to_peer out id msg addr s)
  unfolding push_to_peer any
  push_to_peer-IsDiscreet id msg addr s m h = elim (Option-cases (s.tcp_peers id)) [
    | inl e ↦ ground arith
    | inr (c, e) ↦ ground arith
  ]

  pub send_to_sink-IsDiscreet :
      (sink : Option ℕ) (msg : Message) (s : Hbbs out)
      → is_tokenless msg ≡ true
      → IsDiscreet s
      → IsDiscreet (send_to_sink out sink msg s)
  unfolding any
  send_to_sink-IsDiscreet none msg s m h = h
  send_to_sink-IsDiscreet (some conn) msg s m h = ground arith

  pub send_to_tcp-IsDiscreet :
      (msg : Message) (addr : Addr) (s : Hbbs out)
      → is_tokenless msg ≡ true
      → IsDiscreet s
      → IsDiscreet (send_to_tcp out msg addr s)
  unfolding send_to_tcp
  send_to_tcp-IsDiscreet msg addr s m h =
      send_to_sink-IsDiscreet (s.tcp_punch (out.try_into_v4 addr)) msg _ m h

  pub park_sink-sent :
      (sink : Option ℕ) (addr : Addr) (s : Hbbs out) → SameSent s (park_sink out sink addr s)
  unfolding park_sink
  park_sink-sent none addr s = refl
  park_sink-sent (some conn) addr s = refl

  pub get_pk-sent :
      (version id : Str) (now : ℕ) (s : Hbbs out) → SameSent s (get_pk out version id now s).0
  unfolding get_pk
  get_pk-sent version id now s = elim (Option-cases s.inner.sk) [
    | inl e ↦ ground arith
    | inr (sk, e) ↦ ground arith
  ]

  pub gates-sent :
      (named : Bool) (proto : Option NemoSource) (field target refusal : Str) (addr : Addr)
      (authed : Option AuthedDevice) (now : ℕ) (s : Hbbs out)
      → SameSent s (gates out named proto field target refusal addr authed now s).0
  unfolding gates
  gates-sent named proto field target refusal addr authed now s =
      elim (Bool-cases (named && not (is_peer_allowed s.company_only target s.pm))) [
        | inl e ↦ ground arith
        | inr e ↦
            elim (Option-cases (
              controller_policy_rejection_from_field out.policy_text out.decode s.pm proto field
                target (proved_peer authed))) [
                  | inr ((id, reason), f) ↦ ground arith
                  | inl f ↦
                      elim (Option-cases
                        (nemo_user_rejection_from_field out.to_lowercase out.decode proto field
                          target (proved_key authed) now s.world).1) [
                            | inr ((id, reason), g) ↦ ground arith
                            | inl g ↦ ground arith
                          ]
                ]
      ]

  pub register_peer_push-sent :
      (id : Str) (conn : ℕ) (s : Hbbs out) → SameSent s (register_peer_push out id conn s)
  unfolding register_peer_push
  register_peer_push-sent id conn s = ground arith

  pub update_addr_core-sent :
      (id : Str) (addr : Addr) (now : ℕ) (s : Hbbs out)
      → SameSent s (update_addr_core out id addr now s).0
  unfolding update_addr_core
  update_addr_core-sent id addr now s = elim (Option-cases (s.pm.map id)) [
    | inl e ↦ ground arith
    | inr (old, e) ↦ elim (Bool-cases (is_empty old.pk || is_ip_change out old addr)) [
      | inl f ↦ ground arith
      | inr f ↦ ground arith
    ]
  ]

  register_peer-sent :
      (rk : RegisterPk) (addr : Addr) (ip guid : Str) (now : ℕ) (peer : Peer) (s : Hbbs out)
      → SameSent s (register_peer out rk addr ip guid now peer s).0
  unfolding register_peer
  register_peer-sent rk addr ip guid now peer s =
      elim (Comparison-cases (compare_keys peer rk ip)) [
        | inl e ↦ ground arith
        | inr (changed, moved, e) ↦ elim (Option-cases (reg_pk_after peer.reg_pk now)) [
          | inl f ↦ ground arith
          | inr (r, f) ↦ elim (Bool-cases changed) [ inl g ↦ ground arith | inr g ↦ ground arith ]
        ]
      ]

  pub register_pk_core-sent :
      (rk : RegisterPk) (addr : Addr) (guid : Str) (now : ℕ) (s : Hbbs out)
      → SameSent s (register_pk_core out rk addr guid now s).0
  unfolding register_pk_core
  register_pk_core-sent rk addr guid now s =
      elim (Bool-cases (is_empty rk.uuid || is_empty rk.pk)) [
        | inl e ↦ ground arith
        | inr e ↦ elim (Bool-cases (is_peer_blocked rk.id s.pm)) [
          | inl b ↦ ground arith
          | inr b ↦ elim (Bool-cases (ltb (byte_len rk.id) 6)) [
            | inl l ↦ ground arith
            | inr l ↦
                elim (Bool-cases
                  (check_ip_blocker (out.ip_to_string addr.ip) rk.id now s.ip_blocker).1) [
                    | inr refused ↦ ground arith
                    | inl passes ↦ ground (
                      arith,
                      register_peer-sent rk addr (out.ip_to_string addr.ip) guid now
                          (get_or out.json rk.id now s.pm).1
                          (record s {
                            ip_blocker =
                                (check_ip_blocker (out.ip_to_string addr.ip) rk.id now
                                  s.ip_blocker).0;
                            pm = (get_or out.json rk.id now s.pm).0;
                          }),
                    )
                  ]
          ]
        ]
      ]
