-- ===== src/Rendezvous/Grants/Pending.antt =====
-- Which operations of the rendezvous server leave the table of pending relays
-- (src/rendezvous_server.rs), and which sends go out with it.
use rustdesk_server_nemo.Base.{
  ℕ, ◌≡◌, refl, inl, inr, Bool, not, ◌&&◌, ◌||◌, Option, none, some, Str, is_empty, byte_len, ltb,
  arith, Bool-cases, Option-cases,
}
use rustdesk_server_nemo.Management.Controller.{NemoSource}
use rustdesk_server_nemo.Management.Gates.{
  is_peer_allowed, controller_policy_rejection_from_field, nemo_user_rejection_from_field,
}
use rustdesk_server_nemo.Peers.{Peer, is_peer_blocked, get_or}
use rustdesk_server_nemo.Rendezvous.Net.{Addr}
use rustdesk_server_nemo.Rendezvous.Blocker.{check_ip_blocker}
use rustdesk_server_nemo.Rendezvous.State.{Outside, Hbbs, AuthedDevice, Message, send_to_sink}
use rustdesk_server_nemo.Rendezvous.Registration.{
  RegisterPk, compare_keys, reg_pk_after, register_peer, register_pk_core, is_ip_change,
  update_addr_core, register_peer_push,
}
use rustdesk_server_nemo.Rendezvous.Registration.Ownership.{Comparison-cases}
use rustdesk_server_nemo.Rendezvous.Reach.{
  get_relay_server, push_to_peer, send_to_tcp, park_sink, get_pk,
}
use rustdesk_server_nemo.Rendezvous.Punch.{gates, proved_peer, proved_key}

module _ (out : Outside) where
  abbrev pub SamePending : Hbbs out → Hbbs out → Type 0
  SamePending s t = t.pending_relay ≡ s.pending_relay

  pub get_relay_server-pending : (s : Hbbs out) → SamePending s (get_relay_server out s).0
  unfolding get_relay_server
  get_relay_server-pending s = ground arith

  pub push_to_peer-pending :
      (id : Str) (msg : Message) (addr : Addr) (s : Hbbs out)
      → SamePending s (push_to_peer out id msg addr s)
  unfolding push_to_peer
  push_to_peer-pending id msg addr s = elim (Option-cases (s.tcp_peers id)) [
    | inl e ↦ ground arith
    | inr (c, e) ↦ ground arith
  ]

  pub send_to_tcp-pending :
      (msg : Message) (addr : Addr) (s : Hbbs out) → SamePending s (send_to_tcp out msg addr s)
  unfolding send_to_tcp
  send_to_tcp-pending msg addr s = elim (Option-cases (s.tcp_punch (out.try_into_v4 addr))) [
    | inl e ↦ ground arith
    | inr (c, e) ↦ ground arith
  ]

  pub send_to_sink-pending :
      (sink : Option ℕ) (msg : Message) (s : Hbbs out) → SamePending s (send_to_sink out sink msg s)
  send_to_sink-pending none msg s = refl
  send_to_sink-pending (some conn) msg s = refl

  pub park_sink-pending :
      (sink : Option ℕ) (addr : Addr) (s : Hbbs out) → SamePending s (park_sink out sink addr s)
  unfolding park_sink
  park_sink-pending none addr s = refl
  park_sink-pending (some conn) addr s = refl

  pub get_pk-pending :
      (version id : Str) (now : ℕ) (s : Hbbs out) → SamePending s (get_pk out version id now s).0
  unfolding get_pk
  get_pk-pending version id now s = elim (Option-cases s.inner.sk) [
    | inl e ↦ ground arith
    | inr (sk, e) ↦ ground arith
  ]

  pub gates-pending :
      (named : Bool) (proto : Option NemoSource) (field target refusal : Str) (addr : Addr)
      (authed : Option AuthedDevice) (now : ℕ) (s : Hbbs out)
      → SamePending s (gates out named proto field target refusal addr authed now s).0
  unfolding gates
  gates-pending named proto field target refusal addr authed now s =
      elim (Bool-cases (named && not (is_peer_allowed s.company_only target s.pm))) [
        | inl e ↦ ground arith
        | inr e ↦
            elim (Option-cases (
              controller_policy_rejection_from_field out.policy_text out.decode s.pm proto field
                target (proved_peer authed))) [
                  | inr ((id, reason), f) ↦ ground arith
                  | inl f ↦
                      elim (Option-cases
                        (nemo_user_rejection_from_field out.to_lowercase out.decode proto field
                          target (proved_key authed) now s.world).1) [
                            | inr ((id, reason), g) ↦ ground arith
                            | inl g ↦ ground arith
                          ]
                ]
      ]

  pub register_peer_push-pending :
      (id : Str) (conn : ℕ) (s : Hbbs out) → SamePending s (register_peer_push out id conn s)
  unfolding register_peer_push
  register_peer_push-pending id conn s = ground arith

  pub update_addr_core-pending :
      (id : Str) (addr : Addr) (now : ℕ) (s : Hbbs out)
      → SamePending s (update_addr_core out id addr now s).0
  unfolding update_addr_core
  update_addr_core-pending id addr now s = elim (Option-cases (s.pm.map id)) [
    | inl e ↦ ground arith
    | inr (old, e) ↦ elim (Bool-cases (is_empty old.pk || is_ip_change out old addr)) [
      | inl f ↦ ground arith
      | inr f ↦ ground arith
    ]
  ]

  register_peer-pending :
      (rk : RegisterPk) (addr : Addr) (ip guid : Str) (now : ℕ) (peer : Peer) (s : Hbbs out)
      → SamePending s (register_peer out rk addr ip guid now peer s).0
  unfolding register_peer
  register_peer-pending rk addr ip guid now peer s =
      elim (Comparison-cases (compare_keys peer rk ip)) [
        | inl e ↦ ground arith
        | inr (changed, moved, e) ↦ elim (Option-cases (reg_pk_after peer.reg_pk now)) [
          | inl f ↦ ground arith
          | inr (r, f) ↦ elim (Bool-cases changed) [ inl g ↦ ground arith | inr g ↦ ground arith ]
        ]
      ]

  pub register_pk_core-pending :
      (rk : RegisterPk) (addr : Addr) (guid : Str) (now : ℕ) (s : Hbbs out)
      → SamePending s (register_pk_core out rk addr guid now s).0
  unfolding register_pk_core
  register_pk_core-pending rk addr guid now s =
      elim (Bool-cases (is_empty rk.uuid || is_empty rk.pk)) [
        | inl e ↦ ground arith
        | inr e ↦ elim (Bool-cases (is_peer_blocked rk.id s.pm)) [
          | inl b ↦ ground arith
          | inr b ↦ elim (Bool-cases (ltb (byte_len rk.id) 6)) [
            | inl l ↦ ground arith
            | inr l ↦
                elim (Bool-cases
                  (check_ip_blocker (out.ip_to_string addr.ip) rk.id now s.ip_blocker).1) [
                    | inr refused ↦ ground arith
                    | inl passes ↦ ground (
                      arith,
                      register_peer-pending rk addr (out.ip_to_string addr.ip) guid now
                          (get_or out.json rk.id now s.pm).1
                          (record s {
                            ip_blocker =
                                (check_ip_blocker (out.ip_to_string addr.ip) rk.id now
                                  s.ip_blocker).0;
                            pm = (get_or out.json rk.id now s.pm).0;
                          }),
                    )
                  ]
          ]
        ]
      ]
