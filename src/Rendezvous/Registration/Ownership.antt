-- ===== src/Rendezvous/Registration/Ownership.antt =====
-- Who may change the key of a registered peer (src/rendezvous_server.rs, `register_pk_core`).
use rustdesk_server_nemo.Base.{
  ℕ, ◌≡◌, refl, sym, ap, ◌∙◌, ◌⊎◌, inl, inr, Bool, false, ◌||◌, some, Str, str_eq, str_eq_iff,
  str_eq_refl, is_empty, byte_len, ltb, some_inj, arith, Bool-cases, Option-cases, if◌then◌else◌,
  Result-cases, subst,
}
use rustdesk_server_nemo.Peers.{
  Peer, PeerMap, Json, get, get_or, update_pk, with_pk, write_peer, is_peer_blocked,
}
use rustdesk_server_nemo.Peers.Table.{insert_peer, update_pk_row, get_peer}
use rustdesk_server_nemo.Peers.Table.Queries.{answer-cases}
use rustdesk_server_nemo.Rendezvous.Net.{Addr}
use rustdesk_server_nemo.Rendezvous.Blocker.{check_ip_blocker}
use rustdesk_server_nemo.Rendezvous.State.{Outside, Hbbs}
use rustdesk_server_nemo.Rendezvous.Registration.{
  RegisterPk, Comparison, mismatch, changes, compare_keys, reg_pk_after, register_peer,
  register_pk_core,
}

-- What `update_pk` leaves in memory, up to the guid of a new row.
update_pk-map :
    (json : Json) (id : Str) (peer : Peer) (addr : Addr) (uuid pk ip guid : Str) (now : ℕ)
    (pm : PeerMap) (j : Str)
    → (g : Str) × ((update_pk json id peer addr uuid pk ip guid now pm).0.map j ≡ (
        if str_eq id j
        then some (record (with_pk addr uuid pk ip now peer) { guid = g })
        else pm.map j))
unfolding update_pk
update_pk-map json id peer addr uuid pk ip guid now pm j = elim (Bool-cases (is_empty peer.guid)) [
  | inl new ↦ elim (Result-cases (insert_peer id uuid pk (json.to_string ip) guid pm.db).1) [
    | inl (g, e) ↦ (g, ground arith)
    | inr (x, e) ↦ (peer.guid, ground arith)
  ]
  | inr old ↦ elim (Result-cases (update_pk_row peer.guid id pk (json.to_string ip) pm.db).1) [
    | inl (_, e) ↦ (peer.guid, ground arith)
    | inr (x, e) ↦ (peer.guid, ground arith)
  ]
]

-- The key of a peer is left, or the request shows its uuid and comes from its ip.
abbrev pub Kept : Str → RegisterPk → Str → Peer → Peer → Type 0
Kept j rk ip p q =
    (q.uuid ≡ p.uuid)
    × ((q.pk ≡ p.pk) ⊎ ((rk.id ≡ j) × (rk.uuid ≡ p.uuid) × (q.pk ≡ rk.pk) × (p.ip ≡ ip)))

pub compare_keys-changes :
    (peer : Peer) (rk : RegisterPk) (ip : Str) (changed ip_changed : Bool)
    → is_empty peer.uuid ≡ false
    → compare_keys peer rk ip ≡ changes changed ip_changed
    → (peer.uuid ≡ rk.uuid) × ((peer.pk ≡ rk.pk) ⊎ (peer.ip ≡ ip))
unfolding compare_keys
compare_keys-changes peer rk ip changed ip_changed known h =
    elim (Bool-cases (str_eq peer.uuid rk.uuid)) [
      | inr differ ↦ absurd (ground arith)
      | inl same ↦ (
        (str_eq_iff peer.uuid rk.uuid).0 same,
        elim (Bool-cases (str_eq peer.ip ip)) [
          | inl at ↦ inr ((str_eq_iff peer.ip ip).0 at)
          | inr moved ↦ elim (Bool-cases (str_eq peer.pk rk.pk)) [
            | inl k ↦ inl ((str_eq_iff peer.pk rk.pk).0 k)
            | inr k ↦ absurd (ground arith)
          ]
        ],
      )
    ]

pub Comparison-cases :
    (c : Comparison) → (c ≡ mismatch) ⊎ ((a : Bool) × (b : Bool) × (c ≡ changes a b))
Comparison-cases mismatch = inl refl
Comparison-cases (changes a b) = inr (a, b, refl)

module _ (out : Outside) where
  register_peer-keeps :
      (rk : RegisterPk) (addr : Addr) (ip guid : Str) (now : ℕ) (peer : Peer) (s : Hbbs out)
      (q : Peer)
      → is_empty peer.uuid ≡ false
      → s.pm.map rk.id ≡ some peer
      → (register_peer out rk addr ip guid now peer s).0.pm.map rk.id ≡ some q
      → Kept rk.id rk ip peer q
  unfolding register_peer
  register_peer-keeps rk addr ip guid now peer s q known at h =
      elim (Comparison-cases (compare_keys peer rk ip)) [
        | inl e ↦ let same : peer ≡ q = ground arith in rw (← same) (refl, inl refl)
        | inr (changed, ip_changed, e) ↦ elim (Option-cases (reg_pk_after peer.reg_pk now)) [
          | inl f ↦ let same : peer ≡ q = ground arith in rw (← same) (refl, inl refl)
          | inr (r, f) ↦
              let counted = record peer { reg_pk = r } in
              let (uuid, why) = compare_keys-changes peer rk ip changed ip_changed known e in
              elim (Bool-cases changed) [
                | inr same ↦ ground (arith, str_eq_refl rk.id)
                | inl new ↦
                    let (g, put) =
                      update_pk-map out.json rk.id counted addr rk.uuid rk.pk ip guid now
                        (write_peer rk.id counted s.pm) rk.id in
                    let is : record (with_pk addr rk.uuid rk.pk ip now counted) { guid = g } ≡ q =
                      ground (arith, str_eq_refl rk.id) in
                    rw (← is) (
                      sym uuid,
                      elim why [
                        | inl pk ↦ inl (sym pk)
                        | inr at_ip ↦ inr (refl, sym uuid, refl, at_ip)
                      ],
                    )
              ]
        ]
      ]

  register_peer-others :
      (rk : RegisterPk) (addr : Addr) (ip guid : Str) (now : ℕ) (peer : Peer) (s : Hbbs out)
      (j : Str)
      → str_eq rk.id j ≡ false
      → (register_peer out rk addr ip guid now peer s).0.pm.map j ≡ s.pm.map j
  unfolding register_peer
  register_peer-others rk addr ip guid now peer s j other =
      elim (Comparison-cases (compare_keys peer rk ip)) [
        | inl e ↦ ground arith
        | inr (changed, ip_changed, e) ↦ elim (Option-cases (reg_pk_after peer.reg_pk now)) [
          | inl f ↦ ground arith
          | inr (r, f) ↦
              let counted = record peer { reg_pk = r } in
              let (g, put) =
                update_pk-map out.json rk.id counted addr rk.uuid rk.pk ip guid now
                  (write_peer rk.id counted s.pm) j in
              elim (Bool-cases changed) [ inr same ↦ ground arith | inl new ↦ ground arith ]
        ]
      ]

module _ (json : Json) (id : Str) (now : ℕ) (pm : PeerMap) where
  get-memory : (q : Peer) → pm.map id ≡ some q → (get json id now pm).1 ≡ some q
  unfolding get
  get-memory q e = ground arith

  pub get-puts :
      (p : Peer) → (get json id now pm).1 ≡ some p → (get json id now pm).0.map id ≡ some p
  unfolding get
  get-puts p h = elim (Option-cases (pm.map id)) [
    | inr (q, e) ↦ ground arith
    | inl e ↦ elim (answer-cases (get_peer id pm.db)) [
      | inl (row, f) ↦ ground (arith, str_eq_refl id)
      | inr (inl f) ↦ absurd (ground arith)
      | inr (inr (x, f)) ↦ absurd (ground arith)
    ]
  ]

  pub get_or-known :
      (p : Peer)
      → (get json id now pm).1 ≡ some p
      → get_or json id now pm ≡ ((get json id now pm).0, p)
  unfolding get_or
  get_or-known p h = ground arith

  get_or-others : (j : Str) → str_eq id j ≡ false → (get_or json id now pm).0.map j ≡ pm.map j
  unfolding get_or get
  get_or-others j other = elim (Option-cases (pm.map id)) [
    | inr (q, e) ↦ ground arith
    | inl e ↦ elim (answer-cases (get_peer id pm.db)) [
      | inl (row, f) ↦ ground arith
      | inr (inl f) ↦ ground arith
      | inr (inr (x, f)) ↦ ground arith
    ]
  ]

module _ (out : Outside) where
  -- Of a peer that is in memory afterwards, and was in memory or in the table with a uuid: the uuid stays,
  -- and the key changes only by a request for this id that shows the uuid and comes from the ip that
  -- the peer registered from, to the key of the request.
  pub register_pk_core-memory :
      (rk : RegisterPk) (addr : Addr) (guid : Str) (now : ℕ) (s : Hbbs out) (j : Str) (p q : Peer)
      → (get out.json j now s.pm).1 ≡ some p
      → is_empty p.uuid ≡ false
      → (register_pk_core out rk addr guid now s).0.pm.map j ≡ some q
      → Kept j rk (out.ip_to_string addr.ip) p q
  unfolding register_pk_core
  register_pk_core-memory rk addr guid now s j p q known has h =
      elim (Bool-cases (is_empty rk.uuid || is_empty rk.pk)) [
        | inl e ↦ idle (ground arith)
        | inr e ↦ elim (Bool-cases (is_peer_blocked rk.id s.pm)) [
          | inl b ↦ idle (ground arith)
          | inr b ↦ elim (Bool-cases (ltb (byte_len rk.id) 6)) [
            | inl l ↦ idle (ground arith)
            | inr l ↦
                elim (Bool-cases
                  (check_ip_blocker (out.ip_to_string addr.ip) rk.id now s.ip_blocker).1) [
                    | inr refused ↦ idle (ground arith)
                    | inl passes ↦ registered (ground arith)
                  ]
          ]
        ]
      ]
    where
      idle : s.pm.map j ≡ some q → Kept j rk (out.ip_to_string addr.ip) p q
      idle at =
          let same : p ≡ q = some_inj (sym known ∙ get-memory out.json j now s.pm q at) in
          rw (← same) (refl, inl refl)

      start : Hbbs out
      start = record s {
        ip_blocker = (check_ip_blocker (out.ip_to_string addr.ip) rk.id now s.ip_blocker).0;
        pm = (get_or out.json rk.id now s.pm).0;
      }

      registered :
          (register_peer out rk addr
                (out.ip_to_string addr.ip)
                guid
                now
                (get_or out.json rk.id now s.pm).1
                start).0.pm.map
              j
            ≡ some q
          → Kept j rk (out.ip_to_string addr.ip) p q
      registered r = elim (Bool-cases (str_eq rk.id j)) [
        | inr other ↦ idle (
            sym (get_or-others out.json rk.id now s.pm j other)
            ∙ (sym (
                  register_peer-others out rk addr (out.ip_to_string addr.ip) guid now
                    (get_or out.json rk.id now s.pm).1 start j other)
                ∙ r))
        | inl same ↦
            let is : rk.id ≡ j = (str_eq_iff rk.id j).0 same in
            let known' : (get out.json rk.id now s.pm).1 ≡ some p = rw is known in
            let e : get_or out.json rk.id now s.pm ≡ ((get out.json rk.id now s.pm).0, p) =
              get_or-known out.json rk.id now s.pm p known' in
            let of_p : (register_peer out rk addr (out.ip_to_string addr.ip) guid now p
                    start).0.pm.map
                  j
                ≡ some q =
              subst
                (λ (x : Peer).
                  (register_peer out rk addr (out.ip_to_string addr.ip) guid now x start).0.pm.map j
                  ≡ some q)
                (ap (λ x. x.1) e) r in
            subst (λ (k : Str). Kept k rk (out.ip_to_string addr.ip) p q) is
              (register_peer-keeps out rk addr (out.ip_to_string addr.ip) guid now p start q has
                (ap (λ x. x.0.map rk.id) e ∙ get-puts out.json rk.id now s.pm p known')
                (subst
                  (λ (k : Str).
                    (register_peer out rk addr (out.ip_to_string addr.ip) guid now p start).0.pm.map
                      k
                    ≡ some q)
                  (sym is) of_p))
      ]
