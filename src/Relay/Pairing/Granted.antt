-- ===== src/Relay/Pairing/Granted.antt =====
-- No one is relayed without a grant: the states that the relay can reach, and what a pairing in them
-- means.
use rustdesk_server_nemo.Base.{
  ℕ, ◌≡◌, refl, ◌⊎◌, inl, inr, true, Option, none, some, List, [], ◌∷◌, Str, lookup, str_eq,
  str_eq_iff, is_empty, arith, ok, Bool-cases, Option-cases, Result-cases, lookup-remove,
  lookup-insert, str_eq_refl, some_inj,
}
use rustdesk_server_nemo.Relay.Grant.{Scheme, relay_grant_verify}
use rustdesk_server_nemo.Relay.Pairing.{
  Conn, Hbbr, RequestRelay, paired, drop_key, raw_pair, is_admissible, make_pair, session_over,
  wait_over,
}

pub empty_lem : (s : Str) → is_empty s ≡ true → s ≡ []
empty_lem [] h = refl
empty_lem (c ∷ s) h = absurd (cc)

module _ (scheme : Scheme) (key : Str) (server_key : Option scheme.PublicKey)
    (label : Str → Str) where
  pub data Step (s : Hbbr) : Hbbr → Type 0 where
    request :
        (conn : Conn) (message : Option RequestRelay) (now : ℕ)
        → Step s (make_pair scheme key server_key label conn message now s).0
    close : (addr : Str) → Step s (session_over addr s)
    give_up : (uuid : Str) → Step s (wait_over uuid s)

  pub data Reach (s : Hbbr) : Hbbr → Type 0 where
    here : Reach s s
    next : {u v : Hbbr} → Reach s u → Step u v → Reach s v

  -- The text of the request is a grant of the server's key at this time, and its licence key matches,
  -- if there is one.
  abbrev pub HasGrant : RequestRelay → ℕ → Type 0
  HasGrant rf now =
      (pk : scheme.PublicKey) × (server_key ≡ some pk)
      × (relay_grant_verify scheme pk rf.uuid now ≡ ok tt)
      × ((key ≡ []) ⊎ (rf.licence_key ≡ key))

  -- In this history, the connection came to wait under the text by a request that had the grant when
  -- it came, and since then it waits.
  pub WasParked : {s t : Hbbr} → Reach s t → Str → Conn → Type 0
  WasParked here uuid c = ⊥
  WasParked (next {u} reach (request conn message now)) uuid c =
      ((lookup uuid u.peers ≡ some c) × WasParked reach uuid c)
      ⊎ ((rf : RequestRelay) × (message ≡ some rf)
          × (rf.uuid ≡ uuid)
          × (drop_key conn ≡ c)
          × HasGrant rf now)
  WasParked (next {u} reach (close addr)) uuid c =
      (lookup uuid u.peers ≡ some c) × WasParked reach uuid c
  WasParked (next {u} reach (give_up gone)) uuid c =
      (lookup uuid u.peers ≡ some c) × WasParked reach uuid c

  is_admissible-HasGrant :
      (rf : RequestRelay) (now : ℕ)
      → is_admissible scheme key server_key rf now ≡ true
      → HasGrant rf now
  unfolding is_admissible
  is_admissible-HasGrant rf now h = elim (Option-cases server_key) [
    | inl e ↦ absurd (ground arith)
    | inr (pk, e) ↦ elim (Result-cases (relay_grant_verify scheme pk rf.uuid now)) [
      | inr (x, bad) ↦ absurd (ground arith)
      | inl (x, good) ↦ (
        pk,
        e,
        good,
        elim (Bool-cases (is_empty key)) [
          | inl bare ↦ inl (empty_lem key bare)
          | inr closed ↦ inr ((str_eq_iff rf.licence_key key).0 (ground arith))
        ],
      )
    ]
  ]

  -- What a request does to the table of those who wait.
  request-peers :
      (conn : Conn) (rf : RequestRelay) (now : ℕ) (s : Hbbr) (uuid : Str) (c : Conn)
      → lookup uuid (make_pair scheme key server_key label conn (some rf) now s).0.peers ≡ some c
      → (lookup uuid s.peers ≡ some c)
        ⊎ ((rf.uuid ≡ uuid)
            × (drop_key conn ≡ c)
            × (is_admissible scheme key server_key rf now ≡ true))
  unfolding make_pair
  request-peers conn rf now s uuid c h =
      elim (Bool-cases (is_admissible scheme key server_key rf now)) [
        | inr bad ↦ inl (ground arith)
        | inl good ↦ elim (Option-cases (lookup rf.uuid s.peers)) [
          | inr (peer, e) ↦ inl (ground (arith, lookup-remove rf.uuid uuid s.peers))
          | inl e ↦ elim (Bool-cases (str_eq rf.uuid uuid)) [
            | inl same ↦ inr (
              (str_eq_iff rf.uuid uuid).0 same,
              some_inj (ground (arith, lookup-insert rf.uuid uuid (drop_key conn) s.peers)),
              good,
            )
            | inr other ↦ inl (ground (arith, lookup-insert rf.uuid uuid (drop_key conn) s.peers))
          ]
        ]
      ]

  Reach-WasParked :
      {s t : Hbbr} (reach : Reach s t) (uuid : Str) (c : Conn)
      → lookup uuid s.peers ≡ none
      → lookup uuid t.peers ≡ some c
      → WasParked reach uuid c
  unfolding WasParked session_over wait_over make_pair
  Reach-WasParked here uuid c empty h = absurd (ground arith)
  Reach-WasParked (next reach (request conn none now)) uuid c empty h =
      inl (h, Reach-WasParked reach uuid c empty h)
  Reach-WasParked (next {u} reach (request conn (some rf) now)) uuid c empty h =
      elim (request-peers conn rf now u uuid c h) [
        | inl old ↦ inl (old, Reach-WasParked reach uuid c empty old)
        | inr (same, kept, good) ↦ inr (rf, refl, same, kept, is_admissible-HasGrant rf now good)
      ]
  Reach-WasParked (next reach (close addr)) uuid c empty h =
      (h, Reach-WasParked reach uuid c empty h)
  Reach-WasParked (next {u} reach (give_up gone)) uuid c empty h =
      let old : lookup uuid u.peers ≡ some c = ground (arith, lookup-remove gone uuid u.peers) in
      (old, Reach-WasParked reach uuid c empty old)

-- Two streams that become raw are those that met.
raw_pair-addr : (x y a b : Conn) → raw_pair x y ≡ paired a b → (a.addr ≡ x.addr) × (b.addr ≡ y.addr)
raw_pair-addr x y a b h = ground arith

-- The relay when it starts: no one waits, and no session runs.
abbrev pub started : List Str → List Str → Hbbr
started blacklist blocklist = record {
  peers = [];
  usage = [];
  session_labels = [];
  blacklist = blacklist;
  blocklist = blocklist;
}

-- In every state that the relay reaches from its start, by requests, ends of sessions and ends of
-- waits in any order: when a request is paired, its text is a grant of the server's key at that time,
-- and the licence key matches if there is one; it is joined to the connection that waited under the
-- text, which in that history came to wait by a request that had the grant, and the licence key, when
-- it came, and which waited since then; and after it no one waits under that text.
pub make_pair-granted :
    (scheme : Scheme) (key : Str) (server_key : Option scheme.PublicKey) (label : Str → Str)
    (blacklist blocklist : List Str) (s : Hbbr) (conn a b : Conn) (rf : RequestRelay) (now : ℕ)
    (reach : Reach scheme key server_key label (started blacklist blocklist) s)
    → (make_pair scheme key server_key label conn (some rf) now s).1 ≡ paired a b
    → HasGrant scheme key server_key label rf now
      × (a.addr ≡ conn.addr)
      × ((peer : Conn) × (b.addr ≡ peer.addr)
          × (lookup rf.uuid s.peers ≡ some peer)
          × WasParked scheme key server_key label reach rf.uuid peer)
      × (lookup rf.uuid (make_pair scheme key server_key label conn (some rf) now s).0.peers ≡ none)
unfolding make_pair lookup
make_pair-granted scheme key server_key label blacklist blocklist s conn a b rf now reach h =
    elim (Bool-cases (is_admissible scheme key server_key rf now)) [
      | inr bad ↦ absurd (ground arith)
      | inl good ↦ elim (Option-cases (lookup rf.uuid s.peers)) [
        | inl e ↦ absurd (ground arith)
        | inr (peer, e) ↦
            let (left, right) = raw_pair-addr (drop_key conn) peer a b (ground arith) in
            (
              is_admissible-HasGrant scheme key server_key label rf now good,
              left,
              (
                peer,
                right,
                e,
                Reach-WasParked scheme key server_key label reach rf.uuid peer refl e,
              ),
              ground (arith, lookup-remove rf.uuid rf.uuid s.peers, str_eq_refl rf.uuid),
            )
      ]
    ]
