-- ===== src/Peers/Mirror/Lookups.antt =====
-- Looking a peer up (src/peer.rs, `get` and `get_or`) keeps the mirror of the table.
use rustdesk_server_nemo.Base.{
  ℕ, ◌≡◌, ◌⊎◌, inl, inr, true, false, none, some, Str, find, arith, Bool-cases, Option-cases,
}
use rustdesk_server_nemo.Peers.{
  Peer, PeerMap, Json, get, get_or, write_peer, peer_of_row, default_peer,
}
use rustdesk_server_nemo.Peers.Table.{Row, has_id, get_peer}
use rustdesk_server_nemo.Peers.Table.Queries.{found-not_strange}
use rustdesk_server_nemo.Peers.Mirror.{Reflects, put-Reflects}

module _ (json : Json) where
  pub get-Reflects :
      (id : Str) (now : ℕ) (pm : PeerMap) → Reflects pm → Reflects (get json id now pm).0
  unfolding get get_peer
  get-Reflects id now pm r = elim (Option-cases (pm.map id)) [
    | inr (p, e) ↦ rw (e, get) r
    | inl e ↦ elim (Bool-cases pm.db.up) [
      | inr down ↦ rw (e, get, down) r
      | inl up ↦ elim (Option-cases (find (has_id id) pm.db.rows)) [
        | inl f ↦ rw (e, get, up, f) r
        | inr (row, f) ↦
            rw (e, get, up, f)
              (put-Reflects id _ pm r (record {
                status = ground arith;
                own = λ _. found-not_strange id pm.db.rows row r.keyed f;
              }))
      ]
    ]
  ]

  pub get-present :
      (id : Str) (now : ℕ) (pm : PeerMap) (p : Peer)
      → pm.map id ≡ some p
      → get json id now pm ≡ (pm, some p)
  unfolding get
  get-present id now pm p e = ground arith

  -- `get` of an id that is nowhere.
  pub get-missing :
      (id : Str) (now : ℕ) (pm : PeerMap)
      → pm.map id ≡ none
      → (pm.db.up ≡ false) ⊎ (find (has_id id) pm.db.rows ≡ none)
      → get json id now pm ≡ (pm, none)
  unfolding get get_peer
  get-missing id now pm e (inl down) = ground arith
  get-missing id now pm e (inr f) = elim (Bool-cases pm.db.up) [
    | inr down ↦ ground arith
    | inl up ↦ ground arith
  ]

  pub get-row :
      (id : Str) (now : ℕ) (pm : PeerMap) (row : Row)
      → pm.map id ≡ none
      → pm.db.up ≡ true
      → find (has_id id) pm.db.rows ≡ some row
      → get json id now pm
        ≡ (write_peer id (peer_of_row json now row) pm, some (peer_of_row json now row))
  unfolding get get_peer
  get-row id now pm row e up f = ground arith

  pub get_or-found :
      (id : Str) (now : ℕ) (pm pm1 : PeerMap) (p : Peer)
      → get json id now pm ≡ (pm1, some p)
      → get_or json id now pm ≡ (pm1, p)
  unfolding get_or
  get_or-found id now pm pm1 p e = ground arith

  pub get_or-missing :
      (id : Str) (now : ℕ) (pm : PeerMap)
      → get json id now pm ≡ (pm, none)
      → get_or json id now pm ≡ (write_peer id (default_peer now) pm, default_peer now)
  unfolding get_or
  get_or-missing id now pm e = ground arith

  -- A peer that is neither in memory nor in the table starts as the default.
  pub get_or-Reflects :
      (id : Str) (now : ℕ) (pm : PeerMap)
      → pm.db.up ≡ true
      → Reflects pm
      → Reflects (get_or json id now pm).0
  unfolding get_or
  get_or-Reflects id now pm up r = elim (Option-cases (pm.map id)) [
    | inr (p, e) ↦ rw (get_or-found id now pm pm p (get-present id now pm p e)) r
    | inl e ↦ elim (Option-cases (find (has_id id) pm.db.rows)) [
      | inr (row, f) ↦ rw (get_or-found id now pm _ _ (get-row id now pm row e up f)) (
          put-Reflects id _ pm r (record {
            status = ground arith;
            own = λ _. found-not_strange id pm.db.rows row r.keyed f;
          }))
      | inl f ↦
          rw (get_or-missing id now pm (get-missing id now pm e (inr f)))
            (put-Reflects id _ pm r (record { status = ground arith; own = λ h. absurd (cc) }))
    ]
  ]
