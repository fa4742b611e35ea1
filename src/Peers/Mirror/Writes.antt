-- ===== src/Peers/Mirror/Writes.antt =====
-- The operator's writes (src/peer.rs: a status, a policy, a deletion) keep the mirror of the table.
use rustdesk_server_nemo.Base.{
  ℕ, ◌≡◌, refl, sym, ◌∙◌, ◌⊎◌, inl, inr, true, false, not, Option, none, some, Str, str_eq,
  str_eq_iff, any, retain, arith, Bool-cases, Option-cases,
}
use rustdesk_server_nemo.Peers.{
  Peer, PeerMap, set_peer_status, set_peer_management_policy, delete_registered, put, forget,
}
use rustdesk_server_nemo.Peers.Table.{
  Row, has_id, update_rows, with_status, with_policy, set_status_row, set_policy_row, delete_row,
}
use rustdesk_server_nemo.Peers.Table.Queries.{
  any-retain-false, retain-IsKeyed, status-update_id, status_of-absent, status-retain,
  status-update_other,
}
use rustdesk_server_nemo.Peers.Mirror.{Mirrors, Reflects, table-Reflects}

-- The two ends of `set_peer_status`: no row was written, and the memory follows.
pub set_status-idle :
    (id : Str) (s : Option ℕ) (remark : Option Str) (pm : PeerMap)
    → pm.db.up ≡ false
    → (set_peer_status id s remark pm).0 ≡ pm
unfolding set_peer_status set_status_row
set_status-idle id s remark pm down = ground arith

pub set_status-apart :
    (id : Str) (s : Option ℕ) (remark : Option Str) (pm : PeerMap)
    → pm.db.up ≡ true
    → (any (has_id id) pm.db.rows ≡ false) ⊎ (pm.map id ≡ none)
    → (set_peer_status id s remark pm).0 ≡ record pm {
      db = record (pm.db) { rows = update_rows (has_id id) (with_status s remark) pm.db.rows };
    }
unfolding set_peer_status set_status_row
set_status-apart id s remark pm up (inl absent) = ground arith
set_status-apart id s remark pm up (inr e) = elim (Bool-cases (any (has_id id) pm.db.rows)) [
  | inl t ↦ ground arith
  | inr f ↦ ground arith
]

pub set_status-told :
    (id : Str) (s : Option ℕ) (remark : Option Str) (pm : PeerMap) (p : Peer)
    → pm.db.up ≡ true
    → any (has_id id) pm.db.rows ≡ true
    → pm.map id ≡ some p
    → (set_peer_status id s remark pm).0 ≡ record {
      map = put id (record p { status = s }) pm.map;
      db = record (pm.db) { rows = update_rows (has_id id) (with_status s remark) pm.db.rows };
    }
unfolding set_peer_status set_status_row
set_status-told id s remark pm p up present e = ground arith

-- `set_peer_status` tells the memory.
pub status-Reflects :
    (id : Str) (s : Option ℕ) (remark : Option Str) (pm : PeerMap)
    → Reflects pm
    → Reflects (set_peer_status id s remark pm).0
status-Reflects id s remark pm r = elim (Bool-cases pm.db.up) [
  | inr down ↦ rw (set_status-idle id s remark pm down) r
  | inl up ↦ elim (Bool-cases (any (has_id id) pm.db.rows)) [
    | inr absent ↦ rw (set_status-apart id s remark pm up (inl absent)) (
        table-Reflects (has_id id) f pm.map pm r (λ q. refl) (λ q. refl)
          (λ j q h. (
            ground (arith, (r.mirrors j q h).status, status-update_id j id f s pm.db.rows),
            (q, h, refl),
          )))
    | inl present ↦ elim (Option-cases (pm.map id)) [
      | inl e ↦ rw (set_status-apart id s remark pm up (inr e)) (
          table-Reflects (has_id id) f pm.map pm r (λ q. refl) (λ q. refl)
            (λ j q h. (
              ground (
                arith,
                (r.mirrors j q h).status,
                str_eq_iff id j,
                status-update_id j id f s pm.db.rows,
              ),
              (q, h, refl),
            )))
      | inr (p, e) ↦ rw (set_status-told id s remark pm p up present e) (
          table-Reflects (has_id id) f (put id (record p { status = s }) pm.map) pm r (λ q. refl)
            (λ q. refl)
            (λ j q h. elim (Bool-cases (str_eq id j)) [
              | inl same ↦ (
                ground (arith, status-update_id j id f s pm.db.rows),
                (p, ground (arith, str_eq_iff id j), ground arith),
              )
              | inr other ↦ (
                ground (
                  arith,
                  (r.mirrors j q (ground arith)).status,
                  status-update_id j id f s pm.db.rows,
                ),
                (q, ground arith, refl),
              )
            ]))
    ]
  ]
]
  where
    f : Row → Row
    f = with_status s remark

pub set_policy-idle :
    (id : Str) (text : Option Str) (pm : PeerMap)
    → pm.db.up ≡ false
    → (set_peer_management_policy id text pm).0 ≡ pm
unfolding set_peer_management_policy set_policy_row
set_policy-idle id text pm down = ground arith

pub set_policy-writes :
    (id : Str) (text : Option Str) (pm : PeerMap)
    → pm.db.up ≡ true
    → (set_peer_management_policy id text pm).0 ≡ record pm {
      db = record (pm.db) { rows = update_rows (has_id id) (with_policy text) pm.db.rows };
    }
unfolding set_peer_management_policy set_policy_row
set_policy-writes id text pm up = ground arith

pub policy-Reflects :
    (id : Str) (text : Option Str) (pm : PeerMap)
    → Reflects pm
    → Reflects (set_peer_management_policy id text pm).0
policy-Reflects id text pm r = elim (Bool-cases pm.db.up) [
  | inr down ↦ rw (set_policy-idle id text pm down) r
  | inl up ↦ rw (set_policy-writes id text pm up) (
      table-Reflects (has_id id) (with_policy text) pm.map pm r (λ q. refl) (λ q. refl)
        (λ j q h. (
          (r.mirrors j q h).status
              ∙ sym (
                  status-update_other j (has_id id) (with_policy text) pm.db.rows (λ q. refl)
                    (λ q. refl)),
          (q, h, refl),
        )))
]

pub delete-none : (id : Str) (pm : PeerMap) → pm.db.up ≡ false → (delete_registered id pm).0 ≡ pm
unfolding delete_registered delete_row
delete-none id pm down = ground arith

pub delete-absent :
    (id : Str) (pm : PeerMap)
    → pm.db.up ≡ true
    → any (has_id id) pm.db.rows ≡ false
    → (delete_registered id pm).0
      ≡ record pm { db = record (pm.db) { rows = retain (λ r. not (str_eq r.id id)) pm.db.rows } }
unfolding delete_registered delete_row
delete-absent id pm up absent = ground arith

pub delete-present :
    (id : Str) (pm : PeerMap)
    → pm.db.up ≡ true
    → any (has_id id) pm.db.rows ≡ true
    → (delete_registered id pm).0 ≡ record {
      map = forget id pm.map;
      db = record (pm.db) { rows = retain (λ r. not (str_eq r.id id)) pm.db.rows };
    }
unfolding delete_registered delete_row
delete-present id pm up present = ground arith

pub delete-Reflects : (id : Str) (pm : PeerMap) → Reflects pm → Reflects (delete_registered id pm).0
delete-Reflects id pm r = elim (Bool-cases pm.db.up) [
  | inr down ↦ rw (delete-none id pm down) r
  | inl up ↦ elim (Bool-cases (any (has_id id) pm.db.rows)) [
    | inr absent ↦ rw (delete-absent id pm up absent) (record {
      keyed = retain-IsKeyed _ pm.db.rows r.keyed;
      mirrors = λ j q h. record {
        status = ground (
          arith,
          (r.mirrors j q h).status,
          status-retain j id pm.db.rows,
          status_of-absent id pm.db.rows absent,
          str_eq_iff id j,
        );
        own = λ e. any-retain-false _ _ pm.db.rows ((r.mirrors j q h).own e);
      };
    })
    | inl present ↦ rw (delete-present id pm up present) (record {
      keyed = retain-IsKeyed _ pm.db.rows r.keyed;
      mirrors = λ j q h. elim (Bool-cases (str_eq id j)) [
        | inl same ↦ absurd (ground arith)
        | inr other ↦
            let m : Mirrors pm.db.rows j q = r.mirrors j q (ground arith) in
            record {
              status = ground (arith, m.status, status-retain j id pm.db.rows);
              own = λ e. any-retain-false _ _ pm.db.rows (m.own e);
            }
      ];
    })
  ]
]
