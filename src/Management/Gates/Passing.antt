-- ===== src/Management/Gates/Passing.antt =====
-- What a controller shows that passes the gate of its own policy (src/nemo_management.rs).
use rustdesk_server_nemo.Base.{
  ℕ, ◌≡◌, ◌≢◌, refl, sym, ap, ◌⊎◌, inl, inr, ◌↔◌, false, Option, none, some, [], ◌∷◌, Str, codes,
  lookup, trim, is_empty, str_eq, str_eq_iff, ◌==◌, arith, some_inj, Bool-cases, Option-cases, ok,
}
use rustdesk_server_nemo.Management.Controller.{
  NemoSource, Resolved, identity, refusal, controller_source_any, resolve_controller_identity,
}
use rustdesk_server_nemo.Management.Controller.Identity.{
  IsController, Reaches, resolve_controller_identity_iff, target_allowed_iff,
}
use rustdesk_server_nemo.Management.Policy.{PolicyText, management_policy_from_peer}
use rustdesk_server_nemo.Management.Gates.{
  uuid_differs, is_blocked, is_set_to, row_rejection, controller_policy_rejection,
  controller_policy_rejection_from_field,
}
use rustdesk_server_nemo.Peers.{PeerMap}
use rustdesk_server_nemo.Peers.Table.{Row, get_peer}
use rustdesk_server_nemo.Peers.Table.Queries.{answer-cases}

Resolved-cases :
    (r : Resolved)
    → ((id : Str) × (uuid : Option Str) × (r ≡ identity id uuid))
      ⊎ ((id : Str) × (reason : Str) × (r ≡ refusal id reason))
Resolved-cases (identity id uuid) = inl (id, uuid, refl)
Resolved-cases (refusal id reason) = inr (id, reason, refl)

uuid_iff :
    (uuid : Option Str) (source : Row)
    → (uuid_differs uuid source ≡ false)
      ↔ ((uuid ≡ none) ⊎ ((uuid ≡ some source.uuid) × (source.uuid ≢ [])))
uuid_iff none source = (λ _. inl refl, λ _. refl)
uuid_iff (some []) source = (
  λ h. absurd (cc),
  λ h. elim h [ inl e ↦ absurd (cc) | inr (same, full) ↦ absurd (full (sym (some_inj same))) ],
)
uuid_iff (some (c ∷ u)) source = (
  λ h.
      let same : source.uuid ≡ c ∷ u = (str_eq_iff source.uuid (c ∷ u)).0 (ground arith) in
      inr (ap some (sym same), λ e. absurd (cc (same, e))),
  λ h. elim h [
    | inl e ↦ absurd (cc)
    | inr (same, full) ↦
        let e : source.uuid ≡ c ∷ u = sym (some_inj same) in
        ground (arith, (str_eq_iff source.uuid (c ∷ u)).1 e)
  ],
)

blocked_iff : (status : Option ℕ) → (is_blocked status ≡ false) ↔ (status ≢ some 0)
blocked_iff none = (λ _ e. absurd (cc), λ _. refl)
blocked_iff (some n) = (
  λ h e. absurd (ground arith),
  λ h. elim (Bool-cases (n == 0)) [
    | inl zero_status ↦ absurd (h (ap some (ground arith)))
    | inr other ↦ other
  ],
)

set_iff : (value : Str) (o : Option Str) → (is_set_to value o ≡ false) ↔ (o ≢ some value)
set_iff value none = (λ _ e. absurd (cc), λ _. refl)
set_iff value (some v) = (
  λ h e. absurd (ground (arith, (str_eq_iff v value).1 (some_inj e))),
  λ h. elim (Bool-cases (str_eq v value)) [
    | inl same ↦ absurd (h (ap some ((str_eq_iff v value).0 same)))
    | inr other ↦ other
  ],
)

module _ (text : PolicyText) where
  -- What the row of a controller must say: its uuid is the one of the identity, if there is one, which
  -- is not empty; its status is not 0, the blocked one; its policy does not disable outgoing
  -- connections, and its list of targets reaches the target.
  pub record RowPasses (source : Row) (uuid : Option Str) (target_id : Str) : Type 0 where
    pub same_uuid : (uuid ≡ none) ⊎ ((uuid ≡ some source.uuid) × (source.uuid ≢ []))
    pub not_blocked : source.status ≢ some 0
    pub outbound :
        lookup
          (codes "nemo-outbound-enabled")
          (management_policy_from_peer text source.management_policy).options
        ≢ some (codes "N")
    pub reaches :
        Reaches
          (lookup
            (codes "nemo-outbound-targets")
            (management_policy_from_peer text source.management_policy).options)
          target_id

  row_rejection-none :
      (source : Row) (uuid : Option Str) (target_id : Str)
      → row_rejection text source uuid target_id ≡ none
      → RowPasses source uuid target_id
  unfolding row_rejection
  row_rejection-none source uuid target_id h = record {
    same_uuid = (uuid_iff uuid source).0 (ground arith);
    not_blocked = (blocked_iff source.status).0 (ground arith);
    outbound = (set_iff (codes "N") _).0 (ground arith);
    reaches = (target_allowed_iff _ target_id).0 (ground arith);
  }

  row_rejection-passes :
      (source : Row) (uuid : Option Str) (target_id : Str)
      → RowPasses source uuid target_id
      → row_rejection text source uuid target_id ≡ none
  unfolding row_rejection
  row_rejection-passes source uuid target_id p = ground (
    arith,
    (uuid_iff uuid source).1 p.same_uuid,
    (blocked_iff source.status).1 p.not_blocked,
    (set_iff (codes "N") (
          lookup (codes "nemo-outbound-enabled")
            (management_policy_from_peer text source.management_policy).options)).1
        p.outbound,
    (target_allowed_iff
          (lookup (codes "nemo-outbound-targets")
            (management_policy_from_peer text source.management_policy).options)
          target_id).1
        p.reaches,
  )

  -- The controller is named, and its row in the table passes.
  pub record Registered (pm : PeerMap) (id : Str) (uuid : Option Str) (target_id : Str)
      : Type 0 where
    pub source : Row
    pub named : is_empty (trim id) ≡ false
    pub found : get_peer (trim id) pm.db ≡ ok (some source)
    pub passes : RowPasses source uuid target_id

  policy_rejection-none :
      (pm : PeerMap) (id : Str) (uuid : Option Str) (target_id : Str)
      → controller_policy_rejection text pm id uuid target_id ≡ none
      → Registered pm id uuid target_id
  unfolding controller_policy_rejection
  policy_rejection-none pm id uuid target_id h = elim (Bool-cases (is_empty (trim id))) [
    | inl e ↦ absurd (ground arith)
    | inr named ↦ elim (answer-cases (get_peer (trim id) pm.db)) [
      | inl (source, e) ↦ record {
        source = source;
        named = named;
        found = e;
        passes = row_rejection-none source uuid target_id (ground arith);
      }
      | inr (inl e) ↦ absurd (ground arith)
      | inr (inr (x, e)) ↦ absurd (ground arith)
    ]
  ]

  policy_rejection-passes :
      (pm : PeerMap) (id : Str) (uuid : Option Str) (target_id : Str)
      → Registered pm id uuid target_id
      → controller_policy_rejection text pm id uuid target_id ≡ none
  unfolding controller_policy_rejection
  policy_rejection-passes pm id uuid target_id p =
      rw (p.named, p.found) (row_rejection-passes p.source uuid target_id p.passes)

  -- A controller passes exactly when it has an identity, the device that the connection proved, if the
  -- marker does not name another, or, if it proved none, the one that the marker names; the table has a
  -- row of the trimmed id; and the row has the uuid of the marker, if there is a marker, is not blocked,
  -- does not disable outgoing connections, and has no list of targets or a blank one or one that names
  -- the target or `*`.
  pub policy_rejection_from_field-none_iff :
      (decode : Str → Option Str) (pm : PeerMap) (proto : Option NemoSource)
      (source_field target_id : Str) (authed_peer_id : Option Str)
      → (controller_policy_rejection_from_field text decode pm proto source_field target_id
            authed_peer_id
          ≡ none)
        ↔ ((id : Str) × (uuid : Option Str) × IsController authed_peer_id
              (controller_source_any decode proto source_field)
              id
              uuid
            × Registered pm id uuid target_id)
  unfolding controller_policy_rejection_from_field
  policy_rejection_from_field-none_iff decode pm proto source_field target_id authed_peer_id = (
    λ h.
        elim (Resolved-cases
          (resolve_controller_identity decode proto source_field authed_peer_id)) [
            | inl (id, uuid, e) ↦ (
              id,
              uuid,
              (resolve_controller_identity_iff decode proto source_field authed_peer_id id uuid).0
                  e,
              policy_rejection-none pm id uuid target_id
                  (elim (Option-cases (controller_policy_rejection text pm id uuid target_id)) [
                    | inl none_left ↦ none_left
                    | inr (reason, r) ↦ absurd (ground arith)
                  ]),
            )
            | inr (id, reason, e) ↦ absurd (ground arith)
          ],
    λ (id, uuid, is, p). ground (
      arith,
      (resolve_controller_identity_iff decode proto source_field authed_peer_id id uuid).1 is,
      policy_rejection-passes pm id uuid target_id p,
    ),
  )
