-- ===== src/Integration/Permissions/Updates.antt =====
-- A whole change of the allowlist (src/nemo_integration.rs): the version guard of
-- `update_permissions`, and the sessions that it and `set_user_enabled` leave.
use rustdesk_server_nemo.Base.{
  ℕ, ◌+◌, ◌^◌, ◌%◌, ◌-◌, ◌<◌, ◌≡◌, refl, sym, ap, ◌∙◌, subst, inl, inr, Bool, false, Option, none,
  some, List, Str, Dict, codes, lookup, lookup-insert, str_eq_refl, arith, Bool-cases, Option-cases,
  ok, err, Result-cases, IsMap, sat_add, ◌==◌, some_inj,
}
use rustdesk_server_nemo.Integration.Config.{
  UserPermission, Session, Config, World, persist, set_config,
}
use rustdesk_server_nemo.Integration.Names.{normalize_lookup_username}
use rustdesk_server_nemo.Integration.Permissions.{
  PermissionsUpdate, must_evict, evict_sessions, update_permissions, apply_update,
  check_permissions_version, set_user_enabled, entry_as_set, with_entry,
}
use rustdesk_server_nemo.Integration.Permissions.Eviction.{
  lookup-evict_sessions, Unchanged, unchanged_lem, evict_sessions-config,
}

accepted-inv :
    (client : Option ℕ) (server v : ℕ)
    → client ≡ some v
    → check_permissions_version client server ≡ ok tt
    → server ≡ v
unfolding check_permissions_version
accepted-inv none server v e h = absurd (cc)
accepted-inv (some x) server v e h = ground arith

module _ (to_lowercase : Str → Str) where
  -- A session that an eviction leaves was there, and its user's permission did not change.
  evict_sessions-Unchanged :
      (old new : Dict UserPermission) (w : World) (t : Str) (s : Session)
      → IsMap w.sessions
      → lookup t (evict_sessions to_lowercase old new w).0.sessions ≡ some s
      → (lookup t w.sessions ≡ some s)
        × Unchanged
            (lookup (normalize_lookup_username to_lowercase s.username) old)
            (lookup (normalize_lookup_username to_lowercase s.username) new)
  evict_sessions-Unchanged old new w t s unique h =
      let left = lookup-evict_sessions to_lowercase old new w t unique in
      elim (Option-cases (lookup t w.sessions)) [
        | inl e ↦ absurd (ground (arith, left))
        | inr (s0, e) ↦ elim (Bool-cases (must_evict to_lowercase old new s0)) [
          | inl out ↦ absurd (ground (arith, left))
          | inr stays ↦
              let same : s0 ≡ s = some_inj (ground (arith, left)) in
              (
                e ∙ ap some same,
                unchanged_lem _ _
                    (subst (λ x. must_evict to_lowercase old new x ≡ false) same stays),
              )
        ]
      ]

  -- The configuration that an update evicts under.
  abbrev updated : PermissionsUpdate → World → World
  updated u w = record (persist (set_config w (apply_update to_lowercase u w.config))) {
    ab_version = ((w.ab_version + 1) % 2 ^ 64);
  }

  update-accepted :
      (u : PermissionsUpdate) (w : World)
      → check_permissions_version u.version w.config.permissions_version ≡ ok tt
      → (update_permissions to_lowercase u w).0
        ≡ (evict_sessions to_lowercase w.config.permissions
            (apply_update to_lowercase u w.config).permissions
            (updated u w)).0
  unfolding update_permissions
  update-accepted u w e = ground arith

  config-updated :
      (u : PermissionsUpdate) (w : World)
      → (updated u w).config ≡ apply_update to_lowercase u w.config
  config-updated u w = ground arith

  sessions-updated : (u : PermissionsUpdate) (w : World) → (updated u w).sessions ≡ w.sessions
  sessions-updated u w = ground arith

  version-apply_update :
      (u : PermissionsUpdate) (c : Config)
      → (apply_update to_lowercase u c).permissions_version
        ≡ sat_add (2 ^ 64 - 1) c.permissions_version 1
  unfolding apply_update
  version-apply_update u c = refl

  update-stale :
      (u : PermissionsUpdate) (w : World) (v : ℕ)
      → u.version ≡ some v
      → (v == w.config.permissions_version) ≡ false
      → update_permissions to_lowercase u w ≡ (w, err (codes "version mismatch"))
  unfolding update_permissions check_permissions_version
  update-stale u w v e stale = ground arith

  update-inv :
      (u : PermissionsUpdate) (w w' : World) (r : Dict UserPermission × ℕ × List Str)
      → update_permissions to_lowercase u w ≡ (w', ok r)
      → (check_permissions_version u.version w.config.permissions_version ≡ ok tt)
        × (w'
            ≡ (evict_sessions to_lowercase w.config.permissions
                (apply_update to_lowercase u w.config).permissions
                (updated u w)).0)
  unfolding update_permissions
  update-inv u w w' r h =
      elim (Result-cases (check_permissions_version u.version w.config.permissions_version)) [
        | inl (x, e) ↦ (e, sym (ap (λ p. p.0) h) ∙ update-accepted u w e)
        | inr (e, e') ↦ absurd (ground arith)
      ]

  -- After an update that the server accepts, every session that is still there was there before it,
  -- and its user is still on the list, not newly disabled, with the targets, the admin flag, the
  -- policy and the named policy that the user had. The session table is a map.
  pub update_permissions-Unchanged :
      (u : PermissionsUpdate) (w w' : World) (r : Dict UserPermission × ℕ × List Str)
      → update_permissions to_lowercase u w ≡ (w', ok r)
      → IsMap w.sessions
      → (t : Str) (s : Session) → lookup t w'.sessions ≡ some s
      → (lookup t w.sessions ≡ some s)
        × Unchanged
            (lookup (normalize_lookup_username to_lowercase s.username) w.config.permissions)
            (lookup (normalize_lookup_username to_lowercase s.username) w'.config.permissions)
  update_permissions-Unchanged u w w' r h unique t s found =
      let (accepted, e) = update-inv u w w' r h in
      let c = apply_update to_lowercase u w.config in
      let left =
        evict_sessions-Unchanged w.config.permissions c.permissions (updated u w) t s
          (subst IsMap (sym (sessions-updated u w)) unique)
          (subst (λ x. lookup t x.sessions ≡ some s) e found) in
      let conf : w'.config ≡ c =
        ap (λ x. x.config) e ∙ (evict_sessions-config to_lowercase _ _ _ ∙ config-updated u w) in
      let key = normalize_lookup_username to_lowercase s.username in
      (
        sym (ap (lookup t) (sessions-updated u w)) ∙ left.0,
        subst (λ x. Unchanged (lookup key w.config.permissions) (lookup key x.permissions))
            (sym conf) left.1,
      )

  -- Of two saves that were loaded at the same version, the one that comes second is refused and
  -- changes nothing, short of the largest version.
  pub update_permissions-conflict :
      (u u2 : PermissionsUpdate) (w w' : World) (r : Dict UserPermission × ℕ × List Str) (v : ℕ)
      → update_permissions to_lowercase u w ≡ (w', ok r)
      → u.version ≡ some v
      → u2.version ≡ some v
      → v < 2 ^ 64 - 1
      → update_permissions to_lowercase u2 w' ≡ (w', err (codes "version mismatch"))
  unfolding update_permissions
  update_permissions-conflict u u2 w w' r v h first second small =
      let (accepted, e) = update-inv u w w' r h in
      let conf : w'.config ≡ apply_update to_lowercase u w.config =
        ap (λ x. x.config) e ∙ (evict_sessions-config to_lowercase _ _ _ ∙ config-updated u w) in
      let version : w'.config.permissions_version
          ≡ sat_add (2 ^ 64 - 1) w.config.permissions_version 1 =
        ap (λ x. x.permissions_version) conf ∙ version-apply_update u w.config in
      let read : w.config.permissions_version ≡ v = accepted-inv u.version _ v first accepted in
      update-stale u2 w' v second (ground arith)

  enabled-entry_as_set :
      (old : Option UserPermission) (enabled : Bool) (display_name email : Str) (c : Config)
      → (entry_as_set to_lowercase old enabled display_name email c).enabled ≡ enabled
  unfolding entry_as_set
  enabled-entry_as_set none enabled display_name email c = refl
  enabled-entry_as_set (some p) enabled display_name email c = refl

  abbrev written : Str → UserPermission → World → World
  written key p w = persist (set_config w (with_entry to_lowercase key p w.config))

  sessions-written :
      (key : Str) (p : UserPermission) (w : World) → (written key p w).sessions ≡ w.sessions
  sessions-written key p w = ground arith

  lookup-with_entry :
      (key : Str) (p : UserPermission) (c : Config)
      → lookup key (with_entry to_lowercase key p c).permissions ≡ some p
  unfolding with_entry
  lookup-with_entry key p c = ground (arith, lookup-insert key key p c.permissions, str_eq_refl key)

  set_user_enabled-world :
      (username : Str) (enabled : Bool) (display_name email : Str) (w : World)
      → (set_user_enabled to_lowercase username enabled display_name email w).0 ≡ (
          let key = normalize_lookup_username to_lowercase username in
          let p =
            entry_as_set to_lowercase
              (lookup key w.config.permissions)
              enabled
              display_name
              email
              w.config in
          (evict_sessions to_lowercase w.config.permissions
            (with_entry to_lowercase key p w.config).permissions
            (written key p w)).0)
  unfolding set_user_enabled
  set_user_enabled-world username enabled display_name email w = refl

  -- When an operator disables a user, a session of the user that is still there is one of a user who
  -- was disabled before. The session table is a map.
  pub set_user_enabled-evicts :
      (username display_name email : Str) (w : World) (t : Str) (s : Session)
      → IsMap w.sessions
      → lookup t (set_user_enabled to_lowercase username false display_name email w).0.sessions
        ≡ some s
      → normalize_lookup_username to_lowercase s.username
        ≡ normalize_lookup_username to_lowercase username
      → (p : UserPermission) × (lookup
            (normalize_lookup_username to_lowercase username)
            w.config.permissions
          ≡ some p)
        × (p.enabled ≡ false)
  set_user_enabled-evicts username display_name email w t s unique found same =
      let key = normalize_lookup_username to_lowercase username in
      let p =
        entry_as_set to_lowercase (lookup key w.config.permissions) false display_name email
          w.config in
      let (_, (o, n, was, now, e, _, _, _, _)) =
        evict_sessions-Unchanged w.config.permissions
          (with_entry to_lowercase key p w.config).permissions (written key p w) t s
          (subst IsMap (sym (sessions-written key p w)) unique)
          (subst (λ x. lookup t x.sessions ≡ some s)
            (set_user_enabled-world username false display_name email w) found) in
      let same_entry : p ≡ n = some_inj (
        sym (lookup-with_entry key p w.config)
        ∙ subst (λ k. lookup k (with_entry to_lowercase key p w.config).permissions ≡ some n) same
            now) in
      let off =
        enabled-entry_as_set (lookup key w.config.permissions) false display_name email w.config in
      (
        o,
        subst (λ k. lookup k w.config.permissions ≡ some o) same was,
        ground (arith, off, same_entry),
      )
