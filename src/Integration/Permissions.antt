-- ===== src/Integration/Permissions.antt =====
-- The allowlist and its policies (src/nemo_integration.rs).
pub mod Targets
pub mod Eviction
pub mod Updates
use rustdesk_server_nemo.Base.{
  ℕ, ◌+◌, ◌^◌, ◌%◌, ◌-◌, Bool, true, false, not, ◌&&◌, ◌||◌, Option, none, some, List, [], ◌∷◌,
  ◌++◌, length, retain, all, any, Str, Dict, codes, lookup, insert, remove, contains_key, str_eq,
  str_mem, is_empty, trim, ◌==◌, if◌then◌else◌, Result, ok, err, sat_add,
}
use rustdesk_server_nemo.Integration.Config.{
  UserManagedPolicy, UserPermission, Session, Config, World, empty_policy, empty_permission,
  persist, persist_sessions, set_config,
}
use rustdesk_server_nemo.Integration.Names.{normalize_lookup_username}

-- `PermissionsUpdate`.
pub record PermissionsUpdate : Type 0 where
  pub version : Option ℕ
  pub permissions : Option (Dict UserPermission)
  pub default_targets : Option (List Str)
  pub require_login : Option Bool
  pub default_policy_name : Option Str
  pub admin_policy : Option UserManagedPolicy

-- `check_permissions_version`, less the two numbers in the text of its error.
unfoldable pub check_permissions_version : Option ℕ → ℕ → Result (Unit {0})
check_permissions_version none server = ok tt
check_permissions_version (some v) server =
    if v == server then ok tt else err (codes "version mismatch")

-- The loop of `normalize_targets`.
unfoldable pub normalize_targets_from : List Str → List Str → List Str
normalize_targets_from [] out = out
normalize_targets_from (t ∷ ts) out =
    normalize_targets_from ts (
      if is_empty (trim t) then out else if str_mem (trim t) out then out else out ++ (trim t ∷ []))

-- `normalize_targets`.
unfoldable pub normalize_targets : List Str → List Str
unfolding normalize_targets_from
normalize_targets targets = normalize_targets_from targets []

-- The equality of two `HashMap<String, String>`: as many entries, and each of one in the other.
abbrev pub options_eq : Dict Str → Dict Str → Bool
options_eq a b =
    (length a == length b)
    && all (λ (e : Str × Str). elim (lookup e.0 b) [ none ↦ false | some v ↦ str_eq e.1 v ]) a

abbrev pub bool_eq : Bool → Bool → Bool
bool_eq true b = b
bool_eq false b = not b

-- `UserManagedPolicy: PartialEq`.
abbrev pub policy_eq : UserManagedPolicy → UserManagedPolicy → Bool
policy_eq a b =
    bool_eq a.allow_user_override b.allow_user_override && options_eq a.options b.options

-- `Option<T>: PartialEq`.
abbrev pub option_eq : {A : Type 0} → (A → A → Bool) → Option A → Option A → Bool
option_eq eq none none = true
option_eq eq none (some b) = false
option_eq eq (some a) none = false
option_eq eq (some a) (some b) = eq a b

-- `Vec<String>: PartialEq`.
unfoldable pub targets_eq : List Str → List Str → Bool
targets_eq [] [] = true
targets_eq [] (b ∷ bs) = false
targets_eq (a ∷ as') [] = false
targets_eq (a ∷ as') (b ∷ bs) = str_eq a b && targets_eq as' bs

-- The permission of a user is other than it was, in a way that ends the user's sessions.
unfoldable pub is_changed : Option UserPermission → Option UserPermission → Bool
is_changed old none = true
is_changed none (some n) = true
is_changed (some o) (some n) =
    (o.enabled && not n.enabled)
    || (not (targets_eq o.allowed_targets n.allowed_targets)
        || (not (bool_eq o.is_admin n.is_admin)
            || not (policy_eq o.policy n.policy && option_eq str_eq o.policy_name n.policy_name)))

-- `evict_sessions_with_changed_permissions`: its last loop, and the device keys that it lists.
unfoldable pub evict_tokens : List Str → Dict Session → List Str → Dict Session × List Str
evict_tokens [] sessions keys = (sessions, keys)
evict_tokens (token ∷ tokens) sessions keys = elim (lookup token sessions) [
  | none ↦ evict_tokens tokens sessions keys
  | some s ↦ evict_tokens tokens (remove token sessions) (
      if not (is_empty s.device_key_pub) && not (str_mem s.device_key_pub keys)
      then keys ++ (s.device_key_pub ∷ [])
      else keys)
]

module _ (to_lowercase : Str → Str) where
  -- The test of `evict_sessions_with_changed_permissions`.
  abbrev pub must_evict : Dict UserPermission → Dict UserPermission → Session → Bool
  must_evict old new s =
      let key = normalize_lookup_username to_lowercase s.username in
      is_changed (lookup key old) (lookup key new)

  -- The tokens to evict.
  unfoldable pub to_evict : Dict UserPermission → Dict UserPermission → Dict Session → List Str
  to_evict old new [] = []
  to_evict old new ((token, s) ∷ m) =
      if must_evict old new s then token ∷ to_evict old new m else to_evict old new m

  -- `evict_sessions_with_changed_permissions`. The file goes when no session is left.
  unfoldable pub evict_sessions :
      Dict UserPermission → Dict UserPermission → World → World × List Str
  unfolding to_evict evict_tokens
  evict_sessions old new w =
      let tokens = to_evict old new w.sessions in
      let (sessions, keys) = evict_tokens tokens w.sessions [] in
      let w1 = record w { sessions = sessions } in
      (
        if is_empty tokens
            then w1
            else if is_empty sessions
            then (if w.disk_ok then record w1 { saved_sessions = none } else w1)
            else persist_sessions w1,
        keys,
      )

  -- The map of `update.permissions`, keys lower-cased and targets tidied.
  unfoldable pub normalize_permissions :
      Dict UserPermission → Dict UserPermission → Dict UserPermission
  normalize_permissions [] out = out
  normalize_permissions ((k, v) ∷ m) out = normalize_permissions m (
      insert (normalize_lookup_username to_lowercase k)
        (record v { allowed_targets = normalize_targets v.allowed_targets }) out)

  -- The assignments of `update_permissions` to the configuration.
  unfoldable pub apply_update : PermissionsUpdate → Config → Config
  unfolding normalize_permissions
  apply_update u c = record c {
    permissions = elim u.permissions [
      | none ↦ c.permissions
      | some perms ↦ normalize_permissions perms []
    ];
    default_targets = elim u.default_targets [
      | none ↦ c.default_targets
      | some targets ↦ normalize_targets targets
    ];
    require_login = elim u.require_login [ none ↦ c.require_login | some v ↦ v ];
    default_policy_name = elim u.default_policy_name [
      | none ↦ c.default_policy_name
      | some name ↦ if is_empty (trim name) then none else some name
    ];
    admin_policy = elim u.admin_policy [ none ↦ c.admin_policy | some p ↦ p ];
    permissions_version = sat_add (2 ^ 64 - 1) c.permissions_version 1;
  }

  -- `update_permissions`: the new permissions, their version, and the device keys whose sessions
  -- ended.
  unfoldable pub update_permissions :
      PermissionsUpdate → World → World × Result (Dict UserPermission × ℕ × List Str)
  unfolding check_permissions_version
  update_permissions u w = elim (check_permissions_version u.version w.config.permissions_version) [
    | err e ↦ (w, err e)
    | ok _ ↦
        let c = apply_update u w.config in
        let w1 = persist (set_config w c) in
        let w2 = record w1 { ab_version = ((w1.ab_version + 1) % 2 ^ 64) } in
        let (w3, keys) = evict_sessions w.config.permissions c.permissions w2 in
        (w3, ok (c.permissions, c.permissions_version, keys))
  ]

  abbrev keep_or : Str → Str → Str
  keep_or old new = if is_empty new then old else new

  -- `record_login`: whether the user is there, is enabled and is an admin.
  unfoldable pub record_login : Str → Str → Str → Str → World → World × (Bool × Bool × Bool)
  record_login username display_name email now w =
      let key = normalize_lookup_username to_lowercase username in
      elim (lookup key w.config.permissions) [
        | none ↦ (w, (false, false, false))
        | some p ↦ (
          persist (
              set_config w (record (w.config) {
                permissions =
                    insert key
                      (record p {
                        display_name = keep_or p.display_name display_name;
                        email = keep_or p.email email;
                        last_login = now;
                      })
                      w.config.permissions;
              })),
          (true, p.enabled, p.is_admin),
        )
      ]

  -- The entry that `set_user_enabled` writes for a user: the user's own, or one that it makes.
  unfoldable pub entry_as_set : Option UserPermission → Bool → Str → Str → Config → UserPermission
  entry_as_set none enabled display_name email c = record empty_permission {
    allowed_targets = c.default_targets;
    enabled = enabled;
    display_name = display_name;
    email = email;
  }
  entry_as_set (some p) enabled display_name email c = record p {
    enabled = enabled;
    display_name = keep_or p.display_name display_name;
    email = keep_or p.email email;
  }

  -- `permissions.insert`, with the next version.
  unfoldable pub with_entry : Str → UserPermission → Config → Config
  with_entry key p c = record c {
    permissions = insert key p c.permissions;
    permissions_version = sat_add (2 ^ 64 - 1) c.permissions_version 1;
  }

  -- `set_user_enabled`.
  unfoldable pub set_user_enabled :
      Str → Bool → Str → Str → World → World × (Str × UserPermission × ℕ × List Str)
  unfolding entry_as_set with_entry
  set_user_enabled username enabled display_name email w =
      let key = normalize_lookup_username to_lowercase username in
      let p = entry_as_set (lookup key w.config.permissions) enabled display_name email w.config in
      let c = with_entry key p w.config in
      let (w2, keys) =
        evict_sessions w.config.permissions c.permissions (persist (set_config w c)) in
      (w2, (key, p, c.permissions_version, keys))

  -- A name that is given and not empty, if it names a policy.
  abbrev pub named_policy : Option Str → Config → Option UserManagedPolicy
  named_policy none c = none
  named_policy (some name) c = if is_empty name then none else lookup name c.policies

  -- `user_policy`.
  unfoldable pub user_policy : Str → World → UserManagedPolicy
  user_policy username w =
      elim (lookup (normalize_lookup_username to_lowercase username) w.config.permissions) [
        | none ↦ empty_policy
        | some p ↦
            if p.is_admin
            then record (w.config.admin_policy) { allow_user_override = true }
            else elim (named_policy p.policy_name w.config) [
              | some named ↦ named
              | none ↦
                  if is_empty p.policy.options
                  then elim (named_policy w.config.default_policy_name w.config) [
                    | some named ↦ named
                    | none ↦ p.policy
                  ]
                  else p.policy
            ]
      ]

-- `user_allowed_target`.
unfoldable pub user_allowed_target : Bool → List Str → Str → Bool
user_allowed_target is_admin allowed_targets target_id =
    if is_admin then true else any (λ t. str_eq t (codes "*") || str_eq t target_id) allowed_targets
