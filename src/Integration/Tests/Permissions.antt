-- ===== src/Integration/Tests/Permissions.antt =====
-- Changes of the allowlist.
use rustdesk_server_nemo.Base.{
  ℕ, ◌≡◌, refl, true, false, none, some, List, [], ◌∷◌, any, all, Str, Dict, codes, str_eq, trim,
  is_whitespace, lookup, insert, split_once, arith, Result, ok, err,
}
use rustdesk_server_nemo.Integration.Config.{
  UserPermission, World, empty_permission, default_config,
}
use rustdesk_server_nemo.Integration.Names.{normalize_lookup_username, raw_username}
use rustdesk_server_nemo.Integration.Permissions.{
  PermissionsUpdate, normalize_targets, normalize_targets_from, update_permissions, apply_update,
  check_permissions_version, evict_sessions, to_evict, evict_tokens, is_changed, targets_eq,
  set_user_enabled,
}
use rustdesk_server_nemo.Integration.Permissions.Eviction.{Unchanged}
use rustdesk_server_nemo.Integration.Permissions.Updates.{
  update_permissions-Unchanged, update_permissions-conflict,
}
use rustdesk_server_nemo.Integration.Tests.Data.{ann, key_b, session_of, world}
use rustdesk_server_nemo.Integration.Tests.Sessions.{world-IsMap}

-- Names that are lower case already.
abbrev lower : Str → Str
lower s = s

abbrev targets : List Str
targets = codes " 111222" ∷ codes "*" ∷ codes "" ∷ codes "111222 " ∷ []

targets_run : normalize_targets targets ≡ codes "111222" ∷ codes "*" ∷ []
unfolding normalize_targets normalize_targets_from trim is_whitespace any str_eq
targets_run = refl

-- A save of the switch alone, loaded at version 1.
abbrev update : PermissionsUpdate
update = record {
  version = some 1;
  permissions = none;
  default_targets = none;
  require_login = some true;
  default_policy_name = none;
  admin_policy = none;
}

abbrev updated : World × Result (Dict UserPermission × ℕ × List Str)
updated = update_permissions lower update world

abbrev answer : Dict UserPermission × ℕ × List Str
answer = (world.config.permissions, 2, [])

update_run : updated ≡ (updated.0, ok answer)
unfolding update_permissions check_permissions_version apply_update evict_sessions to_evict
    evict_tokens is_changed targets_eq normalize_lookup_username raw_username trim is_whitespace
    split_once lookup str_eq default_config all
update_run = refl

still_there : lookup (codes "token") updated.0.sessions ≡ some (session_of ann key_b)
unfolding update_permissions check_permissions_version apply_update evict_sessions to_evict
    evict_tokens is_changed targets_eq normalize_lookup_username raw_username trim is_whitespace
    split_once lookup str_eq default_config all
still_there = refl

update_permissions-Unchanged_example :
    (lookup (codes "token") world.sessions ≡ some (session_of ann key_b))
    × Unchanged
        (lookup (normalize_lookup_username lower ann) world.config.permissions)
        (lookup (normalize_lookup_username lower ann) updated.0.config.permissions)
update_permissions-Unchanged_example =
    update_permissions-Unchanged lower update world updated.0 answer update_run world-IsMap
      (codes "token") (session_of ann key_b) still_there

update_permissions-conflict_example :
    update_permissions lower update updated.0 ≡ (updated.0, err (codes "version mismatch"))
update_permissions-conflict_example =
    update_permissions-conflict lower update update world updated.0 answer 1 update_run refl refl
      (omega arith)

-- Ann is disabled already, and keeps a session that was made before.
abbrev disabled : World
disabled = record world {
  config = (record (world.config) {
    permissions = (ann, record empty_permission { enabled = false }) ∷ [];
  });
}

abbrev again : World
again = (set_user_enabled lower ann false [] [] disabled).0

left_over : lookup (codes "token") again.sessions ≡ some (session_of ann key_b)
unfolding set_user_enabled lookup evict_sessions is_changed insert str_eq normalize_lookup_username
    raw_username split_once trim is_whitespace targets_eq all
left_over = refl
