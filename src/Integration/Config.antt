-- ===== src/Integration/Config.antt =====
-- The data model of nemo_integration.rs: the configuration, the sessions, and the process state
-- that the functions of that file read and write under their locks.
use rustdesk_server_nemo.Base.{ℕ, Bool, true, false, Option, none, some, List, [], Str, Dict, codes}
use rustdesk_server_nemo.Base.{if◌then◌else◌, ◌∷◌, ◌++◌, ◌≡◌, arith}

-- `UserManagedPolicy`.
pub record UserManagedPolicy : Type 0 where
  pub allow_user_override : Bool
  pub options : Dict Str

-- `UserManagedPolicy::default()`.
abbrev pub empty_policy : UserManagedPolicy
empty_policy = record { allow_user_override = false; options = [] }

-- `UserPermission`.
pub record UserPermission : Type 0 where
  pub enabled : Bool
  pub is_admin : Bool
  pub allowed_targets : List Str
  pub policy : UserManagedPolicy
  pub policy_name : Option Str
  pub display_name : Str
  pub email : Str
  pub last_login : Str

-- `UserPermission::default()`.
abbrev pub empty_permission : UserPermission
empty_permission = record {
  enabled = false;
  is_admin = false;
  allowed_targets = [];
  policy = empty_policy;
  policy_name = none;
  display_name = [];
  email = [];
  last_login = [];
}

-- `DeviceKey`: an empty `peer_id` is a key that is not bound.
pub record DeviceKey : Type 0 where
  pub id : Str
  pub label : Str
  pub public_key : Str
  pub created_at : Str
  pub peer_id : Str
  pub claimed_at : Str

-- `PendingDeviceKeyClaim`.
pub record PendingClaim : Type 0 where
  pub key_id : Str
  pub public_key : Str
  pub peer_id : Str
  pub first_seen : Str
  pub last_seen : Str
  pub attempts : ℕ
  pub via : Str
  pub denied : Bool

-- `LdapConfig`.
pub record LdapConfig : Type 0 where
  pub enabled : Bool
  pub server_url : Str
  pub windows_domain : Str
  pub base_dn : Str
  pub bind_dn : Str
  pub bind_password : Str
  pub user_search_filter : Str
  pub tls_verify : Bool
  pub ca_cert : Str

-- `DEFAULT_USER_SEARCH_FILTER`.
unfoldable pub default_user_search_filter : Str
default_user_search_filter =
    codes "(&(objectClass=user)(|(sAMAccountName={username})"
    ++ codes "(userPrincipalName={raw_username})(userPrincipalName={upn})))"

-- `LdapConfig::default()`.
unfoldable pub default_ldap_config : LdapConfig
default_ldap_config = record {
  enabled = false;
  server_url = [];
  windows_domain = [];
  base_dn = [];
  bind_dn = [];
  bind_password = [];
  user_search_filter = default_user_search_filter;
  tls_verify = true;
  ca_cert = [];
}

-- `IntegrationConfig`.
pub record Config : Type 0 where
  pub ldap : LdapConfig
  pub permissions_version : ℕ
  pub permissions : Dict UserPermission
  pub default_targets : List Str
  pub require_login : Bool
  pub policies : Dict UserManagedPolicy
  pub device_policies : Dict Str
  pub default_policy_name : Option Str
  pub admin_policy : UserManagedPolicy
  pub device_keys : List DeviceKey
  pub require_device_key : Bool
  pub strip_unsealed_secrets : Bool
  pub require_sealed_login : Bool
  pub require_sealed_request : Bool
  pub claim_unbound_device_keys : Bool
  pub pending_device_key_claims : List PendingClaim

-- `default_admin_policy`.
unfoldable pub default_admin_policy : UserManagedPolicy
default_admin_policy = record {
  allow_user_override = false;
  options =
      (codes "enable-keyboard", codes "Y")
      ∷ (codes "enable-clipboard", codes "Y")
      ∷ (codes "enable-file-transfer", codes "Y")
      ∷ (codes "enable-audio", codes "Y")
      ∷ (codes "enable-camera", codes "Y")
      ∷ (codes "enable-terminal", codes "Y")
      ∷ (codes "enable-tunnel", codes "Y")
      ∷ (codes "enable-remote-printer", codes "Y")
      ∷ (codes "enable-remote-restart", codes "Y")
      ∷ (codes "enable-record-session", codes "Y")
      ∷ (codes "enable-block-input", codes "Y")
      ∷ (codes "enable-privacy-mode", codes "Y")
      ∷ (codes "view_only", codes "N")
      ∷ (codes "one-way-file-transfer", codes "N")
      ∷ [];
}

-- `IntegrationConfig::default()`.
unfoldable pub default_config : Config
default_config = record {
  ldap = default_ldap_config;
  permissions_version = 1;
  permissions = [];
  default_targets = [];
  require_login = false;
  policies = [];
  device_policies = [];
  default_policy_name = none;
  admin_policy = default_admin_policy;
  device_keys = [];
  require_device_key = true;
  strip_unsealed_secrets = true;
  require_sealed_login = true;
  require_sealed_request = false;
  claim_unbound_device_keys = true;
  pending_device_key_claims = [];
}

-- `Session`.
pub record Session : Type 0 where
  pub username : Str
  pub display_name : Str
  pub email : Str
  pub device_key_pub : Str
  pub expires_at : ℕ

-- What the file holds in memory (`CONFIG`, `SESSIONS`, `AB_VERSION`) and on disk. `disk_ok` says
-- whether the file system accepts the next write; a write that it refuses is only logged.
pub record World : Type 0 where
  pub config : Config
  pub saved : Config
  pub sessions : Dict Session
  pub saved_sessions : Option (Dict Session)
  pub ab_version : ℕ
  pub disk_ok : Bool

-- `persist`: the whole configuration is rewritten, or the old file stays.
abbrev pub persist : World → World
persist w = if w.disk_ok then record w { saved = w.config } else w

-- `persist_sessions`.
abbrev pub persist_sessions : World → World
persist_sessions w = if w.disk_ok then record w { saved_sessions = some w.sessions } else w

-- An assignment to `CONFIG`.
abbrev pub set_config : World → Config → World
set_config w c = record w { config = c }

-- Writing the file changes nothing in memory.
pub config-persist : (w : World) → (persist w).config ≡ w.config
config-persist w = ground arith

pub sessions-persist : (w : World) → (persist w).sessions ≡ w.sessions
sessions-persist w = ground arith

pub config-persist_sessions : (w : World) → (persist_sessions w).config ≡ w.config
config-persist_sessions w = ground arith

pub sessions-persist_sessions : (w : World) → (persist_sessions w).sessions ≡ w.sessions
sessions-persist_sessions w = ground arith
