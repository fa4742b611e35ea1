-- ===== src/Integration/Settings.antt =====
-- What the operator sets by hand (src/nemo_integration.rs): the directory, the named policies and the
-- devices that they are assigned to, and the switches.
pub mod Policies
use rustdesk_server_nemo.Base.{
  Bool, true, false, not, Option, none, some, List, [], ◌∷◌, any, retain, Str, Dict, lookup, insert,
  remove, contains_key, retain_values, is_empty, trim, if◌then◌else◌,
}
use rustdesk_server_nemo.Integration.Config.{
  UserManagedPolicy, LdapConfig, Config, World, default_user_search_filter, persist, set_config,
}
use rustdesk_server_nemo.Integration.Names.{normalize_lookup_username}

-- `LdapConfigUpdate`.
pub record LdapConfigUpdate : Type 0 where
  pub enabled : Option Bool
  pub server_url : Option Str
  pub windows_domain : Option Str
  pub base_dn : Option Str
  pub bind_dn : Option Str
  pub bind_password : Option Str
  pub clear_bind_password : Option Bool
  pub user_search_filter : Option Str
  pub tls_verify : Option Bool
  pub ca_cert : Option Str

abbrev pub given {ℓ} : {A : Type ℓ} → Option A → A → A
given none old = old
given (some new) old = new

abbrev pub given_trimmed : Option Str → Str → Str
given_trimmed none old = old
given_trimmed (some new) old = trim new

-- The stored password after an update.
unfoldable pub password_after : Option Bool → Option Str → Str → Str
password_after (some true) new old = []
password_after (some false) none old = old
password_after (some false) (some new) old = if is_empty new then old else new
password_after none none old = old
password_after none (some new) old = if is_empty new then old else new

abbrev pub filter_after : Option Str → Str → Str
filter_after none old = old
filter_after (some new) old = if is_empty (trim new) then default_user_search_filter else trim new

-- The assignments of `update_ldap_config`.
unfoldable pub apply_ldap_update : LdapConfigUpdate → LdapConfig → LdapConfig
unfolding password_after
apply_ldap_update u l = record {
  enabled = given u.enabled l.enabled;
  server_url = given_trimmed u.server_url l.server_url;
  windows_domain = given_trimmed u.windows_domain l.windows_domain;
  base_dn = given_trimmed u.base_dn l.base_dn;
  bind_dn = given_trimmed u.bind_dn l.bind_dn;
  bind_password = password_after u.clear_bind_password u.bind_password l.bind_password;
  user_search_filter = filter_after u.user_search_filter l.user_search_filter;
  tls_verify = given u.tls_verify l.tls_verify;
  ca_cert = given_trimmed u.ca_cert l.ca_cert;
}

-- `update_ldap_config`, less the masked view that it returns.
unfoldable pub update_ldap_config : LdapConfigUpdate → World → World
update_ldap_config u w =
    persist (set_config w (record (w.config) { ldap = apply_ldap_update u w.config.ldap }))

-- `device_policy`.
unfoldable pub device_policy : Str → World → Option UserManagedPolicy
device_policy peer_id w = elim (lookup peer_id w.config.device_policies) [
  | none ↦ none
  | some name ↦ lookup name w.config.policies
]

-- `set_policies`.
unfoldable pub set_policies : Dict UserManagedPolicy → World → World
set_policies policies w = persist (
    set_config w (record (w.config) {
      policies = policies;
      device_policies = retain_values (λ name. contains_key name policies) w.config.device_policies;
    }))

-- The name that `set_device_policy` assigns, if it assigns one.
abbrev pub assigned_name : Option Str → Config → Option Str
assigned_name none c = none
assigned_name (some name) c =
    if is_empty (trim name)
    then none
    else if contains_key (trim name) c.policies
    then some (trim name)
    else none

-- `set_device_policy`.
unfoldable pub set_device_policy : Str → Option Str → World → World
set_device_policy peer_id policy_name w =
    if is_empty peer_id
    then w
    else persist (
        set_config w (record (w.config) {
          device_policies = elim (assigned_name policy_name w.config) [
            | some name ↦ insert peer_id name w.config.device_policies
            | none ↦ remove peer_id w.config.device_policies
          ];
        }))

-- `user_is_enabled`.
unfoldable pub user_is_enabled : (Str → Str) → Str → World → Bool
user_is_enabled to_lowercase username w =
    elim (lookup (normalize_lookup_username to_lowercase username) w.config.permissions) [
      | none ↦ false
      | some p ↦ p.enabled
    ]

-- `set_require_device_key`.
unfoldable pub set_require_device_key : Bool → World → World
set_require_device_key v w = persist (set_config w (record (w.config) { require_device_key = v }))

-- `set_strip_unsealed_secrets`.
unfoldable pub set_strip_unsealed_secrets : Bool → World → World
set_strip_unsealed_secrets v w =
    persist (set_config w (record (w.config) { strip_unsealed_secrets = v }))

-- `set_require_sealed_login`.
unfoldable pub set_require_sealed_login : Bool → World → World
set_require_sealed_login v w =
    persist (set_config w (record (w.config) { require_sealed_login = v }))

-- `set_require_sealed_request`.
unfoldable pub set_require_sealed_request : Bool → World → World
set_require_sealed_request v w =
    persist (set_config w (record (w.config) { require_sealed_request = v }))
