-- ===== src/Integration/Sessions.antt =====
-- Session tokens (src/nemo_integration.rs). A token is a fresh UUID, which the caller supplies
-- here, and so is the time in seconds.
pub mod Tokens
use rustdesk_server_nemo.Base.{
  ℕ, ◌+◌, ◌*◌, Bool, true, false, Option, none, some, List, [], ◌∷◌, Str, Dict, lookup, insert,
  remove, retain_values, is_empty, trim, ltb, if◌then◌else◌,
}
use rustdesk_server_nemo.Integration.Config.{
  Session, UserPermission, Config, World, persist_sessions,
}
use rustdesk_server_nemo.Integration.Names.{normalize_lookup_username}

-- `SESSION_TTL_SECS`.
abbrev pub session_ttl_secs : ℕ
session_ttl_secs = 12 * 60 * 60

-- A session that has not expired.
abbrev pub is_live : ℕ → Session → Bool
is_live now s = ltb now s.expires_at

-- `prune_sessions`.
unfoldable pub prune_sessions : ℕ → Dict Session → Dict Session
prune_sessions now = retain_values (is_live now)

-- `create_session`.
unfoldable pub create_session : Str → Str → Str → Str → Str → ℕ → World → World
create_session token username display_name email device_key_pub now w =
    let session : Session = record {
      username = username;
      display_name = display_name;
      email = email;
      device_key_pub = device_key_pub;
      expires_at = now + session_ttl_secs;
    } in
    persist_sessions (record w { sessions = insert token session (prune_sessions now w.sessions) })

-- `session_for_token`.
unfoldable pub session_for_token : Str → ℕ → World → World × Option Session
session_for_token raw now w =
    let token = trim raw in
    if is_empty token then (w, none) else elim (lookup token w.sessions) [
      | none ↦ (w, none)
      | some s ↦
          if is_live now s
          then (w, some s)
          else (persist_sessions (record w { sessions = remove token w.sessions }), none)
    ]

-- `remove_session`.
unfoldable pub remove_session : Str → World → World
remove_session raw w =
    let token = trim raw in
    elim (lookup token w.sessions) [
      | none ↦ w
      | some _ ↦ persist_sessions (record w { sessions = remove token w.sessions })
    ]

-- `effective_permission`.
unfoldable pub effective_permission : (Str → Str) → Str → World → Bool × List Str
effective_permission to_lowercase username w =
    elim (lookup (normalize_lookup_username to_lowercase username) w.config.permissions) [
      | none ↦ (false, [])
      | some p ↦ (p.is_admin, p.allowed_targets)
    ]
