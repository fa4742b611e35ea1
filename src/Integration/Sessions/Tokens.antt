-- ===== src/Integration/Sessions/Tokens.antt =====
-- The life of a session token.
use rustdesk_server_nemo.Base.{
  ℕ, ◌+◌, ◌≤◌, ◌≡◌, ◌≢◌, inl, inr, none, some, [], Str, lookup, str_eq, str_eq_iff, trim, arith,
  ltb, if◌then◌else◌, Option-cases, lookup-insert, lookup-remove, IsMap, lookup-retain,
}
use rustdesk_server_nemo.Integration.Config.{Session, World}
use rustdesk_server_nemo.Integration.Sessions.{
  session_ttl_secs, is_live, prune_sessions, create_session, session_for_token, remove_session,
}

-- The session that `create_session` files.
abbrev pub new_session : Str → Str → Str → Str → ℕ → Session
new_session username display_name email key now = record {
  username = username;
  display_name = display_name;
  email = email;
  device_key_pub = key;
  expires_at = now + session_ttl_secs;
}

create-lookup :
    (token username display_name email key : Str) (now : ℕ) (w : World) (other : Str)
    → IsMap w.sessions
    → lookup other (create_session token username display_name email key now w).sessions ≡ (
        if str_eq token other
        then some (new_session username display_name email key now)
        else elim (lookup other w.sessions) [
          | none ↦ none
          | some s ↦ if is_live now s then some s else none
        ])
unfolding create_session prune_sessions
create-lookup token username display_name email key now w other unique = ground (
  arith,
  lookup-insert token other (new_session username display_name email key now)
      (prune_sessions now w.sessions),
  lookup-retain other (is_live now) w.sessions unique,
)

-- After `create_session` a token answers as follows at any later time. The new token answers its own
-- session until twelve hours have passed and nothing from then on; any other answers what it did, less
-- what had expired when the new one was created.
pub create-session_for_token :
    (token username display_name email key other : Str) (now later : ℕ) (w : World)
    → trim other ≡ other
    → other ≢ []
    → IsMap w.sessions
    → now ≤ later
    → (session_for_token other later (create_session token username display_name email key now w)).1
      ≡ (if str_eq token other
          then (if ltb later (now + session_ttl_secs)
              then some (new_session username display_name email key now)
              else none)
          else (session_for_token other later w).1)
unfolding session_for_token
create-session_for_token token username display_name email key other now later w bare named unique
      le =
    elim (Option-cases (lookup other w.sessions)) [
      | inl e ↦
          ground (arith, create-lookup token username display_name email key now w other unique)
      | inr (s, e) ↦
          ground (arith, create-lookup token username display_name email key now w other unique)
    ]

-- After `remove_session` no token answers that, trimmed, is the one taken back; every other answers
-- what it did.
pub remove-session_for_token :
    (token other : Str) (later : ℕ) (w : World)
    → (session_for_token other later (remove_session token w)).1
      ≡ (if str_eq (trim token) (trim other) then none else (session_for_token other later w).1)
unfolding session_for_token remove_session
remove-session_for_token token other later w =
    elim (Option-cases (lookup (trim token) w.sessions)) [
      | inl e ↦ ground (arith, str_eq_iff (trim token) (trim other))
      | inr (s, e) ↦ ground (
        arith,
        lookup-remove (trim token) (trim other) w.sessions,
        str_eq_iff (trim token) (trim other),
      )
    ]
