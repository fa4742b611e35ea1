-- ===== src/Integration/Tests/Sessions.antt =====
-- Tokens of sessions.
use rustdesk_server_nemo.Base.{
  ◌≡◌, refl, ◌≢◌, ◌+◌, inl, inr, none, some, [], Str, codes, str_eq, trim, is_whitespace, lookup,
  IsMap, ltb, if◌then◌else◌, arith, count, Bool-cases,
}
use rustdesk_server_nemo.Integration.Sessions.{session_ttl_secs, create_session, session_for_token}
use rustdesk_server_nemo.Integration.Sessions.Tokens.{new_session, create-session_for_token}
use rustdesk_server_nemo.Integration.Tests.Data.{ann, key_b, session_of, world}

abbrev token : Str
token = codes "token"

answer_run : (session_for_token (codes " token ") 999 world).1 ≡ some (session_of ann key_b)
unfolding session_for_token trim is_whitespace lookup str_eq
answer_run = refl

expired_run : (session_for_token token 1000 world).1 ≡ none
unfolding session_for_token trim is_whitespace lookup str_eq
expired_run = refl

-- A table of one session is a map.
pub world-IsMap : IsMap world.sessions
unfolding count
world-IsMap k = elim (Bool-cases (str_eq token k)) [ inl e ↦ ground arith | inr e ↦ ground arith ]

token_trimmed : trim token ≡ token
unfolding trim is_whitespace
token_trimmed = refl

token_not_empty : token ≢ []
token_not_empty e = ground arith

create-session_for_token_example :
    (session_for_token token 800 (create_session (codes "t2") ann ann [] [] 700 world)).1 ≡ (
      if str_eq (codes "t2") token
      then (if ltb 800 (700 + session_ttl_secs) then some (new_session ann ann [] [] 700) else none)
      else (session_for_token token 800 world).1)
create-session_for_token_example =
    create-session_for_token (codes "t2") ann ann [] [] token 700 800 world token_trimmed
      token_not_empty world-IsMap (omega arith)
