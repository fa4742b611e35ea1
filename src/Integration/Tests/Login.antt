-- ===== src/Integration/Tests/Login.antt =====
-- Backoff and spraying.
use rustdesk_server_nemo.Base.{
  ℕ, ◌≡◌, refl, inl, false, none, some, List, [], ◌∷◌, Str, codes, count, IsMap, arith,
}
use rustdesk_server_nemo.Integration.Login.{Spray}
use rustdesk_server_nemo.Integration.Login.OneUser.{note_all, one_user_never_trips}
use rustdesk_server_nemo.Integration.Tests.Data.{ann}

abbrev lower : Str → Str
lower s = s

no-IsMap : IsMap {V = ℕ × ℕ} []
unfolding count
no-IsMap k = omega arith

abbrev quiet : Spray
quiet = record { by_ip = []; fleet = record { users = []; started = 0; blocked_until = 0 } }

abbrev ip : Str
ip = codes "10.0.0.1"

-- Ten users have failed from the source; one more trips it.
abbrev ten : List Str
ten =
    (1 ∷ [])
    ∷ (2 ∷ [])
    ∷ (3 ∷ [])
    ∷ (4 ∷ [])
    ∷ (5 ∷ [])
    ∷ (6 ∷ [])
    ∷ (7 ∷ [])
    ∷ (8 ∷ [])
    ∷ (9 ∷ [])
    ∷ (10 ∷ [])
    ∷ []

abbrev sprayed : Spray
sprayed = record quiet {
  by_ip = (ip, record { users = ten; started = 100; blocked_until = 0 }) ∷ [];
}

one_user_never_trips_example : note_all ann ((some ip, 1) ∷ (none, 2) ∷ []) quiet ≡ false
one_user_never_trips_example =
    one_user_never_trips ann ((some ip, 1) ∷ (none, 2) ∷ []) quiet (inl refl, tt)
