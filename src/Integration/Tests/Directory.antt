-- ===== src/Integration/Tests/Directory.antt =====
-- Searches of the directory, and named policies.
use rustdesk_server_nemo.Base.{
  ◌≡◌, refl, [], ◌∷◌, any, codes, is_whitespace, split_whitespace, words_from, lookup, str_eq,
}
use rustdesk_server_nemo.Integration.Config.{World, empty_policy}
use rustdesk_server_nemo.Integration.Directory.{
  escape_keep_char, escape_filter_keep_wildcard, term_pattern,
}
use rustdesk_server_nemo.Integration.Settings.Policies.{AllAssigned}
use rustdesk_server_nemo.Integration.Tests.Data.{peer_1, world}

words_run : split_whitespace (codes " tech  wien ") ≡ codes "tech" ∷ codes "wien" ∷ []
unfolding split_whitespace words_from is_whitespace
words_run = refl

-- A wildcard is kept, a parenthesis is escaped.
pattern_run : term_pattern (codes "a)(uid=x*") ≡ codes "a\\29\\28uid=x*"
unfolding term_pattern escape_filter_keep_wildcard escape_keep_char any
pattern_run = refl

abbrev assigned : World
assigned = record world {
  config = (record (world.config) {
    policies = (codes "strict", empty_policy) ∷ [];
    device_policies = (peer_1, codes "strict") ∷ [];
  });
}

assigned-AllAssigned : AllAssigned assigned.config
unfolding lookup str_eq
assigned-AllAssigned = (refl, tt)
