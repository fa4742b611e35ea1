-- ===== src/Integration/Permissions/Eviction.antt =====
-- Which sessions a change of the permissions ends.
use rustdesk_server_nemo.Base.{
  ◌≤◌, ◌≡◌, refl, sym, ap, inl, inr, Bool, true, false, not, ◌&&◌, Option, none, some, List, [],
  ◌∷◌, ◌++◌, any, count, Str, Dict, lookup, remove, str_eq, str_eq_iff, str_mem, is_empty, arith,
  if◌then◌else◌, Bool-cases, Option-cases, lookup-remove, IsMap, lookup_of_count-zero,
}
use rustdesk_server_nemo.Integration.Config.{UserPermission, Session, World}
use rustdesk_server_nemo.Integration.Permissions.{
  is_changed, policy_eq, targets_eq, must_evict, to_evict, evict_tokens, evict_sessions, option_eq,
  bool_eq,
}

-- Removing the tokens of a list, one after the other.
lookup-evict_tokens :
    (tokens : List Str) (sessions : Dict Session) (keys : List Str) (t : Str)
    → lookup t (evict_tokens tokens sessions keys).0
      ≡ (if str_mem t tokens then none else lookup t sessions)
unfolding evict_tokens any
lookup-evict_tokens [] sessions keys t = refl
lookup-evict_tokens (token ∷ tokens) sessions keys t = elim (Option-cases (lookup token sessions)) [
  | inl e ↦ ground (arith, lookup-evict_tokens tokens sessions keys t, str_eq_iff token t)
  | inr (s, e) ↦
      let keys' =
        if not (is_empty s.device_key_pub) && not (str_mem s.device_key_pub keys)
        then keys ++ (s.device_key_pub ∷ [])
        else keys in
      ground (
        arith,
        lookup-evict_tokens tokens (remove token sessions) keys' t,
        lookup-remove token t sessions,
      )
]

module _ (to_lowercase : Str → Str) where
  -- In a map a token is to be evicted just when its own session is.
  mem-to_evict :
      (old new : Dict UserPermission) (sessions : Dict Session) (t : Str)
      → count (λ (e : Str × Session). str_eq e.0 t) sessions ≤ 1
      → str_mem t (to_evict to_lowercase old new sessions)
        ≡ elim (lookup t sessions) [ none ↦ false | some s ↦ must_evict to_lowercase old new s ]
  unfolding to_evict any lookup count
  mem-to_evict old new [] t once = refl
  mem-to_evict old new ((token, s) ∷ m) t once = elim (Bool-cases (str_eq token t)) [
    | inl same ↦
        let gone : lookup t m ≡ none = lookup_of_count-zero t m (ground arith) in
        let rest = mem-to_evict old new m t (ground arith) in ground (arith, rest)
    | inr other ↦ let rest = mem-to_evict old new m t (ground arith) in ground (arith, rest)
  ]

  -- Eviction takes out exactly the sessions whose user's permission changed so.
  pub lookup-evict_sessions :
      (old new : Dict UserPermission) (w : World) (t : Str)
      → IsMap w.sessions
      → lookup t (evict_sessions to_lowercase old new w).0.sessions ≡ elim (lookup t w.sessions) [
        | none ↦ none
        | some s ↦ if must_evict to_lowercase old new s then none else some s
      ]
  unfolding evict_sessions
  lookup-evict_sessions old new w t unique = ground (
    arith,
    lookup-evict_tokens (to_evict to_lowercase old new w.sessions) w.sessions [] t,
    mem-to_evict old new w.sessions t (unique t),
  )

targets_eq_sound : (a b : List Str) → targets_eq a b ≡ true → a ≡ b
unfolding targets_eq
targets_eq_sound [] [] h = refl
targets_eq_sound [] (b ∷ bs) h = absurd (cc)
targets_eq_sound (a ∷ as') [] h = absurd (cc)
targets_eq_sound (a ∷ as') (b ∷ bs) h = ground (arith, str_eq_iff a b, targets_eq_sound as' bs)

-- What a change that ends no session leaves: the user is still on the list, not newly disabled, with
-- the same targets, the same admin flag and the same policy.
abbrev pub Unchanged : Option UserPermission → Option UserPermission → Type 0
Unchanged old new =
    (o : UserPermission) × (n : UserPermission) × (old ≡ some o)
    × (new ≡ some n)
    × (o.enabled && not n.enabled ≡ false)
    × (o.allowed_targets ≡ n.allowed_targets)
    × (o.is_admin ≡ n.is_admin)
    × (policy_eq o.policy n.policy ≡ true)
    × (o.policy_name ≡ n.policy_name)

option_str_eq_sound : (a b : Option Str) → option_eq str_eq a b ≡ true → a ≡ b
option_str_eq_sound none none h = refl
option_str_eq_sound none (some b) h = absurd (cc)
option_str_eq_sound (some a) none h = absurd (cc)
option_str_eq_sound (some a) (some b) h = ap some ((str_eq_iff a b).0 h)

bool_eq_sound : (a b : Bool) → bool_eq a b ≡ true → a ≡ b
bool_eq_sound true b h = sym h
bool_eq_sound false true h = absurd (cc)
bool_eq_sound false false h = refl

pub unchanged_lem :
    (old new : Option UserPermission) → is_changed old new ≡ false → Unchanged old new
unfolding is_changed
unchanged_lem old none h = absurd (cc)
unchanged_lem none (some n) h = absurd (cc)
unchanged_lem (some o) (some n) h = (
  o,
  n,
  refl,
  refl,
  ground arith,
  targets_eq_sound o.allowed_targets n.allowed_targets (ground arith),
  bool_eq_sound o.is_admin n.is_admin (ground arith),
  ground arith,
  option_str_eq_sound o.policy_name n.policy_name (ground arith),
)

module _ (to_lowercase : Str → Str) where
  pub evict_sessions-config :
      (old new : Dict UserPermission) (w : World)
      → (evict_sessions to_lowercase old new w).0.config ≡ w.config
  unfolding evict_sessions
  evict_sessions-config old new w = ground arith
