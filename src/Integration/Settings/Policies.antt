-- ===== src/Integration/Settings/Policies.antt =====
-- No device is left with a policy that does not exist.
use rustdesk_server_nemo.Base.{
  ◌≡◌, sym, subst, ◌↔◌, inl, inr, Bool, true, Option, none, some, [], ◌∷◌, All, retain, Str, Dict,
  lookup, remove, contains_key, retain_values, is_empty, arith, Bool-cases, Option-cases,
  insert-All, lookup-All, str_eq,
}
use rustdesk_server_nemo.Integration.Config.{UserManagedPolicy, Config, World, config-persist}
use rustdesk_server_nemo.Integration.Settings.{
  device_policy, set_policies, set_device_policy, assigned_name,
}

-- Every device is assigned a policy that exists.
abbrev pub AllAssigned : Config → Type 0
AllAssigned c = All (λ (e : Str × Str). contains_key e.1 c.policies ≡ true) c.device_policies

retain_values-All :
    (p : Str → Bool) (m : Dict Str) → All (λ (e : Str × Str). p e.1 ≡ true) (retain_values p m)
unfolding retain
retain_values-All p [] = tt
retain_values-All p ((k, v) ∷ m) = elim (Bool-cases (p v)) [
  | inl e ↦ rw e (e, retain_values-All p m)
  | inr e ↦ rw e (retain_values-All p m)
]

remove-All :
    (P : Str → Type 0) (k : Str) (m : Dict Str)
    → All (λ (e : Str × Str). P e.1) m
    → All (λ (e : Str × Str). P e.1) (remove k m)
unfolding remove
remove-All P k [] h = tt
remove-All P k ((j, v) ∷ m) h = elim (Bool-cases (str_eq j k)) [
  | inl e ↦ rw e (remove-All P k m h.1)
  | inr e ↦ rw e (h.0, remove-All P k m h.1)
]

-- A name that is assigned exists.
assigned_name-exists :
    (name : Option Str) (c : Config) (n : Str)
    → assigned_name name c ≡ some n
    → contains_key n c.policies ≡ true
assigned_name-exists none c n h = absurd (cc)
assigned_name-exists (some s) c n h = ground arith

-- Replacing the policies leaves only assignments of policies that exist, whatever was there.
pub set_policies-AllAssigned :
    (policies : Dict UserManagedPolicy) (w : World) → AllAssigned (set_policies policies w).config
unfolding set_policies
set_policies-AllAssigned policies w =
    subst AllAssigned (sym (config-persist _))
      (retain_values-All (λ name. contains_key name policies) w.config.device_policies)

-- So does an assignment to one device, if it was so before.
pub set_device_policy-AllAssigned :
    (peer_id : Str) (name : Option Str) (w : World)
    → AllAssigned w.config
    → AllAssigned (set_device_policy peer_id name w).config
unfolding set_device_policy
set_device_policy-AllAssigned peer_id name w h =
    let exists : Str → Type 0 = λ n. contains_key n w.config.policies ≡ true in
    elim (Bool-cases (is_empty peer_id)) [
      | inl e ↦ rw e h
      | inr e ↦ elim (Option-cases (assigned_name name w.config)) [
        | inl clear ↦
            rw (e, clear)
              (subst AllAssigned (sym (config-persist _))
                (remove-All exists peer_id w.config.device_policies h))
        | inr (n, set) ↦
            rw (e, set)
              (subst AllAssigned (sym (config-persist _)) (
                insert-All exists peer_id n w.config.device_policies h
                  (assigned_name-exists name w.config n set)))
      ]
    ]

-- When every assigned policy exists, a device answers a policy just when it is assigned one.
pub device_policy_iff :
    (peer_id : Str) (w : World)
    → AllAssigned w.config
    → (device_policy peer_id w ≡ none) ↔ (lookup peer_id w.config.device_policies ≡ none)
unfolding device_policy
device_policy_iff peer_id w h = elim (Option-cases (lookup peer_id w.config.device_policies)) [
  | inl e ↦ ((λ _. e), λ _. ground arith)
  | inr (n, e) ↦
      let exists =
        lookup-All (λ n. contains_key n w.config.policies ≡ true) peer_id w.config.device_policies n
          h e in
      ((λ gone. absurd (ground arith)), λ gone. absurd (ground arith))
]
