-- ===== src/Management/Secrets/RoundTrip.antt =====
-- The dashboard never sees a secret, and saving what it was shown changes none.
use rustdesk_server_nemo.Base.{
  ◌≡◌, refl, ap, ◌∙◌, subst, inl, inr, Bool, true, false, ◌||◌, Option, none, some, List, [], ◌∷◌,
  any, Str, Dict, lookup, insert, remove, str_eq, str_eq_iff, str_eq_refl, str_mem, is_empty, arith,
  if◌then◌else◌, Bool-cases, Option-cases, lookup-insert, lookup-remove,
}
use rustdesk_server_nemo.Management.Secrets.{
  secret_policy_keys, managed_secret_mask, mask_secrets, restore_secrets, strip_secrets,
  ManagementPolicy, mask_secret_policy, restore_masked_secrets_from, strip_secret_options,
}

-- What the dashboard sees of a secret option.
abbrev pub masked : Option Str → Option Str
masked none = none
masked (some v) = if is_empty v then some v else some managed_secret_mask

-- What a saved secret option becomes over the stored one.
abbrev pub restored : Option Str → Option Str → Option Str
restored none stored = none
restored (some v) stored = if str_eq v managed_secret_mask then stored else some v

masked-masked : (o : Option Str) → masked (masked o) ≡ masked o
masked-masked none = refl
masked-masked (some v) = ground arith

-- One round of the masking.
abbrev mask_one : Str → Dict Str → Dict Str
mask_one key options = elim (lookup key options) [
  | none ↦ options
  | some v ↦ if is_empty v then options else insert key managed_secret_mask options
]

-- A change that is made for one key, and at most once more for those that follow.
once_more :
    {A : Type 0} (f : A → A) (x : A) (here later : Bool)
    → f (f x) ≡ f x
    → (if later then f (if here then f x else x) else if here then f x else x)
      ≡ (if here || later then f x else x)
once_more f x true true h = h
once_more f x true false h = refl
once_more f x false true h = refl
once_more f x false false h = refl

lookup-mask_one_same :
    (key : Str) (options : Dict Str)
    → lookup key (mask_one key options) ≡ masked (lookup key options)
lookup-mask_one_same key options = elim (Option-cases (lookup key options)) [
  | inl e ↦ ground arith
  | inr (v, e) ↦ ground (arith, lookup-insert key key managed_secret_mask options, str_eq_refl key)
]

lookup-mask_one :
    (key j : Str) (options : Dict Str)
    → lookup j (mask_one key options)
      ≡ (if str_eq key j then masked (lookup j options) else lookup j options)
lookup-mask_one key j options = elim (Bool-cases (str_eq key j)) [
  | inl same ↦ rw same (
      subst (λ x. lookup x (mask_one key options) ≡ masked (lookup x options))
        ((str_eq_iff key j).0 same) (lookup-mask_one_same key options))
  | inr other ↦ ground (arith, lookup-insert key j managed_secret_mask options)
]

-- What the dashboard sees of each option.
lookup-mask_secrets :
    (keys : List Str) (options : Dict Str) (j : Str)
    → lookup j (mask_secrets keys options)
      ≡ (if str_mem j keys then masked (lookup j options) else lookup j options)
unfolding mask_secrets any
lookup-mask_secrets [] options j = refl
lookup-mask_secrets (key ∷ keys) options j =
    lookup-mask_secrets keys (mask_one key options) j
    ∙ (ap (λ x. if str_mem j keys then masked x else x) (lookup-mask_one key j options)
        ∙ once_more masked (lookup j options) (str_eq key j) (str_mem j keys)
            (masked-masked (lookup j options)))

-- One round of the restoring.
abbrev restore_one : Str → Dict Str → Dict Str → Dict Str
restore_one key options current = elim (lookup key options) [
  | none ↦ options
  | some v ↦
      if str_eq v managed_secret_mask
      then elim (lookup key current) [
        | some stored ↦ insert key stored options
        | none ↦ remove key options
      ]
      else options
]

lookup-restore_one_same :
    (key : Str) (options current : Dict Str)
    → lookup key (restore_one key options current)
      ≡ restored (lookup key options) (lookup key current)
lookup-restore_one_same key options current = elim (Option-cases (lookup key options)) [
  | inl e ↦ ground arith
  | inr (v, e) ↦ elim (Option-cases (lookup key current)) [
    | inl gone ↦ ground (arith, lookup-remove key key options, str_eq_refl key)
    | inr (stored, kept) ↦ ground (arith, lookup-insert key key stored options, str_eq_refl key)
  ]
]

lookup-restore_one_other :
    (key j : Str) (options current : Dict Str)
    → str_eq key j ≡ false
    → lookup j (restore_one key options current) ≡ lookup j options
lookup-restore_one_other key j options current other = elim (Option-cases (lookup key options)) [
  | inl e ↦ ground arith
  | inr (v, e) ↦ elim (Option-cases (lookup key current)) [
    | inl gone ↦ ground (arith, lookup-remove key j options)
    | inr (stored, kept) ↦ ground (arith, lookup-insert key j stored options)
  ]
]

lookup-restore_one :
    (key j : Str) (options current : Dict Str)
    → lookup j (restore_one key options current)
      ≡ (if str_eq key j then restored (lookup j options) (lookup j current) else lookup j options)
lookup-restore_one key j options current = elim (Bool-cases (str_eq key j)) [
  | inl same ↦ rw same (
      subst
        (λ x.
          lookup x (restore_one key options current)
          ≡ restored (lookup x options) (lookup x current))
        ((str_eq_iff key j).0 same) (lookup-restore_one_same key options current))
  | inr other ↦ rw other (lookup-restore_one_other key j options current other)
]

restored-restored :
    (o stored : Option Str) → restored (restored o stored) stored ≡ restored o stored
restored-restored none stored = refl
restored-restored (some v) none = ground arith
restored-restored (some v) (some w) = ground arith

-- What a save makes of each option.
lookup-restore_secrets :
    (keys : List Str) (options current : Dict Str) (j : Str)
    → lookup j (restore_secrets keys options current) ≡ (
        if str_mem j keys then restored (lookup j options) (lookup j current) else lookup j options)
unfolding restore_secrets any
lookup-restore_secrets [] options current j = refl
lookup-restore_secrets (key ∷ keys) options current j =
    lookup-restore_secrets keys (restore_one key options current) current j
    ∙ (ap (λ x. if str_mem j keys then restored x (lookup j current) else x)
          (lookup-restore_one key j options current)
        ∙ once_more (λ x. restored x (lookup j current)) (lookup j options) (str_eq key j)
            (str_mem j keys) (restored-restored (lookup j options) (lookup j current)))

restored-masked : (o : Option Str) → restored (masked o) o ≡ o
restored-masked none = refl
restored-masked (some v) = ground (arith, str_eq_refl managed_secret_mask)

shown_and_saved :
    (secret : Bool) (o : Option Str)
    → (if secret
        then restored (if secret then masked o else o) o
        else if secret
        then masked o
        else o)
      ≡ o
shown_and_saved true o = restored-masked o
shown_and_saved false o = refl

-- A policy that the dashboard was shown and saves unchanged is the stored one, in every option; and of
-- a secret the dashboard was shown nothing, an empty value or the mask.
pub restore_masked_secrets_from-mask_secret_policy :
    (p : ManagementPolicy) (key : Str)
    → (lookup key (restore_masked_secrets_from (mask_secret_policy p) p).options
        ≡ lookup key p.options)
      × (lookup key (mask_secret_policy p).options ≡ (
          if str_mem key secret_policy_keys
          then masked (lookup key p.options)
          else lookup key p.options))
unfolding restore_masked_secrets_from mask_secret_policy
restore_masked_secrets_from-mask_secret_policy p key =
    let shown = lookup-mask_secrets secret_policy_keys p.options key in
    let saved =
      lookup-restore_secrets secret_policy_keys (mask_secrets secret_policy_keys p.options)
        p.options key in
    let secret = str_mem key secret_policy_keys in
    (
      saved
          ∙ (ap (λ x. if secret then restored x (lookup key p.options) else x) shown
              ∙ shown_and_saved secret (lookup key p.options)),
      shown,
    )

lookup-strip_secrets :
    (keys : List Str) (options : Dict Str) (j : Str)
    → lookup j (strip_secrets keys options).0 ≡ (if str_mem j keys then none else lookup j options)
unfolding strip_secrets any
lookup-strip_secrets [] options j = refl
lookup-strip_secrets (key ∷ keys) options j =
    lookup-strip_secrets keys (remove key options) j
    ∙ (ap (λ x. if str_mem j keys then none else x) (lookup-remove key j options)
        ∙ once_more (λ _. none) (lookup j options) (str_eq key j) (str_mem j keys) refl)

-- A stripped policy has no secret, and every other option as it was.
pub lookup-strip_secret_options :
    (p : ManagementPolicy) (key : Str)
    → lookup key (strip_secret_options p).0.options
      ≡ (if str_mem key secret_policy_keys then none else lookup key p.options)
unfolding strip_secret_options
lookup-strip_secret_options p key = lookup-strip_secrets secret_policy_keys p.options key
