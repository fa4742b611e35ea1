-- ===== src/Management/Secrets.antt =====
-- The secrets of a policy (src/nemo_management.rs): masked for the dashboard, restored when it saves,
-- and stripped from what leaves the server unsealed.
pub mod RoundTrip
use rustdesk_server_nemo.Base.{
  ℕ, zero, suc, ◌+◌, Bool, true, false, Option, none, some, List, [], ◌∷◌, Str, Dict, codes, lookup,
  insert, remove, str_eq, is_empty, if◌then◌else◌,
}

-- `SECRET_POLICY_KEYS`.
abbrev pub secret_policy_keys : List Str
secret_policy_keys =
    codes "nemo-permanent-password"
    ∷ codes "default-connect-password"
    ∷ codes "proxy-password"
    ∷ codes "preset-address-book-password"
    ∷ codes "nemo-knock-key"
    ∷ codes "nemo-knock-hmac-key"
    ∷ []

-- `MANAGED_SECRET_MASK`.
abbrev pub managed_secret_mask : Str
managed_secret_mask = codes "<managed-secret>"

-- The loop of `mask_secret_policy`, on the options of the policy.
unfoldable pub mask_secrets : List Str → Dict Str → Dict Str
mask_secrets [] options = options
mask_secrets (key ∷ keys) options = mask_secrets keys (elim (lookup key options) [
  | none ↦ options
  | some v ↦ if is_empty v then options else insert key managed_secret_mask options
])

-- The loop of `restore_masked_secrets_from`.
unfoldable pub restore_secrets : List Str → Dict Str → Dict Str → Dict Str
restore_secrets [] options current = options
restore_secrets (key ∷ keys) options current =
    restore_secrets keys
      (elim (lookup key options) [
        | none ↦ options
        | some v ↦
            if str_eq v managed_secret_mask
            then elim (lookup key current) [
              | some stored ↦ insert key stored options
              | none ↦ remove key options
            ]
            else options
      ])
      current

-- The loop of `strip_secret_options`, with its count.
unfoldable pub strip_secrets : List Str → Dict Str → Dict Str × ℕ
strip_secrets [] options = (options, 0)
strip_secrets (key ∷ keys) options =
    let (rest, stripped) = strip_secrets keys (remove key options) in
    (rest, elim (lookup key options) [ none ↦ stripped | some _ ↦ stripped + 1 ])

-- `ManagementPolicy`.
pub record ManagementPolicy : Type 0 where
  pub allow_user_override : Bool
  pub options : Dict Str

-- `mask_secret_policy`.
unfoldable pub mask_secret_policy : ManagementPolicy → ManagementPolicy
mask_secret_policy p = record p { options = mask_secrets secret_policy_keys p.options }

-- `restore_masked_secrets_from`.
unfoldable pub restore_masked_secrets_from : ManagementPolicy → ManagementPolicy → ManagementPolicy
restore_masked_secrets_from p current = record p {
  options = restore_secrets secret_policy_keys p.options current.options;
}

-- `strip_secret_options`.
unfoldable pub strip_secret_options : ManagementPolicy → ManagementPolicy × ℕ
strip_secret_options p =
    let (options, stripped) = strip_secrets secret_policy_keys p.options in
    (record p { options = options }, stripped)
