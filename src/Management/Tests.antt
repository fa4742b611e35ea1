-- ===== src/Management/Tests.antt =====
-- Runs of the guards, the proof and the secrets, and the theorems on the same data.
mod Gates
mod Usage
mod Endpoints
use rustdesk_server_nemo.Base.{
  ℕ, ◌+◌, ◌≤◌, ◌≡◌, ◌≢◌, refl, ◌⊎◌, true, false, none, some, Option, List, [], ◌∷◌, ◌++◌, any, all,
  find, length, retain, Str, codes, lookup, insert, remove, str_eq, str_mem, is_whitespace,
  is_ascii_alphanumeric, byte_len, trim, split_once, strip_prefix, split_whitespace, words_from,
  if◌then◌else◌, ok, arith,
}
use rustdesk_server_nemo.Integration.Config.{World, default_config}
use rustdesk_server_nemo.Integration.DeviceKeys.{
  is_device_key_pinned, device_key_binding, device_key_binding_decision, valid_peer_id,
}
use rustdesk_server_nemo.Integration.Claims.{
  PendingOutcome, repeat, register_pending_claim, register_pending_claim_in,
}
use rustdesk_server_nemo.Integration.Tests.Data.{key_a, key_b, peer_1, peer_2, noon, world}
use rustdesk_server_nemo.Management.Controller.{
  find_after, marker_parts, controller_source_identity, controller_source_any, identity,
  resolve_marker, resolve_controller_identity, split_by, target_allowed_by_controller_policy,
}
use rustdesk_server_nemo.Management.Replay.{
  evict_seen, max_seen_nonces, sealed_login_guard, sealed_request_guard,
}
use rustdesk_server_nemo.Management.Replay.Once.{Call, after_calls, sealed_request_guard-once}
use rustdesk_server_nemo.Management.Secrets.{
  secret_policy_keys, ManagementPolicy, mask_secret_policy, restore_masked_secrets_from,
  strip_secrets, strip_secret_options,
}
use rustdesk_server_nemo.Management.Secrets.RoundTrip.{
  masked, restore_masked_secrets_from-mask_secret_policy,
}
use rustdesk_server_nemo.Management.Proof.{
  Signatures, claim_via_label, digits_from, parse_u64, split3, text_ok, signed_message,
  signature_ok, verify_device_signature_proof,
}
use rustdesk_server_nemo.Management.Proof.Authentic.{
  IsSigned, verify_device_signature_proof-ok, verify_device_signature_proof-files,
}

accept_run : sealed_request_guard 1000 (codes "n1") 1010 [] ≡ ((codes "n1", 1010) ∷ [], ok tt)
unfolding sealed_request_guard sealed_login_guard evict_seen trim is_whitespace byte_len lookup
    insert retain length
accept_run = refl

-- A time stamp ahead of the clock outlives its nonce in the table: the same request passes twice.
skewed_run :
    let first = sealed_request_guard 1060 (codes "n1") 1000 [] in
    (first.1 ≡ ok tt) × ((sealed_request_guard 1060 (codes "n1") 1301 first.0).1 ≡ ok tt)
unfolding sealed_request_guard sealed_login_guard evict_seen trim is_whitespace byte_len lookup
    insert retain length
skewed_run = (refl, refl)

abbrev calls : List Call
calls = record { ts = 1020; nonce = codes "n2"; now = 1020 } ∷ []

few_calls : length {A = Str × ℕ} ((codes "n1", 1010) ∷ []) + length calls ≤ max_seen_nonces
unfolding length
few_calls = omega arith

sealed_request_guard-once_example :
    (sealed_request_guard 1000 (codes "n1") 1030 (after_calls calls ((codes "n1", 1010) ∷ []))).1
    ≢ ok tt
sealed_request_guard-once_example =
    sealed_request_guard-once 1000 (codes "n1") 1010 1030 [] ((codes "n1", 1010) ∷ []) calls
      accept_run (omega arith) (omega arith) (omega arith, tt) few_calls

abbrev policy : ManagementPolicy
policy = record {
  allow_user_override = false;
  options = (codes "proxy-password", codes "hunter2") ∷ (codes "enable-audio", codes "Y") ∷ [];
}

restore_masked_secrets_from-mask_secret_policy_example :
    (lookup
        (codes "proxy-password")
        (restore_masked_secrets_from (mask_secret_policy policy) policy).options
      ≡ lookup (codes "proxy-password") policy.options)
    × (lookup (codes "proxy-password") (mask_secret_policy policy).options ≡ (
        if str_mem (codes "proxy-password") secret_policy_keys
        then masked (lookup (codes "proxy-password") policy.options)
        else lookup (codes "proxy-password") policy.options))
restore_masked_secrets_from-mask_secret_policy_example =
    restore_masked_secrets_from-mask_secret_policy policy (codes "proxy-password")

strip_run :
    strip_secret_options policy
    ≡ (record policy { options = (codes "enable-audio", codes "Y") ∷ [] }, 1)
unfolding strip_secret_options strip_secrets lookup remove str_eq
strip_run = refl

-- A scheme for the tests: a signature is the key and then the text.
abbrev toy : Signatures
toy = record {
  PublicKey = Str;
  decode = λ s. some s;
  from_slice = λ b. some b;
  verify = λ sig pk. strip_prefix pk sig;
  from_utf8_lossy = λ b. b;
}

abbrev poll : Str
poll = codes "nemo-poll"

abbrev sig_b : Str
sig_b = key_b ++ codes "nemo-poll:333444:1000"

proof_run :
    verify_device_signature_proof toy key_b sig_b poll peer_2 false 1010 noon world
    ≡ (world, record { ok = true; claim = none })
unfolding verify_device_signature_proof is_device_key_pinned device_key_binding
    device_key_binding_decision signature_ok signed_message text_ok split3 parse_u64 digits_from
    trim is_whitespace any find str_eq split_once strip_prefix
proof_run = refl

verify_device_signature_proof-ok_example :
    (is_device_key_pinned key_b world ≡ true)
    × (((device_key_binding key_b world ≡ some peer_2) × (peer_2 ≢ []))
        ⊎ ((device_key_binding key_b world ≡ some []) × (false ≡ true)))
    × IsSigned toy key_b sig_b poll peer_2 1010
    × (world ≡ world)
verify_device_signature_proof-ok_example =
    verify_device_signature_proof-ok toy key_b sig_b poll peer_2 false 1010 noon world world none
      proof_run

-- Key a is bound to no one; peer 1 asks for it once more.
abbrev sig_a : Str
sig_a = key_a ++ codes "nemo-poll:111222:1000"

abbrev filed : World
filed = (register_pending_claim key_a peer_1 (claim_via_label poll) noon world).0

file_run :
    verify_device_signature_proof toy key_a sig_a poll peer_1 false 1010 noon world
    ≡ (filed, record { ok = false; claim = some repeat })
unfolding verify_device_signature_proof is_device_key_pinned device_key_binding
    device_key_binding_decision signature_ok signed_message text_ok split3 parse_u64 digits_from
    trim is_whitespace any find str_eq split_once strip_prefix register_pending_claim
    register_pending_claim_in valid_peer_id all byte_len is_ascii_alphanumeric default_config
file_run = refl

verify_device_signature_proof-files_example :
    ((filed ≡ world) × (◌≡◌ {A = Option PendingOutcome} (some repeat) none))
    ⊎ ((false ≡ false)
        × (is_device_key_pinned key_a world ≡ true)
        × (device_key_binding key_a world ≡ some [])
        × IsSigned toy key_a sig_a poll peer_1 1010
        × (let r = register_pending_claim key_a peer_1 (claim_via_label poll) noon world in
            (filed ≡ r.0) × (some repeat ≡ some r.1)))
verify_device_signature_proof-files_example =
    verify_device_signature_proof-files toy key_a sig_a poll peer_1 false 1010 noon world filed
      (record { ok = false; claim = some repeat }) file_run

abbrev marker : Str
marker = codes "1.4.0 nemo-source-v1:111222:dXU=:tok end"

abbrev as_is : Str → Option Str
as_is s = some s

marker_run :
    controller_source_identity as_is marker ≡ some (peer_1, codes "dXU=", some (codes "tok"))
unfolding controller_source_identity find_after marker_parts split_once strip_prefix
    split_whitespace words_from trim is_whitespace
marker_run = refl

resolve_run :
    resolve_controller_identity as_is none marker (some peer_1)
    ≡ identity peer_1 (some (codes "dXU="))
unfolding resolve_controller_identity resolve_marker controller_source_any
    controller_source_identity find_after marker_parts split_once strip_prefix split_whitespace
    words_from trim is_whitespace str_eq
resolve_run = refl

targets_run :
    (target_allowed_by_controller_policy (some (codes "111222; 333444")) peer_2 ≡ true)
    × (target_allowed_by_controller_policy (some (codes "111222")) peer_2 ≡ false)
unfolding target_allowed_by_controller_policy split_by any str_eq trim is_whitespace
targets_run = (refl, refl)
