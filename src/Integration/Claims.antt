-- ===== src/Integration/Claims.antt =====
-- Pending binding requests (src/nemo_integration.rs): filing one, and the operator's answers.
pub mod Eviction
pub mod Cases
pub mod Invariant
pub mod Denial
pub mod Approval
pub mod Steps
use rustdesk_server_nemo.Base.{
  ℕ, zero, suc, ◌+◌, ◌^◌, ◌-◌, Bool, true, false, not, ◌&&◌, ◌||◌, Option, none, some, List, [],
  ◌∷◌, ◌++◌, length, retain, find, count, update_first, remove_at, Str, codes, str_eq, is_empty,
  str_ltb, trim, leb, ltb, ◌==◌, if◌then◌else◌, Result, ok, err, sat_add,
}
use rustdesk_server_nemo.Integration.Config.{
  DeviceKey, PendingClaim, Config, World, persist, set_config,
}
use rustdesk_server_nemo.Integration.DeviceKeys.{valid_peer_id, has_public_key, claim_device_key_in}

-- `MAX_PENDING_PER_KEY` and `MAX_PENDING_CLAIMS`.
abbrev pub max_pending_per_key : ℕ
max_pending_per_key = 5

abbrev pub max_pending_claims : ℕ
max_pending_claims = 200

-- `PendingOutcome`.
pub data PendingOutcome : Type 0 where
  new repeat denied full rejected : PendingOutcome

-- A claim of this key, and a claim of this key by this peer.
abbrev pub of_key : Str → PendingClaim → Bool
of_key pk c = str_eq c.public_key pk

abbrev pub of_pair : Str → Str → PendingClaim → Bool
of_pair pk peer_id c = str_eq c.public_key pk && str_eq c.peer_id peer_id

-- A row as the dashboard names it.
abbrev pub of_row : Str → Str → PendingClaim → Bool
of_row key_id peer_id c = str_eq c.key_id key_id && str_eq c.peer_id peer_id

-- `(i, a)` comes strictly before `(j, b)` in the order of `min_by`.
abbrev pub is_older : ℕ × PendingClaim → ℕ × PendingClaim → Bool
is_older (i, a) (j, b) =
    str_ltb a.first_seen b.first_seen || (str_eq a.first_seen b.first_seen && ltb i j)

-- What `min_by` keeps of its best so far and the next element.
abbrev pub older : Option (ℕ × PendingClaim) → ℕ × PendingClaim → ℕ × PendingClaim
older none x = x
older (some best) x = if is_older x best then x else best

-- `iter().enumerate().filter(not denied).min_by(..)`, from index `i` on.
unfoldable pub oldest_from :
    ℕ → List PendingClaim → Option (ℕ × PendingClaim) → Option (ℕ × PendingClaim)
oldest_from i [] best = best
oldest_from i (c ∷ cs) best =
    oldest_from (i + 1) cs (if c.denied then best else some (older best (i, c)))

-- How the eviction loop ends: with room, or with rows of which none may be dropped.
pub data Room : Type 0 where
  room no_room : List PendingClaim → Room
  out_of_fuel : Room

-- The loop `while claims.len() >= MAX_PENDING_CLAIMS`.
unfoldable pub make_room : ℕ → List PendingClaim → Room
unfolding oldest_from
make_room zero claims = if ltb (length claims) max_pending_claims then room claims else out_of_fuel
make_room (suc fuel) claims =
    if ltb (length claims) max_pending_claims
    then room claims
    else elim (oldest_from 0 claims none) [
      | none ↦ no_room claims
      | some (i, _) ↦ make_room fuel (remove_at i claims)
    ]

-- A repeated request refreshes its row.
abbrev pub refresh : Str → Str → Str → PendingClaim → PendingClaim
refresh key_id via now c = record c {
  key_id = key_id;
  last_seen = now;
  attempts = sat_add (2 ^ 32 - 1) c.attempts 1;
  via = via;
}

-- `register_pending_claim_in`: the outcome, and the claims after it.
unfoldable pub register_pending_claim_in :
    List PendingClaim → Str → Str → Str → Str → Str → PendingOutcome × List PendingClaim
unfolding make_room
register_pending_claim_in claims key_id public_key raw via now =
    let pk = trim public_key in
    let peer_id = trim raw in
    if not (valid_peer_id peer_id)
    then (rejected, claims)
    else elim (find (of_pair pk peer_id) claims) [
      | some existing ↦ (
        if existing.denied then denied else repeat,
        update_first (of_pair pk peer_id) (refresh key_id via now) claims,
      )
      | none ↦
          if leb max_pending_per_key (count (of_key pk) claims)
          then (full, claims)
          else elim (make_room (length claims) claims) [
            | no_room left ↦ (full, left)
            | out_of_fuel ↦ (full, claims)
            | room kept ↦ (
              new,
              kept
                  ++ (record {
                    key_id = key_id;
                    public_key = pk;
                    peer_id = peer_id;
                    first_seen = now;
                    last_seen = now;
                    attempts = 1;
                    via = via;
                    denied = false;
                  }
                      ∷ []),
            )
          ]
    ]

abbrev is_new : PendingOutcome → Bool
is_new new = true
is_new _ = false

abbrev set_claims : World → List PendingClaim → World
set_claims w cs = set_config w (record (w.config) { pending_device_key_claims = cs })

-- `register_pending_claim`: only a new row is worth a write.
unfoldable pub register_pending_claim : Str → Str → Str → Str → World → World × PendingOutcome
register_pending_claim public_key peer_id via now w =
    let pk = trim public_key in
    elim (find (has_public_key pk) w.config.device_keys) [
      | none ↦ (w, rejected)
      | some key ↦
          let (outcome, claims) =
            register_pending_claim_in w.config.pending_device_key_claims key.id pk peer_id via
              now in
          (if is_new outcome then persist (set_claims w claims) else set_claims w claims, outcome)
    ]

-- `pending_claim_for_peer`: a waiting row before a denied one.
unfoldable pub pending_claim_for_peer : Str → World → Option PendingClaim
pending_claim_for_peer raw w =
    let peer_id = trim raw in
    let claims = w.config.pending_device_key_claims in
    if is_empty peer_id
    then none
    else elim (find (λ (c : PendingClaim). str_eq c.peer_id peer_id && not c.denied) claims) [
      | some c ↦ some c
      | none ↦ find (λ (c : PendingClaim). str_eq c.peer_id peer_id) claims
    ]

-- `approve_device_key_claim`. An error after the binding is written leaves it in memory.
unfoldable pub approve_device_key_claim : Str → Str → Str → World → World × Result DeviceKey
approve_device_key_claim key_id peer_id claimed_at w =
    elim (find (of_row key_id peer_id) w.config.pending_device_key_claims) [
      | none ↦ (w, err (codes "no such pending device-key claim"))
      | some claim ↦
          elim (claim_device_key_in w.config.device_keys claim.public_key peer_id claimed_at) [
            | err e ↦ (w, err e)
            | ok (_, keys) ↦
                let w1 = set_config w (record (w.config) {
                  device_keys = keys;
                  pending_device_key_claims =
                      retain (λ c. not (of_key claim.public_key c))
                        w.config.pending_device_key_claims;
                }) in
                elim (find (has_public_key claim.public_key) keys) [
                  | none ↦ (w1, err (codes "device key is no longer pinned on this server"))
                  | some key ↦ (persist w1, ok key)
                ]
          ]
    ]

abbrev pub deny : PendingClaim → PendingClaim
deny c = record c { denied = true }

-- `deny_device_key_claim`.
unfoldable pub deny_device_key_claim : Str → Str → World → World × Result PendingClaim
deny_device_key_claim key_id peer_id w =
    elim (find (of_row key_id peer_id) w.config.pending_device_key_claims) [
      | none ↦ (w, err (codes "no such pending device-key claim"))
      | some claim ↦ (
        persist (
            set_claims w
              (update_first (of_row key_id peer_id) deny w.config.pending_device_key_claims)),
        ok (deny claim),
      )
    ]

-- `forget_device_key_claim`.
unfoldable pub forget_device_key_claim : Str → Str → World → World × Result Bool
forget_device_key_claim key_id peer_id w =
    let claims = w.config.pending_device_key_claims in
    let kept = retain (λ c. not (of_row key_id peer_id c)) claims in
    let w1 = set_claims w kept in
    if not (length kept == length claims)
    then (persist w1, ok true)
    else (w1, err (codes "no such pending device-key claim"))

-- `pending_device_key_claim_count`.
unfoldable pub pending_device_key_claim_count : World → ℕ
pending_device_key_claim_count w =
    count (λ (c : PendingClaim). not c.denied) w.config.pending_device_key_claims
