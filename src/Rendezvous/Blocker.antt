-- ===== src/Rendezvous/Blocker.antt =====
-- How often an ip may register, and the ips that a peer had (src/rendezvous_server.rs,
-- `check_ip_blocker` and the bookkeeping of `register_pk_core`; the tables are src/peer.rs's). Times
-- count milliseconds.
pub mod Burst
pub mod Recovery
use rustdesk_server_nemo.Base.{
  ℕ, ◌+◌, ◌-◌, ◌*◌, ◌/◌, Bool, true, false, not, Option, none, some, List, [], ◌∷◌, Str, Dict,
  length, str_mem, lookup, insert, ltb, if◌then◌else◌,
}
use rustdesk_server_nemo.Peers.{put}

-- `elapsed().as_secs()`; `-` on ℕ is `Instant`'s difference, which is zero for a later time.
abbrev pub secs_since : ℕ → ℕ → ℕ
secs_since t now = (now - t) / 1000

-- `IP_BLOCK_DUR`, `DAY_SECONDS` and `IP_CHANGE_DUR`.
abbrev pub ip_block_dur : ℕ
ip_block_dur = 60

abbrev pub day_seconds : ℕ
day_seconds = 3600 * 24

abbrev pub ip_change_dur : ℕ
ip_change_dur = 180

-- An entry of `IP_BLOCKER`: the registrations of an ip with their last time, and the ids that it
-- registered with theirs.
pub record IpBlock : Type 0 where
  pub count : ℕ
  pub count_at : ℕ
  pub ids : List Str
  pub ids_at : ℕ

-- The first counter of `check_ip_blocker`: its new value, or a refusal.
unfoldable pub count_after : IpBlock → ℕ → Option ℕ
count_after old now =
    if ltb ip_block_dur (secs_since old.count_at now)
    then some 1
    else if ltb 30 old.count
    then none
    else some (old.count + 1)

-- The second counter. What is new is decided before the table of ids is cleared.
unfoldable pub ids_after : IpBlock → Str → ℕ → IpBlock × Bool
ids_after old id now =
    let is_new = not (str_mem id old.ids) in
    if ltb day_seconds (secs_since old.ids_at now)
    then (record old { ids = if is_new then id ∷ [] else []; ids_at = now }, true)
    else if ltb 300 (length old.ids)
    then (old, not is_new)
    else (record old { ids = if is_new then id ∷ old.ids else old.ids; ids_at = now }, true)

-- `check_ip_blocker` on the entry of an ip.
unfoldable pub check_entry : Str → ℕ → Option IpBlock → Option IpBlock × Bool
unfolding count_after ids_after
check_entry id now none =
    (some (record { count = 0; count_at = now; ids = []; ids_at = now }), true)
check_entry id now (some old) = elim (count_after old now) [
  | none ↦ (some old, false)
  | some n ↦
      let (new, passes) = ids_after (record old { count = n; count_at = now }) id now in
      (some new, passes)
]

-- `check_ip_blocker`.
unfoldable pub check_ip_blocker :
    Str → Str → ℕ → (Str → Option IpBlock) → (Str → Option IpBlock) × Bool
unfolding check_entry
check_ip_blocker ip id now blocker =
    let (entry, passes) = check_entry id now (blocker ip) in
    (elim entry [ none ↦ blocker | some e ↦ put ip e blocker ], passes)

-- The change of `IP_CHANGES` in `register_pk_core`; the counts are `i32`.
unfoldable pub note_ip_change :
    Str → Str → ℕ → (Str → Option (ℕ × Dict ℕ)) → Str → Option (ℕ × Dict ℕ)
note_ip_change id ip now changes = elim (changes id) [
  | none ↦ put id (now, (ip, 1) ∷ []) changes
  | some (tm, ips) ↦
      if ltb ip_change_dur (secs_since tm now)
      then put id (now, (ip, 1) ∷ []) changes
      else elim (lookup ip ips) [
        | some v ↦ put id (tm, insert ip (v + 1) ips) changes
        | none ↦ put id (tm, insert ip 1 ips) changes
      ]
]
