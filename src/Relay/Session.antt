-- ===== src/Relay/Session.antt =====
-- The loop of `relay` (src/relay_server.rs): what it forwards, what it charges to which limiter, and
-- what it reports. The limiters only delay, so a charge is a number here.
pub mod Moves
pub mod Forwarding
use rustdesk_server_nemo.Base.{
  ℕ, ◌+◌, ◌*◌, ◌/◌, ◌%◌, ◌^◌, Bool, true, false, not, ◌&&◌, ◌||◌, Option, none, some, List, [], ◌∷◌,
  ◌++◌, length, is_empty, leb, ltb, if◌then◌else◌,
}
use rustdesk_server_nemo.Relay.Pairing.{Usage}

-- The settings that the loop reads; `downgrade_threshold` is in bits for a millisecond.
pub record Limits : Type 0 where
  pub downgrade_threshold : ℕ
  pub downgrade_start_check : ℕ

-- The variables of `relay`, with the frames sent on each side, the bits charged to its two limiters
-- and the last entry of `USAGE`.
pub record Relayed : Type 0 where
  pub elapsed : ℕ
  pub total : ℕ
  pub total_s : ℕ
  pub highest_s : ℕ
  pub downgrade : Bool
  pub blacked : Bool
  pub to_stream : List (List ℕ)
  pub to_peer : List (List ℕ)
  pub fast_bits : ℕ
  pub slow_bits : ℕ
  pub usage : Option Usage

-- What `select!` answers: a side's next frame (`none` when it closed), with whether the other side
-- takes it, or the timer, with the seconds since the last frame.
pub data Event : Type 0 where
  from_peer from_stream : Option (List ℕ) → Bool → Event
  timer : ℕ → Event

-- What the loop reads after an event: the milliseconds since the last sample, and the two lists.
pub record Clock : Type 0 where
  pub millis : ℕ
  pub is_blocked : Bool
  pub is_blacked : Bool

-- How the loop goes on.
pub data Loop : Type 0 where
  going closed blocked timed_out send_failed : Relayed → Loop

abbrev pub usize_add : ℕ → ℕ → ℕ
usize_add a b = (a + b) % 2 ^ 64

-- A frame is charged and counted.
unfoldable pub charge : List ℕ → Relayed → Relayed
charge bytes r =
    let nb = length bytes * 8 in
    let slow = r.blacked || r.downgrade in
    record r {
      fast_bits = if slow then r.fast_bits else r.fast_bits + nb;
      slow_bits = if slow then r.slow_bits + nb else r.slow_bits;
      total = usize_add r.total nb;
      total_s = usize_add r.total_s nb;
    }

-- The arms of `select!`.
unfoldable pub on_event : Event → Relayed → Loop
on_event (from_peer none sent) r = closed r
on_event (from_peer (some bytes) sent) r =
    if is_empty bytes
    then going (charge bytes r)
    else if sent
    then going (record (charge bytes r) { to_stream = r.to_stream ++ (bytes ∷ []) })
    else send_failed (charge bytes r)
on_event (from_stream none sent) r = closed r
on_event (from_stream (some bytes) sent) r =
    if is_empty bytes
    then going (charge bytes r)
    else if sent
    then going (record (charge bytes r) { to_peer = r.to_peer ++ (bytes ∷ []) })
    else send_failed (charge bytes r)
on_event (timer idle_secs) r = if ltb 30 idle_secs then timed_out r else going r

-- What a sample writes.
unfoldable pub sampled : Limits → Clock → Relayed → Relayed
sampled limits clock r =
    let speed = r.total_s / clock.millis in
    let highest = if ltb r.highest_s speed then speed else r.highest_s in
    let elapsed = usize_add r.elapsed clock.millis in
    let exceeds = ltb ((elapsed * limits.downgrade_threshold) % 2 ^ 64) r.total in
    record r {
      blacked = clock.is_blacked;
      highest_s = highest;
      elapsed = elapsed;
      usage = some (elapsed, r.total, highest, speed);
      total_s = 0;
      downgrade = r.downgrade || (ltb limits.downgrade_start_check elapsed && exceeds);
    }

-- The sample at the end of a round, once a second.
unfoldable pub sample : Limits → Clock → Relayed → Loop
sample limits clock r =
    if ltb clock.millis 1000
    then going r
    else if clock.is_blocked
    then blocked r
    else going (sampled limits clock r)

-- One round of the loop.
unfoldable pub round : Limits → Event × Clock → Relayed → Loop
round limits (event, clock) r = elim (on_event event r) [
  | going r1 ↦ sample limits clock r1
  | closed r1 ↦ closed r1
  | blocked r1 ↦ blocked r1
  | timed_out r1 ↦ timed_out r1
  | send_failed r1 ↦ send_failed r1
]

-- The loop over the events that come; it is `going` while there may be more.
unfoldable pub relay : Limits → List (Event × Clock) → Relayed → Loop
relay limits [] r = going r
relay limits (e ∷ es) r = elim (round limits e r) [
  | going r1 ↦ relay limits es r1
  | closed r1 ↦ closed r1
  | blocked r1 ↦ blocked r1
  | timed_out r1 ↦ timed_out r1
  | send_failed r1 ↦ send_failed r1
]
