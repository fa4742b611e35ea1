-- ===== src/Relay/Session/Forwarding.antt =====
-- The relay passes on each side's frames in order, counts every bit, and slows a session for good.
use rustdesk_server_nemo.Base.{
  ℕ, ◌+◌, ◌*◌, ◌^◌, ◌<◌, ◌≡◌, refl, sym, subst, inl, inr, none, some, List, [], ◌∷◌, ◌++◌, length,
  is_empty, ltb, if◌then◌else◌, arith, Bool-cases,
}
use rustdesk_server_nemo.Relay.Session.{
  Limits, Relayed, Event, from_peer, from_stream, timer, Clock, Loop, going, closed, blocked,
  timed_out, send_failed, charge, on_event, sampled, sample, round, relay,
}
use rustdesk_server_nemo.Relay.Session.Moves.{
  append_nil, Moves, still-Moves, compose-Moves, then_still,
}

-- The frames that the peer, and the stream, sent with something in them.
abbrev pub frame_of_peer : Event → List (List ℕ)
frame_of_peer (from_peer (some bytes) sent) = if is_empty bytes then [] else bytes ∷ []
frame_of_peer (from_peer none sent) = []
frame_of_peer (from_stream frame sent) = []
frame_of_peer (timer idle) = []

abbrev pub frame_of_stream : Event → List (List ℕ)
frame_of_stream (from_stream (some bytes) sent) = if is_empty bytes then [] else bytes ∷ []
frame_of_stream (from_stream none sent) = []
frame_of_stream (from_peer frame sent) = []
frame_of_stream (timer idle) = []

abbrev pub bits_of : Event → ℕ
bits_of (from_peer (some bytes) sent) = length bytes * 8
bits_of (from_peer none sent) = 0
bits_of (from_stream (some bytes) sent) = length bytes * 8
bits_of (from_stream none sent) = 0
bits_of (timer idle) = 0

pub frames_of_peer : List (Event × Clock) → List (List ℕ)
frames_of_peer [] = []
frames_of_peer (e ∷ es) = frame_of_peer e.0 ++ frames_of_peer es

pub frames_of_stream : List (Event × Clock) → List (List ℕ)
frames_of_stream [] = []
frames_of_stream (e ∷ es) = frame_of_stream e.0 ++ frames_of_stream es

pub bits : List (Event × Clock) → ℕ
bits [] = 0
bits (e ∷ es) = bits_of e.0 + bits es

charge-Moves : (bytes : List ℕ) (r : Relayed) → Moves [] [] (length bytes * 8) r (charge bytes r)
unfolding charge
charge-Moves bytes r = record {
  stream_got = sym (append_nil r.to_stream);
  peer_got = sym (append_nil r.to_peer);
  counted = refl;
  charged = ground arith;
  stays_slow = λ h. (h, ground arith);
}

going_inj : {r s : Relayed} → going r ≡ going s → r ≡ s
going_inj h = cc

to_stream-Moves :
    (bytes : List ℕ) (r : Relayed)
    → Moves
        (bytes ∷ [])
        []
        (length bytes * 8)
        r
        (record (charge bytes r) { to_stream = r.to_stream ++ (bytes ∷ []) })
to_stream-Moves bytes r =
    let m = charge-Moves bytes r in
    record {
      stream_got = refl;
      peer_got = m.peer_got;
      counted = m.counted;
      charged = m.charged;
      stays_slow = m.stays_slow;
    }

to_peer-Moves :
    (bytes : List ℕ) (r : Relayed)
    → Moves []
        (bytes ∷ [])
        (length bytes * 8)
        r
        (record (charge bytes r) { to_peer = r.to_peer ++ (bytes ∷ []) })
to_peer-Moves bytes r =
    let m = charge-Moves bytes r in
    record {
      stream_got = m.stream_got;
      peer_got = refl;
      counted = m.counted;
      charged = m.charged;
      stays_slow = m.stays_slow;
    }

on_event-Moves :
    (e : Event) (r r' : Relayed)
    → r.total < 2 ^ 64
    → on_event e r ≡ going r'
    → Moves (frame_of_peer e) (frame_of_stream e) (bits_of e) r r'
unfolding on_event
on_event-Moves (from_peer none sent) r r' small h = absurd (ground arith)
on_event-Moves (from_peer (some bytes) sent) r r' small h = elim (Bool-cases (is_empty bytes)) [
  | inl e ↦ rw e (
      subst (λ x. Moves [] [] (length bytes * 8) r x) (going_inj (ground arith))
        (charge-Moves bytes r))
  | inr e ↦ elim (Bool-cases sent) [
    | inl taken ↦ rw e (
        subst (λ x. Moves (bytes ∷ []) [] (length bytes * 8) r x) (going_inj (ground arith))
          (to_stream-Moves bytes r))
    | inr lost ↦ absurd (ground arith)
  ]
]
on_event-Moves (from_stream none sent) r r' small h = absurd (ground arith)
on_event-Moves (from_stream (some bytes) sent) r r' small h = elim (Bool-cases (is_empty bytes)) [
  | inl e ↦ rw e (
      subst (λ x. Moves [] [] (length bytes * 8) r x) (going_inj (ground arith))
        (charge-Moves bytes r))
  | inr e ↦ elim (Bool-cases sent) [
    | inl taken ↦ rw e (
        subst (λ x. Moves [] (bytes ∷ []) (length bytes * 8) r x) (going_inj (ground arith))
          (to_peer-Moves bytes r))
    | inr lost ↦ absurd (ground arith)
  ]
]
on_event-Moves (timer idle) r r' small h = elim (Bool-cases (ltb 30 idle)) [
  | inl late ↦ absurd (ground arith)
  | inr quiet ↦ subst (λ x. Moves [] [] 0 r x) (going_inj (ground arith)) (still-Moves r small)
]

sampled-Moves :
    (limits : Limits) (clock : Clock) (r : Relayed)
    → r.total < 2 ^ 64
    → Moves [] [] 0 r (sampled limits clock r)
unfolding sampled
sampled-Moves limits clock r small = record {
  stream_got = sym (append_nil r.to_stream);
  peer_got = sym (append_nil r.to_peer);
  counted = omega arith;
  charged = omega arith;
  stays_slow = λ h. (ground arith, refl);
}

sample-Moves :
    (limits : Limits) (clock : Clock) (r r' : Relayed)
    → r.total < 2 ^ 64
    → sample limits clock r ≡ going r'
    → Moves [] [] 0 r r'
unfolding sample
sample-Moves limits clock r r' small h = elim (Bool-cases (ltb clock.millis 1000)) [
  | inl early ↦ subst (λ x. Moves [] [] 0 r x) (going_inj (ground arith)) (still-Moves r small)
  | inr due ↦ elim (Bool-cases clock.is_blocked) [
    | inl out ↦ absurd (ground arith)
    | inr free ↦
        subst (λ x. Moves [] [] 0 r x) (going_inj (ground arith))
          (sampled-Moves limits clock r small)
  ]
]

going-cases :
    (l : Loop) (k : Relayed → Loop) (r' : Relayed)
    → elim l [
      | going r1 ↦ k r1
      | closed r1 ↦ closed r1
      | blocked r1 ↦ blocked r1
      | timed_out r1 ↦ timed_out r1
      | send_failed r1 ↦ send_failed r1
    ]
      ≡ going r'
    → (r1 : Relayed) × (l ≡ going r1) × (k r1 ≡ going r')
going-cases (going r1) k r' h = (r1, refl, h)
going-cases (closed r1) k r' h = absurd (cc)
going-cases (blocked r1) k r' h = absurd (cc)
going-cases (timed_out r1) k r' h = absurd (cc)
going-cases (send_failed r1) k r' h = absurd (cc)

round-Moves :
    (limits : Limits) (e : Event × Clock) (r r' : Relayed)
    → r.total < 2 ^ 64
    → round limits e r ≡ going r'
    → Moves (frame_of_peer e.0) (frame_of_stream e.0) (bits_of e.0) r r'
unfolding round
round-Moves limits (e, clock) r r' small h =
    let (r1, first, second) = going-cases (on_event e r) (sample limits clock) r' h in
    let f = on_event-Moves e r r1 small first in
    let g = sample-Moves limits clock r1 r' (omega (arith, f.counted)) second in then_still f g

-- As long as a session goes on, each side gets the frames of the other that have something in them, in
-- their order; every bit is counted, as a usize, and charged to one of the two limiters; and a session
-- that was slowed down stays so, its further bits charged to the slow one.
pub relay-Moves :
    (limits : Limits) (es : List (Event × Clock)) (r r' : Relayed)
    → r.total < 2 ^ 64
    → relay limits es r ≡ going r'
    → Moves (frames_of_peer es) (frames_of_stream es) (bits es) r r'
unfolding relay frames_of_peer frames_of_stream bits
relay-Moves limits [] r r' small h =
    subst (λ x. Moves [] [] 0 r x) (going_inj h) (still-Moves r small)
relay-Moves limits (e ∷ es) r r' small h =
    let (r1, first, second) = going-cases (round limits e r) (relay limits es) r' h in
    let f = round-Moves limits e r r1 small first in
    let g = relay-Moves limits es r1 r' (omega (arith, f.counted)) second in compose-Moves f g
