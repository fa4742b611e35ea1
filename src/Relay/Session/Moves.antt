-- ===== src/Relay/Session/Moves.antt =====
-- What the parts of the loop of `relay` move, and that it adds up.
use rustdesk_server_nemo.Base.{
  ℕ, ◌+◌, ◌%◌, ◌^◌, ◌<◌, ◌≡◌, refl, sym, ap, ◌∙◌, true, List, [], ◌∷◌, ◌++◌, arith,
}
use rustdesk_server_nemo.Relay.Session.{Relayed}

pub append_nil : {A : Type 0} (xs : List A) → xs ++ [] ≡ xs
append_nil [] = refl
append_nil (x ∷ xs) = ap (◌∷◌ x) (append_nil xs)

append_assoc : {A : Type 0} (xs ys zs : List A) → (xs ++ ys) ++ zs ≡ xs ++ (ys ++ zs)
append_assoc [] ys zs = refl
append_assoc (x ∷ xs) ys zs = ap (◌∷◌ x) (append_assoc xs ys zs)

-- What a part of the loop did with the frames of each side and so many bits.
pub record Moves (to_stream to_peer : List (List ℕ)) (n : ℕ) (r r' : Relayed) : Type 0 where
  pub stream_got : r'.to_stream ≡ r.to_stream ++ to_stream
  pub peer_got : r'.to_peer ≡ r.to_peer ++ to_peer
  pub counted : r'.total ≡ (r.total + n) % 2 ^ 64
  pub charged : r'.fast_bits + r'.slow_bits ≡ r.fast_bits + r.slow_bits + n
  pub stays_slow : r.downgrade ≡ true → (r'.downgrade ≡ true) × (r'.fast_bits ≡ r.fast_bits)

-- Nothing moves in a round without a frame.
pub still-Moves : (r : Relayed) → r.total < 2 ^ 64 → Moves [] [] 0 r r
still-Moves r small = record {
  stream_got = sym (append_nil r.to_stream);
  peer_got = sym (append_nil r.to_peer);
  counted = omega arith;
  charged = omega arith;
  stays_slow = λ h. (h, refl);
}

pub compose-Moves :
    {a b c d : List (List ℕ)} {m n : ℕ} {r s t : Relayed}
    → Moves a b m r s
    → Moves c d n s t
    → Moves (a ++ c) (b ++ d) (m + n) r t
compose-Moves {a} {b} {c} {d} {m} {n} {r} {s} {t} f g = record {
  stream_got = g.stream_got ∙ (ap (λ x. x ++ c) f.stream_got ∙ append_assoc r.to_stream a c);
  peer_got = g.peer_got ∙ (ap (λ x. x ++ d) f.peer_got ∙ append_assoc r.to_peer b d);
  counted = omega (arith, f.counted, g.counted);
  charged = omega (arith, f.charged, g.charged);
  stays_slow = λ h. (
    (g.stays_slow (f.stays_slow h).0).0,
    (g.stays_slow (f.stays_slow h).0).1 ∙ (f.stays_slow h).1,
  );
}

-- Moving nothing after it leaves what was moved.
pub then_still :
    {a b : List (List ℕ)} {n : ℕ} {r s t : Relayed}
    → Moves a b n r s
    → Moves [] [] 0 s t
    → Moves a b n r t
then_still {a} {b} {n} {r} {s} {t} f g = record {
  stream_got = g.stream_got ∙ (append_nil s.to_stream ∙ f.stream_got);
  peer_got = g.peer_got ∙ (append_nil s.to_peer ∙ f.peer_got);
  counted = omega (arith, f.counted, g.counted);
  charged = omega (arith, f.charged, g.charged);
  stays_slow = λ h. (
    (g.stays_slow (f.stays_slow h).0).0,
    (g.stays_slow (f.stays_slow h).0).1 ∙ (f.stays_slow h).1,
  );
}
