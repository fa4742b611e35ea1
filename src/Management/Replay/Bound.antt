-- ===== src/Management/Replay/Bound.antt =====
-- The eviction of nonces ends within its fuel, with room for one more.
use rustdesk_server_nemo.Base.{
  ℕ, zero, suc, ◌<◌, ◌≤◌, ◌≡◌, refl, subst, ◌⊎◌, inl, inr, true, Option, none, some, [], ◌∷◌,
  length, Str, Dict, lookup, remove, contains_key, str_eq, str_eq_refl, ltb, if◌then◌else◌, arith,
  Bool-cases, Option-cases, some_inj,
}
use rustdesk_server_nemo.Management.Replay.{max_seen_nonces, oldest_seen, evict_seen}

length-remove-le : (k : Str) (m : Dict ℕ) → length (remove k m) ≤ length m
unfolding remove
length-remove-le k [] = omega arith
length-remove-le k ((j, t) ∷ m) = ground (arith, length-remove-le k m)

length-remove-lt : (k : Str) (m : Dict ℕ) → contains_key k m ≡ true → length (remove k m) < length m
unfolding remove lookup
length-remove-lt k [] h = absurd (cc)
length-remove-lt k ((j, t) ∷ m) h = elim (Bool-cases (str_eq j k)) [
  | inl here ↦ ground (arith, length-remove-le k m)
  | inr there ↦ ground (arith, length-remove-lt k m)
]

head_there : (k : Str) (t : ℕ) (m : Dict ℕ) → contains_key k ((k, t) ∷ m) ≡ true
unfolding lookup
head_there k t m = ground (arith, str_eq_refl k)

tail_there :
    (k : Str) (t : ℕ) (m : Dict ℕ) (j : Str)
    → contains_key j m ≡ true
    → contains_key j ((k, t) ∷ m) ≡ true
unfolding lookup
tail_there k t m j h = elim (Bool-cases (str_eq k j)) [
  | inl here ↦ ground arith
  | inr there ↦ ground arith
]

-- The oldest entry is the best so far or one of the table.
oldest_seen-there :
    (m : Dict ℕ) (best : Option (Str × ℕ)) (e : Str × ℕ)
    → oldest_seen m best ≡ some e
    → (best ≡ some e) ⊎ (contains_key e.0 m ≡ true)
unfolding oldest_seen
oldest_seen-there [] best e h = inl h
oldest_seen-there ((k, t) ∷ m) none e h = elim (oldest_seen-there m (some (k, t)) e h) [
  | inl first ↦ inr (
      subst (λ (x : Str × ℕ). contains_key x.0 ((k, t) ∷ m) ≡ true) (some_inj first)
        (head_there k t m))
  | inr later ↦ inr (tail_there k t m e.0 later)
]
oldest_seen-there ((k, t) ∷ m) (some best) e h =
    elim (oldest_seen-there m (some (if ltb t best.1 then (k, t) else best)) e h) [
      | inl first ↦ elim (Bool-cases (ltb t best.1)) [
        | inl older ↦ inr (
            subst (λ (x : Str × ℕ). contains_key x.0 ((k, t) ∷ m) ≡ true)
              (some_inj (rw older at first)) (head_there k t m))
        | inr younger ↦ inl (rw younger at first)
      ]
      | inr later ↦ inr (tail_there k t m e.0 later)
    ]

oldest_seen-some :
    (m : Dict ℕ) (best : Str × ℕ) → (e : Str × ℕ) × (oldest_seen m (some best) ≡ some e)
unfolding oldest_seen
oldest_seen-some [] best = (best, refl)
oldest_seen-some ((k, t) ∷ m) best = oldest_seen-some m (if ltb t best.1 then (k, t) else best)

-- Only an empty table has no oldest entry.
empty_of_oldest_seen : (m : Dict ℕ) → oldest_seen m none ≡ none → length m ≡ 0
unfolding oldest_seen length
empty_of_oldest_seen [] h = refl
empty_of_oldest_seen ((k, t) ∷ m) h =
    let (e, found) = oldest_seen-some m (k, t) in absurd (ground arith)

-- With one round for each entry the table ends below its bound.
pub evict_seen-bounded :
    (fuel : ℕ) (m : Dict ℕ) → length m ≤ fuel → length (evict_seen fuel m) < max_seen_nonces
unfolding evict_seen
evict_seen-bounded zero m h = omega arith
evict_seen-bounded (suc fuel) m h = elim (Bool-cases (ltb (length m) max_seen_nonces)) [
  | inl room ↦ ground arith
  | inr full ↦ elim (Option-cases (oldest_seen m none)) [
    | inl e ↦ let empty = empty_of_oldest_seen m e in absurd (ground arith)
    | inr (old, e) ↦
        let there : contains_key old.0 m ≡ true = elim (oldest_seen-there m none old e) [
          | inl first ↦ absurd (cc)
          | inr later ↦ later
        ] in
        let shorter = length-remove-lt old.0 m there in
        let rest = evict_seen-bounded fuel (remove old.0 m) (omega arith) in rw (full, e) rest
  ]
]
