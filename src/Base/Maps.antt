-- ===== src/Base/Maps.antt =====
-- A `HashMap<String, V>` as an association list. The server reads it by key, by `len` and by
-- `retain`, and in no order, so the order of the list carries no meaning.
use Prim.Native.Nat.{◌+◌, ◌≤◌}
use mathlib.Core.Path.{◌≡◌, refl, subst}
use mathlib.Core.Logic.{inl, inr}
use mathlib.Core.Bool.{Bool, true, false}
use mathlib.Core.List.{List, [], ◌∷◌}
use mathlib.Core.Option.{Option, none, some}
use native.Mathlib.Omega.{arith}
use rustdesk_server_nemo.Base.Tests.{if◌then◌else◌, Bool-cases, Option-cases}
use rustdesk_server_nemo.Base.Lists.{length, retain, count, All}
use rustdesk_server_nemo.Base.Text.{Str, str_eq, str_eq_iff}

abbrev pub Dict {ℓ} : Type ℓ → Type ℓ
Dict V = List (Str × V)

module _ {ℓ} {V : Type ℓ} where
  -- `get`.
  unfoldable pub lookup : Str → Dict V → Option V
  lookup k [] = none
  lookup k ((j, v) ∷ m) = if str_eq j k then some v else lookup k m

  -- `insert`.
  unfoldable pub insert : Str → V → Dict V → Dict V
  insert k v [] = (k, v) ∷ []
  insert k v ((j, w) ∷ m) = if str_eq j k then (k, v) ∷ m else (j, w) ∷ insert k v m

  -- `remove`.
  unfoldable pub remove : Str → Dict V → Dict V
  remove k [] = []
  remove k ((j, w) ∷ m) = if str_eq j k then remove k m else (j, w) ∷ remove k m

  -- `retain`, by the value.
  abbrev pub retain_values : (V → Bool) → Dict V → Dict V
  retain_values p = retain (λ e. p e.1)

  -- `contains_key`.
  abbrev pub contains_key : Str → Dict V → Bool
  contains_key k m = elim (lookup k m) [ none ↦ false | some _ ↦ true ]

module _ {ℓ} {V : Type ℓ} where
  pub lookup-insert :
      (k j : Str) (v : V) (m : Dict V)
      → lookup j (insert k v m) ≡ (if str_eq k j then some v else lookup j m)
  unfolding lookup insert
  lookup-insert k j v [] = refl
  lookup-insert k j v ((i, w) ∷ m) =
      ground (arith, str_eq_iff k j, str_eq_iff i k, str_eq_iff i j, lookup-insert k j v m)

  pub lookup-remove :
      (k j : Str) (m : Dict V) → lookup j (remove k m) ≡ (if str_eq k j then none else lookup j m)
  unfolding lookup remove
  lookup-remove k j [] = ground arith
  lookup-remove k j ((i, w) ∷ m) =
      ground (arith, str_eq_iff k j, str_eq_iff i k, str_eq_iff i j, lookup-remove k j m)

  pub length-insert-le : (k : Str) (v : V) (m : Dict V) → length (insert k v m) ≤ length m + 1
  unfolding insert
  length-insert-le k v [] = omega arith
  length-insert-le k v ((i, w) ∷ m) = ground (arith, length-insert-le k v m)

  -- A key that is there is overwritten in place.
  pub length-insert_old :
      (k : Str) (w v : V) (m : Dict V) → lookup k m ≡ some w → length (insert k v m) ≡ length m
  unfolding insert lookup
  length-insert_old k w v [] h = ground arith
  length-insert_old k w v ((i, u) ∷ m) h = ground (arith, length-insert_old k w v m)

-- No key has two entries, as in every `HashMap`.
abbrev pub IsMap {ℓ} : {V : Type ℓ} → Dict V → Type 0
IsMap {V} m = (k : Str) → count (λ (e : Str × V). str_eq e.0 k) m ≤ 1

module _ {ℓ} {V : Type ℓ} where
  -- An entry that is kept is found as before.
  pub lookup-retain_kept :
      (k : Str) (p : V → Bool) (m : Dict V) (v : V)
      → lookup k m ≡ some v
      → p v ≡ true
      → lookup k (retain_values p m) ≡ some v
  unfolding lookup retain
  lookup-retain_kept k p [] v h e = absurd (cc)
  lookup-retain_kept k p ((j, w) ∷ m) v h e = ground (arith, lookup-retain_kept k p m v)

  -- What is not there before is not there after.
  pub lookup-retain_none :
      (k : Str) (p : V → Bool) (m : Dict V)
      → lookup k m ≡ none
      → lookup k (retain_values p m) ≡ none
  unfolding lookup retain
  lookup-retain_none k p [] h = refl
  lookup-retain_none k p ((j, w) ∷ m) h = ground (arith, lookup-retain_none k p m)

  pub lookup_of_count-zero :
      (k : Str) (m : Dict V) → count (λ (e : Str × V). str_eq e.0 k) m ≡ 0 → lookup k m ≡ none
  unfolding lookup count
  lookup_of_count-zero k [] h = refl
  lookup_of_count-zero k ((j, w) ∷ m) h = ground (arith, lookup_of_count-zero k m)

  -- In a map an entry that is not kept leaves its key without one.
  pub lookup-retain_dropped :
      (k : Str) (p : V → Bool) (m : Dict V) (v : V)
      → count (λ (e : Str × V). str_eq e.0 k) m ≤ 1
      → lookup k m ≡ some v
      → p v ≡ false
      → lookup k (retain_values p m) ≡ none
  unfolding lookup retain count
  lookup-retain_dropped k p [] v once h e = refl
  lookup-retain_dropped k p ((j, w) ∷ m) v once h e = elim (Bool-cases (str_eq j k)) [
    | inl at ↦
        let none_left : lookup k m ≡ none = lookup_of_count-zero k m (ground arith) in
        ground (arith, lookup-retain_none k p m none_left)
    | inr other ↦ ground (arith, lookup-retain_dropped k p m v)
  ]

  pub retain_values-holds :
      (k : Str) (p : V → Bool) (m : Dict V) (v : V)
      → lookup k (retain_values p m) ≡ some v
      → p v ≡ true
  unfolding lookup retain
  retain_values-holds k p [] v h = absurd (cc)
  retain_values-holds k p ((j, w) ∷ m) v h = ground (arith, retain_values-holds k p m v)

  -- In a map, `retain` filters each look-up.
  pub lookup-retain :
      (k : Str) (p : V → Bool) (m : Dict V)
      → IsMap m
      → lookup k (retain_values p m)
        ≡ elim (lookup k m) [ none ↦ none | some v ↦ if p v then some v else none ]
  lookup-retain k p m unique = elim (Option-cases (lookup k m)) [
    | inl e ↦ rw e (lookup-retain_none k p m e)
    | inr (v, e) ↦ rw e (elim (Bool-cases (p v)) [
      | inl t ↦ rw t (lookup-retain_kept k p m v e t)
      | inr f ↦ rw f (lookup-retain_dropped k p m v (unique k) e f)
    ])
  ]

  pub lookup-All {κ} :
      (P : V → Type κ) (k : Str) (m : Dict V) (v : V)
      → All (λ (e : Str × V). P e.1) m
      → lookup k m ≡ some v
      → P v
  unfolding lookup
  lookup-All P k [] v h e = absurd (cc)
  lookup-All P k ((j, w) ∷ m) v h e = elim (Bool-cases (str_eq j k)) [
    | inl at ↦ let same : w ≡ v = ground arith in subst P same h.0
    | inr other ↦ lookup-All P k m v h.1 (ground arith)
  ]

  pub insert-All {κ} :
      (P : V → Type κ) (k : Str) (v : V) (m : Dict V)
      → All (λ (e : Str × V). P e.1) m
      → P v
      → All (λ (e : Str × V). P e.1) (insert k v m)
  unfolding insert
  insert-All P k v [] h p = (p, tt)
  insert-All P k v ((j, w) ∷ m) h p = elim (Bool-cases (str_eq j k)) [
    | inl at ↦ rw at (p, h.1)
    | inr other ↦ rw other (h.0, insert-All P k v m h.1 p)
  ]
