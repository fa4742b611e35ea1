-- ===== src/Base/Lists.antt =====
-- Lists measured by native numbers, with Boolean predicates: `retain`, `find`, `any` and `count` as
-- the Rust iterators and `Vec` methods of those names.
use Prim.Native.Nat.{ℕ, zero, suc, ◌+◌, ◌≤◌}
use mathlib.Core.Path.{◌≡◌, ap, refl, subst}
use mathlib.Core.Logic.{◌⊎◌, inl, inr}
use mathlib.Core.Bool.{Bool, true, false, ◌&&◌, ◌||◌, not}
use mathlib.Core.List.{List, [], ◌∷◌, ◌++◌}
use mathlib.Core.Option.{Option, none, some}
use native.Mathlib.Omega.{arith}
use rustdesk_server_nemo.Base.Tests.{if◌then◌else◌, Bool-cases}

module _ {ℓ} {A : Type ℓ} where
  abbrev pub length : List A → ℕ
  length [] = 0
  length (x ∷ xs) = suc (length xs)

  -- `Vec::retain`, and `Iterator::filter` followed by `collect`.
  unfoldable pub retain : (A → Bool) → List A → List A
  retain p [] = []
  retain p (x ∷ xs) = if p x then x ∷ retain p xs else retain p xs

  -- `Iterator::find`.
  unfoldable pub find : (A → Bool) → List A → Option A
  find p [] = none
  find p (x ∷ xs) = if p x then some x else find p xs

  -- `Iterator::any`.
  unfoldable pub any : (A → Bool) → List A → Bool
  any p [] = false
  any p (x ∷ xs) = p x || any p xs

  -- `Iterator::all`.
  unfoldable pub all : (A → Bool) → List A → Bool
  all p [] = true
  all p (x ∷ xs) = p x && all p xs

  -- `iter().filter(p).count()`.
  unfoldable pub count : (A → Bool) → List A → ℕ
  count p [] = 0
  count p (x ∷ xs) = if p x then suc (count p xs) else count p xs

  -- `iter_mut().find(p)` with an assignment through the reference.
  unfoldable pub update_first : (A → Bool) → (A → A) → List A → List A
  update_first p f [] = []
  update_first p f (x ∷ xs) = if p x then f x ∷ xs else x ∷ update_first p f xs

  -- `position(p)` followed by `remove`: without the first element that passes.
  unfoldable pub remove_first : (A → Bool) → List A → List A
  remove_first p [] = []
  remove_first p (x ∷ xs) = if p x then xs else x ∷ remove_first p xs

  abbrev pub take : ℕ → List A → List A
  take zero xs = []
  take (suc n) [] = []
  take (suc n) (x ∷ xs) = x ∷ take n xs

  -- What `take` leaves.
  abbrev pub drop : ℕ → List A → List A
  drop zero xs = xs
  drop (suc n) [] = []
  drop (suc n) (x ∷ xs) = drop n xs

  -- `Vec::remove` at an index; out of range it is never called.
  unfoldable pub remove_at : ℕ → List A → List A
  remove_at i [] = []
  remove_at zero (x ∷ xs) = xs
  remove_at (suc i) (x ∷ xs) = x ∷ remove_at i xs

  abbrev pub get_elem? : List A → ℕ → Option A
  get_elem? [] i = none
  get_elem? (x ∷ xs) zero = some x
  get_elem? (x ∷ xs) (suc i) = get_elem? xs i

  -- Every element satisfies a predicate.
  abbrev pub All {κ} : (A → Type κ) → List A → Type κ
  All P [] = Unit
  All P (x ∷ xs) = P x × All P xs

-- Membership as a predicate by recursion.
abbrev pub Elem : {A : Type 0} → A → List A → Type 0
Elem x [] = ⊥
Elem x (y ∷ ys) = (x ≡ y) ⊎ Elem x ys

module _ {ℓ} {A : Type ℓ} where
  pub length-append : (xs ys : List A) → length (xs ++ ys) ≡ length xs + length ys
  length-append [] ys = omega arith
  length-append (x ∷ xs) ys = omega (arith, length-append xs ys)

  pub length-retain-le : (p : A → Bool) (xs : List A) → length (retain p xs) ≤ length xs
  unfolding retain
  length-retain-le p [] = omega arith
  length-retain-le p (x ∷ xs) = ground (arith, length-retain-le p xs)

  pub length-update_first :
      (p : A → Bool) (f : A → A) (xs : List A) → length (update_first p f xs) ≡ length xs
  unfolding update_first
  length-update_first p f [] = refl
  length-update_first p f (x ∷ xs) = ground (arith, length-update_first p f xs)

  pub count-append : (p : A → Bool) (xs ys : List A) → count p (xs ++ ys) ≡ count p xs + count p ys
  unfolding count
  count-append p [] ys = omega arith
  count-append p (x ∷ xs) ys = ground (arith, count-append p xs ys)

  pub count-retain-le : (p q : A → Bool) (xs : List A) → count p (retain q xs) ≤ count p xs
  unfolding count retain
  count-retain-le p q [] = omega arith
  count-retain-le p q (x ∷ xs) = ground (arith, count-retain-le p q xs)

  pub count-le-length : (p : A → Bool) (xs : List A) → count p xs ≤ length xs
  unfolding count
  count-le-length p [] = omega arith
  count-le-length p (x ∷ xs) = ground (arith, count-le-length p xs)

  -- What `find` returns satisfies the test.
  pub find-holds : (p : A → Bool) (xs : List A) (x : A) → find p xs ≡ some x → p x ≡ true
  unfolding find
  find-holds p [] x h = ground arith
  find-holds p (y ∷ xs) x h = ground (arith, find-holds p xs x)

  pub All-append {κ} : (P : A → Type κ) (xs ys : List A) → All P xs → All P ys → All P (xs ++ ys)
  All-append P [] ys h k = k
  All-append P (x ∷ xs) ys h k = (h.0, All-append P xs ys h.1 k)

  pub All-map {κ κ'} :
      (P : A → Type κ) (Q : A → Type κ') (f : (x : A) → P x → Q x) (xs : List A)
      → All P xs
      → All Q xs
  All-map P Q f [] h = tt
  All-map P Q f (x ∷ xs) h = (f x h.0, All-map P Q f xs h.1)

  -- An entry that no test finds is counted nowhere.
  pub count_of_find-none : (p : A → Bool) (xs : List A) → find p xs ≡ none → count p xs ≡ 0
  unfolding find count
  count_of_find-none p [] h = refl
  count_of_find-none p (y ∷ xs) h = ground (arith, count_of_find-none p xs)

  pub find_of_count-zero : (p : A → Bool) (xs : List A) → count p xs ≡ 0 → find p xs ≡ none
  unfolding find count
  find_of_count-zero p [] h = refl
  find_of_count-zero p (y ∷ xs) h = ground (arith, find_of_count-zero p xs)

  pub count_of_find-some :
      (p : A → Bool) (xs : List A) (x : A) → find p xs ≡ some x → 1 ≤ count p xs
  unfolding find count
  count_of_find-some p [] x h = ground arith
  count_of_find-some p (y ∷ xs) x h = ground (arith, count_of_find-some p xs x)

  -- An update that a test does not see leaves its count alone.
  pub count-update_first :
      (p q : A → Bool) (f : A → A) (xs : List A)
      → ((x : A) → p (f x) ≡ p x)
      → count p (update_first q f xs) ≡ count p xs
  unfolding count update_first
  count-update_first p q f [] h = refl
  count-update_first p q f (x ∷ xs) h = ground (arith, h x, count-update_first p q f xs h)

  pub count-retain_self : (p : A → Bool) (xs : List A) → count p (retain (λ x. not (p x)) xs) ≡ 0
  unfolding count retain
  count-retain_self p [] = refl
  count-retain_self p (x ∷ xs) = ground (arith, count-retain_self p xs)

  pub All-retain {κ} :
      (P : A → Type κ) (p : A → Bool) (xs : List A) → All P xs → All P (retain p xs)
  unfolding retain
  All-retain P p [] h = tt
  All-retain P p (x ∷ xs) h = ground (arith, All-retain P p xs h.1)

  pub All-update_first {κ} :
      (P : A → Type κ) (p : A → Bool) (f : A → A) (xs : List A)
      → ((x : A) → P x → P (f x))
      → All P xs
      → All P (update_first p f xs)
  unfolding update_first
  All-update_first P p f [] k h = tt
  All-update_first P p f (x ∷ xs) k h = ground (arith, k x h.0, All-update_first P p f xs k h.1)

  pub find-All {κ} :
      (P : A → Type κ) (p : A → Bool) (xs : List A) (x : A) → All P xs → find p xs ≡ some x → P x
  unfolding find
  find-All P p [] x h e = absurd (cc)
  find-All P p (y ∷ xs) x h e = elim (Bool-cases (p y)) [
    | inl t ↦ let same : y ≡ x = ground arith in subst P same h.0
    | inr f ↦ find-All P p xs x h.1 (ground arith)
  ]

  pub count-remove_at-le :
      (p : A → Bool) (i : ℕ) (xs : List A) → count p (remove_at i xs) ≤ count p xs
  unfolding count remove_at
  count-remove_at-le p i [] = omega arith
  count-remove_at-le p zero (x ∷ xs) = ground arith
  count-remove_at-le p (suc i) (x ∷ xs) = ground (arith, count-remove_at-le p i xs)

  -- An element that a test refuses may go without a change of the count.
  pub count-remove_at :
      (p : A → Bool) (i : ℕ) (xs : List A) (x : A)
      → get_elem? xs i ≡ some x
      → p x ≡ false
      → count p (remove_at i xs) ≡ count p xs
  unfolding count remove_at
  count-remove_at p i [] x h k = refl
  count-remove_at p zero (y ∷ xs) x h k = ground arith
  count-remove_at p (suc i) (y ∷ xs) x h k = ground (arith, count-remove_at p i xs x h k)

  pub length-remove_at :
      (i : ℕ) (xs : List A) (x : A)
      → get_elem? xs i ≡ some x
      → suc (length (remove_at i xs)) ≡ length xs
  unfolding remove_at
  length-remove_at i [] x h = ground arith
  length-remove_at zero (y ∷ xs) x h = refl
  length-remove_at (suc i) (y ∷ xs) x h = ground (arith, length-remove_at i xs x h)

  pub All-remove_at {κ} : (P : A → Type κ) (i : ℕ) (xs : List A) → All P xs → All P (remove_at i xs)
  unfolding remove_at
  All-remove_at P i [] h = tt
  All-remove_at P zero (y ∷ xs) h = h.1
  All-remove_at P (suc i) (y ∷ xs) h = (h.0, All-remove_at P i xs h.1)

  pub get_elem?-holds {κ} :
      (P : A → Type κ) (i : ℕ) (xs : List A) (x : A) → All P xs → get_elem? xs i ≡ some x → P x
  get_elem?-holds P i [] x h e = absurd (cc)
  get_elem?-holds P zero (y ∷ xs) x h e = let same : y ≡ x = cc in subst P same h.0
  get_elem?-holds P (suc i) (y ∷ xs) x h e = get_elem?-holds P i xs x h.1 e

  pub count-append_one :
      (p : A → Bool) (xs : List A) (x : A)
      → count p (xs ++ (x ∷ [])) ≡ count p xs + (if p x then 1 else 0)
  unfolding count
  count-append_one p xs x = ground (arith, count-append p xs (x ∷ []))

  pub find-append :
      (p : A → Bool) (xs ys : List A)
      → find p (xs ++ ys) ≡ elim (find p xs) [ none ↦ find p ys | some x ↦ some x ]
  unfolding find
  find-append p [] ys = refl
  find-append p (x ∷ xs) ys = elim (Bool-cases (p x)) [
    | inl e ↦ rw e
    | inr e ↦ rw e (find-append p xs ys)
  ]

pub retain-append {ℓ} :
    {A : Type ℓ} (p : A → Bool) (xs ys : List A) → retain p (xs ++ ys) ≡ retain p xs ++ retain p ys
unfolding retain
retain-append p [] ys = refl
retain-append p (x ∷ xs) ys = elim (Bool-cases (p x)) [
  | inl e ↦ rw e (ap (◌∷◌ x) (retain-append p xs ys))
  | inr e ↦ rw e (retain-append p xs ys)
]
