-- ===== src/Base/Find.antt =====
-- What `find` returns after a write, an insertion or a removal elsewhere in the list.
use Prim.Native.Nat.{ℕ, zero, suc, ◌≤◌}
use mathlib.Core.Path.{◌≡◌, refl}
use mathlib.Core.Logic.{◌⊎◌, inl, inr}
use mathlib.Core.Bool.{Bool, true, false}
use mathlib.Core.List.{List, [], ◌∷◌}
use mathlib.Core.Option.{none, some}
use native.Mathlib.Omega.{arith}
use rustdesk_server_nemo.Base.Tests.{Bool-cases}
use rustdesk_server_nemo.Base.Lists.{
  find, count, retain, update_first, remove_at, remove_first, get_elem?, any,
}

module _ {ℓ} {A : Type ℓ} where
  -- The write goes to the element that the same test finds.
  pub find-update_first_self :
      (p : A → Bool) (f : A → A) (xs : List A) (x : A)
      → ((y : A) → p (f y) ≡ p y)
      → find p xs ≡ some x
      → find p (update_first p f xs) ≡ some (f x)
  unfolding find update_first
  find-update_first_self p f [] x keep h = absurd (cc)
  find-update_first_self p f (y ∷ xs) x keep h = elim (Bool-cases (p y)) [
    | inl e ↦ rw (e, keep y, e) (ground arith)
    | inr e ↦ rw (e, e) (find-update_first_self p f xs x keep (ground arith))
  ]

  -- The write goes to elements that the test does not find, before and after.
  pub find-update_first_other :
      (p q : A → Bool) (f : A → A) (xs : List A)
      → ((y : A) → q y ≡ true → p y ≡ false)
      → ((y : A) → q y ≡ true → p (f y) ≡ false)
      → find p (update_first q f xs) ≡ find p xs
  unfolding find update_first
  find-update_first_other p q f [] apart apart' = refl
  find-update_first_other p q f (y ∷ xs) apart apart' = elim (Bool-cases (q y)) [
    | inl e ↦ rw (e, apart y e, apart' y e)
    | inr e ↦ rw (e, find-update_first_other p q f xs apart apart')
  ]

  -- Any write that the test does not see leaves what it finds, or rewrites it.
  pub find-update_first_any :
      (p q : A → Bool) (f : A → A) (xs : List A) (x : A)
      → ((y : A) → p (f y) ≡ p y)
      → find p xs ≡ some x
      → (find p (update_first q f xs) ≡ some x) ⊎ (find p (update_first q f xs) ≡ some (f x))
  unfolding find update_first
  find-update_first_any p q f [] x keep h = absurd (cc)
  find-update_first_any p q f (y ∷ xs) x keep h =
      ground (arith, keep y, find-update_first_any p q f xs x keep)

  -- Another element than the one that is found may go.
  pub find-remove_at :
      (p mark : A → Bool) (j : ℕ) (xs : List A) (x z : A)
      → find p xs ≡ some x
      → get_elem? xs j ≡ some z
      → mark x ≡ true
      → mark z ≡ false
      → find p (remove_at j xs) ≡ some x
  unfolding find remove_at
  find-remove_at p mark j [] x z h at mx mz = absurd (cc)
  find-remove_at p mark zero (y ∷ xs) x z h at mx mz = ground arith
  find-remove_at p mark (suc j) (y ∷ xs) x z h at mx mz =
      ground (arith, find-remove_at p mark j xs x z)

  count_of_found :
      (p q : A → Bool) (xs : List A) (x : A) → find q xs ≡ some x → p x ≡ true → 1 ≤ count p xs
  unfolding find count
  count_of_found p q [] x h k = absurd (cc)
  count_of_found p q (y ∷ xs) x h k = ground (arith, count_of_found p q xs x)

  -- Where a test holds once, a write through another test that reaches it is found by it.
  pub find-update_first_unique :
      (p q : A → Bool) (f : A → A) (xs : List A) (x : A)
      → ((y : A) → p (f y) ≡ p y)
      → count p xs ≤ 1
      → find q xs ≡ some x
      → p x ≡ true
      → find p (update_first q f xs) ≡ some (f x)
  unfolding find update_first count
  find-update_first_unique p q f [] x keep once h px = absurd (cc)
  find-update_first_unique p q f (y ∷ xs) x keep once h px =
      ground (arith, keep y, count_of_found p q xs x, find-update_first_unique p q f xs x keep)

  -- What is found stays found when other elements go.
  pub find-retain :
      (p q : A → Bool) (xs : List A)
      → ((y : A) → p y ≡ true → q y ≡ true)
      → find p (retain q xs) ≡ find p xs
  unfolding find retain
  find-retain p q [] keep = refl
  find-retain p q (y ∷ xs) keep = ground (arith, keep y, find-retain p q xs keep)

  pub find-remove_first_other :
      (p q : A → Bool) (xs : List A)
      → ((y : A) → q y ≡ true → p y ≡ false)
      → find p (remove_first q xs) ≡ find p xs
  unfolding find remove_first
  find-remove_first_other p q [] apart = refl
  find-remove_first_other p q (y ∷ xs) apart =
      ground (arith, apart y, find-remove_first_other p q xs apart)

  pub any_of_find : (p : A → Bool) (xs : List A) (x : A) → find p xs ≡ some x → any p xs ≡ true
  unfolding find any
  any_of_find p [] x h = absurd (cc)
  any_of_find p (y ∷ xs) x h = ground (arith, any_of_find p xs x)

  -- What is found and kept is found among what is kept.
  pub find-retain_found :
      (p q : A → Bool) (xs : List A) (x : A)
      → find p xs ≡ some x
      → q x ≡ true
      → find p (retain q xs) ≡ some x
  unfolding find retain
  find-retain_found p q [] x h k = absurd (cc)
  find-retain_found p q (y ∷ xs) x h k = ground (arith, find-retain_found p q xs x)

  pub any_of_found :
      (p q : A → Bool) (xs : List A) (x : A) → find p xs ≡ some x → q x ≡ true → any q xs ≡ true
  unfolding find any
  any_of_found p q [] x h k = absurd (cc)
  any_of_found p q (y ∷ xs) x h k = ground (arith, any_of_found p q xs x)

  pub retain-retain : (p : A → Bool) (xs : List A) → retain p (retain p xs) ≡ retain p xs
  unfolding retain
  retain-retain p [] = refl
  retain-retain p (y ∷ xs) = ground (arith, retain-retain p xs)

  pub count-retain_other :
      (p q : A → Bool) (xs : List A)
      → ((y : A) → p y ≡ true → q y ≡ true)
      → count p (retain q xs) ≡ count p xs
  unfolding count retain
  count-retain_other p q [] keep = refl
  count-retain_other p q (y ∷ xs) keep = ground (arith, keep y, count-retain_other p q xs keep)

  pub find-retain-none :
      (p q : A → Bool) (xs : List A)
      → ((y : A) → q y ≡ true → p y ≡ false)
      → find p (retain q xs) ≡ none
  unfolding find retain
  find-retain-none p q [] apart = refl
  find-retain-none p q (y ∷ xs) apart = ground (arith, apart y, find-retain-none p q xs apart)
