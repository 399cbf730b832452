-- ===== src/Base/Counts.antt =====
-- How many elements a test holds of.
use Prim.Native.Nat.{◌+◌, ◌≤◌}
use mathlib.Core.Path.{◌≡◌, refl}
use mathlib.Core.Logic.{inl, inr}
use mathlib.Core.Bool.{Bool, true, false, not}
use mathlib.Core.List.{List, [], ◌∷◌, ◌++◌}
use native.Mathlib.Omega.{arith}
use beachops.Base.Tests.{Bool-cases}
use beachops.Base.Lists.{All, length, any, find?, filter, update_where}
use beachops.Base.Sorts.{All-map, filter_nil-of-All}
use beachops.Base.Apart.{Distinct, All-of-any-false}

module _ {ℓ} {A : Type ℓ} where
  -- Removing the elements of a narrower test.
  pub length-filter-not :
      (p q : A → Bool) (xs : List A)
      → ((x : A) → p x ≡ true → q x ≡ true)
      → length (filter q xs) ≡ length (filter q (filter (λ x. not (p x)) xs)) + length (filter p xs)
  unfolding filter
  length-filter-not p q [] narrow = refl
  length-filter-not p q (x ∷ xs) narrow = ground (arith, narrow x, length-filter-not p q xs narrow)

  -- A test that holds only of related elements holds of one at most, among unrelated ones.
  pub length-filter_one :
      (r : A → A → Bool) (p : A → Bool) (xs : List A)
      → ((x y : A) → p x ≡ true → p y ≡ true → r x y ≡ true)
      → Distinct r xs
      → length (filter p xs) ≤ 1
  unfolding filter
  length-filter_one r p [] close d = ground arith
  length-filter_one r p (x ∷ xs) close d = elim (Bool-cases (p x)) [
    | inl e ↦
        let others =
          All-map (λ y. r x y ≡ false) (λ y. p y ≡ false) (λ y apart. ground (arith, close x y e))
            xs (All-of-any-false (r x) xs d.0) in
        ground (arith, filter_nil-of-All p xs others)
    | inr e ↦ ground (arith, length-filter_one r p xs close d.1)
  ]

  pub any-of-filter : (p : A → Bool) (xs : List A) → any p xs ≡ false → length (filter p xs) ≡ 0
  unfolding any filter
  any-of-filter p [] h = refl
  any-of-filter p (x ∷ xs) h = ground (arith, any-of-filter p xs)

  -- Some element is written so that the test holds of it.
  pub any-update_where_hit :
      (p q hit : A → Bool) (f : A → A) (xs : List A)
      → ((x : A) → hit x ≡ true → p x ≡ true)
      → ((x : A) → hit x ≡ true → q (f x) ≡ true)
      → any hit xs ≡ true
      → any q (update_where p f xs) ≡ true
  unfolding any update_where
  any-update_where_hit p q hit f [] within holds h = cc
  any-update_where_hit p q hit f (x ∷ xs) within holds h = elim (Bool-cases (hit x)) [
    | inl e ↦ rw (within x e, holds x e) refl
    | inr e ↦ ground (arith, any-update_where_hit p q hit f xs within holds)
  ]

  -- A filter that keeps what the test holds of.
  pub any-filter_keep :
      (p q : A → Bool) (xs : List A)
      → All (λ x. p x ≡ true → q x ≡ true) xs
      → any p (filter q xs) ≡ any p xs
  unfolding any filter
  any-filter_keep p q [] keep = refl
  any-filter_keep p q (x ∷ xs) keep =
      let first = keep.0 in ground (arith, any-filter_keep p q xs keep.1)

  -- A write that a read does not see, of the rows that there are.
  pub find?-update_where_apart :
      (p q : A → Bool) (f : A → A) (xs : List A)
      → ((x : A) → q (f x) ≡ q x)
      → All (λ x. p x ≡ true → q x ≡ false) xs
      → find? q (update_where p f xs) ≡ find? q xs
  unfolding find? update_where
  find?-update_where_apart p q f [] keep apart = refl
  find?-update_where_apart p q f (x ∷ xs) keep apart =
      let first = apart.0 in ground (arith, keep x, find?-update_where_apart p q f xs keep apart.1)

  pub length-filter-update_where :
      (p q : A → Bool) (f : A → A) (xs : List A)
      → ((x : A) → q (f x) ≡ q x)
      → length (filter q (update_where p f xs)) ≡ length (filter q xs)
  unfolding filter update_where
  length-filter-update_where p q f [] same = refl
  length-filter-update_where p q f (x ∷ xs) same =
      ground (arith, same x, length-filter-update_where p q f xs same)

  pub length-filter-append :
      (p : A → Bool) (xs ys : List A)
      → length (filter p (xs ++ ys)) ≡ length (filter p xs) + length (filter p ys)
  unfolding filter
  length-filter-append p [] ys = omega arith
  length-filter-append p (x ∷ xs) ys = ground (arith, length-filter-append p xs ys)

  pub length-filter-any : (p : A → Bool) (xs : List A) → any p xs ≡ true → 1 ≤ length (filter p xs)
  unfolding any filter
  length-filter-any p [] h = cc
  length-filter-any p (x ∷ xs) h = ground (arith, length-filter-any p xs)

  pub length-filter-filter-le :
      (p q : A → Bool) (xs : List A) → length (filter p (filter q xs)) ≤ length (filter p xs)
  unfolding filter
  length-filter-filter-le p q [] = omega arith
  length-filter-filter-le p q (x ∷ xs) = ground (arith, length-filter-filter-le p q xs)

  pub length-filter-filter_keep :
      (p q : A → Bool) (xs : List A)
      → ((x : A) → p x ≡ true → q x ≡ true)
      → length (filter p (filter q xs)) ≡ length (filter p xs)
  unfolding filter
  length-filter-filter_keep p q [] keep = refl
  length-filter-filter_keep p q (x ∷ xs) keep =
      ground (arith, keep x, length-filter-filter_keep p q xs keep)
