-- ===== src/Base/Rows.antt =====
-- Laws of the reads and writes of `Lists`.
use mathlib.Core.Path.{◌≡◌, refl}
use mathlib.Core.Logic.{inl, inr}
use mathlib.Core.Bool.{Bool, true, false, ◌||◌}
use mathlib.Core.List.{List, [], ◌∷◌, ◌++◌}
use mathlib.Core.Option.{none, some}
use native.Mathlib.Omega.{arith}
use beachops.Base.Tests.{if◌then◌else◌, Bool-cases}
use beachops.Base.Lists.{find?, any, filter, update_where}

module _ {ℓ} {A : Type ℓ} where
  pub find?-sound : (p : A → Bool) (xs : List A) {x : A} → find? p xs ≡ some x → p x ≡ true
  unfolding find?
  find?-sound p [] h = cc
  find?-sound p (y ∷ ys) {x} h = elim (Bool-cases (p y)) [
    | inl e ↦ ground arith
    | inr e ↦ find?-sound p ys (ground arith)
  ]

  pub find?-append :
      (p : A → Bool) (xs ys : List A)
      → find? p (xs ++ ys) ≡ (elim (find? p xs) [ none ↦ find? p ys | some x ↦ some x ])
  unfolding find?
  find?-append p [] ys = refl
  find?-append p (x ∷ xs) ys = elim (Bool-cases (p x)) [
    | inl e ↦ rw e
    | inr e ↦ rw e (find?-append p xs ys)
  ]

  pub find?-none_iff : (p : A → Bool) (xs : List A) → find? p xs ≡ none → any p xs ≡ false
  unfolding find? any
  find?-none_iff p [] h = refl
  find?-none_iff p (x ∷ xs) h = ground (arith, find?-none_iff p xs)

  pub find?-any-none :
      (p q : A → Bool) (xs : List A)
      → any q xs ≡ false
      → ((x : A) → p x ≡ true → q x ≡ true)
      → find? p xs ≡ none
  unfolding find? any
  find?-any-none p q [] h narrow = refl
  find?-any-none p q (x ∷ xs) h narrow = ground (arith, narrow x, find?-any-none p q xs)

  pub find?-filter :
      (p q : A → Bool) (xs : List A)
      → ((x : A) → p x ≡ true → q x ≡ true)
      → find? p (filter q xs) ≡ find? p xs
  unfolding find? filter
  find?-filter p q [] narrow = refl
  find?-filter p q (x ∷ xs) narrow = ground (arith, narrow x, find?-filter p q xs narrow)

  pub any-append : (p : A → Bool) (xs ys : List A) → any p (xs ++ ys) ≡ (any p xs || any p ys)
  unfolding any
  any-append p [] ys = refl
  any-append p (x ∷ xs) ys = ground (arith, any-append p xs ys)

  -- A write that a read does not see: the rows written are not among those read.
  pub find?-update_where_ne :
      (p q : A → Bool) (f : A → A) (xs : List A)
      → ((x : A) → q (f x) ≡ q x)
      → ((x : A) → p x ≡ true → q x ≡ false)
      → find? q (update_where p f xs) ≡ find? q xs
  unfolding find? update_where
  find?-update_where_ne p q f [] keep apart = refl
  find?-update_where_ne p q f (x ∷ xs) keep apart =
      ground (arith, keep x, apart x, find?-update_where_ne p q f xs keep apart)

  -- A read after a write that does not change which rows are read.
  pub find?-update_where :
      (p q : A → Bool) (f : A → A) (xs : List A)
      → ((x : A) → q (f x) ≡ q x)
      → find? q (update_where p f xs)
        ≡ (elim (find? q xs) [ none ↦ none | some x ↦ some (if p x then f x else x) ])
  unfolding find? update_where
  find?-update_where p q f [] keep = refl
  find?-update_where p q f (y ∷ ys) keep = elim (Bool-cases (q y)) [
    | inl e ↦ ground (arith, keep y)
    | inr e ↦ ground (arith, keep y, find?-update_where p q f ys keep)
  ]

  pub update_where-miss :
      (p : A → Bool) (f : A → A) (xs : List A) → find? p xs ≡ none → update_where p f xs ≡ xs
  unfolding find? update_where
  update_where-miss p f [] h = refl
  update_where-miss p f (x ∷ xs) h = ground (arith, update_where-miss p f xs)

  pub any-update_where :
      (p q : A → Bool) (f : A → A) (xs : List A)
      → ((x : A) → q (f x) ≡ q x)
      → any q (update_where p f xs) ≡ any q xs
  unfolding any update_where
  any-update_where p q f [] keep = refl
  any-update_where p q f (x ∷ xs) keep = ground (arith, keep x, any-update_where p q f xs keep)
