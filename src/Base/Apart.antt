-- ===== src/Base/Apart.antt =====
-- Lists whose elements are pairwise unrelated, such as rows under a unique index.
use Prim.Native.Nat.{ℕ}
use mathlib.Core.Path.{◌≡◌, refl, ◌∙◌, ap₂}
use mathlib.Core.Logic.{inl, inr}
use mathlib.Core.Bool.{Bool, true, false, ◌||◌}
use mathlib.Core.List.{List, [], ◌∷◌, ◌++◌}
use mathlib.Core.Option.{some}
use native.Mathlib.Omega.{arith}
use beachops.Base.Tests.{leb, if◌then◌else◌, Bool-cases}
use beachops.Base.Lists.{All, find?, any, filter, insert_by, sort_by, update_where}
use beachops.Base.Rows.{any-append, any-update_where}
use beachops.Base.Sorts.{All-find?, All-map, All-map₂, any-insert_by, any-sort_by}

module _ {ℓ} {A : Type ℓ} where
  pub any-find? : (p : A → Bool) (xs : List A) → any p xs ≡ true → (x : A) × (find? p xs ≡ some x)
  unfolding any find?
  any-find? p [] h = cc
  any-find? p (x ∷ xs) h = elim (Bool-cases (p x)) [
    | inl e ↦ (x, rw e)
    | inr e ↦ let (y, found) = any-find? p xs (ground arith) in (y, rw e found)
  ]

  any_ext : (p q : A → Bool) (xs : List A) → ((x : A) → p x ≡ q x) → any p xs ≡ any q xs
  unfolding any
  any_ext p q [] h = refl
  any_ext p q (x ∷ xs) h = ground (arith, h x, any_ext p q xs h)

  pub All-of-any-false : (p : A → Bool) (xs : List A) → any p xs ≡ false → All (λ x. p x ≡ false) xs
  unfolding any
  All-of-any-false p [] h = tt
  All-of-any-false p (x ∷ xs) h = (ground arith, All-of-any-false p xs (ground arith))

  pub any-of-All-false : (p : A → Bool) (xs : List A) → All (λ x. p x ≡ false) xs → any p xs ≡ false
  unfolding any
  any-of-All-false p [] h = refl
  any-of-All-false p (x ∷ xs) h = rw h.0 (any-of-All-false p xs h.1)

  abbrev pub Distinct : (A → A → Bool) → List A → Type 0
  Distinct r [] = Unit
  Distinct r (x ∷ xs) = (any (r x) xs ≡ false) × Distinct r xs

  pub Distinct-update_where :
      (r : A → A → Bool) (p : A → Bool) (f : A → A) (xs : List A)
      → ((x y : A) → r (f x) y ≡ r x y)
      → ((x y : A) → r x (f y) ≡ r x y)
      → Distinct r xs
      → Distinct r (update_where p f xs)
  unfolding update_where
  Distinct-update_where r p f [] left right d = tt
  Distinct-update_where r p f (x ∷ xs) left right d =
      (head_apart, Distinct-update_where r p f xs left right d.1)
    where
      apart : any (r x) (update_where p f xs) ≡ false
      apart = any-update_where p (r x) f xs (right x) ∙ d.0

      head_apart : any (r (if p x then f x else x)) (update_where p f xs) ≡ false
      head_apart = elim (Bool-cases (p x)) [
        | inl e ↦ rw e (any_ext (r (f x)) (r x) (update_where p f xs) (left x) ∙ apart)
        | inr e ↦ rw e apart
      ]

  pub Distinct-snoc :
      (r : A → A → Bool) (xs : List A) (x : A)
      → ((y z : A) → r y z ≡ r z y)
      → any (r x) xs ≡ false
      → Distinct r xs
      → Distinct r (xs ++ x ∷ [])
  unfolding any
  Distinct-snoc r [] x symmetric h d = (refl, tt)
  Distinct-snoc r (y ∷ ys) x symmetric h d = (
    ground (arith, any-append (r y) ys (x ∷ []), symmetric x y),
    Distinct-snoc r ys x symmetric (ground arith) d.1,
  )

  -- Each element is the first that it is related to.
  pub Distinct-find? :
      (r : A → A → Bool) (xs : List A)
      → ((x : A) → r x x ≡ true)
      → ((y z : A) → r y z ≡ r z y)
      → Distinct r xs
      → All (λ x. find? (r x) xs ≡ some x) xs
  unfolding find?
  Distinct-find? r [] reflexive symmetric d = tt
  Distinct-find? r (y ∷ ys) reflexive symmetric d = (
    rw (reflexive y),
    All-map₂ (λ x. r y x ≡ false) (λ x. find? (r x) ys ≡ some x)
        (λ x. find? (r x) (y ∷ ys) ≡ some x) (λ x apart found. rw (symmetric x y ∙ apart) found) ys
        (All-of-any-false (r y) ys d.0) (Distinct-find? r ys reflexive symmetric d.1),
  )

  -- A narrower test finds the same element, if it holds of it.
  pub find?-narrow :
      (p q : A → Bool) (xs : List A) {x : A}
      → ((y : A) → q y ≡ true → p y ≡ true)
      → find? p xs ≡ some x
      → q x ≡ true
      → find? q xs ≡ some x
  unfolding find?
  find?-narrow p q [] narrow h t = cc
  find?-narrow p q (y ∷ ys) {x} narrow h t = elim (Bool-cases (q y)) [
    | inl e ↦ ground (arith, narrow y e)
    | inr e ↦ elim (Bool-cases (p y)) [
      | inl f ↦ absurd (ground arith)
      | inr f ↦ rw e (find?-narrow p q ys narrow (ground arith) t)
    ]
  ]

  -- An element that one test finds is found by any other that holds of it alone.
  pub find?-same :
      (r : A → A → Bool) (p q : A → Bool) (xs : List A) {x : A}
      → ((y : A) → r y y ≡ true)
      → ((y z : A) → r y z ≡ r z y)
      → Distinct r xs
      → find? p xs ≡ some x
      → q x ≡ true
      → ((y : A) → q y ≡ true → r x y ≡ true)
      → find? q xs ≡ some x
  find?-same r p q xs {x} reflexive symmetric d found t narrow =
      find?-narrow (r x) q xs narrow
        (All-find? (λ y. find? (r y) xs ≡ some y) p xs (Distinct-find? r xs reflexive symmetric d)
          found)
        t

  -- What is related to an element that a test finds is that element.
  pub Distinct-found :
      (r : A → A → Bool) (p : A → Bool) (xs : List A) {x : A}
      → ((y z : A) → r y z ≡ r z y)
      → Distinct r xs
      → find? p xs ≡ some x
      → All (λ y. r x y ≡ true → y ≡ x) xs
  unfolding find?
  Distinct-found r p [] symmetric d found = tt
  Distinct-found r p (z ∷ zs) {x} symmetric d found =
      let apart = All-of-any-false (r z) zs d.0 in
      elim (Bool-cases (p z)) [
        | inl e ↦
            let same : z ≡ x = ground arith in
            (
              λ _. same,
              All-map (λ y. r z y ≡ false) (λ y. r x y ≡ true → y ≡ x)
                  (λ y off on. absurd (ground arith)) zs apart,
            )
        | inr e ↦
            let later : find? p zs ≡ some x = ground arith in
            (
              λ on.
                  absurd (
                    ground (arith, symmetric x z, All-find? (λ y. r z y ≡ false) p zs apart later)),
              Distinct-found r p zs symmetric d.1 later,
            )
      ]

  pub Distinct-alone :
      (r : A → A → Bool) (xs : List A)
      → ((x : A) → r x x ≡ true)
      → ((y z : A) → r y z ≡ r z y)
      → Distinct r xs
      → All (λ x. All (λ y. r x y ≡ true → y ≡ x) xs) xs
  Distinct-alone r xs reflexive symmetric d =
      All-map (λ x. find? (r x) xs ≡ some x) (λ x. All (λ y. r x y ≡ true → y ≡ x) xs)
        (λ x found. Distinct-found r (r x) xs symmetric d found) xs
        (Distinct-find? r xs reflexive symmetric d)

  -- Every element is among the elements.
  pub All-any :
      (r : A → A → Bool) (xs : List A)
      → All (λ x. r x x ≡ true) xs
      → All (λ x. any (r x) xs ≡ true) xs
  unfolding any
  All-any r [] reflexive = tt
  All-any r (y ∷ ys) reflexive = (
    rw reflexive.0,
    All-map (λ x. any (r x) ys ≡ true) (λ x. any (r x) (y ∷ ys) ≡ true) (λ x h. ground arith) ys
        (All-any r ys reflexive.1),
  )

  any-filter : (p q : A → Bool) (xs : List A) → any q xs ≡ false → any q (filter p xs) ≡ false
  unfolding any filter
  any-filter p q [] h = refl
  any-filter p q (x ∷ xs) h = ground (arith, any-filter p q xs)

  pub Distinct-filter :
      (r : A → A → Bool) (p : A → Bool) (xs : List A) → Distinct r xs → Distinct r (filter p xs)
  unfolding filter
  Distinct-filter r p [] d = tt
  Distinct-filter r p (x ∷ xs) d = elim (Bool-cases (p x)) [
    | inl e ↦ rw e (any-filter p (r x) xs d.0, Distinct-filter r p xs d.1)
    | inr e ↦ rw e (Distinct-filter r p xs d.1)
  ]

  Distinct-insert_by :
      (r : A → A → Bool) (key : A → ℕ) (x : A) (ys : List A)
      → ((y z : A) → r y z ≡ r z y)
      → any (r x) ys ≡ false
      → Distinct r ys
      → Distinct r (insert_by key x ys)
  unfolding insert_by any
  Distinct-insert_by r key x [] symmetric h d = (h, tt)
  Distinct-insert_by r key x (y ∷ ys) symmetric h d = elim (Bool-cases (leb (key x) (key y))) [
    | inl e ↦ rw e (h, d)
    | inr e ↦ rw e (
      any-insert_by key (r y) x ys ∙ ground (arith, symmetric y x),
      Distinct-insert_by r key x ys symmetric (ground arith) d.1,
    )
  ]

  pub Distinct-sort_by :
      (r : A → A → Bool) (key : A → ℕ) (xs : List A)
      → ((y z : A) → r y z ≡ r z y)
      → Distinct r xs
      → Distinct r (sort_by key xs)
  unfolding sort_by
  Distinct-sort_by r key [] symmetric d = tt
  Distinct-sort_by r key (x ∷ xs) symmetric d =
      Distinct-insert_by r key x (sort_by key xs) symmetric (any-sort_by key (r x) xs ∙ d.0)
        (Distinct-sort_by r key xs symmetric d.1)

  pub update_where_none :
      (p : A → Bool) (f : A → A) (xs : List A) → ((x : A) → p x ≡ false) → update_where p f xs ≡ xs
  unfolding update_where
  update_where_none p f [] h = refl
  update_where_none p f (x ∷ xs) h = rw (h x, update_where_none p f xs h)

  pub update_where_idle :
      (p : A → Bool) (f : A → A) (xs : List A)
      → All (λ x. p x ≡ false) xs
      → update_where p f xs ≡ xs
  unfolding update_where
  update_where_idle p f [] h = refl
  update_where_idle p f (x ∷ xs) h = rw (h.0, update_where_idle p f xs h.1)

  -- Two writes of the same kind are one.
  pub update_where_twice :
      (p q : A → Bool) (f : A → A) (xs : List A)
      → ((x : A) → q (f x) ≡ q x)
      → ((x : A) → f (f x) ≡ f x)
      → update_where q f (update_where p f xs) ≡ update_where (λ x. p x || q x) f xs
  unfolding update_where
  update_where_twice p q f [] keep idem = refl
  update_where_twice p q f (x ∷ xs) keep idem =
      ap₂ ◌∷◌ head_same (update_where_twice p q f xs keep idem)
    where
      head_same :
          (if q (if p x then f x else x)
            then f (if p x then f x else x)
            else (if p x then f x else x))
          ≡ (if p x || q x then f x else x)
      head_same = ground (arith, keep x, idem x)
