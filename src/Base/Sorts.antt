-- ===== src/Base/Sorts.antt =====
-- Laws of `All`, `filter` and `sort_by` of `Lists`.
use Prim.Native.Nat.{ℕ, suc, ◌≤◌}
use mathlib.Core.Path.{◌≡◌, refl}
use mathlib.Core.Logic.{inl, inr}
use mathlib.Core.Bool.{Bool, true, false, ◌||◌}
use mathlib.Core.List.{List, [], ◌∷◌, ◌++◌}
use mathlib.Core.Option.{none, some}
use native.Mathlib.Omega.{arith}
use native.Mathlib.Nat.{le_trans}
use beachops.Base.Tests.{leb, leb→le, Bool-cases}
use beachops.Base.Lists.{All, length, filter, find?, any, update_where, insert_by, sort_by, head?}

module _ {ℓ κ} {A : Type ℓ} (P : A → Type κ) where
  pub All-head : (xs : List A) {x : A} → All P xs → head? xs ≡ some x → P x
  All-head [] h e = cc
  All-head (y ∷ ys) {x} h e = subst_to (ground arith) h.0
    where
      subst_to : y ≡ x → P y → P x
      subst_to q v = rw (← q) v

  pub All-find? : (p : A → Bool) (xs : List A) {x : A} → All P xs → find? p xs ≡ some x → P x
  unfolding find?
  All-find? p [] h e = cc
  All-find? p (y ∷ ys) {x} h e = elim (Bool-cases (p y)) [
    | inl t ↦ subst_to (ground arith) h.0
    | inr f ↦ All-find? p ys h.1 (ground arith)
  ]
    where
      subst_to : y ≡ x → P y → P x
      subst_to q v = rw (← q) v

  pub All-filter : (p : A → Bool) (xs : List A) → All P xs → All P (filter p xs)
  unfolding filter
  All-filter p [] h = tt
  All-filter p (x ∷ xs) h = elim (Bool-cases (p x)) [
    | inl e ↦ rw e (h.0, All-filter p xs h.1)
    | inr e ↦ rw e (All-filter p xs h.1)
  ]

  All-insert_by : (key : A → ℕ) (x : A) (ys : List A) → P x → All P ys → All P (insert_by key x ys)
  unfolding insert_by
  All-insert_by key x [] hx h = (hx, tt)
  All-insert_by key x (y ∷ ys) hx h = elim (Bool-cases (leb (key x) (key y))) [
    | inl e ↦ rw e (hx, h)
    | inr e ↦ rw e (h.0, All-insert_by key x ys hx h.1)
  ]

  pub All-sort_by : (key : A → ℕ) (xs : List A) → All P xs → All P (sort_by key xs)
  unfolding sort_by
  All-sort_by key [] h = tt
  All-sort_by key (x ∷ xs) h = All-insert_by key x (sort_by key xs) h.0 (All-sort_by key xs h.1)

  of-All-insert_by :
      (key : A → ℕ) (x : A) (ys : List A) → All P (insert_by key x ys) → P x × All P ys
  unfolding insert_by
  of-All-insert_by key x [] = λ h. h
  of-All-insert_by key x (y ∷ ys) = elim (Bool-cases (leb (key x) (key y))) [
    | inl e ↦ rw e (λ h. h)
    | inr e ↦ rw e (λ h. let (hx, hys) = of-All-insert_by key x ys h.1 in (hx, (h.0, hys)))
  ]

  pub of-All-sort_by : (key : A → ℕ) (xs : List A) → All P (sort_by key xs) → All P xs
  unfolding sort_by
  of-All-sort_by key [] h = tt
  of-All-sort_by key (x ∷ xs) h =
      let (hx, hxs) = of-All-insert_by key x (sort_by key xs) h in (hx, of-All-sort_by key xs hxs)

  pub of-All-filter :
      (p : A → Bool) (xs : List A) → All P (filter p xs) → All (λ x. p x ≡ true → P x) xs
  unfolding filter
  of-All-filter p [] = λ h. tt
  of-All-filter p (x ∷ xs) = elim (Bool-cases (p x)) [
    | inl e ↦ rw e (λ h. (λ _. h.0, of-All-filter p xs h.1))
    | inr e ↦ rw e (λ h. (λ t. cc, of-All-filter p xs h))
  ]

  pub All-update_where :
      (p : A → Bool) (f : A → A) (xs : List A)
      → ((x : A) → p x ≡ true → P (f x))
      → All (λ x. p x ≡ false → P x) xs
      → All P (update_where p f xs)
  unfolding update_where
  All-update_where p f [] written kept = tt
  All-update_where p f (x ∷ xs) written kept = elim (Bool-cases (p x)) [
    | inl e ↦ rw e (written x e, All-update_where p f xs written kept.1)
    | inr e ↦ rw e (kept.0 e, All-update_where p f xs written kept.1)
  ]

  pub All-update_where_kept :
      (p : A → Bool) (f : A → A) (xs : List A)
      → ((x : A) → P x → P (f x))
      → All P xs
      → All P (update_where p f xs)
  unfolding update_where
  All-update_where_kept p f [] keep h = tt
  All-update_where_kept p f (x ∷ xs) keep h = elim (Bool-cases (p x)) [
    | inl e ↦ rw e (keep x h.0, All-update_where_kept p f xs keep h.1)
    | inr e ↦ rw e (h.0, All-update_where_kept p f xs keep h.1)
  ]

  pub All-update_where_each :
      (p : A → Bool) (f : A → A) (xs : List A)
      → All (λ x. (p x ≡ true → P (f x)) × (p x ≡ false → P x)) xs
      → All P (update_where p f xs)
  unfolding update_where
  All-update_where_each p f [] h = tt
  All-update_where_each p f (x ∷ xs) h = elim (Bool-cases (p x)) [
    | inl e ↦ rw e (h.0.0 e, All-update_where_each p f xs h.1)
    | inr e ↦ rw e (h.0.1 e, All-update_where_each p f xs h.1)
  ]

  pub All-every : ((x : A) → P x) → (xs : List A) → All P xs
  All-every f [] = tt
  All-every f (x ∷ xs) = (f x, All-every f xs)

  pub All-append : (xs ys : List A) → All P xs → All P ys → All P (xs ++ ys)
  All-append [] ys hx hy = hy
  All-append (x ∷ xs) ys hx hy = (hx.0, All-append xs ys hx.1 hy)

  pub of-All-append : (xs ys : List A) → All P (xs ++ ys) → All P xs × All P ys
  of-All-append [] ys h = (tt, h)
  of-All-append (x ∷ xs) ys h = let (left, right) = of-All-append xs ys h.1 in ((h.0, left), right)

module _ {ℓ κ ι} {A : Type ℓ} (P : A → Type κ) (Q : A → Type ι) where
  pub All-map : ((x : A) → P x → Q x) → (xs : List A) → All P xs → All Q xs
  All-map f [] h = tt
  All-map f (x ∷ xs) h = (f x h.0, All-map f xs h.1)

module _ {ℓ κ ι ο} {A : Type ℓ} (P : A → Type κ) (Q : A → Type ι) (R : A → Type ο) where
  pub All-map₂ : ((x : A) → P x → Q x → R x) → (xs : List A) → All P xs → All Q xs → All R xs
  All-map₂ f [] h k = tt
  All-map₂ f (x ∷ xs) h k = (f x h.0 k.0, All-map₂ f xs h.1 k.1)

module _ {ℓ} {A : Type ℓ} where
  pub filter-All : (p : A → Bool) (xs : List A) → All (λ x. p x ≡ true) (filter p xs)
  unfolding filter
  filter-All p [] = tt
  filter-All p (x ∷ xs) = elim (Bool-cases (p x)) [
    | inl e ↦ rw e (e, filter-All p xs)
    | inr e ↦ rw e (filter-All p xs)
  ]

  pub any-insert_by :
      (key : A → ℕ) (p : A → Bool) (x : A) (ys : List A)
      → any p (insert_by key x ys) ≡ (p x || any p ys)
  unfolding any insert_by
  any-insert_by key p x [] = refl
  any-insert_by key p x (y ∷ ys) = ground (arith, any-insert_by key p x ys)

  pub any-sort_by : (key : A → ℕ) (p : A → Bool) (xs : List A) → any p (sort_by key xs) ≡ any p xs
  unfolding any sort_by
  any-sort_by key p [] = refl
  any-sort_by key p (x ∷ xs) =
      ground (arith, any-insert_by key p x (sort_by key xs), any-sort_by key p xs)

  length-insert_by :
      (key : A → ℕ) (x : A) (ys : List A) → length (insert_by key x ys) ≡ suc (length ys)
  unfolding insert_by
  length-insert_by key x [] = refl
  length-insert_by key x (y ∷ ys) = ground (arith, length-insert_by key x ys)

  pub length-sort_by : (key : A → ℕ) (xs : List A) → length (sort_by key xs) ≡ length xs
  unfolding sort_by
  length-sort_by key [] = refl
  length-sort_by key (x ∷ xs) =
      ground (arith, length-insert_by key x (sort_by key xs), length-sort_by key xs)

  -- The least key stands first.
  IsLeast : (A → ℕ) → List A → Type 0
  IsLeast key [] = Unit
  IsLeast key (y ∷ ys) = All (λ z. key y ≤ key z) ys × IsLeast key ys

  All-le_trans :
      (key : A → ℕ) {a b : ℕ} (ys : List A)
      → a ≤ b
      → All (λ z. b ≤ key z) ys
      → All (λ z. a ≤ key z) ys
  All-le_trans key {a} {b} ys le =
      All-map (λ z. b ≤ key z) (λ z. a ≤ key z) (λ z h. le_trans le h) ys

  insert_by-IsLeast :
      (key : A → ℕ) (x : A) (ys : List A) → IsLeast key ys → IsLeast key (insert_by key x ys)
  unfolding IsLeast insert_by
  insert_by-IsLeast key x [] h = (tt, tt)
  insert_by-IsLeast key x (y ∷ ys) h = elim (Bool-cases (leb (key x) (key y))) [
    | inl e ↦ let le = leb→le (key x) (key y) e in rw e ((le, All-le_trans key ys le h.0), h)
    | inr e ↦ rw e (
      All-insert_by (λ z. key y ≤ key z) key x ys (ground arith) h.0,
      insert_by-IsLeast key x ys h.1,
    )
  ]

  sort_by-IsLeast : (key : A → ℕ) (xs : List A) → IsLeast key (sort_by key xs)
  unfolding IsLeast sort_by
  sort_by-IsLeast key [] = tt
  sort_by-IsLeast key (x ∷ xs) = insert_by-IsLeast key x (sort_by key xs) (sort_by-IsLeast key xs)

  head-least :
      (key : A → ℕ) (xs : List A) {x : A}
      → IsLeast key xs
      → head? xs ≡ some x
      → All (λ y. key x ≤ key y) xs
  unfolding IsLeast
  head-least key [] l h = cc
  head-least key (y ∷ ys) {x} l h =
      let e : key x ≡ key y = ground arith in (omega arith, All-le_trans key ys (omega arith) l.0)

  -- The first element of a sorted list has the least key of the list.
  pub head?-sort_by-le :
      (key : A → ℕ) (xs : List A) {x : A}
      → head? (sort_by key xs) ≡ some x
      → All (λ y. key x ≤ key y) xs
  head?-sort_by-le key xs {x} h =
      of-All-sort_by (λ y. key x ≤ key y) key xs
        (head-least key (sort_by key xs) (sort_by-IsLeast key xs) h)

  pub sort_by-ne-nil : (key : A → ℕ) (xs : List A) → head? (sort_by key xs) ≡ none → xs ≡ []
  unfolding sort_by insert_by
  sort_by-ne-nil key [] h = refl
  sort_by-ne-nil key (x ∷ xs) h = absurd (insert_by-ne-nil (sort_by key xs) h)
    where
      insert_by-ne-nil : (ys : List A) → head? (insert_by key x ys) ≡ none → ⊥
      insert_by-ne-nil [] h = cc
      insert_by-ne-nil (y ∷ ys) h = ground arith

  pub filter-nil : (p : A → Bool) (xs : List A) → filter p xs ≡ [] → All (λ x. p x ≡ false) xs
  unfolding filter
  filter-nil p [] h = tt
  filter-nil p (x ∷ xs) h = elim (Bool-cases (p x)) [
    | inl e ↦ absurd (ground arith)
    | inr e ↦ (e, filter-nil p xs (ground arith))
  ]

  pub filter_nil-of-All :
      (p : A → Bool) (xs : List A) → All (λ x. p x ≡ false) xs → filter p xs ≡ []
  unfolding filter
  filter_nil-of-All p [] h = refl
  filter_nil-of-All p (x ∷ xs) h = rw h.0 (filter_nil-of-All p xs h.1)
