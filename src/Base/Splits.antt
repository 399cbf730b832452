-- ===== src/Base/Splits.antt =====
-- More methods of Python's `str` on lists of code points: cutting, joining, and white space.
use Prim.Native.Nat.{ℕ, zero, suc, ◌-◌, ◌≤◌, ◌<◌}
use mathlib.Core.Path.{◌≡◌, refl, ap, ◌∙◌}
use mathlib.Core.Logic.{inl, inr}
use mathlib.Core.Bool.{Bool, true, false}
use mathlib.Core.List.{List, [], ◌∷◌, ◌++◌, reverse, reverse-append}
use mathlib.Core.Option.{Option, none, some}
use native.Mathlib.Omega.{arith}
use beachops.Base.Tests.{if◌then◌else◌, Bool-cases}
use beachops.Base.Lists.{All, length, length-append, take}
use beachops.Base.Chars.{Text, is_space, starts_with, strip_left}

-- `value.rstrip()`
unfoldable pub strip_right : Text → Text
unfolding strip_left
strip_right s = reverse (strip_left (reverse s))

-- `value[n:]`
abbrev pub drop {ℓ} : {A : Type ℓ} → ℕ → List A → List A
drop zero xs = xs
drop (suc n) [] = []
drop (suc n) (x ∷ xs) = drop n xs

unfoldable pub drop_while : (ℕ → Bool) → Text → Text
drop_while p [] = []
drop_while p (c ∷ s) = let rest = drop_while p s in if p c then rest else c ∷ s

-- `value.split(sep, 1)[1]`, and none where there is no such part.
unfoldable pub after_first : Text → Text → Option Text
unfolding starts_with
after_first sep [] = none
after_first sep (c ∷ s) =
    let rest = after_first sep s in
    if starts_with (c ∷ s) sep then some (drop (length sep) (c ∷ s)) else rest

abbrev pub drop_last : Text → Text
drop_last [] = []
drop_last (c ∷ []) = []
drop_last (c ∷ d ∷ s) = c ∷ drop_last (d ∷ s)

-- `value[: n - 1]`, which counts from the end at 0.
abbrev pub take_before : ℕ → Text → Text
take_before zero s = drop_last s
take_before (suc n) s = take n s

abbrev pub cons_head : ℕ → List Text → List Text
cons_head c [] = (c ∷ []) ∷ []
cons_head c (p ∷ ps) = (c ∷ p) ∷ ps

-- The parts of a text, where so many characters of a separator are still to be skipped.
unfoldable pub split_from : Text → ℕ → Text → List Text
unfolding starts_with
split_from sep skip [] = [] ∷ []
split_from sep (suc skip) (c ∷ s) = split_from sep skip s
split_from sep zero (c ∷ s) = elim (starts_with (c ∷ s) sep) [
  | true ↦ [] ∷ split_from sep (length sep - 1) s
  | false ↦ cons_head c (split_from sep 0 s)
]

-- `value.split(sep)`
unfoldable pub split : Text → Text → List Text
unfolding split_from
split s sep = split_from sep 0 s

-- `sep.join(parts)`
unfoldable pub join : Text → List Text → Text
join sep [] = []
join sep (p ∷ []) = p
join sep (p ∷ q ∷ ps) = p ++ sep ++ join sep (q ∷ ps)

abbrev starts_with_space : Text → Bool
starts_with_space [] = false
starts_with_space (c ∷ s) = is_space c

-- `re.sub(r"\s+", " ", value)`: a run of white space becomes one space.
unfoldable pub collapse_spaces : Text → Text
unfolding is_space
collapse_spaces [] = []
collapse_spaces (c ∷ s) =
    let rest = collapse_spaces s in
    if is_space c then (if starts_with_space s then rest else b' ' ∷ rest) else c ∷ rest

-- White space in a text is the space only.
abbrev pub IsOneLine : Text → Type 0
IsOneLine s = All (λ c. is_space c ≡ true → c ≡ b' ') s

pub collapse_spaces-IsOneLine : (s : Text) → IsOneLine (collapse_spaces s)
unfolding collapse_spaces
collapse_spaces-IsOneLine [] = tt
collapse_spaces-IsOneLine (c ∷ s) = elim (Bool-cases (is_space c)) [
  | inr mark ↦ rw mark (λ h. cc, collapse_spaces-IsOneLine s)
  | inl blank ↦ elim (Bool-cases (starts_with_space s)) [
    | inl more ↦ rw (blank, more) (collapse_spaces-IsOneLine s)
    | inr last ↦ rw (blank, last) (λ h. refl, collapse_spaces-IsOneLine s)
  ]
]

pub collapse_spaces-pos : (s : Text) → 0 < length s → 0 < length (collapse_spaces s)
unfolding collapse_spaces
collapse_spaces-pos [] h = h
collapse_spaces-pos (c ∷ []) h = ground arith
collapse_spaces-pos (c ∷ d ∷ s) h = ground (arith, collapse_spaces-pos (d ∷ s))

pub length-strip_left-le : (s : Text) → length (strip_left s) ≤ length s
unfolding strip_left
length-strip_left-le [] = omega arith
length-strip_left-le (c ∷ s) = ground (arith, length-strip_left-le s)

pub length-reverse {ℓ} : {A : Type ℓ} (xs : List A) → length (reverse xs) ≡ length xs
length-reverse [] = refl
length-reverse (x ∷ xs) =
    ap length (reverse-append (x ∷ []) xs)
    ∙ length-append (reverse xs) (x ∷ [])
    ∙ omega (arith, length-reverse xs)

pub length-strip_right-le : (s : Text) → length (strip_right s) ≤ length s
unfolding strip_right
length-strip_right-le s = omega (
  arith,
  length-reverse (strip_left (reverse s)),
  length-strip_left-le (reverse s),
  length-reverse s,
)
