-- ===== src/Sse/Blank.antt =====
-- What src/beachops/services/cursor_sse.py makes of white space: nothing.
use beachops.Base.{
  ℕ, zero, suc, ◌==◌, ◌≡◌, refl, sym, ap, ◌∙◌, inl, inr, Bool, true, false, ◌&&◌, List, [], ◌∷◌,
  Text, All, All-append, is_empty, is_space, starts_with, strip, strip_left, split, split_from,
  cons_head, Bool-cases, ==_iff, arith,
}
use mathlib.Core.List.{reverse, reverse-append, reverse-reverse}
use beachops.Sse.{
  is_line_end, lines_from, splitlines, Block, new_block, read_line, read_lines, parse_block,
  parse_blocks, blank_line,
}

abbrev pub IsBlank : Text → Type 0
IsBlank s = All (λ c. is_space c ≡ true) s

All-reverse {ℓ κ} : {A : Type ℓ} (P : A → Type κ) (xs : List A) → All P xs → All P (reverse xs)
All-reverse P [] h = tt
All-reverse P (x ∷ xs) h =
    rw (reverse-append (x ∷ []) xs)
      (All-append P (reverse xs) (x ∷ []) (All-reverse P xs h.1) (h.0, tt))

IsBlank-strip_left : (s : Text) → IsBlank (strip_left s) → IsBlank s
unfolding strip_left
IsBlank-strip_left [] h = tt
IsBlank-strip_left (c ∷ s) h = elim (Bool-cases (is_space c)) [
  | inl blank ↦ (blank, IsBlank-strip_left s (rw blank at h))
  | inr mark ↦ rw mark at h
]

strip_left-nil : (s : Text) → is_empty (strip_left s) ≡ true → IsBlank s
unfolding strip_left is_empty
strip_left-nil [] h = tt
strip_left-nil (c ∷ s) h = elim (Bool-cases (is_space c)) [
  | inl blank ↦ (blank, strip_left-nil s (rw blank at h))
  | inr mark ↦ absurd (ground arith)
]

is_empty-reverse : (s : Text) → is_empty (reverse s) ≡ true → s ≡ []
unfolding is_empty
is_empty-reverse s h = sym (reverse-reverse s) ∙ go (reverse s) h
  where
    go : (r : Text) → is_empty r ≡ true → reverse r ≡ []
    go [] e = refl
    go (c ∷ r) e = cc

-- A text of which `strip` leaves nothing is white space.
pub strip-IsBlank : (s : Text) → is_empty (strip s) ≡ true → IsBlank s
unfolding strip is_empty
strip-IsBlank s h =
    let inner : strip_left (reverse (strip_left s)) ≡ [] = is_empty-reverse _ h in
    let left : IsBlank (reverse (strip_left s)) = strip_left-nil _ (rw inner refl) in
    IsBlank-strip_left s (rw (← reverse-reverse (strip_left s)) (All-reverse _ _ left))

module _ (P : ℕ → Type 0) where
  cons_head-All : (c : ℕ) (ps : List Text) → P c → All (All P) ps → All (All P) (cons_head c ps)
  cons_head-All c [] h hs = ((h, tt), tt)
  cons_head-All c (p ∷ ps) h hs = ((h, hs.0), hs.1)

  split_from-All :
      (sep : Text) (skip : ℕ) (s : Text) → All P s → All (All P) (split_from sep skip s)
  unfolding split_from
  split_from-All sep skip [] h = (tt, tt)
  split_from-All sep (suc skip) (c ∷ s) h = split_from-All sep skip s h.1
  split_from-All sep zero (c ∷ s) h = elim (Bool-cases (starts_with (c ∷ s) sep)) [
    | inl cut ↦ rw (cut, split_from) (tt, split_from-All sep _ s h.1)
    | inr inside ↦ rw (inside, split_from) (cons_head-All c _ h.0 (split_from-All sep 0 s h.1))
  ]

  lines_from-All : (after_cr : Bool) (s : Text) → All P s → All (All P) (lines_from after_cr s)
  unfolding lines_from
  lines_from-All after_cr [] h = tt
  lines_from-All after_cr (c ∷ s) h = elim (Bool-cases (after_cr && (c == 10))) [
    | inl joined ↦ rw (joined, lines_from) (lines_from-All false s h.1)
    | inr apart ↦ elim (Bool-cases (is_line_end c)) [
      | inl ends ↦ rw (apart, ends, lines_from) (tt, lines_from-All (c == 13) s h.1)
      | inr inside ↦
          rw (apart, inside, lines_from) (cons_head-All c _ h.0 (lines_from-All false s h.1))
    ]
  ]

space-ne : (k c : ℕ) → is_space k ≡ false → is_space c ≡ true → (c == k) ≡ false
space-ne k c mark blank = elim (Bool-cases (c == k)) [
  | inr apart ↦ apart
  | inl hit ↦ let same : c ≡ k = (==_iff c k).0 hit in cc
]

read_line-blank : (b : Block) (line : Text) → IsBlank line → read_line b line ≡ b
unfolding read_line is_empty starts_with is_space
read_line-blank b [] h = refl
read_line-blank b (c ∷ s) h =
    rw
      (
        space-ne 58 c refl h.0,
        space-ne 101 c refl h.0,
        space-ne 105 c refl h.0,
        space-ne 100 c refl h.0,
      )
      refl

read_lines-blank : (b : Block) (lines : List Text) → All IsBlank lines → read_lines b lines ≡ b
unfolding read_lines
read_lines-blank b [] h = refl
read_lines-blank b (line ∷ lines) h =
    ap (λ (k : Block). read_lines k lines) (read_line-blank b line h.0)
    ∙ read_lines-blank b lines h.1

parse_block-blank : (s : Text) → IsBlank s → parse_block s ≡ []
unfolding parse_block splitlines
parse_block-blank s h = rw (read_lines-blank new_block _ (lines_from-All _ false s h)) refl

parse_blocks-blank : (bs : List Text) → All IsBlank bs → parse_blocks bs ≡ []
unfolding parse_blocks
parse_blocks-blank [] h = refl
parse_blocks-blank (b ∷ bs) h = rw (parse_block-blank b h.0) (parse_blocks-blank bs h.1)

pub split-blank_text : (s : Text) → IsBlank s → parse_blocks (split s blank_line) ≡ []
unfolding split
split-blank_text s h = parse_blocks-blank _ (split_from-All _ blank_line 0 s h)
