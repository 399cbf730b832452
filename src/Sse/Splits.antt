-- ===== src/Sse/Splits.antt =====
-- How a buffer is cut at blank lines (src/beachops/services/cursor_sse.py), in one piece and in two.
use beachops.Base.{
  ℕ, ◌==◌, ◌≡◌, refl, sym, ap, ◌∙◌, ◌⊎◌, inl, inr, true, false, ◌&&◌, List, [], ◌∷◌, ◌++◌, Text,
  split, split_from, starts_with, ends_with, cons_head, Bool-cases, arith,
}
use mathlib.Core.List.{reverse, reverse-append, reverse-reverse}
use beachops.Sse.{blank_line}

split-one : (c : ℕ) → split (c ∷ []) blank_line ≡ (c ∷ []) ∷ []
unfolding split split_from starts_with
split-one c = ground arith

pub split-cons :
    (c d : ℕ) (s : Text)
    → ((c == 10) && (d == 10)) ≡ false
    → split (c ∷ d ∷ s) blank_line ≡ cons_head c (split (d ∷ s) blank_line)
unfolding split split_from starts_with
split-cons c d s h = ground arith

pub split-blank : (s : Text) → split (10 ∷ 10 ∷ s) blank_line ≡ [] ∷ split s blank_line
unfolding split
split-blank s = refl

-- A buffer that holds a blank line, before more text: its last part alone grows.
pub record Cut (b t : Text) : Type 0 where
  pub first : Text
  pub parts : List Text
  pub last : Text
  pub alone : split b blank_line ≡ first ∷ parts ++ last ∷ []
  pub joined : split (b ++ t) blank_line ≡ first ∷ parts ++ split (last ++ t) blank_line

split-nil : split [] blank_line ≡ [] ∷ []
unfolding split
split-nil = refl

Cut-blank : (s t : Text) → (split s blank_line ≡ s ∷ []) ⊎ Cut s t → Cut (10 ∷ 10 ∷ s) t
Cut-blank s t (inl whole) = record {
  first = [];
  parts = [];
  last = s;
  alone = split-blank s ∙ ap (λ ps. [] ∷ ps) whole;
  joined = split-blank (s ++ t);
}
Cut-blank s t (inr k) = record {
  first = [];
  parts = k.first ∷ k.parts;
  last = k.last;
  alone = split-blank s ∙ ap (λ ps. [] ∷ ps) k.alone;
  joined = split-blank (s ++ t) ∙ ap (λ ps. [] ∷ ps) k.joined;
}

pub split-append : (b t : Text) → (split b blank_line ≡ b ∷ []) ⊎ Cut b t
split-append [] t = inl split-nil
split-append (c ∷ []) t = inl (split-one c)
split-append (c ∷ d ∷ s) t = elim (Bool-cases ((c == 10) && (d == 10))) [
  | inl blank ↦
      let c_end : c ≡ 10 = ground arith in
      let d_end : d ≡ 10 = ground arith in
      rw (c_end, d_end) (inr (Cut-blank s t (split-append s t)))
  | inr apart ↦ elim (split-append (d ∷ s) t) [
    | inl whole ↦ inl (split-cons c d s apart ∙ ap (cons_head c) whole)
    | inr k ↦ inr (record {
      first = c ∷ k.first;
      parts = k.parts;
      last = k.last;
      alone = split-cons c d s apart ∙ ap (cons_head c) k.alone;
      joined = split-cons c d (s ++ t) apart ∙ ap (cons_head c) k.joined;
    })
  ]
]

-- A buffer that ends in a blank line: its last part is empty, or one line feed.
pub record Tail (x t : Text) : Type 0 where
  pub first : Text
  pub parts : List Text
  pub last : Text
  pub alone : split (x ++ 10 ∷ 10 ∷ []) blank_line ≡ first ∷ parts ++ last ∷ []
  pub joined : split (x ++ 10 ∷ 10 ∷ t) blank_line ≡ first ∷ parts ++ split (last ++ t) blank_line
  pub blank : (last ≡ []) ⊎ (last ≡ 10 ∷ [])

Tail-nil : (t : Text) → Tail [] t
Tail-nil t = record {
  first = [];
  parts = [];
  last = [];
  alone = split-blank [] ∙ ap (λ ps. [] ∷ ps) split-nil;
  joined = split-blank t;
  blank = inl refl;
}

Tail-cons :
    (c d : ℕ) (s t : Text) → ((c == 10) && (d == 10)) ≡ false → Tail (d ∷ s) t → Tail (c ∷ d ∷ s) t
Tail-cons c d s t apart k = record {
  first = c ∷ k.first;
  parts = k.parts;
  last = k.last;
  alone = split-cons c d _ apart ∙ ap (cons_head c) k.alone;
  joined = split-cons c d _ apart ∙ ap (cons_head c) k.joined;
  blank = k.blank;
}

Tail-blank : (s t : Text) → Tail s t → Tail (10 ∷ 10 ∷ s) t
Tail-blank s t k = record {
  first = [];
  parts = k.first ∷ k.parts;
  last = k.last;
  alone = split-blank _ ∙ ap (λ ps. [] ∷ ps) k.alone;
  joined = split-blank _ ∙ ap (λ ps. [] ∷ ps) k.joined;
  blank = k.blank;
}

Tail-one : (c : ℕ) (t : Text) → Tail (c ∷ []) t
unfolding Tail-nil
Tail-one c t = elim (Bool-cases (c == 10)) [
  | inl e ↦
      let c_end : c ≡ 10 = ground arith in
      rw c_end (record {
        first = [];
        parts = [];
        last = 10 ∷ [];
        alone = split-blank (10 ∷ []) ∙ ap (λ ps. [] ∷ ps) (split-one 10);
        joined = split-blank (10 ∷ t);
        blank = inr refl;
      })
  | inr e ↦ record {
    first = c ∷ [];
    parts = [];
    last = [];
    alone = split-cons c 10 (10 ∷ []) (rw e refl) ∙ ap (cons_head c) (Tail-nil []).alone;
    joined = split-cons c 10 (10 ∷ t) (rw e refl) ∙ ap (cons_head c) (Tail-nil t).joined;
    blank = inl refl;
  }
]

pub split-tail : (x t : Text) → Tail x t
split-tail [] t = Tail-nil t
split-tail (c ∷ []) t = Tail-one c t
split-tail (c ∷ d ∷ s) t = elim (Bool-cases ((c == 10) && (d == 10))) [
  | inl blank ↦
      let c_end : c ≡ 10 = ground arith in
      let d_end : d ≡ 10 = ground arith in rw (c_end, d_end) (Tail-blank s t (split-tail s t))
  | inr apart ↦ Tail-cons c d s t apart (split-tail (d ∷ s) t)
]

-- What ends in a blank line is some text before one.
pub ends_with-blank :
    (b : Text) → ends_with b blank_line ≡ true → (x : Text) × (b ≡ x ++ 10 ∷ 10 ∷ [])
unfolding ends_with
ends_with-blank b h = go (reverse b) h (sym (reverse-reverse b))
  where
    go :
        (r : Text)
        → starts_with r (10 ∷ 10 ∷ []) ≡ true
        → b ≡ reverse r
        → (x : Text) × (b ≡ x ++ 10 ∷ 10 ∷ [])
    go [] e same = cc
    go (c ∷ []) e same = absurd (ground arith)
    go (c ∷ d ∷ s) e same =
        let c_end : c ≡ 10 = ground arith in
        let d_end : d ≡ 10 = ground arith in
        (reverse s, same ∙ rw (c_end, d_end) (reverse-append (10 ∷ 10 ∷ []) s))

pub ends_with-append : (x : Text) → ends_with (x ++ 10 ∷ 10 ∷ []) blank_line ≡ true
unfolding ends_with
ends_with-append x = rw (reverse-append x (10 ∷ 10 ∷ [])) refl
