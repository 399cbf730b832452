-- ===== src/Labels/Bounds.antt =====
-- How long the labels of src/beachops/services/agent_slot_naming.py are.
use beachops.Base.{
  ℕ, zero, suc, ◌≤◌, ◌<◌, ◌≡◌, refl, sym, map, filter, ltb, text_in, drop, inl, inr, Bool, true,
  false, not, ◌&&◌, ◌||◌, Option, none, some, List, [], ◌∷◌, Text, text, All, All-append, is_space,
  strip, strip_right, strip_left, split, take, length, length-append, length-take-le,
  length-strip_right-le, collapse_spaces, collapse_spaces-IsOneLine, collapse_spaces-pos, IsOneLine,
  is_empty, lower, starts_with, contains, leb, if◌then◌else◌, Bool-cases, arith,
}
use mathlib.Core.List.{reverse, reverse-append}
use beachops.Labels.{
  label_max_len, generic_phrases, user_block_prefix, block_separator, first_part, truncate_label,
  is_generic_line, label_from_user_block, label_from_forward_block, forwarded_label, or_label,
  first_label, label_from_block, label_from_prompt,
}

-- One line of so many characters at most, and of one at least.
pub record IsLabel (n : ℕ) (s : Text) : Type 0 where
  pub some_text : 0 < length s
  pub short : length s ≤ n
  pub one_line : IsOneLine s

All-reverse {ℓ κ} : {A : Type ℓ} (P : A → Type κ) (xs : List A) → All P xs → All P (reverse xs)
All-reverse P [] h = tt
All-reverse P (x ∷ xs) h =
    rw (reverse-append (x ∷ []) xs)
      (All-append P (reverse xs) (x ∷ []) (All-reverse P xs h.1) (h.0, tt))

strip_left-IsOneLine : (s : Text) → IsOneLine s → IsOneLine (strip_left s)
unfolding strip_left
strip_left-IsOneLine [] h = tt
strip_left-IsOneLine (c ∷ s) h = elim (Bool-cases (is_space c)) [
  | inl blank ↦ rw blank (strip_left-IsOneLine s h.1)
  | inr mark ↦ rw mark h
]

strip_right-IsOneLine : (s : Text) → IsOneLine s → IsOneLine (strip_right s)
unfolding strip_right
strip_right-IsOneLine s h = All-reverse _ _ (strip_left-IsOneLine (reverse s) (All-reverse _ s h))

take-IsOneLine : (n : ℕ) (s : Text) → IsOneLine s → IsOneLine (take n s)
take-IsOneLine zero s h = tt
take-IsOneLine (suc n) [] h = tt
take-IsOneLine (suc n) (c ∷ s) h = (h.0, take-IsOneLine n s h.1)

-- A line with a word in it becomes a label.
truncate_label-IsLabel :
    (n : ℕ) (line : Text) → 0 < length (strip line) → IsLabel (suc n) (truncate_label (suc n) line)
unfolding truncate_label
truncate_label-IsLabel n line word =
    elim (Bool-cases (leb (length (collapse_spaces (strip line))) (suc n))) [
      | inl fits ↦ rw fits (record {
        some_text = collapse_spaces-pos (strip line) word;
        short = ground arith;
        one_line = collapse_spaces-IsOneLine (strip line);
      })
      | inr long ↦
          let cut = strip_right (take n (collapse_spaces (strip line))) in
          rw long (record {
            some_text = omega (arith, length-append cut (text "…"));
            short = omega (
              arith,
              length-append cut (text "…"),
              length-strip_right-le (take n (collapse_spaces (strip line))),
              length-take-le n (collapse_spaces (strip line)),
            );
            one_line =
                All-append _ cut (text "…")
                  (strip_right-IsOneLine _
                    (take-IsOneLine n _ (collapse_spaces-IsOneLine (strip line))))
                  (λ e. cc, tt);
          })
    ]

word-of_not_generic : (line : Text) → is_generic_line line ≡ false → 0 < length (strip line)
unfolding is_generic_line lower is_empty
word-of_not_generic line h = go (strip line) h
  where
    go :
        (s : Text)
        → (is_empty (lower s)
            || ltb (length (lower s)) 8
            || text_in (lower s) generic_phrases
            || starts_with (lower s) (text "[instruction]"))
          ≡ false
        → 0 < length s
    go [] e = cc
    go (c ∷ s) e = omega arith

-- What is found, if anything, is a label.
abbrev Gives : Option Text → Type 0
Gives o = (l : Text) → o ≡ some l → IsLabel label_max_len l

Gives-none : Gives none
Gives-none l h = cc

Gives-some :
    (line : Text) → is_generic_line line ≡ false → Gives (some (truncate_label label_max_len line))
Gives-some line word l h =
    let same : truncate_label label_max_len line ≡ l = ground arith in
    rw (sym same) (truncate_label-IsLabel 47 line (word-of_not_generic line word))

Gives-if :
    (b : Bool) (o p : Option Text)
    → (b ≡ true → Gives o)
    → (b ≡ false → Gives p)
    → Gives (if b then o else p)
Gives-if true o p yes_case no_case = yes_case refl
Gives-if false o p yes_case no_case = no_case refl

Gives-or_label : (o p : Option Text) → Gives o → Gives p → Gives (or_label o p)
Gives-or_label none p first later = later
Gives-or_label (some s) p first later = Gives-if (is_empty s) p (some s) (λ e. later) (λ e. first)

label_from_user_block-Gives : (block : Text) → Gives (label_from_user_block block)
unfolding label_from_user_block
label_from_user_block-Gives block =
    let body = strip (drop (length user_block_prefix) block) in
    let line = strip (first_part (split body (text "\n"))) in
    Gives-if (not (starts_with block user_block_prefix)) _ _ (λ e. Gives-none)
      (λ e.
        Gives-if (is_empty body) _ _ (λ e. Gives-none)
          (λ e. Gives-if (is_generic_line line) _ _ (λ e. Gives-none) (Gives-some line)))

forwarded_label-Gives : (lines : List Text) → Gives (forwarded_label lines)
forwarded_label-Gives [] = Gives-none
forwarded_label-Gives (head ∷ []) = Gives-none
forwarded_label-Gives (head ∷ line ∷ lines) =
    Gives-if (not (starts_with head (text "[Forwarded"))) _ _ (λ e. Gives-none)
      (λ e.
        Gives-if (starts_with line (text "[") || is_generic_line line) _ _ (λ e. Gives-none)
          (λ e. Gives-some line (ground arith)))

label_from_forward_block-Gives : (block : Text) → Gives (label_from_forward_block block)
unfolding label_from_forward_block
label_from_forward_block-Gives block =
    forwarded_label-Gives
      (filter (λ line. not (is_empty line)) (map strip (split block (text "\n"))))

first_label-Gives :
    (f : Text → Option Text)
    → ((block : Text) → Gives (f block))
    → (blocks : List Text) → Gives (first_label f blocks)
unfolding first_label
first_label-Gives f labels [] = Gives-none
first_label-Gives f labels (block ∷ blocks) =
    Gives-or_label (f block) _ (labels block) (first_label-Gives f labels blocks)

label_from_block-Gives : (block : Text) → Gives (label_from_block block)
unfolding label_from_block
label_from_block-Gives block =
    Gives-if (is_empty (strip block) || starts_with (strip block) (text "[Instruction]")) _ _
      (λ e. Gives-none)
      (λ e.
        Gives-or_label (label_from_user_block (strip block)) _
          (label_from_user_block-Gives (strip block))
          (Gives-or_label (label_from_forward_block (strip block)) none
            (label_from_forward_block-Gives (strip block)) Gives-none))

last_false : (a b : Bool) {c : Bool} → (a && b && not c) ≡ true → c ≡ false
last_false a b {c} h = ground arith

-- A label that a prompt gives a slot is one line, with no white space but spaces, of one character
-- at least and 48 at most.
pub label_from_prompt-IsLabel :
    (prompt : Text) {l : Text}
    → label_from_prompt label_max_len prompt ≡ some l
    → IsLabel label_max_len l
unfolding label_from_prompt
label_from_prompt-IsLabel prompt {l} =
    let value = strip prompt in
    let blocks = split value block_separator in
    let line = strip (first_part (split value (text "\n"))) in
    Gives-if (is_empty value) _ _ (λ e. Gives-none)
      (λ e.
        Gives-or_label _ _
          (Gives-if (contains value user_block_prefix) _ _
            (λ e.
              first_label-Gives (λ block. label_from_user_block (strip block))
                (λ block. label_from_user_block-Gives (strip block)) blocks)
            (λ e. Gives-none))
          (Gives-if
            (not (contains value block_separator)
              && not (starts_with value (text "["))
              && not (is_generic_line line))
            _ _
            (λ e. Gives-some line (
              last_false (not (contains value block_separator)) (not (starts_with value (text "[")))
                e))
            (λ e. first_label-Gives label_from_block label_from_block-Gives (reverse blocks))))
      l
