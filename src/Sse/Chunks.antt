-- ===== src/Sse/Chunks.antt =====
-- The events of src/beachops/services/cursor_sse.py and the chunks in which the stream arrives.
use beachops.Base.{
  ℕ, ◌==◌, ◌≡◌, refl, sym, ap, ◌∙◌, inl, inr, List, [], ◌∷◌, ◌++◌, map, Text, All-append, is_empty,
  is_space, strip, split, ends_with, cons_head, Bool-cases, arith, Option,
}
use mathlib.Core.Path.{◌≡⟨◌⟩◌, ◌∎}
use mathlib.Core.List.{append_assoc, append-nil}
use beachops.Redaction.{Json}
use beachops.Sse.{
  RawEvent, splitlines, read_lines, parse_block, parse_blocks, blank_line, last_part, but_last,
  iter_sse_blocks, to_event, read_chunks, parse_sse_stream,
}
use beachops.Sse.Utf8.{decode_utf8}
use beachops.Sse.Splits.{
  split-cons, split-blank, split-append, Tail, split-tail, ends_with-blank, ends_with-append,
}
use beachops.Sse.Blank.{strip-IsBlank, split-blank_text}

parse_blocks-append :
    (bs cs : List Text) → parse_blocks (bs ++ cs) ≡ parse_blocks bs ++ parse_blocks cs
unfolding parse_blocks
parse_blocks-append [] cs = refl
parse_blocks-append (b ∷ bs) cs =
    ap (λ es. parse_block b ++ es) (parse_blocks-append bs cs)
    ∙ sym (append_assoc (parse_block b) (parse_blocks bs) (parse_blocks cs))

-- A line feed before a block changes nothing.
parse_block-feed : (b : Text) → parse_block (10 ∷ b) ≡ parse_block b
unfolding parse_block splitlines read_lines
parse_block-feed b = refl

parse_block-nil : parse_block [] ≡ []
unfolding parse_block
parse_block-nil = refl

parse_blocks-cons_head : (ps : List Text) → parse_blocks (cons_head 10 ps) ≡ parse_blocks ps
unfolding parse_blocks
parse_blocks-cons_head [] = ap (λ es. es ++ []) (parse_block-feed [] ∙ parse_block-nil)
parse_blocks-cons_head (p ∷ ps) = ap (λ es. es ++ parse_blocks ps) (parse_block-feed p)

-- The events of a text, cut at blank lines.
abbrev events : Text → List RawEvent
events s = parse_blocks (split s blank_line)

events-feed : (t : Text) → events (10 ∷ t) ≡ events t
unfolding parse_blocks split
events-feed [] = ap (λ es. es ++ []) (parse_block-feed [])
events-feed (c ∷ t) = elim (Bool-cases (c == 10)) [
  | inr apart ↦
      ap parse_blocks (split-cons 10 c t apart) ∙ parse_blocks-cons_head (split (c ∷ t) blank_line)
  | inl same ↦
      let c_end : c ≡ 10 = ground arith in
      rw c_end (
        ap parse_blocks (split-blank t)
        ∙ ap (λ es. es ++ events t) parse_block-nil
        ∙ sym (events-feed t))
]

last_part-snoc : (ps : List Text) (last : Text) → last_part (ps ++ last ∷ []) ≡ last
last_part-snoc [] last = refl
last_part-snoc (p ∷ []) last = refl
last_part-snoc (p ∷ q ∷ ps) last = last_part-snoc (q ∷ ps) last

but_last-snoc : (ps : List Text) (last : Text) → but_last (ps ++ last ∷ []) ≡ ps
but_last-snoc [] last = refl
but_last-snoc (p ∷ []) last = refl
but_last-snoc (p ∷ q ∷ ps) last = ap (λ qs. p ∷ qs) (but_last-snoc (q ∷ ps) last)

-- The last part of a buffer that ends in a blank line may be dropped.
Tail-events :
    (x t : Text) (k : Tail x t) → (parse_block k.last ≡ []) × (events (k.last ++ t) ≡ events t)
Tail-events x t k = elim k.blank [
  | inl empty ↦ rw empty (parse_block-nil, refl)
  | inr feed ↦ rw feed (parse_block-feed [] ∙ parse_block-nil, events-feed t)
]

closed-append :
    (x t : Text)
    → events ((x ++ 10 ∷ 10 ∷ []) ++ t)
      ≡ parse_blocks (split (x ++ 10 ∷ 10 ∷ []) blank_line) ++ events t
unfolding parse_blocks
closed-append x t =
    let k = split-tail x t in
    let (dropped, kept) = Tail-events x t k in
    events ((x ++ 10 ∷ 10 ∷ []) ++ t)
    ≡⟨ ap events (append_assoc x (10 ∷ 10 ∷ []) t) ⟩ events (x ++ 10 ∷ 10 ∷ t)
    ≡⟨ ap parse_blocks k.joined ⟩ parse_blocks (k.first ∷ k.parts ++ split (k.last ++ t) blank_line)
    ≡⟨ parse_blocks-append (k.first ∷ k.parts) _ ⟩
      parse_blocks (k.first ∷ k.parts) ++ events (k.last ++ t)
    ≡⟨ ap (λ es. parse_blocks (k.first ∷ k.parts) ++ es) kept ⟩
      parse_blocks (k.first ∷ k.parts) ++ events t
    ≡⟨ ap (λ es. es ++ events t) (sym (last_dropped k.first k.parts k.last dropped)) ⟩
      parse_blocks (k.first ∷ k.parts ++ k.last ∷ []) ++ events t
    ≡⟨ ap (λ ps. parse_blocks ps ++ events t) (sym k.alone) ⟩
      parse_blocks (split (x ++ 10 ∷ 10 ∷ []) blank_line) ++ events t ∎
  where
    last_dropped :
        (first : Text) (parts : List Text) (last : Text)
        → parse_block last ≡ []
        → parse_blocks (first ∷ parts ++ last ∷ []) ≡ parse_blocks (first ∷ parts)
    last_dropped first parts last e =
        parse_blocks-append (first ∷ parts) (last ∷ []) ∙ rw e (append-nil _)

-- What follows a buffer is read as if it followed what is left over.
iter_sse_blocks-append :
    (b t : Text) → events (b ++ t) ≡ (iter_sse_blocks b).0 ++ events ((iter_sse_blocks b).1 ++ t)
unfolding iter_sse_blocks
iter_sse_blocks-append b t = elim (Bool-cases (ends_with b blank_line)) [
  | inr open_end ↦ elim (split-append b t) [
    | inl whole ↦ rw (open_end, iter_sse_blocks, whole) refl
    | inr k ↦
        rw
          (
            open_end,
            iter_sse_blocks,
            k.alone,
            last_part-snoc (k.first ∷ k.parts) k.last,
            but_last-snoc (k.first ∷ k.parts) k.last,
          )
          (ap parse_blocks k.joined ∙ parse_blocks-append (k.first ∷ k.parts) _)
  ]
  | inl closed ↦
      let (x, same) = ends_with-blank b closed in
      rw (closed, iter_sse_blocks) (rw same (closed-append x t))
]

-- What the chunks decode to, each by itself.
abbrev pub decoded : List (List ℕ) → Text
decoded [] = []
decoded (chunk ∷ chunks) = decode_utf8 chunk ++ decoded chunks

iter_sse_blocks-closed :
    (x : Text) → (iter_sse_blocks (x ++ blank_line)).0 ≡ events (x ++ blank_line)
unfolding iter_sse_blocks
iter_sse_blocks-closed x = rw (ends_with-append x, iter_sse_blocks) refl

read_chunks-nil : (b : Text) → read_chunks b [] ≡ events (b ++ blank_line)
unfolding read_chunks is_space
read_chunks-nil b = elim (Bool-cases (is_empty (strip b))) [
  | inr more ↦ rw (more, read_chunks) (iter_sse_blocks-closed b)
  | inl blank ↦
      rw (blank, read_chunks)
        (sym (
          split-blank_text (b ++ blank_line)
            (All-append _ b blank_line (strip-IsBlank b blank) (refl, (refl, tt)))))
]

read_chunks-events :
    (b : Text) (chunks : List (List ℕ))
    → read_chunks b chunks ≡ events (b ++ (decoded chunks ++ blank_line))
unfolding read_chunks decode_utf8
read_chunks-events b [] = read_chunks-nil b
read_chunks-events b ([] ∷ chunks) = read_chunks-events b chunks
read_chunks-events b ((x ∷ xs) ∷ chunks) =
    let piece = decode_utf8 (x ∷ xs) in
    let (es, rest) = iter_sse_blocks (b ++ piece) in
    let later = decoded chunks ++ blank_line in
    ap (λ fs. es ++ fs) (read_chunks-events rest chunks)
    ∙ sym (iter_sse_blocks-append (b ++ piece) later)
    ∙ ap events (
        append_assoc b piece later
        ∙ ap (λ t. b ++ t) (sym (append_assoc piece (decoded chunks) blank_line)))

-- The events of a stream are those of the text that its chunks decode to, one by one, read at once
-- with a blank line after it: where the chunks cut that text makes no difference.
pub parse_sse_stream_lem :
    (loads : Text → Option Json) (chunks : List (List ℕ))
    → parse_sse_stream loads chunks
      ≡ map (to_event loads) (iter_sse_blocks (decoded chunks ++ blank_line)).0
unfolding parse_sse_stream
parse_sse_stream_lem loads chunks =
    ap (map (to_event loads))
      (read_chunks-events [] chunks ∙ sym (iter_sse_blocks-closed (decoded chunks)))
