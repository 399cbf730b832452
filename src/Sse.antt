-- ===== src/Sse.antt =====
-- The event stream of the Cursor API: src/beachops/services/cursor_sse.py. `loads` stands for
-- `json.loads`: none where it raises.
pub mod Utf8
pub mod Splits
pub mod Blank
pub mod Chunks
pub mod Git
use beachops.Base.{
  ℕ, ◌==◌, leb, Bool, true, false, not, ◌&&◌, ◌||◌, Option, none, some, is_some, List, [], ◌∷◌,
  ◌++◌, Text, text, is_empty, text_eq, text_in, starts_with, ends_with, lower, strip, strip_left,
  split, join, drop, cons_head, filter, map, if◌then◌else◌,
}
use beachops.Redaction.{Json, null, bool, num, str, arr, obj, Items, nil, cons, Fields, end, field}
use beachops.Sse.Utf8.{decode_utf8}

-- The ends of a line for `str.splitlines`.
unfoldable pub is_line_end : ℕ → Bool
is_line_end c =
    (leb 0x0A c && leb c 0x0D)
    || (leb 0x1C c && leb c 0x1E)
    || (c == 0x85)
    || (c == 0x2028)
    || (c == 0x2029)

-- The lines of a text, where a line feed that follows a carriage return belongs to it.
unfoldable pub lines_from : Bool → Text → List Text
unfolding is_line_end
lines_from after_cr [] = []
lines_from after_cr (c ∷ s) = elim (after_cr && (c == b'\n')) [
  | true ↦ lines_from false s
  | false ↦ elim (is_line_end c) [
    | true ↦ [] ∷ lines_from (c == b'\r') s
    | false ↦ cons_head c (lines_from false s)
  ]
]

-- `block.splitlines()`
unfoldable pub splitlines : Text → List Text
unfolding lines_from
splitlines s = lines_from false s

-- The variables of the loop over the lines of a block.
pub record Block : Type 0 where
  pub event_name : Text
  pub event_id : Option Text
  pub data_lines : List Text

abbrev pub new_block : Block
new_block = record { event_name = text "message"; event_id = none; data_lines = [] }

-- `value or None`
abbrev pub or_none : Text → Option Text
or_none s = if is_empty s then none else some s

-- `value or default`
abbrev pub or_default : Text → Text → Text
or_default s default = if is_empty s then default else s

unfoldable pub read_line : Block → Text → Block
unfolding is_empty starts_with strip strip_left
read_line b line =
    if is_empty line || starts_with line (text ":")
    then b
    else if starts_with line (text "event:")
    then record b { event_name = or_default (strip (drop 6 line)) (text "message") }
    else if starts_with line (text "id:")
    then record b { event_id = or_none (strip (drop 3 line)) }
    else if starts_with line (text "data:")
    then record b { data_lines = b.data_lines ++ strip_left (drop 5 line) ∷ [] }
    else b

unfoldable pub read_lines : Block → List Text → Block
unfolding read_line
read_lines b [] = b
read_lines b (line ∷ lines) = read_lines (read_line b line) lines

-- The tuple of an event's name, its identifier and its data.
pub record RawEvent : Type 0 where
  pub event : Text
  pub id : Option Text
  pub raw_data : Text

abbrev pub has_lines : List Text → Bool
has_lines [] = false
has_lines (x ∷ xs) = true

abbrev pub event_of : Block → List RawEvent
event_of b =
    if has_lines b.data_lines || not (text_eq b.event_name (text "message"))
    then (record {
      event = b.event_name;
      id = b.event_id;
      raw_data = join (text "\n") b.data_lines;
    })
      ∷ []
    else []

-- One turn of the loop over the blocks: what is appended to `parsed`.
unfoldable pub parse_block : Text → List RawEvent
unfolding splitlines read_lines text_eq join
parse_block block = event_of (read_lines new_block (splitlines block))

unfoldable pub parse_blocks : List Text → List RawEvent
unfolding parse_block
parse_blocks [] = []
parse_blocks (b ∷ bs) = parse_block b ++ parse_blocks bs

abbrev pub blank_line : Text
blank_line = text "\n\n"

abbrev pub last_part : List Text → Text
last_part [] = []
last_part (p ∷ []) = p
last_part (p ∷ q ∷ ps) = last_part (q ∷ ps)

abbrev pub but_last : List Text → List Text
but_last [] = []
but_last (p ∷ []) = []
but_last (p ∷ q ∷ ps) = p ∷ but_last (q ∷ ps)

-- The events of a buffer, and what is left over.
unfoldable pub iter_sse_blocks : Text → List RawEvent × Text
unfolding split ends_with parse_blocks
iter_sse_blocks buffer =
    let parts = split buffer blank_line in
    if ends_with buffer blank_line
    then (parse_blocks parts, [])
    else (parse_blocks (but_last parts), last_part parts)

pub record SseEvent : Type 0 where
  pub event : Text
  pub data_fields : Json
  pub id : Option Text

unfoldable pub parse_data : (Text → Option Json) → Text → Json
unfolding strip is_empty
parse_data loads raw =
    let value = strip raw in
    if is_empty value then obj end else (elim (loads value) [
      | none ↦ obj (field (text "text") (str value) end)
      | some payload ↦ elim payload [
        | obj fs ↦ obj fs
        | other ↦ obj (field (text "value") other end)
      ]
    ])

unfoldable pub to_event : (Text → Option Json) → RawEvent → SseEvent
unfolding parse_data
to_event loads e = record { event = e.event; data_fields = parse_data loads e.raw_data; id = e.id }

-- The loop over the chunks, from a buffer.
unfoldable pub read_chunks : Text → List (List ℕ) → List RawEvent
unfolding iter_sse_blocks decode_utf8 strip is_empty
read_chunks buffer [] =
    if is_empty (strip buffer) then [] else (iter_sse_blocks (buffer ++ blank_line)).0
read_chunks buffer (chunk ∷ chunks) = elim chunk [
  | [] ↦ read_chunks buffer chunks
  | b ∷ bs ↦
      let (events, rest) = iter_sse_blocks (buffer ++ decode_utf8 (b ∷ bs)) in
      events ++ read_chunks rest chunks
]

unfoldable pub parse_sse_stream : (Text → Option Json) → List (List ℕ) → List SseEvent
unfolding read_chunks to_event
parse_sse_stream loads byte_chunks = map (to_event loads) (read_chunks [] byte_chunks)

-- `normalize_run_status`
unfoldable pub normalize_run_status : Option Text → Text
unfolding strip lower text_in is_empty
normalize_run_status status =
    let value = lower (strip (elim status [ none ↦ [] | some s ↦ s ])) in
    if text_in value (text "creating" ∷ text "running" ∷ text "in_progress" ∷ [])
    then text "running"
    else if text_in value (text "finished" ∷ text "completed" ∷ [])
    then text "finished"
    else if text_in value (text "error" ∷ text "failed" ∷ text "expired" ∷ [])
    then text "error"
    else if text_in value (text "cancelled" ∷ text "canceled" ∷ [])
    then text "cancelled"
    else or_default value (text "running")
