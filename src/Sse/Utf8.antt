-- ===== src/Sse/Utf8.antt =====
-- `bytes.decode("utf-8", errors="replace")`, which src/beachops/services/cursor_sse.py calls on each
-- chunk: a maximal prefix of a sequence that breaks off becomes one U+FFFD.
use beachops.Base.{
  ℕ, zero, suc, ◌+◌, ◌-◌, ◌*◌, ◌==◌, leb, ◌&&◌, List, [], ◌∷◌, ◌++◌, Text, if◌then◌else◌,
}

-- Between characters, or with so many more bytes to come after the next one, which has a range.
pub data State : Type 0 where
  idle : State
  pending : (more value low high : ℕ) → State

abbrev pub replacement : ℕ
replacement = 0xFFFD

unfoldable pub start_byte : ℕ → Text × State
start_byte b =
    if leb b 0x7F
    then (b ∷ [], idle)
    else if leb 0xC2 b && leb b 0xDF
    then ([], pending 0 (b - 0xC0) 0x80 0xBF)
    else if b == 0xE0
    then ([], pending 1 0 0xA0 0xBF)
    else if b == 0xED
    then ([], pending 1 13 0x80 0x9F)
    else if leb 0xE1 b && leb b 0xEF
    then ([], pending 1 (b - 0xE0) 0x80 0xBF)
    else if b == 0xF0
    then ([], pending 2 0 0x90 0xBF)
    else if leb 0xF1 b && leb b 0xF3
    then ([], pending 2 (b - 0xF0) 0x80 0xBF)
    else if b == 0xF4
    then ([], pending 2 4 0x80 0x8F)
    else (replacement ∷ [], idle)

abbrev pub next_state : (more value : ℕ) → Text × State
next_state zero value = (value ∷ [], idle)
next_state (suc more) value = ([], pending more value 0x80 0xBF)

unfoldable pub read_byte : State → ℕ → Text × State
unfolding start_byte
read_byte idle b = start_byte b
read_byte (pending more value low high) b =
    if leb low b && leb b high
    then next_state more (value * 64 + (b - 0x80))
    else (let (out, s) = start_byte b in (replacement ∷ out, s))

unfoldable pub decode_from : State → List ℕ → Text
unfolding read_byte
decode_from idle [] = []
decode_from (pending more value low high) [] = replacement ∷ []
decode_from s (b ∷ bs) = let (out, next) = read_byte s b in out ++ decode_from next bs

unfoldable pub decode_utf8 : List ℕ → Text
unfolding decode_from
decode_utf8 bytes = decode_from idle bytes
