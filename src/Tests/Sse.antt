-- ===== src/Tests/Sse.antt =====
-- A stream of two events in three chunks (src/beachops/services/cursor_sse.py).
use beachops.Base.{ℕ, ◌≡◌, refl, Option, none, some, List, [], ◌∷◌, ◌++◌, Text, text, map}
use beachops.Redaction.{Json, str, arr, obj, nil, cons, end, field}
use beachops.Sse.Git.{extract_git_fields}
use beachops.Sse.{to_event, iter_sse_blocks, parse_sse_stream, blank_line}
use beachops.Sse.Utf8.{decode_utf8}
use beachops.Sse.Chunks.{decoded, parse_sse_stream_lem}

abbrev loads : Text → Option Json
loads t = none

abbrev chunks : List (List ℕ)
chunks = text "event: status\nda" ∷ text "ta: on\n" ∷ text "\ndata: off\n" ∷ []

parse_sse_stream_lem_example :
    parse_sse_stream loads chunks
    ≡ map (to_event loads) (iter_sse_blocks (decoded chunks ++ blank_line)).0
parse_sse_stream_lem_example = parse_sse_stream_lem loads chunks

-- The letter П, in one chunk and cut in two.
whole_letter : decode_utf8 (0xD0 ∷ 0x9F ∷ []) ≡ 0x41F ∷ []
unfolding decode_utf8
whole_letter = refl

cut_letter : decode_utf8 (0xD0 ∷ []) ++ decode_utf8 (0x9F ∷ []) ≡ 0xFFFD ∷ 0xFFFD ∷ []
unfolding decode_utf8
cut_letter = refl

abbrev git_payload : Json
git_payload = obj (
    field (text "git")
      (obj (
        field (text "branches")
          (arr (
            cons (obj (field (text "branch") (str (text "dev")) end)) (
              cons
                (obj (
                  field (text "branch") (str (text "fix"))
                    (field (text "pr_url") (str (text "u")) end)))
                nil)))
          end))
      end)

-- The branch is that of the first item, the pull request that of the second.
git_fields : extract_git_fields (λ j. []) git_payload ≡ (some (text "dev"), some (text "u"))
unfolding extract_git_fields
git_fields = refl
