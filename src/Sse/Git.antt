-- ===== src/Sse/Git.antt =====
-- The branch and the pull request of a run: `extract_git_fields` of
-- src/beachops/services/cursor_sse.py. `show` stands for `str` on what is not a string.
use beachops.Base.{
  ◌==◌, Bool, true, false, not, ◌&&◌, Option, none, some, Text, text, text_eq, is_empty,
  if◌then◌else◌,
}
use beachops.Redaction.{Json, null, bool, num, str, arr, obj, Items, nil, cons, Fields, end, field}

abbrev pub is_truthy : Json → Bool
is_truthy null = false
is_truthy (bool b) = b
is_truthy (num n) = not (n == 0)
is_truthy (str t) = not (is_empty t)
is_truthy (arr nil) = false
is_truthy (arr (cons x xs)) = true
is_truthy (obj end) = false
is_truthy (obj (field k v fs)) = true

-- `mapping.get(key)`, where None stands for a missing key.
unfoldable pub get_field : Text → Fields → Json
unfolding text_eq
get_field key end = null
get_field key (field k v fs) = let rest = get_field key fs in if text_eq k key then v else rest

abbrev pub fields_of : Json → Option Fields
fields_of (obj fs) = some fs
fields_of other = none

abbrev pub items_of : Json → Option Items
items_of (arr xs) = some xs
items_of other = none

abbrev pub shown : (Json → Text) → Json → Text
shown show (str t) = t
shown show other = show other

-- `item.get("prUrl") or item.get("pr_url")`
abbrev pub pr_url_of : Fields → Json
pr_url_of fs =
    if is_truthy (get_field (text "prUrl") fs)
    then get_field (text "prUrl") fs
    else get_field (text "pr_url") fs

abbrev pub has_name : Option Text → Bool
has_name none = false
has_name (some t) = not (is_empty t)

abbrev pub branch_after : (Json → Text) → Option Text → Fields → Option Text
branch_after show branch_name fs =
    if not (has_name branch_name) && is_truthy (get_field (text "branch") fs)
    then some (shown show (get_field (text "branch") fs))
    else branch_name

-- The loop over the branches, which ends at a pull request.
unfoldable pub scan_branches : (Json → Text) → Option Text → Items → Option Text × Option Text
unfolding get_field is_empty
scan_branches show branch_name nil = (branch_name, none)
scan_branches show branch_name (cons item items) = elim (fields_of item) [
  | none ↦ scan_branches show branch_name items
  | some fs ↦ elim (is_truthy (pr_url_of fs)) [
    | true ↦ (branch_after show branch_name fs, some (shown show (pr_url_of fs)))
    | false ↦ scan_branches show (branch_after show branch_name fs) items
  ]
]

unfoldable pub extract_git_fields : (Json → Text) → Json → Option Text × Option Text
unfolding get_field scan_branches
extract_git_fields show payload = elim (fields_of payload) [
  | none ↦ (none, none)
  | some fs ↦ elim (fields_of (get_field (text "git") fs)) [
    | none ↦ (none, none)
    | some git ↦ elim (items_of (get_field (text "branches") git)) [
      | none ↦ (none, none)
      | some branches ↦ scan_branches show none branches
    ]
  ]
]
