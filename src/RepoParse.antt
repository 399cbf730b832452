-- ===== src/RepoParse.antt =====
-- The arguments of `/repo add`: src/beachops/services/repo_parse.py. A subscript out of range raises.
use beachops.Base.{
  ℕ, ◌-◌, ◌==◌, Bool, not, ◌||◌, Option, none, some, List, [], ◌∷◌, ◌++◌, Text, text, text_eq,
  is_empty, starts_with, ends_with, contains, lower, strip, split, take, drop_while, after_first,
  length, filter, if◌then◌else◌,
}
use mathlib.Core.List.{reverse}
use beachops.Database.{Result, ok, raise, index_error}

pub record RepoAddParams : Type 0 where
  pub alias : Text
  pub github_url : Text
  pub default_branch : Text

abbrev pub max_alias_len : ℕ
max_alias_len = 40

abbrev pub host : Text
host = text "github.com/"

unfoldable pub is_github_repo_url : Text → Bool
unfolding lower strip starts_with
is_github_repo_url value =
    let normalized = lower (strip value) in
    starts_with normalized host
    || starts_with normalized (text "https://github.com/")
    || starts_with normalized (text "http://github.com/")

unfoldable pub normalize_github_url : Text → Text
unfolding lower strip starts_with
normalize_github_url url =
    let stripped = strip url in
    if starts_with (lower stripped) host then text "https://" ++ stripped else stripped

-- `value.rstrip("/")`
unfoldable pub strip_slashes : Text → Text
unfolding drop_while
strip_slashes s = reverse (drop_while (λ c. c == b'/') (reverse s))

-- `[p for p in path.split("/") if p]`
unfoldable pub path_parts : Text → List Text
unfolding split filter is_empty
path_parts path = filter (λ p. not (is_empty p)) (split path (text "/"))

unfoldable pub without_git : Text → Text
unfolding ends_with
without_git name = if ends_with name (text ".git") then take (length name - 4) name else name

abbrev repo_url_of : Text → List Text → Text
repo_url_of normalized [] = normalized
repo_url_of normalized (owner ∷ []) = text "https://github.com/" ++ owner
repo_url_of normalized (owner ∷ repo ∷ rest) =
    text "https://github.com/" ++ (owner ++ (text "/" ++ without_git repo))

unfoldable pub normalize_github_repo_url : Text → Result Text
unfolding normalize_github_url strip_slashes contains lower after_first path_parts without_git
normalize_github_repo_url url =
    let normalized = strip_slashes (normalize_github_url (strip url)) in
    if not (contains (lower normalized) host)
    then ok normalized
    else (elim (after_first host normalized) [
      | none ↦ raise index_error
      | some path ↦ ok (repo_url_of normalized (path_parts path))
    ])

-- `(name or "repo")[:MAX_ALIAS_LEN]`
abbrev short_alias : Text → Text
short_alias name = take max_alias_len (if is_empty name then text "repo" else name)

abbrev alias_of : List Text → Text
alias_of [] = text "repo"
alias_of (owner ∷ []) = short_alias (without_git owner)
alias_of (owner ∷ repo ∷ rest) = short_alias (without_git repo)

unfoldable pub alias_from_github_url : Text → Result Text
unfolding normalize_github_url strip_slashes contains lower after_first path_parts without_git
    is_empty
alias_from_github_url url =
    let normalized = strip_slashes (normalize_github_url url) in
    if not (contains (lower normalized) host)
    then ok (text "repo")
    else (elim (after_first host normalized) [
      | none ↦ raise index_error
      | some path ↦ ok (alias_of (path_parts path))
    ])

abbrev branch_or : Text → List Text → Text
branch_or branch_default [] = branch_default
branch_or branch_default (b ∷ bs) = strip b

-- The URL alone, whose repository gives the alias.
unfoldable pub params_from_url : Text → Text → List Text → Result (Option RepoAddParams)
unfolding normalize_github_url alias_from_github_url
params_from_url branch_default value more =
    let url = normalize_github_url value in
    elim (alias_from_github_url url) [
      | raise e ↦ raise e
      | ok alias ↦ ok (
          some (record {
            alias = alias;
            github_url = url;
            default_branch = branch_or branch_default more;
          }))
    ]

-- An alias, then the URL.
unfoldable pub params_with_alias : Text → List Text → Option RepoAddParams
unfolding is_github_repo_url normalize_github_url strip
params_with_alias branch_default [] = none
params_with_alias branch_default (alias ∷ []) = none
params_with_alias branch_default (alias ∷ value ∷ more) =
    if is_github_repo_url value
    then some (record {
      alias = strip alias;
      github_url = normalize_github_url value;
      default_branch = branch_or branch_default more;
    })
    else none

unfoldable pub parse_repo_add_args : Text → List Text → Result (Option RepoAddParams)
unfolding text_eq strip is_empty is_github_repo_url params_from_url params_with_alias
parse_repo_add_args default_branch [] = ok none
parse_repo_add_args default_branch (command ∷ []) = ok none
parse_repo_add_args default_branch (command ∷ first ∷ more) =
    let branch_default =
      (if is_empty (strip default_branch) then text "dev" else strip default_branch) in
    if not (text_eq command (text "add"))
    then ok none
    else if is_github_repo_url first
    then params_from_url branch_default first more
    else ok (params_with_alias branch_default (first ∷ more))
