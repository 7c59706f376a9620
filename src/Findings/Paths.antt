-- ===== src/Findings/Paths.antt =====
-- services/github_path_hygiene.py: which files are gone at the head of a pull request. The request for
-- one file is the parameter `fetch`: installation, owner, repository, path and commit to its result.
use Prim.Native.Char.{code}
use revy.Common.{
  ℕ, String, Bool, true, false, ◌||◌, Option, none, some, List, [], ◌∷◌, ◌==◌, str_eq,
  if◌then◌else◌, any_of,
}
use revy.Common.Table
use revy.Findings.Rows.{PullRequest, Repository, Installation, Db}

-- How `fetch_repository_file_at_sha` ends: with the text, with `NotFoundError` and its code, or with one
-- of the other errors that the callers catch.
pub data Fetched : Type 0 where
  content : String → Fetched
  not_found : String → Fetched
  unavailable : Fetched

unfoldable pub path_absent_at_head : Fetched → Option Bool
path_absent_at_head (content text) = some false
path_absent_at_head (not_found error_code) =
    if str_eq error_code "github_contents_not_found" then some true else none
path_absent_at_head unavailable = none

-- `path in paths`
abbrev pub has_path : String → List String → Bool
has_path path paths = any_of (λ p. str_eq p path) paths

unfoldable pub hygiene_path_gone : String → Option Bool → List String → Option Bool
hygiene_path_gone file_path absent_at_head renamed_from_paths =
    if has_path file_path renamed_from_paths then some false else absent_at_head

-- `full_name.split("/", 1)`, if there is a `/`.
unfoldable pub split_slash : String → Option (String × String)
split_slash String.[] = none
split_slash (String.◌∷◌ c s) =
    let rest = split_slash s in
    if code c == b'/'
    then some ("", s)
    else elim rest [ none ↦ none | some (owner, name) ↦ some (String.◌∷◌ c owner, name) ]

-- `owner, repo_name`, or nothing where a part is missing.
unfoldable pub owner_and_name : String → Option (String × String)
unfolding split_slash
owner_and_name full_name = elim (split_slash full_name) [
  | none ↦ none
  | some (owner, name) ↦ if str_eq owner "" || str_eq name "" then none else some (owner, name)
]

-- `dict.fromkeys(file_paths, None)`
abbrev unknown_paths : List String → List (String × Option Bool)
unknown_paths [] = []
unknown_paths (p ∷ ps) = (p, none) ∷ unknown_paths ps

-- `results.get(path)`, where a missing path is `None` too.
unfoldable pub absent : String → List (String × Option Bool) → Option Bool
absent path [] = none
absent path ((p, gone) ∷ rest) =
    let later = absent path rest in if str_eq p path then gone else later

module _ (fetch : ℕ → String → String → String → String → Fetched) where
  -- `_check_paths`, in the order of `sorted(file_paths)`.
  unfoldable pub check_paths :
      ℕ
      → String
      → String
      → String
      → List String
      → List String
      → List String
      → List (String × Option Bool)
  check_paths installation owner repo head_sha deleted renamed_from [] = []
  check_paths installation owner repo head_sha deleted renamed_from (p ∷ ps) =
      let gone =
        if has_path p renamed_from
        then some false
        else if has_path p deleted
        then some true
        else path_absent_at_head (fetch installation owner repo p head_sha) in
      (p, gone) ∷ check_paths installation owner repo head_sha deleted renamed_from ps

  unfoldable pub paths_absent_at_head :
      Db
      → PullRequest
      → String
      → List String
      → List String
      → List String
      → List (String × Option Bool)
  paths_absent_at_head db pull_request head_sha [] deleted renamed_from = []
  paths_absent_at_head db pull_request head_sha (p ∷ ps) deleted renamed_from =
      if str_eq head_sha ""
      then []
      else elim (Table.get Repository.id pull_request.repository_id db.repositories) [
        | none ↦ unknown_paths (p ∷ ps)
        | some repository ↦
            elim (Table.get Installation.id pull_request.installation_id db.installations) [
              | none ↦ unknown_paths (p ∷ ps)
              | some installation ↦ elim (owner_and_name repository.full_name) [
                | none ↦ unknown_paths (p ∷ ps)
                | some (owner, name) ↦
                    check_paths installation.github_installation_id owner name head_sha deleted
                      renamed_from (p ∷ ps)
              ]
            ]
      ]
