-- ===== src/Workspace.antt =====
-- internal/workspace/workspace.go: which paths of the project are visible. The matcher of
-- moby/patternmatcher, the text functions on Unicode and the bytes of the `.gitignore` are parameters.
pub mod Hidden
use zbplan.Paths.{slash, dir, base, ext}
use zbplan.Prelude.{
  ℕ, zero, suc, ◌+◌, ◌*◌, ◌-◌, Bool, true, false, not, ◌&&◌, ◌||◌, Option, none, some, List, [],
  ◌∷◌, ◌++◌, map, Bytes, codes, beq, take, drop, length, ltb, leb, ◌==◌, if◌then◌else◌,
}
use zbplan.Strings.{
  has_prefix, has_suffix, cut_prefix, trim_prefix, trim_suffix, contains_byte, contains,
}
use zbplan.Strings.Split.{split}

abbrev pub max_ignore_file_bytes : ℕ
max_ignore_file_bytes = 256 * 1024

abbrev pub max_ignore_patterns : ℕ
max_ignore_patterns = 2_000

abbrev pub default_ignored_dirs : List Bytes
default_ignored_dirs =
    codes ".git"
    ∷ codes ".venv"
    ∷ codes "venv"
    ∷ codes "node_modules"
    ∷ codes "__pycache__"
    ∷ codes ".mypy_cache"
    ∷ codes ".pytest_cache"
    ∷ codes ".tox"
    ∷ codes ".next"
    ∷ codes ".nuxt"
    ∷ codes ".cache"
    ∷ []

abbrev pub sensitive_names : List Bytes
sensitive_names =
    codes ".env"
    ∷ codes ".envrc"
    ∷ codes ".dev.vars"
    ∷ codes ".npmrc"
    ∷ codes ".pypirc"
    ∷ codes ".netrc"
    ∷ codes "id_rsa"
    ∷ codes "id_ed25519"
    ∷ codes ".dockerconfigjson"
    ∷ []

abbrev pub sensitive_extensions : List Bytes
sensitive_extensions = codes ".pem" ∷ codes ".key" ∷ codes ".p12" ∷ codes ".pfx" ∷ []

-- `IsSensitive`, of a path in lower case.
unfoldable pub is_sensitive_lower : Bytes → Bool
is_sensitive_lower lower_path =
    contains sensitive_names (base lower_path)
    || (has_prefix (base lower_path) (codes ".env.")
        || (beq lower_path (codes ".docker/config.json")
            || (has_suffix lower_path (codes "/.docker/config.json")
                || contains sensitive_extensions (ext (base lower_path)))))

-- A line of the `.gitignore` behind its `!`, with the pattern's anchor.
unfoldable pub anchored_pattern : Bytes → Bytes
anchored_pattern line = elim (cut_prefix line (codes "/")) [
  | some anchored ↦ anchored
  | none ↦ if contains_byte slash line then line else codes "**/" ++ line
]

unfoldable pub gitignore_pattern : Bytes → Bytes
gitignore_pattern line =
    let pattern = anchored_pattern (trim_suffix (trim_prefix line (codes "!")) (codes "/")) in
    if has_prefix line (codes "!") then b'!' ∷ pattern else pattern

-- The text before the last newline; empty where there is none.
pub before_last_newline : Bytes → Option Bytes
before_last_newline [] = none
before_last_newline (c ∷ s) = elim (before_last_newline s) [
  | some front ↦ some (c ∷ front)
  | none ↦ if c == b'\n' then some [] else none
]

-- What was read of the file, at most one byte above the bound, without the line that the bound cuts off.
pub bounded_ignore_file : Bytes → Bytes
bounded_ignore_file content =
    let text = take (max_ignore_file_bytes + 1) content in
    if ltb max_ignore_file_bytes (length text)
    then elim (before_last_newline (take max_ignore_file_bytes text)) [
      | none ↦ []
      | some front ↦ front
    ]
    else text

-- `strings.ToLower`, `strings.TrimSpace`; whether `patternmatcher.New` takes the patterns; and what
-- `MatchesOrParentMatches` says of a path, for patterns that it takes.
pub record WorkspaceOps : Type 0 where
  pub to_lower : Bytes → Bytes
  pub trim_space : Bytes → Bytes
  pub accepts : List Bytes → Bool
  pub matches_or_parent : List Bytes → Bytes → Bool

-- `relPath == "." || relPath == ""`
abbrev pub is_root : Bytes → Bool
is_root rel_path = beq rel_path (codes ".") || beq rel_path []

module _ (ops : WorkspaceOps) where
  unfoldable pub is_sensitive : Bytes → Bool
  is_sensitive rel_path = is_sensitive_lower (ops.to_lower rel_path)

  -- The loop over the lines of the `.gitignore`.
  unfoldable pub add_patterns : List Bytes → List Bytes → List Bytes
  add_patterns patterns [] = patterns
  add_patterns patterns (line ∷ lines) =
      let trimmed = ops.trim_space line in
      let pattern = gitignore_pattern trimmed in
      let skipped = add_patterns patterns lines in
      let added = add_patterns (patterns ++ pattern ∷ []) lines in
      if beq trimmed [] || has_prefix trimmed (codes "#")
      then skipped
      else if not (ops.accepts (pattern ∷ []))
      then skipped
      else if leb max_ignore_patterns (length (patterns ++ pattern ∷ []))
      then patterns ++ pattern ∷ []
      else added

  -- The patterns of the default directories and of the file, where it could be read.
  unfoldable pub ignore_patterns : Option Bytes → List Bytes
  ignore_patterns none = map gitignore_pattern default_ignored_dirs
  ignore_patterns (some content) =
      add_patterns (map gitignore_pattern default_ignored_dirs)
        (split b'\n' (bounded_ignore_file content))

  -- `IgnoreMatcher`
  unfoldable pub ignore_matcher : Option Bytes → Bytes → Bool
  ignore_matcher file rel_path =
      let patterns = ignore_patterns file in
      if is_root rel_path
      then false
      else if ops.accepts patterns
      then ops.matches_or_parent patterns rel_path
      else true

  -- The loop of `HiddenMatcher` over a path and the directories above it.
  unfoldable pub sensitive_above : (fuel : ℕ) → Bytes → Bool
  sensitive_above zero current = false
  sensitive_above (suc fuel) current =
      let above = sensitive_above fuel (dir current) in
      if beq current (codes ".") || (beq current (codes "/") || beq current [])
      then false
      else is_sensitive current || above

  -- `HiddenMatcher`; a path has fewer directories above it than bytes.
  unfoldable pub hidden_matcher : Option Bytes → Bytes → Bool
  hidden_matcher file rel_path =
      if is_root rel_path
      then false
      else ignore_matcher file rel_path || sensitive_above (length rel_path) rel_path
