-- ===== src/Files/Search.antt =====
-- internal/plantools/files.go: what the tools `glob`, `grep` and `tree` share. The tree below a path is
-- a parameter, as the walk meets it.
pub mod Find
pub mod Found
pub mod Lines
pub mod Hits
pub mod Shown
pub mod Answered
pub mod Located
pub mod Outline
use mathlib.Core.List.{filter}
use zbplan.Files.{Fs, Info, base_directory, is_path_in_base, rel}
use zbplan.Files.Walk.{Answer, go_on, skip_dir}
use zbplan.Paths.{slash, clean, base}
use zbplan.Prelude.{
  ℕ, Bool, true, false, not, Option, none, some, List, [], ◌∷◌, ◌++◌, Bytes, codes, beq,
  if◌then◌else◌, Result, ok, err, ◌>>=◌,
}
use zbplan.Strings.{trim_prefix}

abbrev pub max_glob_results : ℕ
max_glob_results = 200

abbrev pub max_glob_visited : ℕ
max_glob_visited = 20_000

-- `relFromBase`
unfoldable pub rel_from_base : Bytes → Bytes → Bytes
rel_from_base base_dir abs_path = elim (rel base_dir abs_path) [
  | some path ↦ path
  | none ↦ trim_prefix abs_path (base_dir ++ codes "/")
]

-- `if info.IsDir() { return filepath.SkipDir }; return nil`
abbrev pub leave_out : Info → Answer
leave_out info = if info.is_dir then skip_dir else go_on

-- The base directory, and where it is behind its links.
unfoldable pub both_bases : Fs → Bytes → Result Bytes (Bytes × Bytes)
both_bases fs base_dir = do
  abs_base ← base_directory fs fs.abs base_dir
  real_base ← base_directory fs fs.eval_symlinks abs_base
  ok (abs_base, real_base)

-- Where a path leads, if that is inside the base directory.
unfoldable pub resolved_inside : Fs → Bytes → Bytes → Option Bytes
resolved_inside fs real_base abs_path = elim (fs.eval_symlinks abs_path) [
  | err e ↦ none
  | ok real ↦ if is_path_in_base real_base real then some real else none
]
