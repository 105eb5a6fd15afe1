-- ===== src/Tests/Searches.antt =====
-- internal/plantools/files.go and dockerfile_templates.go: the searches of files and templates, on a small
-- project.
use zbplan.Files.{
  Fs, Info, secure_tool_path, clean_tool_path, base_directory, is_path_in_base, is_inside, rel,
  rel_text, rel_parts, drop_common, starts_up, same_kind, join_path, hidden,
}
use zbplan.Files.Directory.{limit_or, out_of_bounds}
use zbplan.Files.Glob.{match_glob, match_from}
use zbplan.Files.Glob.Matched.{Matches}
use zbplan.Files.Glob.Remembered.{match_glob_iff}
use zbplan.Files.Search.Find.{
  GlobArgs, glob_tool, glob_walk_root, literal_parts, not_empty, glob_walk, glob_visit, glob_entry,
  add_match, glob_text, glob_result,
}
use zbplan.Files.Search.Located.{IsGlobAnswer, glob_tool-IsGlobAnswer}
use zbplan.Files.Search.{both_bases, resolved_inside, rel_from_base}
use zbplan.Files.Search.Lines.{
  Scan, GrepArgs, grep_walk, grep_tool, grep_args, grep_visit, grep_entry, grep_file, grep_scan,
  scan_lines, is_spent, is_too_large, glob_takes, grep_line, shorten, grep_text, grep_result,
}
use zbplan.Files.Search.Answered.{IsGrepAnswer, grep_tool-IsGrepAnswer}
use zbplan.Files.Search.Outline.{TreeQuery, tree_walk}
use zbplan.Files.Search.Outline.Drawn.{IsOutline, tree_walk-IsOutline}
use zbplan.Files.Walk.{Node, leaf, directory, nil, cons, walk_node, walk_nodes}
use zbplan.Paths.{
  slash, clean_up, clean_step, clean_parts, is_abs, clean_text, clean, split_last, dir,
  trim_slashes, base, last_dot, ext,
}
use zbplan.Prelude.{
  ◌-◌, Bool, true, false, Option, none, some, [], ◌∷◌, Bytes, codes, beq, length, decimal, ◌≡◌,
  refl, ◌↔◌, Result, ok, ℤ, pos, negsuc, if◌then◌else◌,
}
use zbplan.Strings.{has_prefix, contains_any, contains_byte, has_suffix, contains}
use zbplan.Strings.Join.{join_with}
use zbplan.Strings.Split.{split, push_front, join}
use zbplan.Templates.{Template}
use zbplan.Workspace.{
  WorkspaceOps, is_sensitive, is_sensitive_lower, ignore_patterns, sensitive_above, ignore_matcher,
  hidden_matcher,
}

abbrev no_patterns : WorkspaceOps
no_patterns = record {
  to_lower = λ s. s;
  trim_space = λ s. s;
  accepts = λ patterns. true;
  matches_or_parent = λ patterns p. false;
}

abbrev source_file : Info
source_file = record { is_dir = false; is_regular = true; size = 3 }

abbrev folder : Info
folder = record { is_dir = true; is_regular = false; size = 0 }

abbrev project : Fs
project = record {
  abs = λ p. ok p;
  eval_symlinks = λ p. ok p;
  stat = λ p. ok source_file;
  read_dir = λ p n. ok [];
  gitignore = λ p. none;
  workspace_ops = no_patterns;
}

abbrev tree : Node
tree = directory true folder (
    cons (codes ".env") (leaf source_file) (
      cons (codes "main.go") (leaf source_file) (
        cons (codes "src") (directory true folder (cons (codes "lib.go") (leaf source_file) nil))
          nil)))

-- A pattern without wildcards.
abbrev match_same : Bytes → Bytes → Result Bytes Bool
match_same p s = ok (beq p s)

abbrev lines_of : Bytes → Option Scan
lines_of p = some (record { lines = codes "package main" ∷ []; failed = false })

abbrev package_args : Bytes → Result Bytes GrepArgs
package_args json = ok (record { pattern = codes "package"; glob = []; limit = pos 0 })

abbrev by_prefix : Bytes → Result Bytes (Bytes → Bool)
by_prefix pattern = ok (λ line. has_prefix line pattern)

abbrev package_lines : Bytes
package_lines = codes "main.go:1: package main\nsrc/lib.go:1: package main"

found_packages :
    grep_tool package_args by_prefix project match_same lines_of (λ p. tree) (codes "/p") []
    ≡ ok package_lines
unfolding grep_tool grep_args limit_or out_of_bounds both_bases base_directory grep_walk grep_visit
    grep_entry grep_file grep_scan scan_lines is_spent is_too_large glob_takes grep_line shorten
    grep_text grep_result resolved_inside rel_from_base is_path_in_base is_inside rel rel_text
    rel_parts drop_common starts_up same_kind join_path hidden hidden_matcher ignore_matcher
    ignore_patterns sensitive_above is_sensitive is_sensitive_lower has_prefix has_suffix contains
    clean_up clean_step clean_parts is_abs clean_text clean split_last dir trim_slashes base
    last_dot ext split push_front join beq walk_node walk_nodes decimal join_with
found_packages = refl

grep_tool-IsGrepAnswer_example :
    IsGrepAnswer package_args by_prefix project match_same lines_of
      (λ p. tree)
      (codes "/p")
      []
      package_lines
grep_tool-IsGrepAnswer_example =
    grep_tool-IsGrepAnswer package_args by_prefix project match_same lines_of (λ p. tree)
      (codes "/p") [] package_lines found_packages

abbrev library_args : Bytes → Result Bytes GlobArgs
library_args json = ok (record { pattern = codes "**/lib.go"; limit = pos 0 })

found_library :
    glob_tool library_args project match_same (λ p. tree) (codes "/p") [] ≡ ok (codes "src/lib.go")
unfolding glob_tool secure_tool_path clean_tool_path glob_walk_root literal_parts not_empty
    glob_walk glob_visit glob_entry add_match glob_text glob_result match_glob match_from
    contains_any contains_byte limit_or out_of_bounds both_bases base_directory resolved_inside
    rel_from_base is_path_in_base is_inside rel rel_text rel_parts drop_common starts_up same_kind
    join_path hidden hidden_matcher ignore_matcher ignore_patterns sensitive_above is_sensitive
    is_sensitive_lower has_prefix has_suffix contains clean_up clean_step clean_parts is_abs
    clean_text clean split_last dir trim_slashes base last_dot ext split push_front join beq
    walk_node walk_nodes join_with
found_library = refl

glob_tool-IsGlobAnswer_example :
    IsGlobAnswer library_args project match_same (λ p. tree) (codes "/p") [] (codes "src/lib.go")
glob_tool-IsGlobAnswer_example =
    glob_tool-IsGlobAnswer library_args project match_same (λ p. tree) (codes "/p") []
      (codes "src/lib.go") found_library

abbrev two_levels : TreeQuery
two_levels = record { abs_base = codes "/p"; root_abs = codes "/p"; depth = 1 }

tree_walk-IsOutline_example :
    IsOutline project two_levels tree (tree_walk project two_levels tree).0
tree_walk-IsOutline_example = tree_walk-IsOutline project two_levels tree

match_glob_iff_example :
    (b : Bool) × (match_glob match_same (codes "**/lib.go") (codes "src/lib.go") ≡ ok b)
    × ((b ≡ true)
        ↔ Matches match_same (split slash (codes "**/lib.go")) (split slash (codes "src/lib.go")))
match_glob_iff_example =
    match_glob_iff match_same (codes "**/lib.go") (codes "src/lib.go") (λ p s a. (beq p s, refl))

-- The distance is the number of bytes more.
abbrev prefix_distance : Bytes → Bytes → ℤ
prefix_distance query term =
    if has_prefix term query then pos (length term - length query) else negsuc 0

abbrev go_template : Template
go_template = record {
  name = codes "go";
  terms = codes "go" ∷ codes "golang" ∷ [];
  description = [];
  content = [];
}

abbrev python_template : Template
python_template = record {
  name = codes "python";
  terms = codes "python" ∷ [];
  description = [];
  content = [];
}
