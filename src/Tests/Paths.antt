-- ===== src/Tests/Paths.antt =====
-- internal/workspace, internal/plantools/files.go and pkg/builder/context.go: which paths are seen, on a
-- small project.
use mathlib.Core.Option.{none}
use zbplan.Context.{Exclude, filtered_open, excluded_above}
use zbplan.Context.Opened.{filtered_open_ok}
use zbplan.Files.{
  Fs, DirEntry, hidden, open_path, drop_common, secure_existing_tool_path, secure_tool_path,
  unavailable_existing_tool_path, unavailable_resolved, clean_tool_path, base_directory,
  resolved_rel, is_path_in_base, rel, rel_text, rel_parts, starts_up, same_kind, is_inside,
  join_path,
}
use zbplan.Files.Confined.{IsOpen, open_path-IsOpen}
use zbplan.Files.Directory.{list_directory}
use zbplan.Files.Directory.Visible.{IsListing, list_directory_ok}
use zbplan.Tests.Sorting.{insertion_sort, insertion_sort-IsSliceSort}
use zbplan.Files.Read.{Window, Page, read_loop, enter_line}
use zbplan.Files.Read.Bounded.{IsBounded, read_loop-IsBounded}
use zbplan.Paths.{
  clean_up, clean_step, clean_parts, is_abs, clean_text, clean, split_last, dir, trim_slashes, base,
  last_dot, ext,
}
use zbplan.Strings.{has_prefix, has_suffix, contains}
use zbplan.Strings.Split.{split, push_front, join}
use zbplan.Prelude.{
  ℕ, ◌≡◌, refl, ◌⊎◌, ◌↔◌, true, false, List, [], ◌∷◌, Bytes, codes, beq, length, decimal, Result,
  ok, err, Option, some, none, arith,
}
use zbplan.Workspace.{
  WorkspaceOps, is_sensitive, is_sensitive_lower, ignore_patterns, sensitive_above, ignore_matcher,
  hidden_matcher,
}
use zbplan.Workspace.Hidden.{IsAbove, hidden_matcher_iff}

abbrev no_patterns : WorkspaceOps
no_patterns = record {
  to_lower = λ s. s;
  trim_space = λ s. s;
  accepts = λ patterns. true;
  matches_or_parent = λ patterns p. false;
}

hidden_matcher_iff_example : (hidden_matcher no_patterns none (codes "config/.env") ≡ true) ↔ (
    (ignore_matcher no_patterns none (codes "config/.env") ≡ true)
    ⊎ ((q : Bytes) × IsAbove (codes "config/.env") q × (is_sensitive no_patterns q ≡ true)))
unfolding beq
hidden_matcher_iff_example = hidden_matcher_iff no_patterns none (codes "config/.env") refl

abbrev exclude_none : Exclude
exclude_none p is_dir = false

abbrev open_size : Bytes → Result Bytes ℕ
open_size p = ok (length p)

opens : filtered_open exclude_none open_size (codes "src/main.go") ≡ ok 11
unfolding filtered_open excluded_above clean_up clean_step clean_parts is_abs clean_text clean
    split_last dir trim_slashes base last_dot ext split push_front join beq has_prefix
opens = refl

filtered_open_ok_example :
    (exclude_none (clean (codes "src/main.go")) false ≡ false)
    × ((q : Bytes) → IsAbove (dir (clean (codes "src/main.go"))) q → exclude_none q true ≡ false)
    × (open_size (codes "src/main.go") ≡ ok 11)
unfolding filtered_open excluded_above
filtered_open_ok_example = filtered_open_ok exclude_none open_size (codes "src/main.go") 11 opens

abbrev project : Fs
project = record {
  abs = λ p. ok p;
  eval_symlinks = λ p. ok p;
  stat = λ p. ok (record { is_dir = false; is_regular = true; size = 3 });
  read_dir = λ p n. ok (
      record { name = codes "main.go"; is_dir = false }
      ∷ record { name = codes ".env"; is_dir = false }
      ∷ []);
  gitignore = λ p. none;
  workspace_ops = no_patterns;
}

open-project :
    open_path project (codes "/p") (codes "main.go")
    ≡ ok (
      codes "main.go",
      codes "/p/main.go",
      record { is_dir = false; is_regular = true; size = 3 },
    )
unfolding open_path secure_existing_tool_path secure_tool_path unavailable_existing_tool_path
    unavailable_resolved clean_tool_path base_directory resolved_rel is_path_in_base rel rel_text
    rel_parts drop_common starts_up same_kind is_inside join_path hidden hidden_matcher
    ignore_matcher ignore_patterns sensitive_above is_sensitive is_sensitive_lower has_prefix
    has_suffix contains clean_up clean_step clean_parts is_abs clean_text clean split_last dir
    trim_slashes base last_dot ext split push_front join beq
open-project = refl

open_path-IsOpen_example : IsOpen project (codes "/p") (codes "main.go") (codes "/p/main.go")
open_path-IsOpen_example =
    open_path-IsOpen project (codes "/p") (codes "main.go") (codes "main.go") (codes "/p/main.go")
      (record { is_dir = false; is_regular = true; size = 3 }) open-project

abbrev entries : List DirEntry
entries =
    record { name = codes "main.go"; is_dir = false }
    ∷ record { name = codes ".env"; is_dir = false }
    ∷ []

list_directory_ok_example :
    ((n : ℕ) × (e : Bytes) × (◌≡◌ {A = Option Bytes} none (some e))
      × (list_directory insertion_sort (λ n. none) project (codes "/p") (codes ".") (codes "/p") 5
          ≡ err e))
    ⊎ ((text : Bytes) × (list_directory insertion_sort
            (λ n. none)
            project
            (codes "/p")
            (codes ".")
            (codes "/p")
            5
          ≡ ok text)
        × IsListing (hidden project (codes "/p")) (codes ".") 5 entries text)
list_directory_ok_example =
    list_directory_ok insertion_sort (λ n. none) project (codes "/p") (codes ".") (codes "/p") 5
      entries insertion_sort-IsSliceSort (omega arith) refl

abbrev second_line : Window
second_line = record { offset = 1; column = 0; limit = 2 }

abbrev one_line_page : Page
one_line_page = record { lines = codes "2:b" ∷ []; has_more = false; split_column = none }

read_loop-IsBounded_example : IsBounded 2 one_line_page
unfolding read_loop enter_line decimal
read_loop-IsBounded_example =
    read_loop-IsBounded second_line none 0 (codes "a" ∷ codes "b" ∷ []) [] 0 one_line_page
      (omega arith) refl (omega arith) refl
