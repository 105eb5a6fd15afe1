-- ===== src/Files/Search/Lines.antt =====
-- internal/plantools/files.go: the tool `grep`. The JSON decoder and the regular expressions are
-- parameters, and so is what `bufio.Scanner` delivers of a file, where it can be opened: its lines, and
-- whether an error ended them.
use zbplan.Cut.{safe_text_prefix}
use zbplan.Files.{Fs, Info, hidden}
use zbplan.Files.Directory.{limit_or, out_of_bounds}
use zbplan.Files.Glob.{match_glob}
use zbplan.Files.Read.{ellipsis, max_readable_file_bytes}
use zbplan.Files.Search.{max_glob_visited, rel_from_base, leave_out, both_bases, resolved_inside}
use zbplan.Files.Walk.{
  Node, Answer, go_on, skip_all, fail, Seen, broken, entry, error_of, walk_node,
}
use zbplan.Paths.{base}
use zbplan.Prelude.{
  ℕ, suc, ◌+◌, ◌*◌, ◌^◌, Bool, true, false, not, ◌||◌, Option, none, some, List, [], ◌∷◌, ◌++◌,
  Bytes, codes, beq, length, decimal, ltb, leb, if◌then◌else◌, Result, ok, err, ◌>>=◌, ◌>>◌,
  reject_if, map_err, ℤ, pos_part,
}
use zbplan.Strings.Join.{join_with}

abbrev pub max_grep_results : ℕ
max_grep_results = 100

abbrev pub max_grep_files : ℕ
max_grep_files = 10_000

abbrev pub max_grep_bytes : ℕ
max_grep_bytes = 16 * 2 ^ 20

-- The variables that the walk changes.
pub record GrepState : Type 0 where
  pub results : List Bytes
  pub files_scanned : ℕ
  pub bytes_scanned : ℕ
  pub truncated : Bool
  pub visited : ℕ

-- What the walk reads.
pub record GrepQuery : Type 0 where
  pub abs_base : Bytes
  pub real_base : Bytes
  pub is_match : Bytes → Bool
  pub glob : Bytes
  pub limit : ℕ

-- The lines of a file, and whether an error ended them.
pub record Scan : Type 0 where
  pub lines : List Bytes
  pub failed : Bool

unfoldable pub shorten : Bytes → Bytes
shorten line = if ltb 2048 (length line) then safe_text_prefix line 2048 ++ ellipsis else line

unfoldable pub grep_line : Bytes → ℕ → Bytes → Bytes
grep_line path number line = path ++ (codes ":" ++ (decimal number ++ (codes ": " ++ shorten line)))

-- The loop over the lines, the first of them behind `number` others: the results, and whether the limit
-- was met.
unfoldable pub scan_lines :
    GrepQuery → Bytes → (number : ℕ) → List Bytes → List Bytes → List Bytes × Bool
scan_lines q path number [] results = (results, false)
scan_lines q path number (line ∷ lines) results =
    let longer = results ++ grep_line path (suc number) line ∷ [] in
    let skipped = scan_lines q path (suc number) lines results in
    let added = scan_lines q path (suc number) lines longer in
    if q.is_match line
    then (if leb q.limit (length longer) then (longer, true) else added)
    else skipped

-- A file that was opened: it is counted, and its lines are searched.
unfoldable pub grep_scan : GrepQuery → Bytes → Info → Scan → GrepState → GrepState × Answer
grep_scan q path info scan s =
    let (results, met) = scan_lines q path 0 scan.lines s.results in
    let s' : GrepState = record {
      results = results;
      files_scanned = suc s.files_scanned;
      bytes_scanned = s.bytes_scanned + info.size;
      truncated = s.truncated || (met || scan.failed);
      visited = s.visited;
    } in
    if leb q.limit (length results) then (s', skip_all) else (s', go_on)

unfoldable pub is_spent : GrepQuery → GrepState → Bool
is_spent q s =
    leb q.limit (length s.results)
    || (leb max_grep_files s.files_scanned || leb max_grep_bytes s.bytes_scanned)

unfoldable pub is_too_large : Info → GrepState → Bool
is_too_large info s =
    ltb max_readable_file_bytes info.size || ltb max_grep_bytes (s.bytes_scanned + info.size)

module _ (fs : Fs) (match_part : Bytes → Bytes → Result Bytes Bool) (scan : Bytes → Option Scan)
    (q : GrepQuery) where
  -- Whether the filter of the files takes one: by its path, or else by its name.
  unfoldable pub glob_takes : Bytes → Bytes → Result Bytes Bool
  glob_takes name path =
      if beq q.glob [] then ok true else elim (match_glob match_part q.glob path) [
        | err e ↦ err (codes "match glob: " ++ e)
        | ok true ↦ ok true
        | ok false ↦ match_part q.glob name
      ]

  -- What is done with a file that the filter takes.
  unfoldable pub grep_file : Bytes → Info → GrepState → GrepState × Answer
  grep_file abs_path info s =
      if is_too_large info s
      then (record s { truncated = true }, go_on)
      else elim (resolved_inside fs q.real_base abs_path) [
        | none ↦ (s, go_on)
        | some real ↦ elim (scan real) [
          | none ↦ (s, go_on)
          | some lines ↦ grep_scan q (rel_from_base q.abs_base abs_path) info lines s
        ]
      ]

  -- The function of the walk behind the count.
  unfoldable pub grep_entry : Bytes → Bytes → Info → GrepState → GrepState × Answer
  grep_entry abs_path name info s =
      let path = rel_from_base q.abs_base abs_path in
      if hidden fs q.abs_base path
      then (s, leave_out info)
      else if info.is_dir || not info.is_regular
      then (s, go_on)
      else if is_spent q s
      then (record s { truncated = true }, skip_all)
      else elim (glob_takes name path) [
        | err e ↦ (s, fail e)
        | ok false ↦ (s, go_on)
        | ok true ↦ grep_file abs_path info s
      ]

  unfoldable pub grep_visit : Bytes → Seen → GrepState → GrepState × Answer
  grep_visit abs_path broken s = (s, go_on)
  grep_visit abs_path (entry name info) s =
      let s' = record s { visited = suc s.visited } in
      if ltb max_glob_visited (suc s.visited)
      then (record s' { truncated = true }, skip_all)
      else grep_entry abs_path name info s'

  -- The walk from the base directory, over what is there.
  unfoldable pub grep_walk : Node → GrepState × Answer
  grep_walk tree = walk_node grep_visit (base q.abs_base) q.abs_base tree (record {
    results = [];
    files_scanned = 0;
    bytes_scanned = 0;
    truncated = false;
    visited = 0;
  })

unfoldable pub grep_text : GrepState → Bytes
grep_text s = elim (s.results) [
  | [] ↦
      if s.truncated
      then codes "no matches found [search truncated after "
        ++ (decimal s.files_scanned
            ++ (codes " files and " ++ (decimal s.bytes_scanned ++ codes " bytes]")))
      else codes "no matches found"
  | _ ∷ _ ↦
      join_with (codes "\n") s.results
      ++ (if s.truncated
          then codes "\n[grep truncated after "
            ++ (decimal (length s.results)
                ++ (codes " matches, "
                    ++ (decimal s.files_scanned
                        ++ (codes " files, and " ++ (decimal s.bytes_scanned ++ codes " bytes]")))))
          else [])
]

unfoldable pub grep_result : GrepState × Answer → Result Bytes Bytes
grep_result (s, a) = elim (error_of a) [
  | some e ↦ err (codes "walk: " ++ e)
  | none ↦ ok (grep_text s)
]

pub record GrepArgs : Type 0 where
  pub pattern : Bytes
  pub glob : Bytes
  pub limit : ℤ

-- What is asked of the arguments before the pattern is compiled.
unfoldable pub grep_args :
    (unmarshal : Bytes → Result Bytes GrepArgs) → Bytes → Result Bytes GrepArgs
grep_args unmarshal args_json = do
  args ←
      map_err (λ e. codes "unmarshal: " ++ e)
        (unmarshal (if beq args_json [] then codes "{}" else args_json))
  reject_if (beq args.pattern []) (codes "pattern is required")
  reject_if (ltb 512 (length args.pattern)) (codes "pattern is too long")
  reject_if (out_of_bounds max_grep_results (limit_or 50 args.limit))
      (codes "limit must be between 1 and " ++ decimal max_grep_results)
  reject_if (ltb 512 (length args.glob)) (codes "glob is too long")
  ok (record args { limit = limit_or 50 args.limit })

unfoldable pub grep_tool :
    (unmarshal : Bytes → Result Bytes GrepArgs)
    → (compile : Bytes → Result Bytes (Bytes → Bool)) → Fs
    → (match_part : Bytes → Bytes → Result Bytes Bool) → (scan : Bytes → Option Scan)
    → (tree : Bytes → Node) → Bytes
    → Bytes
    → Result Bytes Bytes
grep_tool unmarshal compile fs match_part scan tree base_dir args_json = do
  args ← grep_args unmarshal args_json
  is_match ← map_err (λ e. codes "compile pattern: " ++ e) (compile args.pattern)
  bases ← both_bases fs base_dir
  grep_result (
      grep_walk fs match_part scan
        (record {
          abs_base = bases.0;
          real_base = bases.1;
          is_match = is_match;
          glob = args.glob;
          limit = pos_part args.limit;
        })
        (tree bases.0))
