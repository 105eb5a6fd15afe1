-- ===== src/Files/Search/Find.antt =====
-- internal/plantools/files.go: the tool `glob`. The JSON decoder is a parameter.
use zbplan.Files.{Fs, Info, hidden, secure_tool_path}
use zbplan.Files.Directory.{limit_or, out_of_bounds}
use zbplan.Files.Glob.{double_star, match_glob}
use zbplan.Files.Search.{
  max_glob_results, max_glob_visited, rel_from_base, leave_out, both_bases, resolved_inside,
}
use zbplan.Files.Walk.{
  Node, Answer, go_on, skip_all, fail, Seen, broken, entry, error_of, walk_node,
}
use zbplan.Paths.{slash, clean, base}
use zbplan.Prelude.{
  ℕ, suc, Bool, true, false, ◌||◌, none, some, List, [], ◌∷◌, ◌++◌, Bytes, codes, beq, length,
  decimal, ltb, leb, if◌then◌else◌, Result, ok, err, ◌>>=◌, ◌>>◌, reject_if, map_err, ℤ, pos_part,
}
use zbplan.Strings.{contains_any}
use zbplan.Strings.Join.{join_with}
use zbplan.Strings.Split.{split, join}

-- The variables that the walk changes.
pub record GlobState : Type 0 where
  pub results : List Bytes
  pub visited : ℕ
  pub truncated : Bool

-- What the walk reads.
pub record GlobQuery : Type 0 where
  pub abs_base : Bytes
  pub real_base : Bytes
  pub pattern : Bytes
  pub limit : ℕ

-- The parts of the pattern before the first that is no name.
unfoldable pub literal_parts : List Bytes → List Bytes
literal_parts [] = []
literal_parts (part ∷ parts) =
    if beq part double_star || contains_any part (codes "*?[")
    then []
    else part ∷ literal_parts parts

-- The parts that are not empty, as `filepath.Join` takes them.
unfoldable pub not_empty : List Bytes → List Bytes
not_empty [] = []
not_empty (part ∷ parts) = if beq part [] then not_empty parts else part ∷ not_empty parts

-- `globWalkRoot`; both branches of its last test return the same.
unfoldable pub glob_walk_root : Bytes → Bytes → Bytes
glob_walk_root abs_base pattern =
    elim (not_empty (abs_base ∷ literal_parts (split slash pattern))) [
      | [] ↦ []
      | part ∷ parts ↦ clean (join slash (part ∷ parts))
    ]

-- A match is added; the walk ends at the limit.
unfoldable pub add_match : GlobQuery → Bytes → Info → GlobState → GlobState × Answer
add_match q path info s =
    let results = s.results ++ (if info.is_dir then path ++ codes "/" else path) ∷ [] in
    if leb q.limit (length results)
    then (record s { results = results; truncated = true }, skip_all)
    else (record s { results = results }, go_on)

module _ (fs : Fs) (match_part : Bytes → Bytes → Result Bytes Bool) (q : GlobQuery) where
  -- The function of the walk behind the count.
  unfoldable pub glob_entry : Bytes → Info → GlobState → GlobState × Answer
  glob_entry abs_path info s =
      let path = rel_from_base q.abs_base abs_path in
      if hidden fs q.abs_base path
      then (s, leave_out info)
      else elim (resolved_inside fs q.real_base abs_path) [
        | none ↦ (s, leave_out info)
        | some real ↦ elim (match_glob match_part q.pattern path) [
          | err e ↦ (s, fail (codes "match glob: " ++ e))
          | ok false ↦ (s, go_on)
          | ok true ↦ add_match q path info s
        ]
      ]

  unfoldable pub glob_visit : Bytes → Seen → GlobState → GlobState × Answer
  glob_visit abs_path broken s = (s, go_on)
  glob_visit abs_path (entry name info) s =
      let s' = record s { visited = suc s.visited } in
      if ltb max_glob_visited (suc s.visited)
      then (record s' { truncated = true }, skip_all)
      else glob_entry abs_path info s'

  -- The walk from the root that the pattern gives, over what is there.
  unfoldable pub glob_walk : Node → GlobState × Answer
  glob_walk tree =
      let root = glob_walk_root q.abs_base q.pattern in
      walk_node glob_visit (base root) root tree
        (record { results = []; visited = 0; truncated = false })

unfoldable pub glob_text : GlobState → Bytes
glob_text s = elim (s.results) [
  | [] ↦
      if s.truncated
      then codes "no matches found [glob truncated after "
        ++ (decimal s.visited ++ codes " visited entries]")
      else codes "no matches found"
  | _ ∷ _ ↦
      join_with (codes "\n") s.results
      ++ (if s.truncated
          then codes "\n[glob truncated after "
            ++ (decimal (length s.results)
                ++ (codes " results or " ++ (decimal s.visited ++ codes " visited entries]")))
          else [])
]

unfoldable pub glob_result : GlobState × Answer → Result Bytes Bytes
glob_result (s, a) = elim (error_of a) [
  | some e ↦ err (codes "walk: " ++ e)
  | none ↦ ok (glob_text s)
]

pub record GlobArgs : Type 0 where
  pub pattern : Bytes
  pub limit : ℤ

unfoldable pub glob_tool :
    (unmarshal : Bytes → Result Bytes GlobArgs)
    → Fs
    → (match_part : Bytes → Bytes → Result Bytes Bool) → (tree : Bytes → Node) → Bytes
    → Bytes
    → Result Bytes Bytes
glob_tool unmarshal fs match_part tree base_dir args_json = do
  args ←
      map_err (λ e. codes "unmarshal: " ++ e)
        (unmarshal (if beq args_json [] then codes "{}" else args_json))
  reject_if (beq args.pattern []) (codes "pattern is required")
  reject_if (ltb 512 (length args.pattern)) (codes "pattern is too long")
  reject_if (out_of_bounds max_glob_results (limit_or 100 args.limit))
      (codes "limit must be between 1 and " ++ decimal max_glob_results)
  secured ← secure_tool_path fs base_dir args.pattern
  bases ← both_bases fs base_dir
  glob_result (
      glob_walk fs match_part
        (record {
          abs_base = bases.0;
          real_base = bases.1;
          pattern = args.pattern;
          limit = pos_part (limit_or 100 args.limit);
        })
        (tree (glob_walk_root bases.0 args.pattern)))
