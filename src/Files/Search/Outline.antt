-- ===== src/Files/Search/Outline.antt =====
-- internal/plantools/files.go: the tool `tree`. The JSON decoder is a parameter.
pub mod Drawn
use zbplan.Files.{Fs, Info, hidden, rel, base_directory, secure_existing_tool_path}
use zbplan.Files.Directory.{limit_or, out_of_bounds}
use zbplan.Files.Search.{rel_from_base, leave_out}
use zbplan.Files.Walk.{Node, Answer, go_on, skip_all, Seen, broken, entry, error_of, walk_node}
use zbplan.Paths.{slash, base}
use zbplan.Prelude.{
  ℕ, zero, suc, Bool, true, false, Option, none, some, List, [], ◌∷◌, ◌++◌, Bytes, codes, beq,
  length, decimal, leb, ◌==◌, if◌then◌else◌, Result, ok, err, ◌>>=◌, ◌>>◌, reject_if, map_err, ℤ,
  pos_part,
}
use zbplan.Strings.Join.{join_with}

abbrev pub max_tree_depth : ℕ
max_tree_depth = 5

abbrev pub max_entries : ℕ
max_entries = 500

-- The variables that the walk changes.
pub record TreeState : Type 0 where
  pub lines : List Bytes
  pub truncated : Bool

-- What the walk reads.
pub record TreeQuery : Type 0 where
  pub abs_base : Bytes
  pub root_abs : Bytes
  pub depth : ℕ

-- `strings.Count(s, "/")`
unfoldable pub count_slashes : Bytes → ℕ
count_slashes [] = 0
count_slashes (c ∷ s) = let rest = count_slashes s in if c == slash then suc rest else rest

-- `strings.Repeat("  ", n)`
unfoldable pub indent : ℕ → Bytes
indent zero = []
indent (suc n) = codes "  " ++ indent n

-- The path from where the walk began; its error is dropped.
unfoldable pub rel_from_root : Bytes → Bytes → Bytes
rel_from_root root_abs abs_path = elim (rel root_abs abs_path) [ none ↦ [] | some path ↦ path ]

unfoldable pub tree_line : ℕ → Bytes → Info → Bytes
tree_line depth name info = indent depth ++ (if info.is_dir then name ++ codes "/" else name)

module _ (fs : Fs) (q : TreeQuery) where
  -- What is done with a visible entry.
  unfoldable pub tree_entry : Bytes → Bytes → Info → TreeState → TreeState × Answer
  tree_entry abs_path name info s =
      let path = rel_from_root q.root_abs abs_path in
      if beq path (codes ".")
      then (s, go_on)
      else if leb q.depth (count_slashes path)
      then (s, leave_out info)
      else if leb max_entries (length s.lines)
      then (record s { truncated = true }, skip_all)
      else (record s { lines = s.lines ++ tree_line (count_slashes path) name info ∷ [] }, go_on)

  unfoldable pub tree_visit : Bytes → Seen → TreeState → TreeState × Answer
  tree_visit abs_path broken s = (s, go_on)
  tree_visit abs_path (entry name info) s =
      if hidden fs q.abs_base (rel_from_base q.abs_base abs_path)
      then (s, leave_out info)
      else tree_entry abs_path name info s

  -- The walk from the path, over what is there.
  unfoldable pub tree_walk : Node → TreeState × Answer
  tree_walk tree =
      walk_node tree_visit (base q.root_abs) q.root_abs tree
        (record { lines = []; truncated = false })

unfoldable pub tree_text : TreeState → Bytes
tree_text s = elim (s.lines) [
  | [] ↦ codes "empty directory"
  | _ ∷ _ ↦
      join_with (codes "\n") s.lines
      ++ (if s.truncated then codes "\n[tree truncated after 500 entries]" else [])
]

unfoldable pub tree_result : TreeState × Answer → Result Bytes Bytes
tree_result (s, a) = elim (error_of a) [
  | some e ↦ err (codes "walk: " ++ e)
  | none ↦ ok (tree_text s)
]

pub record TreeArgs : Type 0 where
  pub path : Bytes
  pub depth : ℤ

unfoldable pub tree_tool :
    (unmarshal : Bytes → Result Bytes TreeArgs)
    → Fs
    → (tree : Bytes → Node) → Bytes
    → Bytes
    → Result Bytes Bytes
tree_tool unmarshal fs tree base_dir args_json = do
  args ←
      map_err (λ e. codes "unmarshal: " ++ e)
        (unmarshal (if beq args_json [] then codes "{}" else args_json))
  reject_if (out_of_bounds max_tree_depth (limit_or 3 args.depth))
      (codes "depth must be between 1 and " ++ decimal max_tree_depth)
  found ← secure_existing_tool_path fs base_dir (if beq args.path [] then codes "." else args.path)
  abs_base ← base_directory fs fs.abs base_dir
  tree_result (
      tree_walk fs
        (record {
          abs_base = abs_base;
          root_abs = found.1;
          depth = pos_part (limit_or 3 args.depth);
        })
        (tree found.1))
