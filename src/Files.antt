-- ===== src/Files.antt =====
-- internal/plantools/files.go: the paths that the file tools take, and the tool `list`. The file system
-- is a parameter; deadlines are not modelled. Paths are those of Unix, where slashes stay as they are.
pub mod Confined
pub mod Directory
pub mod Glob
pub mod Walk
pub mod Search
pub mod Read
use zbplan.Paths.{slash, up, is_abs, clean, clean_parts}
use zbplan.Prelude.{
  ℕ, zero, suc, ◌+◌, ◌-◌, ◌<◌, Bool, true, false, not, ◌&&◌, ◌||◌, Option, none, some, List, [],
  ◌∷◌, ◌++◌, map, Bytes, codes, beq, take, drop, length, decimal, ltb, leb, ◌==◌, if◌then◌else◌,
  Result, ok, err, ◌>>=◌, ◌>>◌, reject_if, map_err, ℤ, pos, negsuc, is_negative, pos_part,
}
use zbplan.Strings.{has_prefix, contains}
use zbplan.Strings.Join.{join_with}
use zbplan.Strings.Split.{split, join}
use zbplan.Workspace.{WorkspaceOps, hidden_matcher}

-- What `os.Stat` tells.
pub record Info : Type 0 where
  pub is_dir : Bool
  pub is_regular : Bool
  pub size : ℕ

pub record DirEntry : Type 0 where
  pub name : Bytes
  pub is_dir : Bool

-- Why a directory could not be read.
pub data DirFailure : Type 0 where
  open_failed read_failed : Bytes → DirFailure

pub record Fs : Type 0 where
  -- `filepath.Abs`, `filepath.EvalSymlinks`, `os.Stat`: the result, or the text of the error
  pub abs : Bytes → Result Bytes Bytes
  pub eval_symlinks : Bytes → Result Bytes Bytes
  pub stat : Bytes → Result Bytes Info
  -- `os.Open` and `ReadDir(n)`
  pub read_dir : Bytes → ℕ → Result DirFailure (List DirEntry)
  -- the `.gitignore` of a directory, where it could be read
  pub gitignore : Bytes → Option Bytes
  pub workspace_ops : WorkspaceOps

-- `errPathEscapesBase`
pub escapes_base : Bytes
escapes_base = codes "path escapes base directory"

-- The parts behind the longest common front of both.
unfoldable pub drop_common : List Bytes → List Bytes → List Bytes × List Bytes
drop_common [] ts = ([], ts)
drop_common (b ∷ bs) [] = (b ∷ bs, [])
drop_common (b ∷ bs) (t ∷ ts) =
    let rest = drop_common bs ts in if beq b t then rest else (b ∷ bs, t ∷ ts)

unfoldable pub starts_up : List Bytes → Bool
starts_up [] = false
starts_up (part ∷ parts) = beq part up

-- The way from one directory to a path below it, or past it.
unfoldable pub rel_parts : List Bytes × List Bytes → List Bytes
rel_parts (bs, ts) = map (λ b. up) bs ++ ts

-- The text of the way; there is none where the base goes up itself.
unfoldable pub rel_text : List Bytes × List Bytes → Option Bytes
rel_text rest =
    let text = join slash (rel_parts rest) in
    if starts_up rest.0 then none else some (if beq text [] then codes "." else text)

unfoldable pub same_kind : Bytes → Bytes → Bool
same_kind base target = if is_abs base then is_abs target else not (is_abs target)

-- `filepath.Rel`, on the parts of the cleaned paths.
unfoldable pub rel : Bytes → Bytes → Option Bytes
rel base target =
    let rest =
      drop_common (clean_parts (is_abs base) (split slash base))
        (clean_parts (is_abs target) (split slash target)) in
    if same_kind base target then rel_text rest else none

unfoldable pub is_inside : Bytes → Bool
is_inside path =
    beq path (codes ".")
    || (not (is_abs path) && (not (beq path up) && not (has_prefix path (codes "../"))))

unfoldable pub is_path_in_base : Bytes → Bytes → Bool
is_path_in_base base target = elim (rel base target) [ none ↦ false | some path ↦ is_inside path ]

unfoldable pub clean_tool_path : Bytes → Result Bytes Bytes
clean_tool_path path = do
  reject_if (is_abs path) escapes_base
  reject_if (contains (split slash path) up) escapes_base
  ok (clean path)

-- `filepath.Join` of two parts
unfoldable pub join_path : Bytes → Bytes → Bytes
join_path front path =
    if beq front []
    then (if beq path [] then [] else clean path)
    else if beq path []
    then clean front
    else clean (front ++ slash ∷ path)

module _ (fs : Fs) where
  unfoldable pub base_directory : (Bytes → Result Bytes Bytes) → Bytes → Result Bytes Bytes
  base_directory resolve dir = map_err (λ e. codes "resolve base directory: " ++ e) (resolve dir)

  -- `secureToolPath`: the cleaned path, and where it is.
  unfoldable pub secure_tool_path : Bytes → Bytes → Result Bytes (Bytes × Bytes)
  secure_tool_path base_dir path = do
    rel_path ← clean_tool_path path
    abs_base ← base_directory fs.abs base_dir
    reject_if (not (is_path_in_base abs_base (join_path abs_base rel_path))) escapes_base
    ok (rel_path, join_path abs_base rel_path)

  -- `secureExistingToolPath`: the same, behind symbolic links.
  unfoldable pub secure_existing_tool_path : Bytes → Bytes → Result Bytes (Bytes × Bytes)
  secure_existing_tool_path base_dir path = do
    found ← secure_tool_path base_dir path
    abs_base ← base_directory fs.abs base_dir
    real_base ← base_directory fs.eval_symlinks abs_base
    real_path ← map_err (λ e. codes "resolve path: " ++ e) (fs.eval_symlinks found.1)
    reject_if (not (is_path_in_base real_base real_path)) escapes_base
    ok (found.0, real_path)

  -- `workspace.HiddenMatcher(baseDir)`
  unfoldable pub hidden : Bytes → Bytes → Bool
  hidden base_dir = hidden_matcher fs.workspace_ops (fs.gitignore base_dir)

  -- The path from the base to where the links lead, if that is inside the base.
  unfoldable pub resolved_rel : Bytes → Bytes → Result Bytes Bytes
  resolved_rel real_base resolved_abs = elim (rel real_base resolved_abs) [
    | none ↦ err escapes_base
    | some path ↦ if is_path_in_base real_base resolved_abs then ok path else err escapes_base
  ]

  unfoldable pub unavailable_resolved : Bytes → Bytes → Result Bytes Bool
  unavailable_resolved base_dir resolved_abs = do
    abs_base ← base_directory fs.abs base_dir
    real_base ← base_directory fs.eval_symlinks abs_base
    path ← resolved_rel real_base resolved_abs
    ok (hidden base_dir path)

  unfoldable pub unavailable_existing_tool_path : Bytes → Bytes → Bytes → Result Bytes Bool
  unavailable_existing_tool_path base_dir requested_rel resolved_abs =
      let resolved = unavailable_resolved base_dir resolved_abs in
      if hidden base_dir requested_rel then ok true else resolved

  -- What `read` and `list` do before they open a path: where it is, and what is there.
  unfoldable pub open_path : Bytes → Bytes → Result Bytes (Bytes × Bytes × Info)
  open_path base_dir path = do
    found ← secure_existing_tool_path base_dir path
    info ← map_err (λ e. codes "stat path: " ++ e) (fs.stat found.1)
    unavailable ← unavailable_existing_tool_path base_dir found.0 found.1
    reject_if unavailable (codes "path is unavailable because it is ignored or sensitive")
    ok (found.0, found.1, info)
