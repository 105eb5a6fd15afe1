-- ===== src/Context.antt =====
-- pkg/builder/context.go: `filteredFS`, which hides paths of a build context. The file system below it,
-- the predicate that excludes, and the function that the walk calls are parameters.
pub mod Opened
use zbplan.Paths.{clean, dir}
use zbplan.Prelude.{
  ℕ, zero, suc, Bool, true, false, ◌||◌, Option, none, some, ◌++◌, Bytes, codes, beq, length,
  if◌then◌else◌, Result, ok, err,
}

-- What the function of a walk answers: an error, or to leave a directory out, or to go on.
pub data Visit : Type 0 where
  go_on skip_dir : Visit
  failed : Bytes → Visit

-- The predicate of `exclude`: a path, and whether it is a directory.
abbrev pub Exclude : Type 0
Exclude = Bytes → Bool → Bool

-- The entry of a walk, by whether it is a directory.
abbrev pub WalkFunction : Type 0
WalkFunction = Bytes → Option Bool → Option Bytes → Visit

-- The function that `Walk` hands to the file system below, from the one that it was given.
pub filtered_visit : Exclude → WalkFunction → WalkFunction
filtered_visit exclude visit p entry (some e) = visit p entry (some e)
filtered_visit exclude visit p none none = visit p none none
filtered_visit exclude visit p (some is_dir) none =
    if exclude p is_dir then (if is_dir then skip_dir else go_on) else visit p (some is_dir) none

-- The loop over the directories above a path.
unfoldable pub excluded_above : Exclude → (fuel : ℕ) → Bytes → Bool
excluded_above exclude zero d = false
excluded_above exclude (suc fuel) d =
    let above = excluded_above exclude fuel (dir d) in
    if beq d (codes ".") || beq d (codes "/") then false else exclude d true || above

pub not_exist : Bytes → Bytes
not_exist p = codes "open " ++ (p ++ codes ": file does not exist")

-- `Open`; a directory has fewer directories above it than bytes.
unfoldable pub filtered_open {ℓ} :
    {File : Type ℓ} → Exclude → (Bytes → Result Bytes File) → Bytes → Result Bytes File
filtered_open exclude open_file p =
    let d = dir (clean p) in
    let opened = open_file p in
    if exclude (clean p) false
    then err (not_exist p)
    else if excluded_above exclude (length d) d
    then err (not_exist p)
    else opened
