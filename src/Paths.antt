-- ===== src/Paths.antt =====
-- The parts of Go's `path` and `path/filepath` packages that the program uses, on slash-separated byte
-- strings.
pub mod Shorter
use mathlib.Core.List.{foldl, reverse}
use zbplan.Prelude.{
  ℕ, ◌+◌, Bool, true, false, not, ◌&&◌, ◌||◌, Option, none, some, List, [], ◌∷◌, ◌++◌, Bytes, codes,
  beq, take, drop, length, ◌==◌, if◌then◌else◌,
}
use zbplan.Strings.{has_prefix}
use zbplan.Strings.Split.{split, join}

abbrev pub slash : ℕ
slash = b'/'

abbrev pub up : Bytes
up = codes ".."

-- A part `..` takes back the part before it; at the root it does nothing.
unfoldable pub clean_up : Bool → List Bytes → List Bytes
clean_up rooted [] = if rooted then [] else up ∷ []
clean_up rooted (top ∷ stack) = if beq top up then up ∷ top ∷ stack else stack

-- The parts that are kept, the last one first.
unfoldable pub clean_step : Bool → List Bytes → Bytes → List Bytes
clean_step rooted stack part =
    if beq part [] || beq part (codes ".")
    then stack
    else if beq part up
    then clean_up rooted stack
    else part ∷ stack

unfoldable pub clean_parts : Bool → List Bytes → List Bytes
clean_parts rooted parts = reverse (foldl (clean_step rooted) [] parts)

unfoldable pub is_abs : Bytes → Bool
is_abs path = has_prefix path (codes "/")

-- The text that is returned, from the parts that are kept.
unfoldable pub clean_text : Bool → Bytes → Bytes
clean_text rooted body = if rooted then slash ∷ body else if beq body [] then codes "." else body

-- `path.Clean`
unfoldable pub clean : Bytes → Bytes
clean path = clean_text (is_abs path) (join slash (clean_parts (is_abs path) (split slash path)))

-- The text up to the last slash, with it, and what stands behind.
unfoldable pub split_last : Bytes → Option Bytes × Bytes
split_last [] = (none, [])
split_last (c ∷ s) =
    let (front, rest) = split_last s in
    elim front [
      | some d ↦ (some (c ∷ d), rest)
      | none ↦ if c == slash then (some [], rest) else (none, c ∷ rest)
    ]

-- `path.Dir`: the text before the last slash is cleaned with the slash.
unfoldable pub dir : Bytes → Bytes
dir path = elim (split_last path).0 [ none ↦ clean [] | some d ↦ clean (d ++ slash ∷ []) ]

-- The text without the slashes at its end.
unfoldable pub trim_slashes : Bytes → Bytes
trim_slashes [] = []
trim_slashes (c ∷ s) =
    let rest = trim_slashes s in if c == slash && beq rest [] then [] else c ∷ rest

-- `path.Base`
unfoldable pub base : Bytes → Bytes
base path =
    let trimmed = trim_slashes path in
    if beq path [] then codes "." else if beq trimmed [] then codes "/" else (split_last trimmed).1

-- What follows the last dot, with it, of a name without a slash.
unfoldable pub last_dot : Bytes → Option Bytes
last_dot [] = none
last_dot (c ∷ s) = elim (last_dot s) [
  | some e ↦ some e
  | none ↦ if c == b'.' then some (c ∷ s) else none
]

-- `path.Ext`
unfoldable pub ext : Bytes → Bytes
ext path = elim (last_dot (split_last path).1) [ none ↦ [] | some e ↦ e ]
