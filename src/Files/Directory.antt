-- ===== src/Files/Directory.antt =====
-- internal/plantools/files.go: the tool `list` and `listDirectory`. The JSON decoder, the
-- context and `sort.Slice` are parameters.
pub mod Sorted
pub mod Visible
use zbplan.Files.{Fs, DirEntry, DirFailure, open_failed, read_failed, hidden, join_path, open_path}
use zbplan.Prelude.{
  ℕ, zero, suc, ◌+◌, ◌≤◌, ◌≡◌, refl, sym, ap, ◌∙◌, Bool, true, false, not, Option, none, some, ◌&&◌,
  ◌||◌, List, [], ◌∷◌, ◌++◌, append-nil, append_assoc, map, Bytes, codes, beq, take, length,
  decimal, ltb, leb, ◌==◌, if◌then◌else◌, Result, ok, err, ◌>>=◌, ◌>>◌, reject_if, map_err, ℤ, pos,
  negsuc, is_negative, pos_part, arith, Bool-cases, inl, inr, length-append,
}
use zbplan.Strings.Join.{join_with}

abbrev pub max_list_entries : ℕ
max_list_entries = 200

abbrev pub max_directory_scan : ℕ
max_directory_scan = 10_000

-- `<` on strings
pub before : Bytes → Bytes → Bool
before [] [] = false
before [] (d ∷ t) = true
before (c ∷ s) [] = false
before (c ∷ s) (d ∷ t) = ltb c d || (c == d && before s t)

-- The function of `sort.Slice`: `entries[i].Name() < entries[j].Name()`
unfoldable pub name_before : DirEntry → DirEntry → Bool
name_before e f = before e.name f.name

pub shown_name : DirEntry → Bytes
shown_name e = if e.is_dir then e.name ++ codes "/" else e.name

-- The loop over the entries: the names, and whether the limit was met. `context` is the error of the
-- context in each round.
pub list_loop :
    (context : ℕ → Option Bytes)
    → (Bytes → Bool)
    → Bytes
    → ℕ
    → (round : ℕ) → List DirEntry
    → List Bytes
    → Result Bytes (List Bytes × Bool)
list_loop context is_hidden rel_path limit round [] names = ok (names, false)
list_loop context is_hidden rel_path limit round (e ∷ es) names =
    let skipped = list_loop context is_hidden rel_path limit (suc round) es names in
    let added =
      list_loop context is_hidden rel_path limit (suc round) es (names ++ shown_name e ∷ []) in
    elim (context round) [
      | some cancelled ↦ err cancelled
      | none ↦
          if is_hidden (join_path rel_path e.name)
          then skipped
          else if leb limit (length (names ++ shown_name e ∷ []))
          then ok (names ++ shown_name e ∷ [], true)
          else added
    ]

pub list_text : List Bytes → Bool → Bytes
list_text [] true =
    codes "no visible entries [list truncated after scanning "
    ++ (decimal max_directory_scan ++ codes " entries]")
list_text [] false = codes "empty directory"
list_text (name ∷ names) truncated =
    join_with (codes "\n") (name ∷ names)
    ++ (if truncated
        then codes "\n[list truncated after "
          ++ (decimal (length (name ∷ names)) ++ codes " entries]")
        else [])

pub directory_error : DirFailure → Bytes
directory_error (open_failed e) = codes "open directory: " ++ e
directory_error (read_failed e) = codes "read directory: " ++ e

unfoldable pub list_directory :
    (slice : (DirEntry → DirEntry → Bool) → List DirEntry → List DirEntry)
    → (context : ℕ → Option Bytes) → Fs
    → Bytes
    → Bytes
    → Bytes
    → ℕ
    → Result Bytes Bytes
list_directory slice context fs base_dir rel_path abs_path limit = do
  entries ← map_err directory_error (fs.read_dir abs_path (max_directory_scan + 1))
  listed ←
      list_loop context (hidden fs base_dir) rel_path limit 0
        (slice name_before (take max_directory_scan entries)) []
  ok (list_text listed.0 (ltb max_directory_scan (length entries) || listed.1))

pub record ListArgs : Type 0 where
  pub path : Bytes
  pub limit : ℤ

-- The limit in use; 0 stands for the default.
unfoldable pub limit_or : ℕ → ℤ → ℤ
limit_or default (pos zero) = pos default
limit_or default (pos (suc n)) = pos (suc n)
limit_or default (negsuc n) = negsuc n

-- `limit < 1 || limit > top`
unfoldable pub out_of_bounds : ℕ → ℤ → Bool
out_of_bounds top limit = is_negative limit || (pos_part limit == 0 || ltb top (pos_part limit))

unfoldable pub list_tool :
    (slice : (DirEntry → DirEntry → Bool) → List DirEntry → List DirEntry)
    → (context : ℕ → Option Bytes) → (Bytes → Result Bytes ListArgs)
    → Fs
    → Bytes
    → Bytes
    → Result Bytes Bytes
list_tool slice context unmarshal fs base_dir args_json = do
  args ←
      map_err (λ e. codes "unmarshal: " ++ e)
        (unmarshal (if beq args_json [] then codes "{}" else args_json))
  reject_if (beq args.path []) (codes "path is required")
  reject_if (out_of_bounds max_list_entries (limit_or max_list_entries args.limit))
      (codes "limit must be between 1 and " ++ decimal max_list_entries)
  found ← open_path fs base_dir args.path
  (if not found.2.is_dir
      then ok (codes "is a file")
      else list_directory slice context fs base_dir found.0 found.1
          (pos_part (limit_or max_list_entries args.limit)))
