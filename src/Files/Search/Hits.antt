-- ===== src/Files/Search/Hits.antt =====
-- The lines of one file that `grep` shows.
use zbplan.Files.{Fs, Info, hidden}
use zbplan.Files.Confined.{IsBelow}
use zbplan.Files.Read.{max_readable_file_bytes}
use zbplan.Files.Search.{rel_from_base}
use zbplan.Files.Search.Lines.{GrepQuery, Scan, grep_line, scan_lines, shorten}
use zbplan.Files.Walk.{Node, Meets}
use zbplan.Paths.{base}
use zbplan.Prelude.{
  suc, ◌<◌, ◌≤◌, Bool, true, false, Option, some, List, [], ◌∷◌, ◌++◌, append_assoc, Bytes, codes,
  decimal, length, leb, ◌≡◌, sym, ◌∙◌, Bool-cases, inl, inr, ok, All, All-snoc, length-append,
  arith,
}

-- A line of the result stands in a file that the walk of the tree meets, that is regular, not too large and not hidden and that leads
-- below the base directory; it is shown with its number and has a match.
pub record IsHit (fs : Fs) (scan : Bytes → Option Scan) (q : GrepQuery) (tree : Node)
    (shown : Bytes) : Type 0 where
  pub abs_path : Bytes
  pub name : Bytes
  pub info : Info
  pub met : Meets abs_path name info (base q.abs_base) q.abs_base tree
  pub regular : (info.is_dir ≡ false) × (info.is_regular ≡ true)
  pub visible : hidden fs q.abs_base (rel_from_base q.abs_base abs_path) ≡ false
  pub fits : info.size ≤ max_readable_file_bytes
  pub real : Bytes
  pub leads_to : fs.eval_symlinks abs_path ≡ ok real
  pub below : IsBelow q.real_base real
  pub file : Scan
  pub opened : scan real ≡ some file
  pub above : List Bytes
  pub line : Bytes
  pub rest : List Bytes
  pub lines : file.lines ≡ above ++ line ∷ rest
  pub found : q.is_match line ≡ true
  pub text :
      shown
      ≡ rel_from_base q.abs_base abs_path
        ++ (codes ":" ++ (decimal (suc (length above)) ++ (codes ": " ++ shorten line)))

-- The loop over the lines keeps what holds of each shown line, and the limit.
module _ (q : GrepQuery) (path : Bytes) (all : List Bytes) (P : Bytes → Type 0)
    (shows : (above : List Bytes) (line : Bytes) (rest : List Bytes)
      → all ≡ above ++ line ∷ rest
      → q.is_match line ≡ true
      → P (grep_line path (suc (length above)) line)) where
  pub record IsScanned (r : List Bytes × Bool) : Type 0 where
    pub each : All P r.0
    pub few : length r.0 ≤ q.limit

  pub scan_lines-IsScanned :
      (above : List Bytes) (lines results : List Bytes)
      → all ≡ above ++ lines
      → All P results
      → length results < q.limit
      → IsScanned (scan_lines q path (length above) lines results)
  unfolding scan_lines
  scan_lines-IsScanned above [] results e h few = record { each = h; few = omega arith }
  scan_lines-IsScanned above (line ∷ lines) results e h few =
      let counted : length (above ++ line ∷ []) ≡ suc (length above) =
        omega (arith, length-append above (line ∷ [])) in
      let next : (results : List Bytes)
          → All P results
          → length results < q.limit
          → IsScanned (scan_lines q path (suc (length above)) lines results) =
        λ rs h' few'.
          mathlib.Core.Path.subst (λ n. IsScanned (scan_lines q path n lines rs)) counted
            (scan_lines-IsScanned (above ++ line ∷ []) lines rs
              (e ∙ sym (append_assoc above (line ∷ []) lines)) h' few') in
      elim (Bool-cases (q.is_match line)) [
        | inr other ↦ rw other (next results h few)
        | inl found ↦ elim (Bool-cases (leb q.limit (length longer))) [
          | inl full ↦
              rw (found, full) (record { each = more found; few = omega (arith, few, size) })
          | inr room ↦ rw (found, room) (next longer (more found) (ground arith))
        ]
      ]
    where
      longer : List Bytes
      longer = results ++ grep_line path (suc (length above)) line ∷ []

      size : length longer ≡ suc (length results)
      size = omega (arith, length-append results (grep_line path (suc (length above)) line ∷ []))

      more : q.is_match line ≡ true → All P longer
      more found = All-snoc P results _ h (shows above line lines e found)
