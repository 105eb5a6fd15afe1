-- ===== src/Files/Read.antt =====
-- internal/plantools/files.go: the tool `read`. The JSON decoder, `sort.Slice` and the context
-- of a listing are parameters, and so is what
-- `bufio.Scanner` delivers of a file: its lines, and the error that ends them.
pub mod Bounded
use zbplan.Cut.{forward_to_rune, safe_text_prefix}
use zbplan.Files.{Fs, Info, DirEntry, open_path}
use zbplan.Files.Directory.{list_directory, max_list_entries, limit_or, out_of_bounds}
use zbplan.Prelude.{
  ℕ, zero, suc, ◌+◌, ◌*◌, ◌-◌, ◌^◌, Bool, true, false, not, ◌&&◌, ◌||◌, Option, none, some, List,
  [], ◌∷◌, ◌++◌, Bytes, codes, beq, drop, length, decimal, ltb, leb, ◌==◌, if◌then◌else◌, Result,
  ok, err, ◌>>=◌, ◌>>◌, reject_if, map_err, ℤ, is_negative, pos_part,
}
use zbplan.Strings.Join.{join_with}

abbrev pub max_read_lines : ℕ
max_read_lines = 200

abbrev pub max_read_bytes : ℕ
max_read_bytes = 64 * 1024

abbrev pub max_readable_file_bytes : ℕ
max_readable_file_bytes = 2 ^ 20

-- "…"
abbrev pub ellipsis : Bytes
ellipsis = 0xE2 ∷ 0x80 ∷ 0xA6 ∷ []

-- Which lines are asked for: the number of lines to skip, the byte of the first one, and how many.
pub record Window : Type 0 where
  pub offset : ℕ
  pub column : ℕ
  pub limit : ℕ

pub record Page : Type 0 where
  pub lines : List Bytes
  pub has_more : Bool
  pub split_column : Option ℕ

-- A line that is to be shown: what stands before its text, the text, and the byte where the text begins.
pub record Cursor : Type 0 where
  pub prefix : Bytes
  pub text : Bytes
  pub column : ℕ

pub column_error : ℕ → ℕ → ℕ → Bytes
column_error column size number =
    codes "column "
    ++ (decimal column
        ++ (codes " exceeds the "
            ++ (decimal size ++ (codes "-byte length of line " ++ decimal number))))

-- The line `number` is entered at the column that is asked for, if it is the first one.
unfoldable pub enter_line : Window → ℕ → Bytes → Result Bytes Cursor
enter_line w number text =
    let column = forward_to_rune text w.column in
    let prefix = decimal number ++ codes ":" in
    if (number == w.offset + 1) && ltb 0 w.column
    then (if ltb (length text) w.column
        then err (column_error w.column (length text) number)
        else ok (record { prefix = prefix ++ ellipsis; text = drop column text; column = column }))
    else ok (record { prefix = prefix; text = text; column = 0 })

-- What is shown of a line that does not fit.
pub split_part : ℕ → Cursor → Bytes
split_part content_bytes c =
    safe_text_prefix c.text (max_read_bytes - content_bytes - length c.prefix - length ellipsis - 1)

pub split_line : List Bytes → ℕ → Cursor → Page
split_line lines content_bytes c =
    let part = split_part content_bytes c in
    if beq part [] then record { lines = lines; has_more = true; split_column = none } else record {
      lines = lines ++ (c.prefix ++ (part ++ ellipsis)) ∷ [];
      has_more = true;
      split_column = some (c.column + length part);
    }

-- The loop over the lines of the scanner; `number` of them came before.
unfoldable pub read_loop :
    Window
    → Option Bytes
    → (number : ℕ) → List Bytes
    → (lines : List Bytes) → (content_bytes : ℕ) → Result Bytes Page
read_loop w scan_error number [] lines content_bytes = elim scan_error [
  | some e ↦ err (codes "scan file: " ++ e)
  | none ↦ ok (record { lines = lines; has_more = false; split_column = none })
]
read_loop w scan_error number (text ∷ texts) lines content_bytes =
    let skipped = read_loop w scan_error (number + 1) texts lines content_bytes in
    let added = λ (c : Cursor).
      read_loop w scan_error (number + 1) texts (lines ++ (c.prefix ++ c.text) ∷ [])
        (content_bytes + (length (c.prefix ++ c.text) + 1)) in
    if leb (number + 1) w.offset
    then skipped
    else if leb w.limit (length lines)
    then ok (record { lines = lines; has_more = true; split_column = none })
    else elim (enter_line w (number + 1) text) [
      | err e ↦ err e
      | ok c ↦
          if ltb max_read_bytes (content_bytes + length (c.prefix ++ c.text) + 1)
          then ok (split_line lines content_bytes c)
          else added c
    ]

pub status_text : ℕ → Page → Bytes
status_text end_line page = elim (page.split_column) [
  | some column ↦
      codes "line "
      ++ (decimal end_line
          ++ (codes " continues; next_offset="
              ++ (decimal (end_line - 1) ++ (codes " next_column=" ++ decimal column))))
  | none ↦ if page.has_more then codes "next_offset=" ++ decimal end_line else codes "complete"
]

pub page_text : Bytes → Window → Page → Bytes
page_text rel_path w page =
    let end_line = w.offset + length page.lines in
    elim (page.lines) [
      | [] ↦
          if ltb 0 w.offset
          then codes "["
            ++ (rel_path ++ (codes ": no lines after offset " ++ (decimal w.offset ++ codes "]")))
          else codes "[" ++ (rel_path ++ codes ": empty file]")
      | _ ∷ _ ↦
          codes "["
          ++ (rel_path
              ++ (codes " lines "
                  ++ (decimal (w.offset + 1)
                      ++ (codes "-"
                          ++ (decimal end_line
                              ++ (codes "; "
                                  ++ (status_text end_line page
                                      ++ (codes "]\n" ++ join_with (codes "\n") page.lines))))))))
    ]

pub record ReadFileArgs : Type 0 where
  pub path : Bytes
  pub offset : ℤ
  pub column : ℤ
  pub limit : ℤ

-- `os.Open` and the scanner: the error of the first, or the lines and the error of the second.
abbrev pub Scan : Type 0
Scan = Bytes → Result Bytes (List Bytes × Option Bytes)

pub read_file : Scan → Window → Bytes → Bytes → Info → Result Bytes Bytes
read_file scan w rel_path abs_path info = do
  reject_if (not info.is_regular) (codes "path is not a regular file")
  reject_if (ltb max_readable_file_bytes info.size) (
      codes "file is "
      ++ (decimal info.size
          ++ (codes " bytes; maximum readable size is " ++ decimal max_readable_file_bytes)))
  scanned ← map_err (λ e. codes "open file: " ++ e) (scan abs_path)
  page ← read_loop w scanned.1 0 scanned.0 [] 0
  ok (page_text rel_path w page)

unfoldable pub read_tool :
    (slice : (DirEntry → DirEntry → Bool) → List DirEntry → List DirEntry)
    → (context : ℕ → Option Bytes) → (Bytes → Result Bytes ReadFileArgs)
    → Fs
    → Scan
    → Bytes
    → Bytes
    → Result Bytes Bytes
read_tool slice context unmarshal fs scan base_dir args_json = do
  args ←
      map_err (λ e. codes "unmarshal: " ++ e)
        (unmarshal (if beq args_json [] then codes "{}" else args_json))
  reject_if (beq args.path []) (codes "path is required")
  reject_if (is_negative args.offset) (codes "offset must not be negative")
  reject_if (is_negative args.column) (codes "column must not be negative")
  reject_if (out_of_bounds max_read_lines (limit_or max_read_lines args.limit))
      (codes "limit must be between 1 and " ++ decimal max_read_lines)
  found ← open_path fs base_dir args.path
  (if found.2.is_dir
      then list_directory slice context fs base_dir found.0 found.1 max_list_entries
      else read_file scan
          (record {
            offset = pos_part args.offset;
            column = pos_part args.column;
            limit = pos_part (limit_or max_read_lines args.limit);
          })
          found.0 found.1 found.2)
