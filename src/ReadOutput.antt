-- ===== src/ReadOutput.antt =====
-- pkg/zbplan/tool_output.go: `readToolOutputTool.InvokableRun`, which pages through an output that
-- was retained. The JSON decoder is a parameter: the arguments that it reads, or its error's text;
-- so is `%q` of the reference that a caller gives.
pub mod Page
use zbplan.Prelude.{
  ℕ, zero, suc, ◌+◌, ◌*◌, ◌-◌, min, not, ◌&&◌, ◌||◌, none, some, ◌++◌, [], Bytes, codes, beq,
  decimal, length, take, drop, ltb, leb, ◌==◌, if◌then◌else◌, Result, ok, err, ◌>>=◌, ◌>>◌,
  reject_if, map_err, ℤ, is_negative, pos_part,
}
use zbplan.Cut.{forward_to_rune}
use zbplan.Store.{ToolOutputStore, get}
use zbplan.Utf8.{rune_start_at, rune_size}

-- `maxToolOutputReadBytes`
abbrev pub max_tool_output_read_bytes : ℕ
max_tool_output_read_bytes = 8 * 1024

pub record ReadArgs : Type 0 where
  pub ref : Bytes
  pub offset : ℤ
  pub limit : ℤ

-- `for end > start && end < len(output) && !utf8.RuneStart(output[end]) { end-- }`
pub back_to_rune_from : Bytes → ℕ → ℕ → ℕ
back_to_rune_from output start zero = 0
back_to_rune_from output start (suc end) =
    if ltb start (suc end)
      && (ltb (suc end) (length output) && not (rune_start_at output (suc end)))
    then back_to_rune_from output start end
    else suc end

-- Where the page from `start` ends. It is never empty before the end of the output.
pub page_end : Bytes → ℕ → ℕ → ℕ
page_end output start limit =
    let end = back_to_rune_from output start (min (start + limit) (length output)) in
    if end == start then start + rune_size (drop start output) else end

-- `output[start:end]`
pub page_bytes : Bytes → ℕ → ℕ → Bytes
page_bytes output start end = take (end - start) (drop start output)

pub page_text : Bytes → Bytes → ℕ → ℕ → Bytes
page_text ref output start end =
    codes "["
    ++ (ref
        ++ (codes " bytes "
            ++ (decimal start
                ++ (codes ":"
                    ++ (decimal end
                        ++ (codes " of "
                            ++ (decimal (length output)
                                ++ (codes "]\n" ++ page_bytes output start end))))))))

pub past_end_text : Bytes → Bytes → ℕ → Bytes
past_end_text ref output offset =
    codes "["
    ++ (ref
        ++ (codes ": offset "
            ++ (decimal offset
                ++ (codes " is past the " ++ (decimal (length output) ++ codes "-byte output]")))))

-- The limit that is used: 0 and what exceeds the cap stand for the cap.
pub page_limit : ℕ → ℕ
page_limit limit =
    if limit == 0 || ltb max_tool_output_read_bytes limit then max_tool_output_read_bytes else limit

pub read_page : Bytes → Bytes → ℕ → ℕ → Bytes
read_page ref output offset limit =
    let start = forward_to_rune output offset in
    if leb (length output) offset
    then past_end_text ref output offset
    else page_text ref output start (page_end output start limit)

unfoldable pub read_tool_output :
    (quoted : Bytes → Bytes)
    → (unmarshal : Bytes → Result Bytes ReadArgs) → ToolOutputStore
    → Bytes
    → Result Bytes Bytes
read_tool_output quoted unmarshal store args_json = do
  args ←
      map_err (λ e. codes "unmarshal: " ++ e)
        (unmarshal (if beq args_json [] then codes "{}" else args_json))
  reject_if (beq args.ref []) (codes "ref is required")
  reject_if (is_negative args.offset) (codes "offset must not be negative")
  reject_if (is_negative args.limit) (codes "limit must not be negative")
  elim (get store args.ref) [
    | none ↦ err (codes "unknown tool output ref " ++ quoted args.ref)
    | some output ↦
        ok (read_page args.ref output (pos_part args.offset) (page_limit (pos_part args.limit)))
  ]
