-- ===== src/Cut.antt =====
-- Cutting text between runes: `boundedPrefix` and `boundedSuffix` of pkg/zbplan/tool_output.go,
-- `safeTextPrefix` of internal/plantools/files.go.
pub mod Laws
use zbplan.Prelude.{
  ℕ, zero, suc, ◌+◌, ◌-◌, [], ◌∷◌, Bytes, length, take, drop, leb, ◌==◌, if◌then◌else◌,
}
use zbplan.Utf8.{rune_start, rune_start_at}

-- `for end > 0 && !utf8.RuneStart(value[end]) { end-- }`
pub back_to_rune : Bytes → ℕ → ℕ
back_to_rune v zero = 0
back_to_rune v (suc end) = if rune_start_at v (suc end) then suc end else back_to_rune v end

-- The rounds of `for start < len(value) && !utf8.RuneStart(value[start]) { start++ }`, where the
-- argument is `value[start:]`.
unfoldable pub leading_continuations : Bytes → ℕ
leading_continuations [] = 0
leading_continuations (c ∷ s) = if rune_start c then 0 else suc (leading_continuations s)

-- The loop itself: where it ends.
unfoldable pub forward_to_rune : Bytes → ℕ → ℕ
forward_to_rune v start = start + leading_continuations (drop start v)

-- A negative `maxBytes` is treated as 0 is, so a natural number stands for it.
unfoldable pub bounded_prefix : Bytes → ℕ → Bytes
bounded_prefix v max_bytes =
    if max_bytes == 0
    then []
    else if leb (length v) max_bytes
    then v
    else take (back_to_rune v max_bytes) v

unfoldable pub bounded_suffix : Bytes → ℕ → Bytes
bounded_suffix v max_bytes =
    if max_bytes == 0
    then []
    else if leb (length v) max_bytes
    then v
    else drop (forward_to_rune v (length v - max_bytes)) v

unfoldable pub safe_text_prefix : Bytes → ℕ → Bytes
safe_text_prefix v max_bytes =
    if leb (length v) max_bytes then v else take (back_to_rune v max_bytes) v
