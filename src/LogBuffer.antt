-- ===== src/LogBuffer.antt =====
-- internal/plantools/bounded_buffer.go: `boundedLogBuffer`, the head and the tail of a build log.
-- The mutex is not modelled: each method holds it throughout, so calls are a sequence.
pub mod Refine
use zbplan.Prelude.{
  ℕ, ◌+◌, ◌-◌, ◌/◌, ◌≤◌, min, Bool, ◌||◌, [], ◌++◌, Bytes, codes, decimal, length, take, drop, ltb,
  leb, ◌==◌, if◌then◌else◌,
}

pub record LogBuffer : Type 0 where
  pub limit : ℕ
  pub head_cap : ℕ
  pub tail_cap : ℕ
  pub total : ℕ
  pub head : Bytes
  pub tail : Bytes

unfoldable pub new_log_buffer : ℕ → LogBuffer
new_log_buffer limit = record {
  limit = limit;
  head_cap = limit / 3;
  tail_cap = limit - limit / 3;
  total = 0;
  head = [];
  tail = [];
}

-- Go's built-in `copy(dst, src)`: what `dst` holds afterwards.
pub copy : Bytes → Bytes → Bytes
copy dst src = take (length dst) src ++ drop (length src) dst

-- The part of `Write` that fills the head: the buffer, and what is left of `p`.
pub fill_head : LogBuffer → Bytes → LogBuffer × Bytes
fill_head b p =
    let remaining = b.head_cap - length b.head in
    let n = min remaining (length p) in
    if ltb 0 remaining then (record b { head = b.head ++ take n p }, drop n p) else (b, p)

-- The last branch of `Write`: the oldest bytes of the tail make room for `p`.
pub push_tail : LogBuffer → Bytes → LogBuffer
push_tail b p =
    let overflow = length b.tail + length p - b.tail_cap in
    let kept =
      if ltb 0 overflow
      then take (length b.tail - overflow) (copy b.tail (drop overflow b.tail))
      else b.tail in
    record b { tail = kept ++ p }

pub fill_tail : LogBuffer → Bytes → LogBuffer
fill_tail b p =
    if length p == 0 || b.tail_cap == 0
    then b
    else if leb b.tail_cap (length p)
    then record b { tail = drop (length p - b.tail_cap) p }
    else push_tail b p

-- `Write` returns the new buffer and the count of bytes that it took; its error is always nil.
unfoldable pub write : LogBuffer → Bytes → LogBuffer × ℕ
write b p =
    let (b', rest) = fill_head (record b { total = b.total + length p }) p in
    (fill_tail b' rest, length p)

unfoldable pub truncation_notice : ℕ → Bytes
truncation_notice total =
    codes "\n\n[build log truncated: " ++ (decimal total ++ codes " bytes total]\n\n")

unfoldable pub to_string : LogBuffer → Bytes
to_string b =
    if leb b.total b.limit
    then b.head ++ b.tail
    else b.head ++ (truncation_notice b.total ++ b.tail)
