-- ===== src/Preview/Laws.antt =====
-- A preview fits its bound, shows both ends of the text, and shows no byte twice.
use zbplan.Prelude.{
  ℕ, ◌+◌, ◌-◌, ◌/◌, ◌≤◌, ◌<◌, ◌≡◌, ◌++◌, arith, Bytes, codes, length, take, drop, length-append,
  leb, ◌==◌, refl, ◌⊎◌, inl, inr, suc, Bool-cases,
}
use zbplan.Cut.{bounded_prefix, bounded_suffix}
use zbplan.Cut.Laws.{
  IsLastBoundary, IsNextBoundary, bounded_prefix-IsLastBoundary, bounded_suffix-IsNextBoundary,
  length-bounded_prefix, length-bounded_suffix,
}
use zbplan.Preview.{
  tool_output_notice, bounded_tool_output, section_notice, bounded_prompt_section,
  bounded_build_logs, max_build_log_prompt_bytes, max_dockerfile_prompt_bytes, retry_intro,
  retry_logs_heading, build_retry_prompt,
}

-- The text with the notice in place of the bytes from `h` to `t`. What the notice leaves of `n` bytes is
-- shared by the head and the tail, and each is the longest of whole runes within its share.
pub record IsElided (v notice shown : Bytes) (n : ℕ) : Type 0 where
  pub head_share : ℕ
  pub tail_share : ℕ
  pub shares : head_share + (length notice + tail_share) ≡ n
  pub halves : (tail_share ≡ head_share) ⊎ (tail_share ≡ suc head_share)
  pub h : ℕ
  pub t : ℕ
  pub head : IsLastBoundary v head_share h
  pub tail : IsNextBoundary v (length v - tail_share) t
  pub disjoint : h < t
  pub form : shown ≡ take h v ++ (notice ++ drop t v)

preview-bound :
    (v notice : Bytes) (a b : ℕ)
    → length (bounded_prefix v a ++ (notice ++ bounded_suffix v b)) ≤ a + length notice + b
preview-bound v notice a b = omega (
  arith,
  length-append (bounded_prefix v a) (notice ++ bounded_suffix v b),
  length-append notice (bounded_suffix v b),
  length-bounded_prefix v a,
  length-bounded_suffix v b,
)

preview-IsElided :
    (v notice : Bytes) (n a : ℕ)
    → n < length v
    → length notice < n
    → a ≡ (n - length notice) / 2
    → IsElided v notice
        (bounded_prefix v a ++ (notice ++ bounded_suffix v (n - length notice - a)))
        n
preview-IsElided v notice n a long room half =
    let b = n - length notice - a in
    let (h, prefix, last) = (bounded_prefix-IsLastBoundary v a).1 (omega (arith, half)) in
    let (t, suffix, next) = (bounded_suffix-IsNextBoundary v b).1 (omega (arith, half)) in
    record {
      head_share = a;
      tail_share = b;
      shares = omega (arith, half);
      halves = ground (arith, half);
      h = h;
      t = t;
      head = last;
      tail = next;
      disjoint = omega (arith, half, last.below, next.above);
      form = rw (prefix, suffix) refl;
    }

-- A tool output that is shown to the model is within its bound, whatever the notice takes.
pub length-bounded_tool_output :
    (output ref : Bytes) (n : ℕ) → length (bounded_tool_output output ref n) ≤ n
unfolding bounded_tool_output
length-bounded_tool_output output ref n =
    let notice = tool_output_notice (length output) ref in
    let a = (n - length notice) / 2 in
    ground
      (arith, length-bounded_prefix notice n, preview-bound output notice a (n - length notice - a))

pub bounded_tool_output_fits :
    (output ref : Bytes) (n : ℕ) → length output ≤ n → bounded_tool_output output ref n ≡ output
unfolding bounded_tool_output
bounded_tool_output_fits output ref n fits = ground arith

-- An output within the bound is shown unchanged. From a longer one, where the notice leaves room, one
-- stretch is left out and replaced by the notice: the room is shared by the head and the tail in halves,
-- and each is as long as its half allows without splitting a rune. Where the notice leaves no room, as
-- much of it is shown as fits.
pub bounded_tool_output-IsElided :
    (output ref : Bytes) (n : ℕ)
    → let notice = tool_output_notice (length output) ref in
      let shown = bounded_tool_output output ref n in
      ((length output ≤ n) × (shown ≡ output))
      ⊎ (((n < length output) × (length notice < n) × IsElided output notice shown n)
          ⊎ ((n < length output) × (n ≤ length notice) × (shown ≡ bounded_prefix notice n)))
unfolding bounded_tool_output
bounded_tool_output-IsElided output ref n = elim (Bool-cases (leb (length output) n)) [
  | inl fits ↦ rw fits (inl (ground arith, refl))
  | inr long ↦ elim (Bool-cases (n - length notice == 0)) [
    | inl full ↦ rw (long, full) (inr (inr (ground arith, ground arith, refl)))
    | inr room ↦
        rw (long, room)
          (inr (
            inl (
              ground arith,
              ground arith,
              preview-IsElided output notice n ((n - length notice) / 2) (ground arith)
                  (ground arith) refl,
            )))
  ]
]
  where
    notice : Bytes
    notice = tool_output_notice (length output) ref

-- A section of the retry prompt is within its bound, whatever the notice takes.
pub length-bounded_prompt_section :
    (value : Bytes) (n : ℕ) (label : Bytes) → length (bounded_prompt_section value n label) ≤ n
unfolding bounded_prompt_section
length-bounded_prompt_section value n label =
    let notice = section_notice label (length value) in
    let a = (n - length notice) / 3 in
    ground
      (arith, length-bounded_prefix notice n, preview-bound value notice a (n - length notice - a))

-- The retry prompt is bounded: 64 KiB of Dockerfile, 12 KiB of build log and 170 bytes of text,
-- however long the Dockerfile and the log are.
pub length-build_retry_prompt :
    (dockerfile build_logs : Bytes)
    → length (build_retry_prompt dockerfile build_logs)
      ≤ max_dockerfile_prompt_bytes + max_build_log_prompt_bytes + 170
unfolding build_retry_prompt bounded_build_logs
length-build_retry_prompt dockerfile build_logs =
    let intro : length retry_intro ≡ 146 = unfold retry_intro in refl in
    let heading : length retry_logs_heading ≡ 24 = unfold retry_logs_heading in refl in
    omega (
      arith,
      intro,
      heading,
      length-append {0} retry_intro,
      length-append {0} retry_logs_heading,
      length-append {0}
          (bounded_prompt_section dockerfile max_dockerfile_prompt_bytes (codes "Dockerfile")),
      length-bounded_prompt_section dockerfile max_dockerfile_prompt_bytes (codes "Dockerfile"),
      length-bounded_prompt_section build_logs max_build_log_prompt_bytes (codes "build output"),
    )
