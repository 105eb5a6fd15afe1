-- ===== src/Preview.antt =====
-- Bounded previews with a notice: `boundedToolOutput` of pkg/zbplan/tool_output.go, and
-- `boundedPromptSection`, `boundedBuildLogs` and `buildRetryPrompt` of pkg/zbplan/prompt.go.
pub mod Laws
use zbplan.Prelude.{
  ℕ, ◌+◌, ◌-◌, ◌*◌, ◌/◌, [], ◌∷◌, ◌++◌, Bytes, codes, beq, decimal, length, leb, ◌==◌,
  if◌then◌else◌,
}
use zbplan.Cut.{bounded_prefix, bounded_suffix}

-- `%q` of a reference: it holds letters, digits and a dash, which are quoted as they are.
pub quote : Bytes → Bytes
quote s = b'"' ∷ (s ++ b'"' ∷ [])

-- `defaultMaxToolOutputBytes`
abbrev pub default_max_tool_output_bytes : ℕ
default_max_tool_output_bytes = 12 * 1024

pub tool_output_notice : ℕ → Bytes → Bytes
tool_output_notice size ref =
    if beq ref []
    then codes "\n\n[Tool output truncated: "
      ++ (decimal size
          ++ codes
              " bytes total. Full output was not retained because the run output-store budget was exhausted.]\n\n")
    else codes "\n\n[Tool output truncated: "
      ++ (decimal size
          ++ (codes " bytes total. Full output is "
              ++ (quote ref
                  ++ codes
                      "; use read_tool_output with that ref and a byte offset to inspect more.]\n\n")))

unfoldable pub bounded_tool_output : Bytes → Bytes → ℕ → Bytes
bounded_tool_output output ref max_bytes =
    let notice = tool_output_notice (length output) ref in
    let preview_bytes = max_bytes - length notice in
    let head_bytes = preview_bytes / 2 in
    let tail_bytes = preview_bytes - head_bytes in
    if leb (length output) max_bytes
    then output
    else if preview_bytes == 0
    then bounded_prefix notice max_bytes
    else bounded_prefix output head_bytes ++ (notice ++ bounded_suffix output tail_bytes)

pub section_notice : Bytes → ℕ → Bytes
section_notice label size =
    codes "\n\n[... "
    ++ (label
        ++ (codes " truncated from "
            ++ (decimal size ++ codes " bytes to reduce model input ...]\n\n")))

unfoldable pub bounded_prompt_section : Bytes → ℕ → Bytes → Bytes
bounded_prompt_section value max_bytes label =
    let notice = section_notice label (length value) in
    let preview_bytes = max_bytes - length notice in
    let head_bytes = preview_bytes / 3 in
    if leb (length value) max_bytes
    then value
    else if preview_bytes == 0
    then bounded_prefix notice max_bytes
    else bounded_prefix value head_bytes
      ++ (notice ++ bounded_suffix value (preview_bytes - head_bytes))

-- `maxBuildLogPromptBytes` and `maxDockerfilePromptBytes`
abbrev pub max_build_log_prompt_bytes : ℕ
max_build_log_prompt_bytes = 12 * 1024

abbrev pub max_dockerfile_prompt_bytes : ℕ
max_dockerfile_prompt_bytes = 64 * 1024

unfoldable pub bounded_build_logs : Bytes → ℕ → Bytes
bounded_build_logs build_logs max_bytes =
    bounded_prompt_section build_logs max_bytes (codes "build output")

-- The UTF-8 bytes of an em dash.
abbrev pub em_dash : Bytes
em_dash = 0xE2 ∷ 0x80 ∷ 0x94 ∷ []

-- The fixed text of the retry prompt, before the Dockerfile and between it and the logs.
pub retry_intro : Bytes
retry_intro =
    codes "The previous Dockerfile failed to build. Fix it and emit ONLY the corrected Dockerfile "
    ++ (em_dash ++ codes " no explanations, no code fences.\n\nPrevious Dockerfile:\n")

pub retry_logs_heading : Bytes
retry_logs_heading = codes "\n\nBuild error and logs:\n"

unfoldable pub build_retry_prompt : Bytes → Bytes → Bytes
build_retry_prompt dockerfile build_logs =
    retry_intro
    ++ (bounded_prompt_section dockerfile max_dockerfile_prompt_bytes (codes "Dockerfile")
        ++ (retry_logs_heading ++ bounded_build_logs build_logs max_build_log_prompt_bytes))
