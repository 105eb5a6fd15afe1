-- ===== src/Tests/Texts.antt =====
-- pkg/zbplan/prompt.go, internal/plantools/bounded_buffer.go and pkg/buildenv: bounded texts and
-- rewritten Dockerfile text.
use zbplan.Prelude.{
  ℕ, ◌+◌, ◌-◌, ◌/◌, ◌≤◌, ◌<◌, List, [], ◌∷◌, ◌++◌, Bytes, codes, length, take, last, leb, beq,
  if◌then◌else◌, ◌≡◌, refl, sym, inl, inr, Among, arith, true, false, Option, none, some,
}
use mathlib.Core.List.{flatten}
use zbplan.BuildEnv.{Expression, rewrite_references, materialize_expressions}
use zbplan.BuildEnv.Frontend.{old_standard_frontend}
use zbplan.BuildEnv.Frontend.Tagged.{old_standard_frontend_minor}
use zbplan.Prelude.{decimal, ltb}
use zbplan.BuildEnv.Quoting.{rewrite_references_single_quoted}
use zbplan.BuildEnv.Quotes.{outside}
use zbplan.BuildEnv.Rename.{Renames, rewrite_references-Renames}
use zbplan.BuildEnv.Words.{Materializes, materialize_expressions-Materializes}
use zbplan.Cut.{bounded_prefix}
use zbplan.Cut.Laws.{IsLastBoundary, bounded_prefix-IsLastBoundary}
use zbplan.Extract.{extract_dockerfile}
use zbplan.Extract.Fence.{no_fence, extract_dockerfile_fenced}
use zbplan.LogBuffer.{new_log_buffer, to_string, truncation_notice}
use zbplan.LogBuffer.Refine.{write_all, to_string-write_all}
use zbplan.Preview.{build_retry_prompt, max_dockerfile_prompt_bytes, max_build_log_prompt_bytes}
use zbplan.Preview.Laws.{length-build_retry_prompt}
use zbplan.Strings.{contains_byte}

abbrev writes : List Bytes
writes = codes "step 1\n" ∷ codes "step 2\n" ∷ codes "error" ∷ []

to_string-write_all_example : to_string (write_all (new_log_buffer 9) writes) ≡ (
    if leb (length (flatten writes)) 9
    then flatten writes
    else take (9 / 3) (flatten writes)
      ++ (truncation_notice (length (flatten writes)) ++ last (9 - 9 / 3) (flatten writes)))
to_string-write_all_example = to_string-write_all 9 writes

-- An `é` of two bytes between two letters.
abbrev accent : Bytes
accent = b'a' ∷ 0xC3 ∷ 0xA9 ∷ b'b' ∷ []

bounded_prefix-IsLastBoundary_example :
    (length accent ≤ 2 → bounded_prefix accent 2 ≡ accent)
    × (2 < length accent
        → (e : ℕ) × (bounded_prefix accent 2 ≡ take e accent) × IsLastBoundary accent 2 e)
bounded_prefix-IsLastBoundary_example = bounded_prefix-IsLastBoundary accent 2

length-build_retry_prompt_example :
    length (build_retry_prompt (codes "FROM scratch") (codes "error"))
    ≤ max_dockerfile_prompt_bytes + max_build_log_prompt_bytes + 170
length-build_retry_prompt_example = length-build_retry_prompt (codes "FROM scratch") (codes "error")

extract_dockerfile_fenced_example :
    extract_dockerfile
      (λ s. s)
      (codes "Here it is:\n"
        ++ (codes "```dockerfile\n" ++ (codes "FROM scratch\n" ++ (codes "```" ++ codes "\nDone"))))
    ≡ codes "FROM scratch\n"
unfolding no_fence
extract_dockerfile_fenced_example =
    extract_dockerfile_fenced (λ s. s) (codes "Here it is:\n") (codes "FROM scratch\n")
      (codes "\nDone") refl refl

abbrev home_binding : Bytes → Option Bytes
home_binding name = if beq name (codes "HOME") then some (codes "ZB_0") else none

rewrite_references-Renames_example :
    Renames home_binding b'\\' false outside
      (codes "a $HOME '$HOME'")
      (rewrite_references (codes "a $HOME '$HOME'") home_binding b'\\' false)
rewrite_references-Renames_example =
    rewrite_references-Renames (codes "a $HOME '$HOME'") home_binding b'\\' false

rewrite_references_single_quoted_example :
    rewrite_references (b'\'' ∷ (codes "$HOME" ++ b'\'' ∷ codes " $HOME")) home_binding b'\\' false
    ≡ b'\''
      ∷ (codes "$HOME" ++ b'\'' ∷ rewrite_references (codes " $HOME") home_binding b'\\' false)
unfolding contains_byte
rewrite_references_single_quoted_example =
    rewrite_references_single_quoted (codes "$HOME") (codes " $HOME") home_binding b'\\' refl
      (λ e. absurd (omega arith))

abbrev expressions : List Expression
expressions =
    record { source = codes "$A"; alias = codes "ZB_0"; unquoted = false }
    ∷ record { source = codes "$A/b"; alias = codes "ZB_1"; unquoted = true }
    ∷ []

expressions_nonempty : (e : Expression) → Among e expressions → 0 < length e.source
expressions_nonempty e (inl h) = rw (sym h) (omega arith)
expressions_nonempty e (inr (inl h)) = rw (sym h) (omega arith)
expressions_nonempty e (inr (inr h)) = absurd h

materialize_expressions-Materializes_example :
    Materializes expressions b'\\' outside none
      (codes "x=$A/b $A")
      (materialize_expressions (codes "x=$A/b $A") expressions b'\\')
materialize_expressions-Materializes_example =
    materialize_expressions-Materializes (codes "x=$A/b $A") expressions b'\\' expressions_nonempty

old_standard_frontend_minor_example :
    old_standard_frontend
      (λ dockerfile. some (codes "docker/dockerfile:1." ++ decimal 7))
      (codes "FROM scratch")
    ≡ ltb 7 10
old_standard_frontend_minor_example =
    old_standard_frontend_minor (λ dockerfile. some (codes "docker/dockerfile:1." ++ decimal 7))
      (codes "FROM scratch") 7 (omega arith) refl
