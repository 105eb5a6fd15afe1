-- ===== src/BuildEnv/Frontend.antt =====
-- pkg/buildenv/buildenv.go: which frontend a prepared build asks for. BuildKit's `DetectSyntax` is a
-- parameter: the reference of the syntax directive, where there is one.
pub mod Tagged
use zbplan.Prelude.{
  ℕ, zero, suc, ◌+◌, ◌*◌, ◌-◌, ◌^◌, Bool, true, false, not, ◌&&◌, ◌||◌, Option, none, some, List,
  [], ◌∷◌, ◌++◌, Bytes, codes, beq, ltb, leb, ◌==◌, if◌then◌else◌, ℤ, pos, negsuc,
}
use zbplan.Registry.{all_digits, cut}
use zbplan.Strings.{cut_prefix, trim_prefix, contains_byte}
use zbplan.Strings.Split.{split}

-- The fields of `Prepared` that the attributes are made from.
pub record Prepared : Type 0 where
  pub build_args : Bytes → Option Bytes
  pub use_bundled_frontend : Bool

-- `FrontendAttrs`, by the lookup of a key.
unfoldable pub frontend_attrs : Prepared → Bytes → Option Bytes
frontend_attrs p key =
    if beq key (codes "cmdline") && p.use_bundled_frontend
    then some (codes "dockerfile.v0")
    else elim (cut_prefix key (codes "build-arg:")) [
      | some name ↦ p.build_args name
      | none ↦ if beq key (codes "filename") then some (codes "Dockerfile") else none
    ]

-- The value of digits, `n` being that of the digits before them.
unfoldable pub digits_value : ℕ → Bytes → ℕ
digits_value n [] = n
digits_value n (c ∷ s) = digits_value (n * 10 + (c - 48)) s

-- The number of digits that are not empty, below a bound.
unfoldable pub bounded_digits : ℕ → Bytes → Option ℕ
bounded_digits bound [] = none
bounded_digits bound (c ∷ s) =
    if all_digits (c ∷ s) && ltb (digits_value 0 (c ∷ s)) bound
    then some (digits_value 0 (c ∷ s))
    else none

-- `strconv.Atoi(s)` is without error and below 10. A negative number is written with a dash.
unfoldable pub is_below_ten : Bytes → Bool
is_below_ten [] = false
is_below_ten (c ∷ s) =
    if c == b'-'
    then elim (bounded_digits (2 ^ 63 + 1) s) [ none ↦ false | some n ↦ true ]
    else elim (bounded_digits (2 ^ 63) (if c == b'+' then s else c ∷ s)) [
      | none ↦ false
      | some n ↦ ltb n 10
    ]

unfoldable pub is_old_tag : Bytes → List Bytes → Bool
is_old_tag tag [] = false
is_old_tag tag (major ∷ []) = false
is_old_tag tag (major ∷ minor ∷ rest) =
    beq major (codes "1") && (is_below_ten minor && not (contains_byte b'-' tag))

unfoldable pub is_old_reference : Bytes → Bool
is_old_reference ref =
    elim (cut_prefix (trim_prefix (trim_prefix ref (codes "docker.io/")) (codes "index.docker.io/"))
      (codes "docker/dockerfile:")) [
        | none ↦ false
        | some tag ↦ is_old_tag (cut b'@' tag).0 (split b'.' (cut b'@' tag).0)
      ]

unfoldable pub old_standard_frontend : (Bytes → Option Bytes) → Bytes → Bool
old_standard_frontend detect_syntax dockerfile = elim (detect_syntax dockerfile) [
  | none ↦ false
  | some ref ↦ is_old_reference ref
]
