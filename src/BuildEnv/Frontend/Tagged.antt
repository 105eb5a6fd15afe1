-- ===== src/BuildEnv/Frontend/Tagged.antt =====
-- Which versions of the Dockerfile frontend count as old.
use zbplan.BuildEnv.Frontend.{
  digits_value, bounded_digits, is_below_ten, is_old_tag, is_old_reference, old_standard_frontend,
}
use mathlib.Core.List.{foldl}
use zbplan.Prelude.{
  All, IsDigit, decimal-IsDigit, decimal-ne-nil, value-decimal, ◌⊎◌, ℕ, ◌+◌, ◌*◌, ◌-◌, ◌^◌, ◌<◌,
  ◌≡◌, ◌≢◌, refl, ap, ◌∙◌, true, false, Option, none, some, [], ◌∷◌, ◌++◌, Bytes, codes, beq,
  decimal, ltb, ◌==◌, inl, inr, arith,
}
use zbplan.Registry.{all_digits, cut}
use zbplan.Strings.{cut_prefix, trim_prefix, contains_byte, has_prefix}
use zbplan.Strings.Split.{split, push_front}

-- A byte that is no digit.
abbrev IsOther : ℕ → Type 0
IsOther c = (c < 48) ⊎ (57 < c)

cut-digits : (c : ℕ) (s : Bytes) → All IsDigit s → IsOther c → cut c s ≡ (s, none)
unfolding cut
cut-digits c [] h o = refl
cut-digits c (x ∷ s) (d, h) o =
    let e : (x == c) ≡ false = ground arith in rw (e, cut-digits c s h o) refl

split-digits : (c : ℕ) (s : Bytes) → All IsDigit s → IsOther c → split c s ≡ s ∷ []
unfolding split push_front
split-digits c [] h o = refl
split-digits c (x ∷ s) (d, h) o =
    let e : (x == c) ≡ false = ground arith in rw (e, split-digits c s h o) refl

contains_byte-digits : (c : ℕ) (s : Bytes) → All IsDigit s → IsOther c → contains_byte c s ≡ false
unfolding contains_byte
contains_byte-digits c [] h o = refl
contains_byte-digits c (x ∷ s) (d, h) o =
    let e : (x == c) ≡ false = ground arith in rw (e, contains_byte-digits c s h o) refl

all_digits-digits : (s : Bytes) → All IsDigit s → all_digits s ≡ true
unfolding all_digits
all_digits-digits [] h = refl
all_digits-digits (c ∷ s) (d, h) = ground (arith, all_digits-digits s h)

digits_value-foldl : (n : ℕ) (s : Bytes) → digits_value n s ≡ foldl (λ k c. k * 10 + (c - 48)) n s
unfolding digits_value
digits_value-foldl n [] = refl
digits_value-foldl n (c ∷ s) = digits_value-foldl (n * 10 + (c - 48)) s

bounded_digits-some :
    (bound : ℕ) (s : Bytes) (n : ℕ)
    → s ≢ []
    → All IsDigit s
    → digits_value 0 s ≡ n
    → n < bound
    → bounded_digits bound s ≡ some n
unfolding bounded_digits
bounded_digits-some bound [] n nonempty h e small = absurd (nonempty refl)
bounded_digits-some bound (c ∷ s) n nonempty h e small =
    let b : ltb (digits_value 0 (c ∷ s)) bound ≡ true = rw e (ground arith) in
    rw (all_digits-digits (c ∷ s) h, b) (ap some e)

is_below_ten-digits :
    (s : Bytes) (n : ℕ)
    → s ≢ []
    → All IsDigit s
    → digits_value 0 s ≡ n
    → n < 2 ^ 63
    → is_below_ten s ≡ ltb n 10
unfolding is_below_ten
is_below_ten-digits [] n nonempty h e small = absurd (nonempty refl)
is_below_ten-digits (c ∷ s) n nonempty h e small =
    let minus : (c == b'-') ≡ false = ground arith in
    let plus : (c == b'+') ≡ false = ground arith in
    rw (minus, plus, bounded_digits-some (2 ^ 63) (c ∷ s) n nonempty h e small) refl

is_old_tag-minor :
    (n : ℕ)
    → n < 2 ^ 63
    → is_old_tag
        (cut b'@' (codes "1." ++ decimal n)).0
        (split b'.' (cut b'@' (codes "1." ++ decimal n)).0)
      ≡ ltb n 10
unfolding is_old_tag cut split push_front contains_byte beq
is_old_tag-minor n small =
    let d = decimal-IsDigit n in
    let v : digits_value 0 (decimal n) ≡ n = digits_value-foldl 0 (decimal n) ∙ value-decimal n in
    rw
      (
        cut-digits b'@' (decimal n) d (inr (omega arith)),
        split-digits b'.' (decimal n) d (inl (omega arith)),
        is_below_ten-digits (decimal n) n (decimal-ne-nil n) d v small,
        contains_byte-digits b'-' (decimal n) d (inl (omega arith)),
      )
      (ground arith)

-- The standard frontend of version 1.n is old exactly if n is below ten: for a reference without a
-- registry, a digest or a suffix.
pub old_standard_frontend_minor :
    (detect_syntax : Bytes → Option Bytes) (dockerfile : Bytes) (n : ℕ)
    → n < 2 ^ 63
    → detect_syntax dockerfile ≡ some (codes "docker/dockerfile:1." ++ decimal n)
    → old_standard_frontend detect_syntax dockerfile ≡ ltb n 10
unfolding old_standard_frontend is_old_reference cut_prefix trim_prefix has_prefix
old_standard_frontend_minor detect_syntax dockerfile n small e =
    rw (e, old_standard_frontend) (is_old_tag-minor n small)
