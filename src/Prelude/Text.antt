-- ===== src/Prelude/Text.antt =====
-- Go strings and byte slices: lists of byte values. Comparison, search and decimal print.
use Prim.Native.Nat.{ℕ, zero, suc, ◌+◌, ◌-◌, ◌*◌, ◌/◌, ◌%◌, ◌≤◌}
use Prim.Native.Char.{code}
use Prim.Native.String.{String}
use mathlib.Core.Path.{◌≡◌, refl, ap, sym, ◌∙◌}
use mathlib.Core.Logic.{◌↔◌, ◌≢◌, inl, inr}
use mathlib.Core.Bool.{Bool, true, false, ◌&&◌}
use mathlib.Core.List.{List, [], ◌∷◌, ◌++◌, foldl, foldl-append}
use native.Mathlib.Omega.{arith}
use zbplan.Prelude.Members.{All, All-snoc}
use zbplan.Prelude.Tests.{◌==◌, ltb, if◌then◌else◌, Bool-cases}

abbrev pub Bytes : Type 0
Bytes = List ℕ

-- The bytes of an ASCII literal.
abbrev pub codes : String → Bytes
codes String.[] = []
codes (String.◌∷◌ c s) = code c ∷ codes s

-- `==` on Go strings.
unfoldable pub beq : Bytes → Bytes → Bool
beq [] [] = true
beq (x ∷ xs) (y ∷ ys) = (x == y) && beq xs ys
beq _ _ = false

beq→eq : (s t : Bytes) → beq s t ≡ true → s ≡ t
unfolding beq
beq→eq [] [] h = refl
beq→eq (x ∷ xs) (y ∷ ys) h = ground (arith, beq→eq xs ys)
beq→eq [] (y ∷ ys) h = cc
beq→eq (x ∷ xs) [] h = cc

pub beq_refl : (s : Bytes) → beq s s ≡ true
unfolding beq
beq_refl [] = refl
beq_refl (x ∷ xs) = ground (arith, beq_refl xs)

pub beq_iff : (s t : Bytes) → (beq s t ≡ true) ↔ (s ≡ t)
beq_iff s t = (beq→eq s t, λ e. rw e (beq_refl t))

pub beq_comm : (s t : Bytes) → beq s t ≡ beq t s
unfolding beq
beq_comm [] [] = refl
beq_comm (x ∷ xs) (y ∷ ys) = ground (arith, beq_comm xs ys)
beq_comm [] (y ∷ ys) = refl
beq_comm (x ∷ xs) [] = refl

pub beq_ne : (s t : Bytes) → ¬ (s ≡ t) → beq s t ≡ false
beq_ne s t h = elim (Bool-cases (beq s t)) [
  | inl same ↦ absurd (h (beq→eq s t same))
  | inr other ↦ other
]

-- `fmt.Sprintf("%d", n)` at n ≥ 0. Fuel n suffices, since n / 10 < n for n ≥ 10.
decimal_fuel : ℕ → ℕ → Bytes
decimal_fuel zero n = (48 + n % 10) ∷ []
decimal_fuel (suc f) n =
    let rest = decimal_fuel f (n / 10) in
    if ltb n 10 then (48 + n % 10) ∷ [] else rest ++ (48 + n % 10) ∷ []

unfoldable pub decimal : ℕ → Bytes
unfolding decimal_fuel
decimal n = decimal_fuel n n

-- The number that decimal digits spell.
abbrev value : Bytes → ℕ
value = foldl (λ n c. n * 10 + (c - 48)) 0

value-decimal_fuel : (f n : ℕ) → n ≤ f → value (decimal_fuel f n) ≡ n
unfolding decimal_fuel
value-decimal_fuel zero n h = omega arith
value-decimal_fuel (suc f) n h = elim (Bool-cases (ltb n 10)) [
  | inl small ↦ rw small (ground arith)
  | inr big ↦ rw big (
      foldl-append _ 0 (decimal_fuel f (n / 10)) ((48 + n % 10) ∷ [])
      ∙ ground (arith, value-decimal_fuel f (n / 10)))
]

pub value-decimal : (n : ℕ) → value (decimal n) ≡ n
unfolding decimal
value-decimal n = value-decimal_fuel n n (omega arith)

pub decimal-injective : (m n : ℕ) → decimal m ≡ decimal n → m ≡ n
decimal-injective m n e = sym (value-decimal m) ∙ ap value e ∙ value-decimal n

-- A byte that is a decimal digit.
abbrev pub IsDigit : ℕ → Type 0
IsDigit c = (48 ≤ c) × (c ≤ 57)

decimal_fuel-IsDigit : (f n : ℕ) → All IsDigit (decimal_fuel f n)
unfolding decimal_fuel
decimal_fuel-IsDigit zero n = ((omega arith, omega arith), tt)
decimal_fuel-IsDigit (suc f) n = elim (Bool-cases (ltb n 10)) [
  | inl small ↦ rw small ((omega arith, omega arith), tt)
  | inr big ↦ rw big (
      All-snoc IsDigit (decimal_fuel f (n / 10)) (48 + n % 10) (decimal_fuel-IsDigit f (n / 10))
        (omega arith, omega arith))
]

-- Decimal text is made of digits.
pub decimal-IsDigit : (n : ℕ) → All IsDigit (decimal n)
unfolding decimal
decimal-IsDigit n = decimal_fuel-IsDigit n n

snoc-ne-nil : (s : Bytes) (c : ℕ) → s ++ c ∷ [] ≢ []
snoc-ne-nil [] c e = cc
snoc-ne-nil (d ∷ s) c e = cc

decimal_fuel-ne-nil : (f n : ℕ) → decimal_fuel f n ≢ []
unfolding decimal_fuel
decimal_fuel-ne-nil zero n e = cc
decimal_fuel-ne-nil (suc f) n e = elim (Bool-cases (ltb n 10)) [
  | inl small ↦ let z = rw small at e in cc
  | inr big ↦ snoc-ne-nil (decimal_fuel f (n / 10)) (48 + n % 10) (rw big at e)
]

pub decimal-ne-nil : (n : ℕ) → decimal n ≢ []
unfolding decimal
decimal-ne-nil n = decimal_fuel-ne-nil n n
