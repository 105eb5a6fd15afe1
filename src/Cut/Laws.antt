-- ===== src/Cut/Laws.antt =====
-- The cuts are on rune boundaries, within the bound, and as wide as the bound allows.
use zbplan.Prelude.{
  ℕ, zero, suc, ◌+◌, ◌-◌, ◌≤◌, ◌<◌, ◌≡◌, refl, ◌⊎◌, inl, inr, true, false, [], ◌∷◌, arith, Bytes,
  length, take, drop, length-take, length-drop, take_of_length-le, drop_of_length-le, sym,
  get_elem?-drop, get_elem?_at_end, Bool-cases,
}
use zbplan.Utf8.{rune_start, rune_start_at}
use zbplan.Cut.{
  back_to_rune, leading_continuations, forward_to_rune, bounded_prefix, bounded_suffix,
  safe_text_prefix,
}

-- A cut before byte `i` splits no rune: it is at an end of the text or before a rune's first byte.
abbrev pub IsBoundary : Bytes → ℕ → Type 0
IsBoundary v i = (i ≡ 0) ⊎ (rune_start_at v i ≡ true)

-- The greatest boundary up to `n`.
pub record IsLastBoundary (v : Bytes) (n e : ℕ) : Type 0 where
  pub below : e ≤ n
  pub boundary : IsBoundary v e
  pub greatest : (i : ℕ) → i ≤ n → IsBoundary v i → i ≤ e

-- The least boundary from `n` on.
pub record IsNextBoundary (v : Bytes) (n e : ℕ) : Type 0 where
  pub above : n ≤ e
  pub boundary : rune_start_at v e ≡ true
  pub least : (i : ℕ) → n ≤ i → rune_start_at v i ≡ true → e ≤ i

le_or_top : (i n : ℕ) → i ≤ suc n → (i ≤ n) ⊎ (i ≡ suc n)
le_or_top i n h = grind arith

IsBoundary-shrink :
    (v : Bytes) (n i : ℕ) → rune_start_at v (suc n) ≡ false → i ≤ suc n → IsBoundary v i → i ≤ n
IsBoundary-shrink v n i inside h b = elim (le_or_top i n h) [
  | inl below ↦ below
  | inr top ↦ elim b [ inl z ↦ absurd (omega arith) | inr t ↦ cc ]
]

pub back_to_rune-IsLastBoundary : (v : Bytes) (n : ℕ) → IsLastBoundary v n (back_to_rune v n)
unfolding back_to_rune
back_to_rune-IsLastBoundary v zero = record {
  below = omega arith;
  boundary = inl refl;
  greatest = λ i h b. h;
}
back_to_rune-IsLastBoundary v (suc n) = elim (Bool-cases (rune_start_at v (suc n))) [
  | inl start ↦
      rw start (record { below = omega arith; boundary = inr start; greatest = λ i h b. h })
  | inr inside ↦
      let ih = back_to_rune-IsLastBoundary v n in
      rw inside (record {
        below = omega arith;
        boundary = ih.boundary;
        greatest = λ i h b. ih.greatest i (IsBoundary-shrink v n i inside h b) b;
      })
]

leading-IsNextBoundary : (s : Bytes) → IsNextBoundary s 0 (leading_continuations s)
unfolding leading_continuations rune_start_at
leading-IsNextBoundary [] = record {
  above = omega arith;
  boundary = refl;
  least = λ i h b. omega arith;
}
leading-IsNextBoundary (c ∷ s) = elim (Bool-cases (rune_start c)) [
  | inl start ↦
      rw start (record { above = omega arith; boundary = start; least = λ i h b. omega arith })
  | inr inside ↦
      let ih = leading-IsNextBoundary s in
      rw inside (record {
        above = omega arith;
        boundary = ih.boundary;
        least = elim [
          | zero ↦ λ h b. absurd (cc)
          | suc i ↦ λ h b. omega (arith, ih.least i (omega arith) b)
        ];
      })
]

rune_start_at-drop : (v : Bytes) (n i : ℕ) → rune_start_at (drop n v) i ≡ rune_start_at v (n + i)
unfolding rune_start_at
rune_start_at-drop v n i = rw (get_elem?-drop n i v, rune_start_at) refl

pub forward_to_rune-IsNextBoundary : (v : Bytes) (n : ℕ) → IsNextBoundary v n (forward_to_rune v n)
unfolding forward_to_rune
forward_to_rune-IsNextBoundary v n =
    let s = leading-IsNextBoundary (drop n v) in
    record {
      above = omega arith;
      boundary = rw (← rune_start_at-drop v n (leading_continuations (drop n v))) s.boundary;
      least = λ i h b.
          let e : n + (i - n) ≡ i = omega arith in
          let rest : rune_start_at (drop n v) (i - n) ≡ true = rw (rune_start_at-drop, e) b in
          omega (arith, s.least (i - n) (omega arith) rest);
    }

pub rune_start_at_end : (v : Bytes) → rune_start_at v (length v) ≡ true
unfolding rune_start_at
rune_start_at_end v = rw (get_elem?_at_end v, rune_start_at) refl

leading-le : (s : Bytes) → leading_continuations s ≤ length s
unfolding leading_continuations
leading-le [] = omega arith
leading-le (c ∷ s) = ground (arith, leading-le s)

pub forward_to_rune-le : (v : Bytes) (n : ℕ) → n ≤ length v → forward_to_rune v n ≤ length v
unfolding forward_to_rune
forward_to_rune-le v n h = omega (arith, leading-le (drop n v), length-drop n v)

-- A text within the bound is kept whole. A longer one is cut at the greatest rune boundary up to
-- the bound: no rune is split, and no rune more would fit.
pub bounded_prefix-IsLastBoundary :
    (v : Bytes) (n : ℕ)
    → (length v ≤ n → bounded_prefix v n ≡ v)
      × (n < length v → (e : ℕ) × (bounded_prefix v n ≡ take e v) × IsLastBoundary v n e)
unfolding bounded_prefix back_to_rune
bounded_prefix-IsLastBoundary v zero =
    (λ h. take_of_length-le 0 v h, λ h. (0, refl, back_to_rune-IsLastBoundary v 0))
bounded_prefix-IsLastBoundary v (suc n) = (
  λ h. ground arith,
  λ h. (back_to_rune v (suc n), ground arith, back_to_rune-IsLastBoundary v (suc n)),
)

-- A text within the bound is kept whole. A longer one loses its front up to the least rune boundary
-- that leaves at most `n` bytes.
pub bounded_suffix-IsNextBoundary :
    (v : Bytes) (n : ℕ)
    → (length v ≤ n → bounded_suffix v n ≡ v)
      × (n < length v
          → (s : ℕ) × (bounded_suffix v n ≡ drop s v) × IsNextBoundary v (length v - n) s)
unfolding bounded_suffix
bounded_suffix-IsNextBoundary v zero = (
  λ h. take_of_length-le 0 v h,
  λ h. (length v, sym (drop_of_length-le (length v) v (omega arith)), end),
)
  where
    end : IsNextBoundary v (length v - 0) (length v)
    end = record {
      above = omega arith;
      boundary = rune_start_at_end v;
      least = λ i h b. omega arith;
    }
bounded_suffix-IsNextBoundary v (suc n) = (
  λ h. ground arith,
  λ h. (
    forward_to_rune v (length v - suc n),
    ground arith,
    forward_to_rune-IsNextBoundary v (length v - suc n),
  ),
)

-- The two copies of the prefix cut, in the packages plantools and zbplan, agree.
pub safe_text_prefix-eq-bounded_prefix :
    (v : Bytes) (n : ℕ) → safe_text_prefix v n ≡ bounded_prefix v n
unfolding safe_text_prefix bounded_prefix back_to_rune
safe_text_prefix-eq-bounded_prefix [] zero = refl
safe_text_prefix-eq-bounded_prefix (c ∷ v) zero = ground arith
safe_text_prefix-eq-bounded_prefix v (suc n) = ground arith

pub length-bounded_prefix : (v : Bytes) (n : ℕ) → length (bounded_prefix v n) ≤ n
unfolding bounded_prefix
length-bounded_prefix v n =
    ground (arith, length-take (back_to_rune v n) v, (back_to_rune-IsLastBoundary v n).below)

pub length-bounded_suffix : (v : Bytes) (n : ℕ) → length (bounded_suffix v n) ≤ n
unfolding bounded_suffix
length-bounded_suffix v n = ground (
  arith,
  length-drop (forward_to_rune v (length v - n)) v,
  (forward_to_rune-IsNextBoundary v (length v - n)).above,
)
