-- ===== src/Workspace/Hidden.antt =====
-- A path is hidden exactly if it is ignored, or if it or a directory above it is sensitive.
use zbplan.Paths.{dir}
use zbplan.Paths.Shorter.{is_top, length-dir}
use zbplan.Prelude.{
  ℕ, zero, suc, ◌≤◌, ◌≡◌, refl, ◌⊎◌, ◌↔◌, inl, inr, true, false, Option, [], ◌∷◌, Bytes, beq,
  length, arith, Bool-cases,
}
use zbplan.Workspace.{
  WorkspaceOps, is_sensitive, is_root, ignore_matcher, sensitive_above, hidden_matcher,
}

-- The second path is the first one, or is reached from it by going up; neither is a top.
pub data IsAbove : Bytes → Bytes → Type 0 where
  itself : {p : Bytes} → is_top p ≡ false → IsAbove p p
  further : {p q : Bytes} → is_top p ≡ false → IsAbove (dir p) q → IsAbove p q

pub IsAbove-top : (p q : Bytes) → IsAbove p q → is_top p ≡ false
IsAbove-top p q (itself e) = e
IsAbove-top p q (further e a) = e

module _ (ops : WorkspaceOps) where
  abbrev SensitiveAbove : Bytes → Type 0
  SensitiveAbove p = (q : Bytes) × IsAbove p q × (is_sensitive ops q ≡ true)

  sensitive_above_sound :
      (fuel : ℕ) (p : Bytes) → sensitive_above ops fuel p ≡ true → SensitiveAbove p
  unfolding sensitive_above
  sensitive_above_sound zero p h = absurd (cc)
  sensitive_above_sound (suc fuel) p h = elim (Bool-cases (is_top p)) [
    | inl top ↦ absurd (cc (rw (top, sensitive_above) at h))
    | inr inside ↦ elim (Bool-cases (is_sensitive ops p)) [
      | inl found ↦ (p, itself inside, found)
      | inr not_here ↦
          let (q, a, s) =
            sensitive_above_sound fuel (dir p) (rw (inside, not_here, sensitive_above) at h) in
          (q, further inside a, s)
    ]
  ]

  sensitive_above_complete :
      (fuel : ℕ) (p q : Bytes)
      → (length p ≤ fuel)
      → IsAbove p q
      → is_sensitive ops q ≡ true
      → sensitive_above ops fuel p ≡ true
  unfolding sensitive_above beq
  sensitive_above_complete zero [] q enough a s = absurd (cc (IsAbove-top [] q a))
  sensitive_above_complete zero (c ∷ p) q enough a s = absurd (omega arith)
  sensitive_above_complete (suc fuel) p q enough (itself e) s = rw (e, s) refl
  sensitive_above_complete (suc fuel) p q enough (further e a) s = elim (length-dir p e) [
    | inl shorter ↦
        let ih = sensitive_above_complete fuel (dir p) q (omega arith) a s in
        rw (e, ih) (ground arith)
    | inr top ↦ absurd (cc (IsAbove-top (dir p) q a, top))
  ]

  -- A path that is not the root is hidden exactly if the ignore rules match it, or if it or a directory
  -- above it is sensitive.
  pub hidden_matcher_iff :
      (file : Option Bytes) (p : Bytes)
      → is_root p ≡ false
      → (hidden_matcher ops file p ≡ true) ↔ (
          (ignore_matcher ops file p ≡ true)
          ⊎ ((q : Bytes) × IsAbove p q × (is_sensitive ops q ≡ true)))
  unfolding hidden_matcher
  hidden_matcher_iff file p e = elim (Bool-cases (ignore_matcher ops file p)) [
    | inl ignored ↦ (λ h. inl ignored, λ k. rw (e, ignored, hidden_matcher) refl)
    | inr shown ↦ (
      λ h. inr (sensitive_above_sound (length p) p (rw (e, shown, hidden_matcher) at h)),
      λ k. elim k [
        | inl ignored ↦ absurd (cc)
        | inr (q, a, s) ↦
            let found = sensitive_above_complete (length p) p q (omega arith) a s in
            rw (e, shown, found, hidden_matcher) refl
      ],
    )
  ]
