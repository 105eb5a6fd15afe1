-- ===== src/Context/Opened.antt =====
-- What `Open` hands out of a build context is not excluded, and stands in no excluded directory.
use zbplan.Context.{Exclude, excluded_above, filtered_open}
use zbplan.Paths.{clean, dir}
use zbplan.Paths.Shorter.{length-dir}
use zbplan.Prelude.{
  ℕ, zero, suc, ◌≤◌, ◌≡◌, true, false, [], ◌∷◌, Bytes, beq, length, arith, Bool-cases, inl, inr,
  Result, ok,
}
use zbplan.Workspace.Hidden.{IsAbove, itself, further, IsAbove-top}

excluded_above_complete :
    (exclude : Exclude) (fuel : ℕ) (p q : Bytes)
    → length p ≤ fuel
    → IsAbove p q
    → excluded_above exclude fuel p ≡ false
    → exclude q true ≡ false
unfolding excluded_above beq
excluded_above_complete exclude zero [] q enough a h = absurd (cc (IsAbove-top [] q a))
excluded_above_complete exclude zero (c ∷ p) q enough a h = absurd (omega arith)
excluded_above_complete exclude (suc fuel) p q enough (itself e) h = ground arith
excluded_above_complete exclude (suc fuel) p q enough (further e a) h = elim (length-dir p e) [
  | inl shorter ↦ excluded_above_complete exclude fuel (dir p) q (omega arith) a (ground arith)
  | inr top ↦ absurd (cc (IsAbove-top (dir p) q a, top))
]

-- Where a path is opened through the filter, its cleaned form is not excluded, none of the directories
-- above it is excluded, and the file is the one that the file system below opens.
pub filtered_open_ok {ℓ} :
    {File : Type ℓ} (exclude : Exclude) (open_file : Bytes → Result Bytes File) (p : Bytes)
    (file : File)
    → filtered_open exclude open_file p ≡ ok file
    → (exclude (clean p) false ≡ false)
      × ((q : Bytes) → IsAbove (dir (clean p)) q → exclude q true ≡ false)
      × (open_file p ≡ ok file)
unfolding filtered_open
filtered_open_ok exclude open_file p file h = elim (Bool-cases (exclude (clean p) false)) [
  | inl gone ↦ absurd (cc (rw (gone, filtered_open) at h))
  | inr shown ↦
      elim (Bool-cases (excluded_above exclude (length (dir (clean p))) (dir (clean p)))) [
        | inl inside ↦ absurd (cc (rw (shown, inside, filtered_open) at h))
        | inr free ↦ (
          shown,
          λ q a.
              excluded_above_complete exclude (length (dir (clean p))) (dir (clean p)) q
                (omega arith) a free,
          rw (shown, free, filtered_open) at h,
        )
      ]
]
