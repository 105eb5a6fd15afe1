-- ===== src/Strings/Split.antt =====
-- `strings.Split` at one byte, and `strings.Join` with one byte: each undoes the other.
use zbplan.Prelude.{
  ℕ, Bool, true, false, ◌||◌, List, [], ◌∷◌, ◌++◌, ◌≡◌, refl, sym, ap, ◌∙◌, arith, Bytes, ◌==◌,
  if◌then◌else◌, Bool-cases, inl, inr, ==_iff, append_assoc,
}

-- A byte in front of the first part.
unfoldable pub push_front : ℕ → List Bytes → List Bytes
push_front c [] = (c ∷ []) ∷ []
push_front c (part ∷ parts) = (c ∷ part) ∷ parts

unfoldable pub split : ℕ → Bytes → List Bytes
split c [] = [] ∷ []
split c (x ∷ s) = let parts = split c s in if x == c then [] ∷ parts else push_front x parts

unfoldable pub join : ℕ → List Bytes → Bytes
join c [] = []
join c (part ∷ []) = part
join c (part ∷ part' ∷ parts) = part ++ c ∷ join c (part' ∷ parts)

-- The parts after the first, each behind a separator.
tails : ℕ → List Bytes → Bytes
tails c [] = []
tails c (part ∷ parts) = c ∷ (part ++ tails c parts)

join-tails :
    (c : ℕ) (part : Bytes) (parts : List Bytes) → join c (part ∷ parts) ≡ part ++ tails c parts
unfolding join tails
join-tails c part [] = sym (zbplan.Prelude.append-nil part)
join-tails c part (part' ∷ parts) = ap (λ s. part ++ c ∷ s) (join-tails c part' parts)

-- `split` never gives the empty list.
pub split-cons : (c : ℕ) (s : Bytes) → (p : Bytes) × (ps : List Bytes) × (split c s ≡ p ∷ ps)
unfolding split push_front
split-cons c [] = ([], [], refl)
split-cons c (x ∷ s) = elim (Bool-cases (x == c)) [
  | inl same ↦ rw same ([], split c s, refl)
  | inr other ↦ let (p, ps, e) = split-cons c s in rw (other, e, push_front) (x ∷ p, ps, refl)
]

pub join-split : (c : ℕ) (s : Bytes) → join c (split c s) ≡ s
unfolding split push_front tails
join-split c [] = unfold join in refl
join-split c (x ∷ s) =
    let (p, ps, e) = split-cons c s in
    let ih : p ++ tails c ps ≡ s = sym (join-tails c p ps) ∙ ap (join c) (sym e) ∙ join-split c s in
    elim (Bool-cases (x == c)) [
      | inl same ↦
          rw (same, e)
            (join-tails c [] (p ∷ ps) ∙ ap (◌∷◌ c) ih ∙ ap (λ k. k ∷ s) (sym ((==_iff x c).0 same)))
      | inr other ↦ rw (other, e, push_front) (join-tails c (x ∷ p) ps ∙ ap (◌∷◌ x) ih)
    ]
