-- ===== src/Files/Directory/Sorted.antt =====
-- The order of names, in which `list` sorts.
use zbplan.Files.{DirEntry}
use zbplan.Files.Directory.{before, name_before}
use zbplan.Prelude.{
  ◌<◌, ◌≡◌, ◌⊎◌, refl, true, false, [], ◌∷◌, Bytes, ltb, ◌==◌, arith, Bool-cases, inl, inr, IsLess,
}

-- The first name does not stand behind the second in the order of their bytes.
unfoldable pub IsNotBehind : Bytes → Bytes → Type 0
IsNotBehind [] t = Unit
IsNotBehind (c ∷ s) [] = ⊥
IsNotBehind (c ∷ s) (d ∷ t) = (c < d) ⊎ ((c ≡ d) × IsNotBehind s t)

before-IsNotBehind : (s t : Bytes) → before t s ≡ false → IsNotBehind s t
unfolding before IsNotBehind
before-IsNotBehind [] t h = tt
before-IsNotBehind (c ∷ s) [] h = absurd (cc)
before-IsNotBehind (c ∷ s) (d ∷ t) h = elim (Bool-cases (ltb c d)) [
  | inl less ↦ inl (ground arith)
  | inr more ↦ inr (ground arith, before-IsNotBehind s t (ground arith))
]

before_asym : (s t : Bytes) → before s t ≡ true → before t s ≡ false
unfolding before
before_asym [] [] h = refl
before_asym [] (d ∷ t) h = refl
before_asym (c ∷ s) [] h = absurd (cc)
before_asym (c ∷ s) (d ∷ t) h = elim (Bool-cases (ltb c d)) [
  | inl less ↦ ground arith
  | inr more ↦ let i = before_asym s t (ground arith) in ground (arith, i)
]

before_trans : (x y z : Bytes) → before y x ≡ false → before z y ≡ false → before z x ≡ false
unfolding before
before_trans [] y [] h k = refl
before_trans [] y (e ∷ z) h k = refl
before_trans (c ∷ x) [] z h k = absurd (cc)
before_trans (c ∷ x) (d ∷ y) [] h k = absurd (cc)
before_trans (c ∷ x) (d ∷ y) (e ∷ z) h k = elim (Bool-cases (e == c)) [
  | inr other ↦ ground arith
  | inl same ↦ let i = before_trans x y z (ground arith) (ground arith) in ground (arith, i)
]

pub name_before-IsLess : IsLess name_before
unfolding name_before
name_before-IsLess = record {
  asym = λ e f h. before_asym e.name f.name h;
  trans = λ e f g h k. before_trans e.name f.name g.name h k;
}

pub name_before-IsNotBehind : (e f : DirEntry) → name_before f e ≡ false → IsNotBehind e.name f.name
unfolding name_before
name_before-IsNotBehind e f h = before-IsNotBehind e.name f.name h
