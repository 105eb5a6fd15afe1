-- ===== src/Paths/Shorter.antt =====
-- `path.Dir` goes up: what it returns is shorter, or is where a walk up ends.
use mathlib.Core.List.{foldl, reverse_aux, foldl-append}
use zbplan.Prelude.{
  ℕ, suc, ◌+◌, ◌-◌, ◌≤◌, ◌<◌, ◌≡◌, refl, sym, ap, ◌∙◌, ◌⊎◌, inl, inr, Bool, true, false, ◌||◌,
  Option, none, some, List, [], ◌∷◌, ◌++◌, Bytes, codes, beq, beq_iff, length, ◌==◌, if◌then◌else◌,
  arith, Bool-cases, ==_iff, length-append,
}
use mathlib.Core.Path.{subst}
use zbplan.Paths.{
  slash, up, clean_up, clean_step, clean_parts, is_abs, clean_text, clean, split_last, dir,
}
use zbplan.Strings.{has_prefix}
use zbplan.Strings.Split.{split, split-cons, join, push_front}

-- The bytes of the parts, with a separator for each.
weight : List Bytes → ℕ
weight [] = 0
weight (part ∷ parts) = suc (length part) + weight parts

weight-split : (s : Bytes) → weight (split slash s) ≡ suc (length s)
unfolding split push_front weight
weight-split [] = refl
weight-split (c ∷ s) = elim (Bool-cases (c == slash)) [
  | inl same ↦ rw same (omega (arith, weight-split s))
  | inr other ↦
      let (p, ps, e) = split-cons slash s in
      let ih : weight (p ∷ ps) ≡ suc (length s) = ap weight (sym e) ∙ weight-split s in
      rw (other, e, push_front) (omega (arith, ih))
]

split-snoc : (s : Bytes) → split slash (s ++ slash ∷ []) ≡ split slash s ++ [] ∷ []
unfolding split push_front
split-snoc [] = refl
split-snoc (c ∷ s) = elim (Bool-cases (c == slash)) [
  | inl same ↦ rw same (ap (◌∷◌ []) (split-snoc s))
  | inr other ↦ let (p, ps, e) = split-cons slash s in rw (other, split-snoc s, e, push_front) refl
]

length-join : (parts : List Bytes) → length (join slash parts) ≤ weight parts - 1
unfolding join weight
length-join [] = omega arith
length-join (part ∷ []) = omega arith
length-join (part ∷ part' ∷ parts) =
    rw (length-append part (slash ∷ join slash (part' ∷ parts)))
      (omega (arith, length-join (part' ∷ parts)))

weight-clean_step :
    (rooted : Bool) (stack : List Bytes) (part : Bytes)
    → weight (clean_step rooted stack part) ≤ weight stack + suc (length part)
unfolding clean_step clean_up weight
weight-clean_step rooted stack part = elim (Bool-cases (beq part up)) [
  | inl same ↦
      let e : part ≡ up = (beq_iff part up).0 same in
      let m : suc (length part) ≡ 3 = ap (λ (p : Bytes). suc (length p)) e in
      rw (m, same) (go stack)
  | inr other ↦ rw other (ground arith)
]
  where
    go :
        (stack : List Bytes)
        → weight (if beq part [] || beq part (codes ".") then stack else clean_up rooted stack)
          ≤ weight stack + 3
    go [] = ground arith
    go (top ∷ stack) = ground arith

weight-foldl :
    (rooted : Bool) (stack parts : List Bytes)
    → weight (foldl (clean_step rooted) stack parts) ≤ weight stack + weight parts
unfolding weight
weight-foldl rooted stack [] = omega arith
weight-foldl rooted stack (part ∷ parts) = omega (
  arith,
  weight-clean_step rooted stack part,
  weight-foldl rooted (clean_step rooted stack part) parts,
)

weight-reverse_aux : (xs r : List Bytes) → weight (reverse_aux xs r) ≡ weight xs + weight r
unfolding weight
weight-reverse_aux [] r = omega arith
weight-reverse_aux (x ∷ xs) r = omega (arith, weight-reverse_aux xs (x ∷ r))

-- A slash at the end counts for nothing.
weight-clean_parts :
    (rooted : Bool) (parts : List Bytes)
    → weight (clean_parts rooted (parts ++ [] ∷ [])) ≤ weight parts
unfolding clean_parts clean_step weight beq
weight-clean_parts rooted parts = rw (foldl-append (clean_step rooted) [] parts ([] ∷ [])) (
    omega (
      arith,
      weight-reverse_aux (foldl (clean_step rooted) [] parts) [],
      weight-foldl rooted [] parts,
    ))

-- Where a walk up ends.
abbrev pub is_top : Bytes → Bool
is_top path = beq path (codes ".") || (beq path (codes "/") || beq path [])

clean_text-top :
    (rooted : Bool) (body : Bytes) (n : ℕ)
    → (rooted ≡ false → length body ≤ n)
    → (rooted ≡ true → (suc (length body) ≤ n) ⊎ (body ≡ []))
    → (length (clean_text rooted body) ≤ n) ⊎ (is_top (clean_text rooted body) ≡ true)
unfolding clean_text beq
clean_text-top true body n h k = elim (k refl) [
  | inl short ↦ inl short
  | inr none_left ↦ inr (rw none_left refl)
]
clean_text-top false [] n h k = inr refl
clean_text-top false (c ∷ body) n h k = inl (h refl)

-- The parts of the text up to a slash.
body-top :
    (rooted : Bool) (path : Bytes)
    → length (join slash (clean_parts rooted (split slash (path ++ slash ∷ [])))) ≤ length path
body-top rooted path = rw (split-snoc path) (
    omega (
      arith,
      length-join (clean_parts rooted (split slash path ++ [] ∷ [])),
      weight-clean_parts rooted (split slash path),
      weight-split path,
    ))

clean-top_rooted :
    (path : Bytes) → length (clean (slash ∷ (path ++ slash ∷ []))) ≤ suc (length path)
unfolding clean is_abs has_prefix clean_text split clean_parts clean_step beq
clean-top_rooted path =
    let h : length (join slash (clean_parts true ([] ∷ split slash (path ++ slash ∷ []))))
        ≤ length path =
      body-top true path in
    omega (arith, h)

-- The text up to a slash, cleaned with that slash, is not longer than without it, unless it is a top.
clean-top :
    (path : Bytes)
    → (length (clean (path ++ slash ∷ [])) ≤ length path)
      ⊎ (is_top (clean (path ++ slash ∷ [])) ≡ true)
unfolding clean is_abs has_prefix
clean-top [] = inr (unfold clean_text join split clean_parts clean_step beq in refl)
clean-top (c ∷ path) = elim (Bool-cases (c == slash)) [
  | inl same ↦
      subst
        (λ d.
          (length (clean (d ∷ (path ++ slash ∷ []))) ≤ suc (length path))
          ⊎ (is_top (clean (d ∷ (path ++ slash ∷ []))) ≡ true))
        (sym ((==_iff c slash).0 same)) (inl (clean-top_rooted path))
  | inr other ↦
      let e : is_abs (c ∷ (path ++ slash ∷ [])) ≡ false = ground arith in
      rw e (
        clean_text-top false _ (suc (length path)) (λ z. body-top false (c ∷ path))
          (λ z. absurd (cc)))
]

length-split_last : (s d : Bytes) → (split_last s).0 ≡ some d → length d < length s
unfolding split_last
length-split_last [] d h = absurd (cc)
length-split_last (c ∷ s) d h = go (split_last s).0 refl (length-split_last s)
  where
    go :
        (m : Option Bytes)
        → (split_last s).0 ≡ m
        → ((d' : Bytes) → (split_last s).0 ≡ some d' → length d' < length s)
        → length d < suc (length s)
    go (some d') e ih = ground (arith, ih d' e)
    go none e ih = ground arith

-- The directory of a path is shorter than the path, or is where a walk up ends.
pub length-dir :
    (path : Bytes)
    → is_top path ≡ false
    → (length (dir path) < length path) ⊎ (is_top (dir path) ≡ true)
unfolding dir clean_step
length-dir path h = go (split_last path).0 refl
  where
    go :
        (m : Option Bytes)
        → (split_last path).0 ≡ m
        → (length (dir path) < length path) ⊎ (is_top (dir path) ≡ true)
    go none e =
        inr (
          rw (e, dir)
            (unfold clean is_abs has_prefix clean_text join split clean_parts beq in refl))
    go (some d) e =
        rw (e, dir)
          (elim (clean-top d) [
            | inl short ↦ inl (omega (arith, length-split_last path d e))
            | inr top ↦ inr top
          ])
