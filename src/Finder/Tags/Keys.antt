-- ===== src/Finder/Tags/Keys.antt =====
-- The key of a tag's time in the cache stands for one tag of one repository.
use mathlib.Core.List.{append_cancel_right}
use zbplan.Finder.{Tag}
use zbplan.Finder.Tags.{Remote, resolve_created_at, created_key}
use zbplan.Prelude.{
  ℕ, true, false, ◌||◌, [], ◌∷◌, ◌++◌, Bytes, codes, ==_iff, ◌≡◌, refl, sym, ap, ◌∙◌, ok, arith,
}
use zbplan.Strings.{contains_byte}

contains_byte-append :
    (c : ℕ) (s u : Bytes) → contains_byte c (s ++ u) ≡ (contains_byte c s || contains_byte c u)
unfolding contains_byte
contains_byte-append c [] u = refl
contains_byte-append c (x ∷ s) u = ground (arith, contains_byte-append c s u)

contains_byte-middle : (c : ℕ) (s u : Bytes) → contains_byte c (s ++ c ∷ u) ≡ true
unfolding contains_byte
contains_byte-middle c [] u = ground (arith, (==_iff c c).1 refl)
contains_byte-middle c (x ∷ s) u = ground (arith, contains_byte-middle c s u)

-- Two texts with a byte between a front and an end without it have the same parts.
cut_unique :
    (c : ℕ) (front front' end end' : Bytes)
    → contains_byte c end ≡ false
    → contains_byte c end' ≡ false
    → front ++ c ∷ end ≡ front' ++ c ∷ end'
    → (front ≡ front') × (end ≡ end')
cut_unique c [] [] end end' h h' e = (refl, cc)
cut_unique c [] (x ∷ front') end end' h h' e =
    let k : end ≡ front' ++ c ∷ end' = cc in
    absurd (cc (sym h ∙ ap (contains_byte c) k ∙ contains_byte-middle c front' end'))
cut_unique c (x ∷ front) [] end end' h h' e =
    let k : front ++ c ∷ end ≡ end' = cc in
    absurd (cc (sym h' ∙ ap (contains_byte c) (sym k) ∙ contains_byte-middle c front end))
cut_unique c (x ∷ front) (x' ∷ front') end end' h h' e =
    let k : front ++ c ∷ end ≡ front' ++ c ∷ end' = cc in
    let same : x ≡ x' = cc in
    let (f, g) = cut_unique c front front' end end' h h' k in
    (ap (λ y. y ∷ front) same ∙ ap (◌∷◌ x') f, g)

abbrev pub HasNoColon : Bytes → Type 0
HasNoColon s = contains_byte b':' s ≡ false

-- What follows a tag in the key of its time.
abbrev pub on_platform : Bytes → Bytes → Bytes
on_platform os arch = codes "@" ++ (os ++ (codes "/" ++ arch))

pub created_key_unique :
    (repo repo' tag tag' os arch : Bytes)
    → HasNoColon (on_platform os arch)
    → HasNoColon tag
    → HasNoColon tag'
    → created_key repo tag os arch ≡ created_key repo' tag' os arch
    → (repo ≡ repo') × (tag ≡ tag')
unfolding created_key
created_key_unique repo repo' tag tag' os arch p h h' e =
    let (r, k) =
      cut_unique b':' repo repo' (tag ++ on_platform os arch) (tag' ++ on_platform os arch)
        (ground (arith, contains_byte-append b':' tag (on_platform os arch)))
        (ground (arith, contains_byte-append b':' tag' (on_platform os arch))) e in
    (r, append_cancel_right tag tag' (on_platform os arch) k)

module _ (remote : Remote) (os arch : Bytes) where
  unfoldable pub IsDated : Bytes → Tag → Type 0
  IsDated repo t = resolve_created_at remote repo t.name os arch ≡ ok t.created_at

  -- The time that a key stands for.
  unfoldable pub IsTimed : Bytes → ℕ → Type 0
  IsTimed key time =
      (repo tag : Bytes)
      → key ≡ created_key repo tag os arch
      → HasNoColon tag
      → resolve_created_at remote repo tag os arch ≡ ok time
