-- ===== src/Prelude/Members.antt =====
-- Membership and universal predicates on lists, by recursion.
use mathlib.Core.Path.{◌≡◌, refl, sym, ap, ◌∙◌}
use mathlib.Core.Logic.{◌⊎◌, inl, inr}
use mathlib.Core.List.{List, [], ◌∷◌, ◌++◌, map}

abbrev pub All {ℓ} : {A : Type ℓ} → (A → Type 0) → List A → Type 0
All P [] = Unit
All P (x ∷ xs) = P x × All P xs

-- An element stands in a list.
abbrev pub Among : {A : Type 0} → A → List A → Type 0
Among a [] = ⊥
Among a (x ∷ xs) = (x ≡ a) ⊎ Among a xs

module _ {A : Type 0} where
  pub All-append : (P : A → Type 0) (xs ys : List A) → All P xs → All P ys → All P (xs ++ ys)
  All-append P [] ys h k = k
  All-append P (x ∷ xs) ys (p, h) k = (p, All-append P xs ys h k)

  pub All-snoc : (P : A → Type 0) (xs : List A) (r : A) → All P xs → P r → All P (xs ++ r ∷ [])
  All-snoc P xs r h p = All-append P xs (r ∷ []) h (p, tt)

  pub All-map :
      {B : Type 0} (P : B → Type 0) (f : A → B) (xs : List A)
      → ((x : A) → P (f x))
      → All P (map f xs)
  All-map P f [] h = tt
  All-map P f (x ∷ xs) h = (h x, All-map P f xs h)

  pub All-imp : (P Q : A → Type 0) (xs : List A) → ((x : A) → P x → Q x) → All P xs → All Q xs
  All-imp P Q [] f h = tt
  All-imp P Q (x ∷ xs) f (p, h) = (f x p, All-imp P Q xs f h)

  pub All-Among : (P : A → Type 0) (xs : List A) (a : A) → All P xs → Among a xs → P a
  All-Among P [] a h m = absurd m
  All-Among P (x ∷ xs) a (p, h) (inl e) = mathlib.Core.Path.subst P e p
  All-Among P (x ∷ xs) a (p, h) (inr m) = All-Among P xs a h m

  pub Among-append_right : (r : A) (xs ys : List A) → Among r ys → Among r (xs ++ ys)
  Among-append_right r [] ys h = h
  Among-append_right r (x ∷ xs) ys h = inr (Among-append_right r xs ys h)

  pub Among-append_left : (r : A) (xs ys : List A) → Among r xs → Among r (xs ++ ys)
  Among-append_left r [] ys h = absurd h
  Among-append_left r (x ∷ xs) ys (inl e) = inl e
  Among-append_left r (x ∷ xs) ys (inr h) = inr (Among-append_left r xs ys h)

  pub Among-append_cases : (r : A) (xs ys : List A) → Among r (xs ++ ys) → Among r xs ⊎ Among r ys
  Among-append_cases r [] ys h = inr h
  Among-append_cases r (x ∷ xs) ys (inl e) = inl (inl e)
  Among-append_cases r (x ∷ xs) ys (inr h) = elim (Among-append_cases r xs ys h) [
    | inl a ↦ inl (inr a)
    | inr b ↦ inr b
  ]

  pub Among-map :
      {B : Type 0} (f : A → B) (a : A) (xs : List A) → Among a xs → Among (f a) (map f xs)
  Among-map f a [] h = absurd h
  Among-map f a (x ∷ xs) (inl e) = inl (ap f e)
  Among-map f a (x ∷ xs) (inr h) = inr (Among-map f a xs h)

  pub Among-map_inv :
      {B : Type 0} (f : A → B) (b : B) (xs : List A)
      → Among b (map f xs)
      → (a : A) × Among a xs × (f a ≡ b)
  Among-map_inv f b [] h = absurd h
  Among-map_inv f b (x ∷ xs) (inl e) = (x, inl refl, e)
  Among-map_inv f b (x ∷ xs) (inr h) = let (a, m, e) = Among-map_inv f b xs h in (a, inr m, e)
