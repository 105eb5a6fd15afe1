-- ===== src/Prelude/Orders.antt =====
-- Lists in another order, and `sort.Slice`, whose order of equal elements is not told.
use mathlib.Core.Path.{subst, ◌≡◌, refl, sym, ap, ◌∙◌}
use mathlib.Core.Bool.{Bool, true, false}
use mathlib.Core.Logic.{◌⊎◌, inl, inr}
use mathlib.Core.List.{List, [], ◌∷◌, Permᴰ}
use Prim.Native.Nat.{ℕ, zero, suc}
use zbplan.Prelude.Lists.{length, take, take_of_length-le}
use zbplan.Prelude.Tests.{ltb, if◌then◌else◌, Bool-cases}
use native.Mathlib.Omega.{arith}
use zbplan.Prelude.Members.{All, All-imp, Among, All-Among}

module _ {A : Type 0} where
  pub Permᴰ-Among : (a : A) (xs ys : List A) → Permᴰ xs ys → Among a xs → Among a ys
  Permᴰ-Among a [] [] Permᴰ.nil m = m
  Permᴰ-Among a (x ∷ xs) (y ∷ ys) (Permᴰ.cons e p) (inl h) = inl (sym e ∙ h)
  Permᴰ-Among a (x ∷ xs) (y ∷ ys) (Permᴰ.cons e p) (inr m) = inr (Permᴰ-Among a xs ys p m)
  Permᴰ-Among a (x ∷ x' ∷ xs) (y ∷ y' ∷ ys) (Permᴰ.swap e e') (inl h) = inr (inl (sym e ∙ h))
  Permᴰ-Among a (x ∷ x' ∷ xs) (y ∷ y' ∷ ys) (Permᴰ.swap e e') (inr (inl h)) = inl (sym e' ∙ h)
  Permᴰ-Among a (x ∷ x' ∷ xs) (y ∷ y' ∷ ys) (Permᴰ.swap e e') (inr (inr m)) = inr (inr m)
  Permᴰ-Among a xs ys (Permᴰ.trans {l₂ = zs} p p') m =
      Permᴰ-Among a zs ys p' (Permᴰ-Among a xs zs p m)

  pub All-Permᴰ : (P : A → Type 0) (xs ys : List A) → Permᴰ xs ys → All P xs → All P ys
  All-Permᴰ P [] [] Permᴰ.nil h = h
  All-Permᴰ P (x ∷ xs) (y ∷ ys) (Permᴰ.cons e p) (q, h) = (subst P e q, All-Permᴰ P xs ys p h)
  All-Permᴰ P (x ∷ x' ∷ xs) (y ∷ y' ∷ ys) (Permᴰ.swap e e') (q, (q', h)) =
      (subst P e' q', (subst P e q, h))
  All-Permᴰ P xs ys (Permᴰ.trans {l₂ = zs} p p') h = All-Permᴰ P zs ys p' (All-Permᴰ P xs zs p h)

  pub Permᴰ-length : (xs ys : List A) → Permᴰ xs ys → length xs ≡ length ys
  Permᴰ-length [] [] Permᴰ.nil = refl
  Permᴰ-length (x ∷ xs) (y ∷ ys) (Permᴰ.cons e p) = ap suc (Permᴰ-length xs ys p)
  Permᴰ-length (x ∷ x' ∷ xs) (y ∷ y' ∷ ys) (Permᴰ.swap e e') = refl
  Permᴰ-length xs ys (Permᴰ.trans {l₂ = zs} p p') = Permᴰ-length xs zs p ∙ Permᴰ-length zs ys p'

  -- `if len(xs) > n { xs = xs[:n] }`
  pub cut_at-take :
      (n : ℕ) (xs : List A) → (if ltb n (length xs) then take n xs else xs) ≡ take n xs
  cut_at-take n xs = elim (Bool-cases (ltb n (length xs))) [
    | inl more ↦ rw more refl
    | inr all ↦ rw all (sym (take_of_length-le n xs (ground arith)))
  ]

  pub All-of : (P : A → Type 0) (xs : List A) → ((x : A) → Among x xs → P x) → All P xs
  All-of P [] f = tt
  All-of P (x ∷ xs) f = (f x (inl refl), All-of P xs (λ y m. f y (inr m)))

  -- Each element is related to those behind it.
  pub data IsOrdered (R : A → A → Type 0) : List A → Type 0 where
    nil : IsOrdered R []
    cons : {x : A} {xs : List A} → All (R x) xs → IsOrdered R xs → IsOrdered R (x ∷ xs)

  -- What `sort.Slice` asks of its function: that it is a strict weak order.
  pub record IsLess (less : A → A → Bool) : Type 0 where
    pub asym : (x y : A) → less x y ≡ true → less y x ≡ false
    pub trans : (x y z : A) → less y x ≡ false → less z y ≡ false → less z x ≡ false

  -- `sort.Slice` by any such function gives the same elements, none less than one before it.
  pub record IsSliceSort (slice : (A → A → Bool) → List A → List A) : Type 0 where
    pub same : (less : A → A → Bool) (xs : List A) → Permᴰ xs (slice less xs)
    pub ordered :
        (less : A → A → Bool)
        → IsLess less
        → (xs : List A) → IsOrdered (λ x y. less y x ≡ false) (slice less xs)

  pub IsOrdered-imp :
      (R Q : A → A → Type 0)
      → ((x y : A) → R x y → Q x y)
      → (xs : List A) → IsOrdered R xs
      → IsOrdered Q xs
  IsOrdered-imp R Q f [] nil = nil
  IsOrdered-imp R Q f (x ∷ xs) (cons le h) =
      cons (All-imp (R x) (Q x) xs (f x) le) (IsOrdered-imp R Q f xs h)

  -- A sort by one order: the same elements, ordered.
  pub record IsSort (R : A → A → Type 0) (sort : List A → List A) : Type 0 where
    pub same : (xs : List A) → Permᴰ xs (sort xs)
    pub ordered : (xs : List A) → IsOrdered R (sort xs)

  pub IsSliceSort-IsSort :
      (R : A → A → Type 0) (slice : (A → A → Bool) → List A → List A) (less : A → A → Bool)
      → IsSliceSort slice
      → IsLess less
      → ((x y : A) → less y x ≡ false → R x y)
      → IsSort R (slice less)
  IsSliceSort-IsSort R slice less law order f = record {
    same = law.same less;
    ordered = λ xs. IsOrdered-imp _ R f (slice less xs) (law.ordered less order xs);
  }

  pub All-take : (P : A → Type 0) (n : ℕ) (xs : List A) → All P xs → All P (take n xs)
  All-take P zero xs h = tt
  All-take P (suc n) [] h = tt
  All-take P (suc n) (x ∷ xs) (p, h) = (p, All-take P n xs h)

  pub take-IsOrdered :
      (R : A → A → Type 0) (n : ℕ) (xs : List A) → IsOrdered R xs → IsOrdered R (take n xs)
  take-IsOrdered R zero xs h = nil
  take-IsOrdered R (suc n) [] nil = nil
  take-IsOrdered R (suc n) (x ∷ xs) (cons le h) =
      cons (All-take (R x) n xs le) (take-IsOrdered R n xs h)

  -- Of an ordered list, its front has each element, or is full of elements that come before it.
  pub take-Among :
      (R : A → A → Type 0) (n : ℕ) (xs : List A) (a : A)
      → IsOrdered R xs
      → Among a xs
      → Among a (take n xs) ⊎ ((length (take n xs) ≡ n) × All (λ y. R y a) (take n xs))
  take-Among R zero xs a h m = inr (refl, tt)
  take-Among R (suc n) [] a h m = absurd m
  take-Among R (suc n) (x ∷ xs) a (cons le h) (inl e) = inl (inl e)
  take-Among R (suc n) (x ∷ xs) a (cons le h) (inr m) = elim (take-Among R n xs a h m) [
    | inl there ↦ inl (inr there)
    | inr (full, less) ↦ inr (ap suc full, (All-Among (R x) xs a le m, less))
  ]
