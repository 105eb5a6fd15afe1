-- ===== src/Tests/Sorting.antt =====
-- A sort with the laws that are asked of Go's `sort.Slice`.
use mathlib.Core.List.{Permᴰ}
use mathlib.Core.List.Permᴰ
use zbplan.Prelude.{
  Bool, true, false, List, [], ◌∷◌, ◌≡◌, refl, if◌then◌else◌, Bool-cases, inl, inr, All-imp,
  All-Permᴰ, IsOrdered, IsSliceSort,
}

module _ {A : Type 0} (before : A → A → Bool) where
  unfoldable pub insert : A → List A → List A
  insert x [] = x ∷ []
  insert x (y ∷ ys) = let later = insert x ys in if before x y then x ∷ y ∷ ys else y ∷ later

  unfoldable pub insertion_sort : List A → List A
  insertion_sort [] = []
  insertion_sort (x ∷ xs) = insert x (insertion_sort xs)

  insert-Permᴰ : (x : A) (ys : List A) → Permᴰ (x ∷ ys) (insert x ys)
  unfolding insert
  insert-Permᴰ x [] = Permᴰ.refl (x ∷ [])
  insert-Permᴰ x (y ∷ ys) = elim (Bool-cases (before x y)) [
    | inl first ↦ rw first (Permᴰ.refl (x ∷ y ∷ ys))
    | inr later ↦
        rw later (Permᴰ.trans (Permᴰ.swap refl refl) (Permᴰ.cons refl (insert-Permᴰ x ys)))
  ]

  insertion_sort-Permᴰ : (xs : List A) → Permᴰ xs (insertion_sort xs)
  unfolding insertion_sort
  insertion_sort-Permᴰ [] = Permᴰ.refl []
  insertion_sort-Permᴰ (x ∷ xs) =
      Permᴰ.trans (Permᴰ.cons refl (insertion_sort-Permᴰ xs)) (insert-Permᴰ x (insertion_sort xs))

  module _ (R : A → A → Type 0) (trans : (x y z : A) → R x y → R y z → R x z)
      (first : (x y : A) → before x y ≡ true → R x y)
      (later : (x y : A) → before x y ≡ false → R y x) where
    insert-IsOrdered : (x : A) (ys : List A) → IsOrdered R ys → IsOrdered R (insert x ys)
    unfolding insert
    insert-IsOrdered x [] h = IsOrdered.cons tt IsOrdered.nil
    insert-IsOrdered x (y ∷ ys) (IsOrdered.cons le h) = elim (Bool-cases (before x y)) [
      | inl b ↦ rw b (
          IsOrdered.cons
            (first x y b, All-imp (R y) (R x) ys (λ z r. trans x y z (first x y b) r) le)
            (IsOrdered.cons le h))
      | inr b ↦ rw b (
          IsOrdered.cons
            (All-Permᴰ (R y) (x ∷ ys) (insert x ys) (insert-Permᴰ x ys) (later x y b, le))
            (insert-IsOrdered x ys h))
    ]

    insertion_sort-IsOrdered : (xs : List A) → IsOrdered R (insertion_sort xs)
    unfolding insertion_sort
    insertion_sort-IsOrdered [] = IsOrdered.nil
    insertion_sort-IsOrdered (x ∷ xs) =
        insert-IsOrdered x (insertion_sort xs) (insertion_sort-IsOrdered xs)

pub insertion_sort-IsSliceSort : {A : Type 0} → IsSliceSort {A = A} insertion_sort
insertion_sort-IsSliceSort = record {
  same = λ less xs. insertion_sort-Permᴰ less xs;
  ordered = λ less order xs.
      insertion_sort-IsOrdered less (λ x y. less y x ≡ false) order.trans order.asym (λ x y h. h)
        xs;
}
