-- ===== src/Store/Catalog.antt =====
-- `catalog`: whole lines, newest first, up to the budget.
use mathlib.Core.List.{reverse, flatten}
use zbplan.Prelude.{
  ℕ, ◌+◌, ◌-◌, ◌≤◌, ◌≡◌, refl, ap, sym, ◌∙◌, true, false, none, some, List, [], ◌∷◌, ◌++◌, arith,
  Bytes, append-nil, append_assoc, length-append, beq, length, ltb, if◌then◌else◌, Bool-cases,
  Option-cases, inl, inr,
}
use zbplan.Store.{ToolOutputStore, catalog_line, catalog_loop, catalog}

-- The lines of the entries that have a tool's name, in the order of the references.
pub lines : ToolOutputStore → List Bytes → List Bytes
lines s [] = []
lines s (ref ∷ refs) = elim (s.outputs ref) [
  | none ↦ lines s refs
  | some stored ↦
      let rest = lines s refs in
      if beq stored.tool_name [] then rest else catalog_line ref stored ∷ rest
]

-- The first lines that fit in the budget together.
pub fitting : ℕ → List Bytes → List Bytes
fitting budget [] = []
fitting budget (l ∷ ls) =
    let rest = fitting (budget - length l) ls in if ltb budget (length l) then [] else l ∷ rest

catalog_loop-fitting :
    (s : ToolOutputStore) (n : ℕ) (refs : List Bytes) (result : Bytes)
    → length result ≤ n
    → catalog_loop s n refs result ≡ result ++ flatten (fitting (n - length result) (lines s refs))
unfolding catalog_loop lines fitting flatten
catalog_loop-fitting s n [] result h = sym (append-nil result)
catalog_loop-fitting s n (ref ∷ refs) result h = elim (Option-cases (s.outputs ref)) [
  | inl e ↦ rw (e, catalog_loop, lines) (catalog_loop-fitting s n refs result h)
  | inr (stored, e) ↦
      let line = catalog_line ref stored in
      let size = length-append result line in
      rw (e, catalog_loop, lines)
        (elim (Bool-cases (beq stored.tool_name [])) [
          | inl unnamed ↦ rw unnamed (catalog_loop-fitting s n refs result h)
          | inr named ↦ rw named (elim (Bool-cases (ltb n (length result + length line))) [
            | inl over ↦
                let e' : ltb (n - length result) (length line) ≡ true = ground arith in
                rw (over, e') (sym (append-nil result))
            | inr room ↦
                let e' : ltb (n - length result) (length line) ≡ false = ground arith in
                let left : n - length (result ++ line) ≡ n - length result - length line =
                  omega arith in
                rw (room, e')
                  (catalog_loop-fitting s n refs (result ++ line) (ground arith)
                    ∙ rw (left, append_assoc) refl)
          ])
        ])
]

length-fitting : (n : ℕ) (ls : List Bytes) → length (flatten (fitting n ls)) ≤ n
unfolding fitting flatten
length-fitting n [] = omega arith
length-fitting n (l ∷ ls) =
    ground (
      arith,
      length-append l (flatten (fitting (n - length l) ls)),
      length-fitting (n - length l) ls,
    )

-- The catalog is the lines of the named entries, newest first, as many as fit in the budget
-- together; it is within the budget.
pub catalog-fitting :
    (s : ToolOutputStore) (n : ℕ)
    → (catalog s n ≡ flatten (fitting n (lines s (reverse s.order)))) × (length (catalog s n) ≤ n)
unfolding catalog
catalog-fitting s n =
    let e : catalog s n ≡ flatten (fitting n (lines s (reverse s.order))) =
      catalog_loop-fitting s n (reverse s.order) [] (omega arith)
      ∙ ap (λ k. flatten (fitting k (lines s (reverse s.order))))
          (let z : n - 0 ≡ n = omega arith in z) in
    (e, rw e (length-fitting n (lines s (reverse s.order))))
