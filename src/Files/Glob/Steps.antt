-- ===== src/Files/Glob/Steps.antt =====
-- Each way on from a state leaves the table right.
use zbplan.Files.Glob.{
  Memo, mark, keep, double_star, match_plain, star_at_end, star_inside, after_part,
}
use mathlib.Core.Path.{subst}
use zbplan.Prelude.{
  ℕ, suc, ◌+◌, Bool, true, false, List, [], ◌∷◌, Bytes, beq, ◌≡◌, refl, sym, ◌∙◌, Result, ok, err,
  arith,
}
use zbplan.Files.Glob.Table.{
  answer, IsRight, Same, marked, Same-refl, Same-trans, Done, Ready, kept, unkept, At, answer-At,
  next_part, next_name, Ready-next,
}

module _ (match_part : Bytes → Bytes → Result Bytes Bool) (pattern path : List Bytes) where
  pub star_at_end-Done :
      (p : Bytes) (ps : List Bytes) (pi si : ℕ) (m : Memo) (past : Memo × Result Bytes Bool)
      → At match_part pattern path pi si (p ∷ ps) []
      → IsRight match_part pattern path (pi + si) m
      → m.seen pi si ≡ false
      → beq p double_star ≡ true
      → Done match_part pattern path (suc pi) si (mark pi si m) past
      → Done match_part pattern path pi si m (star_at_end pi si past)
  unfolding match_plain Ready
  star_at_end-Done p ps pi si m (m', x) a r new star d = go x d
    where
      same : answer match_part pattern path (suc pi) si ≡ answer match_part pattern path pi si
      same =
          answer-At match_part pattern path (suc pi) si ps []
            (next_part match_part pattern path pi si p ps [] a)
          ∙ sym
              (answer-At match_part pattern path pi si (p ∷ ps) [] a ∙ rw (star, match_plain) refl)

      ready :
          (x : Result Bytes Bool)
          → Done match_part pattern path (suc pi) si (mark pi si m) (m', x)
          → Ready match_part pattern path pi si (suc (pi + si)) m (m', x)
      ready x d =
          Ready-next match_part pattern path pi si (suc (pi + si)) (suc pi) si m (m', x)
            (omega arith) d

      go :
          (x : Result Bytes Bool)
          → Done match_part pattern path (suc pi) si (mark pi si m) (m', x)
          → Done match_part pattern path pi si m (star_at_end pi si (m', x))
      go (err e) d =
          kept match_part pattern path pi si (suc (pi + si)) m (m', err e) r new (omega arith)
            (d.finds ∙ same) (ready (err e) d)
      go (ok true) d =
          kept match_part pattern path pi si (suc (pi + si)) m (m', ok true) r new (omega arith)
            (d.finds ∙ same) (ready (ok true) d)
      go (ok false) d =
          let (r', s) = ready (ok false) d false refl in
          unkept match_part pattern path pi si (suc (pi + si)) m m' r new (omega arith)
            (sym (d.finds ∙ same)) r' s

  pub star_inside-Done :
      (p s : Bytes) (ps ss : List Bytes) (pi si : ℕ) (m : Memo)
      (past deeper : Memo × Result Bytes Bool)
      → At match_part pattern path pi si (p ∷ ps) (s ∷ ss)
      → IsRight match_part pattern path (pi + si) m
      → m.seen pi si ≡ false
      → beq p double_star ≡ true
      → Done match_part pattern path (suc pi) si (mark pi si m) past
      → (IsRight match_part pattern path (pi + suc si) past.0
          → Done match_part pattern path pi (suc si) past.0 deeper)
      → Done match_part pattern path pi si m (star_inside pi si past deeper)
  unfolding match_plain Ready
  star_inside-Done p s ps ss pi si m (m', x) deeper a r new star d d' = go x d
    where
      here : answer match_part pattern path pi si ≡ match_plain match_part (p ∷ ps) (s ∷ ss)
      here = answer-At match_part pattern path pi si (p ∷ ps) (s ∷ ss) a

      past_at :
          (x : Result Bytes Bool)
          → Done match_part pattern path (suc pi) si (mark pi si m) (m', x)
          → match_plain match_part ps (s ∷ ss) ≡ x
      past_at x d = sym (
          d.finds
          ∙ answer-At match_part pattern path (suc pi) si ps (s ∷ ss)
              (next_part match_part pattern path pi si p ps (s ∷ ss) a))

      stops :
          (x : Result Bytes Bool)
          → Done match_part pattern path (suc pi) si (mark pi si m) (m', x)
          → answer match_part pattern path pi si ≡ x
          → Done match_part pattern path pi si m (keep pi si (m', x))
      stops x d e =
          kept match_part pattern path pi si (suc (pi + si)) m (m', x) r new (omega arith) (sym e)
            (Ready-next match_part pattern path pi si (suc (pi + si)) (suc pi) si m (m', x)
              (omega arith) d)

      goes_on :
          Done match_part pattern path (suc pi) si (mark pi si m) (m', ok false)
          → Done match_part pattern path pi si m (keep pi si deeper)
      goes_on d =
          let (r', same) =
            Ready-next match_part pattern path pi si (suc (pi + si)) (suc pi) si m (m', ok false)
              (omega arith) d false refl in
          let n : suc (pi + si) ≡ pi + suc si = omega arith in
          let d₂ = d' (subst (λ k. IsRight match_part pattern path k m') n r') in
          let e : deeper.1 ≡ answer match_part pattern path pi si =
            d₂.finds
            ∙ answer-At match_part pattern path pi (suc si) (p ∷ ps) ss
                (next_name match_part pattern path pi si (p ∷ ps) s ss a)
            ∙ sym (here ∙ rw (star, past_at (ok false) d, match_plain) refl) in
          kept match_part pattern path pi si (suc (pi + si)) m deeper r new (omega arith) e (λ b h.
            let l = d₂.leaves b h in
            (
              subst (λ k. IsRight match_part pattern path k deeper.0) (sym n) l.is_right,
              Same-trans match_part pattern path (suc (pi + si)) (mark pi si m) m' deeper.0 same
                  (subst (λ k. Same match_part pattern path k m' deeper.0) (sym n) l.same),
            ))

      go :
          (x : Result Bytes Bool)
          → Done match_part pattern path (suc pi) si (mark pi si m) (m', x)
          → Done match_part pattern path pi si m (star_inside pi si (m', x) deeper)
      go (err e) d = stops (err e) d (here ∙ rw (star, past_at (err e) d, match_plain) refl)
      go (ok true) d = stops (ok true) d (here ∙ rw (star, past_at (ok true) d, match_plain) refl)
      go (ok false) d = goes_on d

  pub after_part-Done :
      (p s : Bytes) (ps ss : List Bytes) (pi si : ℕ) (m : Memo) (behind : Memo × Result Bytes Bool)
      → At match_part pattern path pi si (p ∷ ps) (s ∷ ss)
      → IsRight match_part pattern path (pi + si) m
      → m.seen pi si ≡ false
      → beq p double_star ≡ false
      → Done match_part pattern path (suc pi) (suc si) (mark pi si m) behind
      → Done match_part pattern path pi si m
          (after_part pi si (mark pi si m) (match_part p s) behind)
  unfolding match_plain
  after_part-Done p s ps ss pi si m behind a r new plain d = go (match_part p s) refl
    where
      here : answer match_part pattern path pi si ≡ match_plain match_part (p ∷ ps) (s ∷ ss)
      here = answer-At match_part pattern path pi si (p ∷ ps) (s ∷ ss) a

      go :
          (x : Result Bytes Bool)
          → match_part p s ≡ x
          → Done match_part pattern path pi si m (after_part pi si (mark pi si m) x behind)
      go (err x) e = record {
        finds = sym (here ∙ rw (plain, e, match_plain) refl);
        leaves = λ b h. absurd (cc);
      }
      go (ok false) e =
          unkept match_part pattern path pi si (suc (pi + si)) m (mark pi si m) r new (omega arith)
            (here ∙ rw (plain, e, match_plain) refl) (marked match_part pattern path pi si m r)
            (Same-refl match_part pattern path _ _)
      go (ok true) e =
          kept match_part pattern path pi si (suc (suc (pi + si))) m behind r new (omega arith)
            (d.finds
              ∙ answer-At match_part pattern path (suc pi) (suc si) ps ss (
                  next_name match_part pattern path (suc pi) si ps s ss
                    (next_part match_part pattern path pi si p ps (s ∷ ss) a))
              ∙ sym (here ∙ rw (plain, e, match_plain) refl))
            (Ready-next match_part pattern path pi si (suc (suc (pi + si))) (suc pi) (suc si) m
              behind (omega arith) d)
