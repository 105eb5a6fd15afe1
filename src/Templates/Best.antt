-- ===== src/Templates/Best.antt =====
-- The search gives the templates that fit best, in the order of their distance.
use zbplan.Templates.{Template, Candidate, max_int, best_score}
use zbplan.Prelude.{
  ℕ, true, false, ◌<◌, ◌≤◌, List, [], ◌∷◌, map, Bytes, length, ltb, ◌≡◌, refl, sym, ap, ◌∙◌, ◌⊎◌,
  inl, inr, if◌then◌else◌, Bool-cases, ℤ, pos, negsuc, arith, All, Among, IsOrdered, false,
}

-- One candidate is no farther than another.
abbrev pub Nearer : Candidate → Candidate → Type 0
Nearer c d = c.score ≤ d.score

module _ (rank : Bytes → Bytes → ℤ) (query : Bytes) where
  -- The least distance of a term, or `best` where none is smaller.
  pub record IsLeast (terms : List Bytes) (best n : ℕ) : Type 0 where
    pub bounded : n ≤ best
    pub least : (term : Bytes) (d : ℕ) → Among term terms → rank query term ≡ pos d → n ≤ d
    pub reached : (n ≡ best) ⊎ ((term : Bytes) × Among term terms × (rank query term ≡ pos n))

  no_match :
      (term : Bytes) (terms : List Bytes) (best d n : ℕ)
      → rank query term ≡ negsuc d
      → IsLeast terms best n
      → IsLeast (term ∷ terms) best n
  no_match term terms best d n e h = record {
    bounded = h.bounded;
    least = λ t d' m r. elim m [ inl same ↦ absurd (cc) | inr m ↦ h.least t d' m r ];
    reached = elim (h.reached) [ inl r ↦ inl r | inr (t, m, r) ↦ inr (t, inr m, r) ];
  }

  a_match :
      (term : Bytes) (terms : List Bytes) (best d n : ℕ)
      → rank query term ≡ pos d
      → IsLeast terms (if ltb d best then d else best) n
      → IsLeast (term ∷ terms) best n
  a_match term terms best d n e h = record {
    bounded = let le = h.bounded in ground arith;
    least = λ t d' m r. elim m [
      | inl same ↦ let same_d : d ≡ d' = cc in let le = h.bounded in ground arith
      | inr m ↦ h.least t d' m r
    ];
    reached = elim (h.reached) [
      | inl r ↦ at_bound r (Bool-cases (ltb d best))
      | inr (t, m, r) ↦ inr (t, inr m, r)
    ];
  }
    where
      at_bound :
          n ≡ (if ltb d best then d else best)
          → (ltb d best ≡ true) ⊎ (ltb d best ≡ false)
          → (n ≡ best) ⊎ ((t : Bytes) × Among t (term ∷ terms) × (rank query t ≡ pos n))
      at_bound r (inl b) = let k : n ≡ d = rw b at r in inr (term, inl refl, e ∙ ap pos (sym k))
      at_bound r (inr b) = inl (rw b at r)

  pub best_score-IsLeast :
      (terms : List Bytes) (best : ℕ) → IsLeast terms best (best_score rank query terms best)
  unfolding best_score
  best_score-IsLeast [] best = record {
    bounded = omega arith;
    least = λ t d m r. absurd m;
    reached = inl refl;
  }
  best_score-IsLeast (term ∷ terms) best =
      go (rank query term) refl (best_score-IsLeast terms best)
        (λ d. best_score-IsLeast terms (if ltb d best then d else best))
    where
      go :
          (r : ℤ)
          → rank query term ≡ r
          → IsLeast terms best (best_score rank query terms best)
          → ((d : ℕ)
              → IsLeast terms
                  (if ltb d best then d else best)
                  (best_score rank query terms (if ltb d best then d else best)))
          → IsLeast (term ∷ terms) best (best_score rank query (term ∷ terms) best)
      go (negsuc d) e h k = rw (e, best_score) (no_match term terms best d _ e h)
      go (pos d) e h k = rw (e, best_score) (a_match term terms best d _ e (k d))

  -- The distance of a template.
  abbrev pub score : Template → ℕ
  score t = best_score rank query t.terms max_int

  abbrev candidate : Template → Candidate
  candidate t = record { tmpl = t; score = score t }

  -- The templates that fit best: each fits, no more than the limit, the nearest first, and one that fits
  -- and is left out is no nearer than any of as many as the limit.
  pub record IsBest (templates : List Template) (limit : ℕ) (chosen : List Template) : Type 0 where
    pub few : length chosen ≤ limit
    pub each : All (λ t. Among t templates × (score t < max_int)) chosen
    pub ordered : IsOrdered (λ x y. score x ≤ score y) chosen
    pub nearest :
        (t : Template)
        → Among t templates
        → score t < max_int
        → Among t chosen ⊎ ((length chosen ≡ limit) × All (λ t'. score t' ≤ score t) chosen)

  IsScored : List Template → Candidate → Type 0
  IsScored templates c =
      Among c.tmpl templates × ((c.score ≡ score c.tmpl) × (score c.tmpl < max_int))

  tmpls : List Candidate → List Template
  tmpls cs = map (λ c. c.tmpl) cs
