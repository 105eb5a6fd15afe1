-- ===== src/Files/Glob/Remembered.antt =====
-- The table changes no answer: what a state is remembered for is what the search finds there.
use zbplan.Files.Glob.{
  Memo, no_memo, mark, double_star, is_nil, match_from, match_plain, match_glob,
}
use zbplan.Files.Glob.Matched.{
  Matches, IsWellFormed, match_plain_sound, match_plain_complete, match_plain_total,
}
use zbplan.Paths.{slash}
use zbplan.Prelude.{
  ℕ, suc, ◌+◌, ◌≤◌, Bool, true, false, List, [], ◌∷◌, Bytes, beq, ◌≡◌, ◌↔◌, refl, sym, ◌∙◌,
  Bool-cases, inl, inr, Result, ok, arith,
}
use zbplan.Strings.Split.{split}
use zbplan.Files.Glob.Table.{
  IsRight, marked, Same-refl, Done, Ready, kept, unkept, met, At, answer-At, next_part, next_name,
}
use zbplan.Files.Glob.Steps.{star_at_end-Done, star_inside-Done, after_part-Done}

module _ (match_part : Bytes → Bytes → Result Bytes Bool) (pattern path : List Bytes) where
  later :
      (k n : ℕ) (m : Memo)
      → k ≤ n
      → IsRight match_part pattern path k m
      → IsRight match_part pattern path n m
  later k n m h r = record {
    right = λ i j above e. r.right i j (omega arith) e;
    unmet = λ i j above e. r.unmet i j (omega arith) e;
  }

  -- What a call leaves of a state that was not met match_part pattern path.
  New : List Bytes → List Bytes → ℕ → ℕ → Memo → Type 0
  New ps ss pi si m =
      At match_part pattern path pi si ps ss
      → IsRight match_part pattern path (pi + si) m
      → Done match_part pattern path pi si m (match_from match_part ps ss pi si m)

  match_from-Done : (ps ss : List Bytes) (pi si : ℕ) (m : Memo) → New ps ss pi si m
  unfolding match_from New match_plain
  match_from-Done [] ss pi si m a r = elim (Bool-cases (m.seen pi si)) [
    | inl old ↦ rw old (met match_part pattern path pi si m r old)
    | inr new ↦ rw new (
        kept match_part pattern path pi si (suc (pi + si)) m (mark pi si m, ok (is_nil ss)) r new
          (omega arith)
          (sym (answer-At match_part pattern path pi si [] ss a ∙ unfold match_plain in refl))
          (unfold Ready in
            λ b h.
              (marked match_part pattern path pi si m r, Same-refl match_part pattern path _ _)))
  ]
  match_from-Done (p ∷ ps) [] pi si m a r = elim (Bool-cases (m.seen pi si)) [
    | inl old ↦ rw old (met match_part pattern path pi si m r old)
    | inr new ↦ elim (Bool-cases (beq p double_star)) [
      | inl star ↦
          let d =
            match_from-Done ps [] (suc pi) si (mark pi si m)
              (next_part match_part pattern path pi si p ps [] a)
              (later _ _ _ (omega arith) (marked match_part pattern path pi si m r)) in
          rw (new, star) (star_at_end-Done match_part pattern path p ps pi si m _ a r new star d)
      | inr plain ↦
          rw (new, plain)
            (unkept match_part pattern path pi si (suc (pi + si)) m (mark pi si m) r new
              (omega arith)
              (answer-At match_part pattern path pi si (p ∷ ps) [] a ∙ rw (plain, match_plain) refl)
              (marked match_part pattern path pi si m r) (Same-refl match_part pattern path _ _))
    ]
  ]
  match_from-Done (p ∷ ps) (s ∷ ss) pi si m a r = elim (Bool-cases (m.seen pi si)) [
    | inl old ↦ rw old (met match_part pattern path pi si m r old)
    | inr new ↦ elim (Bool-cases (beq p double_star)) [
      | inl star ↦
          let past =
            match_from-Done ps (s ∷ ss) (suc pi) si (mark pi si m)
              (next_part match_part pattern path pi si p ps (s ∷ ss) a)
              (later _ _ _ (omega arith) (marked match_part pattern path pi si m r)) in
          rw (new, star)
            (star_inside-Done match_part pattern path p s ps ss pi si m _ _ a r new star past (
              match_from-Done (p ∷ ps) ss pi (suc si) _
                (next_name match_part pattern path pi si (p ∷ ps) s ss a)))
      | inr plain ↦
          let behind =
            match_from-Done ps ss (suc pi) (suc si) (mark pi si m)
              (next_name match_part pattern path (suc pi) si ps s ss
                (next_part match_part pattern path pi si p ps (s ∷ ss) a))
              (later _ _ _ (omega arith) (marked match_part pattern path pi si m r)) in
          rw (new, plain)
            (after_part-Done match_part pattern path p s ps ss pi si m _ a r new plain behind)
    ]
  ]

no_memo-IsRight :
    (match_part : Bytes → Bytes → Result Bytes Bool) (pattern path : List Bytes)
    → IsRight match_part pattern path 0 no_memo
no_memo-IsRight match_part pattern path = record {
  right = λ i j above h. absurd (cc);
  unmet = λ i j above h. refl;
}

pub match_glob-plain :
    (match_part : Bytes → Bytes → Result Bytes Bool) (pattern path : Bytes)
    → match_glob match_part pattern path
      ≡ match_plain match_part (split slash pattern) (split slash path)
unfolding match_glob New
match_glob-plain match_part pattern path =
    let ps = split slash pattern in
    let ss = split slash path in
    (match_from-Done match_part ps ss ps ss 0 0 no_memo
      (record { pattern_at = refl; path_at = refl }) (no_memo-IsRight match_part ps ss)).finds

-- Whatever `filepath.Match` says of single parts, a path that is found to match does match, with `**` for
-- any number of parts.
pub match_glob-Matches :
    (match_part : Bytes → Bytes → Result Bytes Bool) (pattern path : Bytes)
    → match_glob match_part pattern path ≡ ok true
    → Matches match_part (split slash pattern) (split slash path)
match_glob-Matches match_part pattern path h =
    match_plain_sound match_part (split slash pattern) (split slash path)
      (sym (match_glob-plain match_part pattern path) ∙ h)

-- Where each part of the pattern can be matched without an error, `matchGlob` answers, and it says that
-- a path matches exactly if its parts match those of the pattern, with `**` for any number of parts.
pub match_glob_iff :
    (match_part : Bytes → Bytes → Result Bytes Bool) (pattern path : Bytes)
    → IsWellFormed match_part (split slash pattern)
    → (b : Bool) × (match_glob match_part pattern path ≡ ok b)
      × ((b ≡ true) ↔ Matches match_part (split slash pattern) (split slash path))
match_glob_iff match_part pattern path w = go (match_plain_total match_part ps ss w)
  where
    ps : List Bytes
    ps = split slash pattern

    ss : List Bytes
    ss = split slash path

    go :
        ((b : Bool) × (match_plain match_part ps ss ≡ ok b))
        → (b : Bool) × (match_glob match_part pattern path ≡ ok b)
          × ((b ≡ true) ↔ Matches match_part ps ss)
    go (true, e) = (
      true,
      match_glob-plain match_part pattern path ∙ e,
      (λ h. match_plain_sound match_part ps ss e, λ d. refl),
    )
    go (false, e) = (
      false,
      match_glob-plain match_part pattern path ∙ e,
      (λ h. absurd (cc), λ d. absurd (match_plain_complete match_part ps ss d e)),
    )
