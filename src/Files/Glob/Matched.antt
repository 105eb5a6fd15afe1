-- ===== src/Files/Glob/Matched.antt =====
-- The search without the table, against a relation on the parts.
use zbplan.Files.Glob.{double_star, is_nil, match_plain}
use zbplan.Prelude.{
  Bool, true, false, List, [], ◌∷◌, Bytes, beq, beq_iff, beq_ne, ◌≡◌, ◌≢◌, refl, Bool-cases, inl,
  inr, Result, ok, err, Among,
}

module _ (match_part : Bytes → Bytes → Result Bytes Bool) where
  -- The parts of the path match those of the pattern: `**` stands for any number of parts, and any other
  -- part of the pattern for one part that it matches.
  pub data Matches : List Bytes → List Bytes → Type 0 where
    nil : Matches [] []
    none_more :
        {p : Bytes} {ps ss : List Bytes} → p ≡ double_star → Matches ps ss → Matches (p ∷ ps) ss
    one_more :
        {p s : Bytes} {ps ss : List Bytes}
        → p ≡ double_star
        → Matches (p ∷ ps) ss
        → Matches (p ∷ ps) (s ∷ ss)
    part :
        {p s : Bytes} {ps ss : List Bytes}
        → p ≢ double_star
        → match_part p s ≡ ok true
        → Matches ps ss
        → Matches (p ∷ ps) (s ∷ ss)

  plain_not : (p : Bytes) → beq p double_star ≡ false → p ≢ double_star
  plain_not p h e = cc (h, (beq_iff p double_star).1 e)

  step_sound :
      (p s : Bytes) (ps ss : List Bytes)
      → match_plain match_part (p ∷ ps) (s ∷ ss) ≡ ok true
      → (match_plain match_part ps (s ∷ ss) ≡ ok true → Matches ps (s ∷ ss))
      → (match_plain match_part (p ∷ ps) ss ≡ ok true → Matches (p ∷ ps) ss)
      → (match_plain match_part ps ss ≡ ok true → Matches ps ss)
      → Matches (p ∷ ps) (s ∷ ss)
  unfolding match_plain
  step_sound p s ps ss h past deeper behind = elim (Bool-cases (beq p double_star)) [
    | inl star ↦ try_past star (match_plain match_part ps (s ∷ ss)) refl
    | inr plain ↦ try_part plain (match_part p s) refl
  ]
    where
      try_past :
          beq p double_star ≡ true
          → (r : Result Bytes Bool) → match_plain match_part ps (s ∷ ss) ≡ r
          → Matches (p ∷ ps) (s ∷ ss)
      try_past star (err x) e = absurd (cc (rw (star, e, match_plain) at h))
      try_past star (ok true) e = none_more ((beq_iff p double_star).0 star) (past e)
      try_past star (ok false) e =
          one_more ((beq_iff p double_star).0 star) (deeper (rw (star, e, match_plain) at h))

      try_part :
          beq p double_star ≡ false
          → (r : Result Bytes Bool) → match_part p s ≡ r
          → Matches (p ∷ ps) (s ∷ ss)
      try_part plain (err x) e = absurd (cc (rw (plain, e, match_plain) at h))
      try_part plain (ok false) e = absurd (cc (rw (plain, e, match_plain) at h))
      try_part plain (ok true) e =
          part (plain_not p plain) e (behind (rw (plain, e, match_plain) at h))

  pub match_plain_sound :
      (ps ss : List Bytes) → match_plain match_part ps ss ≡ ok true → Matches ps ss
  unfolding match_plain
  match_plain_sound [] [] h = nil
  match_plain_sound [] (s ∷ ss) h = absurd (cc)
  match_plain_sound (p ∷ ps) [] h = elim (Bool-cases (beq p double_star)) [
    | inl star ↦
        none_more ((beq_iff p double_star).0 star)
          (match_plain_sound ps [] (rw (star, match_plain) at h))
    | inr plain ↦ absurd (cc (rw (plain, match_plain) at h))
  ]
  match_plain_sound (p ∷ ps) (s ∷ ss) h =
      step_sound p s ps ss h (match_plain_sound ps (s ∷ ss)) (match_plain_sound (p ∷ ps) ss)
        (match_plain_sound ps ss)

  -- Where the search at a `**` finds nothing, it found nothing on either way.
  star_false :
      (p s : Bytes) (ps ss : List Bytes)
      → p ≡ double_star
      → match_plain match_part (p ∷ ps) (s ∷ ss) ≡ ok false
      → (match_plain match_part ps (s ∷ ss) ≡ ok false)
        × (match_plain match_part (p ∷ ps) ss ≡ ok false)
  unfolding match_plain
  star_false p s ps ss e h = go (match_plain match_part ps (s ∷ ss)) refl
    where
      star : beq p double_star ≡ true
      star = (beq_iff p double_star).1 e

      go :
          (r : Result Bytes Bool)
          → match_plain match_part ps (s ∷ ss) ≡ r
          → (match_plain match_part ps (s ∷ ss) ≡ ok false)
            × (match_plain match_part (p ∷ ps) ss ≡ ok false)
      go (err x) k = absurd (cc (rw (star, k, match_plain) at h))
      go (ok true) k = absurd (cc (rw (star, k, match_plain) at h))
      go (ok false) k = (k, rw (star, k, match_plain) at h)

  pub match_plain_complete :
      (ps ss : List Bytes) → Matches ps ss → match_plain match_part ps ss ≢ ok false
  unfolding match_plain
  match_plain_complete [] [] nil h = cc
  match_plain_complete [] (s ∷ ss) d h = elim d [ ]
  match_plain_complete (p ∷ ps) [] (none_more e d) h =
      match_plain_complete ps [] d (rw ((beq_iff p double_star).1 e, match_plain) at h)
  match_plain_complete (p ∷ ps) (s ∷ ss) (none_more e d) h =
      match_plain_complete ps (s ∷ ss) d (star_false p s ps ss e h).0
  match_plain_complete (p ∷ ps) (s ∷ ss) (one_more e d) h =
      match_plain_complete (p ∷ ps) ss d (star_false p s ps ss e h).1
  match_plain_complete (p ∷ ps) (s ∷ ss) (part n k d) h =
      match_plain_complete ps ss d (rw (beq_ne p double_star n, k, match_plain) at h)

  -- Each part of the pattern can be matched without an error.
  abbrev pub IsWellFormed : List Bytes → Type 0
  IsWellFormed ps = (p s : Bytes) → Among p ps → (b : Bool) × (match_part p s ≡ ok b)

  step_total :
      (p s : Bytes) (ps ss : List Bytes)
      → ((b : Bool) × (match_part p s ≡ ok b))
      → ((b : Bool) × (match_plain match_part ps (s ∷ ss) ≡ ok b))
      → ((b : Bool) × (match_plain match_part (p ∷ ps) ss ≡ ok b))
      → ((b : Bool) × (match_plain match_part ps ss ≡ ok b))
      → (b : Bool) × (match_plain match_part (p ∷ ps) (s ∷ ss) ≡ ok b)
  unfolding match_plain
  step_total p s ps ss (b, k) (c, e) deeper behind = elim (Bool-cases (beq p double_star)) [
    | inl star ↦ try_past star c e
    | inr plain ↦ try_part plain b k
  ]
    where
      Answer : Type 0
      Answer = (r : Bool) × (match_plain match_part (p ∷ ps) (s ∷ ss) ≡ ok r)

      try_past :
          beq p double_star ≡ true → (r : Bool) → match_plain match_part ps (s ∷ ss) ≡ ok r → Answer
      try_past star true f = (true, rw (star, f, match_plain) refl)
      try_past star false f = (deeper.0, rw (star, f, match_plain) deeper.1)

      try_part : beq p double_star ≡ false → (r : Bool) → match_part p s ≡ ok r → Answer
      try_part plain true f = (behind.0, rw (plain, f, match_plain) behind.1)
      try_part plain false f = (false, rw (plain, f, match_plain) refl)

  pub match_plain_total :
      (ps ss : List Bytes) → IsWellFormed ps → (b : Bool) × (match_plain match_part ps ss ≡ ok b)
  unfolding match_plain
  match_plain_total [] ss w = (is_nil ss, refl)
  match_plain_total (p ∷ ps) [] w = elim (Bool-cases (beq p double_star)) [
    | inl star ↦
        let (b, e) = match_plain_total ps [] (λ q s a. w q s (inr a)) in
        (b, rw (star, match_plain) e)
    | inr plain ↦ (false, rw (plain, match_plain) refl)
  ]
  match_plain_total (p ∷ ps) (s ∷ ss) w =
      step_total p s ps ss (w p s (inl refl))
        (match_plain_total ps (s ∷ ss) (λ q t a. w q t (inr a))) (match_plain_total (p ∷ ps) ss w)
        (match_plain_total ps ss (λ q t a. w q t (inr a)))
