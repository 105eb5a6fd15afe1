-- ===== src/Files/Glob.antt =====
-- internal/plantools/files.go: `matchGlob`, with its table of the states that were met. `filepath.Match`
-- of one part of the pattern and one part of the path is a parameter: its answer, or its error.
pub mod Matched
pub mod Table
pub mod Steps
pub mod Remembered
use zbplan.Paths.{slash}
use zbplan.Prelude.{
  ℕ, suc, ◌+◌, Bool, true, false, ◌&&◌, List, [], ◌∷◌, Bytes, codes, beq, ◌==◌, if◌then◌else◌,
  Result, ok, err,
}
use zbplan.Strings.Split.{split}

-- `seen` and `memo`; a missing entry reads as false.
pub record Memo : Type 0 where
  pub seen : ℕ → ℕ → Bool
  pub known : ℕ → ℕ → Bool

abbrev pub no_memo : Memo
no_memo = record { seen = λ i j. false; known = λ i j. false }

abbrev pub is_key : (pi si i j : ℕ) → Bool
is_key pi si i j = (i == pi) && (j == si)

-- `seen[key] = true`
abbrev pub mark : ℕ → ℕ → Memo → Memo
mark pi si m = record m { seen = λ i j. if is_key pi si i j then true else m.seen i j }

-- `memo[key] = ok`
abbrev pub remember : ℕ → ℕ → Bool → Memo → Memo
remember pi si b m = record m { known = λ i j. if is_key pi si i j then b else m.known i j }

abbrev pub double_star : Bytes
double_star = codes "**"

abbrev pub is_nil : List Bytes → Bool
is_nil [] = true
is_nil (s ∷ ss) = false

-- The answer of a call is kept, also where it comes with an error.
abbrev pub keep : ℕ → ℕ → Memo × Result Bytes Bool → Memo × Result Bytes Bool
keep pi si (m, ok b) = (remember pi si b m, ok b)
keep pi si (m, err e) = (remember pi si false m, err e)

-- Behind `match(pi+1, si)` at a `**`, where the path has ended.
abbrev pub star_at_end : ℕ → ℕ → Memo × Result Bytes Bool → Memo × Result Bytes Bool
star_at_end pi si (m, err e) = keep pi si (m, err e)
star_at_end pi si (m, ok true) = keep pi si (m, ok true)
star_at_end pi si (m, ok false) = (m, ok false)

-- The same where the path goes on, with what `match(pi, si+1)` gives from there.
abbrev pub star_inside :
    ℕ → ℕ → Memo × Result Bytes Bool → Memo × Result Bytes Bool → Memo × Result Bytes Bool
star_inside pi si (m, err e) deeper = keep pi si (m, err e)
star_inside pi si (m, ok true) deeper = keep pi si (m, ok true)
star_inside pi si (m, ok false) deeper = keep pi si deeper

-- Behind `filepath.Match`, with what `match(pi+1, si+1)` gives.
abbrev pub after_part :
    ℕ → ℕ → Memo → Result Bytes Bool → Memo × Result Bytes Bool → Memo × Result Bytes Bool
after_part pi si m (err e) behind = (m, err e)
after_part pi si m (ok false) behind = (m, ok false)
after_part pi si m (ok true) behind = keep pi si behind

module _ (match_part : Bytes → Bytes → Result Bytes Bool) where
  -- `match`, at the parts of the pattern from `pi` on and those of the path from `si` on.
  unfoldable pub match_from :
      List Bytes → List Bytes → (pi si : ℕ) → Memo → Memo × Result Bytes Bool
  match_from [] ss pi si m =
      if m.seen pi si then (m, ok (m.known pi si)) else keep pi si (mark pi si m, ok (is_nil ss))
  match_from (p ∷ ps) [] pi si m =
      let past = match_from ps [] (suc pi) si (mark pi si m) in
      if m.seen pi si
      then (m, ok (m.known pi si))
      else if beq p double_star
      then star_at_end pi si past
      else (mark pi si m, ok false)
  match_from (p ∷ ps) (s ∷ ss) pi si m =
      let past = match_from ps (s ∷ ss) (suc pi) si (mark pi si m) in
      let deeper = match_from (p ∷ ps) ss pi (suc si) past.0 in
      let behind = match_from ps ss (suc pi) (suc si) (mark pi si m) in
      if m.seen pi si
      then (m, ok (m.known pi si))
      else if beq p double_star
      then star_inside pi si past deeper
      else after_part pi si (mark pi si m) (match_part p s) behind

  unfoldable pub match_glob : Bytes → Bytes → Result Bytes Bool
  match_glob pattern path = (match_from (split slash pattern) (split slash path) 0 0 no_memo).1

  -- The same search without the table.
  pub match_plain : List Bytes → List Bytes → Result Bytes Bool
  match_plain [] ss = ok (is_nil ss)
  match_plain (p ∷ ps) [] =
      let past = match_plain ps [] in if beq p double_star then past else ok false
  match_plain (p ∷ ps) (s ∷ ss) =
      let past = match_plain ps (s ∷ ss) in
      let deeper = match_plain (p ∷ ps) ss in
      let behind = match_plain ps ss in
      if beq p double_star
      then elim (past) [ err e ↦ err e | ok true ↦ ok true | ok false ↦ deeper ]
      else elim (match_part p s) [ err e ↦ err e | ok false ↦ ok false | ok true ↦ behind ]
