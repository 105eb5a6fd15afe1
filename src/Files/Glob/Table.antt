-- ===== src/Files/Glob/Table.antt =====
-- The table of the states: what an entry says, and that a call leaves it right.
use zbplan.Files.Glob.{Memo, is_key, mark, remember, keep, match_plain}
use mathlib.Core.Path.{subst, ap₂}
use zbplan.Prelude.{
  ℕ, zero, suc, ◌+◌, ◌≤◌, ◌<◌, Bool, true, false, List, [], ◌∷◌, Bytes, ◌≡◌, refl, sym, ap, ◌∙◌,
  drop, Bool-cases, lt_or_le, inl, inr, Result, ok, err, arith,
}

pub drop-suc :
    {A : Type 0} (n : ℕ) (xs : List A) (x : A) (ys : List A)
    → drop n xs ≡ x ∷ ys
    → drop (suc n) xs ≡ ys
drop-suc zero [] x ys h = absurd (cc)
drop-suc zero (z ∷ xs) x ys h = cc
drop-suc (suc n) [] x ys h = absurd (cc)
drop-suc (suc n) (z ∷ xs) x ys h = drop-suc n xs x ys h

module _ (match_part : Bytes → Bytes → Result Bytes Bool) (pattern path : List Bytes) where
  -- What the search finds at a state.
  abbrev pub answer : ℕ → ℕ → Result Bytes Bool
  answer i j = match_plain match_part (drop i pattern) (drop j path)

  -- The states from a sum of positions on are remembered rightly; one that was not met has no answer.
  pub record IsRight (k : ℕ) (m : Memo) : Type 0 where
    pub right : (i j : ℕ) → k ≤ i + j → m.seen i j ≡ true → answer i j ≡ ok (m.known i j)
    pub unmet : (i j : ℕ) → k ≤ i + j → m.seen i j ≡ false → m.known i j ≡ false

  -- Two tables that agree below a sum of positions.
  pub record Same (k : ℕ) (m m' : Memo) : Type 0 where
    pub seen_same : (i j : ℕ) → i + j < k → m'.seen i j ≡ m.seen i j
    pub known_same : (i j : ℕ) → i + j < k → m'.known i j ≡ m.known i j

  -- What a call at `pi` and `si` leaves.
  pub record Leaves (pi si : ℕ) (m m' : Memo) : Type 0 where
    pub is_right : IsRight (pi + si) m'
    pub same : Same (pi + si) m m'

  pub is_key-true : (pi si i j : ℕ) → is_key pi si i j ≡ true → (i ≡ pi) × (j ≡ si)
  is_key-true pi si i j h = ground arith

  -- A call further on starts from a right table, after the state of this call is marked.
  pub marked : (pi si : ℕ) (m : Memo) → IsRight (pi + si) m → IsRight (suc (pi + si)) (mark pi si m)
  marked pi si m r = record {
    right = λ i j above e. r.right i j (omega arith) (ground arith);
    unmet = λ i j above e. r.unmet i j (omega arith) (ground arith);
  }

  -- The answer of this call completes the table that the calls further on leave.
  pub finish :
      (pi si n : ℕ) (b : Bool) (m m' : Memo)
      → IsRight (pi + si) m
      → m.seen pi si ≡ false
      → suc (pi + si) ≤ n
      → IsRight n m'
      → Same n (mark pi si m) m'
      → answer pi si ≡ ok b
      → Leaves pi si m (remember pi si b m')
  finish pi si n b m m' r new further r' s e = record {
    is_right = record {
      right = λ i j above k. elim (Bool-cases (is_key pi si i j)) [
        | inl here ↦ let (x, y) = is_key-true pi si i j here in rw (here, x, y) e
        | inr other ↦ rw other (elim (lt_or_le (i + j) n) [
          | inl below ↦
              rw (s.known_same i j below)
                (r.right i j above (ground (arith, s.seen_same i j below)))
          | inr over ↦ r'.right i j over k
        ])
      ];
      unmet = λ i j above k. elim (Bool-cases (is_key pi si i j)) [
        | inl here ↦
            let (x, y) = is_key-true pi si i j here in
            let z : m'.seen i j ≡ true = ground (arith, s.seen_same i j (omega arith)) in
            absurd (cc)
        | inr other ↦ rw other (elim (lt_or_le (i + j) n) [
          | inl below ↦
              rw (s.known_same i j below)
                (r.unmet i j above (ground (arith, s.seen_same i j below)))
          | inr over ↦ r'.unmet i j over k
        ])
      ];
    };
    same = record {
      seen_same = λ i j below. ground (arith, s.seen_same i j (omega arith));
      known_same = λ i j below. ground (arith, s.known_same i j (omega arith));
    };
  }

  -- A state without an entry reads as false.
  pub forgotten :
      (pi si : ℕ) (m m' : Memo)
      → m'.known pi si ≡ false
      → Leaves pi si m (remember pi si false m')
      → Leaves pi si m m'
  forgotten pi si m m' off l =
      let e : (i j : ℕ) → (remember pi si false m').known i j ≡ m'.known i j = λ i j.
        elim (Bool-cases (is_key pi si i j)) [
          | inl here ↦ let (x, y) = is_key-true pi si i j here in rw (here, x, y) (sym off)
          | inr other ↦ rw other refl
        ] in
      record {
        is_right = record {
          right = λ i j above k. l.is_right.right i j above k ∙ ap ok (e i j);
          unmet = λ i j above k. sym (e i j) ∙ l.is_right.unmet i j above k;
        };
        same = record {
          seen_same = l.same.seen_same;
          known_same = λ i j below. sym (e i j) ∙ l.same.known_same i j below;
        };
      }

  pub Same-refl : (k : ℕ) (m : Memo) → Same k m m
  Same-refl k m = record { seen_same = λ i j h. refl; known_same = λ i j h. refl }

  pub Same-trans : (k : ℕ) (a b c : Memo) → Same k a b → Same k b c → Same k a c
  Same-trans k a b c s t = record {
    seen_same = λ i j h. t.seen_same i j h ∙ s.seen_same i j h;
    known_same = λ i j h. t.known_same i j h ∙ s.known_same i j h;
  }

  -- A call at `pi` and `si` finds what the search finds there, and leaves the table right.
  pub record Done (pi si : ℕ) (m : Memo) (r : Memo × Result Bytes Bool) : Type 0 where
    pub finds : r.1 ≡ answer pi si
    pub leaves : (b : Bool) → r.1 ≡ ok b → Leaves pi si m r.0

  -- What a call further on leaves, from the table where this call is marked.
  unfoldable pub Ready : (pi si n : ℕ) → Memo → Memo × Result Bytes Bool → Type 0
  Ready pi si n m q = (b : Bool) → q.1 ≡ ok b → IsRight n q.0 × Same n (mark pi si m) q.0

  pub kept :
      (pi si n : ℕ) (m : Memo) (q : Memo × Result Bytes Bool)
      → IsRight (pi + si) m
      → m.seen pi si ≡ false
      → suc (pi + si) ≤ n
      → q.1 ≡ answer pi si
      → Ready pi si n m q
      → Done pi si m (keep pi si q)
  unfolding Ready
  kept pi si n m (m', err x) r new further e ready = record {
    finds = e;
    leaves = λ b h. absurd (cc);
  }
  kept pi si n m (m', ok a) r new further e ready = record {
    finds = e;
    leaves = λ b h. let (r', s) = ready a refl in finish pi si n a m m' r new further r' s (sym e);
  }

  -- Nothing is found, and the answer is not kept.
  pub unkept :
      (pi si n : ℕ) (m m' : Memo)
      → IsRight (pi + si) m
      → m.seen pi si ≡ false
      → suc (pi + si) ≤ n
      → answer pi si ≡ ok false
      → IsRight n m'
      → Same n (mark pi si m) m'
      → Done pi si m (m', ok false)
  unkept pi si n m m' r new further e r' s = record {
    finds = sym e;
    leaves = λ b h.
        forgotten pi si m m' (s.known_same pi si (omega arith) ∙ r.unmet pi si (omega arith) new)
          (finish pi si n false m m' r new further r' s e);
  }

  -- A state that was met before is answered from the table.
  pub met :
      (pi si : ℕ) (m : Memo)
      → IsRight (pi + si) m
      → m.seen pi si ≡ true
      → Done pi si m (m, ok (m.known pi si))
  met pi si m r old = record {
    finds = sym (r.right pi si (omega arith) old);
    leaves = λ b h. record { is_right = r; same = Same-refl (pi + si) m };
  }

  -- The call at the next parts, after a call that was marked.
  pub Ready-next :
      (pi si n i j : ℕ) (m : Memo) (q : Memo × Result Bytes Bool)
      → i + j ≡ n
      → Done i j (mark pi si m) q
      → Ready pi si n m q
  unfolding Ready
  Ready-next pi si n i j m q e d b h =
      let l = d.leaves b h in
      (subst (λ k. IsRight k q.0) e l.is_right, subst (λ k. Same k (mark pi si m) q.0) e l.same)

  -- The positions of a call, by what stands there.
  pub record At (pi si : ℕ) (ps ss : List Bytes) : Type 0 where
    pub pattern_at : drop pi pattern ≡ ps
    pub path_at : drop si path ≡ ss

  pub answer-At :
      (pi si : ℕ) (ps ss : List Bytes)
      → At pi si ps ss
      → answer pi si ≡ match_plain match_part ps ss
  answer-At pi si ps ss a = ap₂ (match_plain match_part) a.pattern_at a.path_at

  pub next_part :
      (pi si : ℕ) (p : Bytes) (ps ss : List Bytes) → At pi si (p ∷ ps) ss → At (suc pi) si ps ss
  next_part pi si p ps ss a = record {
    pattern_at = drop-suc pi pattern p ps a.pattern_at;
    path_at = a.path_at;
  }

  pub next_name :
      (pi si : ℕ) (ps : List Bytes) (s : Bytes) (ss : List Bytes)
      → At pi si ps (s ∷ ss)
      → At pi (suc si) ps ss
  next_name pi si ps s ss a = record {
    pattern_at = a.pattern_at;
    path_at = drop-suc si path s ss a.path_at;
  }
