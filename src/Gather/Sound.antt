-- ===== src/Gather/Sound.antt =====
-- The channel is closed once, behind all sends; the goroutines and the loop never wait for each other
-- forever, and every run ends.
use zbplan.Gather.{
  Worker, waiting, sending, IsDone, Gathering, Step, cancel, begin, send, close, receive, Steps,
  rest, more, start, IsOver, concat,
}
use zbplan.Prelude.{
  ℕ, zero, suc, ◌+◌, ◌*◌, ◌≤◌, ◌<◌, Bool, true, false, List, [], ◌∷◌, ◌++◌, map, ◌≡◌, ◌≢◌, ◌⊎◌, inl,
  inr, refl, sym, ap, ◌∙◌, length, length-append, All, if◌then◌else◌, Bool-cases, arith,
}
use mathlib.Core.Path.{subst}

module _ {A : Type 0} (capacity : ℕ) where
  -- What holds in every state that is reached.
  pub record IsSound (s : Gathering A) : Type 0 where
    pub done : s.closed ≡ true → All IsDone s.workers
    pub safe : s.panicked ≡ false

  All-middle :
      (P : Worker A → Type 0) (before : List (Worker A)) (w : Worker A) (after : List (Worker A))
      → All P (before ++ w ∷ after)
      → P w
  All-middle P [] w after (p, h) = p
  All-middle P (v ∷ before) w after (p, h) = All-middle P before w after h

  not_done :
      (s : Gathering A) (before : List (Worker A)) (w : Worker A) (after : List (Worker A))
      → s.workers ≡ before ++ w ∷ after
      → ¬ IsDone w
      → IsSound s
      → s.closed ≡ false
  not_done s before w after e busy h = elim (Bool-cases (s.closed)) [
    | inr still ↦ still
    | inl closed ↦
        absurd (busy (All-middle IsDone before w after (subst (All IsDone) e (h.done closed))))
  ]

  Step-IsSound : {s t : Gathering A} → Step capacity s t → IsSound s → IsSound t
  Step-IsSound (cancel s e) h = record { done = h.done; safe = h.safe }
  Step-IsSound (begin s before found after e) h =
      let still = not_done s before (waiting found) after e (λ d. absurd (cc)) h in
      record { done = λ c. absurd (cc (c, still)); safe = h.safe }
  Step-IsSound (send s before x xs after e room) h =
      let still = not_done s before (sending (x ∷ xs)) after e (λ d. absurd (cc)) h in
      let safe = h.safe in record { done = λ c. absurd (cc (c, still)); safe = ground arith }
  Step-IsSound (close s done still) h = record { done = λ c. done; safe = h.safe }
  Step-IsSound (receive s x xs e) h = record { done = h.done; safe = h.safe }

  pub Steps-IsSound : {n : ℕ} {s t : Gathering A} → Steps capacity n s t → IsSound s → IsSound t
  Steps-IsSound (rest s) h = h
  Steps-IsSound (more d r) h = Steps-IsSound r (Step-IsSound d h)

  -- The steps that a goroutine still makes, with the receipt of what it sends.
  weight : Worker A → ℕ
  weight (waiting xs) = suc (2 * length xs)
  weight (sending xs) = 2 * length xs

  weights : List (Worker A) → ℕ
  weights [] = 0
  weights (w ∷ ws) = weight w + weights ws

  weights-append :
      (before after : List (Worker A)) → weights (before ++ after) ≡ weights before + weights after
  unfolding weights
  weights-append [] after = omega arith
  weights-append (w ∷ before) after = omega (arith, weights-append before after)

  -- The steps that may follow a state.
  measure : Gathering A → ℕ
  measure s =
      weights s.workers
      + length s.buffer
      + ((if s.closed then 0 else 1) + (if s.cancelled then 0 else 1))

  weights-middle :
      (before : List (Worker A)) (w : Worker A) (after : List (Worker A))
      → weights (before ++ w ∷ after) ≡ weights before + (weight w + weights after)
  weights-middle before w after = unfold weights in weights-append before (w ∷ after)

  Step-measure : {s t : Gathering A} → Step capacity s t → suc (measure t) ≤ measure s
  unfolding measure weight
  Step-measure (cancel s e) = rw e (omega arith)
  Step-measure (begin s before found after e) =
      let from = ap weights e in
      let to = weights-middle before (waiting found) after in
      elim (Bool-cases (s.cancelled)) [
        | inl stop ↦
            let now = weights-middle before (sending []) after in
            rw stop (omega (arith, from, to, now))
        | inr go ↦
            let now = weights-middle before (sending found) after in
            rw go (omega (arith, from, to, now))
      ]
  Step-measure (send s before x xs after e room) =
      let from = ap weights e in
      let to = weights-middle before (sending (x ∷ xs)) after in
      let now = weights-middle before (sending xs) after in
      let longer = length-append s.buffer (x ∷ []) in omega (arith, from, to, now, longer)
  Step-measure (close s done still) = rw still (omega arith)
  Step-measure (receive s x xs e) = let shorter = ap length e in omega (arith, shorter)

  Steps-measure : {n : ℕ} {s t : Gathering A} → Steps capacity n s t → n + measure t ≤ measure s
  Steps-measure (rest s) = omega arith
  Steps-measure (more d r) =
      let a = Step-measure d in let b = Steps-measure r in omega (arith, a, b)

  -- All are done, or one is not.
  record IsBusy (ws : List (Worker A)) : Type 0 where
    before : List (Worker A)
    worker : Worker A
    after : List (Worker A)
    parts : ws ≡ before ++ worker ∷ after
    busy : ¬ IsDone worker

  IsBusy-or_IsDone : (ws : List (Worker A)) → IsBusy ws ⊎ All IsDone ws
  IsBusy-or_IsDone [] = inr tt
  IsBusy-or_IsDone (w ∷ ws) = elim (is_done w) [
    | inr b ↦ inl (record { before = []; worker = w; after = ws; parts = refl; busy = b })
    | inl d ↦ elim (IsBusy-or_IsDone ws) [
      | inr ds ↦ inr (d, ds)
      | inl b ↦ inl (record {
        before = w ∷ b.before;
        worker = b.worker;
        after = b.after;
        parts = ap (◌∷◌ w) b.parts;
        busy = b.busy;
      })
    ]
  ]
    where
      is_done : (w : Worker A) → IsDone w ⊎ (¬ IsDone w)
      is_done (waiting xs) = inr (λ e. absurd (cc))
      is_done (sending []) = inl refl
      is_done (sending (x ∷ xs)) = inr (λ e. absurd (cc))

  -- Where the channel has room for one, a state is over or has a step.
  pub step_or_over :
      (s : Gathering A)
      → (s.workers ≢ [] → 0 < capacity)
      → ((t : Gathering A) × Step capacity s t) ⊎ IsOver s
  step_or_over s room = elim (nonempty s.buffer) [
    | inl (x, xs, e) ↦ inl (_, receive s x xs e)
    | inr empty ↦ elim (IsBusy-or_IsDone s.workers) [
      | inr done ↦ elim (Bool-cases (s.closed)) [
        | inl closed ↦ inr (record { closed = closed; empty = empty })
        | inr still ↦ inl (_, close s done still)
      ]
      | inl b ↦ inl (next b.worker b empty refl)
    ]
  ]
    where
      nonempty : (xs : List A) → ((x : A) × (ys : List A) × (xs ≡ x ∷ ys)) ⊎ (xs ≡ [])
      nonempty [] = inr refl
      nonempty (x ∷ xs) = inl (x, xs, refl)

      some_worker :
          (before : List (Worker A)) (w : Worker A) (after : List (Worker A))
          → before ++ w ∷ after ≢ []
      some_worker [] w after e = absurd (cc)
      some_worker (v ∷ before) w after e = absurd (cc)

      next :
          (w : Worker A) (b : IsBusy s.workers)
          → s.buffer ≡ []
          → b.worker ≡ w
          → (t : Gathering A) × Step capacity s t
      next (waiting xs) b empty e =
          (_, begin s b.before xs b.after (b.parts ∙ ap (λ w. b.before ++ w ∷ b.after) e))
      next (sending []) b empty e = absurd (b.busy e)
      next (sending (x ∷ xs)) b empty e =
          let short = ap length empty in
          let cap = room (λ none. some_worker b.before b.worker b.after (sym b.parts ∙ none)) in
          (
            _,
            send s b.before x xs b.after (b.parts ∙ ap (λ w. b.before ++ w ∷ b.after) e)
                (omega (arith, short, cap)),
          )

  -- No step adds goroutines or takes them away.
  none_left :
      (before : List (Worker A)) (v w : Worker A) (after : List (Worker A))
      → before ++ v ∷ after ≢ []
  none_left [] v w after e = absurd (cc)
  none_left (u ∷ before) v w after e = absurd (cc)

  pub Step-workers : {s t : Gathering A} → Step capacity s t → t.workers ≢ [] → s.workers ≢ []
  Step-workers (cancel s e) h = h
  Step-workers (begin s before found after e) h =
      λ z. none_left before (waiting found) (sending found) after (sym e ∙ z)
  Step-workers (send s before x xs after e room) h =
      λ z. none_left before (sending (x ∷ xs)) (sending xs) after (sym e ∙ z)
  Step-workers (close s done still) h = h
  Step-workers (receive s x xs e) h = h

  finish_in :
      (fuel : ℕ) (s : Gathering A)
      → measure s ≤ fuel
      → (s.workers ≢ [] → 0 < capacity)
      → (t : Gathering A) × (n : ℕ) × Steps capacity n s t × IsOver t
  finish_in zero s le room = elim (step_or_over s room) [
    | inr over ↦ (s, 0, rest s, over)
    | inl (t, d) ↦ let a = Step-measure d in absurd (omega (arith, a, le))
  ]
  finish_in (suc fuel) s le room = elim (step_or_over s room) [
    | inr over ↦ (s, 0, rest s, over)
    | inl (t, d) ↦
        let a = Step-measure d in
        let (u, n, run, over) =
          finish_in fuel t (omega (arith, a, le)) (λ h. room (Step-workers d h)) in
        (u, suc n, more d run, over)
  ]

  -- From each state a run reaches the end.
  pub finish :
      (s : Gathering A)
      → (s.workers ≢ [] → 0 < capacity)
      → (t : Gathering A) × (n : ℕ) × Steps capacity n s t × IsOver t
  finish s room = finish_in (measure s) s (omega arith) room

  weights-map :
      (found : List (List A))
      → weights (map (λ xs. waiting xs) found) ≡ length found + 2 * length (concat found)
  unfolding weights weight concat
  weights-map [] = omega arith
  weights-map (xs ∷ found) = omega (arith, weights-map found, length-append xs (concat found))

  -- No run is longer than this.
  pub run_length :
      {n : ℕ} {t : Gathering A} (cancelled : Bool) (found : List (List A))
      → Steps capacity n (start cancelled found) t
      → n ≤ length found + 2 * length (concat found) + 2
  unfolding measure
  run_length cancelled found run =
      let a = Steps-measure run in
      let b = weights-map found in
      elim (Bool-cases cancelled) [
        | inl c ↦ let a' = rw c at a in omega (arith, a', b)
        | inr c ↦ let a' = rw c at a in omega (arith, a', b)
      ]
