-- ===== src/Gather/Complete.antt =====
-- The loop receives what the goroutines send: all of what each found, or nothing of it where its context
-- was cancelled before it began.
use mathlib.Core.List.{Permᴰ}
use mathlib.Core.Path.{subst}
use zbplan.Gather.{
  Worker, waiting, IsDone, Gathering, Step, Steps, rest, more, start, IsOver, IsGathered, concat,
}
use zbplan.Gather.Sent.{Sends, AllSend, Steps-IsDelivered}
use zbplan.Gather.Sound.{Steps-IsSound, step_or_over, Step-workers, finish, run_length}
use zbplan.Prelude.{
  ℕ, ◌+◌, ◌*◌, ◌≤◌, ◌<◌, Bool, true, false, List, [], ◌∷◌, ◌++◌, map, ◌≡◌, ◌≢◌, ◌⊎◌, inl, inr, refl,
  ap, ◌∙◌, length, All, arith, Permᴰ-length,
}

module _ {A : Type 0} where
  -- Each goroutine sent all that it found, or nothing.
  unfoldable pub EachOrNone : List (List A) → List (List A) → Type 0
  EachOrNone [] [] = Unit
  EachOrNone [] (y ∷ ys) = ⊥
  EachOrNone (xs ∷ found) [] = ⊥
  EachOrNone (xs ∷ found) (y ∷ ys) = ((y ≡ xs) ⊎ (y ≡ [])) × EachOrNone found ys

  -- What was received when the loop ended: from each goroutine all that it found or nothing, in some order;
  -- all of it where the context was not cancelled by then, and nothing where it was from the start.
  pub record IsCollected (cancelled later : Bool) (found : List (List A)) (got : List A)
      : Type 0 where
    pub sent : List (List A)
    pub parts : EachOrNone found sent
    pub all : Permᴰ (concat sent) got
    pub whole : later ≡ false → Permᴰ (concat found) got
    pub nothing : cancelled ≡ true → got ≡ []

  abbrev fresh : List (List A) → List (Worker A)
  fresh found = map (λ xs. waiting xs) found

  AllSend-parts :
      (now later : Bool) (found sent : List (List A))
      → AllSend now later (fresh found) sent
      → EachOrNone found sent × (later ≡ false → sent ≡ found) × (now ≡ true → concat sent ≡ [])
  unfolding AllSend Sends EachOrNone concat
  AllSend-parts now later [] [] h = (tt, λ e. refl, λ e. refl)
  AllSend-parts now later [] (y ∷ ys) h = absurd h
  AllSend-parts now later (xs ∷ found) [] h = absurd h
  AllSend-parts now later (xs ∷ found) (y ∷ ys) (inl (e, k), h) =
      let (parts, whole, none) = AllSend-parts now later found ys h in
      ((inl k, parts), λ l. ap (λ x. x ∷ ys) k ∙ ap (◌∷◌ xs) (whole l), λ n. absurd (cc (n, e)))
  AllSend-parts now later (xs ∷ found) (y ∷ ys) (inr (e, k), h) =
      let (parts, whole, none) = AllSend-parts now later found ys h in
      ((inr k, parts), λ l. absurd (cc (l, e)), λ n. ap (λ x. x ++ concat ys) k ∙ none n)

  Permᴰ-nil : (xs got : List A) → xs ≡ [] → Permᴰ xs got → got ≡ []
  Permᴰ-nil xs [] e p = refl
  Permᴰ-nil xs (x ∷ got) e p =
      let n = Permᴰ-length xs (x ∷ got) p in let z = ap length e in absurd (omega (arith, n, z))

  collected :
      {capacity n : ℕ} {t : Gathering A} (cancelled : Bool) (found : List (List A))
      → Steps capacity n (start cancelled found) t
      → IsOver t
      → IsCollected cancelled t.cancelled found t.received
  collected {capacity} {t = t} cancelled found run over =
      let sound = Steps-IsSound capacity run (record { done = λ c. absurd (cc); safe = refl }) in
      let d = Steps-IsDelivered run sound over in
      let (parts, whole, none) = AllSend-parts cancelled t.cancelled found d.sent d.sends in
      record {
        sent = d.sent;
        parts = parts;
        all = d.all;
        whole = λ l. subst (λ l. Permᴰ (concat l) t.received) (whole l) d.all;
        nothing = λ c. Permᴰ-nil (concat d.sent) t.received (none c) d.all;
      }

  -- A state that a run reaches in `k` steps.
  pub record IsRunning (capacity : ℕ) (cancelled : Bool) (found : List (List A)) (k : ℕ)
      (s : Gathering A) : Type 0 where
    pub closed : s.closed ≡ true → All IsDone s.workers
    pub safe : s.panicked ≡ false
    pub bounded : k ≤ length found + 2 * length (concat found) + 2
    pub goes_on : ((t : Gathering A) × Step capacity s t) ⊎ IsOver s
    pub ends : (t : Gathering A) × (n : ℕ) × Steps capacity n s t × IsOver t
    pub collected : IsOver s → IsCollected cancelled s.cancelled found s.received

  Steps-workers :
      {capacity n : ℕ} {s t : Gathering A} → Steps capacity n s t → t.workers ≢ [] → s.workers ≢ []
  Steps-workers (rest s) h = h
  Steps-workers {capacity} (more d r) h = Step-workers capacity d (Steps-workers r h)

  -- In whatever order goroutines, sends and receipts come, and whenever the context is cancelled, where the
  -- channel holds at least one if there are goroutines: in each state that is reached, the channel is
  -- closed only if all goroutines are done, and nothing was sent on a closed channel. No run is longer
  -- than a bound; from each state a step leads on, or the loop has ended with the channel closed and empty,
  -- and this end can be reached. At the end, each goroutine's finds were received whole or not at all: all
  -- of them where the context was never cancelled, none where it was from the start.
  pub delivers :
      (capacity : ℕ) (cancelled : Bool) (found : List (List A)) (k : ℕ) (s : Gathering A)
      → (found ≢ [] → 0 < capacity)
      → Steps capacity k (start cancelled found) s
      → IsRunning capacity cancelled found k s
  delivers capacity cancelled found k s room run =
      let sound = Steps-IsSound capacity run (record { done = λ c. absurd (cc); safe = refl }) in
      let room' : s.workers ≢ [] → 0 < capacity =
        λ h. room (λ e. Steps-workers run h (ap fresh e)) in
      record {
        closed = sound.done;
        safe = sound.safe;
        bounded = run_length capacity cancelled found run;
        goes_on = step_or_over capacity s room';
        ends = finish capacity s room';
        collected = collected cancelled found run;
      }

  pub IsGathered-IsCollected :
      (capacity : ℕ) (cancelled : Bool) (found : List (List A)) (later : Bool) (got : List A)
      → IsGathered capacity cancelled found later got
      → IsCollected cancelled later found got
  IsGathered-IsCollected capacity cancelled found later got g =
      subst (λ l. IsCollected cancelled l found got) g.context
        (subst (IsCollected cancelled g.final.cancelled found) g.all
          (collected cancelled found g.run g.over))

  -- Something is gathered.
  pub gathers :
      (capacity : ℕ) (cancelled : Bool) (found : List (List A))
      → (found ≢ [] → 0 < capacity)
      → (later : Bool) × (got : List A) × IsGathered capacity cancelled found later got
  gathers capacity cancelled found room =
      let (t, n, run, over) =
        (delivers capacity cancelled found 0 (start cancelled found) room
          (rest (start cancelled found))).ends in
      (
        t.cancelled,
        t.received,
        record { steps = n; final = t; run = run; over = over; context = refl; all = refl },
      )
