-- ===== src/Gather.antt =====
-- internal/plantools/registryutil.go (ListImages) and pkg/registryutil/images.go (searchGHCR): goroutines
-- that each send what they find to one buffered channel, the goroutine that waits for them and closes it,
-- and the loop that receives until it is closed and empty. What is ready may go next; the channel keeps
-- the order. The child context that is cancelled behind the close is read by no one then.
pub mod Sound
pub mod Sent
pub mod Complete
use zbplan.Prelude.{
  ℕ, zero, suc, ◌<◌, Bool, true, false, ◌||◌, List, [], ◌∷◌, ◌++◌, map, ◌≡◌, length, All,
  if◌then◌else◌,
}

-- A goroutine that has not looked at its context yet, with what its work would find, or one that did and
-- still has to send; with nothing to send it is done.
pub data Worker (A : Type 0) : Type 0 where
  waiting : List A → Worker A
  sending : List A → Worker A

abbrev pub IsDone : {A : Type 0} → Worker A → Type 0
IsDone w = w ≡ sending []

-- The goroutines, the channel, the context, what was received, and whether a send met a closed channel.
pub record Gathering (A : Type 0) : Type 0 where
  pub workers : List (Worker A)
  pub buffer : List A
  pub closed : Bool
  pub cancelled : Bool
  pub received : List A
  pub panicked : Bool

-- A step, where the channel holds up to `capacity`.
pub data Step {A : Type 0} (capacity : ℕ) : Gathering A → Gathering A → Type 0 where
  -- The caller's context is cancelled.
  cancel : (s : Gathering A) → s.cancelled ≡ false → Step capacity s (record s { cancelled = true })
  -- `if ctx.Err() != nil { return }`; otherwise the work is done.
  begin :
      (s : Gathering A) (before : List (Worker A)) (found : List A) (after : List (Worker A))
      → s.workers ≡ before ++ waiting found ∷ after
      → Step capacity s
          (record s { workers = before ++ sending (if s.cancelled then [] else found) ∷ after })
  -- A send waits for room in the channel.
  send :
      (s : Gathering A) (before : List (Worker A)) (x : A) (xs : List A) (after : List (Worker A))
      → s.workers ≡ before ++ sending (x ∷ xs) ∷ after
      → length s.buffer < capacity
      → Step capacity s (record s {
        workers = before ++ sending xs ∷ after;
        buffer = s.buffer ++ x ∷ [];
        panicked = s.panicked || s.closed;
      })
  -- `wg.Wait(); close(resultChan)`
  close :
      (s : Gathering A)
      → All IsDone s.workers
      → s.closed ≡ false
      → Step capacity s (record s { closed = true })
  -- A round of the loop that receives.
  receive :
      (s : Gathering A) (x : A) (xs : List A)
      → s.buffer ≡ x ∷ xs
      → Step capacity s (record s { buffer = xs; received = s.received ++ x ∷ [] })

-- `n` steps
pub data Steps {A : Type 0} (capacity : ℕ) : ℕ → Gathering A → Gathering A → Type 0 where
  rest : (s : Gathering A) → Steps capacity zero s s
  more :
      {n : ℕ} {s t u : Gathering A}
      → Step capacity s t
      → Steps capacity n t u
      → Steps capacity (suc n) s u

abbrev pub start : {A : Type 0} → Bool → List (List A) → Gathering A
start cancelled found = record {
  workers = map (λ xs. waiting xs) found;
  buffer = [];
  closed = false;
  cancelled = cancelled;
  received = [];
  panicked = false;
}

-- The loop that receives has ended: the channel is closed, and empty.
pub record IsOver {A : Type 0} (s : Gathering A) : Type 0 where
  pub closed : s.closed ≡ true
  pub empty : s.buffer ≡ []

-- From a start, `got` is what the loop received when it ended; the context may be cancelled by then.
pub record IsGathered {A : Type 0} (capacity : ℕ) (cancelled : Bool) (found : List (List A))
    (later : Bool) (got : List A) : Type 0 where
  pub steps : ℕ
  pub final : Gathering A
  pub run : Steps capacity steps (start cancelled found) final
  pub over : IsOver final
  pub context : final.cancelled ≡ later
  pub all : final.received ≡ got

unfoldable pub concat : {A : Type 0} → List (List A) → List A
concat [] = []
concat (xs ∷ xss) = xs ++ concat xss
