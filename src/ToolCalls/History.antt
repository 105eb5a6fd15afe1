-- ===== src/ToolCalls/History.antt =====
-- The history rewriter leaves the latest tool round alone, and what it takes away stays readable.
use zbplan.Prelude.{
  ℕ, zero, suc, ◌-◌, ◌≤◌, ◌<◌, ◌≡◌, ◌⊎◌, refl, true, false, List, [], ◌∷◌, ◌++◌, map, length, take,
  drop, get_elem?, arith, inl, inr, Bool-cases, lt_or_le,
}
use zbplan.Store.{ToolOutputStore}
use zbplan.ToolCalls.{Message, is_tool_at, latest_tool_round, rewrite_message, rewrite_history}

lt_or_top : (i n : ℕ) → i < suc n → (i < n) ⊎ (i ≡ n)
lt_or_top i n h = grind arith

-- Where the loop stops: behind it there are tool messages only, and before it there is another.
record IsLatestRound {Part InputPart : Type 0} (ms : List (Message Part InputPart)) (n k : ℕ)
    : Type 0 where
  below : k ≤ n
  tools : (i : ℕ) → k ≤ i → i < n → is_tool_at ms i ≡ true
  stopped : (j : ℕ) → k ≡ suc j → is_tool_at ms j ≡ false

module _ {Part InputPart : Type 0} where
  latest_tool_round-IsLatestRound :
      (ms : List (Message Part InputPart)) (n : ℕ) → IsLatestRound ms n (latest_tool_round ms n)
  unfolding latest_tool_round
  latest_tool_round-IsLatestRound ms zero = record {
    below = omega arith;
    tools = λ i h k. absurd (omega arith);
    stopped = λ j e. absurd (omega arith);
  }
  latest_tool_round-IsLatestRound ms (suc n) = elim (Bool-cases (is_tool_at ms n)) [
    | inl tool ↦
        let ih = latest_tool_round-IsLatestRound ms n in
        rw tool (record {
          below = omega (arith, ih.below);
          tools = λ i h k. elim (lt_or_top i n k) [
            | inl lower ↦ ih.tools i h lower
            | inr top ↦ rw top tool
          ];
          stopped = ih.stopped;
        })
    | inr other ↦ rw other (record {
      below = omega arith;
      tools = λ i h k. absurd (omega arith);
      stopped = λ j e. let e' : j ≡ n = omega arith in rw e' other;
    })
  ]

  pub is_tool_at-append :
      (f : Message Part InputPart → Message Part InputPart)
      → ((m : Message Part InputPart) → (f m).role_is_tool ≡ m.role_is_tool)
      → (k : ℕ) (ms : List (Message Part InputPart)) (i : ℕ)
      → is_tool_at (map f (take k ms) ++ drop k ms) i ≡ is_tool_at ms i
  unfolding is_tool_at
  is_tool_at-append f same zero ms i = refl
  is_tool_at-append f same (suc k) [] i = refl
  is_tool_at-append f same (suc k) (m ∷ ms) zero = same m
  is_tool_at-append f same (suc k) (m ∷ ms) (suc i) = is_tool_at-append f same k ms i

  get_elem?-rewritten :
      (f : Message Part InputPart → Message Part InputPart) (k : ℕ)
      (ms : List (Message Part InputPart)) (i : ℕ)
      → (i < k
          → get_elem? (map f (take k ms) ++ drop k ms) i
            ≡ mathlib.Core.Option.map f (get_elem? ms i))
        × (k ≤ i → get_elem? (map f (take k ms) ++ drop k ms) i ≡ get_elem? ms i)
  get_elem?-rewritten f zero ms i = (λ h. absurd (omega arith), λ h. refl)
  get_elem?-rewritten f (suc k) [] i = (λ h. refl, λ h. refl)
  get_elem?-rewritten f (suc k) (m ∷ ms) zero = (λ h. refl, λ h. absurd (omega arith))
  get_elem?-rewritten f (suc k) (m ∷ ms) (suc i) =
      let ih = get_elem?-rewritten f k ms i in (λ h. ih.0 (omega arith), λ h. ih.1 (omega arith))

  is_tool_at-length :
      (ms : List (Message Part InputPart)) (i : ℕ) → is_tool_at ms i ≡ true → i < length ms
  unfolding is_tool_at
  is_tool_at-length [] i h = absurd (cc)
  is_tool_at-length (m ∷ ms) zero h = omega arith
  is_tool_at-length (m ∷ ms) (suc i) h = omega (arith, is_tool_at-length ms i h)

  -- A message is rewritten exactly if it stands before some message that is no tool result, itself
  -- included: those of the latest tool round are left alone, and every earlier one is visited.
  pub rewrite_history-get_elem? :
      (s : ToolOutputStore) (ms : List (Message Part InputPart)) (i : ℕ)
      → ((j : ℕ)
          → i ≤ j
          → j < length ms
          → is_tool_at ms j ≡ false
          → get_elem? (rewrite_history s ms) i
            ≡ mathlib.Core.Option.map (rewrite_message s) (get_elem? ms i))
        × (((j : ℕ) → i ≤ j → j < length ms → is_tool_at ms j ≡ true)
            → get_elem? (rewrite_history s ms) i ≡ get_elem? ms i)
  unfolding rewrite_history
  rewrite_history-get_elem? s ms i =
      let k = latest_tool_round ms (length ms) in
      let l = latest_tool_round-IsLatestRound ms (length ms) in
      let r = get_elem?-rewritten (rewrite_message s) k ms i in
      (
        λ j h inside other. elim (lt_or_le j k) [
          | inl before ↦ r.0 (omega arith)
          | inr behind ↦ absurd (cc (l.tools j behind inside, other))
        ],
        λ all. elim (lt_or_le i k) [
          | inl before ↦
              let e : k ≡ suc (k - 1) = omega arith in
              absurd (cc (l.stopped (k - 1) e, all (k - 1) (omega arith) (omega (arith, l.below))))
          | inr behind ↦ r.1 behind
        ],
      )
