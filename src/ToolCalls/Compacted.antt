-- ===== src/ToolCalls/Compacted.antt =====
-- What a rewritten message says, and that it stays.
use zbplan.Prelude.{
  ℕ, zero, suc, ◌≡◌, ◌⊎◌, refl, sym, ap, ◌≢◌, Option, some, get_elem?, ◌∙◌, true, not, ◌||◌, none,
  List, [], ◌∷◌, ◌++◌, map, Bytes, length, take, drop, arith, inl, inr, Bool-cases, Option-cases,
}
use zbplan.Store.Reads.{get-ref_for_call}
use zbplan.Store.{StoredToolOutput, ToolOutputStore, compaction_for_call, get, ref_for_call}
use zbplan.Store.Entries.{Entries}
use zbplan.Store.Evict.{Holds}
use zbplan.Strings.{has_prefix, has_prefix-append}
use zbplan.ToolCalls.{
  Message, latest_tool_round, rewrite_message, rewrite_history, replace_content, compacted_content,
  discarded_content, earlier_prefix,
}

compacted-has_prefix : (ref : Bytes) → has_prefix (compacted_content ref) earlier_prefix ≡ true
unfolding compacted_content
compacted-has_prefix ref = has_prefix-append earlier_prefix _

discarded-has_prefix : has_prefix discarded_content earlier_prefix ≡ true
unfolding discarded_content
discarded-has_prefix = has_prefix-append earlier_prefix _

module _ {Part InputPart : Type 0} (s : ToolOutputStore) where
  rewrite_message-role :
      (m : Message Part InputPart) → (rewrite_message s m).role_is_tool ≡ m.role_is_tool
  unfolding rewrite_message
  rewrite_message-role m = ground arith

  -- A message that begins with the marker is left as it is.
  rewrite_message_marked :
      (m : Message Part InputPart)
      → has_prefix m.content earlier_prefix ≡ true
      → rewrite_message s m ≡ m
  unfolding rewrite_message
  rewrite_message_marked m h = ground arith

  rewrite_message-cases :
      (m : Message Part InputPart)
      → (rewrite_message s m ≡ m)
        ⊎ ((rewrite_message s m ≡ replace_content m discarded_content)
            ⊎ (rewrite_message s m
                ≡ replace_content m (compacted_content (compaction_for_call s m.tool_call_id).ref)))
  unfolding rewrite_message
  rewrite_message-cases m = ground arith

get-outputs :
    (s : ToolOutputStore) (ref output : Bytes)
    → get s ref ≡ some output
    → (stored : StoredToolOutput) × (s.outputs ref ≡ some stored)
unfolding get
get-outputs s ref output h = elim (Option-cases (s.outputs ref)) [
  | inl e ↦ absurd (ground arith)
  | inr found ↦ found
]

module _ {A : Type 0} where
  some_equal : (a b : A) → ◌≡◌ {A = Option A} (some a) (some b) → a ≡ b
  some_equal a b h = cc

  get_elem?-map-take :
      (f : A → A) (k i : ℕ) (ms : List A) (m : A)
      → get_elem? ms i ≡ some m
      → (get_elem? (map f (take k ms) ++ drop k ms) i ≡ some (f m))
        ⊎ (get_elem? (map f (take k ms) ++ drop k ms) i ≡ some m)
  get_elem?-map-take f zero i ms m h = inr h
  get_elem?-map-take f (suc k) i [] m h = absurd (cc)
  get_elem?-map-take f (suc k) zero (x ∷ ms) m h = inl (ap some (ap f (some_equal x m h)))
  get_elem?-map-take f (suc k) (suc i) (x ∷ ms) m h = get_elem?-map-take f k i ms m h

  get_elem?-longer :
      (i : ℕ) (ms more : List A) (m : A)
      → get_elem? ms i ≡ some m
      → get_elem? (ms ++ more) i ≡ some m
  get_elem?-longer i [] more m h = absurd (cc)
  get_elem?-longer zero (x ∷ ms) more m h = h
  get_elem?-longer (suc i) (x ∷ ms) more m h = get_elem?-longer i ms more m h

module _ {Part InputPart : Type 0} where
  -- A message that rewriting changes begins with the marker.
  rewritten-has_prefix :
      (s : ToolOutputStore) (m : Message Part InputPart)
      → rewrite_message s m ≢ m
      → has_prefix (rewrite_message s m).content earlier_prefix ≡ true
  unfolding replace_content
  rewritten-has_prefix s m changed = elim (rewrite_message-cases s m) [
    | inl same ↦ absurd (changed same)
    | inr (inl e) ↦ rw e discarded-has_prefix
    | inr (inr e) ↦ rw e (compacted-has_prefix _)
  ]

  -- A message that was compacted or discarded before one model request stays as it is before a later one,
  -- whatever the store has become, and whatever messages follow by then.
  pub rewrite_history_stays :
      (s₁ s₂ : ToolOutputStore) (ms more : List (Message Part InputPart)) (i : ℕ)
      (m m' : Message Part InputPart)
      → get_elem? ms i ≡ some m
      → get_elem? (rewrite_history s₁ ms) i ≡ some m'
      → m' ≢ m
      → get_elem? (rewrite_history s₂ (rewrite_history s₁ ms ++ more)) i ≡ some m'
  unfolding rewrite_history
  rewrite_history_stays s₁ s₂ ms more i m m' was is changed =
      let k = latest_tool_round ms (length ms) in
      elim (get_elem?-map-take (rewrite_message s₁) k i ms m was) [
        | inr same ↦ absurd (changed (some_equal m' m (sym is ∙ same)))
        | inl rewritten ↦
            let e : m' ≡ rewrite_message s₁ m = some_equal m' _ (sym is ∙ rewritten) in
            let marked : has_prefix m'.content earlier_prefix ≡ true =
              ap (λ x. has_prefix x.content earlier_prefix) e
              ∙ rewritten-has_prefix s₁ m (λ h. changed (e ∙ h)) in
            let now = rewrite_history s₁ ms ++ more in
            let there = get_elem?-longer i (rewrite_history s₁ ms) more m' is in
            let j = latest_tool_round now (length now) in
            elim (get_elem?-map-take (rewrite_message s₂) j i now m' there) [
              | inr same ↦ same
              | inl again ↦ again ∙ ap some (rewrite_message_marked s₂ m' marked)
            ]
      ]

  -- In a store that holds some entries, a message is either left as it is, or says that its output
  -- was discarded, and then its call has no reference, or names the reference of its call, and then
  -- that reference leads to an output.
  pub rewrite_message-retrievable :
      (s : ToolOutputStore) (es : Entries) (m : Message Part InputPart)
      → Holds s es
      → (rewrite_message s m ≡ m)
        ⊎ (((ref_for_call s m.tool_call_id ≡ none)
              × (rewrite_message s m ≡ replace_content m discarded_content))
            ⊎ ((ref : Bytes) × (output : Bytes) × (ref_for_call s m.tool_call_id ≡ some ref)
                × (get s ref ≡ some output)
                × (rewrite_message s m ≡ replace_content m (compacted_content ref))))
  unfolding ref_for_call rewrite_message compaction_for_call
  rewrite_message-retrievable s es m h = elim (Option-cases (s.compactable_calls m.tool_call_id)) [
    | inl small ↦ inl (ground arith)
    | inr (_, large) ↦ elim (Option-cases (s.call_refs m.tool_call_id)) [
      | inl lost ↦ ground arith
      | inr (ref, kept) ↦
          let (output, seen) = get-ref_for_call s es m.tool_call_id ref h kept in
          let (stored, found) = get-outputs s ref output seen in
          elim (Bool-cases (not m.role_is_tool || has_prefix m.content earlier_prefix)) [
            | inl skipped ↦ inl (rw skipped refl)
            | inr visited ↦ inr (inr (ref, output, kept, seen, ground arith))
          ]
    ]
  ]
