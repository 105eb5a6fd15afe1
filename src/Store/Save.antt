-- ===== src/Store/Save.antt =====
-- `saveCall` against the abstract view: a first-in-first-out window of the outputs, by size.
use mathlib.Core.Path.{subst}
use zbplan.Prelude.{
  ℕ, ◌+◌, ◌-◌, ◌%◌, ◌^◌, ◌≤◌, ◌<◌, ◌≡◌, refl, ap, sym, ◌∙◌, ◌≢◌, ◌⊎◌, inl, inr, true, false, none,
  some, [], ◌∷◌, ◌++◌, arith, Bytes, beq_iff, beq_refl, ltb, if◌then◌else◌, Bool-cases,
}
use zbplan.Store.{
  StoredToolOutput, ToolOutputStore, ref_name, evict_loop, mark_compactable, append_output,
  entry_size_of, save_call, insert, delete,
}
use zbplan.Store.Entries.{
  Entries, total, refs, find, trim, Ordered, total-append, refs-append, Ordered-weaken,
  Ordered-raise, Ordered-snoc, find_above, find_snoc,
}
use zbplan.Store.Evict.{Holds, evict_loop-Holds}

-- The entry that a call of `saveCall` makes under the number `n`.
unfoldable pub entry : ℕ → Bytes → Bytes → Bytes → Bytes → StoredToolOutput
entry n call_id tool_name args output = record {
  call_id = call_id;
  tool_name = tool_name;
  args = args;
  value = output;
  size = entry_size_of (ref_name n) call_id tool_name args output;
}

-- What `saveCall` promises: an entry above the capacity is not kept; any other comes last, and the
-- oldest entries give way to it, no more of them than needed.
unfoldable pub push : ℕ → Entries → ℕ → StoredToolOutput → Entries
push cap es n stored =
    if ltb cap stored.size then es else trim (cap - stored.size) es ++ (n, stored) ∷ []

pub trim-Ordered :
    (budget lo hi : ℕ) (es : Entries) → Ordered lo es hi → Ordered lo (trim budget es) hi
unfolding trim
trim-Ordered budget lo hi [] o = o
trim-Ordered budget lo hi ((n, stored) ∷ es) (below, o) =
    elim (Bool-cases (ltb budget (stored.size + total es))) [
      | inl over ↦
          rw over (trim-Ordered budget lo hi es (Ordered-weaken lo n hi es (omega arith) o))
      | inr room ↦ rw room (below, o)
    ]

pub total-trim : (budget : ℕ) (es : Entries) → total (trim budget es) ≤ budget
unfolding trim total
total-trim budget [] = omega arith
total-trim budget ((n, stored) ∷ es) = ground (arith, total-trim budget es)

pub mark_compactable-rest :
    (s : ToolOutputStore) (call_id output : Bytes)
    → ((mark_compactable s call_id output).order ≡ s.order)
      × ((mark_compactable s call_id output).outputs ≡ s.outputs)
      × ((mark_compactable s call_id output).total_bytes ≡ s.total_bytes)
      × ((mark_compactable s call_id output).call_refs ≡ s.call_refs)
      × ((mark_compactable s call_id output).max_bytes ≡ s.max_bytes)
unfolding mark_compactable
mark_compactable-rest s call_id output = ground arith

-- `compactable_calls` is free, and the counter may go up.
Holds-of_rest :
    (s t : ToolOutputStore) (es : Entries)
    → t.order ≡ s.order
    → t.outputs ≡ s.outputs
    → t.total_bytes ≡ s.total_bytes
    → t.call_refs ≡ s.call_refs
    → s.next_ref ≤ t.next_ref
    → Holds s es
    → Holds t es
Holds-of_rest s t es order outputs bytes calls le h = record {
  order = order ∙ h.order;
  outputs = λ ref. ap (λ f. f ref) outputs ∙ h.outputs ref;
  total_of = bytes ∙ h.total_of;
  ordered = Ordered-raise 0 s.next_ref t.next_ref es le h.ordered;
  calls = λ call_id ref e. h.calls call_id ref (sym (ap (λ f. f call_id) calls) ∙ e);
}

module _ (s : ToolOutputStore) (hi n : ℕ) (stored : StoredToolOutput) (es : Entries)
    (h : Holds s es) (o : Ordered 0 es hi) (above : hi < n) where
  fresh : find (ref_name n) es ≡ none
  fresh = find_above n 0 hi es above o

  append_output-rest :
      ((append_output s (ref_name n) stored).order ≡ s.order ++ ref_name n ∷ [])
      × ((append_output s (ref_name n) stored).total_bytes ≡ s.total_bytes + stored.size)
      × ((append_output s (ref_name n) stored).next_ref ≡ s.next_ref)
      × ((append_output s (ref_name n) stored).max_bytes ≡ s.max_bytes)
      × ((append_output s (ref_name n) stored).compactable_calls ≡ s.compactable_calls)
      × ((append_output s (ref_name n) stored).outputs ≡ insert s.outputs (ref_name n) stored)
  unfolding append_output
  append_output-rest = ground arith

  append_output-outputs :
      (ref : Bytes)
      → (append_output s (ref_name n) stored).outputs ref ≡ find ref (es ++ (n, stored) ∷ [])
  append_output-outputs ref =
      ground (
        arith,
        ap (λ f. f ref) append_output-rest.5,
        find_snoc ref n stored es fresh,
        h.outputs ref,
      )

  append_output-calls_cases :
      (call_id ref : Bytes)
      → (append_output s (ref_name n) stored).call_refs call_id ≡ some ref
      → (s.call_refs call_id ≡ some ref)
        ⊎ ((ref ≡ ref_name n) × (stored.call_id ≡ call_id) × (call_id ≢ []))
  unfolding append_output
  append_output-calls_cases call_id ref e =
      ground (arith, beq_iff stored.call_id [], beq_iff stored.call_id call_id)

  append_output-calls :
      (call_id ref : Bytes)
      → (append_output s (ref_name n) stored).call_refs call_id ≡ some ref
      → (kept : StoredToolOutput) × (find ref (es ++ (n, stored) ∷ []) ≡ some kept)
        × (kept.call_id ≡ call_id)
        × (call_id ≢ [])
  append_output-calls call_id ref e = elim (append_output-calls_cases call_id ref e) [
    | inl old ↦
        let (kept, found, named, nonempty) = h.calls call_id ref old in
        (
          kept,
          ground (arith, find_snoc ref n stored es fresh, beq_iff (ref_name n) ref, fresh),
          named,
          nonempty,
        )
    | inr (e', named, nonempty) ↦ (
      stored,
      rw e' (find_snoc (ref_name n) n stored es fresh ∙ ground (arith, beq_refl (ref_name n))),
      named,
      nonempty,
    )
  ]

  append_output-Holds :
      s.next_ref ≡ n → Holds (append_output s (ref_name n) stored) (es ++ (n, stored) ∷ [])
  unfolding total refs
  append_output-Holds e = record {
    order = rw (append_output-rest.0, h.order, refs-append es ((n, stored) ∷ [])) refl;
    outputs = append_output-outputs;
    total_of =
        rw (append_output-rest.1, total-append es ((n, stored) ∷ []), h.total_of) (omega arith);
    ordered = rw (append_output-rest.2, e) (Ordered-snoc 0 hi n es stored o above);
    calls = append_output-calls;
  }

module _ (s : ToolOutputStore) (es : Entries) (h : Holds s es)
    (call_id tool_name args output : Bytes) (room : s.next_ref + 1 < 2 ^ 64) where
  abbrev pub n : ℕ
  n = s.next_ref + 1

  abbrev pub stored : StoredToolOutput
  stored = entry n call_id tool_name args output

  abbrev pub ready : ToolOutputStore
  ready = record (mark_compactable s call_id output) { next_ref = n }

  next_ref_exact : (s.next_ref + 1) % 2 ^ 64 ≡ n
  next_ref_exact = omega arith

  pub ready-Holds : Holds ready es
  ready-Holds =
      let (order, outputs, bytes, calls, _) = mark_compactable-rest s call_id output in
      Holds-of_rest s ready es order outputs bytes calls (omega arith) h

  -- What `saveCall` computes, by the size of the entry.
  pub save_call_too_large :
      ltb s.max_bytes stored.size ≡ true
      → save_call s call_id tool_name args output
        ≡ (record ready { call_refs = delete ready.call_refs call_id }, [])
  unfolding save_call entry
  save_call_too_large big = rw (next_ref_exact, big) refl

  save_call_order :
      ltb s.max_bytes stored.size ≡ false
      → save_call s call_id tool_name args output
        ≡ (append_output (evict_loop stored.size ready.order ready) (ref_name n) stored, ref_name n)
  unfolding save_call entry
  save_call_order fits = rw (next_ref_exact, fits) refl

  pub save_call_kept :
      ltb s.max_bytes stored.size ≡ false
      → save_call s call_id tool_name args output
        ≡ (append_output (evict_loop stored.size (refs es) ready) (ref_name n) stored, ref_name n)
  save_call_kept fits =
      save_call_order fits
      ∙ ap (λ l. (append_output (evict_loop stored.size l ready) (ref_name n) stored, ref_name n))
          ready-Holds.order

  dropped : ToolOutputStore
  dropped = record ready { call_refs = delete ready.call_refs call_id }

  dropped-Holds : Holds dropped es
  unfolding dropped
  dropped-Holds = record {
    order = ready-Holds.order;
    outputs = ready-Holds.outputs;
    total_of = ready-Holds.total_of;
    ordered = ready-Holds.ordered;
    calls = λ c ref e. ready-Holds.calls c ref (ground arith);
  }

  -- The store `t` holds what it should after the call.
  abbrev pub Saved : ToolOutputStore → Type 0
  Saved t = Holds t (push s.max_bytes es n stored) × (t.next_ref ≡ n) × (t.max_bytes ≡ s.max_bytes)

  dropped-Saved : ltb s.max_bytes stored.size ≡ true → Saved dropped
  unfolding dropped push
  dropped-Saved big = rw big (dropped-Holds, refl, (mark_compactable-rest s call_id output).4)

  kept-Saved :
      ltb s.max_bytes stored.size ≡ false
      → Saved (append_output (evict_loop stored.size (refs es) ready) (ref_name n) stored)
  unfolding push
  kept-Saved fits =
      let m = (mark_compactable-rest s call_id output).4 in
      let (kept, n', m', _) =
        evict_loop-Holds stored.size s.max_bytes es ready m (ground arith) ready-Holds in
      let o = trim-Ordered (s.max_bytes - stored.size) 0 s.next_ref es h.ordered in
      let loop = evict_loop stored.size (refs es) ready in
      let es' = trim (s.max_bytes - stored.size) es in
      let rest = append_output-rest loop s.next_ref n stored es' kept o (omega arith) in
      rw fits (
        append_output-Holds loop s.next_ref n stored es' kept o (omega arith) n',
        rest.2 ∙ n',
        rest.3 ∙ m',
      )

  pub save_call-Saved : Saved (save_call s call_id tool_name args output).0
  unfolding dropped
  save_call-Saved = elim (Bool-cases (ltb s.max_bytes stored.size)) [
    | inl big ↦ subst (λ x. Saved x.0) (sym (save_call_too_large big)) (dropped-Saved big)
    | inr fits ↦ subst (λ x. Saved x.0) (sym (save_call_kept fits)) (kept-Saved fits)
  ]
