-- ===== src/Store/Evict.antt =====
-- The eviction loop of `saveCall` against the abstract view: it drops the oldest entries.
use zbplan.Prelude.{
  ℕ, ◌+◌, ◌-◌, ◌≤◌, ◌≡◌, refl, ◌∙◌, ◌≢◌, inl, inr, true, false, none, some, [], ◌∷◌, arith, Bytes,
  beq, beq_iff, beq_refl, ltb, Bool-cases,
}
use zbplan.Store.{
  StoredToolOutput, ToolOutputStore, new_tool_output_store, ref_name, stored_at, points_to,
  evict_one, evict_loop,
}
use zbplan.Store.Entries.{Entries, total, refs, find, trim, Ordered, Ordered-weaken, find_below}

-- The store `s` holds the entries `es`.
pub record Holds (s : ToolOutputStore) (es : Entries) : Type 0 where
  pub order : s.order ≡ refs es
  pub outputs : (ref : Bytes) → s.outputs ref ≡ find ref es
  pub total_of : s.total_bytes ≡ total es
  pub ordered : Ordered 0 es s.next_ref
  pub calls :
      (call_id ref : Bytes)
      → s.call_refs call_id ≡ some ref
      → (stored : StoredToolOutput) × (find ref es ≡ some stored)
        × (stored.call_id ≡ call_id)
        × (call_id ≢ [])

pub new_tool_output_store-Holds : (n : ℕ) → Holds (new_tool_output_store n) []
unfolding new_tool_output_store refs find total
new_tool_output_store-Holds n = record {
  order = refl;
  outputs = λ ref. refl;
  total_of = refl;
  ordered = omega arith;
  calls = λ call_id ref h. absurd (cc);
}

module _ (s : ToolOutputStore) (n : ℕ) (stored : StoredToolOutput) (es : Entries)
    (h : Holds s ((n, stored) ∷ es)) where
  stored_at-oldest : stored_at s (ref_name n) ≡ stored
  unfolding stored_at find
  stored_at-oldest = ground (arith, h.outputs (ref_name n), beq_refl (ref_name n))

  fresh : find (ref_name n) es ≡ none
  fresh = find_below n n s.next_ref es (omega arith) h.ordered.1

  evict_one-outputs : (ref : Bytes) → (evict_one s (ref_name n) (refs es)).outputs ref ≡ find ref es
  unfolding evict_one find
  evict_one-outputs ref = ground (arith, h.outputs ref, beq_iff (ref_name n) ref, fresh)

  evict_one-calls_kept :
      (call_id ref : Bytes)
      → (evict_one s (ref_name n) (refs es)).call_refs call_id ≡ some ref
      → s.call_refs call_id ≡ some ref
  unfolding evict_one
  evict_one-calls_kept call_id ref e = ground arith

  -- No call refers to the entry that went.
  evict_one-calls_ne :
      (call_id : Bytes)
      → stored.call_id ≡ call_id
      → call_id ≢ []
      → s.call_refs call_id ≡ some (ref_name n)
      → (evict_one s (ref_name n) (refs es)).call_refs call_id ≡ none
  unfolding evict_one points_to
  evict_one-calls_ne call_id named nonempty e =
      ground (
        arith,
        stored_at-oldest,
        beq_iff stored.call_id [],
        beq_refl (ref_name n),
        beq_refl call_id,
      )

  evict_one-calls :
      (call_id ref : Bytes)
      → (evict_one s (ref_name n) (refs es)).call_refs call_id ≡ some ref
      → (kept : StoredToolOutput) × (find ref es ≡ some kept)
        × (kept.call_id ≡ call_id)
        × (call_id ≢ [])
  unfolding find
  evict_one-calls call_id ref e =
      let was = evict_one-calls_kept call_id ref e in
      let (kept, found, named, nonempty) = h.calls call_id ref was in
      elim (Bool-cases (beq (ref_name n) ref)) [
        | inl same ↦
            let gone =
              evict_one-calls_ne call_id (ground arith) nonempty
                (rw ((beq_iff (ref_name n) ref).0 same) was) in
            absurd (cc (e, gone))
        | inr other ↦ (kept, ground arith, named, nonempty)
      ]

  evict_one-total : (evict_one s (ref_name n) (refs es)).total_bytes ≡ total es
  unfolding evict_one total
  evict_one-total = ground (arith, stored_at-oldest, h.total_of)

  evict_one-rest :
      ((evict_one s (ref_name n) (refs es)).order ≡ refs es)
      × ((evict_one s (ref_name n) (refs es)).next_ref ≡ s.next_ref)
      × ((evict_one s (ref_name n) (refs es)).max_bytes ≡ s.max_bytes)
      × ((evict_one s (ref_name n) (refs es)).compactable_calls ≡ s.compactable_calls)
  unfolding evict_one
  evict_one-rest = ground arith

  evict_one-Holds : Holds (evict_one s (ref_name n) (refs es)) es
  evict_one-Holds = record {
    order = evict_one-rest.0;
    outputs = evict_one-outputs;
    total_of = evict_one-total;
    ordered = rw (evict_one-rest.1) (Ordered-weaken 0 n s.next_ref es (omega arith) h.ordered.1);
    calls = evict_one-calls;
  }

-- What the loop leaves is the longest run of newest entries beside which the new one fits.
pub evict_loop-Holds :
    (entry_size cap : ℕ) (es : Entries) (s : ToolOutputStore)
    → s.max_bytes ≡ cap
    → entry_size ≤ cap
    → Holds s es
    → Holds (evict_loop entry_size (refs es) s) (trim (cap - entry_size) es)
      × ((evict_loop entry_size (refs es) s).next_ref ≡ s.next_ref)
      × ((evict_loop entry_size (refs es) s).max_bytes ≡ cap)
      × ((evict_loop entry_size (refs es) s).compactable_calls ≡ s.compactable_calls)
unfolding evict_loop refs trim total
evict_loop-Holds entry_size cap [] s m fits h = (h, refl, m, refl)
evict_loop-Holds entry_size cap ((n, stored) ∷ es) s m fits h =
    let (_, n', m', c') = evict_one-rest s n stored es h in
    let (ih, n'', m'', c'') =
      evict_loop-Holds entry_size cap es (evict_one s (ref_name n) (refs es)) (m' ∙ m) fits
        (evict_one-Holds s n stored es h) in
    elim (Bool-cases (ltb s.max_bytes (s.total_bytes + entry_size))) [
      | inl over ↦
          let e : ltb (cap - entry_size) (stored.size + total es) ≡ true =
            ground (arith, h.total_of) in
          rw (over, e) (ih, n'' ∙ n', m'', c'' ∙ c')
      | inr room ↦
          let e : ltb (cap - entry_size) (stored.size + total es) ≡ false =
            ground (arith, h.total_of) in
          rw (room, e) (h, refl, m, refl)
    ]
