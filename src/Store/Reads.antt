-- ===== src/Store/Reads.antt =====
-- What can be read back from the store: `get`, `refForCall`, `compactionForCall` and `catalog`.
use mathlib.Core.Path.{subst}
use zbplan.Prelude.{
  ℕ, ◌+◌, ◌^◌, ◌≤◌, ◌<◌, ◌≡◌, refl, ap, sym, ◌∙◌, ◌≢◌, Bool, true, false, Option, none, some, [],
  arith, Bytes, beq, beq_iff, beq_refl, length, not, ltb, if◌then◌else◌, Bool-cases, inl, inr,
}
use zbplan.Preview.{default_max_tool_output_bytes}
use zbplan.Store.{
  StoredToolOutput, ToolOutputStore, ref_name, mark_compactable, append_output, evict_loop,
  save_call, entry_size_of, get, ref_for_call, compaction_of, compaction_for_call, delete,
}
use zbplan.Store.Entries.{Entries, refs, find}
use zbplan.Store.Evict.{Holds, evict_loop-Holds}
use zbplan.Store.Pushed.{find-push_new, find-push_old}
use zbplan.Store.Save.{
  entry, push, mark_compactable-rest, ready-Holds, save_call-Saved, save_call_kept,
  save_call_too_large,
}

abbrev value_of : Option StoredToolOutput → Option Bytes
value_of none = none
value_of (some stored) = some stored.value

get-find :
    (s : ToolOutputStore) (es : Entries) (ref : Bytes)
    → Holds s es
    → get s ref ≡ value_of (find ref es)
unfolding get
get-find s es ref h = ground (arith, h.outputs ref)

-- The reference of a call always leads to an output: nothing dangles.
pub get-ref_for_call :
    (s : ToolOutputStore) (es : Entries) (call_id ref : Bytes)
    → Holds s es
    → ref_for_call s call_id ≡ some ref
    → (output : Bytes) × (get s ref ≡ some output)
unfolding ref_for_call
get-ref_for_call s es call_id ref h e =
    let (stored, found, _, _) = h.calls call_id ref e in
    (stored.value, rw (get-find s es ref h, found) refl)

mark_compactable-calls :
    (s : ToolOutputStore) (call_id output : Bytes)
    → call_id ≢ []
    → (mark_compactable s call_id output).compactable_calls call_id
      ≡ (if ltb default_max_tool_output_bytes (length output) then some tt else none)
unfolding mark_compactable
mark_compactable-calls s call_id output named = ground (arith, beq_iff call_id [], beq_refl call_id)

compaction-append_output :
    (t : ToolOutputStore) (ref : Bytes) (stored : StoredToolOutput) (large : Bool)
    → stored.call_id ≢ []
    → t.compactable_calls stored.call_id ≡ (if large then some tt else none)
    → compaction_for_call (append_output t ref stored) stored.call_id ≡ (
        if large
        then record { ref = ref; compactable = true; retained = true }
        else record { ref = []; compactable = false; retained = false })
unfolding compaction_for_call compaction_of append_output
compaction-append_output t ref stored large named e =
    ground (arith, beq_iff stored.call_id [], beq_refl stored.call_id, beq_refl ref)

compaction-delete :
    (t : ToolOutputStore) (call_id : Bytes) (large : Bool)
    → t.compactable_calls call_id ≡ (if large then some tt else none)
    → compaction_for_call (record t { call_refs = delete t.call_refs call_id }) call_id ≡ (
        if large
        then record { ref = []; compactable = true; retained = false }
        else record { ref = []; compactable = false; retained = false })
unfolding compaction_for_call compaction_of
compaction-delete t call_id large e = ground (arith, beq_refl call_id)

ref_name-beq-nil : (n : ℕ) → beq (ref_name n) [] ≡ false
unfolding ref_name beq
ref_name-beq-nil n = refl

pub ref_name-ne-nil : (n : ℕ) → ref_name n ≢ []
ref_name-ne-nil n e = cc (ref_name-beq-nil n, ap (λ r. beq r []) e, beq_refl [])

value_of-some :
    (o : Option StoredToolOutput) (value : Bytes)
    → value_of o ≡ some value
    → (found : StoredToolOutput) × (o ≡ some found) × (found.value ≡ value)
value_of-some none value e = absurd (cc)
value_of-some (some found) value e = (found, refl, cc)

module _ (s : ToolOutputStore) (es : Entries) (h : Holds s es)
    (call_id tool_name args output : Bytes) (room : s.next_ref + 1 < 2 ^ 64) where
  abbrev saved : ToolOutputStore × Bytes
  saved = save_call s call_id tool_name args output

  abbrev number : ℕ
  number = s.next_ref + 1

  abbrev new_entry : StoredToolOutput
  new_entry = entry number call_id tool_name args output

  held : Holds saved.0 (push s.max_bytes es number new_entry)
  held = (save_call-Saved s es h call_id tool_name args output room).0

  saved_ref : saved.1 ≡ (if ltb s.max_bytes new_entry.size then [] else ref_name number)
  saved_ref = elim (Bool-cases (ltb s.max_bytes new_entry.size)) [
    | inl big ↦
        rw big (ap (λ x. x.1) (save_call_too_large s es h call_id tool_name args output room big))
    | inr fits ↦
        rw fits (ap (λ x. x.1) (save_call_kept s es h call_id tool_name args output room fits))
  ]

  -- The reference that a save returns leads to the output that was saved.
  get-save_call_new : (ref : Bytes) → saved.1 ≡ ref → ref ≢ [] → get saved.0 ref ≡ some output
  unfolding entry
  get-save_call_new ref e kept = elim (Bool-cases (ltb s.max_bytes new_entry.size)) [
    | inl big ↦ absurd (kept (sym e ∙ saved_ref ∙ rw big refl))
    | inr fits ↦
        let e' : ref ≡ ref_name number = sym e ∙ saved_ref ∙ rw fits refl in
        let found =
          find-push_new s.max_bytes s.next_ref number es new_entry h.ordered (omega arith) fits in
        get-find saved.0 _ ref held ∙ rw (e', found) refl
  ]

  get-save_call_old :
      (ref value : Bytes) → get saved.0 ref ≡ some value → ref ≢ saved.1 → get s ref ≡ some value
  get-save_call_old ref value e other =
      let seen : value_of (find ref (push s.max_bytes es number new_entry)) ≡ some value =
        sym (get-find saved.0 _ ref held) ∙ e in
      let (found, e', same) = value_of-some _ value seen in
      let apart = λ (fits : ltb s.max_bytes new_entry.size ≡ false) (e : ref ≡ ref_name number).
        other (e ∙ sym (saved_ref ∙ rw fits refl)) in
      get-find s es ref h
      ∙ rw
          (
            find-push_old s.max_bytes s.next_ref number es new_entry found ref h.ordered
                (omega arith) apart e',
            same,
          )
          refl

  abbrev large : Bool
  large = ltb default_max_tool_output_bytes (length output)

  -- What the history rewriter is told of the call that was saved, by what `saveCall` returned.
  abbrev Told : ToolOutputStore × Bytes → Type 0
  Told p = compaction_for_call p.0 call_id ≡ (
      if large
      then record { ref = p.1; compactable = true; retained = not (beq p.1 []) }
      else record { ref = []; compactable = false; retained = false })

  abbrev marked : ToolOutputStore
  marked = record (mark_compactable s call_id output) { next_ref = number }

  Told-dropped :
      call_id ≢ [] → Told (record marked { call_refs = delete marked.call_refs call_id }, [])
  unfolding beq
  Told-dropped named =
      compaction-delete marked call_id large (mark_compactable-calls s call_id output named)

  Told-kept :
      call_id ≢ []
      → ltb s.max_bytes new_entry.size ≡ false
      → Told (
        append_output (evict_loop new_entry.size (refs es) marked) (ref_name number) new_entry,
        ref_name number,
      )
  unfolding entry
  Told-kept named fits =
      let m = (mark_compactable-rest s call_id output).4 in
      let ready = ready-Holds s es h call_id tool_name args output room in
      let (_, _, _, calls) =
        evict_loop-Holds new_entry.size s.max_bytes es marked m (ground arith) ready in
      rw (ref_name-beq-nil number) (
        compaction-append_output (evict_loop new_entry.size (refs es) marked) (ref_name number)
          new_entry large named
          (ap (λ f. f call_id) calls ∙ mark_compactable-calls s call_id output named))

  Told-saved : call_id ≢ [] → Told saved
  Told-saved named = elim (Bool-cases (ltb s.max_bytes new_entry.size)) [
    | inl big ↦
        subst Told (sym (save_call_too_large s es h call_id tool_name args output room big))
          (Told-dropped named)
    | inr fits ↦
        subst Told (sym (save_call_kept s es h call_id tool_name args output room fits))
          (Told-kept named fits)
  ]

-- In a store that holds some entries, with the counter below its limit: a save whose output is
-- retained returns a reference that leads to exactly that output, and whatever an older reference
-- leads to after a save it led to before.
pub get-save_call :
    (s : ToolOutputStore) (es : Entries) (call_id tool_name args output : Bytes)
    → Holds s es
    → s.next_ref + 1 < 2 ^ 64
    → ((ref : Bytes)
        → (save_call s call_id tool_name args output).1 ≡ ref
        → ref ≢ []
        → get (save_call s call_id tool_name args output).0 ref ≡ some output)
      × ((ref value : Bytes)
          → get (save_call s call_id tool_name args output).0 ref ≡ some value
          → ref ≢ (save_call s call_id tool_name args output).1
          → get s ref ≡ some value)
get-save_call s es call_id tool_name args output h room = (
  get-save_call_new s es h call_id tool_name args output room,
  get-save_call_old s es h call_id tool_name args output room,
)

-- A save whose entry is within the capacity returns the reference of its number.
pub save_call_ref :
    (s : ToolOutputStore) (es : Entries) (call_id tool_name args output : Bytes)
    → Holds s es
    → s.next_ref + 1 < 2 ^ 64
    → entry_size_of (ref_name (s.next_ref + 1)) call_id tool_name args output ≤ s.max_bytes
    → (save_call s call_id tool_name args output).1 ≡ ref_name (s.next_ref + 1)
unfolding entry
save_call_ref s es call_id tool_name args output h room fits =
    let e : ltb s.max_bytes
          (entry_size_of (ref_name (s.next_ref + 1)) call_id tool_name args output)
        ≡ false =
      ground arith in
    saved_ref s es h call_id tool_name args output room ∙ rw e refl

-- Right after a save under a non-empty call id, that call is compactable exactly if its output is
-- above 12 KiB, and then it is retained, under the reference of the save, exactly if the save
-- returned one: an earlier output under the same id is never shown for it.
pub compaction_for_call-save_call :
    (s : ToolOutputStore) (es : Entries) (call_id tool_name args output : Bytes)
    → Holds s es
    → s.next_ref + 1 < 2 ^ 64
    → call_id ≢ []
    → compaction_for_call (save_call s call_id tool_name args output).0 call_id ≡ (
        if ltb default_max_tool_output_bytes (length output)
        then record {
          ref = (save_call s call_id tool_name args output).1;
          compactable = true;
          retained = not (beq (save_call s call_id tool_name args output).1 []);
        }
        else record { ref = []; compactable = false; retained = false })
compaction_for_call-save_call s es call_id tool_name args output h room named =
    Told-saved s es h call_id tool_name args output room named
