-- ===== src/Store/Window.antt =====
-- Runs of `saveCall`: the store is a first-in-first-out window, and stays within its capacity.
use zbplan.Prelude.{
  ◌≡◌, ℕ, ◌+◌, ◌-◌, ◌^◌, ◌≤◌, ◌<◌, List, [], ◌∷◌, arith, Bytes, length, ltb, Bool-cases, inl, inr,
}
use mathlib.Core.Path.{subst₂}
use zbplan.Store.{StoredToolOutput, ToolOutputStore, new_tool_output_store, save_call, size}
use zbplan.Store.Entries.{Entries, total, total-append}
use zbplan.Store.Evict.{Holds, new_tool_output_store-Holds}
use zbplan.Store.Save.{entry, push, total-trim, save_call-Saved}

-- The arguments of a call of `saveCall`.
pub record SavedCall : Type 0 where
  pub call_id : Bytes
  pub tool_name : Bytes
  pub args : Bytes
  pub output : Bytes

unfoldable pub save_all : ToolOutputStore → List SavedCall → ToolOutputStore
save_all s [] = s
save_all s (c ∷ cs) = save_all (save_call s c.call_id c.tool_name c.args c.output).0 cs

-- The window after the calls, when `n` calls came before.
pub push_all : ℕ → ℕ → Entries → List SavedCall → Entries
push_all cap n es [] = es
push_all cap n es (c ∷ cs) =
    push_all cap (n + 1) (push cap es (n + 1) (entry (n + 1) c.call_id c.tool_name c.args c.output))
      cs

save_all-Holds_from :
    (s : ToolOutputStore) (es : Entries) (cs : List SavedCall)
    → s.next_ref + length cs < 2 ^ 64
    → Holds s es
    → Holds (save_all s cs) (push_all s.max_bytes s.next_ref es cs)
unfolding save_all push_all
save_all-Holds_from s es [] room h = h
save_all-Holds_from s es (c ∷ cs) room h =
    let (held, n', m') =
      save_call-Saved s es h c.call_id c.tool_name c.args c.output (omega arith) in
    let s' = (save_call s c.call_id c.tool_name c.args c.output).0 in
    let es' =
      push s.max_bytes es (s.next_ref + 1)
        (entry (s.next_ref + 1) c.call_id c.tool_name c.args c.output) in
    subst₂ (λ cap n. Holds (save_all s' cs) (push_all cap n es' cs)) m' n'
      (save_all-Holds_from s' es' cs (omega arith) held)

-- Each call takes the next number, whatever is retained of it.
pub next_ref-save_all :
    (s : ToolOutputStore) (es : Entries) (cs : List SavedCall)
    → s.next_ref + length cs < 2 ^ 64
    → Holds s es
    → (save_all s cs).next_ref ≡ s.next_ref + length cs
unfolding save_all
next_ref-save_all s es [] room h = omega arith
next_ref-save_all s es (c ∷ cs) room h =
    let (held, n', m') =
      save_call-Saved s es h c.call_id c.tool_name c.args c.output (omega arith) in
    let s' = (save_call s c.call_id c.tool_name c.args c.output).0 in
    let es' =
      push s.max_bytes es (s.next_ref + 1)
        (entry (s.next_ref + 1) c.call_id c.tool_name c.args c.output) in
    let ih = next_ref-save_all s' es' cs (omega arith) held in omega (arith, n', ih)

-- The store refines the window: after fewer than 2^64 calls it holds exactly the entries that the
-- window holds, under the references of their numbers, in the order of the calls.
pub save_all-Holds :
    (cap : ℕ) (cs : List SavedCall)
    → length cs < 2 ^ 64
    → Holds (save_all (new_tool_output_store cap) cs) (push_all cap 0 [] cs)
unfolding new_tool_output_store
save_all-Holds cap cs room =
    save_all-Holds_from (new_tool_output_store cap) [] cs (omega arith)
      (new_tool_output_store-Holds cap)

total-push :
    (cap : ℕ) (es : Entries) (n : ℕ) (stored : StoredToolOutput)
    → total es ≤ cap
    → total (push cap es n stored) ≤ cap
unfolding push total
total-push cap es n stored h = elim (Bool-cases (ltb cap stored.size)) [
  | inl big ↦ rw big h
  | inr fits ↦ rw (fits, total-append) (ground (arith, total-trim (cap - stored.size) es))
]

total-push_all :
    (cap n : ℕ) (es : Entries) (cs : List SavedCall)
    → total es ≤ cap
    → total (push_all cap n es cs) ≤ cap
unfolding push_all
total-push_all cap n es [] h = h
total-push_all cap n es (c ∷ cs) h =
    total-push_all cap (n + 1) _ cs
      (total-push cap es (n + 1) (entry (n + 1) c.call_id c.tool_name c.args c.output) h)

-- The bytes that the store counts never exceed its capacity.
pub size-save_all :
    (cap : ℕ) (cs : List SavedCall)
    → length cs < 2 ^ 64
    → size (save_all (new_tool_output_store cap) cs) ≤ cap
unfolding size total
size-save_all cap cs room =
    omega (arith, (save_all-Holds cap cs room).total_of, total-push_all cap 0 [] cs (omega arith))
