-- ===== src/Store.antt =====
-- pkg/zbplan/tool_output.go: `toolOutputStore`, the tool outputs that a run retains. The lock is not
-- modelled: each method holds it throughout, so calls are a sequence. Go maps are functions.
pub mod Entries
pub mod Evict
pub mod Save
pub mod Window
pub mod Catalog
pub mod Pushed
pub mod Reads
use mathlib.Core.List.{reverse}
use zbplan.Prelude.{
  ℕ, ◌+◌, ◌-◌, ◌*◌, ◌%◌, ◌^◌, Bool, true, false, not, ◌&&◌, ◌||◌, Option, none, some, List, [], ◌∷◌,
  ◌++◌, Bytes, codes, beq, decimal, length, ltb, leb, if◌then◌else◌,
}
use zbplan.Preview.{default_max_tool_output_bytes}

pub record StoredToolOutput : Type 0 where
  pub call_id : Bytes
  pub tool_name : Bytes
  pub args : Bytes
  pub value : Bytes
  pub size : ℕ

-- A Go map with string keys, by its lookup.
abbrev pub Map {ℓ} : Type ℓ → Type ℓ
Map V = Bytes → Option V

abbrev pub insert {ℓ} : {V : Type ℓ} → Map V → Bytes → V → Map V
insert m k v j = if beq k j then some v else m j

abbrev pub delete {ℓ} : {V : Type ℓ} → Map V → Bytes → Map V
delete m k j = if beq k j then none else m j

pub record ToolOutputStore : Type 0 where
  pub next_ref : ℕ
  pub max_bytes : ℕ
  pub total_bytes : ℕ
  pub outputs : Map StoredToolOutput
  pub call_refs : Map Bytes
  pub compactable_calls : Map (Unit {0})
  pub order : List Bytes

unfoldable pub new_tool_output_store : ℕ → ToolOutputStore
new_tool_output_store max_bytes = record {
  next_ref = 0;
  max_bytes = max_bytes;
  total_bytes = 0;
  outputs = λ r. none;
  call_refs = λ c. none;
  compactable_calls = λ c. none;
  order = [];
}

unfoldable pub ref_name : ℕ → Bytes
ref_name n = codes "out-" ++ decimal n

-- A missing map entry reads as the zero value.
pub stored_at : ToolOutputStore → Bytes → StoredToolOutput
stored_at s ref = elim (s.outputs ref) [
  | none ↦ record { call_id = []; tool_name = []; args = []; value = []; size = 0 }
  | some stored ↦ stored
]

-- `s.callRefs[callID] == ref`, where a missing entry reads as the empty string.
pub points_to : ToolOutputStore → Bytes → Bytes → Bool
points_to s call_id ref = elim (s.call_refs call_id) [ none ↦ beq [] ref | some r ↦ beq r ref ]

-- The body of the eviction loop: `oldest` goes, and `rest` is the order that is left.
pub evict_one : ToolOutputStore → Bytes → List Bytes → ToolOutputStore
evict_one s oldest rest =
    let stored = stored_at s oldest in
    let s' = record s {
      order = rest;
      outputs = delete s.outputs oldest;
      total_bytes = s.total_bytes - stored.size;
    } in
    if not (beq stored.call_id []) && points_to s stored.call_id oldest
    then record s' { call_refs = delete s.call_refs stored.call_id }
    else s'

-- `for s.totalBytes+entrySize > s.maxBytes && len(s.order) > 0`, over the order.
pub evict_loop : ℕ → List Bytes → ToolOutputStore → ToolOutputStore
evict_loop entry_size [] s = s
evict_loop entry_size (oldest ∷ rest) s =
    let next = evict_loop entry_size rest (evict_one s oldest rest) in
    if ltb s.max_bytes (s.total_bytes + entry_size) then next else s

-- The first statement of `saveCall`: whether the history rewriter may compact the call.
pub mark_compactable : ToolOutputStore → Bytes → Bytes → ToolOutputStore
mark_compactable s call_id output =
    if beq call_id []
    then s
    else if ltb default_max_tool_output_bytes (length output)
    then record s { compactable_calls = insert s.compactable_calls call_id tt }
    else record s { compactable_calls = delete s.compactable_calls call_id }

-- The last statements of `saveCall`.
pub append_output : ToolOutputStore → Bytes → StoredToolOutput → ToolOutputStore
append_output s ref stored =
    let s' = record s {
      outputs = insert s.outputs ref stored;
      order = s.order ++ ref ∷ [];
      total_bytes = s.total_bytes + stored.size;
    } in
    if beq stored.call_id []
    then s'
    else record s' { call_refs = insert s.call_refs stored.call_id ref }

unfoldable pub entry_size_of : Bytes → Bytes → Bytes → Bytes → Bytes → ℕ
entry_size_of ref call_id tool_name args output =
    length ref + length call_id + length tool_name + length args + length output

-- `saveCall` returns the new store and the reference, empty where the output was not retained.
-- The counter is a `uint64`.
unfoldable pub save_call : ToolOutputStore → Bytes → Bytes → Bytes → Bytes → ToolOutputStore × Bytes
save_call s call_id tool_name args output =
    let s₁ = mark_compactable s call_id output in
    let next = (s.next_ref + 1) % 2 ^ 64 in
    let s₂ = record s₁ { next_ref = next } in
    let ref = ref_name next in
    let entry_size = entry_size_of ref call_id tool_name args output in
    let stored : StoredToolOutput = record {
      call_id = call_id;
      tool_name = tool_name;
      args = args;
      value = output;
      size = entry_size;
    } in
    if ltb s.max_bytes entry_size
    then (record s₂ { call_refs = delete s₂.call_refs call_id }, [])
    else (append_output (evict_loop entry_size s₂.order s₂) ref stored, ref)

unfoldable pub save : ToolOutputStore → Bytes → Bytes → ToolOutputStore × Bytes
save s call_id output = save_call s call_id [] [] output

unfoldable pub ref_for_call : ToolOutputStore → Bytes → Option Bytes
ref_for_call s call_id = s.call_refs call_id

pub record Compaction : Type 0 where
  pub ref : Bytes
  pub compactable : Bool
  pub retained : Bool

-- The results of `compactionForCall`, from what the call's reference is.
pub compaction_of : ToolOutputStore → Option Bytes → Compaction
compaction_of s none = record { ref = []; compactable = true; retained = false }
compaction_of s (some ref) = record {
  ref = ref;
  compactable = true;
  retained = elim (s.outputs ref) [ none ↦ false | some _ ↦ true ];
}

unfoldable pub compaction_for_call : ToolOutputStore → Bytes → Compaction
unfolding compaction_of
compaction_for_call s call_id = elim (s.compactable_calls call_id) [
  | none ↦ record { ref = []; compactable = false; retained = false }
  | some _ ↦ compaction_of s (s.call_refs call_id)
]

unfoldable pub get : ToolOutputStore → Bytes → Option Bytes
get s ref = elim (s.outputs ref) [ none ↦ none | some stored ↦ some stored.value ]

unfoldable pub size : ToolOutputStore → ℕ
size s = s.total_bytes

pub catalog_line : Bytes → StoredToolOutput → Bytes
catalog_line ref stored =
    codes "- "
    ++ (ref ++ (codes ": " ++ (stored.tool_name ++ (codes " " ++ (stored.args ++ codes "\n")))))

-- The loop of `catalog` over the references, newest first; `result` is what was written so far.
pub catalog_loop : ToolOutputStore → ℕ → List Bytes → Bytes → Bytes
catalog_loop s max_bytes [] result = result
catalog_loop s max_bytes (ref ∷ refs) result = elim (s.outputs ref) [
  | none ↦ catalog_loop s max_bytes refs result
  | some stored ↦
      let line = catalog_line ref stored in
      let skipped = catalog_loop s max_bytes refs result in
      let written = catalog_loop s max_bytes refs (result ++ line) in
      if beq stored.tool_name []
      then skipped
      else if ltb max_bytes (length result + length line)
      then result
      else written
]

unfoldable pub catalog : ToolOutputStore → ℕ → Bytes
catalog s max_bytes = catalog_loop s max_bytes (reverse s.order) []
