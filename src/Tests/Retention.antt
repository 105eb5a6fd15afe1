-- ===== src/Tests/Retention.antt =====
-- pkg/zbplan/tool_output.go: the store of tool outputs, its catalog and its compactions, on a few calls.
use zbplan.Prelude.{
  ◌+◌, ◌≤◌, ◌<◌, ◌^◌, List, [], ◌∷◌, Bytes, codes, length, ◌≡◌, ◌≢◌, arith, true, false, not, beq,
  ltb, if◌then◌else◌,
}
use mathlib.Core.List.{flatten, reverse}
use mathlib.Core.Option.{some}
use zbplan.Preview.{default_max_tool_output_bytes}
use zbplan.Store.{
  ToolOutputStore, new_tool_output_store, save_call, get, catalog, compaction_for_call,
}
use zbplan.Store.Catalog.{lines, fitting, catalog-fitting}
use zbplan.Store.Entries.{Entries}
use zbplan.Store.Evict.{Holds, new_tool_output_store-Holds}
use zbplan.Store.Reads.{get-save_call, compaction_for_call-save_call}
use zbplan.Store.Window.{SavedCall, save_all, push_all, save_all-Holds, next_ref-save_all}

-- Two calls whose entries do not fit together, and one that is too large.
abbrev pub three_calls : List SavedCall
three_calls =
    record {
      call_id = codes "c1";
      tool_name = codes "tree";
      args = codes "{}";
      output = codes "src";
    }
    ∷ record {
      call_id = codes "c2";
      tool_name = codes "read";
      args = codes "{}";
      output = codes "line";
    }
    ∷ record {
      call_id = codes "c3";
      tool_name = codes "grep";
      args = codes "{}";
      output = codes "main.go:1:package main";
    }
    ∷ []

abbrev pub small_store : ToolOutputStore
small_store = save_all (new_tool_output_store 20) three_calls

abbrev pub small_window : Entries
small_window = push_all 20 0 [] three_calls

small_store_room : small_store.next_ref + 1 < 2 ^ 64
unfolding new_tool_output_store
small_store_room = omega (
  arith,
  next_ref-save_all (new_tool_output_store 20) [] three_calls (omega arith)
      (new_tool_output_store-Holds 20),
)

save_all-Holds_example :
    Holds (save_all (new_tool_output_store 20) three_calls) (push_all 20 0 [] three_calls)
save_all-Holds_example = save_all-Holds 20 three_calls (omega arith)

get-save_call_example :
    ((ref : Bytes)
      → (save_call small_store (codes "c4") (codes "read") [] (codes "new")).1 ≡ ref
      → ref ≢ []
      → get (save_call small_store (codes "c4") (codes "read") [] (codes "new")).0 ref
        ≡ some (codes "new"))
    × ((ref value : Bytes)
        → get (save_call small_store (codes "c4") (codes "read") [] (codes "new")).0 ref
          ≡ some value
        → ref ≢ (save_call small_store (codes "c4") (codes "read") [] (codes "new")).1
        → get small_store ref ≡ some value)
get-save_call_example =
    get-save_call small_store small_window (codes "c4") (codes "read") [] (codes "new")
      (save_all-Holds 20 three_calls (omega arith)) small_store_room

compaction_for_call-save_call_example :
    compaction_for_call (save_call small_store (codes "c4") [] [] (codes "new")).0 (codes "c4") ≡ (
      if ltb default_max_tool_output_bytes (length (codes "new"))
      then record {
        ref = (save_call small_store (codes "c4") [] [] (codes "new")).1;
        compactable = true;
        retained = not (beq (save_call small_store (codes "c4") [] [] (codes "new")).1 []);
      }
      else record { ref = []; compactable = false; retained = false })
compaction_for_call-save_call_example =
    compaction_for_call-save_call small_store small_window (codes "c4") [] [] (codes "new")
      (save_all-Holds 20 three_calls (omega arith)) small_store_room (λ e. cc)

catalog-fitting_example :
    (catalog small_store 16 ≡ flatten (fitting 16 (lines small_store (reverse small_store.order))))
    × (length (catalog small_store 16) ≤ 16)
catalog-fitting_example = catalog-fitting small_store 16
