-- ===== src/Tests/Tools.antt =====
-- pkg/zbplan/tool_output.go: a tool call, the history before a model request, and the pages of an output.
use zbplan.Prelude.{
  ℕ, zero, suc, ◌+◌, ◌≤◌, ◌<◌, List, [], ◌∷◌, Bytes, codes, decimal, length, get_elem?, drop, ◌≡◌,
  ◌++◌, ap, refl, ◌⊎◌, arith, Bool, true, false, none, some, Result, ok,
}
use zbplan.Preview.{bounded_tool_output, tool_output_notice, default_max_tool_output_bytes}
use zbplan.Cut.{bounded_prefix}
use zbplan.Preview.Laws.{IsElided, bounded_tool_output-IsElided}
use zbplan.ReadOutput.Page.{IsWellFormed, read_pages, read_pages-drop}
use zbplan.Store.{
  ToolOutputStore, new_tool_output_store, ref_name, entry_size_of, compaction_for_call, get,
  ref_for_call,
}
use zbplan.Store.Evict.{new_tool_output_store-Holds}
use zbplan.Strings.{has_prefix}
use zbplan.ToolCalls.{
  ToolInput, tool_call, Message, is_tool_at, rewrite_message, rewrite_history, replace_content,
  latest_tool_round, earlier_prefix, compacted_content, discarded_content,
}
use zbplan.ToolCalls.Compacted.{rewrite_history_stays, rewrite_message-retrievable}
use zbplan.ToolCalls.History.{rewrite_history-get_elem?}
use zbplan.ToolCalls.Retained.{tool_call-get}
use zbplan.Utf8.{rune_start_at, rune_start, rune_size}

abbrev empty_store : ToolOutputStore
empty_store = new_tool_output_store 100

abbrev tree_input : ToolInput
tree_input = record { name = codes "tree"; call_id = codes "c1"; arguments = codes "{}" }

abbrev listing : ToolInput → Result Bytes Bytes
listing input = ok (codes "src/")

tool_call-get_example :
    (ref : Bytes) × ((tool_call listing empty_store tree_input).1
      ≡ ok (bounded_tool_output (codes "src/") ref default_max_tool_output_bytes))
    × (get (tool_call listing empty_store tree_input).0 ref ≡ some (codes "src/"))
unfolding new_tool_output_store entry_size_of ref_name decimal
tool_call-get_example =
    tool_call-get listing empty_store tree_input [] (codes "src/") (new_tool_output_store-Holds 100)
      (omega arith) refl (λ e. cc) (omega arith)

abbrev Chat : Type 0
Chat = Message Bytes Bytes

abbrev message : Bool → Bytes → Chat
message role_is_tool content = record {
  role_is_tool = role_is_tool;
  tool_call_id = codes "c1";
  content = content;
  multi_content = [];
  user_input_multi_content = [];
}

abbrev chat : List Chat
chat = message true (codes "old") ∷ message false (codes "call") ∷ message true (codes "new") ∷ []

rewrite_history-get_elem?_example :
    ((j : ℕ)
      → 0 ≤ j
      → j < length chat
      → is_tool_at chat j ≡ false
      → get_elem? (rewrite_history empty_store chat) 0
        ≡ mathlib.Core.Option.map (rewrite_message empty_store) (get_elem? chat 0))
    × (((j : ℕ) → 0 ≤ j → j < length chat → is_tool_at chat j ≡ true)
        → get_elem? (rewrite_history empty_store chat) 0 ≡ get_elem? chat 0)
rewrite_history-get_elem?_example = rewrite_history-get_elem? empty_store chat 0

-- The output of the first call was long, and is not held any more.
abbrev store_without : ToolOutputStore
store_without = record empty_store { compactable_calls = λ c. some tt }

abbrev discarded : Chat
discarded = replace_content (message true (codes "old")) discarded_content

rewrite_history_stays_example :
    get_elem? (rewrite_history empty_store (rewrite_history store_without chat ++ chat)) 0
    ≡ some discarded
unfolding new_tool_output_store rewrite_history rewrite_message compaction_for_call
    latest_tool_round is_tool_at replace_content earlier_prefix has_prefix discarded_content
rewrite_history_stays_example =
    rewrite_history_stays store_without empty_store chat chat 0 (message true (codes "old"))
      discarded refl refl (λ e. absurd (omega (arith, ap (λ x. length x.content) e)))

rewrite_message-retrievable_example :
    (rewrite_message empty_store (message true (codes "old")) ≡ message true (codes "old"))
    ⊎ (((ref_for_call empty_store (codes "c1") ≡ none)
          × (rewrite_message empty_store (message true (codes "old"))
              ≡ replace_content (message true (codes "old")) discarded_content))
        ⊎ ((ref : Bytes) × (output : Bytes) × (ref_for_call empty_store (codes "c1") ≡ some ref)
            × (get empty_store ref ≡ some output)
            × (rewrite_message empty_store (message true (codes "old"))
                ≡ replace_content (message true (codes "old")) (compacted_content ref))))
rewrite_message-retrievable_example =
    rewrite_message-retrievable empty_store [] (message true (codes "old"))
      (new_tool_output_store-Holds 100)

-- An `a`, an `é` of two bytes, and a `b`.
abbrev accented : Bytes
accented = b'a' ∷ 0xC3 ∷ 0xA9 ∷ b'b' ∷ []

accented_next :
    (i : ℕ)
    → i < 4
    → rune_start_at accented i ≡ true
    → rune_start_at accented (i + rune_size (drop i accented)) ≡ true
unfolding rune_start_at rune_start rune_size
accented_next zero h e = refl
accented_next (suc zero) h e = refl
accented_next (suc (suc zero)) h e = absurd (cc)
accented_next (suc (suc (suc zero))) h e = refl
accented_next (suc (suc (suc (suc i)))) h e = absurd (omega arith)

accented-IsWellFormed : IsWellFormed accented
unfolding rune_start_at rune_start
accented-IsWellFormed = record { first = refl; next = accented_next }

read_pages-drop_example : read_pages 9 accented 1 1 ≡ drop 1 accented
unfolding rune_start_at rune_start
read_pages-drop_example =
    read_pages-drop 9 accented 1 1 accented-IsWellFormed (omega arith) refl (omega arith)

-- A text that is longer than its bound, which leaves room for the notice.
abbrev long_output : ℕ → Bytes
long_output zero = []
long_output (suc n) = b'a' ∷ long_output n

bounded_tool_output-IsElided_example :
    ((length (long_output 300) ≤ 200)
      × (bounded_tool_output (long_output 300) [] 200 ≡ long_output 300))
    ⊎ (((200 < length (long_output 300))
          × (length (tool_output_notice (length (long_output 300)) []) < 200)
          × IsElided
              (long_output 300)
              (tool_output_notice (length (long_output 300)) [])
              (bounded_tool_output (long_output 300) [] 200)
              200)
        ⊎ ((200 < length (long_output 300))
            × (200 ≤ length (tool_output_notice (length (long_output 300)) []))
            × (bounded_tool_output (long_output 300) [] 200
                ≡ bounded_prefix (tool_output_notice (length (long_output 300)) []) 200)))
bounded_tool_output-IsElided_example = bounded_tool_output-IsElided (long_output 300) [] 200
