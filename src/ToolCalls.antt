-- ===== src/ToolCalls.antt =====
-- pkg/zbplan/tool_output.go: `newToolOutputMiddleware` around each tool call, and
-- `newToolHistoryRewriter` over the messages before each model request. Logging is not modelled. A
-- tool is a parameter: its result, or its error.
pub mod Retained
pub mod History
pub mod Compacted
use zbplan.Prelude.{
  ℕ, zero, suc, Bool, true, false, not, ◌||◌, none, some, List, [], ◌++◌, map, Bytes, codes, beq,
  length, take, drop, if◌then◌else◌, Result, ok, err, get_elem?,
}
use zbplan.Preview.{bounded_tool_output, default_max_tool_output_bytes, quote}
use zbplan.Store.{ToolOutputStore, save_call, Compaction, compaction_for_call}
use zbplan.Strings.{has_prefix}

-- The fields of `compose.ToolInput` that the middleware reads.
pub record ToolInput : Type 0 where
  pub name : Bytes
  pub call_id : Bytes
  pub arguments : Bytes

-- What is retained of a result, and under which reference. Pages are not retained again.
pub retain : ToolOutputStore → ToolInput → Bytes → ToolOutputStore × Bytes
retain s input result =
    if beq input.name (codes "read_tool_output")
    then (s, [])
    else save_call s input.call_id input.name input.arguments result

unfoldable pub tool_call {ℓ} :
    {E : Type ℓ}
    → (ToolInput → Result E Bytes)
    → ToolOutputStore
    → ToolInput
    → ToolOutputStore × Result E Bytes
tool_call next s input = elim (next input) [
  | err e ↦ (s, err e)
  | ok result ↦
      let (s', ref) = retain s input result in
      (s', ok (bounded_tool_output result ref default_max_tool_output_bytes))
]

-- The fields of `schema.Message` that the rewriter reads and writes; `Part` and `InputPart` are the
-- message library's.
pub record Message (Part InputPart : Type 0) : Type 0 where
  -- `message.Role == schema.Tool`
  pub role_is_tool : Bool
  pub tool_call_id : Bytes
  pub content : Bytes
  pub multi_content : List Part
  pub user_input_multi_content : List InputPart

unfoldable pub earlier_prefix : Bytes
earlier_prefix = codes "[Earlier tool output "

unfoldable pub compacted_content : Bytes → Bytes
unfolding earlier_prefix
compacted_content ref =
    earlier_prefix
    ++ (codes "compacted. Use read_tool_output with ref "
        ++ (quote ref ++ codes " if it is needed again.]"))

unfoldable pub discarded_content : Bytes
unfolding earlier_prefix
discarded_content = earlier_prefix ++ codes "discarded after its retention budget was exhausted.]"

module _ {Part InputPart : Type 0} where
  -- `messages[i].Role == schema.Tool`; the program asks only inside the list.
  unfoldable pub is_tool_at : List (Message Part InputPart) → ℕ → Bool
  is_tool_at messages i = elim (get_elem? messages i) [
    | none ↦ false
    | some message ↦ message.role_is_tool
  ]

  -- `latestToolRound` after the first loop, which begins at `n`.
  unfoldable pub latest_tool_round : List (Message Part InputPart) → ℕ → ℕ
  latest_tool_round messages zero = 0
  latest_tool_round messages (suc n) =
      let earlier = latest_tool_round messages n in if is_tool_at messages n then earlier else suc n

  unfoldable pub replace_content : Message Part InputPart → Bytes → Message Part InputPart
  replace_content message content = record message {
    content = content;
    multi_content = [];
    user_input_multi_content = [];
  }

  -- The body of the second loop.
  unfoldable pub rewrite_message : ToolOutputStore → Message Part InputPart → Message Part InputPart
  unfolding replace_content
  rewrite_message s message =
      let c = compaction_for_call s message.tool_call_id in
      if not message.role_is_tool || has_prefix message.content earlier_prefix
      then message
      else if not c.compactable
      then message
      else if c.retained
      then replace_content message (compacted_content c.ref)
      else replace_content message discarded_content

  unfoldable pub rewrite_history :
      ToolOutputStore → List (Message Part InputPart) → List (Message Part InputPart)
  rewrite_history s messages =
      let latest = latest_tool_round messages (length messages) in
      map (rewrite_message s) (take latest messages) ++ drop latest messages
