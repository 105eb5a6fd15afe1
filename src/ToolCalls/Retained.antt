-- ===== src/ToolCalls/Retained.antt =====
-- What a tool call shows to the model, and what stays readable behind it.
use zbplan.Prelude.{
  ◌+◌, ◌^◌, ◌≤◌, ◌<◌, ◌≡◌, ◌≢◌, refl, sym, ap, ◌∙◌, false, [], Bytes, codes, beq, beq_ne, some,
  length, Result, ok, err,
}
use zbplan.Preview.{bounded_tool_output, default_max_tool_output_bytes}
use zbplan.Preview.Laws.{length-bounded_tool_output, bounded_tool_output_fits}
use zbplan.Store.{ToolOutputStore, save_call, get, ref_name, entry_size_of}
use zbplan.Store.Entries.{Entries}
use zbplan.Store.Evict.{Holds}
use zbplan.Store.Reads.{get-save_call, save_call_ref, ref_name-ne-nil}
use zbplan.ToolCalls.{ToolInput, tool_call, retain}

module _ {ℓ} {E : Type ℓ} (next : ToolInput → Result E Bytes) (s : ToolOutputStore)
    (input : ToolInput) where
  -- A tool's error passes through, and leaves the store as it was.
  pub tool_call_error : (e : E) → next input ≡ err e → tool_call next s input ≡ (s, err e)
  unfolding tool_call
  tool_call_error e h = rw (h, tool_call) refl

  tool_call_ok :
      (result : Bytes)
      → next input ≡ ok result
      → tool_call next s input ≡ (
        (retain s input result).0,
        ok (bounded_tool_output result (retain s input result).1 default_max_tool_output_bytes),
      )
  unfolding tool_call
  tool_call_ok result h = rw (h, tool_call) refl

  -- Whatever a tool returns, the model is shown at most 12 KiB of it, and all of it where it is not
  -- longer than that.
  pub tool_call-bound :
      (result : Bytes)
      → next input ≡ ok result
      → (shown : Bytes) × ((tool_call next s input).1 ≡ ok shown)
        × (length shown ≤ default_max_tool_output_bytes)
        × (length result ≤ default_max_tool_output_bytes → shown ≡ result)
  tool_call-bound result h =
      let ref = (retain s input result).1 in
      (
        bounded_tool_output result ref default_max_tool_output_bytes,
        ap (λ x. x.1) (tool_call_ok result h),
        length-bounded_tool_output result ref default_max_tool_output_bytes,
        bounded_tool_output_fits result ref default_max_tool_output_bytes,
      )

  retained :
      (es : Entries) (result : Bytes)
      → Holds s es
      → s.next_ref + 1 < 2 ^ 64
      → input.name ≢ codes "read_tool_output"
      → entry_size_of (ref_name (s.next_ref + 1)) input.call_id input.name input.arguments result
        ≤ s.max_bytes
      → ((retain s input result).1 ≡ ref_name (s.next_ref + 1))
        × (get (retain s input result).0 (retain s input result).1 ≡ some result)
  unfolding retain
  retained es result h room other fits =
      let off : beq input.name (codes "read_tool_output") ≡ false = beq_ne input.name _ other in
      let e = save_call_ref s es input.call_id input.name input.arguments result h room fits in
      let nonempty = λ (z : (save_call s input.call_id input.name input.arguments result).1 ≡ []).
        ref_name-ne-nil (s.next_ref + 1) (sym e ∙ z) in
      rw off (
        e,
        (get-save_call s es input.call_id input.name input.arguments result h room).0 _ refl
            nonempty,
      )

  -- The result of a call of any tool but `read_tool_output` is retained whole, if its entry is
  -- within the store's capacity: the reference in the notice that the model is shown leads to it.
  pub tool_call-get :
      (es : Entries) (result : Bytes)
      → Holds s es
      → s.next_ref + 1 < 2 ^ 64
      → next input ≡ ok result
      → input.name ≢ codes "read_tool_output"
      → entry_size_of (ref_name (s.next_ref + 1)) input.call_id input.name input.arguments result
        ≤ s.max_bytes
      → (ref : Bytes) × ((tool_call next s input).1
          ≡ ok (bounded_tool_output result ref default_max_tool_output_bytes))
        × (get (tool_call next s input).0 ref ≡ some result)
  tool_call-get es result h room e other fits =
      let (kept, seen) = retained es result h room other fits in
      (
        (retain s input result).1,
        ap (λ x. x.1) (tool_call_ok result e),
        ap (λ x. get x.0 (retain s input result).1) (tool_call_ok result e) ∙ seen,
      )
