-- ===== src/Tests/Reports.antt =====
-- app/cache/breakpoints.py and app/cache/usage.py on one plan and one report.
use model_relay.Python.Text.{lower}
use model_relay.Python.Runtime.{int_value, or_else}
use model_relay.Prelude.{◌≡◌, refl, ◌⊎◌, ◌≤◌, true, false, none, some, List, [], ◌∷◌, All, length}
use model_relay.Prelude.Int.{ℤ, pos}
use model_relay.Python.Value.{Value, Fields, field, end, nat, get_or}
use model_relay.Cache.Contracts.{Mode, ok}
use model_relay.Cache.Breakpoints.{ContextPlan, Anchor, native, prepare_breakpoint_binding}
use model_relay.Cache.Breakpoints.Placement.{IsPlaced, breakpoints-IsPlaced}
use model_relay.Cache.Usage.{
  HitStatus, normalize_cache_usage, gemini_total, gemini_read, int_or_none,
}
use model_relay.Cache.Usage.Status.{IsJustified, status-IsJustified}
use model_relay.Tests.Fixed.{fixed}

abbrev native_config : Fields ℤ
native_config = field "native_breakpoints" (Value.bool true) (field "max_breakpoints" (nat 9) end)

abbrev committed : ContextPlan
committed = record {
  segments =
      record { segment_id = "i"; domain = "instructions" }
      ∷ record { segment_id = "h"; domain = "history" }
      ∷ record { segment_id = "t"; domain = "task" }
      ∷ [];
  stable_prefix_segment_ids = "i" ∷ "h" ∷ [];
  history_version = 2;
}

abbrev anchors : List (Anchor ℤ)
anchors = native "instructions" ∷ native "history" ∷ []

anchored : prepare_breakpoint_binding fixed native_config true committed ≡ ok anchors
unfolding prepare_breakpoint_binding int_value or_else get_or
anchored = refl

breakpoints-IsPlaced_example :
    All (IsPlaced committed true) anchors × ((true ≡ false) ⊎ (length anchors ≤ 3))
unfolding get_or
breakpoints-IsPlaced_example =
    breakpoints-IsPlaced fixed native_config true committed {anchors = anchors} anchored

abbrev report : Fields ℤ
report =
    field "raw"
      (Value.dict (field "cachedContentTokenCount" (nat 0) (field "promptTokenCount" (nat 70) end)))
      end

status-IsJustified_example : IsJustified true (some (pos 0)) none false false HitStatus.miss
unfolding normalize_cache_usage lower get_or
status-IsJustified_example = status-IsJustified fixed (some "gemini_native") report none Mode.auto

abbrev unreported : Fields ℤ
unreported = field "promptTokenCount" (nat 70) end

no_count : gemini_read fixed unreported ≡ none
unfolding get_or
no_count = refl

abbrev partial : Fields ℤ
partial = field "cachedContentTokenCount" (nat 64) (field "promptTokenCount" (nat 70) end)

total_of_partial : gemini_total fixed partial ≡ some (pos 70)
unfolding int_or_none get_or int_value
total_of_partial = refl

read_of_partial : gemini_read fixed partial ≡ some 64
unfolding get_or
read_of_partial = refl
