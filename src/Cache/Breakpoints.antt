-- ===== src/Cache/Breakpoints.antt =====
-- app/cache/breakpoints.py: where a request carries explicit cache breakpoints.
-- A context plan is read by its segments, its stable prefix and its history version.
pub mod Placement
use model_relay.Prelude.{
  ℕ, min, max, String, Bool, true, false, ◌==◌, ◌||◌, ◌&&◌, Option, none, some, List, [], ◌∷◌, last,
  ltb, if◌then◌else◌,
}
use model_relay.Prelude.Int.{ℤ, pos, negsuc, max_zero}
use model_relay.Python.Value.{Value, Fields, get, is_true, nat}
use model_relay.Python.Runtime.{Runtime, or_else, int_value}
use model_relay.Cache.Contracts.{Result, ok, raised, value_error}

-- The entries of a segment that cache code reads.
pub record Segment : Type 0 where
  pub segment_id : String
  pub domain : String

pub record ContextPlan : Type 0 where
  pub segments : List Segment
  pub stable_prefix_segment_ids : List String
  pub history_version : ℕ

-- An anchor behind a whole native block, or behind a segment.
pub data Anchor (F : Type 0) : Type 0 where
  native : String → Anchor F
  after_segment : String → Value F → Anchor F

-- A whole block whose position the native adapter can prove.
abbrev pub is_provable : ContextPlan → Segment → Bool
is_provable plan s =
    s.domain == "instructions" || (s.domain == "history" && ltb 0 plan.history_version)

unfoldable pub provable_domains : ContextPlan → List Segment → List String
provable_domains plan [] = []
provable_domains plan (s ∷ ss) =
    let rest = provable_domains plan ss in if is_provable plan s then s.domain ∷ rest else rest

module _ {F : Type 0} where
  unfoldable pub native_anchors : List String → List (Anchor F)
  native_anchors [] = []
  native_anchors (d ∷ ds) = native d ∷ native_anchors ds

  unfoldable pub segment_anchors : Value F → List String → List (Anchor F)
  segment_anchors ttl [] = []
  segment_anchors ttl (s ∷ ss) = after_segment s ttl ∷ segment_anchors ttl ss

-- `max(1, min(max_breakpoints, 3 if composite else 4))`
abbrev pub native_limit : Bool → ℤ → ℕ
native_limit composite max_breakpoints =
    max 1 (min (max_zero max_breakpoints) (if composite then 3 else 4))

module _ (R : Runtime) where
  open R use {F}

  -- `anchors[-max_breakpoints:]`, for a positive number.
  abbrev pub keep_last : ℤ → List (Anchor F) → List (Anchor F)
  keep_last (pos ℕ.zero) anchors = anchors
  keep_last (pos (ℕ.suc n)) anchors = last (ℕ.suc n) anchors
  keep_last (negsuc n) anchors = anchors

  placed : Fields F → Bool → ContextPlan → Option ℤ → Result (List (Anchor F))
  unfolding provable_domains native_anchors segment_anchors
  placed config composite plan none = raised value_error
  placed config composite plan (some limit) = ok (
      if is_true (get "native_breakpoints" config)
      then native_anchors
          (last (native_limit composite limit) (provable_domains plan plan.segments))
      else keep_last limit (segment_anchors (get "ttl" config) plan.stable_prefix_segment_ids))

  -- `config` is the plan's `mechanism_config`; `composite` says that its tracks are layered.
  unfoldable pub prepare_breakpoint_binding :
      Fields F → Bool → ContextPlan → Result (List (Anchor F))
  unfolding placed
  prepare_breakpoint_binding config composite plan =
      placed config composite plan (int_value R (or_else R (get "max_breakpoints" config) (nat 1)))
