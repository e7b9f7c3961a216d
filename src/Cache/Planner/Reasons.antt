-- ===== src/Cache/Planner/Reasons.antt =====
-- `SAFE_PREPARATION_REASONS` and `ASSESSMENT_FAILURE_REASONS` of app/cache/planner.py, sorted as a
-- plan freezes them.
use model_relay.Prelude.{String, List, [], ◌∷◌}

abbrev pub safe_preparation_reasons : List String
safe_preparation_reasons =
    "below_minimum" ∷ "cached_content_unsupported_provider_fields"
    ∷ "current_read_and_future_bonus_insufficient" ∷ "current_read_price_or_creation_fee_unverified"
    ∷ "explicit_not_economical_implicit_fallback_unavailable"
    ∷ "explicit_not_economical_vs_implicit" ∷ "hard_budget_price_or_storage_evidence_unverified"
    ∷ "history_material_projection_unsafe" ∷ "implicit_hit_rate_unverified"
    ∷ "insufficient_prefix_length" ∷ "measurement_unavailable" ∷ "new_resource_budget_exceeded"
    ∷ "new_resource_cost_measurement_unavailable" ∷ "no_cacheable_contents" ∷ "no_cacheable_prefix"
    ∷ "physical_layout_unavailable" ∷ "relative_price_policy_invalid"
    ∷ "resource_measurement_invalid" ∷ "serialized_request_too_large"
    ∷ "tail_turn_reservation_violation" ∷ []

abbrev pub assessment_failure_reasons : List String
assessment_failure_reasons =
    "cache_measurement_failed" ∷ "implicit_prefix_measurement_failed"
    ∷ "implicit_prefix_measurement_unavailable" ∷ "implicit_prefix_threshold_unverified"
    ∷ "prefix_assessment_unknown" ∷ "stateful_adapter_unavailable" ∷ []

-- What arbitration still has to check when there is a candidate.
abbrev pub pending_checks : List String
pending_checks =
    "material_projection" ∷ "token_threshold" ∷ "resource_validity" ∷ "creation_cost" ∷ []
