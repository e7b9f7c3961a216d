-- ===== src/Tests/Affinity.antt =====
-- `drift_reason` of app/cache/affinity.py on three answers of a Session, each ten seconds after the
-- one before it.
use model_relay.Prelude.{String, ◌≡◌, refl, ◌<◌, false, true, some, List, [], ◌∷◌, length, ◌==◌}
use model_relay.Prelude.Int.{ℤ, pos}
use model_relay.Python.Value.{Value, Fields, field, end, nat, get_or}
use model_relay.Python.Runtime.{truthy, str}
use model_relay.Python.Text.{lower}
use model_relay.Cache.Contracts.{ok}
use model_relay.Cache.Affinity.{
  Row, Audited, Settings, mapping_or_empty, audits, is_observed, is_miss, drift_reason,
}
use model_relay.Cache.Affinity.Streak.{IsStreak, drift_reason-IsStreak}
use model_relay.Tests.Fixed.{fixed}

abbrev audit_after : String → Fields ℤ
audit_after older = field "affinity_epoch" (nat 3) (
    field "implicit_active" (Value.bool true) (
      field "read_tokens" (nat 0) (
        field "compared_request_id" (Value.text older)
          (field "prefix_diff" (Value.dict (field "lcp_estimated_tokens" (nat 4096) end)) end))))

abbrev answer : String → String → Row ℤ
answer name older = record {
  id = name;
  cache_usage = Value.dict (field "affinity_audit" (Value.dict (audit_after older)) end);
  completed_at = nat 0;
}

abbrev answers : List (Row ℤ)
answers = answer "c" "b" ∷ answer "b" "a" ∷ answer "a" "" ∷ []

abbrev settings : Settings ℤ
settings = record {
  epoch = 3;
  min_tokens = 2048;
  warm_seconds = pos 180;
  consecutive = 2;
  strategy = "ROUTER_STICKY_AND_HIT_RATE";
  between = λ a b. some (pos 10);
  age = λ a. some (pos 10);
}

reported : drift_reason fixed settings answers ≡ ok (some "consecutive_warm_prefix_misses")
unfolding drift_reason audits mapping_or_empty truthy get_or lower str is_miss is_observed
reported = refl

drift_reason-IsStreak_example :
    (audited : List (Audited ℤ)) × (audits fixed 3 answers ≡ ok audited)
    × ((settings.strategy == "STATEFUL_HANDLE_STATUS_ONLY") ≡ false)
    × (2 < length audited)
    × IsStreak fixed settings true 2 audited
drift_reason-IsStreak_example = drift_reason-IsStreak fixed settings answers reported
