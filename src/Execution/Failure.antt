-- ===== src/Execution/Failure.antt =====
-- The failure that an executor writes, in the two handlers that app/execution/inline_executor.py
-- and app/execution/queue_executor.py have in common.
use model_relay.Prelude.{String, Bool, true, false, not, Option, or_default, ◌==◌, if◌then◌else◌}
use model_relay.Execution.Calls.{Row, Exc, error_source, Failure, dispatch_state}

abbrev pub failure : Row → String → String → Bool → Failure
failure row source status release = record {
  request_id = row.id;
  session_id = row.session_id;
  source = source;
  status = status;
  release_session = release;
}

-- `dispatch_state != "not_sent"` of the row that is read again, or of the one at hand.
abbrev pub after_dispatch : Row → Option Row → Bool
after_dispatch row current = not (dispatch_state (or_default row current) == "not_sent")

-- Past the dispatch nobody knows what the provider did: the Session stays held.
unfoldable pub timeout_failure : Row → Option Row → Failure
timeout_failure row current =
    failure row "relay_timeout" (if after_dispatch row current then "indeterminate" else "failed")
      (not (after_dispatch row current))

-- Requests before the third version do not look at the dispatch.
unfoldable pub legacy_timeout_failure : Row → Failure
legacy_timeout_failure row = failure row "relay_timeout" "indeterminate" false

unfoldable pub exception_failure : Row → Exc → Failure
exception_failure row e = failure row (error_source e) "failed" true
