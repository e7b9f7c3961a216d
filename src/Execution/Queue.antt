-- ===== src/Execution/Queue.antt =====
-- `QueueExecutor.execute` of app/execution/queue_executor.py: a Request that a worker has leased.
pub mod Recovery
use model_relay.Prelude.{
  ℕ, String, Bool, true, false, Option, none, some, List, [], ◌∷◌, ◌++◌, ◌==◌, if◌then◌else◌,
}
use model_relay.Python.Text.{is_blank}
use model_relay.Execution.Calls.{
  Row, Exc, is_timeout, error_source, Fence, Call, get_request, update_running, execute,
  record_error, complete_request_v3, complete_request, fail_request_v3, fail_request, is_v3,
}
use model_relay.Execution.Failure.{timeout_failure, legacy_timeout_failure, exception_failure}

-- The columns of the job.
pub record Job : Type 0 where
  pub request_id : Option String
  pub lease_epoch : Option ℕ

-- What the completion of a stored result comes to: `ok`, or the exception that it raises.
pub data Completion : Type 0 where
  committed refused : Completion
  threw : Exc → Completion

-- The row, what the runtime raises, the row as it is read again, and the completion.
pub record Answers : Type 0 where
  pub row : Option Row
  pub raised : Option Exc
  pub current : Option Row
  pub completion : Completion

-- A run that returns, or the `ValueError` of a job without a Request.
pub data Run : Type 0 where
  ran : List Call → Run
  missing_request_id : Run

abbrev is_text : String → Option String → Bool
is_text s none = false
is_text s (some t) = t == s

abbrev pub is_stored : Row → Bool
is_stored row = is_text "result_stored" row.provider_dispatch_state

abbrev pub is_cancelled : Row → Bool
is_cancelled row = is_text "cancelled" row.status

abbrev pub complete : Row → Fence → Call
complete row fence = if is_v3 row then complete_request_v3 row fence else complete_request row fence

-- The exception that leaves the `try`: a commit that is refused is a `RuntimeError`.
abbrev pub commit_failure : Completion → Option Exc
commit_failure committed = none
commit_failure refused = some Exc.other
commit_failure (threw e) = some e

unfoldable pub write_timeout : Row → Option Row → Fence → List Call
write_timeout row current fence =
    record_error row "relay_timeout"
    ∷ get_request row.id
    ∷ (if is_v3 row
        then fail_request_v3 (timeout_failure row current) fence
        else fail_request (legacy_timeout_failure row) (some fence))
    ∷ []

unfoldable pub write_exception : Row → Exc → Fence → List Call
write_exception row e fence =
    record_error row (error_source e)
    ∷ (if is_v3 row
        then fail_request_v3 (exception_failure row e) fence
        else fail_request (exception_failure row e) (some fence))
    ∷ []

unfoldable pub handle : Row → Option Row → Fence → Option Exc → List Call
handle row current fence none = []
handle row current fence (some e) =
    if is_timeout e then write_timeout row current fence else write_exception row e fence

-- The `try` with its handlers: a stored result is committed and not asked for again.
unfoldable pub run : Row → Answers → Fence → List Call
run row answers fence =
    if is_stored row
    then complete row fence ∷ handle row answers.current fence (commit_failure answers.completion)
    else execute row (some fence) ∷ handle row answers.current fence answers.raised

abbrev pub epoch_of : Option ℕ → ℕ
epoch_of none = 0
epoch_of (some n) = n

abbrev pub run_row : String → Fence → Answers → Option Row → List Call
run_row request_id fence answers none = []
run_row request_id fence answers (some row) =
    if is_cancelled row then [] else update_running request_id ∷ run row answers fence

unfoldable pub execute_queued : Job → String → Answers → Run
execute_queued job worker_id answers = elim job.request_id [
  | none ↦ missing_request_id
  | some request_id ↦
      if is_blank request_id
      then missing_request_id
      else ran (
          get_request request_id
          ∷ run_row request_id (record { owner = worker_id; epoch = epoch_of job.lease_epoch })
              answers answers.row)
]
