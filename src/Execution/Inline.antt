-- ===== src/Execution/Inline.antt =====
-- `InlineExecutor.execute` of app/execution/inline_executor.py: a Request that the caller waits for.
pub mod Fenced
use model_relay.Prelude.{
  ℕ, ◌+◌, String, Bool, true, false, Option, none, some, List, [], ◌∷◌, ◌++◌, if◌then◌else◌,
}
use model_relay.Execution.Calls.{
  Row, Exc, is_timeout, error_source, Fence, Call, acquire_sync_request_fence, get_request, execute,
  record_error, fail_request_v3, fail_request, is_v3,
}
use model_relay.Execution.Failure.{timeout_failure, legacy_timeout_failure, exception_failure}

-- What the run is answered: the fresh name of the executor, the epoch of its fence, the exception
-- of the runtime if it raises one, and the row as it is read again in the timeout's handler.
pub record Answers : Type 0 where
  pub executor_id : String
  pub epoch : Option ℕ
  pub raised : Option Exc
  pub current : Option Row

-- The two handlers; `fence` is there for a Request of the third version.
unfoldable pub write_timeout : Row → Option Row → Option Fence → List Call
write_timeout row current fence =
    get_request row.id ∷ record_error row "relay_timeout" ∷ elim fence [
      | some f ↦ fail_request_v3 (timeout_failure row current) f ∷ []
      | none ↦ fail_request (legacy_timeout_failure row) none ∷ []
    ]

unfoldable pub write_exception : Row → Exc → Option Fence → List Call
write_exception row e fence = record_error row (error_source e) ∷ elim fence [
  | some f ↦ fail_request_v3 (exception_failure row e) f ∷ []
  | none ↦ fail_request (exception_failure row e) none ∷ []
]

unfoldable pub handle : Row → Option Row → Option Fence → Option Exc → List Call
handle row current fence none = []
handle row current fence (some e) =
    if is_timeout e then write_timeout row current fence else write_exception row e fence

-- The `try` with its handlers, and the row that is returned.
unfoldable pub run : Row → Answers → Option Fence → List Call
run row answers fence =
    execute row fence ∷ handle row answers.current fence answers.raised ++ get_request row.id ∷ []

-- The fence of the third version; without it nothing is run.
unfoldable pub run_fenced : Row → ℕ → Answers → List Call
run_fenced row deadline answers =
    acquire_sync_request_fence row.id answers.executor_id (deadline + 30) ∷ elim answers.epoch [
      | none ↦ get_request row.id ∷ []
      | some epoch ↦ run row answers (some (record { owner = answers.executor_id; epoch = epoch }))
    ]

-- `deadline` is the setting `sync_request_deadline_seconds`.
unfoldable pub execute_inline : Row → ℕ → Answers → List Call
execute_inline row deadline answers =
    if is_v3 row then run_fenced row deadline answers else run row answers none
