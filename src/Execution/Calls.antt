-- ===== src/Execution/Calls.antt =====
-- What the executors of app/execution share: the row of a Request, the exceptions that they tell
-- apart, and the calls that they make. The repository, the error recorder and the runtime are
-- reached over these calls; what they return is an argument of the model, and a run is the list of
-- its calls. A call outside the executor's `try` that raises ends the run there.
use model_relay.Prelude.{ℕ, String, Bool, true, false, Option, none, some, ◌==◌, if◌then◌else◌}
use model_relay.Python.Text.{is_blank}

-- The columns that the executors read.
pub record Row : Type 0 where
  pub id : String
  pub session_id : String
  pub tenant_id : String
  pub conversation_hash : String
  pub request_identity_version : Option String
  pub status : Option String
  pub provider_dispatch_state : Option String
  pub provisional_history_object_id : Option String
  pub provisional_result_object_id : String
  pub provisional_output_object_id : Option String
  pub provisional_compact_result : Option String
  pub provider_response_id : Option String
  pub expected_history_version : ℕ

-- `str(x or d)` of a text column.
abbrev pub text_or : String → Option String → String
text_or d none = d
text_or d (some s) = if is_blank s then d else s

abbrev pub is_v3 : Row → Bool
is_v3 row = text_or "" row.request_identity_version == "relay-request/2.3"

abbrev pub dispatch_state : Row → String
dispatch_state row = text_or "not_sent" row.provider_dispatch_state

-- The exceptions, by the classes that `error_source` tests and the one that is caught first.
pub data Exc : Type 0 where
  provider_http provider_request supabase structured_output timeout other : Exc

-- `error_source`
unfoldable pub error_source : Exc → String
error_source Exc.provider_http = "provider"
error_source Exc.provider_request = "provider"
error_source Exc.supabase = "supabase"
error_source Exc.structured_output = "relay_validation"
error_source Exc.timeout = "relay_timeout"
error_source Exc.other = "relay"

-- `except asyncio.TimeoutError`
abbrev pub is_timeout : Exc → Bool
is_timeout Exc.timeout = true
is_timeout _ = false

-- The right to write: a lease's owner and its epoch.
pub record Fence : Type 0 where
  pub owner : String
  pub epoch : ℕ

-- The arguments of `fail_request_v3` and `fail_request` besides the row's identifiers.
pub record Failure : Type 0 where
  pub request_id : String
  pub session_id : String
  pub source : String  -- of the error that was recorded
  pub status : String
  pub release_session : Bool

pub data Call : Type 0 where
  acquire_sync_request_fence : String → String → ℕ → Call
  get_request : String → Call
  update_running : String → Call
  execute : Row → Option Fence → Call
  record_error : Row → String → Call
  complete_request_v3 : Row → Fence → Call
  complete_request : Row → Fence → Call
  fail_request_v3 : Failure → Fence → Call
  fail_request : Failure → Option Fence → Call
