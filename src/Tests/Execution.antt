-- ===== src/Tests/Execution.antt =====
-- app/execution on one Request, and app/materials/cache_selector.py on three attachments.
use model_relay.Python.Runtime.{str, or_else}
use model_relay.Python.Text.{lower}
use model_relay.Cache.Resolver.Admission.{starts_with}
use Queue.{run, handle}
use model_relay.Prelude.{
  ℕ, ◌≤◌, ◌≡◌, ◌≢◌, refl, ◌⊎◌, String, true, false, none, some, List, [], ◌∷◌, All, length,
}
use model_relay.Prelude.Int.{ℤ}
use model_relay.Python.Value.{Value, Fields, field, end, get_or}
use model_relay.Execution.Calls.{Row, Exc, Call, get_request, update_running}
use model_relay.Execution.Inline
use model_relay.Execution.Inline.{execute_inline}
use model_relay.Execution.Inline.Fenced.{IsFenced, IsRead, execute_inline-IsFenced}
use model_relay.Execution.Queue
use model_relay.Execution.Queue.{
  Job, committed, ran, complete, is_cancelled, is_stored, run_row, execute_queued,
}
use model_relay.Execution.Queue.Recovery.{
  IsLocal, lease, execute_queued-IsFenced, stored_result_recovers,
}
use model_relay.Execution.Agreement.{IsHonest, failures, inline_failures-IsHonest, executors_agree}
use model_relay.Materials.Selector.{
  select_materials_for_cache, key_before, priority, tier_of, before_semicolon, text_before,
}
use model_relay.Materials.Selector.Greedy.{total, IsSettled}
use model_relay.Materials.Selector.Selection.{select_materials_for_cache-IsSettled}
use model_relay.Tests.Fixed.{fixed}

abbrev row : String → Row
row state = record {
  id = "r";
  session_id = "s";
  tenant_id = "t";
  conversation_hash = "c";
  request_identity_version = some "relay-request/2.3";
  status = some "queued";
  provider_dispatch_state = some state;
  provisional_history_object_id = none;
  provisional_result_object_id = "o";
  provisional_output_object_id = none;
  provisional_compact_result = none;
  provider_response_id = none;
  expected_history_version = 2;
}

-- The runtime is cut off by the time limit after the Request was sent.
abbrev late : Inline.Answers
late = record {
  executor_id = "sync:1";
  epoch = some 7;
  raised = some Exc.timeout;
  current = some (row "sent");
}

execute_inline-IsFenced_example :
    ((epoch : ℕ) × (late.epoch ≡ some epoch)
      × All
          (IsFenced (record { owner = "sync:1"; epoch = epoch }))
          (execute_inline (row "not_sent") 60 late))
    ⊎ ((late.epoch ≡ none) × All IsRead (execute_inline (row "not_sent") 60 late))
execute_inline-IsFenced_example = execute_inline-IsFenced (row "not_sent") 60 late refl

inline_failures-IsHonest_example :
    All
      (IsHonest (row "not_sent") (some (row "sent")) (some Exc.timeout))
      (failures (execute_inline (row "not_sent") 60 late))
    × (length (failures (execute_inline (row "not_sent") 60 late)) ≤ 1)
inline_failures-IsHonest_example = inline_failures-IsHonest (row "not_sent") 60 late

abbrev job : Job
job = record { request_id = some "r"; lease_epoch = some 3 }

abbrev queued : Queue.Answers
queued = record {
  row = some (row "not_sent");
  raised = some Exc.timeout;
  current = some (row "sent");
  completion = committed;
}

executors_agree_example :
    failures (execute_inline (row "not_sent") 60 late)
    ≡ failures (run_row "r" (lease job "w") queued (some (row "not_sent")))
executors_agree_example =
    executors_agree (row "not_sent") 60 late "r" (lease job "w") queued refl refl refl refl refl

-- A worker that died after it stored the provider's result.
abbrev stored : Queue.Answers
stored = record queued { row = some (row "result_stored") }

abbrev recovery : List Call
recovery =
    get_request "r" ∷ update_running "r" ∷ complete (row "result_stored") (lease job "w") ∷ []

recovers : execute_queued job "w" stored ≡ ran recovery
unfolding execute_queued run handle
recovers = refl

execute_queued-IsFenced_example :
    ((false ≡ true) × ((i : String) × (recovery ≡ get_request i ∷ [])))
    ⊎ ((false ≡ false)
        × ((i : String) × (rest : List Call) × (recovery ≡ get_request i ∷ update_running i ∷ rest)
            × All (IsFenced (lease job "w")) rest))
execute_queued-IsFenced_example =
    execute_queued-IsFenced job "w" stored (row "result_stored") {calls = recovery} recovers refl
      refl

stored_result_recovers_example :
    All IsLocal recovery
    × ((false ≡ true)
        ⊎ ((i : String) × (rest : List Call) × (recovery
              ≡ get_request i
                ∷ update_running i
                ∷ complete (row "result_stored") (lease job "w")
                ∷ rest)
            × ((committed ≢ committed) ⊎ (rest ≡ []))))
stored_result_recovers_example =
    stored_result_recovers job "w" stored (row "result_stored") {calls = recovery} recovers refl
      refl

abbrev rows : String → Fields ℤ
rows _ = field "content_type" (Value.text "application/pdf") end

abbrev size : String → ℕ
size _ = 40

select_materials_for_cache-IsSettled_example :
    (total size (select_materials_for_cache fixed rows size ("a" ∷ "b" ∷ "a" ∷ []) 50) ≤ 50)
    × All
        (IsSettled size (select_materials_for_cache fixed rows size ("a" ∷ "b" ∷ "a" ∷ []) 50) 50)
        ("a" ∷ "b" ∷ "a" ∷ [])
select_materials_for_cache-IsSettled_example =
    select_materials_for_cache-IsSettled fixed rows size ("a" ∷ "b" ∷ "a" ∷ []) 50

picks_one : select_materials_for_cache fixed rows size ("b" ∷ "a" ∷ "b" ∷ []) 50 ≡ "a" ∷ []
unfolding select_materials_for_cache key_before priority tier_of starts_with lower before_semicolon
    str or_else get_or text_before
picks_one = refl
