-- ===== src/Execution/Inline/Fenced.antt =====
-- Under which right the calls are made in app/execution/inline_executor.py and
-- app/execution/queue_executor.py.
use model_relay.Prelude.{
  ℕ, ◌≡◌, refl, ◌⊎◌, inl, inr, true, none, some, All, Bool-cases, Option-cases,
}
use model_relay.Execution.Calls.{
  Row, is_timeout, Fence, Call, acquire_sync_request_fence, get_request, update_running, execute,
  record_error, complete_request_v3, complete_request, fail_request_v3, fail_request, is_v3,
}
use model_relay.Execution.Inline.{
  Answers, write_timeout, write_exception, handle, run, run_fenced, execute_inline,
}

-- A call under the fence: the runtime, a completion and a failure of the third version carry it, and
-- no completion or failure of an older version, and no write of the status, occurs. Reading,
-- acquiring and recording an error, which stores an object of its own, need no fence.
abbrev pub IsFenced : Fence → Call → Type 0
IsFenced f (execute row g) = g ≡ some f
IsFenced f (complete_request_v3 row g) = g ≡ f
IsFenced f (fail_request_v3 x g) = g ≡ f
IsFenced f (complete_request row g) = ⊥
IsFenced f (fail_request x g) = ⊥
IsFenced f (acquire_sync_request_fence i o n) = Unit
IsFenced f (get_request i) = Unit
IsFenced f (update_running i) = ⊥
IsFenced f (record_error row s) = Unit

-- The calls of a run that is granted no fence: the attempt to acquire one, and a read.
abbrev pub IsRead : Call → Type 0
IsRead (get_request i) = Unit
IsRead (acquire_sync_request_fence i o n) = Unit
IsRead _ = ⊥

run-IsFenced : (row : Row) (a : Answers) (f : Fence) → All (IsFenced f) (run row a (some f))
unfolding run handle write_timeout write_exception
run-IsFenced row a f = elim (Option-cases a.raised) [
  | inl e ↦ rw e (refl, (tt, tt))
  | inr (x, e) ↦ elim (Bool-cases (is_timeout x)) [
    | inl t ↦ rw (e, t) (refl, (tt, (tt, (refl, (tt, tt)))))
    | inr t ↦ rw (e, t) (refl, (tt, (refl, (tt, tt))))
  ]
]

-- In a run of a Request of the third version with a fence, acquired under the run's own name, the
-- runtime and every completion and failure of the Request carry that fence, no completion or
-- failure of an older version occurs, and the run does not set the status by itself; it still reads
-- the Request and records errors without a fence. Where it is granted no fence, the run only tries
-- to acquire one and reads the Request.
pub execute_inline-IsFenced :
    (row : Row) (deadline : ℕ) (a : Answers)
    → is_v3 row ≡ true
    → ((epoch : ℕ) × (a.epoch ≡ some epoch)
        × All
            (IsFenced (record { owner = a.executor_id; epoch = epoch }))
            (execute_inline row deadline a))
      ⊎ ((a.epoch ≡ none) × All IsRead (execute_inline row deadline a))
unfolding execute_inline run_fenced
execute_inline-IsFenced row deadline a v = elim (Option-cases a.epoch) [
  | inl e ↦ inr (e, rw (v, e) (tt, (tt, tt)))
  | inr (n, e) ↦
      inl (n, e, rw (v, e) (tt, run-IsFenced row a (record { owner = a.executor_id; epoch = n })))
]
