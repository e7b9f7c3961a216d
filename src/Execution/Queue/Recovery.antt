-- ===== src/Execution/Queue/Recovery.antt =====
-- Under which right app/execution/queue_executor.py completes and fails a Request, and that a stored result is not asked for again.
use model_relay.Prelude.{
  ap, sym, ◌∙◌, String, ◌≡◌, refl, ◌⊎◌, inl, inr, ◌≢◌, true, false, Option, none, some, List, [],
  ◌∷◌, All, Bool-cases, Option-cases,
}
use model_relay.Python.Text.{is_blank}
use model_relay.Execution.Calls.{
  Row, Exc, is_timeout, Fence, Call, get_request, update_running, execute, is_v3,
}
use model_relay.Execution.Inline.Fenced.{IsFenced}
use model_relay.Execution.Queue.{
  Job, Completion, committed, refused, threw, Answers, Run, ran, missing_request_id, is_stored,
  is_cancelled, complete, commit_failure, write_timeout, write_exception, handle, run, run_row,
  epoch_of, execute_queued,
}

-- A call that sends nothing to the provider.
abbrev pub IsLocal : Call → Type 0
IsLocal (execute row f) = ⊥
IsLocal _ = Unit

handle-IsFenced :
    (row : Row) (current : Option Row) (f : Fence) (o : Option Exc)
    → is_v3 row ≡ true
    → All (IsFenced f) (handle row current f o)
unfolding handle write_timeout write_exception
handle-IsFenced row current f none v = tt
handle-IsFenced row current f (some e) v = elim (Bool-cases (is_timeout e)) [
  | inl t ↦ rw (t, v) (tt, (tt, (refl, tt)))
  | inr t ↦ rw (t, v) (tt, (refl, tt))
]

handle-IsLocal :
    (row : Row) (current : Option Row) (f : Fence) (o : Option Exc)
    → All IsLocal (handle row current f o)
unfolding handle write_timeout write_exception
handle-IsLocal row current f none = tt
handle-IsLocal row current f (some e) = elim (Bool-cases (is_timeout e)) [
  | inl t ↦ elim (Bool-cases (is_v3 row)) [
    | inl v ↦ rw (t, v) (tt, (tt, (tt, tt)))
    | inr v ↦ rw (t, v) (tt, (tt, (tt, tt)))
  ]
  | inr t ↦ elim (Bool-cases (is_v3 row)) [
    | inl v ↦ rw (t, v) (tt, (tt, tt))
    | inr v ↦ rw (t, v) (tt, (tt, tt))
  ]
]

complete-IsLocal : (row : Row) (f : Fence) → IsLocal (complete row f)
complete-IsLocal row f = elim (Bool-cases (is_v3 row)) [ inl v ↦ rw v tt | inr v ↦ rw v tt ]

run-IsFenced :
    (row : Row) (a : Answers) (f : Fence) → is_v3 row ≡ true → All (IsFenced f) (run row a f)
unfolding run
run-IsFenced row a f v = elim (Bool-cases (is_stored row)) [
  | inl s ↦ rw (s, v) (refl, handle-IsFenced row a.current f (commit_failure a.completion) v)
  | inr s ↦ rw s (refl, handle-IsFenced row a.current f a.raised v)
]

abbrev pub lease : Job → String → Fence
lease job worker_id = record { owner = worker_id; epoch = epoch_of job.lease_epoch }

calls_of : Run → List Call
calls_of (ran calls) = calls
calls_of missing_request_id = []

module _ (job : Job) (worker_id : String) (a : Answers) (row : Row) {calls : List Call} where
  -- A run that returns has read the row that its job names.
  from_row :
      execute_queued job worker_id a ≡ ran calls
      → a.row ≡ some row
      → (i : String) × (calls ≡ get_request i ∷ run_row i (lease job worker_id) a (some row))
  unfolding execute_queued calls_of
  from_row h r = elim (Option-cases job.request_id) [
    | inl e ↦ cc (rw e at h)
    | inr (i, e) ↦ elim (Bool-cases (is_blank i)) [
      | inl b ↦ cc (rw (e, b) at h)
      | inr b ↦ (
        i,
        sym (ap calls_of (rw (e, b) at h))
            ∙ ap (λ o. get_request i ∷ run_row i (lease job worker_id) a o) r,
      )
    ]
  ]

  -- A run of a Request of the third version that returns only reads it if it is cancelled.
  -- Otherwise it reads it, marks it as running without a lease, and from there on the runtime and
  -- every completion and failure of the Request carry the lease of the worker with the epoch of the
  -- job, no completion or failure of an older version occurs, and the status is not set again by
  -- itself; errors are recorded without a lease.
  pub execute_queued-IsFenced :
      execute_queued job worker_id a ≡ ran calls
      → a.row ≡ some row
      → is_v3 row ≡ true
      → ((is_cancelled row ≡ true) × ((i : String) × (calls ≡ get_request i ∷ [])))
        ⊎ ((is_cancelled row ≡ false)
            × ((i : String) × (rest : List Call) × (calls ≡ get_request i ∷ update_running i ∷ rest)
                × All (IsFenced (lease job worker_id)) rest))
  execute_queued-IsFenced h r v =
      let s = from_row h r in
      elim (Bool-cases (is_cancelled row)) [
        | inl c ↦ inl (c, (s.0, rw c at s.1))
        | inr c ↦ inr (
          c,
          (
            s.0,
            run row a (lease job worker_id),
            rw c at s.1,
            run-IsFenced row a (lease job worker_id) v,
          ),
        )
      ]

  -- A Request whose result is stored is never sent to the provider again: a run makes local calls
  -- alone, and unless the Request is cancelled it completes it, writing no failure where the
  -- completion is committed.
  pub stored_result_recovers :
      execute_queued job worker_id a ≡ ran calls
      → a.row ≡ some row
      → is_stored row ≡ true
      → All IsLocal calls
        × ((is_cancelled row ≡ true)
            ⊎ ((i : String) × (rest : List Call) × (calls
                  ≡ get_request i ∷ update_running i ∷ complete row (lease job worker_id) ∷ rest)
                × ((a.completion ≢ committed) ⊎ (rest ≡ []))))
  unfolding run handle
  stored_result_recovers h r t =
      let s = from_row h r in
      elim (Bool-cases (is_cancelled row)) [
        | inl c ↦ rw (s.1, c) ((tt, tt), inl refl)
        | inr c ↦
            rw (s.1, c, t)
              (
                (
                  tt,
                  (
                    tt,
                    (
                      complete-IsLocal row _,
                      handle-IsLocal row a.current _ (commit_failure a.completion),
                    ),
                  ),
                ),
                inr (s.0, _, refl, quiet a.completion),
              )
      ]
    where
      quiet :
          (c : Completion)
          → (c ≢ committed) ⊎ (handle row a.current (lease job worker_id) (commit_failure c) ≡ [])
      quiet committed = inr refl
      quiet refused = inl (λ e. cc)
      quiet (threw x) = inl (λ e. cc)
