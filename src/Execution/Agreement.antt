-- ===== src/Execution/Agreement.antt =====
-- The failures that app/execution/inline_executor.py and app/execution/queue_executor.py write: how
-- they follow from the dispatch, and that the two executors write the same.
use model_relay.Prelude.{
  sym, is_some, ℕ, ◌≤◌, String, ◌≡◌, refl, ◌⊎◌, inl, inr, true, false, not, ◌&&◌, Option, none,
  some, or_default, List, [], ◌∷◌, ◌++◌, ◌==◌, arith, All, length, eq_iff, Bool-cases, Option-cases,
  if◌then◌else◌,
}
use model_relay.Execution.Calls.{
  Row, Exc, is_timeout, Fence, Failure, Call, get_request, fail_request_v3, fail_request, is_v3,
  dispatch_state,
}
use model_relay.Execution.Failure.{timeout_failure, legacy_timeout_failure, exception_failure}
use model_relay.Execution.Inline
use model_relay.Execution.Queue

-- The failures among the calls, without the right under which they are written.
unfoldable pub failures : List Call → List Failure
failures [] = []
failures (fail_request_v3 x f ∷ cs) = x ∷ failures cs
failures (fail_request x f ∷ cs) = x ∷ failures cs
failures (_ ∷ cs) = failures cs

-- What a run has to write: nothing where nothing was raised, else the failure of its handler.
abbrev pub written : Row → Option Row → Option Exc → List Failure
written row current none = []
written row current (some e) =
    (if is_timeout e
      then (if is_v3 row then timeout_failure row current else legacy_timeout_failure row)
      else exception_failure row e)
    ∷ []

-- A Session is released only where the provider cannot still be at work on the Request: the run
-- failed otherwise than by its time limit, or the Request is known not to have been sent.
abbrev pub IsHonest : Row → Option Row → Option Exc → Failure → Type 0
IsHonest row current raised x =
    ((x.status ≡ "indeterminate") × (x.release_session ≡ false))
    ⊎ ((x.status ≡ "failed")
        × (x.release_session ≡ true)
        × (((e : Exc) × (raised ≡ some e) × (is_timeout e ≡ false))
            ⊎ (dispatch_state (or_default row current) ≡ "not_sent")))

timeout_failure-IsHonest :
    (row : Row) (current : Option Row) (raised : Option Exc)
    → IsHonest row current raised (timeout_failure row current)
unfolding timeout_failure
timeout_failure-IsHonest row current raised =
    elim (Bool-cases (dispatch_state (or_default row current) == "not_sent")) [
      | inl e ↦ rw e (inr (refl, refl, inr ((eq_iff _ _).0 e)))
      | inr e ↦ rw e (inl (refl, refl))
    ]

-- What is to be written is at most one failure, and an honest one.
written-IsHonest :
    (row : Row) (current : Option Row) (raised : Option Exc)
    → All (IsHonest row current raised) (written row current raised)
      × (length (written row current raised) ≤ 1)
unfolding timeout_failure legacy_timeout_failure exception_failure
written-IsHonest row current none = (tt, omega arith)
written-IsHonest row current (some e) = elim (Bool-cases (is_timeout e)) [
  | inl t ↦ elim (Bool-cases (is_v3 row)) [
    | inl v ↦ rw (t, v) ((timeout_failure-IsHonest row current (some e), tt), omega arith)
    | inr v ↦ rw (t, v) ((inl (refl, refl), tt), omega arith)
  ]
  | inr t ↦ rw t ((inr (refl, refl, inl (e, refl, t)), tt), omega arith)
]

inline_handle :
    (row : Row) (current : Option Row) (fence : Option Fence) (o : Option Exc)
    → is_some fence ≡ is_v3 row
    → failures (Inline.handle row current fence o ++ get_request row.id ∷ [])
      ≡ written row current o
unfolding failures Inline.handle Inline.write_timeout Inline.write_exception
inline_handle row current fence none v = refl
inline_handle row current (some f) (some e) v = elim (Bool-cases (is_timeout e)) [
  | inl t ↦ rw (t, ← v) refl
  | inr t ↦ rw t refl
]
inline_handle row current none (some e) v = elim (Bool-cases (is_timeout e)) [
  | inl t ↦ rw (t, ← v) refl
  | inr t ↦ rw t refl
]

queue_handle :
    (row : Row) (current : Option Row) (f : Fence) (o : Option Exc)
    → failures (Queue.handle row current f o) ≡ written row current o
unfolding failures Queue.handle Queue.write_timeout Queue.write_exception
queue_handle row current f none = refl
queue_handle row current f (some e) = elim (Bool-cases (is_timeout e)) [
  | inl t ↦ elim (Bool-cases (is_v3 row)) [ inl v ↦ rw (t, v) refl | inr v ↦ rw (t, v) refl ]
  | inr t ↦ elim (Bool-cases (is_v3 row)) [ inl v ↦ rw (t, v) refl | inr v ↦ rw (t, v) refl ]
]

-- The failures of a run that was not kept out by a fence that another executor holds.
abbrev pub due : Row → Option ℕ → Option Row → Option Exc → List Failure
due row epoch current raised =
    if is_v3 row && not (is_some epoch) then [] else written row current raised

inline_failures :
    (row : Row) (deadline : ℕ) (a : Inline.Answers)
    → failures (Inline.execute_inline row deadline a) ≡ due row a.epoch a.current a.raised
unfolding failures Inline.execute_inline Inline.run_fenced Inline.run
inline_failures row deadline a = elim (Bool-cases (is_v3 row)) [
  | inl v ↦ elim (Option-cases a.epoch) [
    | inl e ↦ rw (v, e) refl
    | inr (n, e) ↦
        let fence : Fence = record { owner = a.executor_id; epoch = n } in
        rw (v, e) (inline_handle row a.current (some fence) a.raised (sym v))
  ]
  | inr v ↦ rw v (inline_handle row a.current none a.raised (sym v))
]

due-IsHonest :
    (row : Row) (epoch : Option ℕ) (current : Option Row) (raised : Option Exc)
    → All (IsHonest row current raised) (due row epoch current raised)
      × (length (due row epoch current raised) ≤ 1)
due-IsHonest row epoch current raised = elim (Bool-cases (is_v3 row && not (is_some epoch))) [
  | inl e ↦ rw e (tt, omega arith)
  | inr e ↦ rw e (written-IsHonest row current raised)
]

-- A run of the inline executor writes at most one failure. It is either indeterminate and holds the
-- Session, or failed and releases it, the latter only where the runtime raised something other than
-- a timeout or the row read after the timeout says that nothing was sent.
pub inline_failures-IsHonest :
    (row : Row) (deadline : ℕ) (a : Inline.Answers)
    → All (IsHonest row a.current a.raised) (failures (Inline.execute_inline row deadline a))
      × (length (failures (Inline.execute_inline row deadline a)) ≤ 1)
inline_failures-IsHonest row deadline a =
    rw (inline_failures row deadline a) (due-IsHonest row a.epoch a.current a.raised)

queue_failures :
    (row : Row) (i : String) (f : Fence) (a : Queue.Answers)
    → Queue.is_cancelled row ≡ false
    → Queue.is_stored row ≡ false
    → failures (Queue.run_row i f a (some row)) ≡ written row a.current a.raised
unfolding failures Queue.run
queue_failures row i f a c s = rw (c, s) (queue_handle row a.current f a.raised)

-- For a Request that is neither cancelled nor has a stored result, the two executors write the same
-- failures when the runtime raises the same and the row reads the same afterwards, whatever the
-- version of the Request, unless another executor holds the fence of the inline run.
pub executors_agree :
    (row : Row) (deadline : ℕ) (a : Inline.Answers) (i : String) (f : Fence) (b : Queue.Answers)
    → Queue.is_cancelled row ≡ false
    → Queue.is_stored row ≡ false
    → (is_v3 row && not (is_some a.epoch)) ≡ false
    → a.raised ≡ b.raised
    → a.current ≡ b.current
    → failures (Inline.execute_inline row deadline a) ≡ failures (Queue.run_row i f b (some row))
executors_agree row deadline a i f b c s e r u =
    rw (inline_failures row deadline a, queue_failures row i f b c s, e, r, u) refl
