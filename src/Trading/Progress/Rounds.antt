-- ===== src/Trading/Progress/Rounds.antt =====
-- What one round of processExecution does with the row that it loads.
use raf_8_banka_4_backend.Shared.{
  Option-cases, ℕ, ◌<◌, ◌≡◌, ◌⊎◌, inl, inr, not, Bool, true, false, some, arith, Result-cases, ok,
}
use raf_8_banka_4_backend.Trading.Model.{OtcExecutionSaga, OtcExecutionStatus}
use raf_8_banka_4_backend.Trading.World.{World, Env}
use raf_8_banka_4_backend.Trading.Execution.{is_terminal_execution_status}
use raf_8_banka_4_backend.Trading.Saga.{
  process_step, handle_compensation, advance, waits, is_completed_step, load_and_advance,
}
use raf_8_banka_4_backend.Trading.Progress.{Found, Resting}

-- The execution is completed or failed, or its next attempt is scheduled.
abbrev pub Ended : ℕ → World → Type 0
Ended i t =
    (e : OtcExecutionSaga) × Found i e t
    × ((is_terminal_execution_status e.status ≡ true)
        ⊎ ((next : ℕ) × (e.next_retry_at ≡ some next)))

pub Resting-Ended : (envs : ℕ → Env) (i : ℕ) (t : World) → Resting envs i t → Ended i t
Resting-Ended envs i t (e, found, inl over) = (e, found, inl over)
Resting-Ended envs i t (e, found, inr (next, at, later)) = (e, found, inr (next, at))

pub load-ok :
    (env : Env) (i : ℕ) (e : OtcExecutionSaga) (s : World) {more : Bool} {t : World}
    → Found i e s
    → load_and_advance env i s ≡ (ok more, t)
    → advance env e s ≡ (ok more, t)
unfolding load_and_advance
load-ok env i e s found h = ground arith

module _ (env : Env) (e : OtcExecutionSaga) (s : World) {more : Bool} {t : World}
    (h : advance env e s ≡ (ok more, t)) where
  pub advance_over : is_terminal_execution_status e.status ≡ true → (more ≡ false) × (t ≡ s)
  unfolding advance
  advance_over over = ground arith

  pub advance_waiting : waits env e ≡ true → (more ≡ false) × (t ≡ s)
  unfolding advance
  advance_waiting waiting = ground arith

  pub advance_back :
      e.status ≡ OtcExecutionStatus.compensating
      → waits env e ≡ false
      → (more ≡ false) × (handle_compensation env e s ≡ (ok tt, t))
  unfolding advance is_terminal_execution_status
  advance_back undoing ready = elim (Result-cases (handle_compensation env e s).0) [
    | inl (u, good) ↦ (ground arith, ground arith)
    | inr (x, bad) ↦ absurd (ground arith)
  ]

  pub advance_forth :
      e.status ≡ OtcExecutionStatus.in_progress
      → waits env e ≡ false
      → (more ≡ not (is_completed_step e.current_step)) × (process_step env e s ≡ (ok tt, t))
  unfolding advance is_terminal_execution_status
  advance_forth forth ready = elim (Result-cases (process_step env e s).0) [
    | inl (u, good) ↦ (ground arith, ground arith)
    | inr (x, bad) ↦ absurd (ground arith)
  ]

pub waits-some :
    (env : Env) (e : OtcExecutionSaga)
    → waits env e ≡ true
    → (next : ℕ) × (e.next_retry_at ≡ some next)
unfolding waits
waits-some env e h = elim (Option-cases e.next_retry_at) [
  | inl missing ↦ absurd (ground arith)
  | inr (next, at) ↦ (next, at)
]

pub waits-later :
    (env : Env) (e : OtcExecutionSaga) (next : ℕ)
    → e.next_retry_at ≡ some next
    → env.now < next
    → waits env e ≡ true
unfolding waits
waits-later env e next at later = ground arith
