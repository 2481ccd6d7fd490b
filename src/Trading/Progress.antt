-- ===== src/Trading/Progress.antt =====
-- How far one run of processExecution gets: the bound on its rounds is never what stops it.
pub mod Steps
pub mod Moves
pub mod Rounds
pub mod Runs
use native.Mathlib.Decide.{ℕ_discrete}
use raf_8_banka_4_backend.Shared.{
  ℕ, ◌+◌, ◌<◌, ◌≡◌, refl, ◌⊎◌, inl, inr, sym, ap, ◌∙◌, subst, Bool, true, false, Bool-cases, Option,
  some, none, arith, Result, Result-cases, ok, err, find-save, if_pos, find-key, within_transaction,
  Action,
}
use raf_8_banka_4_backend.Banking.Store as Bank
use raf_8_banka_4_backend.Banking.Model.{OtcFundsReservation}
use raf_8_banka_4_backend.Trading.Model.{
  OtcExecutionSaga, OtcExecutionStep, OtcExecutionStatus, SagaStep, OtcExecutionLogOutcome,
}
use raf_8_banka_4_backend.Trading.World.{
  World, Env, Delivery, Reply, call_bank, append_saga_log, find_execution_row, save_execution_row,
  release_call, refund_call,
}
use raf_8_banka_4_backend.Banking.OtcFunds as Funds
use raf_8_banka_4_backend.Trading.Execution.{
  is_terminal_execution_status, change_execution, mark_failed, update_retry_state, compensate,
  compensate_release_funds, compensate_refund_funds, release_and_fail,
}
use raf_8_banka_4_backend.Trading.Consistency.Undo.{no_compensation_fault}

-- The row is settled for the whole run: terminal, or to be tried again after it.
abbrev pub Rests : (ℕ → Env) → OtcExecutionSaga → Type 0
Rests env e =
    (is_terminal_execution_status e.status ≡ true)
    ⊎ ((t : ℕ) × (e.next_retry_at ≡ some t) × ((k : ℕ) → (env k).now < t))

abbrev pub Found : ℕ → OtcExecutionSaga → World → Type 0
Found i e s = find_execution_row i s.executions ≡ some e

abbrev pub Resting : (ℕ → Env) → ℕ → World → Type 0
Resting env i t = (e : OtcExecutionSaga) × Found i e t × Rests env e

pub find-save_execution_row :
    (i : ℕ) (e v : OtcExecutionSaga) (s : World)
    → Found i e s
    → v.otc_execution_saga_id ≡ e.otc_execution_saga_id
    → find_execution_row i (save_execution_row v s.executions) ≡ some v
unfolding find_execution_row save_execution_row
find-save_execution_row i e v s found same =
    find-save ℕ_discrete (λ x. x.otc_execution_saga_id) i v s.executions
    ∙ if_pos (ℕ_discrete v.otc_execution_saga_id i)
        (same ∙ find-key ℕ_discrete (λ x. x.otc_execution_saga_id) i s.executions found) _ _

change_execution-saved :
    (env : Env) (i : ℕ) (change : OtcExecutionSaga → OtcExecutionSaga) (e : OtcExecutionSaga)
    (s : World) {t : World}
    → Found i e s
    → is_terminal_execution_status e.status ≡ false
    → change_execution env i change s ≡ (ok tt, t)
    → t.executions ≡ save_execution_row (change e) s.executions
unfolding change_execution within_transaction
change_execution-saved env i change e s found going h = ground arith

-- A change that succeeds is made.
pub change_execution-Found :
    (env : Env) (i : ℕ) (change : OtcExecutionSaga → OtcExecutionSaga) (e : OtcExecutionSaga)
    (s : World) {t : World}
    → Found i e s
    → is_terminal_execution_status e.status ≡ false
    → (change e).otc_execution_saga_id ≡ e.otc_execution_saga_id
    → change_execution env i change s ≡ (ok tt, t)
    → Found i (change e) t
change_execution-Found env i change e s found going same h =
    ap (find_execution_row i) (change_execution-saved env i change e s found going h)
    ∙ find-save_execution_row i e (change e) s found same

pub call_bank-executions :
    (d : Delivery) (m : Action Bank.Store OtcFundsReservation) (s : World)
    → (call_bank d m s).1.executions ≡ s.executions
unfolding call_bank
call_bank-executions d m s = ground arith

compensate-executions :
    (env : Env) (e : OtcExecutionSaga) (step : SagaStep) (call : World → Reply × World) (s : World)
    → env.fault_enabled ≡ false
    → (call s).1.executions ≡ s.executions
    → (compensate env e step call s).1.executions ≡ s.executions
unfolding compensate append_saga_log
compensate-executions env e step call s off same =
    ground (arith, no_compensation_fault env e step s off)

module _ (envs : ℕ → Env) (env : Env) (e : OtcExecutionSaga) (s : World)
    (off : env.fault_enabled ≡ false) (soon : (k : ℕ) → (envs k).now < env.now + 30)
    (found : Found e.otc_execution_saga_id e s)
    (going : is_terminal_execution_status e.status ≡ false) where
  pub mark_failed-Resting :
      (step : OtcExecutionStep) {t : World}
      → mark_failed env e.otc_execution_saga_id step s ≡ (ok tt, t)
      → Resting envs e.otc_execution_saga_id t
  unfolding mark_failed is_terminal_execution_status
  mark_failed-Resting step h = (
    record e { current_step = step; status = OtcExecutionStatus.failed; next_retry_at = none },
    change_execution-Found env e.otc_execution_saga_id _ e s found going refl h,
    inl refl,
  )

  pub retry-Resting :
      (step : OtcExecutionStep) (status : OtcExecutionStatus) {t : World}
      → update_retry_state env e.otc_execution_saga_id step status s ≡ (ok tt, t)
      → Resting envs e.otc_execution_saga_id t
  unfolding update_retry_state
  retry-Resting step status h = (
    _,
    change_execution-Found env e.otc_execution_saga_id _ e s found going refl h,
    inr (env.now + 30, refl, soon),
  )

pub release-executions :
    (env : Env) (e : OtcExecutionSaga) (s : World)
    → env.fault_enabled ≡ false
    → (compensate_release_funds env e s).1.executions ≡ s.executions
unfolding compensate_release_funds
release-executions env e s off =
    compensate-executions env e _ _ s off
      (call_bank-executions (env.delivery release_call) (Funds.release env.bank e.execution_key) s)

pub refund-executions :
    (env : Env) (e : OtcExecutionSaga) (s : World)
    → env.fault_enabled ≡ false
    → (compensate_refund_funds env e s).1.executions ≡ s.executions
unfolding compensate_refund_funds
refund-executions env e s off =
    compensate-executions env e _ _ s off
      (call_bank-executions (env.delivery refund_call) (Funds.refund env.bank e.execution_key) s)
