-- ===== src/Trading/Consistency/Advance.antt =====
-- The end of a step that has succeeded, which moves the execution on and changes no funds.
use raf_8_banka_4_backend.Shared.{
  ◌>>◌, trim_space, text_eq, if◌then◌else◌, String, ◌≡◌, refl, sym, ◌∙◌, subst, false, arith,
}
use raf_8_banka_4_backend.Banking.Model.{OtcFundsReservation}
use raf_8_banka_4_backend.Banking.Store as Bank
use raf_8_banka_4_backend.Trading.Model.{
  OtcExecutionSaga, OtcExecutionStep, OtcExecutionStatus, SagaStep, after, succeeded,
}
use raf_8_banka_4_backend.Trading.World.{World, Env, append_saga_log}
use raf_8_banka_4_backend.Trading.Execution.{advance_execution}
use raf_8_banka_4_backend.Trading.Steps.{contract_of, finish_step}
use raf_8_banka_4_backend.Trading.Consistency.{
  Fits, Row, Consistent, settled, change_execution-Consistent, then_keeps,
}
use raf_8_banka_4_backend.Trading.Consistency.Undo.{funds, no_forward_fault}
use raf_8_banka_4_backend.Trading.Consistency.Backward.{Open}

finish_step-log :
    (env : Env) (e : OtcExecutionSaga) (step : SagaStep)
    → env.fault_enabled ≡ false
    → (t : World)
    → (finish_step env e step t).1 ≡ append_saga_log env e.otc_execution_saga_id step succeeded t
unfolding finish_step
finish_step-log env e step off t = ground (
  arith,
  no_forward_fault env e step after (append_saga_log env e.otc_execution_saga_id step succeeded t)
      off,
)

-- The end of a step changes nothing but the log.
pub finish_step-Consistent :
    (env : Env) (e : OtcExecutionSaga) (step : SagaStep)
    → env.fault_enabled ≡ false
    → (t : World) → Consistent e.otc_execution_saga_id t
    → Consistent e.otc_execution_saga_id (finish_step env e step t).1
unfolding append_saga_log
finish_step-Consistent env e step off t h =
    subst (Consistent e.otc_execution_saga_id) (sym (finish_step-log env e step off t)) h

-- The answer names the execution by its own key.
same_key : (k key : String) → k ≡ key → (if text_eq (trim_space k) "" then key else k) ≡ key
same_key k key e = ground arith

advance_execution-Consistent :
    (env : Env) (e : OtcExecutionSaga) (s : World) (b : Bank.Store) (next : OtcExecutionStep)
    (q : OtcFundsReservation)
    → Row e.otc_execution_saga_id e s
    → Open e s
    → settled next ≡ false
    → q.execution_id ≡ e.execution_key
    → Fits e.status e.current_step (contract_of e.contract_id s.contracts) (funds e b)
    → Fits OtcExecutionStatus.in_progress next (contract_of e.contract_id s.contracts) (funds e b)
    → Consistent e.otc_execution_saga_id
        (advance_execution env e.otc_execution_saga_id next OtcExecutionStatus.in_progress
          q.execution_id
          (record s { banking = b })).1
unfolding advance_execution
advance_execution-Consistent env e s b next q row open_still early key old new =
    change_execution-Consistent env e.otc_execution_saga_id _ e (record s { banking = b }) row refl
      refl (same_key q.execution_id e.execution_key key) (old, open_still.0 ∙ sym open_still.1)
      (new, open_still.0 ∙ sym early)

-- An answered call moves the execution on.
pub advance-Consistent :
    (env : Env) (e : OtcExecutionSaga) (s : World) (b : Bank.Store) (next : OtcExecutionStep)
    (step : SagaStep) (q : OtcFundsReservation)
    → env.fault_enabled ≡ false
    → Row e.otc_execution_saga_id e s
    → Open e s
    → settled next ≡ false
    → q.execution_id ≡ e.execution_key
    → Fits e.status e.current_step (contract_of e.contract_id s.contracts) (funds e b)
    → Fits OtcExecutionStatus.in_progress next (contract_of e.contract_id s.contracts) (funds e b)
    → Consistent e.otc_execution_saga_id
        ((advance_execution env e.otc_execution_saga_id next OtcExecutionStatus.in_progress
              q.execution_id
            >> finish_step env e step)
          (record s { banking = b })).1
advance-Consistent env e s b next step q off row open_still early key old new =
    then_keeps (Consistent e.otc_execution_saga_id)
      (advance_execution env e.otc_execution_saga_id next OtcExecutionStatus.in_progress
        q.execution_id)
      (finish_step env e step) (record s { banking = b })
      (advance_execution-Consistent env e s b next q row open_still early key old new)
      (finish_step-Consistent env e step off)
