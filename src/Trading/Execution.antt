-- ===== src/Trading/Execution.antt =====
-- services/trading-service/internal/service/otc_deal_processing_service.go: the row of an execution,
-- its faults, and the two compensators of the saga.
use raf_8_banka_4_backend.Shared.{
  ℕ, suc, ◌+◌, ◌-◌, ◌==◌, Bool, true, false, not, ◌&&◌, String, text_eq, trim_space, Option, none,
  some, if◌then◌else◌, Action, ok, not_found, driver, ◌>>=◌, ◌>>◌, pure, raise_if, load, exec,
  within_transaction,
}
use raf_8_banka_4_backend.Banking.OtcFunds as Funds
use raf_8_banka_4_backend.Trading.Model.{
  OtcExecutionSaga, OtcExecutionStep, OtcExecutionStatus, SagaStep, SagaStep_discrete, c1, c3, Kind,
  Kind_discrete, Spec, succeeded, errored,
}
use raf_8_banka_4_backend.Trading.World.{
  World, Env, find_to_change, save_change, commit_change, update_fault_spec, release_call,
  refund_call, find_execution_row, save_execution_row, update_fault_spec_row, Reply, replied,
  refused, call_bank, append_saga_log,
}

-- A failing statement of a call whose error is swallowed, or one that cannot fail.
abbrev pub note : (World → World) → Action World (Unit {0})
note f s = (ok tt, f s)

-- `faultSpec`
unfoldable pub fault_spec : Env → OtcExecutionSaga → Option Spec
fault_spec env e = if env.fault_enabled then e.fault_spec else none

unfoldable pub forward_fault : SagaStep → Kind → Option Spec → Bool
forward_fault step kind none = false
forward_fault step kind (some spec) = elim spec.force_fail [
  | none ↦ false
  | some (s, k) ↦ elim (SagaStep_discrete s step) [
    | yes p ↦ elim (Kind_discrete k kind) [ yes q ↦ not spec.force_fail_used | no n ↦ false ]
    | no n ↦ false
  ]
]

abbrev use_fault : Option Spec → Option Spec
use_fault none = none
use_fault (some spec) = some (record spec { force_fail_used = true })

-- `consumeForwardFault`: whether the step is made to fail
unfoldable pub consume_forward_fault : Env → OtcExecutionSaga → SagaStep → Kind → Action World Bool
consume_forward_fault env e step kind s =
    let hit = forward_fault step kind (fault_spec env e) in
    (
      ok hit,
      record s {
        executions =
            if hit && not (env.fails update_fault_spec)
            then update_fault_spec_row e.otc_execution_saga_id (use_fault e.fault_spec) s.executions
            else s.executions;
      },
    )

unfoldable pub compensation_fault : SagaStep → Option Spec → Bool
compensation_fault step none = false
compensation_fault step (some spec) = elim spec.compensate_fail_step [
  | none ↦ false
  | some c ↦ elim (SagaStep_discrete c step) [
    | yes p ↦ not (spec.compensate_fail_remaining == 0)
    | no n ↦ false
  ]
]

abbrev use_compensation_fault : Option Spec → Option Spec
use_compensation_fault none = none
use_compensation_fault (some spec) =
    some (record spec { compensate_fail_remaining = spec.compensate_fail_remaining - 1 })

-- `consumeCompensationFault`
unfoldable pub consume_compensation_fault : Env → OtcExecutionSaga → SagaStep → Action World Bool
consume_compensation_fault env e step s =
    let hit = compensation_fault step (fault_spec env e) in
    (
      ok hit,
      record s {
        executions =
            if hit && not (env.fails update_fault_spec)
            then update_fault_spec_row e.otc_execution_saga_id (use_compensation_fault e.fault_spec)
                s.executions
            else s.executions;
      },
    )

-- `isTerminalExecutionStatus`
unfoldable pub is_terminal_execution_status : OtcExecutionStatus → Bool
is_terminal_execution_status OtcExecutionStatus.completed = true
is_terminal_execution_status OtcExecutionStatus.failed = true
is_terminal_execution_status OtcExecutionStatus.in_progress = false
is_terminal_execution_status OtcExecutionStatus.compensating = false

-- The transaction that `advanceExecution`, `beginCompensation`, `updateRetryState` and `markFailed`
-- share: a row that is terminal stays as it is.
unfoldable pub change_execution :
    Env → ℕ → (OtcExecutionSaga → OtcExecutionSaga) → Action World (Unit {0})
change_execution env i change = within_transaction (env.fails commit_change) do
  e ←
      load (env.fails find_to_change) (λ s. find_execution_row i s.executions)
        (not_found "OTC execution not found")
  if is_terminal_execution_status e.status then pure tt else do
    raise_if (env.fails save_change) driver
    exec false (λ s. record s { executions = save_execution_row (change e) s.executions })

unfoldable pub advance_execution :
    Env → ℕ → OtcExecutionStep → OtcExecutionStatus → String → Action World (Unit {0})
advance_execution env i step status key = change_execution env i (λ e. record e {
  current_step = step;
  status = status;
  next_retry_at = none;
  execution_key = if text_eq (trim_space key) "" then e.execution_key else key;
})

unfoldable pub begin_compensation : Env → ℕ → OtcExecutionStep → Action World (Unit {0})
begin_compensation env i step = change_execution env i (λ e. record e {
  current_step = step;
  status = OtcExecutionStatus.compensating;
  next_retry_at = none;
})

-- `updateRetryState`, with the retry delay of 30 seconds
unfoldable pub update_retry_state :
    Env → ℕ → OtcExecutionStep → OtcExecutionStatus → Action World (Unit {0})
update_retry_state env i step status = change_execution env i (λ e. record e {
  current_step = step;
  status = status;
  retry_count = suc e.retry_count;
  next_retry_at = some (env.now + 30);
})

unfoldable pub mark_failed : Env → ℕ → OtcExecutionStep → Action World (Unit {0})
mark_failed env i step = change_execution env i (λ e. record e {
  current_step = step;
  status = OtcExecutionStatus.failed;
  next_retry_at = none;
})

abbrev pub schedule_retry : Env → ℕ → OtcExecutionStep → Action World (Unit {0})
schedule_retry env i step = update_retry_state env i step OtcExecutionStatus.in_progress

abbrev pub schedule_compensating : Env → ℕ → OtcExecutionStep → Action World (Unit {0})
schedule_compensating env i step = update_retry_state env i step OtcExecutionStatus.compensating

-- `compensateReleaseFunds` and `compensateRefundFunds`: whether the compensator has succeeded
unfoldable pub compensate :
    Env → OtcExecutionSaga → SagaStep → (World → Reply × World) → Action World Bool
compensate env e step call = do
  hit ← consume_compensation_fault env e step
  elim hit [
    | true ↦ do note (append_saga_log env e.otc_execution_saga_id step errored); pure false
    | false ↦ do
      reply ← λ s. (ok (call s).0, (call s).1)
      elim reply [
        | refused code ↦ do
          note (append_saga_log env e.otc_execution_saga_id step errored)
          pure false
        | replied r ↦ do
          note (append_saga_log env e.otc_execution_saga_id step succeeded)
          pure true
      ]
  ]

unfoldable pub compensate_release_funds : Env → OtcExecutionSaga → Action World Bool
compensate_release_funds env e =
    compensate env e c1
      (call_bank (env.delivery release_call) (Funds.release env.bank e.execution_key))

unfoldable pub compensate_refund_funds : Env → OtcExecutionSaga → Action World Bool
compensate_refund_funds env e =
    compensate env e c3
      (call_bank (env.delivery refund_call) (Funds.refund env.bank e.execution_key))

-- `releaseAndFail`
unfoldable pub release_and_fail : Env → OtcExecutionSaga → Action World (Unit {0})
release_and_fail env e = do
  released ← compensate_release_funds env e
  if released
      then mark_failed env e.otc_execution_saga_id OtcExecutionStep.funds_reserved
      else schedule_compensating env e.otc_execution_saga_id OtcExecutionStep.funds_reserved
