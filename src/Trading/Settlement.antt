-- ===== src/Trading/Settlement.antt =====
-- services/trading-service/internal/service/otc_deal_processing_service.go: the steps of the saga
-- that pay the money and move the shares, F3 to F5.
use raf_8_banka_4_backend.Shared.{
  Bool, true, false, none, if◌then◌else◌, Action, Result, ok, err, not_found, internal, driver,
  ◌>>=◌, ◌>>◌, pure, raise, raise_if, load, exec, within_transaction,
}
use raf_8_banka_4_backend.Banking.OtcFunds as Funds
use raf_8_banka_4_backend.Trading.Model.{
  OtcOptionContract, OtcOptionContractStatus, OtcShareReservation, OtcShareReservationStatus,
  OtcExecutionSaga, OtcExecutionStep, OtcExecutionStatus, f3, f4, f5, before, succeeded, errored,
}
use raf_8_banka_4_backend.Trading.World.{
  World, Env, save_contract, save_reservation, save_execution, find_completed, commit_step,
  commit_call, find_execution_of_contract, save_execution_row, save_contract_row,
  save_reservation_row, is_terminal_banking_error, Reply, replied, refused, call_bank,
  append_saga_log,
}
use raf_8_banka_4_backend.Trading.Contracts.{move_shares}
use raf_8_banka_4_backend.Trading.Execution.{
  note, consume_forward_fault, advance_execution, begin_compensation, schedule_retry,
  release_and_fail,
}
use raf_8_banka_4_backend.Trading.Steps.{finish_step, on_live_contract, save_progress}

unfoldable pub after_commit_reply : Env → OtcExecutionSaga → Reply → Action World (Unit {0})
after_commit_reply env e (refused code) = do
  note (append_saga_log env e.otc_execution_saga_id f3 errored)
  if is_terminal_banking_error code
      then release_and_fail env e
      else schedule_retry env e.otc_execution_saga_id e.current_step
after_commit_reply env e (replied r) = do
  advance_execution env e.otc_execution_saga_id OtcExecutionStep.funds_committed
      OtcExecutionStatus.in_progress r.execution_id
  finish_step env e f3

-- `commitFunds`
unfoldable pub commit_funds : Env → OtcExecutionSaga → Action World (Unit {0})
commit_funds env e = do
  hit ← consume_forward_fault env e f3 before
  elim hit [
    | true ↦ do
      note (append_saga_log env e.otc_execution_saga_id f3 errored)
      release_and_fail env e
    | false ↦ do
      reply ← λ s.
          let (r, t) =
            call_bank (env.delivery commit_call) (Funds.commit env.bank e.execution_key) s in
          (ok r, t)
      after_commit_reply env e reply
  ]

-- The settlement in the closure of `transferOwnership`.
unfoldable pub settle :
    Env → OtcExecutionSaga → OtcOptionContract → OtcShareReservation → Action World (Unit {0})
settle env e c r = do
  move_shares env c
  exec (env.fails save_contract) (λ s. record s {
    contracts =
        save_contract_row (record c { status = OtcOptionContractStatus.exercised }) s.contracts;
  })
  exec (env.fails save_reservation) (λ s. record s {
    reservations =
        save_reservation_row (record r { status = OtcShareReservationStatus.consumed })
          s.reservations;
  })
  save_progress env e OtcExecutionStep.ownership_transferred

-- The closure of `transferOwnership`.
unfoldable pub transfer_body : Env → OtcExecutionSaga → Action World Bool
transfer_body env e = on_live_contract env e (settle env e)

unfoldable pub after_transfer : Env → OtcExecutionSaga → Result Bool → Action World (Unit {0})
after_transfer env e (ok false) = finish_step env e f4
after_transfer env e (ok true) = do
  note (append_saga_log env e.otc_execution_saga_id f4 errored)
  begin_compensation env e.otc_execution_saga_id OtcExecutionStep.funds_committed
after_transfer env e (err x) = do
  note (append_saga_log env e.otc_execution_saga_id f4 errored)
  begin_compensation env e.otc_execution_saga_id OtcExecutionStep.funds_committed

-- `transferOwnership`, without the record of the gain for the tax
unfoldable pub transfer_ownership : Env → OtcExecutionSaga → Action World (Unit {0})
transfer_ownership env e = do
  hit ← consume_forward_fault env e f4 before
  elim hit [
    | true ↦ do
      note (append_saga_log env e.otc_execution_saga_id f4 errored)
      begin_compensation env e.otc_execution_saga_id OtcExecutionStep.funds_committed
    | false ↦ do
      outcome ← λ s.
          let (r, t) = within_transaction (env.fails commit_step) (transfer_body env e) s in
          (ok r, t)
      after_transfer env e outcome
  ]

-- The closure of `completeExecution`: whether the row has changed.
unfoldable pub complete_body : Env → OtcExecutionSaga → Action World Bool
complete_body env e = do
  current ←
      load (env.fails find_completed) (λ s. find_execution_of_contract e.contract_id s.executions)
        (not_found "OTC execution not found")
  elim current.status [
    | OtcExecutionStatus.completed ↦ pure false
    | _ ↦ do
      raise_if (env.fails save_execution) driver
      exec false (λ s. record s {
        executions =
            save_execution_row
              (record current {
                current_step = OtcExecutionStep.completed;
                status = OtcExecutionStatus.completed;
                next_retry_at = none;
              })
              s.executions;
      })
      pure true
  ]

unfoldable pub after_complete : Env → OtcExecutionSaga → Result Bool → Action World (Unit {0})
after_complete env e (ok true) = note (append_saga_log env e.otc_execution_saga_id f5 succeeded)
after_complete env e (ok false) = pure tt
after_complete env e (err x) = do
  note (append_saga_log env e.otc_execution_saga_id f5 errored)
  raise x

-- `completeExecution`
unfoldable pub complete_execution : Env → OtcExecutionSaga → Action World (Unit {0})
complete_execution env e = do
  hit ← consume_forward_fault env e f5 before
  elim hit [
    | true ↦ do note (append_saga_log env e.otc_execution_saga_id f5 errored); raise internal
    | false ↦ do
      outcome ← λ s.
          let (r, t) = within_transaction (env.fails commit_step) (complete_body env e) s in
          (ok r, t)
      after_complete env e outcome
  ]
