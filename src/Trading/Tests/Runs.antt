-- ===== src/Trading/Tests/Runs.antt =====
-- A run of the saga in which nothing fails.
use native.Mathlib.Decide.{ℕ_discrete}
use raf_8_banka_4_backend.Shared.{
  some, ◌≡◌, refl, String_discrete, trim_space, ◌+ℤ◌, ◌-ℤ◌, ok, find, save, update, arith,
  within_transaction,
}
use raf_8_banka_4_backend.Banking.Model.{allowed_currencies}
use raf_8_banka_4_backend.Banking.Store as Bank
use raf_8_banka_4_backend.Banking.OtcFunds as Funds
use raf_8_banka_4_backend.Trading.Model.{
  OwnerType_discrete, OtcExecutionSaga, OtcExecutionStep, OtcExecutionStatus,
}
use raf_8_banka_4_backend.Trading.World
use raf_8_banka_4_backend.Trading.World.{find_execution_row}
use raf_8_banka_4_backend.Trading.Contracts
use raf_8_banka_4_backend.Trading.Execution
use raf_8_banka_4_backend.Trading.Steps
use raf_8_banka_4_backend.Trading.Settlement
use raf_8_banka_4_backend.Trading.Saga
use raf_8_banka_4_backend.Trading.Saga.{process_execution}
use raf_8_banka_4_backend.Trading.Progress.Rounds.{Ended}
use raf_8_banka_4_backend.Trading.Progress.Runs.{process_execution-Ended}
use raf_8_banka_4_backend.Trading.Tests.{calm, execution, market, market-Consistent}

abbrev completed_row : OtcExecutionSaga
completed_row = record execution {
  current_step = OtcExecutionStep.completed;
  status = OtcExecutionStatus.completed;
}

runs : process_execution (λ k. calm) 1 market ≡ (ok tt, (process_execution (λ k. calm) 1 market).1)
unfolding World.find_execution_row World.find_execution_of_contract World.save_execution_row
    World.find_contract_row World.save_contract_row World.find_reservation_row
    World.save_reservation_row World.find_ownership World.upsert_ownership World.Holder_discrete
    OwnerType_discrete World.sum_active_reserved World.times World.grpc_code
    World.is_terminal_banking_error World.call_bank World.append_saga_log
    Contracts.should_expire_contract Contracts.validate_contract_for_execution
    Contracts.free_reservation Contracts.expire_locked_contract Contracts.expire_if_due
    Contracts.expire_contract Contracts.ensure_seller_capacity_for_settlement Execution.fault_spec
    Execution.forward_fault Execution.consume_forward_fault Execution.compensation_fault
    Execution.consume_compensation_fault Execution.is_terminal_execution_status
    Execution.change_execution Execution.advance_execution Execution.update_retry_state
    Execution.mark_failed Execution.compensate Execution.compensate_release_funds
    Execution.release_and_fail Steps.finish_step Steps.contract_of Steps.request_funds
    Steps.after_reserve_reply Steps.reserve_funds Steps.on_live_contract Steps.confirm_body
    Steps.is_client_error Steps.step_after_confirm Steps.after_confirm Steps.confirm_shares
    Saga.process_step Saga.waits Saga.advance Saga.load_and_advance Saga.run_rounds
    Saga.process_execution Funds.reserve Funds.reserve_new Funds.convert_trade_amount
    Funds.same_request Funds.release Funds.release_row Funds.transition Bank.find_account_row
    Bank.find_reservation_row Bank.save_reservation_row Bank.update_balance allowed_currencies
    within_transaction find save update ℕ_discrete String_discrete trim_space ◌+ℤ◌ ◌-ℤ◌
    Settlement.after_commit_reply Settlement.commit_funds Settlement.settle Settlement.transfer_body
    Settlement.after_transfer Settlement.transfer_ownership Settlement.complete_body
    Settlement.after_complete Settlement.complete_execution Contracts.move_shares
    Contracts.after_sale Contracts.no_shares Contracts.new_average Contracts.after_purchase
    Funds.commit Funds.commit_row
runs = refl

run_row :
    find_execution_row 1 (process_execution (λ k. calm) 1 market).1.executions ≡ some completed_row
unfolding World.find_execution_row World.find_execution_of_contract World.save_execution_row
    World.find_contract_row World.save_contract_row World.find_reservation_row
    World.save_reservation_row World.find_ownership World.upsert_ownership World.Holder_discrete
    OwnerType_discrete World.sum_active_reserved World.times World.grpc_code
    World.is_terminal_banking_error World.call_bank World.append_saga_log
    Contracts.should_expire_contract Contracts.validate_contract_for_execution
    Contracts.free_reservation Contracts.expire_locked_contract Contracts.expire_if_due
    Contracts.expire_contract Contracts.ensure_seller_capacity_for_settlement Execution.fault_spec
    Execution.forward_fault Execution.consume_forward_fault Execution.compensation_fault
    Execution.consume_compensation_fault Execution.is_terminal_execution_status
    Execution.change_execution Execution.advance_execution Execution.update_retry_state
    Execution.mark_failed Execution.compensate Execution.compensate_release_funds
    Execution.release_and_fail Steps.finish_step Steps.contract_of Steps.request_funds
    Steps.after_reserve_reply Steps.reserve_funds Steps.on_live_contract Steps.confirm_body
    Steps.is_client_error Steps.step_after_confirm Steps.after_confirm Steps.confirm_shares
    Saga.process_step Saga.waits Saga.advance Saga.load_and_advance Saga.run_rounds
    Saga.process_execution Funds.reserve Funds.reserve_new Funds.convert_trade_amount
    Funds.same_request Funds.release Funds.release_row Funds.transition Bank.find_account_row
    Bank.find_reservation_row Bank.save_reservation_row Bank.update_balance allowed_currencies
    within_transaction find save update ℕ_discrete String_discrete trim_space ◌+ℤ◌ ◌-ℤ◌
    Settlement.after_commit_reply Settlement.commit_funds Settlement.settle Settlement.transfer_body
    Settlement.after_transfer Settlement.transfer_ownership Settlement.complete_body
    Settlement.after_complete Settlement.complete_execution Contracts.move_shares
    Contracts.after_sale Contracts.no_shares Contracts.new_average Contracts.after_purchase
    Funds.commit Funds.commit_row
run_row = refl

process_execution-Ended_example : Ended 1 (process_execution (λ k. calm) 1 market).1
process_execution-Ended_example =
    process_execution-Ended (λ k. calm) 1 market (λ k. refl) (λ j k. omega arith) market-Consistent
      runs
