-- ===== src/Trading/Tests.antt =====
-- Runs of the settlement on a small world, and the theorems at concrete inputs.
mod Deals
mod Runs
use native.Mathlib.Decide.{ℕ_discrete}
use raf_8_banka_4_backend.Shared.{
  ℕ, false, true, none, some, String, List, ◌∷◌, [], ◌≡◌, ◌⊎◌, refl, inl, pos, String_discrete,
  trim_space, ◌+ℤ◌, ◌-ℤ◌, ok, find, save, update, within_transaction,
}
use raf_8_banka_4_backend.Banking.Model.{Account, released, refunded, allowed_currencies}
use raf_8_banka_4_backend.Banking.Store as Bank
use raf_8_banka_4_backend.Banking.OtcFunds as Funds
use raf_8_banka_4_backend.Trading.Model.{
  OwnerType, OwnerType_discrete, OtcOptionContract, OtcOptionContractStatus,
  OtcShareReservationStatus, OtcExecutionSaga, OtcExecutionStep, OtcExecutionStatus,
}
use raf_8_banka_4_backend.Trading.World
use raf_8_banka_4_backend.Trading.World.{
  World, Env, Delivery, find_contract_row, find_execution_row,
}
use raf_8_banka_4_backend.Trading.Contracts
use raf_8_banka_4_backend.Trading.Execution
use raf_8_banka_4_backend.Trading.Steps
use raf_8_banka_4_backend.Trading.Saga
use raf_8_banka_4_backend.Trading.Consistency.{Consistent, In, is_exercised, money}
use raf_8_banka_4_backend.Trading.Consistency.History.{
  Event, process, expire, apply, apply_all, AllAdmitted, apply_all-Consistent, apply_all-Ends,
}

-- Nothing fails, and every call is answered.
abbrev pub calm : Env
calm = record {
  now = 100;
  fails = λ st. false;
  delivery = λ c. Delivery.answered;
  bank = record { fails = λ st. false; convert = λ x from to. ok x };
  pays = λ done p. true;
  nanos = 5;
  fault_enabled = false;
  requested_spec = none;
}

-- The answers of banking are lost.
abbrev deaf : Env
deaf = record calm { delivery = λ c. Delivery.lost }

-- Later than the settlement date and than every retry.
abbrev late : Env
late = record calm { now = 1000 }

abbrev account : String → ℕ → Account
account number funds = record {
  account_number = number;
  client_id = 7;
  currency = "RSD";
  balance = pos funds;
  available_balance = pos funds;
  status = "Active";
  daily_spending = pos 0;
  monthly_spending = pos 0;
}

abbrev pub option : OtcOptionContract
option = record {
  otc_option_contract_id = 3;
  otc_offer_id = 1;
  buyer_id = 7;
  seller_id = 8;
  stock_asset_id = 4;
  amount = 5;
  strike_price_rsd = pos 100;
  premium_rsd = pos 20;
  settlement_date = 500;
  buyer_account_number = "444000000000000101";
  seller_account_number = "444000000000000202";
  status = OtcOptionContractStatus.active;
}

abbrev pub execution : OtcExecutionSaga
execution = record {
  otc_execution_saga_id = 1;
  contract_id = 3;
  execution_key = "otc-execution-3-5";
  current_step = OtcExecutionStep.init;
  status = OtcExecutionStatus.in_progress;
  retry_count = 0;
  next_retry_at = none;
  fault_spec = none;
}

abbrev pub market : World
market = record {
  offers = [];
  contracts = option ∷ [];
  reservations =
      record {
        contract_id = 3;
        seller_id = 8;
        owner_type = OwnerType.client;
        stock_asset_id = 4;
        reserved_amount = pos 5;
        status = OtcShareReservationStatus.active;
      }
      ∷ [];
  executions = execution ∷ [];
  ownerships =
      record {
        user_id = 8;
        owner_type = OwnerType.client;
        asset_id = 4;
        amount = pos 9;
        avg_buy_price_rsd = pos 50;
        public_amount = pos 9;
        reserved_amount = pos 5;
      }
      ∷ [];
  log = [];
  next_execution_id = 4;
  next_contract_id = 4;
  banking = record {
    accounts = account "444000000000000101" 1000 ∷ account "444000000000000202" 0 ∷ [];
    reservations = [];
    postings = [];
    transactions = [];
    payments = [];
    next_transaction_id = 1;
  };
  premiums = [];
}

pub market-Consistent : Consistent 1 market
unfolding find_execution_row World.find_execution_of_contract find ℕ_discrete String_discrete
    trim_space Bank.find_reservation_row find_contract_row
market-Consistent = (execution, (refl, refl, refl, refl), (inl refl, refl))

-- A first run whose answers are lost, the expiry of the contract, and a run that undoes the settlement.
abbrev history : List Event
history = process (λ k. deaf) ∷ expire late 3 ∷ process (λ k. late) ∷ []

history-AllAdmitted : AllAdmitted 1 history market
history-AllAdmitted = ((λ k. refl), (tt, ((λ k. refl), tt)))

apply_all-Consistent_example : Consistent 1 (apply_all 1 history market)
apply_all-Consistent_example =
    apply_all-Consistent 1 history market history-AllAdmitted market-Consistent

abbrev failed_row : OtcExecutionSaga
failed_row = record execution {
  current_step = OtcExecutionStep.funds_reserved;
  status = OtcExecutionStatus.failed;
  retry_count = 1;
}

history_row : find_execution_row 1 (apply_all 1 history market).executions ≡ some failed_row
unfolding apply_all apply World.find_execution_row World.find_execution_of_contract
    World.save_execution_row World.find_contract_row World.save_contract_row
    World.find_reservation_row World.save_reservation_row World.find_ownership
    World.upsert_ownership World.Holder_discrete OwnerType_discrete World.sum_active_reserved
    World.times World.grpc_code World.is_terminal_banking_error World.call_bank
    World.append_saga_log Contracts.should_expire_contract Contracts.validate_contract_for_execution
    Contracts.free_reservation Contracts.expire_locked_contract Contracts.expire_if_due
    Contracts.expire_contract Contracts.ensure_seller_capacity_for_settlement Execution.fault_spec
    Execution.forward_fault Execution.consume_forward_fault Execution.compensation_fault
    Execution.consume_compensation_fault Execution.is_terminal_execution_status
    Execution.change_execution Execution.advance_execution Execution.update_retry_state
    Execution.mark_failed Execution.compensate Execution.compensate_release_funds
    Execution.release_and_fail Steps.finish_step Steps.contract_of Steps.request_funds
    Steps.after_reserve_reply Steps.reserve_funds Steps.on_live_contract Steps.confirm_body
    Steps.is_client_error Steps.step_after_confirm Steps.after_confirm Steps.confirm_shares
    Saga.process_step Saga.waits Saga.advance Saga.load_and_advance Saga.run_rounds
    Saga.process_execution Funds.reserve Funds.reserve_new Funds.convert_trade_amount
    Funds.same_request Funds.release Funds.release_row Funds.transition Bank.find_account_row
    Bank.find_reservation_row Bank.save_reservation_row Bank.update_balance allowed_currencies
    within_transaction find save update ℕ_discrete String_discrete trim_space ◌+ℤ◌ ◌-ℤ◌
history_row = refl

apply_all-Ends_example :
    ((money "otc-execution-3-5" (apply_all 1 history market) ≡ none)
      ⊎ In released (money "otc-execution-3-5" (apply_all 1 history market))
      ⊎ In refunded (money "otc-execution-3-5" (apply_all 1 history market)))
    × (is_exercised (find_contract_row 3 (apply_all 1 history market).contracts) ≡ false)
apply_all-Ends_example =
    apply_all-Ends 1 history market failed_row history-AllAdmitted market-Consistent history_row
