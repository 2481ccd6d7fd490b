-- ===== src/Trading/Steps.antt =====
-- services/trading-service/internal/service/otc_deal_processing_service.go: the steps of the saga
-- before the money is paid, F1 and F2.
use raf_8_banka_4_backend.Shared.{
  ℕ, List, Bool, true, false, Option, none, some, pos, if◌then◌else◌, Action, Result, ok, err,
  AppError, bad_request, not_found, conflict, internal, driver, service_unavailable, ◌>>=◌, ◌>>◌,
  pure, raise, raise_if, lift, load, query, exec, within_transaction,
}
use raf_8_banka_4_backend.Banking.OtcFunds as Funds
use raf_8_banka_4_backend.Trading.Model.{
  OtcOptionContract, OtcOptionContractStatus, OtcShareReservation, OtcShareReservationStatus,
  OtcExecutionSaga, OtcExecutionStep, OtcExecutionStatus, SagaStep, f1, f2, before, after,
  succeeded, errored,
}
use raf_8_banka_4_backend.Trading.World.{
  World, Env, find_contract, find_reservation, save_execution, commit_step, reserve_call,
  save_execution_row, find_contract_row, find_reservation_row, times, is_terminal_banking_error,
  Reply, replied, refused, call_bank, append_saga_log,
}
use raf_8_banka_4_backend.Trading.Contracts.{
  should_expire_contract, validate_contract_for_execution, expire_locked_contract,
  ensure_seller_capacity_for_settlement,
}
use raf_8_banka_4_backend.Trading.Execution.{
  note, consume_forward_fault, advance_execution, mark_failed, schedule_retry, release_and_fail,
}

-- The end of a step that has succeeded: its log entry, and the fault after it.
unfoldable pub finish_step : Env → OtcExecutionSaga → SagaStep → Action World (Unit {0})
finish_step env e step = do
  note (append_saga_log env e.otc_execution_saga_id step succeeded)
  hit ← consume_forward_fault env e step after
  raise_if hit internal

-- The preloaded `Contract` of a row; a row without one has the zero value.
unfoldable pub contract_of : ℕ → List OtcOptionContract → OtcOptionContract
contract_of i cs = elim (find_contract_row i cs) [
  | some c ↦ c
  | none ↦ record {
    otc_option_contract_id = 0;
    otc_offer_id = 0;
    buyer_id = 0;
    seller_id = 0;
    stock_asset_id = 0;
    amount = 0;
    strike_price_rsd = pos 0;
    premium_rsd = pos 0;
    settlement_date = 0;
    buyer_account_number = "";
    seller_account_number = "";
    status = OtcOptionContractStatus.active;
  }
]

-- The call of `ReserveOtcFunds` for a contract.
unfoldable pub request_funds : Env → OtcExecutionSaga → OtcOptionContract → World → Reply × World
request_funds env e c = call_bank (env.delivery reserve_call) (
    Funds.reserve env.bank e.execution_key c.buyer_account_number c.seller_account_number
      (times c.amount c.strike_price_rsd) "RSD")

unfoldable pub after_reserve_reply : Env → OtcExecutionSaga → Reply → Action World (Unit {0})
after_reserve_reply env e (refused code) = do
  note (append_saga_log env e.otc_execution_saga_id f1 errored)
  if is_terminal_banking_error code
      then mark_failed env e.otc_execution_saga_id e.current_step
      else schedule_retry env e.otc_execution_saga_id e.current_step
after_reserve_reply env e (replied r) = do
  advance_execution env e.otc_execution_saga_id OtcExecutionStep.funds_reserved
      OtcExecutionStatus.in_progress r.execution_id
  finish_step env e f1

-- `reserveFunds`
unfoldable pub reserve_funds : Env → OtcExecutionSaga → Action World (Unit {0})
reserve_funds env e = do
  hit ← consume_forward_fault env e f1 before
  elim hit [
    | true ↦ do
      note (append_saga_log env e.otc_execution_saga_id f1 errored)
      mark_failed env e.otc_execution_saga_id e.current_step
    | false ↦ do
      reply ← λ s.
          let (r, t) = request_funds env e (contract_of e.contract_id s.contracts) s in (ok r, t)
      after_reserve_reply env e reply
  ]

abbrev pub require_active : Option OtcShareReservation → Action World OtcShareReservation
require_active none = raise (bad_request "active OTC share reservation is required")
require_active (some r) = elim r.status [
  | OtcShareReservationStatus.active ↦ pure r
  | _ ↦ raise (bad_request "active OTC share reservation is required")
]

abbrev pub save_progress : Env → OtcExecutionSaga → OtcExecutionStep → Action World (Unit {0})
save_progress env e step = do
  raise_if (env.fails save_execution) driver
  exec false (λ s. record s {
    executions =
        save_execution_row
          (record e {
            current_step = step;
            status = OtcExecutionStatus.in_progress;
            next_retry_at = none;
          })
          s.executions;
  })

-- The checks that `confirmShares` and `transferOwnership` begin with, after which they go on if the
-- contract has not expired. The result says whether it has.
unfoldable pub on_live_contract :
    Env
    → OtcExecutionSaga
    → (OtcOptionContract → OtcShareReservation → Action World (Unit {0}))
    → Action World Bool
on_live_contract env e go_on = do
  c ←
      load (env.fails find_contract) (λ s. find_contract_row e.contract_id s.contracts)
        (not_found "OTC contract not found")
  elim (should_expire_contract env c) [
    | true ↦ do expire_locked_contract env c; pure true
    | false ↦ do
      lift (validate_contract_for_execution env c)
      found ←
          query (env.fails find_reservation)
            (λ s. find_reservation_row e.contract_id s.reservations)
      r ← require_active found
      ensure_seller_capacity_for_settlement env c r
      go_on c r
      pure false
  ]

-- The closure of `confirmShares`.
unfoldable pub confirm_body : Env → OtcExecutionSaga → Action World Bool
confirm_body env e =
    on_live_contract env e (λ c r. save_progress env e OtcExecutionStep.shares_confirmed)

-- An `AppError` with a code below 500.
unfoldable pub is_client_error : AppError → Bool
is_client_error (bad_request m) = true
is_client_error (not_found m) = true
is_client_error (conflict m) = true
is_client_error internal = false
is_client_error service_unavailable = false
is_client_error driver = false

-- The step that the row in memory is at after the closure, which sets it before the row is saved.
unfoldable pub step_after_confirm : Env → OtcExecutionSaga → World → OtcExecutionStep
step_after_confirm env e s = elim (on_live_contract env e (λ c r. pure tt) s).0 [
  | ok expired ↦ if expired then e.current_step else OtcExecutionStep.shares_confirmed
  | err x ↦ e.current_step
]

unfoldable pub after_confirm :
    Env → OtcExecutionSaga → OtcExecutionStep → Result Bool → Action World (Unit {0})
after_confirm env e step (ok false) = finish_step env e f2
after_confirm env e step (ok true) = do
  note (append_saga_log env e.otc_execution_saga_id f2 errored)
  release_and_fail env e
after_confirm env e step (err x) = do
  note (append_saga_log env e.otc_execution_saga_id f2 errored)
  if is_client_error x
      then release_and_fail env e
      else schedule_retry env e.otc_execution_saga_id step

-- `confirmShares`
unfoldable pub confirm_shares : Env → OtcExecutionSaga → Action World (Unit {0})
confirm_shares env e = do
  hit ← consume_forward_fault env e f2 before
  elim hit [
    | true ↦ do
      note (append_saga_log env e.otc_execution_saga_id f2 errored)
      release_and_fail env e
    | false ↦ do
      step ← λ s. (ok (step_after_confirm env e s), s)
      outcome ← λ s.
          let (r, t) = within_transaction (env.fails commit_step) (confirm_body env e) s in
          (ok r, t)
      after_confirm env e step outcome
  ]
