-- ===== src/Trading/Model.antt =====
-- services/trading-service/internal: model (otc_execution.go, otc_option_contract.go, otc_offer.go,
-- asset_ownership.go) and the fault plan of faultinject/faultinject.go. Texts for operators and the
-- times of creation and change are left out; a time is a number of seconds.
use raf_8_banka_4_backend.Shared.{ℕ, String, Bool, Option, ℤ}

pub data OwnerType : Type 0 where
  client bank fund : OwnerType

unfoldable pub OwnerType_discrete : Discrete OwnerType
OwnerType_discrete = hlevel

pub record AssetOwnership : Type 0 where
  pub user_id : ℕ
  pub owner_type : OwnerType
  pub asset_id : ℕ
  pub amount : ℤ
  pub avg_buy_price_rsd : ℤ
  pub public_amount : ℤ
  pub reserved_amount : ℤ

pub data OtcOfferStatus : Type 0 where
  active accepted rejected : OtcOfferStatus

pub record OtcOffer : Type 0 where
  pub otc_offer_id : ℕ
  pub buyer_id : ℕ
  pub seller_id : ℕ
  pub stock_asset_id : ℕ
  pub amount : ℕ
  pub price_per_stock_rsd : ℤ
  pub premium_rsd : ℤ
  pub settlement_date : ℕ
  pub buyer_account_number : String
  pub seller_account_number : Option String
  pub status : OtcOfferStatus
  pub modified_by : ℕ
  pub option_contract_id : Option ℕ

pub data OtcOptionContractStatus : Type 0 where
  active exercised expired cancelled : OtcOptionContractStatus

pub record OtcOptionContract : Type 0 where
  pub otc_option_contract_id : ℕ
  pub otc_offer_id : ℕ
  pub buyer_id : ℕ
  pub seller_id : ℕ
  pub stock_asset_id : ℕ
  pub amount : ℕ
  pub strike_price_rsd : ℤ
  pub premium_rsd : ℤ
  pub settlement_date : ℕ
  pub buyer_account_number : String
  pub seller_account_number : String
  pub status : OtcOptionContractStatus

pub data OtcShareReservationStatus : Type 0 where
  active consumed released : OtcShareReservationStatus

pub record OtcShareReservation : Type 0 where
  pub contract_id : ℕ
  pub seller_id : ℕ
  pub owner_type : OwnerType
  pub stock_asset_id : ℕ
  pub reserved_amount : ℤ
  pub status : OtcShareReservationStatus

pub data OtcExecutionStep : Type 0 where
  init funds_reserved shares_confirmed funds_committed ownership_transferred completed :
      OtcExecutionStep

pub data OtcExecutionStatus : Type 0 where
  in_progress compensating completed failed : OtcExecutionStatus

-- The labels of the steps in the log and in a fault plan.
pub data SagaStep : Type 0 where
  f1 f2 f3 f4 f5 c1 c3 : SagaStep

unfoldable pub SagaStep_discrete : Discrete SagaStep
SagaStep_discrete = hlevel

pub data Kind : Type 0 where
  before after : Kind

unfoldable pub Kind_discrete : Discrete Kind
Kind_discrete = hlevel

-- `faultinject.Spec`, but for the delay, which only sleeps
pub record Spec : Type 0 where
  pub force_fail : Option (SagaStep × Kind)
  pub force_fail_used : Bool
  pub compensate_fail_step : Option SagaStep
  pub compensate_fail_remaining : ℕ

pub record OtcExecutionSaga : Type 0 where
  pub otc_execution_saga_id : ℕ
  pub contract_id : ℕ
  pub execution_key : String
  pub current_step : OtcExecutionStep
  pub status : OtcExecutionStatus
  pub retry_count : ℕ
  pub next_retry_at : Option ℕ
  pub fault_spec : Option Spec

pub data OtcExecutionLogOutcome : Type 0 where
  succeeded errored : OtcExecutionLogOutcome

pub record OtcExecutionSagaLogEntry : Type 0 where
  pub otc_execution_saga_id : ℕ
  pub step : SagaStep
  pub outcome : OtcExecutionLogOutcome
