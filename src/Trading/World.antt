-- ===== src/Trading/World.antt =====
-- The state that a deal runs on: the tables of trading-service (internal/repository) and the
-- banking-service that it calls, which is that of Banking.OtcFunds. The environment of a step says
-- which statements fail, which calls get through, the time and the fault plan that is asked for.
use native.Mathlib.Decide.{ℕ_discrete}
use raf_8_banka_4_backend.Shared.{
  ℕ, ◌*◌, ◌==◌, String, Bool, true, false, not, ◌&&◌, Option, List, [], ◌∷◌, ◌++◌, ℤ, pos, sub_ℕ,
  pos_part, neg_part, ◌+ℤ◌, find, save, update, if◌then◌else◌, Action, Result, ok, err, AppError,
}
use raf_8_banka_4_backend.Banking.Model.{OtcFundsReservation}
use raf_8_banka_4_backend.Banking.Store as Bank
use raf_8_banka_4_backend.Trading.Model.{
  OwnerType, OwnerType_discrete, AssetOwnership, OtcOffer, OtcOfferStatus, OtcOptionContract,
  OtcShareReservation, OtcShareReservationStatus, OtcExecutionSaga, OtcExecutionSagaLogEntry,
  SagaStep, OtcExecutionLogOutcome, Spec,
}

-- `CreatePaymentRequest`, with the fields that differ
pub record PremiumPayment : Type 0 where
  pub payer : String
  pub recipient : String
  pub amount : ℤ

pub record World : Type 0 where
  pub offers : List OtcOffer
  pub contracts : List OtcOptionContract
  pub reservations : List OtcShareReservation
  pub executions : List OtcExecutionSaga
  pub ownerships : List AssetOwnership
  pub log : List OtcExecutionSagaLogEntry
  pub next_execution_id : ℕ
  pub next_contract_id : ℕ
  -- what banking-service has done
  pub banking : Bank.Store
  pub premiums : List PremiumPayment

-- The statements of one step.
pub data Statement : Type 0 where
  find_execution find_completed find_contract find_reservation find_capacity sum_reserved find_offer
        find_offers :
      Statement
  find_seller upsert_seller find_buyer upsert_buyer save_contract save_reservation save_execution :
      Statement
  create_contract create_reservation save_offer commit_step find_to_change save_change commit_change
        update_fault_spec append_log :
      Statement
  expire_find_reservation expire_find_seller expire_upsert_seller expire_save_reservation :
      Statement
  expire_save_contract : Statement

-- A call is not delivered, or delivered with the answer lost, or answered.
pub data Delivery : Type 0 where
  unreachable lost answered : Delivery

pub data BankCall : Type 0 where
  reserve_call commit_call release_call refund_call : BankCall

pub record Env : Type 0 where
  pub now : ℕ
  pub fails : Statement → Bool
  pub delivery : BankCall → Delivery
  pub bank : Bank.Env
  -- `CreatePaymentWithoutVerification` after the payments so far: whether it succeeds
  pub pays : List PremiumPayment → PremiumPayment → Bool
  -- `UnixNano` of the clock
  pub nanos : ℕ
  pub fault_enabled : Bool
  pub requested_spec : Option Spec

unfoldable pub find_execution_row : ℕ → List OtcExecutionSaga → Option OtcExecutionSaga
find_execution_row = find ℕ_discrete (λ e. e.otc_execution_saga_id)

unfoldable pub find_execution_of_contract : ℕ → List OtcExecutionSaga → Option OtcExecutionSaga
find_execution_of_contract = find ℕ_discrete (λ e. e.contract_id)

unfoldable pub save_execution_row : OtcExecutionSaga → List OtcExecutionSaga → List OtcExecutionSaga
save_execution_row = save ℕ_discrete (λ e. e.otc_execution_saga_id)

unfoldable pub update_fault_spec_row :
    ℕ → Option Spec → List OtcExecutionSaga → List OtcExecutionSaga
update_fault_spec_row i spec =
    update ℕ_discrete (λ e. e.otc_execution_saga_id) i (λ e. record e { fault_spec = spec })

unfoldable pub find_contract_row : ℕ → List OtcOptionContract → Option OtcOptionContract
find_contract_row = find ℕ_discrete (λ c. c.otc_option_contract_id)

unfoldable pub save_contract_row :
    OtcOptionContract → List OtcOptionContract → List OtcOptionContract
save_contract_row = save ℕ_discrete (λ c. c.otc_option_contract_id)

unfoldable pub find_reservation_row : ℕ → List OtcShareReservation → Option OtcShareReservation
find_reservation_row = find ℕ_discrete (λ r. r.contract_id)

unfoldable pub save_reservation_row :
    OtcShareReservation → List OtcShareReservation → List OtcShareReservation
save_reservation_row = save ℕ_discrete (λ r. r.contract_id)

unfoldable pub find_offer_row : ℕ → List OtcOffer → Option OtcOffer
find_offer_row = find ℕ_discrete (λ o. o.otc_offer_id)

unfoldable pub save_offer_row : OtcOffer → List OtcOffer → List OtcOffer
save_offer_row = save ℕ_discrete (λ o. o.otc_offer_id)

pub record Holder : Type 0 where
  pub user_id : ℕ
  pub owner_type : OwnerType
  pub asset_id : ℕ

unfoldable pub Holder_discrete : Discrete Holder
Holder_discrete = hlevel (ℕ_discrete, OwnerType_discrete)

abbrev pub holder_of : AssetOwnership → Holder
holder_of o = record { user_id = o.user_id; owner_type = o.owner_type; asset_id = o.asset_id }

abbrev pub client_holder : ℕ → ℕ → Holder
client_holder user asset = record {
  user_id = user;
  owner_type = OwnerType.client;
  asset_id = asset;
}

-- `FindByUserAndAssetForUpdate`
unfoldable pub find_ownership : Holder → List AssetOwnership → Option AssetOwnership
find_ownership = find Holder_discrete holder_of

-- `Upsert`
unfoldable pub upsert_ownership : AssetOwnership → List AssetOwnership → List AssetOwnership
upsert_ownership = save Holder_discrete holder_of

-- `SumActiveReservedBySellerAsset`
unfoldable pub sum_active_reserved : Holder → ℕ → List OtcShareReservation → ℤ
sum_active_reserved h excluded [] = pos 0
sum_active_reserved h excluded (r ∷ rs) =
    let rest = sum_active_reserved h excluded rs in
    let mine =
      r.seller_id == h.user_id
      && r.stock_asset_id == h.asset_id
      && not (r.contract_id == excluded) in
    elim r.status [
      | OtcShareReservationStatus.active ↦ elim (OwnerType_discrete r.owner_type h.owner_type) [
        | yes p ↦ if mine then r.reserved_amount +ℤ rest else rest
        | no n ↦ rest
      ]
      | _ ↦ rest
    ]

-- The amounts of `FindActiveBySellerAndStock`, summed.
unfoldable pub sum_active_offers : ℕ → ℕ → ℕ → List OtcOffer → ℤ
sum_active_offers seller asset excluded [] = pos 0
sum_active_offers seller asset excluded (o ∷ os) =
    let rest = sum_active_offers seller asset excluded os in
    let mine =
      o.seller_id == seller && o.stock_asset_id == asset && not (o.otc_offer_id == excluded) in
    elim o.status [ OtcOfferStatus.active ↦ if mine then pos o.amount +ℤ rest else rest | _ ↦ rest ]

-- a number of shares times a price
unfoldable pub times : ℕ → ℤ → ℤ
times n a = sub_ℕ (n * pos_part a) (n * neg_part a)

-- The codes of gRPC that the two services use.
pub data GrpcCode : Type 0 where
  invalid_argument not_found already_exists failed_precondition permission_denied : GrpcCode
  internal unavailable deadline_exceeded : GrpcCode

-- `errors.MapGrpcToHttpError` on the side of banking-service
unfoldable pub grpc_code : AppError → GrpcCode
grpc_code (AppError.bad_request m) = GrpcCode.invalid_argument
grpc_code (AppError.not_found m) = GrpcCode.not_found
grpc_code (AppError.conflict m) = GrpcCode.already_exists
grpc_code AppError.service_unavailable = GrpcCode.unavailable
grpc_code AppError.internal = GrpcCode.internal
grpc_code AppError.driver = GrpcCode.internal

-- `isTerminalBankingError`
unfoldable pub is_terminal_banking_error : GrpcCode → Bool
is_terminal_banking_error GrpcCode.invalid_argument = true
is_terminal_banking_error GrpcCode.not_found = true
is_terminal_banking_error GrpcCode.failed_precondition = true
is_terminal_banking_error GrpcCode.already_exists = true
is_terminal_banking_error GrpcCode.permission_denied = true
is_terminal_banking_error GrpcCode.internal = false
is_terminal_banking_error GrpcCode.unavailable = false
is_terminal_banking_error GrpcCode.deadline_exceeded = false

pub data Reply : Type 0 where
  replied : OtcFundsReservation → Reply
  refused : GrpcCode → Reply

abbrev reply_of : Result OtcFundsReservation → Reply
reply_of (ok r) = replied r
reply_of (err e) = refused (grpc_code e)

-- A call of banking-service: without an answer the caller sees an error of the transport.
unfoldable pub call_bank : Delivery → Action Bank.Store OtcFundsReservation → World → Reply × World
call_bank Delivery.unreachable m s = (refused GrpcCode.unavailable, s)
call_bank Delivery.lost m s =
    (refused GrpcCode.deadline_exceeded, record s { banking = (m s.banking).1 })
call_bank Delivery.answered m s = let (r, b) = m s.banking in (reply_of r, record s { banking = b })

-- `appendSagaLog`: an error is swallowed.
unfoldable pub append_saga_log : Env → ℕ → SagaStep → OtcExecutionLogOutcome → World → World
append_saga_log env i step outcome s = record s {
  log =
      if env.fails append_log
      then s.log
      else s.log ++ record { otc_execution_saga_id = i; step = step; outcome = outcome } ∷ [];
}
