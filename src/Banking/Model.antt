-- ===== src/Banking/Model.antt =====
-- services/banking-service/internal/model: account.go, currency.go, otc_funds_reservation.go,
-- interbank_cash_posting.go, transaction.go and payment.go, with the columns that the two services
-- read or write. The surrogate ids and the time stamps of rows are left out, but for the id of a
-- transaction, which a payment names.
use raf_8_banka_4_backend.Shared.{ℕ, String, Bool, ◌||◌, ℤ, text_eq}

-- `CurrencyCode` is a string type: any text may arrive in a request.
abbrev pub CurrencyCode : Type 0
CurrencyCode = String

-- `AllowedCurrencies[code]`
unfoldable pub allowed_currencies : CurrencyCode → Bool
allowed_currencies c =
    text_eq c "EUR"
    || text_eq c "USD"
    || text_eq c "CHF"
    || text_eq c "GBP"
    || text_eq c "JPY"
    || text_eq c "CAD"
    || text_eq c "AUD"
    || text_eq c "RSD"

pub record Account : Type 0 where
  pub account_number : String
  pub client_id : ℕ
  pub currency : CurrencyCode
  pub balance : ℤ
  pub available_balance : ℤ
  pub status : String
  pub daily_spending : ℤ
  pub monthly_spending : ℤ

-- `unknown` is any other text in the column.
pub data OtcFundsReservationStatus : Type 0 where
  reserved released committed refunded unknown : OtcFundsReservationStatus

pub OtcFundsReservationStatus-discrete : Discrete OtcFundsReservationStatus
OtcFundsReservationStatus-discrete = hlevel

pub record OtcFundsReservation : Type 0 where
  pub execution_id : String
  pub buyer_account_number : String
  pub seller_account_number : String
  pub trade_amount : ℤ
  pub trade_currency_code : CurrencyCode
  pub source_amount : ℤ
  pub source_currency_code : CurrencyCode
  pub destination_amount : ℤ
  pub destination_currency_code : CurrencyCode
  pub status : OtcFundsReservationStatus

pub data InterbankCashPostingStatus : Type 0 where
  prepared committed rolled_back unknown : InterbankCashPostingStatus

pub InterbankCashPostingStatus-discrete : Discrete InterbankCashPostingStatus
InterbankCashPostingStatus-discrete = hlevel

pub record InterbankCashPosting : Type 0 where
  pub posting_id : String
  pub account_number : String
  pub currency_code : CurrencyCode
  pub amount : ℤ
  pub requested_currency_code : CurrencyCode
  pub requested_amount : ℤ
  pub status : InterbankCashPostingStatus
  pub banking_tx_id : ℕ
  pub counterparty_account_number : String
  pub payment_code : String
  pub purpose : String

pub data TransactionStatus : Type 0 where
  processing completed rejected : TransactionStatus

pub record Transaction : Type 0 where
  pub transaction_id : ℕ
  pub payer_account_number : String
  pub recipient_account_number : String
  pub start_amount : ℤ
  pub start_currency_code : CurrencyCode
  pub end_amount : ℤ
  pub end_currency_code : CurrencyCode
  pub commission : ℤ
  pub status : TransactionStatus

pub record Payment : Type 0 where
  pub transaction_id : ℕ
  pub recipient_name : String
  pub reference_number : String
  pub payment_code : String
  pub purpose : String
  pub failed_attempts : ℕ
