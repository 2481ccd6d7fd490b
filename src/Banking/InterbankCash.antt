-- ===== src/Banking/InterbankCash.antt =====
-- services/banking-service/internal/service/interbank_cash_service.go: one leg of an interbank
-- transaction on a local account, prepared, then committed or rolled back.
mod Success
pub mod Soundness
pub mod History
pub mod Payments
use raf_8_banka_4_backend.Shared.{
  ℕ, ◌+◌, ◌==◌, Bool, false, not, ◌||◌, ◌&&◌, Option, none, some, List, ◌∷◌, [], ◌++◌, String,
  text_eq, trim_space, ℤ, pos, neg, ◌+ℤ◌, ◌-ℤ◌, ltb_ℤ, eqb_ℤ, if◌then◌else◌, Action, ok,
  bad_request, not_found, conflict, internal, ◌>>=◌, ◌>>◌, pure, raise, or_raise, query, load, exec,
  lift, raise_if, within_transaction,
}
use raf_8_banka_4_backend.Banking.Model.{
  CurrencyCode, allowed_currencies, Account, InterbankCashPosting, prepared, committed, rolled_back,
  unknown, Transaction, TransactionStatus, Payment,
}
use raf_8_banka_4_backend.Banking.Store.{
  Store, find_posting, create_posting, save_posting, find_account, find_client_accounts,
  update_account, get_transaction, create_transaction, create_payment, commit_transaction, Env,
  find_account_row, find_posting_row, save_posting_row, find_transaction_row, update_balance,
  find_by_client_id,
}

pub record PostingMetadata : Type 0 where
  pub banking_tx_id : ℕ
  pub counterparty_account_number : String
  pub payment_code : String
  pub purpose : String

-- `BankAccounts[code]` of transaction_processor.go: the bank's own account for a currency.
unfoldable pub bank_accounts : CurrencyCode → Option String
bank_accounts c =
    if text_eq c "RSD"
    then some "444000000000000000"
    else if text_eq c "EUR"
    then some "444000000000000001"
    else if text_eq c "USD"
    then some "444000000000000002"
    else if text_eq c "CHF"
    then some "444000000000000003"
    else if text_eq c "GBP"
    then some "444000000000000004"
    else if text_eq c "JPY"
    then some "444000000000000005"
    else if text_eq c "CAD"
    then some "444000000000000006"
    else if text_eq c "AUD"
    then some "444000000000000007"
    else none

abbrev load_account : Bool → String → String → Action Store Account
load_account failed number message =
    load failed (λ s. find_account_row number s.accounts) (not_found message)

abbrev store_balance : Bool → Account → Action Store (Unit {0})
store_balance failed a = exec failed (λ s. record s { accounts = update_balance a s.accounts })

abbrev pub or_keep : Option Account → Account → Option Account
or_keep none a = some a
or_keep (some b) a = some b

-- The loop of `resolveAccount` over the accounts of a client, with the two fallbacks found so far;
-- an active account in the currency ends it.
unfoldable pub pick_account :
    CurrencyCode → List Account → Option Account → Option Account → Option Account
pick_account c [] (some rsd) any = some rsd
pick_account c [] none any = any
pick_account c (a ∷ rest) rsd any =
    let skipped = pick_account c rest rsd any in
    let passed =
      pick_account c rest (if text_eq a.currency "RSD" then or_keep rsd a else rsd)
        (or_keep any a) in
    if not (text_eq a.status "Active")
    then skipped
    else if text_eq a.currency c
    then some a
    else passed

-- An employee acts for the bank: its own account for the currency.
unfoldable pub resolve_bank_account : Env → CurrencyCode → Action Store Account
resolve_bank_account env c = do
  number ← or_raise (bank_accounts c) (bad_request "no bank account for this currency")
  load_account (env.fails find_account) number "bank account not found"

-- `resolveAccount`: by number, the bank's own account for an employee, or an account of the client.
unfoldable pub resolve_account : Env → String → ℕ → CurrencyCode → String → Action Store Account
resolve_account env number client_id c user_type =
    if not (text_eq number "")
    then load_account (env.fails find_account) number "account not found"
    else if text_eq user_type "EMPLOYEE"
    then resolve_bank_account env c
    else do
      raise_if (client_id == 0) (bad_request "client id or account number is required")
      accounts ←
          query (env.fails find_client_accounts) (λ s. find_by_client_id client_id s.accounts)
      or_raise (pick_account c accounts none none) (not_found "no active account for client")

-- A negative amount leaves the account: it is taken out of the available balance.
unfoldable pub hold : Env → Account → ℤ → Action Store (Unit {0})
hold env account amount = if not (ltb_ℤ amount (pos 0)) then pure tt else do
  raise_if (ltb_ℤ account.available_balance (neg amount)) (bad_request "insufficient funds")
  store_balance (env.fails update_account)
      (record account { available_balance = account.available_balance -ℤ neg amount })

-- The part of `Prepare` for a posting id that is in the table.
unfoldable pub prepare_again :
    Env → InterbankCashPosting → CurrencyCode → ℤ → Action Store InterbankCashPosting
prepare_again env existing c amount = do
  raise_if
      (not (eqb_ℤ existing.requested_amount amount)
        || not (text_eq existing.requested_currency_code c))
      (conflict "posting id already exists with different parameters")
  elim existing.status [
    | rolled_back ↦ do
      account ← load_account (env.fails find_account) existing.account_number "account not found"
      hold env account existing.amount
      let again : InterbankCashPosting = record existing { status = prepared }
      exec (env.fails save_posting) (λ s. record s { postings = save_posting_row again s.postings })
      pure again
    | _ ↦ pure existing
  ]

-- The part of `Prepare` for a new posting id.
unfoldable pub prepare_new :
    Env
    → String
    → String
    → ℕ
    → CurrencyCode
    → ℤ
    → String
    → PostingMetadata
    → Action Store InterbankCashPosting
prepare_new env posting_id number client_id c amount user_type meta = do
  account ← resolve_account env number client_id c user_type
  resolved ←
      lift (if text_eq account.currency c then ok amount else env.convert amount c account.currency)
  hold env account resolved
  let posting : InterbankCashPosting = record {
    posting_id = posting_id;
    account_number = account.account_number;
    currency_code = account.currency;
    amount = resolved;
    requested_currency_code = c;
    requested_amount = amount;
    status = prepared;
    banking_tx_id = meta.banking_tx_id;
    counterparty_account_number = meta.counterparty_account_number;
    payment_code = meta.payment_code;
    purpose = meta.purpose;
  }
  exec (env.fails create_posting) (λ s. record s { postings = s.postings ++ posting ∷ [] })
  pure posting

unfoldable pub prepare :
    Env
    → String
    → String
    → ℕ
    → CurrencyCode
    → ℤ
    → String
    → PostingMetadata
    → Action Store InterbankCashPosting
prepare env raw_id raw_number client_id c amount user_type meta = do
  let posting_id = trim_space raw_id
  let number = trim_space raw_number
  raise_if (text_eq posting_id "") (bad_request "posting id is required")
  raise_if (eqb_ℤ amount (pos 0)) (bad_request "amount must not be zero")
  raise_if (not (allowed_currencies c)) (bad_request "unsupported currency")
  within_transaction (env.fails commit_transaction) do
    existing ← query (env.fails find_posting) (λ s. find_posting_row posting_id s.postings)
    elim existing [
      | some p ↦ prepare_again env p c amount
      | none ↦ prepare_new env posting_id number client_id c amount user_type meta
    ]

unfoldable pub abs : ℤ → ℤ
abs x = if ltb_ℤ x (pos 0) then neg x else x

-- The transaction row of `recordPaymentHistory`: a negative amount makes the local account the payer.
unfoldable pub history_transaction : ℕ → InterbankCashPosting → Transaction
unfolding abs
history_transaction id p = record {
  transaction_id = id;
  payer_account_number =
      if ltb_ℤ p.amount (pos 0) then p.account_number else p.counterparty_account_number;
  recipient_account_number =
      if ltb_ℤ p.amount (pos 0) then p.counterparty_account_number else p.account_number;
  start_amount = abs p.requested_amount;
  start_currency_code = p.requested_currency_code;
  end_amount = abs p.amount;
  end_currency_code = p.currency_code;
  commission = pos 0;
  status = TransactionStatus.completed;
}

unfoldable pub history_payment : ℕ → InterbankCashPosting → Payment
history_payment id p = record {
  transaction_id = id;
  recipient_name = "";
  reference_number = "";
  payment_code = p.payment_code;
  purpose = p.purpose;
  failed_attempts = 0;
}

-- The two inserts at the end of `recordPaymentHistory`.
unfoldable pub write_history : Env → InterbankCashPosting → Action Store (Unit {0})
write_history env p = do
  id ← query (env.fails create_transaction) (λ s. s.next_transaction_id)
  exec false (λ s. record s {
    transactions = s.transactions ++ history_transaction id p ∷ [];
    next_transaction_id = s.next_transaction_id + 1;
  })
  exec (env.fails create_payment)
      (λ s. record s { payments = s.payments ++ history_payment id p ∷ [] })

-- `GetByID` of the transaction repository: it hands on `gorm.ErrRecordNotFound`, so a missing row is an
-- error, and a row that it returns is never nil.
unfoldable pub get_by_id : Env → ℕ → Action Store (Option Transaction)
get_by_id env i = do
  row ← load (env.fails get_transaction) (λ s. find_transaction_row i s.transactions) internal
  pure (some row)

-- `recordPaymentHistory`
unfoldable pub record_payment_history : Env → InterbankCashPosting → Action Store (Unit {0})
record_payment_history env p = if p.banking_tx_id == 0 then write_history env p else do
  existing ← get_by_id env p.banking_tx_id
  elim existing [ some x ↦ pure tt | none ↦ write_history env p ]

-- The closure of `Commit`.
unfoldable pub commit_row : Env → InterbankCashPosting → Account → Action Store InterbankCashPosting
commit_row env p account = elim p.status [
  | committed ↦ pure p
  | rolled_back ↦ raise (bad_request "cannot commit rolled back posting")
  | unknown ↦ raise (bad_request "posting is not prepared")
  | prepared ↦ do
    raise_if (ltb_ℤ p.amount (pos 0) && ltb_ℤ account.balance (neg p.amount))
        (bad_request "insufficient balance")
    store_balance (env.fails update_account) (
        if ltb_ℤ p.amount (pos 0)
        then record account { balance = account.balance -ℤ neg p.amount }
        else record account {
          balance = account.balance +ℤ p.amount;
          available_balance = account.available_balance +ℤ p.amount;
        })
    let done : InterbankCashPosting = record p { status = committed }
    record_payment_history env done
    pure done
]

-- The closure of `Rollback`.
unfoldable pub rollback_row :
    Env → InterbankCashPosting → Account → Action Store InterbankCashPosting
rollback_row env p account = elim p.status [
  | rolled_back ↦ pure p
  | committed ↦ raise (bad_request "cannot rollback committed posting")
  | unknown ↦ raise (bad_request "posting is not prepared")
  | prepared ↦ do
    (if ltb_ℤ p.amount (pos 0)
        then store_balance (env.fails update_account)
            (record account { available_balance = account.available_balance +ℤ neg p.amount })
        else pure tt)
    pure (record p { status = rolled_back })
]

unfoldable pub transition :
    Env
    → String
    → (InterbankCashPosting → Account → Action Store InterbankCashPosting)
    → Action Store InterbankCashPosting
transition env raw_id change = do
  let posting_id = trim_space raw_id
  raise_if (text_eq posting_id "") (bad_request "posting id is required")
  within_transaction (env.fails commit_transaction) do
    p ←
        load (env.fails find_posting) (λ s. find_posting_row posting_id s.postings)
          (not_found "interbank cash posting not found")
    account ← load_account (env.fails find_account) p.account_number "account not found"
    changed ← change p account
    exec (env.fails save_posting) (λ s. record s { postings = save_posting_row changed s.postings })
    pure changed

unfoldable pub commit : Env → String → Action Store InterbankCashPosting
commit env id = transition env id (commit_row env)

unfoldable pub rollback : Env → String → Action Store InterbankCashPosting
rollback env id = transition env id (rollback_row env)
