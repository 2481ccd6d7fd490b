-- ===== src/Banking/OtcFunds.antt =====
-- services/banking-service/internal/service/otc_funds_service.go: funds of a buyer that are held
-- for an OTC trade, paid to the seller, released or paid back. A closure that changes the row it is
-- given returns the changed row.
pub mod Success
pub mod Soundness
pub mod Lifecycle
pub mod Settlement
pub mod Undo
use raf_8_banka_4_backend.Shared.{
  Bool, not, ◌||◌, none, some, ◌∷◌, [], ◌++◌, String, text_eq, trim_space, ℤ, pos, ◌+ℤ◌, ◌-ℤ◌,
  ltb_ℤ, leb_ℤ, eqb_ℤ, if◌then◌else◌, Action, Result, ok, err, bad_request, not_found, conflict,
  internal, ◌>>=◌, ◌>>◌, pure, raise, or_raise, query, load, exec, lift, raise_if,
  within_transaction,
}
use raf_8_banka_4_backend.Banking.Model.{
  CurrencyCode, allowed_currencies, Account, OtcFundsReservation, reserved, released, committed,
  refunded, unknown,
}
use raf_8_banka_4_backend.Banking.Store.{
  Store, find_reservation, create_reservation, save_reservation, find_buyer, find_seller,
  update_buyer, update_seller, commit_transaction, Env, find_account_row, find_reservation_row,
  save_reservation_row, update_balance,
}

-- An account that must be there.
abbrev load_account : Bool → String → String → Action Store Account
load_account failed number message =
    load failed (λ s. find_account_row number s.accounts) (not_found message)

abbrev store_balance : Bool → Account → Action Store (Unit {0})
store_balance failed a = exec failed (λ s. record s { accounts = update_balance a s.accounts })

-- `convertTradeAmount`: every error of the exchange service becomes an internal one.
unfoldable pub convert_trade_amount : Env → ℤ → CurrencyCode → CurrencyCode → Result ℤ
convert_trade_amount env amount from to =
    if text_eq from to
    then ok amount
    else elim (env.convert amount from to) [ ok x ↦ ok x | err e ↦ err internal ]

-- The retry test of `Reserve`: the stored row against the request.
unfoldable pub same_request : OtcFundsReservation → String → String → ℤ → CurrencyCode → Bool
same_request r buyer seller amount currency = not (
    not (text_eq r.buyer_account_number buyer)
    || not (text_eq r.seller_account_number seller)
    || not (eqb_ℤ r.trade_amount amount)
    || not (text_eq r.trade_currency_code currency))

-- The part of `Reserve` for an execution id that is not in the table.
unfoldable pub reserve_new :
    Env → String → String → String → ℤ → CurrencyCode → Action Store OtcFundsReservation
reserve_new env execution_id buyer seller amount currency = do
  buyer_account ← load_account (env.fails find_buyer) buyer "buyer account not found"
  seller_account ← load_account (env.fails find_seller) seller "seller account not found"
  source ← lift (convert_trade_amount env amount currency buyer_account.currency)
  destination ← lift (convert_trade_amount env amount currency seller_account.currency)
  raise_if (ltb_ℤ buyer_account.available_balance source) (bad_request "insufficient buyer funds")
  store_balance (env.fails update_buyer)
      (record buyer_account { available_balance = buyer_account.available_balance -ℤ source })
  let reservation : OtcFundsReservation = record {
    execution_id = execution_id;
    buyer_account_number = buyer_account.account_number;
    seller_account_number = seller_account.account_number;
    trade_amount = amount;
    trade_currency_code = currency;
    source_amount = source;
    source_currency_code = buyer_account.currency;
    destination_amount = destination;
    destination_currency_code = seller_account.currency;
    status = reserved;
  }
  exec (env.fails create_reservation)
      (λ s. record s { reservations = s.reservations ++ reservation ∷ [] })
  pure reservation

unfoldable pub reserve :
    Env → String → String → String → ℤ → CurrencyCode → Action Store OtcFundsReservation
reserve env raw_id raw_buyer raw_seller amount currency = do
  let execution_id = trim_space raw_id
  let buyer = trim_space raw_buyer
  let seller = trim_space raw_seller
  raise_if (text_eq execution_id "") (bad_request "execution id is required")
  raise_if (text_eq buyer "" || text_eq seller "")
      (bad_request "buyer and seller account numbers are required")
  raise_if (text_eq buyer seller) (bad_request "buyer and seller accounts must be different")
  raise_if (leb_ℤ amount (pos 0)) (bad_request "amount must be greater than zero")
  raise_if (not (allowed_currencies currency)) (bad_request "unsupported trade currency")
  within_transaction (env.fails commit_transaction) do
    existing ←
        query (env.fails find_reservation) (λ s. find_reservation_row execution_id s.reservations)
    elim existing [
      | some r ↦
          if same_request r buyer seller amount currency
          then pure r
          else raise (conflict "execution id already exists with different reservation parameters")
      | none ↦ reserve_new env execution_id buyer seller amount currency
    ]

-- The closure of `Release`.
unfoldable pub release_row : Env → OtcFundsReservation → Action Store OtcFundsReservation
release_row env r = elim r.status [
  | released ↦ pure r
  | committed ↦ raise (bad_request "cannot release committed OTC funds")
  | refunded ↦ raise (bad_request "cannot release refunded OTC funds")
  | unknown ↦ raise (bad_request "cannot release OTC funds in current status")
  | reserved ↦ do
    buyer ← load_account (env.fails find_buyer) r.buyer_account_number "buyer account not found"
    store_balance (env.fails update_buyer)
        (record buyer { available_balance = buyer.available_balance +ℤ r.source_amount })
    pure (record r { status = released })
]

-- The closure of `Commit`. The two tests compare what the account holds with the reservation.
unfoldable pub commit_row : Env → OtcFundsReservation → Action Store OtcFundsReservation
commit_row env r = elim r.status [
  | committed ↦ pure r
  | released ↦ raise (bad_request "cannot commit released OTC funds")
  | refunded ↦ raise (bad_request "cannot commit refunded OTC funds")
  | unknown ↦ raise (bad_request "cannot commit OTC funds in current status")
  | reserved ↦ do
    buyer ← load_account (env.fails find_buyer) r.buyer_account_number "buyer account not found"
    seller ← load_account (env.fails find_seller) r.seller_account_number "seller account not found"
    raise_if (ltb_ℤ (buyer.balance -ℤ buyer.available_balance) r.source_amount) internal
    raise_if (ltb_ℤ buyer.balance r.source_amount) internal
    store_balance (env.fails update_buyer)
        (record buyer { balance = buyer.balance -ℤ r.source_amount })
    store_balance (env.fails update_seller) (record seller {
      balance = seller.balance +ℤ r.destination_amount;
      available_balance = seller.available_balance +ℤ r.destination_amount;
    })
    pure (record r { status = committed })
]

-- The closure of `Refund`.
unfoldable pub refund_row : Env → OtcFundsReservation → Action Store OtcFundsReservation
refund_row env r = elim r.status [
  | refunded ↦ pure r
  | released ↦ raise (bad_request "cannot refund released OTC funds")
  | reserved ↦ raise (bad_request "cannot refund uncommitted OTC funds")
  | unknown ↦ raise (bad_request "cannot refund OTC funds in current status")
  | committed ↦ do
    buyer ← load_account (env.fails find_buyer) r.buyer_account_number "buyer account not found"
    seller ← load_account (env.fails find_seller) r.seller_account_number "seller account not found"
    raise_if
        (ltb_ℤ seller.balance r.destination_amount
          || ltb_ℤ seller.available_balance r.destination_amount)
        (bad_request "insufficient seller funds for refund")
    store_balance (env.fails update_seller) (record seller {
      balance = seller.balance -ℤ r.destination_amount;
      available_balance = seller.available_balance -ℤ r.destination_amount;
    })
    store_balance (env.fails update_buyer) (record buyer {
      balance = buyer.balance +ℤ r.source_amount;
      available_balance = buyer.available_balance +ℤ r.source_amount;
    })
    pure (record r { status = refunded })
]

-- `transition`: the row is loaded, changed by the closure and saved, in one transaction.
unfoldable pub transition :
    Env
    → String
    → (OtcFundsReservation → Action Store OtcFundsReservation)
    → Action Store OtcFundsReservation
transition env raw_id change = do
  let execution_id = trim_space raw_id
  raise_if (text_eq execution_id "") (bad_request "execution id is required")
  within_transaction (env.fails commit_transaction) do
    r ←
        load (env.fails find_reservation) (λ s. find_reservation_row execution_id s.reservations)
          (not_found "OTC funds reservation not found")
    changed ← change r
    exec (env.fails save_reservation)
        (λ s. record s { reservations = save_reservation_row changed s.reservations })
    pure changed

unfoldable pub release : Env → String → Action Store OtcFundsReservation
release env id = transition env id (release_row env)

unfoldable pub commit : Env → String → Action Store OtcFundsReservation
commit env id = transition env id (commit_row env)

unfoldable pub refund : Env → String → Action Store OtcFundsReservation
refund env id = transition env id (refund_row env)

unfoldable pub get_by_execution_id : Env → String → Action Store OtcFundsReservation
get_by_execution_id env id =
    load (env.fails find_reservation) (λ s. find_reservation_row (trim_space id) s.reservations)
      (not_found "OTC funds reservation not found")
