-- ===== src/Banking/Store.antt =====
-- The tables of the two services and their repositories, services/banking-service/internal/
-- repository, and what a call depends on besides them: which statements the database refuses, and
-- the conversion of `ExchangeService`.
use raf_8_banka_4_backend.Shared.{
  ℕ, ◌≡◌, refl, ite, Bool, Option, none, some, List, [], ◌∷◌, String, String_discrete, ℤ, pos, ◌≤ℤ◌,
  find, save, update, find-update, Result, ok, ◌==◌, if◌then◌else◌,
}
use mathlib.Core.Option
use raf_8_banka_4_backend.Banking.Model.{
  Account, CurrencyCode, OtcFundsReservation, InterbankCashPosting, Transaction, Payment,
}

pub record Store : Type 0 where
  pub accounts : List Account
  pub reservations : List OtcFundsReservation
  pub postings : List InterbankCashPosting
  pub transactions : List Transaction
  pub payments : List Payment
  -- the next value of the `transactions` sequence
  pub next_transaction_id : ℕ

-- The statements of one request, each of which runs at most once.
pub data Statement : Type 0 where
  find_reservation create_reservation save_reservation : Statement
  find_buyer find_seller update_buyer update_seller : Statement
  find_posting create_posting save_posting : Statement
  find_account find_client_accounts update_account : Statement
  get_transaction create_transaction create_payment : Statement
  commit_transaction : Statement

-- Of one request: the statements that fail, and the conversions at the rates of that moment.
pub record Env : Type 0 where
  pub fails : Statement → Bool
  pub convert : ℤ → CurrencyCode → CurrencyCode → Result ℤ

-- What the services rely on: a rate is not negative, so a conversion keeps a positive amount at 0
-- or more.
pub record ConvertsUp (env : Env) : Type 0 where
  pub convert_nonneg :
      (x y : ℤ) (from to : CurrencyCode) → env.convert x from to ≡ ok y → pos 0 ≤ℤ x → pos 0 ≤ℤ y

unfoldable pub find_account_row : String → List Account → Option Account
unfolding find
find_account_row = find String_discrete (λ a. a.account_number)

unfoldable pub find_reservation_row : String → List OtcFundsReservation → Option OtcFundsReservation
unfolding find
find_reservation_row = find String_discrete (λ r. r.execution_id)

unfoldable pub save_reservation_row :
    OtcFundsReservation → List OtcFundsReservation → List OtcFundsReservation
unfolding save
save_reservation_row = save String_discrete (λ r. r.execution_id)

unfoldable pub find_posting_row : String → List InterbankCashPosting → Option InterbankCashPosting
unfolding find
find_posting_row = find String_discrete (λ p. p.posting_id)

unfoldable pub save_posting_row :
    InterbankCashPosting → List InterbankCashPosting → List InterbankCashPosting
unfolding save
save_posting_row = save String_discrete (λ p. p.posting_id)

unfoldable pub find_transaction_row : ℕ → List Transaction → Option Transaction
find_transaction_row n [] = none
find_transaction_row n (t ∷ ts) =
    if t.transaction_id == n then some t else find_transaction_row n ts

-- The columns that `UpdateBalance` writes.
abbrev pub balance_columns : Account → Account → Account
balance_columns a row = record row {
  balance = a.balance;
  available_balance = a.available_balance;
  daily_spending = a.daily_spending;
  monthly_spending = a.monthly_spending;
}

unfoldable pub update_balance : Account → List Account → List Account
unfolding update
update_balance a =
    update String_discrete (λ row. row.account_number) a.account_number (balance_columns a)

unfoldable pub find_by_client_id : ℕ → List Account → List Account
find_by_client_id c [] = []
find_by_client_id c (a ∷ t) =
    let rest = find_by_client_id c t in if a.client_id == c then a ∷ rest else rest

-- A read of the account row after a write of balances.
pub find-update_balance :
    (k : String) (a : Account) (t : List Account)
    → find_account_row k (update_balance a t)
      ≡ ite
          (String_discrete a.account_number k)
          (Option.map (balance_columns a) (find_account_row k t))
          (find_account_row k t)
unfolding find_account_row update_balance
find-update_balance k a t =
    find-update String_discrete (λ row. row.account_number) k a.account_number (balance_columns a) t
      (λ v. refl)
