-- ===== src/Banking/OtcFunds/Success.antt =====
-- What a call of otc_funds_service.go has done when it succeeds.
use raf_8_banka_4_backend.Shared.{
  false, none, some, ◌∷◌, [], ◌++◌, ◌≡◌, ◌≢◌, ◌⊎◌, inl, inr, String, text_eq, trim_space, ℤ, pos,
  ◌-ℤ◌, ◌≤ℤ◌, leb_ℤ, Action, ok, err, AppError, arith, within_transaction, Option-cases,
  Result-cases,
}
use raf_8_banka_4_backend.Banking.Model.{
  CurrencyCode, Account, OtcFundsReservation, reserved, released, committed, refunded,
}
use raf_8_banka_4_backend.Banking.Store.{
  Store, Env, find_account_row, find_reservation_row, save_reservation_row, update_balance,
}
use raf_8_banka_4_backend.Banking.Funds.{
  credit_available, debit_available, debit_balance, credit, debit,
}
use raf_8_banka_4_backend.Banking.OtcFunds.{
  convert_trade_amount, reserve_new, reserve, release_row, commit_row, refund_row, transition,
}

-- The row that `Reserve` writes.
abbrev pub reservation_row :
    String → Account → Account → ℤ → CurrencyCode → ℤ → ℤ → OtcFundsReservation
reservation_row id b s amount c source destination = record {
  execution_id = id;
  buyer_account_number = b.account_number;
  seller_account_number = s.account_number;
  trade_amount = amount;
  trade_currency_code = c;
  source_amount = source;
  source_currency_code = b.currency;
  destination_amount = destination;
  destination_currency_code = s.currency;
  status = reserved;
}

module _ (env : Env) (id buyer seller : String) (amount : ℤ) (c : CurrencyCode) (s : Store) where
  pub reserve_new-ok :
      {r : OtcFundsReservation} {t : Store}
      → reserve_new env id buyer seller amount c s ≡ (ok r, t)
      → (b : Account) × (x : Account) × (source : ℤ) × (destination : ℤ) × (find_account_row buyer
            s.accounts
          ≡ some b)
        × (find_account_row seller s.accounts ≡ some x)
        × (convert_trade_amount env amount c b.currency ≡ ok source)
        × (convert_trade_amount env amount c x.currency ≡ ok destination)
        × (source ≤ℤ b.available_balance)
        × (r ≡ reservation_row id b x amount c source destination)
        × (t ≡ record s {
          accounts = update_balance (debit_available b source) s.accounts;
          reservations = s.reservations ++ r ∷ [];
        })
  unfolding reserve_new
  reserve_new-ok h = elim (Option-cases (find_account_row buyer s.accounts)) [
    | inl e ↦ absurd (ground arith)
    | inr (b, eb) ↦ elim (Option-cases (find_account_row seller s.accounts)) [
      | inl e ↦ absurd (ground arith)
      | inr (x, ex) ↦ elim (Result-cases (convert_trade_amount env amount c b.currency)) [
        | inr (e, bad) ↦ absurd (ground arith)
        | inl (source, e1) ↦ elim (Result-cases (convert_trade_amount env amount c x.currency)) [
          | inr (e, bad) ↦ absurd (ground arith)
          | inl (destination, e2) ↦
              (b, x, source, destination, eb, ex, e1, e2, ground arith, ground arith, ground arith)
        ]
      ]
    ]
  ]

-- A retry finds the row and changes nothing; otherwise `reserve_new` has run.
pub reserve-ok :
    (env : Env) (id buyer seller : String) (amount : ℤ) (c : CurrencyCode) (s : Store)
    {r : OtcFundsReservation} {t : Store}
    → reserve env id buyer seller amount c s ≡ (ok r, t)
    → (leb_ℤ amount (pos 0) ≡ false)
      × (text_eq (trim_space buyer) (trim_space seller) ≡ false)
      × (((t ≡ s) × (find_reservation_row (trim_space id) s.reservations ≡ some r))
          ⊎ ((find_reservation_row (trim_space id) s.reservations ≡ none)
              × (reserve_new env (trim_space id) (trim_space buyer) (trim_space seller) amount c s
                  ≡ (ok r, t))))
unfolding reserve within_transaction
reserve-ok env id buyer seller amount c s h =
    elim (Option-cases (find_reservation_row (trim_space id) s.reservations)) [
      | inl e ↦ (ground arith, ground arith, inr (e, ground arith))
      | inr (r, e) ↦ (ground arith, ground arith, inl (ground arith, ground arith))
    ]

-- A closure on a row that is already in its final status changes nothing; otherwise it moves funds.
module _ (env : Env) (r : OtcFundsReservation) (s : Store) {q : OtcFundsReservation}
    {t : Store} where
  pub release_row-idle :
      r.status ≢ reserved
      → release_row env r s ≡ (ok q, t)
      → (r.status ≡ released) × (q ≡ r) × (t ≡ s)
  unfolding release_row
  release_row-idle n h = ground arith

  pub release_row-ok :
      r.status ≡ reserved
      → release_row env r s ≡ (ok q, t)
      → (b : Account) × (find_account_row r.buyer_account_number s.accounts ≡ some b)
        × (q ≡ record r { status = released })
        × (t ≡ record s {
          accounts = update_balance (credit_available b r.source_amount) s.accounts;
        })
  unfolding release_row
  release_row-ok e h = elim (Option-cases (find_account_row r.buyer_account_number s.accounts)) [
    | inl missing ↦ absurd (ground arith)
    | inr (b, found) ↦ (b, found, ground arith, ground arith)
  ]

  pub commit_row-idle :
      r.status ≢ reserved
      → commit_row env r s ≡ (ok q, t)
      → (r.status ≡ committed) × (q ≡ r) × (t ≡ s)
  unfolding commit_row
  commit_row-idle n h = ground arith

  pub commit_row-ok :
      r.status ≡ reserved
      → commit_row env r s ≡ (ok q, t)
      → (b : Account) × (x : Account) × (find_account_row r.buyer_account_number s.accounts
          ≡ some b)
        × (find_account_row r.seller_account_number s.accounts ≡ some x)
        × (r.source_amount ≤ℤ b.balance -ℤ b.available_balance)
        × (q ≡ record r { status = committed })
        × (t ≡ record s {
          accounts =
              update_balance
                (credit x r.destination_amount)
                (update_balance (debit_balance b r.source_amount) s.accounts);
        })
  unfolding commit_row
  commit_row-ok e h = elim (Option-cases (find_account_row r.buyer_account_number s.accounts)) [
    | inl missing ↦ absurd (ground arith)
    | inr (b, eb) ↦ elim (Option-cases (find_account_row r.seller_account_number s.accounts)) [
      | inl missing ↦ absurd (ground arith)
      | inr (x, ex) ↦ (b, x, eb, ex, ground arith, ground arith, ground arith)
    ]
  ]

  pub refund_row-idle :
      r.status ≢ committed
      → refund_row env r s ≡ (ok q, t)
      → (r.status ≡ refunded) × (q ≡ r) × (t ≡ s)
  unfolding refund_row
  refund_row-idle n h = ground arith

  pub refund_row-ok :
      r.status ≡ committed
      → refund_row env r s ≡ (ok q, t)
      → (b : Account) × (x : Account) × (find_account_row r.buyer_account_number s.accounts
          ≡ some b)
        × (find_account_row r.seller_account_number s.accounts ≡ some x)
        × (r.destination_amount ≤ℤ x.balance)
        × (r.destination_amount ≤ℤ x.available_balance)
        × (q ≡ record r { status = refunded })
        × (t ≡ record s {
          accounts =
              update_balance
                (credit b r.source_amount)
                (update_balance (debit x r.destination_amount) s.accounts);
        })
  unfolding refund_row
  refund_row-ok e h = elim (Option-cases (find_account_row r.buyer_account_number s.accounts)) [
    | inl missing ↦ absurd (ground arith)
    | inr (b, eb) ↦ elim (Option-cases (find_account_row r.seller_account_number s.accounts)) [
      | inl missing ↦ absurd (ground arith)
      | inr (x, ex) ↦ (b, x, eb, ex, ground arith, ground arith, ground arith, ground arith)
    ]
  ]

-- What `transition` does with the row that its closure returns.
pub transition-ok :
    (env : Env) (id : String) (change : OtcFundsReservation → Action Store OtcFundsReservation)
    (s : Store) {q : OtcFundsReservation} {t : Store}
    → transition env id change s ≡ (ok q, t)
    → (r : OtcFundsReservation) × (u : Store) × (find_reservation_row (trim_space id) s.reservations
        ≡ some r)
      × (change r s ≡ (ok q, u))
      × (t ≡ record u { reservations = save_reservation_row q u.reservations })
unfolding transition within_transaction
transition-ok env id change s h =
    elim (Option-cases (find_reservation_row (trim_space id) s.reservations)) [
      | inl missing ↦ absurd (ground arith)
      | inr (r, found) ↦ elim (Result-cases (change r s).0) [
        | inr (e, bad) ↦ absurd (ground arith)
        | inl (q, good) ↦ (r, (change r s).1, found, ground arith, ground arith)
      ]
    ]

-- A call that fails leaves the store as it was.
pub transition-err :
    (env : Env) (id : String) (change : OtcFundsReservation → Action Store OtcFundsReservation)
    (s : Store) {e : AppError}
    → (transition env id change s).0 ≡ err e
    → (transition env id change s).1 ≡ s
unfolding transition within_transaction
transition-err env id change s h = ground arith

pub reserve-err :
    (env : Env) (id buyer seller : String) (amount : ℤ) (c : CurrencyCode) (s : Store)
    {e : AppError}
    → (reserve env id buyer seller amount c s).0 ≡ err e
    → (reserve env id buyer seller amount c s).1 ≡ s
unfolding reserve within_transaction
reserve-err env id buyer seller amount c s h = ground arith
