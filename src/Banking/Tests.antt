-- ===== src/Banking/Tests.antt =====
-- Runs of the two services on a small ledger, and the theorems at concrete inputs.
use raf_8_banka_4_backend.Shared.{
  false, some, List, ◌∷◌, [], ◌≡◌, refl, ap, subst, String, String_discrete, text_eq, trim_space,
  pos, negsuc, neg, ◌+ℤ◌, ◌-ℤ◌, Result, ok, err, AppError, arith, within_transaction, total, update,
  find, save,
}
use raf_8_banka_4_backend.Banking.Model.{
  allowed_currencies, Account, OtcFundsReservation, reserved, released, committed, refunded,
  InterbankCashPosting, prepared, rolled_back,
}
use raf_8_banka_4_backend.Banking.Store.{
  Store, Env, ConvertsUp, find_account_row, find_reservation_row, save_reservation_row,
  find_posting_row, save_posting_row, update_balance, find_by_client_id, find_transaction_row,
}
use raf_8_banka_4_backend.Banking.Funds.{
  IsSound, held_by_reservations, held_by_postings, credit_available, debit_balance, credit,
}
use raf_8_banka_4_backend.Banking.OtcFunds.{
  convert_trade_amount, same_request, reserve_new, reserve, commit_row, transition, release, commit,
  refund,
}
use raf_8_banka_4_backend.Banking.OtcFunds.Soundness.{reserve-IsSound}
use raf_8_banka_4_backend.Banking.OtcFunds.Lifecycle.{
  reserve_call, commit_call, refund_call, run_calls, Evolves, run_calls-Evolves,
}
use raf_8_banka_4_backend.Banking.OtcFunds.Settlement.{
  Answers, commit_settles, commit_retry, reserve_retry,
}
use raf_8_banka_4_backend.Banking.OtcFunds.Undo.{reserve-release, commit-refund}
use raf_8_banka_4_backend.Banking.InterbankCash
use raf_8_banka_4_backend.Banking.InterbankCash.{
  PostingMetadata, history_transaction, history_payment,
}
use raf_8_banka_4_backend.Banking.InterbankCash.History.{
  commit_missing_transaction, prepare-rollback, commit_repeat,
}
use raf_8_banka_4_backend.Banking.InterbankCash.Payments.{Tallied}
use raf_8_banka_4_backend.Banking.Interleaving.Payments.{serve_all-Tallied}
use raf_8_banka_4_backend.Banking.Interleaving.{
  Request, otc, prepare_posting, commit_posting, rollback_posting, serve_all, serve_all-IsSound,
}

-- A database that answers, and rates of one to one.
abbrev calm : Env
calm = record { fails = λ st. false; convert = λ x from to. ok x }

calm-Answers : Answers calm
calm-Answers st = refl

calm-ConvertsUp : ConvertsUp calm
calm-ConvertsUp = record { convert_nonneg = λ x y from to e h. ground arith }

abbrev buyer_account : Account
buyer_account = record {
  account_number = "444000000000000101";
  client_id = 7;
  currency = "RSD";
  balance = pos 100000;
  available_balance = pos 100000;
  status = "Active";
  daily_spending = pos 0;
  monthly_spending = pos 0;
}

abbrev seller_account : Account
seller_account = record {
  account_number = "444000000000000202";
  client_id = 8;
  currency = "EUR";
  balance = pos 5000;
  available_balance = pos 4000;
  status = "Active";
  daily_spending = pos 0;
  monthly_spending = pos 0;
}

abbrev ledger : Store
ledger = record {
  accounts = buyer_account ∷ seller_account ∷ [];
  reservations = [];
  postings = [];
  transactions = [];
  payments = [];
  next_transaction_id = 1;
}

ledger-IsSound : IsSound ledger
unfolding held_by_reservations held_by_postings find_account_row ◌+ℤ◌ total String_discrete
ledger-IsSound = record { covers = λ k a e. ground arith; priced = tt; keyed = (refl, (refl, tt)) }

-- The ledger after a reservation of 300.00 RSD for the trade `t-1`.
abbrev trade_request : Store → Result OtcFundsReservation × Store
trade_request = reserve calm " t-1" "444000000000000101" "444000000000000202 " (pos 30000) "RSD"

abbrev reserved_bank : Store
reserved_bank = (trade_request ledger).1

reserved_bank-IsSound : IsSound reserved_bank
reserved_bank-IsSound =
    reserve-IsSound calm " t-1" "444000000000000101" "444000000000000202 " (pos 30000) "RSD" ledger
      calm-ConvertsUp ledger-IsSound

abbrev trade : OtcFundsReservation
trade = record {
  execution_id = "t-1";
  buyer_account_number = "444000000000000101";
  seller_account_number = "444000000000000202";
  trade_amount = pos 30000;
  trade_currency_code = "RSD";
  source_amount = pos 30000;
  source_currency_code = "RSD";
  destination_amount = pos 30000;
  destination_currency_code = "EUR";
  status = reserved;
}

trade_request-ledger : trade_request ledger ≡ (
  ok trade,
  record ledger {
    accounts = record buyer_account { available_balance = pos 70000 } ∷ seller_account ∷ [];
    reservations = trade ∷ [];
  },
)
unfolding reserve reserve_new convert_trade_amount same_request allowed_currencies trim_space
    within_transaction find_account_row find_reservation_row update_balance update find
    String_discrete ◌-ℤ◌
trade_request-ledger = refl

run_calls-Evolves_example :
    Evolves reserved_bank.reservations
      (run_calls (commit_call calm "t-1" ∷ refund_call calm "t-1" ∷ []) reserved_bank).reservations
run_calls-Evolves_example =
    run_calls-Evolves (commit_call calm "t-1" ∷ refund_call calm "t-1" ∷ []) reserved_bank

-- The store of `trade_request-ledger`, written out.
abbrev traded : Store
traded = record ledger {
  accounts = record buyer_account { available_balance = pos 70000 } ∷ seller_account ∷ [];
  reservations = trade ∷ [];
}

traded-IsSound : IsSound traded
traded-IsSound =
    subst (λ (r : Result OtcFundsReservation × Store). IsSound r.1) trade_request-ledger
      reserved_bank-IsSound

commit_settles_example :
    let (result, t) = commit calm "t-1" traded in
    (result ≡ ok (record trade { status = committed }))
    × (find_account_row "444000000000000101" t.accounts
        ≡ some (debit_balance (record buyer_account { available_balance = pos 70000 }) (pos 30000)))
    × (find_account_row "444000000000000202" t.accounts ≡ some (credit seller_account (pos 30000)))
unfolding find_reservation_row find_account_row find String_discrete trim_space
commit_settles_example =
    commit_settles calm "t-1" traded trade (record buyer_account { available_balance = pos 70000 })
      seller_account calm-Answers traded-IsSound refl refl refl
      (λ e. cc (ap (λ k. text_eq k "444000000000000101") e)) refl refl

abbrev paid_trade : OtcFundsReservation
paid_trade = record trade { status = committed }

abbrev paid : Store
paid = record traded {
  accounts =
      record buyer_account { balance = pos 70000; available_balance = pos 70000 }
      ∷ record seller_account { balance = pos 35000; available_balance = pos 34000 }
      ∷ [];
  reservations = paid_trade ∷ [];
}

commit-traded : commit calm "t-1" traded ≡ (ok paid_trade, paid)
unfolding commit transition commit_row trim_space within_transaction find_account_row
    find_reservation_row save_reservation_row save update_balance update find String_discrete ◌-ℤ◌
    ◌+ℤ◌
commit-traded = refl

commit_retry_example : commit calm "t-1" paid ≡ (ok paid_trade, paid)
commit_retry_example = commit_retry calm calm "t-1" traded calm-Answers commit-traded

reserve_retry_example :
    reserve calm " t-1" "444000000000000101" "444000000000000202 " (pos 30000) "RSD" traded
    ≡ (ok trade, traded)
reserve_retry_example =
    reserve_retry calm calm " t-1" "444000000000000101" "444000000000000202 " (pos 30000) "RSD"
      ledger calm-Answers trade_request-ledger

reserve-release_example :
    let (result, u) = release calm " t-1" traded in
    (result ≡ ok (record trade { status = released }))
    × ((k : String) → find_account_row k u.accounts ≡ find_account_row k ledger.accounts)
unfolding find_reservation_row
reserve-release_example =
    reserve-release calm calm " t-1" "444000000000000101" "444000000000000202 " (pos 30000) "RSD"
      ledger calm-Answers refl trade_request-ledger

commit-refund_example :
    let (result, u) = refund calm "t-1" paid in
    (result ≡ ok (record trade { status = refunded }))
    × (find_account_row "444000000000000101" u.accounts
        ≡ some
            (credit_available (record buyer_account { available_balance = pos 70000 }) (pos 30000)))
    × (find_account_row "444000000000000202" u.accounts ≡ some seller_account)
unfolding find_reservation_row find_account_row find String_discrete trim_space
commit-refund_example =
    commit-refund calm calm "t-1" traded trade
      (record buyer_account { available_balance = pos 70000 }) seller_account calm-Answers
      traded-IsSound refl refl (λ e. cc (ap (λ k. text_eq k "444000000000000101") e)) refl refl
      commit-traded

-- A leg of an interbank payment that takes 100.00 RSD from the buyer's account.
abbrev unnamed_meta : PostingMetadata
unnamed_meta = record {
  banking_tx_id = 0;
  counterparty_account_number = "111000000000000303";
  payment_code = "289";
  purpose = "rent";
}

abbrev leg : InterbankCashPosting
leg = record {
  posting_id = "111:x:0";
  account_number = "444000000000000101";
  currency_code = "RSD";
  amount = negsuc 9999;
  requested_currency_code = "RSD";
  requested_amount = negsuc 9999;
  status = prepared;
  banking_tx_id = 0;
  counterparty_account_number = "111000000000000303";
  payment_code = "289";
  purpose = "rent";
}

abbrev held_bank : Store
held_bank = record ledger {
  accounts = record buyer_account { available_balance = pos 90000 } ∷ seller_account ∷ [];
  postings = leg ∷ [];
}

prepare-ledger :
    InterbankCash.prepare calm "111:x:0" "" 7 "RSD" (negsuc 9999) "CLIENT" unnamed_meta ledger
    ≡ (ok leg, held_bank)
unfolding InterbankCash.prepare InterbankCash.prepare_new InterbankCash.resolve_account
    InterbankCash.resolve_bank_account InterbankCash.pick_account InterbankCash.hold
    find_by_client_id allowed_currencies trim_space within_transaction find_posting_row
    update_balance update find String_discrete ◌-ℤ◌ neg
prepare-ledger = refl

prepare-rollback_example :
    let (result, u) = InterbankCash.rollback calm "111:x:0" held_bank in
    (result ≡ ok (record leg { status = rolled_back }))
    × ((k : String) → find_account_row k u.accounts ≡ find_account_row k ledger.accounts)
unfolding find_posting_row
prepare-rollback_example =
    prepare-rollback calm calm "111:x:0" "" 7 "RSD" (negsuc 9999) "CLIENT" unnamed_meta ledger
      calm-Answers ledger-IsSound.keyed refl prepare-ledger

abbrev settled_leg : InterbankCashPosting
settled_leg = record leg { status = committed }

abbrev settled_bank : Store
settled_bank = record held_bank {
  accounts =
      record buyer_account { balance = pos 90000; available_balance = pos 90000 }
      ∷ seller_account
      ∷ [];
  postings = settled_leg ∷ [];
  transactions = history_transaction 1 settled_leg ∷ [];
  payments = history_payment 1 settled_leg ∷ [];
  next_transaction_id = 2;
}

commit-held_bank : InterbankCash.commit calm "111:x:0" held_bank ≡ (ok settled_leg, settled_bank)
unfolding InterbankCash.commit InterbankCash.transition InterbankCash.commit_row
    InterbankCash.record_payment_history InterbankCash.get_by_id InterbankCash.write_history
    trim_space within_transaction find_account_row find_posting_row save_posting_row save
    update_balance update find String_discrete ◌-ℤ◌ ◌+ℤ◌ neg
commit-held_bank = refl

commit_repeat_example :
    InterbankCash.commit calm "111:x:0" settled_bank ≡ (ok settled_leg, settled_bank)
commit_repeat_example = commit_repeat calm calm "111:x:0" held_bank calm-Answers commit-held_bank

-- A prepared leg that names the banking transaction 5, of which the table has no row.
abbrev orphan : InterbankCashPosting
orphan = record leg { banking_tx_id = 5 }

abbrev orphan_bank : Store
orphan_bank = record held_bank { postings = orphan ∷ [] }

commit_missing_transaction_example :
    (e : AppError) × (InterbankCash.commit calm "111:x:0" orphan_bank ≡ (err e, orphan_bank))
unfolding find_posting_row find_transaction_row find String_discrete trim_space
commit_missing_transaction_example =
    commit_missing_transaction calm "111:x:0" orphan_bank orphan refl refl refl refl

-- A trade is reserved, a leg is prepared on the same account, and both are settled.
abbrev day : List Request
day =
    otc (reserve_call calm "t-1" "444000000000000101" "444000000000000202" (pos 30000) "RSD")
    ∷ prepare_posting calm "111:x:0" "" 7 "RSD" (negsuc 9999) "CLIENT" unnamed_meta
    ∷ otc (commit_call calm "t-1")
    ∷ commit_posting calm "111:x:0"
    ∷ rollback_posting calm "111:x:0"
    ∷ []

serve_all-IsSound_example : IsSound (serve_all day ledger)
serve_all-IsSound_example =
    serve_all-IsSound day ledger (calm-ConvertsUp, (tt, (tt, (tt, (tt, tt))))) ledger-IsSound

serve_all-Tallied_example : Tallied ledger (serve_all day ledger)
serve_all-Tallied_example = serve_all-Tallied day ledger
