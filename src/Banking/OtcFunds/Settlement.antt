-- ===== src/Banking/OtcFunds/Settlement.antt =====
-- What a call of otc_funds_service.go achieves when the database answers.
use raf_8_banka_4_backend.Shared.{
  true, false, none, some, List, ◌∷◌, [], ◌++◌, ◌≡◌, ap, ◌∙◌, ◌≢◌, inl, inr, String,
  String_discrete, text_eq, trim_space, ℤ, pos, ◌-ℤ◌, ◌≤ℤ◌, leb_ℤ, int_laws, Action, ok, arith,
  within_transaction, if_pos, find-append_new, save-found, same_parts, find-save,
}
use raf_8_banka_4_backend.Banking.Model.{
  CurrencyCode, allowed_currencies, Account, OtcFundsReservation,
  OtcFundsReservationStatus-discrete, reserved, committed,
}
use raf_8_banka_4_backend.Banking.Store.{
  Store, Env, Statement, find_account_row, find_reservation_row, save_reservation_row,
  update_balance, balance_columns, find-update_balance,
}
use raf_8_banka_4_backend.Banking.Funds.{
  debit_balance, credit, reservation_hold_own, IsSound, find_account_row-number,
  find_reservation_row_self, find_reservation_row-id, held-ge-reservation,
}
use raf_8_banka_4_backend.Banking.OtcFunds.{same_request, reserve, commit_row, transition, commit}
use raf_8_banka_4_backend.Banking.OtcFunds.Success.{
  reservation_row, reserve_new-ok, reserve-ok, commit_row-idle, commit_row-ok, transition-ok,
}

-- The database carries out every statement.
abbrev pub Answers : Env → Type 0
Answers env = (st : Statement) → env.fails st ≡ false

module _ (env : Env) (up : Answers env) where
  pub transition-run :
      (id : String) (change : OtcFundsReservation → Action Store OtcFundsReservation) (s u : Store)
      (r q : OtcFundsReservation)
      → text_eq (trim_space id) "" ≡ false
      → find_reservation_row (trim_space id) s.reservations ≡ some r
      → change r s ≡ (ok q, u)
      → transition env id change s
        ≡ (ok q, record u { reservations = save_reservation_row q u.reservations })
  unfolding transition within_transaction
  transition-run id change s u r q named found run = ground (
    arith,
    up Statement.find_reservation,
    up Statement.save_reservation,
    up Statement.commit_transaction,
  )

  commit_row-run :
      (r : OtcFundsReservation) (s : Store) (b x : Account)
      → r.status ≡ reserved
      → find_account_row r.buyer_account_number s.accounts ≡ some b
      → find_account_row r.seller_account_number s.accounts ≡ some x
      → r.source_amount ≤ℤ b.balance -ℤ b.available_balance
      → r.source_amount ≤ℤ b.balance
      → commit_row env r s ≡ (
        ok (record r { status = committed }),
        record s {
          accounts =
              update_balance
                (credit x r.destination_amount)
                (update_balance (debit_balance b r.source_amount) s.accounts);
        },
      )
  unfolding commit_row
  commit_row-run r s b x st fb fx held_funds funds = ground (
    arith,
    up Statement.find_buyer,
    up Statement.find_seller,
    up Statement.update_buyer,
    up Statement.update_seller,
  )

  -- A retry of a call whose closure finds nothing to do.
  transition-retry :
      (id : String) (change : OtcFundsReservation → Action Store OtcFundsReservation) (t : Store)
      (q : OtcFundsReservation)
      → text_eq (trim_space id) "" ≡ false
      → find_reservation_row (trim_space id) t.reservations ≡ some q
      → change q t ≡ (ok q, t)
      → transition env id change t ≡ (ok q, t)
  unfolding find_reservation_row save_reservation_row
  transition-retry id change t q named found run =
      let self = find_reservation_row_self (trim_space id) t.reservations q found in
      let same = save-found String_discrete (λ v. v.execution_id) q t.reservations self in
      transition-run id change t t q q named found run
      ∙ ap (λ (rows : List OtcFundsReservation). (ok q, record t { reservations = rows })) same

-- The two accounts of a payment, read back.
pub find-credit_debit :
    (k j : String) (y z b x : Account) (t : List Account)
    → k ≢ j
    → y.account_number ≡ k
    → z.account_number ≡ j
    → find_account_row k t ≡ some b
    → find_account_row j t ≡ some x
    → (find_account_row k (update_balance z (update_balance y t)) ≡ some (balance_columns y b))
      × (find_account_row j (update_balance z (update_balance y t)) ≡ some (balance_columns z x))
find-credit_debit k j y z b x t ne ny nz eb ex = ground (
  arith,
  find-update_balance k z (update_balance y t),
  find-update_balance j z (update_balance y t),
  find-update_balance k y t,
  find-update_balance j y t,
)

module _ (env : Env) (id : String) (s : Store) (r : OtcFundsReservation) (b x : Account) where
  -- In a sound ledger with a database that answers, a reservation between two different accounts that
  -- exist is always paid: the buyer's balance falls by the source amount, with the available balance
  -- as it was, and both balances of the seller rise by the destination amount.
  pub commit_settles :
      Answers env
      → IsSound s
      → text_eq (trim_space id) "" ≡ false
      → find_reservation_row (trim_space id) s.reservations ≡ some r
      → r.status ≡ reserved
      → r.buyer_account_number ≢ r.seller_account_number
      → find_account_row r.buyer_account_number s.accounts ≡ some b
      → find_account_row r.seller_account_number s.accounts ≡ some x
      → let (result, t) = commit env id s in
        (result ≡ ok (record r { status = committed }))
        × (find_account_row r.buyer_account_number t.accounts
            ≡ some (debit_balance b r.source_amount))
        × (find_account_row r.seller_account_number t.accounts
            ≡ some (credit x r.destination_amount))
  unfolding commit
  commit_settles up v named found st ne fb fx =
      let covered = v.covers r.buyer_account_number b fb in
      let least = held-ge-reservation r.buyer_account_number (trim_space id) s r v found in
      let own = same_parts (reservation_hold_own r st) in
      let run = transition-run env up id (commit_row env) s _ r _ named found (
        commit_row-run env up r s b x st fb fx (omega (int_laws, covered, least, own))
          (omega (int_laws, covered, least, own))) in
      let nb = find_account_row-number r.buyer_account_number s.accounts fb in
      let nx = find_account_row-number r.seller_account_number s.accounts fx in
      let (eb, ex) =
        find-credit_debit r.buyer_account_number r.seller_account_number
          (debit_balance b r.source_amount) (credit x r.destination_amount) b x s.accounts ne nb nx
          fb fx in
      (rw run, rw run eb, rw run ex)

-- A row that a call has saved is found again.
pub find_saved :
    (id : String) (s : Store) (r q : OtcFundsReservation) (rows : List OtcFundsReservation)
    → find_reservation_row (trim_space id) s.reservations ≡ some r
    → q ≡ record r { status = q.status }
    → find_reservation_row (trim_space id) (save_reservation_row q rows) ≡ some q
unfolding find_reservation_row save_reservation_row
find_saved id s r q rows found terms =
    let same : q.execution_id ≡ trim_space id =
      ap (λ (u : OtcFundsReservation). u.execution_id) terms
      ∙ find_reservation_row-id (trim_space id) s.reservations found in
    find-save String_discrete (λ v. v.execution_id) (trim_space id) q rows
    ∙ if_pos (String_discrete q.execution_id (trim_space id)) same _ _

pub transition-named :
    (env : Env) (id : String) (change : OtcFundsReservation → Action Store OtcFundsReservation)
    (s : Store) {q : OtcFundsReservation} {t : Store}
    → transition env id change s ≡ (ok q, t)
    → text_eq (trim_space id) "" ≡ false
unfolding transition
transition-named env id change s h = ground arith

commit_row-settled :
    (env : Env) (q : OtcFundsReservation) (t : Store)
    → q.status ≡ committed
    → commit_row env q t ≡ (ok q, t)
unfolding commit_row
commit_row-settled env q t e = ground arith

module _ (env again : Env) (id : String) (s : Store) {q : OtcFundsReservation} {t : Store} where
  -- A commit that has succeeded may be repeated: the same row is returned and nothing changes.
  pub commit_retry : Answers again → commit env id s ≡ (ok q, t) → commit again id t ≡ (ok q, t)
  unfolding commit
  commit_retry up h =
      let (r, u, found, run, result) = transition-ok env id (commit_row env) s h in
      let named = transition-named env id (commit_row env) s h in
      elim (OtcFundsReservationStatus-discrete r.status reserved) [
        | no other ↦
            let (st, same, kept) = commit_row-idle env r s other run in
            transition-retry again up id (commit_row again) t q named
              (rw result (find_saved id s r q u.reservations found (rw same)))
              (commit_row-settled again q t (rw same st))
        | yes st ↦
            let (b, x, fb, fx, enough, same, moved) = commit_row-ok env r s st run in
            transition-retry again up id (commit_row again) t q named
              (rw result (find_saved id s r q u.reservations found (rw same)))
              (commit_row-settled again q t (rw same))
      ]

reserve-run :
    (env : Env) (id buyer seller : String) (amount : ℤ) (c : CurrencyCode) (s : Store)
    (q : OtcFundsReservation)
    → Answers env
    → text_eq (trim_space id) "" ≡ false
    → text_eq (trim_space buyer) "" ≡ false
    → text_eq (trim_space seller) "" ≡ false
    → text_eq (trim_space buyer) (trim_space seller) ≡ false
    → leb_ℤ amount (pos 0) ≡ false
    → allowed_currencies c ≡ true
    → find_reservation_row (trim_space id) s.reservations ≡ some q
    → same_request q (trim_space buyer) (trim_space seller) amount c ≡ true
    → reserve env id buyer seller amount c s ≡ (ok q, s)
unfolding reserve within_transaction
reserve-run env id buyer seller amount c s q up n1 n2 n3 n4 n5 n6 found same =
    ground (arith, up Statement.find_reservation, up Statement.commit_transaction)

pub reserve-checked :
    (env : Env) (id buyer seller : String) (amount : ℤ) (c : CurrencyCode) (s : Store)
    {r : OtcFundsReservation} {t : Store}
    → reserve env id buyer seller amount c s ≡ (ok r, t)
    → (text_eq (trim_space id) "" ≡ false)
      × (text_eq (trim_space buyer) "" ≡ false)
      × (text_eq (trim_space seller) "" ≡ false)
      × (allowed_currencies c ≡ true)
unfolding reserve
reserve-checked env id buyer seller amount c s h =
    (ground arith, ground arith, ground arith, ground arith)

reserve-same :
    (env : Env) (id buyer seller : String) (amount : ℤ) (c : CurrencyCode) (s : Store)
    {r : OtcFundsReservation} {t : Store}
    → reserve env id buyer seller amount c s ≡ (ok r, t)
    → find_reservation_row (trim_space id) s.reservations ≡ some r
    → same_request r (trim_space buyer) (trim_space seller) amount c ≡ true
unfolding reserve within_transaction
reserve-same env id buyer seller amount c s h found = ground arith

text_eq_refl : (k : String) → text_eq k k ≡ true
text_eq_refl k = ground arith

row-same :
    (id buyer seller : String) (b x : Account) (amount source destination : ℤ) (c : CurrencyCode)
    → b.account_number ≡ buyer
    → x.account_number ≡ seller
    → same_request (reservation_row id b x amount c source destination) buyer seller amount c ≡ true
unfolding same_request
row-same id buyer seller b x amount source destination c eb ex =
    ground (arith, text_eq_refl buyer, text_eq_refl seller, text_eq_refl c)

pub find_created :
    (q : OtcFundsReservation) (rows : List OtcFundsReservation)
    → find_reservation_row q.execution_id rows ≡ none
    → find_reservation_row q.execution_id (rows ++ q ∷ []) ≡ some q
unfolding find_reservation_row
find_created q rows new = find-append_new String_discrete (λ v. v.execution_id) rows q new

-- A reservation that has succeeded may be repeated with the same terms: the same row is returned and
-- nothing changes, so the funds are taken once.
pub reserve_retry :
    (env again : Env) (id buyer seller : String) (amount : ℤ) (c : CurrencyCode) (s : Store)
    {q : OtcFundsReservation} {t : Store}
    → Answers again
    → reserve env id buyer seller amount c s ≡ (ok q, t)
    → reserve again id buyer seller amount c t ≡ (ok q, t)
reserve_retry env again id buyer seller amount c s {q} {t} up h =
    let (positive, other, outcome) = reserve-ok env id buyer seller amount c s h in
    let (n1, n2, n3, n6) = reserve-checked env id buyer seller amount c s h in
    elim outcome [
      | inl (same, found) ↦
          reserve-run again id buyer seller amount c t q up n1 n2 n3 other positive n6
            (rw same found) (reserve-same env id buyer seller amount c s h found)
      | inr (new, run) ↦
          let (b, x, source, destination, fb, fx, e1, e2, enough, er, et) =
            reserve_new-ok env (trim_space id) (trim_space buyer) (trim_space seller) amount c s
              run in
          let row = reservation_row (trim_space id) b x amount c source destination in
          reserve-run again id buyer seller amount c t q up n1 n2 n3 other positive n6
            (rw (et, er) (find_created row s.reservations new))
            (rw er (
              row-same (trim_space id) (trim_space buyer) (trim_space seller) b x amount source
                destination c (find_account_row-number (trim_space buyer) s.accounts fb)
                (find_account_row-number (trim_space seller) s.accounts fx)))
    ]
