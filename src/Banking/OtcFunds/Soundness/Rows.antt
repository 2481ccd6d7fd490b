-- ===== src/Banking/OtcFunds/Soundness/Rows.antt =====
-- services/banking-service/internal/service/otc_funds_service.go: what moving money on one row does to the soundness of
-- the ledger.
use raf_8_banka_4_backend.Shared.{
  some, ◌∷◌, [], ◌++◌, ◌≡◌, refl, sym, subst, ◌≢◌, String, same_parts, All-append_one, ℤ, pos, ◌+ℤ◌,
  ◌≤ℤ◌, int_laws, arith,
}
use raf_8_banka_4_backend.Banking.Model.{
  CurrencyCode, Account, OtcFundsReservation, reserved, released, committed, refunded,
}
use raf_8_banka_4_backend.Banking.Store.{
  Store, find_account_row, find_reservation_row, save_reservation_row, update_balance,
}
use raf_8_banka_4_backend.Banking.Funds.{
  credit_available, debit_available, debit_balance, credit, debit, reservation_hold,
  held_by_reservations, held_by_postings, held, reservation_hold_own, IsPriced, IsSound,
  update-IsKeyed, Covers-update, Covers-weaken, held_by_reservations-save,
  held_by_reservations-append, reservation_hold_nonneg, find_account_row-number, found-IsPriced,
  save-IsPriced,
}
use raf_8_banka_4_backend.Banking.OtcFunds.Success.{reservation_row}

-- A row that is found and then overwritten in a status that holds nothing.
module _ (q r : OtcFundsReservation) (s : Store) (v : IsSound s)
    (found : find_reservation_row q.execution_id s.reservations ≡ some r)
    (idle : (k : String) → reservation_hold k q ≡ pos 0) where
  abbrev pub left : String → ℤ
  left k =
      held_by_reservations (save_reservation_row q s.reservations) k
      +ℤ held_by_postings s.postings k

  left-eq : (k : String) → left k +ℤ reservation_hold k r ≡ held s k
  left-eq k = omega (
    int_laws,
    same_parts (held_by_reservations-save q r s.reservations found k),
    same_parts (idle k),
  )

  left-le : (k : String) → left k ≤ℤ held s k
  left-le k = omega (
    int_laws,
    same_parts (left-eq k),
    reservation_hold_nonneg k r (found-IsPriced q.execution_id s.reservations v.priced found),
  )

module _ (r : OtcFundsReservation) (s : Store) (v : IsSound s)
    (found : find_reservation_row r.execution_id s.reservations ≡ some r) where
  pub released-IsSound :
      (b : Account)
      → r.status ≡ reserved
      → find_account_row r.buyer_account_number s.accounts ≡ some b
      → IsSound (record s {
        accounts = update_balance (credit_available b r.source_amount) s.accounts;
        reservations = save_reservation_row (record r { status = released }) s.reservations;
      })
  released-IsSound b st fb =
      let q : OtcFundsReservation = record r { status = released } in
      let n : b.account_number ≡ r.buyer_account_number =
        find_account_row-number r.buyer_account_number s.accounts fb in
      let price = found-IsPriced r.execution_id s.reservations v.priced found in
      record {
        covers =
            Covers-update (held s) (left q r s v found (λ k. refl))
              (credit_available b r.source_amount) s.accounts
              (λ k n. left-le q r s v found (λ k. refl) k)
              (omega (int_laws, v.covers r.buyer_account_number b fb, price))
              (rw n (
                omega (
                  int_laws,
                  v.covers r.buyer_account_number b fb,
                  same_parts (left-eq q r s v found (λ k. refl) r.buyer_account_number),
                  same_parts (reservation_hold_own r st),
                )))
              v.covers;
        priced = save-IsPriced q s.reservations v.priced price;
        keyed = update-IsKeyed (credit_available b r.source_amount) s.accounts v.keyed;
      }

  pub paid-IsSound :
      (b x : Account)
      → r.status ≡ reserved
      → find_account_row r.buyer_account_number s.accounts ≡ some b
      → find_account_row r.seller_account_number s.accounts ≡ some x
      → IsSound (record s {
        accounts =
            update_balance
              (credit x r.destination_amount)
              (update_balance (debit_balance b r.source_amount) s.accounts);
        reservations = save_reservation_row (record r { status = committed }) s.reservations;
      })
  paid-IsSound b x st fb fx =
      let q : OtcFundsReservation = record r { status = committed } in
      let rest = left q r s v found (λ k. refl) in
      let nb : b.account_number ≡ r.buyer_account_number =
        find_account_row-number r.buyer_account_number s.accounts fb in
      let nx : x.account_number ≡ r.seller_account_number =
        find_account_row-number r.seller_account_number s.accounts fx in
      let price = found-IsPriced r.execution_id s.reservations v.priced found in
      let buyer = v.covers r.buyer_account_number b fb in
      let seller = v.covers r.seller_account_number x fx in
      let freed = left-eq q r s v found (λ k. refl) r.buyer_account_number in
      record {
        covers =
            Covers-update rest rest (credit x r.destination_amount)
              (update_balance (debit_balance b r.source_amount) s.accounts) (λ k n. omega arith)
              (omega (int_laws, seller, price))
              (rw nx (
                omega
                  (int_laws, seller, left-le q r s v found (λ k. refl) r.seller_account_number)))
              (Covers-update (held s) rest (debit_balance b r.source_amount) s.accounts
                (λ k n. left-le q r s v found (λ k. refl) k) (omega (int_laws, buyer))
                (rw nb (
                  omega
                    (int_laws, buyer, same_parts freed, same_parts (reservation_hold_own r st))))
                v.covers);
        priced = save-IsPriced q s.reservations v.priced price;
        keyed =
            update-IsKeyed (credit x r.destination_amount)
              (update_balance (debit_balance b r.source_amount) s.accounts)
              (update-IsKeyed (debit_balance b r.source_amount) s.accounts v.keyed);
      }

  pub refunded-IsSound :
      (b x : Account)
      → r.status ≡ committed
      → find_account_row r.buyer_account_number s.accounts ≡ some b
      → find_account_row r.seller_account_number s.accounts ≡ some x
      → r.destination_amount ≤ℤ x.available_balance
      → IsSound (record s {
        accounts =
            update_balance
              (credit b r.source_amount)
              (update_balance (debit x r.destination_amount) s.accounts);
        reservations = save_reservation_row (record r { status = refunded }) s.reservations;
      })
  refunded-IsSound b x st fb fx enough =
      let q : OtcFundsReservation = record r { status = refunded } in
      let rest = left q r s v found (λ k. refl) in
      let nb : b.account_number ≡ r.buyer_account_number =
        find_account_row-number r.buyer_account_number s.accounts fb in
      let nx : x.account_number ≡ r.seller_account_number =
        find_account_row-number r.seller_account_number s.accounts fx in
      let price = found-IsPriced r.execution_id s.reservations v.priced found in
      let buyer = v.covers r.buyer_account_number b fb in
      let seller = v.covers r.seller_account_number x fx in
      record {
        covers =
            Covers-update rest rest (credit b r.source_amount)
              (update_balance (debit x r.destination_amount) s.accounts) (λ k n. omega arith)
              (omega (int_laws, buyer, price))
              (rw nb
                (omega (int_laws, buyer, left-le q r s v found (λ k. refl) r.buyer_account_number)))
              (Covers-update (held s) rest (debit x r.destination_amount) s.accounts
                (λ k n. left-le q r s v found (λ k. refl) k) (omega (int_laws, seller, enough))
                (rw nx (
                  omega
                    (int_laws, seller, left-le q r s v found (λ k. refl) r.seller_account_number)))
                v.covers);
        priced = save-IsPriced q s.reservations v.priced price;
        keyed =
            update-IsKeyed (credit b r.source_amount)
              (update_balance (debit x r.destination_amount) s.accounts)
              (update-IsKeyed (debit x r.destination_amount) s.accounts v.keyed);
      }

-- A row is overwritten by itself.
module _ (r : OtcFundsReservation) (s : Store) (v : IsSound s)
    (found : find_reservation_row r.execution_id s.reservations ≡ some r) where
  pub resaved-IsSound : IsSound (record s { reservations = save_reservation_row r s.reservations })
  resaved-IsSound = record {
    covers =
        Covers-weaken (held s)
          (λ k.
            held_by_reservations (save_reservation_row r s.reservations) k
            +ℤ held_by_postings s.postings k)
          s.accounts
          (λ k. omega (int_laws, same_parts (held_by_reservations-save r r s.reservations found k)))
          v.covers;
    priced =
        save-IsPriced r s.reservations v.priced
          (found-IsPriced r.execution_id s.reservations v.priced found);
    keyed = v.keyed;
  }

hold_elsewhere :
    (q : OtcFundsReservation) (k : String)
    → q.buyer_account_number ≢ k
    → reservation_hold k q ≡ pos 0
hold_elsewhere q k n = ground arith

-- A new reservation holds what the buyer's account gives up.
pub reserved-IsSound :
    (id buyer : String) (b x : Account) (amount source destination : ℤ) (c : CurrencyCode)
    (s : Store)
    → IsSound s
    → find_account_row buyer s.accounts ≡ some b
    → IsPriced (reservation_row id b x amount c source destination)
    → source ≤ℤ b.available_balance
    → IsSound (record s {
      accounts = update_balance (debit_available b source) s.accounts;
      reservations = s.reservations ++ reservation_row id b x amount c source destination ∷ [];
    })
reserved-IsSound id buyer b x amount source destination c s v fb price enough =
    let q = reservation_row id b x amount c source destination in
    let self : find_account_row b.account_number s.accounts ≡ some b =
      subst (λ k. find_account_row k s.accounts ≡ some b)
        (sym (find_account_row-number buyer s.accounts fb)) fb in
    let before = v.covers b.account_number b self in
    record {
      covers =
          Covers-update (held s)
            (λ k.
              held_by_reservations (s.reservations ++ q ∷ []) k +ℤ held_by_postings s.postings k)
            (debit_available b source) s.accounts
            (λ k ne. omega (
              int_laws,
              same_parts (held_by_reservations-append q s.reservations k),
              same_parts (hold_elsewhere q k ne),
            ))
            (omega (int_laws, before, enough))
            (omega (
              int_laws,
              before,
              same_parts (held_by_reservations-append q s.reservations b.account_number),
              same_parts (reservation_hold_own q refl),
            ))
            v.covers;
      priced = All-append_one IsPriced s.reservations q v.priced price;
      keyed = update-IsKeyed (debit_available b source) s.accounts v.keyed;
    }
