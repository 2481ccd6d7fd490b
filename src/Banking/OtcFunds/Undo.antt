-- ===== src/Banking/OtcFunds/Undo.antt =====
-- The calls of otc_funds_service.go that undo one another.
use raf_8_banka_4_backend.Shared.{
  none, some, List, ◌∷◌, [], ◌++◌, ◌≡◌, refl, sym, ◌∙◌, subst, ◌≢◌, inl, inr, String,
  String_discrete, trim_space, ℤ, ◌≤ℤ◌, int_laws, ok, arith, within_transaction, if_pos, if_neg,
  -ℤ-+ℤ, +ℤ--ℤ,
}
use raf_8_banka_4_backend.Banking.Model.{
  CurrencyCode, Account, OtcFundsReservation, reserved, released, committed, refunded,
}
use raf_8_banka_4_backend.Banking.Store.{
  Store, Env, Statement, find_account_row, find_reservation_row, save_reservation_row,
  update_balance, find-update_balance,
}
use raf_8_banka_4_backend.Banking.Funds.{
  credit_available, debit_available, debit_balance, credit, debit, IsSound, held_nonneg,
  find_account_row-number,
}
use raf_8_banka_4_backend.Banking.OtcFunds.{
  reserve, release_row, commit_row, refund_row, transition, release, commit, refund,
}
use raf_8_banka_4_backend.Banking.OtcFunds.Success.{reservation_row, reserve_new-ok, reserve-ok}
use raf_8_banka_4_backend.Banking.OtcFunds.Settlement.{
  Answers, transition-run, find_created, find-credit_debit, reserve-checked, find_saved,
  transition-named,
}

module _ (env : Env) (up : Answers env) (r : OtcFundsReservation) (s : Store) where
  release_row-run :
      (b : Account)
      → r.status ≡ reserved
      → find_account_row r.buyer_account_number s.accounts ≡ some b
      → release_row env r s ≡ (
        ok (record r { status = released }),
        record s { accounts = update_balance (credit_available b r.source_amount) s.accounts },
      )
  unfolding release_row
  release_row-run b st fb = ground (arith, up Statement.find_buyer, up Statement.update_buyer)

  refund_row-run :
      (b x : Account)
      → r.status ≡ committed
      → find_account_row r.buyer_account_number s.accounts ≡ some b
      → find_account_row r.seller_account_number s.accounts ≡ some x
      → r.destination_amount ≤ℤ x.balance
      → r.destination_amount ≤ℤ x.available_balance
      → refund_row env r s ≡ (
        ok (record r { status = refunded }),
        record s {
          accounts =
              update_balance
                (credit b r.source_amount)
                (update_balance (debit x r.destination_amount) s.accounts);
        },
      )
  unfolding refund_row
  refund_row-run b x st fb fx e1 e2 = ground (
    arith,
    up Statement.find_buyer,
    up Statement.find_seller,
    up Statement.update_buyer,
    up Statement.update_seller,
  )

-- What is taken from an available balance and given back leaves every row as it was.
give_back :
    (b : Account) (y : ℤ) (t : List Account)
    → find_account_row b.account_number t ≡ some b
    → (k : String)
    → find_account_row k (
        update_balance
          (credit_available (debit_available b y) y)
          (update_balance (debit_available b y) t))
      ≡ find_account_row k t
give_back b y t found k =
    let all =
      find-update_balance k (credit_available (debit_available b y) y)
        (update_balance (debit_available b y) t) in
    let once = find-update_balance k (debit_available b y) t in
    elim (String_discrete b.account_number k) [
      | no n ↦
          all
          ∙ if_neg (String_discrete b.account_number k) n _ _
          ∙ once
          ∙ if_neg (String_discrete b.account_number k) n _ _
      | yes p ↦
          let here : find_account_row k t ≡ some b =
            subst (λ x. find_account_row x t ≡ some b) p found in
          let middle = once ∙ if_pos (String_discrete b.account_number k) p _ _ in
          all ∙ if_pos (String_discrete b.account_number k) p _ _ ∙ rw (middle, here, -ℤ-+ℤ)
    ]

-- A fresh reservation that is released leaves every account as it was before the reservation.
pub reserve-release :
    (env again : Env) (id buyer seller : String) (amount : ℤ) (c : CurrencyCode) (s : Store)
    {q : OtcFundsReservation} {t : Store}
    → Answers again
    → find_reservation_row (trim_space id) s.reservations ≡ none
    → reserve env id buyer seller amount c s ≡ (ok q, t)
    → let (result, u) = release again id t in
      (result ≡ ok (record q { status = released }))
      × ((k : String) → find_account_row k u.accounts ≡ find_account_row k s.accounts)
unfolding release
reserve-release env again id buyer seller amount c s {q} {t} up new h =
    let (positive, other, outcome) = reserve-ok env id buyer seller amount c s h in
    let (named, n2, n3, n6) = reserve-checked env id buyer seller amount c s h in
    elim outcome [
      | inl (same, found) ↦ absurd (cc)
      | inr (new, run) ↦
          let (b, x, y, z, fb, fx, e1, e2, enough, er, et) =
            reserve_new-ok env (trim_space id) (trim_space buyer) (trim_space seller) amount c s
              run in
          let self : find_account_row b.account_number s.accounts ≡ some b =
            subst (λ k. find_account_row k s.accounts ≡ some b)
              (sym (find_account_row-number (trim_space buyer) s.accounts fb)) fb in
          let row = reservation_row (trim_space id) b x amount c y z in
          let mid : Store = record s {
            accounts = update_balance (debit_available b y) s.accounts;
            reservations = s.reservations ++ row ∷ [];
          } in
          let debited : find_account_row b.account_number mid.accounts
              ≡ some (debit_available b y) =
            find-update_balance b.account_number (debit_available b y) s.accounts
            ∙ if_pos (String_discrete b.account_number b.account_number) refl _ _
            ∙ rw self in
          let done =
            transition-run again up id (release_row again) mid _ row _ named
              (find_created row s.reservations new)
              (release_row-run again up row mid (debit_available b y) refl debited) in
          rw (et, er) (rw done, λ k. rw done (give_back b y s.accounts self k))
    ]

-- What a commit that succeeds on a reserved row has done.
commit-paid :
    (env : Env) (id : String) (s : Store) (r : OtcFundsReservation) (b x : Account)
    {q : OtcFundsReservation} {t : Store}
    → find_reservation_row (trim_space id) s.reservations ≡ some r
    → r.status ≡ reserved
    → find_account_row r.buyer_account_number s.accounts ≡ some b
    → find_account_row r.seller_account_number s.accounts ≡ some x
    → commit env id s ≡ (ok q, t)
    → t ≡ record s {
      accounts =
          update_balance
            (credit x r.destination_amount)
            (update_balance (debit_balance b r.source_amount) s.accounts);
      reservations = save_reservation_row (record r { status = committed }) s.reservations;
    }
unfolding commit transition commit_row within_transaction
commit-paid env id s r b x found st fb fx h = ground arith

-- In a sound ledger a payment between two different accounts can be refunded at once, and the refund
-- leaves the seller's account as it was before the commit, and the buyer's as a release would have.
pub commit-refund :
    (env again : Env) (id : String) (s : Store) (r : OtcFundsReservation) (b x : Account)
    {q : OtcFundsReservation} {t : Store}
    → Answers again
    → IsSound s
    → find_reservation_row (trim_space id) s.reservations ≡ some r
    → r.status ≡ reserved
    → r.buyer_account_number ≢ r.seller_account_number
    → find_account_row r.buyer_account_number s.accounts ≡ some b
    → find_account_row r.seller_account_number s.accounts ≡ some x
    → commit env id s ≡ (ok q, t)
    → let (result, u) = refund again id t in
      (result ≡ ok (record r { status = refunded }))
      × (find_account_row r.buyer_account_number u.accounts
          ≡ some (credit_available b r.source_amount))
      × (find_account_row r.seller_account_number u.accounts ≡ some x)
unfolding commit refund
commit-refund env again id s r b x {q} {t} up v found st ne fb fx h =
    let nb = find_account_row-number r.buyer_account_number s.accounts fb in
    let nx = find_account_row-number r.seller_account_number s.accounts fx in
    let b₁ = debit_balance b r.source_amount in
    let x₁ = credit x r.destination_amount in
    let done : OtcFundsReservation = record r { status = committed } in
    let paid : Store = record s {
      accounts = update_balance x₁ (update_balance b₁ s.accounts);
      reservations = save_reservation_row done s.reservations;
    } in
    let t_paid = commit-paid env id s r b x found st fb fx h in
    let (eb, ex) =
      find-credit_debit r.buyer_account_number r.seller_account_number b₁ x₁ b x s.accounts ne nb nx
        fb fx in
    let low = v.covers r.seller_account_number x fx in
    let room = held_nonneg r.seller_account_number s v in
    let again_run =
      transition-run again up id (refund_row again) paid _ done _
        (transition-named env id (commit_row env) s h)
        (find_saved id s r done s.reservations found refl)
        (refund_row-run again up done paid b₁ x₁ refl eb ex (omega (int_laws, low, room))
          (omega (int_laws, low))) in
    let (ex', eb') =
      find-credit_debit r.seller_account_number r.buyer_account_number
        (debit x₁ r.destination_amount) (credit b₁ r.source_amount) x₁ b₁ paid.accounts
        (λ e. ne (sym e)) nx nb ex eb in
    rw (t_paid)
      (rw again_run, rw again_run (rw (eb', -ℤ-+ℤ)), rw again_run (rw (ex', +ℤ--ℤ, +ℤ--ℤ)))
