-- ===== src/Banking/InterbankCash/Success.antt =====
-- What a call of interbank_cash_service.go has done when it succeeds, and that a failed one has done
-- nothing.
mod Accounts
unfoldable pub use Accounts.*
use raf_8_banka_4_backend.Shared.{
  ℕ, ◌==◌, Bool, true, false, not, Option, none, some, List, ◌∷◌, [], ◌++◌, ◌≡◌, subst, ◌≢◌, ◌⊎◌,
  inl, inr, String, text_eq, trim_space, ℤ, pos, neg, ◌≤ℤ◌, ltb_ℤ, Action, ok, err, AppError, arith,
  within_transaction, Option-cases, Result-cases, Bool-cases, if◌then◌else◌, All,
}
use raf_8_banka_4_backend.Banking.Model.{
  CurrencyCode, Account, committed, InterbankCashPosting, prepared, rolled_back,
}
use raf_8_banka_4_backend.Banking.Store.{
  Store, Env, find_account_row, find_posting_row, save_posting_row, update_balance,
  find_by_client_id,
}
use raf_8_banka_4_backend.Banking.Funds.{
  credit_available, debit_available, debit_balance, credit, IsKeyed, IsKeyed-found,
  find_account_row_self,
}
use raf_8_banka_4_backend.Banking.InterbankCash.{
  PostingMetadata, or_keep, pick_account, bank_accounts, resolve_bank_account, resolve_account,
  hold, prepare_again, prepare_new, prepare, write_history, get_by_id, record_payment_history,
  commit_row, rollback_row, transition,
}

-- The row that `Prepare` writes.
abbrev pub posting_row :
    String → Account → ℤ → CurrencyCode → ℤ → PostingMetadata → InterbankCashPosting
posting_row id a resolved c amount meta = record {
  posting_id = id;
  account_number = a.account_number;
  currency_code = a.currency;
  amount = resolved;
  requested_currency_code = c;
  requested_amount = amount;
  status = prepared;
  banking_tx_id = meta.banking_tx_id;
  counterparty_account_number = meta.counterparty_account_number;
  payment_code = meta.payment_code;
  purpose = meta.purpose;
}

-- The accounts after an amount has been taken out of the available balance, if it is negative.
abbrev pub held_accounts : Account → ℤ → List Account → List Account
held_accounts a amount t =
    if ltb_ℤ amount (pos 0) then update_balance (debit_available a (neg amount)) t else t

pub hold-ok :
    (env : Env) (a : Account) (amount : ℤ) (s t : Store) {w : Unit {0}}
    → hold env a amount s ≡ (ok w, t)
    → (ltb_ℤ amount (pos 0) ≡ true → neg amount ≤ℤ a.available_balance)
      × (t ≡ record s { accounts = held_accounts a amount s.accounts })
unfolding hold
hold-ok env a amount s t h = (λ e. ground arith, ground arith)

-- Reading the account changes nothing.
pub prepare_new-ok :
    (env : Env) (id number : String) (client : ℕ) (c : CurrencyCode) (amount : ℤ) (user : String)
    (meta : PostingMetadata) (s : Store) {p : InterbankCashPosting} {t : Store}
    → prepare_new env id number client c amount user meta s ≡ (ok p, t)
    → (a : Account) × (resolved : ℤ) × ((resolve_account env number client c user s).0 ≡ ok a)
      × ((if text_eq a.currency c then ok amount else env.convert amount c a.currency)
          ≡ ok resolved)
      × (ltb_ℤ resolved (pos 0) ≡ true → neg resolved ≤ℤ a.available_balance)
      × (p ≡ posting_row id a resolved c amount meta)
      × (t ≡ record s {
        accounts = held_accounts a resolved s.accounts;
        postings = s.postings ++ p ∷ [];
      })
unfolding prepare_new
prepare_new-ok env id number client c amount user meta s {p} {t} h =
    let reads = resolve_account-reads env number client c user s in
    elim (Result-cases (resolve_account env number client c user s).0) [
      | inr (e, bad) ↦ absurd (ground arith)
      | inl (a, found) ↦
          elim (Result-cases
            (if text_eq a.currency c then ok amount else env.convert amount c a.currency)) [
              | inr (e, bad) ↦ absurd (ground arith)
              | inl (resolved, converted) ↦ elim (Result-cases (hold env a resolved s).0) [
                | inr (e, bad) ↦ absurd (ground arith)
                | inl (w, held) ↦
                    let (enough, after) =
                      hold-ok env a resolved s (hold env a resolved s).1
                        (λ i. (held i, (hold env a resolved s).1)) in
                    (a, resolved, found, converted, enough, ground arith, ground arith)
              ]
            ]
    ]

module _ (env : Env) (e : InterbankCashPosting) (c : CurrencyCode) (amount : ℤ) (s : Store)
    {p : InterbankCashPosting} {t : Store} where
  -- A posting that is not rolled back is returned as it is.
  pub prepare_again-idle :
      e.status ≢ rolled_back → prepare_again env e c amount s ≡ (ok p, t) → (p ≡ e) × (t ≡ s)
  unfolding prepare_again
  prepare_again-idle n h = ground arith

  -- A posting that was rolled back is prepared again, with the amount that it was given at first.
  pub prepare_again-ok :
      e.status ≡ rolled_back
      → prepare_again env e c amount s ≡ (ok p, t)
      → (a : Account) × (find_account_row e.account_number s.accounts ≡ some a)
        × (ltb_ℤ e.amount (pos 0) ≡ true → neg e.amount ≤ℤ a.available_balance)
        × (p ≡ record e { status = prepared })
        × (t ≡ record s {
          accounts = held_accounts a e.amount s.accounts;
          postings = save_posting_row p s.postings;
        })
  unfolding prepare_again
  prepare_again-ok st h = elim (Option-cases (find_account_row e.account_number s.accounts)) [
    | inl missing ↦ absurd (ground arith)
    | inr (a, found) ↦ elim (Result-cases (hold env a e.amount s).0) [
      | inr (x, bad) ↦ absurd (ground arith)
      | inl (w, held) ↦
          let (enough, after) =
            hold-ok env a e.amount s (hold env a e.amount s).1
              (λ i. (held i, (hold env a e.amount s).1)) in
          (a, found, enough, ground arith, ground arith)
    ]
  ]

pub prepare-ok :
    (env : Env) (id number : String) (client : ℕ) (c : CurrencyCode) (amount : ℤ) (user : String)
    (meta : PostingMetadata) (s : Store) {p : InterbankCashPosting} {t : Store}
    → prepare env id number client c amount user meta s ≡ (ok p, t)
    → ((e : InterbankCashPosting) × (find_posting_row (trim_space id) s.postings ≡ some e)
        × (prepare_again env e c amount s ≡ (ok p, t)))
      ⊎ ((find_posting_row (trim_space id) s.postings ≡ none)
          × (prepare_new env (trim_space id) (trim_space number) client c amount user meta s
              ≡ (ok p, t)))
unfolding prepare within_transaction
prepare-ok env id number client c amount user meta s h =
    elim (Option-cases (find_posting_row (trim_space id) s.postings)) [
      | inl e ↦ inr (e, ground arith)
      | inr (p, e) ↦ inl (p, e, ground arith)
    ]

-- The payment history is written beside the ledger.
pub record_payment_history-keeps :
    (env : Env) (p : InterbankCashPosting) (s t : Store) {w : Unit {0}}
    → record_payment_history env p s ≡ (ok w, t)
    → (t.accounts ≡ s.accounts) × (t.reservations ≡ s.reservations) × (t.postings ≡ s.postings)
unfolding record_payment_history get_by_id write_history
record_payment_history-keeps env p s t h = (ground arith, ground arith, ground arith)

-- The account after the leg has been settled.
abbrev pub settled_account : Account → ℤ → Account
settled_account a x = if ltb_ℤ x (pos 0) then debit_balance a (neg x) else credit a x

abbrev pub freed_accounts : Account → ℤ → List Account → List Account
freed_accounts a x t = if ltb_ℤ x (pos 0) then update_balance (credit_available a (neg x)) t else t

module _ (env : Env) (p : InterbankCashPosting) (a : Account) (s : Store) {q : InterbankCashPosting}
    {t : Store} where
  pub commit_row-idle :
      p.status ≢ prepared
      → commit_row env p a s ≡ (ok q, t)
      → (p.status ≡ committed) × (q ≡ p) × (t ≡ s)
  unfolding commit_row
  commit_row-idle n h = ground arith

  pub commit_row-ok :
      p.status ≡ prepared
      → commit_row env p a s ≡ (ok q, t)
      → (q ≡ record p { status = committed })
        × (t.accounts ≡ update_balance (settled_account a p.amount) s.accounts)
        × (t.reservations ≡ s.reservations)
        × (t.postings ≡ s.postings)
  unfolding commit_row
  commit_row-ok st h =
      let u : Store = record s {
        accounts = update_balance (settled_account a p.amount) s.accounts;
      } in
      let done : InterbankCashPosting = record p { status = committed } in
      elim (Result-cases (record_payment_history env done u).0) [
        | inr (e, bad) ↦ absurd (ground arith)
        | inl (w, good) ↦
            let (e1, e2, e3) =
              record_payment_history-keeps env done u (record_payment_history env done u).1
                (λ i. (good i, (record_payment_history env done u).1)) in
            (ground arith, ground arith, ground arith, ground arith)
      ]

  pub rollback_row-idle :
      p.status ≢ prepared
      → rollback_row env p a s ≡ (ok q, t)
      → (p.status ≡ rolled_back) × (q ≡ p) × (t ≡ s)
  unfolding rollback_row
  rollback_row-idle n h = ground arith

  pub rollback_row-ok :
      p.status ≡ prepared
      → rollback_row env p a s ≡ (ok q, t)
      → (q ≡ record p { status = rolled_back })
        × (t ≡ record s { accounts = freed_accounts a p.amount s.accounts })
  unfolding rollback_row
  rollback_row-ok st h = (ground arith, ground arith)

pub transition-ok :
    (env : Env) (id : String)
    (change : InterbankCashPosting → Account → Action Store InterbankCashPosting) (s : Store)
    {q : InterbankCashPosting} {t : Store}
    → transition env id change s ≡ (ok q, t)
    → (p : InterbankCashPosting) × (a : Account) × (u : Store) × (find_posting_row
          (trim_space id)
          s.postings
        ≡ some p)
      × (find_account_row p.account_number s.accounts ≡ some a)
      × (change p a s ≡ (ok q, u))
      × (t ≡ record u { postings = save_posting_row q u.postings })
unfolding transition within_transaction
transition-ok env id change s h =
    elim (Option-cases (find_posting_row (trim_space id) s.postings)) [
      | inl missing ↦ absurd (ground arith)
      | inr (p, found) ↦ elim (Option-cases (find_account_row p.account_number s.accounts)) [
        | inl missing ↦ absurd (ground arith)
        | inr (a, account) ↦ elim (Result-cases (change p a s).0) [
          | inr (e, bad) ↦ absurd (ground arith)
          | inl (q, good) ↦ (p, a, (change p a s).1, found, account, ground arith, ground arith)
        ]
      ]
    ]

-- A call that fails leaves the store as it was.
pub transition-err :
    (env : Env) (id : String)
    (change : InterbankCashPosting → Account → Action Store InterbankCashPosting) (s : Store)
    {e : AppError}
    → (transition env id change s).0 ≡ err e
    → (transition env id change s).1 ≡ s
unfolding transition within_transaction
transition-err env id change s h = ground arith

pub prepare-err :
    (env : Env) (id number : String) (client : ℕ) (c : CurrencyCode) (amount : ℤ) (user : String)
    (meta : PostingMetadata) (s : Store) {e : AppError}
    → (prepare env id number client c amount user meta s).0 ≡ err e
    → (prepare env id number client c amount user meta s).1 ≡ s
unfolding prepare within_transaction
prepare-err env id number client c amount user meta s h = ground arith
