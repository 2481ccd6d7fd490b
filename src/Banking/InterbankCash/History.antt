-- ===== src/Banking/InterbankCash/History.antt =====
-- interbank_cash_service.go: a commit that cannot succeed, repeated calls, and undoing.
use raf_8_banka_4_backend.Shared.{
  ℕ, ◌==◌, false, none, some, List, ◌∷◌, [], ◌++◌, ◌≡◌, refl, ap, ◌∙◌, subst, inl, inr, String,
  String_discrete, text_eq, trim_space, ℤ, pos, neg, ltb_ℤ, Action, ok, err, AppError, arith,
  within_transaction, Result-cases, Bool-cases, if◌then◌else◌, if_pos, if_neg, save-found,
  find-append_new, -ℤ-+ℤ, find-save,
}
use raf_8_banka_4_backend.Banking.Model.{
  CurrencyCode, Account, InterbankCashPostingStatus-discrete, committed, InterbankCashPosting,
  prepared, rolled_back,
}
use raf_8_banka_4_backend.Banking.Store.{
  Store, Env, Statement, find_account_row, find_posting_row, save_posting_row, update_balance,
  balance_columns, find-update_balance, find_transaction_row,
}
use raf_8_banka_4_backend.Banking.Funds.{
  credit_available, debit_available, IsKeyed, find_posting_row_self, find_posting_row-id,
}
use raf_8_banka_4_backend.Banking.InterbankCash.{
  PostingMetadata, get_by_id, record_payment_history, prepare, commit_row, rollback_row, transition,
  commit, rollback,
}
use raf_8_banka_4_backend.Banking.InterbankCash.Success.{
  posting_row, held_accounts, settled_account, freed_accounts, resolve_account-found,
  prepare_new-ok, prepare-ok, commit_row-idle, commit_row-ok, transition-ok, transition-err,
}

-- Over the repository of the program, whose lookup has no nil row, a prepared posting that names a
-- banking transaction which is not in the table can never be committed: whatever the account and the
-- database do, the call fails and changes nothing. A test of the service expects such a commit to
-- succeed and to write the history, and finds this over a repository that returns a nil row.
pub commit_missing_transaction :
    (env : Env) (id : String) (s : Store) (p : InterbankCashPosting)
    → find_posting_row (trim_space id) s.postings ≡ some p
    → p.status ≡ prepared
    → (p.banking_tx_id == 0) ≡ false
    → find_transaction_row p.banking_tx_id s.transactions ≡ none
    → (e : AppError) × (commit env id s ≡ (err e, s))
unfolding commit transition commit_row record_payment_history get_by_id within_transaction
commit_missing_transaction env id s p found st named missing =
    elim (Result-cases (commit env id s).0) [
      | inl (q, good) ↦ absurd (ground arith)
      | inr (e, bad) ↦ (e, λ i. (bad i, transition-err env id (commit_row env) s bad i))
    ]

-- The database carries out every statement.
abbrev pub Answers : Env → Type 0
Answers env = (st : Statement) → env.fails st ≡ false

transition-run :
    (env : Env) (id : String)
    (change : InterbankCashPosting → Account → Action Store InterbankCashPosting) (s u : Store)
    (p q : InterbankCashPosting) (a : Account)
    → Answers env
    → text_eq (trim_space id) "" ≡ false
    → find_posting_row (trim_space id) s.postings ≡ some p
    → find_account_row p.account_number s.accounts ≡ some a
    → change p a s ≡ (ok q, u)
    → transition env id change s ≡ (ok q, record u { postings = save_posting_row q u.postings })
unfolding transition within_transaction
transition-run env id change s u p q a up named found account run = ground (
  arith,
  up Statement.find_posting,
  up Statement.find_account,
  up Statement.save_posting,
  up Statement.commit_transaction,
)

transition-named :
    (env : Env) (id : String)
    (change : InterbankCashPosting → Account → Action Store InterbankCashPosting) (s : Store)
    {q : InterbankCashPosting} {t : Store}
    → transition env id change s ≡ (ok q, t)
    → text_eq (trim_space id) "" ≡ false
unfolding transition
transition-named env id change s h = ground arith

prepare-named :
    (env : Env) (id number : String) (client : ℕ) (c : CurrencyCode) (amount : ℤ) (user : String)
    (meta : PostingMetadata) (s : Store) {q : InterbankCashPosting} {t : Store}
    → prepare env id number client c amount user meta s ≡ (ok q, t)
    → text_eq (trim_space id) "" ≡ false
unfolding prepare
prepare-named env id number client c amount user meta s h = ground arith

commit_row-settled :
    (env : Env) (q : InterbankCashPosting) (a : Account) (t : Store)
    → q.status ≡ committed
    → commit_row env q a t ≡ (ok q, t)
unfolding commit_row
commit_row-settled env q a t e = ground arith

rollback_row-run :
    (env : Env) (p : InterbankCashPosting) (a : Account) (s : Store)
    → Answers env
    → p.status ≡ prepared
    → rollback_row env p a s ≡ (
      ok (record p { status = rolled_back }),
      record s { accounts = freed_accounts a p.amount s.accounts },
    )
unfolding rollback_row
rollback_row-run env p a s up st = ground (arith, up Statement.update_account)

find_created :
    (q : InterbankCashPosting) (rows : List InterbankCashPosting)
    → find_posting_row q.posting_id rows ≡ none
    → find_posting_row q.posting_id (rows ++ q ∷ []) ≡ some q
unfolding find_posting_row
find_created q rows new = find-append_new String_discrete (λ v. v.posting_id) rows q new

-- The account as it is after a hold.
abbrev held_account : Account → ℤ → Account
held_account a x = if ltb_ℤ x (pos 0) then debit_available a (neg x) else a

find-held_accounts :
    (a : Account) (x : ℤ) (t : List Account)
    → find_account_row a.account_number t ≡ some a
    → find_account_row a.account_number (held_accounts a x t) ≡ some (held_account a x)
find-held_accounts a x t found = elim (Bool-cases (ltb_ℤ x (pos 0))) [
  | inr e ↦ rw e found
  | inl e ↦ rw e (
      find-update_balance a.account_number (debit_available a (neg x)) t
      ∙ if_pos (String_discrete a.account_number a.account_number) refl _ _
      ∙ rw found)
]

-- What a hold takes, a release gives back, on every row.
free-held :
    (a : Account) (x : ℤ) (t : List Account)
    → find_account_row a.account_number t ≡ some a
    → (k : String)
    → find_account_row k (freed_accounts (held_account a x) x (held_accounts a x t))
      ≡ find_account_row k t
free-held a x t found k = elim (Bool-cases (ltb_ℤ x (pos 0))) [
  | inr e ↦ rw e
  | inl e ↦
      let y = debit_available a (neg x) in
      let all = find-update_balance k (credit_available y (neg x)) (update_balance y t) in
      let once = find-update_balance k y t in
      rw e (elim (String_discrete a.account_number k) [
        | no n ↦
            all
            ∙ if_neg (String_discrete a.account_number k) n _ _
            ∙ once
            ∙ if_neg (String_discrete a.account_number k) n _ _
        | yes p ↦
            let here : find_account_row k t ≡ some a =
              subst (λ z. find_account_row z t ≡ some a) p found in
            let middle = once ∙ if_pos (String_discrete a.account_number k) p _ _ in
            all ∙ if_pos (String_discrete a.account_number k) p _ _ ∙ rw (middle, here, -ℤ-+ℤ)
      ])
]

-- A fresh posting that is rolled back leaves every account as it was before it was prepared, if no two
-- accounts have the same number and the database carries out every statement of the rollback.
pub prepare-rollback :
    (env again : Env) (id number : String) (client : ℕ) (c : CurrencyCode) (amount : ℤ)
    (user : String) (meta : PostingMetadata) (s : Store) {q : InterbankCashPosting} {t : Store}
    → Answers again
    → IsKeyed s.accounts
    → find_posting_row (trim_space id) s.postings ≡ none
    → prepare env id number client c amount user meta s ≡ (ok q, t)
    → let (result, u) = rollback again id t in
      (result ≡ ok (record q { status = rolled_back }))
      × ((k : String) → find_account_row k u.accounts ≡ find_account_row k s.accounts)
unfolding rollback
prepare-rollback env again id number client c amount user meta s {q} {t} up v new h =
    let named = prepare-named env id number client c amount user meta s h in
    elim (prepare-ok env id number client c amount user meta s h) [
      | inl (e, found, run) ↦ absurd (cc)
      | inr (new, run) ↦
          let (a, x, account, converted, enough, ep, et) =
            prepare_new-ok env (trim_space id) (trim_space number) client c amount user meta s
              run in
          let self = resolve_account-found env (trim_space number) client c user s v account in
          let row = posting_row (trim_space id) a x c amount meta in
          let mid : Store = record s {
            accounts = held_accounts a x s.accounts;
            postings = s.postings ++ row ∷ [];
          } in
          let done =
            transition-run again id (rollback_row again) mid _ row _ (held_account a x) up named
              (find_created row s.postings new) (find-held_accounts a x s.accounts self)
              (rollback_row-run again row (held_account a x) mid up refl) in
          rw (et, ep) (rw done, λ k. rw done (free-held a x s.accounts self k))
    ]

-- A repeated call whose closure finds nothing to do.
transition-retry :
    (env : Env) (id : String)
    (change : InterbankCashPosting → Account → Action Store InterbankCashPosting) (t : Store)
    (q : InterbankCashPosting) (a : Account)
    → Answers env
    → text_eq (trim_space id) "" ≡ false
    → find_posting_row (trim_space id) t.postings ≡ some q
    → find_account_row q.account_number t.accounts ≡ some a
    → change q a t ≡ (ok q, t)
    → transition env id change t ≡ (ok q, t)
unfolding find_posting_row save_posting_row
transition-retry env id change t q a up named found account run =
    transition-run env id change t t q q a up named found account run
    ∙ ap (λ (rows : List InterbankCashPosting). (ok q, record t { postings = rows }))
        (save-found String_discrete (λ v. v.posting_id) q t.postings
          (find_posting_row_self (trim_space id) t.postings q found))

find_saved :
    (id : String) (s : Store) (p q : InterbankCashPosting) (rows : List InterbankCashPosting)
    → find_posting_row (trim_space id) s.postings ≡ some p
    → q.posting_id ≡ p.posting_id
    → find_posting_row (trim_space id) (save_posting_row q rows) ≡ some q
unfolding find_posting_row save_posting_row
find_saved id s p q rows found terms =
    let same = terms ∙ find_posting_row-id (trim_space id) s.postings found in
    find-save String_discrete (λ v. v.posting_id) (trim_space id) q rows
    ∙ if_pos (String_discrete q.posting_id (trim_space id)) same _ _

still_there :
    (k : String) (y : Account) (t : List Account) {a : Account}
    → find_account_row k t ≡ some a
    → (b : Account) × (find_account_row k (update_balance y t) ≡ some b)
still_there k y t {a} e = elim (String_discrete y.account_number k) [
  | yes p ↦ (
    balance_columns y a,
    find-update_balance k y t ∙ if_pos (String_discrete y.account_number k) p _ _ ∙ rw e,
  )
  | no n ↦ (a, find-update_balance k y t ∙ if_neg (String_discrete y.account_number k) n _ _ ∙ e)
]

-- A commit that has succeeded may be repeated: the same row is returned and nothing changes, so the
-- money is booked and the history written once.
pub commit_repeat :
    (env again : Env) (id : String) (s : Store) {q : InterbankCashPosting} {t : Store}
    → Answers again
    → commit env id s ≡ (ok q, t)
    → commit again id t ≡ (ok q, t)
unfolding commit
commit_repeat env again id s {q} {t} up h =
    let (p, a, u, found, account, run, result) = transition-ok env id (commit_row env) s h in
    let named = transition-named env id (commit_row env) s h in
    elim (InterbankCashPostingStatus-discrete p.status prepared) [
      | no other ↦
          let (st, same, kept) = commit_row-idle env p a s other run in
          transition-retry again id (commit_row again) t q a up named
            (rw result (
              find_saved id s p q u.postings found
                (ap (λ (z : InterbankCashPosting). z.posting_id) same)))
            (rw (result, kept, same) account)
            (commit_row-settled again q a t (ap (λ (z : InterbankCashPosting). z.status) same ∙ st))
      | yes st ↦
          let (same, ea, er, ep) = commit_row-ok env p a s st run in
          let (b, there) =
            still_there p.account_number (settled_account a p.amount) s.accounts account in
          transition-retry again id (commit_row again) t q b up named
            (rw result (
              find_saved id s p q u.postings found
                (ap (λ (z : InterbankCashPosting). z.posting_id) same)))
            (rw (result, ea, same) there)
            (commit_row-settled again q b t (ap (λ (z : InterbankCashPosting). z.status) same))
    ]
