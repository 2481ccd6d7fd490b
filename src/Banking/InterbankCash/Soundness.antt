-- ===== src/Banking/InterbankCash/Soundness.antt =====
-- Every call of interbank_cash_service.go keeps the ledger sound, whether it succeeds or fails.
mod Rows
unfoldable pub use Rows.*
use raf_8_banka_4_backend.Shared.{
  ℕ, true, some, List, ◌∷◌, [], ◌++◌, ◌≡◌, refl, sym, ◌∙◌, subst, ◌≢◌, inl, inr, String,
  String_discrete, trim_space, ℤ, pos, neg, ◌+ℤ◌, ◌≤ℤ◌, ltb_ℤ, int_laws, Action, ok, arith,
  Result-cases, Bool-cases, if◌then◌else◌, same_parts,
}
use raf_8_banka_4_backend.Banking.Model.{
  CurrencyCode, Account, InterbankCashPostingStatus-discrete, committed, InterbankCashPosting,
  prepared, rolled_back,
}
use raf_8_banka_4_backend.Banking.Store.{
  Store, Env, find_account_row, find_posting_row, save_posting_row, update_balance,
}
use raf_8_banka_4_backend.Banking.Funds.{
  credit_available, debit_available, debit_balance, credit, posting_hold, held_by_reservations,
  held_by_postings, held, Covers, IsSound, IsKeyed, update-IsKeyed, Covers-update, Covers-weaken,
  held_by_postings-save, held_by_postings-append, posting_hold_nonneg, find_account_row-number,
  find_account_row_self, find_posting_row_self,
}
use raf_8_banka_4_backend.Banking.InterbankCash.{
  PostingMetadata, prepare, commit_row, rollback_row, transition, commit, rollback,
}
use raf_8_banka_4_backend.Banking.InterbankCash.Success.{
  posting_row, held_accounts, settled_account, freed_accounts, resolve_account-found,
  prepare_new-ok, prepare_again-idle, prepare_again-ok, prepare-ok, prepare-err, commit_row-idle,
  commit_row-ok, rollback_row-idle, rollback_row-ok, transition-ok, transition-err,
}

transition-IsSound :
    (env : Env) (id : String)
    (change : InterbankCashPosting → Account → Action Store InterbankCashPosting) (s : Store)
    → IsSound s
    → ((p q : InterbankCashPosting) (a : Account) (u : Store)
        → find_posting_row p.posting_id s.postings ≡ some p
        → find_account_row p.account_number s.accounts ≡ some a
        → change p a s ≡ (ok q, u)
        → IsSound (record u { postings = save_posting_row q u.postings }))
    → IsSound (transition env id change s).1
transition-IsSound env id change s v keeps = elim (Result-cases (transition env id change s).0) [
  | inr (e, bad) ↦ rw (transition-err env id change s bad) v
  | inl (q, good) ↦
      let (p, a, u, found, account, run, result) =
        transition-ok env id change s (λ i. (good i, (transition env id change s).1)) in
      rw result
        (keeps p q a u (find_posting_row_self (trim_space id) s.postings p found) account run)
]

-- Rolling a posting back keeps the ledger sound, on success and on every error.
pub rollback-IsSound :
    (env : Env) (id : String) (s : Store) → IsSound s → IsSound (rollback env id s).1
unfolding rollback
rollback-IsSound env id s v = transition-IsSound env id (rollback_row env) s v keeps
  where
    keeps :
        (p q : InterbankCashPosting) (a : Account) (u : Store)
        → find_posting_row p.posting_id s.postings ≡ some p
        → find_account_row p.account_number s.accounts ≡ some a
        → rollback_row env p a s ≡ (ok q, u)
        → IsSound (record u { postings = save_posting_row q u.postings })
    keeps p q a u found account run = elim (InterbankCashPostingStatus-discrete p.status prepared) [
      | no other ↦
          let (st, same, kept) = rollback_row-idle env p a s other run in
          rw (kept, same) (resaved-IsSound p s v found)
      | yes st ↦
          let (eq, et) = rollback_row-ok env p a s st run in
          let self = find_account_row_self p.account_number s.accounts a account in
          let done : InterbankCashPosting = record p { status = rolled_back } in
          rw (et, eq)
            (freed-IsSound done p a s v found
              (sym (find_account_row-number p.account_number s.accounts account)) self st
              (λ k. refl) (freed_accounts a p.amount s.accounts)
              (Covers-freed (held s) _ a p.amount s.accounts v.covers self)
              (freed_accounts-IsKeyed a p.amount s.accounts v.keyed))
    ]

-- Committing a posting keeps the ledger sound, on success and on every error.
pub commit-IsSound : (env : Env) (id : String) (s : Store) → IsSound s → IsSound (commit env id s).1
unfolding commit
commit-IsSound env id s v = transition-IsSound env id (commit_row env) s v keeps
  where
    keeps :
        (p q : InterbankCashPosting) (a : Account) (u : Store)
        → find_posting_row p.posting_id s.postings ≡ some p
        → find_account_row p.account_number s.accounts ≡ some a
        → commit_row env p a s ≡ (ok q, u)
        → IsSound (record u { postings = save_posting_row q u.postings })
    keeps p q a u found account run = elim (InterbankCashPostingStatus-discrete p.status prepared) [
      | no other ↦
          let (st, same, kept) = commit_row-idle env p a s other run in
          rw (kept, same) (resaved-IsSound p s v found)
      | yes st ↦
          let (eq, ea, er, ep) = commit_row-ok env p a s st run in
          let self = find_account_row_self p.account_number s.accounts a account in
          let done : InterbankCashPosting = record p { status = committed } in
          let sound =
            freed-IsSound done p a s v found
              (sym (find_account_row-number p.account_number s.accounts account)) self st
              (λ k. refl) (update_balance (settled_account a p.amount) s.accounts)
              (Covers-settled (held s) _ a p.amount s.accounts v.covers self)
              (update-IsKeyed (settled_account a p.amount) s.accounts v.keyed) in
          record {
            covers = rw (er, ep, ea, eq) sound.covers;
            priced = rw er sound.priced;
            keyed = rw ea sound.keyed;
          }
    ]

-- Preparing a posting keeps the ledger sound: a new one, a repeated one, one that is prepared again
-- after a rollback, and every error.
pub prepare-IsSound :
    (env : Env) (id number : String) (client : ℕ) (c : CurrencyCode) (amount : ℤ) (user : String)
    (meta : PostingMetadata) (s : Store)
    → IsSound s
    → IsSound (prepare env id number client c amount user meta s).1
prepare-IsSound env id number client c amount user meta s v =
    elim (Result-cases (prepare env id number client c amount user meta s).0) [
      | inr (e, bad) ↦ rw (prepare-err env id number client c amount user meta s bad) v
      | inl (p, good) ↦
          let outcome =
            prepare-ok env id number client c amount user meta s
              (λ i. (good i, (prepare env id number client c amount user meta s).1)) in
          elim outcome [
            | inl (e, found, run) ↦
                elim (InterbankCashPostingStatus-discrete e.status rolled_back) [
                  | no other ↦
                      let (same, kept) = prepare_again-idle env e c amount s other run in rw kept v
                  | yes st ↦
                      let (a, account, enough, ep, et) = prepare_again-ok env e c amount s st run in
                      let again : InterbankCashPosting = record e { status = prepared } in
                      rw (et, ep)
                        (held-IsSound again e a s v
                          (find_posting_row_self (trim_space id) s.postings e found)
                          (sym (find_account_row-number e.account_number s.accounts account))
                          (find_account_row_self e.account_number s.accounts a account) st refl
                          enough)
                ]
            | inr (new, run) ↦
                let (a, x, account, converted, enough, ep, et) =
                  prepare_new-ok env (trim_space id) (trim_space number) client c amount user meta s
                    run in
                rw (et, ep)
                  (new-IsSound (trim_space id) a x c amount meta s v
                    (resolve_account-found env (trim_space number) client c user s v.keyed account)
                    enough)
          ]
    ]
