-- ===== src/Interbank/Votes.antt =====
-- message_processor.go: what a YES vote promises.
use raf_8_banka_4_backend.Shared.{
  ℕ, suc, ◌≡◌, ◌≢◌, refl, sym, ap, subst, ◌∙◌, ◌⊎◌, inl, inr, Option, none, some, List, [], ◌∷◌, ok,
  arith, Option-cases, Result-cases, find-key,
}
use raf_8_banka_4_backend.Interbank.Model.{
  ForeignBankId, Posting, Transaction, TransactionVote, vote_yes, PreparedTransaction,
  PreparedTransactionStatus,
}
use raf_8_banka_4_backend.Interbank.Node.{
  Node, Env, atomically, commit_intent, commit_mark, find_prepared_row, ForeignBankId_discrete,
}
use raf_8_banka_4_backend.Interbank.Assets.{balance_failure}
use raf_8_banka_4_backend.Interbank.Prepare.{
  PreparedItem, no_vote, reserve_postings, persist_intent, set_status, conclude, vote_on,
  prepare_local_transaction,
}
use raf_8_banka_4_backend.Interbank.Records.{persist_intent-IsRecorded}
use raf_8_banka_4_backend.Interbank.Repeats.{IsSettled, set_status-IsSettled, atomically_ok}

-- Phase 2 only ever says no.
reserve_postings_no_yes :
    (env : Env) (tx : Transaction) (b i : ℕ) (ps : List Posting) (effects : List PreparedItem)
    (s : Node)
    → (reserve_postings env tx b i ps effects s).0 ≢ some vote_yes
unfolding reserve_postings no_vote
reserve_postings_no_yes env tx b i [] effects s = λ e. cc
reserve_postings_no_yes env tx b i (p ∷ ps) effects s =
    λ e. grind (arith, reserve_postings_no_yes env tx b (suc i) ps)

-- The record is prepared, or it has even been committed.
abbrev pub IsPromised : ForeignBankId → Node → Type 0
IsPromised i s =
    IsSettled i PreparedTransactionStatus.prepared s
    ⊎ IsSettled i PreparedTransactionStatus.committed s

conclude-IsSettled :
    (env : Env) (row : PreparedTransaction) (i : ForeignBankId) (o : Option TransactionVote × Node)
    {t : Node}
    → o.0 ≢ some vote_yes
    → row.key ≡ i
    → conclude env row o ≡ (ok vote_yes, t)
    → IsSettled i PreparedTransactionStatus.prepared t
unfolding conclude
conclude-IsSettled env row i (some v, u) {t} no_yes key h = elim (no_yes (ground arith)) [ ]
conclude-IsSettled env row i (none, u) {t} no_yes key h =
    let m =
      atomically (env.fails commit_mark) (set_status env row PreparedTransactionStatus.prepared)
        u in
    elim (Result-cases m.0) [
      | inr (x, e) ↦ cc
      | inl (x, e) ↦
          let done : m ≡ (ok tt, t) = ground arith in
          let run =
            atomically_ok _ (set_status env row PreparedTransactionStatus.prepared) u done in
          subst (IsSettled i PreparedTransactionStatus.prepared) (ap (λ r. r.1) run) (
            set_status-IsSettled env row PreparedTransactionStatus.prepared i u key
              (ap (λ r. r.0) run))
    ]

vote_on-IsPromised :
    (env : Env) (tx : Transaction) (b : ℕ) (row : PreparedTransaction)
    (status : PreparedTransactionStatus) (i : ForeignBankId) (s : Node) {t : Node}
    → find_prepared_row i s.prepared ≡ some row
    → row.status ≡ status
    → row.key ≡ i
    → vote_on env tx b row status s ≡ (ok vote_yes, t)
    → IsPromised i t
unfolding vote_on IsSettled
vote_on-IsPromised env tx b row PreparedTransactionStatus.committed i s {t} found st key h =
    inr (row, ap (λ r. find_prepared_row i r.1.prepared) (sym h) ∙ found, st)
vote_on-IsPromised env tx b row PreparedTransactionStatus.prepared i s {t} found st key h =
    inl (row, ap (λ r. find_prepared_row i r.1.prepared) (sym h) ∙ found, st)
vote_on-IsPromised env tx b row PreparedTransactionStatus.rolled_back i s {t} found st key h =
    ground arith
vote_on-IsPromised env tx b row PreparedTransactionStatus.preparing i s {t} found st key h = inl (
    conclude-IsSettled env row i (reserve_postings env tx b 0 tx.postings [] s)
      (reserve_postings_no_yes env tx b 0 tx.postings [] s) key h)

find_prepared_row-key :
    (i : ForeignBankId) (t : List PreparedTransaction) {row : PreparedTransaction}
    → find_prepared_row i t ≡ some row
    → row.key ≡ i
unfolding find_prepared_row
find_prepared_row-key i t h =
    find-key ForeignBankId_discrete (λ (r : PreparedTransaction). r.key) i t h

-- A YES vote is backed by the table: when it is given, the record of the transaction is there and
-- prepared, or has been committed before, so that a COMMIT_TX that follows finds it.
pub prepare_local_transaction-IsPromised :
    (env : Env) (tx : Transaction) (banking_tx_id : ℕ) (s : Node) {t : Node}
    → prepare_local_transaction env tx banking_tx_id s ≡ (ok vote_yes, t)
    → IsPromised tx.transaction_id t
unfolding prepare_local_transaction
prepare_local_transaction-IsPromised env tx b s {t} h =
    let intent = atomically (env.fails commit_intent) (persist_intent env tx) s in
    elim (Option-cases (balance_failure tx)) [
      | inr (reason, f) ↦ ground arith
      | inl f ↦ elim (Result-cases intent.0) [
        | inr (x, e) ↦ ground arith
        | inl (row, e) ↦
            let found = persist_intent-IsRecorded env _ tx s e in
            let voted : vote_on env tx b row row.status intent.1 ≡ (ok vote_yes, t) =
              ground arith in
            vote_on-IsPromised env tx b row row.status tx.transaction_id intent.1 found refl
              (find_prepared_row-key tx.transaction_id intent.1.prepared found) voted
      ]
    ]
