-- ===== src/Interbank/Records.antt =====
-- message_processor.go: the record of a transaction, which is the anchor of a recovery, and the calls
-- that are made under it.
use raf_8_banka_4_backend.Shared.{
  ℕ, ◌≡◌, sym, ap, subst, ◌∙◌, ◌⊎◌, inl, inr, Bool, Option, none, some, [], ◌∷◌, ok, err, arith,
  Option-cases, Result-cases, find-append_new, find-save, find-key,
}
use raf_8_banka_4_backend.Interbank.Model.{
  ForeignBankId, Transaction, TransactionVote, vote_no, PreparedTransaction,
  PreparedTransactionStatus,
}
use raf_8_banka_4_backend.Interbank.Node.{
  Node, Env, atomically, commit_intent, find_prepared_row, save_prepared_row,
  ForeignBankId_discrete,
}
use raf_8_banka_4_backend.Interbank.Assets.{balance_failure}
use raf_8_banka_4_backend.Interbank.Prepare.{
  reserve_postings, persist_intent, set_status, conclude, vote_on, prepare_local_transaction,
}
use raf_8_banka_4_backend.Interbank.Reservations.{reserve_postings-prepared, persist_intent-log}

-- The record of a transaction is in the table, with the transaction as its body.
unfoldable pub IsRecorded : ForeignBankId → Transaction → Node → Type 0
IsRecorded i tx s =
    (row : PreparedTransaction) × (find_prepared_row i s.prepared ≡ some row)
    × (row.request_body ≡ tx)

-- The transaction that a preparation is recorded with: that of an earlier record under its id, if
-- there is one, and the transaction itself if there is none.
abbrev pub recorded_body : Option PreparedTransaction → Transaction → Transaction
recorded_body none tx = tx
recorded_body (some row) tx = row.request_body

pub persist_intent-IsRecorded :
    (env : Env) (f : Bool) (tx : Transaction) (s : Node) {row : PreparedTransaction}
    → (atomically f (persist_intent env tx) s).0 ≡ ok row
    → find_prepared_row tx.transaction_id (atomically f (persist_intent env tx) s).1.prepared
      ≡ some row
unfolding atomically persist_intent find_prepared_row
persist_intent-IsRecorded env f tx s {row} h =
    let fresh : PreparedTransaction = record {
      key = tx.transaction_id;
      status = PreparedTransactionStatus.preparing;
      request_body = tx;
    } in
    ground (
      arith,
      find-append_new ForeignBankId_discrete (λ (r : PreparedTransaction). r.key) s.prepared fresh,
    )

-- What the first phase returns has the body of the record there was, or the transaction.
persist_intent-body :
    (env : Env) (f : Bool) (tx : Transaction) (s : Node) {row : PreparedTransaction}
    → (atomically f (persist_intent env tx) s).0 ≡ ok row
    → row.request_body ≡ recorded_body (find_prepared_row tx.transaction_id s.prepared) tx
unfolding atomically persist_intent
persist_intent-body env f tx s {row} h =
    elim (Option-cases (find_prepared_row tx.transaction_id s.prepared)) [
      | inl e ↦ ground arith
      | inr (old, e) ↦ ground arith
    ]

set_status-IsRecorded :
    (env : Env) (f : Bool) (row : PreparedTransaction) (status : PreparedTransactionStatus)
    (s : Node) {i : ForeignBankId} {tx : Transaction}
    → row.key ≡ i
    → row.request_body ≡ tx
    → IsRecorded i tx s
    → IsRecorded i tx (atomically f (set_status env row status) s).1
unfolding atomically set_status find_prepared_row save_prepared_row IsRecorded
set_status-IsRecorded env f row status s {i} {tx} key body (old, found, same) =
    let t = (atomically f (set_status env row status) s).1 in
    let marked : PreparedTransaction = record row { status = status } in
    let kept : (find_prepared_row i t.prepared ≡ some old)
        ⊎ (find_prepared_row i t.prepared ≡ some marked) =
      ground (
        arith,
        find-save ForeignBankId_discrete (λ (r : PreparedTransaction). r.key) i marked s.prepared,
      ) in
    elim kept [ inl e ↦ (old, e, same) | inr e ↦ (marked, e, body) ]

conclude-IsRecorded :
    (env : Env) (row : PreparedTransaction) (o : Option TransactionVote × Node) {i : ForeignBankId}
    {tx : Transaction}
    → row.key ≡ i
    → row.request_body ≡ tx
    → IsRecorded i tx o.1
    → IsRecorded i tx (conclude env row o).1
unfolding conclude
conclude-IsRecorded env row (some v, t) key body h = set_status-IsRecorded env _ row _ t key body h
conclude-IsRecorded env row (none, t) key body h = set_status-IsRecorded env _ row _ t key body h

vote_on-IsRecorded :
    (env : Env) (tx : Transaction) (b : ℕ) (row : PreparedTransaction)
    (status : PreparedTransactionStatus) (s : Node) {i : ForeignBankId} {kept : Transaction}
    → row.key ≡ i
    → row.request_body ≡ kept
    → IsRecorded i kept s
    → IsRecorded i kept (vote_on env tx b row status s).1
unfolding vote_on IsRecorded
vote_on-IsRecorded env tx b row PreparedTransactionStatus.committed s key body h = h
vote_on-IsRecorded env tx b row PreparedTransactionStatus.prepared s key body h = h
vote_on-IsRecorded env tx b row PreparedTransactionStatus.rolled_back s key body h = h
vote_on-IsRecorded env tx b row PreparedTransactionStatus.preparing s {i} key body (old, h, same) =
    conclude-IsRecorded env row (reserve_postings env tx b 0 tx.postings [] s) key body (
      old,
      ap (find_prepared_row i) (reserve_postings-prepared env tx b 0 tx.postings [] s) ∙ h,
      same,
    )

-- Whatever fails, a remote call is made for a transaction only if a record of it is in the table
-- afterwards, with the body that a commit or a rollback reads the postings from: that of the record
-- there was before, if there was one under the id, and else this very transaction.
pub prepare_local_transaction-IsRecorded :
    (env : Env) (tx : Transaction) (banking_tx_id : ℕ) (s : Node)
    → let t = (prepare_local_transaction env tx banking_tx_id s).1 in
      (t.log ≡ s.log)
      ⊎ IsRecorded tx.transaction_id
          (recorded_body (find_prepared_row tx.transaction_id s.prepared) tx)
          t
unfolding prepare_local_transaction IsRecorded find_prepared_row
prepare_local_transaction-IsRecorded env tx b s =
    let here = prepare_local_transaction env tx b s in
    let intent = atomically (env.fails commit_intent) (persist_intent env tx) s in
    let body = recorded_body (find_prepared_row tx.transaction_id s.prepared) tx in
    elim (Option-cases (balance_failure tx)) [
      | inr (reason, f) ↦
          let refused : here ≡ (ok (vote_no (reason ∷ [])), s) = cc in
          inl (ap (λ o. o.1.log) refused)
      | inl f ↦ elim (Result-cases intent.0) [
        | inr (x, e) ↦
            let failed : here ≡ (err x, intent.1) = cc in
            inl (ap (λ o. o.1.log) failed ∙ persist_intent-log env _ tx s)
        | inl (row, e) ↦
            let voted : here ≡ vote_on env tx b row row.status intent.1 = cc in
            let found = persist_intent-IsRecorded env _ tx s e in
            let kept = persist_intent-body env _ tx s e in
            let key =
              find-key ForeignBankId_discrete (λ (r : PreparedTransaction). r.key) tx.transaction_id
                intent.1.prepared found in
            inr (
              subst (λ o. IsRecorded tx.transaction_id body o.1) (sym voted)
                (vote_on-IsRecorded env tx b row row.status intent.1 key kept (row, found, kept)))
      ]
    ]
