-- ===== src/Interbank/Lifecycle.antt =====
-- message_processor.go: the status of a record, over all messages that a node can receive.
mod Status
unfoldable pub use Status.*
use raf_8_banka_4_backend.Shared.{
  ℕ, suc, ◌≡◌, ◌≢◌, refl, sym, ap, subst, ◌∙◌, ◌⊎◌, inl, inr, ite, if_pos, if_neg, Bool, true,
  false, Option, none, some, List, [], ◌∷◌, Action, Result, ok, err, internal, arith, Bool-cases,
  Option-cases, Result-cases, find-save, find-key, find-append,
}
use raf_8_banka_4_backend.Interbank.Model.{
  ForeignBankId, Transaction, TransactionVote, PreparedTransaction, PreparedTransactionStatus,
  MessageType, commit_tx, rollback_tx,
}
use raf_8_banka_4_backend.Interbank.Node.{
  Node, Env, atomically, find_prepared_row, save_prepared_row, commit_intent, commit_mark,
  commit_work, update_prepared, find_prepared, find_inbound, find_inbound_row,
  ForeignBankId_discrete,
}
use raf_8_banka_4_backend.Interbank.Assets.{balance_failure}
use raf_8_banka_4_backend.Interbank.Prepare.{
  reserve_postings, persist_intent, set_status, conclude, vote_on, prepare_local_transaction,
}
use raf_8_banka_4_backend.Interbank.Settle.{
  commit_postings, commit_and_mark, commit_on, commit_body, rollback_postings, release_and_mark,
  rollback_on, rollback_body,
}
use raf_8_banka_4_backend.Interbank.Messages.{
  finished, answer, process_inbound, process_new_tx, process_commit_tx, process_rollback_tx,
}
use raf_8_banka_4_backend.Interbank.Reservations.{reserve_postings-prepared}
use raf_8_banka_4_backend.Interbank.Records.{persist_intent-IsRecorded}
use raf_8_banka_4_backend.Interbank.Untouched.{commit_postings-prepared, rollback_postings-prepared}

conclude-Follows :
    (env : Env) (row : PreparedTransaction) (o : Option TransactionVote × Node)
    → find_prepared_row row.key o.1.prepared ≡ some row
    → row.status ≡ PreparedTransactionStatus.preparing
    → Follows o.1 (conclude env row o).1
unfolding conclude Leads
conclude-Follows env row (some v, t) stored st =
    atomically-Follows _ (set_status env row PreparedTransactionStatus.rolled_back) t (
      set_status-Follows env row PreparedTransactionStatus.rolled_back t stored
        (subst (λ a. Leads a PreparedTransactionStatus.rolled_back) (sym st) tt))
conclude-Follows env row (none, t) stored st =
    atomically-Follows _ (set_status env row PreparedTransactionStatus.prepared) t (
      set_status-Follows env row PreparedTransactionStatus.prepared t stored
        (subst (λ a. Leads a PreparedTransactionStatus.prepared) (sym st) tt))

vote_on-Follows :
    (env : Env) (tx : Transaction) (b : ℕ) (row : PreparedTransaction)
    (status : PreparedTransactionStatus) (s : Node)
    → find_prepared_row row.key s.prepared ≡ some row
    → row.status ≡ status
    → Follows s (vote_on env tx b row status s).1
unfolding vote_on
vote_on-Follows env tx b row PreparedTransactionStatus.committed s stored st = same-Follows s s refl
vote_on-Follows env tx b row PreparedTransactionStatus.prepared s stored st = same-Follows s s refl
vote_on-Follows env tx b row PreparedTransactionStatus.rolled_back s stored st =
    same-Follows s s refl
vote_on-Follows env tx b row PreparedTransactionStatus.preparing s stored st =
    let o = reserve_postings env tx b 0 tx.postings [] s in
    let kept = reserve_postings-prepared env tx b 0 tx.postings [] s in
    trans-Follows s o.1 (conclude env row o).1 (same-Follows s o.1 kept)
      (conclude-Follows env row o (ap (find_prepared_row row.key) kept ∙ stored) st)

stored_key :
    (i : ForeignBankId) (t : List PreparedTransaction) {row : PreparedTransaction}
    → find_prepared_row i t ≡ some row
    → find_prepared_row row.key t ≡ some row
unfolding find_prepared_row
stored_key i t {row} h =
    ap (λ k. find_prepared_row k t)
      (find-key ForeignBankId_discrete (λ (r : PreparedTransaction). r.key) i t h)
    ∙ h

prepare_local_transaction-Follows :
    (env : Env) (tx : Transaction) (b : ℕ) (s : Node)
    → Follows s (prepare_local_transaction env tx b s).1
unfolding prepare_local_transaction
prepare_local_transaction-Follows env tx b s =
    let here = prepare_local_transaction env tx b s in
    let intent = atomically (env.fails commit_intent) (persist_intent env tx) s in
    let begun =
      atomically-Follows (env.fails commit_intent) (persist_intent env tx) s
        (persist_intent-Follows env tx s) in
    elim (Option-cases (balance_failure tx)) [
      | inr (reason, f) ↦ same-Follows s here.1 (cc)
      | inl f ↦ elim (Result-cases intent.0) [
        | inr (x, e) ↦
            let failed : here ≡ (err x, intent.1) = cc in
            subst (λ o. Follows s o.1) (sym failed) begun
        | inl (row, e) ↦
            let voted : here ≡ vote_on env tx b row row.status intent.1 = cc in
            subst (λ o. Follows s o.1) (sym voted)
              (trans-Follows s intent.1 _ begun (
                vote_on-Follows env tx b row row.status intent.1
                  (stored_key tx.transaction_id intent.1.prepared
                    (persist_intent-IsRecorded env _ tx s e))
                  refl))
      ]
    ]

mark-Follows :
    (env : Env) (row : PreparedTransaction) (status : PreparedTransactionStatus) (s t : Node)
    → find_prepared_row row.key s.prepared ≡ some row
    → Leads row.status status
    → t.prepared ≡ s.prepared
    → Follows s (set_status env row status t).1
mark-Follows env row status s t stored lead kept =
    trans-Follows s t _ (same-Follows s t kept)
      (set_status-Follows env row status t (ap (find_prepared_row row.key) kept ∙ stored) lead)

commit_on-Follows :
    (env : Env) (row : PreparedTransaction) (status : PreparedTransactionStatus) (s : Node)
    → find_prepared_row row.key s.prepared ≡ some row
    → row.status ≡ status
    → Follows s (commit_on env row status s).1
unfolding commit_on commit_and_mark Leads
commit_on-Follows env row PreparedTransactionStatus.committed s stored st = same-Follows s s refl
commit_on-Follows env row PreparedTransactionStatus.rolled_back s stored st = same-Follows s s refl
commit_on-Follows env row PreparedTransactionStatus.preparing s stored st = same-Follows s s refl
commit_on-Follows env row PreparedTransactionStatus.prepared s stored st =
    let done = commit_postings env row.request_body 0 row.request_body.postings s in
    let kept = commit_postings-prepared env row.request_body 0 row.request_body.postings s in
    let here = (commit_and_mark env row s).1 in
    elim (Result-cases done.0) [
      | inr (x, e) ↦
          let same : here ≡ done.1 = cc in subst (Follows s) (sym same) (same-Follows s done.1 kept)
      | inl (x, e) ↦
          let same : here ≡ (set_status env row PreparedTransactionStatus.committed done.1).1 =
            cc in
          let lead : Leads PreparedTransactionStatus.prepared PreparedTransactionStatus.committed =
            λ c. cc in
          subst (Follows s) (sym same) (
            mark-Follows env row PreparedTransactionStatus.committed s done.1 stored
              (subst (λ a. Leads a PreparedTransactionStatus.committed) (sym st) lead) kept)
    ]

release_and_mark-Follows :
    (env : Env) (row : PreparedTransaction) (s : Node)
    → find_prepared_row row.key s.prepared ≡ some row
    → Leads row.status PreparedTransactionStatus.rolled_back
    → Follows s (release_and_mark env row s).1
unfolding release_and_mark
release_and_mark-Follows env row s stored lead =
    mark-Follows env row PreparedTransactionStatus.rolled_back s
      (rollback_postings env row.request_body 0 row.request_body.postings s) stored lead
      (rollback_postings-prepared env row.request_body 0 row.request_body.postings s)

rollback_on-Follows :
    (env : Env) (row : PreparedTransaction) (status : PreparedTransactionStatus) (s : Node)
    → find_prepared_row row.key s.prepared ≡ some row
    → row.status ≡ status
    → Follows s (rollback_on env row status s).1
unfolding rollback_on Leads
rollback_on-Follows env row PreparedTransactionStatus.committed s stored st = same-Follows s s refl
rollback_on-Follows env row PreparedTransactionStatus.rolled_back s stored st =
    same-Follows s s refl
rollback_on-Follows env row PreparedTransactionStatus.preparing s stored st =
    release_and_mark-Follows env row s stored
      (subst (λ a. Leads a PreparedTransactionStatus.rolled_back) (sym st) tt)
rollback_on-Follows env row PreparedTransactionStatus.prepared s stored st =
    let lead : Leads PreparedTransactionStatus.prepared PreparedTransactionStatus.rolled_back =
      λ c. cc in
    release_and_mark-Follows env row s stored
      (subst (λ a. Leads a PreparedTransactionStatus.rolled_back) (sym st) lead)

commit_body-Follows : (env : Env) (i : ForeignBankId) (s : Node) → Follows s (commit_body env i s).1
unfolding commit_body
commit_body-Follows env i s =
    let here = (commit_body env i s).1 in
    elim (Bool-cases (env.fails find_prepared)) [
      | inl f ↦ same-Follows s here (cc)
      | inr f ↦ elim (Option-cases (find_prepared_row i s.prepared)) [
        | inl e ↦ same-Follows s here (cc)
        | inr (row, e) ↦
            let same : here ≡ (commit_on env row row.status s).1 = cc in
            subst (Follows s) (sym same)
              (commit_on-Follows env row row.status s (stored_key i s.prepared e) refl)
      ]
    ]

rollback_body-Follows :
    (env : Env) (i : ForeignBankId) (s : Node) → Follows s (rollback_body env i s).1
unfolding rollback_body
rollback_body-Follows env i s =
    let here = (rollback_body env i s).1 in
    elim (Bool-cases (env.fails find_prepared)) [
      | inl f ↦ same-Follows s here (cc)
      | inr f ↦ elim (Option-cases (find_prepared_row i s.prepared)) [
        | inl e ↦ same-Follows s here (cc)
        | inr (row, e) ↦
            let same : here ≡ (rollback_on env row row.status s).1 = cc in
            subst (Follows s) (sym same)
              (rollback_on-Follows env row row.status s (stored_key i s.prepared e) refl)
      ]
    ]

answer-prepared :
    (env : Env) (key : ForeignBankId) (message_type : MessageType) (step : Action Node ℕ) (s : Node)
    → (answer env key message_type step s).1.prepared ≡ (step s).1.prepared
unfolding answer
answer-prepared env key message_type step s = ground arith

process_inbound-Follows :
    (env : Env) (key : ForeignBankId) (message_type : MessageType) (step : Action Node ℕ) (s : Node)
    → Follows s (step s).1
    → Follows s (process_inbound env key message_type step s).1
unfolding process_inbound finished
process_inbound-Follows env key message_type step s h =
    let here = (process_inbound env key message_type step s).1 in
    let after = (answer env key message_type step s).1 in
    let run = (atomically (env.fails commit_work) (answer env key message_type step) s).1 in
    let ran : Follows s run =
      atomically-Follows (env.fails commit_work) (answer env key message_type step) s (
        trans-Follows s (step s).1 after h
          (same-Follows (step s).1 after (answer-prepared env key message_type step s))) in
    let either : (here ≡ s) ⊎ (here ≡ run) = ground arith in
    elim either [
      | inl e ↦ same-Follows s here (ap (λ u. u.prepared) e)
      | inr e ↦ subst (Follows s) (sym e) ran
    ]

process_new_tx-Follows :
    (env : Env) (key : ForeignBankId) (tx : Transaction) (s : Node)
    → Follows s (process_new_tx env key tx s).1
unfolding process_new_tx
process_new_tx-Follows env key tx s =
    let here = (process_new_tx env key tx s).1 in
    let done = (prepare_local_transaction env tx 0 s).1 in
    let either : (here.prepared ≡ s.prepared) ⊎ (here.prepared ≡ done.prepared) = ground arith in
    elim either [
      | inl e ↦ same-Follows s here e
      | inr e ↦
          trans-Follows s done here (prepare_local_transaction-Follows env tx 0 s)
            (same-Follows done here e)
    ]

-- A message of another bank.
pub data Message : Type 0 where
  new_tx_message : Transaction → Message
  commit_tx_message rollback_tx_message : ForeignBankId → Message

unfoldable pub receive : Env → ForeignBankId → Message → Node → Node
receive env key (new_tx_message tx) s = (process_new_tx env key tx s).1
receive env key (commit_tx_message i) s = (process_commit_tx env key i s).1
receive env key (rollback_tx_message i) s = (process_rollback_tx env key i s).1

-- Messages in the order in which they are received, each with what fails and what is answered then.
unfoldable pub receive_all : List (Env × ForeignBankId × Message) → Node → Node
receive_all [] s = s
receive_all ((env, key, m) ∷ rest) s = receive_all rest (receive env key m s)

receive-Follows :
    (env : Env) (key : ForeignBankId) (m : Message) (s : Node) → Follows s (receive env key m s)
unfolding receive process_commit_tx process_rollback_tx
receive-Follows env key (new_tx_message tx) s = process_new_tx-Follows env key tx s
receive-Follows env key (commit_tx_message i) s =
    process_inbound-Follows env key commit_tx (commit_body env i) s (commit_body-Follows env i s)
receive-Follows env key (rollback_tx_message i) s =
    process_inbound-Follows env key rollback_tx (rollback_body env i) s
      (rollback_body-Follows env i s)

-- Over any messages in any order, repeated and contradicting ones included, and whatever fails on the
-- way, every record that is in the table stays there with its transaction, and its status only goes
-- on: a committed one stays committed, one that is rolled back stays so, and a prepared one is never
-- back in preparation.
pub receive_all-Follows :
    (messages : List (Env × ForeignBankId × Message)) (s : Node)
    → Follows s (receive_all messages s)
unfolding receive_all
receive_all-Follows [] s = same-Follows s s refl
receive_all-Follows ((env, key, m) ∷ rest) s =
    trans-Follows s (receive env key m s) _ (receive-Follows env key m s)
      (receive_all-Follows rest (receive env key m s))
