-- ===== src/Interbank/Repeats.antt =====
-- message_processor.go: messages that arrive again, and messages that contradict an earlier one.
use raf_8_banka_4_backend.Shared.{
  ℕ, ◌≡◌, ◌≢◌, refl, sym, ap, subst, ◌∙◌, inl, inr, Bool, false, Option, none, some, Action, Result,
  ok, err, AppError, internal, driver, if◌then◌else◌, arith, Option-cases, Result-cases, find-save,
  find-key,
}
use raf_8_banka_4_backend.Interbank.Model.{
  ForeignBankId, Transaction, PreparedTransaction, PreparedTransactionStatus, TransactionVote,
  MessageType, new_tx, InboundMessage,
}
use raf_8_banka_4_backend.Interbank.Node.{
  Node, Env, atomically, find_prepared_row, save_prepared_row, find_inbound_row, save_inbound_row,
  find_inbound, save_inbound, commit_work, find_prepared, ForeignBankId_discrete,
}
use raf_8_banka_4_backend.Interbank.Prepare.{set_status, prepare_local_transaction}
use raf_8_banka_4_backend.Interbank.Settle.{
  commit_postings, commit_and_mark, commit_on, commit_body, commit_local, rollback_on,
  rollback_body, rollback_local,
}
use raf_8_banka_4_backend.Interbank.Messages.{process_new_tx, finished, answer, process_inbound}

-- The record of a transaction has the status.
unfoldable pub IsSettled : ForeignBankId → PreparedTransactionStatus → Node → Type 0
IsSettled i status s =
    (row : PreparedTransaction) × (find_prepared_row i s.prepared ≡ some row)
    × (row.status ≡ status)

pub set_status-IsSettled :
    (env : Env) (row : PreparedTransaction) (status : PreparedTransactionStatus) (i : ForeignBankId)
    (s : Node)
    → row.key ≡ i
    → (set_status env row status s).0 ≡ ok tt
    → IsSettled i status (set_status env row status s).1
unfolding set_status find_prepared_row save_prepared_row IsSettled
set_status-IsSettled env row status i s key h =
    let marked : PreparedTransaction = record row { status = status } in
    let found : find_prepared_row i (set_status env row status s).1.prepared ≡ some marked =
      ground (
        arith,
        find-save ForeignBankId_discrete (λ (r : PreparedTransaction). r.key) i marked s.prepared,
      ) in
    (marked, found, refl)

commit_and_mark-IsSettled :
    (env : Env) (row : PreparedTransaction) (i : ForeignBankId) (s : Node)
    → row.key ≡ i
    → (commit_and_mark env row s).0 ≡ ok 204
    → IsSettled i PreparedTransactionStatus.committed (commit_and_mark env row s).1
unfolding commit_and_mark
commit_and_mark-IsSettled env row i s key h =
    let done = commit_postings env row.request_body 0 row.request_body.postings s in
    elim (Result-cases done.0) [
      | inr (x, e) ↦ cc
      | inl (x, e) ↦
          let marked = set_status env row PreparedTransactionStatus.committed done.1 in
          let succeeded : marked.0 ≡ ok tt = ground arith in
          let here : (commit_and_mark env row s).1 ≡ marked.1 = cc in
          subst (IsSettled i PreparedTransactionStatus.committed) (sym here) (
            set_status-IsSettled env row PreparedTransactionStatus.committed i done.1 key succeeded)
    ]

commit_on-IsSettled :
    (env : Env) (row : PreparedTransaction) (status : PreparedTransactionStatus) (i : ForeignBankId)
    (s : Node)
    → find_prepared_row i s.prepared ≡ some row
    → row.status ≡ status
    → row.key ≡ i
    → (commit_on env row status s).0 ≡ ok 204
    → IsSettled i PreparedTransactionStatus.committed (commit_on env row status s).1
unfolding commit_on IsSettled
commit_on-IsSettled env row PreparedTransactionStatus.committed i s found st key h =
    (row, found, st)
commit_on-IsSettled env row PreparedTransactionStatus.rolled_back i s found st key h = cc
commit_on-IsSettled env row PreparedTransactionStatus.preparing i s found st key h = ground arith
commit_on-IsSettled env row PreparedTransactionStatus.prepared i s found st key h =
    commit_and_mark-IsSettled env row i s key h

commit_body-IsSettled :
    (env : Env) (i : ForeignBankId) (s : Node) {t : Node}
    → commit_body env i s ≡ (ok 204, t)
    → IsSettled i PreparedTransactionStatus.committed t
unfolding commit_body find_prepared_row
commit_body-IsSettled env i s {t} h = elim (Option-cases (find_prepared_row i s.prepared)) [
  | inl e ↦ ground arith
  | inr (row, e) ↦
      let run : commit_on env row row.status s ≡ (ok 204, t) = ground arith in
      subst (IsSettled i PreparedTransactionStatus.committed) (ap (λ o. o.1) run) (
        commit_on-IsSettled env row row.status i s e refl
          (find-key ForeignBankId_discrete (λ (r : PreparedTransaction). r.key) i s.prepared e)
          (ap (λ o. o.0) run))
]

pub atomically_ok :
    {A : Type 0} (f : Bool) (m : Action Node A) (s : Node) {a : A} {t : Node}
    → atomically f m s ≡ (ok a, t)
    → m s ≡ (ok a, t)
unfolding atomically
atomically_ok f m s {a} {t} h = ground arith

-- A closure that changes nothing, in a transaction of its own.
atomically_same :
    {A : Type 0} (f : Bool) (m : Action Node A) (s : Node) {a : A}
    → m s ≡ (ok a, s)
    → atomically f m s ≡ (if f then err driver else ok a, s)
unfolding atomically
atomically_same f m s h = ground arith

atomically_refused :
    {A : Type 0} (f : Bool) (m : Action Node A) (s : Node) {e : AppError}
    → m s ≡ (err e, s)
    → atomically f m s ≡ (err e, s)
unfolding atomically
atomically_refused f m s h = ground arith

-- The closures on a transaction that is committed.
settled_bodies :
    (later : Env) (i : ForeignBankId) (t : Node)
    → IsSettled i PreparedTransactionStatus.committed t
    → later.fails find_prepared ≡ false
    → (commit_body later i t ≡ (ok 204, t)) × (rollback_body later i t ≡ (err internal, t))
unfolding commit_body rollback_body commit_on rollback_on IsSettled
settled_bodies later i t (row, found, status) up = (ground arith, ground arith)

-- Once a transaction has been committed here, which the status 204 says, a further commit or rollback
-- changes nothing and makes no call, if the lookup of the record works: the commit is answered with 204
-- again, or with the error of its own database transaction where that cannot be committed, and the
-- rollback is refused.
pub commit_local_final :
    (env later : Env) (i : ForeignBankId) (s : Node) {t : Node}
    → commit_local env i s ≡ (ok 204, t)
    → later.fails find_prepared ≡ false
    → (commit_local later i t ≡ (if later.fails commit_work then err driver else ok 204, t))
      × (rollback_local later i t ≡ (err internal, t))
unfolding commit_local rollback_local
commit_local_final env later i s {t} h up =
    let settled = commit_body-IsSettled env i s (atomically_ok _ _ s h) in
    let (again, refused) = settled_bodies later i t settled up in
    (atomically_same _ _ t again, atomically_refused _ _ t refused)

-- The table keeps the answer to a message.
unfoldable pub IsAnswered : ForeignBankId → ℕ × Option TransactionVote → Node → Type 0
IsAnswered key answered s =
    (m : InboundMessage) × (find_inbound_row key s.inbound ≡ some m)
    × ((m.response_status, m.response_body) ≡ answered)

answer-IsAnswered :
    (env : Env) (key : ForeignBankId) (message_type : MessageType) (step : Action Node ℕ) (s : Node)
    {response : ℕ × Option TransactionVote} {t : Node}
    → answer env key message_type step s ≡ (ok response, t)
    → IsAnswered key response t
unfolding answer IsAnswered find_inbound_row save_inbound_row
answer-IsAnswered env key message_type step s {response} {t} h = elim (Result-cases (step s).0) [
  | inr (x, e) ↦ cc
  | inl (status, e) ↦
      let m : InboundMessage = record {
        key = key;
        message_type = message_type;
        response_status = status;
        response_body = none;
      } in
      let kept : find_inbound_row key t.inbound ≡ some m = ground (
        arith,
        find-save ForeignBankId_discrete (λ (r : InboundMessage). r.key) key m (step s).1.inbound,
      ) in
      (m, kept, ground arith)
]

process_inbound-IsAnswered :
    (env : Env) (key : ForeignBankId) (message_type : MessageType) (step : Action Node ℕ) (s : Node)
    {response : ℕ × Option TransactionVote} {t : Node}
    → process_inbound env key message_type step s ≡ (ok response, t)
    → IsAnswered key response t
unfolding process_inbound finished IsAnswered
process_inbound-IsAnswered env key message_type step s {response} {t} h =
    let run : Result (ℕ × Option TransactionVote) × Node =
      atomically (env.fails commit_work) (answer env key message_type step) s in
    elim (Option-cases (finished (find_inbound_row key s.inbound))) [
      | inl e ↦
          let done : run ≡ (ok response, t) = ground arith in
          answer-IsAnswered env key message_type step s (atomically_ok _ _ s done)
      | inr (m, e) ↦
          let found : find_inbound_row key s.inbound ≡ some m = ground arith in
          let same : s ≡ t = ground arith in
          (m, ap (λ u. find_inbound_row key u.inbound) (sym same) ∙ found, ground arith)
    ]

-- A COMMIT_TX or ROLLBACK_TX message that has been answered with a final status is answered the same
-- way when one of these arrives again under its key, and nothing is done then, whatever its step would
-- do and whatever may fail then but for the lookup of the answer.
pub process_inbound_again :
    (env later : Env) (key : ForeignBankId) (message_type again : MessageType)
    (step step_again : Action Node ℕ) (s : Node) {status : ℕ} {body : Option TransactionVote}
    {t : Node}
    → process_inbound env key message_type step s ≡ (ok (status, body), t)
    → status ≢ 202
    → later.fails find_inbound ≡ false
    → process_inbound later key again step_again t ≡ (ok (status, body), t)
unfolding process_inbound finished IsAnswered
process_inbound_again env later key message_type again step step_again s {status} {body} {t} h final
      up =
    let (m, found, answered) = process_inbound-IsAnswered env key message_type step s h in
    let same_status : m.response_status ≡ status = ap (λ r. r.0) answered in
    let kept : finished (find_inbound_row key t.inbound) ≡ some m = ground arith in
    let run : process_inbound later key again step_again t
        ≡ (ok (m.response_status, m.response_body), t) =
      ground arith in
    run ∙ ap (λ r. (ok r, t)) answered

-- The answer to a NEW_TX message is in the table, and it is final.
process_new_tx-IsKept :
    (env : Env) (key : ForeignBankId) (tx : Transaction) (s : Node)
    {response : ℕ × Option TransactionVote} {t : Node}
    → process_new_tx env key tx s ≡ (ok response, t)
    → env.fails save_inbound ≡ false
    → (m : InboundMessage) × (finished (find_inbound_row key t.inbound) ≡ some m)
      × ((m.response_status, m.response_body) ≡ response)
unfolding process_new_tx finished find_inbound_row save_inbound_row
process_new_tx-IsKept env key tx s {response} {t} h kept =
    elim (Option-cases (finished (find_inbound_row key s.inbound))) [
      | inr (m, e) ↦
          let same : s ≡ t = ground arith in
          (m, ap (λ u. finished (find_inbound_row key u.inbound)) (sym same) ∙ e, ground arith)
      | inl e ↦ elim (Result-cases (prepare_local_transaction env tx 0 s).0) [
        | inr (x, f) ↦ absurd (ground arith)
        | inl (vote, f) ↦
            let m : InboundMessage = record {
              key = key;
              message_type = new_tx;
              response_status = 200;
              response_body = some vote;
            } in
            let saved =
              find-save ForeignBankId_discrete (λ (r : InboundMessage). r.key) key m
                (prepare_local_transaction env tx 0 s).1.inbound in
            (m, ground (arith, saved), ground arith)
      ]
    ]

-- A NEW_TX message whose answer has been kept is answered the same way when it arrives again under its
-- key, and nothing is done then, whatever transaction it carries and whatever may fail but for the
-- lookup of the answer. The answer is kept unless it cannot be saved, which the first call ignores.
pub process_new_tx_again :
    (env later : Env) (key : ForeignBankId) (tx again : Transaction) (s : Node)
    {response : ℕ × Option TransactionVote} {t : Node}
    → process_new_tx env key tx s ≡ (ok response, t)
    → env.fails save_inbound ≡ false
    → later.fails find_inbound ≡ false
    → process_new_tx later key again t ≡ (ok response, t)
unfolding process_new_tx finished IsAnswered
process_new_tx_again env later key tx again s {response} {t} h kept up =
    let (m, found, answered) = process_new_tx-IsKept env key tx s h kept in
    let run : process_new_tx later key again t ≡ (ok (m.response_status, m.response_body), t) =
      ground arith in
    run ∙ ap (λ r. (ok r, t)) answered
