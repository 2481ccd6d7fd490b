-- ===== src/Interbank/Lifecycle/Status.antt =====
-- message_processor.go: the statuses that may follow one another, and the changes of one record.
use raf_8_banka_4_backend.Shared.{
  ◌≡◌, ◌≢◌, refl, sym, ap, subst, ◌∙◌, inl, inr, Bool, some, Action, arith, Bool-cases,
  Result-cases, find-save, find-append,
}
use raf_8_banka_4_backend.Interbank.Model.{
  ForeignBankId, Transaction, PreparedTransaction, PreparedTransactionStatus,
}
use raf_8_banka_4_backend.Interbank.Node.{
  Node, Env, atomically, find_prepared_row, save_prepared_row, update_prepared,
  ForeignBankId_discrete,
}
use raf_8_banka_4_backend.Interbank.Prepare.{persist_intent, set_status}

-- The statuses that may follow a status: PREPARING comes first, COMMITTED and ROLLED_BACK are final.
unfoldable pub Leads : PreparedTransactionStatus → PreparedTransactionStatus → Type 0
Leads PreparedTransactionStatus.preparing b = Unit
Leads PreparedTransactionStatus.prepared b = b ≢ PreparedTransactionStatus.preparing
Leads PreparedTransactionStatus.committed b = b ≡ PreparedTransactionStatus.committed
Leads PreparedTransactionStatus.rolled_back b = b ≡ PreparedTransactionStatus.rolled_back

refl-Leads : (a : PreparedTransactionStatus) → Leads a a
unfolding Leads
refl-Leads PreparedTransactionStatus.preparing = tt
refl-Leads PreparedTransactionStatus.prepared = λ e. cc
refl-Leads PreparedTransactionStatus.committed = refl
refl-Leads PreparedTransactionStatus.rolled_back = refl

trans-Leads : (a b c : PreparedTransactionStatus) → Leads a b → Leads b c → Leads a c
unfolding Leads
trans-Leads PreparedTransactionStatus.preparing b c h k = tt
trans-Leads PreparedTransactionStatus.prepared PreparedTransactionStatus.preparing c h k =
    elim (h refl) [ ]
trans-Leads PreparedTransactionStatus.prepared PreparedTransactionStatus.prepared c h k = k
trans-Leads PreparedTransactionStatus.prepared PreparedTransactionStatus.committed c h k = λ e. cc
trans-Leads PreparedTransactionStatus.prepared PreparedTransactionStatus.rolled_back c h k = λ e. cc
trans-Leads PreparedTransactionStatus.committed b c h k = subst (λ x. Leads x c) h k
trans-Leads PreparedTransactionStatus.rolled_back b c h k = subst (λ x. Leads x c) h k

-- No record is lost, none changes its transaction, and each status leads to the later one.
unfoldable pub Follows : Node → Node → Type 0
Follows s t =
    (i : ForeignBankId) (row : PreparedTransaction)
    → find_prepared_row i s.prepared ≡ some row
    → (now : PreparedTransaction) × (find_prepared_row i t.prepared ≡ some now)
      × Leads row.status now.status
      × (now.request_body ≡ row.request_body)

pub same-Follows : (s t : Node) → t.prepared ≡ s.prepared → Follows s t
unfolding Follows
same-Follows s t e i row h = (row, ap (find_prepared_row i) e ∙ h, refl-Leads row.status, refl)

pub trans-Follows : (s t u : Node) → Follows s t → Follows t u → Follows s u
unfolding Follows
trans-Follows s t u f g i row h =
    let (mid, found, lead, body) = f i row h in
    let (now, found', lead', body') = g i mid found in
    (now, found', trans-Leads row.status mid.status now.status lead lead', body' ∙ body)

pub atomically-Follows :
    {A : Type 0} (f : Bool) (m : Action Node A) (s : Node)
    → Follows s (m s).1
    → Follows s (atomically f m s).1
unfolding atomically
atomically-Follows f m s h =
    let after = (atomically f m s).1 in
    elim (Result-cases (m s).0) [
      | inr (x, e) ↦ same-Follows s after (ground arith)
      | inl (a, e) ↦ elim (Bool-cases f) [
        | inl b ↦ same-Follows s after (ground arith)
        | inr b ↦ let same : after ≡ (m s).1 = ground arith in subst (Follows s) (sym same) h
      ]
    ]

pub set_status-Follows :
    (env : Env) (row : PreparedTransaction) (status : PreparedTransactionStatus) (s : Node)
    → find_prepared_row row.key s.prepared ≡ some row
    → Leads row.status status
    → Follows s (set_status env row status s).1
unfolding Follows set_status find_prepared_row save_prepared_row
set_status-Follows env row status s stored lead i old h =
    let marked : PreparedTransaction = record row { status = status } in
    let after = (set_status env row status s).1 in
    let saved =
      find-save ForeignBankId_discrete (λ (r : PreparedTransaction). r.key) i marked s.prepared in
    elim (Bool-cases (env.fails update_prepared)) [
      | inl f ↦ (old, ground arith, refl-Leads old.status, refl)
      | inr f ↦ elim (ForeignBankId_discrete row.key i) [
        | yes p ↦
            let same : old ≡ row = cc in
            (
              marked,
              ground (arith, saved),
              subst (λ r. Leads r.status status) (sym same) lead,
              ap (λ r. r.request_body) (sym same),
            )
        | no n ↦ (old, ground (arith, saved), refl-Leads old.status, refl)
      ]
    ]

pub persist_intent-Follows :
    (env : Env) (tx : Transaction) (s : Node) → Follows s (persist_intent env tx s).1
unfolding persist_intent Follows find_prepared_row
persist_intent-Follows env tx s i row h =
    let fresh : PreparedTransaction = record {
      key = tx.transaction_id;
      status = PreparedTransactionStatus.preparing;
      request_body = tx;
    } in
    let appended =
      find-append ForeignBankId_discrete (λ (r : PreparedTransaction). r.key) i s.prepared fresh
        {u = row} h in
    (row, ground (arith, appended), refl-Leads row.status, refl)
