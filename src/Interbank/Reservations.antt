-- ===== src/Interbank/Reservations.antt =====
-- message_processor.go: the reservations that a transaction has taken when it is voted down, and the
-- calls that give them back.
mod Loop
unfoldable pub use Loop.*
use mathlib.Core.List
use raf_8_banka_4_backend.Shared.{
  ℕ, suc, ◌≡◌, refl, sym, ap, subst, ◌∙◌, ◌⊎◌, inl, inr, Bool, true, Option, none, some, List, [],
  ◌∷◌, ◌++◌, map, reverse, Result, ok, err, arith, Bool-cases, Option-cases, Result-cases,
}
use raf_8_banka_4_backend.Interbank.Model.{
  Posting, Transaction, TransactionVote, vote_no, vote_yes, PreparedTransaction,
  PreparedTransactionStatus, NoVoteReason, NoVoteReasonKind, unbalanced_tx, insufficient_asset,
}
use raf_8_banka_4_backend.Interbank.Node.{
  Node, Env, Entry, RemoteCall, RemoteError, prepare_cash, reserve_shares, request, atomically,
  commit_mark, commit_intent,
}
use raf_8_banka_4_backend.Interbank.Assets.{cash_no_vote_reason, is_local_posting, balance_failure}
use raf_8_banka_4_backend.Interbank.Prepare.{
  Need, PreparedItem, cash, option, need, refuse, nothing, reserve_cash, reserve_stock, Prepared,
  refused, granted, perform, prepare_posting, undo, undo_all, rollback_effects, no_vote,
  reserve_postings, persist_intent, set_status, conclude, vote_on, prepare_local_transaction,
}

no_calls : (s : Node) (reasons : List NoVoteReason) → Accounted s (ok (vote_no reasons), s)
unfolding Accounted granted_by AllAsk
no_calls s reasons = ([], [], sym (List.append-nil (s.log ++ []) ∙ List.append-nil s.log), tt, refl)

-- The reservations touch no table.
pub reserve_postings-prepared :
    (env : Env) (tx : Transaction) (b i : ℕ) (ps : List Posting) (effects : List PreparedItem)
    (s : Node)
    → (reserve_postings env tx b i ps effects s).1.prepared ≡ s.prepared
unfolding Reserved
reserve_postings-prepared env tx b i ps effects s =
    prepared_of (reserve_postings env tx b i ps effects s)
      (reserve_postings-Reserved env tx b i ps effects s)
  where
    prepared_of :
        (o : Option TransactionVote × Node) → Reserved s effects o → o.1.prepared ≡ s.prepared
    prepared_of (none, t) (asked, run) = ap (λ u. u.prepared) run
    prepared_of (some v, t) (asked, undone, run, ask, calls) = ap (λ u. u.prepared) run

pub set_status-log :
    (env : Env) (f : Bool) (row : PreparedTransaction) (status : PreparedTransactionStatus)
    (s : Node)
    → (atomically f (set_status env row status) s).1.log ≡ s.log
unfolding atomically set_status
set_status-log env f row status s = ground arith

pub persist_intent-log :
    (env : Env) (f : Bool) (tx : Transaction) (s : Node)
    → (atomically f (persist_intent env tx) s).1.log ≡ s.log
unfolding atomically persist_intent
persist_intent-log env f tx s = ground arith

conclude-Accounted :
    (env : Env) (row : PreparedTransaction) (s : Node) (o : Option TransactionVote × Node)
    → Reserved s [] o
    → Accounted s (conclude env row o)
unfolding conclude Accounted Reserved
conclude-Accounted env row s (some vote_yes, t) h = tt
conclude-Accounted env row s (some (vote_no reasons), t) (asked, undone, run, ask, calls) = (
  asked,
  undone,
  set_status-log env _ row PreparedTransactionStatus.rolled_back t ∙ ap (λ u. u.log) run,
  ask,
  calls,
)
conclude-Accounted env row s (none, t) h =
    elim (Result-cases
      (atomically (env.fails commit_mark) (set_status env row PreparedTransactionStatus.prepared)
        t).0) [
          | inl (x, e) ↦
              subst
                (λ r.
                  Accounted s
                    (elim r [ ok x ↦ ok vote_yes | err e ↦ err e ], (conclude env row (none, t)).1))
                (sym e) tt
          | inr (x, e) ↦
              subst
                (λ r.
                  Accounted s
                    (elim r [ ok x ↦ ok vote_yes | err e ↦ err e ], (conclude env row (none, t)).1))
                (sym e) tt
        ]

vote_on-Accounted :
    (env : Env) (tx : Transaction) (b : ℕ) (row : PreparedTransaction)
    (status : PreparedTransactionStatus) (s : Node)
    → Accounted s (vote_on env tx b row status s)
unfolding vote_on Accounted
vote_on-Accounted env tx b row PreparedTransactionStatus.committed s = tt
vote_on-Accounted env tx b row PreparedTransactionStatus.prepared s = tt
vote_on-Accounted env tx b row PreparedTransactionStatus.rolled_back s =
    no_calls s (record { reason = unbalanced_tx; posting = none } ∷ [])
vote_on-Accounted env tx b row PreparedTransactionStatus.preparing s =
    conclude-Accounted env row s _ (reserve_postings-Reserved env tx b 0 tx.postings [] s)

Accounted-log :
    (s t : Node) (o : Result TransactionVote × Node) → s.log ≡ t.log → Accounted s o → Accounted t o
unfolding Accounted
Accounted-log s t (err x, u) e h = tt
Accounted-log s t (ok vote_yes, u) e h = tt
Accounted-log s t (ok (vote_no reasons), u) e (asked, undone, run, ask, calls) =
    (asked, undone, run ∙ ap (λ l. l ++ asked ++ undone) e, ask, calls)

-- Whenever a transaction is voted down, for whatever posting and whichever statement or call failed,
-- the remote calls of the preparation are calls that ask for reservations, followed by exactly one
-- undoing call for each reservation that was granted, the last one first, and no others.
pub prepare_local_transaction-Accounted :
    (env : Env) (tx : Transaction) (banking_tx_id : ℕ) (s : Node)
    → Accounted s (prepare_local_transaction env tx banking_tx_id s)
unfolding prepare_local_transaction Accounted
prepare_local_transaction-Accounted env tx b s =
    let here = prepare_local_transaction env tx b s in
    let intent = atomically (env.fails commit_intent) (persist_intent env tx) s in
    elim (Option-cases (balance_failure tx)) [
      | inr (reason, f) ↦
          let refused : here ≡ (ok (vote_no (reason ∷ [])), s) = cc in
          subst (Accounted s) (sym refused) (no_calls s (reason ∷ []))
      | inl f ↦ elim (Result-cases intent.0) [
        | inr (x, e) ↦
            let failed : here ≡ (err x, intent.1) = cc in subst (Accounted s) (sym failed) tt
        | inl (row, e) ↦
            let voted : here ≡ vote_on env tx b row row.status intent.1 = cc in
            subst (Accounted s) (sym voted) (
              Accounted-log intent.1 s _ (persist_intent-log env _ tx s)
                (vote_on-Accounted env tx b row row.status intent.1))
      ]
    ]
