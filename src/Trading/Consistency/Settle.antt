-- ===== src/Trading/Consistency/Settle.antt =====
-- The steps F4 and F5: the contract is exercised in the transaction that moves the shares, or the
-- execution turns to paying back; a settled execution is completed.
use raf_8_banka_4_backend.Shared.{
  none, some, ◌≡◌, refl, inl, inr, sym, ap, ◌∙◌, subst, Bool, true, false, arith, Result,
  Result-cases, ok, err, within_transaction, within_transaction_ok, within_transaction_err,
}
use raf_8_banka_4_backend.Banking.Model.{committed}
use raf_8_banka_4_backend.Trading.Model.{
  OtcExecutionSaga, OtcExecutionStep, OtcExecutionStatus, OtcOptionContract,
  OtcOptionContractStatus, OtcShareReservation, f4, f5, before, errored,
}
use raf_8_banka_4_backend.Trading.World.{
  World, Env, commit_step, find_contract_row, save_contract_row, append_saga_log,
  save_execution_row,
}
use raf_8_banka_4_backend.Trading.Contracts.{move_shares}
use raf_8_banka_4_backend.Trading.Execution.{begin_compensation}
use raf_8_banka_4_backend.Trading.Steps.{contract_of}
use raf_8_banka_4_backend.Trading.Settlement.{
  settle, transfer_body, after_transfer, transfer_ownership, complete_body, after_complete,
  complete_execution,
}
use raf_8_banka_4_backend.Trading.Consistency.{
  In, Fits, Row, Consistent, settled, is_exercised, save-Consistent, change_execution-Consistent,
}
use raf_8_banka_4_backend.Trading.Consistency.Undo.{funds, no_forward_fault}
use raf_8_banka_4_backend.Trading.Consistency.Advance.{finish_step-Consistent}
use raf_8_banka_4_backend.Trading.Consistency.Live.{
  Expired, on_live_contract-ok, find-save_contract_row,
}
use raf_8_banka_4_backend.Trading.Consistency.Confirm.{Row-same, pair-eq}

pub move_shares-frame :
    (env : Env) (c : OtcOptionContract) (s : World)
    → ((move_shares env c s).1.executions ≡ s.executions)
      × ((move_shares env c s).1.banking ≡ s.banking)
      × ((move_shares env c s).1.contracts ≡ s.contracts)
unfolding move_shares
move_shares-frame env c s = ground arith

-- What a settlement that succeeds has done to the execution and the contract.
pub settle-ok :
    (env : Env) (e : OtcExecutionSaga) (c : OtcOptionContract) (r : OtcShareReservation) (s : World)
    {t : World}
    → settle env e c r s ≡ (ok tt, t)
    → (t.executions
        ≡ save_execution_row
            (record e {
              current_step = OtcExecutionStep.ownership_transferred;
              status = OtcExecutionStatus.in_progress;
              next_retry_at = none;
            })
            s.executions)
      × (t.banking ≡ s.banking)
      × (t.contracts
          ≡ save_contract_row (record c { status = OtcOptionContractStatus.exercised }) s.contracts)
unfolding settle
settle-ok env e c r s h = elim (Result-cases (move_shares env c s).0) [
  | inl (u, good) ↦ ground (arith, move_shares-frame env c s)
  | inr (x, bad) ↦ absurd (ground arith)
]

module _ (env : Env) (e : OtcExecutionSaga) (s : World) (off : env.fault_enabled ≡ false) where
  pub transfer_ownership-outcome :
      {r : Result Bool} {t : World}
      → within_transaction (env.fails commit_step) (transfer_body env e) s ≡ (r, t)
      → transfer_ownership env e s ≡ after_transfer env e r t
  unfolding transfer_ownership
  transfer_ownership-outcome h = ground (arith, no_forward_fault env e f4 before s off)

  pub complete_execution-outcome :
      {r : Result Bool} {t : World}
      → within_transaction (env.fails commit_step) (complete_body env e) s ≡ (r, t)
      → complete_execution env e s ≡ after_complete env e r t
  unfolding complete_execution
  complete_execution-outcome h = ground (arith, no_forward_fault env e f5 before s off)

module _ (env : Env) (e : OtcExecutionSaga) (s : World) (off : env.fault_enabled ≡ false)
    (row : Row e.otc_execution_saga_id e s) (going : e.status ≡ OtcExecutionStatus.in_progress)
    (at : e.current_step ≡ OtcExecutionStep.funds_committed)
    (x : is_exercised (find_contract_row e.contract_id s.contracts) ≡ false)
    (m : In committed (funds e s.banking)) where
  undo-Consistent :
      (t : World)
      → Expired e s t
      → Consistent e.otc_execution_saga_id
          (begin_compensation env e.otc_execution_saga_id OtcExecutionStep.funds_committed
            (append_saga_log env e.otc_execution_saga_id f4 errored t)).1
  unfolding begin_compensation append_saga_log
  undo-Consistent t (same, kept, closed) =
      let m' : In committed (funds e t.banking) =
        subst (λ b. In committed (funds e b)) (sym kept) m in
      change_execution-Consistent env e.otc_execution_saga_id _ e
        (append_saga_log env e.otc_execution_saga_id f4 errored t) (Row-same e s t same row) refl
        refl refl
        (
          subst
              (λ st.
                Fits st e.current_step (contract_of e.contract_id t.contracts) (funds e t.banking))
              (sym going)
              (subst
                (λ st.
                  Fits OtcExecutionStatus.in_progress st (contract_of e.contract_id t.contracts)
                    (funds e t.banking))
                (sym at) m'),
          closed ∙ sym (ap settled at),
        )
        (inl m', closed)

  settled-Consistent :
      (c : OtcOptionContract) (r : OtcShareReservation) (t : World)
      → find_contract_row e.contract_id s.contracts ≡ some c
      → settle env e c r s ≡ (ok tt, t)
      → Consistent e.otc_execution_saga_id t
  settled-Consistent c r t there done =
      let (rows, kept, contracts) = settle-ok env e c r s done in
      let exercised : is_exercised (find_contract_row e.contract_id t.contracts) ≡ true =
        subst (λ cs. is_exercised (find_contract_row e.contract_id cs) ≡ true) (sym contracts)
          (subst (λ y. is_exercised y ≡ true)
            (sym (
              find-save_contract_row e.contract_id c
                (record c { status = OtcOptionContractStatus.exercised }) s.contracts there refl))
            refl) in
      subst (λ es. Consistent e.otc_execution_saga_id (record t { executions = es })) (sym rows)
        (save-Consistent e.otc_execution_saga_id e
          (record e {
            current_step = OtcExecutionStep.ownership_transferred;
            status = OtcExecutionStatus.in_progress;
            next_retry_at = none;
          })
          (record t { executions = s.executions }) row refl refl refl
          (subst (λ b. In committed (funds e b)) (sym kept) m, exercised))

  pub transfer_ownership-Consistent :
      Consistent e.otc_execution_saga_id (transfer_ownership env e s).1
  unfolding transfer_body after_transfer
  transfer_ownership-Consistent =
      let body = within_transaction (env.fails commit_step) (transfer_body env e) s in
      elim (Result-cases body.0) [
        | inr (y, bad) ↦
            let whole : body ≡ (err y, s) =
              pair-eq bad (within_transaction_err _ (transfer_body env e) s bad) in
            subst (λ p. Consistent e.otc_execution_saga_id p.1)
              (sym (transfer_ownership-outcome env e s off whole))
              (undo-Consistent s (refl, refl, x))
        | inl (v, good) ↦
            let whole : body ≡ (ok v, body.1) = pair-eq good refl in
            let ran = within_transaction_ok _ (transfer_body env e) s whole in
            subst (λ p. Consistent e.otc_execution_saga_id p.1)
              (sym (transfer_ownership-outcome env e s off whole))
              (elim (on_live_contract-ok env e (settle env e) s ran) [
                | inl (is, closed) ↦
                    subst
                      (λ w.
                        Consistent e.otc_execution_saga_id (after_transfer env e (ok w) body.1).1)
                      (sym is) (undo-Consistent body.1 closed)
                | inr (c, r, there, active, found, held, is, done) ↦
                    subst
                      (λ w.
                        Consistent e.otc_execution_saga_id (after_transfer env e (ok w) body.1).1)
                      (sym is)
                      (finish_step-Consistent env e f4 off body.1
                        (settled-Consistent c r body.1 there done))
              ])
      ]

pub complete_body-ok :
    (env : Env) (e : OtcExecutionSaga) (s : World) {v : Bool} {t : World}
    → Row e.otc_execution_saga_id e s
    → e.status ≡ OtcExecutionStatus.in_progress
    → complete_body env e s ≡ (ok v, t)
    → (v ≡ true)
      × (t ≡ record s {
        executions =
            save_execution_row
              (record e {
                current_step = OtcExecutionStep.completed;
                status = OtcExecutionStatus.completed;
                next_retry_at = none;
              })
              s.executions;
      })
unfolding complete_body
complete_body-ok env e s row going h = ground (arith, row.1)

pub complete_execution-Consistent :
    (env : Env) (e : OtcExecutionSaga) (s : World)
    → env.fault_enabled ≡ false
    → Row e.otc_execution_saga_id e s
    → e.status ≡ OtcExecutionStatus.in_progress
    → Fits e.status e.current_step (contract_of e.contract_id s.contracts) (funds e s.banking)
    → is_exercised (find_contract_row e.contract_id s.contracts) ≡ settled e.current_step
    → is_exercised (find_contract_row e.contract_id s.contracts) ≡ true
    → In committed (funds e s.banking)
    → Consistent e.otc_execution_saga_id (complete_execution env e s).1
unfolding after_complete append_saga_log
complete_execution-Consistent env e s off row going fits agrees x m =
    let body = within_transaction (env.fails commit_step) (complete_body env e) s in
    elim (Result-cases body.0) [
      | inr (y, bad) ↦
          let whole : body ≡ (err y, s) =
            pair-eq bad (within_transaction_err _ (complete_body env e) s bad) in
          subst (λ p. Consistent e.otc_execution_saga_id p.1)
            (sym (complete_execution-outcome env e s off whole)) (e, row, (fits, agrees))
      | inl (v, good) ↦
          let whole : body ≡ (ok v, body.1) = pair-eq good refl in
          let (is, done) =
            complete_body-ok env e s row going
              (within_transaction_ok _ (complete_body env e) s whole) in
          let kept : Consistent e.otc_execution_saga_id body.1 =
            subst (Consistent e.otc_execution_saga_id) (sym done)
              (save-Consistent e.otc_execution_saga_id e _ s row refl refl refl ((refl, m), x)) in
          subst (λ p. Consistent e.otc_execution_saga_id p.1)
            (sym (complete_execution-outcome env e s off whole))
            (subst (λ w. Consistent e.otc_execution_saga_id (after_complete env e (ok w) body.1).1)
              (sym is) kept)
    ]
