-- ===== src/Trading/Consistency/Confirm.antt =====
-- The step F2: the shares are confirmed, or the funds are released, or the step is tried again.
use raf_8_banka_4_backend.Shared.{
  none, ◌≡◌, refl, ◌⊎◌, inl, inr, sym, ap, ◌∙◌, subst, Bool, true, false, Bool-cases, Result-cases,
  arith, Result, ok, err, AppError, within_transaction, within_transaction_ok,
  within_transaction_err,
}
use raf_8_banka_4_backend.Banking.Model.{reserved, released}
use raf_8_banka_4_backend.Trading.Model.{
  OtcExecutionSaga, OtcExecutionStep, OtcExecutionStatus, f2, before, errored,
}
use raf_8_banka_4_backend.Trading.World.{
  World, Env, commit_step, find_contract_row, append_saga_log, save_execution_row,
}
use raf_8_banka_4_backend.Trading.Steps.{
  contract_of, save_progress, confirm_body, confirm_shares, after_confirm, step_after_confirm,
  is_client_error,
}
use raf_8_banka_4_backend.Trading.Consistency.{
  In, Fits, Row, Consistent, settled, is_exercised, save-Consistent,
}
use raf_8_banka_4_backend.Trading.Consistency.Undo.{funds, no_forward_fault}
use raf_8_banka_4_backend.Trading.Consistency.Backward.{
  Stays, release_and_fail-Consistent, retry-Consistent,
}
use raf_8_banka_4_backend.Trading.Consistency.Advance.{finish_step-Consistent}
use raf_8_banka_4_backend.Trading.Consistency.Live.{Expired, on_live_contract-ok}

pub Row-same :
    (e : OtcExecutionSaga) (s t : World)
    → t.executions ≡ s.executions
    → Row e.otc_execution_saga_id e s
    → Row e.otc_execution_saga_id e t
Row-same e s t same row = (cc, cc, row.2, row.3)

pub pair-eq {ℓ κ} :
    {A : Type ℓ} {B : Type κ} {p : A × B} {a : A} {b : B} → p.0 ≡ a → p.1 ≡ b → p ≡ (a, b)
pair-eq h k = cc

module _ (env : Env) (e : OtcExecutionSaga) (s : World) (off : env.fault_enabled ≡ false) where
  pub confirm_shares-outcome :
      {r : Result Bool} {t : World}
      → within_transaction (env.fails commit_step) (confirm_body env e) s ≡ (r, t)
      → confirm_shares env e s ≡ after_confirm env e (step_after_confirm env e s) r t
  unfolding confirm_shares
  confirm_shares-outcome h = ground (arith, no_forward_fault env e f2 before s off)

step_after_confirm-cases :
    (env : Env) (e : OtcExecutionSaga) (s : World)
    → (step_after_confirm env e s ≡ e.current_step)
      ⊎ (step_after_confirm env e s ≡ OtcExecutionStep.shares_confirmed)
unfolding step_after_confirm
step_after_confirm-cases env e s = ground arith

pub save_progress-ok :
    (env : Env) (e : OtcExecutionSaga) (step : OtcExecutionStep) (s : World) {t : World}
    → save_progress env e step s ≡ (ok tt, t)
    → t ≡ record s {
      executions =
          save_execution_row
            (record e {
              current_step = step;
              status = OtcExecutionStatus.in_progress;
              next_retry_at = none;
            })
            s.executions;
    }
save_progress-ok env e step s h = ground arith

module _ (env : Env) (e : OtcExecutionSaga) (s : World) (off : env.fault_enabled ≡ false)
    (row : Row e.otc_execution_saga_id e s) (going : e.status ≡ OtcExecutionStatus.in_progress)
    (at : e.current_step ≡ OtcExecutionStep.funds_reserved)
    (x : is_exercised (find_contract_row e.contract_id s.contracts) ≡ false)
    (m : In reserved (funds e s.banking) ⊎ In released (funds e s.banking)) where
  stays : (t : World) → Stays e t reserved released
  stays t n either =
      subst (λ st. Fits st e.current_step (contract_of e.contract_id t.contracts) n) (sym going)
        (subst
          (λ st. Fits OtcExecutionStatus.in_progress st (contract_of e.contract_id t.contracts) n)
          (sym at) either)

  -- After the transaction has failed.
  failed-Consistent :
      (y : AppError) (step : OtcExecutionStep)
      → (step ≡ e.current_step) ⊎ (step ≡ OtcExecutionStep.shares_confirmed)
      → Consistent e.otc_execution_saga_id (after_confirm env e step (err y) s).1
  unfolding after_confirm append_saga_log
  failed-Consistent y step where_at = elim (Bool-cases (is_client_error y)) [
    | inl theirs ↦ rw theirs (
        release_and_fail-Consistent env e (append_saga_log env e.otc_execution_saga_id f2 errored s)
          off row (x, ap settled at) (stays s) m)
    | inr ours ↦ rw ours (elim where_at [
      | inl here ↦
          retry-Consistent env e s row (x, ap settled at) f2 errored s.banking step _
            (ap settled (here ∙ at)) (stays s _ m)
            (subst
              (λ st.
                Fits OtcExecutionStatus.in_progress st (contract_of e.contract_id s.contracts)
                  (funds e s.banking))
              (sym (here ∙ at)) m)
      | inr there ↦
          retry-Consistent env e s row (x, ap settled at) f2 errored s.banking step _
            (ap settled there) (stays s _ m)
            (subst
              (λ st.
                Fits OtcExecutionStatus.in_progress st (contract_of e.contract_id s.contracts)
                  (funds e s.banking))
              (sym there) (elim m [ inl a ↦ inl a | inr a ↦ inr (inl a) ]))
    ])
  ]

  lapsed-Consistent :
      (t : World) (step : OtcExecutionStep)
      → Expired e s t
      → Consistent e.otc_execution_saga_id (after_confirm env e step (ok true) t).1
  unfolding after_confirm append_saga_log
  lapsed-Consistent t step (same, kept, closed) =
      release_and_fail-Consistent env e (append_saga_log env e.otc_execution_saga_id f2 errored t)
        off (Row-same e s t same row) (closed, ap settled at) (stays t)
        (subst (λ b. In reserved (funds e b) ⊎ In released (funds e b)) (sym kept) m)

  confirmed-Consistent :
      (t : World) (step : OtcExecutionStep)
      → save_progress env e OtcExecutionStep.shares_confirmed s ≡ (ok tt, t)
      → Consistent e.otc_execution_saga_id (after_confirm env e step (ok false) t).1
  unfolding after_confirm
  confirmed-Consistent t step saved = finish_step-Consistent env e f2 off t (
      subst (Consistent e.otc_execution_saga_id)
        (sym (save_progress-ok env e OtcExecutionStep.shares_confirmed s saved))
        (save-Consistent e.otc_execution_saga_id e _ s row refl refl refl
          (elim m [ inl a ↦ inl a | inr a ↦ inr (inl a) ], x)))

  pub confirm_shares-Consistent : Consistent e.otc_execution_saga_id (confirm_shares env e s).1
  unfolding confirm_body
  confirm_shares-Consistent =
      let body = within_transaction (env.fails commit_step) (confirm_body env e) s in
      let step = step_after_confirm env e s in
      elim (Result-cases body.0) [
        | inr (y, bad) ↦
            let whole : body ≡ (err y, s) =
              pair-eq bad (within_transaction_err _ (confirm_body env e) s bad) in
            subst (λ p. Consistent e.otc_execution_saga_id p.1)
              (sym (confirm_shares-outcome env e s off whole))
              (failed-Consistent y step (step_after_confirm-cases env e s))
        | inl (v, good) ↦
            let whole : body ≡ (ok v, body.1) = pair-eq good refl in
            let ran = within_transaction_ok _ (confirm_body env e) s whole in
            subst (λ p. Consistent e.otc_execution_saga_id p.1)
              (sym (confirm_shares-outcome env e s off whole))
              (elim (on_live_contract-ok env e
                (λ c r. save_progress env e OtcExecutionStep.shares_confirmed) s ran) [
                  | inl (is, closed) ↦
                      subst
                        (λ w.
                          Consistent e.otc_execution_saga_id
                            (after_confirm env e step (ok w) body.1).1)
                        (sym is) (lapsed-Consistent body.1 step closed)
                  | inr (c, r, there, active, found, held, is, done) ↦
                      subst
                        (λ w.
                          Consistent e.otc_execution_saga_id
                            (after_confirm env e step (ok w) body.1).1)
                        (sym is) (confirmed-Consistent body.1 step done)
                ])
      ]
