-- ===== src/Trading/Progress/Moves.antt =====
-- One round of processExecution leaves one round less to do.
use raf_8_banka_4_backend.Shared.{
  ℕ, suc, ◌+◌, ◌<◌, ◌≤◌, ◌≡◌, ◌≢◌, refl, ◌⊎◌, inl, inr, sym, ap, ◌∙◌, subst, false, none, arith,
  Result-cases, ok, err, within_transaction, within_transaction_ok, within_transaction_err,
}
use raf_8_banka_4_backend.Banking.OtcFunds as Funds
use raf_8_banka_4_backend.Trading.Model.{
  OtcExecutionSaga, OtcExecutionStep, OtcExecutionStatus, f1, f2, f3, f4, errored,
}
use raf_8_banka_4_backend.Trading.World.{
  World, Env, Reply, replied, refused, call_bank, commit_call, commit_step, append_saga_log,
  find_execution_row, save_execution_row,
}
use raf_8_banka_4_backend.Trading.Execution.{is_terminal_execution_status, begin_compensation}
use raf_8_banka_4_backend.Trading.Steps.{
  reserve_funds, request_funds, contract_of, after_reserve_reply, confirm_shares, confirm_body,
  after_confirm, step_after_confirm, save_progress,
}
use raf_8_banka_4_backend.Trading.Settlement.{
  commit_funds, after_commit_reply, transfer_ownership, transfer_body, after_transfer, settle,
  complete_execution, complete_body, after_complete,
}
use raf_8_banka_4_backend.Trading.Saga.{process_step}
use raf_8_banka_4_backend.Trading.Consistency.{Row}
use raf_8_banka_4_backend.Trading.Consistency.Reserve.{reserve_funds-reply}
use raf_8_banka_4_backend.Trading.Consistency.Commit.{commit_funds-reply}
use raf_8_banka_4_backend.Trading.Consistency.Confirm.{
  confirm_shares-outcome, save_progress-ok, pair-eq, Row-same,
}
use raf_8_banka_4_backend.Trading.Consistency.Live.{on_live_contract-ok}
use raf_8_banka_4_backend.Trading.Consistency.Settle.{
  transfer_ownership-outcome, complete_execution-outcome, settle-ok, complete_body-ok,
}
use raf_8_banka_4_backend.Trading.Consistency.Rounds.{
  at_init, at_funds_reserved, at_shares_confirmed, at_funds_committed, at_ownership_transferred,
}
use raf_8_banka_4_backend.Trading.Progress.{
  Found, Resting, change_execution-Found, call_bank-executions, find-save_execution_row,
}
use raf_8_banka_4_backend.Trading.Progress.Steps.{
  At, advance-At, finish_step-executions, reserve_refused-Resting, commit_refused-Resting,
  confirm_failed-Resting, confirm_expired-Resting,
}

-- The steps that are left to a step, which each take a round.
abbrev pub steps_left : OtcExecutionStep → ℕ
steps_left OtcExecutionStep.init = 5
steps_left OtcExecutionStep.funds_reserved = 4
steps_left OtcExecutionStep.shares_confirmed = 3
steps_left OtcExecutionStep.funds_committed = 2
steps_left OtcExecutionStep.ownership_transferred = 1
steps_left OtcExecutionStep.completed = 0

-- The execution rests, or n rounds are enough for what is left.
abbrev pub Within : (ℕ → Env) → ℕ → ℕ → World → Type 0
Within envs i n t =
    Resting envs i t
    ⊎ ((e : OtcExecutionSaga) × Found i e t
        × (e.status ≡ OtcExecutionStatus.in_progress)
        × (steps_left e.current_step ≤ n))
    ⊎ ((e : OtcExecutionSaga) × Found i e t
        × (e.status ≡ OtcExecutionStatus.compensating)
        × (1 ≤ n))

At-Within :
    (envs : ℕ → Env) (i n : ℕ) (step : OtcExecutionStep) (t : World)
    → steps_left step ≤ n
    → At i step t
    → Within envs i n t
At-Within envs i n step t left (e, found, going, at) =
    inr (inl (e, found, going, subst (λ st. steps_left st ≤ n) (sym at) left))

module _ (envs : ℕ → Env) (env : Env) (e : OtcExecutionSaga) (s : World)
    (off : env.fault_enabled ≡ false) (soon : (k : ℕ) → (envs k).now < env.now + 30)
    (row : Row e.otc_execution_saga_id e s) (going : is_terminal_execution_status e.status ≡ false)
    (n : ℕ) where
  reserve_reply-Within :
      (reply : Reply) (w : World) {t : World}
      → 4 ≤ n
      → Found e.otc_execution_saga_id e w
      → after_reserve_reply env e reply w ≡ (ok tt, t)
      → Within envs e.otc_execution_saga_id n t
  unfolding after_reserve_reply
  reserve_reply-Within (refused code) w left found h =
      inl (reserve_refused-Resting envs env e w off soon found going code h)
  reserve_reply-Within (replied q) w {t} left found h =
      At-Within envs e.otc_execution_saga_id n OtcExecutionStep.funds_reserved t left (
        advance-At envs env e w off soon found going OtcExecutionStep.funds_reserved f1
          q.execution_id h)

  commit_reply-Within :
      (reply : Reply) (w : World) {t : World}
      → 2 ≤ n
      → Found e.otc_execution_saga_id e w
      → after_commit_reply env e reply w ≡ (ok tt, t)
      → Within envs e.otc_execution_saga_id n t
  unfolding after_commit_reply
  commit_reply-Within (refused code) w left found h =
      inl (commit_refused-Resting envs env e w off soon found going code h)
  commit_reply-Within (replied q) w {t} left found h =
      At-Within envs e.otc_execution_saga_id n OtcExecutionStep.funds_committed t left (
        advance-At envs env e w off soon found going OtcExecutionStep.funds_committed f3
          q.execution_id h)

  reserve_funds-Within :
      {t : World}
      → 4 ≤ n
      → reserve_funds env e s ≡ (ok tt, t)
      → Within envs e.otc_execution_saga_id n t
  unfolding request_funds
  reserve_funds-Within left h =
      let p = request_funds env e (contract_of e.contract_id s.contracts) s in
      reserve_reply-Within p.0 p.1 left
        (ap (find_execution_row e.otc_execution_saga_id) (call_bank-executions _ _ s) ∙ row.0)
        (sym (reserve_funds-reply env e s off (pair-eq {p = p} refl refl)) ∙ h)

  commit_funds-Within :
      {t : World}
      → 2 ≤ n
      → commit_funds env e s ≡ (ok tt, t)
      → Within envs e.otc_execution_saga_id n t
  commit_funds-Within left h =
      let p = call_bank (env.delivery commit_call) (Funds.commit env.bank e.execution_key) s in
      commit_reply-Within p.0 p.1 left
        (ap (find_execution_row e.otc_execution_saga_id) (call_bank-executions _ _ s) ∙ row.0)
        (sym (commit_funds-reply env e s off (pair-eq {p = p} refl refl)) ∙ h)

  -- A step that has saved the row in its transaction.
  saved-Within :
      (step : OtcExecutionStep) (w t : World)
      → steps_left step ≤ n
      → w.executions
        ≡ save_execution_row
            (record e {
              current_step = step;
              status = OtcExecutionStatus.in_progress;
              next_retry_at = none;
            })
            s.executions
      → t.executions ≡ w.executions
      → Within envs e.otc_execution_saga_id n t
  saved-Within step w t left rows kept = At-Within envs e.otc_execution_saga_id n step t left (
    _,
    ap (find_execution_row e.otc_execution_saga_id) (kept ∙ rows)
        ∙ find-save_execution_row e.otc_execution_saga_id e
            (record e {
              current_step = step;
              status = OtcExecutionStatus.in_progress;
              next_retry_at = none;
            })
            s row.0 refl,
    refl,
    refl,
  )

  confirm_shares-Within :
      {t : World}
      → 3 ≤ n
      → confirm_shares env e s ≡ (ok tt, t)
      → Within envs e.otc_execution_saga_id n t
  unfolding confirm_body after_confirm
  confirm_shares-Within {t} left h =
      let body = within_transaction (env.fails commit_step) (confirm_body env e) s in
      let step = step_after_confirm env e s in
      elim (Result-cases body.0) [
        | inr (y, bad) ↦
            let whole : body ≡ (err y, s) =
              pair-eq bad (within_transaction_err _ (confirm_body env e) s bad) in
            inl (
              confirm_failed-Resting envs env e s off soon row.0 going y step
                (sym (confirm_shares-outcome env e s off whole) ∙ h))
        | inl (v, good) ↦
            let whole : body ≡ (ok v, body.1) = pair-eq good refl in
            let ran = within_transaction_ok _ (confirm_body env e) s whole in
            let later = sym (confirm_shares-outcome env e s off whole) ∙ h in
            elim (on_live_contract-ok env e
              (λ c r. save_progress env e OtcExecutionStep.shares_confirmed) s ran) [
                | inl (is, closed) ↦ inl (
                    confirm_expired-Resting envs env e body.1 off soon
                      (Row-same e s body.1 closed.0 row).0 going step
                      (subst (λ w. after_confirm env e step (ok w) body.1 ≡ (ok tt, t)) is later))
                | inr (c, r, there, active, found, held, is, done) ↦
                    let finished =
                      subst (λ w. after_confirm env e step (ok w) body.1 ≡ (ok tt, t)) is later in
                    saved-Within OtcExecutionStep.shares_confirmed body.1 t left
                      (ap (λ w. w.executions)
                        (save_progress-ok env e OtcExecutionStep.shares_confirmed s done))
                      (sym (ap (λ p. p.1.executions) finished)
                        ∙ finish_step-executions envs env e s off soon row.0 going f2 body.1)
              ]
      ]

  -- A failed transfer turns the execution to paying back.
  undo-Within :
      (w : World) {t : World}
      → 1 ≤ n
      → Found e.otc_execution_saga_id e w
      → begin_compensation env e.otc_execution_saga_id OtcExecutionStep.funds_committed
          (append_saga_log env e.otc_execution_saga_id f4 errored w)
        ≡ (ok tt, t)
      → Within envs e.otc_execution_saga_id n t
  unfolding begin_compensation append_saga_log
  undo-Within w left found h = inr (
      inr (
        record e {
          current_step = OtcExecutionStep.funds_committed;
          status = OtcExecutionStatus.compensating;
          next_retry_at = none;
        },
        change_execution-Found env e.otc_execution_saga_id _ e
            (append_saga_log env e.otc_execution_saga_id f4 errored w) found going refl h,
        refl,
        left,
      ))

  transfer_ownership-Within :
      {t : World}
      → 1 ≤ n
      → transfer_ownership env e s ≡ (ok tt, t)
      → Within envs e.otc_execution_saga_id n t
  unfolding transfer_body after_transfer
  transfer_ownership-Within {t} left h =
      let body = within_transaction (env.fails commit_step) (transfer_body env e) s in
      elim (Result-cases body.0) [
        | inr (y, bad) ↦
            let whole : body ≡ (err y, s) =
              pair-eq bad (within_transaction_err _ (transfer_body env e) s bad) in
            undo-Within s left row.0 (sym (transfer_ownership-outcome env e s off whole) ∙ h)
        | inl (v, good) ↦
            let whole : body ≡ (ok v, body.1) = pair-eq good refl in
            let ran = within_transaction_ok _ (transfer_body env e) s whole in
            let later = sym (transfer_ownership-outcome env e s off whole) ∙ h in
            elim (on_live_contract-ok env e (settle env e) s ran) [
              | inl (is, closed) ↦
                  undo-Within body.1 left (Row-same e s body.1 closed.0 row).0
                    (subst (λ w. after_transfer env e (ok w) body.1 ≡ (ok tt, t)) is later)
              | inr (c, r, there, active, found, held, is, done) ↦
                  let finished =
                    subst (λ w. after_transfer env e (ok w) body.1 ≡ (ok tt, t)) is later in
                  saved-Within OtcExecutionStep.ownership_transferred body.1 t left
                    (settle-ok env e c r s done).0
                    (sym (ap (λ p. p.1.executions) finished)
                      ∙ finish_step-executions envs env e s off soon row.0 going f4 body.1)
            ]
      ]

  complete_execution-Resting :
      {t : World}
      → e.status ≡ OtcExecutionStatus.in_progress
      → complete_execution env e s ≡ (ok tt, t)
      → Resting envs e.otc_execution_saga_id t
  unfolding after_complete append_saga_log is_terminal_execution_status
  complete_execution-Resting {t} forth h =
      let body = within_transaction (env.fails commit_step) (complete_body env e) s in
      elim (Result-cases body.0) [
        | inr (y, bad) ↦
            let whole : body ≡ (err y, s) =
              pair-eq bad (within_transaction_err _ (complete_body env e) s bad) in
            let stopped = sym (complete_execution-outcome env e s off whole) ∙ h in absurd (cc)
        | inl (v, good) ↦
            let whole : body ≡ (ok v, body.1) = pair-eq good refl in
            let (is, done) =
              complete_body-ok env e s row forth
                (within_transaction_ok _ (complete_body env e) s whole) in
            let finished =
              subst (λ w. after_complete env e (ok w) body.1 ≡ (ok tt, t)) is
                (sym (complete_execution-outcome env e s off whole) ∙ h) in
            (
              _,
              ap (find_execution_row e.otc_execution_saga_id)
                    (sym (ap (λ p. p.1.executions) finished) ∙ ap (λ w. w.executions) done)
                  ∙ find-save_execution_row e.otc_execution_saga_id e
                      (record e {
                        current_step = OtcExecutionStep.completed;
                        status = OtcExecutionStatus.completed;
                        next_retry_at = none;
                      })
                      s row.0 refl,
              inl refl,
            )
      ]

  -- A step that returns without an error leaves one round less to do.
  pub step-Within :
      (step : OtcExecutionStep) {t : World}
      → e.current_step ≡ step
      → step ≢ OtcExecutionStep.completed
      → e.status ≡ OtcExecutionStatus.in_progress
      → steps_left step ≤ suc n
      → process_step env e s ≡ (ok tt, t)
      → Within envs e.otc_execution_saga_id n t
  step-Within OtcExecutionStep.init at open_step forth left h =
      reserve_funds-Within (omega arith) (sym (at_init env e s at) ∙ h)
  step-Within OtcExecutionStep.funds_reserved at open_step forth left h =
      confirm_shares-Within (omega arith) (sym (at_funds_reserved env e s at) ∙ h)
  step-Within OtcExecutionStep.shares_confirmed at open_step forth left h =
      commit_funds-Within (omega arith) (sym (at_shares_confirmed env e s at) ∙ h)
  step-Within OtcExecutionStep.funds_committed at open_step forth left h =
      transfer_ownership-Within (omega arith) (sym (at_funds_committed env e s at) ∙ h)
  step-Within OtcExecutionStep.ownership_transferred at open_step forth left h =
      inl (complete_execution-Resting forth (sym (at_ownership_transferred env e s at) ∙ h))
  step-Within OtcExecutionStep.completed at open_step forth left h = absurd (open_step refl)
