-- ===== src/Trading/Consistency/Backward.antt =====
-- An execution that is undone: `releaseAndFail` and `handleCompensation` keep the records in agreement.
use raf_8_banka_4_backend.Shared.{
  ◌≡◌, refl, ◌⊎◌, inl, inr, sym, ap, ◌∙◌, subst, true, false, Option, arith, ok,
}
use raf_8_banka_4_backend.Banking.Model.{
  OtcFundsReservation, OtcFundsReservationStatus, reserved, released,
}
use raf_8_banka_4_backend.Banking.Store as Bank
use raf_8_banka_4_backend.Trading.Model.{
  OtcExecutionSaga, OtcExecutionStep, OtcExecutionStatus, SagaStep, c1, c3, OtcExecutionLogOutcome,
}
use raf_8_banka_4_backend.Trading.World.{World, Env, find_contract_row, append_saga_log}
use raf_8_banka_4_backend.Trading.Execution.{
  compensate_release_funds, compensate_refund_funds, release_and_fail, mark_failed,
  update_retry_state,
}
use raf_8_banka_4_backend.Trading.Steps.{contract_of}
use raf_8_banka_4_backend.Trading.Saga.{handle_compensation}
use raf_8_banka_4_backend.Trading.Consistency.{
  In, Fits, Row, Consistent, settled, is_exercised, change_execution-Consistent,
}
use raf_8_banka_4_backend.Trading.Consistency.Undo.{called, funds, release-Undone, refund-Undone}

-- An execution whose contract is not exercised, at a step before the settlement.
abbrev pub Open : OtcExecutionSaga → World → Type 0
Open e s =
    (is_exercised (find_contract_row e.contract_id s.contracts) ≡ false)
    × (settled e.current_step ≡ false)

-- The row may stay as it is while the funds are of one of two statuses.
abbrev pub Stays :
    OtcExecutionSaga → World → OtcFundsReservationStatus → OtcFundsReservationStatus → Type 0
Stays e s from to =
    (m : Option OtcFundsReservation)
    → In from m ⊎ In to m
    → Fits e.status e.current_step (contract_of e.contract_id s.contracts) m

module _ (env : Env) (e : OtcExecutionSaga) (s : World) (row : Row e.otc_execution_saga_id e s)
    (open_still : Open e s) (step : SagaStep) (outcome : OtcExecutionLogOutcome)
    (b : Bank.Store) where
  pub mark_failed-Consistent :
      (at_step : OtcExecutionStep)
      → settled at_step ≡ false
      → Fits e.status e.current_step (contract_of e.contract_id s.contracts) (funds e b)
      → Fits OtcExecutionStatus.failed at_step (contract_of e.contract_id s.contracts) (funds e b)
      → Consistent e.otc_execution_saga_id
          (mark_failed env e.otc_execution_saga_id at_step (called env e step outcome s b)).1
  unfolding mark_failed append_saga_log
  mark_failed-Consistent at_step early old new =
      change_execution-Consistent env e.otc_execution_saga_id _ e (called env e step outcome s b)
        row refl refl refl (old, open_still.0 ∙ sym open_still.1) (new, open_still.0 ∙ sym early)

  pub retry-Consistent :
      (at_step : OtcExecutionStep) (status : OtcExecutionStatus)
      → settled at_step ≡ false
      → Fits e.status e.current_step (contract_of e.contract_id s.contracts) (funds e b)
      → Fits status at_step (contract_of e.contract_id s.contracts) (funds e b)
      → Consistent e.otc_execution_saga_id
          (update_retry_state env e.otc_execution_saga_id at_step status
            (called env e step outcome s b)).1
  unfolding update_retry_state append_saga_log
  retry-Consistent at_step status early old new =
      change_execution-Consistent env e.otc_execution_saga_id _ e (called env e step outcome s b)
        row refl refl refl (old, open_still.0 ∙ sym open_still.1) (new, open_still.0 ∙ sym early)

module _ (env : Env) (e : OtcExecutionSaga) (s : World) where
  pub release_and_fail-done :
      {t : World}
      → compensate_release_funds env e s ≡ (ok true, t)
      → release_and_fail env e s
        ≡ mark_failed env e.otc_execution_saga_id OtcExecutionStep.funds_reserved t
  unfolding release_and_fail
  release_and_fail-done h = ground arith

  pub release_and_fail-not_done :
      {t : World}
      → compensate_release_funds env e s ≡ (ok false, t)
      → release_and_fail env e s
        ≡ update_retry_state env e.otc_execution_saga_id OtcExecutionStep.funds_reserved
            OtcExecutionStatus.compensating t
  unfolding release_and_fail
  release_and_fail-not_done h = ground arith

module _ (env : Env) (e : OtcExecutionSaga) (s : World) (off : env.fault_enabled ≡ false)
    (row : Row e.otc_execution_saga_id e s) (open_still : Open e s) where
  pub release_and_fail-Consistent :
      Stays e s reserved released
      → In reserved (funds e s.banking) ⊎ In released (funds e s.banking)
      → Consistent e.otc_execution_saga_id (release_and_fail env e s).1
  release_and_fail-Consistent stays m =
      let (b, result) = release-Undone env e s off row.2 m in
      elim result [
        | inl (eq, now) ↦
            subst (λ p. Consistent e.otc_execution_saga_id p.1)
              (sym (release_and_fail-done env e s eq))
              (mark_failed-Consistent env e s row open_still c1 _ b _ refl (stays _ (inr now))
                (refl, inr (inl now)))
        | inr (eq, either) ↦
            subst (λ p. Consistent e.otc_execution_saga_id p.1)
              (sym (release_and_fail-not_done env e s eq))
              (retry-Consistent env e s row open_still c1 _ b _ _ refl (stays _ either) either)
      ]

-- `handleCompensation` by its step.
module _ (env : Env) (e : OtcExecutionSaga) (s : World) {t : World} where
  pub handle-released :
      e.current_step ≡ OtcExecutionStep.funds_reserved
      → compensate_release_funds env e s ≡ (ok true, t)
      → handle_compensation env e s ≡ mark_failed env e.otc_execution_saga_id e.current_step t
  unfolding handle_compensation
  handle-released at h = ground arith

  pub handle-not_released :
      e.current_step ≡ OtcExecutionStep.funds_reserved
      → compensate_release_funds env e s ≡ (ok false, t)
      → handle_compensation env e s
        ≡ update_retry_state env e.otc_execution_saga_id e.current_step
            OtcExecutionStatus.compensating t
  unfolding handle_compensation
  handle-not_released at h = ground arith

  pub handle-refunded :
      e.current_step ≡ OtcExecutionStep.funds_committed
      → compensate_refund_funds env e s ≡ (ok true, t)
      → handle_compensation env e s ≡ mark_failed env e.otc_execution_saga_id e.current_step t
  unfolding handle_compensation
  handle-refunded at h = ground arith

  pub handle-not_refunded :
      e.current_step ≡ OtcExecutionStep.funds_committed
      → compensate_refund_funds env e s ≡ (ok false, t)
      → handle_compensation env e s
        ≡ update_retry_state env e.otc_execution_saga_id e.current_step
            OtcExecutionStatus.compensating t
  unfolding handle_compensation
  handle-not_refunded at h = ground arith

module _ (env : Env) (e : OtcExecutionSaga) (s : World) (off : env.fault_enabled ≡ false)
    (row : Row e.otc_execution_saga_id e s) (undoing : e.status ≡ OtcExecutionStatus.compensating)
    (x : is_exercised (find_contract_row e.contract_id s.contracts) ≡ settled e.current_step) where
  abbrev Point : OtcExecutionStep → Option OtcFundsReservation → Type 0
  Point step m = Fits OtcExecutionStatus.compensating step (contract_of e.contract_id s.contracts) m

  as_it_is :
      (step : OtcExecutionStep)
      → e.current_step ≡ step
      → (m : Option OtcFundsReservation) → Point step m
      → Fits e.status e.current_step (contract_of e.contract_id s.contracts) m
  as_it_is step at m fits =
      subst (λ st. Fits st e.current_step (contract_of e.contract_id s.contracts) m) (sym undoing)
        (subst (λ st. Point st m) (sym at) fits)

  handle_at-Consistent :
      (step : OtcExecutionStep)
      → e.current_step ≡ step
      → Point step (funds e s.banking)
      → Consistent e.otc_execution_saga_id (handle_compensation env e s).1
  handle_at-Consistent OtcExecutionStep.funds_reserved at m =
      let early : settled e.current_step ≡ false = ap settled at in
      let (b, result) = release-Undone env e s off row.2 m in
      elim result [
        | inl (eq, now) ↦
            subst (λ p. Consistent e.otc_execution_saga_id p.1)
              (sym (handle-released env e s at eq))
              (mark_failed-Consistent env e s row (x ∙ early, early) c1 _ b _ early
                (as_it_is _ at _ (inr now)) (early, inr (inl now)))
        | inr (eq, either) ↦
            subst (λ p. Consistent e.otc_execution_saga_id p.1)
              (sym (handle-not_released env e s at eq))
              (retry-Consistent env e s row (x ∙ early, early) c1 _ b _ _ early
                (as_it_is _ at _ either) (subst (λ st. Point st (funds e b)) (sym at) either))
      ]
  handle_at-Consistent OtcExecutionStep.funds_committed at m =
      let early : settled e.current_step ≡ false = ap settled at in
      let (b, result) = refund-Undone env e s off row.2 m in
      elim result [
        | inl (eq, now) ↦
            subst (λ p. Consistent e.otc_execution_saga_id p.1)
              (sym (handle-refunded env e s at eq))
              (mark_failed-Consistent env e s row (x ∙ early, early) c3 _ b _ early
                (as_it_is _ at _ (inr now)) (early, inr (inr now)))
        | inr (eq, either) ↦
            subst (λ p. Consistent e.otc_execution_saga_id p.1)
              (sym (handle-not_refunded env e s at eq))
              (retry-Consistent env e s row (x ∙ early, early) c3 _ b _ _ early
                (as_it_is _ at _ either) (subst (λ st. Point st (funds e b)) (sym at) either))
      ]
  handle_at-Consistent OtcExecutionStep.init at m = elim m [ ]
  handle_at-Consistent OtcExecutionStep.shares_confirmed at m = elim m [ ]
  handle_at-Consistent OtcExecutionStep.ownership_transferred at m = elim m [ ]
  handle_at-Consistent OtcExecutionStep.completed at m = elim m [ ]

  pub handle_compensation-Consistent :
      Fits e.status e.current_step (contract_of e.contract_id s.contracts) (funds e s.banking)
      → Consistent e.otc_execution_saga_id (handle_compensation env e s).1
  handle_compensation-Consistent fits = handle_at-Consistent e.current_step refl (
      subst
        (λ st. Fits st e.current_step (contract_of e.contract_id s.contracts) (funds e s.banking))
        undoing fits)
