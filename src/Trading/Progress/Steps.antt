-- ===== src/Trading/Progress/Steps.antt =====
-- What a step that returns without an error has done to the execution row.
use raf_8_banka_4_backend.Shared.{
  String, ℕ, ◌+◌, ◌<◌, ◌>>◌, ◌≡◌, refl, ◌⊎◌, inl, inr, sym, ap, ◌∙◌, true, false, Bool-cases, arith,
  Result-cases, ok, err, AppError,
}
use raf_8_banka_4_backend.Trading.Model.{
  OtcExecutionSaga, OtcExecutionStep, OtcExecutionStatus, SagaStep, errored, succeeded, f1, f2, f3,
  after,
}
use raf_8_banka_4_backend.Trading.World.{
  World, Env, GrpcCode, refused, is_terminal_banking_error, append_saga_log, find_execution_row,
}
use raf_8_banka_4_backend.Trading.Execution.{
  is_terminal_execution_status, compensate_release_funds, compensate_refund_funds, release_and_fail,
  advance_execution,
}
use raf_8_banka_4_backend.Trading.Steps.{
  finish_step, after_reserve_reply, after_confirm, is_client_error,
}
use raf_8_banka_4_backend.Trading.Settlement.{after_commit_reply}
use raf_8_banka_4_backend.Trading.Saga.{handle_compensation}
use raf_8_banka_4_backend.Trading.Consistency.Undo.{no_forward_fault}
use raf_8_banka_4_backend.Trading.Consistency.Backward.{
  release_and_fail-done, release_and_fail-not_done, handle-released, handle-not_released,
  handle-refunded, handle-not_refunded,
}
use raf_8_banka_4_backend.Trading.Consistency.Confirm.{pair-eq}
use raf_8_banka_4_backend.Trading.Progress.{
  Found, Resting, change_execution-Found, mark_failed-Resting, retry-Resting, release-executions,
  refund-executions,
}

-- The row is in progress at a step.
abbrev pub At : ℕ → OtcExecutionStep → World → Type 0
At i step t =
    (e : OtcExecutionSaga) × Found i e t
    × (e.status ≡ OtcExecutionStatus.in_progress)
    × (e.current_step ≡ step)

module _ (env : Env) (e : OtcExecutionSaga) (s : World) where
  release_and_fail-failed :
      {x : AppError} {t : World}
      → (compensate_release_funds env e s).0 ≡ err x
      → release_and_fail env e s ≡ (ok tt, t)
      → ⊥
  unfolding release_and_fail
  release_and_fail-failed bad h = ground arith

module _ (envs : ℕ → Env) (env : Env) (e : OtcExecutionSaga) (s : World)
    (off : env.fault_enabled ≡ false) (soon : (k : ℕ) → (envs k).now < env.now + 30)
    (found : Found e.otc_execution_saga_id e s)
    (going : is_terminal_execution_status e.status ≡ false) where
  pub release_and_fail-Resting :
      {t : World} → release_and_fail env e s ≡ (ok tt, t) → Resting envs e.otc_execution_saga_id t
  release_and_fail-Resting h =
      let p = compensate_release_funds env e s in
      let found' : Found e.otc_execution_saga_id e p.1 =
        ap (find_execution_row e.otc_execution_saga_id) (release-executions env e s off) ∙ found in
      elim (Result-cases p.0) [
        | inr (x, bad) ↦ absurd (release_and_fail-failed env e s bad h)
        | inl (v, good) ↦ elim (Bool-cases v) [
          | inl done ↦
              mark_failed-Resting envs env e p.1 off soon found' going
                OtcExecutionStep.funds_reserved
                (sym (release_and_fail-done env e s (pair-eq {p = p} (good ∙ ap ok done) refl)) ∙ h)
          | inr not_done ↦
              retry-Resting envs env e p.1 off soon found' going OtcExecutionStep.funds_reserved
                OtcExecutionStatus.compensating
                (sym (
                    release_and_fail-not_done env e s
                      (pair-eq {p = p} (good ∙ ap ok not_done) refl))
                  ∙ h)
        ]
      ]

  pub finish_step-executions :
      (step : SagaStep) (w : World) → (finish_step env e step w).1.executions ≡ w.executions
  unfolding finish_step append_saga_log
  finish_step-executions step w = ground (
    arith,
    no_forward_fault env e step after (append_saga_log env e.otc_execution_saga_id step succeeded w)
        off,
  )

  advanced-At :
      (next : OtcExecutionStep) (key : String) {w : World}
      → advance_execution env e.otc_execution_saga_id next OtcExecutionStatus.in_progress key s
        ≡ (ok tt, w)
      → At e.otc_execution_saga_id next w
  unfolding advance_execution
  advanced-At next key h =
      (_, change_execution-Found env e.otc_execution_saga_id _ e s found going refl h, refl, refl)

  pub advance-At :
      (next : OtcExecutionStep) (step : SagaStep) (key : String) {t : World}
      → (advance_execution env e.otc_execution_saga_id next OtcExecutionStatus.in_progress key
            >> finish_step env e step)
          s
        ≡ (ok tt, t)
      → At e.otc_execution_saga_id next t
  advance-At next step key {t} h =
      elim (Result-cases
        (advance_execution env e.otc_execution_saga_id next OtcExecutionStatus.in_progress key
          s).0) [
            | inr (x, bad) ↦ absurd (ground arith)
            | inl (u, good) ↦
                let w =
                  (advance_execution env e.otc_execution_saga_id next OtcExecutionStatus.in_progress
                    key s).1 in
                let advanced = advanced-At next key (
                  pair-eq
                    {p = advance_execution env e.otc_execution_saga_id next
                      OtcExecutionStatus.in_progress key s}
                    good refl) in
                let kept : t.executions ≡ w.executions =
                  ground (arith, finish_step-executions step w) in
                (
                  advanced.0,
                  ap (find_execution_row e.otc_execution_saga_id) kept ∙ advanced.1,
                  advanced.2,
                  advanced.3,
                )
          ]

  -- A refusal of the reservation: the execution fails, or it waits for a retry.
  pub reserve_refused-Resting :
      (code : GrpcCode) {t : World}
      → after_reserve_reply env e (refused code) s ≡ (ok tt, t)
      → Resting envs e.otc_execution_saga_id t
  unfolding after_reserve_reply append_saga_log
  reserve_refused-Resting code h = elim (Bool-cases (is_terminal_banking_error code)) [
    | inl final ↦
        mark_failed-Resting envs env e (append_saga_log env e.otc_execution_saga_id f1 errored s)
          off soon found going e.current_step (rw final at h)
    | inr passing ↦
        retry-Resting envs env e (append_saga_log env e.otc_execution_saga_id f1 errored s) off soon
          found going e.current_step OtcExecutionStatus.in_progress (rw passing at h)
  ]

module _ (envs : ℕ → Env) (env : Env) (e : OtcExecutionSaga) (s : World)
    (off : env.fault_enabled ≡ false) (soon : (k : ℕ) → (envs k).now < env.now + 30)
    (found : Found e.otc_execution_saga_id e s)
    (going : is_terminal_execution_status e.status ≡ false) where
  pub commit_refused-Resting :
      (code : GrpcCode) {t : World}
      → after_commit_reply env e (refused code) s ≡ (ok tt, t)
      → Resting envs e.otc_execution_saga_id t
  unfolding after_commit_reply append_saga_log
  commit_refused-Resting code h = elim (Bool-cases (is_terminal_banking_error code)) [
    | inl final ↦
        release_and_fail-Resting envs env e
          (append_saga_log env e.otc_execution_saga_id f3 errored s) off soon found going
          (rw final at h)
    | inr passing ↦
        retry-Resting envs env e (append_saga_log env e.otc_execution_saga_id f3 errored s) off soon
          found going e.current_step OtcExecutionStatus.in_progress (rw passing at h)
  ]

  -- A failed confirmation.
  pub confirm_failed-Resting :
      (x : AppError) (step : OtcExecutionStep) {t : World}
      → after_confirm env e step (err x) s ≡ (ok tt, t)
      → Resting envs e.otc_execution_saga_id t
  unfolding after_confirm append_saga_log
  confirm_failed-Resting x step h = elim (Bool-cases (is_client_error x)) [
    | inl theirs ↦
        release_and_fail-Resting envs env e
          (append_saga_log env e.otc_execution_saga_id f2 errored s) off soon found going
          (rw theirs at h)
    | inr ours ↦
        retry-Resting envs env e (append_saga_log env e.otc_execution_saga_id f2 errored s) off soon
          found going step OtcExecutionStatus.in_progress (rw ours at h)
  ]

  pub confirm_expired-Resting :
      (step : OtcExecutionStep) {t : World}
      → after_confirm env e step (ok true) s ≡ (ok tt, t)
      → Resting envs e.otc_execution_saga_id t
  unfolding after_confirm append_saga_log
  confirm_expired-Resting step h =
      release_and_fail-Resting envs env e (append_saga_log env e.otc_execution_saga_id f2 errored s)
        off soon found going h

module _ (env : Env) (e : OtcExecutionSaga) (s : World) where
  handle-failed :
      {x : AppError} {t : World}
      → e.current_step ≡ OtcExecutionStep.funds_reserved
      → (compensate_release_funds env e s).0 ≡ err x
      → handle_compensation env e s ≡ (ok tt, t)
      → ⊥
  unfolding handle_compensation
  handle-failed at bad h = ground arith

  handle-refund_failed :
      {x : AppError} {t : World}
      → e.current_step ≡ OtcExecutionStep.funds_committed
      → (compensate_refund_funds env e s).0 ≡ err x
      → handle_compensation env e s ≡ (ok tt, t)
      → ⊥
  unfolding handle_compensation
  handle-refund_failed at bad h = ground arith

module _ (envs : ℕ → Env) (env : Env) (e : OtcExecutionSaga) (s : World)
    (off : env.fault_enabled ≡ false) (soon : (k : ℕ) → (envs k).now < env.now + 30)
    (found : Found e.otc_execution_saga_id e s)
    (going : is_terminal_execution_status e.status ≡ false) where
  -- A compensation that returns without an error.
  pub handle_compensation-Resting :
      (step : OtcExecutionStep) {t : World}
      → e.current_step ≡ step
      → (step ≡ OtcExecutionStep.funds_reserved) ⊎ (step ≡ OtcExecutionStep.funds_committed)
      → handle_compensation env e s ≡ (ok tt, t)
      → Resting envs e.otc_execution_saga_id t
  handle_compensation-Resting step at (inl first) h =
      let p = compensate_release_funds env e s in
      let found' : Found e.otc_execution_saga_id e p.1 =
        ap (find_execution_row e.otc_execution_saga_id) (release-executions env e s off) ∙ found in
      elim (Result-cases p.0) [
        | inr (x, bad) ↦ absurd (handle-failed env e s (at ∙ first) bad h)
        | inl (v, good) ↦ elim (Bool-cases v) [
          | inl done ↦ mark_failed-Resting envs env e p.1 off soon found' going e.current_step (
              sym (handle-released env e s (at ∙ first) (pair-eq {p = p} (good ∙ ap ok done) refl))
              ∙ h)
          | inr not_done ↦
              retry-Resting envs env e p.1 off soon found' going e.current_step
                OtcExecutionStatus.compensating
                (sym (
                    handle-not_released env e s (at ∙ first)
                      (pair-eq {p = p} (good ∙ ap ok not_done) refl))
                  ∙ h)
        ]
      ]
  handle_compensation-Resting step at (inr last) h =
      let p = compensate_refund_funds env e s in
      let found' : Found e.otc_execution_saga_id e p.1 =
        ap (find_execution_row e.otc_execution_saga_id) (refund-executions env e s off) ∙ found in
      elim (Result-cases p.0) [
        | inr (x, bad) ↦ absurd (handle-refund_failed env e s (at ∙ last) bad h)
        | inl (v, good) ↦ elim (Bool-cases v) [
          | inl done ↦ mark_failed-Resting envs env e p.1 off soon found' going e.current_step (
              sym (handle-refunded env e s (at ∙ last) (pair-eq {p = p} (good ∙ ap ok done) refl))
              ∙ h)
          | inr not_done ↦
              retry-Resting envs env e p.1 off soon found' going e.current_step
                OtcExecutionStatus.compensating
                (sym (
                    handle-not_refunded env e s (at ∙ last)
                      (pair-eq {p = p} (good ∙ ap ok not_done) refl))
                  ∙ h)
        ]
      ]
