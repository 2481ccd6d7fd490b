-- ===== src/Trading/Consistency/Rounds.antt =====
-- The loop of processExecution: every round keeps the three records in agreement.
use native.Mathlib.Decide.{ℕ_discrete}
use raf_8_banka_4_backend.Shared.{
  ℕ, zero, suc, ◌>>◌, some, ◌≡◌, refl, ◌⊎◌, inl, inr, sym, subst, Bool, true, false, Bool-cases,
  arith, pure, find-key, not, Result, ok, err,
}
use raf_8_banka_4_backend.Trading.Model.{OtcExecutionSaga, OtcExecutionStep, OtcExecutionStatus}
use raf_8_banka_4_backend.Trading.World.{World, Env, find_execution_row}
use raf_8_banka_4_backend.Trading.Execution.{is_terminal_execution_status}
use raf_8_banka_4_backend.Trading.Steps.{reserve_funds, confirm_shares}
use raf_8_banka_4_backend.Trading.Settlement.{commit_funds, transfer_ownership, complete_execution}
use raf_8_banka_4_backend.Trading.Saga.{
  handle_compensation, process_step, advance, waits, load_and_advance, run_rounds,
  is_completed_step,
}
use raf_8_banka_4_backend.Trading.Consistency.{Row, Agrees, Consistent, then_keeps}
use raf_8_banka_4_backend.Trading.Consistency.Backward.{handle_compensation-Consistent}
use raf_8_banka_4_backend.Trading.Consistency.Reserve.{reserve_funds-Consistent}
use raf_8_banka_4_backend.Trading.Consistency.Confirm.{confirm_shares-Consistent}
use raf_8_banka_4_backend.Trading.Consistency.Commit.{commit_funds-Consistent}
use raf_8_banka_4_backend.Trading.Consistency.Settle.{
  transfer_ownership-Consistent, complete_execution-Consistent,
}

module _ (env : Env) (e : OtcExecutionSaga) (s : World) where
  pub at_init :
      e.current_step ≡ OtcExecutionStep.init → process_step env e s ≡ reserve_funds env e s
  unfolding process_step
  at_init at = ground arith

  pub at_funds_reserved :
      e.current_step ≡ OtcExecutionStep.funds_reserved
      → process_step env e s ≡ confirm_shares env e s
  unfolding process_step
  at_funds_reserved at = ground arith

  pub at_shares_confirmed :
      e.current_step ≡ OtcExecutionStep.shares_confirmed
      → process_step env e s ≡ commit_funds env e s
  unfolding process_step
  at_shares_confirmed at = ground arith

  pub at_funds_committed :
      e.current_step ≡ OtcExecutionStep.funds_committed
      → process_step env e s ≡ transfer_ownership env e s
  unfolding process_step
  at_funds_committed at = ground arith

  pub at_ownership_transferred :
      e.current_step ≡ OtcExecutionStep.ownership_transferred
      → process_step env e s ≡ complete_execution env e s
  unfolding process_step
  at_ownership_transferred at = ground arith

module _ (env : Env) (e : OtcExecutionSaga) (s : World) (off : env.fault_enabled ≡ false)
    (row : Row e.otc_execution_saga_id e s) (going : e.status ≡ OtcExecutionStatus.in_progress)
    (agrees : Agrees e e.status e.current_step s) where
  step-Consistent :
      (step : OtcExecutionStep)
      → e.current_step ≡ step
      → Agrees e OtcExecutionStatus.in_progress step s
      → Consistent e.otc_execution_saga_id (process_step env e s).1
  step-Consistent OtcExecutionStep.init at (m, x) =
      subst (λ p. Consistent e.otc_execution_saga_id p.1) (sym (at_init env e s at))
        (reserve_funds-Consistent env e s off row going at agrees.0 agrees.1)
  step-Consistent OtcExecutionStep.funds_reserved at (m, x) =
      subst (λ p. Consistent e.otc_execution_saga_id p.1) (sym (at_funds_reserved env e s at))
        (confirm_shares-Consistent env e s off row going at x m)
  step-Consistent OtcExecutionStep.shares_confirmed at (m, x) =
      subst (λ p. Consistent e.otc_execution_saga_id p.1) (sym (at_shares_confirmed env e s at))
        (commit_funds-Consistent env e s off row going at x m)
  step-Consistent OtcExecutionStep.funds_committed at (m, x) =
      subst (λ p. Consistent e.otc_execution_saga_id p.1) (sym (at_funds_committed env e s at))
        (transfer_ownership-Consistent env e s off row going at x m)
  step-Consistent OtcExecutionStep.ownership_transferred at (m, x) =
      subst (λ p. Consistent e.otc_execution_saga_id p.1)
        (sym (at_ownership_transferred env e s at))
        (complete_execution-Consistent env e s off row going agrees.0 agrees.1 x m)
  step-Consistent OtcExecutionStep.completed at (m, x) = elim m [ ]

module _ (env : Env) (e : OtcExecutionSaga) (s : World) (off : env.fault_enabled ≡ false)
    (row : Row e.otc_execution_saga_id e s) (agrees : Agrees e e.status e.current_step s) where
  -- What one round does.
  pub advance-cases :
      (st : OtcExecutionStatus)
      → e.status ≡ st
      → (advance env e s ≡ pure false s)
        ⊎ ((e.status ≡ OtcExecutionStatus.compensating)
            × (advance env e s ≡ (handle_compensation env e >> pure false) s))
        ⊎ ((e.status ≡ OtcExecutionStatus.in_progress)
            × ((v : Bool) × (advance env e s ≡ (process_step env e >> pure v) s)))
  unfolding advance is_terminal_execution_status
  advance-cases OtcExecutionStatus.completed at = inl (ground arith)
  advance-cases OtcExecutionStatus.failed at = inl (ground arith)
  advance-cases OtcExecutionStatus.compensating at = elim (Bool-cases (waits env e)) [
    | inl later ↦ inl (ground arith)
    | inr now ↦ inr (inl (at, ground arith))
  ]
  advance-cases OtcExecutionStatus.in_progress at = elim (Bool-cases (waits env e)) [
    | inl later ↦ inl (ground arith)
    | inr now ↦ inr (inr (at, (not (is_completed_step e.current_step), ground arith)))
  ]

  pub advance-Consistent : Consistent e.otc_execution_saga_id (advance env e s).1
  advance-Consistent = elim (advance-cases e.status refl) [
    | inl idle ↦ subst (λ p. Consistent e.otc_execution_saga_id p.1) (sym idle) (e, row, agrees)
    | inr (inl (undoing, back)) ↦
        subst (λ p. Consistent e.otc_execution_saga_id p.1) (sym back)
          (then_keeps (Consistent e.otc_execution_saga_id) (handle_compensation env e) (pure false)
            s (handle_compensation-Consistent env e s off row undoing agrees.1 agrees.0) (λ t h. h))
    | inr (inr (going, (v, forth))) ↦
        subst (λ p. Consistent e.otc_execution_saga_id p.1) (sym forth)
          (then_keeps (Consistent e.otc_execution_saga_id) (process_step env e) (pure v) s
            (step-Consistent env e s off row going agrees e.current_step refl
              (subst (λ st. Agrees e st e.current_step s) going agrees))
            (λ t h. h))
  ]

load-cases :
    (env : Env) (i : ℕ) (s : World) (e : OtcExecutionSaga)
    → find_execution_row i s.executions ≡ some e
    → ((load_and_advance env i s).1 ≡ s) ⊎ (load_and_advance env i s ≡ advance env e s)
unfolding load_and_advance
load-cases env i s e found = ground arith

pub load_and_advance-Consistent :
    (env : Env) (i : ℕ) (s : World)
    → env.fault_enabled ≡ false
    → Consistent i s
    → Consistent i (load_and_advance env i s).1
unfolding find_execution_row
load_and_advance-Consistent env i s off (e, row, agrees) = elim (load-cases env i s e row.0) [
  | inl same ↦ subst (Consistent i) (sym same) (e, row, agrees)
  | inr eq ↦
      let id : e.otc_execution_saga_id ≡ i =
        find-key ℕ_discrete (λ x. x.otc_execution_saga_id) i s.executions row.0 in
      subst (λ p. Consistent i p.1) (sym eq)
        (subst (λ j. Consistent j (advance env e s).1) id
          (advance-Consistent env e s off (subst (λ j. Row j e s) (sym id) row) agrees))
]

-- The rounds of one run, each in its own environment.
pub run_rounds-Consistent :
    (n : ℕ) (env : ℕ → Env) (i : ℕ) (s : World)
    → ((k : ℕ) → (env k).fault_enabled ≡ false)
    → Consistent i s
    → Consistent i (run_rounds n env i s).1
unfolding run_rounds
run_rounds-Consistent zero env i s off h = h
run_rounds-Consistent (suc n) env i s off h =
    go (load_and_advance (env n) i s) (load_and_advance-Consistent (env n) i s (off n) h)
      (λ t c. run_rounds-Consistent n env i t off c)
  where
    go :
        (p : Result Bool × World)
        → Consistent i p.1
        → ((t : World) → Consistent i t → Consistent i (run_rounds n env i t).1)
        → Consistent i
            (elim p.0 as (λ u. Result (Unit {0}) × World) [
              | err x ↦ (err x, p.1)
              | ok more ↦ elim more [ true ↦ run_rounds n env i p.1 | false ↦ (ok tt, p.1) ]
            ]).1
    go (err x, t) c again = c
    go (ok true, t) c again = again t c
    go (ok false, t) c again = c
