-- ===== src/Trading/Progress/Runs.antt =====
-- The rounds of one run of processExecution together: the run ends by itself before its bound.
use native.Mathlib.Decide.{ℕ_discrete}
use raf_8_banka_4_backend.Shared.{
  ℕ, zero, suc, ◌+◌, ◌<◌, ◌≤◌, ◌≡◌, ◌≢◌, refl, ◌⊎◌, inl, inr, sym, ap, ◌∙◌, subst, not, Bool, true,
  false, Bool-cases, some, arith, Result-cases, ok, find-key,
}
use raf_8_banka_4_backend.Trading.Model.{OtcExecutionSaga, OtcExecutionStep, OtcExecutionStatus}
use raf_8_banka_4_backend.Trading.World.{World, Env, find_execution_row}
use raf_8_banka_4_backend.Trading.Execution.{is_terminal_execution_status}
use raf_8_banka_4_backend.Trading.Saga.{
  advance, waits, is_completed_step, load_and_advance, run_rounds, process_execution,
}
use raf_8_banka_4_backend.Trading.Consistency.{Row, Agrees, Consistent}
use raf_8_banka_4_backend.Trading.Consistency.Confirm.{pair-eq}
use raf_8_banka_4_backend.Trading.Consistency.Rounds.{load_and_advance-Consistent}
use raf_8_banka_4_backend.Trading.Progress.{Found}
use raf_8_banka_4_backend.Trading.Progress.Steps.{handle_compensation-Resting}
use raf_8_banka_4_backend.Trading.Progress.Moves.{steps_left, Within, step-Within}
use raf_8_banka_4_backend.Trading.Progress.Rounds.{
  Ended, Resting-Ended, load-ok, advance_over, advance_waiting, advance_back, advance_forth,
  waits-some, waits-later,
}

open_step :
    (e : OtcExecutionSaga) (st : OtcExecutionStep) (s : World)
    → Agrees e OtcExecutionStatus.in_progress st s
    → (st ≢ OtcExecutionStep.completed) × (not (is_completed_step st) ≡ true)
open_step e OtcExecutionStep.init s agrees = (λ p. cc, refl)
open_step e OtcExecutionStep.funds_reserved s agrees = (λ p. cc, refl)
open_step e OtcExecutionStep.shares_confirmed s agrees = (λ p. cc, refl)
open_step e OtcExecutionStep.funds_committed s agrees = (λ p. cc, refl)
open_step e OtcExecutionStep.ownership_transferred s agrees = (λ p. cc, refl)
open_step e OtcExecutionStep.completed s agrees = absurd agrees.0

undone_step :
    (e : OtcExecutionSaga) (st : OtcExecutionStep) (s : World)
    → Agrees e OtcExecutionStatus.compensating st s
    → (st ≡ OtcExecutionStep.funds_reserved) ⊎ (st ≡ OtcExecutionStep.funds_committed)
undone_step e OtcExecutionStep.funds_reserved s agrees = inl refl
undone_step e OtcExecutionStep.funds_committed s agrees = inr refl
undone_step e OtcExecutionStep.init s agrees = absurd agrees.0
undone_step e OtcExecutionStep.shares_confirmed s agrees = absurd agrees.0
undone_step e OtcExecutionStep.ownership_transferred s agrees = absurd agrees.0
undone_step e OtcExecutionStep.completed s agrees = absurd agrees.0

no_steps :
    (e : OtcExecutionSaga) (st : OtcExecutionStep) (s : World)
    → Agrees e OtcExecutionStatus.in_progress st s
    → steps_left st ≤ 0
    → ⊥
no_steps e OtcExecutionStep.init s agrees left = omega arith
no_steps e OtcExecutionStep.funds_reserved s agrees left = omega arith
no_steps e OtcExecutionStep.shares_confirmed s agrees left = omega arith
no_steps e OtcExecutionStep.funds_committed s agrees left = omega arith
no_steps e OtcExecutionStep.ownership_transferred s agrees left = omega arith
no_steps e OtcExecutionStep.completed s agrees left = agrees.0

module _ (envs : ℕ → Env) (off : (k : ℕ) → (envs k).fault_enabled ≡ false)
    (soon : (j k : ℕ) → (envs k).now < (envs j).now + 30) where
  -- What a round that returns leaves to the rounds after it.
  abbrev Left : ℕ → ℕ → Bool → World → Type 0
  Left i n more t = ((more ≡ false) × Ended i t) ⊎ ((more ≡ true) × Within envs i n t)

  -- A row that waits or is terminal stays.
  stays :
      (i n : ℕ) (e : OtcExecutionSaga) (s : World) {more : Bool} {t : World}
      → Found i e s
      → ((is_terminal_execution_status e.status ≡ true)
          ⊎ ((next : ℕ) × (e.next_retry_at ≡ some next)))
      → (more ≡ false) × (t ≡ s)
      → Left i n more t
  stays i n e s found why (stop, same) =
      inl (stop, (e, subst (λ w. Found i e w) (sym same) found, why))

  -- A row that may be worked on has rounds for its steps.
  enough :
      (k n : ℕ) (e : OtcExecutionSaga) (s : World)
      → e.status ≡ OtcExecutionStatus.in_progress
      → waits (envs k) e ≡ false
      → Row e.otc_execution_saga_id e s
      → Within envs e.otc_execution_saga_id (suc n) s
      → steps_left e.current_step ≤ suc n
  unfolding is_terminal_execution_status
  enough k n e s at ready row (inl (o, found, inl over)) =
      let same : o ≡ e = cc in
      let over' : is_terminal_execution_status e.status ≡ true = cc in absurd (ground arith)
  enough k n e s at ready row (inl (o, found, inr (next, at_next, later))) =
      let same : o ≡ e = cc in
      let waiting = waits-later (envs k) e next (cc) (later k) in absurd (cc)
  enough k n e s at ready row (inr (inl (o, found, forth, left))) =
      let same : o ≡ e = cc in subst (λ x. steps_left x.current_step ≤ suc n) same left
  enough k n e s at ready row (inr (inr (o, found, undoing, left))) =
      let same : o ≡ e = cc in absurd (cc)

  ready-Left :
      (k n : ℕ) (e : OtcExecutionSaga) (s : World) {more : Bool} {t : World}
      (st : OtcExecutionStatus)
      → e.status ≡ st
      → waits (envs k) e ≡ false
      → Row e.otc_execution_saga_id e s
      → Agrees e st e.current_step s
      → Within envs e.otc_execution_saga_id (suc n) s
      → advance (envs k) e s ≡ (ok more, t)
      → Left e.otc_execution_saga_id n more t
  unfolding is_terminal_execution_status
  ready-Left k n e s OtcExecutionStatus.completed at ready row agrees within h =
      stays e.otc_execution_saga_id n e s row.0 (inl (ap is_terminal_execution_status at))
        (advance_over (envs k) e s h (ap is_terminal_execution_status at))
  ready-Left k n e s OtcExecutionStatus.failed at ready row agrees within h =
      stays e.otc_execution_saga_id n e s row.0 (inl (ap is_terminal_execution_status at))
        (advance_over (envs k) e s h (ap is_terminal_execution_status at))
  ready-Left k n e s {more} {t} OtcExecutionStatus.compensating at ready row agrees within h =
      let (stop, handled) = advance_back (envs k) e s h at ready in
      inl (
        stop,
        Resting-Ended envs e.otc_execution_saga_id t (
            handle_compensation-Resting envs (envs k) e s (off k) (soon k) row.0
              (ap is_terminal_execution_status at) e.current_step refl
              (undone_step e e.current_step s agrees) handled),
      )
  ready-Left k n e s {more} {t} OtcExecutionStatus.in_progress at ready row agrees within h =
      let (goes_on, stepped) = advance_forth (envs k) e s h at ready in
      let (unfinished, again) = open_step e e.current_step s agrees in
      inr (
        goes_on ∙ again,
        step-Within envs (envs k) e s (off k) (soon k) row (ap is_terminal_execution_status at) n
            e.current_step refl unfinished at (enough k n e s at ready row within) stepped,
      )

  advance-Left :
      (k n : ℕ) (e : OtcExecutionSaga) (s : World) {more : Bool} {t : World}
      → Row e.otc_execution_saga_id e s
      → Agrees e e.status e.current_step s
      → Within envs e.otc_execution_saga_id (suc n) s
      → advance (envs k) e s ≡ (ok more, t)
      → Left e.otc_execution_saga_id n more t
  advance-Left k n e s row agrees within h = elim (Bool-cases (waits (envs k) e)) [
    | inl waiting ↦
        stays e.otc_execution_saga_id n e s row.0 (inr (waits-some (envs k) e waiting))
          (advance_waiting (envs k) e s h waiting)
    | inr ready ↦ ready-Left k n e s e.status refl ready row agrees within h
  ]

  round-Left :
      (k i n : ℕ) (s : World) {more : Bool} {t : World}
      → Consistent i s
      → Within envs i (suc n) s
      → load_and_advance (envs k) i s ≡ (ok more, t)
      → Left i n more t
  unfolding find_execution_row
  round-Left k i n s {more} {t} (e, row, agrees) within h =
      let id : e.otc_execution_saga_id ≡ i =
        find-key ℕ_discrete (λ x. x.otc_execution_saga_id) i s.executions row.0 in
      subst (λ j. Left j n more t) id
        (advance-Left k n e s (subst (λ j. Row j e s) (sym id) row) agrees
          (subst (λ j. Within envs j (suc n) s) (sym id) within) (load-ok (envs k) i e s row.0 h))

  -- No round is left, so nothing was left to do.
  none_left : (i : ℕ) (s : World) → Consistent i s → Within envs i 0 s → Ended i s
  none_left i s h (inl rest) = Resting-Ended envs i s rest
  none_left i s (e, row, agrees) (inr (inl (o, found, forth, left))) =
      let same : o ≡ e = cc in
      absurd (
        no_steps e e.current_step s
          (subst (λ st. Agrees e st e.current_step s) (ap (λ x. x.status) (sym same) ∙ forth)
            agrees)
          (subst (λ x. steps_left x.current_step ≤ 0) same left))
  none_left i s h (inr (inr (o, found, undoing, left))) = absurd (omega arith)

  pub run_rounds-Ended :
      (n i : ℕ) (s : World) {t : World}
      → Consistent i s
      → Within envs i n s
      → run_rounds n envs i s ≡ (ok tt, t)
      → Ended i t
  unfolding run_rounds
  run_rounds-Ended zero i s h within run =
      subst (Ended i) (ap (λ p. p.1) run) (none_left i s h within)
  run_rounds-Ended (suc n) i s {t} h within run =
      let p = load_and_advance (envs n) i s in
      elim (Result-cases p.0) [
        | inr (x, bad) ↦ absurd (ground arith)
        | inl (more, good) ↦
            let after = load_and_advance-Consistent (envs n) i s (off n) h in
            elim (round-Left n i n s h within (pair-eq {p = p} good refl)) [
              | inl (stop, ended) ↦ let same : p.1 ≡ t = ground arith in subst (Ended i) same ended
              | inr (goes_on, within') ↦
                  (let rest : run_rounds n envs i p.1 ≡ (ok tt, t) = ground arith in
                    run_rounds-Ended n i p.1 {t = t} after within' rest)
            ]
      ]

all_steps : (st : OtcExecutionStep) → steps_left st ≤ 8
all_steps OtcExecutionStep.init = omega arith
all_steps OtcExecutionStep.funds_reserved = omega arith
all_steps OtcExecutionStep.shares_confirmed = omega arith
all_steps OtcExecutionStep.funds_committed = omega arith
all_steps OtcExecutionStep.ownership_transferred = omega arith
all_steps OtcExecutionStep.completed = omega arith

at_start :
    (envs : ℕ → Env) (i : ℕ) (e : OtcExecutionSaga) (s : World) (st : OtcExecutionStatus)
    → e.status ≡ st
    → Found i e s
    → Within envs i 8 s
unfolding is_terminal_execution_status
at_start envs i e s OtcExecutionStatus.completed at found =
    inl (e, found, inl (ap is_terminal_execution_status at))
at_start envs i e s OtcExecutionStatus.failed at found =
    inl (e, found, inl (ap is_terminal_execution_status at))
at_start envs i e s OtcExecutionStatus.compensating at found = inr (inr (e, found, at, omega arith))
at_start envs i e s OtcExecutionStatus.in_progress at found =
    inr (inl (e, found, at, all_steps e.current_step))

-- A run that reports no error leaves the execution completed, failed or with its next attempt scheduled,
-- whatever fails in it: the limit of 8 rounds never cuts it off between two steps. The records agree at
-- the start, no fault is injected, and the run takes less than the retry delay of 30 seconds.
pub process_execution-Ended :
    (envs : ℕ → Env) (i : ℕ) (s : World) {t : World}
    → ((k : ℕ) → (envs k).fault_enabled ≡ false)
    → ((j k : ℕ) → (envs k).now < (envs j).now + 30)
    → Consistent i s
    → process_execution envs i s ≡ (ok tt, t)
    → Ended i t
unfolding process_execution
process_execution-Ended envs i s off soon (e, row, agrees) h =
    run_rounds-Ended envs off soon 8 i s (e, row, agrees) (at_start envs i e s e.status refl row.0)
      h
