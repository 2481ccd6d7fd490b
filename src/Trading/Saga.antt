-- ===== src/Trading/Saga.antt =====
-- services/trading-service/internal/service/otc_deal_processing_service.go: ExerciseContract, the loop
-- of processExecution and the maintenance of the worker.
use raf_8_banka_4_backend.Shared.{
  ℕ, zero, suc, ltb, Bool, true, false, not, String, concat, show_ℕ, Option, none, some, List, [],
  ◌∷◌, ◌++◌, if◌then◌else◌, Action, ok, err, bad_request, not_found, conflict, driver, ◌>>=◌, ◌>>◌,
  pure, raise, lift, load, query, within_transaction,
}
use raf_8_banka_4_backend.Trading.Model.{
  OtcOptionContract, OtcExecutionSaga, OtcExecutionStep, OtcExecutionStatus, Spec,
}
use raf_8_banka_4_backend.Trading.World.{
  World, Env, find_contract, find_execution, find_reservation, save_execution, commit_step,
  find_execution_row, find_execution_of_contract, save_execution_row, find_contract_row,
  find_reservation_row,
}
use raf_8_banka_4_backend.Trading.Contracts.{
  expire_contract, should_expire_contract, expire_locked_contract, validate_contract_for_execution,
}
use raf_8_banka_4_backend.Trading.Execution.{
  is_terminal_execution_status, mark_failed, schedule_compensating, compensate_release_funds,
  compensate_refund_funds,
}
use raf_8_banka_4_backend.Trading.Steps.{reserve_funds, confirm_shares, require_active}
use raf_8_banka_4_backend.Trading.Settlement.{commit_funds, transfer_ownership, complete_execution}

-- `handleCompensation`
unfoldable pub handle_compensation : Env → OtcExecutionSaga → Action World (Unit {0})
handle_compensation env e = elim e.current_step [
  | OtcExecutionStep.funds_reserved ↦ do
    undone ← compensate_release_funds env e
    if undone
        then mark_failed env e.otc_execution_saga_id e.current_step
        else schedule_compensating env e.otc_execution_saga_id e.current_step
  | OtcExecutionStep.funds_committed ↦ do
    undone ← compensate_refund_funds env e
    if undone
        then mark_failed env e.otc_execution_saga_id e.current_step
        else schedule_compensating env e.otc_execution_saga_id e.current_step
  | _ ↦ mark_failed env e.otc_execution_saga_id e.current_step
]

-- `processStep`, for a step that has work to do
unfoldable pub process_step : Env → OtcExecutionSaga → Action World (Unit {0})
process_step env e = elim e.current_step [
  | OtcExecutionStep.init ↦ reserve_funds env e
  | OtcExecutionStep.funds_reserved ↦ confirm_shares env e
  | OtcExecutionStep.shares_confirmed ↦ commit_funds env e
  | OtcExecutionStep.funds_committed ↦ transfer_ownership env e
  | OtcExecutionStep.ownership_transferred ↦ complete_execution env e
  | OtcExecutionStep.completed ↦ pure tt
]

unfoldable pub waits : Env → OtcExecutionSaga → Bool
waits env e = elim e.next_retry_at [ none ↦ false | some t ↦ ltb env.now t ]

abbrev pub is_completed_step : OtcExecutionStep → Bool
is_completed_step OtcExecutionStep.completed = true
is_completed_step _ = false

-- One round of the loop of `processExecution` on the loaded row: whether another one may follow.
unfoldable pub advance : Env → OtcExecutionSaga → Action World Bool
advance env e =
    if is_terminal_execution_status e.status
    then pure false
    else if waits env e
    then pure false
    else elim e.status [
      | OtcExecutionStatus.compensating ↦ do handle_compensation env e; pure false
      | _ ↦ do process_step env e; pure (not (is_completed_step e.current_step))
    ]

unfoldable pub load_and_advance : Env → ℕ → Action World Bool
load_and_advance env i = do
  e ←
      load (env.fails find_execution) (λ s. find_execution_row i s.executions)
        (not_found "OTC execution not found")
  advance env e

-- The rounds that are left, each in the environment of its moment.
unfoldable pub run_rounds : ℕ → (ℕ → Env) → ℕ → Action World (Unit {0})
run_rounds zero env i s = (ok tt, s)
run_rounds (suc n) env i s =
    let (r, t) = load_and_advance (env n) i s in
    elim r [
      | err x ↦ (err x, t)
      | ok more ↦ elim more [ true ↦ run_rounds n env i t | false ↦ (ok tt, t) ]
    ]

abbrev pub max_execution_steps_per_run : ℕ
max_execution_steps_per_run = 8

-- `processExecution`
unfoldable pub process_execution : (ℕ → Env) → ℕ → Action World (Unit {0})
process_execution env i = run_rounds max_execution_steps_per_run env i

-- `newExecutionKey`
unfoldable pub new_execution_key : Env → ℕ → String
new_execution_key env contract_id =
    concat ("otc-execution-" ∷ show_ℕ contract_id ∷ "-" ∷ show_ℕ env.nanos ∷ [])

-- `requestedFaultSpec`
unfoldable pub requested_fault_spec : Env → Option Spec
requested_fault_spec env = if env.fault_enabled then env.requested_spec else none

-- A row for a new attempt.
unfoldable pub fresh_attempt : Env → ℕ → ℕ → OtcExecutionSaga
fresh_attempt env i contract_id = record {
  otc_execution_saga_id = i;
  contract_id = contract_id;
  execution_key = new_execution_key env contract_id;
  current_step = OtcExecutionStep.init;
  status = OtcExecutionStatus.in_progress;
  retry_count = 0;
  next_retry_at = none;
  fault_spec = requested_fault_spec env;
}

-- The end of `ensureExecutionSaga`: a failed row is reset in place, and otherwise one is created.
unfoldable pub start_attempt : Env → ℕ → Option OtcExecutionSaga → Action World OtcExecutionSaga
start_attempt env contract_id (some old) s =
    let row = fresh_attempt env old.otc_execution_saga_id contract_id in
    if env.fails save_execution
    then (err driver, s)
    else (ok row, record s { executions = save_execution_row row s.executions })
start_attempt env contract_id none s =
    let row = fresh_attempt env s.next_execution_id contract_id in
    if env.fails save_execution then (err driver, s) else (
      ok row,
      record s {
        executions = s.executions ++ row ∷ [];
        next_execution_id = suc s.next_execution_id;
      },
    )

-- A row in flight is resumed at once.
unfoldable pub resume : Env → OtcExecutionSaga → Action World OtcExecutionSaga
resume env e s = elim e.next_retry_at [
  | none ↦ (ok e, s)
  | some t ↦
      let row : OtcExecutionSaga = record e { next_retry_at = none } in
      if env.fails save_execution
      then (err driver, s)
      else (ok row, record s { executions = save_execution_row row s.executions })
]

-- The part of `ensureExecutionSaga` where no execution is in flight or completed; `none` says that the
-- contract has expired.
unfoldable pub begin_attempt :
    Env → ℕ → OtcOptionContract → Option OtcExecutionSaga → Action World (Option OtcExecutionSaga)
begin_attempt env contract_id c existing = elim (should_expire_contract env c) [
  | true ↦ do expire_locked_contract env c; pure none
  | false ↦ do
    lift (validate_contract_for_execution env c)
    found ←
        query (env.fails find_reservation) (λ s. find_reservation_row contract_id s.reservations)
    held ← require_active found
    row ← start_attempt env contract_id existing
    pure (some row)
]

-- The closure of `ensureExecutionSaga`.
unfoldable pub ensure_body : Env → ℕ → Action World (Option OtcExecutionSaga)
ensure_body env contract_id = do
  c ←
      load (env.fails find_contract) (λ s. find_contract_row contract_id s.contracts)
        (not_found "OTC contract not found")
  existing ←
      query (env.fails find_execution) (λ s. find_execution_of_contract contract_id s.executions)
  elim existing [
    | none ↦ begin_attempt env contract_id c none
    | some e ↦ elim e.status [
      | OtcExecutionStatus.in_progress ↦ do row ← resume env e; pure (some row)
      | OtcExecutionStatus.compensating ↦ do row ← resume env e; pure (some row)
      | OtcExecutionStatus.completed ↦ raise (conflict "OTC contract has already been exercised")
      | OtcExecutionStatus.failed ↦ begin_attempt env contract_id c (some e)
    ]
  ]

-- `ensureExecutionSaga`
unfoldable pub ensure_execution_saga : Env → ℕ → Action World OtcExecutionSaga
ensure_execution_saga env contract_id = do
  started ← within_transaction (env.fails commit_step) (ensure_body env contract_id)
  elim started [ none ↦ raise (bad_request "OTC contract has expired") | some e ↦ pure e ]

-- `ExerciseContract`: the saga is made sure of and run, and its latest row is the answer; an error of
-- the run goes before one of the last query.
unfoldable pub exercise_contract : Env → (ℕ → Env) → Env → ℕ → Action World OtcExecutionSaga
exercise_contract env rounds last contract_id = do
  e ← ensure_execution_saga env contract_id
  outcome ← λ s. let (r, t) = process_execution rounds e.otc_execution_saga_id s in (ok r, t)
  lift outcome
  load (last.fails find_execution) (λ s. find_execution_row e.otc_execution_saga_id s.executions)
      (not_found "OTC execution not found")

-- `ProcessPendingExecutions`: the rows are run one after the other, whatever becomes of them.
unfoldable pub process_pending : (ℕ → ℕ → Env) → List OtcExecutionSaga → World → World
process_pending env [] s = s
process_pending env (e ∷ es) s =
    process_pending env es
      (process_execution (env e.otc_execution_saga_id) e.otc_execution_saga_id s).1

-- `ProcessExpiredContracts`, in the same way
unfoldable pub process_expired : (ℕ → Env) → List OtcOptionContract → World → World
process_expired env [] s = s
process_expired env (c ∷ cs) s =
    process_expired env cs
      (expire_contract (env c.otc_option_contract_id) c.otc_option_contract_id s).1
