-- ===== src/Trading/Consistency/History.antt =====
-- The settlement of an option over its whole life: runs of the saga, calls of ExerciseContract and the
-- expiry of contracts in any order, with every failure of the database and of the network.
use native.Mathlib.Decide.{ℕ_discrete}
use raf_8_banka_4_backend.Shared.{
  ℕ, none, some, ◌≡◌, ◌⊎◌, sym, subst, Bool, true, false, Option, List, [], ◌∷◌, arith, find-key,
}
use raf_8_banka_4_backend.Banking.Model.{OtcFundsReservation, released, committed, refunded}
use raf_8_banka_4_backend.Trading.Model.{OtcExecutionSaga, OtcExecutionStatus}
use raf_8_banka_4_backend.Trading.World.{World, Env, find_execution_row, find_contract_row}
use raf_8_banka_4_backend.Trading.Contracts.{expire_contract}
use raf_8_banka_4_backend.Trading.Saga.{
  ensure_execution_saga, process_execution, max_execution_steps_per_run,
}
use raf_8_banka_4_backend.Trading.Consistency.{In, Row, Agrees, Consistent, money, is_exercised}
use raf_8_banka_4_backend.Trading.Consistency.Rounds.{run_rounds-Consistent}
use raf_8_banka_4_backend.Trading.Consistency.Expiry.{expire_contract-Consistent}
use raf_8_banka_4_backend.Trading.Consistency.Attempts.{FreshKey, ensure_execution_saga-Consistent}

-- A run of the saga in the environments of its rounds, a call of `ensureExecutionSaga` for its
-- contract, or the expiry of some contract.
pub data Event : Type 0 where
  process : (ℕ → Env) → Event
  ensure : Env → Event
  expire : Env → ℕ → Event

unfoldable pub apply : ℕ → Event → World → World
apply i (process env) s = (process_execution env i s).1
apply i (ensure env) s = elim (find_execution_row i s.executions) [
  | some e ↦ (ensure_execution_saga env e.contract_id s).1
  | none ↦ s
]
apply i (expire env j) s = (expire_contract env j s).1

unfoldable pub apply_all : ℕ → List Event → World → World
apply_all i [] s = s
apply_all i (ev ∷ evs) s = apply_all i evs (apply i ev s)

-- No fault is injected, and the key that a call would start an attempt with is a new one.
abbrev pub Admits : ℕ → Event → World → Type 0
Admits i (process env) s = (k : ℕ) → (env k).fault_enabled ≡ false
Admits i (ensure env) s =
    (e : OtcExecutionSaga)
    → find_execution_row i s.executions ≡ some e
    → FreshKey env e.contract_id s
Admits i (expire env j) s = Unit

abbrev pub AllAdmitted : ℕ → List Event → World → Type 0
AllAdmitted i [] s = Unit
AllAdmitted i (ev ∷ evs) s = Admits i ev s × AllAdmitted i evs (apply i ev s)

ensure-apply :
    (i : ℕ) (env : Env) (e : OtcExecutionSaga) (s : World)
    → find_execution_row i s.executions ≡ some e
    → apply i (ensure env) s ≡ (ensure_execution_saga env e.contract_id s).1
unfolding apply
ensure-apply i env e s found = ground arith

apply-Consistent :
    (i : ℕ) (ev : Event) (s : World) → Admits i ev s → Consistent i s → Consistent i (apply i ev s)
unfolding apply process_execution find_execution_row
apply-Consistent i (process env) s off h =
    run_rounds-Consistent max_execution_steps_per_run env i s off h
apply-Consistent i (expire env j) s admitted h = expire_contract-Consistent env i j s h
apply-Consistent i (ensure env) s fresh (e, row, agrees) =
    let id : e.otc_execution_saga_id ≡ i =
      find-key ℕ_discrete (λ x. x.otc_execution_saga_id) i s.executions row.0 in
    subst (Consistent i) (sym (ensure-apply i env e s row.0)) (
      subst (λ j. Consistent j (ensure_execution_saga env e.contract_id s).1) id
        (ensure_execution_saga-Consistent env e s (subst (λ j. Row j e s) (sym id) row) agrees
          (fresh e row.0)))

-- Whatever the database and the network do in each call, and in whatever order the runs of the saga,
-- the calls that resume or retry it and the expiry of contracts come, the execution, the contract and
-- the funds that banking-service holds stay in agreement, if they agree at the start, no fault is
-- injected and each new attempt has a new execution key.
pub apply_all-Consistent :
    (i : ℕ) (evs : List Event) (s : World)
    → AllAdmitted i evs s
    → Consistent i s
    → Consistent i (apply_all i evs s)
unfolding apply_all
apply_all-Consistent i [] s admitted h = h
apply_all-Consistent i (ev ∷ evs) s admitted h =
    apply_all-Consistent i evs (apply i ev s) admitted.1 (apply-Consistent i ev s admitted.0 h)

-- How an execution can end.
abbrev pub Ends : OtcExecutionStatus → Option OtcFundsReservation → Bool → Type 0
Ends OtcExecutionStatus.completed m x = In committed m × (x ≡ true)
Ends OtcExecutionStatus.failed m x = ((m ≡ none) ⊎ In released m ⊎ In refunded m) × (x ≡ false)
Ends OtcExecutionStatus.in_progress m x = Unit
Ends OtcExecutionStatus.compensating m x = Unit

Agrees-Ends :
    (e : OtcExecutionSaga) (st : OtcExecutionStatus) (s : World)
    → Agrees e st e.current_step s
    → Ends st (money e.execution_key s) (is_exercised (find_contract_row e.contract_id s.contracts))
Agrees-Ends e OtcExecutionStatus.completed s ((at, paid), x) = (paid, cc)
Agrees-Ends e OtcExecutionStatus.failed s ((early, kept), x) = (kept, cc)
Agrees-Ends e OtcExecutionStatus.in_progress s h = tt
Agrees-Ends e OtcExecutionStatus.compensating s h = tt

-- After any sequence of runs of the saga, calls that resume or retry it and expiries of contracts, if
-- the execution, its contract and its funds agree at the start, no fault is injected and each new
-- attempt has a new execution key, an execution that is COMPLETED has paid the seller and exercised its
-- contract, and one that is FAILED has left its contract unexercised and holds no money of the buyer:
-- nothing was reserved under its key, or the funds are released or paid back.
pub apply_all-Ends :
    (i : ℕ) (evs : List Event) (s : World) (e : OtcExecutionSaga)
    → AllAdmitted i evs s
    → Consistent i s
    → find_execution_row i (apply_all i evs s).executions ≡ some e
    → Ends e.status
        (money e.execution_key (apply_all i evs s))
        (is_exercised (find_contract_row e.contract_id (apply_all i evs s).contracts))
apply_all-Ends i evs s e admitted h found =
    let (o, row, agrees) = apply_all-Consistent i evs s admitted h in
    let same : o ≡ e = cc in
    subst
      (λ x.
        Ends x.status (money x.execution_key (apply_all i evs s))
          (is_exercised (find_contract_row x.contract_id (apply_all i evs s).contracts)))
      same (Agrees-Ends o o.status (apply_all i evs s) agrees)
