-- ===== src/Trading/Consistency.antt =====
-- The agreement of the three records of a settlement: the execution of trading-service, the option
-- contract, and the funds that banking-service holds under the execution key.
pub mod Calls
pub mod Undo
pub mod Backward
pub mod Advance
pub mod Reserve
pub mod Live
pub mod Confirm
pub mod Commit
pub mod Settle
pub mod Rounds
pub mod Expiry
pub mod Attempts
pub mod History
use native.Mathlib.Decide.{ℕ_discrete}
use raf_8_banka_4_backend.Shared.{
  ◌>>=◌, ◌>>◌, ℕ, ◌≡◌, ◌⊎◌, inl, inr, sym, ap, ◌∙◌, subst, Bool, true, false, Option, none, some,
  String, text_eq, trim_space, ℤ, find-save, find-save_other, find-key, if_pos, arith, Action,
  Result, ok, err, within_transaction, Bool-cases, driver,
}
use raf_8_banka_4_backend.Banking.Model.{
  OtcFundsReservation, OtcFundsReservationStatus, reserved, released, committed, refunded,
}
use raf_8_banka_4_backend.Trading.Model.{
  OtcOptionContract, OtcOptionContractStatus, OtcExecutionSaga, OtcExecutionStep,
  OtcExecutionStatus,
}
use raf_8_banka_4_backend.Trading.World.{
  World, Env, times, find_execution_row, find_execution_of_contract, save_execution_row,
  find_contract_row,
}
use raf_8_banka_4_backend.Trading.World
use raf_8_banka_4_backend.Banking.Store.{find_reservation_row}
use raf_8_banka_4_backend.Trading.Bank.{Answers}
use raf_8_banka_4_backend.Trading.Steps.{contract_of}
use raf_8_banka_4_backend.Trading.Execution.{change_execution, is_terminal_execution_status}

abbrev pub money : String → World → Option OtcFundsReservation
money k s = find_reservation_row k s.banking.reservations

-- Banking holds a row of this status.
abbrev pub In : OtcFundsReservationStatus → Option OtcFundsReservation → Type 0
In st m = (r : OtcFundsReservation) × (m ≡ some r) × (r.status ≡ st)

-- A row that answers the request for this contract.
abbrev pub Requested : OtcOptionContract → Option OtcFundsReservation → Type 0
Requested c m =
    (r : OtcFundsReservation) × (m ≡ some r)
    × (r.status ≡ reserved)
    × Answers c.buyer_account_number c.seller_account_number (times c.amount c.strike_price_rsd)
        "RSD" r

abbrev pub settled : OtcExecutionStep → Bool
settled OtcExecutionStep.ownership_transferred = true
settled OtcExecutionStep.completed = true
settled OtcExecutionStep.init = false
settled OtcExecutionStep.funds_reserved = false
settled OtcExecutionStep.shares_confirmed = false
settled OtcExecutionStep.funds_committed = false

abbrev pub is_exercised : Option OtcOptionContract → Bool
is_exercised none = false
is_exercised (some c) = elim c.status [ OtcOptionContractStatus.exercised ↦ true | _ ↦ false ]

abbrev ForwardFits : OtcExecutionStep → OtcOptionContract → Option OtcFundsReservation → Type 0
ForwardFits OtcExecutionStep.init c m = (m ≡ none) ⊎ Requested c m
ForwardFits OtcExecutionStep.funds_reserved c m = In reserved m ⊎ In released m
ForwardFits OtcExecutionStep.shares_confirmed c m = In reserved m ⊎ In released m ⊎ In committed m
ForwardFits OtcExecutionStep.funds_committed c m = In committed m
ForwardFits OtcExecutionStep.ownership_transferred c m = In committed m
ForwardFits OtcExecutionStep.completed c m = ⊥

abbrev BackwardFits : OtcExecutionStep → Option OtcFundsReservation → Type 0
BackwardFits OtcExecutionStep.funds_reserved m = In reserved m ⊎ In released m
BackwardFits OtcExecutionStep.funds_committed m = In committed m ⊎ In refunded m
BackwardFits _ m = ⊥

-- What the funds may be at each point of an execution.
abbrev pub Fits :
    OtcExecutionStatus → OtcExecutionStep → OtcOptionContract → Option OtcFundsReservation → Type 0
Fits OtcExecutionStatus.in_progress step c m = ForwardFits step c m
Fits OtcExecutionStatus.compensating step c m = BackwardFits step m
Fits OtcExecutionStatus.completed step c m = (step ≡ OtcExecutionStep.completed) × In committed m
Fits OtcExecutionStatus.failed step c m =
    (settled step ≡ false) × ((m ≡ none) ⊎ In released m ⊎ In refunded m)

-- The row of the execution, which is the only one of its contract and has a usable key.
abbrev pub Row : ℕ → OtcExecutionSaga → World → Type 0
Row i e s =
    (find_execution_row i s.executions ≡ some e)
    × (find_execution_of_contract e.contract_id s.executions ≡ some e)
    × (trim_space e.execution_key ≡ e.execution_key)
    × (text_eq e.execution_key "" ≡ false)

-- The three records agree on an execution that is at this status and step.
abbrev pub Agrees : OtcExecutionSaga → OtcExecutionStatus → OtcExecutionStep → World → Type 0
Agrees e st step s =
    Fits st step (contract_of e.contract_id s.contracts) (money e.execution_key s)
    × (is_exercised (find_contract_row e.contract_id s.contracts) ≡ settled step)

abbrev pub Consistent : ℕ → World → Type 0
Consistent i s = (e : OtcExecutionSaga) × Row i e s × Agrees e e.status e.current_step s

-- A row that is overwritten by one of the same execution and contract.
pub overwrite-Consistent :
    (i : ℕ) (e v : OtcExecutionSaga) (s : World)
    → Row i e s
    → v.otc_execution_saga_id ≡ e.otc_execution_saga_id
    → v.contract_id ≡ e.contract_id
    → trim_space v.execution_key ≡ v.execution_key
    → text_eq v.execution_key "" ≡ false
    → Agrees v v.status v.current_step s
    → Consistent i (record s { executions = save_execution_row v s.executions })
unfolding find_execution_row find_execution_of_contract save_execution_row
overwrite-Consistent i e v s (found, unique, _, _) same_id same_contract trimmed present agrees =
    let id = find-key ℕ_discrete (λ x. x.otc_execution_saga_id) i s.executions found in
    let there =
      find-save ℕ_discrete (λ x. x.otc_execution_saga_id) i v s.executions
      ∙ if_pos (ℕ_discrete v.otc_execution_saga_id i) (same_id ∙ id) _ _ in
    let only =
      find-save_other ℕ_discrete (λ x. x.otc_execution_saga_id) (λ x. x.contract_id) v e
        s.executions same_id same_contract
        (subst (λ j. find_execution_row j s.executions ≡ some e) (sym id) found) unique in
    (
      v,
      (
        there,
        subst (λ c. find_execution_of_contract c (save_execution_row v s.executions) ≡ some v)
            (sym same_contract) only,
        trimmed,
        present,
      ),
      agrees,
    )

-- The same, where the key stays.
pub save-Consistent :
    (i : ℕ) (e v : OtcExecutionSaga) (s : World)
    → Row i e s
    → v.otc_execution_saga_id ≡ e.otc_execution_saga_id
    → v.contract_id ≡ e.contract_id
    → v.execution_key ≡ e.execution_key
    → Agrees e v.status v.current_step s
    → Consistent i (record s { executions = save_execution_row v s.executions })
save-Consistent i e v s row same_id same_contract same_key agrees =
    overwrite-Consistent i e v s row same_id same_contract
      (subst (λ k. trim_space k ≡ k) (sym same_key) row.2)
      (subst (λ k. text_eq k "" ≡ false) (sym same_key) row.3)
      (
        subst
            (λ c.
              Fits v.status v.current_step (contract_of c s.contracts) (money v.execution_key s))
            (sym same_contract)
            (subst
              (λ k.
                Fits v.status v.current_step (contract_of e.contract_id s.contracts) (money k s))
              (sym same_key) agrees.0),
        subst (λ c. is_exercised (find_contract_row c s.contracts) ≡ settled v.current_step)
            (sym same_contract) agrees.1,
      )

change_execution-cases :
    (env : Env) (i : ℕ) (change : OtcExecutionSaga → OtcExecutionSaga) (e : OtcExecutionSaga)
    (s : World)
    → find_execution_row i s.executions ≡ some e
    → ((change_execution env i change s).1 ≡ s)
      ⊎ ((change_execution env i change s).1
          ≡ record s { executions = save_execution_row (change e) s.executions })
unfolding change_execution within_transaction
change_execution-cases env i change e s found = ground arith

-- A change of the row is made or, if it fails or the row is terminal, not made.
pub change_execution-Consistent :
    (env : Env) (i : ℕ) (change : OtcExecutionSaga → OtcExecutionSaga) (e : OtcExecutionSaga)
    (s : World)
    → Row i e s
    → (change e).otc_execution_saga_id ≡ e.otc_execution_saga_id
    → (change e).contract_id ≡ e.contract_id
    → (change e).execution_key ≡ e.execution_key
    → Agrees e e.status e.current_step s
    → Agrees e (change e).status (change e).current_step s
    → Consistent i (change_execution env i change s).1
change_execution-Consistent env i change e s row p q r old new =
    elim (change_execution-cases env i change e s row.0) [
      | inl kept ↦ subst (Consistent i) (sym kept) (e, row, old)
      | inr made ↦ subst (Consistent i) (sym made) (save-Consistent i e (change e) s row p q r new)
    ]

-- An action followed by another.
pub then_keeps {ℓ κ} :
    {B : Type κ} (P : World → Type ℓ) (m : Action World (Unit {0})) (k : Action World B) (s : World)
    → P (m s).1
    → ((t : World) → P t → P (k t).1)
    → P ((m >> k) s).1
then_keeps {B = B} P m k s first next = continue (m s) first
  where
    continue : (p : Result (Unit {0}) × World) → P p.1 → P (((λ u. p) >> k) s).1
    continue (ok a, t) h = next t h
    continue (err x, t) h = h
