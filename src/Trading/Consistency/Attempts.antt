-- ===== src/Trading/Consistency/Attempts.antt =====
-- The start of an execution and its resumption, ensureExecutionSaga.
use raf_8_banka_4_backend.Shared.{
  ℕ, none, some, ◌≡◌, refl, ◌⊎◌, inl, inr, sym, ap, ◌∙◌, subst, true, false, Bool-cases, Option,
  Option-cases, arith, text_eq, trim_space, Result-cases, ok, within_transaction,
  within_transaction_ok, within_transaction_err,
}
use raf_8_banka_4_backend.Trading.Consistency.Confirm.{pair-eq}
use raf_8_banka_4_backend.Trading.Model.{
  OtcExecutionSaga, OtcExecutionStatus, OtcOptionContract, OtcOptionContractStatus,
}
use raf_8_banka_4_backend.Trading.World.{
  World, Env, commit_step, find_contract_row, find_execution_of_contract, save_execution_row,
  find_reservation_row,
}
use raf_8_banka_4_backend.Trading.Contracts.{
  should_expire_contract, validate_contract_for_execution, expire_locked_contract,
}
use raf_8_banka_4_backend.Trading.Saga.{
  new_execution_key, fresh_attempt, start_attempt, resume, begin_attempt, ensure_body,
  ensure_execution_saga,
}
use raf_8_banka_4_backend.Trading.Consistency.{
  Row, Agrees, Consistent, is_exercised, money, save-Consistent, overwrite-Consistent,
}
use raf_8_banka_4_backend.Trading.Consistency.Live.{expire_locked_contract-ok}
use raf_8_banka_4_backend.Trading.Consistency.Expiry.{
  expired_world-Consistent, should_expire_contract-active,
}

-- The key of a new attempt has not been used.
abbrev pub FreshKey : Env → ℕ → World → Type 0
FreshKey env c s =
    let k = new_execution_key env c in
    (trim_space k ≡ k) × (text_eq k "" ≡ false) × (money k s ≡ none)

resume-cases :
    (env : Env) (e : OtcExecutionSaga) (s : World) {row : OtcExecutionSaga} {t : World}
    → resume env e s ≡ (ok row, t)
    → (t ≡ s)
      ⊎ (t ≡ record s {
        executions = save_execution_row (record e { next_retry_at = none }) s.executions;
      })
unfolding resume
resume-cases env e s h = ground arith

module _ (env : Env) (i : ℕ) (c : OtcOptionContract) (e : OtcExecutionSaga) (s : World)
    {o : Option OtcExecutionSaga} {t : World} where
  begin_attempt-live :
      should_expire_contract env c ≡ false
      → begin_attempt env i c (some e) s ≡ (ok o, t)
      → (c.status ≡ OtcOptionContractStatus.active)
        × (t ≡ record s {
          executions =
              save_execution_row (fresh_attempt env e.otc_execution_saga_id i) s.executions;
        })
  unfolding begin_attempt validate_contract_for_execution start_attempt
  begin_attempt-live live h = elim (Option-cases (find_reservation_row i s.reservations)) [
    | inl missing ↦ absurd (ground arith)
    | inr (r, found) ↦ (ground arith, ground arith)
  ]

  begin_attempt-due :
      should_expire_contract env c ≡ true
      → begin_attempt env i c (some e) s ≡ (ok o, t)
      → expire_locked_contract env c s ≡ (ok tt, t)
  unfolding begin_attempt
  begin_attempt-due due h = elim (Result-cases (expire_locked_contract env c s).0) [
    | inl (u, good) ↦ ground arith
    | inr (y, bad) ↦ absurd (ground arith)
  ]

resume-Consistent :
    (env : Env) (e : OtcExecutionSaga) (s : World) {row : OtcExecutionSaga} {t : World}
    → resume env e s ≡ (ok row, t)
    → Row e.otc_execution_saga_id e s
    → Agrees e e.status e.current_step s
    → Consistent e.otc_execution_saga_id t
resume-Consistent env e s h row agrees = elim (resume-cases env e s h) [
  | inl same ↦ subst (Consistent e.otc_execution_saga_id) (sym same) (e, row, agrees)
  | inr saved ↦ subst (Consistent e.otc_execution_saga_id) (sym saved) (
      save-Consistent e.otc_execution_saga_id e (record e { next_retry_at = none }) s row refl refl
        refl agrees)
]

fresh_attempt-Consistent :
    (env : Env) (e : OtcExecutionSaga) (c : OtcOptionContract) (s : World)
    {o : Option OtcExecutionSaga} {t : World}
    → Row e.otc_execution_saga_id e s
    → find_contract_row e.contract_id s.contracts ≡ some c
    → FreshKey env e.contract_id s
    → should_expire_contract env c ≡ false
    → begin_attempt env e.contract_id c (some e) s ≡ (ok o, t)
    → Consistent e.otc_execution_saga_id t
unfolding fresh_attempt
fresh_attempt-Consistent env e c s row there fresh live h =
    let (active, saved) = begin_attempt-live env e.contract_id c e s live h in
    subst (Consistent e.otc_execution_saga_id) (sym saved) (
      overwrite-Consistent e.otc_execution_saga_id e
        (fresh_attempt env e.otc_execution_saga_id e.contract_id) s row refl refl fresh.0 fresh.1
        (inl fresh.2, ap is_exercised there ∙ ground arith))

-- What the closure of `ensureExecutionSaga` has done to an execution that is there.
ensure_body-cases :
    (env : Env) (e : OtcExecutionSaga) (s : World) {o : Option OtcExecutionSaga} {t : World}
    → find_execution_of_contract e.contract_id s.executions ≡ some e
    → ensure_body env e.contract_id s ≡ (ok o, t)
    → (c : OtcOptionContract) × (find_contract_row e.contract_id s.contracts ≡ some c)
      × (((row : OtcExecutionSaga) × (resume env e s ≡ (ok row, t)))
          ⊎ (begin_attempt env e.contract_id c (some e) s ≡ (ok o, t)))
unfolding ensure_body
ensure_body-cases env e s {o} {t} there h =
    elim (Option-cases (find_contract_row e.contract_id s.contracts)) [
      | inl missing ↦ absurd (ground arith)
      | inr (c, found) ↦ (c, found, by_status e.status refl c found)
    ]
  where
    by_status :
        (st : OtcExecutionStatus)
        → e.status ≡ st
        → (c : OtcOptionContract) → (find_contract_row e.contract_id s.contracts ≡ some c)
        → ((row : OtcExecutionSaga) × (resume env e s ≡ (ok row, t)))
          ⊎ (begin_attempt env e.contract_id c (some e) s ≡ (ok o, t))
    by_status OtcExecutionStatus.completed at c found = absurd (ground arith)
    by_status OtcExecutionStatus.failed at c found = inr (ground arith)
    by_status OtcExecutionStatus.in_progress at c found = elim (Result-cases (resume env e s).0) [
      | inl (row, good) ↦ inl (row, ground arith)
      | inr (y, bad) ↦ absurd (ground arith)
    ]
    by_status OtcExecutionStatus.compensating at c found = elim (Result-cases (resume env e s).0) [
      | inl (row, good) ↦ inl (row, ground arith)
      | inr (y, bad) ↦ absurd (ground arith)
    ]

ensure_body-Consistent :
    (env : Env) (e : OtcExecutionSaga) (s : World) {o : Option OtcExecutionSaga} {t : World}
    → Row e.otc_execution_saga_id e s
    → Agrees e e.status e.current_step s
    → FreshKey env e.contract_id s
    → ensure_body env e.contract_id s ≡ (ok o, t)
    → Consistent e.otc_execution_saga_id t
ensure_body-Consistent env e s {o} {t} row agrees fresh h =
    let (c, there, done) = ensure_body-cases env e s row.1 h in
    elim done [
      | inl (back, resumed) ↦ resume-Consistent env e s resumed row agrees
      | inr begun ↦ elim (Bool-cases (should_expire_contract env c)) [
        | inr live ↦ fresh_attempt-Consistent env e c s row there fresh live begun
        | inl due ↦
            expired_world-Consistent e.otc_execution_saga_id e.contract_id c s t there
              (should_expire_contract-active env c due)
              (expire_locked_contract-ok env c s
                (begin_attempt-due env e.contract_id c e s due begun))
              (e, row, agrees)
      ]
    ]

ensure_execution_saga-world :
    (env : Env) (i : ℕ) (s : World)
    → (ensure_execution_saga env i s).1
      ≡ (within_transaction (env.fails commit_step) (ensure_body env i) s).1
unfolding ensure_execution_saga
ensure_execution_saga-world env i s = ground arith

pub ensure_execution_saga-Consistent :
    (env : Env) (e : OtcExecutionSaga) (s : World)
    → Row e.otc_execution_saga_id e s
    → Agrees e e.status e.current_step s
    → FreshKey env e.contract_id s
    → Consistent e.otc_execution_saga_id (ensure_execution_saga env e.contract_id s).1
ensure_execution_saga-Consistent env e s row agrees fresh =
    let body = within_transaction (env.fails commit_step) (ensure_body env e.contract_id) s in
    subst (Consistent e.otc_execution_saga_id)
      (sym (ensure_execution_saga-world env e.contract_id s))
      (elim (Result-cases body.0) [
        | inr (y, bad) ↦
            subst (Consistent e.otc_execution_saga_id)
              (sym (within_transaction_err _ (ensure_body env e.contract_id) s bad))
              (e, row, agrees)
        | inl (o, good) ↦ ensure_body-Consistent env e s row agrees fresh (
            within_transaction_ok _ (ensure_body env e.contract_id) s
              (pair-eq {p = body} good refl))
      ])
