-- ===== src/Trading/Consistency/Expiry.antt =====
-- The expiry of contracts beside the saga, expireContract.
use native.Mathlib.Decide.{ℕ_discrete}
use raf_8_banka_4_backend.Shared.{
  ℕ, some, ◌≡◌, refl, ◌⊎◌, inl, inr, sym, ap, ◌∙◌, subst, Bool, true, Bool-cases, Option,
  Option-cases, arith, find-save, find-key, if_pos, if_neg, List, Result-cases, ok,
  within_transaction_ok, within_transaction_err,
}
use raf_8_banka_4_backend.Banking.Model.{OtcFundsReservation}
use raf_8_banka_4_backend.Banking.Store as Bank
use raf_8_banka_4_backend.Trading.Consistency.Confirm.{pair-eq}
use raf_8_banka_4_backend.Trading.Model.{
  OtcExecutionStep, OtcExecutionStatus, OtcOptionContract, OtcOptionContractStatus,
}
use raf_8_banka_4_backend.Trading.World.{World, Env, find_contract_row, save_contract_row}
use raf_8_banka_4_backend.Trading.Contracts.{
  should_expire_contract, expire_locked_contract, expire_if_due, expire_contract,
}
use raf_8_banka_4_backend.Trading.Steps.{contract_of}
use raf_8_banka_4_backend.Trading.Consistency.{Fits, Consistent, is_exercised, money}
use raf_8_banka_4_backend.Trading.Consistency.Live.{expire_locked_contract-ok}

-- The status of the contract does not count for the funds.
Fits-relabel :
    (st : OtcExecutionStatus) (step : OtcExecutionStep) (c : OtcOptionContract)
    (label : OtcOptionContractStatus) (m : Option OtcFundsReservation)
    → Fits st step c m
    → Fits st step (record c { status = label }) m
Fits-relabel OtcExecutionStatus.in_progress OtcExecutionStep.init c label m h = h
Fits-relabel OtcExecutionStatus.in_progress OtcExecutionStep.funds_reserved c label m h = h
Fits-relabel OtcExecutionStatus.in_progress OtcExecutionStep.shares_confirmed c label m h = h
Fits-relabel OtcExecutionStatus.in_progress OtcExecutionStep.funds_committed c label m h = h
Fits-relabel OtcExecutionStatus.in_progress OtcExecutionStep.ownership_transferred c label m h = h
Fits-relabel OtcExecutionStatus.in_progress OtcExecutionStep.completed c label m h = h
Fits-relabel OtcExecutionStatus.compensating step c label m h = h
Fits-relabel OtcExecutionStatus.completed step c label m h = h
Fits-relabel OtcExecutionStatus.failed step c label m h = h

module _ (i : ℕ) (cs : List OtcOptionContract) where
  contract_of-found :
      {d : OtcOptionContract} → find_contract_row i cs ≡ some d → contract_of i cs ≡ d
  unfolding contract_of
  contract_of-found h = ground arith

  contract_of-same :
      (ds : List OtcOptionContract)
      → find_contract_row i ds ≡ find_contract_row i cs
      → contract_of i ds ≡ contract_of i cs
  unfolding contract_of
  contract_of-same ds h = ground arith

-- A contract that is active expires.
module _ (j i : ℕ) (c : OtcOptionContract) (cs : List OtcOptionContract)
    (found : find_contract_row j cs ≡ some c)
    (active : c.status ≡ OtcOptionContractStatus.active) where
  abbrev after : List OtcOptionContract
  after = save_contract_row (record c { status = OtcOptionContractStatus.expired }) cs

  expired-cases :
      (find_contract_row i after ≡ find_contract_row i cs)
      ⊎ ((find_contract_row i cs ≡ some c)
          × (find_contract_row i after
              ≡ some (record c { status = OtcOptionContractStatus.expired })))
  unfolding find_contract_row save_contract_row
  expired-cases = elim (ℕ_discrete c.otc_option_contract_id i) [
    | yes p ↦ inr (
      subst (λ k. find_contract_row k cs ≡ some c)
          (sym (find-key ℕ_discrete (λ x. x.otc_option_contract_id) j cs found) ∙ p) found,
      find-save ℕ_discrete (λ x. x.otc_option_contract_id) i
            (record c { status = OtcOptionContractStatus.expired }) cs
          ∙ if_pos (ℕ_discrete c.otc_option_contract_id i) p _ _,
    )
    | no n ↦ inl (
        find-save ℕ_discrete (λ x. x.otc_option_contract_id) i
          (record c { status = OtcOptionContractStatus.expired }) cs
        ∙ if_neg (ℕ_discrete c.otc_option_contract_id i) n _ _)
  ]

  expired-Fits :
      (st : OtcExecutionStatus) (step : OtcExecutionStep) (m : Option OtcFundsReservation)
      → Fits st step (contract_of i cs) m
      → Fits st step (contract_of i after) m
  expired-Fits st step m h = elim expired-cases [
    | inl same ↦ subst (λ x. Fits st step x m) (sym (contract_of-same i cs after same)) h
    | inr (old, new) ↦
        subst (λ x. Fits st step x m) (sym (contract_of-found i after new))
          (Fits-relabel st step c OtcOptionContractStatus.expired m
            (subst (λ x. Fits st step x m) (contract_of-found i cs old) h))
  ]

  expired-is_exercised :
      is_exercised (find_contract_row i after) ≡ is_exercised (find_contract_row i cs)
  expired-is_exercised = elim expired-cases [
    | inl same ↦ ap is_exercised same
    | inr (old, new) ↦ ap is_exercised new ∙ sym (ap is_exercised old ∙ ground arith)
  ]

-- The records after an expiry in a world that has the same executions and funds.
pub expired_world-Consistent :
    (i j : ℕ) (c : OtcOptionContract) (s t : World)
    → find_contract_row j s.contracts ≡ some c
    → c.status ≡ OtcOptionContractStatus.active
    → (t.executions ≡ s.executions)
      × (t.banking ≡ s.banking)
      × (t.contracts
          ≡ save_contract_row (record c { status = OtcOptionContractStatus.expired }) s.contracts)
    → Consistent i s
    → Consistent i t
expired_world-Consistent i j c s t found active (rows, kept, saved) (e, row, (fits, x)) = (
  e,
  (cc, cc, row.2, row.3),
  (
    subst
        (λ cs.
          Fits e.status e.current_step (contract_of e.contract_id cs) (money e.execution_key t))
        (sym saved)
        (expired-Fits j e.contract_id c s.contracts found active e.status e.current_step _ (
          subst
            (λ b.
              Fits e.status e.current_step (contract_of e.contract_id s.contracts)
                (Bank.find_reservation_row e.execution_key b.reservations))
            (sym kept) fits)),
    ap (λ cs. is_exercised (find_contract_row e.contract_id cs)) saved
        ∙ expired-is_exercised j e.contract_id c s.contracts found active
        ∙ x,
  ),
)

pub should_expire_contract-active :
    (env : Env) (c : OtcOptionContract)
    → should_expire_contract env c ≡ true
    → c.status ≡ OtcOptionContractStatus.active
unfolding should_expire_contract
should_expire_contract-active env c h = ground arith

expire_if_due-cases :
    (env : Env) (j : ℕ) (s : World) {v : Bool} {t : World}
    → expire_if_due env j s ≡ (ok v, t)
    → (t ≡ s)
      ⊎ ((c : OtcOptionContract) × (find_contract_row j s.contracts ≡ some c)
          × (should_expire_contract env c ≡ true)
          × (expire_locked_contract env c s ≡ (ok tt, t)))
unfolding expire_if_due
expire_if_due-cases env j s h = elim (Option-cases (find_contract_row j s.contracts)) [
  | inl missing ↦ absurd (ground arith)
  | inr (c, there) ↦ elim (Bool-cases (should_expire_contract env c)) [
    | inr live ↦ inl (ground arith)
    | inl due ↦ elim (Result-cases (expire_locked_contract env c s).0) [
      | inl (u, good) ↦ inr (c, there, due, ground arith)
      | inr (y, bad) ↦ absurd (ground arith)
    ]
  ]
]

pub expire_contract-Consistent :
    (env : Env) (i j : ℕ) (s : World) → Consistent i s → Consistent i (expire_contract env j s).1
unfolding expire_contract
expire_contract-Consistent env i j s h = elim (Result-cases (expire_contract env j s).0) [
  | inr (y, bad) ↦
      subst (Consistent i) (sym (within_transaction_err _ (expire_if_due env j) s bad)) h
  | inl (v, good) ↦
      let ran =
        within_transaction_ok _ (expire_if_due env j) s
          (pair-eq {p = expire_contract env j s} good refl) in
      elim (expire_if_due-cases env j s ran) [
        | inl same ↦ subst (Consistent i) (sym same) h
        | inr (c, there, due, done) ↦
            expired_world-Consistent i j c s (expire_contract env j s).1 there
              (should_expire_contract-active env c due) (expire_locked_contract-ok env c s done) h
      ]
]
