-- ===== src/Trading/Consistency/Live.antt =====
-- What the checks of a live contract leave: the contract has expired, or the step has gone on.
use native.Mathlib.Decide.{ℕ_discrete}
use raf_8_banka_4_backend.Shared.{
  ℕ, ◌≡◌, refl, ◌⊎◌, inl, inr, sym, ◌∙◌, subst, Bool, true, false, none, some, Option-cases,
  Bool-cases, Result-cases, Action, ok, arith, find-save, find-key, if_pos, List,
}
use raf_8_banka_4_backend.Trading.Model.{
  OtcExecutionSaga, OtcOptionContract, OtcOptionContractStatus, OtcShareReservation,
  OtcShareReservationStatus,
}
use raf_8_banka_4_backend.Trading.World.{
  World, Env, find_contract_row, save_contract_row, find_reservation_row,
}
use raf_8_banka_4_backend.Trading.Contracts.{
  expire_locked_contract, free_reservation, should_expire_contract, validate_contract_for_execution,
  ensure_seller_capacity_for_settlement,
}
use raf_8_banka_4_backend.Trading.Steps.{on_live_contract}
use raf_8_banka_4_backend.Trading.Consistency.{is_exercised}

-- The contract of a key after its row is saved.
pub find-save_contract_row :
    (i : ℕ) (c d : OtcOptionContract) (cs : List OtcOptionContract)
    → find_contract_row i cs ≡ some c
    → d.otc_option_contract_id ≡ c.otc_option_contract_id
    → find_contract_row i (save_contract_row d cs) ≡ some d
unfolding find_contract_row save_contract_row
find-save_contract_row i c d cs found same =
    find-save ℕ_discrete (λ x. x.otc_option_contract_id) i d cs
    ∙ if_pos (ℕ_discrete d.otc_option_contract_id i)
        (same ∙ find-key ℕ_discrete (λ x. x.otc_option_contract_id) i cs found) _ _

free_reservation-frame :
    (env : Env) (c : OtcOptionContract) (r : OtcShareReservation) (s : World)
    → ((free_reservation env c r s).1.executions ≡ s.executions)
      × ((free_reservation env c r s).1.banking ≡ s.banking)
      × ((free_reservation env c r s).1.contracts ≡ s.contracts)
unfolding free_reservation
free_reservation-frame env c r s = ground arith

-- An expiry changes neither the executions nor the funds.
pub expire_locked_contract-ok :
    (env : Env) (c : OtcOptionContract) (s : World) {t : World}
    → expire_locked_contract env c s ≡ (ok tt, t)
    → (t.executions ≡ s.executions)
      × (t.banking ≡ s.banking)
      × (t.contracts
          ≡ save_contract_row (record c { status = OtcOptionContractStatus.expired }) s.contracts)
unfolding expire_locked_contract
expire_locked_contract-ok env c s h =
    elim (Option-cases (find_reservation_row c.otc_option_contract_id s.reservations)) [
      | inl missing ↦ ground arith
      | inr (r, there) ↦ ground (arith, free_reservation-frame env c r s)
    ]

abbrev pub Expired : OtcExecutionSaga → World → World → Type 0
Expired e s t =
    (t.executions ≡ s.executions)
    × (t.banking ≡ s.banking)
    × (is_exercised (find_contract_row e.contract_id t.contracts) ≡ false)

module _ (env : Env) (e : OtcExecutionSaga)
    (go_on : OtcOptionContract → OtcShareReservation → Action World (Unit {0})) (s : World) where
  on_live_contract-expired :
      {v : Bool} {t : World} (c : OtcOptionContract)
      → find_contract_row e.contract_id s.contracts ≡ some c
      → should_expire_contract env c ≡ true
      → on_live_contract env e go_on s ≡ (ok v, t)
      → (v ≡ true) × (expire_locked_contract env c s ≡ (ok tt, t))
  unfolding on_live_contract
  on_live_contract-expired c there due h = elim (Result-cases (expire_locked_contract env c s).0) [
    | inl (u, good) ↦ (ground arith, ground arith)
    | inr (x, bad) ↦ absurd (ground arith)
  ]

  on_live_contract-goes_on :
      {v : Bool} {t : World} (c : OtcOptionContract)
      → find_contract_row e.contract_id s.contracts ≡ some c
      → should_expire_contract env c ≡ false
      → on_live_contract env e go_on s ≡ (ok v, t)
      → (r : OtcShareReservation) × (c.status ≡ OtcOptionContractStatus.active)
        × (find_reservation_row e.contract_id s.reservations ≡ some r)
        × (r.status ≡ OtcShareReservationStatus.active)
        × (v ≡ false)
        × (go_on c r s ≡ (ok tt, t))
  unfolding on_live_contract validate_contract_for_execution ensure_seller_capacity_for_settlement
  on_live_contract-goes_on c there due h =
      elim (Option-cases (find_reservation_row e.contract_id s.reservations)) [
        | inl missing ↦ absurd (ground arith)
        | inr (r, found) ↦ elim (Result-cases (go_on c r s).0) [
          | inl (u, good) ↦ (r, ground arith, found, ground arith, ground arith, ground arith)
          | inr (x, bad) ↦ absurd (ground arith)
        ]
      ]

  on_live_contract-missing :
      {v : Bool} {t : World}
      → find_contract_row e.contract_id s.contracts ≡ none
      → on_live_contract env e go_on s ≡ (ok v, t)
      → ⊥
  unfolding on_live_contract
  on_live_contract-missing missing h = ground arith

  pub on_live_contract-ok :
      {v : Bool} {t : World}
      → on_live_contract env e go_on s ≡ (ok v, t)
      → ((v ≡ true) × Expired e s t)
        ⊎ ((c : OtcOptionContract) × (r : OtcShareReservation) × (find_contract_row e.contract_id
                s.contracts
              ≡ some c)
            × (c.status ≡ OtcOptionContractStatus.active)
            × (find_reservation_row e.contract_id s.reservations ≡ some r)
            × (r.status ≡ OtcShareReservationStatus.active)
            × (v ≡ false)
            × (go_on c r s ≡ (ok tt, t)))
  on_live_contract-ok {v} {t} h =
      elim (Option-cases (find_contract_row e.contract_id s.contracts)) [
        | inl missing ↦ absurd (on_live_contract-missing missing h)
        | inr (c, there) ↦ elim (Bool-cases (should_expire_contract env c)) [
          | inl due ↦
              let (is, done) = on_live_contract-expired c there due h in
              let (a, b, saved) = expire_locked_contract-ok env c s done in
              inl (
                is,
                (
                  a,
                  b,
                  subst (λ cs. is_exercised (find_contract_row e.contract_id cs) ≡ false)
                      (sym saved)
                      (subst (λ x. is_exercised x ≡ false)
                        (sym (
                          find-save_contract_row e.contract_id c
                            (record c { status = OtcOptionContractStatus.expired }) s.contracts
                            there refl))
                        refl),
                ),
              )
          | inr live ↦
              let (r, active, found, held, is, done) = on_live_contract-goes_on c there live h in
              inr (c, r, there, active, found, held, is, done)
        ]
      ]
