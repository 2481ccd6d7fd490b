-- ===== src/Trading/Consistency/Undo.antt =====
-- The two compensators: the funds are released or paid back, or the execution stays as it is.
use raf_8_banka_4_backend.Shared.{
  trim_space, Result, ◌≡◌, refl, ◌⊎◌, inl, inr, Bool, true, false, Option, arith, ok,
}
use raf_8_banka_4_backend.Banking.Model.{
  OtcFundsReservation, OtcFundsReservationStatus, reserved, released, committed, refunded,
}
use raf_8_banka_4_backend.Banking.Store as Bank
use raf_8_banka_4_backend.Banking.Store.{find_reservation_row}
use raf_8_banka_4_backend.Banking.OtcFunds as Funds
use raf_8_banka_4_backend.Trading.Bank.{release-err, refund-err, release-Stored, refund-Stored}
use raf_8_banka_4_backend.Trading.Model.{
  OtcExecutionSaga, SagaStep, c1, c3, Kind, OtcExecutionLogOutcome, succeeded, errored,
}
use raf_8_banka_4_backend.Trading.World.{
  World, Env, GrpcCode, Reply, replied, refused, release_call, refund_call, append_saga_log,
}
use raf_8_banka_4_backend.Trading.Execution.{
  consume_compensation_fault, consume_forward_fault, fault_spec, forward_fault, compensation_fault,
  compensate, compensate_release_funds, compensate_refund_funds,
}
use raf_8_banka_4_backend.Trading.Consistency.{In}
use raf_8_banka_4_backend.Trading.Consistency.Calls.{call_bank-cases}

-- Without fault injection no fault is found.
pub no_forward_fault :
    (env : Env) (e : OtcExecutionSaga) (step : SagaStep) (kind : Kind) (s : World)
    → env.fault_enabled ≡ false
    → consume_forward_fault env e step kind s ≡ (ok false, s)
unfolding consume_forward_fault fault_spec forward_fault
no_forward_fault env e step kind s off = rw off refl

pub no_compensation_fault :
    (env : Env) (e : OtcExecutionSaga) (step : SagaStep) (s : World)
    → env.fault_enabled ≡ false
    → consume_compensation_fault env e step s ≡ (ok false, s)
unfolding consume_compensation_fault fault_spec compensation_fault
no_compensation_fault env e step s off = rw off refl

-- The world after a call that leaves banking at b, with the log entry of the step.
abbrev pub called :
    Env → OtcExecutionSaga → SagaStep → OtcExecutionLogOutcome → World → Bank.Store → World
called env e step outcome s b =
    append_saga_log env e.otc_execution_saga_id step outcome (record s { banking = b })

abbrev pub funds : OtcExecutionSaga → Bank.Store → Option OtcFundsReservation
funds e b = find_reservation_row e.execution_key b.reservations

module _ (env : Env) (e : OtcExecutionSaga) (s : World) (off : env.fault_enabled ≡ false) where
  compensate-refused :
      (step : SagaStep) (call : World → Reply × World) {code : GrpcCode} {t : World}
      → call s ≡ (refused code, t)
      → compensate env e step call s
        ≡ (ok false, append_saga_log env e.otc_execution_saga_id step errored t)
  unfolding compensate
  compensate-refused step call h = ground (arith, no_compensation_fault env e step s off)

  compensate-replied :
      (step : SagaStep) (call : World → Reply × World) {q : OtcFundsReservation} {t : World}
      → call s ≡ (replied q, t)
      → compensate env e step call s
        ≡ (ok true, append_saga_log env e.otc_execution_saga_id step succeeded t)
  unfolding compensate
  compensate-replied step call h = ground (arith, no_compensation_fault env e step s off)

-- A compensator that has succeeded leaves funds of a status `to`; otherwise they may be as before, of
-- a status `from` or `to`.
abbrev pub Undone :
    Env
    → OtcExecutionSaga
    → SagaStep
    → OtcFundsReservationStatus
    → OtcFundsReservationStatus
    → Result Bool × World
    → World
    → Type 0
Undone env e step from to p s =
    (b : Bank.Store) × (((p ≡ (ok true, called env e step succeeded s b)) × In to (funds e b))
      ⊎ ((p ≡ (ok false, called env e step errored s b))
          × (In from (funds e b) ⊎ In to (funds e b))))

module _ (env : Env) (e : OtcExecutionSaga) (s : World) (off : env.fault_enabled ≡ false)
    (trimmed : trim_space e.execution_key ≡ e.execution_key) where
  pub release-Undone :
      In reserved (funds e s.banking) ⊎ In released (funds e s.banking)
      → Undone env e c1 reserved released (compensate_release_funds env e s) s
  unfolding compensate_release_funds
  release-Undone m =
      elim (call_bank-cases (env.delivery release_call) (Funds.release env.bank e.execution_key) s
        (λ x bad. release-err env.bank e.execution_key s.banking bad)) [
          | inl (code, kept, same) ↦ (s.banking, inr (compensate-refused env e s off c1 _ same, m))
          | inr (q, b, done, answer) ↦
              let (r, found, stored, now, before) =
                release-Stored env.bank e.execution_key s.banking trimmed done in
              elim answer [
                | inl heard ↦
                    (b, inl (compensate-replied env e s off c1 _ heard, (q, stored.0, now)))
                | inr (code, weak, unheard) ↦
                    (b, inr (compensate-refused env e s off c1 _ unheard, inr (q, stored.0, now)))
              ]
        ]

  pub refund-Undone :
      In committed (funds e s.banking) ⊎ In refunded (funds e s.banking)
      → Undone env e c3 committed refunded (compensate_refund_funds env e s) s
  unfolding compensate_refund_funds
  refund-Undone m =
      elim (call_bank-cases (env.delivery refund_call) (Funds.refund env.bank e.execution_key) s
        (λ x bad. refund-err env.bank e.execution_key s.banking bad)) [
          | inl (code, kept, same) ↦ (s.banking, inr (compensate-refused env e s off c3 _ same, m))
          | inr (q, b, done, answer) ↦
              let (r, found, stored, now, before) =
                refund-Stored env.bank e.execution_key s.banking trimmed done in
              elim answer [
                | inl heard ↦
                    (b, inl (compensate-replied env e s off c3 _ heard, (q, stored.0, now)))
                | inr (code, weak, unheard) ↦
                    (b, inr (compensate-refused env e s off c3 _ unheard, inr (q, stored.0, now)))
              ]
        ]
