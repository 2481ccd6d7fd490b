-- ===== src/Trading/Consistency/Calls.antt =====
-- The outcomes of a call of banking-service, as trading-service sees them.
use raf_8_banka_4_backend.Shared.{
  ◌≡◌, refl, ◌⊎◌, inl, inr, false, Action, ok, err, AppError, Result-cases, arith,
}
use raf_8_banka_4_backend.Banking.Model.{OtcFundsReservation}
use raf_8_banka_4_backend.Banking.Store as Bank
use raf_8_banka_4_backend.Trading.World.{
  World, Delivery, GrpcCode, grpc_code, is_terminal_banking_error, replied, refused, call_bank,
}

-- A refusal that is terminal is an answer of banking.
abbrev pub Kept : Action Bank.Store OtcFundsReservation → World → GrpcCode → Type 0
Kept m s code =
    (is_terminal_banking_error code ≡ false)
    ⊎ ((x : AppError) × ((m s.banking).0 ≡ err x) × (code ≡ grpc_code x))

-- The call has changed nothing and is refused, or it is done and is answered, or it is done and the
-- answer is lost.
pub call_bank-cases :
    (d : Delivery) (m : Action Bank.Store OtcFundsReservation) (s : World)
    → ((x : AppError) → (m s.banking).0 ≡ err x → (m s.banking).1 ≡ s.banking)
    → ((code : GrpcCode) × Kept m s code × (call_bank d m s ≡ (refused code, s)))
      ⊎ ((q : OtcFundsReservation) × (b : Bank.Store) × (m s.banking ≡ (ok q, b))
          × ((call_bank d m s ≡ (replied q, record s { banking = b }))
              ⊎ ((code : GrpcCode) × (is_terminal_banking_error code ≡ false)
                  × (call_bank d m s ≡ (refused code, record s { banking = b })))))
unfolding call_bank is_terminal_banking_error
call_bank-cases Delivery.unreachable m s restores = inl (GrpcCode.unavailable, inl refl, refl)
call_bank-cases Delivery.lost m s restores = elim (Result-cases (m s.banking).0) [
  | inl (q, done) ↦
      inr (q, (m s.banking).1, ground arith, inr (GrpcCode.deadline_exceeded, refl, refl))
  | inr (x, bad) ↦ inl (GrpcCode.deadline_exceeded, inl refl, ground (arith, restores x bad))
]
call_bank-cases Delivery.answered m s restores = elim (Result-cases (m s.banking).0) [
  | inl (q, done) ↦ inr (q, (m s.banking).1, ground arith, inl (ground arith))
  | inr (x, bad) ↦ inl (grpc_code x, inr (x, bad, refl), ground (arith, restores x bad))
]
