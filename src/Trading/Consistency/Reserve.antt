-- ===== src/Trading/Consistency/Reserve.antt =====
-- The step F1: the funds are reserved, or the execution stays at its first step or fails.
use raf_8_banka_4_backend.Shared.{
  ◌≡◌, refl, ◌⊎◌, inl, inr, sym, ap, ◌∙◌, subst, true, false, Bool-cases, Option, none, arith, ok,
}
use raf_8_banka_4_backend.Banking.Model.{OtcFundsReservation, reserved}
use raf_8_banka_4_backend.Banking.Store as Bank
use raf_8_banka_4_backend.Banking.OtcFunds as Funds
use raf_8_banka_4_backend.Banking.OtcFunds.Success.{reserve-err}
use raf_8_banka_4_backend.Trading.Bank.{reserve-Stored, reserve_err-found}
use raf_8_banka_4_backend.Trading.Model.{
  OtcExecutionSaga, OtcExecutionStep, OtcExecutionStatus, f1, before, errored,
}
use raf_8_banka_4_backend.Trading.World.{
  World, Env, Reply, replied, refused, GrpcCode, grpc_code, is_terminal_banking_error, reserve_call,
  times, find_contract_row,
}
use raf_8_banka_4_backend.Trading.Steps.{
  contract_of, request_funds, after_reserve_reply, reserve_funds,
}
use raf_8_banka_4_backend.Trading.Consistency.{
  Requested, Fits, Row, Consistent, settled, is_exercised,
}
use raf_8_banka_4_backend.Trading.Consistency.Calls.{Kept, call_bank-cases}
use raf_8_banka_4_backend.Trading.Consistency.Undo.{funds, no_forward_fault}
use raf_8_banka_4_backend.Trading.Consistency.Backward.{
  Open, mark_failed-Consistent, retry-Consistent,
}
use raf_8_banka_4_backend.Trading.Consistency.Advance.{advance-Consistent}

module _ (env : Env) (e : OtcExecutionSaga) (s : World) where
  pub reserve_funds-reply :
      {reply : Reply} {t : World}
      → env.fault_enabled ≡ false
      → request_funds env e (contract_of e.contract_id s.contracts) s ≡ (reply, t)
      → reserve_funds env e s ≡ after_reserve_reply env e reply t
  unfolding reserve_funds
  reserve_funds-reply off h = ground (arith, no_forward_fault env e f1 before s off)

module _ (env : Env) (e : OtcExecutionSaga) (s : World) (off : env.fault_enabled ≡ false)
    (row : Row e.otc_execution_saga_id e s) (open_still : Open e s)
    (fresh : (m : Option OtcFundsReservation)
      → (m ≡ none) ⊎ Requested (contract_of e.contract_id s.contracts) m
      → Fits e.status e.current_step (contract_of e.contract_id s.contracts) m) where
  refused-Consistent :
      (code : GrpcCode) (b : Bank.Store)
      → (funds e b ≡ none) ⊎ Requested (contract_of e.contract_id s.contracts) (funds e b)
      → (is_terminal_banking_error code ≡ true → funds e b ≡ none)
      → Fits OtcExecutionStatus.in_progress e.current_step
          (contract_of e.contract_id s.contracts)
          (funds e b)
      → Consistent e.otc_execution_saga_id
          (after_reserve_reply env e (refused code) (record s { banking = b })).1
  unfolding after_reserve_reply
  refused-Consistent code b m terminal same = elim (Bool-cases (is_terminal_banking_error code)) [
    | inl yes_terminal ↦ rw yes_terminal (
        mark_failed-Consistent env e s row open_still f1 errored b e.current_step open_still.1
          (fresh _ m) (open_still.1, inl (terminal yes_terminal)))
    | inr no_terminal ↦ rw no_terminal (
        retry-Consistent env e s row open_still f1 errored b e.current_step _ open_still.1
          (fresh _ m) same)
  ]

  replied-Consistent :
      (q : OtcFundsReservation) (b : Bank.Store)
      → q.execution_id ≡ e.execution_key
      → Requested (contract_of e.contract_id s.contracts) (funds e b)
      → Consistent e.otc_execution_saga_id
          (after_reserve_reply env e (replied q) (record s { banking = b })).1
  unfolding after_reserve_reply
  replied-Consistent q b key m =
      advance-Consistent env e s b OtcExecutionStep.funds_reserved f1 q off row open_still refl key
        (fresh _ (inr m)) (inl (m.0, m.1, m.2))

  -- The funds after a reservation that has been made.
  requested :
      (q : OtcFundsReservation) (b : Bank.Store)
      → (funds e s.banking ≡ none)
        ⊎ Requested (contract_of e.contract_id s.contracts) (funds e s.banking)
      → Funds.reserve env.bank e.execution_key
          (contract_of e.contract_id s.contracts).buyer_account_number
          (contract_of e.contract_id s.contracts).seller_account_number
          (times
            (contract_of e.contract_id s.contracts).amount
            (contract_of e.contract_id s.contracts).strike_price_rsd)
          "RSD"
          s.banking
        ≡ (ok q, b)
      → (q.execution_id ≡ e.execution_key)
        × Requested (contract_of e.contract_id s.contracts) (funds e b)
  requested q b m done =
      let c = contract_of e.contract_id s.contracts in
      let (stored, answers, cases) =
        reserve-Stored env.bank e.execution_key c.buyer_account_number c.seller_account_number
          (times c.amount c.strike_price_rsd) "RSD" s.banking row.2 done in
      let status : q.status ≡ reserved = elim cases [
        | inr (missing, made) ↦ made
        | inl found ↦ elim m [ inl missing ↦ absurd (cc) | inr (r, there, kept, asked) ↦ cc ]
      ] in
      (stored.1, (q, stored.0, status, answers))

  -- The refusal of a request whose row is there is not terminal.
  not_terminal :
      (code : GrpcCode)
      → (funds e s.banking ≡ none)
        ⊎ Requested (contract_of e.contract_id s.contracts) (funds e s.banking)
      → Kept
          (Funds.reserve env.bank e.execution_key
            (contract_of e.contract_id s.contracts).buyer_account_number
            (contract_of e.contract_id s.contracts).seller_account_number
            (times
              (contract_of e.contract_id s.contracts).amount
              (contract_of e.contract_id s.contracts).strike_price_rsd)
            "RSD")
          s
          code
      → is_terminal_banking_error code ≡ true
      → funds e s.banking ≡ none
  unfolding is_terminal_banking_error grpc_code
  not_terminal code m kept terminal = elim m [
    | inl missing ↦ missing
    | inr (r, there, status, asked) ↦ elim kept [
      | inl weak ↦ absurd (cc)
      | inr (x, bad, same) ↦
          let c = contract_of e.contract_id s.contracts in
          elim (reserve_err-found env.bank e.execution_key c.buyer_account_number
            c.seller_account_number (times c.amount c.strike_price_rsd) "RSD" s.banking row.2 row.3
            there asked bad) [ inl a ↦ absurd (ground arith) | inr a ↦ absurd (ground arith) ]
    ]
  ]

  reply-Consistent :
      (in_progress : (m : Option OtcFundsReservation)
        → (m ≡ none) ⊎ Requested (contract_of e.contract_id s.contracts) m
        → Fits OtcExecutionStatus.in_progress e.current_step
            (contract_of e.contract_id s.contracts)
            m)
      → (funds e s.banking ≡ none)
        ⊎ Requested (contract_of e.contract_id s.contracts) (funds e s.banking)
      → Consistent e.otc_execution_saga_id (reserve_funds env e s).1
  unfolding request_funds
  reply-Consistent in_progress m =
      let c = contract_of e.contract_id s.contracts in
      elim (call_bank-cases (env.delivery reserve_call)
        (Funds.reserve env.bank e.execution_key c.buyer_account_number c.seller_account_number
          (times c.amount c.strike_price_rsd) "RSD")
        s
        (λ x bad.
          reserve-err env.bank e.execution_key c.buyer_account_number c.seller_account_number
            (times c.amount c.strike_price_rsd) "RSD" s.banking bad)) [
              | inl (code, kept, same) ↦
                  subst (λ p. Consistent e.otc_execution_saga_id p.1)
                    (sym (reserve_funds-reply env e s off same))
                    (refused-Consistent code s.banking m (not_terminal code m kept)
                      (in_progress _ m))
              | inr (q, b, done, answer) ↦
                  let (key, now) = requested q b m done in
                  elim answer [
                    | inl heard ↦
                        subst (λ p. Consistent e.otc_execution_saga_id p.1)
                          (sym (reserve_funds-reply env e s off heard))
                          (replied-Consistent q b key now)
                    | inr (code, weak, unheard) ↦
                        subst (λ p. Consistent e.otc_execution_saga_id p.1)
                          (sym (reserve_funds-reply env e s off unheard))
                          (refused-Consistent code b (inr now) (λ t. absurd (cc))
                            (in_progress _ (inr now)))
                  ]
            ]

pub reserve_funds-Consistent :
    (env : Env) (e : OtcExecutionSaga) (s : World)
    → env.fault_enabled ≡ false
    → Row e.otc_execution_saga_id e s
    → e.status ≡ OtcExecutionStatus.in_progress
    → e.current_step ≡ OtcExecutionStep.init
    → Fits e.status e.current_step (contract_of e.contract_id s.contracts) (funds e s.banking)
    → is_exercised (find_contract_row e.contract_id s.contracts) ≡ settled e.current_step
    → Consistent e.otc_execution_saga_id (reserve_funds env e s).1
reserve_funds-Consistent env e s off row going at fits x =
    let c = contract_of e.contract_id s.contracts in
    let early : settled e.current_step ≡ false = ap settled at in
    reply-Consistent env e s off row (x ∙ early, early)
      (λ m h.
        subst (λ st. Fits st e.current_step c m) (sym going)
          (subst (λ st. Fits OtcExecutionStatus.in_progress st c m) (sym at) h))
      (λ m h. subst (λ st. Fits OtcExecutionStatus.in_progress st c m) (sym at) h)
      (subst (λ st. Fits OtcExecutionStatus.in_progress st c (funds e s.banking)) at
        (subst (λ st. Fits st e.current_step c (funds e s.banking)) going fits))
