-- ===== src/Trading/Consistency/Commit.antt =====
-- The step F3: the funds are paid, or released, or the step is tried again.
use raf_8_banka_4_backend.Shared.{
  ◌≡◌, refl, ◌⊎◌, inl, inr, sym, ap, subst, true, false, Bool-cases, Option, arith,
}
use raf_8_banka_4_backend.Banking.Model.{OtcFundsReservation, reserved, released, committed}
use raf_8_banka_4_backend.Banking.Store as Bank
use raf_8_banka_4_backend.Banking.OtcFunds as Funds
use raf_8_banka_4_backend.Trading.Bank.{commit-Stored, commit-err, commit_err-committed}
use raf_8_banka_4_backend.Trading.Model.{
  OtcExecutionSaga, OtcExecutionStep, OtcExecutionStatus, f3, before, errored,
}
use raf_8_banka_4_backend.Trading.World.{
  World, Env, Reply, replied, refused, GrpcCode, grpc_code, is_terminal_banking_error, call_bank,
  commit_call, find_contract_row, append_saga_log,
}
use raf_8_banka_4_backend.Trading.Steps.{contract_of}
use raf_8_banka_4_backend.Trading.Settlement.{after_commit_reply, commit_funds}
use raf_8_banka_4_backend.Trading.Consistency.{In, Fits, Row, Consistent, settled, is_exercised}
use raf_8_banka_4_backend.Trading.Consistency.Calls.{Kept, call_bank-cases}
use raf_8_banka_4_backend.Trading.Consistency.Undo.{funds, no_forward_fault}
use raf_8_banka_4_backend.Trading.Consistency.Backward.{
  Stays, release_and_fail-Consistent, retry-Consistent,
}
use raf_8_banka_4_backend.Trading.Consistency.Advance.{advance-Consistent}

pub commit_funds-reply :
    (env : Env) (e : OtcExecutionSaga) (s : World) {reply : Reply} {t : World}
    → env.fault_enabled ≡ false
    → call_bank (env.delivery commit_call) (Funds.commit env.bank e.execution_key) s ≡ (reply, t)
    → commit_funds env e s ≡ after_commit_reply env e reply t
unfolding commit_funds
commit_funds-reply env e s off h = ground (arith, no_forward_fault env e f3 before s off)

abbrev Payable : Option OtcFundsReservation → Type 0
Payable m = In reserved m ⊎ In released m ⊎ In committed m

module _ (env : Env) (e : OtcExecutionSaga) (s : World) (off : env.fault_enabled ≡ false)
    (row : Row e.otc_execution_saga_id e s) (going : e.status ≡ OtcExecutionStatus.in_progress)
    (at : e.current_step ≡ OtcExecutionStep.shares_confirmed)
    (x : is_exercised (find_contract_row e.contract_id s.contracts) ≡ false) where
  point :
      {n : Option OtcFundsReservation}
      → Payable n
      → Fits OtcExecutionStatus.in_progress e.current_step (contract_of e.contract_id s.contracts) n
  point {n} p =
      subst (λ st. Fits OtcExecutionStatus.in_progress st (contract_of e.contract_id s.contracts) n)
        (sym at) p

  here :
      {n : Option OtcFundsReservation}
      → Payable n
      → Fits e.status e.current_step (contract_of e.contract_id s.contracts) n
  here {n} p =
      subst (λ st. Fits st e.current_step (contract_of e.contract_id s.contracts) n) (sym going)
        (point p)

  stays : Stays e s reserved released
  stays n either = here (elim either [ inl a ↦ inl a | inr a ↦ inr (inl a) ])

  refused-Consistent :
      (code : GrpcCode) (b : Bank.Store)
      → Payable (funds e b)
      → (is_terminal_banking_error code ≡ true → In reserved (funds e b) ⊎ In released (funds e b))
      → Consistent e.otc_execution_saga_id
          (after_commit_reply env e (refused code) (record s { banking = b })).1
  unfolding after_commit_reply append_saga_log
  refused-Consistent code b m terminal = elim (Bool-cases (is_terminal_banking_error code)) [
    | inl final ↦ rw final (
        release_and_fail-Consistent env e
          (append_saga_log env e.otc_execution_saga_id f3 errored (record s { banking = b })) off
          row (x, ap settled at) stays (terminal final))
    | inr passing ↦ rw passing (
        retry-Consistent env e s row (x, ap settled at) f3 errored b e.current_step _
          (ap settled at) (here m) (point m))
  ]

  replied-Consistent :
      (q : OtcFundsReservation) (b : Bank.Store)
      → q.execution_id ≡ e.execution_key
      → In committed (funds e b)
      → Consistent e.otc_execution_saga_id
          (after_commit_reply env e (replied q) (record s { banking = b })).1
  unfolding after_commit_reply
  replied-Consistent q b key m =
      advance-Consistent env e s b OtcExecutionStep.funds_committed f3 q off row (x, ap settled at)
        refl key (here (inr (inr m))) m

  -- A commit that is refused for good has not been made before.
  not_paid :
      (code : GrpcCode)
      → Payable (funds e s.banking)
      → Kept (Funds.commit env.bank e.execution_key) s code
      → is_terminal_banking_error code ≡ true
      → In reserved (funds e s.banking) ⊎ In released (funds e s.banking)
  unfolding is_terminal_banking_error grpc_code
  not_paid code (inl m) kept final = inl m
  not_paid code (inr (inl m)) kept final = inr m
  not_paid code (inr (inr (r, found, status))) (inl weak) final = absurd (cc)
  not_paid code (inr (inr (r, found, status))) (inr (y, bad, same)) final =
      elim (commit_err-committed env.bank e.execution_key s.banking row.2 row.3 found status bad) [
        | inl a ↦ absurd (ground arith)
        | inr a ↦ absurd (ground arith)
      ]

  pub commit_funds-Consistent :
      Payable (funds e s.banking) → Consistent e.otc_execution_saga_id (commit_funds env e s).1
  commit_funds-Consistent m =
      elim (call_bank-cases (env.delivery commit_call) (Funds.commit env.bank e.execution_key) s
        (λ y bad. commit-err env.bank e.execution_key s.banking bad)) [
          | inl (code, kept, same) ↦
              subst (λ p. Consistent e.otc_execution_saga_id p.1)
                (sym (commit_funds-reply env e s off same))
                (refused-Consistent code s.banking m (not_paid code m kept))
          | inr (q, b, done, answer) ↦
              let (r, found, stored, now, old) =
                commit-Stored env.bank e.execution_key s.banking row.2 done in
              let paid : In committed (funds e b) = (q, stored.0, now) in
              elim answer [
                | inl heard ↦
                    subst (λ p. Consistent e.otc_execution_saga_id p.1)
                      (sym (commit_funds-reply env e s off heard))
                      (replied-Consistent q b stored.1 paid)
                | inr (code, weak, unheard) ↦
                    subst (λ p. Consistent e.otc_execution_saga_id p.1)
                      (sym (commit_funds-reply env e s off unheard))
                      (refused-Consistent code b (inr (inr paid)) (λ t. absurd (cc)))
              ]
        ]
