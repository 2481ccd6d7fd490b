-- ===== src/Banking/Interleaving/Payments.antt =====
-- The payment history of interbank_cash_service.go against the postings, over requests to both services.
use raf_8_banka_4_backend.Shared.{
  refl, List, [], ◌∷◌, String, ℤ, arith, Action, within_transaction, trim_space,
}
use raf_8_banka_4_backend.Banking.Model.{CurrencyCode, OtcFundsReservation}
use raf_8_banka_4_backend.Banking.Store.{Store, Env}
use raf_8_banka_4_backend.Banking.InterbankCash.Payments.{
  Beside, Tallied, same-Tallied, trans-Tallied, Beside-Tallied, prepare-Tallied, commit-Tallied,
  rollback-Tallied,
}
use raf_8_banka_4_backend.Banking.OtcFunds
use raf_8_banka_4_backend.Banking.OtcFunds.Lifecycle.{
  Call, reserve_call, release_call, commit_call, refund_call, run_call,
}
use raf_8_banka_4_backend.Banking.Interleaving.{
  Request, otc, prepare_posting, commit_posting, rollback_posting, serve, serve_all,
}

reserve_new-Beside :
    (env : Env) (id buyer seller : String) (amount : ℤ) (c : CurrencyCode) (s : Store)
    → Beside s (OtcFunds.reserve_new env id buyer seller amount c s).1
unfolding OtcFunds.reserve_new
reserve_new-Beside env id buyer seller amount c s = (ground arith, ground arith, ground arith)

reserve-Beside :
    (env : Env) (id buyer seller : String) (amount : ℤ) (c : CurrencyCode) (s : Store)
    → Beside s (OtcFunds.reserve env id buyer seller amount c s).1
unfolding OtcFunds.reserve within_transaction
reserve-Beside env id buyer seller amount c s =
    let fresh =
      reserve_new-Beside env (trim_space id) (trim_space buyer) (trim_space seller) amount c s in
    (ground arith, ground arith, ground arith)

transition-Beside :
    (env : Env) (id : String) (change : OtcFundsReservation → Action Store OtcFundsReservation)
    (s : Store)
    → ((r : OtcFundsReservation) → Beside s (change r s).1)
    → Beside s (OtcFunds.transition env id change s).1
unfolding OtcFunds.transition within_transaction
transition-Beside env id change s h = (
  grind (arith, λ (r : OtcFundsReservation). (h r).0),
  grind (arith, λ (r : OtcFundsReservation). (h r).1),
  grind (arith, λ (r : OtcFundsReservation). (h r).2),
)

release_row-Beside :
    (env : Env) (r : OtcFundsReservation) (s : Store) → Beside s (OtcFunds.release_row env r s).1
unfolding OtcFunds.release_row
release_row-Beside env r s = (ground arith, ground arith, ground arith)

commit_row-Beside :
    (env : Env) (r : OtcFundsReservation) (s : Store) → Beside s (OtcFunds.commit_row env r s).1
unfolding OtcFunds.commit_row
commit_row-Beside env r s = (ground arith, ground arith, ground arith)

refund_row-Beside :
    (env : Env) (r : OtcFundsReservation) (s : Store) → Beside s (OtcFunds.refund_row env r s).1
unfolding OtcFunds.refund_row
refund_row-Beside env r s = (ground arith, ground arith, ground arith)

run_call-Beside : (c : Call) (s : Store) → Beside s (run_call c s)
unfolding run_call OtcFunds.release OtcFunds.commit OtcFunds.refund
run_call-Beside (reserve_call env id buyer seller amount c) s =
    reserve-Beside env id buyer seller amount c s
run_call-Beside (release_call env id) s =
    transition-Beside env id (OtcFunds.release_row env) s (λ r. release_row-Beside env r s)
run_call-Beside (commit_call env id) s =
    transition-Beside env id (OtcFunds.commit_row env) s (λ r. commit_row-Beside env r s)
run_call-Beside (refund_call env id) s =
    transition-Beside env id (OtcFunds.refund_row env) s (λ r. refund_row-Beside env r s)

serve-Tallied : (r : Request) (s : Store) → Tallied s (serve r s)
unfolding serve
serve-Tallied (otc c) s = Beside-Tallied s (run_call c s) (run_call-Beside c s)
serve-Tallied (prepare_posting env id number client c amount user meta) s =
    prepare-Tallied env id number client c amount user meta s
serve-Tallied (commit_posting env id) s = commit-Tallied env id s
serve-Tallied (rollback_posting env id) s = rollback-Tallied env id s

-- Over any sequence of whole calls of the two services, repeated and failed ones included and whatever
-- the database does, the payment history gains exactly as many payments, and as many transactions, as
-- the number of committed postings that name no banking transaction grows by.
pub serve_all-Tallied : (rs : List Request) (s : Store) → Tallied s (serve_all rs s)
unfolding serve_all
serve_all-Tallied [] s = same-Tallied s s refl
serve_all-Tallied (r ∷ rs) s =
    trans-Tallied s (serve r s) (serve_all rs (serve r s)) (serve-Tallied r s)
      (serve_all-Tallied rs (serve r s))
