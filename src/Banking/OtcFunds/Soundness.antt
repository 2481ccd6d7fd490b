-- ===== src/Banking/OtcFunds/Soundness.antt =====
-- Every call of otc_funds_service.go keeps the ledger sound, whether it succeeds or fails.
mod Rows
unfoldable pub use Rows.*
use raf_8_banka_4_backend.Shared.{
  some, ◌∷◌, [], ◌++◌, ◌≡◌, refl, sym, subst, ◌≢◌, inl, inr, String, trim_space, same_parts,
  All-append_one, ℤ, pos, ◌+ℤ◌, ◌≤ℤ◌, int_laws, Action, ok, arith, Result-cases,
}
use raf_8_banka_4_backend.Banking.Model.{
  CurrencyCode, Account, OtcFundsReservation, OtcFundsReservationStatus-discrete, reserved,
  released, committed, refunded,
}
use raf_8_banka_4_backend.Banking.Store.{
  Store, Env, ConvertsUp, find_account_row, find_reservation_row, save_reservation_row,
  update_balance,
}
use raf_8_banka_4_backend.Banking.Funds.{
  credit_available, debit_available, debit_balance, credit, debit, reservation_hold,
  held_by_reservations, held_by_postings, held, reservation_hold_own, IsPriced, IsSound,
  update-IsKeyed, Covers-update, Covers-weaken, held_by_reservations-save,
  held_by_reservations-append, reservation_hold_nonneg, find_account_row-number,
  find_reservation_row_self, found-IsPriced, save-IsPriced,
}
use raf_8_banka_4_backend.Banking.OtcFunds.{
  convert_trade_amount, reserve_new, reserve, release_row, commit_row, refund_row, transition,
  release, commit, refund,
}
use raf_8_banka_4_backend.Banking.OtcFunds.Success.{
  reservation_row, reserve_new-ok, reserve-ok, release_row-idle, release_row-ok, commit_row-idle,
  commit_row-ok, refund_row-idle, refund_row-ok, transition-ok, transition-err, reserve-err,
}

convert_trade_amount_nonneg :
    (env : Env) (x y : ℤ) (from to : CurrencyCode)
    → ConvertsUp env
    → convert_trade_amount env x from to ≡ ok y
    → pos 0 ≤ℤ x
    → pos 0 ≤ℤ y
unfolding convert_trade_amount
convert_trade_amount_nonneg env x y from to up h n = ground (arith, up.convert_nonneg x y from to)

-- A change of a row by a closure that keeps the ledger sound when it succeeds, saved by `transition`.
transition-IsSound :
    (env : Env) (id : String) (change : OtcFundsReservation → Action Store OtcFundsReservation)
    (s : Store)
    → IsSound s
    → ((r q : OtcFundsReservation) (u : Store)
        → find_reservation_row r.execution_id s.reservations ≡ some r
        → change r s ≡ (ok q, u)
        → IsSound (record u { reservations = save_reservation_row q u.reservations }))
    → IsSound (transition env id change s).1
transition-IsSound env id change s v keeps = elim (Result-cases (transition env id change s).0) [
  | inr (e, bad) ↦ rw (transition-err env id change s bad) v
  | inl (q, good) ↦
      let (r, u, found, run, result) =
        transition-ok env id change s (λ i. (good i, (transition env id change s).1)) in
      rw result (keeps r q u (find_reservation_row_self (trim_space id) s.reservations r found) run)
]

module _ (env : Env) (id : String) (s : Store) (v : IsSound s) where
  -- A release keeps the ledger sound, on success and on every error.
  pub release-IsSound : IsSound (release env id s).1
  unfolding release
  release-IsSound = transition-IsSound env id (release_row env) s v keeps
    where
      keeps :
          (r q : OtcFundsReservation) (u : Store)
          → find_reservation_row r.execution_id s.reservations ≡ some r
          → release_row env r s ≡ (ok q, u)
          → IsSound (record u { reservations = save_reservation_row q u.reservations })
      keeps r q u found run = elim (OtcFundsReservationStatus-discrete r.status reserved) [
        | no other ↦
            let (st, same, kept) = release_row-idle env r s other run in
            rw (same, kept) (resaved-IsSound r s v found)
        | yes st ↦
            let (b, fb, eq, et) = release_row-ok env r s st run in
            rw (eq, et) (released-IsSound r s v found b st fb)
      ]

  -- A commit keeps the ledger sound, on success and on every error.
  pub commit-IsSound : IsSound (commit env id s).1
  unfolding commit
  commit-IsSound = transition-IsSound env id (commit_row env) s v keeps
    where
      keeps :
          (r q : OtcFundsReservation) (u : Store)
          → find_reservation_row r.execution_id s.reservations ≡ some r
          → commit_row env r s ≡ (ok q, u)
          → IsSound (record u { reservations = save_reservation_row q u.reservations })
      keeps r q u found run = elim (OtcFundsReservationStatus-discrete r.status reserved) [
        | no other ↦
            let (st, same, kept) = commit_row-idle env r s other run in
            rw (same, kept) (resaved-IsSound r s v found)
        | yes st ↦
            let (b, x, fb, fx, enough, eq, et) = commit_row-ok env r s st run in
            rw (eq, et) (paid-IsSound r s v found b x st fb fx)
      ]

  -- A refund keeps the ledger sound, on success and on every error.
  pub refund-IsSound : IsSound (refund env id s).1
  unfolding refund
  refund-IsSound = transition-IsSound env id (refund_row env) s v keeps
    where
      keeps :
          (r q : OtcFundsReservation) (u : Store)
          → find_reservation_row r.execution_id s.reservations ≡ some r
          → refund_row env r s ≡ (ok q, u)
          → IsSound (record u { reservations = save_reservation_row q u.reservations })
      keeps r q u found run = elim (OtcFundsReservationStatus-discrete r.status committed) [
        | no other ↦
            let (st, same, kept) = refund_row-idle env r s other run in
            rw (same, kept) (resaved-IsSound r s v found)
        | yes st ↦
            let (b, x, fb, fx, balance, available, eq, et) = refund_row-ok env r s st run in
            rw (eq, et) (refunded-IsSound r s v found b x st fb fx available)
      ]

reserve_new-IsSound :
    (env : Env) (id buyer seller : String) (amount : ℤ) (c : CurrencyCode) (s : Store)
    {r : OtcFundsReservation} {t : Store}
    → ConvertsUp env
    → IsSound s
    → pos 0 ≤ℤ amount
    → reserve_new env id buyer seller amount c s ≡ (ok r, t)
    → IsSound t
reserve_new-IsSound env id buyer seller amount c s up v positive h =
    let (b, x, source, destination, fb, fx, e1, e2, enough, er, et) =
      reserve_new-ok env id buyer seller amount c s h in
    rw (et, er)
      (reserved-IsSound id buyer b x amount source destination c s v fb
        (
          convert_trade_amount_nonneg env amount source c b.currency up e1 positive,
          convert_trade_amount_nonneg env amount destination c x.currency up e2 positive,
        )
        enough)

-- A reservation keeps the ledger sound, on success, on a retry and on every error.
pub reserve-IsSound :
    (env : Env) (id buyer seller : String) (amount : ℤ) (c : CurrencyCode) (s : Store)
    → ConvertsUp env
    → IsSound s
    → IsSound (reserve env id buyer seller amount c s).1
reserve-IsSound env id buyer seller amount c s up v =
    elim (Result-cases (reserve env id buyer seller amount c s).0) [
      | inr (e, bad) ↦ rw (reserve-err env id buyer seller amount c s bad) v
      | inl (r, good) ↦
          let (positive, other, outcome) =
            reserve-ok env id buyer seller amount c s
              (λ i. (good i, (reserve env id buyer seller amount c s).1)) in
          elim outcome [
            | inl (same, found) ↦ rw same v
            | inr (new, run) ↦
                reserve_new-IsSound env (trim_space id) (trim_space buyer) (trim_space seller)
                  amount c s up v (ground arith) run
          ]
    ]
