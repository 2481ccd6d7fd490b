-- ===== src/Trading/Bank.antt =====
-- What the calls of otc_funds_service.go that the saga makes do to the row of one execution key.
use raf_8_banka_4_backend.Shared.{
  List, [], ◌∷◌, ◌++◌, find-append_new, true, false, ◌||◌, ℤ, pos, leb_ℤ, ◌≡◌, ◌⊎◌, inl, inr, ap,
  ◌∙◌, none, some, String, String_discrete, text_eq, trim_space, Action, ok, err, find-save, arith,
  within_transaction, AppError, internal, driver, if_pos,
}
use raf_8_banka_4_backend.Banking.Model.{
  CurrencyCode, allowed_currencies, OtcFundsReservation, reserved, released, committed, refunded,
}
use raf_8_banka_4_backend.Banking.Store.{Store, Env, find_reservation_row, save_reservation_row}
use raf_8_banka_4_backend.Banking.Funds.{find_reservation_row-id, find_account_row-number}
use raf_8_banka_4_backend.Banking.OtcFunds.{
  same_request, reserve, reserve_new, release_row, commit_row, refund_row, transition, release,
  commit, refund,
}
use raf_8_banka_4_backend.Banking.OtcFunds.Success.{
  reserve_new-ok, reserve-ok, transition-ok, transition-err,
}

module _ (env : Env) (r : OtcFundsReservation) (s : Store) {q : OtcFundsReservation}
    {t : Store} where
  pub release_row-status :
      release_row env r s ≡ (ok q, t)
      → (q.execution_id ≡ r.execution_id)
        × (q.status ≡ released)
        × ((r.status ≡ reserved) ⊎ (r.status ≡ released))
  unfolding release_row
  release_row-status h = ground arith

  pub commit_row-status :
      commit_row env r s ≡ (ok q, t)
      → (q.execution_id ≡ r.execution_id)
        × (q.status ≡ committed)
        × ((r.status ≡ reserved) ⊎ (r.status ≡ committed))
  unfolding commit_row
  commit_row-status h = ground arith

  pub refund_row-status :
      refund_row env r s ≡ (ok q, t)
      → (q.execution_id ≡ r.execution_id)
        × (q.status ≡ refunded)
        × ((r.status ≡ committed) ⊎ (r.status ≡ refunded))
  unfolding refund_row
  refund_row-status h = ground arith

pub find-save_reservation_row :
    (k : String) (q : OtcFundsReservation) (t : Store)
    → q.execution_id ≡ k
    → find_reservation_row k (save_reservation_row q t.reservations) ≡ some q
unfolding find_reservation_row save_reservation_row
find-save_reservation_row k q t e =
    find-save String_discrete (λ r. r.execution_id) k q t.reservations
    ∙ if_pos (String_discrete q.execution_id k) e _ _

pub find-append_reservation :
    (t : List OtcFundsReservation) (q : OtcFundsReservation)
    → find_reservation_row q.execution_id t ≡ none
    → find_reservation_row q.execution_id (t ++ q ∷ []) ≡ some q
unfolding find_reservation_row
find-append_reservation t q e = find-append_new String_discrete (λ r. r.execution_id) t q e

-- The row of a key is q.
abbrev pub Stored : String → Store → OtcFundsReservation → Type 0
Stored k t q = (find_reservation_row k t.reservations ≡ some q) × (q.execution_id ≡ k)

module _ (env : Env) (k : String) (s : Store) {q : OtcFundsReservation} {t : Store}
    (trimmed : trim_space k ≡ k) where
  transition-Stored :
      (change : OtcFundsReservation → Action Store OtcFundsReservation)
      → ((r p : OtcFundsReservation) (u : Store)
          → change r s ≡ (ok p, u)
          → p.execution_id ≡ r.execution_id)
      → transition env k change s ≡ (ok q, t)
      → (r : OtcFundsReservation) × (u : Store) × (find_reservation_row k s.reservations ≡ some r)
        × (change r s ≡ (ok q, u))
        × Stored k t q
  transition-Stored change keeps h =
      let (r, u, found, changed, saved) = transition-ok env k change s h in
      let found' : find_reservation_row k s.reservations ≡ some r = cc in
      let same : q.execution_id ≡ k =
        keeps r q u changed ∙ find_reservation_row-id k s.reservations found' in
      (
        r,
        u,
        found',
        changed,
        (
          ap (λ x. find_reservation_row k x.reservations) saved
              ∙ find-save_reservation_row k q u same,
          same,
        ),
      )

  pub release-Stored :
      release env k s ≡ (ok q, t)
      → (r : OtcFundsReservation) × (find_reservation_row k s.reservations ≡ some r)
        × Stored k t q
        × (q.status ≡ released)
        × ((r.status ≡ reserved) ⊎ (r.status ≡ released))
  unfolding release
  release-Stored h =
      let (r, u, found, changed, stored) =
        transition-Stored (release_row env) (λ r p u e. (release_row-status env r s e).0) h in
      let (same, now, before) = release_row-status env r s changed in
      (r, found, stored, now, before)

  pub commit-Stored :
      commit env k s ≡ (ok q, t)
      → (r : OtcFundsReservation) × (find_reservation_row k s.reservations ≡ some r)
        × Stored k t q
        × (q.status ≡ committed)
        × ((r.status ≡ reserved) ⊎ (r.status ≡ committed))
  unfolding commit
  commit-Stored h =
      let (r, u, found, changed, stored) =
        transition-Stored (commit_row env) (λ r p u e. (commit_row-status env r s e).0) h in
      let (same, now, before) = commit_row-status env r s changed in (r, found, stored, now, before)

  pub refund-Stored :
      refund env k s ≡ (ok q, t)
      → (r : OtcFundsReservation) × (find_reservation_row k s.reservations ≡ some r)
        × Stored k t q
        × (q.status ≡ refunded)
        × ((r.status ≡ committed) ⊎ (r.status ≡ refunded))
  unfolding refund
  refund-Stored h =
      let (r, u, found, changed, stored) =
        transition-Stored (refund_row env) (λ r p u e. (refund_row-status env r s e).0) h in
      let (same, now, before) = refund_row-status env r s changed in (r, found, stored, now, before)

-- A refused call leaves the store as it was.
module _ (env : Env) (k : String) (s : Store) {e : AppError} where
  pub release-err : (release env k s).0 ≡ err e → (release env k s).1 ≡ s
  unfolding release
  release-err h = transition-err env k (release_row env) s h

  pub commit-err : (commit env k s).0 ≡ err e → (commit env k s).1 ≡ s
  unfolding commit
  commit-err h = transition-err env k (commit_row env) s h

  pub refund-err : (refund env k s).0 ≡ err e → (refund env k s).1 ≡ s
  unfolding refund
  refund-err h = transition-err env k (refund_row env) s h

-- The calls find a row and do not refuse it in the status that they lead to, unless the database does.
module _ (env : Env) (k : String) (s : Store) {r : OtcFundsReservation} (trimmed : trim_space k ≡ k)
    (present : text_eq k "" ≡ false) (found : find_reservation_row k s.reservations ≡ some r) where
  pub commit_err-committed :
      {e : AppError}
      → r.status ≡ committed
      → (commit env k s).0 ≡ err e
      → (e ≡ internal) ⊎ (e ≡ driver)
  unfolding commit transition commit_row within_transaction
  commit_err-committed st h = ground arith

-- The row answers the request: a retry of it is not refused.
abbrev pub Answers : String → String → ℤ → CurrencyCode → OtcFundsReservation → Type 0
Answers buyer seller amount c r =
    (same_request r (trim_space buyer) (trim_space seller) amount c ≡ true)
    × (text_eq (trim_space buyer) "" || text_eq (trim_space seller) "" ≡ false)
    × (text_eq (trim_space buyer) (trim_space seller) ≡ false)
    × (leb_ℤ amount (pos 0) ≡ false)
    × (allowed_currencies c ≡ true)

module _ (env : Env) (k buyer seller : String) (amount : ℤ) (c : CurrencyCode) (s : Store) where
  reserve_new-same :
      {q : OtcFundsReservation} {t : Store}
      → reserve_new env k buyer seller amount c s ≡ (ok q, t)
      → (same_request q buyer seller amount c ≡ true)
        × (q.execution_id ≡ k)
        × (q.status ≡ reserved)
        × (t.reservations ≡ s.reservations ++ q ∷ [])
  unfolding same_request
  reserve_new-same h =
      let (b, x, source, destination, eb, ex, e1, e2, le, er, et) =
        reserve_new-ok env k buyer seller amount c s h in
      let nb = find_account_row-number buyer s.accounts eb in
      let nx = find_account_row-number seller s.accounts ex in ground (arith, er, et, nb, nx)

module _ (env : Env) (k buyer seller : String) (amount : ℤ) (c : CurrencyCode) (s : Store) where
  reserve-same :
      {q : OtcFundsReservation} {t : Store}
      → find_reservation_row (trim_space k) s.reservations ≡ some q
      → reserve env k buyer seller amount c s ≡ (ok q, t)
      → same_request q (trim_space buyer) (trim_space seller) amount c ≡ true
  unfolding reserve within_transaction
  reserve-same found h = ground arith

  reserve-tests :
      {q : OtcFundsReservation} {t : Store}
      → reserve env k buyer seller amount c s ≡ (ok q, t)
      → (text_eq (trim_space k) "" ≡ false)
        × (text_eq (trim_space buyer) "" || text_eq (trim_space seller) "" ≡ false)
        × (allowed_currencies c ≡ true)
  unfolding reserve
  reserve-tests h = ground arith

  pub reserve_err-found :
      {r : OtcFundsReservation} {e : AppError}
      → trim_space k ≡ k
      → text_eq k "" ≡ false
      → find_reservation_row k s.reservations ≡ some r
      → Answers buyer seller amount c r
      → (reserve env k buyer seller amount c s).0 ≡ err e
      → (e ≡ internal) ⊎ (e ≡ driver)
  unfolding reserve within_transaction
  reserve_err-found trimmed present found answers h = ground arith

  pub reserve-Stored :
      {q : OtcFundsReservation} {t : Store}
      → trim_space k ≡ k
      → reserve env k buyer seller amount c s ≡ (ok q, t)
      → Stored k t q
        × Answers buyer seller amount c q
        × ((find_reservation_row k s.reservations ≡ some q)
            ⊎ ((find_reservation_row k s.reservations ≡ none) × (q.status ≡ reserved)))
  reserve-Stored {q} {t} trimmed h =
      let (present, named, listed) = reserve-tests h in
      let (positive, apart, cases) = reserve-ok env k buyer seller amount c s h in
      elim cases [
        | inl (kept, found) ↦
            let found' : find_reservation_row k s.reservations ≡ some q = cc in
            let same = reserve-same (cc) h in
            (
              (cc, find_reservation_row-id k s.reservations found'),
              (same, named, apart, positive, listed),
              inl found',
            )
        | inr (missing, made) ↦
            let (same, id, now, added) =
              reserve_new-same env (trim_space k) (trim_space buyer) (trim_space seller) amount c s
                made in
            let missing' : find_reservation_row k s.reservations ≡ none = cc in
            let id' : q.execution_id ≡ k = id ∙ trimmed in
            let last = find-append_reservation s.reservations q (cc) in
            ((cc, id'), (same, named, apart, positive, listed), inr (missing', now))
      ]
