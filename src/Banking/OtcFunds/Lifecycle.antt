-- ===== src/Banking/OtcFunds/Lifecycle.antt =====
-- The life of a reservation of otc_funds_service.go, over any sequence of calls.
use raf_8_banka_4_backend.Shared.{
  some, List, ◌∷◌, [], ◌++◌, ◌≡◌, refl, ap, ◌∙◌, subst, inl, inr, String, String_discrete,
  trim_space, ℤ, Action, ok, Result-cases, if_pos, if_neg, find-append, find, find-save,
}
use raf_8_banka_4_backend.Banking.Model.{
  CurrencyCode, OtcFundsReservation, OtcFundsReservationStatus, OtcFundsReservationStatus-discrete,
  reserved, released, committed, refunded,
}
use raf_8_banka_4_backend.Banking.Store.{Store, Env, find_reservation_row, save_reservation_row}
use raf_8_banka_4_backend.Banking.Funds.{find_reservation_row_self}
use raf_8_banka_4_backend.Banking.OtcFunds.{
  reserve, release_row, commit_row, refund_row, transition, release, commit, refund,
}
use raf_8_banka_4_backend.Banking.OtcFunds.Success.{
  reserve_new-ok, reserve-ok, release_row-idle, release_row-ok, commit_row-idle, commit_row-ok,
  refund_row-idle, refund_row-ok, transition-ok, transition-err, reserve-err,
}

-- The calls of the service that write, each with the database and the rates of its moment.
pub data Call : Type 0 where
  reserve_call : Env → String → String → String → ℤ → CurrencyCode → Call
  release_call commit_call refund_call : Env → String → Call

unfoldable pub run_call : Call → Store → Store
run_call (reserve_call env id buyer seller amount c) s = (reserve env id buyer seller amount c s).1
run_call (release_call env id) s = (release env id s).1
run_call (commit_call env id) s = (commit env id s).1
run_call (refund_call env id) s = (refund env id s).1

unfoldable pub run_calls : List Call → Store → Store
run_calls [] s = s
run_calls (c ∷ cs) s = run_calls cs (run_call c s)

infix 40 ◌⟶*◌
-- The diagram of the statuses: reserved to released, reserved to committed, committed to refunded.
pub data ◌⟶*◌ : OtcFundsReservationStatus → OtcFundsReservationStatus → Type 0 where
  stay : {a : OtcFundsReservationStatus} → a ⟶* a
  free : {a : OtcFundsReservationStatus} → released ⟶* a → reserved ⟶* a
  pay : {a : OtcFundsReservationStatus} → committed ⟶* a → reserved ⟶* a
  pay_back : {a : OtcFundsReservationStatus} → refunded ⟶* a → committed ⟶* a

⟶*-trans : {a b c : OtcFundsReservationStatus} → a ⟶* b → b ⟶* c → a ⟶* c
⟶*-trans stay q = q
⟶*-trans (free p) q = free (⟶*-trans p q)
⟶*-trans (pay p) q = pay (⟶*-trans p q)
⟶*-trans (pay_back p) q = pay_back (⟶*-trans p q)

-- Every reservation row is still there, with the same terms, in a status that the diagram allows.
abbrev pub Evolves : List OtcFundsReservation → List OtcFundsReservation → Type 0
Evolves rs ts =
    (k : String) (r : OtcFundsReservation)
    → find_reservation_row k rs ≡ some r
    → (q : OtcFundsReservation) × (find_reservation_row k ts ≡ some q)
      × (q ≡ record r { status = q.status })
      × (r.status ⟶* q.status)

Evolves-refl : (rs : List OtcFundsReservation) → Evolves rs rs
Evolves-refl rs k r e = (r, e, refl, stay)

Evolves-trans :
    (rs ts us : List OtcFundsReservation) → Evolves rs ts → Evolves ts us → Evolves rs us
Evolves-trans rs ts us f g k r e =
    let (q, eq, same, path) = f k r e in
    let (u, eu, same', path') = g k q eq in
    (
      u,
      eu,
      same' ∙ ap (λ (x : OtcFundsReservation). record x { status = u.status }) same,
      ⟶*-trans path path',
    )

Evolves-append :
    (q : OtcFundsReservation) (rs : List OtcFundsReservation) → Evolves rs (rs ++ q ∷ [])
unfolding find_reservation_row
Evolves-append q rs k r e =
    (r, find-append String_discrete (λ v. v.execution_id) k rs q e, refl, stay)

-- The row of `r` is overwritten in a status that the diagram allows.
Evolves-save :
    (r : OtcFundsReservation) (st : OtcFundsReservationStatus) (rs : List OtcFundsReservation)
    → find_reservation_row r.execution_id rs ≡ some r
    → r.status ⟶* st
    → Evolves rs (save_reservation_row (record r { status = st }) rs)
unfolding find_reservation_row save_reservation_row
Evolves-save r st rs found path k u e =
    let q : OtcFundsReservation = record r { status = st } in
    let after = find-save String_discrete (λ v. v.execution_id) k q rs in
    elim (String_discrete r.execution_id k) [
      | no n ↦ (u, after ∙ if_neg (String_discrete r.execution_id k) n _ _ ∙ e, refl, stay)
      | yes p ↦
          let mine : find String_discrete (λ v. v.execution_id) k rs ≡ some r =
            subst (λ x. find String_discrete (λ v. v.execution_id) x rs ≡ some r) p found in
          let same : u ≡ r = cc in
          (q, after ∙ if_pos (String_discrete r.execution_id k) p _ _, rw same, rw same path)
    ]

transition-Evolves :
    (env : Env) (id : String) (change : OtcFundsReservation → Action Store OtcFundsReservation)
    (s : Store)
    → ((r q : OtcFundsReservation) (u : Store)
        → change r s ≡ (ok q, u)
        → (u.reservations ≡ s.reservations)
          × (q ≡ record r { status = q.status })
          × (r.status ⟶* q.status))
    → Evolves s.reservations (transition env id change s).1.reservations
transition-Evolves env id change s steps = elim (Result-cases (transition env id change s).0) [
  | inr (e, bad) ↦ rw (transition-err env id change s bad) (Evolves-refl s.reservations)
  | inl (q, good) ↦
      let (r, u, found, run, result) =
        transition-ok env id change s (λ i. (good i, (transition env id change s).1)) in
      let (same, terms, path) = steps r q u run in
      let saved : Evolves s.reservations (save_reservation_row q s.reservations) = rw terms (
        Evolves-save r q.status s.reservations
          (find_reservation_row_self (trim_space id) s.reservations r found) path) in
      rw (result, same) saved
]

release-Evolves :
    (env : Env) (id : String) (s : Store) → Evolves s.reservations (release env id s).1.reservations
unfolding release
release-Evolves env id s = transition-Evolves env id (release_row env) s steps
  where
    steps :
        (r q : OtcFundsReservation) (u : Store)
        → release_row env r s ≡ (ok q, u)
        → (u.reservations ≡ s.reservations)
          × (q ≡ record r { status = q.status })
          × (r.status ⟶* q.status)
    steps r q u run = elim (OtcFundsReservationStatus-discrete r.status reserved) [
      | no other ↦
          let (st, same, kept) = release_row-idle env r s other run in
          (rw kept, rw same, rw same stay)
      | yes st ↦
          let (b, fb, same, moved) = release_row-ok env r s st run in
          (rw moved, rw same, rw (same, st) (free stay))
    ]

commit-Evolves :
    (env : Env) (id : String) (s : Store) → Evolves s.reservations (commit env id s).1.reservations
unfolding commit
commit-Evolves env id s = transition-Evolves env id (commit_row env) s steps
  where
    steps :
        (r q : OtcFundsReservation) (u : Store)
        → commit_row env r s ≡ (ok q, u)
        → (u.reservations ≡ s.reservations)
          × (q ≡ record r { status = q.status })
          × (r.status ⟶* q.status)
    steps r q u run = elim (OtcFundsReservationStatus-discrete r.status reserved) [
      | no other ↦
          let (st, same, kept) = commit_row-idle env r s other run in
          (rw kept, rw same, rw same stay)
      | yes st ↦
          let (b, x, fb, fx, enough, same, moved) = commit_row-ok env r s st run in
          (rw moved, rw same, rw (same, st) (pay stay))
    ]

refund-Evolves :
    (env : Env) (id : String) (s : Store) → Evolves s.reservations (refund env id s).1.reservations
unfolding refund
refund-Evolves env id s = transition-Evolves env id (refund_row env) s steps
  where
    steps :
        (r q : OtcFundsReservation) (u : Store)
        → refund_row env r s ≡ (ok q, u)
        → (u.reservations ≡ s.reservations)
          × (q ≡ record r { status = q.status })
          × (r.status ⟶* q.status)
    steps r q u run = elim (OtcFundsReservationStatus-discrete r.status committed) [
      | no other ↦
          let (st, same, kept) = refund_row-idle env r s other run in
          (rw kept, rw same, rw same stay)
      | yes st ↦
          let (b, x, fb, fx, balance, available, same, moved) = refund_row-ok env r s st run in
          (rw moved, rw same, rw (same, st) (pay_back stay))
    ]

reserve-Evolves :
    (env : Env) (id buyer seller : String) (amount : ℤ) (c : CurrencyCode) (s : Store)
    → Evolves s.reservations (reserve env id buyer seller amount c s).1.reservations
reserve-Evolves env id buyer seller amount c s =
    elim (Result-cases (reserve env id buyer seller amount c s).0) [
      | inr (e, bad) ↦
          rw (reserve-err env id buyer seller amount c s bad) (Evolves-refl s.reservations)
      | inl (r, good) ↦
          let (positive, other, outcome) =
            reserve-ok env id buyer seller amount c s
              (λ i. (good i, (reserve env id buyer seller amount c s).1)) in
          elim outcome [
            | inl (same, found) ↦ rw same (Evolves-refl s.reservations)
            | inr (new, run) ↦
                let (b, x, source, destination, fb, fx, e1, e2, enough, er, et) =
                  reserve_new-ok env (trim_space id) (trim_space buyer) (trim_space seller) amount c
                    s run in
                rw et (Evolves-append r s.reservations)
          ]
    ]

run_call-Evolves : (c : Call) (s : Store) → Evolves s.reservations (run_call c s).reservations
unfolding run_call
run_call-Evolves (reserve_call env id buyer seller amount c) s =
    reserve-Evolves env id buyer seller amount c s
run_call-Evolves (release_call env id) s = release-Evolves env id s
run_call-Evolves (commit_call env id) s = commit-Evolves env id s
run_call-Evolves (refund_call env id) s = refund-Evolves env id s

-- Over any sequence of calls, failed ones included, every reservation stays in the table with the
-- same terms, and its status only moves from reserved to released, or from reserved to committed and
-- on to refunded.
pub run_calls-Evolves :
    (cs : List Call) (s : Store) → Evolves s.reservations (run_calls cs s).reservations
unfolding run_calls
run_calls-Evolves [] s = Evolves-refl s.reservations
run_calls-Evolves (c ∷ cs) s =
    Evolves-trans s.reservations (run_call c s).reservations
      (run_calls cs (run_call c s)).reservations (run_call-Evolves c s)
      (run_calls-Evolves cs (run_call c s))
