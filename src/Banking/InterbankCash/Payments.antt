-- ===== src/Banking/InterbankCash/Payments.antt =====
-- The payment history of interbank_cash_service.go against the postings that are committed.
use raf_8_banka_4_backend.Shared.{
  ℕ, Bool-cases, ◌==◌, ◌≡◌, refl, sym, ap, ◌∙◌, inl, inr, some, List, [], ◌∷◌, ◌++◌, String, ℤ, pos,
  ◌+ℤ◌, int_laws, same_parts, arith, if◌then◌else◌, Action, ok, Result-cases, String_discrete,
  trim_space, total, total-append_one, total-save,
}
use raf_8_banka_4_backend.Banking.Model.{
  CurrencyCode, Account, InterbankCashPosting, InterbankCashPostingStatus-discrete, committed,
  prepared, rolled_back,
}
use raf_8_banka_4_backend.Banking.Store.{Store, Env, find_posting_row, save_posting_row}
use raf_8_banka_4_backend.Banking.Funds.{find_posting_row_self}
use raf_8_banka_4_backend.Banking.InterbankCash.{
  PostingMetadata, prepare, prepare_again, prepare_new, hold, commit, rollback, transition,
  commit_row, rollback_row, history_payment, history_transaction, record_payment_history, get_by_id,
  write_history,
}
use raf_8_banka_4_backend.Banking.InterbankCash.Success.{
  commit_row-idle, commit_row-ok, transition-ok, transition-err, prepare-ok, prepare-err,
  prepare_new-ok,
}

-- The tables that the OTC funds do not touch.
abbrev pub Beside : Store → Store → Type 0
Beside s t =
    (t.postings ≡ s.postings) × (t.transactions ≡ s.transactions) × (t.payments ≡ s.payments)

-- The rows of a table.
abbrev pub count {ℓ} : {A : Type ℓ} → List A → ℤ
count t = total (λ a. pos 1) t

-- A committed posting that names no banking transaction is due a row of the history.
unfoldable pub due : InterbankCashPosting → ℤ
due p = elim p.status [ committed ↦ if p.banking_tx_id == 0 then pos 1 else pos 0 | _ ↦ pos 0 ]

-- From one store to another, as many payments and as many transactions were added as postings became
-- due one, less those that ceased to be.
unfoldable pub Tallied : Store → Store → Type 0
Tallied s t =
    (count t.payments +ℤ total due s.postings ≡ count s.payments +ℤ total due t.postings)
    × (count t.transactions +ℤ total due s.postings ≡ count s.transactions +ℤ total due t.postings)

chain : (a b c x y z : ℤ) → b +ℤ x ≡ a +ℤ y → c +ℤ y ≡ b +ℤ z → c +ℤ x ≡ a +ℤ z
chain a b c x y z h k = omega (int_laws, same_parts h, same_parts k)

pub trans-Tallied : (s t u : Store) → Tallied s t → Tallied t u → Tallied s u
unfolding Tallied
trans-Tallied s t u h k = (chain _ _ _ _ _ _ h.0 k.0, chain _ _ _ _ _ _ h.1 k.1)

pub Beside-Tallied : (s t : Store) → Beside s t → Tallied s t
unfolding Tallied
Beside-Tallied s t (p, x, y) = (
  ap (λ z. count z +ℤ total due s.postings) y ∙ ap (λ z. count s.payments +ℤ total due z) (sym p),
  ap (λ z. count z +ℤ total due s.postings) x
      ∙ ap (λ z. count s.transactions +ℤ total due z) (sym p),
)

-- What a closure writes: the history rows that its posting becomes due.
Booked : InterbankCashPosting → InterbankCashPosting → Store → Store → Type 0
Booked p q s u =
    (q.posting_id ≡ p.posting_id)
    × (u.postings ≡ s.postings)
    × (count u.payments +ℤ due p ≡ count s.payments +ℤ due q)
    × (count u.transactions +ℤ due p ≡ count s.transactions +ℤ due q)

one_more :
    {A : Type 0} (t : List A) (a : A) (x y : ℤ) {u : List A}
    → u ≡ t ++ a ∷ []
    → x ≡ pos 0
    → y ≡ pos 1
    → count u +ℤ x ≡ count t +ℤ y
one_more t a x y {u} e h k =
    let counted : count u ≡ count t +ℤ pos 1 = ap count e ∙ total-append_one (λ b. pos 1) t a in
    omega (int_laws, same_parts counted, same_parts h, same_parts k)

none_more :
    {A : Type 0} (t : List A) (x y : ℤ) {u : List A} → u ≡ t → x ≡ y → count u +ℤ x ≡ count t +ℤ y
none_more t x y e h = ap (λ z. count z +ℤ x) e ∙ ap (λ z. count t +ℤ z) h

swap : (a b p q c d : ℤ) → a +ℤ p ≡ b +ℤ q → c +ℤ p ≡ d +ℤ q → a +ℤ d ≡ b +ℤ c
swap a b p q c d h k = omega (int_laws, same_parts h, same_parts k)

Booked-Tallied :
    (id : String) (p q : InterbankCashPosting) (s u : Store)
    → find_posting_row id s.postings ≡ some p
    → Booked p q s u
    → Tallied s (record u { postings = save_posting_row q u.postings })
unfolding Booked Tallied find_posting_row save_posting_row
Booked-Tallied id p q s u found (same, kept, paid, written) =
    let here = find_posting_row_self id s.postings p found in
    let saved =
      total-save String_discrete (λ v. v.posting_id) due q u.postings {u = p}
        (rw (same, kept) here) in
    let moved : total due (save_posting_row q u.postings) +ℤ due p ≡ total due s.postings +ℤ due q =
      saved ∙ ap (λ z. total due z +ℤ due q) kept in
    (swap _ _ _ _ _ _ paid moved, swap _ _ _ _ _ _ written moved)

commit_row-Booked :
    (env : Env) (p : InterbankCashPosting) (a : Account) (s : Store) {q : InterbankCashPosting}
    {u : Store}
    → commit_row env p a s ≡ (ok q, u)
    → Booked p q s u
unfolding Booked due commit_row record_payment_history get_by_id write_history
commit_row-Booked env p a s {q} {u} run =
    elim (InterbankCashPostingStatus-discrete p.status prepared) [
      | no other ↦
          let (st, same, kept) = commit_row-idle env p a s other run in
          rw (same, kept) (refl, refl, refl, refl)
      | yes st ↦
          let (same, _, _, kept) = commit_row-ok env p a s st run in
          let none_due : due p ≡ pos 0 = ground arith in
          elim (Bool-cases (p.banking_tx_id == 0)) [
            | inl fresh ↦
                let due_one : due q ≡ pos 1 = ground arith in
                let done : InterbankCashPosting = record p { status = committed } in
                let paid : u.payments
                    ≡ s.payments ++ history_payment s.next_transaction_id done ∷ [] =
                  ground arith in
                let written : u.transactions
                    ≡ s.transactions ++ history_transaction s.next_transaction_id done ∷ [] =
                  ground arith in
                (
                  ap (λ z. z.posting_id) same,
                  kept,
                  one_more s.payments _ (due p) (due q) paid none_due due_one,
                  one_more s.transactions _ (due p) (due q) written none_due due_one,
                )
            | inr named ↦
                let still_none : due q ≡ pos 0 = ground arith in
                let paid : u.payments ≡ s.payments = ground arith in
                let written : u.transactions ≡ s.transactions = ground arith in
                (
                  ap (λ z. z.posting_id) same,
                  kept,
                  none_more s.payments (due p) (due q) paid (none_due ∙ sym still_none),
                  none_more s.transactions (due p) (due q) written (none_due ∙ sym still_none),
                )
          ]
    ]

rollback_row-Booked :
    (env : Env) (p : InterbankCashPosting) (a : Account) (s : Store) {q : InterbankCashPosting}
    {u : Store}
    → rollback_row env p a s ≡ (ok q, u)
    → Booked p q s u
unfolding Booked due rollback_row
rollback_row-Booked env p a s {q} {u} run =
    let same : due p ≡ due q = ground arith in
    let paid : u.payments ≡ s.payments = ground arith in
    let written : u.transactions ≡ s.transactions = ground arith in
    (
      ground arith,
      ground arith,
      none_more s.payments (due p) (due q) paid same,
      none_more s.transactions (due p) (due q) written same,
    )

pub same-Tallied : (s t : Store) → t ≡ s → Tallied s t
unfolding Tallied
same-Tallied s t e = rw e (refl, refl)

transition-Tallied :
    (env : Env) (id : String)
    (change : InterbankCashPosting → Account → Action Store InterbankCashPosting) (s : Store)
    → ((p q : InterbankCashPosting) (a : Account) (u : Store)
        → change p a s ≡ (ok q, u)
        → Booked p q s u)
    → Tallied s (transition env id change s).1
transition-Tallied env id change s books =
    let here = transition env id change s in
    elim (Result-cases here.0) [
      | inr (e, bad) ↦ same-Tallied s here.1 (transition-err env id change s bad)
      | inl (q, good) ↦
          let (p, a, u, found, account, run, result) =
            transition-ok env id change s {q = q} {t = here.1} (λ i. (good i, here.1)) in
          rw result (Booked-Tallied (trim_space id) p q s u found (books p q a u run))
    ]

pub commit-Tallied : (env : Env) (id : String) (s : Store) → Tallied s (commit env id s).1
unfolding commit
commit-Tallied env id s =
    transition-Tallied env id (commit_row env) s (λ p q a u run. commit_row-Booked env p a s run)

pub rollback-Tallied : (env : Env) (id : String) (s : Store) → Tallied s (rollback env id s).1
unfolding rollback
rollback-Tallied env id s =
    transition-Tallied env id (rollback_row env) s
      (λ p q a u run. rollback_row-Booked env p a s run)

plus_none : (a : ℤ) → a +ℤ pos 0 ≡ a
plus_none a = omega int_laws

cancel : (a b x y : ℤ) → a +ℤ x ≡ b +ℤ y → x ≡ pos 0 → y ≡ pos 0 → a ≡ b
cancel a b x y h k l = omega (int_laws, same_parts h, same_parts k, same_parts l)

prepare_again-Tallied :
    (env : Env) (p : InterbankCashPosting) (c : CurrencyCode) (amount : ℤ) (id : String) (s : Store)
    {q : InterbankCashPosting} {t : Store}
    → find_posting_row id s.postings ≡ some p
    → prepare_again env p c amount s ≡ (ok q, t)
    → Tallied s t
unfolding prepare_again hold due Tallied find_posting_row save_posting_row
prepare_again-Tallied env p c amount id s {q} {t} found run =
    elim (InterbankCashPostingStatus-discrete p.status rolled_back) [
      | no other ↦ same-Tallied s t (ground arith)
      | yes st ↦
          let again : q ≡ record p { status = prepared } = ground arith in
          let rows : t.postings ≡ save_posting_row q s.postings = ground arith in
          let paid : t.payments ≡ s.payments = ground arith in
          let written : t.transactions ≡ s.transactions = ground arith in
          let was_none : due p ≡ pos 0 = ground arith in
          let still_none : due q ≡ pos 0 = ap due again in
          let here = find_posting_row_self id s.postings p found in
          let saved =
            total-save String_discrete (λ v. v.posting_id) due q s.postings {u = p}
              (rw again here) in
          let kept : total due t.postings ≡ total due s.postings =
            ap (total due) rows ∙ cancel _ _ (due p) (due q) saved was_none still_none in
          (
            none_more s.payments _ _ paid (sym kept),
            none_more s.transactions _ _ written (sym kept),
          )
    ]

prepare_new-Tallied :
    (env : Env) (id number : String) (client : ℕ) (c : CurrencyCode) (amount : ℤ) (user : String)
    (meta : PostingMetadata) (s : Store) {p : InterbankCashPosting} {t : Store}
    → prepare_new env id number client c amount user meta s ≡ (ok p, t)
    → Tallied s t
unfolding Tallied due
prepare_new-Tallied env id number client c amount user meta s {p} {t} run =
    let (a, x, _, _, _, row, et) = prepare_new-ok env id number client c amount user meta s run in
    let none_due : due p ≡ pos 0 = ap due row in
    let kept : total due t.postings ≡ total due s.postings =
      ap (λ z. total due z.postings) et
      ∙ total-append_one due s.postings p
      ∙ ap (λ z. total due s.postings +ℤ z) none_due
      ∙ plus_none (total due s.postings) in
    let paid : t.payments ≡ s.payments = ap (λ z. z.payments) et in
    let written : t.transactions ≡ s.transactions = ap (λ z. z.transactions) et in
    (none_more s.payments _ _ paid (sym kept), none_more s.transactions _ _ written (sym kept))

pub prepare-Tallied :
    (env : Env) (id number : String) (client : ℕ) (c : CurrencyCode) (amount : ℤ) (user : String)
    (meta : PostingMetadata) (s : Store)
    → Tallied s (prepare env id number client c amount user meta s).1
prepare-Tallied env id number client c amount user meta s =
    let here = prepare env id number client c amount user meta s in
    elim (Result-cases here.0) [
      | inr (e, bad) ↦
          same-Tallied s here.1 (prepare-err env id number client c amount user meta s bad)
      | inl (q, good) ↦
          elim (prepare-ok env id number client c amount user meta s {p = q} {t = here.1}
            (λ i. (good i, here.1))) [
              | inl (p, found, run) ↦
                  prepare_again-Tallied env p c amount (trim_space id) s found run
              | inr (new, run) ↦
                  prepare_new-Tallied env (trim_space id) (trim_space number) client c amount user
                    meta s run
            ]
    ]
