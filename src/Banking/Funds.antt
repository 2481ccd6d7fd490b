-- ===== src/Banking/Funds.antt =====
-- The funds that reservations and prepared postings hold on an account, and the invariant of the
-- ledger: what an account holds besides its available balance covers them.
use raf_8_banka_4_backend.Shared.{
  ite, ◌&&◌, none, some, List, ◌∷◌, [], ◌++◌, ◌≡◌, refl, sym, ◌∙◌, subst, ◌≢◌, inl, inr, String,
  String_discrete, text_eq, ℤ, pos, neg, ◌+ℤ◌, ◌-ℤ◌, ◌≤ℤ◌, ltb_ℤ, int_laws, arith, Option-cases,
  if◌then◌else◌, if_pos, if_neg, total, total-save, total-append_one, total_nonneg, le-total, All,
  All-map, All-always, All-save, All-find, find-key,
}
use raf_8_banka_4_backend.Banking.Model.{
  Account, OtcFundsReservation, reserved, InterbankCashPosting, prepared,
}
use raf_8_banka_4_backend.Banking.Store.{
  Store, find_account_row, find_reservation_row, save_reservation_row, find_posting_row,
  save_posting_row, update_balance, balance_columns, find-update_balance,
}

-- The account changes of the two services.
abbrev pub credit_available : Account → ℤ → Account
credit_available a x = record a { available_balance = a.available_balance +ℤ x }

abbrev pub debit_available : Account → ℤ → Account
debit_available a x = record a { available_balance = a.available_balance -ℤ x }

abbrev pub debit_balance : Account → ℤ → Account
debit_balance a x = record a { balance = a.balance -ℤ x }

abbrev pub credit : Account → ℤ → Account
credit a x = record a { balance = a.balance +ℤ x; available_balance = a.available_balance +ℤ x }

abbrev pub debit : Account → ℤ → Account
debit a x = record a { balance = a.balance -ℤ x; available_balance = a.available_balance -ℤ x }

-- What a reservation holds on the account `k`: the source amount, while it is reserved.
abbrev pub reservation_hold : String → OtcFundsReservation → ℤ
reservation_hold k r = elim r.status [
  | reserved ↦ if text_eq r.buyer_account_number k then r.source_amount else pos 0
  | _ ↦ pos 0
]

-- What a posting holds on the account `k`: the amount that leaves it, while it is prepared.
abbrev pub posting_hold : String → InterbankCashPosting → ℤ
posting_hold k p = elim p.status [
  | prepared ↦ if text_eq p.account_number k && ltb_ℤ p.amount (pos 0) then neg p.amount else pos 0
  | _ ↦ pos 0
]

unfoldable pub held_by_reservations : List OtcFundsReservation → String → ℤ
held_by_reservations rs k = total (reservation_hold k) rs

unfoldable pub held_by_postings : List InterbankCashPosting → String → ℤ
held_by_postings ps k = total (posting_hold k) ps

-- Every account has at least 0 available, and its balance covers that and what is held on it.
abbrev pub Covers : (String → ℤ) → List Account → Type 0
Covers held accounts =
    (k : String) (a : Account)
    → find_account_row k accounts ≡ some a
    → (pos 0 ≤ℤ a.available_balance) × (a.available_balance +ℤ held k ≤ℤ a.balance)

-- The amounts of every reservation are 0 or more.
abbrev pub IsPriced : OtcFundsReservation → Type 0
IsPriced r = (pos 0 ≤ℤ r.source_amount) × (pos 0 ≤ℤ r.destination_amount)

-- `account_number` is the primary key: no two rows share one.
abbrev pub IsKeyed : List Account → Type 0
IsKeyed [] = Unit
IsKeyed (a ∷ t) = (find_account_row a.account_number t ≡ none) × IsKeyed t

missing-update :
    (k : String) (y : Account) (t : List Account)
    → find_account_row k t ≡ none
    → find_account_row k (update_balance y t) ≡ none
missing-update k y t h = ground (arith, find-update_balance k y t)

pub update-IsKeyed : (y : Account) (t : List Account) → IsKeyed t → IsKeyed (update_balance y t)
unfolding update_balance find_account_row
update-IsKeyed y [] h = tt
update-IsKeyed y (a ∷ t) h =
    elim (String_discrete a.account_number y.account_number)
      as (λ d. IsKeyed (ite d (balance_columns y a ∷ t) (a ∷ update_balance y t))) [
        | yes p ↦ h
        | no n ↦ (missing-update a.account_number y t h.0, update-IsKeyed y t h.1)
      ]

-- A row of the table is found under its own number.
pub found-behind :
    (a : Account) (t : List Account)
    → find_account_row a.account_number t ≡ none
    → (b : Account) → find_account_row b.account_number t ≡ some b
    → find_account_row b.account_number (a ∷ t) ≡ some b
unfolding find_account_row
found-behind a t new b found = elim (String_discrete a.account_number b.account_number) [
  | yes p ↦ absurd (clash p)
  | no n ↦ if_neg (String_discrete a.account_number b.account_number) n _ _ ∙ found
]
  where
    clash : a.account_number ≡ b.account_number → ⊥
    clash p = let same = subst (λ k. find_account_row k t ≡ none) p new in cc

pub IsKeyed-found :
    (t : List Account) → IsKeyed t → All (λ a. find_account_row a.account_number t ≡ some a) t
unfolding find_account_row
IsKeyed-found [] h = tt
IsKeyed-found (a ∷ t) h = (
  if_pos (String_discrete a.account_number a.account_number) refl _ _,
  All-map (λ b. find_account_row b.account_number t ≡ some b)
      (λ b. find_account_row b.account_number (a ∷ t) ≡ some b) (found-behind a t h.0) t
      (IsKeyed-found t h.1),
)

pub record IsSound (s : Store) : Type 0 where
  pub covers :
      Covers
        (λ k. held_by_reservations s.reservations k +ℤ held_by_postings s.postings k)
        s.accounts
  pub priced : All IsPriced s.reservations
  pub keyed : IsKeyed s.accounts

-- Less held leaves the accounts covered.
pub Covers-weaken :
    (h h' : String → ℤ) (t : List Account) → ((k : String) → h' k ≤ℤ h k) → Covers h t → Covers h' t
Covers-weaken h h' t less c k a e = omega (int_laws, less k, c k a e)

-- A row that is written is covered by itself, and the others as before.
pub Covers-update :
    (h h' : String → ℤ) (y : Account) (t : List Account)
    → ((k : String) → y.account_number ≢ k → h' k ≤ℤ h k)
    → pos 0 ≤ℤ y.available_balance
    → y.available_balance +ℤ h' y.account_number ≤ℤ y.balance
    → Covers h t
    → Covers h' (update_balance y t)
Covers-update h h' y t less low high c k a e = elim (String_discrete y.account_number k) [
  | yes p ↦
      let found =
        rw (find-update_balance k y t, if_pos (String_discrete y.account_number k) p) at e in
      let own : y.available_balance +ℤ h' k ≤ℤ y.balance = rw p at high in
      elim (Option-cases (find_account_row k t)) [
        | inl missing ↦ absurd (ground arith)
        | inr (b, e) ↦ ground arith
      ]
  | no n ↦
      let before =
        rw (find-update_balance k y t, if_neg (String_discrete y.account_number k) n) at e in
      omega (int_laws, less k n, c k a before)
]

module _ (q r : OtcFundsReservation) (rs : List OtcFundsReservation) where
  pub held_by_reservations-save :
      find_reservation_row q.execution_id rs ≡ some r
      → (k : String)
      → held_by_reservations (save_reservation_row q rs) k +ℤ reservation_hold k r
        ≡ held_by_reservations rs k +ℤ reservation_hold k q
  unfolding held_by_reservations find_reservation_row save_reservation_row
  held_by_reservations-save found k =
      total-save String_discrete (λ v. v.execution_id) (reservation_hold k) q rs found

module _ (q p : InterbankCashPosting) (ps : List InterbankCashPosting) where
  pub held_by_postings-save :
      find_posting_row q.posting_id ps ≡ some p
      → (k : String)
      → held_by_postings (save_posting_row q ps) k +ℤ posting_hold k p
        ≡ held_by_postings ps k +ℤ posting_hold k q
  unfolding held_by_postings find_posting_row save_posting_row
  held_by_postings-save found k =
      total-save String_discrete (λ v. v.posting_id) (posting_hold k) q ps found

pub held_by_reservations-append :
    (q : OtcFundsReservation) (rs : List OtcFundsReservation) (k : String)
    → held_by_reservations (rs ++ q ∷ []) k ≡ held_by_reservations rs k +ℤ reservation_hold k q
unfolding held_by_reservations
held_by_reservations-append q rs k = total-append_one (reservation_hold k) rs q

pub held_by_postings-append :
    (q : InterbankCashPosting) (ps : List InterbankCashPosting) (k : String)
    → held_by_postings (ps ++ q ∷ []) k ≡ held_by_postings ps k +ℤ posting_hold k q
unfolding held_by_postings
held_by_postings-append q ps k = total-append_one (posting_hold k) ps q

pub reservation_hold_nonneg :
    (k : String) (r : OtcFundsReservation) → IsPriced r → pos 0 ≤ℤ reservation_hold k r
reservation_hold_nonneg k r h = ground arith

pub posting_hold_nonneg : (k : String) (p : InterbankCashPosting) → pos 0 ≤ℤ posting_hold k p
unfolding neg
posting_hold_nonneg k p = ground arith

pub find_account_row-number :
    (k : String) (t : List Account) {a : Account}
    → find_account_row k t ≡ some a
    → a.account_number ≡ k
unfolding find_account_row
find_account_row-number k t e = find-key String_discrete (λ a. a.account_number) k t e

pub find_reservation_row-id :
    (k : String) (t : List OtcFundsReservation) {r : OtcFundsReservation}
    → find_reservation_row k t ≡ some r
    → r.execution_id ≡ k
unfolding find_reservation_row
find_reservation_row-id k t e = find-key String_discrete (λ r. r.execution_id) k t e

pub find_posting_row-id :
    (k : String) (t : List InterbankCashPosting) {p : InterbankCashPosting}
    → find_posting_row k t ≡ some p
    → p.posting_id ≡ k
unfolding find_posting_row
find_posting_row-id k t e = find-key String_discrete (λ p. p.posting_id) k t e

pub found-IsPriced :
    (k : String) (t : List OtcFundsReservation) {r : OtcFundsReservation}
    → All IsPriced t
    → find_reservation_row k t ≡ some r
    → IsPriced r
unfolding find_reservation_row
found-IsPriced k t {r} h e = All-find String_discrete (λ v. v.execution_id) IsPriced k t r h e

pub save-IsPriced :
    (q : OtcFundsReservation) (t : List OtcFundsReservation)
    → All IsPriced t
    → IsPriced q
    → All IsPriced (save_reservation_row q t)
unfolding save_reservation_row
save-IsPriced q t h p = All-save String_discrete (λ v. v.execution_id) IsPriced q t h p

pub reservation_hold_own :
    (r : OtcFundsReservation)
    → r.status ≡ reserved
    → reservation_hold r.buyer_account_number r ≡ r.source_amount
reservation_hold_own r e = ground arith

-- The amounts held on an account, and what is left of them when a reservation row is overwritten.
abbrev pub held : Store → String → ℤ
held s k = held_by_reservations s.reservations k +ℤ held_by_postings s.postings k

-- A row that is found is found by its own key.
pub find_reservation_row_self :
    (k : String) (t : List OtcFundsReservation) (r : OtcFundsReservation)
    → find_reservation_row k t ≡ some r
    → find_reservation_row r.execution_id t ≡ some r
find_reservation_row_self k t r e =
    subst (λ x. find_reservation_row x t ≡ some r) (sym (find_reservation_row-id k t e)) e

pub find_posting_row_self :
    (k : String) (t : List InterbankCashPosting) (p : InterbankCashPosting)
    → find_posting_row k t ≡ some p
    → find_posting_row p.posting_id t ≡ some p
find_posting_row_self k t p e =
    subst (λ x. find_posting_row x t ≡ some p) (sym (find_posting_row-id k t e)) e

-- What is held on an account is at least what one of its reservations holds.
pub held-ge-reservation :
    (k id : String) (s : Store) (r : OtcFundsReservation)
    → IsSound s
    → find_reservation_row id s.reservations ≡ some r
    → reservation_hold k r ≤ℤ held s k
unfolding held_by_reservations held_by_postings find_reservation_row
held-ge-reservation k id s r v found = omega (
  int_laws,
  le-total String_discrete (λ u. u.execution_id) (reservation_hold k) id s.reservations
      (All-map IsPriced (λ u. pos 0 ≤ℤ reservation_hold k u) (reservation_hold_nonneg k)
        s.reservations v.priced)
      found,
  total_nonneg (posting_hold k) s.postings
      (All-always (λ u. pos 0 ≤ℤ posting_hold k u) (posting_hold_nonneg k) s.postings),
)

pub held_nonneg : (k : String) (s : Store) → IsSound s → pos 0 ≤ℤ held s k
unfolding held_by_reservations held_by_postings
held_nonneg k s v = omega (
  int_laws,
  total_nonneg (reservation_hold k) s.reservations (
      All-map IsPriced (λ u. pos 0 ≤ℤ reservation_hold k u) (reservation_hold_nonneg k)
        s.reservations v.priced),
  total_nonneg (posting_hold k) s.postings
      (All-always (λ u. pos 0 ≤ℤ posting_hold k u) (posting_hold_nonneg k) s.postings),
)

pub find_account_row_self :
    (k : String) (t : List Account) (a : Account)
    → find_account_row k t ≡ some a
    → find_account_row a.account_number t ≡ some a
find_account_row_self k t a e =
    subst (λ x. find_account_row x t ≡ some a) (sym (find_account_row-number k t e)) e
