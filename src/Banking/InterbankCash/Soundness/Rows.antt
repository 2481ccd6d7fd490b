-- ===== src/Banking/InterbankCash/Soundness/Rows.antt =====
-- services/banking-service/internal/service/interbank_cash_service.go: what one row and one account do to the soundness
-- of the ledger.
use raf_8_banka_4_backend.Shared.{
  true, some, List, ◌∷◌, [], ◌++◌, ◌≡◌, refl, sym, ◌∙◌, subst, ◌≢◌, inl, inr, String,
  String_discrete, ℤ, pos, neg, ◌+ℤ◌, ◌≤ℤ◌, ltb_ℤ, int_laws, arith, Bool-cases, if◌then◌else◌,
  same_parts,
}
use raf_8_banka_4_backend.Banking.Model.{
  CurrencyCode, Account, InterbankCashPosting, prepared, rolled_back,
}
use raf_8_banka_4_backend.Banking.Store.{
  Store, find_account_row, find_posting_row, save_posting_row, update_balance,
}
use raf_8_banka_4_backend.Banking.Funds.{
  credit_available, debit_available, debit_balance, credit, posting_hold, held_by_reservations,
  held_by_postings, held, Covers, IsSound, IsKeyed, update-IsKeyed, Covers-update, Covers-weaken,
  held_by_postings-save, held_by_postings-append, posting_hold_nonneg,
}
use raf_8_banka_4_backend.Banking.InterbankCash.{PostingMetadata}
use raf_8_banka_4_backend.Banking.InterbankCash.Success.{
  posting_row, held_accounts, settled_account, freed_accounts,
}

-- What a leg of that amount takes out of its account.
abbrev outflow : ℤ → ℤ
outflow x = if ltb_ℤ x (pos 0) then neg x else pos 0

posting_hold_own :
    (p : InterbankCashPosting)
    → p.status ≡ prepared
    → posting_hold p.account_number p ≡ outflow p.amount
posting_hold_own p e = ground arith

posting_hold_elsewhere :
    (p : InterbankCashPosting) (k : String) → p.account_number ≢ k → posting_hold k p ≡ pos 0
posting_hold_elsewhere p k n = ground arith

outflow_nonneg : (x : ℤ) → pos 0 ≤ℤ outflow x
unfolding neg
outflow_nonneg x = ground arith

module _ (h h' : String → ℤ) (a : Account) (x : ℤ) (t : List Account) (c : Covers h t)
    (found : find_account_row a.account_number t ≡ some a)
    (others : (k : String) → a.account_number ≢ k → h' k ≤ℤ h k) where
  own_le : h' a.account_number ≤ℤ h a.account_number → (k : String) → h' k ≤ℤ h k
  own_le le k = elim (String_discrete a.account_number k) [
    | yes p ↦ subst (λ k. h' k ≤ℤ h k) p le
    | no n ↦ others k n
  ]

  Covers-held :
      h' a.account_number ≤ℤ h a.account_number +ℤ outflow x
      → (ltb_ℤ x (pos 0) ≡ true → neg x ≤ℤ a.available_balance)
      → Covers h' (held_accounts a x t)
  Covers-held more enough = elim (Bool-cases (ltb_ℤ x (pos 0))) [
    | inl e ↦
        let taken : h' a.account_number ≤ℤ h a.account_number +ℤ neg x = rw e at more in
        rw e (
          Covers-update h h' (debit_available a (neg x)) t others (omega (int_laws, enough e))
            (omega (int_laws, c a.account_number a found, taken)) c)
    | inr e ↦
        let same : h' a.account_number ≤ℤ h a.account_number +ℤ pos 0 = rw e at more in
        rw e (Covers-weaken h h' t (own_le (omega (int_laws, same))) c)
  ]

  pub Covers-freed :
      h' a.account_number +ℤ outflow x ≤ℤ h a.account_number → Covers h' (freed_accounts a x t)
  Covers-freed less = elim (Bool-cases (ltb_ℤ x (pos 0))) [
    | inl e ↦
        let given : h' a.account_number +ℤ neg x ≤ℤ h a.account_number = rw e at less in
        let out : pos 0 ≤ℤ neg x = rw e at (outflow_nonneg x) in
        rw e (
          Covers-update h h' (credit_available a (neg x)) t others
            (omega (int_laws, c a.account_number a found, out))
            (omega (int_laws, c a.account_number a found, given)) c)
    | inr e ↦
        let same : h' a.account_number +ℤ pos 0 ≤ℤ h a.account_number = rw e at less in
        rw e (Covers-weaken h h' t (own_le (omega (int_laws, same))) c)
  ]

  pub Covers-settled :
      h' a.account_number +ℤ outflow x ≤ℤ h a.account_number
      → Covers h' (update_balance (settled_account a x) t)
  Covers-settled less = elim (Bool-cases (ltb_ℤ x (pos 0))) [
    | inl e ↦
        let given : h' a.account_number +ℤ neg x ≤ℤ h a.account_number = rw e at less in
        rw e (
          Covers-update h h' (debit_balance a (neg x)) t others
            (omega (int_laws, c a.account_number a found))
            (omega (int_laws, c a.account_number a found, given)) c)
    | inr e ↦
        let same : h' a.account_number +ℤ pos 0 ≤ℤ h a.account_number = rw e at less in
        let positive : pos 0 ≤ℤ x = ground arith in
        rw e (
          Covers-update h h' (credit a x) t others
            (omega (int_laws, c a.account_number a found, positive))
            (omega (int_laws, c a.account_number a found, same)) c)
  ]

held_accounts-IsKeyed :
    (a : Account) (x : ℤ) (t : List Account) → IsKeyed t → IsKeyed (held_accounts a x t)
held_accounts-IsKeyed a x t h = elim (Bool-cases (ltb_ℤ x (pos 0))) [
  | inl e ↦ rw e (update-IsKeyed (debit_available a (neg x)) t h)
  | inr e ↦ rw e h
]

pub freed_accounts-IsKeyed :
    (a : Account) (x : ℤ) (t : List Account) → IsKeyed t → IsKeyed (freed_accounts a x t)
freed_accounts-IsKeyed a x t h = elim (Bool-cases (ltb_ℤ x (pos 0))) [
  | inl e ↦ rw e (update-IsKeyed (credit_available a (neg x)) t h)
  | inr e ↦ rw e h
]

settled_account-number :
    (a : Account) (x : ℤ) → (settled_account a x).account_number ≡ a.account_number
settled_account-number a x = ground arith

-- A posting that is found and then overwritten by `q`, a row of the same id.
module _ (q p : InterbankCashPosting) (a : Account) (s : Store) (v : IsSound s)
    (found : find_posting_row q.posting_id s.postings ≡ some p)
    (mine : p.account_number ≡ a.account_number)
    (account : find_account_row a.account_number s.accounts ≡ some a) where
  abbrev pub after : String → ℤ
  after k =
      held_by_reservations s.reservations k +ℤ held_by_postings (save_posting_row q s.postings) k

  after-eq : (k : String) → after k +ℤ posting_hold k p ≡ held s k +ℤ posting_hold k q
  after-eq k = omega (int_laws, same_parts (held_by_postings-save q p s.postings found k))

  pub freed-IsSound :
      p.status ≡ prepared
      → ((k : String) → posting_hold k q ≡ pos 0)
      → (t : List Account)
      → (((k : String) → a.account_number ≢ k → after k ≤ℤ held s k)
          → after a.account_number +ℤ outflow p.amount ≤ℤ held s a.account_number
          → Covers after t)
      → IsKeyed t
      → IsSound (record s { accounts = t; postings = save_posting_row q s.postings })
  freed-IsSound st idle t covers keyed = record {
    covers =
        covers
          (λ k n.
            omega (int_laws, same_parts (after-eq k), same_parts (idle k), posting_hold_nonneg k p))
          (let own : posting_hold a.account_number p ≡ outflow p.amount =
              subst (λ k. posting_hold k p ≡ outflow p.amount) mine (posting_hold_own p st) in
            omega (
              int_laws,
              same_parts (after-eq a.account_number),
              same_parts (idle a.account_number),
              same_parts own,
            ));
    priced = v.priced;
    keyed = keyed;
  }

  pub held-IsSound :
      p.status ≡ rolled_back
      → q ≡ record p { status = prepared }
      → (ltb_ℤ p.amount (pos 0) ≡ true → neg p.amount ≤ℤ a.available_balance)
      → IsSound (record s {
        accounts = held_accounts a p.amount s.accounts;
        postings = save_posting_row q s.postings;
      })
  held-IsSound st same enough =
      let none_held : (k : String) → posting_hold k p ≡ pos 0 = λ k. rw st in
      let own : posting_hold a.account_number q ≡ outflow p.amount = rw same (
        subst (λ k. posting_hold k (record p { status = prepared }) ≡ outflow p.amount) mine
          (posting_hold_own (record p { status = prepared }) refl)) in
      let elsewhere : (k : String) → a.account_number ≢ k → posting_hold k q ≡ pos 0 = λ k n.
        rw same
          (posting_hold_elsewhere (record p { status = prepared }) k (λ e. n (sym mine ∙ e))) in
      record {
        covers =
            Covers-held (held s) after a p.amount s.accounts v.covers account
              (λ k n. omega (
                int_laws,
                same_parts (after-eq k),
                same_parts (elsewhere k n),
                same_parts (none_held k),
              ))
              (omega (
                int_laws,
                same_parts (after-eq a.account_number),
                same_parts own,
                same_parts (none_held a.account_number),
              ))
              enough;
        priced = v.priced;
        keyed = held_accounts-IsKeyed a p.amount s.accounts v.keyed;
      }

-- A row is overwritten by itself.
pub resaved-IsSound :
    (p : InterbankCashPosting) (s : Store)
    → IsSound s
    → find_posting_row p.posting_id s.postings ≡ some p
    → IsSound (record s { postings = save_posting_row p s.postings })
resaved-IsSound p s v found = record {
  covers =
      Covers-weaken (held s)
        (λ k.
          held_by_reservations s.reservations k
          +ℤ held_by_postings (save_posting_row p s.postings) k)
        s.accounts
        (λ k. omega (int_laws, same_parts (held_by_postings-save p p s.postings found k))) v.covers;
  priced = v.priced;
  keyed = v.keyed;
}

pub new-IsSound :
    (id : String) (a : Account) (x : ℤ) (c : CurrencyCode) (amount : ℤ) (meta : PostingMetadata)
    (s : Store)
    → IsSound s
    → find_account_row a.account_number s.accounts ≡ some a
    → (ltb_ℤ x (pos 0) ≡ true → neg x ≤ℤ a.available_balance)
    → IsSound (record s {
      accounts = held_accounts a x s.accounts;
      postings = s.postings ++ posting_row id a x c amount meta ∷ [];
    })
new-IsSound id a x c amount meta s v account enough =
    let q = posting_row id a x c amount meta in
    record {
      covers =
          Covers-held (held s)
            (λ k.
              held_by_reservations s.reservations k +ℤ held_by_postings (s.postings ++ q ∷ []) k)
            a x s.accounts v.covers account
            (λ k n. omega (
              int_laws,
              same_parts (held_by_postings-append q s.postings k),
              same_parts (posting_hold_elsewhere q k n),
            ))
            (omega (
              int_laws,
              same_parts (held_by_postings-append q s.postings a.account_number),
              same_parts (posting_hold_own q refl),
            ))
            enough;
      priced = v.priced;
      keyed = held_accounts-IsKeyed a x s.accounts v.keyed;
    }
