-- ===== src/Banking/InterbankCash/Success/Accounts.antt =====
-- services/banking-service/internal/service/interbank_cash_service.go, resolveAccount: the account that is found is in
-- the table.
use raf_8_banka_4_backend.Shared.{
  ℕ, ◌==◌, Bool, true, false, not, Option, none, some, List, ◌∷◌, [], ◌≡◌, subst, inl, inr, String,
  text_eq, ok, arith, Option-cases, Bool-cases, if◌then◌else◌, All,
}
use raf_8_banka_4_backend.Banking.Model.{CurrencyCode, Account}
use raf_8_banka_4_backend.Banking.Store.{Store, Env, find_account_row, find_by_client_id}
use raf_8_banka_4_backend.Banking.Funds.{IsKeyed, IsKeyed-found, find_account_row_self}
use raf_8_banka_4_backend.Banking.InterbankCash.{
  or_keep, pick_account, bank_accounts, resolve_bank_account, resolve_account,
}

pub resolve_account-reads :
    (env : Env) (number : String) (client : ℕ) (c : CurrencyCode) (user : String) (s : Store)
    → (resolve_account env number client c user s).1 ≡ s
unfolding resolve_account resolve_bank_account
resolve_account-reads env number client c user s = ground arith

-- A candidate account, if there is one, is a row of the table `t`.
abbrev IsRow : List Account → Option Account → Type 0
IsRow t o = elim o [ none ↦ Unit | some a ↦ find_account_row a.account_number t ≡ some a ]

IsRow-if :
    (t : List Account) (b : Bool) (x y : Option Account)
    → IsRow t x
    → IsRow t y
    → IsRow t (if b then x else y)
IsRow-if t true x y p q = p
IsRow-if t false x y p q = q

IsRow-or_keep :
    (t : List Account) (o : Option Account) (a : Account)
    → IsRow t o
    → find_account_row a.account_number t ≡ some a
    → IsRow t (or_keep o a)
IsRow-or_keep t none a p q = q
IsRow-or_keep t (some b) a p q = p

pick_account-IsRow :
    (t : List Account) (c : CurrencyCode) (l : List Account) (rsd any : Option Account)
    → All (λ a. find_account_row a.account_number t ≡ some a) l
    → IsRow t rsd
    → IsRow t any
    → IsRow t (pick_account c l rsd any)
unfolding pick_account
pick_account-IsRow t c [] (some r) any h p q = p
pick_account-IsRow t c [] none any h p q = q
pick_account-IsRow t c (a ∷ l) rsd any h p q =
    IsRow-if t (not (text_eq a.status "Active")) _ _ (pick_account-IsRow t c l rsd any h.1 p q) (
      IsRow-if t (text_eq a.currency c) (some a) _ h.0 (
        pick_account-IsRow t c l (if text_eq a.currency "RSD" then or_keep rsd a else rsd)
          (or_keep any a) h.1
          (IsRow-if t (text_eq a.currency "RSD") (or_keep rsd a) rsd (IsRow-or_keep t rsd a p h.0)
            p)
          (IsRow-or_keep t any a q h.0)))

find_by_client_id-All :
    (P : Account → Type 0) (n : ℕ) (t : List Account) → All P t → All P (find_by_client_id n t)
unfolding find_by_client_id
find_by_client_id-All P n [] h = tt
find_by_client_id-All P n (a ∷ t) h = elim (Bool-cases (a.client_id == n)) [
  | inl e ↦ rw e (h.0, find_by_client_id-All P n t h.1)
  | inr e ↦ rw e (find_by_client_id-All P n t h.1)
]

-- The account that a posting is resolved to is a row of the table.
pub resolve_account-found :
    (env : Env) (number : String) (client : ℕ) (c : CurrencyCode) (user : String) (s : Store)
    {a : Account}
    → IsKeyed s.accounts
    → (resolve_account env number client c user s).0 ≡ ok a
    → find_account_row a.account_number s.accounts ≡ some a
unfolding resolve_account resolve_bank_account
resolve_account-found env number client c user s {a} keyed h =
    let picked =
      pick_account-IsRow s.accounts c (find_by_client_id client s.accounts) none none
        (find_by_client_id-All (λ a. find_account_row a.account_number s.accounts ≡ some a) client
          s.accounts (IsKeyed-found s.accounts keyed))
        tt tt in
    elim (Bool-cases (text_eq number "")) [
      | inr named ↦
          let f : find_account_row number s.accounts ≡ some a = ground arith in
          find_account_row_self number s.accounts a f
      | inl unnamed ↦ elim (Bool-cases (text_eq user "EMPLOYEE")) [
        | inl bank ↦ elim (Option-cases (bank_accounts c)) [
          | inl missing ↦ absurd (ground arith)
          | inr (n, e) ↦
              let f : find_account_row n s.accounts ≡ some a = ground arith in
              find_account_row_self n s.accounts a f
        ]
        | inr own ↦
            let f : pick_account c (find_by_client_id client s.accounts) none none ≡ some a =
              ground arith in
            subst (IsRow s.accounts) f picked
      ]
    ]

-- A new posting: the account is resolved, the amount converted into its currency and held on it.
