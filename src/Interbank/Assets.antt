-- ===== src/Interbank/Assets.antt =====
-- The helpers at the end of message_processor.go, which read the account and the asset of a posting,
-- and counterpartyAccountNumber.
use Prim.Native.String.{len}
use raf_8_banka_4_backend.Shared.{
  ℕ, String, Bool, true, false, not, ◌&&◌, ◌||◌, ◌==◌, Option, none, some, List, [], ◌∷◌, ℤ, pos,
  text_eq, trim_space, concat, show_ℕ, show_ℕ_width_3, parse_uint, has_prefix, contains_lower,
  ltb_ℤ, eqb_ℤ, leb, suc, ◌+ℤ◌, if◌then◌else◌,
}
use raf_8_banka_4_backend.Interbank.Model.{
  ForeignBankId, TxAccount, TxAccountType, AssetType, Asset, OptionDescription, StockDescription,
  Posting, Transaction, NoVoteReason, NoVoteReasonKind, unbalanced_tx, unacceptable_asset,
  no_such_account, insufficient_asset,
}
use raf_8_banka_4_backend.Interbank.Node.{Code, RemoteError}

unfoldable pub when {ℓ} : {A : Type ℓ} → Bool → Option A → Option A
when b o = if b then o else none

-- `monetaryCurrency`
unfoldable pub monetary_currency : Asset → Option String
monetary_currency asset = elim asset.type [
  | AssetType.monas ↦ elim asset.body.currency [
    | none ↦ none
    | some c ↦ when (not (text_eq (trim_space c) "")) (some (trim_space c))
  ]
  | _ ↦ none
]

-- `optionDescription`
unfoldable pub option_description : Asset → Option OptionDescription
option_description asset = elim asset.type [
  | AssetType.option ↦ elim asset.body.as_option [
    | none ↦ none
    | some o ↦
        when
          (not (text_eq o.negotiation_id.id "")
            && not (text_eq o.stock.ticker "")
            && ltb_ℤ (pos 0) o.amount)
          (some o)
  ]
  | _ ↦ none
]

-- `stockDescription`
unfoldable pub stock_description : Asset → Option StockDescription
stock_description asset = elim asset.type [
  | AssetType.stock ↦ elim asset.body.as_stock [
    | none ↦ none
    | some d ↦ when (not (text_eq d.ticker "")) (some d)
  ]
  | _ ↦ none
]

-- `fmt.Sprintf("%d:%s", …)` of an id
unfoldable pub show_id : ForeignBankId → String
show_id i = concat (show_ℕ i.routing_number ∷ ":" ∷ i.id ∷ [])

-- `balanceKey`
unfoldable pub balance_key : Asset → Option String
balance_key asset = elim asset.type [
  | AssetType.monas ↦ elim (monetary_currency asset) [
    | none ↦ none
    | some c ↦ some (concat ("MONAS:" ∷ c ∷ []))
  ]
  | AssetType.option ↦ elim (option_description asset) [
    | none ↦ none
    | some o ↦ some (concat ("OPTION:" ∷ show_id o.negotiation_id ∷ []))
  ]
  | AssetType.stock ↦ elim (stock_description asset) [
    | none ↦ none
    | some d ↦ some (concat ("STOCK:" ∷ d.ticker ∷ []))
  ]
  | AssetType.unknown ↦ none
]

-- `totals[key] += amount`, in a map that is an association list
unfoldable pub add_total : String → ℤ → List (String × ℤ) → List (String × ℤ)
add_total k a [] = (k, a) ∷ []
add_total k a ((j, b) ∷ t) =
    let rest = add_total k a t in if text_eq j k then (j, b +ℤ a) ∷ t else (j, b) ∷ rest

unfoldable pub any_nonzero : List (String × ℤ) → Bool
any_nonzero [] = false
any_nonzero ((k, a) ∷ t) = not (eqb_ℤ a (pos 0)) || any_nonzero t

-- The two loops of `balanceFailure`.
unfoldable pub check_totals : List Posting → List (String × ℤ) → Option NoVoteReason
check_totals [] totals =
    if any_nonzero totals then some (record { reason = unbalanced_tx; posting = none }) else none
check_totals (p ∷ ps) totals = elim (balance_key p.asset) [
  | none ↦ some (record { reason = unacceptable_asset; posting = some p })
  | some k ↦ check_totals ps (add_total k p.amount totals)
]

-- `balanceFailure`
unfoldable pub balance_failure : Transaction → Option NoVoteReason
balance_failure tx = elim tx.postings [
  | [] ↦ some (record { reason = unbalanced_tx; posting = none })
  | p ∷ ps ↦ check_totals (p ∷ ps) []
]

-- `isLocalPosting`
unfoldable pub is_local_posting : ℕ → Posting → Bool
is_local_posting ours p = elim p.account.type [
  | TxAccountType.account ↦ elim p.account.num [
    | none ↦ false
    | some n ↦ has_prefix (trim_space n) (show_ℕ_width_3 ours)
  ]
  | TxAccountType.unknown ↦ false
  | _ ↦ elim p.account.id [ none ↦ false | some i ↦ i.routing_number == ours ]
]

-- `localCashAccount`: the number of an account of ours
unfoldable pub local_cash_account : ℕ → TxAccount → Option String
local_cash_account ours a = elim a.type [
  | TxAccountType.account ↦ elim a.num [
    | none ↦ none
    | some n ↦
        let num = trim_space n in
        when (not (text_eq num "") && has_prefix num (show_ℕ_width_3 ours)) (some num)
  ]
  | _ ↦ none
]

nonzero : Option ℕ → Option ℕ
nonzero none = none
nonzero (some n) = when (not (n == 0)) (some n)

-- `localPersonAccount`: the identity id of a person of ours
unfoldable pub local_person_account : ℕ → TxAccount → Option ℕ
unfolding nonzero
local_person_account ours a = elim a.type [
  | TxAccountType.person ↦ elim a.id [
    | none ↦ none
    | some i ↦ when (i.routing_number == ours) (nonzero (parse_uint i.id))
  ]
  | _ ↦ none
]

-- `localOptionAccount`: the negotiation of an option account of ours
unfoldable pub local_option_account : ℕ → TxAccount → Option ForeignBankId
local_option_account ours a = elim a.type [
  | TxAccountType.option ↦ elim a.id [
    | none ↦ none
    | some i ↦ when (i.routing_number == ours) (some i)
  ]
  | _ ↦ none
]

abbrev pub is_some {ℓ} : {A : Type ℓ} → Option A → Bool
is_some none = false
is_some (some a) = true

-- `isLocalMonasAccount`
unfoldable pub is_local_monas_account : ℕ → TxAccount → Bool
is_local_monas_account ours a = elim a.type [
  | TxAccountType.account ↦ is_some (local_cash_account ours a)
  | TxAccountType.person ↦ is_some (local_person_account ours a)
  | TxAccountType.option ↦ is_some (local_option_account ours a)
  | TxAccountType.unknown ↦ false
]

-- `postingID`
unfoldable pub posting_id : Transaction → ℕ → String
posting_id tx index = concat (show_id tx.transaction_id ∷ ":" ∷ show_ℕ index ∷ [])

-- `cashPostingID`
unfoldable pub cash_posting_id : Transaction → ℕ → Posting → String
cash_posting_id tx index p =
    let key = trim_space p.idempotency_key in
    if not (text_eq key "") then key else posting_id tx index

-- `counterpartyAccountNumber`: the loop, with the index of the next posting
unfoldable pub counterparty_account_number : ℕ → ℕ → List Posting → String
counterparty_account_number index j [] = ""
counterparty_account_number index j (p ∷ ps) =
    let rest = counterparty_account_number index (suc j) ps in
    if j == index then rest else elim p.account.type [
      | TxAccountType.account ↦ elim p.account.num [
        | none ↦ rest
        | some n ↦
            let num = trim_space n in if not (text_eq num "") && leb (len num) 18 then num else rest
      ]
      | _ ↦ rest
    ]

-- `cashNoVoteReason`
unfoldable pub cash_no_vote_reason : RemoteError → NoVoteReasonKind
cash_no_vote_reason e = elim e.code [
  | Code.not_found ↦ no_such_account
  | Code.invalid_argument ↦
      if contains_lower e.message "insufficient" then insufficient_asset else unacceptable_asset
  | Code.other ↦
      if contains_lower e.text "insufficient" then insufficient_asset else unacceptable_asset
]
