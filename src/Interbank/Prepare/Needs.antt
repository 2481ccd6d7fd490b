-- ===== src/Interbank/Prepare/Needs.antt =====
-- services/interbank-service/internal/service/message_processor.go: the preparation of one posting.
use raf_8_banka_4_backend.Shared.{
  ℕ, String, Bool, not, ◌==◌, none, some, List, [], ◌∷◌, ℤ, pos, negsuc, ltb_ℤ, parse_uint,
  if◌then◌else◌,
}
use raf_8_banka_4_backend.Interbank.Model.{
  ForeignBankId, TxAccountType, AssetType, Posting, Transaction, NoVoteReasonKind, no_such_account,
  unacceptable_asset, insufficient_asset, option_amount_incorrect, option_used_or_expired,
  option_negotiation_not_found, PeerContract, PeerContractStatus,
}
use raf_8_banka_4_backend.Interbank.Node.{
  Node, Env, CashPostingRequest, ReserveSharesRequest, prepare_cash, reserve_shares,
  find_contract_row, find_negotiation_row, find_contract, find_negotiation, request,
}
use raf_8_banka_4_backend.Interbank.Assets.{
  monetary_currency, option_description, show_id, local_cash_account, local_person_account,
  local_option_account, cash_posting_id, counterparty_account_number, cash_no_vote_reason,
}

-- `preparedItem`, with its kind and its id
pub data PreparedItem : Type 0 where
  cash option : String → PreparedItem

-- What a posting needs in the prepare phase: a NO vote, nothing, or a reservation by a remote call.
pub data Need : Type 0 where
  refuse : NoVoteReasonKind → Need
  nothing : Need
  reserve_cash : CashPostingRequest → Need
  reserve_stock : ReserveSharesRequest → Need

-- The request to banking, for an account number or for a user.
unfoldable pub cash_request : Transaction → ℕ → Posting → ℕ → String → String → ℕ → String → Need
cash_request tx index p banking_tx_id currency number client_id user_type = reserve_cash (record {
  posting_id = cash_posting_id tx index p;
  account_number = number;
  client_id = client_id;
  user_type = user_type;
  currency_code = currency;
  amount = p.amount;
  banking_tx_id = banking_tx_id;
  counterparty_account_number = counterparty_account_number index 0 tx.postings;
  payment_code = tx.payment_code;
  payment_purpose = tx.payment_purpose;
})

-- The contract behind an option account, or the reason that there is none.
unfoldable pub load_contract : Env → Node → ℕ → ForeignBankId → (PeerContract → Need) → Need
load_contract env s index i use_it =
    if env.fails (find_contract index)
    then refuse option_negotiation_not_found
    else elim (find_contract_row i s.contracts) [
      | none ↦ refuse option_negotiation_not_found
      | some c ↦ use_it c
    ]

-- `resolveLocalUser`
unfoldable pub resolve_local_user : Env → ℕ → (ℕ → String → Need) → Need
resolve_local_user env identity_id use_it = elim (env.user identity_id) [
  | none ↦ refuse no_such_account
  | some (user_id, user_type) ↦ use_it user_id user_type
]

-- The seller of a contract, for the cash that an option account receives.
unfoldable pub contract_seller : Env → PeerContract → (ℕ → String → Need) → Need
contract_seller env c use_it = elim (parse_uint c.seller.id) [
  | none ↦ refuse no_such_account
  | some seller ↦
      if seller == 0 then refuse no_such_account else resolve_local_user env seller use_it
]

-- `prepareMonasPosting`, up to its remote call
unfoldable pub prepare_monas_posting : Env → Node → Transaction → ℕ → ℕ → Posting → Need
prepare_monas_posting env s tx index banking_tx_id p = elim (monetary_currency p.asset) [
  | none ↦ refuse unacceptable_asset
  | some currency ↦ elim p.account.type [
    | TxAccountType.account ↦ elim (local_cash_account env.our_routing p.account) [
      | none ↦ refuse no_such_account
      | some number ↦ cash_request tx index p banking_tx_id currency number 0 ""
    ]
    | TxAccountType.person ↦ elim (local_person_account env.our_routing p.account) [
      | none ↦ refuse no_such_account
      | some identity ↦
          resolve_local_user env identity (cash_request tx index p banking_tx_id currency "")
    ]
    | TxAccountType.option ↦ elim (local_option_account env.our_routing p.account) [
      | none ↦ refuse no_such_account
      | some i ↦
          load_contract env s index i
            (λ c. contract_seller env c (cash_request tx index p banking_tx_id currency ""))
    ]
    | TxAccountType.unknown ↦ refuse no_such_account
  ]
]

-- The amount is 1 or -1, in hundredths.
unfoldable pub is_one_option : ℤ → Bool
is_one_option (pos n) = n == 100
is_one_option (negsuc n) = n == 99

-- The seller's side of `prepareOptionPosting`: the shares behind the contract are reserved.
unfoldable pub prepare_option_seller : Env → Node → ℕ → ℕ → Posting → Need
prepare_option_seller env s index identity p = elim (option_description p.asset) [
  | none ↦ refuse unacceptable_asset
  | some o ↦
      if not (o.negotiation_id.routing_number == env.our_routing)
      then refuse unacceptable_asset
      else if env.fails (find_negotiation index)
      then refuse option_negotiation_not_found
      else elim (find_negotiation_row o.negotiation_id s.negotiations) [
        | none ↦ refuse option_negotiation_not_found
        | some n ↦
            if env.fails (find_contract index)
            then refuse option_negotiation_not_found
            else elim (find_contract_row o.negotiation_id s.contracts) [
              | some c ↦ refuse option_used_or_expired
              | none ↦ resolve_local_user env identity (λ seller_id seller_type.
                  reserve_stock (record {
                    contract_id = show_id o.negotiation_id;
                    seller_id = seller_id;
                    user_type = seller_type;
                    ticker = o.stock.ticker;
                    amount = o.amount;
                  }))
            ]
      ]
]

-- `prepareOptionPosting`, up to its remote call
unfoldable pub prepare_option_posting : Env → Node → ℕ → Posting → Need
prepare_option_posting env s index p =
    if not (is_one_option p.amount)
    then refuse option_amount_incorrect
    else elim (local_person_account env.our_routing p.account) [
      | none ↦ refuse no_such_account
      | some identity ↦
          if ltb_ℤ (pos 0) p.amount then nothing else prepare_option_seller env s index identity p
    ]

-- `prepareStockPosting`
unfoldable pub prepare_stock_posting : Env → Node → ℕ → Posting → Need
prepare_stock_posting env s index p =
    if not (ltb_ℤ p.amount (pos 0))
    then nothing
    else elim (local_option_account env.our_routing p.account) [
      | none ↦ refuse no_such_account
      | some i ↦ load_contract env s index i (λ c. elim c.status [
        | PeerContractStatus.active ↦
            if env.settlement_passed c.settlement_date
            then refuse option_used_or_expired
            else nothing
        | _ ↦ refuse option_used_or_expired
      ])
    ]

unfoldable pub need : Env → Node → Transaction → ℕ → ℕ → Posting → Need
need env s tx index banking_tx_id p = elim p.asset.type [
  | AssetType.monas ↦ prepare_monas_posting env s tx index banking_tx_id p
  | AssetType.option ↦ prepare_option_posting env s index p
  | AssetType.stock ↦ prepare_stock_posting env s index p
  | AssetType.unknown ↦ refuse unacceptable_asset
]

-- A posting is refused, or prepared with the item to undo, if there is one.
pub data Prepared : Type 0 where
  refused : NoVoteReasonKind → Prepared
  granted : List PreparedItem → Prepared

-- The remote call that a posting needs.
unfoldable pub perform : Env → Need → Node → Prepared × Node
perform env (refuse reason) s = (refused reason, s)
perform env nothing s = (granted [], s)
perform env (reserve_cash q) s =
    let (e, t) = request env (prepare_cash q) s in
    (
      elim e [ none ↦ granted (cash q.posting_id ∷ []) | some x ↦ refused (cash_no_vote_reason x) ],
      t,
    )
perform env (reserve_stock q) s =
    let (e, t) = request env (reserve_shares q) s in
    (elim e [ none ↦ granted (option q.contract_id ∷ []) | some x ↦ refused insufficient_asset ], t)

-- `preparePosting`
unfoldable pub prepare_posting : Env → Transaction → ℕ → ℕ → Posting → Node → Prepared × Node
prepare_posting env tx index banking_tx_id p s = perform env (need env s tx index banking_tx_id p) s
