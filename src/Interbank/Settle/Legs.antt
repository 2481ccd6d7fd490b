-- ===== src/Interbank/Settle/Legs.antt =====
-- services/interbank-service/internal/service/message_processor.go: the commit of one posting.
use Prim.Native.Nat.{◌/◌}
use raf_8_banka_4_backend.Shared.{
  ℕ, String, Bool, true, false, none, some, List, [], ◌∷◌, ℤ, pos, pos_part, neg_part, ltb_ℤ,
  show_ℕ, ◌+◌, if◌then◌else◌, Action, ok, err, internal,
}
use raf_8_banka_4_backend.Interbank.Model.{
  ForeignBankId, TxAccountType, AssetType, OptionDescription, Posting, Transaction, PeerContract,
  PeerContractStatus, PeerNegotiation, PeerNegotiationStatus,
}
use raf_8_banka_4_backend.Interbank.Node.{
  Node, Env, commit_cash, consume_shares, credit_shares, find_contract_row, save_contract_row,
  find_negotiation_row, save_negotiation_row, find_contract, create_contract, update_contract,
  find_negotiation, update_negotiation, demand, create_contract_row,
}
use raf_8_banka_4_backend.Interbank.Assets.{
  monetary_currency, option_description, stock_description, show_id, local_person_account,
  local_option_account, is_local_monas_account, cash_posting_id,
}

-- The other party of an option: the first option posting of a person whose amount has the sign asked.
unfoldable pub other_party : (ℤ → Bool) → List Posting → ForeignBankId
other_party side [] = record { routing_number = 0; id = "" }
other_party side (p ∷ ps) =
    let rest = other_party side ps in
    elim p.asset.type [
      | AssetType.option ↦ elim p.account.type [
        | TxAccountType.person ↦ elim p.account.id [
          | none ↦ rest
          | some i ↦ if side p.amount then i else rest
        ]
        | _ ↦ rest
      ]
      | _ ↦ rest
    ]

-- The negotiation of the stock that leaves an option account.
unfoldable pub paired_negotiation : List Posting → ForeignBankId
paired_negotiation [] = record { routing_number = 0; id = "" }
paired_negotiation (p ∷ ps) =
    let rest = paired_negotiation ps in
    elim p.asset.type [
      | AssetType.stock ↦ elim p.account.type [
        | TxAccountType.option ↦ elim p.account.id [
          | none ↦ rest
          | some i ↦ if ltb_ℤ p.amount (pos 0) then i else rest
        ]
        | _ ↦ rest
      ]
      | _ ↦ rest
    ]

-- The premium: amount and currency of the first cash posting of an account.
unfoldable pub paid_premium : List Posting → ℤ × String
paid_premium [] = (pos 0, "")
paid_premium (p ∷ ps) =
    let rest = paid_premium ps in
    elim p.asset.type [
      | AssetType.monas ↦ elim p.account.type [
        | TxAccountType.account ↦ (
          pos (pos_part p.amount + neg_part p.amount),
          elim (monetary_currency p.asset) [ none ↦ "" | some c ↦ c ],
        )
        | _ ↦ rest
      ]
      | _ ↦ rest
    ]

-- An ongoing negotiation is accepted; an error of the update is ignored.
unfoldable pub accept_negotiation : Env → ℕ → PeerNegotiation → Node → Node
accept_negotiation env index n s = elim n.status [
  | PeerNegotiationStatus.ongoing ↦ if env.fails (update_negotiation index) then s else record s {
    negotiations =
        save_negotiation_row (record n { status = PeerNegotiationStatus.accepted }) s.negotiations;
  }
  | _ ↦ s
]

unfoldable pub seller_contract :
    ℕ → Transaction → OptionDescription → PeerNegotiation → PeerContract
seller_contract ours tx o n = record {
  key = record { routing_number = ours; id = o.negotiation_id.id };
  negotiation_id = o.negotiation_id.id;
  buyer = other_party (λ a. ltb_ℤ (pos 0) a) tx.postings;
  seller = record { routing_number = n.key.routing_number; id = n.seller_id };
  ticker = n.ticker;
  amount = n.amount;
  strike_price = n.price_per_stock;
  strike_currency = n.price_currency;
  premium = n.premium;
  premium_currency = n.premium_currency;
  settlement_date = n.settlement_date;
  status = PeerContractStatus.active;
  is_authoritative = true;
}

unfoldable pub buyer_contract : ℕ → Transaction → OptionDescription → ℕ → PeerContract
buyer_contract ours tx o buyer = record {
  key = o.negotiation_id;
  negotiation_id = o.negotiation_id.id;
  buyer = record { routing_number = ours; id = show_ℕ buyer };
  seller = other_party (λ a. ltb_ℤ a (pos 0)) tx.postings;
  ticker = o.stock.ticker;
  amount = pos_part o.amount / 100;
  strike_price = o.price_per_unit.amount;
  strike_currency = o.price_per_unit.currency;
  premium = (paid_premium tx.postings).0;
  premium_currency = (paid_premium tx.postings).1;
  settlement_date = o.settlement_date;
  status = PeerContractStatus.active;
  is_authoritative = false;
}

-- The seller's branch of `commitOptionPosting`.
unfoldable pub commit_option_seller :
    Env → Transaction → ℕ → OptionDescription → Action Node (Unit {0})
commit_option_seller env tx index o s =
    if env.fails (find_negotiation index)
    then (err internal, s)
    else elim (find_negotiation_row o.negotiation_id s.negotiations) [
      | none ↦ (ok tt, s)
      | some n ↦
          let (r, t) =
            create_contract_row (env.fails (create_contract index))
              (seller_contract env.our_routing tx o n) s in
          elim r [ err e ↦ (err e, t) | ok x ↦ (ok tt, accept_negotiation env index n t) ]
    ]

-- The buyer's branch of `commitOptionPosting`.
unfoldable pub commit_option_buyer :
    Env → Transaction → ℕ → OptionDescription → ℕ → Action Node (Unit {0})
commit_option_buyer env tx index o buyer s =
    let (r, t) =
      create_contract_row (env.fails (create_contract index))
        (buyer_contract env.our_routing tx o buyer) s in
    elim r [
      | err e ↦ (err e, t)
      | ok x ↦ (
        ok tt,
        if env.fails (find_negotiation index)
            then t
            else elim (find_negotiation_row o.negotiation_id t.negotiations) [
              | none ↦ t
              | some n ↦ accept_negotiation env index n t
            ],
      )
    ]

-- `commitOptionPosting`
unfoldable pub commit_option_posting : Env → Transaction → ℕ → Posting → Action Node (Unit {0})
commit_option_posting env tx index p s = elim (option_description p.asset) [
  | none ↦ (ok tt, s)
  | some o ↦ elim (local_person_account env.our_routing p.account) [
    | none ↦ (ok tt, s)
    | some identity ↦
        if ltb_ℤ p.amount (pos 0)
        then commit_option_seller env tx index o s
        else commit_option_buyer env tx index o identity s
  ]
]

-- The contract is looked up, a remote call is made for it, and it is marked as exercised.
unfoldable pub exercise :
    Env → ℕ → ForeignBankId → (PeerContract → Action Node (Unit {0})) → Action Node (Unit {0})
exercise env index i move_shares s =
    if env.fails (find_contract index)
    then (err internal, s)
    else elim (find_contract_row i s.contracts) [
      | none ↦ (ok tt, s)
      | some c ↦
          let (r, t) = move_shares c s in
          elim r [
            | err e ↦ (err e, t)
            | ok x ↦ if env.fails (update_contract index) then (err internal, t) else (
              ok tt,
              record t {
                contracts =
                    save_contract_row (record c { status = PeerContractStatus.exercised })
                      t.contracts;
              },
            )
          ]
    ]

-- `commitStockPosting`
unfoldable pub commit_stock_posting : Env → Transaction → ℕ → Posting → Action Node (Unit {0})
commit_stock_posting env tx index p s = elim (stock_description p.asset) [
  | none ↦ (ok tt, s)
  | some d ↦
      if ltb_ℤ p.amount (pos 0)
      then elim (local_option_account env.our_routing p.account) [
        | none ↦ (ok tt, s)
        | some i ↦ exercise env index i (λ c. demand env (consume_shares (show_id c.key))) s
      ]
      else elim (local_person_account env.our_routing p.account) [
        | none ↦ (ok tt, s)
        | some identity ↦ elim (env.user identity) [
          | none ↦ (err internal, s)
          | some (buyer, buyer_type) ↦
              exercise env index (paired_negotiation tx.postings)
                (λ c. demand env (
                  credit_shares (record {
                    contract_id = show_id c.key;
                    buyer_id = buyer;
                    user_type = buyer_type;
                    ticker = d.ticker;
                    amount = p.amount;
                    price_per_unit_rsd = c.strike_price;
                  })))
                s
        ]
      ]
]

-- `commitPosting`
unfoldable pub commit_posting : Env → Transaction → ℕ → Posting → Action Node (Unit {0})
commit_posting env tx index p s = elim p.asset.type [
  | AssetType.monas ↦
      if is_local_monas_account env.our_routing p.account
      then demand env (commit_cash (cash_posting_id tx index p)) s
      else (ok tt, s)
  | AssetType.option ↦ commit_option_posting env tx index p s
  | AssetType.stock ↦ commit_stock_posting env tx index p s
  | AssetType.unknown ↦ (ok tt, s)
]
