-- ===== src/Interbank/Node.antt =====
-- One bank's node: the tables of its interbank-service (repository/*.go) and the calls it has made to
-- banking-service and trading-service. The environment says which statements fail and what the
-- called services answer.
use native.Mathlib.Decide.{ℕ_discrete}
use raf_8_banka_4_backend.Shared.{
  ℕ, String, Bool, Option, none, some, List, [], ◌∷◌, ◌++◌, ℤ, String_discrete, find, save,
  if◌then◌else◌, Action, ok, err, internal, driver,
}
use raf_8_banka_4_backend.Interbank.Model.{
  ForeignBankId, PreparedTransaction, PeerContract, PeerNegotiation, InboundMessage,
  OutboundMessage,
}

unfoldable pub ForeignBankId_discrete : Discrete ForeignBankId
ForeignBankId_discrete = hlevel (String_discrete, ℕ_discrete)

-- `pb.PrepareInterbankCashPostingRequest`
pub record CashPostingRequest : Type 0 where
  pub posting_id : String
  pub account_number : String
  pub client_id : ℕ
  pub user_type : String
  pub currency_code : String
  pub amount : ℤ
  pub banking_tx_id : ℕ
  pub counterparty_account_number : String
  pub payment_code : String
  pub payment_purpose : String

-- `pb.ReservePeerOtcSharesRequest`
pub record ReserveSharesRequest : Type 0 where
  pub contract_id : String
  pub seller_id : ℕ
  pub user_type : String
  pub ticker : String
  pub amount : ℤ

-- `pb.CreditPeerOtcSharesRequest`
pub record CreditSharesRequest : Type 0 where
  pub contract_id : String
  pub buyer_id : ℕ
  pub user_type : String
  pub ticker : String
  pub amount : ℤ
  pub price_per_unit_rsd : ℤ

-- The calls of `BankingClient` and `TradingClient` that change something there.
pub data RemoteCall : Type 0 where
  prepare_cash : CashPostingRequest → RemoteCall
  commit_cash rollback_cash release_shares consume_shares : String → RemoteCall
  reserve_shares : ReserveSharesRequest → RemoteCall
  credit_shares : CreditSharesRequest → RemoteCall
  finalize_payment : ℕ → Bool → RemoteCall

-- The codes of a gRPC status that are told apart; an error that is no status is among the others.
pub data Code : Type 0 where
  not_found invalid_argument other : Code

-- `message` is that of the status, `text` is `err.Error()`.
pub record RemoteError : Type 0 where
  pub code : Code
  pub message : String
  pub text : String

-- A call with its error, if it had one.
pub record Entry : Type 0 where
  pub call : RemoteCall
  pub reply : Option RemoteError

pub record Node : Type 0 where
  pub prepared : List PreparedTransaction
  pub contracts : List PeerContract
  pub negotiations : List PeerNegotiation
  pub inbound : List InboundMessage
  pub outbound : List OutboundMessage
  pub log : List Entry

-- The statements of one operation on its database; the number is the index of the posting. A
-- `commit_…` ends the transaction of that phase.
pub data Statement : Type 0 where
  find_prepared create_prepared update_prepared commit_intent commit_mark : Statement
  find_inbound save_inbound enqueue commit_work : Statement
  find_contract create_contract update_contract find_negotiation update_negotiation : ℕ → Statement

pub record Env : Type 0 where
  pub our_routing : ℕ
  pub fails : Statement → Bool
  -- what a service answers after the calls so far
  pub reply : List Entry → RemoteCall → Option RemoteError
  -- `GetUserByIdentityID`: the id and the type of a user; `none` for an error
  pub user : ℕ → Option (ℕ × String)
  -- `SettlementPassed`, which reads the clock
  pub settlement_passed : String → Bool

unfoldable pub find_prepared_row :
    ForeignBankId → List PreparedTransaction → Option PreparedTransaction
find_prepared_row = find ForeignBankId_discrete (λ r. r.key)

unfoldable pub save_prepared_row :
    PreparedTransaction → List PreparedTransaction → List PreparedTransaction
save_prepared_row = save ForeignBankId_discrete (λ r. r.key)

unfoldable pub find_contract_row : ForeignBankId → List PeerContract → Option PeerContract
find_contract_row = find ForeignBankId_discrete (λ c. c.key)

unfoldable pub save_contract_row : PeerContract → List PeerContract → List PeerContract
save_contract_row = save ForeignBankId_discrete (λ c. c.key)

unfoldable pub find_negotiation_row : ForeignBankId → List PeerNegotiation → Option PeerNegotiation
find_negotiation_row = find ForeignBankId_discrete (λ n. n.key)

unfoldable pub save_negotiation_row : PeerNegotiation → List PeerNegotiation → List PeerNegotiation
save_negotiation_row = save ForeignBankId_discrete (λ n. n.key)

unfoldable pub find_inbound_row : ForeignBankId → List InboundMessage → Option InboundMessage
find_inbound_row = find ForeignBankId_discrete (λ m. m.key)

-- `Create` with `OnConflict` and `DoUpdates`
unfoldable pub save_inbound_row : InboundMessage → List InboundMessage → List InboundMessage
save_inbound_row = save ForeignBankId_discrete (λ m. m.key)

-- `Create` with `OnConflict` and `DoNothing` on the local idempotence key
unfoldable pub enqueue_row : OutboundMessage → List OutboundMessage → List OutboundMessage
enqueue_row m t =
    elim (find String_discrete (λ (x : OutboundMessage). x.idempotence_key_local)
      m.idempotence_key_local t) [ none ↦ t ++ m ∷ [] | some x ↦ t ]

-- A remote call is made and logged.
unfoldable pub request : Env → RemoteCall → Node → Option RemoteError × Node
request env c s =
    let e = env.reply s.log c in
    (e, record s { log = s.log ++ record { call = c; reply = e } ∷ [] })

-- A remote call whose error ends the operation.
abbrev pub demand : Env → RemoteCall → Action Node (Unit {0})
demand env c s =
    let (e, t) = request env c s in (elim e [ none ↦ ok tt | some x ↦ err internal ], t)

-- `Create` of a row, which fails if its key is taken.
unfoldable pub create_contract_row : Bool → PeerContract → Action Node (Unit {0})
create_contract_row failed c s =
    let taken = find_contract_row c.key s.contracts in
    if failed then (err internal, s) else elim taken [
      | some x ↦ (err internal, s)
      | none ↦ (ok tt, record s { contracts = s.contracts ++ c ∷ [] })
    ]

-- `WithinTransaction`, outermost: the tables are restored on an error, the calls have been made.
unfoldable pub atomically {ℓ} : {A : Type ℓ} → Bool → Action Node A → Action Node A
atomically failed m s =
    let (r, t) = m s in
    elim r [
      | ok a ↦ if failed then (err driver, record s { log = t.log }) else (ok a, t)
      | err e ↦ (err e, record s { log = t.log })
    ]
