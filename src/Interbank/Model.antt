-- ===== src/Interbank/Model.antt =====
-- services/interbank-service/internal: dto (primitives.go, tx_account.go, transaction.go, message.go)
-- and model (prepared_transaction.go, peer_contract.go, peer_negotiation.go, inbound_message.go,
-- outbound_message.go), with the fields that the message processor reads or writes. A body that is
-- kept as JSON is kept here as the value it encodes, and time stamps are left out.
use raf_8_banka_4_backend.Shared.{ℕ, String, Bool, Option, List, ℤ}

pub record ForeignBankId : Type 0 where
  pub routing_number : ℕ
  pub id : String

pub record MonetaryValue : Type 0 where
  pub currency : String
  pub amount : ℤ

pub data TxAccountType : Type 0 where
  person account option unknown : TxAccountType

pub record TxAccount : Type 0 where
  pub type : TxAccountType
  pub id : Option ForeignBankId
  pub num : Option String

pub data AssetType : Type 0 where
  monas stock option unknown : AssetType

pub record StockDescription : Type 0 where
  pub ticker : String

pub record OptionDescription : Type 0 where
  pub negotiation_id : ForeignBankId
  pub stock : StockDescription
  pub price_per_unit : MonetaryValue
  pub settlement_date : String
  pub amount : ℤ

-- The map `Body`, as its readers see it: the entry "currency" if it is a text, and the map decoded as
-- an option and as a stock, if it can be.
pub record AssetBody : Type 0 where
  pub currency : Option String
  pub as_option : Option OptionDescription
  pub as_stock : Option StockDescription

pub record Asset : Type 0 where
  pub type : AssetType
  pub body : AssetBody

pub record Posting : Type 0 where
  pub account : TxAccount
  pub amount : ℤ
  pub asset : Asset
  pub idempotency_key : String

pub record Transaction : Type 0 where
  pub postings : List Posting
  pub transaction_id : ForeignBankId
  pub payment_code : String
  pub payment_purpose : String

pub data NoVoteReasonKind : Type 0 where
  unbalanced_tx no_such_account no_such_asset unacceptable_asset : NoVoteReasonKind
  insufficient_asset option_amount_incorrect option_used_or_expired : NoVoteReasonKind
  option_negotiation_not_found : NoVoteReasonKind

pub record NoVoteReason : Type 0 where
  pub reason : NoVoteReasonKind
  pub posting : Option Posting

-- `TransactionVote`: a NO vote has its reasons.
pub data TransactionVote : Type 0 where
  vote_yes : TransactionVote
  vote_no : List NoVoteReason → TransactionVote

pub data PreparedTransactionStatus : Type 0 where
  preparing prepared committed rolled_back : PreparedTransactionStatus

pub record PreparedTransaction : Type 0 where
  pub key : ForeignBankId
  pub status : PreparedTransactionStatus
  pub request_body : Transaction

pub data PeerContractStatus : Type 0 where
  active exercised expired cancelled : PeerContractStatus

-- `key` is `AuthorityRoutingNumber` with `ID`; `buyer` and `seller` are two columns each.
pub record PeerContract : Type 0 where
  pub key : ForeignBankId
  pub negotiation_id : String
  pub buyer : ForeignBankId
  pub seller : ForeignBankId
  pub ticker : String
  pub amount : ℕ
  pub strike_price : ℤ
  pub strike_currency : String
  pub premium : ℤ
  pub premium_currency : String
  pub settlement_date : String
  pub status : PeerContractStatus
  pub is_authoritative : Bool

pub data PeerNegotiationStatus : Type 0 where
  ongoing accepted cancelled expired : PeerNegotiationStatus

-- `key` is `SellerRoutingNumber` with `ID`.
pub record PeerNegotiation : Type 0 where
  pub key : ForeignBankId
  pub seller_id : String
  pub ticker : String
  pub amount : ℕ
  pub price_per_stock : ℤ
  pub price_currency : String
  pub premium : ℤ
  pub premium_currency : String
  pub settlement_date : String
  pub status : PeerNegotiationStatus

pub data MessageType : Type 0 where
  new_tx commit_tx rollback_tx : MessageType

-- `key` is `PeerRoutingNumber` with `LocallyGeneratedKey`; only a vote has a body.
pub record InboundMessage : Type 0 where
  pub key : ForeignBankId
  pub message_type : MessageType
  pub response_status : ℕ
  pub response_body : Option TransactionVote

pub data OutboundMessageStatus : Type 0 where
  pending sent canceled failed : OutboundMessageStatus

-- What a message carries: a transaction, or the id of one.
pub data Payload : Type 0 where
  transaction : Transaction → Payload
  transaction_id : ForeignBankId → Payload

pub record OutboundMessage : Type 0 where
  pub peer_routing_number : ℕ
  pub message_type : MessageType
  pub idempotence_key_local : String
  pub payload : Payload
  pub flow_type : String
  pub banking_tx_id : ℕ
  pub status : OutboundMessageStatus
