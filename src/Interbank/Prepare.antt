-- ===== src/Interbank/Prepare.antt =====
-- services/interbank-service/internal/service/message_processor.go: PrepareLocalTransaction with the
-- reservations of its second phase, and their undoing.
mod Needs
unfoldable pub use Needs.*
use raf_8_banka_4_backend.Shared.{
  ℕ, suc, String, Bool, true, false, not, ◌==◌, Option, none, some, List, [], ◌∷◌, ◌++◌, reverse, ℤ,
  pos, negsuc, ltb_ℤ, parse_uint, if◌then◌else◌, Action, Result, ok, err, internal,
}
use raf_8_banka_4_backend.Interbank.Model.{
  ForeignBankId, TxAccountType, AssetType, Posting, Transaction, NoVoteReasonKind, unbalanced_tx,
  no_such_account, unacceptable_asset, insufficient_asset, option_amount_incorrect,
  option_used_or_expired, option_negotiation_not_found, TransactionVote, vote_yes, vote_no,
  PreparedTransaction, PreparedTransactionStatus, PeerContract, PeerContractStatus,
}
use raf_8_banka_4_backend.Interbank.Node.{
  Node, Env, RemoteCall, CashPostingRequest, ReserveSharesRequest, prepare_cash, rollback_cash,
  reserve_shares, release_shares, find_contract_row, find_negotiation_row, find_prepared_row,
  save_prepared_row, find_prepared, create_prepared, update_prepared, commit_intent, commit_mark,
  find_contract, find_negotiation, request, atomically,
}
use raf_8_banka_4_backend.Interbank.Assets.{
  monetary_currency, option_description, show_id, balance_failure, is_local_posting,
  local_cash_account, local_person_account, local_option_account, cash_posting_id,
  counterparty_account_number, cash_no_vote_reason,
}

abbrev pub undo : PreparedItem → RemoteCall
undo (cash i) = rollback_cash i
undo (option i) = release_shares i

-- Calls whose errors are ignored.
unfoldable pub undo_all : Env → List PreparedItem → Node → Node
undo_all env [] s = s
undo_all env (item ∷ items) s = undo_all env items (request env (undo item) s).1

-- `rollbackEffects`: the last one first
unfoldable pub rollback_effects : Env → List PreparedItem → Node → Node
rollback_effects env effects = undo_all env (reverse effects)

-- `noVote`
unfoldable pub no_vote : NoVoteReasonKind → Posting → TransactionVote
no_vote reason p = vote_no (record { reason = reason; posting = some p } ∷ [])

-- The loop of phase 2 over the postings from an index on, with the effects so far.
unfoldable pub reserve_postings :
    Env
    → Transaction
    → ℕ
    → ℕ
    → List Posting
    → List PreparedItem
    → Node
    → Option TransactionVote × Node
reserve_postings env tx banking_tx_id index [] effects s = (none, s)
reserve_postings env tx banking_tx_id index (p ∷ ps) effects s =
    elim (is_local_posting env.our_routing p) [
      | false ↦ reserve_postings env tx banking_tx_id (suc index) ps effects s
      | true ↦
          let (o, t) = prepare_posting env tx index banking_tx_id p s in
          elim o [
            | refused reason ↦ (some (no_vote reason p), rollback_effects env effects t)
            | granted items ↦
                reserve_postings env tx banking_tx_id (suc index) ps (effects ++ items) t
          ]
    ]

-- Phase 1: the record is found, or written.
unfoldable pub persist_intent : Env → Transaction → Action Node PreparedTransaction
persist_intent env tx s =
    let fresh : PreparedTransaction = record {
      key = tx.transaction_id;
      status = PreparedTransactionStatus.preparing;
      request_body = tx;
    } in
    if env.fails find_prepared
    then (err internal, s)
    else elim (find_prepared_row tx.transaction_id s.prepared) [
      | some row ↦ (ok row, s)
      | none ↦
          if env.fails create_prepared
          then (err internal, s)
          else (ok fresh, record s { prepared = s.prepared ++ fresh ∷ [] })
    ]

-- `Update` of the record with a new status
unfoldable pub set_status :
    Env → PreparedTransaction → PreparedTransactionStatus → Action Node (Unit {0})
set_status env row status s = if env.fails update_prepared then (err internal, s) else (
  ok tt,
  record s { prepared = save_prepared_row (record row { status = status }) s.prepared },
)

-- What follows phase 2: a NO vote is written to the record, if that can be done, and otherwise phase
-- 3 confirms it.
unfoldable pub conclude :
    Env → PreparedTransaction → Option TransactionVote × Node → Result TransactionVote × Node
conclude env row (some v, t) = (
  ok v,
  (atomically (env.fails commit_mark) (set_status env row PreparedTransactionStatus.rolled_back)
      t).1,
)
conclude env row (none, t) =
    let (r, u) =
      atomically (env.fails commit_mark) (set_status env row PreparedTransactionStatus.prepared)
        t in
    (elim r [ ok x ↦ ok vote_yes | err e ↦ err e ], u)

-- The switch over the status that phase 1 has found or written.
unfoldable pub vote_on :
    Env
    → Transaction
    → ℕ
    → PreparedTransaction
    → PreparedTransactionStatus
    → Action Node TransactionVote
vote_on env tx banking_tx_id row PreparedTransactionStatus.committed s = (ok vote_yes, s)
vote_on env tx banking_tx_id row PreparedTransactionStatus.prepared s = (ok vote_yes, s)
vote_on env tx banking_tx_id row PreparedTransactionStatus.rolled_back s =
    (ok (vote_no (record { reason = unbalanced_tx; posting = none } ∷ [])), s)
vote_on env tx banking_tx_id row PreparedTransactionStatus.preparing s =
    conclude env row (reserve_postings env tx banking_tx_id 0 tx.postings [] s)

-- `PrepareLocalTransaction`: its status is 200 with a vote, and 500 with an error.
unfoldable pub prepare_local_transaction : Env → Transaction → ℕ → Action Node TransactionVote
prepare_local_transaction env tx banking_tx_id s = elim (balance_failure tx) [
  | some reason ↦ (ok (vote_no (reason ∷ [])), s)
  | none ↦
      let (r, t) = atomically (env.fails commit_intent) (persist_intent env tx) s in
      elim r [ err e ↦ (err e, t) | ok row ↦ vote_on env tx banking_tx_id row row.status t ]
]
