-- ===== src/Interbank/Settle.antt =====
-- services/interbank-service/internal/service/message_processor.go: CommitLocalTransaction and
-- RollbackLocalTransaction with the commit and the rollback of one posting.
mod Legs
unfoldable pub use Legs.*
use Prim.Native.Nat.{◌/◌}
use raf_8_banka_4_backend.Shared.{
  ℕ, suc, String, Bool, true, false, not, ◌||◌, ◌==◌, none, some, List, [], ◌∷◌, ℤ, pos, pos_part,
  neg_part, ltb_ℤ, show_ℕ, ◌+◌, if◌then◌else◌, Action, ok, err, internal,
}
use raf_8_banka_4_backend.Interbank.Model.{
  ForeignBankId, TxAccountType, AssetType, OptionDescription, Posting, Transaction,
  PreparedTransaction, PreparedTransactionStatus, PeerContract, PeerContractStatus, PeerNegotiation,
  PeerNegotiationStatus,
}
use raf_8_banka_4_backend.Interbank.Node.{
  Node, Env, commit_cash, rollback_cash, release_shares, consume_shares, credit_shares,
  find_contract_row, save_contract_row, find_negotiation_row, save_negotiation_row,
  find_prepared_row, find_prepared, find_contract, create_contract, update_contract,
  find_negotiation, update_negotiation, request, demand, create_contract_row, atomically,
  commit_work,
}
use raf_8_banka_4_backend.Interbank.Assets.{
  monetary_currency, option_description, stock_description, show_id, is_local_posting,
  local_person_account, local_option_account, is_local_monas_account, cash_posting_id,
}
use raf_8_banka_4_backend.Interbank.Prepare.{set_status}

-- The loop of `CommitLocalTransaction`, which the first error ends.
unfoldable pub commit_postings : Env → Transaction → ℕ → List Posting → Action Node (Unit {0})
commit_postings env tx index [] s = (ok tt, s)
commit_postings env tx index (p ∷ ps) s = elim (is_local_posting env.our_routing p) [
  | false ↦ commit_postings env tx (suc index) ps s
  | true ↦
      let (r, t) = commit_posting env tx index p s in
      elim r [ err e ↦ (err e, t) | ok x ↦ commit_postings env tx (suc index) ps t ]
]

-- The postings are committed, and then the record.
unfoldable pub commit_and_mark : Env → PreparedTransaction → Action Node ℕ
commit_and_mark env row s =
    let (r, t) = commit_postings env row.request_body 0 row.request_body.postings s in
    elim r [
      | err e ↦ (err e, t)
      | ok x ↦
          let (q, u) = set_status env row PreparedTransactionStatus.committed t in
          (elim q [ err e ↦ err e | ok y ↦ ok 204 ], u)
    ]

-- The tests of `CommitLocalTransaction` on the status of the record.
unfoldable pub commit_on : Env → PreparedTransaction → PreparedTransactionStatus → Action Node ℕ
commit_on env row PreparedTransactionStatus.committed s = (ok 204, s)
commit_on env row PreparedTransactionStatus.rolled_back s = (err internal, s)
commit_on env row PreparedTransactionStatus.preparing s = (ok 202, s)
commit_on env row PreparedTransactionStatus.prepared s = commit_and_mark env row s

-- The closure of `CommitLocalTransaction`, with its status: all that it is inside of another
-- transaction.
unfoldable pub commit_body : Env → ForeignBankId → Action Node ℕ
commit_body env i s =
    if env.fails find_prepared then (err internal, s) else elim (find_prepared_row i s.prepared) [
      | none ↦ (ok 202, s)
      | some row ↦ commit_on env row row.status s
    ]

-- `CommitLocalTransaction` on its own: the outbox worker calls it outside of any transaction.
unfoldable pub commit_local : Env → ForeignBankId → Action Node ℕ
commit_local env i = atomically (env.fails commit_work) (commit_body env i)

-- `rollbackPosting`, whose error is ignored
unfoldable pub rollback_posting : Env → Transaction → ℕ → Posting → Node → Node
rollback_posting env tx index p s = elim p.asset.type [
  | AssetType.monas ↦
      if is_local_monas_account env.our_routing p.account
      then (request env (rollback_cash (cash_posting_id tx index p)) s).1
      else s
  | AssetType.option ↦ elim (option_description p.asset) [
    | none ↦ s
    | some o ↦
        if not (o.negotiation_id.routing_number == env.our_routing) || ltb_ℤ (pos 0) p.amount
        then s
        else (request env (release_shares (show_id o.negotiation_id)) s).1
  ]
  | _ ↦ s
]

-- The loop of `RollbackLocalTransaction`.
unfoldable pub rollback_postings : Env → Transaction → ℕ → List Posting → Node → Node
rollback_postings env tx index [] s = s
rollback_postings env tx index (p ∷ ps) s = elim (is_local_posting env.our_routing p) [
  | false ↦ rollback_postings env tx (suc index) ps s
  | true ↦ rollback_postings env tx (suc index) ps (rollback_posting env tx index p s)
]

unfoldable pub release_and_mark : Env → PreparedTransaction → Action Node ℕ
release_and_mark env row s =
    let (q, u) =
      set_status env row PreparedTransactionStatus.rolled_back
        (rollback_postings env row.request_body 0 row.request_body.postings s) in
    (elim q [ err e ↦ err e | ok y ↦ ok 204 ], u)

-- The tests of `RollbackLocalTransaction` on the status of the record.
unfoldable pub rollback_on : Env → PreparedTransaction → PreparedTransactionStatus → Action Node ℕ
rollback_on env row PreparedTransactionStatus.rolled_back s = (ok 204, s)
rollback_on env row PreparedTransactionStatus.committed s = (err internal, s)
rollback_on env row PreparedTransactionStatus.preparing s = release_and_mark env row s
rollback_on env row PreparedTransactionStatus.prepared s = release_and_mark env row s

-- The closure of `RollbackLocalTransaction`, with its status: all that it is inside of another
-- transaction.
unfoldable pub rollback_body : Env → ForeignBankId → Action Node ℕ
rollback_body env i s =
    if env.fails find_prepared then (err internal, s) else elim (find_prepared_row i s.prepared) [
      | none ↦ (ok 204, s)
      | some row ↦ rollback_on env row row.status s
    ]

-- `RollbackLocalTransaction` on its own.
unfoldable pub rollback_local : Env → ForeignBankId → Action Node ℕ
rollback_local env i = atomically (env.fails commit_work) (rollback_body env i)
