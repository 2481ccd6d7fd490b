-- ===== src/Interbank/Messages.antt =====
-- services/interbank-service/internal/service/message_processor.go: the messages of another bank, each
-- answered once, and the messages to another bank, which are queued with the local step.
use raf_8_banka_4_backend.Shared.{
  ℕ, ◌==◌, Bool, String, Option, none, some, if◌then◌else◌, Action, ok, err, internal,
}
use raf_8_banka_4_backend.Interbank.Model.{
  ForeignBankId, Transaction, TransactionVote, vote_yes, vote_no, MessageType, new_tx, commit_tx,
  rollback_tx, InboundMessage, OutboundMessage, OutboundMessageStatus, Payload,
}
use raf_8_banka_4_backend.Interbank.Node.{
  Node, Env, find_inbound, save_inbound, enqueue, commit_work, find_inbound_row, save_inbound_row,
  enqueue_row, atomically, demand, finalize_payment,
}
use raf_8_banka_4_backend.Interbank.Prepare.{prepare_local_transaction}
use raf_8_banka_4_backend.Interbank.Settle.{commit_body, rollback_body}

-- The status and the body of a response.
abbrev pub Response : Type 0
Response = ℕ × Option TransactionVote

-- An answer that is kept for a message, unless it says that the work is unfinished.
unfoldable pub finished : Option InboundMessage → Option InboundMessage
finished none = none
finished (some m) = if m.response_status == 202 then none else some m

-- `ProcessNewTx`: the answer is kept outside of a transaction, and an error of that is ignored.
unfoldable pub process_new_tx : Env → ForeignBankId → Transaction → Action Node Response
process_new_tx env key tx s =
    if env.fails find_inbound
    then (err internal, s)
    else elim (finished (find_inbound_row key s.inbound)) [
      | some m ↦ (ok (m.response_status, m.response_body), s)
      | none ↦
          let (r, t) = prepare_local_transaction env tx 0 s in
          elim r [
            | err e ↦ (err e, t)
            | ok vote ↦ (
              ok (200, some vote),
              if env.fails save_inbound then t else record t {
                inbound =
                    save_inbound_row
                      (record {
                        key = key;
                        message_type = new_tx;
                        response_status = 200;
                        response_body = some vote;
                      })
                      t.inbound;
              },
            )
          ]
    ]

-- The step and the answer of `processInbound` in one transaction.
unfoldable pub answer : Env → ForeignBankId → MessageType → Action Node ℕ → Action Node Response
answer env key message_type step s =
    let (r, t) = step s in
    elim r [
      | err e ↦ (err e, t)
      | ok status ↦ if env.fails save_inbound then (err internal, t) else (
        ok (status, none),
        record t {
          inbound =
              save_inbound_row
                (record {
                  key = key;
                  message_type = message_type;
                  response_status = status;
                  response_body = none;
                })
                t.inbound;
        },
      )
    ]

-- `processInbound`, for a message whose answer has no body
unfoldable pub process_inbound :
    Env → ForeignBankId → MessageType → Action Node ℕ → Action Node Response
process_inbound env key message_type step s =
    if env.fails find_inbound
    then (err internal, s)
    else elim (finished (find_inbound_row key s.inbound)) [
      | some m ↦ (ok (m.response_status, m.response_body), s)
      | none ↦ atomically (env.fails commit_work) (answer env key message_type step) s
    ]

-- `ProcessCommitTx`
unfoldable pub process_commit_tx : Env → ForeignBankId → ForeignBankId → Action Node Response
process_commit_tx env key i = process_inbound env key commit_tx (commit_body env i)

-- `ProcessRollbackTx`
unfoldable pub process_rollback_tx : Env → ForeignBankId → ForeignBankId → Action Node Response
process_rollback_tx env key i = process_inbound env key rollback_tx (rollback_body env i)

-- `buildOutboundMessage`
unfoldable pub build_outbound_message :
    ℕ → MessageType → String → Payload → String → ℕ → OutboundMessage
build_outbound_message peer message_type key payload flow_type banking_tx_id = record {
  peer_routing_number = peer;
  message_type = message_type;
  idempotence_key_local = key;
  payload = payload;
  flow_type = flow_type;
  banking_tx_id = banking_tx_id;
  status = OutboundMessageStatus.pending;
}

unfoldable pub enqueue_message : Env → OutboundMessage → Action Node (Option OutboundMessage)
enqueue_message env m s =
    if env.fails enqueue
    then (err internal, s)
    else (ok (some m), record s { outbound = enqueue_row m s.outbound })

-- `PrepareAndEnqueueNewTx`: the vote, and the message if one was queued
unfoldable pub prepare_and_enqueue_new_tx :
    Env
    → Transaction
    → ℕ
    → String
    → String
    → ℕ
    → Action Node (TransactionVote × Option OutboundMessage)
prepare_and_enqueue_new_tx env tx peer key flow_type banking_tx_id s =
    let (r, t) = prepare_local_transaction env tx banking_tx_id s in
    elim r [
      | err e ↦ (err e, t)
      | ok vote ↦ elim vote [
        | vote_no reasons ↦ (ok (vote_no reasons, none), t)
        | vote_yes ↦
            if peer == env.our_routing
            then (ok (vote_yes, none), t)
            else (let (q, u) =
                  enqueue_message env
                    (build_outbound_message peer new_tx key (Payload.transaction tx) flow_type
                      banking_tx_id)
                    t in
                (elim q [ err e ↦ err e | ok m ↦ ok (vote_yes, m) ], u))
      ]
    ]

-- A local step and the message that follows it, in one transaction.
unfoldable pub step_and_enqueue :
    Env → Action Node ℕ → OutboundMessage → Action Node (ℕ × Option OutboundMessage)
step_and_enqueue env step m s =
    let (r, t) = step s in
    elim r [
      | err e ↦ (err e, t)
      | ok status ↦
          let (q, u) = enqueue_message env m t in
          (elim q [ err e ↦ err e | ok x ↦ ok (status, x) ], u)
    ]

-- `CommitAndEnqueueFollowUp`
unfoldable pub commit_and_enqueue_follow_up :
    Env → ForeignBankId → ℕ → String → String → Action Node (ℕ × Option OutboundMessage)
commit_and_enqueue_follow_up env i peer key flow_type = atomically (env.fails commit_work) (
    step_and_enqueue env (commit_body env i)
      (build_outbound_message peer commit_tx key (Payload.transaction_id i) flow_type 0))

-- `RollbackAndEnqueueFollowUp`
unfoldable pub rollback_and_enqueue_follow_up :
    Env → ForeignBankId → ℕ → String → String → Action Node (ℕ × Option OutboundMessage)
rollback_and_enqueue_follow_up env i peer key flow_type = atomically (env.fails commit_work) (
    step_and_enqueue env (rollback_body env i)
      (build_outbound_message peer rollback_tx key (Payload.transaction_id i) flow_type 0))

-- `FinalizeInterbankPayment`
unfoldable pub finalize_interbank_payment : Env → ℕ → Bool → Action Node (Unit {0})
finalize_interbank_payment env banking_tx_id success =
    demand env (finalize_payment banking_tx_id success)
