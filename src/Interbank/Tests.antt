-- ===== src/Interbank/Tests.antt =====
-- Runs of the message processor of the bank 444, and the theorems at concrete inputs.
use native.Mathlib.Decide.{ℕ_discrete}
use raf_8_banka_4_backend.Shared.{
  String, ◌≡◌, ◌≢◌, ◌⊎◌, refl, Bool, true, false, Option, none, some, List, [], ◌∷◌, ℤ, pos, negsuc,
  ◌+ℤ◌, arith, All, ok, err, internal, driver, trim_space, show_ℕ, show_ℕ_width_3, has_prefix,
  concat, String_discrete, find, save, contains_lower,
}
use raf_8_banka_4_backend.Interbank.Model.{
  ForeignBankId, TxAccountType, AssetType, Posting, Transaction, PreparedTransaction, vote_no,
  vote_yes, PreparedTransactionStatus, commit_tx, insufficient_asset,
}
use raf_8_banka_4_backend.Interbank.Node.{
  Node, Env, Statement, commit_work, ForeignBankId_discrete, Entry, RemoteError, Code,
  find_prepared_row, find_inbound_row, save_inbound_row, request, atomically,
}
use raf_8_banka_4_backend.Interbank.Assets.{
  when, monetary_currency, balance_key, add_total, any_nonzero, check_totals, balance_failure,
  is_local_posting, local_cash_account, is_local_monas_account, cash_no_vote_reason,
}
use raf_8_banka_4_backend.Interbank.Prepare.{
  cash_request, prepare_monas_posting, need, perform, prepare_posting, no_vote, reserve_postings,
  persist_intent, set_status, conclude, vote_on, prepare_local_transaction,
}
use raf_8_banka_4_backend.Interbank.Settle.{
  commit_posting, commit_postings, commit_and_mark, commit_on, commit_body, rollback_body,
  commit_local, rollback_local,
}
use raf_8_banka_4_backend.Interbank.Messages.{answer, finished, process_inbound, process_new_tx}
use raf_8_banka_4_backend.Interbank.Reservations.{Accounted, prepare_local_transaction-Accounted}
use raf_8_banka_4_backend.Interbank.Records.{IsRecorded, prepare_local_transaction-IsRecorded}
use raf_8_banka_4_backend.Interbank.Repeats.{
  commit_local_final, process_inbound_again, process_new_tx_again,
}
use raf_8_banka_4_backend.Interbank.Lifecycle.{
  Message, new_tx_message, commit_tx_message, rollback_tx_message, receive_all, Follows,
  receive_all-Follows,
}
use raf_8_banka_4_backend.Interbank.Votes.{IsPromised, prepare_local_transaction-IsPromised}
use raf_8_banka_4_backend.Interbank.Balance.{sum_of, HasKey, balance_failure-sum_of}

abbrev cash_leg : String → ℤ → Posting
cash_leg number amount = record {
  account = record { type = TxAccountType.account; id = none; num = some number };
  amount = amount;
  asset = record {
    type = AssetType.monas;
    body = record { currency = some "RSD"; as_option = none; as_stock = none };
  };
  idempotency_key = "";
}

abbrev payment_id : ForeignBankId
payment_id = record { routing_number = 444; id = "p-1" }

-- 50.00 RSD from one account of the bank 444 to another
abbrev payment : Transaction
payment = record {
  postings =
      cash_leg "444000000000000101" (negsuc 4999) ∷ cash_leg "444000000000000202" (pos 5000) ∷ [];
  transaction_id = payment_id;
  payment_code = "289";
  payment_purpose = "rent";
}

abbrev empty : Node
empty = record {
  prepared = [];
  contracts = [];
  negotiations = [];
  inbound = [];
  outbound = [];
  log = [];
}

-- Everything succeeds.
abbrev calm : Env
calm = record {
  our_routing = 444;
  fails = λ st. false;
  reply = λ log c. none;
  user = λ i. some (i, "CLIENT");
  settlement_passed = λ d. false;
}

abbrev refusal : RemoteError
refusal = record { code = Code.invalid_argument; message = "Insufficient funds"; text = "" }

abbrev refuse_second : List Entry → Option RemoteError
refuse_second [] = none
refuse_second (e ∷ []) = some refusal
refuse_second (e ∷ f ∷ log) = none

-- Banking refuses the second call.
abbrev doubtful : Env
doubtful = record calm { reply = λ log c. refuse_second log }

abbrev no_commits : Statement → Bool
no_commits commit_work = true
no_commits _ = false

-- No database transaction that a message runs in can be committed.
abbrev lossy : Env
lossy = record doubtful { fails = no_commits }

abbrev prepared_payment : PreparedTransaction
prepared_payment = record {
  key = payment_id;
  status = PreparedTransactionStatus.prepared;
  request_body = payment;
}

abbrev prepared_node : Node
prepared_node = record empty { prepared = prepared_payment ∷ [] }

abbrev committed_node : Node
committed_node = (commit_local calm payment_id prepared_node).1

payment_voted_down :
    (prepare_local_transaction doubtful payment 0 empty).0
    ≡ ok (
        vote_no (
          record {
            reason = insufficient_asset;
            posting = some (cash_leg "444000000000000202" (pos 5000));
          }
          ∷ []))
unfolding prepare_local_transaction balance_failure check_totals add_total any_nonzero balance_key
    monetary_currency when trim_space concat atomically persist_intent find_prepared_row find
    String_discrete vote_on conclude reserve_postings prepare_posting perform need
    prepare_monas_posting is_local_posting has_prefix show_ℕ_width_3 show_ℕ local_cash_account
    cash_request request cash_no_vote_reason contains_lower no_vote ◌+ℤ◌
payment_voted_down = refl

payment_commits : commit_local calm payment_id prepared_node ≡ (ok 204, committed_node)
unfolding commit_local commit_body atomically find_prepared_row find String_discrete
    ForeignBankId_discrete commit_on commit_and_mark commit_postings is_local_posting has_prefix
    show_ℕ_width_3 show_ℕ trim_space commit_posting is_local_monas_account local_cash_account when
    set_status ℕ_discrete request
payment_commits = refl

payment_balanced : balance_failure payment ≡ none
unfolding balance_failure check_totals add_total any_nonzero balance_key monetary_currency when
    trim_space concat String_discrete ◌+ℤ◌
payment_balanced = refl

prepare_local_transaction-Accounted_example :
    Accounted empty (prepare_local_transaction doubtful payment 0 empty)
prepare_local_transaction-Accounted_example =
    prepare_local_transaction-Accounted doubtful payment 0 empty

prepare_local_transaction-IsRecorded_example :
    ((prepare_local_transaction doubtful payment 0 empty).1.log ≡ empty.log)
    ⊎ IsRecorded payment_id payment (prepare_local_transaction doubtful payment 0 empty).1
unfolding find_prepared_row find
prepare_local_transaction-IsRecorded_example =
    prepare_local_transaction-IsRecorded doubtful payment 0 empty

balance_failure-sum_of_example :
    (payment.postings ≢ [])
    × All HasKey payment.postings
    × ((k : String) → sum_of k payment.postings ≡ pos 0)
balance_failure-sum_of_example = balance_failure-sum_of payment payment_balanced

commit_local_final_example :
    (commit_local lossy payment_id committed_node ≡ (err driver, committed_node))
    × (rollback_local lossy payment_id committed_node ≡ (err internal, committed_node))
commit_local_final_example =
    commit_local_final calm lossy payment_id prepared_node payment_commits refl

abbrev message_key : ForeignBankId
message_key = record { routing_number = 111; id = "m-9" }

abbrev answered_node : Node
answered_node =
    (process_inbound calm message_key commit_tx (commit_body calm payment_id) prepared_node).1

commit_answered :
    process_inbound calm message_key commit_tx (commit_body calm payment_id) prepared_node
    ≡ (ok (204, none), answered_node)
unfolding process_inbound finished find_inbound_row find atomically answer save_inbound_row save
    commit_body find_prepared_row String_discrete ForeignBankId_discrete commit_on commit_and_mark
    commit_postings is_local_posting has_prefix show_ℕ_width_3 show_ℕ trim_space commit_posting
    is_local_monas_account local_cash_account when set_status ℕ_discrete request
commit_answered = refl

process_inbound_again_example :
    process_inbound doubtful message_key commit_tx (rollback_body doubtful payment_id) answered_node
    ≡ (ok (204, none), answered_node)
process_inbound_again_example =
    process_inbound_again calm doubtful message_key commit_tx commit_tx
      (commit_body calm payment_id) (rollback_body doubtful payment_id) prepared_node
      commit_answered (λ e. ground arith) refl

abbrev announced_node : Node
announced_node = (process_new_tx calm message_key payment empty).1

payment_announced :
    process_new_tx calm message_key payment empty ≡ (ok (200, some vote_yes), announced_node)
unfolding process_new_tx finished find_inbound_row find save_inbound_row save
    prepare_local_transaction balance_failure check_totals add_total any_nonzero balance_key
    monetary_currency when trim_space concat atomically persist_intent find_prepared_row
    String_discrete vote_on conclude reserve_postings prepare_posting perform need
    prepare_monas_posting is_local_posting has_prefix show_ℕ_width_3 show_ℕ local_cash_account
    cash_request request ◌+ℤ◌ set_status
payment_announced = refl

process_new_tx_again_example :
    process_new_tx doubtful message_key (record payment { postings = [] }) announced_node
    ≡ (ok (200, some vote_yes), announced_node)
process_new_tx_again_example =
    process_new_tx_again calm doubtful message_key payment (record payment { postings = [] }) empty
      payment_announced refl refl

abbrev conversation : List (Env × ForeignBankId × Message)
conversation =
    (doubtful, message_key, rollback_tx_message payment_id)
    ∷ (calm, message_key, commit_tx_message payment_id)
    ∷ (calm, message_key, new_tx_message payment)
    ∷ []

receive_all-Follows_example : Follows prepared_node (receive_all conversation prepared_node)
receive_all-Follows_example = receive_all-Follows conversation prepared_node

abbrev voted_node : Node
voted_node = (prepare_local_transaction calm payment 0 empty).1

payment_accepted : prepare_local_transaction calm payment 0 empty ≡ (ok vote_yes, voted_node)
unfolding prepare_local_transaction balance_failure check_totals add_total any_nonzero balance_key
    monetary_currency when trim_space concat atomically persist_intent find_prepared_row find
    String_discrete vote_on conclude reserve_postings prepare_posting perform need
    prepare_monas_posting is_local_posting has_prefix show_ℕ_width_3 show_ℕ local_cash_account
    cash_request request ◌+ℤ◌ set_status
payment_accepted = refl

prepare_local_transaction-IsPromised_example : IsPromised payment_id voted_node
prepare_local_transaction-IsPromised_example =
    prepare_local_transaction-IsPromised calm payment 0 empty payment_accepted
