-- ===== src/Lib.antt =====
-- Verification library of the Banka 4 backend, a bank of several Go services. It models the parts that
-- hold money for others until a deal is done: the funds services of banking-service, the saga of
-- trading-service that settles an exercised option by calling them, and the two phase commit between
-- banks of interbank-service, which calls them too.
--
-- Parts and files. A model keeps the names of the code in snake case; a table is a list of rows.
--   Shared: Boolean tests, signed amounts, texts and decimals, keyed tables, the outcome of a call.
--     Shared/Outcome has the errors of common/pkg/errors and WithinTransaction, which restores the
--     state when its body or its commit fails.
--   Banking/Model, Banking/Store: the rows and the statements of services/banking-service/internal
--     (model, repository). Banking/Funds says when the accounts cover what is held on them.
--   Banking/OtcFunds: service/otc_funds_service.go. Reserve, Release, Commit and Refund; its children
--     prove what a success has done, soundness, the life of a reservation, settlement and undoing.
--   Banking/InterbankCash: service/interbank_cash_service.go. Prepare, Commit and Rollback of one leg
--     of an interbank transaction, with the account resolution and the payment history.
--   Banking/Interleaving: requests to both services, one after another in any order, on the same
--     accounts; Payments (and InterbankCash/Payments) counts what they add to the payment history.
--   Interbank/Model, Interbank/Node: the dto, model and repository packages of
--     services/interbank-service/internal; a node is the tables with the log of its remote calls.
--   Interbank/Assets, Prepare, Settle, Messages: service/message_processor.go. Assets has its helpers,
--     Prepare is PrepareLocalTransaction (phases 1 to 3; one posting in Prepare/Needs), Settle is
--     CommitLocalTransaction (one posting in Settle/Legs) and RollbackLocalTransaction, Messages is
--     ProcessNewTx, ProcessCommitTx, ProcessRollbackTx and the functions that enqueue a message with
--     the local step.
--   Interbank/Untouched, Reservations, Records, Repeats, Balance, Votes, Lifecycle: the theorems on
--     these, Lifecycle on any sequence of received messages.
--   Trading/Model, Trading/World: the rows and repositories of services/trading-service/internal
--     (model, repository, faultinject), the statements and the calls of banking-service, with the codes
--     of common/pkg/errors. A world is the tables together with the state of banking-service.
--   Trading/Contracts, Execution, Steps, Settlement, Saga: service/otc_deal_processing_service.go.
--     Contracts has the checks, the expiry and the move of the shares; Execution the changes of an
--     execution row, the faults and the compensators; Steps F1 and F2, Settlement F3 to F5; Saga
--     ExerciseContract, ensureExecutionSaga and processExecution.
--   Trading/Agreement: FinalizeAgreement of the same file, with what other requests do between its two
--     transactions as a parameter; Premium and Shares have its theorems. Trading/Ownership counts the
--     shares of an asset, those of one owner in Held and those of all in Total.
--   Trading/Bank: what the calls of Banking/OtcFunds do to the row of one execution key.
--   Trading/Consistency: the agreement of an execution, its contract and its funds, with a child for
--     each step of the saga; History is any sequence of runs, calls and expiries.
--   Trading/Progress: how far one run of processExecution gets, step by step (Steps, Moves), round by
--     round (Rounds) and to its end (Runs).
--   Banking/Tests, Interbank/Tests, Trading/Tests: runs on small inputs.
--
-- How the parts interact: the message processor asks banking-service for a posting by the calls that
-- Banking/InterbankCash serves, and trading-service for shares. Here the answers to these calls are a
-- parameter, as the caller cannot see more of a remote service than its answer. The saga of
-- trading-service runs on the model of Banking/OtcFunds itself: a call is not delivered, or is done
-- with its answer lost, or is answered. The loops of the code run over lists of rows or postings and
-- are structural recursions. The loop of processExecution has the bound of the code, 8 rounds
-- (maxExecutionStepsPerRun), which is its fuel. A run needs at most five rounds for the steps and
-- one that finds the execution finished; Trading/Progress/Runs has the proof.
--
-- Choices. Amounts are float64 in the code and whole hundredths here: no rounding is modelled, and a
-- test against a small epsilon is a test for equality. Routing numbers and share counts are natural
-- numbers. A JSON column keeps the value that it encodes, and the JSON body of an asset is the three
-- ways in which it is decoded. Each statement on the database may fail, as an environment says; the
-- exchange rates, the lookup of a user and the clock are in the environment too. The functions of the
-- message processor return a status with an error; the status that goes with an error is left out,
-- because the callers go by the error. Database rows have no time stamps. In trading-service numbers of
-- shares and prices are whole numbers and the average price of a purchase is rounded down; a time is a
-- number; the lock of an execution is the order of its rounds; the delay of a fault plan only sleeps and
-- is left out, and so are the texts of errors kept on a row.
-- A call of a service runs as a whole. The code reads an account without a lock on its row
-- (FindByAccountNumber) and writes its balances back (UpdateBalance), so two calls on one account at the
-- same time may lose an update: this is outside of the model, whose calls come one after another.
--
-- Not modelled: payments, transfers, cards and loans of banking-service, the negotiations and the
-- outbox worker of interbank-service, of trading-service all but the agreement and the saga of an
-- option (its records for the tax are best effort and change other tables), user-service,
-- email-service, and the handlers and clients, which only convert between wire types and calls.
pub mod Banking
pub mod Interbank
pub mod Shared
pub mod Trading
