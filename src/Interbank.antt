-- ===== src/Interbank.antt =====
-- services/interbank-service: one bank's side of the transactions between banks. Model has the types,
-- Node the tables and the remote calls, Assets, Prepare, Settle and Messages the message processor;
-- the other modules prove what it guarantees.
pub mod Model
pub mod Node
pub mod Assets
pub mod Prepare
pub mod Settle
pub mod Messages
pub mod Reservations
pub mod Records
pub mod Untouched
pub mod Repeats
pub mod Balance
pub mod Lifecycle
pub mod Votes
pub mod Tests
