-- ===== src/Trading.antt =====
-- services/trading-service: the settlement of an OTC option contract. Model has the rows, World the
-- tables of the service together with the banking-service that it calls; the other modules follow
-- internal/service/otc_deal_processing_service.go.
pub mod Model
pub mod World
pub mod Bank
pub mod Contracts
pub mod Execution
pub mod Steps
pub mod Settlement
pub mod Saga
pub mod Ownership
pub mod Agreement
pub mod Consistency
pub mod Progress
mod Tests
