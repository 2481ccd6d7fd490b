-- ===== src/Banking.antt =====
-- The ledger side of services/banking-service: accounts, and the two services that hold funds on
-- them, internal/service/otc_funds_service.go and internal/service/interbank_cash_service.go.
pub mod Model
pub mod Store
pub mod Funds
pub mod OtcFunds
pub mod InterbankCash
pub mod Interleaving
mod Tests
