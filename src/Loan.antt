-- ===== src/Loan.antt =====
-- The loan service of server/internal/loan.
pub mod Float
pub mod Calendar
pub mod Schedule
pub mod Types
pub mod Request
pub mod Prepayment
pub mod Examples
