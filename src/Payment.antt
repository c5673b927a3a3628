-- ===== src/Payment.antt =====
-- The x402 payment of a context resource (retail_context/x402_payment.py): requirements, receipts, the
-- verify, settle and reconcile flow, and the test that lets a payment reach a resource.
pub mod Types
pub mod Requirement
pub mod Process
pub mod Access
pub mod Settlement
pub mod Order
pub mod Terms
pub mod Completeness
pub mod Challenge
pub mod Network
