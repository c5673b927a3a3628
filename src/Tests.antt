-- ===== src/Tests.antt =====
-- Runs of the program at concrete inputs: the theorems' witnesses.
pub mod Store
pub mod Service
pub mod Controls
pub mod Governance
pub mod Metering
pub mod Guard
pub mod Delivery
pub mod Payment
