-- ===== src/Metering.antt =====
-- The metering of the decision API: what an actor used (core/usage_meter.py), what it owes
-- (core/billing_state.py), and the two together (app.py).
pub mod Usage
pub mod Billing
pub mod Meter
pub mod Counts
pub mod Bills
