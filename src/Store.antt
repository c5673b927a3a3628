-- ===== src/Store.antt =====
-- The durable control store of the retail plane (retail_context/control_store.py), one module for
-- each table or group of methods.
pub mod Db
pub mod Audit
pub mod Mode
pub mod RateLimit
pub mod Claims
pub mod Deliveries
pub mod Requests
pub mod Recorded
pub mod Methods
pub mod Growth
pub mod Calls
pub mod Consumption
pub mod Replay
pub mod Final
pub mod Keys
pub mod Accounting
pub mod Limits
