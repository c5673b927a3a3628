-- ===== src/Governance.antt =====
-- The decision governance of the API (app.py): the state of the system for each key, and the
-- release of a halt, the rate, the permission budget and the queue of its requests.
pub mod SystemState
pub mod Recovery
pub mod Clearing
pub mod HaltRelease
pub mod Release
pub mod Family
pub mod Temporal
pub mod Windows
pub mod Pressure
pub mod Rounding
pub mod Budget
pub mod Spending
pub mod Queue
pub mod Places
