-- ===== src/Service.antt =====
-- The paid context service (retail_context/service.py): one handler over the control store, the runtime
-- guard and the facilitator.
pub mod World
pub mod Request
pub mod Admission
pub mod Handler
pub mod Evolution
pub mod Admitted
pub mod Asked
pub mod Paid
pub mod Served
pub mod Replay
