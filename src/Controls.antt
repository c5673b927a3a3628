-- ===== src/Controls.antt =====
-- Production controls of the retail plane (retail_context/production_controls.py): admission before
-- payment, claims of settled payments, and delivery marks, over the control store.
pub mod Types
pub mod Audit
pub mod Admission
pub mod Claiming
pub mod Marking
pub mod Evolution
pub mod Grants
pub mod Reads
pub mod Permitted
