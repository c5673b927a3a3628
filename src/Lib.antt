-- ===== src/Lib.antt =====
-- The retail payment plane of Sharpe Nova OS: how a request for a paid context resource is admitted, paid
-- for through x402, claimed once, and delivered, over a durable SQLite control store; and the part of its
-- decision governance that keeps state for each key. The code is Python, under retail_context/ and in
-- app.py; the rest of the repository is not modelled.
--
-- Parts and files, in the order in which a request meets them:
-- - Service: retail_context/service.py. Service.Admission is `_ensure_runtime_admission`, Service.Handler is
--   `handle_paid_resource`, with one function for each stretch of it up to a return; Service.Request has
--   `PreparedRetailRequest` of retail_context/request_binding.py, Service.World the state of all parts.
--   Service.Evolution, Service.Admitted, Service.Asked, Service.Paid, Service.Served and Service.Replay are
--   about the whole way of a request.
-- - Controls.Types, Controls.Audit, Controls.Admission: `evaluate_retail_pre_payment_admission` of
--   retail_context/production_controls.py, with the limits of retail_context/production_config.py;
--   Controls.Reads and Controls.Permitted are about it.
-- - Payment.Types, Payment.Requirement, Payment.Challenge, Payment.Process, Payment.Access: requirements,
--   challenges, the run that verifies, settles and reconciles, and the test of access, of
--   retail_context/x402_payment.py. The state of a run is the list of what was asked of the facilitator.
--   Payment.Settlement, Payment.Order, Payment.Network and Payment.Completeness are about that run, and
--   Payment.Terms about the requirements.
-- - Controls.Claiming, Controls.Marking: `claim_settled_payment_for_delivery` and the delivery marks of
--   retail_context/production_controls.py; Controls.Evolution carries relations on the store over
--   them, and Controls.Grants is about a granted claim.
-- - Delivery: `claim_or_resume_retail_delivery` and `deliver_or_redeliver_retail_resource` of
--   retail_context/runtime_delivery.py.
-- - Guard: retail_context/runtime_guard.py; Guard.Binding and Guard.Attempts are about source bindings and
--   exemptions, Guard.Retries and Guard.Windows about the retry limit.
-- - Store and below: `SQLiteRetailProductionControlStore` of retail_context/control_store.py, one module per
--   group of methods (Mode, RateLimit, Claims, Deliveries, Requests, Audit), over the database of Store.Db.
-- - Governance: app.py. Governance.SystemState is `_derive_system_state` and `_apply_system_state`,
--   Governance.HaltRelease is `_evaluate_halt_release_governance`, Governance.Temporal is
--   `_evaluate_temporal_governance`, Governance.Budget is `_evaluate_permission_budget` and
--   Governance.Queue is `_evaluate_queue_governance`, each over its dictionary of states by key;
--   Governance.Recovery, Governance.Clearing, Governance.Release, Governance.Windows,
--   Governance.Pressure, Governance.Spending and Governance.Places are about them.
-- - Metering: core/usage_meter.py (Metering.Usage), core/billing_state.py (Metering.Billing), and the calls
--   of them in app.py (Metering.Meter); Metering.Counts and Metering.Bills are about their histories.
-- - Telemetry, Text: retail_context/production_telemetry.py and the text operations the code uses.
-- - Exec: methods that change a state and may raise; Exec.Evolve: how they may change it; Exec.Yields: what
--   is so when they return.
-- - Prelude: library names, tests on numbers and texts, lemmas on lists. Tests: runs at concrete inputs.
--
-- A database is its tables as lists in the order of insertion, and the names of the tables that exist. A
-- method is a function from the database before to a result and the database after; it raises by
-- returning an error, and a transaction that fails leaves the tables as they were. Connections may fail
-- at any time: the database carries a list that says which of the coming ones do. SQLite runs one
-- `BEGIN IMMEDIATE` transaction at a time, so concurrent clients are one sequence of calls, which
-- Store.Calls and Guard.Binding spell out; histories are any such sequence. No loop needs fuel.
--
-- Parameters: SHA-256, validation against the JSON schemas, `datetime.fromisoformat`, the facilitator's
-- answers, the parsing of x402 payloads and the encoding of x402 headers, the preparation of a resource
-- request from a JSON body and its rendering, the length of its UTF-8 text, `str.lower`, `isoformat`, and
-- the clock. Times in Governance are microseconds since the epoch, the amounts of Governance.Budget multiples of a
-- unit, any number of which makes a hundredth (Governance.Rounding), those of Metering.Billing cents; the
-- error of binary arithmetic is left out. Where the code catches `Exception`, each error of the model is caught.
--
-- Not modelled: the routes and the lifespan of the HTTP service, the client of the facilitator
-- (retail_context/facilitator.py), the parsing of request bodies (retail_context/request_binding.py) and the
-- checks of the configuration (retail_context/runtime_config.py), the readiness report, the context
-- products (retail_context/context_delta.py, retail_context/state_ping.py, retail_context/sources.py), the
-- rest of the governance API (app.py) and of core/, nova/ and scripts/.
pub mod Prelude
pub mod Exec
pub mod Text
pub mod Telemetry
pub mod Store
pub mod Payment
pub mod Controls
pub mod Guard
pub mod Delivery
pub mod Service
pub mod Governance
pub mod Metering
pub mod Tests
