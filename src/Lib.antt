-- ===== src/Lib.antt =====
-- ReclaimRail finds failed payments, decides what may be done to recover them, and proves what came of
-- it. This library models the deterministic core of its backend, apps/api/app; the paths below are
-- relative to that folder.
--
-- The parts and their interplay. A provider's webhook becomes a lifecycle event
-- (domain/payments/events.py), which services/payment_projector.py applies to the stored projection of
-- its payment: the state machine (domain/payments/state_machine.py) decides the transition, the
-- reliability of the delivery is classified (domain/payments/reliability.py), and the row and an audit
-- row are written, once for each event. Evidence of a payment from several sources is resolved to one
-- truth (domain/payments/truth.py). A failed payment becomes a recovery case
-- (services/recovery_case_service.py, domain/recovery/models.py), for which a plan is proposed
-- (domain/recovery/planner.py); the policy (domain/recovery/policy.py) decides every proposal and
-- describes its checks. What a payment link brings in is classified
-- (domain/recovery/outcome_classifier.py) and kept as a proof (domain/recovery/outcomes.py). An action
-- whose amount reaches a threshold waits for an operator (services/recovery_approval_service.py): the
-- request, the decision and the expiry change the rows of the case, the action and the approval together
-- and append an event to the case's audit trail (services/recovery_audit_store.py), a chain of hashes
-- (services/recovery_audit.py) whose verification detects a change of the record. An allowed
-- payment-link action is executed by services/recovery_action_executor.py, for each action that
-- services/recovery_action_batch.py discovers: the action is claimed under the policy of the moment,
-- with the strongest active incident (services/recovery_incident_context.py), the link is made or found
-- at the provider, and the action is completed or fails, with a retry or an escalation. Received events
-- wait in an outbox until services/outbox_dispatcher.py has put them on the stream that is processed.
--
-- The files. Base and its children hold what all parts share: Python's integers, texts, times, lists and
-- the result of code that may raise. Payments/State, Payments/Reliability and Payments/Truth follow the
-- files of domain/payments by name, with decide_payment_transition, classify_payment_event_reliability
-- and resolve_payment_truth as functions of the same names. Projection is the part of
-- services/payment_projector.py on one row (apply_payment_event_to_projection), Projection/Store the
-- part on the two tables (project_payment_lifecycle_event). Recovery/Models, Recovery/Policy with
-- Recovery/Policy/Checks, Recovery/Plans, Recovery/Planner, Recovery/Outcomes and
-- Recovery/Outcomes/Classifier follow domain/recovery. Incidents has the severities of
-- domain/incidents/detector.py. Storage has the rows of db/models/recovery.py with their check
-- constraints. Audit/Values is the normalisation of event data and Audit/Chain the hash chain of
-- services/recovery_audit.py, Audit/Store the table of services/recovery_audit_store.py. Approvals is
-- the requirement of services/recovery_approval_service.py, Approvals/Decisions its operations on one
-- approval (create_request, decide_approval, expire_approval), Approvals/Queue those on all of them
-- (expire_pending, list_approvals). Cases is services/recovery_case_service.py (create_or_get_case),
-- Incidents/Active the incident of a case (load_active_incident), Links the payment links of
-- integrations/razorpay/payment_links.py, Execution services/recovery_action_executor.py with
-- Execution/Prepare (prepare_action), Execution/Finish (complete_action, fail_action) and Execution/Run
-- (execute_action), and Execution/Batch services/recovery_action_batch.py (run_action_batch).
-- Storage/Events appends an audit event to the recovery tables, Storage/Checks has the constraints of
-- actions, and Storage/Chains the chains of all cases. Execution/Moves describes what a transaction of
-- the executor may do to the rows as a step relation, apart from the code, and Execution/Starts has the
-- transactions of several workers one after the other, as the locks on the rows order them.
-- Incidents/Severe relates the incident that is loaded to all that are stored. Outbox is
-- services/outbox_dispatcher.py (claim_messages, dispatch_batch). A constructor of a Python dataclass is
-- a function `make_...` from the values passed to the record that `__post_init__` leaves or the error
-- that it raises. Their other children hold proofs and are named for what they prove; files called Tests
-- hold runs on concrete data.
--
-- Choices. Python's integers are unbounded and so is ℤ here. Times are microseconds; a difference of two
-- times is a number of microseconds. `upper` and `casefold` change ASCII letters only, and white space
-- is that of `str.strip` on the characters that it names. Identifiers of rows are numbers. An exception
-- is a value that carries its text; a service that raises leaves no tables, since its caller rolls the
-- transaction back. An execution has several transactions of its own, so it answers its result or
-- exception beside the tables that the finished ones leave (transact). Every function is structurally
-- recursive, so there is no fuel; the digits of a printed number are found within as many rounds as the
-- number itself, which is enough since each round divides it by ten.
--
-- Parameters for code outside the repository: `to_ms` is the floating-point conversion of a latency to
-- milliseconds; `others` is what other transactions of the database commit between the insert and the
-- lock of a row. `record_truth`, the one parameter for code of the repository, has the answers of
-- record_webhook_transition_truth (services/payment_truth_service.py) to a first delivery; the tables of
-- that service are not modelled. `Platform` has the texts of identifiers and times and the
-- SHA-256 digest of the JSON text of an audit event's material; IsDigest says that the
-- digest is 64 lower-case hexadecimal digits, and CollisionFree that entries which hash different
-- material have different hashes. `broker`, `clock`
-- and `retry_delay` are the answer of Redis to a message, the time at which its end is recorded, and the
-- delay before a retry, which is random and in floating point. `uuid_hex` is the hexadecimal text of an
-- identifier; `Surroundings` has the rows of payments and incidents that an execution reads, which do
-- not change meanwhile, and the time of the incident query; `provider` has the answers of Razorpay to
-- one execution, `customers` those of the lookup of a customer, either of which may raise anything, also
-- a cancellation, which ends the loop of a batch; one that reaches a statement of the database is not
-- modelled.
--
-- Not modelled: the HTTP routes, workers and storage declarations, the clients of Razorpay, Resend and
-- Gemini, the language-model agent, the views, the payment lab, and the services around the modelled
-- core (message executor, compensation, outcomes, plans, incident statistics). Of the tables'
-- constraints, those on approvals, on actions and on the lifecycle of cases are modelled, as tests of
-- rows: an operation does not fail on them here, and theorems say which rows keep them. So a decision on
-- an approval of a closed case, which the code's flush refuses, goes through here. Columns keep what
-- they are given: what PostgreSQL refuses in a text (a NUL, more characters than the column has) raises
-- nothing here, and the JSONB column of event data, which hands back some floating-point numbers as
-- another JSON text (1e16 as an integer), is read as it was written; the material that is hashed is a
-- record of fields in a fixed order where json.dumps sorts the keys. Times have no last year, so the
-- OverflowError of datetime arithmetic is left out. The models of approvals and of the outbox have one
-- session at a time.
pub mod Base
pub mod Payments
pub mod Projection
pub mod Incidents
pub mod Recovery
pub mod Audit
pub mod Storage
pub mod Approvals
pub mod Outbox
pub mod Cases
pub mod Links
pub mod Execution
