-- ===== src/Lib.antt =====
-- A model of PDSNO, a partially distributed optimizer of networks, and proofs about it.
--
-- Local, regional and global controllers propose, approve and execute configuration changes on
-- network devices. A change is classified by its sensitivity, written to a shared store (the NIB),
-- approved by a controller whose role suffices, and executed under a signed token that is meant to
-- be used once. Controllers talk in signed messages, and an access control says who may do what.
--
-- The files, and the code that each of them is about:
--   Common, Platform          what Python provides: dictionaries in insertion order, texts, the
--                             clock, timestamps as text, and the keyed digest. The digest and the
--                             timestamps are parameters, with what the code relies on as hypotheses.
--   Config/Lifecycle          pdsno/config/config_state.py, ConfigStateMachine: `transition` and
--                             its table VALID_TRANSITIONS, the history, the notes of each state.
--   Config/Token              pdsno/config/execution_token.py, ExecutionToken and
--                             ExecutionTokenManager: `issue_token`, `verify_token`,
--                             `_sign_token` as `sign_token`, `_cleanup_nonces` as `cleanup_nonces`.
--   Config/Sensitivity        pdsno/config/sensitivity_classifier.py, ConfigSensitivityClassifier,
--                             with Python's `re` as a parameter.
--   Config/Approval           pdsno/config/approval_engine.py, ApprovalRequest (Request) and
--                             ApprovalWorkflowEngine (Engine). A method `m` that starts with
--                             `get_request` is `m`, and `m_found` what follows once it has found
--                             the request. The engine writes to the store of Nib.
--   Nib/Models, Nib/Store     pdsno/datastore/models.py and the tables of
--                             pdsno/datastore/sqlite_store.py: lists of rows.
--   Nib/Devices, Nib/Configs  the operations of NIBStore on devices and on configurations, with
--                             optimistic locking by a version.
--   Nib/Locks                 those on the coordination locks, which expire.
--   Nib/Controllers, Nib/Events, Nib/Policies
--                             those on the identities of controllers, the event log and policies.
--   Security/Rbac             pdsno/security/rbac.py, Role, Permission, RBACManager.
--   Security/MessageAuth      pdsno/security/message_auth.py, MessageAuthenticator, KeyManager.
--   Controllers/Global        pdsno/controllers/global_controller.py: the six steps of the validation
--                             of a controller, and in Proposals `handle_config_proposal` as
--                             `decide_proposal`.
--   Controllers/Regional      pdsno/controllers/regional_controller.py: `handle_validation_request` as
--                             `validate_local_controller`, the locks of proposals, the reports; in
--                             Proposals `handle_config_proposal`, in Results
--                             `handle_execution_result`, in Joins `request_validation`.
--   Controllers/Local         pdsno/controllers/local_controller.py: `handle_execution_instruction`, in
--                             Submits `submit_config_proposal`, and in Discovery the merge, the
--                             deltas and the write of a scan.
--   Controllers/Handshake     the validation of a regional controller, both sides together.
--   Controllers/Flow          an approval by one controller and its execution by another.
--   Controllers/Messages, Holding, Registration, Secrets
--                             what the controllers share: the payloads of messages, the store that a
--                             controller and its engine both hold, identities, and token secrets.
--
-- Conventions. Times are microseconds since the epoch in UTC, as natural numbers; a method that
-- reads the clock takes the readings as arguments, in the order in which they are made, and a
-- difference of times is written as a sum, so nothing is lost below zero. Random values (ids,
-- nonces, keys) are arguments. A method that changes an object returns the changed object; a
-- dictionary of shared objects is changed in place by writing the object back. A Python exception
-- is `none` or a constructor of its own. The exchange of a controller with another is a parameter,
-- which may change the store. Every loop of the source is a structural recursion, so no
-- definition takes fuel. An entry of a message's dictionary that is `None` counts as missing. A
-- method of NIBStore is one step: it is assumed that no other process writes between its
-- statements.
--
-- Not modelled: log lines, the SQL text and the schema's migrations; the rate limiter,
-- authentication, key distribution, the audit trail and rollbacks; of the controllers, the context
-- files, MQTT, REST and the key exchange; transport, device adapters and the scans
-- of the network.
pub mod Common
pub mod Platform
pub mod Fixtures
pub mod Config
pub mod Nib
pub mod Security
pub mod Controllers
