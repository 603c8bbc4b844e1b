-- ===== src/Lib.antt =====
-- Agentic Control Tower: a verification library of the gateway (gateway/src/hermes_gateway).
--
-- The gateway stands between agents that run on a machine and the phone of their owner. A local
-- runtime asks for approvals and sends notifications, a paired device signs its requests, decides
-- approvals and reads the event feed, helps an agent by text, in a browser or by voice, and opens
-- terminals. Steps are written to an audit log whose events are chained by hashes. All state is in one
-- SQLite database.
--
-- World is what lies outside the repository: the clock, the random source, SHA-256, JSON printing,
-- base64, Ed25519, `isoformat`, `int`, the printing of twelve digits, the parser of addresses, the paths of the file
-- system, and what starting and polling a process gives, as the fields of a record that every
-- definition takes. Nothing is assumed of them but what a theorem names.
-- Exec is a method on the stored state that may raise; each method of the store commits by itself,
-- so the state reached stays when an error is raised. Exec/Along is how such methods change the state
-- as a preorder, Exec/Returns what is known when one returned. Table is a table with a key.
--
-- Store models gateway/src/hermes_gateway/store.py, one file for each group of methods: Rows (the
-- columns), State (all tables and the positions of the clock and the random source), Security
-- (security.py and ids.py), Audit, Events and Cursor, Devices, Tokens, Pairing, Grants, Agents,
-- Approvals, Responses, Notifications, Operators, Assistance, Browser, Voice, Tui,
-- Missions; Lasting is how the
-- rows of sessions may change. A column of JSON text is kept as the value it encodes, an
-- instant as its number of microseconds; the order of the ISO texts is `iso_lt`.
-- Signing models signing.py, Capabilities capabilities.py, LocalBinding local_binding.py.
-- Approvals and its children model the approval endpoints of app.py with _transition_approval and
-- the expiry scan; Pairing the endpoints from start_pairing to revoke_device; Notifications
-- _create_mobile_notification and its callers; Runtime the approvals of HermesRuntimeAdapter in
-- runtime_adapter.py with their endpoints, Runtime/Context its register_context; Inventory the endpoints
-- that read sessions and missions; Feed list_events.
-- Assistance models the endpoints of app.py for TUA sessions (Tua), browser sessions (Browsing) and
-- voice sessions (Speech), the operator session that mirrors each of them, and the handoffs of
-- HermesRuntimeAdapter (Handoffs); Control and Changes are what a return or a close does to them. Tui
-- models the validation and the session manager of tui.py, Tui/Endpoints the endpoints of app.py with
-- the opening of a stream and _handle_tui_frame. Client models runtime_client.py: _wait, _request, the
-- tests that end a wait, and _assert_loopback_url.
-- Calls is one data type of the endpoints of the gateway, with those of the sessions in
-- Calls/Sessions, and `serve`, the run of a list of calls, each of
-- them to its end before the next. History is what every run preserves. Examples has a concrete
-- world and states.
--
-- Bounds and fuel: only the wait loop of the client takes fuel, one unit for each poll, as its source
-- loops until a clock reaches the deadline; the retries run
-- over the number of attempts, and each other loop over the rows of a list. Numbers are
-- unbounded, as in Python.
--
-- Not modelled: threads (a call is not interrupted by another), the endpoints that only read nodes,
-- agents, devices, audit events and notifications, health and the placeholder for interventions, the
-- seed data, the pseudo-terminals with the reading of their output, the loops of the WebSocket streams, the transport and the configuration of the client with
-- its methods that only build a payload or unpack an answer, hermes_adapter.py and main.py (files,
-- environment and the start of the server), the validation by Pydantic (a payload is a value of its
-- model), config.py but for the settings that are read, the mobile app and the scripts.
pub mod Prelude
pub mod Json
pub mod World
pub mod Exec
pub mod Table
pub mod Store
pub mod Capabilities
pub mod Signing
pub mod LocalBinding
pub mod Approvals
pub mod Assistance
pub mod Tui
pub mod History
pub mod Pairing
pub mod Notifications
pub mod Runtime
pub mod Inventory
pub mod Client
pub mod Feed
pub mod Calls
pub mod Examples
