-- ===== src/Store.antt =====
-- store.py: the rows, the state, and the methods of SQLiteStore by table.
pub mod Rows
pub mod SessionRows
pub mod State
pub mod Security
pub mod Sql
pub mod Audit
pub mod Cursor
pub mod Events
pub mod Logged
pub mod Devices
pub mod Tokens
pub mod Pairing
pub mod Grants
pub mod Agents
pub mod Approvals
pub mod Responses
pub mod Notifications
pub mod Operators
pub mod Assistance
pub mod Browser
pub mod Voice
pub mod Lasting
pub mod Tui
pub mod Missions
