-- ===== src/Store/State.antt =====
-- The state: the tables of the database, and how often the clock was read and the random source
-- drawn from. `Settings` is the part of config.py that the modelled methods read.
use agentic_control_tower.Prelude.{ℕ, String, Bool, List, []}
use agentic_control_tower.World.{ℤ}
use agentic_control_tower.Exec.{Exec}
use agentic_control_tower.Store.Rows.{
  NodeRow, AgentRow, PairingRow, DeviceRow, TokenRow, NonceRow, ApprovalRow, ResponseRow,
  ProposalRow, NotificationRow, GrantRow, AuditRow, EventRow,
}
use agentic_control_tower.Store.SessionRows.{
  AssistanceRequestRow, AssistanceSessionRow, AssistanceMessageRow, BrowserSessionRow,
  VoiceSessionRow, VoiceMessageRow, OperatorSessionRow, TuiSessionRow, AttachTokenRow, SessionRow,
  MissionRow,
}

pub record Store : Type 0 where
  pub reads : ℕ
  pub draws : ℕ
  pub nodes : List NodeRow
  pub agents : List AgentRow
  pub sessions : List SessionRow
  pub missions : List MissionRow
  pub pairing_sessions : List PairingRow
  pub devices : List DeviceRow
  pub auth_tokens : List TokenRow
  pub request_nonces : List NonceRow
  pub approval_requests : List ApprovalRow
  pub approval_responses : List ResponseRow
  pub approval_policy_proposals : List ProposalRow
  pub notifications : List NotificationRow
  pub capability_grants : List GrantRow
  pub assistance_requests : List AssistanceRequestRow
  pub assistance_sessions : List AssistanceSessionRow
  pub assistance_messages : List AssistanceMessageRow
  pub browser_assistance_sessions : List BrowserSessionRow
  pub voice_sessions : List VoiceSessionRow
  pub voice_messages : List VoiceMessageRow
  pub operator_sessions : List OperatorSessionRow
  pub tui_sessions : List TuiSessionRow
  pub tui_attach_tokens : List AttachTokenRow
  pub audit_events : List AuditRow
  pub audit_sequence : ℕ
  pub event_envelopes : List EventRow
  pub event_sequence : ℕ

abbrev pub empty_store : Store
empty_store = record {
  reads = 0;
  draws = 0;
  nodes = [];
  agents = [];
  sessions = [];
  missions = [];
  pairing_sessions = [];
  devices = [];
  auth_tokens = [];
  request_nonces = [];
  approval_requests = [];
  approval_responses = [];
  approval_policy_proposals = [];
  notifications = [];
  capability_grants = [];
  assistance_requests = [];
  assistance_sessions = [];
  assistance_messages = [];
  browser_assistance_sessions = [];
  voice_sessions = [];
  voice_messages = [];
  operator_sessions = [];
  tui_sessions = [];
  tui_attach_tokens = [];
  audit_events = [];
  audit_sequence = 0;
  event_envelopes = [];
  event_sequence = 0;
}

abbrev pub Action : Type 0 → Type 0
Action A = Exec Store A

pub record Settings : Type 0 where
  pub node_id : String
  pub node_fingerprint : String
  pub pairing_ttl_seconds : ℤ
  pub allowed_hermes_callers : List String
  pub tui_enable_local_pty : Bool
  pub tui_allowed_commands : List String
  pub tui_default_command : String
  pub tui_allowed_working_directory : String
  pub tui_max_sessions : ℕ
  pub tui_attach_token_ttl_seconds : ℤ
  pub tui_idle_timeout_seconds : ℤ
  pub tui_output_retention_enabled : Bool
