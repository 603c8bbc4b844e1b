-- ===== src/Store/Rows.antt =====
-- The rows of the tables that `SQLiteStore.initialize` creates, and the enumerations of schemas.py
-- that their columns hold. A column of JSON text holds the value that the text denotes, and a
-- column of ISO text holds the instant that the text denotes, in microseconds since 1970.
use agentic_control_tower.Prelude.{ℕ, String, Bool, true, false, Option, List}
use agentic_control_tower.Json.{Json}
use agentic_control_tower.World.{ℤ}

pub data ApprovalState : Type 0 where
  pending approved denied expired cancelled : ApprovalState

pub data DeviceStatus : Type 0 where
  active revoked lost rotating disabled : DeviceStatus

pub data PairingStatus : Type 0 where
  pending completed expired cancelled : PairingStatus

pub data TokenType : Type 0 where
  access refresh : TokenType

pub data RiskLevel : Type 0 where
  low medium high critical : RiskLevel

pub data GrantState : Type 0 where
  granted revoked : GrantState

pub data SubjectType : Type 0 where
  device agent node runtime : SubjectType

-- ApprovalResponseDecisionType
pub data DecisionType : Type 0 where
  approve_once approve_session approve_agent deny modified needs_info propose_policy : DecisionType

pub record Capability : Type 0 where
  pub name : String
  pub status : String

pub record NodeRow : Type 0 where
  pub node_id : String
  pub display_name : String
  pub environment : String
  pub gateway_base_url : String
  pub node_fingerprint : String
  pub gateway_version : String
  pub hermes_version : Option String
  pub health : String
  pub tags : List String
  pub capabilities : List Capability
  pub created_at : ℕ
  pub last_seen_at : ℕ

pub record AgentRow : Type 0 where
  pub agent_id : String
  pub node_id : String
  pub display_name : String
  pub agent_kind : Option String
  pub status : String
  pub active_session_id : Option String
  pub current_tool : Option String
  pub current_target : Option String
  pub tags : List String
  pub capabilities : List Capability
  pub last_seen_at : ℕ

pub record PairingRow : Type 0 where
  pub pairing_id : String
  pub pairing_token_hash : String
  pub challenge : String
  pub status : PairingStatus
  pub node_id : String
  pub node_fingerprint : String
  pub display_name : String
  pub requested_permissions : List String
  pub expires_at : ℕ
  pub created_at : ℕ
  pub completed_at : Option ℕ

pub record DeviceRow : Type 0 where
  pub device_id : String
  pub user_id : String
  pub node_id : String
  pub device_name : String
  pub platform : String
  pub app_instance_id : String
  pub app_version : Option String
  pub device_public_key : String
  pub status : DeviceStatus
  pub permissions : List String
  pub registered_at : ℕ
  pub last_seen_at : ℕ

pub record TokenRow : Type 0 where
  pub token_hash : String
  pub token_type : TokenType
  pub device_id : String
  pub expires_at : ℕ
  pub revoked_at : Option ℕ
  pub created_at : ℕ

pub record NonceRow : Type 0 where
  pub device_id : String
  pub nonce : String
  pub timestamp : ℤ
  pub created_at : ℕ

pub record ApprovalRow : Type 0 where
  pub approval_id : String
  pub action_id : String
  pub node_id : String
  pub agent_id : String
  pub session_id : String
  pub requested_tool : String
  pub risk_level : RiskLevel
  pub risk_category : Option String
  pub summary : String
  pub full_payload_redacted : Json
  pub payload_hash : String
  pub resource_scope : Option String
  pub state : ApprovalState
  pub options : List String
  pub decision_scope : Option String
  pub decision_actor_device_id : Option String
  pub decision_metadata : Json
  pub requested_at : ℕ
  pub expires_at : ℕ
  pub decided_at : Option ℕ

pub record ResponseRow : Type 0 where
  pub approval_response_id : String
  pub approval_id : String
  pub decision_type : DecisionType
  pub created_by_device_id : String
  pub user_message : Option String
  pub alternate_directive : Option String
  pub constraints : Json
  pub policy_proposal_id : Option String
  pub created_at : ℕ

pub record ProposalRow : Type 0 where
  pub policy_proposal_id : String
  pub approval_id : String
  pub created_by_device_id : String
  pub status : String
  pub warning : String
  pub constraints : Json
  pub created_at : ℕ

pub record NotificationRow : Type 0 where
  pub notification_id : String
  pub node_id : String
  pub agent_id : String
  pub session_id : String
  pub action_id : Option String
  pub category : String
  pub urgency : String
  pub title_safe : String
  pub body_safe : String
  pub dedupe_key : Option String
  pub state : String
  pub created_at : ℕ

pub record GrantRow : Type 0 where
  pub grant_id : String
  pub subject_type : SubjectType
  pub subject_id : String
  pub capability : String
  pub node_id : String
  pub agent_id : Option String
  pub state : GrantState
  pub reason : Option String
  pub created_at : ℕ
  pub expires_at : Option ℕ

-- The optional references of an audit event.
pub record Refs : Type 0 where
  pub agent_id : Option String
  pub session_id : Option String
  pub approval_id : Option String
  pub notification_id : Option String
  pub voice_session_id : Option String

pub record AuditRow : Type 0 where
  pub sequence : ℕ
  pub audit_event_id : String
  pub event_type : String
  pub actor_type : String
  pub actor_id : String
  pub node_id : String
  pub refs : Refs
  pub request_id : String
  pub previous_hash : Option String
  pub hash : String
  pub payload_redacted : Json
  pub created_at : ℕ

pub record EventRow : Type 0 where
  pub sequence : ℕ
  pub event_id : String
  pub cursor : Option String
  pub node_id : String
  pub agent_id : Option String
  pub session_id : Option String
  pub event_type : String
  pub severity : String
  pub occurred_at : ℕ
  pub payload : Json

abbrev pub is_pending : ApprovalState → Bool
is_pending ApprovalState.pending = true
is_pending _ = false

abbrev pub is_active : DeviceStatus → Bool
is_active DeviceStatus.active = true
is_active _ = false
