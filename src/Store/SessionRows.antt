-- ===== src/Store/SessionRows.antt =====
-- The rows of the tables that `SQLiteStore.initialize` creates for the sessions in which an operator
-- helps an agent: assistance (TUA), browser assistance, voice and terminal sessions; the table of
-- operator sessions; the sessions and the missions of agents. The states are the texts that the columns hold.
use agentic_control_tower.Prelude.{ℕ, String, Bool, Option, List}
use agentic_control_tower.Json.{Json}

pub record AssistanceRequestRow : Type 0 where
  pub request_id : String
  pub node_id : String
  pub agent_id : String
  pub session_id : String
  pub approval_id : Option String
  pub reason : String
  pub state : String
  pub context_redacted : Json
  pub created_at : ℕ
  pub updated_at : ℕ

pub record AssistanceSessionRow : Type 0 where
  pub assistance_session_id : String
  pub request_id : String
  pub node_id : String
  pub agent_id : String
  pub session_id : String
  pub state : String
  pub created_by_device_id : String
  pub return_summary : Option String
  pub created_at : ℕ
  pub updated_at : ℕ
  pub returned_at : Option ℕ
  pub closed_at : Option ℕ

pub record AssistanceMessageRow : Type 0 where
  pub message_id : String
  pub assistance_session_id : String
  pub sender_type : String
  pub sender_id : String
  pub body : String
  pub created_at : ℕ

pub record BrowserSessionRow : Type 0 where
  pub browser_session_id : String
  pub node_id : String
  pub agent_id : String
  pub session_id : String
  pub approval_id : Option String
  pub reason : String
  pub state : String
  pub context_redacted : Json
  pub user_action_notes : List String
  pub return_summary : Option String
  pub created_at : ℕ
  pub updated_at : ℕ
  pub returned_at : Option ℕ
  pub closed_at : Option ℕ

pub record VoiceSessionRow : Type 0 where
  pub voice_session_id : String
  pub node_id : String
  pub agent_id : String
  pub session_id : Option String
  pub created_by_device_id : String
  pub mode : String
  pub state : String
  pub created_at : ℕ
  pub closed_at : Option ℕ

pub record VoiceMessageRow : Type 0 where
  pub voice_message_id : String
  pub voice_session_id : String
  pub sender_type : String
  pub body : String
  pub input_mode : String
  pub created_at : ℕ

pub record OperatorSessionRow : Type 0 where
  pub session_id : String
  pub session_type : String
  pub agent_id : String
  pub mission_id : Option String
  pub state : String
  pub owner_device_id : Option String
  pub capability_requirements : List String
  pub context : Json
  pub return_summary : Option String
  pub created_at : ℕ
  pub updated_at : ℕ

pub record TuiSessionRow : Type 0 where
  pub session_id : String
  pub agent_id : String
  pub node_id : String
  pub user_device_id : String
  pub state : String
  pub command : String
  pub working_directory : String
  pub risk_level : String
  pub risk_label : String
  pub output_retention_enabled : Bool
  pub audit_refs : List String
  pub created_at : ℕ
  pub last_activity_at : ℕ
  pub closed_at : Option ℕ

pub record AttachTokenRow : Type 0 where
  pub token_hash : String
  pub session_id : String
  pub device_id : String
  pub expires_at : ℕ
  pub created_at : ℕ
  pub used_at : Option ℕ
  pub revoked_at : Option ℕ

pub record SessionRow : Type 0 where
  pub session_id : String
  pub node_id : String
  pub agent_id : String
  pub conversation_id : Option String
  pub status : String
  pub title : Option String
  pub summary : Option String
  pub current_plan : Option String
  pub current_tool : Option String
  pub current_target : Option String
  pub started_at : ℕ
  pub updated_at : Option ℕ
  pub ended_at : Option ℕ

pub record MissionRow : Type 0 where
  pub mission_id : String
  pub node_id : String
  pub agent_id : String
  pub session_id : Option String
  pub state : String
  pub title : Option String
  pub summary : Option String
  pub created_at : ℕ
  pub updated_at : ℕ
