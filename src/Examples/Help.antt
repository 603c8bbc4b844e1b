-- ===== src/Examples/Help.antt =====
-- A state with one session of each kind, and what the calls of the examples leave of it.
use agentic_control_tower.Prelude.{String, none, some, false, [], ◌∷◌}
use agentic_control_tower.Json.{dict}
use agentic_control_tower.Exec.{Result, ok, err}
use agentic_control_tower.Store.Rows.{DeviceRow}
use agentic_control_tower.Store.SessionRows.{
  AssistanceRequestRow, AssistanceSessionRow, BrowserSessionRow, VoiceSessionRow,
  OperatorSessionRow, TuiSessionRow, AttachTokenRow,
}
use agentic_control_tower.Store.State.{Store, empty_store}
use agentic_control_tower.Examples.States.{phone}

-- The result of a call, or the given one where it raised.
abbrev pub result_of : {A : Type 0} → A → Result A → A
result_of d (ok a) = a
result_of d (err e) = d

abbrev pub tablet : DeviceRow
tablet = record phone { permissions = "intervene" ∷ "browser_assist" ∷ "voice" ∷ "tui" ∷ [] }

abbrev pub asked : AssistanceRequestRow
asked = record {
  request_id = "tua_req_1";
  node_id = "node_local";
  agent_id = "agent";
  session_id = "sess";
  approval_id = none;
  reason = "stuck";
  state = "active";
  context_redacted = dict [];
  created_at = 0;
  updated_at = 0;
}

abbrev pub helping : AssistanceSessionRow
helping = record {
  assistance_session_id = "tua_1";
  request_id = "tua_req_1";
  node_id = "node_local";
  agent_id = "agent";
  session_id = "sess";
  state = "active";
  created_by_device_id = "dev";
  return_summary = none;
  created_at = 0;
  updated_at = 0;
  returned_at = none;
  closed_at = none;
}

-- A browser session that was closed.
abbrev pub browsing : BrowserSessionRow
browsing = record {
  browser_session_id = "bas_1";
  node_id = "node_local";
  agent_id = "agent";
  session_id = "sess";
  approval_id = none;
  reason = "captcha";
  state = "closed";
  context_redacted = dict [];
  user_action_notes = [];
  return_summary = none;
  created_at = 0;
  updated_at = 0;
  returned_at = none;
  closed_at = some 5;
}

abbrev pub speaking : VoiceSessionRow
speaking = record {
  voice_session_id = "voice_1";
  node_id = "node_local";
  agent_id = "agent";
  session_id = none;
  created_by_device_id = "dev";
  mode = "text_fallback";
  state = "active";
  created_at = 0;
  closed_at = none;
}

abbrev pub mirror_of : String → String → OperatorSessionRow
mirror_of id session_type = record {
  session_id = id;
  session_type = session_type;
  agent_id = "agent";
  mission_id = none;
  state = "active";
  owner_device_id = none;
  capability_requirements = [];
  context = dict [];
  return_summary = none;
  created_at = 0;
  updated_at = 0;
}

abbrev pub terminal : TuiSessionRow
terminal = record {
  session_id = "tui_1";
  agent_id = "agent";
  node_id = "node_local";
  user_device_id = "dev";
  state = "detached";
  command = "/bin/sh";
  working_directory = ".";
  risk_level = "high";
  risk_label = "operator terminal - high risk";
  output_retention_enabled = false;
  audit_refs = [];
  created_at = 1000000000;
  last_activity_at = 1000000000;
  closed_at = none;
}

-- The hash of the attach token "tok".
abbrev pub ticket : AttachTokenRow
ticket = record {
  token_hash = "hxxx";
  session_id = "tui_1";
  device_id = "dev";
  expires_at = 2000000000;
  created_at = 0;
  used_at = none;
  revoked_at = none;
}

abbrev pub helped : Store
helped = record empty_store {
  nodes =
      record {
        node_id = "node_local";
        display_name = "node";
        environment = "laptop";
        gateway_base_url = "http://127.0.0.1";
        node_fingerprint = "fp";
        gateway_version = "0.1.0";
        hermes_version = none;
        health = "healthy";
        tags = [];
        capabilities = record { name = "tui"; status = "available" } ∷ [];
        created_at = 0;
        last_seen_at = 0;
      }
      ∷ [];
  agents =
      record {
        agent_id = "agent";
        node_id = "node_local";
        display_name = "agent";
        agent_kind = none;
        status = "running";
        active_session_id = none;
        current_tool = none;
        current_target = none;
        tags = [];
        capabilities = [];
        last_seen_at = 0;
      }
      ∷ [];
  devices = tablet ∷ [];
  assistance_requests = asked ∷ [];
  assistance_sessions = helping ∷ [];
  browser_assistance_sessions = browsing ∷ [];
  voice_sessions = speaking ∷ [];
  operator_sessions =
      mirror_of "tua_1" "tua"
      ∷ mirror_of "bas_1" "browser_assistance"
      ∷ mirror_of "voice_1" "voice"
      ∷ [];
  tui_sessions = terminal ∷ [];
  tui_attach_tokens = ticket ∷ [];
}
