-- ===== src/Examples/States.antt =====
-- A state with one device and two approvals, one pending and one denied.
use agentic_control_tower.Store.Rows.{EventRow}
use agentic_control_tower.Prelude.{ℕ, some, String, none, [], ◌∷◌}
use agentic_control_tower.Json.{null}
use agentic_control_tower.Store.Rows.{ApprovalRow, DeviceRow, ApprovalState, pending, denied, low}
use agentic_control_tower.World.{pos}
use agentic_control_tower.Store.Rows.{DeviceStatus}
use agentic_control_tower.Store.Rows.{PairingStatus, TokenRow, TokenType, access, refresh}
use agentic_control_tower.Pairing.{PairingPayload}
use agentic_control_tower.Notifications.{NotifyPayload}
use agentic_control_tower.Store.State.{Store, empty_store}

abbrev pub phone : DeviceRow
phone = record {
  device_id = "dev";
  user_id = "owner";
  node_id = "node_local";
  device_name = "phone";
  platform = "ios";
  app_instance_id = "app";
  app_version = none;
  device_public_key = "key1";
  status = DeviceStatus.active;
  permissions = "read_state" ∷ "approve" ∷ [];
  registered_at = 0;
  last_seen_at = 0;
}

abbrev pub approval : String → ApprovalState → ApprovalRow
approval id state = record {
  approval_id = id;
  action_id = "act";
  node_id = "node_local";
  agent_id = "agent";
  session_id = "sess";
  requested_tool = "shell";
  risk_level = low;
  risk_category = none;
  summary = "";
  full_payload_redacted = null;
  payload_hash = "";
  resource_scope = none;
  state = state;
  options = [];
  decision_scope = none;
  decision_actor_device_id = none;
  decision_metadata = null;
  requested_at = 0;
  expires_at = 2000000000;
  decided_at = none;
}

abbrev pub two_approvals : Store
two_approvals = record empty_store {
  devices = phone ∷ [];
  approval_requests = approval "a1" pending ∷ approval "a2" denied ∷ [];
  request_nonces =
      record { device_id = "dev"; nonce = "n0"; timestamp = pos 0; created_at = 0 } ∷ [];
}

-- The same after the device was revoked.
abbrev pub lost_phone : Store
lost_phone = record two_approvals { devices = record phone { status = DeviceStatus.revoked } ∷ [] }

abbrev pub token : String → TokenType → TokenRow
token hash token_type = record {
  token_hash = hash;
  token_type = token_type;
  device_id = "dev";
  expires_at = 2000000000;
  revoked_at = none;
  created_at = 0;
}

-- An access token "tok" and a refresh token "refresh" of the device.
abbrev pub with_token : Store
with_token = record two_approvals {
  auth_tokens = token "hxxx" access ∷ token "hxxxxxxx" refresh ∷ [];
}

-- A pending pairing session with the token "tok".
abbrev pub one_pairing : Store
one_pairing = record empty_store {
  nodes =
      record {
        node_id = "node_local";
        display_name = "node";
        environment = "laptop";
        gateway_base_url = "http://127.0.0.1";
        node_fingerprint = "fp";
        gateway_version = "0.1.0";
        hermes_version = none;
        health = "healthy";
        tags = [];
        capabilities = [];
        created_at = 0;
        last_seen_at = 0;
      }
      ∷ [];
  pairing_sessions =
      record {
        pairing_id = "pair";
        pairing_token_hash = "hxxx";
        challenge = "challenge";
        status = PairingStatus.pending;
        node_id = "node_local";
        node_fingerprint = "fp";
        display_name = "phone";
        requested_permissions = "approve" ∷ [];
        expires_at = 2000000000;
        created_at = 0;
        completed_at = none;
      }
      ∷ [];
}

abbrev pub pairing_payload : PairingPayload
pairing_payload = record {
  pairing_id = "pair";
  challenge_response = "tok";
  device_name = "phone";
  platform = "ios";
  app_instance_id = "app";
  app_version = none;
  device_public_key = "key1";
}

abbrev pub notice : NotifyPayload
notice = record {
  title = "Done";
  body = "The task is complete";
  urgency = "normal";
  category = "task_complete";
  agent_id = "agent";
  session_id = "sess";
  action_id = none;
  dedupe_key = none;
}

-- A pending approval whose expiry has passed.
abbrev pub overdue : Store
overdue = record two_approvals {
  approval_requests = record (approval "a1" pending) { expires_at = 5 } ∷ [];
}

abbrev pub event : ℕ → String → EventRow
event sequence cursor = record {
  sequence = sequence;
  event_id = cursor;
  cursor = some cursor;
  node_id = "node";
  agent_id = none;
  session_id = none;
  event_type = "system.health";
  severity = "info";
  occurred_at = 0;
  payload = null;
}

-- A feed of three events.
abbrev pub three_events : Store
three_events = record empty_store {
  event_envelopes = event 1 "node:x" ∷ event 2 "node:xx" ∷ event 4 "node:xxxx" ∷ [];
  event_sequence = 4;
}
