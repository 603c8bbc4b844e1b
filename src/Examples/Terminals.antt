-- ===== src/Examples/Terminals.antt =====
-- Terminal sessions on the concrete state.
use agentic_control_tower.Store.Operators.{
  put_operator_session, new_row, merged, get_operator_session, create_operator_session,
}
use agentic_control_tower.Store.Grants.{
  list_capability_grants, has_active_capability_grant, grant_matches, grant_applies, any_applies,
}
use agentic_control_tower.Store.Events.{insert_event, get_event_by_id, create_event}
use agentic_control_tower.Store.Cursor.{cursor_text}
use agentic_control_tower.Store.Audit.{
  sealed, latest_audit_hash, insert_audit, get_audit_event, audit_content, append_audit_event,
}
use agentic_control_tower.Store.Agents.{get_node, get_agent, agent_at}
use agentic_control_tower.Capabilities.{
  has_available, audit_capability_denial, require_device_capability,
}
use agentic_control_tower.Assistance.{require_capability}
use agentic_control_tower.Store.Devices.{seen_nonce, record_request_nonce}
use agentic_control_tower.Store.Sql.{insert, list_where, exists, fetch, update_where}
use agentic_control_tower.Store.Security.{
  new_token, iso_lt, content_hash, new_id, now_utc, hash_token,
}
use agentic_control_tower.Table.{insert_row, select, order_by, has_key, update, find?}
use agentic_control_tower.Prelude.{◌≡◌, refl, true, none, some, ◌≤◌}
use agentic_control_tower.Exec.{
  raise, on_key_error, for_each, guard_or, or_key_error, modify, on_option, gets, pure, require,
  ◌>>=◌, ok,
}
use agentic_control_tower.Exec.Returns.{Returns}
use agentic_control_tower.Store.State.{Store}
use agentic_control_tower.Store.SessionRows.{AttachTokenRow}
use agentic_control_tower.Store.Tui.{
  create_tui_session, add_tui_audit_ref, count_open_tui_sessions, list_tui_sessions,
  get_tui_session, update_tui_session_state, mark_used, verify_tui_attach_token, open_sessions,
}
use agentic_control_tower.Signing.{
  reject, path_with_query, canonical_request, canonical, b64decode_padded, audit_auth_failure,
  signature_verifies, parsed_timestamp, known_device, has_headers, request_id,
  verify_signed_request,
}
use agentic_control_tower.Tui.{
  close, require_tui_capability, close_if_idle, cleanup_idle_sessions, attach, TuiRequest,
  validate_tui_request,
}
use agentic_control_tower.Tui.Endpoints
use agentic_control_tower.Tui.Endpoints.{TuiPayload, open_stream}
use agentic_control_tower.Tui.Laws.{Permitted, validate_tui_request-Permitted}
use agentic_control_tower.Tui.Tokens.{attach_token_stays_valid}
use agentic_control_tower.Tui.Streams.{Accepted, open_stream-Accepted}
use agentic_control_tower.Tui.Limit.{create_tui_session-within_limit}
use agentic_control_tower.Examples.World.{toy, settings, signed_by}
use agentic_control_tower.Examples.Help.{helped, terminal, ticket, result_of}

abbrev shell : TuiRequest
shell = record { command = "/bin/sh"; working_directory = "." }

shell-Returns : Returns (validate_tui_request toy settings none none) helped shell helped
unfolding validate_tui_request ◌>>=◌ require pure
shell-Returns = record { run = refl }

validate_tui_request_example : Permitted toy settings none none shell × (helped ≡ helped)
validate_tui_request_example = validate_tui_request-Permitted toy settings none none shell-Returns

abbrev streaming : Store
streaming = (open_stream toy "tui_1" (some "tok") helped).1

streaming-Returns : Returns (open_stream toy "tui_1" (some "tok")) helped true streaming
unfolding open_stream ◌>>=◌ verify_tui_attach_token gets on_option find? hash_token mark_used
    now_utc update_where modify pure Endpoints.accept_token Endpoints.accept_stream attach require
    update_tui_session_state or_key_error fetch get_tui_session update
streaming-Returns = record { run = refl }

open_stream_example : Accepted toy "tui_1" "tok" helped streaming
open_stream_example = open_stream-Accepted toy "tui_1" "tok" streaming-Returns

abbrev verified_state : Store
verified_state = (verify_tui_attach_token toy "tok" helped).1

ticket-Returns : Returns (verify_tui_attach_token toy "tok") helped (some ticket) verified_state
unfolding verify_tui_attach_token ◌>>=◌ gets on_option find? hash_token mark_used now_utc
    update_where modify pure
ticket-Returns = record { run = refl }

attach_token_example :
    (b : AttachTokenRow) × ((verify_tui_attach_token toy "tok" verified_state).0 ≡ ok (some b))
    × (b.session_id ≡ "tui_1")
    × (b.device_id ≡ "dev")
    × (b.expires_at ≡ 2000000000)
unfolding verify_tui_attach_token ◌>>=◌ gets on_option find? hash_token mark_used now_utc
    update_where modify pure
attach_token_example = attach_token_stays_valid toy "tok" ticket ticket-Returns refl

abbrev payload : TuiPayload
payload = record {
  agent_id = "agent";
  node_id = none;
  session_context_id = none;
  command = none;
  working_directory = none;
  risk_level = "high";
}

abbrev two_terminals : Store
two_terminals = (Endpoints.create_tui_session toy settings (signed_by "dev" "n1") payload helped).1

created-Returns :
    Returns
      (Endpoints.create_tui_session toy settings (signed_by "dev" "n1") payload)
      helped
      (result_of terminal
        (Endpoints.create_tui_session toy settings (signed_by "dev" "n1") payload helped).0)
      two_terminals
unfolding Endpoints.create_tui_session ◌>>=◌ verify_signed_request request_id pure guard_or
    has_headers known_device gets on_option find? parsed_timestamp now_utc signature_verifies
    record_request_nonce exists has_key modify require_capability require_device_capability
    cleanup_idle_sessions list_tui_sessions list_where for_each order_by select close_if_idle
    count_open_tui_sessions require validate_tui_request new_id require_tui_capability on_key_error
    audit_capability_denial has_available or_key_error raise audit_auth_failure b64decode_padded
    canonical canonical_request path_with_query reject agent_at get_agent get_node
    append_audit_event audit_content get_audit_event insert_audit latest_audit_hash sealed
    cursor_text seen_nonce create_event get_event_by_id insert_event any_applies grant_applies
    grant_matches has_active_capability_grant list_capability_grants create_operator_session
    get_operator_session merged new_row put_operator_session content_hash iso_lt new_token fetch
    insert update_where add_tui_audit_ref create_tui_session get_tui_session open_sessions
    update_tui_session_state insert_row update Endpoints.start_runtime close
created-Returns = record { run = refl }

within_limit_example : open_sessions two_terminals.tui_sessions ≤ 2
within_limit_example =
    create_tui_session-within_limit toy settings (signed_by "dev" "n1") payload created-Returns
