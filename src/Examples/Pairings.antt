-- ===== src/Examples/Pairings.antt =====
-- Tokens and a pairing on concrete states.
use agentic_control_tower.Store.Agents.{get_node}
use agentic_control_tower.Store.Pairing.{set_pairing_status, get_pairing_session}
use agentic_control_tower.Store.Grants.{}
use agentic_control_tower.Store.Events.{insert_event, get_event_by_id, create_event}
use agentic_control_tower.Store.Audit.{
  sealed, latest_audit_hash, insert_audit, get_audit_event, audit_content, append_audit_event,
}
use agentic_control_tower.Store.Sql.{insert, update_where, fetch, exists}
use agentic_control_tower.Store.Devices.{create_device, get_device}
use agentic_control_tower.Prelude.{refl, true, false, some, [], ◌∷◌}
use agentic_control_tower.Exec.{
  raise, require, on_key_error, or_key_error, modify, on_option, gets, guard_or, ◌>>=◌, pure,
}
use agentic_control_tower.Exec.Returns.{Returns}
use agentic_control_tower.Store.State.{Store}
use agentic_control_tower.Signing.{request_id}
use agentic_control_tower.Table.{update, has_key, find?}
use agentic_control_tower.Store.Security.{
  hash_token, expires_in, compare_token, new_token, new_id, content_hash, now_utc,
}
use agentic_control_tower.Store.Cursor.{cursor_text}
use agentic_control_tower.Store.Tokens.{
  create_auth_token, verify_access_token, verify_refresh_token,
}
use agentic_control_tower.Store.Tokens.Valid.{
  Valid, verify_access_token-Valid, verify_refresh_token-Valid,
}
use agentic_control_tower.Approvals.{}
use agentic_control_tower.Pairing.{
  reject_pairing, issue_tokens, register_device, expire_pairing_if_needed, Paired, complete_pairing,
}
use agentic_control_tower.Pairing.Laws.{
  Completed, complete_pairing-Completed, complete_pairing-once,
}
use agentic_control_tower.Notifications.{}
use agentic_control_tower.History.Runs.Lockout.{}
use agentic_control_tower.Examples.World.{toy, settings, signed_by}
use agentic_control_tower.Examples.States.{phone, one_pairing, pairing_payload, with_token}

abbrev after_access : Store
after_access = (verify_access_token toy "tok" with_token).1

access-Returns : Returns (verify_access_token toy "tok") with_token (some phone) after_access
unfolding verify_access_token ◌>>=◌ gets on_option find? now_utc pure
access-Returns = record { run = refl }

verify_access_token-Valid_example : Valid toy true "tok" phone with_token
verify_access_token-Valid_example = verify_access_token-Valid toy "tok" access-Returns

abbrev after_refresh : Store
after_refresh = (verify_refresh_token toy "refresh" with_token).1

refresh-Returns : Returns (verify_refresh_token toy "refresh") with_token (some phone) after_refresh
unfolding verify_refresh_token ◌>>=◌ gets on_option find? now_utc pure get_device fetch or_key_error
refresh-Returns = record { run = refl }

verify_refresh_token-Valid_example : Valid toy false "refresh" phone with_token
verify_refresh_token-Valid_example = verify_refresh_token-Valid toy "refresh" refresh-Returns

abbrev after_pairing : Store
after_pairing = (complete_pairing toy settings (signed_by "dev" "n1") pairing_payload one_pairing).1

abbrev paired : Paired
paired = record {
  device = record phone {
    device_id = "dev_";
    node_id = "node_local";
    permissions = "approve" ∷ [];
    registered_at = 1001000000;
    last_seen_at = 1001000000;
  };
  tokens = record { access_token = "x"; refresh_token = "xx"; expires_at = 1909000000 };
}

pairing-Returns :
    Returns
      (complete_pairing toy settings (signed_by "dev" "n1") pairing_payload)
      one_pairing
      paired
      after_pairing
unfolding complete_pairing ◌>>=◌ on_key_error get_pairing_session fetch gets or_key_error find?
    expire_pairing_if_needed now_utc pure require guard_or compare_token register_device
    create_device new_id insert modify raise issue_tokens reject_pairing request_id get_node
    append_audit_event audit_content get_audit_event insert_audit latest_audit_hash sealed
    cursor_text get_device create_event get_event_by_id insert_event set_pairing_status content_hash
    expires_in hash_token new_token exists update_where create_auth_token has_key update
pairing-Returns = record { run = refl }

complete_pairing-Completed_example : Completed toy pairing_payload one_pairing after_pairing
complete_pairing-Completed_example =
    complete_pairing-Completed toy settings (signed_by "dev" "n1") pairing_payload pairing-Returns

complete_pairing-once_example :
    ¬ Returns
      (complete_pairing toy settings (signed_by "dev" "n2") pairing_payload)
      after_pairing
      paired
      after_pairing
complete_pairing-once_example =
    complete_pairing-once toy settings (signed_by "dev" "n1") (signed_by "dev" "n2") pairing_payload
      pairing_payload pairing-Returns refl
