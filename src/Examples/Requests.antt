-- ===== src/Examples/Requests.antt =====
-- Verified requests, capabilities and decisions on concrete states.
use agentic_control_tower.Store.Grants.{
  list_capability_grants, has_active_capability_grant, grant_matches, grant_applies, any_applies,
}
use agentic_control_tower.Store.Events.{insert_event, get_event_by_id, create_event}
use agentic_control_tower.Store.Audit.{
  sealed, latest_audit_hash, insert_audit, get_audit_event, audit_content, append_audit_event,
}
use agentic_control_tower.Store.Approvals.{resolve_approval, get_approval}
use agentic_control_tower.Store.Sql.{list_where, update_where, fetch, exists}
use agentic_control_tower.Store.Devices.{record_request_nonce}
use agentic_control_tower.Prelude.{◌≡◌, refl, none, some, [], ◌∷◌}
use agentic_control_tower.Exec.{
  raise, require, on_key_error, or_key_error, modify, on_option, gets, guard_or, ◌>>=◌, pure,
}
use agentic_control_tower.Exec.Returns.{Returns}
use agentic_control_tower.Store.Rows.{approved}
use agentic_control_tower.Store.State.{Store}
use agentic_control_tower.Capabilities.{audit_capability_denial, VerifiedDevice}
use agentic_control_tower.Signing.{
  signature_verifies, parsed_timestamp, known_device, has_headers, request_id,
  verify_signed_request,
}
use agentic_control_tower.Signing.Laws.{Verified, verified}
use agentic_control_tower.Capabilities.{require_device_capability}
use agentic_control_tower.Capabilities.Laws.{Allowed, require_device_capability-Allowed}
use agentic_control_tower.Table.{select, order_by, insert_row, update, has_key, find?}
use agentic_control_tower.Calls.{serve}
use agentic_control_tower.Store.Security.{iso_lt, new_token, new_id, content_hash, now_utc}
use agentic_control_tower.Store.Cursor.{cursor_text}
use agentic_control_tower.Store.Tokens.{verify_access_token, verify_refresh_token}
use agentic_control_tower.Store.Tokens.Valid.{}
use agentic_control_tower.Approvals.{
  close_approval, apply_decision, settle, decided_late, get_approval_or_404, DecisionResponse,
  transition_approval,
}
use agentic_control_tower.Approvals.Guard.{Decided, transition-Decided}
use agentic_control_tower.Approvals.Endpoints.{require_approval_capability, decide_as}
use agentic_control_tower.Approvals.Authority.{Authorised, decide_as-Authorised}
use agentic_control_tower.Pairing.{}
use agentic_control_tower.Pairing.Laws.{}
use agentic_control_tower.Notifications.{}
use agentic_control_tower.History.Runs.Lockout.{
  verified_once, revoked_device_cannot_sign, revoked_device_has_no_access_token,
  revoked_device_has_no_refresh_token,
}
use agentic_control_tower.Examples.Runs.{script, two_approvals-Unique}
use agentic_control_tower.Examples.World.{toy, settings, signed_by}
use agentic_control_tower.Examples.States.{phone, two_approvals, lost_phone}

abbrev sender : VerifiedDevice
sender = record {
  device_id = "dev";
  node_id = "node_local";
  permissions = "read_state" ∷ "approve" ∷ [];
}

abbrev after_n1 : Store
after_n1 = (verify_signed_request toy settings (signed_by "dev" "n1") two_approvals).1

n1-Returns :
    Returns
      (verify_signed_request toy settings (signed_by "dev" "n1"))
      two_approvals
      sender
      after_n1
unfolding verify_signed_request ◌>>=◌ request_id pure guard_or has_headers known_device gets
    on_option find? parsed_timestamp now_utc signature_verifies record_request_nonce exists has_key
    modify
n1-Returns = record { run = refl }

verified_example : Verified toy settings (signed_by "dev" "n1") two_approvals sender after_n1
verified_example = verified toy settings (signed_by "dev" "n1") n1-Returns

verified_once_example :
    ¬ Returns
      (verify_signed_request toy settings (signed_by "dev" "n1"))
      (serve toy settings [] after_n1)
      sender
      after_n1
verified_once_example =
    verified_once toy settings [] two_approvals two_approvals-Unique (signed_by "dev" "n1")
      (signed_by "dev" "n1") n1-Returns refl refl

revoked_device_cannot_sign_example :
    ¬ Returns
      (verify_signed_request toy settings (signed_by "dev" "n1"))
      (serve toy settings script lost_phone)
      sender
      lost_phone
unfolding find?
revoked_device_cannot_sign_example =
    revoked_device_cannot_sign toy settings script lost_phone two_approvals-Unique
      (signed_by "dev" "n1") refl

no_access_token_example :
    ¬ Returns
      (verify_access_token toy "tok")
      (serve toy settings script lost_phone)
      (some phone)
      lost_phone
unfolding find?
no_access_token_example =
    revoked_device_has_no_access_token toy settings script lost_phone two_approvals-Unique "tok"
      refl

no_refresh_token_example :
    ¬ Returns
      (verify_refresh_token toy "tok")
      (serve toy settings script lost_phone)
      (some phone)
      lost_phone
unfolding find?
no_refresh_token_example =
    revoked_device_has_no_refresh_token toy settings script lost_phone two_approvals-Unique "tok"
      refl

abbrev decision : DecisionResponse
decision = record { approval_id = "a1"; state = approved; applied_scope = some "once" }

abbrev after_transition : Store
after_transition =
    (transition_approval toy "a1" approved "req" "dev" (some "approve") (some "once")
      two_approvals).1

transition-Returns :
    Returns
      (transition_approval toy "a1" approved "req" "dev" (some "approve") (some "once"))
      two_approvals
      decision
      after_transition
unfolding transition_approval ◌>>=◌ get_approval_or_404 on_key_error get_approval fetch gets
    or_key_error find? pure require decided_late now_utc settle apply_decision resolve_approval
    update_where modify close_approval raise append_audit_event audit_content get_audit_event
    insert_audit latest_audit_hash sealed cursor_text create_event get_event_by_id insert_event
    content_hash new_id new_token has_key update
transition-Returns = record { run = refl }

transition-Decided_example :
    Decided toy "a1" "dev" approved (some "approve") (some "once") two_approvals after_transition
    × (decision ≡ record { approval_id = "a1"; state = approved; applied_scope = some "once" })
transition-Decided_example =
    transition-Decided toy "a1" approved "req" "dev" (some "approve") (some "once")
      transition-Returns

abbrev after_check : Store
after_check =
    (require_device_capability toy settings sender "approvals" "req" none (some "agent")
      two_approvals).1

check-Returns :
    Returns
      (require_device_capability toy settings sender "approvals" "req" none (some "agent"))
      two_approvals
      tt
      after_check
unfolding require_device_capability pure
check-Returns = record { run = refl }

require_device_capability-Allowed_example :
    Allowed toy settings sender "approvals" none (some "agent") two_approvals
require_device_capability-Allowed_example =
    require_device_capability-Allowed toy settings sender "approvals" "req" none (some "agent")
      check-Returns

abbrev after_decision : Store
after_decision =
    (decide_as toy settings (signed_by "dev" "n1") sender "a1" approved (some "approve")
      (some "once") two_approvals).1

decide_as-Returns :
    Returns
      (decide_as toy settings
        (signed_by "dev" "n1")
        sender
        "a1"
        approved
        (some "approve")
        (some "once"))
      two_approvals
      decision
      after_decision
unfolding decide_as ◌>>=◌ require_approval_capability get_approval_or_404 on_key_error get_approval
    fetch gets or_key_error find? pure request_id require_device_capability transition_approval
    require decided_late now_utc settle apply_decision close_approval audit_capability_denial modify
    raise resolve_approval append_audit_event audit_content get_audit_event insert_audit
    latest_audit_hash sealed cursor_text create_event get_event_by_id insert_event any_applies
    grant_applies grant_matches has_active_capability_grant list_capability_grants content_hash
    iso_lt new_id new_token list_where update_where has_key insert_row order_by select update
decide_as-Returns = record { run = refl }

decide_as-Authorised_example :
    Authorised toy settings sender "a1" approved
      (some "approve")
      (some "once")
      two_approvals
      after_decision
    × (decision ≡ record { approval_id = "a1"; state = approved; applied_scope = some "once" })
decide_as-Authorised_example =
    decide_as-Authorised toy settings (signed_by "dev" "n1") sender "a1" approved (some "approve")
      (some "once") decide_as-Returns
