-- ===== src/Examples/Sessions.antt =====
-- The operator's sessions on the concrete state.
use agentic_control_tower.Store.Operators.{update_operator_session_state, get_operator_session}
use agentic_control_tower.Store.Grants.{
  list_capability_grants, has_active_capability_grant, grant_matches, grant_applies, any_applies,
}
use agentic_control_tower.Store.Events.{insert_event, get_event_by_id, create_event}
use agentic_control_tower.Store.Cursor.{cursor_text}
use agentic_control_tower.Store.Audit.{
  sealed, latest_audit_hash, insert_audit, get_audit_event, audit_content, append_audit_event,
}
use agentic_control_tower.Capabilities.{require_device_capability, audit_capability_denial}
use agentic_control_tower.Assistance.{
  update_operator_session_if_exists, require_capability, audit_subject, announce,
}
use agentic_control_tower.Store.Devices.{seen_nonce, record_request_nonce}
use agentic_control_tower.Store.Security.{new_token, new_id, iso_lt, content_hash, now_utc}
use agentic_control_tower.Table.{update, insert_row, has_key, select, order_by, find?}
use agentic_control_tower.Prelude.{◌≡◌, refl, inr, true, false, none, some, List, [], ◌∷◌, All}
use agentic_control_tower.Exec.{
  suppress_key_error, require, raise, modify, on_option, guard_or, pure, or_key_error, gets,
  on_key_error, ◌>>=◌, ok,
}
use agentic_control_tower.Exec.Returns.{Returns}
use agentic_control_tower.Store.State.{Store}
use agentic_control_tower.Store.SessionRows.{AssistanceSessionRow, BrowserSessionRow}
use agentic_control_tower.Store.Assistance.{
  update_assistance_session_state, get_assistance_session, assistance_moved,
  list_assistance_messages, with_messages, list_assistance_sessions, get_assistance_request,
  AssistanceSession, assistance_sessions,
}
use agentic_control_tower.Store.Browser.{
  update_browser_assistance_state, browser_moved, get_browser_assistance_session,
  add_browser_assistance_note, browser_sessions,
}
use agentic_control_tower.Store.Voice.{
  update_voice_session_state, list_voice_messages, get_voice_session, closing_time,
}
use agentic_control_tower.Store.Sql.{update_where, exists, list_where, fetch, row_at}
use agentic_control_tower.Store.Lasting.{IsWaiting, AssistanceContinues, BrowserContinues}
use agentic_control_tower.Signing.{
  reject, path_with_query, canonical_request, canonical, b64decode_padded, audit_auth_failure,
  signature_verifies, parsed_timestamp, known_device, has_headers, request_id,
  verify_signed_request, HttpRequest,
}
use agentic_control_tower.Assistance.Tua.{
  get_assistance_session_or_404, get_assistance_request_or_404, return_tua_control,
}
use agentic_control_tower.Assistance.Browsing.{
  get_browser_session_or_404, add_browser_assistance_event, return_browser_assistance_control,
}
use agentic_control_tower.Assistance.Speech.{get_voice_session_or_404, close_voice_session}
use agentic_control_tower.Assistance.Handoffs.{tua_result, HandoffResult, check_handoff}
use agentic_control_tower.Assistance.Changes.{
  TuaReturned, BrowserNoted, VoiceClosed, return_tua_control-TuaReturned,
  add_browser_assistance_event-BrowserNoted, close_voice_session-VoiceClosed,
}
use agentic_control_tower.Client.{browser_done, assistance_done}
use agentic_control_tower.Client.Answers.{browser_wait_ends, guidance_keeps_waiting}
use agentic_control_tower.Calls.{Call, serve}
use agentic_control_tower.Calls.Sessions.{SessionCall}
use agentic_control_tower.History.Runs.Claims.{
  assistance_session_lasts, browser_session_lasts, assistance_requests_never_end,
}
use agentic_control_tower.Examples.World.{toy, settings, signed_by}
use agentic_control_tower.Examples.Help.{helped, helping, browsing, speaking, result_of}

abbrev by_phone : HttpRequest
by_phone = signed_by "dev" "n1"

abbrev handed_back : Store
handed_back = (return_tua_control toy settings by_phone "tua_1" "done" helped).1

abbrev handed : AssistanceSession
handed =
    result_of (record { row = helping; messages = [] })
      (return_tua_control toy settings by_phone "tua_1" "done" helped).0

handed-Returns :
    Returns (return_tua_control toy settings by_phone "tua_1" "done") helped handed handed_back
unfolding return_tua_control ◌>>=◌ verify_signed_request request_id pure guard_or has_headers
    known_device gets on_option find? parsed_timestamp now_utc signature_verifies
    record_request_nonce exists has_key get_assistance_session_or_404 announce audit_subject
    require_capability update_operator_session_if_exists audit_capability_denial
    require_device_capability modify on_key_error or_key_error raise require suppress_key_error
    audit_auth_failure b64decode_padded canonical canonical_request path_with_query reject
    assistance_moved get_assistance_session list_assistance_messages update_assistance_session_state
    append_audit_event audit_content get_audit_event insert_audit latest_audit_hash sealed
    cursor_text seen_nonce create_event get_event_by_id insert_event any_applies grant_applies
    grant_matches has_active_capability_grant list_capability_grants get_operator_session
    update_operator_session_state content_hash iso_lt new_id new_token fetch list_where update_where
    insert_row order_by select update
handed-Returns = record { run = refl }

return_tua_control_example : TuaReturned toy settings by_phone "done" "tua_1" helped handed_back
return_tua_control_example =
    return_tua_control-TuaReturned toy settings by_phone "tua_1" "done" handed-Returns

abbrev noted_state : Store
noted_state = (add_browser_assistance_event toy settings by_phone "bas_1" "clicked" helped).1

noted-Returns :
    Returns
      (add_browser_assistance_event toy settings by_phone "bas_1" "clicked")
      helped
      (result_of browsing
        (add_browser_assistance_event toy settings by_phone "bas_1" "clicked" helped).0)
      noted_state
unfolding add_browser_assistance_event ◌>>=◌ verify_signed_request request_id pure guard_or
    has_headers known_device gets on_option find? parsed_timestamp now_utc signature_verifies
    record_request_nonce exists has_key get_browser_session_or_404 announce audit_subject
    require_capability update_operator_session_if_exists audit_capability_denial
    require_device_capability modify on_key_error or_key_error raise require suppress_key_error
    audit_auth_failure b64decode_padded canonical canonical_request path_with_query reject
    append_audit_event audit_content get_audit_event insert_audit latest_audit_hash sealed
    add_browser_assistance_note get_browser_assistance_session cursor_text seen_nonce create_event
    get_event_by_id insert_event any_applies grant_applies grant_matches has_active_capability_grant
    list_capability_grants get_operator_session update_operator_session_state content_hash iso_lt
    new_id new_token fetch list_where update_where insert_row order_by select update
noted-Returns = record { run = refl }

add_browser_event_example : BrowserNoted toy settings by_phone "clicked" "bas_1" helped noted_state
add_browser_event_example =
    add_browser_assistance_event-BrowserNoted toy settings by_phone "bas_1" "clicked" noted-Returns

abbrev silent : Store
silent = (close_voice_session toy settings by_phone "voice_1" helped).1

silent-Returns :
    Returns
      (close_voice_session toy settings by_phone "voice_1")
      helped
      (result_of
        (record { row = speaking; messages = [] })
        (close_voice_session toy settings by_phone "voice_1" helped).0)
      silent
unfolding close_voice_session ◌>>=◌ verify_signed_request request_id pure guard_or has_headers
    known_device gets on_option find? parsed_timestamp now_utc signature_verifies
    record_request_nonce exists has_key get_voice_session_or_404 announce audit_subject
    require_capability update_operator_session_if_exists audit_capability_denial
    require_device_capability modify on_key_error or_key_error raise require suppress_key_error
    audit_auth_failure b64decode_padded canonical canonical_request path_with_query reject
    append_audit_event audit_content get_audit_event insert_audit latest_audit_hash sealed
    cursor_text seen_nonce create_event get_event_by_id insert_event any_applies grant_applies
    grant_matches has_active_capability_grant list_capability_grants get_operator_session
    update_operator_session_state content_hash iso_lt new_id new_token fetch list_where update_where
    closing_time get_voice_session list_voice_messages update_voice_session_state insert_row
    order_by select update
silent-Returns = record { run = refl }

close_voice_session_example : VoiceClosed toy settings by_phone "voice_1" helped silent
close_voice_session_example =
    close_voice_session-VoiceClosed toy settings by_phone "voice_1" silent-Returns

abbrev reviewed : Store
reviewed = (return_browser_assistance_control toy settings by_phone "bas_1" "solved" helped).1

reviewed-Returns :
    Returns
      (return_browser_assistance_control toy settings by_phone "bas_1" "solved")
      helped
      (result_of browsing
        (return_browser_assistance_control toy settings by_phone "bas_1" "solved" helped).0)
      reviewed
unfolding return_browser_assistance_control ◌>>=◌ verify_signed_request request_id pure guard_or
    has_headers known_device gets on_option find? parsed_timestamp now_utc signature_verifies
    record_request_nonce exists has_key get_browser_session_or_404 announce audit_subject
    require_capability update_operator_session_if_exists audit_capability_denial
    require_device_capability modify on_key_error or_key_error raise require suppress_key_error
    audit_auth_failure b64decode_padded canonical canonical_request path_with_query reject
    append_audit_event audit_content get_audit_event insert_audit latest_audit_hash sealed
    browser_moved get_browser_assistance_session update_browser_assistance_state cursor_text
    seen_nonce create_event get_event_by_id insert_event any_applies grant_applies grant_matches
    has_active_capability_grant list_capability_grants get_operator_session
    update_operator_session_state content_hash iso_lt new_id new_token fetch list_where update_where
    insert_row order_by select update
reviewed-Returns = record { run = refl }

browser_wait_ends_example :
    (result : HandoffResult) × (check_handoff "browser_review" "bas_1" reviewed
      ≡ (ok result, reviewed))
    × (result.handoff_ref ≡ "bas_1")
    × (result.return_summary ≡ some "solved")
    × (browser_done result ≡ true)
browser_wait_ends_example =
    browser_wait_ends toy settings by_phone "bas_1" "solved" reviewed-Returns

abbrev poll : HandoffResult
poll =
    result_of (record { handoff_ref = ""; state = ""; return_summary = none; messages = [] })
      (check_handoff "operator_guidance" "tua_req_1" helped).0

poll-Returns : Returns (check_handoff "operator_guidance" "tua_req_1") helped poll helped
unfolding check_handoff ◌>>=◌ tua_result get_assistance_request_or_404 on_key_error
    get_assistance_request fetch gets or_key_error find? list_assistance_sessions list_where
    with_messages order_by select list_assistance_messages pure get_browser_session_or_404
    get_voice_session_or_404 raise get_browser_assistance_session iso_lt get_voice_session
    list_voice_messages insert_row
poll-Returns = record { run = refl }

guidance_keeps_waiting_example : assistance_done poll ≡ false
unfolding check_handoff ◌>>=◌ tua_result get_assistance_request_or_404 on_key_error
    get_assistance_request fetch gets or_key_error find? list_assistance_sessions list_where
    with_messages order_by select list_assistance_messages pure
guidance_keeps_waiting_example = guidance_keeps_waiting "tua_req_1" (inr refl, tt) poll-Returns refl

abbrev help_script : List (HttpRequest × Call)
help_script =
    (signed_by "dev" "n1", Call.session_call (SessionCall.close_tua_session "tua_1"))
    ∷ (
      signed_by "dev" "n2",
      Call.session_call (SessionCall.add_browser_assistance_event "bas_1" "x"),
    )
    ∷ []

assistance_session_lasts_example :
    (p : AssistanceSessionRow) × (row_at assistance_sessions "tua_1"
        (serve toy settings help_script helped)
      ≡ some p)
    × AssistanceContinues helping p
unfolding find?
assistance_session_lasts_example =
    assistance_session_lasts toy settings help_script helped tt "tua_1" helping refl

browser_session_lasts_example :
    (p : BrowserSessionRow) × (row_at browser_sessions "bas_1"
        (serve toy settings help_script helped)
      ≡ some p)
    × BrowserContinues browsing p
unfolding find?
browser_session_lasts_example =
    browser_session_lasts toy settings help_script helped tt "bas_1" browsing refl

never_end_example : All IsWaiting (serve toy settings help_script helped).assistance_requests
never_end_example = assistance_requests_never_end toy settings help_script helped tt (inr refl, tt)
