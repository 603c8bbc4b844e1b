-- ===== src/History/Runs.antt =====
-- What holds after any run of calls, with any clock, any random texts and any results of the
-- signature check: every call keeps the history.
pub mod Claims
pub mod Lockout
use agentic_control_tower.Prelude.{
  ◌≡◌, refl, Bool-cases, inl, inr, true, ℕ, String, Bool, Option, none, some, List, [], ◌∷◌,
  if◌then◌else◌,
}
use agentic_control_tower.World.{World, ℤ}
use agentic_control_tower.Exec.{Exec, forget, pure, ◌>>=◌}
use agentic_control_tower.Exec.Along.{
  Preorder, Along, along_rules, Along-pure, Along-bind, bind-from,
}
use agentic_control_tower.Table.{Unique}
use agentic_control_tower.Store.Rows.{
  ApprovalState, cancelled, ApprovalRow, is_pending, ResponseRow,
}
use agentic_control_tower.Store.State.{Store, Action, Settings}
use agentic_control_tower.Store.Approvals.{
  approvals, Approval, approval_from_row, get_approval, list_approvals,
}
use agentic_control_tower.Store.Sql.{row_at}
use agentic_control_tower.Store.Responses.{list_approval_responses}
use agentic_control_tower.Store.Sql.Laws.{Along-fetch, Along-list_where}
use agentic_control_tower.Signing.{HttpRequest, request_id, verify_signed_request}
use agentic_control_tower.LocalBinding.{verify_hermes_local_request}
use agentic_control_tower.Approvals.{
  get_approval_or_404, expire_pending_approvals, scan, close_approval,
}
use agentic_control_tower.Approvals.Endpoints
use agentic_control_tower.Approvals.Endpoints.{
  hermes_approval_status, list_all_approvals, read_approval, ToolPayload,
}
use agentic_control_tower.Runtime
use agentic_control_tower.Runtime.{
  set_agent_runtime_state, approval_result, check_clearance, cancel_if_pending, cancel_clearance,
  request_approval, runtime_approval_requested, runtime_approval_result, runtime_cancel_approval,
}
use agentic_control_tower.Calls
use agentic_control_tower.Calls.{Call, handle, serve}
use agentic_control_tower.History.{History, History-preorder}
use agentic_control_tower.History.Primitives.{append_audit_event-History, clock_rules}
use agentic_control_tower.History.Stores.{create_event-History, create_approval-History}
use agentic_control_tower.History.Tables.{upsert_agent-History, list_approval_responses-History}
use agentic_control_tower.History.Guarded.{
  IsOpen, IsOpen-at, close_approval-from, get_approval_or_404-lem,
}
use agentic_control_tower.History.Sessions.{set_agent-History}
use agentic_control_tower.History.SessionCalls.{handle_session-History}
use agentic_control_tower.History.Scan.{scan-History}
use agentic_control_tower.History.Callers.{
  request_id-History, verify_signed_request-History, verify_hermes_local_request-History,
}
use agentic_control_tower.History.Endpoints.{
  get_approval_or_404-History, action_id_of-History, create_approval_endpoint-History,
  hermes_approval_requested-History, decide_approval-History, approve_once-History,
  deny_approval-History, expire_approval-History, cancel_approval-History, create_response-History,
}
use agentic_control_tower.History.Contexts.{
  runtime_register_context-History, list_sessions-History, get_session-History, activity-History,
  list_missions-History, get_mission-History,
}
use agentic_control_tower.History.Callers.{endpoint_rules}
use agentic_control_tower.History.Pairings.{
  start_pairing-History, get_pairing-History, complete_pairing-History, refresh_tokens-History,
  revoke-History,
}
use agentic_control_tower.History.Notices.{
  mobile_notify-History, runtime_notification-History, list_events-History,
}

-- From a state with unique approval keys.
pub record Sound (w : World) (s t : Store) : Type 0 where
  pub history : Unique approvals.key s.approval_requests → History w s t

module _ (w : World) where
  pub Sound-preorder : Preorder (Sound w)
  Sound-preorder = record {
    same = λ s. record { history = λ _. (History-preorder w).same s };
    join = λ s t u f g. record {
      history =
          λ x. (History-preorder w).join s t u (f.history x) (g.history ((f.history x).unique x));
    };
  }

  pub lift : {A : Type 0} {m : Action A} → Along (History w) m → Along (Sound w) m
  lift h = record { at = λ s. record { history = λ _. h.at s } }

  scan-Sound : (reason : String) → Along (Sound w) (scan w reason)
  scan-Sound reason = record { at = λ s. record { history = scan-History w reason s } }

  expire_pending_approvals-Sound : Along (Sound w) (expire_pending_approvals w)
  unfolding expire_pending_approvals
  expire_pending_approvals-Sound = scan-Sound "expiry_scan"

  get_approval_or_404-Sound : (id : String) → Along (Sound w) (get_approval_or_404 w id)
  get_approval_or_404-Sound id = lift (get_approval_or_404-History w id)

  list_responses-Sound : (id : String) → Along (Sound w) (list_approval_responses id)
  list_responses-Sound id = lift (list_approval_responses-History w id)

  list_approvals-Sound : (state : Option ApprovalState) → Along (Sound w) (list_approvals state)
  unfolding list_approvals
  list_approvals-Sound state = search (along_rules, Sound-preorder, Along-list_where)

  approval_result-Sound : (id : String) → Along (Sound w) (approval_result w id)
  unfolding approval_result
  approval_result-Sound id =
      search
        (along_rules, Sound-preorder, scan-Sound, get_approval_or_404-Sound, list_responses-Sound)
        depth 8

  check_clearance-Sound : (id : String) → Along (Sound w) (check_clearance w id)
  unfolding check_clearance
  check_clearance-Sound id = search (along_rules, Sound-preorder, approval_result-Sound)

  cancel_if_pending-from :
      (a : Approval) (id actor : String) (s : Store)
      → (is_pending a.state ≡ true → IsOpen (row_at approvals a.approval_id s))
      → History w s (cancel_if_pending w a id actor s).1
  unfolding cancel_if_pending
  cancel_if_pending-from a id actor s opens = elim (Bool-cases (is_pending a.state)) [
    | inl e ↦ rw e (
        close_approval-from w a cancelled "runtime_cancelled" "hermes" actor id s s (λ n. tt)
          ((History-preorder w).same s) (opens e))
    | inr e ↦ rw e ((Along-pure (History-preorder w) tt).at s)
  ]

  cancel_approval-Sound :
      (id request_id actor : String)
      → Along (Sound w) (Runtime.cancel_approval w id request_id actor)
  unfolding Runtime.cancel_approval ◌>>=◌
  cancel_approval-Sound id request_id actor = record {
    at = λ s. by_row s (row_at approvals id s) refl;
  }
    where
      by_row :
          (s : Store) (o : Option ApprovalRow)
          → row_at approvals id s ≡ o
          → Sound w s (Runtime.cancel_approval w id request_id actor s).1
      by_row s none e = rw get_approval_or_404-lem (rw e (Sound-preorder.same s))
      by_row s (some r) e = rw get_approval_or_404-lem (
          rw e (
            bind-from Sound-preorder (cancel_if_pending w (approval_from_row r) request_id actor) _
              s s
              (record {
                history = λ _.
                    cancel_if_pending-from (approval_from_row r) request_id actor s
                      (IsOpen-at id s r e);
              })
              (λ _. approval_result-Sound id)))

  cancel_clearance-Sound :
      (id request_id actor : String) → Along (Sound w) (cancel_clearance w id request_id actor)
  unfolding cancel_clearance
  cancel_clearance-Sound id request_id actor =
      search (along_rules, Sound-preorder, cancel_approval-Sound, check_clearance-Sound)

module _ (w : World) (settings : Settings) (r : HttpRequest) where
  request_approval-History :
      (id : String) (p : ToolPayload) → Along (History w) (request_approval w settings r id p)
  unfolding request_approval
  request_approval-History id p =
      search (endpoint_rules, action_id_of-History, create_approval-History, set_agent-History)
        depth 14

  runtime_approval_requested-History :
      (p : ToolPayload) → Along (History w) (runtime_approval_requested w settings r p)
  unfolding runtime_approval_requested
  runtime_approval_requested-History p = search (endpoint_rules, request_approval-History) depth 8

  caller-Sound : Along (Sound w) (verify_hermes_local_request w settings r)
  caller-Sound = lift w (verify_hermes_local_request-History w settings r)

  signed-Sound : Along (Sound w) (verify_signed_request w settings r)
  signed-Sound = lift w (verify_signed_request-History w settings r)

  id-Sound : Along (Sound w) (request_id w r)
  id-Sound = lift w (request_id-History w r)

  ruleset sound_rules = (
    along_rules, Sound-preorder, caller-Sound, signed-Sound, id-Sound,
    expire_pending_approvals-Sound, get_approval_or_404-Sound,
  )

  status-Sound : (id : String) → Along (Sound w) (hermes_approval_status w settings r id)
  unfolding hermes_approval_status
  status-Sound id = search sound_rules depth 8

  list-Sound :
      (state : Option ApprovalState) → Along (Sound w) (list_all_approvals w settings r state)
  unfolding list_all_approvals
  list-Sound state = search (sound_rules, list_approvals-Sound) depth 8

  read-Sound : (id : String) → Along (Sound w) (read_approval w settings r id)
  unfolding read_approval
  read-Sound id = search sound_rules depth 8

  result-Sound : (id : String) → Along (Sound w) (runtime_approval_result w settings r id)
  unfolding runtime_approval_result
  result-Sound id = search (sound_rules, check_clearance-Sound) depth 8

  cancel-Sound : (id : String) → Along (Sound w) (runtime_cancel_approval w settings r id)
  unfolding runtime_cancel_approval
  cancel-Sound id = search (sound_rules, cancel_clearance-Sound) depth 8

  forget-Sound : {A : Type 0} {m : Action A} → Along (Sound w) m → Along (Sound w) (forget m)
  forget-Sound {m} h =
      Along-bind (Sound-preorder w) m (λ _. pure tt) h λ _. Along-pure (Sound-preorder w) tt

  kept : {A : Type 0} {m : Action A} → Along (History w) m → Along (Sound w) (forget m)
  kept h = forget-Sound (lift w h)

  pub handle-Sound : (call : Call) → Along (Sound w) (handle w settings r call)
  unfolding handle
  handle-Sound (Call.create_approval p) = kept (create_approval_endpoint-History w settings r p)
  handle-Sound (Call.hermes_approval_requested p) =
      kept (hermes_approval_requested-History w settings r p)
  handle-Sound (Call.hermes_approval_status id) = forget-Sound (status-Sound id)
  handle-Sound (Call.list_approvals state) = forget-Sound (list-Sound state)
  handle-Sound (Call.get_approval id) = forget-Sound (read-Sound id)
  handle-Sound (Call.decide_approval id approve scope) =
      kept (decide_approval-History w settings r id approve scope)
  handle-Sound (Call.approve_once id) = kept (approve_once-History w settings r id)
  handle-Sound (Call.deny_approval id) = kept (deny_approval-History w settings r id)
  handle-Sound (Call.expire_approval id) = kept (expire_approval-History w settings r id)
  handle-Sound (Call.cancel_approval id) = kept (cancel_approval-History w settings r id)
  handle-Sound (Call.create_approval_response id p) =
      kept (create_response-History w settings r id p)
  handle-Sound (Call.start_pairing name permissions ttl) =
      kept (start_pairing-History w settings r name permissions ttl)
  handle-Sound (Call.get_pairing id) = kept (get_pairing-History w settings r id)
  handle-Sound (Call.complete_pairing p) = kept (complete_pairing-History w settings r p)
  handle-Sound (Call.refresh_token token) = kept (refresh_tokens-History w settings r token)
  handle-Sound (Call.revoke_device id) = kept (revoke-History w settings r id)
  handle-Sound (Call.mobile_notify p) = kept (mobile_notify-History w settings r p)
  handle-Sound (Call.runtime_notification p) = kept (runtime_notification-History w settings r p)
  handle-Sound (Call.runtime_approval_requested p) = kept (runtime_approval_requested-History p)
  handle-Sound (Call.runtime_approval_result id) = forget-Sound (result-Sound id)
  handle-Sound (Call.runtime_cancel_approval id) = forget-Sound (cancel-Sound id)
  handle-Sound (Call.runtime_register_context p) =
      kept (runtime_register_context-History w settings r p)
  handle-Sound (Call.list_sessions node agent) =
      kept (list_sessions-History w settings r node agent)
  handle-Sound (Call.get_session id node) = kept (get_session-History w settings r id node)
  handle-Sound (Call.get_session_activity id node) = kept (activity-History w settings r id node)
  handle-Sound (Call.list_missions node agent) =
      kept (list_missions-History w settings r node agent)
  handle-Sound (Call.get_mission id) = kept (get_mission-History w settings r id)
  handle-Sound (Call.list_events after limit) = kept (list_events-History w settings r after limit)
  handle-Sound (Call.session_call call) = lift w (handle_session-History w settings r call)

module _ (w : World) (settings : Settings) where
  pub serve-Sound :
      (calls : List (HttpRequest × Call)) (s : Store) → Sound w s (serve w settings calls s)
  unfolding serve
  serve-Sound [] s = (Sound-preorder w).same s
  serve-Sound ((r, call) ∷ rest) s =
      (Sound-preorder w).join s (handle w settings r call s).1 _
        ((handle-Sound w settings r call).at s) (serve-Sound rest (handle w settings r call s).1)
