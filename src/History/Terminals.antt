-- ===== src/History/Terminals.antt =====
-- Terminal sessions keep the history: their tables are none of those that it speaks of.
use agentic_control_tower.Prelude.{refl, ℕ, String, Option, none, some, List}
use agentic_control_tower.World.{World, ℤ, Spawn, started, refused, crashed}
use agentic_control_tower.Exec.{raise, http, ◌>>◌}
use agentic_control_tower.Exec.Along.{Along}
use agentic_control_tower.Store.SessionRows.{TuiSessionRow, AttachTokenRow}
use agentic_control_tower.Store.State.{Settings}
use agentic_control_tower.Store.Agents.{get_node, get_agent}
use agentic_control_tower.Store.Sql.{insert, update_where}
use agentic_control_tower.Store.Sql.Laws.{Along-fetch, Along-list_where}
use agentic_control_tower.Store.Tui
use agentic_control_tower.Store.Tui.{
  tui_sessions, tui_attach_tokens, count_open_tui_sessions, update_tui_session_state,
  touch_tui_session, add_tui_audit_ref, verify_tui_attach_token, mark_used,
}
use agentic_control_tower.Capabilities.{VerifiedDevice}
use agentic_control_tower.Signing.{HttpRequest}
use agentic_control_tower.Tui.{
  TuiRequest, validate_tui_request, require_tui_capability, owned_tui_session, attach, detach,
  close, write, resize, close_if_idle, cleanup_idle_sessions, record_tui_state_change,
  audit_tui_io_metadata, end_session, output_ended,
}
use agentic_control_tower.Tui.Endpoints
use agentic_control_tower.Tui.Endpoints.{
  TuiPayload, Frame, start_runtime, accept_stream, accept_token, open_stream, handle_tui_frame,
}
use agentic_control_tower.History.{History}
use agentic_control_tower.History.Primitives.{clock_rules}
use agentic_control_tower.History.Tables.{IsOther, insert-History, update-History}
use agentic_control_tower.History.Callers.{endpoint_rules}
use agentic_control_tower.History.Sessions.{create_operator_session-History}
use agentic_control_tower.History.Assistance.{mirror-History, require_capability-History}

tui_sessions-IsOther : IsOther tui_sessions
tui_sessions-IsOther = record {
  same = λ s rows. record {
    approvals = refl;
    audit = refl;
    nonces = refl;
    devices = refl;
    requests = refl;
    assistance = refl;
    browser = refl;
    voice = refl;
  };
}

tui_attach_tokens-IsOther : IsOther tui_attach_tokens
tui_attach_tokens-IsOther = record {
  same = λ s rows. record {
    approvals = refl;
    audit = refl;
    nonces = refl;
    devices = refl;
    requests = refl;
    assistance = refl;
    browser = refl;
    voice = refl;
  };
}

module _ (w : World) where
  sessions_insert-History : (q : TuiSessionRow) → Along (History w) (insert tui_sessions q)
  sessions_insert-History q = insert-History w tui_sessions tui_sessions-IsOther q

  sessions_update-History :
      (id : String) (f : TuiSessionRow → TuiSessionRow)
      → Along (History w) (update_where tui_sessions id f)
  sessions_update-History id f = update-History w tui_sessions tui_sessions-IsOther id f

  tokens_insert-History : (a : AttachTokenRow) → Along (History w) (insert tui_attach_tokens a)
  tokens_insert-History a = insert-History w tui_attach_tokens tui_attach_tokens-IsOther a

  tokens_update-History :
      (id : String) (f : AttachTokenRow → AttachTokenRow)
      → Along (History w) (update_where tui_attach_tokens id f)
  tokens_update-History id f = update-History w tui_attach_tokens tui_attach_tokens-IsOther id f

ruleset table_rules = (
  clock_rules, Along-fetch, Along-list_where, sessions_insert-History, sessions_update-History,
  tokens_insert-History, tokens_update-History,
)

module _ (w : World) where
  insert_session-History : (q : TuiSessionRow) → Along (History w) (Tui.create_tui_session w q)
  unfolding Tui.create_tui_session Tui.get_tui_session
  insert_session-History q = search table_rules depth 14

  update_state-History :
      (id state : String) → Along (History w) (update_tui_session_state w id state)
  unfolding update_tui_session_state Tui.get_tui_session
  update_state-History id state = search table_rules depth 14

  touch-History : (id : String) → Along (History w) (touch_tui_session w id)
  unfolding touch_tui_session Tui.get_tui_session
  touch-History id = search table_rules depth 14

  insert_token-History :
      (token id device : String) (ttl : ℤ)
      → Along (History w) (Tui.create_tui_attach_token w token id device ttl)
  unfolding Tui.create_tui_attach_token
  insert_token-History token id device ttl = search table_rules depth 14

  mark_used-History : (a : AttachTokenRow) → Along (History w) (mark_used w a)
  unfolding mark_used
  mark_used-History a = search table_rules depth 14

  verify_token-History : (token : String) → Along (History w) (verify_tui_attach_token w token)
  unfolding verify_tui_attach_token
  verify_token-History token = search (clock_rules, mark_used-History) depth 10

  audit_ref-History : (id event : String) → Along (History w) (add_tui_audit_ref id event)
  unfolding add_tui_audit_ref Tui.get_tui_session
  audit_ref-History id event = search table_rules depth 14

  listed-History :
      (device state : Option String) → Along (History w) (Tui.list_tui_sessions device state)
  unfolding Tui.list_tui_sessions
  listed-History device state = search table_rules depth 14

  count-History : Along (History w) count_open_tui_sessions
  unfolding count_open_tui_sessions
  count-History = search clock_rules

  validated-History :
      (settings : Settings) (command directory : Option String)
      → Along (History w) (validate_tui_request w settings command directory)
  unfolding validate_tui_request
  validated-History settings command directory = search clock_rules depth 16

  capability-History :
      (of_node of_agent : String) → Along (History w) (require_tui_capability w of_node of_agent)
  unfolding require_tui_capability get_node get_agent
  capability-History of_node of_agent = search (clock_rules, Along-fetch) depth 14

  owned-History :
      (id : String) (dev : VerifiedDevice) → Along (History w) (owned_tui_session id dev)
  unfolding owned_tui_session Tui.get_tui_session
  owned-History id dev = search table_rules depth 12

ruleset tui_rules = (
  endpoint_rules, insert_session-History, update_state-History, touch-History, insert_token-History,
  verify_token-History, audit_ref-History, listed-History, count-History, validated-History,
  capability-History, owned-History, mirror-History, create_operator_session-History,
  require_capability-History, Along-fetch,
)

module _ (w : World) where
  attach-History : (id : String) → Along (History w) (attach w id)
  unfolding attach
  attach-History id = search tui_rules depth 14

  detach-History : (id : String) → Along (History w) (detach w id)
  unfolding detach
  detach-History id = search tui_rules depth 14

  close-History : (id : String) → Along (History w) (close w id)
  unfolding close
  close-History id = search tui_rules depth 14

  write-History : (id text : String) → Along (History w) (write w id text)
  unfolding write
  write-History id text = search tui_rules depth 14

  resize-History : (id : String) (rows cols : ℕ) → Along (History w) (resize w id rows cols)
  unfolding resize
  resize-History id rows cols = search tui_rules depth 14

  close_if_idle-History :
      (settings : Settings) (now : ℕ) (q : TuiSessionRow)
      → Along (History w) (close_if_idle w settings now q)
  unfolding close_if_idle
  close_if_idle-History settings now q = search (clock_rules, close-History) depth 14

  cleanup-History : (settings : Settings) → Along (History w) (cleanup_idle_sessions w settings)
  unfolding cleanup_idle_sessions
  cleanup-History settings = search (tui_rules, close_if_idle-History) depth 14

  state_change-History :
      (id type request device : String)
      → Along (History w) (record_tui_state_change w id type request device)
  unfolding record_tui_state_change
  state_change-History id type request device = search tui_rules depth 18

  io-History :
      (id device type text : String) (warnings : List String)
      → Along (History w) (audit_tui_io_metadata w id device type text warnings)
  unfolding audit_tui_io_metadata Tui.get_tui_session
  io-History id device type text warnings = search tui_rules depth 18

  start-History : (id : String) (q : TuiRequest) → Along (History w) (start_runtime w id q)
  unfolding start_runtime
  start-History id q = by_spawn (w.spawn id q.command q.working_directory)
    where
      by_spawn :
          (o : Spawn)
          → Along (History w) (elim o [
            | started ↦ update_tui_session_state w id "active"
            | refused code detail ↦ do
              update_tui_session_state w id "failed"
              raise (http code detail)
            | crashed ↦ do
              update_tui_session_state w id "failed"
              raise (http 500 "TUI session failed to start")
          ])
      by_spawn started = search tui_rules
      by_spawn (refused code detail) = search tui_rules
      by_spawn crashed = search tui_rules

  accept-History :
      (id : String) (token : AttachTokenRow) (q : TuiSessionRow)
      → Along (History w) (accept_stream w id token q)
  unfolding accept_stream
  accept-History id token q = search (tui_rules, attach-History) depth 14

  accept_token-History :
      (id : String) (token : AttachTokenRow) → Along (History w) (accept_token w id token)
  unfolding accept_token
  accept_token-History id token = search (clock_rules, accept-History) depth 14

  pub stream-History :
      (id : String) (token : Option String) → Along (History w) (open_stream w id token)
  unfolding open_stream
  stream-History id none = search clock_rules
  stream-History id (some token) = search (tui_rules, accept_token-History) depth 12

  end_session-History : (id : String) (q : TuiSessionRow) → Along (History w) (end_session w id q)
  unfolding end_session
  end_session-History id q = search tui_rules depth 10

  pub output_ended-History : (id : String) → Along (History w) (output_ended w id)
  unfolding output_ended
  output_ended-History id = search (clock_rules, end_session-History) depth 10

  pub frame-History :
      (id device : String) (f : Frame) → Along (History w) (handle_tui_frame w id device f)
  unfolding handle_tui_frame
  frame-History id device Frame.ping = search tui_rules
  frame-History id device (Frame.resize_to rows cols) = search (tui_rules, resize-History) depth 8
  frame-History id device (Frame.input text) = search (tui_rules, write-History, io-History) depth 8
  frame-History id device (Frame.paste text) = search (tui_rules, write-History, io-History) depth 8
  frame-History id device Frame.detach_frame =
      search (tui_rules, detach-History, state_change-History) depth 10
  frame-History id device Frame.close_frame =
      search (tui_rules, close-History, state_change-History) depth 10

ruleset terminal_rules =
    (tui_rules, cleanup-History, start-History, detach-History, close-History, state_change-History)

module _ (w : World) (settings : Settings) (r : HttpRequest) where
  pub create_tui_session-History :
      (x : TuiPayload) → Along (History w) (Endpoints.create_tui_session w settings r x)
  unfolding Endpoints.create_tui_session
  create_tui_session-History x = search terminal_rules depth 30

  pub create_tui_attach_token-History :
      (x : String) → Along (History w) (Endpoints.create_tui_attach_token w settings r x)
  unfolding Endpoints.create_tui_attach_token
  create_tui_attach_token-History x = search terminal_rules depth 30

  pub list_tui_sessions-History :
      (x : Option String) → Along (History w) (Endpoints.list_tui_sessions w settings r x)
  unfolding Endpoints.list_tui_sessions
  list_tui_sessions-History x = search terminal_rules depth 30

  pub get_tui_session-History :
      (x : String) → Along (History w) (Endpoints.get_tui_session w settings r x)
  unfolding Endpoints.get_tui_session
  get_tui_session-History x = search terminal_rules depth 30

  pub detach_tui_session-History :
      (x : String) → Along (History w) (Endpoints.detach_tui_session w settings r x)
  unfolding Endpoints.detach_tui_session
  detach_tui_session-History x = search terminal_rules depth 30

  pub close_tui_session-History :
      (x : String) → Along (History w) (Endpoints.close_tui_session w settings r x)
  unfolding Endpoints.close_tui_session
  close_tui_session-History x = search terminal_rules depth 30
