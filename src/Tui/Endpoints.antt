-- ===== src/Tui/Endpoints.antt =====
-- The endpoints of terminal sessions in app.py, the opening of a stream and the frames that come over
-- it.
use agentic_control_tower.Prelude.{
  ℕ, String, Bool, true, false, Option, none, some, List, [], ◌∷◌, ◌==◌, ◌&&◌, not, ltb, or_else,
  if◌then◌else◌,
}
use agentic_control_tower.World.{World, started, refused, crashed}
use agentic_control_tower.Json.{dict, str, opt}
use agentic_control_tower.Exec.{pure, raise, gets, require, http, on_option, ◌>>=◌, ◌>>◌}
use agentic_control_tower.Store.SessionRows.{TuiSessionRow, AttachTokenRow}
use agentic_control_tower.Store.State.{Action, Settings}
use agentic_control_tower.Store.Security.{new_id, new_token, utc_iso}
use agentic_control_tower.Store.Audit.{append_audit_event, no_refs}
use agentic_control_tower.Store.Events.{create_event}
use agentic_control_tower.Store.Sql.{row_at}
use agentic_control_tower.Store.Operators.{create_operator_session}
use agentic_control_tower.Store.Tui
use agentic_control_tower.Store.Tui.{
  tui_sessions, is_ended, AttachToken, count_open_tui_sessions, update_tui_session_state,
  add_tui_audit_ref, verify_tui_attach_token,
}
use agentic_control_tower.Signing.{HttpRequest, request_id, verify_signed_request}
use agentic_control_tower.Assistance.{require_capability}
use agentic_control_tower.Tui.{
  TuiRequest, validate_tui_request, tui_risk_label, require_tui_capability, owned_tui_session,
  attach, detach, close, write, resize, cleanup_idle_sessions, record_tui_state_change,
  audit_tui_io_metadata, paste_risk_warnings,
}

-- CreateTuiSessionRequest
pub record TuiPayload : Type 0 where
  pub agent_id : String
  pub node_id : Option String
  pub session_context_id : Option String
  pub command : Option String
  pub working_directory : Option String
  pub risk_level : String

abbrev pub requested_tui :
    Settings → String → String → String → TuiPayload → TuiRequest → TuiSessionRow
requested_tui settings session_id node_id device_id p q = record {
  session_id = session_id;
  agent_id = p.agent_id;
  node_id = node_id;
  user_device_id = device_id;
  state = "requested";
  command = q.command;
  working_directory = q.working_directory;
  risk_level = p.risk_level;
  risk_label = tui_risk_label p.risk_level;
  output_retention_enabled = settings.tui_output_retention_enabled;
  audit_refs = [];
  created_at = 0;
  last_activity_at = 0;
  closed_at = none;
}

-- The frames that `validate_tui_frame` lets through, with the fields that `_handle_tui_frame` reads.
pub data Frame : Type 0 where
  ping : Frame
  resize_to : ℕ → ℕ → Frame
  input : String → Frame
  paste : String → Frame
  detach_frame : Frame
  close_frame : Frame

module _ (w : World) where
  -- The session goes to active, or to failed, and then the exception is raised.
  unfoldable pub start_runtime : String → TuiRequest → Action TuiSessionRow
  start_runtime session_id q = elim (w.spawn session_id q.command q.working_directory) [
    | started ↦ update_tui_session_state w session_id "active"
    | refused code detail ↦ do
      update_tui_session_state w session_id "failed"
      raise (http code detail)
    | crashed ↦ do
      update_tui_session_state w session_id "failed"
      raise (http 500 "TUI session failed to start")
  ]

  -- Whether the stream is accepted, for the session and the token of the query.
  unfoldable pub accept_stream : String → AttachTokenRow → TuiSessionRow → Action Bool
  accept_stream session_id token q = do
    running ← gets (λ s. w.is_running s.reads session_id)
    if token.session_id == session_id
          && q.user_device_id == token.device_id
          && not (is_ended q.state)
          && running
        then (do attach w session_id; pure true)
        else pure false

  unfoldable pub accept_token : String → AttachTokenRow → Action Bool
  accept_token session_id token = do
    found ← gets (λ s. row_at tui_sessions session_id s)
    on_option found (pure false) (accept_stream session_id token)

  unfoldable pub open_stream : String → Option String → Action Bool
  open_stream session_id none = pure false
  open_stream session_id (some text) = if text == "" then pure false else (do
    token ← verify_tui_attach_token w text
    on_option token (pure false) (accept_token session_id))

  -- Whether the stream ends with the frame.
  unfoldable pub handle_tui_frame : String → String → Frame → Action Bool
  handle_tui_frame session_id device_id ping = pure false
  handle_tui_frame session_id device_id (resize_to rows cols) = do
    resize w session_id rows cols
    pure false
  handle_tui_frame session_id device_id (input text) = do
    write w session_id text
    audit_tui_io_metadata w session_id device_id "tui_input_sent" text []
    pure false
  handle_tui_frame session_id device_id (paste text) = do
    write w session_id text
    audit_tui_io_metadata w session_id device_id "tui_paste_sent" text (paste_risk_warnings w text)
    pure false
  handle_tui_frame session_id device_id detach_frame = do
    detach w session_id
    id ← new_id w "req"
    record_tui_state_change w session_id "tui_session_detached" id device_id
    pure true
  handle_tui_frame session_id device_id close_frame = do
    close w session_id
    id ← new_id w "req"
    record_tui_state_change w session_id "tui_session_closed" id device_id
    pure true

module _ (w : World) (settings : Settings) (r : HttpRequest) where
  unfoldable pub create_tui_session : TuiPayload → Action TuiSessionRow
  create_tui_session p = do
    dev ← verify_signed_request w settings r
    let node_id = or_else p.node_id settings.node_id
    require_capability w settings r dev "tui" (some node_id) (some p.agent_id)
    cleanup_idle_sessions w settings
    count ← count_open_tui_sessions
    require (ltb count settings.tui_max_sessions) (http 429 "TUI session limit reached")
    q ← validate_tui_request w settings p.command p.working_directory
    session_id ← new_id w "tui"
    require_tui_capability w node_id p.agent_id
    Tui.create_tui_session w (requested_tui settings session_id node_id dev.device_id p q)
    start_runtime w session_id q
    id ← request_id w r
    audit ←
        append_audit_event w "tui_session_created" "device" dev.device_id node_id id
          (dict (
            ("command", str q.command)
            ∷ ("working_directory", str q.working_directory)
            ∷ ("risk_level", str p.risk_level)
            ∷ ("hermes_session_id", opt p.session_context_id)
            ∷ []))
          (record no_refs { agent_id = some p.agent_id; session_id = some session_id })
    session ← add_tui_audit_ref session_id audit.audit_event_id
    create_operator_session w (record {
      session_id = session_id;
      session_type = "tui";
      agent_id = p.agent_id;
      mission_id = none;
      state = session.state;
      owner_device_id = some dev.device_id;
      capability_requirements = "tui" ∷ [];
      context = dict (
          ("hermes_session_id", opt p.session_context_id)
          ∷ ("command", str q.command)
          ∷ ("working_directory", str q.working_directory)
          ∷ ("risk_level", str p.risk_level)
          ∷ []);
    })
    create_event w node_id "tui.session.state"
        (dict (("session_id", str session_id) ∷ ("state", str session.state) ∷ []))
        (some p.agent_id) (some session_id)
    pure session

  unfoldable pub create_tui_attach_token : String → Action AttachToken
  create_tui_attach_token session_id = do
    dev ← verify_signed_request w settings r
    require_capability w settings r dev "tui" none none
    q ← owned_tui_session session_id dev
    require (not (is_ended q.state)) (http 409 "TUI session is not attachable")
    token ← new_token w
    made ←
        Tui.create_tui_attach_token w token session_id dev.device_id
          settings.tui_attach_token_ttl_seconds
    id ← request_id w r
    append_audit_event w "tui_attach_token_created" "device" dev.device_id q.node_id id
        (dict (("expires_at", str (utc_iso w made.expires_at)) ∷ []))
        (record no_refs { agent_id = some q.agent_id; session_id = some session_id })
    pure made

  unfoldable pub list_tui_sessions : Option String → Action (List TuiSessionRow)
  list_tui_sessions state = do
    dev ← verify_signed_request w settings r
    cleanup_idle_sessions w settings
    Tui.list_tui_sessions (some dev.device_id) state

  unfoldable pub get_tui_session : String → Action TuiSessionRow
  get_tui_session session_id = do
    dev ← verify_signed_request w settings r
    cleanup_idle_sessions w settings
    owned_tui_session session_id dev

  unfoldable pub detach_tui_session : String → Action TuiSessionRow
  detach_tui_session session_id = do
    dev ← verify_signed_request w settings r
    q ← owned_tui_session session_id dev
    require (not (is_ended q.state)) (http 409 "TUI session is not attachable")
    detach w session_id
    id ← request_id w r
    record_tui_state_change w session_id "tui_session_detached" id dev.device_id

  unfoldable pub close_tui_session : String → Action TuiSessionRow
  close_tui_session session_id = do
    dev ← verify_signed_request w settings r
    q ← owned_tui_session session_id dev
    if q.state == "closed" then pure q else (do
      close w session_id
      id ← request_id w r
      record_tui_state_change w session_id "tui_session_closed" id dev.device_id)
