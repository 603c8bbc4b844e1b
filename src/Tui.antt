-- ===== src/Tui.antt =====
-- Terminal sessions: the checks and the session manager of tui.py, and the helpers of app.py. The
-- processes themselves, their pseudo-terminals and the bytes that they exchange are not modelled.
pub mod Endpoints
pub mod Laws
pub mod Tokens
pub mod Streams
pub mod Limit
use Prim.Native.Char.{code}
use agentic_control_tower.Prelude.{
  ℕ, suc, ◌+◌, ◌*◌, String, Bool, true, false, Option, none, some, List, [], ◌∷◌, ◌++◌, ◌==◌, ◌&&◌,
  ◌||◌, not, ltb, eqb, length, or_else, truthy, contains, if◌then◌else◌,
}
use agentic_control_tower.World.{World}
use agentic_control_tower.Json.{Json, dict, str, num, bool, texts}
use agentic_control_tower.Exec.{
  pure, raise, gets, require, http, on_key_error, on_option, for_each, ◌>>=◌, ◌>>◌,
}
use agentic_control_tower.Store.SessionRows.{TuiSessionRow}
use agentic_control_tower.Store.State.{Action, Settings}
use agentic_control_tower.Store.Security.{now_utc, new_id, add_seconds, has_secret_text}
use agentic_control_tower.Store.Audit.{append_audit_event, no_refs}
use agentic_control_tower.Store.Events.{create_event}
use agentic_control_tower.Store.Sql.{row_at}
use agentic_control_tower.Store.Agents.{get_node, get_agent}
use agentic_control_tower.Store.Tui.{
  tui_sessions, is_open, is_ended, get_tui_session, list_tui_sessions, update_tui_session_state,
  touch_tui_session, add_tui_audit_ref,
}
use agentic_control_tower.Capabilities.{VerifiedDevice, has_available, lookup_text}
use agentic_control_tower.Assistance.{update_operator_session_if_exists}

-- What `validate_tui_request` returns.
pub record TuiRequest : Type 0 where
  pub command : String
  pub working_directory : String

abbrev pub is_empty : List String → Bool
is_empty [] = true
is_empty (x ∷ xs) = false

abbrev pub risk_labels : List (String × String)
risk_labels =
    ("low", "operator terminal - low risk")
    ∷ ("medium", "operator terminal - medium risk")
    ∷ ("high", "operator terminal - high risk")
    ∷ ("critical", "operator terminal - critical risk")
    ∷ []

abbrev pub tui_risk_label : String → String
tui_risk_label risk_level =
    or_else (lookup_text risk_level risk_labels) "operator terminal - high risk"

-- `text.count("\n")`
abbrev pub newlines : String → ℕ
newlines String.[] = 0
newlines (String.◌∷◌ c rest) = (if eqb (code c) 10 then 1 else 0) + newlines rest

-- `any(ord(char) < 32 and char not in "\n\r\t" for char in text)`
abbrev pub has_control : String → Bool
has_control String.[] = false
has_control (String.◌∷◌ c rest) =
    (ltb (code c) 32 && not (eqb (code c) 10 || eqb (code c) 13 || eqb (code c) 9))
    || has_control rest

-- `max(text.count("\n"), 1 if text else 0)`
abbrev pub line_count : String → ℕ
line_count text =
    let least = if text == "" then 0 else 1 in
    if ltb (newlines text) least then least else newlines text

abbrev pub when : Bool → String → List String
when test warning = if test then warning ∷ [] else []

module _ (w : World) where
  unfoldable pub validate_tui_request : Settings → Option String → Option String → Action TuiRequest
  validate_tui_request settings command working_directory = do
    require settings.tui_enable_local_pty (http 403 "local TUI PTY is disabled")
    let selected = or_else command settings.tui_default_command
    require (not (is_empty settings.tui_allowed_commands))
        (http 403 "TUI command allowlist is empty")
    require (contains selected settings.tui_allowed_commands)
        (http 403 "TUI command is not allowlisted")
    let root = w.resolve settings.tui_allowed_working_directory
    let requested = w.resolve (or_else working_directory root)
    require (w.relative_to requested root)
        (http 403 "TUI working directory is outside the allowed root")
    require (w.is_dir requested) (http 422 "TUI working directory invalid")
    pure (record { command = selected; working_directory = requested })

  unfoldable pub paste_risk_warnings : String → List String
  paste_risk_warnings text =
      when (ltb 1 (newlines text)) "multiline_paste"
      ++ when (has_control text) "control_characters"
      ++ when (has_secret_text w (text ∷ [])) "secret_like_text"

  unfoldable pub require_tui_capability : String → String → Action (Unit {0})
  require_tui_capability node_id agent_id = do
    n ← on_key_error (get_node node_id) (http 403 "TUI capability unavailable")
    a ← on_key_error (get_agent node_id agent_id) (http 403 "TUI capability unavailable")
    require (has_available "tui" n.capabilities || has_available "tui" a.capabilities)
        (http 403 "TUI capability unavailable")

  -- `LocalPtyManager.attach`, `.detach` and `.close`
  unfoldable pub attach : String → Action (Unit {0})
  attach session_id = do
    running ← gets (λ s. w.is_running s.reads session_id)
    require running (http 410 "TUI runtime is not available")
    update_tui_session_state w session_id "active"
    pure tt

  unfoldable pub detach : String → Action (Unit {0})
  detach session_id = do update_tui_session_state w session_id "detached"; pure tt

  unfoldable pub close : String → Action (Unit {0})
  close session_id = do update_tui_session_state w session_id "closed"; pure tt

  -- `LocalPtyManager.write` and `.resize`
  unfoldable pub write : String → String → Action (Unit {0})
  write session_id text = do
    running ← gets (λ s. w.is_running s.reads session_id)
    require running (http 410 "TUI runtime is not available")
    if text == "" then pure tt else (do touch_tui_session w session_id; pure tt)

  unfoldable pub resize : String → ℕ → ℕ → Action (Unit {0})
  resize session_id rows cols = do
    running ← gets (λ s. w.is_running s.reads session_id)
    require running (http 410 "TUI runtime is not available")
    if ltb rows 1 || ltb cols 1 then pure tt else (do touch_tui_session w session_id; pure tt)

  -- The body of the loop of `cleanup_idle_sessions`.
  unfoldable pub close_if_idle : Settings → ℕ → TuiSessionRow → Action (Unit {0})
  close_if_idle settings now q =
      if not (is_open q.state)
      then pure tt
      else if ltb now (add_seconds w q.last_activity_at settings.tui_idle_timeout_seconds)
      then pure tt
      else close q.session_id

  -- What `_read_output` writes when the process has ended, for a session that is there.
  unfoldable pub end_session : String → TuiSessionRow → Action (Unit {0})
  end_session session_id q =
      if is_ended q.state
      then pure tt
      else (do update_tui_session_state w session_id "closed"; pure tt)

  unfoldable pub output_ended : String → Action (Unit {0})
  output_ended session_id = do
    found ← gets (λ s. row_at tui_sessions session_id s)
    on_option found (pure tt) (end_session session_id)

  unfoldable pub cleanup_idle_sessions : Settings → Action (Unit {0})
  cleanup_idle_sessions settings = do
    now ← now_utc w
    sessions ← list_tui_sessions none none
    for_each sessions (close_if_idle settings now)

  unfoldable pub record_tui_state_change : String → String → String → String → Action TuiSessionRow
  record_tui_state_change session_id event_type request_id actor_device_id = do
    moved ←
        update_tui_session_state w session_id
          (if event_type == "tui_session_closed" then "closed" else "detached")
    update_operator_session_if_exists w session_id moved.state (some actor_device_id) none
    audit ←
        append_audit_event w event_type "device" actor_device_id moved.node_id request_id
          (dict (("state", str moved.state) ∷ []))
          (record no_refs { agent_id = some moved.agent_id; session_id = some session_id })
    q ← add_tui_audit_ref session_id audit.audit_event_id
    create_event w q.node_id "tui.session.state"
        (dict (("session_id", str session_id) ∷ ("state", str q.state) ∷ [])) (some q.agent_id)
        (some session_id)
    pure q

  unfoldable pub audit_tui_io_metadata :
      String → String → String → String → List String → Action (Unit {0})
  audit_tui_io_metadata session_id device_id event_type text risk_warnings = do
    q ← get_tui_session session_id
    id ← new_id w "req"
    audit ←
        append_audit_event w event_type "device" device_id q.node_id id
          (dict (
            ("byte_count", num (length (w.utf8 text)))
            ∷ ("line_count", num (line_count text))
            ∷ ("risk_warnings", texts risk_warnings)
            ∷ ("contents_logged", bool false)
            ∷ []))
          (record no_refs { agent_id = some q.agent_id; session_id = some session_id })
    add_tui_audit_ref session_id audit.audit_event_id
    pure tt

unfoldable pub owned_tui_session : String → VerifiedDevice → Action TuiSessionRow
owned_tui_session session_id dev = do
  q ← on_key_error (get_tui_session session_id) (http 404 "TUI session not found")
  require (q.user_device_id == dev.device_id) (http 403 "TUI session belongs to another device")
  pure q
