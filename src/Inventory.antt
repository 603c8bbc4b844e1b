-- ===== src/Inventory.antt =====
-- The endpoints of app.py with which a device reads the sessions and the missions of agents.
use agentic_control_tower.Prelude.{String, Option, none, some, List, Bool, false, ◌==◌, ◌&&◌}
use agentic_control_tower.World.{World, pos}
use agentic_control_tower.Exec.{pure, on_key_error, http, ◌>>=◌, ◌>>◌}
use agentic_control_tower.Table.{select}
use agentic_control_tower.Store.Rows.{EventRow}
use agentic_control_tower.Store.SessionRows.{SessionRow, MissionRow}
use agentic_control_tower.Store.State.{Action, Settings}
use agentic_control_tower.Store.Events.{list_events_after}
use agentic_control_tower.Store.Missions
use agentic_control_tower.Signing.{HttpRequest, verify_signed_request}

pub record Activity : Type 0 where
  pub session : SessionRow
  pub recent_events : List EventRow

-- `event.get("node_id") == node_id and event.get("session_id") == session_id`
abbrev pub in_session : String → String → EventRow → Bool
in_session node_id session_id e =
    e.node_id == node_id && elim e.session_id [ none ↦ false | some id ↦ id == session_id ]

module _ (w : World) (settings : Settings) (r : HttpRequest) where
  unfoldable pub list_sessions : Option String → Option String → Action (List SessionRow)
  list_sessions node_id agent_id = do
    verify_signed_request w settings r
    Missions.list_sessions node_id agent_id

  unfoldable pub get_session : String → String → Action SessionRow
  get_session session_id node_id = do
    verify_signed_request w settings r
    on_key_error (Missions.get_session node_id session_id) (http 404 "session not found")

  unfoldable pub get_session_activity : String → String → Action Activity
  get_session_activity session_id node_id = do
    verify_signed_request w settings r
    session ← on_key_error (Missions.get_session node_id session_id) (http 404 "session not found")
    events ← list_events_after w none (pos 25)
    pure (record {
      session = session;
      recent_events = select (in_session node_id session_id) events;
    })

  unfoldable pub list_missions : Option String → Option String → Action (List MissionRow)
  list_missions node_id agent_id = do
    verify_signed_request w settings r
    Missions.list_missions node_id agent_id

  unfoldable pub get_mission : String → Action MissionRow
  get_mission mission_id = do
    verify_signed_request w settings r
    on_key_error (Missions.get_mission mission_id) (http 404 "mission not found")
