-- ===== src/Store/Missions.antt =====
-- The sessions and the missions of agents in store.py.
pub mod Laws
use agentic_control_tower.Prelude.{
  ℕ, String, Bool, true, false, Option, none, some, List, [], ◌∷◌, ◌==◌, ◌&&◌, if◌then◌else◌,
}
use agentic_control_tower.World.{World}
use agentic_control_tower.Exec.{gets, modify, or_key_error, ◌>>=◌, ◌>>◌}
use agentic_control_tower.Table.{select, order_by}
use agentic_control_tower.Store.SessionRows.{SessionRow, MissionRow}
use agentic_control_tower.Store.State.{Action}
use agentic_control_tower.Store.Security.{iso_lt, now_utc}
use agentic_control_tower.Store.Sql.{Table, fetch, list_where}
use agentic_control_tower.Store.Operators.{text_matches}

abbrev pub missions : Table MissionRow
missions = record {
  key = λ m. m.mission_id;
  rows = λ s. s.missions;
  put = λ s rows. record s { missions = rows };
}

abbrev pub is_session : String → String → SessionRow → Bool
is_session node_id session_id q = q.node_id == node_id && q.session_id == session_id

unfoldable pub session_at : String → String → List SessionRow → Option SessionRow
session_at node_id session_id [] = none
session_at node_id session_id (q ∷ rows) =
    if is_session node_id session_id q then some q else session_at node_id session_id rows

unfoldable pub get_session : String → String → Action SessionRow
unfolding session_at
get_session node_id session_id = do
  row ← gets (λ s. session_at node_id session_id s.sessions)
  or_key_error session_id row

-- `updated_at DESC`, where NULL is the least value.
abbrev pub updated_later : Option ℕ → Option ℕ → Bool
updated_later none b = false
updated_later (some m) none = true
updated_later (some m) (some n) = iso_lt n m

unfoldable pub list_sessions : Option String → Option String → Action (List SessionRow)
list_sessions node_id agent_id = gets λ s.
    order_by (λ a b. updated_later a.updated_at b.updated_at)
      (select (λ q. text_matches node_id q.node_id && text_matches agent_id q.agent_id) s.sessions)

-- INSERT … ON CONFLICT(node_id, session_id) DO UPDATE SET every other column but started_at
unfoldable pub put_session : SessionRow → List SessionRow → List SessionRow
put_session q [] = q ∷ []
put_session q (p ∷ rows) =
    let rest = put_session q rows in
    if is_session q.node_id q.session_id p
    then record q { started_at = p.started_at } ∷ rows
    else p ∷ rest

unfoldable pub get_mission : String → Action MissionRow
get_mission mission_id = fetch missions mission_id

unfoldable pub list_missions : Option String → Option String → Action (List MissionRow)
list_missions node_id agent_id =
    list_where missions (λ m. text_matches node_id m.node_id && text_matches agent_id m.agent_id)
      (λ a b. iso_lt b.updated_at a.updated_at)

-- INSERT … ON CONFLICT(mission_id) DO UPDATE SET every other column but created_at
unfoldable pub put_mission : MissionRow → List MissionRow → List MissionRow
put_mission m [] = m ∷ []
put_mission m (l ∷ rows) =
    let rest = put_mission m rows in
    if l.mission_id == m.mission_id then record m { created_at = l.created_at } ∷ rows else l ∷ rest

module _ (w : World) where
  -- The session that the caller describes; the times of its start and its update are filled in.
  unfoldable pub upsert_session : SessionRow → Action SessionRow
  unfolding put_session
  upsert_session q = do
    now ← now_utc w
    modify (λ s. record s {
      sessions = put_session (record q { started_at = now; updated_at = some now }) s.sessions;
    })
    get_session q.node_id q.session_id

  -- The mission that the caller describes; its times are filled in.
  unfoldable pub upsert_mission : MissionRow → Action MissionRow
  unfolding put_mission
  upsert_mission m = do
    now ← now_utc w
    modify (λ s. record s {
      missions = put_mission (record m { created_at = now; updated_at = now }) s.missions;
    })
    get_mission m.mission_id
