-- ===== src/Store/Missions/Laws.antt =====
-- What `upsert_mission` and `upsert_session` leave: the row of the caller, with the time at which it was
-- first written, and every other row.
use agentic_control_tower.Prelude.{
  ◌≡◌, String, Option, none, some, List, [], ◌∷◌, ◌==◌, ◌&&◌, if◌then◌else◌, eq_iff, arith,
}
use agentic_control_tower.Table.{find?}
use agentic_control_tower.Store.SessionRows.{SessionRow, MissionRow}
use agentic_control_tower.Store.Missions.{missions, put_mission, session_at, put_session}

-- The row that is written where `old` is stored: the time of the first one stays.
abbrev pub mission_over : MissionRow → Option MissionRow → MissionRow
mission_over m none = m
mission_over m (some l) = record m { created_at = l.created_at }

abbrev pub session_over : SessionRow → Option SessionRow → SessionRow
session_over q none = q
session_over q (some p) = record q { started_at = p.started_at }

-- After a mission was put, its identifier has the new row, with the time at which it was first written,
-- and every other identifier has the row that it had.
pub find?-put_mission :
    (m : MissionRow) (id : String) (rows : List MissionRow)
    → find? missions.key id (put_mission m rows) ≡ (
        if m.mission_id == id
        then some (mission_over m (find? missions.key id rows))
        else find? missions.key id rows)
unfolding put_mission find?
find?-put_mission m id [] = ground arith
find?-put_mission m id (l ∷ rows) = ground (
  arith,
  find?-put_mission m id rows,
  eq_iff l.mission_id m.mission_id,
  eq_iff l.mission_id id,
  eq_iff m.mission_id id,
)

-- The same for a session, which is named by its node and its identifier.
pub session_at-put_session :
    (q : SessionRow) (node id : String) (rows : List SessionRow)
    → session_at node id (put_session q rows) ≡ (
        if q.node_id == node && q.session_id == id
        then some (session_over q (session_at node id rows))
        else session_at node id rows)
unfolding put_session session_at
session_at-put_session q node id [] = ground arith
session_at-put_session q node id (p ∷ rows) = ground (
  arith,
  session_at-put_session q node id rows,
  eq_iff p.node_id q.node_id,
  eq_iff p.session_id q.session_id,
  eq_iff p.node_id node,
  eq_iff p.session_id id,
  eq_iff q.node_id node,
  eq_iff q.session_id id,
)
