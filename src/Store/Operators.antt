-- ===== src/Store/Operators.antt =====
-- Operator sessions: `create_operator_session`, `get_operator_session`, `list_operator_sessions` and
-- `update_operator_session_state` of store.py.
use agentic_control_tower.Prelude.{
  ℕ, String, Bool, true, Option, none, some, List, [], ◌∷◌, ◌==◌, ◌&&◌, truthy, coalesce,
  if◌then◌else◌,
}
use agentic_control_tower.World.{World}
use agentic_control_tower.Json.{Json}
use agentic_control_tower.Exec.{modify, ◌>>=◌, ◌>>◌}
use agentic_control_tower.Store.SessionRows.{OperatorSessionRow}
use agentic_control_tower.Store.State.{Action}
use agentic_control_tower.Store.Security.{iso_lt, now_utc}
use agentic_control_tower.Store.Sql.{Table, fetch, update_where, list_where}

abbrev pub operator_sessions : Table OperatorSessionRow
operator_sessions = record {
  key = λ o. o.session_id;
  rows = λ s. s.operator_sessions;
  put = λ s rows. record s { operator_sessions = rows };
}

-- The keys of the dictionary that the callers of `create_operator_session` set.
pub record NewOperatorSession : Type 0 where
  pub session_id : String
  pub session_type : String
  pub agent_id : String
  pub mission_id : Option String
  pub state : String
  pub owner_device_id : Option String
  pub capability_requirements : List String
  pub context : Json

-- ON CONFLICT(session_id) DO UPDATE
unfoldable pub merged : NewOperatorSession → ℕ → OperatorSessionRow → OperatorSessionRow
merged n now old = record {
  session_id = old.session_id;
  session_type = n.session_type;
  agent_id = n.agent_id;
  mission_id = n.mission_id;
  state = n.state;
  owner_device_id = coalesce n.owner_device_id old.owner_device_id;
  capability_requirements = n.capability_requirements;
  context = n.context;
  return_summary = old.return_summary;
  created_at = old.created_at;
  updated_at = now;
}

unfoldable pub new_row : NewOperatorSession → ℕ → OperatorSessionRow
new_row n now = record {
  session_id = n.session_id;
  session_type = n.session_type;
  agent_id = n.agent_id;
  mission_id = n.mission_id;
  state = n.state;
  owner_device_id = n.owner_device_id;
  capability_requirements = n.capability_requirements;
  context = n.context;
  return_summary = none;
  created_at = now;
  updated_at = now;
}

unfoldable pub put_operator_session :
    NewOperatorSession → ℕ → List OperatorSessionRow → List OperatorSessionRow
unfolding merged new_row
put_operator_session n now [] = new_row n now ∷ []
put_operator_session n now (old ∷ rows) =
    let rest = put_operator_session n now rows in
    if old.session_id == n.session_id then merged n now old ∷ rows else old ∷ rest

unfoldable pub get_operator_session : String → Action OperatorSessionRow
get_operator_session session_id = fetch operator_sessions session_id

-- `if value: WHERE column = ?`
abbrev pub text_matches : Option String → String → Bool
text_matches wanted column =
    if truthy wanted then elim wanted [ none ↦ true | some value ↦ column == value ] else true

unfoldable pub list_operator_sessions :
    Option String → Option String → Option String → Action (List OperatorSessionRow)
list_operator_sessions session_type state agent_id =
    list_where operator_sessions
      (λ o.
        text_matches session_type o.session_type
        && text_matches state o.state
        && text_matches agent_id o.agent_id)
      (λ a b. iso_lt b.updated_at a.updated_at)

-- What the UPDATE of `update_operator_session_state` writes into the row.
abbrev pub moved_to :
    String → Option String → Option String → ℕ → OperatorSessionRow → OperatorSessionRow
moved_to state owner summary now o = record o {
  state = state;
  owner_device_id = coalesce owner o.owner_device_id;
  return_summary = coalesce summary o.return_summary;
  updated_at = now;
}

module _ (w : World) where
  unfoldable pub create_operator_session : NewOperatorSession → Action OperatorSessionRow
  unfolding put_operator_session
  create_operator_session n = do
    now ← now_utc w
    modify (λ s. record s { operator_sessions = put_operator_session n now s.operator_sessions })
    get_operator_session n.session_id

  unfoldable pub update_operator_session_state :
      String → String → Option String → Option String → Action OperatorSessionRow
  update_operator_session_state session_id state owner_device_id return_summary = do
    now ← now_utc w
    update_where operator_sessions session_id (moved_to state owner_device_id return_summary now)
    get_operator_session session_id
