-- ===== src/Store/Agents.antt =====
-- Nodes and agents: `get_node`, `get_agent` and `upsert_agent` of store.py. The agents that
-- `get_node` adds to a node are not read by its callers and are left out.
use agentic_control_tower.Prelude.{
  String, Bool, Option, none, some, List, [], ◌∷◌, ◌==◌, ◌&&◌, if◌then◌else◌,
}
use agentic_control_tower.World.{World}
use agentic_control_tower.Exec.{gets, modify, or_key_error, ◌>>=◌, ◌>>◌}
use agentic_control_tower.Store.Rows.{NodeRow, AgentRow}
use agentic_control_tower.Store.State.{Action}
use agentic_control_tower.Store.Security.{now_utc}
use agentic_control_tower.Store.Sql.{Table, fetch}

abbrev pub nodes : Table NodeRow
nodes = record {
  key = λ n. n.node_id;
  rows = λ s. s.nodes;
  put = λ s rows. record s { nodes = rows };
}

unfoldable pub get_node : String → Action NodeRow
get_node node_id = fetch nodes node_id

abbrev pub is_agent : String → String → AgentRow → Bool
is_agent node_id agent_id a = a.node_id == node_id && a.agent_id == agent_id

unfoldable pub agent_at : String → String → List AgentRow → Option AgentRow
agent_at node_id agent_id [] = none
agent_at node_id agent_id (a ∷ rows) =
    if is_agent node_id agent_id a then some a else agent_at node_id agent_id rows

unfoldable pub get_agent : String → String → Action AgentRow
unfolding agent_at
get_agent node_id agent_id = do
  row ← gets (λ s. agent_at node_id agent_id s.agents)
  or_key_error agent_id row

-- INSERT … ON CONFLICT(node_id, agent_id) DO UPDATE SET every other column
unfoldable pub put_agent : AgentRow → List AgentRow → List AgentRow
put_agent a [] = a ∷ []
put_agent a (b ∷ rows) =
    let rest = put_agent a rows in if is_agent a.node_id a.agent_id b then a ∷ rows else b ∷ rest

module _ (w : World) where
  -- The agent that the caller describes; `last_seen_at` is filled in.
  unfoldable pub upsert_agent : AgentRow → Action AgentRow
  unfolding put_agent
  upsert_agent a = do
    now ← now_utc w
    modify (λ s. record s { agents = put_agent (record a { last_seen_at = now }) s.agents })
    get_agent a.node_id a.agent_id
