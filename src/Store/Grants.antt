-- ===== src/Store/Grants.antt =====
-- Capability grants: `create_capability_grant`, `list_capability_grants` and
-- `has_active_capability_grant` of store.py.
use agentic_control_tower.Prelude.{
  ℕ, String, Bool, true, false, Option, none, some, List, [], ◌∷◌, ◌==◌, ◌&&◌, ◌||◌, not, leb,
  truthy, if◌then◌else◌,
}
use agentic_control_tower.World.{World}
use agentic_control_tower.Exec.{pure, ◌>>=◌, ◌>>◌}
use agentic_control_tower.Store.Rows.{
  GrantRow, SubjectType, device, agent, node, runtime, GrantState, granted, revoked,
}
use agentic_control_tower.Store.State.{Action}
use agentic_control_tower.Store.Security.{iso_lt, now_utc, new_id}
use agentic_control_tower.Store.Sql.{Table, fetch, insert, list_where}

abbrev pub capability_grants : Table GrantRow
capability_grants = record {
  key = λ g. g.grant_id;
  rows = λ s. s.capability_grants;
  put = λ s rows. record s { capability_grants = rows };
}

abbrev pub same_subject : SubjectType → SubjectType → Bool
same_subject device device = true
same_subject agent agent = true
same_subject node node = true
same_subject runtime runtime = true
same_subject _ _ = false

abbrev pub is_granted : GrantState → Bool
is_granted granted = true
is_granted revoked = false

unfoldable pub get_capability_grant : String → Action GrantRow
get_capability_grant grant_id = fetch capability_grants grant_id

-- `if value: WHERE column = ?` for a text
abbrev pub matches : Option String → String → Bool
matches none value = true
matches (some wanted) value = if wanted == "" then true else value == wanted

abbrev pub matches_type : Option SubjectType → SubjectType → Bool
matches_type none value = true
matches_type (some wanted) value = same_subject value wanted

abbrev pub matches_state : Option GrantState → GrantState → Bool
matches_state none value = true
matches_state (some granted) value = is_granted value
matches_state (some revoked) value = not (is_granted value)

unfoldable pub grant_matches :
    Option SubjectType → Option String → Option String → Option GrantState → GrantRow → Bool
grant_matches subject_type subject_id capability state g =
    matches_type subject_type g.subject_type
    && matches subject_id g.subject_id
    && matches capability g.capability
    && matches_state state g.state

unfoldable pub list_capability_grants :
    Option SubjectType → Option String → Option String → Option GrantState → Action (List GrantRow)
unfolding grant_matches
list_capability_grants subject_type subject_id capability state =
    list_where capability_grants (grant_matches subject_type subject_id capability state)
      (λ a b. iso_lt b.created_at a.created_at)

-- `grant.get("agent_id") and agent_id and grant["agent_id"] != agent_id`
abbrev pub other_agent : Option String → Option String → Bool
other_agent none agent_id = false
other_agent (some a) none = false
other_agent (some a) (some b) = truthy (some a) && truthy (some b) && not (a == b)

abbrev pub grant_expired : ℕ → Option ℕ → Bool
grant_expired now none = false
grant_expired now (some expires_at) = leb expires_at now

-- The body of the loop: does this grant answer the request?
unfoldable pub grant_applies : ℕ → String → Option String → GrantRow → Bool
grant_applies now node_id agent_id g =
    if not (g.node_id == node_id)
    then false
    else if other_agent g.agent_id agent_id
    then false
    else not (grant_expired now g.expires_at)

unfoldable pub any_applies : ℕ → String → Option String → List GrantRow → Bool
unfolding grant_applies
any_applies now node_id agent_id [] = false
any_applies now node_id agent_id (g ∷ rows) =
    grant_applies now node_id agent_id g || any_applies now node_id agent_id rows

module _ (w : World) where
  unfoldable pub has_active_capability_grant :
      SubjectType → String → String → String → Option String → Action Bool
  unfolding list_capability_grants any_applies
  has_active_capability_grant subject_type subject_id capability node_id agent_id = do
    now ← now_utc w
    rows ←
        list_capability_grants (some subject_type) (some subject_id) (some capability)
          (some granted)
    pure (any_applies now node_id agent_id rows)

  -- The grant that the caller describes; `created_at` and `grant_id` are filled in.
  unfoldable pub create_capability_grant : GrantRow → Action GrantRow
  create_capability_grant g = do
    grant_id ← new_id w "cap"
    created_at ← now_utc w
    insert capability_grants (record g { grant_id = grant_id; created_at = created_at })
    get_capability_grant grant_id
