-- ===== src/History/Tables.antt =====
-- Methods of the store that write none of the tables the history speaks of.
use agentic_control_tower.Prelude.{refl, String, Option, none, some, List}
use agentic_control_tower.World.{World, ℤ}
use agentic_control_tower.Json.{Json}
use agentic_control_tower.Exec.Along.{Along}
use agentic_control_tower.Store.Rows.{
  TokenRow, GrantRow, NotificationRow, AgentRow, DecisionType, TokenType, PairingStatus, completed,
  SubjectType,
}
use agentic_control_tower.Store.State.{Store}
use agentic_control_tower.Store.Approvals.{get_approval}
use agentic_control_tower.Store.Devices.{get_device}
use agentic_control_tower.Store.Tokens.{
  auth_tokens, create_auth_token, get_token, unexpired, active_device, refresh_device,
  verify_refresh_token,
}
use agentic_control_tower.Store.Pairing.{
  pairing_sessions, create_pairing_session, set_pairing_status, get_pairing_session,
  completion_time,
}
use agentic_control_tower.Store.Grants.{
  capability_grants, has_active_capability_grant, list_capability_grants, create_capability_grant,
  get_capability_grant,
}
use agentic_control_tower.Store.Agents.{upsert_agent, get_agent}
use agentic_control_tower.Store.Responses.{
  approval_responses, policy_proposals, create_approval_response, create_approval_policy_proposal,
  get_approval_response, get_approval_policy_proposal, list_approval_responses,
}
use agentic_control_tower.Store.Notifications.{notifications, create_notification, get_notification}
use agentic_control_tower.Store.Sql.{Table, insert, update_where}
use agentic_control_tower.Store.Sql.Laws.{
  Along-fetch, Along-exists, Along-insert, Along-update_where, Along-list_where,
}
use agentic_control_tower.History.{History, History-preorder}
use agentic_control_tower.History.Primitives.{
  SameRecords, SameRecords-History, other-History, clock_rules,
}

-- A table that the history does not speak of.
pub record IsOther {R : Type 0} (t : Table R) : Type 0 where
  pub same : (s : Store) (rows : List R) → SameRecords s (t.put s rows)

module _ (w : World) {R : Type 0} (t : Table R) (other : IsOther t) where
  pub insert-History : (r : R) → Along (History w) (insert t r)
  insert-History r =
      Along-insert (History-preorder w) t r λ s _. SameRecords-History w s _ (other.same s _)

  pub update-History : (k : String) (f : R → R) → Along (History w) (update_where t k f)
  update-History k f =
      Along-update_where (History-preorder w) t k f λ s. SameRecords-History w s _ (other.same s _)

pub auth_tokens-IsOther : IsOther auth_tokens
auth_tokens-IsOther = record {
  same = λ s rows. record {
    approvals = refl;
    audit = refl;
    nonces = refl;
    devices = refl;
    requests = refl;
    assistance = refl;
    browser = refl;
    voice = refl;
  };
}

pub pairing-IsOther : IsOther pairing_sessions
pairing-IsOther = record {
  same = λ s rows. record {
    approvals = refl;
    audit = refl;
    nonces = refl;
    devices = refl;
    requests = refl;
    assistance = refl;
    browser = refl;
    voice = refl;
  };
}

pub grants-IsOther : IsOther capability_grants
grants-IsOther = record {
  same = λ s rows. record {
    approvals = refl;
    audit = refl;
    nonces = refl;
    devices = refl;
    requests = refl;
    assistance = refl;
    browser = refl;
    voice = refl;
  };
}

pub responses-IsOther : IsOther approval_responses
responses-IsOther = record {
  same = λ s rows. record {
    approvals = refl;
    audit = refl;
    nonces = refl;
    devices = refl;
    requests = refl;
    assistance = refl;
    browser = refl;
    voice = refl;
  };
}

pub proposals-IsOther : IsOther policy_proposals
proposals-IsOther = record {
  same = λ s rows. record {
    approvals = refl;
    audit = refl;
    nonces = refl;
    devices = refl;
    requests = refl;
    assistance = refl;
    browser = refl;
    voice = refl;
  };
}

pub notifications-IsOther : IsOther notifications
notifications-IsOther = record {
  same = λ s rows. record {
    approvals = refl;
    audit = refl;
    nonces = refl;
    devices = refl;
    requests = refl;
    assistance = refl;
    browser = refl;
    voice = refl;
  };
}

pub ruleset others = (
  auth_tokens-IsOther, pairing-IsOther, grants-IsOther, responses-IsOther, proposals-IsOther,
  notifications-IsOther,
)

pub ruleset table_rules = (
  clock_rules, others, insert-History, update-History, other-History, Along-fetch, Along-exists,
  Along-list_where,
)

module _ (w : World) where
  pub create_auth_token-History :
      (token : String) (type : TokenType) (device : String) (ttl : ℤ)
      → Along (History w) (create_auth_token w token type device ttl)
  unfolding create_auth_token
  create_auth_token-History token type device ttl = search table_rules depth 14

  unexpired-History : (t : Option TokenRow) → Along (History w) (unexpired w t)
  unfolding unexpired
  unexpired-History none = search table_rules
  unexpired-History (some t) = search table_rules

  active_device-History : (id : String) → Along (History w) (active_device w id)
  unfolding active_device get_device
  active_device-History id = search table_rules

  refresh_device-History : (t : TokenRow) → Along (History w) (refresh_device w t)
  unfolding refresh_device
  refresh_device-History t = search (table_rules, unexpired-History, active_device-History) depth 12

  pub verify_refresh_token-History :
      (token : String) → Along (History w) (verify_refresh_token w token)
  unfolding verify_refresh_token get_token
  verify_refresh_token-History token = search (table_rules, refresh_device-History) depth 8

  pub create_pairing_session-History :
      (node fingerprint name : String) (permissions : List String) (token challenge : String)
      (ttl : ℤ)
      → Along
          (History w)
          (create_pairing_session w node fingerprint name permissions token challenge ttl)
  unfolding create_pairing_session get_pairing_session
  create_pairing_session-History node fingerprint name permissions token challenge ttl =
      search table_rules depth 14

  completion_time-History : (status : PairingStatus) → Along (History w) (completion_time w status)
  completion_time-History completed = search table_rules
  completion_time-History _ = search table_rules

  pub set_pairing_status-History :
      (id : String) (status : PairingStatus) → Along (History w) (set_pairing_status w id status)
  unfolding set_pairing_status
  set_pairing_status-History id status = search (table_rules, completion_time-History) depth 8

  pub has_active_capability_grant-History :
      (type : SubjectType) (subject capability node : String) (agent : Option String)
      → Along (History w) (has_active_capability_grant w type subject capability node agent)
  unfolding has_active_capability_grant list_capability_grants
  has_active_capability_grant-History type subject capability node agent =
      search table_rules depth 8

  pub create_capability_grant-History :
      (g : GrantRow) → Along (History w) (create_capability_grant w g)
  unfolding create_capability_grant get_capability_grant
  create_capability_grant-History g = search table_rules depth 10

  pub upsert_agent-History : (a : AgentRow) → Along (History w) (upsert_agent w a)
  unfolding upsert_agent get_agent
  upsert_agent-History a = search table_rules depth 10

  pub create_approval_response-History :
      (id : String) (decision : DecisionType) (device : String) (message directive : Option String)
      (constraints : Json) (proposal : Option String)
      → Along
          (History w)
          (create_approval_response w id decision device message directive constraints proposal)
  unfolding create_approval_response get_approval_response
  create_approval_response-History id decision device message directive constraints proposal =
      search table_rules depth 10

  pub create_approval_policy_proposal-History :
      (id device status warning : String) (constraints : Json)
      → Along (History w) (create_approval_policy_proposal w id device status warning constraints)
  unfolding create_approval_policy_proposal get_approval_policy_proposal
  create_approval_policy_proposal-History id device status warning constraints =
      search table_rules depth 10

  pub create_notification-History :
      (n : NotificationRow) → Along (History w) (create_notification w n)
  unfolding create_notification get_notification
  create_notification-History n = search table_rules depth 10

  pub list_approval_responses-History :
      (id : String) → Along (History w) (list_approval_responses id)
  unfolding list_approval_responses
  list_approval_responses-History id = search table_rules

  pub get_approval-History : (id : String) → Along (History w) (get_approval id)
  unfolding get_approval
  get_approval-History id = search table_rules
