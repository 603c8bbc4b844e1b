-- ===== src/Store/Logged.antt =====
-- The methods of store.py that touch nothing but the clock, the random source, the audit log and the
-- event feed.
use agentic_control_tower.Prelude.{◌≡◌, refl, ◌∙◌, ◌≤◌, ℕ, arith, String, Option}
use agentic_control_tower.World.{World}
use agentic_control_tower.Json.{Json}
use agentic_control_tower.Exec.{modify}
use agentic_control_tower.Exec.Along.{Preorder, Along, along_rules}
use agentic_control_tower.Store.Rows.{Refs, AuditRow, EventRow}
use agentic_control_tower.Store.State.{Store}
use agentic_control_tower.Store.Security.{now_utc, new_id, new_token}
use agentic_control_tower.Store.Audit.{
  append_audit_event, insert_audit, latest_audit_hash, get_audit_event,
}
use agentic_control_tower.Store.Events.{create_event, insert_event, get_event_by_id}

-- Every table but the audit log and the event feed is the same, and the clock was not turned back.
pub record Logged (s t : Store) : Type 0 where
  pub nodes : t.nodes ≡ s.nodes
  pub agents : t.agents ≡ s.agents
  pub sessions : t.sessions ≡ s.sessions
  pub missions : t.missions ≡ s.missions
  pub pairing_sessions : t.pairing_sessions ≡ s.pairing_sessions
  pub devices : t.devices ≡ s.devices
  pub auth_tokens : t.auth_tokens ≡ s.auth_tokens
  pub request_nonces : t.request_nonces ≡ s.request_nonces
  pub approval_requests : t.approval_requests ≡ s.approval_requests
  pub approval_responses : t.approval_responses ≡ s.approval_responses
  pub approval_policy_proposals : t.approval_policy_proposals ≡ s.approval_policy_proposals
  pub notifications : t.notifications ≡ s.notifications
  pub capability_grants : t.capability_grants ≡ s.capability_grants
  pub assistance_requests : t.assistance_requests ≡ s.assistance_requests
  pub assistance_sessions : t.assistance_sessions ≡ s.assistance_sessions
  pub assistance_messages : t.assistance_messages ≡ s.assistance_messages
  pub browser_assistance_sessions : t.browser_assistance_sessions ≡ s.browser_assistance_sessions
  pub voice_sessions : t.voice_sessions ≡ s.voice_sessions
  pub voice_messages : t.voice_messages ≡ s.voice_messages
  pub operator_sessions : t.operator_sessions ≡ s.operator_sessions
  pub tui_sessions : t.tui_sessions ≡ s.tui_sessions
  pub tui_attach_tokens : t.tui_attach_tokens ≡ s.tui_attach_tokens
  pub reads : s.reads ≤ t.reads

pub Logged-preorder : Preorder Logged
Logged-preorder = record {
  same = λ s. record {
    nodes = refl;
    agents = refl;
    sessions = refl;
    missions = refl;
    pairing_sessions = refl;
    devices = refl;
    auth_tokens = refl;
    request_nonces = refl;
    approval_requests = refl;
    approval_responses = refl;
    approval_policy_proposals = refl;
    notifications = refl;
    capability_grants = refl;
    assistance_requests = refl;
    assistance_sessions = refl;
    assistance_messages = refl;
    browser_assistance_sessions = refl;
    voice_sessions = refl;
    voice_messages = refl;
    operator_sessions = refl;
    tui_sessions = refl;
    tui_attach_tokens = refl;
    reads = omega arith;
  };
  join = λ s t u f g. record {
    nodes = g.nodes ∙ f.nodes;
    agents = g.agents ∙ f.agents;
    sessions = g.sessions ∙ f.sessions;
    missions = g.missions ∙ f.missions;
    pairing_sessions = g.pairing_sessions ∙ f.pairing_sessions;
    devices = g.devices ∙ f.devices;
    auth_tokens = g.auth_tokens ∙ f.auth_tokens;
    request_nonces = g.request_nonces ∙ f.request_nonces;
    approval_requests = g.approval_requests ∙ f.approval_requests;
    approval_responses = g.approval_responses ∙ f.approval_responses;
    approval_policy_proposals = g.approval_policy_proposals ∙ f.approval_policy_proposals;
    notifications = g.notifications ∙ f.notifications;
    capability_grants = g.capability_grants ∙ f.capability_grants;
    assistance_requests = g.assistance_requests ∙ f.assistance_requests;
    assistance_sessions = g.assistance_sessions ∙ f.assistance_sessions;
    assistance_messages = g.assistance_messages ∙ f.assistance_messages;
    browser_assistance_sessions = g.browser_assistance_sessions ∙ f.browser_assistance_sessions;
    voice_sessions = g.voice_sessions ∙ f.voice_sessions;
    voice_messages = g.voice_messages ∙ f.voice_messages;
    operator_sessions = g.operator_sessions ∙ f.operator_sessions;
    tui_sessions = g.tui_sessions ∙ f.tui_sessions;
    tui_attach_tokens = g.tui_attach_tokens ∙ f.tui_attach_tokens;
    reads = (let a = f.reads in let b = g.reads in omega arith);
  };
}

same_tables : (f : Store → Store) → ((s : Store) → Logged s (f s)) → Along Logged (modify f)
unfolding modify
same_tables f h = record { at = h }

le_refl : (n : ℕ) → n ≤ n
le_refl n = omega arith

ruleset steps = (along_rules, Logged-preorder, same_tables, le_refl)

insert_audit-Logged : (e : AuditRow) → Along Logged (insert_audit e)
unfolding insert_audit
insert_audit-Logged e = search steps

module _ (w : World) where
  pub now_utc-Logged : Along Logged (now_utc w)
  unfolding now_utc
  now_utc-Logged = record {
    at = λ s. record {
      nodes = refl;
      agents = refl;
      sessions = refl;
      missions = refl;
      pairing_sessions = refl;
      devices = refl;
      auth_tokens = refl;
      request_nonces = refl;
      approval_requests = refl;
      approval_responses = refl;
      approval_policy_proposals = refl;
      notifications = refl;
      capability_grants = refl;
      assistance_requests = refl;
      assistance_sessions = refl;
      assistance_messages = refl;
      browser_assistance_sessions = refl;
      voice_sessions = refl;
      voice_messages = refl;
      operator_sessions = refl;
      tui_sessions = refl;
      tui_attach_tokens = refl;
      reads = omega arith;
    };
  }

  pub new_token-Logged : Along Logged (new_token w)
  unfolding new_token
  new_token-Logged = record {
    at = λ s. record {
      nodes = refl;
      agents = refl;
      sessions = refl;
      missions = refl;
      pairing_sessions = refl;
      devices = refl;
      auth_tokens = refl;
      request_nonces = refl;
      approval_requests = refl;
      approval_responses = refl;
      approval_policy_proposals = refl;
      notifications = refl;
      capability_grants = refl;
      assistance_requests = refl;
      assistance_sessions = refl;
      assistance_messages = refl;
      browser_assistance_sessions = refl;
      voice_sessions = refl;
      voice_messages = refl;
      operator_sessions = refl;
      tui_sessions = refl;
      tui_attach_tokens = refl;
      reads = omega arith;
    };
  }

  pub new_id-Logged : (prefix : String) → Along Logged (new_id w prefix)
  unfolding new_id
  new_id-Logged prefix = search (steps, new_token-Logged)

  pub append_audit_event-Logged :
      (event_type actor_type actor_id node_id request_id : String) (payload : Json) (refs : Refs)
      → Along Logged
          (append_audit_event w event_type actor_type actor_id node_id request_id payload refs)
  unfolding append_audit_event latest_audit_hash get_audit_event
  append_audit_event-Logged event_type actor_type actor_id node_id request_id payload refs =
      search (steps, now_utc-Logged, new_id-Logged, insert_audit-Logged) depth 12

  insert_event-Logged : (e : EventRow) → Along Logged (insert_event w e)
  unfolding insert_event
  insert_event-Logged e = search steps

  pub create_event-Logged :
      (node_id event_type : String) (payload : Json) (agent_id session_id : Option String)
      → Along Logged (create_event w node_id event_type payload agent_id session_id)
  unfolding create_event get_event_by_id
  create_event-Logged node_id event_type payload agent_id session_id =
      search (steps, now_utc-Logged, new_id-Logged, insert_event-Logged) depth 12

pub ruleset logged_rules = (
  along_rules, Logged-preorder, now_utc-Logged, new_token-Logged, new_id-Logged,
  append_audit_event-Logged, create_event-Logged,
)
