-- ===== src/History/Endpoints.antt =====
-- The approval endpoints keep the history.
use agentic_control_tower.History.Callers.{endpoint_rules}
use agentic_control_tower.Prelude.{
  ◌≡◌, refl, String, Bool, true, false, Option, none, some, if◌then◌else◌,
}
use agentic_control_tower.World.{World}
use agentic_control_tower.Exec.{pure, on_option, ◌>>=◌, ◌>>◌}
use agentic_control_tower.Exec.Along.{Along}
use agentic_control_tower.Store.Rows.{
  ApprovalState, approved, denied, DecisionType, approve_once, approve_session, approve_agent, deny,
  is_pending,
}
use agentic_control_tower.Store.State.{Settings}
use agentic_control_tower.Capabilities.{VerifiedDevice}
use agentic_control_tower.Signing.{HttpRequest, request_id}
use agentic_control_tower.Approvals.{
  ApprovalPayload, create_approval_request, get_approval_or_404, transition_approval,
}
use agentic_control_tower.Approvals.Endpoints.{
  ToolPayload, ResponsePayload, create_approval, action_id_of, hermes_approval_requested,
  require_approval_capability, decide_as, decide_approval, approve_approval_once, deny_approval,
  expire_approval, cancel_approval, transition_of, propose, follow_up, respond, create_response,
}
use agentic_control_tower.Pairing.{}
use agentic_control_tower.Notifications.{}
use agentic_control_tower.History.{History}
use agentic_control_tower.History.Primitives.{clock_rules}
use agentic_control_tower.History.Stores.{create_approval-History}
use agentic_control_tower.History.Tables.{
  create_approval_response-History, create_approval_policy_proposal-History, get_approval-History,
}
use agentic_control_tower.History.Guarded.{transition_approval-History}
use agentic_control_tower.History.Callers.{}

-- The transitions of the responses end in a state that is not pending.
abbrev pub EndsOver : Option (ApprovalState × String × String) → Type 0
EndsOver none = Unit
EndsOver (some (target, decision, scope)) = is_pending target ≡ false

ends_over : (type : DecisionType) → EndsOver (transition_of type)
ends_over approve_once = refl
ends_over approve_session = refl
ends_over approve_agent = refl
ends_over deny = refl
ends_over _ = tt

module _ (w : World) where
  pub create_approval_request-History :
      (settings : Settings) (r : HttpRequest) (p : ApprovalPayload)
      → Along (History w) (create_approval_request w settings r p)
  unfolding create_approval_request
  create_approval_request-History settings r p =
      search (endpoint_rules, create_approval-History) depth 12

  pub get_approval_or_404-History : (id : String) → Along (History w) (get_approval_or_404 w id)
  unfolding get_approval_or_404
  get_approval_or_404-History id = search (clock_rules, get_approval-History)

module _ (w : World) (settings : Settings) (r : HttpRequest) where
  pub create_approval_endpoint-History :
      (p : ApprovalPayload) → Along (History w) (create_approval w settings r p)
  unfolding create_approval
  create_approval_endpoint-History p =
      search (endpoint_rules, create_approval_request-History) depth 8

  pub action_id_of-History : (o : Option String) → Along (History w) (action_id_of w settings r o)
  unfolding action_id_of
  action_id_of-History none = search clock_rules
  action_id_of-History (some a) = search clock_rules

  pub hermes_approval_requested-History :
      (p : ToolPayload) → Along (History w) (hermes_approval_requested w settings r p)
  unfolding hermes_approval_requested
  hermes_approval_requested-History p =
      search (endpoint_rules, create_approval_request-History, action_id_of-History) depth 10

  require_approval_capability-History :
      (dev : VerifiedDevice) (id : String)
      → Along (History w) (require_approval_capability w settings r dev id)
  unfolding require_approval_capability
  require_approval_capability-History dev id =
      search (endpoint_rules, get_approval_or_404-History) depth 8

  pub decide_as-History :
      (dev : VerifiedDevice) (id : String) (target : ApprovalState) (decision scope : Option String)
      → is_pending target ≡ false
      → Along (History w) (decide_as w settings r dev id target decision scope)
  unfolding decide_as
  decide_as-History dev id target decision scope over =
      search (endpoint_rules, require_approval_capability-History, transition_approval-History)
        depth 8

  chosen_over : (approve : Bool) → is_pending (if approve then approved else denied) ≡ false
  chosen_over true = refl
  chosen_over false = refl

  pub decide_approval-History :
      (id : String) (approve : Bool) (scope : String)
      → Along (History w) (decide_approval w settings r id approve scope)
  unfolding decide_approval
  decide_approval-History id approve scope =
      search (endpoint_rules, decide_as-History, chosen_over) depth 8

  pub approve_once-History :
      (id : String) → Along (History w) (approve_approval_once w settings r id)
  unfolding approve_approval_once
  approve_once-History id = search (endpoint_rules, decide_as-History) depth 8

  pub deny_approval-History : (id : String) → Along (History w) (deny_approval w settings r id)
  unfolding deny_approval
  deny_approval-History id = search (endpoint_rules, decide_as-History) depth 8

  pub expire_approval-History : (id : String) → Along (History w) (expire_approval w settings r id)
  unfolding expire_approval
  expire_approval-History id = search (endpoint_rules, decide_as-History) depth 8

  pub cancel_approval-History : (id : String) → Along (History w) (cancel_approval w settings r id)
  unfolding cancel_approval
  cancel_approval-History id = search (endpoint_rules, decide_as-History) depth 8

  propose-History :
      (dev : VerifiedDevice) (id : String) (p : ResponsePayload)
      → Along (History w) (propose w settings r dev id p)
  unfolding propose
  propose-History dev id p =
      search (endpoint_rules, create_approval_policy_proposal-History) depth 8

  follow_up-History :
      (dev : VerifiedDevice) (id : String) (type : DecisionType)
      → Along (History w) (follow_up w settings r dev id type)
  unfolding follow_up on_option
  follow_up-History dev id type = by_transition (transition_of type) (ends_over type)
    where
      by_transition :
          (o : Option (ApprovalState × String × String))
          → EndsOver o
          → Along (History w) (
              on_option o (pure tt) λ (target, decision, scope). do
                req ← request_id w r
                transition_approval w id target req dev.device_id (some decision) (some scope)
                pure tt)
      by_transition none over = search clock_rules
      by_transition (some (target, decision, scope)) over =
          search (endpoint_rules, transition_approval-History) depth 10

  respond-History :
      (dev : VerifiedDevice) (id : String) (p : ResponsePayload)
      → Along (History w) (respond w settings r dev id p)
  unfolding respond
  respond-History dev id p =
      search
        (
          endpoint_rules, get_approval_or_404-History, propose-History,
          create_approval_response-History, follow_up-History,
        )
        depth 20

  pub create_response-History :
      (id : String) (p : ResponsePayload) → Along (History w) (create_response w settings r id p)
  unfolding create_response
  create_response-History id p = search (endpoint_rules, respond-History) depth 8
