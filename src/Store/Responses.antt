-- ===== src/Store/Responses.antt =====
-- Responses to approval requests and policy proposals: `create_approval_response`,
-- `list_approval_responses` and `create_approval_policy_proposal` of store.py.
use agentic_control_tower.Prelude.{String, Option, List, ◌==◌}
use agentic_control_tower.World.{World}
use agentic_control_tower.Json.{Json}
use agentic_control_tower.Exec.{◌>>=◌, ◌>>◌}
use agentic_control_tower.Store.Rows.{ResponseRow, ProposalRow, DecisionType}
use agentic_control_tower.Store.State.{Action}
use agentic_control_tower.Store.Security.{iso_lt, now_utc, new_id}
use agentic_control_tower.Store.Sql.{Table, fetch, insert, list_where}

abbrev pub approval_responses : Table ResponseRow
approval_responses = record {
  key = λ r. r.approval_response_id;
  rows = λ s. s.approval_responses;
  put = λ s rows. record s { approval_responses = rows };
}

abbrev pub policy_proposals : Table ProposalRow
policy_proposals = record {
  key = λ p. p.policy_proposal_id;
  rows = λ s. s.approval_policy_proposals;
  put = λ s rows. record s { approval_policy_proposals = rows };
}

unfoldable pub get_approval_response : String → Action ResponseRow
get_approval_response response_id = fetch approval_responses response_id

unfoldable pub list_approval_responses : String → Action (List ResponseRow)
list_approval_responses approval_id =
    list_where approval_responses (λ r. r.approval_id == approval_id)
      (λ a b. iso_lt b.created_at a.created_at)

unfoldable pub get_approval_policy_proposal : String → Action ProposalRow
get_approval_policy_proposal proposal_id = fetch policy_proposals proposal_id

module _ (w : World) where
  unfoldable pub create_approval_policy_proposal :
      String → String → String → String → Json → Action ProposalRow
  create_approval_policy_proposal approval_id device_id status warning constraints = do
    proposal_id ← new_id w "polp"
    created_at ← now_utc w
    insert policy_proposals (record {
      policy_proposal_id = proposal_id;
      approval_id = approval_id;
      created_by_device_id = device_id;
      status = status;
      warning = warning;
      constraints = constraints;
      created_at = created_at;
    })
    get_approval_policy_proposal proposal_id

  unfoldable pub create_approval_response :
      String
      → DecisionType
      → String
      → Option String
      → Option String
      → Json
      → Option String
      → Action ResponseRow
  create_approval_response approval_id decision_type device_id message directive constraints
        proposal_id =
      do
        response_id ← new_id w "appr_resp"
        created_at ← now_utc w
        insert approval_responses (record {
          approval_response_id = response_id;
          approval_id = approval_id;
          decision_type = decision_type;
          created_by_device_id = device_id;
          user_message = message;
          alternate_directive = directive;
          constraints = constraints;
          policy_proposal_id = proposal_id;
          created_at = created_at;
        })
        get_approval_response response_id
