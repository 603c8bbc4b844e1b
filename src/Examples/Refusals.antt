-- ===== src/Examples/Refusals.antt =====
-- Transitions that raise, on concrete states.
use agentic_control_tower.Prelude.{◌≡◌, refl, none, some, [], ◌∷◌}
use agentic_control_tower.Json.{dict, str}
use agentic_control_tower.Exec.{err, http}
use agentic_control_tower.Exec.Returns.{Returns}
use agentic_control_tower.Table.{find?}
use agentic_control_tower.Store.Rows.{pending, approved, denied, expired}
use agentic_control_tower.Store.State.{Store}
use agentic_control_tower.Store.Sql.{row_at}
use agentic_control_tower.Store.Approvals.{approvals, resolved}
use agentic_control_tower.Approvals.{DecisionResponse, transition_approval}
use agentic_control_tower.Approvals.Refusals.{decided-refused, late_decision-expires}
use agentic_control_tower.Examples.World.{toy}
use agentic_control_tower.Examples.States.{two_approvals, approval, overdue}

decided-refused_example :
    transition_approval toy "a2" approved "req" "dev" (some "approve") (some "once") two_approvals
    ≡ (err (http 409 "approval is not pending"), two_approvals)
unfolding find?
decided-refused_example =
    decided-refused toy "a2" approved "req" "dev" (some "approve") (some "once") two_approvals
      (approval "a2" denied) refl refl

late_decision-expires_example :
    (row_at approvals "a1"
        (transition_approval toy "a1" approved "req" "dev" (some "approve") (some "once") overdue).1
      ≡ some (
          resolved expired none none
            (dict (("reason", str "decision_after_expiry") ∷ []))
            1001000000
            (record (approval "a1" pending) { expires_at = 5 })))
    × ((response : DecisionResponse) (t : Store)
        → ¬ Returns
            (transition_approval toy "a1" approved "req" "dev" (some "approve") (some "once"))
            overdue
            response
            t)
unfolding find?
late_decision-expires_example =
    late_decision-expires toy "a1" approved "req" "dev" (some "approve") (some "once") overdue
      (record (approval "a1" pending) { expires_at = 5 }) refl refl refl refl
