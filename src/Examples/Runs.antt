-- ===== src/Examples/Runs.antt =====
-- Runs of calls on the concrete state.
use agentic_control_tower.Prelude.{◌≡◌, refl, true, some, none, List, [], ◌∷◌, ◌++◌, All}
use agentic_control_tower.Table.{Unique, find?}
use agentic_control_tower.Store.Rows.{ApprovalRow, AuditRow, denied, pending}
use agentic_control_tower.Store.State.{Store}
use agentic_control_tower.Store.Approvals.{approvals}
use agentic_control_tower.Store.Devices.{devices, seen_nonce}
use agentic_control_tower.Store.Sql.{row_at}
use agentic_control_tower.Signing.{HttpRequest}
use agentic_control_tower.Calls.{Call, serve}
use agentic_control_tower.History.{Chained, IsRevoked, IsRecorded, request_of}
use agentic_control_tower.History.Runs.Claims.{
  decided_is_final, request_is_immutable, audit_log_grows_as_a_chain, used_nonce_stays,
  IsRevoked-stays, decisions_stay_complete,
}
use agentic_control_tower.Examples.World.{toy, settings, signed_by}
use agentic_control_tower.Examples.States.{two_approvals, lost_phone, approval}

abbrev pub script : List (HttpRequest × Call)
script =
    (signed_by "dev" "n1", Call.approve_once "a1")
    ∷ (signed_by "dev" "n2", Call.approve_once "a2")
    ∷ (signed_by "dev" "n3", Call.revoke_device "dev")
    ∷ []

pub two_approvals-Unique : Unique approvals.key two_approvals.approval_requests
unfolding find?
two_approvals-Unique = (refl, (refl, tt))

decided_is_final_example :
    row_at approvals "a2" (serve toy settings script two_approvals) ≡ some (approval "a2" denied)
unfolding find?
decided_is_final_example =
    decided_is_final toy settings script two_approvals two_approvals-Unique "a2"
      (approval "a2" denied) refl refl

request_is_immutable_example :
    (b : ApprovalRow) × (row_at approvals "a1" (serve toy settings script two_approvals) ≡ some b)
    × (request_of b ≡ request_of (approval "a1" pending))
unfolding find?
request_is_immutable_example =
    request_is_immutable toy settings script two_approvals two_approvals-Unique "a1"
      (approval "a1" pending) refl

audit_log_example :
    ((new : List AuditRow) × ((serve toy settings script two_approvals).audit_events
        ≡ two_approvals.audit_events ++ new))
    × Chained toy none (serve toy settings script two_approvals).audit_events
audit_log_example =
    audit_log_grows_as_a_chain toy settings script two_approvals two_approvals-Unique tt

used_nonce_example :
    seen_nonce "dev" "n0" (serve toy settings script two_approvals).request_nonces ≡ true
unfolding seen_nonce
used_nonce_example =
    used_nonce_stays toy settings script two_approvals two_approvals-Unique "dev" "n0" refl

IsRevoked-stays_example : IsRevoked (row_at devices "dev" (serve toy settings script lost_phone))
unfolding find?
IsRevoked-stays_example =
    IsRevoked-stays toy settings script lost_phone two_approvals-Unique "dev" refl

-- One approval waits, and one was denied by the phone.
abbrev recorded_approvals : Store
recorded_approvals = record two_approvals {
  approval_requests =
      approval "a1" pending
      ∷ record (approval "a2" denied) { decision_actor_device_id = some "dev"; decided_at = some 1 }
      ∷ [];
}

recorded_approvals-Unique : Unique approvals.key recorded_approvals.approval_requests
unfolding find?
recorded_approvals-Unique = (refl, (refl, tt))

decisions_example : All IsRecorded (serve toy settings script recorded_approvals).approval_requests
decisions_example =
    decisions_stay_complete toy settings script recorded_approvals recorded_approvals-Unique
      ((refl, refl), ((tt, tt), tt))
