-- ===== src/Notifications.antt =====
-- Notifications: `_create_mobile_notification` of app.py, the adapter's `create_notification`, and
-- the endpoints that call them.
pub mod Screening
use Prim.Native.String.{count}
use agentic_control_tower.Prelude.{
  ℕ, String, Bool, true, false, Option, none, some, List, [], ◌∷◌, ltb, if◌then◌else◌,
}
use agentic_control_tower.World.{World}
use agentic_control_tower.Json.{Json, dict, str}
use agentic_control_tower.Exec.{pure, raise, http, on_option, ◌>>=◌, ◌>>◌}
use agentic_control_tower.Store.Rows.{NotificationRow, Refs}
use agentic_control_tower.Store.State.{Action, Settings}
use agentic_control_tower.Store.Security.{has_secret_text}
use agentic_control_tower.Store.Audit.{append_audit_event, no_refs}
use agentic_control_tower.Store.Events.{create_event}
use agentic_control_tower.Store.Notifications.{create_notification}
use agentic_control_tower.Capabilities.{require_runtime_capability}
use agentic_control_tower.Signing.{HttpRequest, request_id}
use agentic_control_tower.LocalBinding.{verify_hermes_local_request}

-- MobileNotifyRequest
pub record NotifyPayload : Type 0 where
  pub title : String
  pub body : String
  pub urgency : String
  pub category : String
  pub agent_id : String
  pub session_id : String
  pub action_id : Option String
  pub dedupe_key : Option String

abbrev pub max_notification_title_chars : ℕ
max_notification_title_chars = 120

abbrev pub max_notification_body_chars : ℕ
max_notification_body_chars = 800

abbrev pub refs_of : NotifyPayload → Refs
refs_of p = record no_refs { agent_id = some p.agent_id; session_id = some p.session_id }

module _ (w : World) where
  unfoldable pub notification_rejection_reason : NotifyPayload → Option String
  notification_rejection_reason p =
      if ltb max_notification_title_chars (count p.title)
      then some "title_too_large"
      else if ltb max_notification_body_chars (count p.body)
      then some "body_too_large"
      else if has_secret_text w (p.title ∷ p.body ∷ [])
      then some "secret_scan_failed"
      else none

module _ (w : World) (settings : Settings) where
  unfoldable pub reject_notification :
      Action String → NotifyPayload → String → Action NotificationRow
  reject_notification id_action p reason = do
    id ← id_action
    append_audit_event w "notification_rejected" "hermes" p.agent_id settings.node_id id
        (dict (("category", str p.category) ∷ ("reason", str reason) ∷ [])) (refs_of p)
    raise (http 422 "notification body is not safe")

  unfoldable pub queue_notification : Action String → NotifyPayload → Action NotificationRow
  queue_notification id_action p = do
    n ← create_notification w (record {
      notification_id = "";
      node_id = settings.node_id;
      agent_id = p.agent_id;
      session_id = p.session_id;
      action_id = p.action_id;
      category = p.category;
      urgency = p.urgency;
      title_safe = p.title;
      body_safe = p.body;
      dedupe_key = p.dedupe_key;
      state = "queued";
      created_at = 0;
    })
    id ← id_action
    append_audit_event w "notification_queued" "hermes" p.agent_id settings.node_id id
        (dict (("category", str p.category) ∷ ("urgency", str p.urgency) ∷ []))
        (record (refs_of p) { notification_id = some n.notification_id })
    create_event w settings.node_id "notification.created"
        (dict (
          ("notification_id", str n.notification_id)
          ∷ ("category", str p.category)
          ∷ ("urgency", str p.urgency)
          ∷ []))
        (some p.agent_id) (some p.session_id)
    pure n

  -- `id_action` is where the two versions differ: the endpoint reads the request's identifier
  -- when it writes the audit event, the adapter is given one.
  unfoldable pub create_mobile_notification : Action String → NotifyPayload → Action NotificationRow
  create_mobile_notification id_action p =
      on_option (notification_rejection_reason w p) (queue_notification id_action p)
        (reject_notification id_action p)

module _ (w : World) (settings : Settings) (r : HttpRequest) where
  unfoldable pub mobile_notify : NotifyPayload → Action NotificationRow
  mobile_notify p = do
    verify_hermes_local_request w settings r
    create_mobile_notification w settings (request_id w r) p

  -- The adapter's notice has no `dedupe_key`.
  unfoldable pub runtime_notification : NotifyPayload → Action NotificationRow
  runtime_notification p = do
    verify_hermes_local_request w settings r
    first_id ← request_id w r
    require_runtime_capability w settings "notifications" first_id p.agent_id none (some p.agent_id)
    id ← request_id w r
    create_mobile_notification w settings (pure id) (record p { dedupe_key = none })
