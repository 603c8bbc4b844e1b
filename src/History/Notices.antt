-- ===== src/History/Notices.antt =====
-- The endpoints of notifications and of the event feed keep the history.
use agentic_control_tower.History.Callers.{endpoint_rules}
use agentic_control_tower.Prelude.{String, Option}
use agentic_control_tower.World.{World, ℤ}
use agentic_control_tower.Exec.Along.{Along}
use agentic_control_tower.Store.State.{Action, Settings}
use agentic_control_tower.Store.Events.{list_events_after}
use agentic_control_tower.Signing.{HttpRequest}
use agentic_control_tower.Approvals.Endpoints.{}
use agentic_control_tower.Pairing.{}
use agentic_control_tower.Notifications.{
  NotifyPayload, reject_notification, queue_notification, create_mobile_notification, mobile_notify,
  runtime_notification,
}
use agentic_control_tower.Feed.{page_after, list_events}
use agentic_control_tower.History.{History}
use agentic_control_tower.History.Primitives.{clock_rules}
use agentic_control_tower.History.Stores.{}
use agentic_control_tower.History.Tables.{create_notification-History}
use agentic_control_tower.History.Callers.{}

module _ (w : World) (settings : Settings) where
  reject_notification-History :
      (id : Action String) (p : NotifyPayload) (reason : String)
      → Along (History w) id
      → Along (History w) (reject_notification w settings id p reason)
  unfolding reject_notification
  reject_notification-History id p reason h = search endpoint_rules depth 8

  queue_notification-History :
      (id : Action String) (p : NotifyPayload)
      → Along (History w) id
      → Along (History w) (queue_notification w settings id p)
  unfolding queue_notification
  queue_notification-History id p h = search (endpoint_rules, create_notification-History) depth 10

  mobile_notification-History :
      (id : Action String) (p : NotifyPayload)
      → Along (History w) id
      → Along (History w) (create_mobile_notification w settings id p)
  unfolding create_mobile_notification
  mobile_notification-History id p h =
      search (clock_rules, reject_notification-History, queue_notification-History) depth 8

module _ (w : World) (settings : Settings) (r : HttpRequest) where
  pub mobile_notify-History : (p : NotifyPayload) → Along (History w) (mobile_notify w settings r p)
  unfolding mobile_notify
  mobile_notify-History p = search (endpoint_rules, mobile_notification-History) depth 8

  pub runtime_notification-History :
      (p : NotifyPayload) → Along (History w) (runtime_notification w settings r p)
  unfolding runtime_notification
  runtime_notification-History p = search (endpoint_rules, mobile_notification-History) depth 10

  page_after-History :
      (after : Option String) (limit : ℤ) → Along (History w) (page_after w settings r after limit)
  unfolding page_after list_events_after
  page_after-History after limit = search clock_rules

  pub list_events-History :
      (after : Option String) (limit : ℤ) → Along (History w) (list_events w settings r after limit)
  unfolding list_events
  list_events-History after limit = search (endpoint_rules, page_after-History) depth 8
