-- ===== src/Store/Notifications.antt =====
-- Notifications: `create_notification` and `get_notification` of store.py.
use agentic_control_tower.Prelude.{String}
use agentic_control_tower.World.{World}
use agentic_control_tower.Exec.{◌>>=◌, ◌>>◌}
use agentic_control_tower.Store.Rows.{NotificationRow}
use agentic_control_tower.Store.State.{Action}
use agentic_control_tower.Store.Security.{now_utc, new_id}
use agentic_control_tower.Store.Sql.{Table, fetch, insert}

abbrev pub notifications : Table NotificationRow
notifications = record {
  key = λ n. n.notification_id;
  rows = λ s. s.notifications;
  put = λ s rows. record s { notifications = rows };
}

unfoldable pub get_notification : String → Action NotificationRow
get_notification notification_id = fetch notifications notification_id

module _ (w : World) where
  -- The notification that the caller describes; `notification_id` and `created_at` are filled in.
  unfoldable pub create_notification : NotificationRow → Action NotificationRow
  create_notification n = do
    notification_id ← new_id w "ntf"
    created_at ← now_utc w
    insert notifications (record n { notification_id = notification_id; created_at = created_at })
    get_notification notification_id
