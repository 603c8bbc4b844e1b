-- ===== src/Examples/Outputs.antt =====
-- A notification and a cursor.
use agentic_control_tower.Prelude.{arith}
use agentic_control_tower.Exec.{ok}
use agentic_control_tower.Store.Events.{list_events_after}
use agentic_control_tower.Feed.Pages.{list_events_after-cursor}
use agentic_control_tower.Examples.States.{event, three_events}
use agentic_control_tower.Store.Notifications.{get_notification, create_notification}
use agentic_control_tower.Store.Grants.{}
use agentic_control_tower.Store.Events.{insert_event, get_event_by_id, create_event}
use agentic_control_tower.Store.Audit.{
  sealed, latest_audit_hash, insert_audit, get_audit_event, audit_content, append_audit_event,
}
use agentic_control_tower.Store.Sql.{insert, fetch}
use agentic_control_tower.Prelude.{◌≡◌, refl, false, none, some, [], ◌∷◌, ltb}
use Prim.Native.String.{count}
use agentic_control_tower.World.{World, pos}
use agentic_control_tower.Exec.{raise, require, or_key_error, modify, on_option, gets, ◌>>=◌, pure}
use agentic_control_tower.Exec.Returns.{Returns}
use agentic_control_tower.Store.Rows.{NotificationRow}
use agentic_control_tower.Store.State.{Store, empty_store}
use agentic_control_tower.Signing.{}
use agentic_control_tower.Table.{has_key, find?}
use agentic_control_tower.Store.Security.{
  join, has_part, any_part, new_token, new_id, content_hash, now_utc, has_secret_text,
}
use agentic_control_tower.Store.Cursor.{cursor_sequence, cursor_text, after_last_colon}
use agentic_control_tower.Store.Cursor.RoundTrip.{cursor_sequence-cursor_text}
use agentic_control_tower.Store.Tokens.{}
use agentic_control_tower.Store.Tokens.Valid.{}
use agentic_control_tower.Pairing.{}
use agentic_control_tower.Pairing.Laws.{}
use agentic_control_tower.Notifications.{
  reject_notification, queue_notification, notification_rejection_reason,
  create_mobile_notification,
}
use agentic_control_tower.Notifications.Screening.{queued_is_screened}
use agentic_control_tower.History.Runs.Lockout.{}
use agentic_control_tower.Examples.World.{toy, settings}
use agentic_control_tower.Examples.States.{notice}

abbrev after_notice : Store
after_notice = (create_mobile_notification toy settings (pure "req") notice empty_store).1

abbrev queued : NotificationRow
queued = record {
  notification_id = "ntf_";
  node_id = "node_local";
  agent_id = "agent";
  session_id = "sess";
  action_id = none;
  category = "task_complete";
  urgency = "normal";
  title_safe = "Done";
  body_safe = "The task is complete";
  dedupe_key = none;
  state = "queued";
  created_at = 1000000000;
}

notice-Returns :
    Returns
      (create_mobile_notification toy settings (pure "req") notice)
      empty_store
      queued
      after_notice
unfolding create_mobile_notification on_option notification_rejection_reason has_secret_text
    queue_notification ◌>>=◌ create_notification new_id pure now_utc insert gets require has_key
    modify get_notification fetch or_key_error raise reject_notification append_audit_event
    audit_content get_audit_event insert_audit latest_audit_hash sealed cursor_text create_event
    get_event_by_id insert_event any_part content_hash has_part join new_token find?
notice-Returns = record { run = refl }

queued_is_screened_example :
    (ltb 120 (count queued.title_safe) ≡ false)
    × (ltb 800 (count queued.body_safe) ≡ false)
    × (has_secret_text toy (queued.title_safe ∷ queued.body_safe ∷ []) ≡ false)
    × (queued.title_safe ≡ notice.title)
    × (queued.body_safe ≡ notice.body)
queued_is_screened_example = queued_is_screened toy settings (pure "req") notice notice-Returns

abbrev counting : World
counting = record toy { int = λ text. some (pos (count text)) }

cursor_example : cursor_sequence counting (some (cursor_text counting "node" 3)) ≡ pos 3
unfolding after_last_colon
cursor_example = cursor_sequence-cursor_text counting "node" 3 refl refl

list_events_after-cursor_example :
    list_events_after counting (some "node:xx") (pos 10) three_events
    ≡ (ok (event 4 "node:xxxx" ∷ []), three_events)
unfolding cursor_text after_last_colon
list_events_after-cursor_example =
    list_events_after-cursor counting three_events (pos 10) (event 1 "node:x" ∷ [])
      (event 2 "node:xx") (event 4 "node:xxxx" ∷ []) refl
      ((omega arith, (omega arith, tt)), ((omega arith, tt), (tt, tt))) refl refl refl
