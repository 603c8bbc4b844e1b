-- ===== src/Store/Audit.antt =====
-- The audit log: `append_audit_event`, `latest_audit_hash` and `get_audit_event` of store.py. The
-- table is kept by its INTEGER PRIMARY KEY, so its rows stand in the order of `sequence`.
use agentic_control_tower.Prelude.{suc, String, Option, none, some, [], ◌∷◌, ◌++◌, last?, not}
use agentic_control_tower.World.{World}
use agentic_control_tower.Json.{Json, dict, str, opt}
use agentic_control_tower.Exec.{gets, modify, require, or_key_error, integrity_error, ◌>>=◌, ◌>>◌}
use agentic_control_tower.Table.{find?, has_key}
use agentic_control_tower.Store.Rows.{AuditRow, Refs}
use agentic_control_tower.Store.State.{Action}
use agentic_control_tower.Store.Security.{now_utc, new_id, utc_iso, content_hash}

abbrev pub no_refs : Refs
no_refs = record {
  agent_id = none;
  session_id = none;
  approval_id = none;
  notification_id = none;
  voice_session_id = none;
}

-- What the hash of an event covers.
unfoldable pub audit_content : World → AuditRow → Json
audit_content w e = dict (
    ("audit_event_id", str e.audit_event_id)
    ∷ ("event_type", str e.event_type)
    ∷ ("actor_type", str e.actor_type)
    ∷ ("actor_id", str e.actor_id)
    ∷ ("node_id", str e.node_id)
    ∷ ("request_id", str e.request_id)
    ∷ ("previous_hash", opt e.previous_hash)
    ∷ ("payload_redacted", e.payload_redacted)
    ∷ ("created_at", str (utc_iso w e.created_at))
    ∷ [])

abbrev pub hash_of : Option AuditRow → Option String
hash_of none = none
hash_of (some e) = some e.hash

unfoldable pub latest_audit_hash : Action (Option String)
latest_audit_hash = gets (λ s. hash_of (last? s.audit_events))

unfoldable pub get_audit_event : String → Action AuditRow
get_audit_event id = do
  row ← gets (λ s. find? (λ e. e.audit_event_id) id s.audit_events)
  or_key_error id row

-- INSERT INTO audit_events: `audit_event_id` is UNIQUE, `sequence` is the next number.
unfoldable pub insert_audit : AuditRow → Action (Unit {0})
insert_audit row = do
  taken ← gets (λ s. has_key (λ e. e.audit_event_id) row.audit_event_id s.audit_events)
  require (not taken) integrity_error
  modify λ s. record s {
    audit_events = s.audit_events ++ record row { sequence = suc s.audit_sequence } ∷ [];
    audit_sequence = suc s.audit_sequence;
  }

module _ (w : World) where
  -- `hash` is filled in from the other fields.
  unfoldable pub sealed : AuditRow → AuditRow
  sealed e = record e { hash = content_hash w (audit_content w e) }

  unfoldable pub append_audit_event :
      String → String → String → String → String → Json → Refs → Action AuditRow
  append_audit_event event_type actor_type actor_id node_id request_id payload refs = do
    created_at ← now_utc w
    previous_hash ← latest_audit_hash
    audit_event_id ← new_id w "aud"
    insert_audit (
        sealed (record {
          sequence = 0;
          audit_event_id = audit_event_id;
          event_type = event_type;
          actor_type = actor_type;
          actor_id = actor_id;
          node_id = node_id;
          refs = refs;
          request_id = request_id;
          previous_hash = previous_hash;
          hash = "";
          payload_redacted = payload;
          created_at = created_at;
        }))
    get_audit_event audit_event_id
