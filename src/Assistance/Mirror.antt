-- ===== src/Assistance/Mirror.antt =====
-- What the endpoints that change a session do besides: the change of the session's operator session,
-- and the audit event and the envelope, which leave the sessions as they are.
use agentic_control_tower.Prelude.{◌≡◌, refl, String, Option, none, some, eq_refl, suc}
use agentic_control_tower.World.{World}
use agentic_control_tower.Json.{Json}
use agentic_control_tower.Exec.{gets, modify, or_key_error, suppress_key_error, ◌>>=◌}
use agentic_control_tower.Exec.Along.{Along}
use agentic_control_tower.Table.{find?, update}
use agentic_control_tower.Table.Laws.{find?-update}
use agentic_control_tower.Store.SessionRows.{OperatorSessionRow}
use agentic_control_tower.Store.State.{Store, Settings}
use agentic_control_tower.Store.Security.{now_utc}
use agentic_control_tower.Store.Sql.{Table, row_at, fetch, update_where}
use agentic_control_tower.Store.Logged.{Logged, logged_rules}
use agentic_control_tower.Store.Operators.{
  operator_sessions, moved_to, update_operator_session_state, get_operator_session,
}
use agentic_control_tower.Signing.{HttpRequest}
use agentic_control_tower.Signing.Logged.{request_id-Logged}
use agentic_control_tower.Assistance.{
  Subject, audit_subject, announce, update_operator_session_if_exists,
}

-- The row under a key after `UPDATE … SET f WHERE key = ?`.
abbrev pub changed : {R : Type 0} → (R → R) → Option R → Option R
changed f none = none
changed f (some r) = some (f r)

module _ {R : Type 0} where
  pub row_at-update :
      (t : Table R) (f : R → R) (keeps : (r : R) → t.key (f r) ≡ t.key r) (k : String) (s u : Store)
      → t.rows u ≡ update t.key k f (t.rows s)
      → row_at t k u ≡ changed f (row_at t k s)
  row_at-update t f keeps k s u h = rw h (
      rw (find?-update t.key f keeps k k (t.rows s))
        (rw (eq_refl k) (by_row (find? t.key k (t.rows s)))))
    where
      by_row : (o : Option R) → elim o [ none ↦ none | some r ↦ some (f r) ] ≡ changed f o
      by_row none = refl
      by_row (some r) = refl

module _ (w : World) where
  -- Whether the operator session exists or not, nothing but its row and the clock changes.
  pub mirror-lem :
      (id state : String) (owner summary : Option String) (s : Store)
      → (update_operator_session_if_exists w id state owner summary s).1 ≡ record s {
        reads = suc s.reads;
        operator_sessions =
            update operator_sessions.key id
              (moved_to state owner summary (w.clock s.reads))
              s.operator_sessions;
      }
  unfolding update_operator_session_if_exists update_operator_session_state suppress_key_error
      get_operator_session ◌>>=◌ now_utc update_where fetch modify gets or_key_error
  mirror-lem id state owner summary s =
      by_row
        (find? operator_sessions.key id (
          update operator_sessions.key id (moved_to state owner summary (w.clock s.reads))
            s.operator_sessions))
        refl
    where
      by_row :
          (o : Option OperatorSessionRow)
          → find? operator_sessions.key id (
              update operator_sessions.key id
                (moved_to state owner summary (w.clock s.reads))
                s.operator_sessions)
            ≡ o
          → (update_operator_session_if_exists w id state owner summary s).1 ≡ record s {
            reads = suc s.reads;
            operator_sessions =
                update operator_sessions.key id
                  (moved_to state owner summary (w.clock s.reads))
                  s.operator_sessions;
          }
      by_row none e = rw e refl
      by_row (some o) e = rw e refl

  pub announce-Logged :
      (q : Subject) (event_type : String) (payload : Json)
      → Along Logged (announce w q event_type payload)
  unfolding announce
  announce-Logged q event_type payload = search logged_rules

  pub audit_subject-Logged :
      (settings : Settings) (r : HttpRequest) (type actor : String) (q : Subject)
      (event_type : String) (payload : Json)
      → Along Logged (audit_subject w settings r type actor q event_type payload)
  unfolding audit_subject
  audit_subject-Logged settings r type actor q event_type payload =
      search (logged_rules, request_id-Logged)
