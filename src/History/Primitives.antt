-- ===== src/History/Primitives.antt =====
-- The methods of the store keep the history. `resolve_approval` does so where the approval is
-- pending: its UPDATE does not look at the state.
use mathlib.Core.List.{append-nil}
use agentic_control_tower.Prelude.{
  suc, ◌≡◌, refl, sym, ◌∙◌, String, Option, none, some, List, [], ◌∷◌, ◌++◌, last?, arith,
}
use agentic_control_tower.World.{World, ℤ}
use agentic_control_tower.Json.{Json}
use agentic_control_tower.Exec.{pure, gets, modify, require, ◌>>=◌}
use agentic_control_tower.Exec.Along.{
  Preorder, Along, along_rules, bind-from, Along-bind, Along-pure, Along-gets, Along-require,
}
use agentic_control_tower.Table.{find?, has_key}
use agentic_control_tower.Store.Rows.{Refs, AuditRow}
use agentic_control_tower.Store.State.{Store}
use agentic_control_tower.Store.Security.{now_utc, new_id, new_token, expires_in}
use agentic_control_tower.Store.Audit.{
  append_audit_event, insert_audit, latest_audit_hash, get_audit_event, sealed, hash_of,
  audit_content,
}
use agentic_control_tower.Store.Lasting.{Lasting, Lasting-same}
use agentic_control_tower.History.{
  History, History-preorder, Evolves, Evolves-refl, Chained, head_hash, IsRevoked, request_of,
}

-- The tables that the history speaks of are the same.
pub record SameRecords (s t : Store) : Type 0 where
  pub approvals : t.approval_requests ≡ s.approval_requests
  pub audit : t.audit_events ≡ s.audit_events
  pub nonces : t.request_nonces ≡ s.request_nonces
  pub devices : t.devices ≡ s.devices
  pub requests : t.assistance_requests ≡ s.assistance_requests
  pub assistance : t.assistance_sessions ≡ s.assistance_sessions
  pub browser : t.browser_assistance_sessions ≡ s.browser_assistance_sessions
  pub voice : t.voice_sessions ≡ s.voice_sessions

module _ (w : World) where
  -- The operator's sessions last, and the other tables that the history speaks of are the same.
  pub rows-History :
      (s t : Store)
      → t.approval_requests ≡ s.approval_requests
      → t.audit_events ≡ s.audit_events
      → t.request_nonces ≡ s.request_nonces
      → t.devices ≡ s.devices
      → Lasting s t
      → History w s t
  rows-History s t approvals audit same_nonces devices lasting = record {
    unique = λ u. rw approvals u;
    evolves = record { at = λ id a at_s. (a, rw approvals at_s, refl, λ _. refl) };
    appended = ([], audit ∙ sym (append-nil s.audit_events));
    chained = λ c. rw audit c;
    nonces = λ d n seen. rw same_nonces seen;
    revocations = λ id r. rw devices r;
    recorded = λ x. rw approvals x;
    lasting = lasting;
  }

  pub SameRecords-History : (s t : Store) → SameRecords s t → History w s t
  SameRecords-History s t h =
      rows-History s t h.approvals h.audit h.nonces h.devices
        (Lasting-same s t h.requests h.assistance h.browser h.voice)

  -- Reading the clock, drawing from the random source and writing another table.
  pub other-History :
      (f : Store → Store) → ((s : Store) → SameRecords s (f s)) → Along (History w) (modify f)
  unfolding modify
  other-History f h = record { at = λ s. SameRecords-History s (f s) (h s) }

  pub now_utc-History : Along (History w) (now_utc w)
  unfolding now_utc
  now_utc-History = record {
    at = λ s. SameRecords-History s _ (record {
      approvals = refl;
      audit = refl;
      nonces = refl;
      devices = refl;
      requests = refl;
      assistance = refl;
      browser = refl;
      voice = refl;
    });
  }

  pub new_token-History : Along (History w) (new_token w)
  unfolding new_token
  new_token-History = record {
    at = λ s. SameRecords-History s _ (record {
      approvals = refl;
      audit = refl;
      nonces = refl;
      devices = refl;
      requests = refl;
      assistance = refl;
      browser = refl;
      voice = refl;
    });
  }

  pub ruleset world_rules = (along_rules, History-preorder, now_utc-History, new_token-History)

  pub new_id-History : (prefix : String) → Along (History w) (new_id w prefix)
  unfolding new_id
  new_id-History prefix = search world_rules

  pub expires_in-History : (seconds : ℤ) → Along (History w) (expires_in w seconds)
  unfolding expires_in
  expires_in-History seconds = search world_rules

  pub ruleset clock_rules = (world_rules, new_id-History, expires_in-History)

  head_hash-last? :
      (first : Option String) (rows : List AuditRow)
      → elim (last? rows) [ none ↦ first | some e ↦ some e.hash ] ≡ head_hash first rows
  head_hash-last? first [] = refl
  head_hash-last? first (e ∷ rows) = ground (arith, head_hash-last? (some e.hash) rows)

  latest-head_hash : (rows : List AuditRow) → hash_of (last? rows) ≡ head_hash none rows
  latest-head_hash rows = ground (arith, head_hash-last? none rows)

  Chained-append :
      (first : Option String) (rows : List AuditRow) (e : AuditRow)
      → Chained w first rows
      → e.previous_hash ≡ head_hash first rows
      → e.hash ≡ (sealed w e).hash
      → Chained w first (rows ++ e ∷ [])
  Chained-append first [] e c p q = (p, q, tt)
  Chained-append first (d ∷ rows) e c p q = (c.0, c.1, Chained-append (some d.hash) rows e c.2 p q)

  -- One more event that names the hash of the last one and carries the hash of its contents.
  audit-History :
      (s t : Store) (e : AuditRow)
      → t.audit_events ≡ s.audit_events ++ e ∷ []
      → t.approval_requests ≡ s.approval_requests
      → t.request_nonces ≡ s.request_nonces
      → t.devices ≡ s.devices
      → Lasting s t
      → e.previous_hash ≡ hash_of (last? s.audit_events)
      → e.hash ≡ (sealed w e).hash
      → History w s t
  audit-History s t e log same_approvals same_nonces same_devices lasting previous own = record {
    unique = λ u. rw same_approvals u;
    evolves = record { at = λ id a at_s. (a, rw same_approvals at_s, refl, λ _. refl) };
    appended = (e ∷ [], log);
    chained = λ c.
        rw log
          (Chained-append none s.audit_events e c (previous ∙ latest-head_hash s.audit_events) own);
    nonces = λ d n seen. rw same_nonces seen;
    revocations = λ id r. rw same_devices r;
    recorded = λ x. rw same_approvals x;
    lasting = lasting;
  }

  insert_audit-at :
      (e : AuditRow) (s : Store)
      → e.previous_hash ≡ hash_of (last? s.audit_events)
      → e.hash ≡ (sealed w e).hash
      → History w s (insert_audit e s).1
  unfolding insert_audit ◌>>=◌ gets require modify has_key sealed audit_content
  insert_audit-at e s previous own =
      by_row (find? (λ d. d.audit_event_id) e.audit_event_id s.audit_events) refl
    where
      by_row :
          (o : Option AuditRow)
          → find? (λ d. d.audit_event_id) e.audit_event_id s.audit_events ≡ o
          → History w s (insert_audit e s).1
      by_row none found =
          rw (found, has_key)
            (audit-History s _ (record e { sequence = suc s.audit_sequence }) refl refl refl refl
              (Lasting-same s _ refl refl refl refl) previous own)
      by_row (some d) found = rw (found, has_key) ((History-preorder w).same s)

  get_audit_event-History : (id : String) → Along (History w) (get_audit_event id)
  unfolding get_audit_event
  get_audit_event-History id = search clock_rules

  -- An event is appended under the hash of the last event of the state in which it is appended.
  pub append_audit_event-History :
      (event_type actor_type actor_id node_id request_id : String) (payload : Json) (refs : Refs)
      → Along
          (History w)
          (append_audit_event w event_type actor_type actor_id node_id request_id payload refs)
  unfolding append_audit_event latest_audit_hash sealed audit_content ◌>>=◌ now_utc new_id gets pure
  append_audit_event-History event_type actor_type actor_id node_id request_id payload refs =
      record {
        at = λ s.
            let drawn = record s { reads = suc s.reads; draws = suc s.draws } in
            (History-preorder w).join s drawn _
              (SameRecords-History s drawn (record {
                approvals = refl;
                audit = refl;
                nonces = refl;
                devices = refl;
                requests = refl;
                assistance = refl;
                browser = refl;
                voice = refl;
              }))
              (bind-from (History-preorder w) (insert_audit _) (λ _. get_audit_event _) drawn drawn
                (insert_audit-at _ drawn refl refl) (λ _. get_audit_event-History _));
      }
