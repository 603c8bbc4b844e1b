-- ===== src/History/Stores.antt =====
-- The other methods of the store keep the history: each writes one table, under a new key where it
-- inserts.
use agentic_control_tower.Prelude.{
  ◌≡◌, refl, sym, ◌∙◌, String, Bool, true, false, Option, none, some, List, [], ◌∷◌, ◌++◌, arith,
  ◌==◌, if◌then◌else◌, All-append,
}
use mathlib.Core.List.{append-nil}
use agentic_control_tower.World.{World, ℤ}
use agentic_control_tower.Json.{Json}
use agentic_control_tower.Exec.{modify}
use agentic_control_tower.Exec.Along.{Along}
use agentic_control_tower.Table.{find?, update}
use agentic_control_tower.Table.Laws.{find?-append, find?-update, append-Unique}
use agentic_control_tower.Store.Rows.{ApprovalRow, EventRow, DeviceRow, NonceRow, revoked}
use agentic_control_tower.Store.State.{Store}
use agentic_control_tower.Store.Events.{create_event, insert_event, get_event_by_id}
use agentic_control_tower.Store.Approvals.{approvals, NewApproval, create_approval, get_approval}
use agentic_control_tower.Store.Devices.{
  devices, seen_nonce, create_device, get_device, revoke_device, record_request_nonce,
}
use agentic_control_tower.Store.Pairing.{}
use agentic_control_tower.Store.Responses.{}
use agentic_control_tower.Store.Sql.{insert, update_where}
use agentic_control_tower.Store.Sql.Laws.{
  Along-fetch, Along-exists, Along-insert, Along-update_where,
}
use agentic_control_tower.Store.Lasting.{Lasting-same}
use agentic_control_tower.History.{History, History-preorder, IsRevoked, IsRecorded, Recorded}
use agentic_control_tower.History.Primitives.{other-History, clock_rules}

module _ (w : World) where
  insert_event-History : (e : EventRow) → Along (History w) (insert_event w e)
  unfolding insert_event
  insert_event-History e = search (clock_rules, other-History)

  pub create_event-History :
      (node_id event_type : String) (payload : Json) (agent_id session_id : Option String)
      → Along (History w) (create_event w node_id event_type payload agent_id session_id)
  unfolding create_event get_event_by_id
  create_event-History node_id event_type payload agent_id session_id =
      search (clock_rules, insert_event-History) depth 12

  -- A new approval is found under its key, and every other lookup returns what it returned before.
  approvals_insert :
      (r : ApprovalRow) (s : Store)
      → IsRecorded r
      → find? approvals.key r.approval_id s.approval_requests ≡ none
      → History w s (record s { approval_requests = s.approval_requests ++ r ∷ [] })
  approvals_insert r s well fresh = record {
    unique = λ u. append-Unique approvals.key s.approval_requests r fresh u;
    evolves = record {
      at = λ id a at_s.
          (a, find?-append approvals.key id s.approval_requests r ∙ rw at_s, refl, λ _. refl);
    };
    appended = ([], sym (append-nil s.audit_events));
    chained = λ c. c;
    nonces = λ d n seen. seen;
    revocations = λ id r. r;
    recorded = λ x. All-append IsRecorded s.approval_requests r x well;
    lasting = Lasting-same s _ refl refl refl refl;
  }

  insert_approval-History :
      (r : ApprovalRow) → IsRecorded r → Along (History w) (insert approvals r)
  insert_approval-History r well =
      Along-insert (History-preorder w) approvals r (λ s. approvals_insert r s well)

  pub create_approval-History :
      (a : NewApproval) → Recorded a.state none none → Along (History w) (create_approval w a)
  unfolding create_approval get_approval
  create_approval-History a well =
      search (clock_rules, Along-fetch (History-preorder w) approvals, insert_approval-History)
        depth 12

  devices_insert :
      (d : DeviceRow) (s : Store)
      → find? devices.key d.device_id s.devices ≡ none
      → History w s (record s { devices = s.devices ++ d ∷ [] })
  devices_insert d s fresh = record {
    unique = λ u. u;
    evolves = record { at = λ id a at_s. (a, at_s, refl, λ _. refl) };
    appended = ([], sym (append-nil s.audit_events));
    chained = λ c. c;
    nonces = λ d n seen. seen;
    recorded = λ x. x;
    revocations = λ id r. kept id (find? devices.key id s.devices) refl r;
    lasting = Lasting-same s _ refl refl refl refl;
  }
    where
      kept :
          (id : String) (o : Option DeviceRow)
          → find? devices.key id s.devices ≡ o
          → IsRevoked (find? devices.key id s.devices)
          → IsRevoked (find? devices.key id (s.devices ++ d ∷ []))
      kept id none e r = absurd (rw e at r)
      kept id (some q) e r = rw (find?-append devices.key id s.devices d) (rw e (rw e at r))

  -- Revoking writes the status of the rows of one key.
  devices_revoke :
      (id : String) (s : Store)
      → History w s (record s {
        devices = update devices.key id (λ d. record d { status = revoked }) s.devices;
      })
  devices_revoke id s = record {
    unique = λ u. u;
    evolves = record { at = λ id a at_s. (a, at_s, refl, λ _. refl) };
    appended = ([], sym (append-nil s.audit_events));
    chained = λ c. c;
    nonces = λ d n seen. seen;
    recorded = λ x. x;
    revocations = λ j r.
        rw
          (find?-update devices.key (λ d. record d { status = revoked }) (λ d. refl) id j s.devices)
          (kept (id == j) (find? devices.key j s.devices) r);
    lasting = Lasting-same s _ refl refl refl refl;
  }
    where
      kept :
          (same : Bool) (o : Option DeviceRow)
          → IsRevoked o
          → IsRevoked (
              if same
              then elim o [ none ↦ none | some d ↦ some (record d { status = revoked }) ]
              else o)
      kept true none r = r
      kept true (some d) r = refl
      kept false o r = r

  pub create_device-History :
      (node_id name platform instance : String) (version : Option String) (key : String)
      (permissions : List String)
      → Along (History w) (create_device w node_id name platform instance version key permissions)
  unfolding create_device get_device
  create_device-History node_id name platform instance version key permissions = search (
    clock_rules,
    Along-fetch (History-preorder w) devices,
    λ (d : DeviceRow). Along-insert (History-preorder w) devices d (devices_insert d),
  )

  update_device-History :
      (id : String)
      → Along (History w) (update_where devices id (λ d. record d { status = revoked }))
  update_device-History id =
      Along-update_where (History-preorder w) devices id _ (devices_revoke id)

  pub revoke_device-History : (id : String) → Along (History w) (revoke_device w id)
  unfolding revoke_device
  revoke_device-History id =
      search
        (
          clock_rules,
          Along-exists (History-preorder w) devices,
          update_device-History,
          other-History,
        )
        depth 12

  seen_nonce-append :
      (device nonce : String) (rows : List NonceRow) (n : NonceRow)
      → seen_nonce device nonce rows ≡ true
      → seen_nonce device nonce (rows ++ n ∷ []) ≡ true
  unfolding seen_nonce
  seen_nonce-append device nonce [] n h = cc
  seen_nonce-append device nonce (m ∷ rows) n h =
      ground (arith, seen_nonce-append device nonce rows n)

  nonces_insert :
      (n : NonceRow) (s : Store)
      → History w s (record s { request_nonces = s.request_nonces ++ n ∷ [] })
  nonces_insert n s = record {
    unique = λ u. u;
    evolves = record { at = λ id a at_s. (a, at_s, refl, λ _. refl) };
    appended = ([], sym (append-nil s.audit_events));
    chained = λ c. c;
    nonces = λ d m seen. seen_nonce-append d m s.request_nonces n seen;
    revocations = λ id r. r;
    recorded = λ x. x;
    lasting = Lasting-same s _ refl refl refl refl;
  }

  insert_nonce-History :
      (n : NonceRow)
      → Along (History w) (modify (λ s. record s { request_nonces = s.request_nonces ++ n ∷ [] }))
  unfolding modify
  insert_nonce-History n = record { at = nonces_insert n }

  pub record_request_nonce-History :
      (device nonce : String) (timestamp : ℤ)
      → Along (History w) (record_request_nonce w device nonce timestamp)
  unfolding record_request_nonce
  record_request_nonce-History device nonce timestamp =
      search (clock_rules, Along-exists (History-preorder w) devices, insert_nonce-History) depth 12
