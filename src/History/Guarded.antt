-- ===== src/History/Guarded.antt =====
-- The UPDATE of `resolve_approval` keeps the history where the approval is pending, and so do the
-- transition of app.py, which tests that, and the expiry scan, which lists the pending approvals.
use mathlib.Core.Path.{subst}
use agentic_control_tower.Prelude.{
  ℕ, suc, ◌≡◌, ◌⊎◌, refl, sym, ◌∙◌, String, Bool, true, false, Option, none, some, arith, eq_iff,
  ◌==◌, Bool-cases, inl, inr,
}
use agentic_control_tower.World.{World}
use agentic_control_tower.Json.{Json}
use agentic_control_tower.Exec.{
  ok, err, Result, pure, gets, modify, require, or_key_error, on_key_error, http, ◌>>=◌, continue,
}
use agentic_control_tower.Exec.Along.{Along, along_rules, bind-from}
use agentic_control_tower.Table.{find?, update}
use agentic_control_tower.Table.Persist.{All-update}
use agentic_control_tower.Table.Laws.{find?-update, find?-key, update-Unique}
use agentic_control_tower.Store.Rows.{
  ApprovalRow, ApprovalState, pending, approved, denied, expired, cancelled, is_pending,
}
use agentic_control_tower.Store.State.{Store}
use agentic_control_tower.Store.Security.{now_utc}
use agentic_control_tower.Store.Approvals.{
  approvals, resolved, resolve_approval, get_approval, Approval, approval_from_row,
}
use agentic_control_tower.Store.Sql.{row_at, fetch, update_where}
use agentic_control_tower.Approvals.{
  get_approval_or_404, transition_approval, decided_late, apply_decision, close_approval, settle,
}
use agentic_control_tower.Store.Lasting.{Lasting-same, Lasting-join}
use agentic_control_tower.History.{History, History-preorder, request_of, IsRecorded, Recorded}
use agentic_control_tower.History.Primitives.{
  now_utc-History, clock_rules, append_audit_event-History,
}
use agentic_control_tower.History.Stores.{create_event-History}

abbrev pub IsOpen : Option ApprovalRow → Type 0
IsOpen none = Unit
IsOpen (some a) = is_pending a.state ≡ true

-- The row that a lookup finds is the row under its own key.
pub IsOpen-at :
    (id : String) (s : Store) (r : ApprovalRow)
    → row_at approvals id s ≡ some r
    → is_pending r.state ≡ true
    → IsOpen (row_at approvals r.approval_id s)
IsOpen-at id s r e open_row =
    subst (λ k. IsOpen (row_at approvals k s))
      (sym (find?-key approvals.key id s.approval_requests r e)) (rw e open_row)

-- A state that a device brings about is recorded with the time and the device.
by_device :
    (target : ApprovalState) (actor : String)
    → is_pending target ≡ false
    → (n : ℕ) → Recorded target (some n) (some actor)
by_device pending actor h n = cc
by_device approved actor h n = (tt, tt)
by_device denied actor h n = (tt, tt)
by_device expired actor h n = tt
by_device cancelled actor h n = tt

module _ (w : World) where
  -- From `s` to `t`, and then a write to a row that was pending in `s`.
  update_pending :
      (id : String) (f : ApprovalRow → ApprovalRow)
      → ((r : ApprovalRow) → (f r).approval_id ≡ r.approval_id)
      → ((r : ApprovalRow) → request_of (f r) ≡ request_of r)
      → ((r : ApprovalRow) → IsRecorded (f r))
      → (s t : Store) → History w s t
      → IsOpen (row_at approvals id s)
      → History w s (record t { approval_requests = update approvals.key id f t.approval_requests })
  update_pending id f same_key same_request well s t h open_row = record {
    unique = λ u. update-Unique approvals.key f same_key id t.approval_requests (h.unique u);
    evolves = record { at = λ j a at_s. evolved j a at_s (Bool-cases (id == j)) };
    appended = h.appended;
    chained = h.chained;
    nonces = h.nonces;
    revocations = h.revocations;
    recorded = λ x.
        All-update approvals.key IsRecorded f (λ r _. well r) id t.approval_requests (h.recorded x);
    lasting = Lasting-join s t _ h.lasting (Lasting-same t _ refl refl refl refl);
  }
    where
      evolved :
          (j : String) (a : ApprovalRow)
          → find? approvals.key j s.approval_requests ≡ some a
          → ((id == j) ≡ true) ⊎ ((id == j) ≡ false)
          → (b : ApprovalRow) × (find? approvals.key j
                (update approvals.key id f t.approval_requests)
              ≡ some b)
            × (request_of b ≡ request_of a)
            × (is_pending a.state ≡ false → b ≡ a)
      evolved j a at_s (inr e) =
          let (b, at_t, same, final) = h.evolves.at j a at_s in
          (
            b,
            find?-update approvals.key f same_key id j t.approval_requests ∙ rw e at_t,
            same,
            final,
          )
      evolved j a at_s (inl e) =
          let (b, at_t, same, final) = h.evolves.at j a at_s in
          let here : id ≡ j = (eq_iff id j).0 e in
          let now_open : IsOpen (some a) = rw at_s at (rw here at open_row) in
          (
            f b,
            find?-update approvals.key f same_key id j t.approval_requests ∙ rw e (rw at_t),
            same_request b ∙ same,
            λ d. cc (now_open, d),
          )

  -- `resolve_approval` reads the clock and then writes.
  pub resolve-from :
      (id : String) (state : ApprovalState) (scope actor : Option String) (metadata : Json)
      (s t : Store)
      → ((n : ℕ) → Recorded state (some n) actor)
      → History w s t
      → IsOpen (row_at approvals id s)
      → History w s (resolve_approval w id state scope actor metadata t).1
  unfolding resolve_approval ◌>>=◌ now_utc update_where modify
  resolve-from id state scope actor metadata s t well h open_row =
      update_pending id (resolved state scope actor metadata (w.clock t.reads)) (λ r. refl)
        (λ r. refl) (λ r. well (w.clock t.reads)) s (record t { reads = suc t.reads })
        ((History-preorder w).join s t _ h ((now_utc-History w).at t)) open_row

  pub ruleset after_rules = (clock_rules, append_audit_event-History, create_event-History)

  pub close_approval-from :
      (a : Approval) (state : ApprovalState) (reason actor_type actor_id request_id : String)
      (s t : Store)
      → ((n : ℕ) → Recorded state (some n) none)
      → History w s t
      → IsOpen (row_at approvals a.approval_id s)
      → History w s (close_approval w a state reason actor_type actor_id request_id t).1
  unfolding close_approval
  close_approval-from a state reason actor_type actor_id request_id s t well h open_row =
      bind-from (History-preorder w) _ _ s t
        (resolve-from a.approval_id state none none _ s t well h open_row)
        (λ _. search after_rules depth 8)

  pub apply_decision-from :
      (a : Approval) (target : ApprovalState) (request_id actor : String)
      (decision scope : Option String) (s t : Store)
      → is_pending target ≡ false
      → History w s t
      → IsOpen (row_at approvals a.approval_id s)
      → History w s (apply_decision w a target request_id actor decision scope t).1
  unfolding apply_decision
  apply_decision-from a target request_id actor decision scope s t over h open_row =
      bind-from (History-preorder w) _ _ s t
        (resolve-from a.approval_id target scope (some actor) _ s t (by_device target actor over) h
          open_row)
        (λ _. search after_rules depth 8)

  settle-from :
      (a : Approval) (target : ApprovalState) (request_id actor : String)
      (decision scope : Option String) (late : Bool) (s t : Store)
      → is_pending target ≡ false
      → History w s t
      → IsOpen (row_at approvals a.approval_id s)
      → History w s (settle w a target request_id actor decision scope late t).1
  unfolding settle
  settle-from a target request_id actor decision scope false s t over h open_row =
      apply_decision-from a target request_id actor decision scope s t over h open_row
  settle-from a target request_id actor decision scope true s t over h open_row =
      bind-from (History-preorder w) _ _ s t
        (close_approval-from a expired "decision_after_expiry" "gateway" "gateway" request_id s t
          (λ n. tt) h open_row)
        (λ _. search (along_rules, History-preorder w))

  -- The lookup that answers 404 for a missing approval.
  pub get_approval_or_404-lem :
      (id : String) (s : Store)
      → get_approval_or_404 w id s ≡ elim (row_at approvals id s) [
        | none ↦ (err (http 404 "approval not found"), s)
        | some r ↦ (ok (approval_from_row r), s)
      ]
  unfolding get_approval_or_404 get_approval on_key_error fetch ◌>>=◌ gets or_key_error pure
  get_approval_or_404-lem id s = ground arith

  decided_late-History :
      (target : ApprovalState) (expires_at : ℕ)
      → Along (History w) (decided_late w target expires_at)
  unfolding decided_late
  decided_late-History target expires_at = search clock_rules

  -- The transition tests the state of the row that it then writes, so it keeps the history from
  -- every state, with every target but pending and every clock.
  pub transition_approval-History :
      (id : String) (target : ApprovalState) (request_id actor : String)
      (decision scope : Option String)
      → is_pending target ≡ false
      → Along (History w) (transition_approval w id target request_id actor decision scope)
  unfolding transition_approval ◌>>=◌ require
  transition_approval-History id target request_id actor decision scope over = record {
    at = λ s. by_row s (row_at approvals id s) refl;
  }
    where
      finish :
          (a : Approval) (late : Result Bool) (s t : Store)
          → History w s t
          → IsOpen (row_at approvals a.approval_id s)
          → History w s (continue late (settle w a target request_id actor decision scope) t).1
      finish a (err e) s t h open_row = h
      finish a (ok late) s t h open_row =
          settle-from a target request_id actor decision scope late s t over h open_row

      by_row :
          (s : Store) (o : Option ApprovalRow)
          → row_at approvals id s ≡ o
          → History w s (transition_approval w id target request_id actor decision scope s).1
      by_row s none e = rw get_approval_or_404-lem (rw e ((History-preorder w).same s))
      by_row s (some r) e = rw get_approval_or_404-lem (
          rw e (elim (Bool-cases (is_pending r.state)) [
            | inr decided ↦ rw (decided, require) ((History-preorder w).same s)
            | inl open_row ↦
                rw (open_row, require)
                  (let run = decided_late w target r.expires_at s in
                    finish (approval_from_row r) run.0 s run.1
                      ((decided_late-History target r.expires_at).at s)
                      (IsOpen-at id s r e open_row))
          ]))
