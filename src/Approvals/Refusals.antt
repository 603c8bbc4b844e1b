-- ===== src/Approvals/Refusals.antt =====
-- The transitions that raise: of an approval that is not pending, and of a decision that comes late.
use agentic_control_tower.Prelude.{
  ◌≡◌, refl, String, suc, true, false, Option, none, some, [], ◌∷◌, leb, arith, eq_refl,
}
use agentic_control_tower.World.{World}
use agentic_control_tower.Json.{Json, dict, str}
use agentic_control_tower.Exec.{
  Exec, err, http, pure, require, gets, or_key_error, on_key_error, modify, ◌>>=◌,
}
use agentic_control_tower.Exec.Along.{Along, bind-from}
use agentic_control_tower.Exec.Returns.{Returns}
use agentic_control_tower.Table.Laws.{find?-key, find?-update}
use agentic_control_tower.Store.Rows.{ApprovalState, ApprovalRow, is_pending, expired}
use agentic_control_tower.Store.State.{Store}
use agentic_control_tower.Store.Security.{now_utc}
use agentic_control_tower.Store.Sql.{row_at, fetch, update_where}
use agentic_control_tower.Store.Approvals.{
  Approval, approvals, approval_from_row, get_approval, resolve_approval, resolved,
}
use agentic_control_tower.Store.Logged.{Logged, Logged-preorder, logged_rules}
use agentic_control_tower.Approvals.Guard.{transition-Decided}
use agentic_control_tower.Approvals.{
  DecisionResponse, is_decision, get_approval_or_404, decided_late, close_approval, settle,
  transition_approval,
}

-- What follows leaves the approvals as they are.
kept-after :
    {A B : Type 0} (id : String) (s : Store) (m : Exec Store A) (f : A → Exec Store B)
    {o : Option ApprovalRow}
    → row_at approvals id (m s).1 ≡ o
    → ((a : A) → Along Logged (f a))
    → row_at approvals id ((m >>= f) s).1 ≡ o
kept-after id s m f found along =
    let same =
      (bind-from Logged-preorder m f (m s).1 s (Logged-preorder.same (m s).1)
        along).approval_requests in
    cc

module _ (w : World) where
  resolve-row :
      (id : String) (state : ApprovalState) (scope actor : Option String) (metadata : Json)
      (s : Store) (row : ApprovalRow)
      → row_at approvals id s ≡ some row
      → row_at approvals id (resolve_approval w id state scope actor metadata s).1
        ≡ some (resolved state scope actor metadata (w.clock s.reads) row)
  unfolding resolve_approval now_utc update_where modify ◌>>=◌
  resolve-row id state scope actor metadata s row found =
      let new = resolved state scope actor metadata (w.clock s.reads) in
      let at_id = find?-update approvals.key new (λ r. refl) id id s.approval_requests in
      ground (arith, at_id, eq_refl id, found)

  -- The row after the three writes that close an approval, whether or not the later two raise.
  close-row :
      (a : Approval) (state : ApprovalState) (reason actor_type actor request_id : String)
      (s : Store) (row : ApprovalRow)
      → row_at approvals a.approval_id s ≡ some row
      → row_at approvals a.approval_id
          (close_approval w a state reason actor_type actor request_id s).1
        ≡ some (resolved state none none (dict (("reason", str reason) ∷ [])) (w.clock s.reads) row)
  unfolding close_approval
  close-row a state reason actor_type actor request_id s row found =
      kept-after a.approval_id s _ _
        (resolve-row a.approval_id state none none (dict (("reason", str reason) ∷ [])) s row found)
        (λ _. search logged_rules depth 10)

  settle-row :
      (a : Approval) (target : ApprovalState) (request_id actor : String)
      (decision scope : Option String) (s : Store) (row : ApprovalRow)
      → row_at approvals a.approval_id s ≡ some row
      → row_at approvals a.approval_id (settle w a target request_id actor decision scope true s).1
        ≡ some (
            resolved expired none none
              (dict (("reason", str "decision_after_expiry") ∷ []))
              (w.clock s.reads)
              row)
  unfolding settle
  settle-row a target request_id actor decision scope s row found =
      kept-after a.approval_id s _ _
        (close-row a expired "decision_after_expiry" "gateway" "gateway" request_id s row found)
        (λ _. search logged_rules depth 6)

module _ (w : World) (id : String) (target : ApprovalState) (request_id actor : String)
    (decision scope : Option String) (s : Store) (row : ApprovalRow)
    (found : row_at approvals id s ≡ some row) where
  -- A transition of an approval that is there and not pending raises 409 and writes nothing.
  pub decided-refused :
      is_pending row.state ≡ false
      → transition_approval w id target request_id actor decision scope s
        ≡ (err (http 409 "approval is not pending"), s)
  unfolding transition_approval get_approval_or_404 get_approval fetch ◌>>=◌ gets or_key_error
      on_key_error pure require
  decided-refused closed = rw (found, closed) refl

  -- An approval or a denial of an approval that is pending and whose expiry the clock has reached never
  -- returns, and leaves the approval's row expired, with no scope and no device.
  pub late_decision-expires :
      is_pending row.state ≡ true
      → is_decision target ≡ true
      → leb row.expires_at (w.clock s.reads) ≡ true
      → (row_at approvals id (transition_approval w id target request_id actor decision scope s).1
          ≡ some (
              resolved expired none none
                (dict (("reason", str "decision_after_expiry") ∷ []))
                (w.clock (suc s.reads))
                row))
        × ((response : DecisionResponse) (t : Store)
            → ¬ Returns
                (transition_approval w id target request_id actor decision scope)
                s
                response
                t)
  unfolding transition_approval get_approval_or_404 get_approval fetch decided_late now_utc ◌>>=◌
      gets or_key_error on_key_error pure require
  late_decision-expires pending decides late = (
    rw (found, pending, decides, late)
        (let at_id = settled in
          let key_is = find?-key approvals.key id s.approval_requests row found in cc),
    λ response t h.
        let (d, _) = transition-Decided w id target request_id actor decision scope h in
        let in_time = d.in_time in let same = d.found in let row_is : d.row ≡ row = cc in cc,
  )
    where
      settled :
          row_at approvals row.approval_id
            (settle w
              (approval_from_row row)
              target
              request_id
              actor
              decision
              scope
              true
              (record s { reads = suc s.reads })).1
          ≡ some (
              resolved expired none none
                (dict (("reason", str "decision_after_expiry") ∷ []))
                (w.clock (suc s.reads))
                row)
      settled =
          settle-row w (approval_from_row row) target request_id actor decision scope
            (record s { reads = suc s.reads }) row
            (let key_is = find?-key approvals.key id s.approval_requests row found in cc)
