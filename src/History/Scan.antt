-- ===== src/History/Scan.antt =====
-- The expiry scan keeps the history: each approval of its list is pending in the state in which the
-- list is made, whatever the scan has written by the time that it reaches the approval.
use agentic_control_tower.Prelude.{
  suc, ◌≡◌, refl, String, Bool, true, false, none, some, List, [], ◌∷◌, map, All, All-imp, leb,
}
use agentic_control_tower.World.{World}
use agentic_control_tower.Exec.{Result, ok, err, pure, gets, for_each, ◌>>=◌, continue}
use agentic_control_tower.Exec.Along.{Along-pure, bind-from}
use agentic_control_tower.Table.{find?, Unique, select, order_by}
use agentic_control_tower.Table.Laws.{Unique-find?}
use agentic_control_tower.Table.Order.{All-select, All-order_by}
use agentic_control_tower.Store.Rows.{ApprovalRow, ApprovalState, pending, expired, is_pending}
use agentic_control_tower.Store.State.{Store}
use agentic_control_tower.Store.Security.{now_utc}
use agentic_control_tower.Store.Approvals.{
  approvals, Approval, approval_from_row, list_approvals, same_state, in_state,
}
use agentic_control_tower.Store.Sql.{row_at, list_where}
use agentic_control_tower.Approvals.{expire_one, expire_if_due, scan}
use agentic_control_tower.History.{History, History-preorder}
use agentic_control_tower.History.Primitives.{now_utc-History}
use agentic_control_tower.History.Guarded.{IsOpen, resolve-from, after_rules}

-- The approval under the key of `a` is there and pending.
abbrev pub OpenIn : Store → Approval → Type 0
OpenIn s a = IsOpen (row_at approvals a.approval_id s)

same_state-pending :
    (state : ApprovalState) → same_state state pending ≡ true → is_pending state ≡ true
same_state-pending pending h = refl
same_state-pending _ h = cc

All-map {ℓ κ ι} :
    {A : Type ℓ} {B : Type κ} (P : B → Type ι) (f : A → B) (xs : List A)
    → All (λ a. P (f a)) xs
    → All P (map f xs)
All-map P f [] h = tt
All-map P f (x ∷ xs) h = (h.0, All-map P f xs h.1)

-- Under unique keys, what the scan lists is pending.
listed_open :
    (before : ApprovalRow → ApprovalRow → Bool) (s : Store)
    → Unique approvals.key s.approval_requests
    → All (OpenIn s) (
        map approval_from_row
          (order_by before (select (in_state (some pending)) s.approval_requests)))
listed_open before s u = All-map (OpenIn s) approval_from_row _ (
    All-order_by (λ r. OpenIn s (approval_from_row r)) before _
      (All-imp (λ r h. rw h.0 (same_state-pending r.state h.1)) _
        (All-select (λ r. find? approvals.key r.approval_id s.approval_requests ≡ some r)
          (in_state (some pending)) s.approval_requests
          (Unique-find? approvals.key s.approval_requests u))))

module _ (w : World) (reason : String) where
  expire_one-from :
      (a : Approval) (s t : Store)
      → History w s t
      → OpenIn s a
      → History w s (expire_one w reason a t).1
  unfolding expire_one
  expire_one-from a s t h open_row =
      bind-from (History-preorder w) _ _ s t
        (resolve-from w a.approval_id expired none none _ s t (λ n. tt) h open_row)
        (λ _. search after_rules depth 10)

  expire_if_due-from :
      (a : Approval) (s t : Store)
      → History w s t
      → OpenIn s a
      → History w s (expire_if_due w reason a t).1
  unfolding expire_if_due ◌>>=◌ now_utc
  expire_if_due-from a s t h open_row = due (leb a.expires_at (w.clock t.reads)) refl
    where
      ticked : Store
      ticked = record t { reads = suc t.reads }

      due :
          (b : Bool)
          → leb a.expires_at (w.clock t.reads) ≡ b
          → History w s (expire_if_due w reason a t).1
      due false e = rw e (
          (History-preorder w).join s ticked _
            ((History-preorder w).join s t ticked h ((now_utc-History w).at t))
            ((Along-pure (History-preorder w) tt).at ticked))
      due true e = rw e (
          expire_one-from a s ticked
            ((History-preorder w).join s t ticked h ((now_utc-History w).at t)) open_row)

  scan-from :
      (xs : List Approval) (s t : Store)
      → History w s t
      → All (OpenIn s) xs
      → History w s (for_each xs (expire_if_due w reason) t).1
  unfolding for_each pure ◌>>=◌
  scan-from [] s t h opens = h
  scan-from (a ∷ xs) s t h opens =
      rest (expire_if_due w reason a t).0 (expire_if_due-from a s t h opens.0)
        (scan-from xs s (expire_if_due w reason a t).1 (expire_if_due-from a s t h opens.0) opens.1)
    where
      rest :
          (r : Result (Unit {0}))
          → History w s (expire_if_due w reason a t).1
          → History w s (for_each xs (expire_if_due w reason) (expire_if_due w reason a t).1).1
          → History w s
              (continue r
                (λ _. for_each xs (expire_if_due w reason))
                (expire_if_due w reason a t).1).1
      rest (ok _) first all = all
      rest (err e) first all = first

  pub scan-History :
      (s : Store) → Unique approvals.key s.approval_requests → History w s (scan w reason s).1
  unfolding scan list_approvals list_where ◌>>=◌ gets pure
  scan-History s u = scan-from _ s s ((History-preorder w).same s) (listed_open _ s u)
