-- ===== src/Approvals/Guard.antt =====
-- What a transition that returned says of the approval: it was pending and in time, and the row
-- carries the decision.
use agentic_control_tower.Prelude.{
  ◌≡◌, refl, ap, ◌∙◌, ℕ, String, Bool, true, false, Option, some, [], ◌∷◌, leb, ◌&&◌, if◌then◌else◌,
  arith, eq_refl,
}
use agentic_control_tower.World.{World}
use agentic_control_tower.Json.{Json, dict, str, opt}
use agentic_control_tower.Exec.{ok, pure, modify, ◌>>=◌}
use agentic_control_tower.Exec.Returns.{
  Returns, moved, after, bind-Raises, raise-Raises, pure-Returns, gets-Returns, require-Returns,
  or_key_error-Returns, on_key_error-Returns,
}
use agentic_control_tower.Table.Laws.{find?-update, find?-key}
use agentic_control_tower.Store.Rows.{ApprovalState, ApprovalRow, is_pending}
use agentic_control_tower.Store.State.{Store}
use agentic_control_tower.Store.Security.{now_utc}
use agentic_control_tower.Store.Sql.{row_at, fetch, update_where}
use agentic_control_tower.Store.Approvals.{
  Approval, approvals, approval_from_row, get_approval, resolve_approval, resolved,
}
use agentic_control_tower.Store.Logged.{append_audit_event-Logged, create_event-Logged}
use agentic_control_tower.Approvals.{
  DecisionResponse, state_text, is_decision, get_approval_or_404, decided_late, apply_decision,
  settle, transition_approval,
}

abbrev pub decision_metadata : Option String → ApprovalState → Json
decision_metadata decision target =
    dict (("decision", opt decision) ∷ ("state", str (state_text target)) ∷ [])

-- Between `s` and `t` the approval `id` went to the state `target`.
pub record Decided (w : World) (id actor : String) (target : ApprovalState)
    (decision scope : Option String) (s t : Store) : Type 0 where
  pub row : ApprovalRow
  pub time : ℕ
  pub found : row_at approvals id s ≡ some row
  pub was_pending : is_pending row.state ≡ true
  pub in_time : is_decision target && leb row.expires_at (w.clock s.reads) ≡ false
  pub written :
      row_at approvals id t
      ≡ some (resolved target scope (some actor) (decision_metadata decision target) time row)

pub get_approval_or_404-Returns :
    (w : World) (id : String) {s t : Store} {a : Approval}
    → Returns (get_approval_or_404 w id) s a t
    → (row : ApprovalRow) × (row_at approvals id s ≡ some row)
      × (a ≡ approval_from_row row)
      × (t ≡ s)
unfolding get_approval_or_404 get_approval fetch
get_approval_or_404-Returns w id h = after _ _ (on_key_error-Returns _ _ h) λ row s₁ got h₁.
    after _ _ got λ found s₂ read h₂.
      let (found_is, same₂) = gets-Returns _ read in
      let (row_is, same₁) = or_key_error-Returns _ _ h₂ in
      let (a_is, same) = pure-Returns h₁ in (row, cc, a_is, cc)

module _ (w : World) where
  decided_late-Returns :
      (target : ApprovalState) (expires_at : ℕ) {s t : Store}
      → Returns (decided_late w target expires_at) s false t
      → (is_decision target && leb expires_at (w.clock s.reads) ≡ false)
        × (t.approval_requests ≡ s.approval_requests)
  unfolding decided_late now_utc ◌>>=◌ pure
  decided_late-Returns target expires_at {s = s} {t = t} h = by_kind (is_decision target) s t h.run
    where
      by_kind :
          (b : Bool) (s t : Store)
          → (if b then (do now ← now_utc w; pure (leb expires_at now)) else pure false) s
            ≡ (ok false, t)
          → (b && leb expires_at (w.clock s.reads) ≡ false)
            × (t.approval_requests ≡ s.approval_requests)
      by_kind true s t run = (cc, cc)
      by_kind false s t run = (refl, cc)

  resolve_approval-Returns :
      (id : String) (state : ApprovalState) (scope actor : Option String) (metadata : Json)
      {s t : Store} {u : Unit {0}} (row : ApprovalRow)
      → row_at approvals id s ≡ some row
      → Returns (resolve_approval w id state scope actor metadata) s u t
      → row_at approvals id t ≡ some (resolved state scope actor metadata (w.clock s.reads) row)
  unfolding resolve_approval now_utc update_where ◌>>=◌ modify
  resolve_approval-Returns id state scope actor metadata {s = s} row found h =
      let run = h.run in
      let new = resolved state scope actor metadata (w.clock s.reads) in
      let at_id = find?-update approvals.key new (λ r. refl) id id s.approval_requests in
      ground (arith, at_id, eq_refl id, found)

  apply_decision-Returns :
      (a : Approval) (target : ApprovalState) (request_id actor : String)
      (decision scope : Option String) {s t : Store} {response : DecisionResponse}
      (row : ApprovalRow)
      → row_at approvals a.approval_id s ≡ some row
      → Returns (apply_decision w a target request_id actor decision scope) s response t
      → (row_at approvals a.approval_id t
          ≡ some (
              resolved target scope
                (some actor)
                (decision_metadata decision target)
                (w.clock s.reads)
                row))
        × (response ≡ record { approval_id = a.approval_id; state = target; applied_scope = scope })
  unfolding apply_decision
  apply_decision-Returns a target request_id actor decision scope row found h =
      after _ _ h λ _ s₁ resolve h₁. after _ _ h₁ λ _ s₂ audit h₂. after _ _ h₂ λ _ s₃ event h₃.
        let at_s₁ = resolve_approval-Returns _ target scope (some actor) _ row found resolve in
        let logged = moved (append_audit_event-Logged w _ _ _ _ _ _ _) audit in
        let fed = moved (create_event-Logged w _ _ _ _ _) event in
        let same_log = logged.approval_requests in
        let same_feed = fed.approval_requests in
        let (response_is, t_is) = pure-Returns h₃ in (cc, response_is)

  settle-Returns :
      (a : Approval) (target : ApprovalState) (request_id actor : String)
      (decision scope : Option String) (late : Bool) {s t : Store} {response : DecisionResponse}
      → Returns (settle w a target request_id actor decision scope late) s response t
      → (late ≡ false)
        × Returns (apply_decision w a target request_id actor decision scope) s response t
  unfolding settle
  settle-Returns a target request_id actor decision scope false h = (refl, record { run = h.run })
  settle-Returns a target request_id actor decision scope true {s = s} {t = t} {response = response}
        h =
      absurd ((bind-Raises _ _ λ _. raise-Raises _).never s response t (record { run = h.run }))

  -- A transition that returns was made on a pending approval, a decision (approved or denied) before
  -- the approval's expiry, and it leaves the approval's row in the target state with the scope, the
  -- device and the decision of the caller.
  pub transition-Decided :
      (id : String) (target : ApprovalState) (request_id actor : String)
      (decision scope : Option String) {s t : Store} {response : DecisionResponse}
      → Returns (transition_approval w id target request_id actor decision scope) s response t
      → Decided w id actor target decision scope s t
        × (response ≡ record { approval_id = id; state = target; applied_scope = scope })
  unfolding transition_approval
  transition-Decided id target request_id actor decision scope {s = s} h =
      after _ _ h λ a s₁ got h₁. after _ _ h₁ λ _ s₂ pending h₂. after _ _ h₂ λ late s₃ timed h₃.
        let (row, found, a_is, same₁) = get_approval_or_404-Returns w id got in
        let (was_pending, same₂) = require-Returns _ _ pending in
        let (in_time, applied) = settle-Returns a target request_id actor decision scope late h₃ in
        let (early, same₃) =
          decided_late-Returns target a.expires_at (record { run = rw (in_time) at timed.run }) in
        let id_is : a.approval_id ≡ id =
          ap (λ (x : Approval). x.approval_id) a_is
          ∙ find?-key approvals.key id s.approval_requests row found in
        let state_is : a.state ≡ row.state = ap (λ (x : Approval). x.state) a_is in
        let expiry_is : a.expires_at ≡ row.expires_at = ap (λ (x : Approval). x.expires_at) a_is in
        let at_s₃ : row_at approvals a.approval_id s₃ ≡ some row = cc in
        let (stored, response_is) =
          apply_decision-Returns a target request_id actor decision scope row at_s₃ applied in
        (
          record {
            row = row;
            time = w.clock s₃.reads;
            found = found;
            was_pending = cc;
            in_time = cc;
            written = cc;
          },
          cc,
        )
