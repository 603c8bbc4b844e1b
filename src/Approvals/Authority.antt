-- ===== src/Approvals/Authority.antt =====
-- Who decided an approval: a device with the right to, on an approval that was pending and in time.
use agentic_control_tower.Prelude.{◌≡◌, refl, ◌∙◌, ◌≤◌, String, Option, some}
use agentic_control_tower.World.{World}
use agentic_control_tower.Exec.{pure, ◌>>=◌}
use agentic_control_tower.Exec.Along.{Preorder, Along, along_rules}
use agentic_control_tower.Exec.Returns.{Returns, moved, after}
use agentic_control_tower.Store.Rows.{ApprovalRow, ApprovalState}
use agentic_control_tower.Store.State.{Store, Settings}
use agentic_control_tower.Store.Security.{new_id, new_token}
use agentic_control_tower.Store.Sql.{fetch, row_at}
use agentic_control_tower.Store.Approvals.{approvals, get_approval}
use agentic_control_tower.Store.Logged.{Logged, Logged-preorder, logged_rules}
use agentic_control_tower.Capabilities.{VerifiedDevice}
use agentic_control_tower.Capabilities.Laws.{Allowed, require_device_capability-Allowed}
use agentic_control_tower.Signing.{HttpRequest, request_id}
use agentic_control_tower.Signing.Logged.{request_id-Logged}
use agentic_control_tower.Capabilities.Logged.{require_device_capability-Logged}
use agentic_control_tower.Approvals.{DecisionResponse, get_approval_or_404}
use agentic_control_tower.Approvals.Guard.{Decided, transition-Decided, get_approval_or_404-Returns}
use agentic_control_tower.Approvals.Endpoints.{decide_as, require_approval_capability}

-- Between `s` and `t` the device decided the approval: it was allowed to act on approvals of the
-- approval's node and agent, the approval was the same in a state `middle` between them, and there
-- the transition was made.
pub record Authorised (w : World) (settings : Settings) (dev : VerifiedDevice) (id : String)
    (target : ApprovalState) (decision scope : Option String) (s t : Store) : Type 0 where
  pub middle : Store
  pub later : s.reads ≤ middle.reads
  pub unchanged : row_at approvals id middle ≡ row_at approvals id s
  pub decided : Decided w id dev.device_id target decision scope middle t
  pub allowed :
      Allowed w settings dev "approvals" (some decided.row.node_id) (some decided.row.agent_id) s

module _ (w : World) (settings : Settings) where
  get_approval_or_404-Logged : (id : String) → Along Logged (get_approval_or_404 w id)
  unfolding get_approval_or_404 get_approval fetch
  get_approval_or_404-Logged id = search logged_rules

  -- The grants and the clock are those of the state before.
  abbrev Steady : Store → Store → Type 0
  Steady s t =
      (t.capability_grants ≡ s.capability_grants)
      × (t.reads ≡ s.reads)
      × (t.approval_requests ≡ s.approval_requests)

  Steady-preorder : Preorder Steady
  Steady-preorder = record {
    same = λ s. (refl, refl, refl);
    join = λ s t u (g, r, a) (g', r', a'). (g' ∙ g, r' ∙ r, a' ∙ a);
  }

  new_id-Steady : (prefix : String) → Along Steady (new_id w prefix)
  unfolding new_id new_token ◌>>=◌ pure
  new_id-Steady prefix = record { at = λ s. (refl, refl, refl) }

  request_id-Steady : (r : HttpRequest) → Along Steady (request_id w r)
  unfolding request_id
  request_id-Steady r = search (along_rules, Steady-preorder, new_id-Steady)

  -- What the check of `decide_as` shows, with the state it leaves.
  require_approval_capability-Allowed :
      (r : HttpRequest) (dev : VerifiedDevice) (id : String) {s t : Store} {u : Unit {0}}
      → Returns (require_approval_capability w settings r dev id) s u t
      → (row : ApprovalRow) × (row_at approvals id s ≡ some row)
        × Allowed w settings dev "approvals" (some row.node_id) (some row.agent_id) s
        × Logged s t
  unfolding require_approval_capability
  require_approval_capability-Allowed r dev id {s = s} {t = t} h = after _ _ h λ a s₁ got h₁.
      after _ _ h₁ λ rid s₂ drawn h₂.
        let (row, found, a_is, same₁) = get_approval_or_404-Returns w id got in
        let (grants, reads, _) = moved (request_id-Steady r) drawn in
        let logged₀ : Logged s s₁ = moved (get_approval_or_404-Logged id) got in
        let logged₁ = moved (request_id-Logged w r) drawn in
        let logged₂ =
          moved
            (require_device_capability-Logged w settings dev "approvals" rid (some a.node_id)
              (some a.agent_id))
            h₂ in
        let allowed = require_device_capability-Allowed w settings dev "approvals" rid _ _ h₂ in
        let same_grants : s₂.capability_grants ≡ s.capability_grants = cc in
        let same_reads : s₂.reads ≡ s.reads = cc in
        (
          row,
          found,
          rw (a_is, same_grants, same_reads) at allowed,
          Logged-preorder.join s s₂ t (Logged-preorder.join s s₁ s₂ logged₀ logged₁) logged₂,
        )

  -- A decision that returns was made by a device that has the "approve" permission or an active grant
  -- for the approval's node and agent, on an approval that was pending, approved or denied only before
  -- its expiry, and the approval's row then carries the decision, its scope and the device.
  pub decide_as-Authorised :
      (r : HttpRequest) (dev : VerifiedDevice) (id : String) (target : ApprovalState)
      (decision scope : Option String) {s t : Store} {response : DecisionResponse}
      → Returns (decide_as w settings r dev id target decision scope) s response t
      → Authorised w settings dev id target decision scope s t
        × (response ≡ record { approval_id = id; state = target; applied_scope = scope })
  unfolding decide_as
  decide_as-Authorised r dev id target decision scope {s = s} {t = t} h =
      after _ _ h λ _ s₁ checked h₁. after _ _ h₁ λ rid s₂ drawn h₂.
        let (row, found, allowed, logged) = require_approval_capability-Allowed r dev id checked in
        let (_, reads, same_rows) = moved (request_id-Steady r) drawn in
        let (decided, response_is) =
          transition-Decided w id target rid dev.device_id decision scope h₂ in
        let rows₁ = logged.approval_requests in
        let later₁ = logged.reads in
        let unchanged : row_at approvals id s₂ ≡ row_at approvals id s = cc in
        let found₂ = decided.found in
        let row_is : decided.row ≡ row = cc in
        (
          record {
            middle = s₂;
            later = rw reads later₁;
            unchanged = unchanged;
            decided = decided;
            allowed = rw row_is allowed;
          },
          response_is,
        )
