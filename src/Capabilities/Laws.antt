-- ===== src/Capabilities/Laws.antt =====
-- Who passes the check of a device's capability.
use agentic_control_tower.Prelude.{
  ◌≡◌, ℕ, String, Bool, true, Option, some, List, [], ◌∷◌, ◌⊎◌, inl, inr, or_else, All, All-Member,
  Member, Bool-cases,
}
use agentic_control_tower.World.{World}
use agentic_control_tower.Exec.Returns.{
  Returns, after, bind-Raises, raise-Raises, if-Returns, pure-Returns, gets-Returns,
}
use agentic_control_tower.Table.{select, order_by}
use agentic_control_tower.Table.Order.{All-select, All-order_by}
use agentic_control_tower.Store.Rows.{GrantRow, SubjectType, device, granted}
use agentic_control_tower.Store.State.{Store, Settings}
use agentic_control_tower.Store.Security.{now_utc, iso_lt}
use agentic_control_tower.Store.Sql.{list_where}
use agentic_control_tower.Store.Grants.{
  grant_matches, grant_applies, any_applies, list_capability_grants, has_active_capability_grant,
}
use agentic_control_tower.Capabilities.{
  VerifiedDevice, require_device_capability, lookup_text, device_permission_by_capability,
  permitted,
}

-- A stored grant gives the capability to the subject: it is granted, for this subject, capability
-- and node, for no other agent, and has not expired.
abbrev pub Granted : World → SubjectType → String → String → String → Option String → Store → Type 0
Granted w subject_type subject_id capability node_id agent_id s =
    (g : GrantRow) × Member g s.capability_grants
    × (grant_matches (some subject_type) (some subject_id) (some capability) (some granted) g
        ≡ true)
    × (grant_applies (w.clock s.reads) node_id agent_id g ≡ true)

any_applies-found :
    {P : GrantRow → Type 0} (now : ℕ) (node_id : String) (agent_id : Option String)
    (rows : List GrantRow)
    → All P rows
    → any_applies now node_id agent_id rows ≡ true
    → (g : GrantRow) × P g × (grant_applies now node_id agent_id g ≡ true)
unfolding any_applies
any_applies-found now node_id agent_id [] all h = cc
any_applies-found now node_id agent_id (g ∷ rows) all h =
    elim (Bool-cases (grant_applies now node_id agent_id g)) [
      | inl applies ↦ (g, all.0, applies)
      | inr skipped ↦ any_applies-found now node_id agent_id rows all.1 (rw (skipped) at h)
    ]

module _ (w : World) where
  has_active_capability_grant-Returns :
      (subject_type : SubjectType) (subject_id capability node_id : String)
      (agent_id : Option String) {s t : Store}
      → Returns
          (has_active_capability_grant w subject_type subject_id capability node_id agent_id)
          s
          true
          t
      → Granted w subject_type subject_id capability node_id agent_id s
  unfolding has_active_capability_grant list_capability_grants list_where now_utc
  has_active_capability_grant-Returns subject_type subject_id capability node_id agent_id {s = s}
        h =
      after _ _ h λ now s₁ clock h₁. after _ _ h₁ λ rows s₂ read h₂.
        let run = clock.run in
        let (rows_are, same) = gets-Returns _ read in
        let (found, _) = pure-Returns h₂ in
        let test =
          grant_matches (some subject_type) (some subject_id) (some capability) (some granted) in
        let before : GrantRow → GrantRow → Bool = λ a b. iso_lt b.created_at a.created_at in
        let selected =
          All-order_by (λ g. Member g s.capability_grants × (test g ≡ true)) before _
            (All-select (λ g. Member g s.capability_grants) test s.capability_grants
              (All-Member s.capability_grants)) in
        let passed : any_applies (w.clock s.reads) node_id agent_id
              (order_by before (select test s.capability_grants))
            ≡ true =
          cc in
        let (g, (member, matches), applies) =
          any_applies-found _ node_id agent_id _ selected passed in
        (g, member, matches, applies)

module _ (w : World) (settings : Settings) where
  -- The device passes the check of a capability by its own permission, or by a grant in the state.
  abbrev pub Allowed : VerifiedDevice → String → Option String → Option String → Store → Type 0
  Allowed dev capability node_id agent_id s =
      (permitted (lookup_text capability device_permission_by_capability) dev.permissions ≡ true)
      ⊎ Granted w device dev.device_id capability (or_else node_id settings.node_id) agent_id s

  -- The check returns only for a device that has the permission of the capability, or a stored grant
  -- of it that is granted, for the node, for no other agent, and that has not expired at the reading
  -- of the clock.
  pub require_device_capability-Allowed :
      (dev : VerifiedDevice) (capability request_id : String) (node_id agent_id : Option String)
      {s t : Store} {u : Unit {0}}
      → Returns
          (require_device_capability w settings dev capability request_id node_id agent_id)
          s
          u
          t
      → Allowed dev capability node_id agent_id s
  unfolding require_device_capability
  require_device_capability-Allowed dev capability request_id node_id agent_id h =
      elim (Bool-cases
        (permitted (lookup_text capability device_permission_by_capability) dev.permissions)) [
          | inl has ↦ inl has
          | inr lacks_it ↦ after _ _ (rw (lacks_it) at h) λ allowed s₁ asked h₁.
              let (is_allowed, _) = if-Returns allowed (bind-Raises _ _ λ _. raise-Raises _) h₁ in
              inr (
                has_active_capability_grant-Returns w device dev.device_id capability _ agent_id
                  (record { run = rw (is_allowed) at asked.run }))
        ]
