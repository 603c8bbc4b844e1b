-- ===== src/Assistance/Control.antt =====
-- What an endpoint that changes a session did when it returned: the caller's device was allowed to, the
-- session's row and its operator session carry the change.
use agentic_control_tower.Prelude.{
  ◌≡◌, refl, sym, ap, ◌∙◌, ◌≤◌, ◌<◌, ℕ, String, Option, some, coalesce, List, arith, suc,
}
use agentic_control_tower.World.{World}
use agentic_control_tower.Json.{Json}
use agentic_control_tower.Exec.{pure, modify, ◌>>=◌, ◌>>◌}
use agentic_control_tower.Exec.Returns.{Returns, moved, after, pure-Returns}
use agentic_control_tower.Table.{update}
use agentic_control_tower.Store.State.{Store, Settings, Action}
use agentic_control_tower.Store.SessionRows.{OperatorSessionRow}
use agentic_control_tower.Store.Sql.{Table, row_at, update_where}
use agentic_control_tower.Store.Security.{now_utc}
use agentic_control_tower.Store.Operators.{operator_sessions, moved_to}
use agentic_control_tower.Store.Assistance.{}
use agentic_control_tower.Capabilities.{VerifiedDevice}
use agentic_control_tower.Capabilities.Laws.{Allowed, require_device_capability-Allowed}
use agentic_control_tower.Capabilities.Logged.{require_device_capability-Logged}
use agentic_control_tower.Signing.{HttpRequest, verify_signed_request}
use agentic_control_tower.Signing.Laws.{Verified, verified}
use agentic_control_tower.Signing.Logged.{
  Quiet, Logged-Quiet, request_id-Logged, verify_signed_request-Quiet,
}
use agentic_control_tower.Assistance.{
  Subject, require_capability, audit_subject, announce, update_operator_session_if_exists,
}
use agentic_control_tower.Assistance.Mirror.{
  changed, row_at-update, mirror-lem, announce-Logged, audit_subject-Logged,
}

-- A table of sessions: apart from the clock and the operator sessions, and left alone by what is quiet.
pub record IsSessionTable {R : Type 0} (table : Table R) : Type 0 where
  pub same : (s t : Store) → Quiet s t → table.rows t ≡ table.rows s
  pub apart :
      (s : Store) (n : ℕ) (rows : List OperatorSessionRow)
      → table.rows (record s { reads = n; operator_sessions = rows }) ≡ table.rows s
  pub put_rows : (s : Store) (rows : List R) → table.rows (table.put s rows) ≡ rows
  pub put_operators :
      (s : Store) (rows : List R) → (table.put s rows).operator_sessions ≡ s.operator_sessions
  pub put_reads : (s : Store) (rows : List R) → (table.put s rows).reads ≡ s.reads

-- An operator session that follows the session of its name to `state`: the device is its owner, and it
-- takes the summary over, if there is one.
abbrev pub followed : String → String → Option String → ℕ → OperatorSessionRow → OperatorSessionRow
followed state device_id summary now o = record o {
  state = state;
  owner_device_id = some device_id;
  return_summary = coalesce summary o.return_summary;
  updated_at = now;
}

-- Between `s` and `t`, a verified device changed the row `id` of the table by `change`, at a reading
-- of the clock, and its operator session, if there is one, went to `state`, at a later one.
pub record Controlled (w : World) (settings : Settings) (r : HttpRequest) {R : Type 0}
    (table : Table R) (node_of agent_of : R → String) (capability : String) (change : ℕ → R → R)
    (state : String) (summary : Option String) (id : String) (s t : Store) : Type 0 where
  pub dev : VerifiedDevice
  pub row : R
  pub entered : Store
  pub came : Verified w settings r s dev entered
  pub found : row_at table id s ≡ some row
  pub allowed : Store
  pub later : s.reads ≤ allowed.reads
  pub same_grants : allowed.capability_grants ≡ s.capability_grants
  pub may : Allowed w settings dev capability (some (node_of row)) (some (agent_of row)) allowed
  pub time : ℕ
  pub written : row_at table id t ≡ some (change (w.clock time) row)
  pub mirrored : ℕ
  pub in_order : (s.reads ≤ time) × (time < mirrored)
  pub mirror :
      row_at operator_sessions id t
      ≡ changed
          (followed state dev.device_id summary (w.clock mirrored))
          (row_at operator_sessions id s)

module _ (w : World) (settings : Settings) (r : HttpRequest) where
  -- The check of the capability: the right to it, and nothing but audit events written.
  pub require_capability-Returns :
      (dev : VerifiedDevice) (capability : String) (of_node of_agent : Option String) {s t : Store}
      {u : Unit {0}}
      → Returns (require_capability w settings r dev capability of_node of_agent) s u t
      → (middle : Store) × Quiet s middle
        × Quiet middle t
        × Allowed w settings dev capability of_node of_agent middle
  unfolding require_capability
  require_capability-Returns dev capability of_node of_agent {s = s} {t = t} h =
      after _ _ h λ id s₁ drawn h₁. (
        s₁,
        Logged-Quiet s s₁ (moved (request_id-Logged w r) drawn),
        Logged-Quiet s₁ t
            (moved (require_device_capability-Logged w settings dev capability id _ _) h₁),
        require_device_capability-Allowed w settings dev capability id _ _ h₁,
      )

module _ {R : Type 0} (table : Table R) (of : IsSessionTable table) where
  row_at-same : (id : String) (s t : Store) → Quiet s t → row_at table id t ≡ row_at table id s
  row_at-same id s t h = rw (of.same s t h) refl

  row_at-apart :
      (id : String) (s : Store) (n : ℕ) (rows : List OperatorSessionRow)
      → row_at table id (record s { reads = n; operator_sessions = rows }) ≡ row_at table id s
  row_at-apart id s n rows = rw (of.apart s n rows) refl

module _ (w : World) {R : Type 0} (table : Table R) (change : ℕ → R → R)
    (of : IsSessionTable table) where
  -- The clock is read, the row is changed, and what follows only reads.
  pub changed_row :
      (keeps : (n : ℕ) (q : R) → table.key (change n q) ≡ table.key q) (id : String) {A : Type 0}
      (get : Action A)
      → ((s t : Store) (a : A) → Returns get s a t → t ≡ s)
      → {s t : Store} {a : A} (row : R)
      → Returns (do now ← now_utc w; update_where table id (change now); get) s a t
      → row_at table id s ≡ some row
      → (row_at table id t ≡ some (change (w.clock s.reads) row))
        × (t.operator_sessions ≡ s.operator_sessions)
        × (s.reads < t.reads)
  unfolding now_utc update_where modify
  changed_row keeps id get reading {s = s} {t = t} row h found = after _ _ h λ now s₁ clock h₁.
      after _ _ h₁ λ _ s₂ written h₂.
        let run = clock.run in
        let now_is : now ≡ w.clock s.reads = cc in
        let s₁_is : s₁ ≡ record s { reads = suc s.reads } = cc in
        let run₂ = written.run in
        let t_is : t ≡ table.put s₁ (update table.key id (change now) (table.rows s₁)) =
          reading s₂ t _ h₂ ∙ cc in
        let found₁ : row_at table id s₁ ≡ some row =
          rw s₁_is (row_at-apart table of id s (suc s.reads) s.operator_sessions) ∙ found in
        let updated =
          row_at-update table (change now) (keeps now) id s₁ t (rw t_is (of.put_rows s₁ _)) in
        let reads₀ : s₁.reads ≡ suc s.reads = rw s₁_is refl in
        let reads₁ : t.reads ≡ s₁.reads = rw t_is (of.put_reads s₁ _) in
        let operators₀ : s₁.operator_sessions ≡ s.operator_sessions = rw s₁_is refl in
        let operators₁ : t.operator_sessions ≡ s₁.operator_sessions =
          rw t_is (of.put_operators s₁ _) in
        let here : changed (change now) (row_at table id s₁) ≡ some (change (w.clock s.reads) row) =
          rw (found₁, now_is) refl in
        (updated ∙ here, operators₁ ∙ operators₀, omega arith)

module _ (w : World) (settings : Settings) (r : HttpRequest) {R : Type 0} (table : Table R)
    (node_of agent_of : R → String) (change : ℕ → R → R) (of : IsSessionTable table) where
  pub control :
      (capability id state : String) (summary : Option String) (dev : VerifiedDevice) (row : R)
      (q : Subject) (audit_type : String) (payload : Json) (event_type : String)
      (event_payload : Json) {A : Type 0} (updated : A) {s s₁ s₃ s₄ t : Store} {u : Unit {0}}
      {x : A}
      → Returns (verify_signed_request w settings r) s dev s₁
      → row_at table id s₁ ≡ some row
      → Returns
          (require_capability w settings r dev capability
            (some (node_of row))
            (some (agent_of row)))
          s₁
          u
          s₃
      → (row_at table id s₃ ≡ some row
          → (row_at table id s₄ ≡ some (change (w.clock s₃.reads) row))
            × (s₄.operator_sessions ≡ s₃.operator_sessions)
            × (s₃.reads < s₄.reads))
      → Returns
          (do
            audit_subject w settings r "device" dev.device_id q audit_type payload
            announce w q event_type event_payload
            update_operator_session_if_exists w id state (some dev.device_id) summary
            pure updated)
          s₄
          x
          t
      → Controlled w settings r table node_of agent_of capability change state summary id s t
        × (x ≡ updated)
  control capability id state summary dev row q audit_type payload event_type event_payload updated
        {s = s} {s₁ = s₁} {s₃ = s₃} {s₄ = s₄} {t = t} came found checked at_change rest =
      after _ _ rest λ _ s₅ audited rest₁. after _ _ rest₁ λ _ s₆ announced rest₂.
        after _ _ rest₂ λ _ s₇ moved_it rest₃.
          let (x_is, t_is) = pure-Returns rest₃ in
          let q₁ = moved (verify_signed_request-Quiet w settings r) came in
          let (middle, q₂, q₃, may) =
            require_capability-Returns w settings r dev capability _ _ checked in
          let found₀ : row_at table id s ≡ some row =
            sym (row_at-same table of id s s₁ q₁) ∙ found in
          let found₃ : row_at table id s₃ ≡ some row =
            row_at-same table of id middle s₃ q₃ ∙ row_at-same table of id s₁ middle q₂ ∙ found in
          let (written, operators, clock) = at_change found₃ in
          let q₅ =
            Logged-Quiet s₄ s₅ (moved (audit_subject-Logged w settings r _ _ q _ _) audited) in
          let q₆ = Logged-Quiet s₅ s₆ (moved (announce-Logged w q _ _) announced) in
          let mirrored = mirror-lem w id state (some dev.device_id) summary s₆ in
          let left : t ≡ record s₆ {
            reads = suc s₆.reads;
            operator_sessions =
                update operator_sessions.key id
                  (moved_to state (some dev.device_id) summary (w.clock s₆.reads))
                  s₆.operator_sessions;
          } =
            t_is ∙ rw (moved_it.run) at mirrored in
          let operators₆ : s₆.operator_sessions ≡ s.operator_sessions =
            q₆.operators ∙ q₅.operators ∙ operators ∙ q₃.operators ∙ q₂.operators ∙ q₁.operators in
          let reads₁ = q₁.reads in
          let reads₂ = q₂.reads in
          let reads₃ = q₃.reads in
          let reads₅ = q₅.reads in
          let reads₆ = q₆.reads in
          (
            record {
              dev = dev;
              row = row;
              entered = s₁;
              came = verified w settings r came;
              found = found₀;
              allowed = middle;
              later = omega arith;
              same_grants = q₂.grants ∙ q₁.grants;
              may = may;
              time = s₃.reads;
              written =
                  rw left (row_at-apart table of id s₆ _ _)
                  ∙ row_at-same table of id s₅ s₆ q₆
                  ∙ row_at-same table of id s₄ s₅ q₅
                  ∙ written;
              mirrored = s₆.reads;
              in_order = (omega arith, omega arith);
              mirror =
                  row_at-update operator_sessions _ (λ o. refl) id s₆ t (rw left refl)
                  ∙ ap (changed _) (rw operators₆ refl);
            },
            x_is,
          )
