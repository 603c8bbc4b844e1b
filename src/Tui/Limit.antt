-- ===== src/Tui/Limit.antt =====
-- The limit on open terminal sessions: creating one keeps it.
use agentic_control_tower.Prelude.{
  ◌≡◌, refl, sym, ap, ◌∙◌, ℕ, suc, ◌≤◌, ◌<◌, String, true, none, List, [], ◌∷◌, ◌++◌, ltb, arith,
  eq_refl,
}
use agentic_control_tower.World.{World, Spawn, started, refused, crashed}
use agentic_control_tower.Exec.{Exec, raise, http, modify, ◌>>◌}
use agentic_control_tower.Exec.Along.{Preorder, Along, along_rules}
use agentic_control_tower.Exec.Returns.{
  Returns, moved, after, pure-Returns, gets-Returns, require-Returns, Raises, raise-Raises,
  bind-Raises,
}
use agentic_control_tower.Table.{find?, update}
use agentic_control_tower.Store.SessionRows.{TuiSessionRow}
use agentic_control_tower.Store.State.{Store, Settings}
use agentic_control_tower.Store.Sql.{update_where}
use agentic_control_tower.Store.Sql.Laws.{insert-Returns, fetch-Returns}
use agentic_control_tower.Store.Tui
use agentic_control_tower.Store.Tui.{
  tui_sessions, is_open, open_sessions, count_open_tui_sessions, update_tui_session_state,
  tui_moved, get_tui_session, add_tui_audit_ref,
}
use agentic_control_tower.Store.Security.{now_utc}
use agentic_control_tower.Store.Agents.{get_node, get_agent}
use agentic_control_tower.Store.Sql.{fetch}
use agentic_control_tower.Store.Logged.{
  Logged, now_utc-Logged, new_id-Logged, append_audit_event-Logged, create_event-Logged,
}
use agentic_control_tower.Store.Operators.{
  NewOperatorSession, put_operator_session, create_operator_session, get_operator_session,
}
use agentic_control_tower.Signing.{HttpRequest}
use agentic_control_tower.Signing.Logged.{request_id-Logged}
use agentic_control_tower.Tui.{TuiRequest, require_tui_capability}
use agentic_control_tower.Tui.Laws.{validate_tui_request-Permitted}
use agentic_control_tower.Tui.Endpoints
use agentic_control_tower.Tui.Endpoints.{TuiPayload, start_runtime}

open_sessions-append :
    (rows : List TuiSessionRow) (q : TuiSessionRow)
    → open_sessions (rows ++ q ∷ []) ≤ suc (open_sessions rows)
unfolding open_sessions
open_sessions-append [] q = ground arith
open_sessions-append (p ∷ rows) q = ground (arith, open_sessions-append rows q)

-- A key that is not there: the update finds nothing.
update-absent :
    (k : String) (f : TuiSessionRow → TuiSessionRow) (rows : List TuiSessionRow)
    → find? tui_sessions.key k rows ≡ none
    → update tui_sessions.key k f rows ≡ rows
unfolding find? update
update-absent k f [] h = refl
update-absent k f (q ∷ rows) h = ground (arith, update-absent k f rows)

update-last :
    (k : String) (f : TuiSessionRow → TuiSessionRow) (rows : List TuiSessionRow) (q : TuiSessionRow)
    → find? tui_sessions.key k rows ≡ none
    → q.session_id ≡ k
    → update tui_sessions.key k f (rows ++ q ∷ []) ≡ rows ++ f q ∷ []
unfolding find? update
update-last k f [] q h e = ground (arith, eq_refl k)
update-last k f (p ∷ rows) q h e = ground (arith, update-last k f rows q)

-- An update that does not write the state.
open_sessions-update :
    (k : String) (f : TuiSessionRow → TuiSessionRow)
    → ((q : TuiSessionRow) → (f q).state ≡ q.state)
    → (rows : List TuiSessionRow)
    → open_sessions (update tui_sessions.key k f rows) ≡ open_sessions rows
unfolding open_sessions update
open_sessions-update k f keeps [] = refl
open_sessions-update k f keeps (q ∷ rows) =
    ground (arith, keeps q, open_sessions-update k f keeps rows)

-- The terminal sessions are the same.
abbrev Still : Store → Store → Type 0
Still s t = t.tui_sessions ≡ s.tui_sessions

Still-preorder : Preorder Still
Still-preorder = record { same = λ s. refl; join = λ s t u f g. g ∙ f }

still : {A : Type 0} {m : Exec Store A} → Along Logged m → Along Still m
still h = record { at = λ s. (h.at s).tui_sessions }

module _ (w : World) where
  operators_put-Still :
      (n : NewOperatorSession) (now : ℕ)
      → Along Still (
          modify
            (λ s. record s { operator_sessions = put_operator_session n now s.operator_sessions }))
  unfolding modify
  operators_put-Still n now = record { at = λ s. refl }

  now_utc-Still : Along Still (now_utc w)
  now_utc-Still = still (now_utc-Logged w)

  operator-Still : (n : NewOperatorSession) → Along Still (create_operator_session w n)
  unfolding create_operator_session get_operator_session fetch
  operator-Still n =
      search (along_rules, Still-preorder, operators_put-Still, now_utc-Still) depth 10

  capability-Still :
      (of_node of_agent : String) → Along Still (require_tui_capability w of_node of_agent)
  unfolding require_tui_capability get_node get_agent fetch
  capability-Still of_node of_agent = search (along_rules, Still-preorder) depth 14

  -- The new session is the last row, and it is active.
  started-Returns :
      (id : String) (q : TuiRequest) {s t : Store} {a : TuiSessionRow}
      → Returns (start_runtime w id q) s a t
      → (n : ℕ) × (t.tui_sessions
          ≡ update tui_sessions.key id (tui_moved "active" n) s.tui_sessions)
  unfolding start_runtime update_tui_session_state now_utc update_where modify get_tui_session
  started-Returns id q {s = s} {t = t} {a = a} h =
      by_spawn (w.spawn id q.command q.working_directory) h
    where
      failing :
          (code : ℕ) (detail : String)
          → Raises {A = TuiSessionRow}
              (do update_tui_session_state w id "failed"; raise (http code detail))
      failing code detail = bind-Raises _ _ λ _. raise-Raises _

      by_spawn :
          (o : Spawn)
          → Returns
              (elim o [
                | started ↦ update_tui_session_state w id "active"
                | refused code detail ↦ do
                  update_tui_session_state w id "failed"
                  raise (http code detail)
                | crashed ↦ do
                  update_tui_session_state w id "failed"
                  raise (http 500 "TUI session failed to start")
              ])
              s
              a
              t
          → (n : ℕ) × (t.tui_sessions
              ≡ update tui_sessions.key id (tui_moved "active" n) s.tui_sessions)
      by_spawn started h = after _ _ h λ now s₁ clock h₁. after _ _ h₁ λ _ s₂ written h₂.
          let run = clock.run in
          let run₂ = written.run in let (_, same) = fetch-Returns tui_sessions id h₂ in (now, cc)
      by_spawn (refused code detail) h = absurd ((failing code detail).never s a t h)
      by_spawn crashed h = absurd ((failing 500 _).never s a t h)

  inserted-Returns :
      (q : TuiSessionRow) {s t : Store} {a : TuiSessionRow}
      → Returns (Tui.create_tui_session w q) s a t
      → (p : TuiSessionRow) × (p.session_id ≡ q.session_id)
        × (find? tui_sessions.key q.session_id s.tui_sessions ≡ none)
        × (t.tui_sessions ≡ s.tui_sessions ++ p ∷ [])
  unfolding Tui.create_tui_session get_tui_session
  inserted-Returns q {s = s} h = after _ _ h λ now s₁ clock h₁. after _ _ h₁ λ _ s₂ written h₂.
      let same₁ : s₁.tui_sessions ≡ s.tui_sessions = moved now_utc-Still clock in
      let (fresh, s₂_is) = insert-Returns tui_sessions _ written in
      let (_, same) = fetch-Returns tui_sessions q.session_id h₂ in
      (
        record q { created_at = now; last_activity_at = now },
        refl,
        rw same₁ at fresh,
        rw (same, s₂_is, same₁) refl,
      )

  referred-Returns :
      (id event : String) {s t : Store} {a : TuiSessionRow}
      → Returns (add_tui_audit_ref id event) s a t
      → open_sessions t.tui_sessions ≡ open_sessions s.tui_sessions
  unfolding add_tui_audit_ref get_tui_session update_where modify
  referred-Returns id event {s = s} {t = t} h = after _ _ h λ q s₁ got h₁.
      after _ _ h₁ λ _ s₂ written h₂.
        let (_, same₁) = fetch-Returns tui_sessions id got in
        let (_, same₂) = fetch-Returns tui_sessions id h₂ in
        let run = written.run in
        let rows : t.tui_sessions
            ≡ update tui_sessions.key id (λ p. record p { audit_refs = q.audit_refs ++ event ∷ [] })
                s.tui_sessions =
          cc in
        rw rows (open_sessions-update id _ (λ p. refl) s.tui_sessions)

  -- From the count to the running session.
  counted :
      (p : Store) (id : String) (q : TuiSessionRow) (e : TuiRequest) (limit : ℕ) {s t u : Store}
      {a b : TuiSessionRow}
      → open_sessions p.tui_sessions < limit
      → s.tui_sessions ≡ p.tui_sessions
      → q.session_id ≡ id
      → Returns (Tui.create_tui_session w q) s a t
      → Returns (start_runtime w id e) t b u
      → open_sessions u.tui_sessions ≤ limit
  counted p id q e limit {s = s} {t = t} {u = u} below same key_is made ran =
      let (row, row_key, fresh, rows) = inserted-Returns q made in
      let (n, rows') = started-Returns id e ran in
      let fresh' : find? tui_sessions.key id s.tui_sessions ≡ none = rw key_is at fresh in
      let last : u.tui_sessions ≡ s.tui_sessions ++ tui_moved "active" n row ∷ [] =
        rows'
        ∙ rw rows
            (update-last id (tui_moved "active" n) s.tui_sessions row fresh' (row_key ∙ key_is)) in
      let one_more = open_sessions-append s.tui_sessions (tui_moved "active" n row) in
      rw last (bounded (open_sessions s.tui_sessions) (ap open_sessions same) one_more)
    where
      bounded : (n : ℕ) {m : ℕ} → n ≡ open_sessions p.tui_sessions → m ≤ suc n → m ≤ limit
      bounded n e le = omega arith

under_limit : (n count limit : ℕ) → n ≡ count → ltb count limit ≡ true → n < limit
under_limit n count limit e h = ground arith

module _ (w : World) (settings : Settings) (r : HttpRequest) where
  -- When a terminal session was created, at most as many sessions are open (requested, active or
  -- detached) as the configuration allows, the new one included.
  pub create_tui_session-within_limit :
      (p : TuiPayload) {s t : Store} {q : TuiSessionRow}
      → Returns (Endpoints.create_tui_session w settings r p) s q t
      → open_sessions t.tui_sessions ≤ settings.tui_max_sessions
  unfolding Endpoints.create_tui_session count_open_tui_sessions
  create_tui_session-within_limit p {s = s} {t = t} h = after _ _ h λ dev s₁ _ h₁.
      after _ _ h₁ λ _ s₂ _ h₂. after _ _ h₂ λ _ s₃ _ h₃. after _ _ h₃ λ count s₄ counting h₄.
        after _ _ h₄ λ _ s₅ below h₅. after _ _ h₅ λ e s₆ validated h₆.
          after _ _ h₆ λ id s₇ named h₇. after _ _ h₇ λ _ s₈ capable h₈.
            after _ _ h₈ λ _ s₉ made h₉. after _ _ h₉ λ _ u ran h₁₀.
              after _ _ h₁₀ λ rid u₁ drawn h₁₁. after _ _ h₁₁ λ audit u₂ audited h₁₂.
                after _ _ h₁₂ λ session u₃ referred h₁₃. after _ _ h₁₃ λ _ u₄ mirrored h₁₄.
                  after _ _ h₁₄ λ _ u₅ announced h₁₅.
                    let (count_is, same₄) = gets-Returns _ counting in
                    let (under, same₅) = require-Returns _ _ below in
                    let (_, same₆) = validate_tui_request-Permitted w settings _ _ validated in
                    let same₇ = moved (still (new_id-Logged w "tui")) named in
                    let same₈ = moved (capability-Still w _ _) capable in
                    let same_rows : s₅.tui_sessions ≡ s₃.tui_sessions = rw (same₅, same₄) refl in
                    let open_now : open_sessions s₅.tui_sessions < settings.tui_max_sessions =
                      under_limit _ count settings.tui_max_sessions
                        (ap open_sessions same_rows ∙ sym count_is) under in
                    let fewer =
                      counted w s₅ id _ e settings.tui_max_sessions open_now
                        (same₈ ∙ same₇ ∙ rw same₆ refl) refl made ran in
                    let drawn_same = moved (still (request_id-Logged w r)) drawn in
                    let audited_same =
                      moved (still (append_audit_event-Logged w _ _ _ _ _ _ _)) audited in
                    let referred_same = referred-Returns w id _ referred in
                    let mirrored_same = moved (operator-Still w _) mirrored in
                    let announced_same =
                      moved (still (create_event-Logged w _ _ _ _ _)) announced in
                    let (_, same) = pure-Returns h₁₅ in
                    let chain : open_sessions t.tui_sessions ≡ open_sessions u.tui_sessions =
                      ap (λ (x : Store). open_sessions x.tui_sessions) same
                      ∙ ap open_sessions announced_same
                      ∙ ap open_sessions mirrored_same
                      ∙ referred_same
                      ∙ ap open_sessions audited_same
                      ∙ ap open_sessions drawn_same in
                    omega (arith, chain, fewer)
