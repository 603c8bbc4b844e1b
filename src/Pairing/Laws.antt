-- ===== src/Pairing/Laws.antt =====
-- When a pairing is completed, and that it is completed once.
use agentic_control_tower.Prelude.{
  ◌≡◌, refl, ℕ, String, true, false, Option, some, leb, arith, eq_refl, Bool-cases, inl, inr,
}
use agentic_control_tower.World.{World, ℤ}
use agentic_control_tower.Exec.{modify}
use agentic_control_tower.Exec.Along.{Along}
use agentic_control_tower.Exec.Returns.{
  Returns, Raises, moved, moved_by, after, bind-Raises, raise-Raises, pure-Returns, gets-Returns,
  require-Returns, guard_or-Returns, or_key_error-Returns, on_key_error-Returns,
}
use agentic_control_tower.Table.Laws.{find?-update, find?-key}
use agentic_control_tower.Store.Rows.{PairingRow, PairingStatus, completed, expired}
use agentic_control_tower.Store.State.{Store, Settings}
use agentic_control_tower.Store.Security.{now_utc, expires_in, compare_token}
use agentic_control_tower.Store.Sql.{row_at, fetch, update_where}
use agentic_control_tower.Store.Pairing.{
  pairing_sessions, get_pairing_session, set_pairing_status, completion_time,
}
use agentic_control_tower.Store.Agents.{get_node}
use agentic_control_tower.Store.Logged.{Logged, logged_rules, now_utc-Logged}
use agentic_control_tower.Pairing.Untouched.{
  SamePairings, of_log, create_device-SamePairings, issue_tokens-SamePairings,
}
use agentic_control_tower.Signing.{HttpRequest, request_id}
use agentic_control_tower.Pairing.{
  PairingPayload, Paired, open_status, expire_pairing_if_needed, reject_pairing, register_device,
  complete_pairing,
}

-- Between `s` and `t` the pairing session of the payload was completed.
pub record Completed (w : World) (payload : PairingPayload) (s t : Store) : Type 0 where
  pub session : PairingRow
  pub time : Option ℕ
  pub found : row_at pairing_sessions payload.pairing_id s ≡ some session
  pub was_open : open_status session.status ≡ true
  pub in_time : leb session.expires_at (w.clock s.reads) ≡ false
  pub right_token : compare_token w payload.challenge_response session.pairing_token_hash ≡ true
  pub closed :
      row_at pairing_sessions payload.pairing_id t
      ≡ some (record session { status = completed; completed_at = time })

get_pairing_session-Returns :
    (id : String) {s t : Store} {p : PairingRow}
    → Returns (get_pairing_session id) s p t
    → (row_at pairing_sessions id s ≡ some p) × (t ≡ s)
unfolding get_pairing_session fetch
get_pairing_session-Returns id h = after _ _ h λ found s₁ read h₁.
    let (found_is, same₁) = gets-Returns _ read in
    let (row_is, same) = or_key_error-Returns _ _ h₁ in (cc, cc)

module _ (w : World) where
  completion_time-Logged : (status : PairingStatus) → Along Logged (completion_time w status)
  completion_time-Logged PairingStatus.pending = search logged_rules
  completion_time-Logged completed = search logged_rules
  completion_time-Logged expired = search logged_rules
  completion_time-Logged PairingStatus.cancelled = search logged_rules

  now_utc-is : {s t : Store} {now : ℕ} → Returns (now_utc w) s now t → now ≡ w.clock s.reads
  unfolding now_utc
  now_utc-is h = let run = h.run in cc

  set_pairing_status-Returns :
      (id : String) (status : PairingStatus) {s t : Store} {u : Unit {0}} (p : PairingRow)
      → row_at pairing_sessions id s ≡ some p
      → Returns (set_pairing_status w id status) s u t
      → (time : Option ℕ) × (row_at pairing_sessions id t
          ≡ some (record p { status = status; completed_at = time }))
  unfolding set_pairing_status update_where modify
  set_pairing_status-Returns id status {s = s} p found h = after _ _ h λ time s₁ clock h₁.
      let logged = moved (completion_time-Logged status) clock in
      let same = logged.pairing_sessions in
      let run = h₁.run in
      let new = λ (q : PairingRow). record q { status = status; completed_at = time } in
      let at_id = find?-update pairing_sessions.key new (λ r. refl) id id s₁.pairing_sessions in
      let found₁ : row_at pairing_sessions id s₁ ≡ some p = cc in
      (time, ground (arith, at_id, eq_refl id, found₁))

  expire-Returns :
      (p : PairingRow) {s t : Store} {q : PairingRow}
      → row_at pairing_sessions p.pairing_id s ≡ some p
      → Returns (expire_pairing_if_needed w p) s q t
      → open_status q.status ≡ true
      → (q ≡ p)
        × (leb p.expires_at (w.clock s.reads) ≡ false)
        × (t.pairing_sessions ≡ s.pairing_sessions)
  unfolding expire_pairing_if_needed
  expire-Returns p {s = s} {t = t} {q = q} found h is_open =
      elim (Bool-cases (open_status p.status)) [
        | inr closed ↦ let (q_is, same) = pure-Returns (rw (closed) at h) in cc
        | inl pending ↦ after _ _ (rw (pending) at h) λ now s₁ clock h₁.
            let logged = moved (now_utc-Logged w) clock in
            let same = logged.pairing_sessions in
            let now_is = now_utc-is clock in
            elim (Bool-cases (leb p.expires_at now)) [
              | inr early ↦ let (q_is, same') = pure-Returns (rw (early) at h₁) in (q_is, cc, cc)
              | inl due ↦ after _ _ (rw (due) at h₁) λ _ s₂ set h₂.
                  let found₁ : row_at pairing_sessions p.pairing_id s₁ ≡ some p = cc in
                  let (time, expired_now) =
                    set_pairing_status-Returns p.pairing_id expired p found₁ set in
                  let (q_found, _) = get_pairing_session-Returns p.pairing_id h₂ in
                  let q_is : q ≡ record p { status = expired; completed_at = time } = cc in
                  let closed : open_status q.status ≡ false = rw q_is refl in cc
            ]
      ]

module _ (w : World) (settings : Settings) (r : HttpRequest) where
  request_id-Logged : Along Logged (request_id w r)
  unfolding request_id
  request_id-Logged = search logged_rules

  get_node-Logged : (id : String) → Along Logged (get_node id)
  unfolding get_node fetch
  get_node-Logged id = search logged_rules

  expires_in-Logged : (ttl : ℤ) → Along Logged (expires_in w ttl)
  unfolding expires_in
  expires_in-Logged ttl = search logged_rules

  reject_pairing-Raises : (p : PairingRow) → Raises (reject_pairing w settings r p)
  unfolding reject_pairing
  reject_pairing-Raises p = bind-Raises _ _ λ id. bind-Raises _ _ λ event. raise-Raises _

  register_device-Returns :
      (p : PairingRow) (payload : PairingPayload) {s t : Store} {paired : Paired}
      → row_at pairing_sessions p.pairing_id s ≡ some p
      → Returns (register_device w settings r p payload) s paired t
      → (time : Option ℕ) × (row_at pairing_sessions p.pairing_id t
          ≡ some (record p { status = completed; completed_at = time }))
  unfolding register_device
  register_device-Returns p payload found h = after _ _ h λ device s₁ created h₁.
      after _ _ h₁ λ tokens s₂ issued h₂. after _ _ h₂ λ _ s₃ set h₃.
        let same₁ = moved (create_device-SamePairings w _ _ _ _ _ _ _) created in
        let same₂ = moved (issue_tokens-SamePairings w _) issued in
        let found₂ : row_at pairing_sessions p.pairing_id s₂ ≡ some p = cc in
        let (time, closed) = set_pairing_status-Returns w p.pairing_id completed p found₂ set in
        let rest = moved_by {R = SamePairings} h₃ (
          of_log w (
            search (logged_rules, request_id-Logged, get_node-Logged, expires_in-Logged) depth
              14)) in
        (time, cc)

  -- Completing a pairing that returns was done with the token of the session, which was pending and
  -- had not expired, and leaves the session completed.
  pub complete_pairing-Completed :
      (payload : PairingPayload) {s t : Store} {paired : Paired}
      → Returns (complete_pairing w settings r payload) s paired t
      → Completed w payload s t
  unfolding complete_pairing
  complete_pairing-Completed payload {s = s} h = after _ _ h λ p s₁ got h₁.
      after _ _ h₁ λ q s₂ expire h₂. after _ _ h₂ λ _ s₃ opened h₃. after _ _ h₃ λ _ s₄ compared h₄.
        let (found, same₁) =
          get_pairing_session-Returns payload.pairing_id (on_key_error-Returns _ _ got) in
        let (is_open, same₃) = require-Returns _ _ opened in
        let (matches, same₄) = guard_or-Returns _ _ (reject_pairing-Raises q) compared in
        let id_is = find?-key pairing_sessions.key payload.pairing_id s.pairing_sessions p found in
        let found₁ : row_at pairing_sessions p.pairing_id s₁ ≡ some p = cc in
        let (q_is, early, same₂) = expire-Returns w p found₁ expire is_open in
        let found₄ : row_at pairing_sessions q.pairing_id s₄ ≡ some q = cc in
        let (time, closed) = register_device-Returns q payload found₄ h₄ in
        record {
          session = p;
          time = time;
          found = found;
          was_open = cc;
          in_time = cc;
          right_token = cc;
          closed = cc;
        }

module _ (w : World) (settings : Settings) (r next_request : HttpRequest) where
  -- In the state that completing a pairing leaves, no request completes the same session again, with
  -- any token.
  pub complete_pairing-once :
      (payload again : PairingPayload) {s t u : Store} {paired second : Paired}
      → Returns (complete_pairing w settings r payload) s paired t
      → again.pairing_id ≡ payload.pairing_id
      → ¬ Returns (complete_pairing w settings next_request again) t second u
  complete_pairing-once payload again h same h' =
      let first = complete_pairing-Completed w settings r payload h in
      let next = complete_pairing-Completed w settings next_request again h' in
      let closed = first.closed in
      let found = next.found in
      let is : next.session
          ≡ record first.session { status = completed; completed_at = first.time } =
        cc in
      let shut : open_status next.session.status ≡ false = rw is refl in
      let was_open = next.was_open in cc
