-- ===== src/Assistance/Changes.antt =====
-- The endpoints that return control, that record a user's action, and that close a session: each is a
-- controlled change of its row.
use agentic_control_tower.Prelude.{◌≡◌, refl, ◌<◌, ℕ, String, Option, none, some, [], ◌∷◌, ◌++◌}
use agentic_control_tower.World.{World}
use agentic_control_tower.Exec.{pure, ◌>>=◌}
use agentic_control_tower.Exec.Returns.{
  Returns, after, pure-Returns, gets-Returns, on_key_error-Returns,
}
use agentic_control_tower.Store.State.{Store, Settings}
use agentic_control_tower.Store.SessionRows.{
  AssistanceSessionRow, BrowserSessionRow, VoiceSessionRow,
}
use agentic_control_tower.Store.Security.{now_utc}
use agentic_control_tower.Store.Sql.{row_at, list_where}
use agentic_control_tower.Store.Sql.Laws.{fetch-Returns}
use agentic_control_tower.Store.Assistance.{
  AssistanceSession, assistance_sessions, assistance_moved, get_assistance_session,
  list_assistance_messages, update_assistance_session_state,
}
use agentic_control_tower.Store.Browser.{
  browser_sessions, browser_moved, noted, get_browser_assistance_session,
  update_browser_assistance_state, add_browser_assistance_note,
}
use agentic_control_tower.Store.Voice.{
  VoiceSession, voice_sessions, voice_moved, get_voice_session, list_voice_messages,
  update_voice_session_state, closing_time,
}
use agentic_control_tower.Signing.{HttpRequest}
use agentic_control_tower.Assistance.Control.{IsSessionTable, Controlled, control, changed_row}
use agentic_control_tower.Assistance.Tua.{
  return_tua_control, close_tua_session, get_assistance_session_or_404,
}
use agentic_control_tower.Assistance.Browsing.{
  get_browser_session_or_404, add_browser_assistance_event, return_browser_assistance_control,
  close_browser_assistance_session,
}
use agentic_control_tower.Assistance.Speech.{get_voice_session_or_404, close_voice_session}

assistance-IsSessionTable : IsSessionTable assistance_sessions
assistance-IsSessionTable = record {
  same = λ s t h. h.assistance;
  apart = λ s n rows. refl;
  put_rows = λ s rows. refl;
  put_operators = λ s rows. refl;
  put_reads = λ s rows. refl;
}

browser-IsSessionTable : IsSessionTable browser_sessions
browser-IsSessionTable = record {
  same = λ s t h. h.browser;
  apart = λ s n rows. refl;
  put_rows = λ s rows. refl;
  put_operators = λ s rows. refl;
  put_reads = λ s rows. refl;
}

voice-IsSessionTable : IsSessionTable voice_sessions
voice-IsSessionTable = record {
  same = λ s t h. h.voice;
  apart = λ s n rows. refl;
  put_rows = λ s rows. refl;
  put_operators = λ s rows. refl;
  put_reads = λ s rows. refl;
}

get_assistance_session-Returns :
    (id : String) (s t : Store) (a : AssistanceSession)
    → Returns (get_assistance_session id) s a t
    → (row_at assistance_sessions id s ≡ some a.row) × (t ≡ s)
unfolding get_assistance_session list_assistance_messages list_where
get_assistance_session-Returns id s t a h = after _ _ h λ row s₁ got h₁.
    after _ _ h₁ λ messages s₂ listed h₂.
      let (found, same₁) = fetch-Returns assistance_sessions id got in
      let (_, same₂) = gets-Returns _ listed in
      let (a_is, same₃) = pure-Returns h₂ in (rw a_is found, cc)

get_voice_session-Returns :
    (id : String) (s t : Store) (a : VoiceSession)
    → Returns (get_voice_session id) s a t
    → (row_at voice_sessions id s ≡ some a.row) × (t ≡ s)
unfolding get_voice_session list_voice_messages list_where
get_voice_session-Returns id s t a h = after _ _ h λ row s₁ got h₁.
    after _ _ h₁ λ messages s₂ listed h₂.
      let (found, same₁) = fetch-Returns voice_sessions id got in
      let (_, same₂) = gets-Returns _ listed in
      let (a_is, same₃) = pure-Returns h₂ in (rw a_is found, cc)

get_browser-same :
    (id : String) (s t : Store) (q : BrowserSessionRow)
    → Returns (get_browser_assistance_session id) s q t
    → t ≡ s
unfolding get_browser_assistance_session
get_browser-same id s t q h = (fetch-Returns browser_sessions id h).1

-- The rows that the endpoints leave, at the time `now`.
abbrev pub tua_returned : String → ℕ → AssistanceSessionRow → AssistanceSessionRow
tua_returned summary now q = record q {
  state = "returned_to_agent";
  return_summary = some summary;
  updated_at = now;
  returned_at = some now;
}

abbrev pub tua_closed : ℕ → AssistanceSessionRow → AssistanceSessionRow
tua_closed now q = record q { state = "closed"; updated_at = now; closed_at = some now }

abbrev pub browser_returned : String → ℕ → BrowserSessionRow → BrowserSessionRow
browser_returned summary now q = record q {
  state = "returned_to_agent";
  return_summary = some summary;
  updated_at = now;
  returned_at = some now;
}

abbrev pub browser_closed : ℕ → BrowserSessionRow → BrowserSessionRow
browser_closed now q = record q { state = "closed"; updated_at = now; closed_at = some now }

abbrev pub browser_noted : String → ℕ → BrowserSessionRow → BrowserSessionRow
browser_noted note now q = record q {
  state = "user_controlling";
  user_action_notes = q.user_action_notes ++ note ∷ [];
  updated_at = now;
}

abbrev pub voice_ended : ℕ → VoiceSessionRow → VoiceSessionRow
voice_ended now v = record v { state = "closed"; closed_at = some now }

module _ (w : World) (settings : Settings) (r : HttpRequest) where
  -- Between `s` and `t` a TUA session went to `state` by `change`, and its operator session with it.
  abbrev pub TuaChange :
      (ℕ → AssistanceSessionRow → AssistanceSessionRow)
      → String
      → Option String
      → String
      → Store
      → Store
      → Type 0
  TuaChange change state summary id s t =
      Controlled w settings r assistance_sessions (λ q. q.node_id) (λ q. q.agent_id) "tua" change
        state summary id s t

  abbrev pub TuaReturned : String → String → Store → Store → Type 0
  TuaReturned summary id s t =
      TuaChange (tua_returned summary) "returned_to_agent" (some summary) id s t

  abbrev pub TuaClosed : String → Store → Store → Type 0
  TuaClosed id s t = TuaChange tua_closed "closed" none id s t

  -- The same for a browser session.
  abbrev pub BrowserChange :
      (ℕ → BrowserSessionRow → BrowserSessionRow)
      → String
      → Option String
      → String
      → Store
      → Store
      → Type 0
  BrowserChange change state summary id s t =
      Controlled w settings r browser_sessions (λ q. q.node_id) (λ q. q.agent_id)
        "browser_assistance" change state summary id s t

  abbrev pub BrowserReturned : String → String → Store → Store → Type 0
  BrowserReturned summary id s t =
      BrowserChange (browser_returned summary) "returned_to_agent" (some summary) id s t

  abbrev pub BrowserClosed : String → Store → Store → Type 0
  BrowserClosed id s t = BrowserChange browser_closed "closed" none id s t

  abbrev pub BrowserNoted : String → String → Store → Store → Type 0
  BrowserNoted note id s t = BrowserChange (browser_noted note) "user_controlling" none id s t

  abbrev pub VoiceClosed : String → Store → Store → Type 0
  VoiceClosed id s t =
      Controlled w settings r voice_sessions (λ v. v.node_id) (λ v. v.agent_id) "voice" voice_ended
        "closed" none id s t

  -- Control of a TUA session was returned, when the endpoint returned, by a verified device that may
  -- use TUA for the node and the agent of the session; the session was there, and its row is now in
  -- the state returned_to_agent with the summary and the times of a reading of the clock; its operator
  -- session, if there is one, went to the same state at a later reading, with the device as its owner.
  pub return_tua_control-TuaReturned :
      (id summary : String) {s t : Store} {a : AssistanceSession}
      → Returns (return_tua_control w settings r id summary) s a t
      → TuaReturned summary id s t
  unfolding return_tua_control get_assistance_session_or_404 update_assistance_session_state
      assistance_moved
  return_tua_control-TuaReturned id summary h = after _ _ h λ dev s₁ came h₁.
      after _ _ h₁ λ session s₂ got h₂. after _ _ h₂ λ _ s₃ checked h₃.
        after _ _ h₃ λ updated s₄ written h₄.
          let (found, same) =
            get_assistance_session-Returns id s₁ s₂ session (on_key_error-Returns _ _ got) in
          (control w settings r assistance_sessions _ _ _ assistance-IsSessionTable _ id _ _ dev
            session.row _ _ _ _ _ updated came found (rw same at checked)
            (changed_row w assistance_sessions _ assistance-IsSessionTable (λ n q. refl) id _
              (λ s t a g. (get_assistance_session-Returns id s t a g).1) session.row written)
            h₄).0

  -- The same for closing a TUA session: its row and its operator session are in the state closed.
  pub close_tua_session-TuaClosed :
      (id : String) {s t : Store} {a : AssistanceSession}
      → Returns (close_tua_session w settings r id) s a t
      → TuaClosed id s t
  unfolding close_tua_session get_assistance_session_or_404 update_assistance_session_state
      assistance_moved
  close_tua_session-TuaClosed id h = after _ _ h λ dev s₁ came h₁. after _ _ h₁ λ session s₂ got h₂.
      after _ _ h₂ λ _ s₃ checked h₃. after _ _ h₃ λ updated s₄ written h₄.
        let (found, same) =
          get_assistance_session-Returns id s₁ s₂ session (on_key_error-Returns _ _ got) in
        (control w settings r assistance_sessions _ _ _ assistance-IsSessionTable _ id _ _ dev
          session.row _ _ _ _ _ updated came found (rw same at checked)
          (changed_row w assistance_sessions _ assistance-IsSessionTable (λ n q. refl) id _
            (λ s t a g. (get_assistance_session-Returns id s t a g).1) session.row written)
          h₄).0

  -- The same for returning control of a browser session, with the capability of browser assistance.
  pub return_browser_assistance_control-BrowserReturned :
      (id summary : String) {s t : Store} {a : BrowserSessionRow}
      → Returns (return_browser_assistance_control w settings r id summary) s a t
      → BrowserReturned summary id s t
  unfolding return_browser_assistance_control get_browser_session_or_404
      get_browser_assistance_session update_browser_assistance_state browser_moved
  return_browser_assistance_control-BrowserReturned id summary h = after _ _ h λ dev s₁ came h₁.
      after _ _ h₁ λ session s₂ got h₂. after _ _ h₂ λ _ s₃ checked h₃.
        after _ _ h₃ λ updated s₄ written h₄.
          let (found, same) = fetch-Returns browser_sessions id (on_key_error-Returns _ _ got) in
          (control w settings r browser_sessions _ _ _ browser-IsSessionTable _ id _ _ dev session _
            _ _ _ _ updated came found (rw same at checked)
            (changed_row w browser_sessions _ browser-IsSessionTable (λ n q. refl) id _
              (get_browser-same id) session written)
            h₄).0

  -- The same for closing a browser session: its row and its operator session are in the state closed.
  pub close_browser_assistance_session-BrowserClosed :
      (id : String) {s t : Store} {a : BrowserSessionRow}
      → Returns (close_browser_assistance_session w settings r id) s a t
      → BrowserClosed id s t
  unfolding close_browser_assistance_session get_browser_session_or_404
      get_browser_assistance_session update_browser_assistance_state browser_moved
  close_browser_assistance_session-BrowserClosed id h = after _ _ h λ dev s₁ came h₁.
      after _ _ h₁ λ session s₂ got h₂. after _ _ h₂ λ _ s₃ checked h₃.
        after _ _ h₃ λ updated s₄ written h₄.
          let (found, same) = fetch-Returns browser_sessions id (on_key_error-Returns _ _ got) in
          (control w settings r browser_sessions _ _ _ browser-IsSessionTable _ id _ _ dev session _
            _ _ _ _ updated came found (rw same at checked)
            (changed_row w browser_sessions _ browser-IsSessionTable (λ n q. refl) id _
              (get_browser-same id) session written)
            h₄).0

  note-written :
      (id note : String) {s t : Store} {a : BrowserSessionRow} (row : BrowserSessionRow)
      → Returns (add_browser_assistance_note w id note) s a t
      → row_at browser_sessions id s ≡ some row
      → (row_at browser_sessions id t ≡ some (browser_noted note (w.clock s.reads) row))
        × (t.operator_sessions ≡ s.operator_sessions)
        × (s.reads < t.reads)
  unfolding add_browser_assistance_note get_browser_assistance_session
  note-written id note {s = s} row h found = after _ _ h λ q s₁ got h₁.
      let (read, same) = fetch-Returns browser_sessions id got in
      let q_is : q ≡ row = cc in
      changed_row w browser_sessions (noted (row.user_action_notes ++ note ∷ []))
        browser-IsSessionTable (λ n b. refl) id _ (get_browser-same id) row (rw (same, q_is) at h₁)
        found

  -- A user action was recorded, when the endpoint returned, by a verified device that may use browser
  -- assistance for the node and the agent of the session; the session was there, in any state, and its
  -- row now has the note after its earlier ones and the state user_controlling; its operator session,
  -- if there is one, went to the same state at a later reading of the clock, with the device as its
  -- owner.
  pub add_browser_assistance_event-BrowserNoted :
      (id note : String) {s t : Store} {a : BrowserSessionRow}
      → Returns (add_browser_assistance_event w settings r id note) s a t
      → BrowserNoted note id s t
  unfolding add_browser_assistance_event get_browser_session_or_404 get_browser_assistance_session
  add_browser_assistance_event-BrowserNoted id note h = after _ _ h λ dev s₁ came h₁.
      after _ _ h₁ λ session s₂ got h₂. after _ _ h₂ λ _ s₃ checked h₃.
        after _ _ h₃ λ updated s₄ written h₄.
          let (found, same) = fetch-Returns browser_sessions id (on_key_error-Returns _ _ got) in
          (control w settings r browser_sessions _ _ _ browser-IsSessionTable _ id _ _ dev session _
            _ _ _ _ updated came found (rw same at checked) (note-written id note session written)
            h₄).0

  closed-at :
      (id : String) {s t : Store} {a : VoiceSession} (row : VoiceSessionRow)
      → Returns (update_voice_session_state w id "closed") s a t
      → row_at voice_sessions id s ≡ some row
      → (row_at voice_sessions id t ≡ some (voice_moved "closed" (some (w.clock s.reads)) row))
        × (t.operator_sessions ≡ s.operator_sessions)
        × (s.reads < t.reads)
  unfolding update_voice_session_state closing_time ◌>>=◌ now_utc pure
  closed-at id {s = s} {t = t} {a = a} row h found =
      changed_row w voice_sessions (λ now. voice_moved "closed" (some now)) voice-IsSessionTable
        (λ n v. refl) id _ (λ s t a g. (get_voice_session-Returns id s t a g).1) row
        (record { run = h.run }) found

  -- A voice session was closed, when the endpoint returned, by a verified device that may use voice for
  -- the node and the agent of the session; the session was there, and its row is now closed, at a
  -- reading of the clock; its operator session, if there is one, went to the same state at a later
  -- reading, with the device as its owner.
  pub close_voice_session-VoiceClosed :
      (id : String) {s t : Store} {a : VoiceSession}
      → Returns (close_voice_session w settings r id) s a t
      → VoiceClosed id s t
  unfolding close_voice_session get_voice_session_or_404
  close_voice_session-VoiceClosed id h = after _ _ h λ dev s₁ came h₁.
      after _ _ h₁ λ session s₂ got h₂. after _ _ h₂ λ _ s₃ checked h₃.
        after _ _ h₃ λ updated s₄ written h₄.
          let (found, same) =
            get_voice_session-Returns id s₁ s₂ session (on_key_error-Returns _ _ got) in
          (control w settings r voice_sessions _ _ _ voice-IsSessionTable _ id _ _ dev session.row _
            _ _ _ _ updated came found (rw same at checked) (closed-at id session.row written) h₄).0
