-- ===== src/Client/Answers.antt =====
-- What the polls of a handoff see of what the operator did, and whether it ends the wait.
use agentic_control_tower.Prelude.{
  ◌≡◌, refl, String, true, false, none, some, All, inl, inr, contains, [], ◌∷◌,
}
use agentic_control_tower.World.{World}
use agentic_control_tower.Exec.{ok, pure, gets, or_key_error, on_key_error, ◌>>=◌}
use agentic_control_tower.Exec.Returns.{Returns, after, pure-Returns, on_key_error-Returns}
use agentic_control_tower.Table.Persist.{All-find?}
use agentic_control_tower.Table.Laws.{find?-key}
use agentic_control_tower.Store.SessionRows.{AssistanceRequestRow, BrowserSessionRow}
use agentic_control_tower.Store.State.{Store, Settings}
use agentic_control_tower.Store.Sql.{fetch}
use agentic_control_tower.Store.Sql.Laws.{fetch-Returns}
use agentic_control_tower.Store.Assistance.{assistance_requests, get_assistance_request}
use agentic_control_tower.Store.Browser.{
  browser_sessions, browser_moved, get_browser_assistance_session,
}
use agentic_control_tower.Store.Lasting.{IsWaiting}
use agentic_control_tower.Signing.{HttpRequest}
use agentic_control_tower.Assistance.Tua.{get_assistance_request_or_404}
use agentic_control_tower.Assistance.Browsing.{
  get_browser_session_or_404, return_browser_assistance_control,
}
use agentic_control_tower.Assistance.Handoffs.{HandoffResult, tua_result, check_handoff}
use agentic_control_tower.Assistance.Changes.{
  browser_returned, return_browser_assistance_control-BrowserReturned,
}
use agentic_control_tower.Client.{assistance_done, browser_done}

-- After control was returned with a summary, a poll of the browser review returns it and ends the wait,
-- and changes nothing.
pub browser_wait_ends :
    (w : World) (settings : Settings) (r : HttpRequest) (id summary : String) {s t : Store}
    {a : BrowserSessionRow}
    → Returns (return_browser_assistance_control w settings r id summary) s a t
    → (result : HandoffResult) × (check_handoff "browser_review" id t ≡ (ok result, t))
      × (result.handoff_ref ≡ id)
      × (result.return_summary ≡ some summary)
      × (browser_done result ≡ true)
unfolding check_handoff get_browser_session_or_404 get_browser_assistance_session on_key_error fetch
    gets or_key_error ◌>>=◌ pure browser_moved
browser_wait_ends w settings r id summary {t = t} h =
    let change = return_browser_assistance_control-BrowserReturned w settings r id summary h in
    let written = change.written in
    let key_is = find?-key browser_sessions.key id t.browser_assistance_sessions _ written in
    let q : BrowserSessionRow = browser_returned summary (w.clock change.time) change.row in
    (
      record {
        handoff_ref = q.browser_session_id;
        state = q.state;
        return_summary = q.return_summary;
        messages = [];
      },
      rw written refl,
      key_is,
      refl,
      refl,
    )

waits-on :
    (q : AssistanceRequestRow)
    → IsWaiting q
    → contains q.state ("returned_to_agent" ∷ "closed" ∷ "cancelled" ∷ []) ≡ false
waits-on q (inl e) = rw e refl
waits-on q (inr e) = rw e refl

-- Where every assistance request is requested or active, a poll of an operator's guidance that finds no
-- summary does not end the wait, also if the session was closed.
pub guidance_keeps_waiting :
    (id : String) {s t : Store} {result : HandoffResult}
    → All IsWaiting s.assistance_requests
    → Returns (check_handoff "operator_guidance" id) s result t
    → result.return_summary ≡ none
    → assistance_done result ≡ false
unfolding check_handoff tua_result get_assistance_request_or_404 get_assistance_request
guidance_keeps_waiting id {s = s} {result = result} waiting h silent =
    after _ _ h λ found s₁ got h₁. after _ _ got λ request s₂ read h₂.
      after _ _ h₂ λ sessions s₃ listed h₃.
        let (row_is, _) = fetch-Returns assistance_requests id (on_key_error-Returns _ _ read) in
        let (found_is, _) = pure-Returns h₃ in
        let (result_is, _) = pure-Returns h₁ in
        let waits = waits-on request (
          All-find? assistance_requests.key IsWaiting id s.assistance_requests request waiting
            row_is) in
        let state_is : result.state ≡ request.state = rw (result_is, found_is) refl in
        rw (silent, state_is) waits
