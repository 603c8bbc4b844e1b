-- ===== src/History/Runs/Claims.antt =====
-- What every run of calls leaves as it was.
use agentic_control_tower.Prelude.{◌≡◌, String, true, false, none, some, List, ◌++◌, All}
use agentic_control_tower.World.{World}
use agentic_control_tower.Table.{Unique}
use agentic_control_tower.Store.Rows.{ApprovalRow, AuditRow, is_pending}
use agentic_control_tower.Store.State.{Store, Settings}
use agentic_control_tower.Store.Approvals.{approvals}
use agentic_control_tower.Store.Devices.{devices, seen_nonce}
use agentic_control_tower.Store.Sql.{row_at}
use agentic_control_tower.Store.SessionRows.{
  AssistanceSessionRow, BrowserSessionRow, VoiceSessionRow,
}
use agentic_control_tower.Store.Assistance.{assistance_sessions}
use agentic_control_tower.Store.Browser.{browser_sessions}
use agentic_control_tower.Store.Voice.{voice_sessions}
use agentic_control_tower.Store.Lasting.{
  IsWaiting, AssistanceContinues, BrowserContinues, VoiceContinues,
}
use agentic_control_tower.Signing.{HttpRequest}
use agentic_control_tower.Calls.{Call, serve}
use agentic_control_tower.History.{History, Chained, IsRevoked, IsRecorded, request_of}
use agentic_control_tower.History.Runs.{serve-Sound}

module _ (w : World) (settings : Settings) (calls : List (HttpRequest × Call)) (s : Store)
    (unique : Unique approvals.key s.approval_requests) where
  run : History w s (serve w settings calls s)
  run = (serve-Sound w settings calls s).history unique

  -- From a state in which the keys of the approvals are unique, an approval that is approved,
  -- denied, expired or cancelled is the very same row after any run of calls: no call decides it
  -- again or writes any of its columns.
  pub decided_is_final :
      (id : String) (a : ApprovalRow)
      → row_at approvals id s ≡ some a
      → is_pending a.state ≡ false
      → row_at approvals id (serve w settings calls s) ≡ some a
  decided_is_final id a at_s decided =
      let (b, at_t, same, final) = run.evolves.at id a at_s in rw (final decided) at at_t

  -- From a state in which the keys of the approvals are unique, every approval is still there after
  -- any run of calls, and what it asks for (the tool, the payload and its hash, the risk, the agent,
  -- the options, the times of the request and of the expiry) has not changed, decided or not.
  pub request_is_immutable :
      (id : String) (a : ApprovalRow)
      → row_at approvals id s ≡ some a
      → (b : ApprovalRow) × (row_at approvals id (serve w settings calls s) ≡ some b)
        × (request_of b ≡ request_of a)
  request_is_immutable id a at_s =
      let (b, at_t, same, final) = run.evolves.at id a at_s in (b, at_t, same)

  -- From a state in which the keys of the approvals are unique and every approval is recorded as its
  -- state says (a pending one has no decision time and no device, one that is over has the time, and
  -- one that was approved or denied has the device too), every approval is recorded so after any run
  -- of calls, the new ones included.
  pub decisions_stay_complete :
      All IsRecorded s.approval_requests
      → All IsRecorded (serve w settings calls s).approval_requests
  decisions_stay_complete recorded = run.recorded recorded

  -- From a state in which the keys of the approvals are unique and the audit log is a hash chain
  -- (each event names the hash of the one before it and carries the hash of its own contents), any
  -- run of calls only appends to the log, and the longer log is a hash chain again.
  pub audit_log_grows_as_a_chain :
      Chained w none s.audit_events
      → ((new : List AuditRow) × ((serve w settings calls s).audit_events ≡ s.audit_events ++ new))
        × Chained w none (serve w settings calls s).audit_events
  audit_log_grows_as_a_chain chained = (run.appended, run.chained chained)

  -- From a state in which the keys of the approvals are unique, a nonce that a device has used
  -- stays recorded through any run of calls.
  pub used_nonce_stays :
      (device nonce : String)
      → seen_nonce device nonce s.request_nonces ≡ true
      → seen_nonce device nonce (serve w settings calls s).request_nonces ≡ true
  used_nonce_stays device nonce = run.nonces device nonce

  -- From a state in which the keys of the approvals are unique, a device that is registered and
  -- revoked is still registered and revoked after any run of calls.
  pub IsRevoked-stays :
      (device : String)
      → IsRevoked (row_at devices device s)
      → IsRevoked (row_at devices device (serve w settings calls s))
  IsRevoked-stays device = run.revocations device

  -- From a state in which the keys of the approvals are unique, every assistance session is still
  -- there after any run of calls, with the same request, node, agent, session, device and time of
  -- creation; its time of closing and its summary stay set where they were set.
  pub assistance_session_lasts :
      (id : String) (q : AssistanceSessionRow)
      → row_at assistance_sessions id s ≡ some q
      → (p : AssistanceSessionRow) × (row_at assistance_sessions id (serve w settings calls s)
          ≡ some p)
        × AssistanceContinues q p
  assistance_session_lasts id q found = run.lasting.assistance.at id q found

  -- From a state in which the keys of the approvals are unique, every browser assistance session is
  -- still there after any run of calls, with the same node, agent, session, approval, reason, context
  -- and time of creation; its time of closing and its summary stay set where they were set.
  pub browser_session_lasts :
      (id : String) (q : BrowserSessionRow)
      → row_at browser_sessions id s ≡ some q
      → (p : BrowserSessionRow) × (row_at browser_sessions id (serve w settings calls s) ≡ some p)
        × BrowserContinues q p
  browser_session_lasts id q found = run.lasting.browser.at id q found

  -- From a state in which the keys of the approvals are unique, every voice session is still there
  -- after any run of calls, with the same node, agent, session, mode, creator and time of creation,
  -- and its time of closing stays set where it was set.
  pub voice_session_lasts :
      (id : String) (v : VoiceSessionRow)
      → row_at voice_sessions id s ≡ some v
      → (u : VoiceSessionRow) × (row_at voice_sessions id (serve w settings calls s) ≡ some u)
        × VoiceContinues v u
  voice_session_lasts id v found = run.lasting.voice.at id v found

  -- From a state in which the keys of the approvals are unique and every assistance request is
  -- requested or active, every assistance request is requested or active after any run of calls: none
  -- of the states that end the wait of `wait_for_assistance` is ever reached by a request.
  pub assistance_requests_never_end :
      All IsWaiting s.assistance_requests
      → All IsWaiting (serve w settings calls s).assistance_requests
  assistance_requests_never_end waiting = run.lasting.waiting waiting
