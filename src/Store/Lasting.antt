-- ===== src/Store/Lasting.antt =====
-- What no method undoes of the operator's sessions: each session is found again under its key, with
-- the same origin, closed if it was closed, and with a summary if it had one; and what the assistance
-- requests are waiting for.
use agentic_control_tower.Prelude.{
  ◌≡◌, refl, ◌∙◌, ◌≢◌, ◌⊎◌, String, ℕ, String, List, coalesce, Option, none, some, [], All,
}
use agentic_control_tower.Table.Persist.{Persists, Persists-same, Persists-join}
use agentic_control_tower.Store.SessionRows.{
  AssistanceRequestRow, AssistanceSessionRow, BrowserSessionRow, VoiceSessionRow,
}
use agentic_control_tower.Store.State.{Store}
use agentic_control_tower.Store.Assistance.{assistance_sessions, assistance_moved}
use agentic_control_tower.Store.Browser.{browser_sessions, browser_moved, noted}
use agentic_control_tower.Store.Voice.{voice_sessions, voice_moved}

-- The columns that are written when the session is created, and never again.
abbrev pub assistance_origin : AssistanceSessionRow → AssistanceSessionRow
assistance_origin q = record q {
  state = "";
  return_summary = none;
  updated_at = 0;
  returned_at = none;
  closed_at = none;
}

abbrev pub browser_origin : BrowserSessionRow → BrowserSessionRow
browser_origin q = record q {
  state = "";
  user_action_notes = [];
  return_summary = none;
  updated_at = 0;
  returned_at = none;
  closed_at = none;
}

abbrev pub voice_origin : VoiceSessionRow → VoiceSessionRow
voice_origin v = record v { state = ""; closed_at = none }

-- What is set stays set.
abbrev pub Stays : {A : Type 0} → Option A → Option A → Type 0
Stays old new = old ≢ none → new ≢ none

abbrev pub AssistanceContinues : AssistanceSessionRow → AssistanceSessionRow → Type 0
AssistanceContinues p q =
    (assistance_origin q ≡ assistance_origin p)
    × Stays p.closed_at q.closed_at
    × Stays p.return_summary q.return_summary

abbrev pub BrowserContinues : BrowserSessionRow → BrowserSessionRow → Type 0
BrowserContinues p q =
    (browser_origin q ≡ browser_origin p)
    × Stays p.closed_at q.closed_at
    × Stays p.return_summary q.return_summary

abbrev pub VoiceContinues : VoiceSessionRow → VoiceSessionRow → Type 0
VoiceContinues p q = (voice_origin q ≡ voice_origin p) × Stays p.closed_at q.closed_at

-- The states of an assistance request that the code writes.
abbrev pub IsWaiting : AssistanceRequestRow → Type 0
IsWaiting q = (q.state ≡ "requested") ⊎ (q.state ≡ "active")

pub record Lasting (s t : Store) : Type 0 where
  pub waiting : All IsWaiting s.assistance_requests → All IsWaiting t.assistance_requests
  pub assistance :
      Persists assistance_sessions.key AssistanceContinues s.assistance_sessions
        t.assistance_sessions
  pub browser :
      Persists browser_sessions.key BrowserContinues s.browser_assistance_sessions
        t.browser_assistance_sessions
  pub voice : Persists voice_sessions.key VoiceContinues s.voice_sessions t.voice_sessions

pub AssistanceContinues-same : (q : AssistanceSessionRow) → AssistanceContinues q q
AssistanceContinues-same q = (refl, λ h. h, λ h. h)

pub BrowserContinues-same : (q : BrowserSessionRow) → BrowserContinues q q
BrowserContinues-same q = (refl, λ h. h, λ h. h)

pub VoiceContinues-same : (v : VoiceSessionRow) → VoiceContinues v v
VoiceContinues-same v = (refl, λ h. h)

pub Lasting-same :
    (s t : Store)
    → t.assistance_requests ≡ s.assistance_requests
    → t.assistance_sessions ≡ s.assistance_sessions
    → t.browser_assistance_sessions ≡ s.browser_assistance_sessions
    → t.voice_sessions ≡ s.voice_sessions
    → Lasting s t
Lasting-same s t requests assistance browser voice = record {
  waiting = λ h. rw requests h;
  assistance = Persists-same _ _ AssistanceContinues-same _ _ assistance;
  browser = Persists-same _ _ BrowserContinues-same _ _ browser;
  voice = Persists-same _ _ VoiceContinues-same _ _ voice;
}

pub Lasting-join : (s t u : Store) → Lasting s t → Lasting t u → Lasting s u
Lasting-join s t u f g = record {
  waiting = λ h. g.waiting (f.waiting h);
  assistance =
      Persists-join _ AssistanceContinues
        (λ p q r (a, b, c) (a', b', c'). (a' ∙ a, λ h. b' (b h), λ h. c' (c h))) _ _ _ f.assistance
        g.assistance;
  browser =
      Persists-join _ BrowserContinues
        (λ p q r (a, b, c) (a', b', c'). (a' ∙ a, λ h. b' (b h), λ h. c' (c h))) _ _ _ f.browser
        g.browser;
  voice =
      Persists-join _ VoiceContinues (λ p q r (a, b) (a', b'). (a' ∙ a, λ h. b' (b h))) _ _ _
        f.voice g.voice;
}

coalesce-Stays : {A : Type 0} (new old : Option A) → Stays old (coalesce new old)
coalesce-Stays none old h = h
coalesce-Stays (some a) old h = λ e. cc

pub assistance_moved-Continues :
    (state : String) (summary : Option String) (now : ℕ) (q : AssistanceSessionRow)
    → AssistanceContinues q (assistance_moved state summary now q)
unfolding assistance_moved
assistance_moved-Continues state summary now q =
    (refl, coalesce-Stays _ q.closed_at, coalesce-Stays summary q.return_summary)

pub browser_moved-Continues :
    (state : String) (summary : Option String) (now : ℕ) (q : BrowserSessionRow)
    → BrowserContinues q (browser_moved state summary now q)
unfolding browser_moved
browser_moved-Continues state summary now q =
    (refl, coalesce-Stays _ q.closed_at, coalesce-Stays summary q.return_summary)

pub noted-Continues :
    (notes : List String) (now : ℕ) (q : BrowserSessionRow) → BrowserContinues q (noted notes now q)
noted-Continues notes now q = (refl, λ h. h, λ h. h)

pub voice_moved-Continues :
    (state : String) (closed_at : Option ℕ) (v : VoiceSessionRow)
    → VoiceContinues v (voice_moved state closed_at v)
voice_moved-Continues state closed_at v = (refl, coalesce-Stays closed_at v.closed_at)
