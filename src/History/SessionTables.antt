-- ===== src/History/SessionTables.antt =====
-- The rows of the operator's sessions last: how each statement on their tables keeps the history.
use agentic_control_tower.Prelude.{refl, inr, ℕ, String, Option, List, All-append}
use agentic_control_tower.World.{World}
use agentic_control_tower.Exec.Along.{Along}
use agentic_control_tower.Table.Persist.{
  Persists-same, Persists-append, Persists-update, All-update,
}
use agentic_control_tower.Store.SessionRows.{
  AssistanceRequestRow, AssistanceSessionRow, BrowserSessionRow, VoiceSessionRow,
}
use agentic_control_tower.Store.Assistance.{
  assistance_requests, assistance_sessions, assistance_moved,
}
use agentic_control_tower.Store.Browser.{browser_sessions, browser_moved, noted}
use agentic_control_tower.Store.Voice.{voice_sessions, voice_moved}
use agentic_control_tower.Store.Sql.{insert, update_where}
use agentic_control_tower.Store.Sql.Laws.{Along-insert, Along-update_where}
use agentic_control_tower.Store.Lasting.{
  IsWaiting, AssistanceContinues-same, BrowserContinues-same, VoiceContinues-same,
  assistance_moved-Continues, browser_moved-Continues, noted-Continues, voice_moved-Continues,
}
use agentic_control_tower.History.{History, History-preorder}
use agentic_control_tower.History.Primitives.{rows-History}

module _ (w : World) where
  pub requests_insert-History :
      (q : AssistanceRequestRow) → IsWaiting q → Along (History w) (insert assistance_requests q)
  requests_insert-History q waiting =
      Along-insert (History-preorder w) assistance_requests q λ s fresh.
        rows-History w s _ refl refl refl refl (record {
          waiting = λ h. All-append IsWaiting s.assistance_requests q h waiting;
          assistance = Persists-same _ _ AssistanceContinues-same _ _ refl;
          browser = Persists-same _ _ BrowserContinues-same _ _ refl;
          voice = Persists-same _ _ VoiceContinues-same _ _ refl;
        })

  pub assistance_insert-History :
      (q : AssistanceSessionRow) → Along (History w) (insert assistance_sessions q)
  assistance_insert-History q = Along-insert (History-preorder w) assistance_sessions q λ s fresh.
      rows-History w s _ refl refl refl refl (record {
        waiting = λ h. h;
        assistance = Persists-append _ _ AssistanceContinues-same s.assistance_sessions q fresh;
        browser = Persists-same _ _ BrowserContinues-same _ _ refl;
        voice = Persists-same _ _ VoiceContinues-same _ _ refl;
      })

  pub browser_insert-History :
      (q : BrowserSessionRow) → Along (History w) (insert browser_sessions q)
  browser_insert-History q = Along-insert (History-preorder w) browser_sessions q λ s fresh.
      rows-History w s _ refl refl refl refl (record {
        waiting = λ h. h;
        assistance = Persists-same _ _ AssistanceContinues-same _ _ refl;
        browser = Persists-append _ _ BrowserContinues-same s.browser_assistance_sessions q fresh;
        voice = Persists-same _ _ VoiceContinues-same _ _ refl;
      })

  pub voice_insert-History : (q : VoiceSessionRow) → Along (History w) (insert voice_sessions q)
  voice_insert-History q = Along-insert (History-preorder w) voice_sessions q λ s fresh.
      rows-History w s _ refl refl refl refl (record {
        waiting = λ h. h;
        assistance = Persists-same _ _ AssistanceContinues-same _ _ refl;
        browser = Persists-same _ _ BrowserContinues-same _ _ refl;
        voice = Persists-append _ _ VoiceContinues-same s.voice_sessions q fresh;
      })

  pub activated-History :
      (k : String) (now : ℕ)
      → Along (History w) (
          update_where assistance_requests k (λ r. record r { state = "active"; updated_at = now }))
  activated-History k now = Along-update_where (History-preorder w) assistance_requests k _ λ s.
      rows-History w s _ refl refl refl refl (record {
        waiting = All-update _ IsWaiting _ (λ r h. inr refl) k s.assistance_requests;
        assistance = Persists-same _ _ AssistanceContinues-same _ _ refl;
        browser = Persists-same _ _ BrowserContinues-same _ _ refl;
        voice = Persists-same _ _ VoiceContinues-same _ _ refl;
      })

  pub assistance_moved-History :
      (k : String) (state : String) (summary : Option String) (now : ℕ)
      → Along (History w) (update_where assistance_sessions k (assistance_moved state summary now))
  unfolding assistance_moved
  assistance_moved-History k state summary now =
      Along-update_where (History-preorder w) assistance_sessions k
        (assistance_moved state summary now)
        λ s. rows-History w s _ refl refl refl refl (record {
          waiting = λ h. h;
          assistance =
              Persists-update _ _ AssistanceContinues-same _ (λ q. refl)
                (assistance_moved-Continues state summary now) k s.assistance_sessions;
          browser = Persists-same _ _ BrowserContinues-same _ _ refl;
          voice = Persists-same _ _ VoiceContinues-same _ _ refl;
        })

  pub browser_moved-History :
      (k : String) (state : String) (summary : Option String) (now : ℕ)
      → Along (History w) (update_where browser_sessions k (browser_moved state summary now))
  unfolding browser_moved
  browser_moved-History k state summary now =
      Along-update_where (History-preorder w) browser_sessions k (browser_moved state summary now)
        λ s. rows-History w s _ refl refl refl refl (record {
          waiting = λ h. h;
          assistance = Persists-same _ _ AssistanceContinues-same _ _ refl;
          browser =
              Persists-update _ _ BrowserContinues-same _ (λ q. refl)
                (browser_moved-Continues state summary now) k s.browser_assistance_sessions;
          voice = Persists-same _ _ VoiceContinues-same _ _ refl;
        })

  pub noted-History :
      (k : String) (notes : List String) (now : ℕ)
      → Along (History w) (update_where browser_sessions k (noted notes now))
  noted-History k notes now = Along-update_where (History-preorder w) browser_sessions k _ λ s.
      rows-History w s _ refl refl refl refl (record {
        waiting = λ h. h;
        assistance = Persists-same _ _ AssistanceContinues-same _ _ refl;
        browser =
            Persists-update _ _ BrowserContinues-same _ (λ q. refl) (noted-Continues notes now) k
              s.browser_assistance_sessions;
        voice = Persists-same _ _ VoiceContinues-same _ _ refl;
      })

  pub voice_moved-History :
      (k : String) (state : String) (closed_at : Option ℕ)
      → Along (History w) (update_where voice_sessions k (voice_moved state closed_at))
  voice_moved-History k state closed_at =
      Along-update_where (History-preorder w) voice_sessions k _ λ s.
        rows-History w s _ refl refl refl refl (record {
          waiting = λ h. h;
          assistance = Persists-same _ _ AssistanceContinues-same _ _ refl;
          browser = Persists-same _ _ BrowserContinues-same _ _ refl;
          voice =
              Persists-update _ _ VoiceContinues-same _ (λ v. refl)
                (voice_moved-Continues state closed_at) k s.voice_sessions;
        })

pub ruleset last_rules = (
  assistance_insert-History, browser_insert-History, voice_insert-History, activated-History,
  assistance_moved-History, browser_moved-History, noted-History, voice_moved-History,
)
