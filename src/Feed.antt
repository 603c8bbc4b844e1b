-- ===== src/Feed.antt =====
-- The event feed: the endpoint `list_events` of app.py, and reading it page by page.
pub mod Pages
use agentic_control_tower.Prelude.{String, Option, none, some, List, last?}
use agentic_control_tower.World.{World, ℤ}
use agentic_control_tower.Exec.{pure, ◌>>=◌, ◌>>◌}
use agentic_control_tower.Store.Rows.{EventRow}
use agentic_control_tower.Store.State.{Action, Settings}
use agentic_control_tower.Store.Events.{list_events_after}
use agentic_control_tower.Signing.{HttpRequest, verify_signed_request}

pub record Page : Type 0 where
  pub events : List EventRow
  pub next_cursor : Option String

-- `events[-1]["cursor"] if events else after`
abbrev pub next_cursor : Option String → List EventRow → Option String
next_cursor after events = elim (last? events) [ none ↦ after | some e ↦ e.cursor ]

module _ (w : World) (settings : Settings) (r : HttpRequest) where
  unfoldable pub page_after : Option String → ℤ → Action Page
  page_after after limit = do
    events ← list_events_after w after limit
    pure (record { events = events; next_cursor = next_cursor after events })

  unfoldable pub list_events : Option String → ℤ → Action Page
  list_events after limit = do verify_signed_request w settings r; page_after after limit
