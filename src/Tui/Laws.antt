-- ===== src/Tui/Laws.antt =====
-- What was checked when a terminal request was let through.
use agentic_control_tower.Prelude.{◌≡◌, refl, ◌∙◌, String, true, Option, contains, or_else}
use agentic_control_tower.World.{World}
use agentic_control_tower.Exec.Returns.{Returns, after, pure-Returns, require-Returns}
use agentic_control_tower.Store.State.{Store, Settings}
use agentic_control_tower.Store.Tui.{}
use agentic_control_tower.Tui.{TuiRequest, validate_tui_request}

-- What the configuration demands of the command and the directory of a terminal.
pub record Permitted (w : World) (settings : Settings) (command directory : Option String)
    (q : TuiRequest) : Type 0 where
  pub enabled : settings.tui_enable_local_pty ≡ true
  pub chosen : q.command ≡ or_else command settings.tui_default_command
  pub listed : contains q.command settings.tui_allowed_commands ≡ true
  pub inside :
      w.relative_to q.working_directory (w.resolve settings.tui_allowed_working_directory) ≡ true
  pub there : w.is_dir q.working_directory ≡ true

module _ (w : World) (settings : Settings) where
  -- A terminal request that is let through runs a command of the allow list, the default one where none
  -- was asked for, in a directory inside the allowed root that exists, with terminals enabled; the
  -- check changes nothing.
  pub validate_tui_request-Permitted :
      (command directory : Option String) {s t : Store} {q : TuiRequest}
      → Returns (validate_tui_request w settings command directory) s q t
      → Permitted w settings command directory q × (t ≡ s)
  unfolding validate_tui_request
  validate_tui_request-Permitted command directory h = after _ _ h λ _ s₁ g₁ h₁.
      after _ _ h₁ λ _ s₂ g₂ h₂. after _ _ h₂ λ _ s₃ g₃ h₃. after _ _ h₃ λ _ s₄ g₄ h₄.
        after _ _ h₄ λ _ s₅ g₅ h₅.
          let (enabled, e₁) = require-Returns _ _ g₁ in
          let (_, e₂) = require-Returns _ _ g₂ in
          let (listed, e₃) = require-Returns _ _ g₃ in
          let (inside, e₄) = require-Returns _ _ g₄ in
          let (there, e₅) = require-Returns _ _ g₅ in
          let (q_is, e₆) = pure-Returns h₅ in
          (
            record {
              enabled = enabled;
              chosen = rw q_is refl;
              listed = rw q_is listed;
              inside = rw q_is inside;
              there = rw q_is there;
            },
            e₆ ∙ e₅ ∙ e₄ ∙ e₃ ∙ e₂ ∙ e₁,
          )
