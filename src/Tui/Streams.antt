-- ===== src/Tui/Streams.antt =====
-- What was checked when the stream of a terminal was accepted.
use agentic_control_tower.Prelude.{
  ◌≡◌, refl, ℕ, String, Bool, true, false, Option, none, some, not, ◌==◌, ◌&&◌, if◌then◌else◌,
  eq_iff, arith,
}
use agentic_control_tower.World.{World}
use agentic_control_tower.Exec.{Exec, pure, on_option, ◌>>=◌}
use agentic_control_tower.Exec.Returns.{Returns, after, pure-Returns, gets-Returns, require-Returns}
use agentic_control_tower.Store.SessionRows.{TuiSessionRow, AttachTokenRow}
use agentic_control_tower.Store.State.{Store}
use agentic_control_tower.Store.Sql.{row_at}
use agentic_control_tower.Store.Tui.{
  tui_sessions, is_ended, verify_tui_attach_token, update_tui_session_state, get_tui_session,
  tui_moved,
}
use agentic_control_tower.Store.Sql.Laws.{fetch-Returns}
use agentic_control_tower.Assistance.Control.{IsSessionTable, changed_row}
use agentic_control_tower.Tui.{attach}
use agentic_control_tower.Tui.Endpoints.{accept_stream, accept_token, open_stream}
use agentic_control_tower.Tui.Tokens.{Attachable, verify_token-Attachable}

-- `false` where the value is None, where the stream was accepted.
on_option-true :
    {A : Type 0} (o : Option A) (f : A → Exec Store Bool) {s t : Store}
    → Returns (on_option o (pure false) f) s true t
    → (a : A) × (o ≡ some a) × Returns (f a) s true t
unfolding on_option pure
on_option-true none f h = let run = h.run in cc
on_option-true (some a) f h = (a, refl, record { run = h.run })

when-true :
    (b : Bool) (m : Exec Store Bool) {s t : Store}
    → Returns (if b then m else pure false) s true t
    → (b ≡ true) × Returns m s true t
unfolding pure
when-true true m h = (refl, record { run = h.run })
when-true false m h = let run = h.run in cc

-- A stream of the session `id` was accepted with the attach token `text` between `s` and `t`: the token
-- is live and was made for the session, the session belongs to the token's device, has not ended, and
-- is active afterwards.
pub record Accepted (w : World) (id text : String) (s t : Store) : Type 0 where
  pub token : AttachTokenRow
  pub attachable : Attachable w text s token
  pub for_session : token.session_id ≡ id
  pub row : TuiSessionRow
  pub found : row_at tui_sessions id s ≡ some row
  pub owner : row.user_device_id ≡ token.device_id
  pub lives : is_ended row.state ≡ false
  pub time : ℕ
  pub active :
      row_at tui_sessions id t
      ≡ some (record row { state = "active"; last_activity_at = w.clock time })

pub tui-IsSessionTable : IsSessionTable tui_sessions
tui-IsSessionTable = record {
  same = λ s t h. h.tui;
  apart = λ s n rows. refl;
  put_rows = λ s rows. refl;
  put_operators = λ s rows. refl;
  put_reads = λ s rows. refl;
}

pub get_tui-same :
    (id : String) (s t : Store) (q : TuiSessionRow) → Returns (get_tui_session id) s q t → t ≡ s
unfolding get_tui_session
get_tui-same id s t q h = (fetch-Returns tui_sessions id h).1

module _ (w : World) where
  attach-Returns :
      (id : String) (row : TuiSessionRow) {s t : Store} {u : Unit {0}}
      → Returns (attach w id) s u t
      → row_at tui_sessions id s ≡ some row
      → row_at tui_sessions id t ≡ some (tui_moved "active" (w.clock s.reads) row)
  unfolding attach update_tui_session_state
  attach-Returns id row {s = s} h found = after _ _ h λ running s₁ read h₁.
      after _ _ h₁ λ _ s₂ checked h₂. after _ _ h₂ λ q s₃ written h₃.
        let (_, same₁) = gets-Returns _ read in
        let (_, same₂) = require-Returns _ _ checked in
        let (_, same₃) = pure-Returns h₃ in
        let (moved, _, _) =
          changed_row w tui_sessions (tui_moved "active") tui-IsSessionTable (λ n p. refl) id _
            (get_tui-same id) row (rw (same₂, same₁) at written) found in
        rw same₃ moved

  accepted :
      (id : String) (token : AttachTokenRow) {s t : Store}
      → Returns (accept_token w id token) s true t
      → (row : TuiSessionRow) × (row_at tui_sessions id s ≡ some row)
        × (token.session_id ≡ id)
        × (row.user_device_id ≡ token.device_id)
        × (is_ended row.state ≡ false)
        × (row_at tui_sessions id t ≡ some (tui_moved "active" (w.clock s.reads) row))
  unfolding accept_token accept_stream
  accepted id token {s = s} {t = t} h = after _ _ h λ found s₁ read h₁.
      let (found_is, same) = gets-Returns _ read in
      let (row, is_row, h₂) = on_option-true found (accept_stream w id token) h₁ in
      after _ _ h₂ λ running s₂ asked h₃.
        let (_, same₂) = gets-Returns _ asked in
        let (passed, h₄) =
          when-true
            (token.session_id == id
              && row.user_device_id == token.device_id
              && not (is_ended row.state)
              && running)
            _ h₃ in
        after _ _ h₄ λ _ s₃ attached h₅.
          let (_, same₃) = pure-Returns h₅ in
          let here : row_at tui_sessions id s ≡ some row = cc in
          let (for_session, owner, lives) = all_passed _ _ _ running passed in
          (
            row,
            here,
            (eq_iff token.session_id id).0 for_session,
            (eq_iff row.user_device_id token.device_id).0 owner,
            lives,
            moved_on row s₃ same₃ (attach-Returns id row (rw (same₂, same) at attached) here),
          )
    where
      all_passed :
          (a b c d : Bool) → a && b && not c && d ≡ true → (a ≡ true) × (b ≡ true) × (c ≡ false)
      all_passed a b c d h = ground arith

      moved_on :
          (row : TuiSessionRow) (s₃ : Store)
          → t ≡ s₃
          → row_at tui_sessions id s₃ ≡ some (tui_moved "active" (w.clock s.reads) row)
          → row_at tui_sessions id t ≡ some (tui_moved "active" (w.clock s.reads) row)
      moved_on row s₃ same h = rw same h

  -- A stream is accepted only with a token that is stored, not revoked and not expired, that was made for
  -- this session, by the device that the session belongs to, and only while the session has not ended;
  -- the session is then active.
  pub open_stream-Accepted :
      (id text : String) {s t : Store}
      → Returns (open_stream w id (some text)) s true t
      → Accepted w id text s t
  unfolding open_stream
  open_stream-Accepted id text {s = s} h = by_text (text == "") h
    where
      by_text :
          (b : Bool) {t : Store}
          → Returns
              (if b then pure false else (do
                token ← verify_tui_attach_token w text
                on_option token (pure false) (accept_token w id)))
              s
              true
              t
          → Accepted w id text s t
      by_text true h = absurd (not_true (pure-Returns h).0)
        where
          not_true : ¬ (true ≡ false)
          not_true e = cc
      by_text false h = after _ _ h λ found s₁ asked h₁.
          let (token, is_token, h₂) = on_option-true found (accept_token w id) h₁ in
          let (attachable, left) = verify_token-Attachable w text token (rw is_token at asked) in
          let (row, at_s₁, for_session, owner, lives, active) = accepted id token h₂ in
          let sessions = left.sessions in
          record {
            token = token;
            attachable = attachable;
            for_session = for_session;
            row = row;
            found = cc;
            owner = owner;
            lives = lives;
            time = s₁.reads;
            active = active;
          }
