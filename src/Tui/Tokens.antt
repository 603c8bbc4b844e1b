-- ===== src/Tui/Tokens.antt =====
-- What the verification of an attach token checks and writes.
use agentic_control_tower.Prelude.{
  ◌≡◌, refl, sym, ap, ◌∙◌, ℕ, suc, String, false, Option, none, some, leb,
}
use agentic_control_tower.World.{World}
use agentic_control_tower.Exec.{ok, pure, gets, on_option, ◌>>=◌, modify}
use agentic_control_tower.Exec.Returns.{
  Returns, after, pure-Returns, gets-Returns, on_option-some, unless-none,
}
use agentic_control_tower.Table.{update}
use agentic_control_tower.Table.Laws.{find?-key}
use agentic_control_tower.Store.SessionRows.{AttachTokenRow}
use agentic_control_tower.Store.State.{Store}
use agentic_control_tower.Store.Security.{now_utc, hash_token}
use agentic_control_tower.Store.Sql.{row_at, update_where}
use agentic_control_tower.Store.Tui.{
  tui_attach_tokens, unrevoked, mark_used, verify_tui_attach_token,
}
use agentic_control_tower.Assistance.Mirror.{changed, row_at-update}

unrevoked-some :
    (w : World) (o : Option AttachTokenRow) (a : AttachTokenRow)
    → unrevoked w o ≡ some a
    → (o ≡ some a) × (a.revoked_at ≡ none)
unrevoked-some w none a h = cc
unrevoked-some w (some b) a h = by_time b.revoked_at refl h
  where
    by_time :
        (time : Option ℕ)
        → b.revoked_at ≡ time
        → (elim time [ none ↦ some b | some _ ↦ none ]) ≡ some a
        → (◌≡◌ {A = Option AttachTokenRow} (some b) (some a)) × (a.revoked_at ≡ none)
    by_time none e h = let same : b ≡ a = cc in (h, rw same at e)
    by_time (some n) e h = cc

-- An attach token of the state: it is stored, not revoked and not expired when it is verified.
pub record Attachable (w : World) (text : String) (s : Store) (a : AttachTokenRow) : Type 0 where
  pub stored : row_at tui_attach_tokens (hash_token w text) s ≡ some a
  pub unrevoked : a.revoked_at ≡ none
  pub unexpired : leb a.expires_at (w.clock s.reads) ≡ false

-- What the verification wrote: the time of use, into the token's row.
abbrev pub used_at_time : ℕ → AttachTokenRow → AttachTokenRow
used_at_time time c = record c { used_at = some time }

pub record Marked (w : World) (a : AttachTokenRow) (s t : Store) : Type 0 where
  pub sessions : t.tui_sessions ≡ s.tui_sessions
  pub tokens :
      t.tui_attach_tokens
      ≡ update tui_attach_tokens.key a.token_hash
          (used_at_time (w.clock (suc s.reads)))
          s.tui_attach_tokens

module _ (w : World) where
  mark_used-Returns :
      (a b : AttachTokenRow) {s t : Store}
      → Returns (mark_used w a) s (some b) t
      → (a ≡ b) × (leb a.expires_at (w.clock s.reads) ≡ false) × Marked w a s t
  unfolding mark_used now_utc update_where modify
  mark_used-Returns a b {s = s} {t = t} h = after _ _ h λ now s₁ clock h₁.
      let run = clock.run in
      let now_is : now ≡ w.clock s.reads = cc in
      let s₁_is : s₁ ≡ record s { reads = suc s.reads } = cc in
      let (unexpired, h₂) = unless-none (leb a.expires_at now) _ h₁ in
      after _ _ h₂ λ used s₂ clock₂ h₃. after _ _ h₃ λ _ s₃ written h₄.
        let run₂ = clock₂.run in
        let run₃ = written.run in
        let (b_is, t_is) = pure-Returns h₄ in
        let used_is : used ≡ w.clock s₁.reads = cc in
        let s₂_is : s₂ ≡ record s₁ { reads = suc s₁.reads } = cc in
        let left : t ≡ record s₂ {
          tui_attach_tokens =
              update tui_attach_tokens.key a.token_hash (used_at_time used) s₂.tui_attach_tokens;
        } =
          cc in
        (
          cc,
          rw now_is at unexpired,
          record {
            sessions = rw (left, s₂_is, s₁_is) refl;
            tokens = rw (left, s₂_is, used_is, s₁_is) refl;
          },
        )

  pub verify_token-Attachable :
      (text : String) (a : AttachTokenRow) {s t : Store}
      → Returns (verify_tui_attach_token w text) s (some a) t
      → Attachable w text s a × Marked w a s t
  unfolding verify_tui_attach_token
  verify_token-Attachable text a {s = s} h = after _ _ h λ found s₁ read h₁.
      let (found_is, same) = gets-Returns _ read in
      let (b, is_b, h₂) = on_option-some found (mark_used w) h₁ in
      let (b_is, unexpired, left) = mark_used-Returns b a h₂ in
      let live : unrevoked w (row_at tui_attach_tokens (hash_token w text) s) ≡ some a =
        ◌∙◌ {b = some b} (◌∙◌ {b = found} (sym found_is) is_b) (ap some b_is) in
      let (stored, open_token) = unrevoked-some w _ a live in
      (
        record {
          stored = stored;
          unrevoked = open_token;
          unexpired = rw (b_is, same) at unexpired;
        },
        rw (b_is, same) at left,
      )

  -- Verifying an attach token does not use it up: until it expires, the same text is verified again.
  pub attach_token_stays_valid :
      (text : String) (a : AttachTokenRow) {s t : Store}
      → Returns (verify_tui_attach_token w text) s (some a) t
      → leb a.expires_at (w.clock t.reads) ≡ false
      → (b : AttachTokenRow) × ((verify_tui_attach_token w text t).0 ≡ ok (some b))
        × (b.session_id ≡ a.session_id)
        × (b.device_id ≡ a.device_id)
        × (b.expires_at ≡ a.expires_at)
  unfolding verify_tui_attach_token mark_used on_option gets ◌>>=◌ now_utc update_where modify pure
  attach_token_stays_valid text a {s = s} {t = t} h early =
      let (attachable, left) = verify_token-Attachable text a h in
      let used = used_at_time (w.clock (suc s.reads)) a in
      let key_is =
        find?-key tui_attach_tokens.key (hash_token w text) s.tui_attach_tokens a
          attachable.stored in
      let tokens : t.tui_attach_tokens
          ≡ update tui_attach_tokens.key (hash_token w text) (used_at_time (w.clock (suc s.reads)))
              s.tui_attach_tokens =
        rw key_is at left.tokens in
      let there : row_at tui_attach_tokens (hash_token w text) t ≡ some used =
        row_at-update tui_attach_tokens _ (λ c. refl) (hash_token w text) s t tokens
        ∙ ap (changed _) attachable.stored in
      (used, rw (there, attachable.unrevoked, early) refl, refl, refl, refl)
