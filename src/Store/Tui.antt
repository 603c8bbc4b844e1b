-- ===== src/Store/Tui.antt =====
-- Terminal sessions and their attach tokens in store.py.
use agentic_control_tower.Prelude.{
  ℕ, suc, String, Bool, Option, none, some, List, [], ◌∷◌, ◌++◌, ◌&&◌, leb, coalesce, contains,
  if◌then◌else◌,
}
use agentic_control_tower.World.{World, ℤ}
use agentic_control_tower.Exec.{pure, gets, on_option, ◌>>=◌, ◌>>◌}
use agentic_control_tower.Store.SessionRows.{TuiSessionRow, AttachTokenRow}
use agentic_control_tower.Store.State.{Action}
use agentic_control_tower.Store.Security.{iso_lt, now_utc, expires_in, hash_token}
use agentic_control_tower.Store.Sql.{Table, row_at, fetch, insert, update_where, list_where}
use agentic_control_tower.Store.Operators.{text_matches}
use agentic_control_tower.Store.Assistance.{stamp}

abbrev pub tui_sessions : Table TuiSessionRow
tui_sessions = record {
  key = λ q. q.session_id;
  rows = λ s. s.tui_sessions;
  put = λ s rows. record s { tui_sessions = rows };
}

abbrev pub tui_attach_tokens : Table AttachTokenRow
tui_attach_tokens = record {
  key = λ a. a.token_hash;
  rows = λ s. s.tui_attach_tokens;
  put = λ s rows. record s { tui_attach_tokens = rows };
}

abbrev pub is_ended : String → Bool
is_ended state = contains state ("closed" ∷ "failed" ∷ [])

abbrev pub is_open : String → Bool
is_open state = contains state ("requested" ∷ "active" ∷ "detached" ∷ [])

unfoldable pub get_tui_session : String → Action TuiSessionRow
get_tui_session session_id = fetch tui_sessions session_id

unfoldable pub list_tui_sessions : Option String → Option String → Action (List TuiSessionRow)
list_tui_sessions user_device_id state =
    list_where tui_sessions
      (λ q. text_matches user_device_id q.user_device_id && text_matches state q.state)
      (λ a b. iso_lt b.last_activity_at a.last_activity_at)

-- SELECT COUNT(*) … WHERE state IN ('requested', 'active', 'detached')
unfoldable pub open_sessions : List TuiSessionRow → ℕ
open_sessions [] = 0
open_sessions (q ∷ rows) =
    let rest = open_sessions rows in if is_open q.state then suc rest else rest

unfoldable pub count_open_tui_sessions : Action ℕ
unfolding open_sessions
count_open_tui_sessions = gets (λ s. open_sessions s.tui_sessions)

-- What the UPDATE of `update_tui_session_state` writes into the row.
abbrev pub tui_moved : String → ℕ → TuiSessionRow → TuiSessionRow
tui_moved state now q = record q {
  state = state;
  last_activity_at = now;
  closed_at = coalesce (stamp (is_ended state) now) q.closed_at;
}

-- What `create_tui_attach_token` returns.
pub record AttachToken : Type 0 where
  pub attach_token : String
  pub expires_at : ℕ

module _ (w : World) where
  -- The session that the caller describes; the times are filled in.
  unfoldable pub create_tui_session : TuiSessionRow → Action TuiSessionRow
  create_tui_session q = do
    now ← now_utc w
    insert tui_sessions (record q { created_at = now; last_activity_at = now })
    get_tui_session q.session_id

  unfoldable pub update_tui_session_state : String → String → Action TuiSessionRow
  update_tui_session_state session_id state = do
    now ← now_utc w
    update_where tui_sessions session_id (tui_moved state now)
    get_tui_session session_id

  unfoldable pub touch_tui_session : String → Action TuiSessionRow
  touch_tui_session session_id = do
    now ← now_utc w
    update_where tui_sessions session_id (λ q. record q { last_activity_at = now })
    get_tui_session session_id

  unfoldable pub create_tui_attach_token : String → String → String → ℤ → Action AttachToken
  create_tui_attach_token token session_id device_id ttl_seconds = do
    expires_at ← expires_in w ttl_seconds
    created_at ← now_utc w
    insert tui_attach_tokens (record {
      token_hash = hash_token w token;
      session_id = session_id;
      device_id = device_id;
      expires_at = expires_at;
      created_at = created_at;
      used_at = none;
      revoked_at = none;
    })
    pure (record { attach_token = token; expires_at = expires_at })

  -- `SELECT … WHERE token_hash = ? AND revoked_at IS NULL`
  abbrev pub unrevoked : Option AttachTokenRow → Option AttachTokenRow
  unrevoked none = none
  unrevoked (some a) = elim a.revoked_at [ none ↦ some a | some _ ↦ none ]

  unfoldable pub mark_used : AttachTokenRow → Action (Option AttachTokenRow)
  mark_used a = do
    now ← now_utc w
    if leb a.expires_at now then pure none else (do
      used_at ← now_utc w
      update_where tui_attach_tokens a.token_hash (λ b. record b { used_at = some used_at })
      pure (some a))

  unfoldable pub verify_tui_attach_token : String → Action (Option AttachTokenRow)
  verify_tui_attach_token token = do
    found ← gets (λ s. unrevoked (row_at tui_attach_tokens (hash_token w token) s))
    on_option found (pure none) mark_used

unfoldable pub add_tui_audit_ref : String → String → Action TuiSessionRow
add_tui_audit_ref session_id audit_event_id = do
  q ← get_tui_session session_id
  update_where tui_sessions session_id
      (λ p. record p { audit_refs = q.audit_refs ++ audit_event_id ∷ [] })
  get_tui_session session_id
