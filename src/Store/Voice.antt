-- ===== src/Store/Voice.antt =====
-- Voice sessions and messages of store.py.
use agentic_control_tower.Prelude.{
  ℕ, String, Option, none, some, List, ◌==◌, coalesce, if◌then◌else◌,
}
use agentic_control_tower.World.{World}
use agentic_control_tower.Exec.{pure, ◌>>=◌, ◌>>◌}
use agentic_control_tower.Store.SessionRows.{VoiceSessionRow, VoiceMessageRow}
use agentic_control_tower.Store.State.{Action}
use agentic_control_tower.Store.Security.{iso_lt, now_utc, new_id}
use agentic_control_tower.Store.Sql.{Table, fetch, insert, update_where, list_where}

abbrev pub voice_sessions : Table VoiceSessionRow
voice_sessions = record {
  key = λ v. v.voice_session_id;
  rows = λ s. s.voice_sessions;
  put = λ s rows. record s { voice_sessions = rows };
}

abbrev pub voice_messages : Table VoiceMessageRow
voice_messages = record {
  key = λ m. m.voice_message_id;
  rows = λ s. s.voice_messages;
  put = λ s rows. record s { voice_messages = rows };
}

-- The session with its messages, as `get_voice_session` returns it.
pub record VoiceSession : Type 0 where
  pub row : VoiceSessionRow
  pub messages : List VoiceMessageRow

unfoldable pub list_voice_messages : String → Action (List VoiceMessageRow)
list_voice_messages session_id =
    list_where voice_messages (λ m. m.voice_session_id == session_id)
      (λ a b. iso_lt a.created_at b.created_at)

unfoldable pub get_voice_session : String → Action VoiceSession
get_voice_session session_id = do
  row ← fetch voice_sessions session_id
  messages ← list_voice_messages session_id
  pure (record { row = row; messages = messages })

unfoldable pub get_voice_message : String → Action VoiceMessageRow
get_voice_message message_id = fetch voice_messages message_id

abbrev pub voice_moved : String → Option ℕ → VoiceSessionRow → VoiceSessionRow
voice_moved state closed_at v = record v {
  state = state;
  closed_at = coalesce closed_at v.closed_at;
}

module _ (w : World) where
  -- The session that the caller describes; the identifier and the time are filled in.
  unfoldable pub create_voice_session : VoiceSessionRow → Action VoiceSession
  create_voice_session v = do
    session_id ← new_id w "voice"
    now ← now_utc w
    insert voice_sessions (record v { voice_session_id = session_id; created_at = now })
    get_voice_session session_id

  -- `utc_iso() if state == "closed" else None`
  unfoldable pub closing_time : String → Action (Option ℕ)
  closing_time state =
      if state == "closed" then (do now ← now_utc w; pure (some now)) else pure none

  unfoldable pub update_voice_session_state : String → String → Action VoiceSession
  update_voice_session_state session_id state = do
    closed_at ← closing_time state
    update_where voice_sessions session_id (voice_moved state closed_at)
    get_voice_session session_id

  unfoldable pub create_voice_message : String → String → String → String → Action VoiceMessageRow
  create_voice_message session_id sender_type body input_mode = do
    message_id ← new_id w "voice_msg"
    now ← now_utc w
    insert voice_messages (record {
      voice_message_id = message_id;
      voice_session_id = session_id;
      sender_type = sender_type;
      body = body;
      input_mode = input_mode;
      created_at = now;
    })
    get_voice_message message_id
