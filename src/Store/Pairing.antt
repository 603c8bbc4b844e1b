-- ===== src/Store/Pairing.antt =====
-- Pairing sessions: `create_pairing_session`, `get_pairing_session` and `set_pairing_status` of
-- store.py. The rows are returned whole; which callers see the token's hash is not modelled.
use agentic_control_tower.Prelude.{ℕ, String, Option, none, some, List}
use agentic_control_tower.World.{World, ℤ}
use agentic_control_tower.Exec.{pure, ◌>>=◌, ◌>>◌}
use agentic_control_tower.Store.Rows.{PairingRow, PairingStatus, pending, completed}
use agentic_control_tower.Store.State.{Action}
use agentic_control_tower.Store.Security.{now_utc, new_id, expires_in, hash_token}
use agentic_control_tower.Store.Sql.{Table, fetch, insert, update_where}

abbrev pub pairing_sessions : Table PairingRow
pairing_sessions = record {
  key = λ p. p.pairing_id;
  rows = λ s. s.pairing_sessions;
  put = λ s rows. record s { pairing_sessions = rows };
}

unfoldable pub get_pairing_session : String → Action PairingRow
get_pairing_session pairing_id = fetch pairing_sessions pairing_id

module _ (w : World) where
  -- The caller has the token; the row keeps its hash.
  unfoldable pub create_pairing_session :
      String → String → String → List String → String → String → ℤ → Action PairingRow
  unfolding hash_token
  create_pairing_session node_id fingerprint display_name permissions pairing_token challenge ttl =
      do
        pairing_id ← new_id w "pair"
        expires_at ← expires_in w ttl
        created_at ← now_utc w
        insert pairing_sessions (record {
          pairing_id = pairing_id;
          pairing_token_hash = hash_token w pairing_token;
          challenge = challenge;
          status = pending;
          node_id = node_id;
          node_fingerprint = fingerprint;
          display_name = display_name;
          requested_permissions = permissions;
          expires_at = expires_at;
          created_at = created_at;
          completed_at = none;
        })
        get_pairing_session pairing_id

  abbrev pub completion_time : PairingStatus → Action (Option ℕ)
  completion_time completed = do now ← now_utc w; pure (some now)
  completion_time _ = pure none

  unfoldable pub set_pairing_status : String → PairingStatus → Action (Unit {0})
  set_pairing_status pairing_id status = do
    completed_at ← completion_time status
    update_where pairing_sessions pairing_id
        (λ p. record p { status = status; completed_at = completed_at })
