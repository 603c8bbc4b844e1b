-- ===== src/Store/Tokens.antt =====
-- Access and refresh tokens: `create_auth_token`, `verify_access_token`, `verify_refresh_token` and
-- `_get_token` of store.py. Only hashes are stored.
pub mod Valid
use agentic_control_tower.Prelude.{
  ℕ, String, Bool, true, false, Option, none, some, leb, ◌&&◌, if◌then◌else◌, not,
}
use agentic_control_tower.World.{World, ℤ}
use agentic_control_tower.Exec.{pure, gets, require, on_option, integrity_error, ◌>>=◌, ◌>>◌}
use agentic_control_tower.Store.Rows.{TokenRow, TokenType, access, refresh, DeviceRow, is_active}
use agentic_control_tower.Store.State.{Action}
use agentic_control_tower.Store.Security.{now_utc, expires_in, hash_token}
use agentic_control_tower.Store.Sql.{Table, row_at, exists, insert}
use agentic_control_tower.Store.Devices.{devices, get_device}

abbrev pub auth_tokens : Table TokenRow
auth_tokens = record {
  key = λ t. t.token_hash;
  rows = λ s. s.auth_tokens;
  put = λ s rows. record s { auth_tokens = rows };
}

abbrev pub is_access : TokenType → Bool
is_access access = true
is_access refresh = false

abbrev pub not_revoked : Option ℕ → Bool
not_revoked none = true
not_revoked (some _) = false

-- The device of the row that joins an unrevoked access token with its active device.
abbrev pub joined : Option TokenRow → (String → Option DeviceRow) → Option DeviceRow
joined none device_at = none
joined (some t) device_at =
    if is_access t.token_type && not_revoked t.revoked_at
    then elim (device_at t.device_id) [
      | none ↦ none
      | some d ↦ if is_active d.status then some d else none
    ]
    else none

module _ (w : World) where
  unfoldable pub create_auth_token : String → TokenType → String → ℤ → Action (Unit {0})
  unfolding hash_token
  create_auth_token token token_type device_id ttl_seconds = do
    expires_at ← expires_in w ttl_seconds
    created_at ← now_utc w
    known ← exists devices device_id
    require known integrity_error
    insert auth_tokens (record {
      token_hash = hash_token w token;
      token_type = token_type;
      device_id = device_id;
      expires_at = expires_at;
      revoked_at = none;
      created_at = created_at;
    })

  unfoldable pub get_token : String → Action (Option TokenRow)
  unfolding hash_token
  get_token token = gets (row_at auth_tokens (hash_token w token))

  unfoldable pub unexpired : Option TokenRow → Action Bool
  unexpired none = pure false
  unexpired (some t) = do now ← now_utc w; pure (not (leb t.expires_at now))

  unfoldable pub verify_access_token : String → Action (Option DeviceRow)
  unfolding hash_token get_token unexpired
  verify_access_token token = do
    device ←
        gets λ s. joined (row_at auth_tokens (hash_token w token) s) (λ id. row_at devices id s)
    on_option device (pure none) λ d. do
      token_row ← get_token token
      valid ← unexpired token_row
      pure (if valid then some d else none)

  unfoldable pub active_device : String → Action (Option DeviceRow)
  active_device device_id = do
    device ← get_device device_id
    pure (if is_active device.status then some device else none)

  -- `token_row["revoked_at"] or …`: the clock is read only for an unrevoked token.
  unfoldable pub refresh_device : TokenRow → Action (Option DeviceRow)
  unfolding unexpired active_device
  refresh_device t =
      if is_access t.token_type
      then pure none
      else if not (not_revoked t.revoked_at)
      then pure none
      else do valid ← unexpired (some t); if valid then active_device t.device_id else pure none

  unfoldable pub verify_refresh_token : String → Action (Option DeviceRow)
  unfolding get_token refresh_device
  verify_refresh_token token = do
    token_row ← get_token token
    on_option token_row (pure none) refresh_device
