-- ===== src/Store/Devices.antt =====
-- Devices and the nonces of their requests: `create_device`, `get_device`, `revoke_device` and
-- `record_request_nonce` of store.py.
use agentic_control_tower.Prelude.{
  ℕ, String, Bool, true, false, Option, some, List, [], ◌∷◌, ◌++◌, ◌==◌, ◌&&◌, ◌||◌, not,
  if◌then◌else◌,
}
use agentic_control_tower.World.{World, ℤ}
use agentic_control_tower.Exec.{pure, gets, modify, ◌>>=◌, ◌>>◌}
use agentic_control_tower.Store.Rows.{DeviceRow, NonceRow, TokenRow, active, revoked}
use agentic_control_tower.Store.State.{Action}
use agentic_control_tower.Store.Security.{now_utc, new_id}
use agentic_control_tower.Store.Sql.{Table, fetch, exists, insert, update_where}

abbrev pub devices : Table DeviceRow
devices = record {
  key = λ d. d.device_id;
  rows = λ s. s.devices;
  put = λ s rows. record s { devices = rows };
}

unfoldable pub get_device : String → Action DeviceRow
get_device device_id = fetch devices device_id

-- UPDATE auth_tokens SET revoked_at = ? WHERE device_id = ?
unfoldable pub revoke_tokens : String → ℕ → List TokenRow → List TokenRow
revoke_tokens device_id now [] = []
revoke_tokens device_id now (t ∷ rows) =
    (if t.device_id == device_id then record t { revoked_at = some now } else t)
    ∷ revoke_tokens device_id now rows

-- The primary key of `request_nonces` is the device and the nonce.
unfoldable pub seen_nonce : String → String → List NonceRow → Bool
seen_nonce device_id nonce [] = false
seen_nonce device_id nonce (n ∷ rows) =
    n.device_id == device_id && n.nonce == nonce || seen_nonce device_id nonce rows

module _ (w : World) where
  unfoldable pub create_device :
      String → String → String → String → Option String → String → List String → Action DeviceRow
  create_device node_id device_name platform app_instance_id app_version device_public_key
        permissions =
      do
        device_id ← new_id w "dev"
        registered_at ← now_utc w
        insert devices (record {
          device_id = device_id;
          user_id = "owner";
          node_id = node_id;
          device_name = device_name;
          platform = platform;
          app_instance_id = app_instance_id;
          app_version = app_version;
          device_public_key = device_public_key;
          status = active;
          permissions = permissions;
          registered_at = registered_at;
          last_seen_at = registered_at;
        })
        get_device device_id

  -- `rowcount > 0` says that a device has the key.
  unfoldable pub revoke_device : String → Action Bool
  unfolding revoke_tokens
  revoke_device device_id = do
    found ← exists devices device_id
    update_where devices device_id (λ d. record d { status = revoked })
    now ← now_utc w
    modify (λ s. record s { auth_tokens = revoke_tokens device_id now s.auth_tokens })
    pure found

  -- `false` is the IntegrityError: the nonce is taken, or no device has the key.
  unfoldable pub record_request_nonce : String → String → ℤ → Action Bool
  unfolding seen_nonce
  record_request_nonce device_id nonce timestamp = do
    created_at ← now_utc w
    known ← exists devices device_id
    seen ← gets (λ s. seen_nonce device_id nonce s.request_nonces)
    if known && not seen
        then (do
          modify λ s. record s {
            request_nonces =
                s.request_nonces
                ++ record {
                  device_id = device_id;
                  nonce = nonce;
                  timestamp = timestamp;
                  created_at = created_at;
                }
                  ∷ [];
          }
          pure true)
        else pure false
