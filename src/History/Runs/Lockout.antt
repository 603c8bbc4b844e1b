-- ===== src/History/Runs/Lockout.antt =====
-- Replayed requests and revoked devices, after any run of calls.
use agentic_control_tower.Prelude.{◌≡◌, refl, String, false, some, List}
use agentic_control_tower.World.{World}
use agentic_control_tower.Exec.Returns.{Returns, moved}
use agentic_control_tower.Table.{Unique}
use agentic_control_tower.Table.Laws.{find?-key}
use agentic_control_tower.Store.Rows.{DeviceRow, is_active, revoked}
use agentic_control_tower.Store.State.{Store, Settings}
use agentic_control_tower.Store.Approvals.{approvals}
use agentic_control_tower.Store.Devices.{devices}
use agentic_control_tower.Store.Tokens.{verify_access_token, verify_refresh_token}
use agentic_control_tower.Store.Tokens.Valid.{verify_access_token-Valid, verify_refresh_token-Valid}
use agentic_control_tower.Store.Sql.{row_at}
use agentic_control_tower.Capabilities.{VerifiedDevice}
use agentic_control_tower.Signing.{HttpRequest, verify_signed_request, text_of}
use agentic_control_tower.Signing.Laws.{verified}
use agentic_control_tower.Calls.{Call, serve}
use agentic_control_tower.History.{History, IsRevoked}
use agentic_control_tower.History.Callers.{verify_signed_request-History}
use agentic_control_tower.History.Runs.{serve-Sound}

revoked-not_active : (d : DeviceRow) → d.status ≡ revoked → is_active d.status ≡ false
revoked-not_active d h = rw h refl

module _ (w : World) (settings : Settings) (calls : List (HttpRequest × Call)) (s : Store)
    (unique : Unique approvals.key s.approval_requests) where
  -- From a state in which the keys of the approvals are unique: once a request was verified, no
  -- request with the same device and nonce is verified after any run of calls, whatever its signature.
  pub verified_once :
      (r again : HttpRequest) {t u : Store} {dev dev' : VerifiedDevice}
      → Returns (verify_signed_request w settings r) s dev t
      → text_of again.device_id_header ≡ text_of r.device_id_header
      → text_of again.nonce_header ≡ text_of r.nonce_header
      → ¬ Returns (verify_signed_request w settings again) (serve w settings calls t) dev' u
  verified_once r again {t = t} first same_device same_nonce second =
      let history : History w s t = moved (verify_signed_request-History w settings r) first in
      let run = (serve-Sound w settings calls t).history (history.unique unique) in
      let used = (verified w settings r first).used in
      let still = run.nonces (text_of r.device_id_header) (text_of r.nonce_header) used in
      let unused = (verified w settings again second).unused in cc

  gone :
      (device : String)
      → IsRevoked (row_at devices device s)
      → IsRevoked (row_at devices device (serve w settings calls s))
  gone device = ((serve-Sound w settings calls s).history unique).revocations device

  inactive :
      (device : String) (t : Store) (d : DeviceRow)
      → IsRevoked (row_at devices device t)
      → row_at devices device t ≡ some d
      → is_active d.status ≡ false
  inactive device t d h found = revoked-not_active d (rw (found) at h)

  -- From a state in which the keys of the approvals are unique and the device is revoked: after any
  -- run of calls no request of the device is verified.
  pub revoked_device_cannot_sign :
      (r : HttpRequest) {u : Store} {dev : VerifiedDevice}
      → IsRevoked (row_at devices (text_of r.device_id_header) s)
      → ¬ Returns (verify_signed_request w settings r) (serve w settings calls s) dev u
  revoked_device_cannot_sign r is_revoked h =
      let v = verified w settings r h in
      let off =
        inactive (text_of r.device_id_header) (serve w settings calls s) v.row (gone _ is_revoked)
          v.known in
      let on = v.active in cc

  -- From a state in which the keys of the approvals are unique and the device is revoked: after any
  -- run of calls no access token is accepted for the device.
  pub revoked_device_has_no_access_token :
      (token : String) {u : Store} {d : DeviceRow}
      → IsRevoked (row_at devices d.device_id s)
      → ¬ Returns (verify_access_token w token) (serve w settings calls s) (some d) u
  revoked_device_has_no_access_token token {d = d} is_revoked h =
      let v = verify_access_token-Valid w token h in
      let id_is = find?-key devices.key v.row.device_id _ d v.known in
      let known : row_at devices d.device_id (serve w settings calls s) ≡ some d =
        (let there = v.known in cc) in
      let off = inactive d.device_id (serve w settings calls s) d (gone _ is_revoked) known in
      let on = v.active in cc

  -- From a state in which the keys of the approvals are unique and the device is revoked: after any
  -- run of calls no refresh token is accepted for the device.
  pub revoked_device_has_no_refresh_token :
      (token : String) {u : Store} {d : DeviceRow}
      → IsRevoked (row_at devices d.device_id s)
      → ¬ Returns (verify_refresh_token w token) (serve w settings calls s) (some d) u
  revoked_device_has_no_refresh_token token {d = d} is_revoked h =
      let v = verify_refresh_token-Valid w token h in
      let id_is = find?-key devices.key v.row.device_id _ d v.known in
      let known : row_at devices d.device_id (serve w settings calls s) ≡ some d =
        (let there = v.known in cc) in
      let off = inactive d.device_id (serve w settings calls s) d (gone _ is_revoked) known in
      let on = v.active in cc
