-- ===== src/Pairing.antt =====
-- Pairing, tokens and devices: the endpoints `start_pairing`, `get_pairing`, `complete_pairing`,
-- `refresh_token` and `revoke_device` of app.py.
pub mod Untouched
pub mod Laws
use Prim.Native.String.{◌++◌ as concat}
use agentic_control_tower.Prelude.{
  ℕ, String, Bool, true, false, Option, none, some, List, [], ◌∷◌, ◌==◌, ◌&&◌, leb, not,
  if◌then◌else◌,
}
use agentic_control_tower.World.{World, ℤ, pos}
use agentic_control_tower.Json.{Json, dict, str, texts}
use agentic_control_tower.Exec.{
  pure, raise, http, guard_or, on_option, require, on_key_error, ◌>>=◌, ◌>>◌,
}
use agentic_control_tower.Store.Rows.{
  PairingRow, PairingStatus, pending, completed, expired, cancelled, DeviceRow, access, refresh,
  NodeRow,
}
use agentic_control_tower.Store.State.{Action, Settings}
use agentic_control_tower.Store.Security.{now_utc, new_token, expires_in, compare_token}
use agentic_control_tower.Store.Audit.{append_audit_event, no_refs}
use agentic_control_tower.Store.Events.{create_event}
use agentic_control_tower.Store.Agents.{get_node}
use agentic_control_tower.Store.Devices.{create_device, revoke_device}
use agentic_control_tower.Store.Tokens.{create_auth_token, verify_refresh_token}
use agentic_control_tower.Store.Pairing.{
  create_pairing_session, get_pairing_session, set_pairing_status,
}
use agentic_control_tower.Capabilities.{VerifiedDevice}
use agentic_control_tower.Signing.{HttpRequest, request_id, verify_signed_request}

abbrev pub default_permissions : List String
default_permissions = "read_state" ∷ "chat" ∷ "approve" ∷ "intervene" ∷ []

abbrev pub permissions_or_default : List String → List String
permissions_or_default [] = default_permissions
permissions_or_default (p ∷ ps) = p ∷ ps

abbrev pub open_status : PairingStatus → Bool
open_status pending = true
open_status _ = false

abbrev pub status_text : PairingStatus → String
status_text pending = "pending"
status_text completed = "completed"
status_text expired = "expired"
status_text cancelled = "cancelled"

-- CompletePairingRequest, with its DeviceRegistration
pub record PairingPayload : Type 0 where
  pub pairing_id : String
  pub challenge_response : String
  pub device_name : String
  pub platform : String
  pub app_instance_id : String
  pub app_version : Option String
  pub device_public_key : String

pub record TokenSet : Type 0 where
  pub access_token : String
  pub refresh_token : String
  pub expires_at : ℕ

pub record Paired : Type 0 where
  pub device : DeviceRow
  pub tokens : TokenSet

abbrev pub quarter_hour : ℤ
quarter_hour = pos 900

abbrev pub thirty_days : ℤ
thirty_days = pos 2592000

module _ (w : World) where
  unfoldable pub expire_pairing_if_needed : PairingRow → Action PairingRow
  expire_pairing_if_needed p =
      if open_status p.status
      then (do
        now ← now_utc w
        if leb p.expires_at now
            then (do set_pairing_status w p.pairing_id expired; get_pairing_session p.pairing_id)
            else pure p)
      else pure p

  -- Both tokens are drawn before either is stored.
  unfoldable pub issue_tokens : String → Action (String × String)
  issue_tokens device_id = do
    access_token ← new_token w
    refresh_token ← new_token w
    create_auth_token w access_token access device_id quarter_hour
    create_auth_token w refresh_token refresh device_id thirty_days
    pure (access_token, refresh_token)

module _ (w : World) (settings : Settings) (r : HttpRequest) where
  -- `ttl_seconds`, or the setting where the payload has none.
  unfoldable pub start_pairing : String → List String → Option ℤ → Action PairingRow
  start_pairing display_name permissions ttl_seconds = do
    pairing_token ← new_token w
    challenge ← new_token w
    p ←
        create_pairing_session w settings.node_id settings.node_fingerprint display_name permissions
          pairing_token challenge
          (elim ttl_seconds [ none ↦ settings.pairing_ttl_seconds | some ttl ↦ ttl ])
    id ← request_id w r
    append_audit_event w "pairing_started" "gateway" "gateway" settings.node_id id
        (dict (("pairing_id", str p.pairing_id) ∷ [])) no_refs
    pure p

  unfoldable pub get_pairing : String → Action PairingRow
  get_pairing pairing_id = do
    p ← on_key_error (get_pairing_session pairing_id) (http 404 "pairing session not found")
    expire_pairing_if_needed w p

  unfoldable pub reject_pairing : PairingRow → Action (Unit {0})
  reject_pairing p = do
    id ← request_id w r
    append_audit_event w "pairing_rejected" "gateway" "gateway" p.node_id id
        (dict (("pairing_id", str p.pairing_id) ∷ ("reason", str "invalid_token") ∷ [])) no_refs
    raise (http 400 "invalid pairing token")

  -- What follows once the session is pending and the token is right.
  unfoldable pub register_device : PairingRow → PairingPayload → Action Paired
  register_device p payload = do
    let permissions = permissions_or_default p.requested_permissions
    device ←
        create_device w p.node_id payload.device_name payload.platform payload.app_instance_id
          payload.app_version payload.device_public_key permissions
    (access_token, refresh_token) ← issue_tokens w device.device_id
    set_pairing_status w p.pairing_id completed
    id ← request_id w r
    append_audit_event w "device_registered" "device" device.device_id p.node_id id
        (dict (
          ("pairing_id", str p.pairing_id)
          ∷ ("platform", str payload.platform)
          ∷ ("permissions", texts permissions)
          ∷ []))
        no_refs
    create_event w p.node_id "system.health"
        (dict (("status", str "healthy") ∷ ("reason", str "device_registered") ∷ [])) none none
    get_node p.node_id
    expires_at ← expires_in w quarter_hour
    pure (record {
      device = device;
      tokens = record {
        access_token = access_token;
        refresh_token = refresh_token;
        expires_at = expires_at;
      };
    })

  unfoldable pub complete_pairing : PairingPayload → Action Paired
  complete_pairing payload = do
    stored ←
        on_key_error (get_pairing_session payload.pairing_id) (http 400 "invalid pairing token")
    p ← expire_pairing_if_needed w stored
    require (open_status p.status) (http 400 (concat "pairing session is " (status_text p.status)))
    guard_or (compare_token w payload.challenge_response p.pairing_token_hash) (reject_pairing p)
    register_device p payload

  unfoldable pub refresh_tokens : String → Action TokenSet
  refresh_tokens token = do
    signed ← verify_signed_request w settings r
    found ← verify_refresh_token w token
    on_option found (raise (http 401 "invalid refresh token")) λ device. do
      require (device.device_id == signed.device_id) (http 403 "refresh token device mismatch")
      (access_token, refresh_token) ← issue_tokens w device.device_id
      expires_at ← expires_in w quarter_hour
      pure (record {
        access_token = access_token;
        refresh_token = refresh_token;
        expires_at = expires_at;
      })

  unfoldable pub revoke : String → Action (Unit {0})
  revoke device_id = do
    signed ← verify_signed_request w settings r
    found ← revoke_device w device_id
    require found (http 404 "device not found")
    id ← request_id w r
    append_audit_event w "device_revoked" "device" signed.device_id settings.node_id id
        (dict (("device_id", str device_id) ∷ [])) no_refs
    pure tt
