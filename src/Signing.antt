-- ===== src/Signing.antt =====
-- signing.py: device signatures over canonical requests, with a time window and nonces.
pub mod Laws
pub mod Logged
use Prim.Native.String.{◌++◌ as concat, count}
use agentic_control_tower.Prelude.{
  ℕ, suc, ◌+◌, ◌-◌, ◌/◌, ◌%◌, String, Bool, true, false, Option, none, some, List, [], ◌∷◌, ◌==◌,
  ◌&&◌, leb, eqb, truthy, or_else, if◌then◌else◌,
}
use agentic_control_tower.World.{World, ℤ, pos, negsuc}
use agentic_control_tower.Json.{Json, dict, str, opt, null}
use agentic_control_tower.Exec.{pure, raise, http, gets, guard_or, on_option, ◌>>=◌, ◌>>◌}
use agentic_control_tower.Store.Rows.{DeviceRow, is_active}
use agentic_control_tower.Store.State.{Action, Settings}
use agentic_control_tower.Store.Security.{now_utc, new_id, content_hash, microseconds}
use agentic_control_tower.Store.Audit.{append_audit_event, no_refs}
use agentic_control_tower.Store.Devices.{devices, record_request_nonce}
use agentic_control_tower.Store.Sql.{row_at}
use agentic_control_tower.Capabilities.{VerifiedDevice}

-- The parts of a FastAPI request that are read, with the headers by name.
pub record HttpRequest : Type 0 where
  pub method : String
  pub path : String
  pub query : String
  pub body : List ℕ
  pub host : String
  pub request_id_header : Option String
  pub device_id_header : Option String
  pub timestamp_header : Option String
  pub nonce_header : Option String
  pub signature_header : Option String

abbrev pub timestamp_tolerance_seconds : ℕ
timestamp_tolerance_seconds = 300

unfoldable pub path_with_query : HttpRequest → String
path_with_query r = if r.query == "" then r.path else concat r.path (concat "?" r.query)

abbrev pub line : String → String → String
line first rest = concat first (concat "\n" rest)

-- |a - b|
abbrev pub distance : ℕ → ℤ → ℕ
distance a (pos b) = if leb a b then b - a else a - b
distance a (negsuc b) = a + suc b

abbrev pub text_of : Option String → String
text_of none = ""
text_of (some s) = s

module _ (w : World) where
  unfoldable pub canonical_request : String → String → String → String → List ℕ → String
  canonical_request method path timestamp nonce body =
      line "HMCP-SIGN-V1"
        (line (w.upper method) (line path (line timestamp (line nonce (w.sha256 body)))))

  -- "=" * (-len(value) % 4)
  abbrev pub padding : ℕ → String
  padding n =
      if eqb (n % 4) 0
      then ""
      else if eqb (n % 4) 1
      then "==="
      else if eqb (n % 4) 2
      then "=="
      else "="

  unfoldable pub b64decode_padded : String → Option (List ℕ)
  b64decode_padded value = w.b64decode (concat value (padding (count value)))

  -- `false` where the key or the signature cannot be read, or does not verify.
  unfoldable pub signature_verifies : String → String → String → Bool
  unfolding b64decode_padded
  signature_verifies public_key signature canonical = elim (b64decode_padded public_key) [
    | none ↦ false
    | some key ↦ w.is_public_key key && elim (b64decode_padded signature) [
      | none ↦ false
      | some sig ↦ w.verify key sig (w.utf8 canonical)
    ]
  ]

  unfoldable pub request_id : HttpRequest → Action String
  request_id r =
      if truthy r.request_id_header then pure (text_of r.request_id_header) else new_id w "req"

  abbrev pub hash_or_null : Option String → Json
  hash_or_null none = null
  hash_or_null (some s) = if s == "" then null else str (content_hash w (str s))

module _ (w : World) (settings : Settings) (r : HttpRequest) where
  unfoldable pub audit_auth_failure : String → String → Action (Unit {0})
  audit_auth_failure id reason = do
    append_audit_event w "auth_signature_failed" "gateway" "gateway" settings.node_id id
        (dict (
          ("reason", str reason)
          ∷ ("device_id", opt r.device_id_header)
          ∷ ("method", str r.method)
          ∷ ("path", str (path_with_query r))
          ∷ ("nonce_hash", hash_or_null w r.nonce_header)
          ∷ []))
        no_refs
    pure tt

  -- Every rejection writes one audit event and raises.
  unfoldable pub reject : {A : Type 0} → String → String → ℕ → String → Action A
  reject id reason code detail = do audit_auth_failure id reason; raise (http code detail)

  unfoldable pub known_device : String → Action DeviceRow
  unfolding reject
  known_device id = do
    row ← gets (row_at devices (text_of r.device_id_header))
    on_option row (reject id "unknown_device" 401 "unknown device") pure

  unfoldable pub parsed_timestamp : String → Action ℤ
  unfolding reject
  parsed_timestamp id =
      on_option (w.int (text_of r.timestamp_header))
        (reject id "invalid_timestamp" 401 "invalid timestamp") pure

  unfoldable pub canonical : String
  canonical =
      canonical_request w r.method (path_with_query r) (text_of r.timestamp_header)
        (text_of r.nonce_header) r.body

  unfoldable pub has_headers : Bool
  has_headers =
      truthy r.device_id_header
      && truthy r.timestamp_header
      && truthy r.nonce_header
      && truthy r.signature_header

  unfoldable pub verify_signed_request : Action VerifiedDevice
  verify_signed_request = do
    id ← request_id w r
    guard_or has_headers (reject id "missing_signature_headers" 401 "missing device signature")
    device ← known_device id
    guard_or (is_active device.status) (reject id "device_not_active" 403 "device is not active")
    timestamp ← parsed_timestamp id
    now ← now_utc w
    guard_or (leb (distance (now / microseconds) timestamp) timestamp_tolerance_seconds)
        (reject id "timestamp_outside_window" 401 "expired request timestamp")
    guard_or (signature_verifies w device.device_public_key (text_of r.signature_header) canonical)
        (reject id "invalid_signature" 401 "invalid device signature")
    fresh ← record_request_nonce w (text_of r.device_id_header) (text_of r.nonce_header) timestamp
    guard_or fresh (reject id "replayed_nonce" 409 "replayed request nonce")
    pure (record {
      device_id = device.device_id;
      node_id = device.node_id;
      permissions = device.permissions;
    })
