-- ===== src/LocalBinding.antt =====
-- local_binding.py: which callers may use the endpoints of the local runtime.
use agentic_control_tower.Prelude.{
  String, Bool, true, false, Option, none, some, [], ◌∷◌, ◌==◌, contains, if◌then◌else◌,
}
use agentic_control_tower.World.{World}
use agentic_control_tower.Json.{dict, str, null, Json}
use agentic_control_tower.Exec.{pure, raise, http, ◌>>=◌, ◌>>◌}
use agentic_control_tower.Store.State.{Action, Settings}
use agentic_control_tower.Store.Security.{content_hash}
use agentic_control_tower.Store.Audit.{append_audit_event, no_refs}
use agentic_control_tower.Signing.{HttpRequest, request_id}

module _ (w : World) (settings : Settings) where
  abbrev pub loopback : Option Bool → Bool
  loopback none = false
  loopback (some b) = b

  -- A request with no client has the empty host.
  unfoldable pub is_allowed_hermes_caller : String → Bool
  is_allowed_hermes_caller host =
      if host == ""
      then false
      else if contains host settings.allowed_hermes_callers
      then true
      else if host == "localhost"
      then true
      else loopback (w.is_loopback host)

  abbrev pub caller_hash : String → Json
  caller_hash host = if host == "" then null else str (content_hash w (str host))

  unfoldable pub reject_caller : HttpRequest → String → Action String
  reject_caller r id = do
    append_audit_event w "hermes_local_request_rejected" "gateway" "gateway" settings.node_id id
        (dict (
          ("method", str r.method)
          ∷ ("path", str r.path)
          ∷ ("caller_hash", caller_hash r.host)
          ∷ ("reason", str "caller_not_loopback_or_allowlisted")
          ∷ []))
        no_refs
    raise (http 403 "Hermes-local endpoint requires loopback or configured caller allowlist")

  unfoldable pub verify_hermes_local_request : HttpRequest → Action String
  verify_hermes_local_request r = do
    id ← request_id w r
    if is_allowed_hermes_caller r.host then pure r.host else reject_caller r id
