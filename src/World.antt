-- ===== src/World.antt =====
-- What the gateway calls and does not implement: the clock, the random source, hashing, JSON
-- printing, Ed25519, base64 and the readers of numbers and addresses. Every function of the
-- gateway takes them as one argument.
use agentic_control_tower.Prelude.{ℕ, String, Bool, Option, List}
use agentic_control_tower.Json.{Json}

-- The integers that `int` returns.
pub data ℤ : Type 0 where
  pos : ℕ → ℤ
  negsuc : ℕ → ℤ

-- How `LocalPtyManager.create_runtime` ends: the process runs, or an HTTPException, or another
-- exception.
pub data Spawn : Type 0 where
  started : Spawn
  refused : ℕ → String → Spawn
  crashed : Spawn

pub record World : Type 0 where
  -- The k-th reading of the system clock, in microseconds since 1970.
  pub clock : ℕ → ℕ
  -- `value.isoformat()` without its last part, `+00:00`, for the instant of so many microseconds.
  pub isoformat : ℕ → String
  -- The k-th text that `secrets.token_urlsafe` returns.
  pub token_urlsafe : ℕ → String
  -- `text.encode("utf-8")` and `hashlib.sha256(bytes).hexdigest()`.
  pub utf8 : String → List ℕ
  pub sha256 : List ℕ → String
  -- `json.dumps(value, sort_keys=True, separators=(",", ":"), default=str)`
  pub dumps : Json → String
  -- `base64.urlsafe_b64decode(text.encode("ascii"))`, `none` for a ValueError.
  pub b64decode : String → Option (List ℕ)
  -- `Ed25519PublicKey.from_public_bytes` accepts the key, and `verify` accepts the signature.
  pub is_public_key : List ℕ → Bool
  pub verify : List ℕ → List ℕ → List ℕ → Bool
  -- `int(text)`, `none` for a ValueError.
  pub int : String → Option ℤ
  -- `format(n, "012d")`
  pub pad12 : ℕ → String
  -- `text.upper()` and `text.lower()`
  pub upper : String → String
  pub lower : String → String
  -- `ipaddress.ip_address(host).is_loopback`, `none` for a ValueError.
  pub is_loopback : String → Option Bool
  -- `str(Path(text).expanduser().resolve())`
  pub resolve : String → String
  -- `path.relative_to(root)` does not raise a ValueError.
  pub relative_to : String → String → Bool
  -- `path.exists() and path.is_dir()`
  pub is_dir : String → Bool
  -- `create_runtime` for a session, a command and a directory.
  pub spawn : String → String → String → Spawn
  -- Whether the process of a session runs when the clock has been read k times.
  pub is_running : ℕ → String → Bool
