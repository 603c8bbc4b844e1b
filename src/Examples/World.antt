-- ===== src/Examples/World.antt =====
-- A world in which everything runs: a clock that ticks once a second, random texts that differ in
-- their length, a hash that keeps the length, and a signature check that compares lengths.
use Prim.Native.Char.{code}
use Prim.Native.String.{◌++◌ as concat, count}
use agentic_control_tower.Prelude.{
  ℕ, zero, suc, ◌+◌, ◌*◌, String, true, false, some, List, [], ◌∷◌, ◌==◌, eqb, length,
}
use agentic_control_tower.World.{World, pos, started}
use agentic_control_tower.Store.State.{Settings}
use agentic_control_tower.Signing.{HttpRequest}

abbrev unary : ℕ → String
unary zero = ""
unary (suc n) = concat "x" (unary n)

abbrev codes : String → List ℕ
codes String.[] = []
codes (String.◌∷◌ c rest) = code c ∷ codes rest

abbrev pub toy : World
toy = record {
  clock = λ k. (1000 + k) * 1000000;
  isoformat = λ n. "2026-01-01T00:00:00";
  token_urlsafe = unary;
  utf8 = codes;
  sha256 = λ bytes. concat "h" (unary (length bytes));
  dumps = λ j. "{}";
  b64decode = λ text. some (codes text);
  is_public_key = λ key. true;
  verify = λ key signature message. eqb (length key) (length signature);
  int = λ text. some (pos (1000 + count text));
  pad12 = unary;
  upper = λ text. text;
  lower = λ text. text;
  is_loopback = λ host. some (host == "127.0.0.1");
  resolve = λ path. path;
  relative_to = λ path root. path == root;
  is_dir = λ path. true;
  spawn = λ session command directory. started;
  is_running = λ k session. true;
}

abbrev pub settings : Settings
settings = record {
  node_id = "node_local";
  node_fingerprint = "fp";
  pairing_ttl_seconds = pos 300;
  allowed_hermes_callers = [];
  tui_enable_local_pty = true;
  tui_allowed_commands = "/bin/sh" ∷ [];
  tui_default_command = "/bin/sh";
  tui_allowed_working_directory = ".";
  tui_max_sessions = 2;
  tui_attach_token_ttl_seconds = pos 60;
  tui_idle_timeout_seconds = pos 900;
  tui_output_retention_enabled = false;
}

-- A request that the device `dev` signed.
abbrev pub signed_by : String → String → HttpRequest
signed_by device nonce = record {
  method = "POST";
  path = "/v1";
  query = "";
  body = [];
  host = "127.0.0.1";
  request_id_header = some "req";
  device_id_header = some device;
  timestamp_header = some "12";
  nonce_header = some nonce;
  signature_header = some "key1";
}
