-- ===== src/Store/Security.antt =====
-- security.py and ids.py: the clock, random tokens and identifiers, and hashes.
use Prim.Native.String.{◌++◌ as concat}
use text.Mathlib.Text.{find?}
use agentic_control_tower.Prelude.{
  ℕ, suc, ◌+◌, ◌-◌, ◌*◌, ◌/◌, ◌%◌, String, Bool, true, false, none, some, List, [], ◌∷◌, ◌==◌, ◌||◌,
  ltb, if◌then◌else◌,
}
use agentic_control_tower.World.{World, ℤ, pos, negsuc}
use agentic_control_tower.Json.{Json}
use agentic_control_tower.Exec.{ok, pure, ◌>>=◌}
use agentic_control_tower.Store.State.{Action}

abbrev pub microseconds : ℕ
microseconds = 1000000

-- The order of two ISO texts that `utc_iso` prints. `isoformat` leaves out a fraction of zero, and
-- the `Z` that then follows the seconds comes after the point of a fraction.
unfoldable pub iso_lt : ℕ → ℕ → Bool
iso_lt a b =
    if ltb (a / microseconds) (b / microseconds)
    then true
    else if ltb (b / microseconds) (a / microseconds)
    then false
    else if ltb 0 (a % microseconds)
    then (if ltb 0 (b % microseconds) then ltb (a % microseconds) (b % microseconds) else true)
    else false

abbrev pub markers : List String
markers =
    "password=" ∷ "password:" ∷ "api_key" ∷ "apikey" ∷ "secret=" ∷ "secret:" ∷ "token=" ∷ "token:"
    ∷ "begin private key" ∷ "ssh-rsa " ∷ "sk-" ∷ "ghp_" ∷ "xoxb-" ∷ []

-- `marker in text`
unfoldable pub has_part : String → String → Bool
has_part text marker = elim (find? text marker) [ none ↦ false | some _ ↦ true ]

unfoldable pub any_part : String → List String → Bool
unfolding has_part
any_part text [] = false
any_part text (m ∷ ms) = has_part text m || any_part text ms

unfoldable pub join : List String → String
join [] = ""
join (part ∷ []) = part
join (part ∷ next ∷ rest) = concat part (concat " " (join (next ∷ rest)))

module _ (w : World) where
  unfoldable pub now_utc : Action ℕ
  now_utc s = (ok (w.clock s.reads), record s { reads = suc s.reads })

  -- `value.isoformat().replace("+00:00", "Z")`, for an instant in UTC
  abbrev pub utc_iso : ℕ → String
  utc_iso value = concat (w.isoformat value) "Z"

  -- `secrets.token_urlsafe`
  unfoldable pub new_token : Action String
  new_token s = (ok (w.token_urlsafe s.draws), record s { draws = suc s.draws })

  unfoldable pub new_id : String → Action String
  unfolding new_token
  new_id prefix = do token ← new_token; pure (concat prefix (concat "_" token))

  -- An instant before 1970 is not represented.
  abbrev pub add_seconds : ℕ → ℤ → ℕ
  add_seconds now (pos n) = now + n * microseconds
  add_seconds now (negsuc n) = now - suc n * microseconds

  unfoldable pub expires_in : ℤ → Action ℕ
  unfolding now_utc
  expires_in seconds = do now ← now_utc; pure (add_seconds now seconds)

  unfoldable pub hash_token : String → String
  hash_token token = w.sha256 (w.utf8 token)

  unfoldable pub compare_token : String → String → Bool
  unfolding hash_token
  compare_token token expected_hash = hash_token token == expected_hash

  unfoldable pub content_hash : Json → String
  content_hash value = w.sha256 (w.utf8 (w.dumps value))

  unfoldable pub has_secret_text : List String → Bool
  unfolding any_part join
  has_secret_text parts = any_part (w.lower (join parts)) markers
