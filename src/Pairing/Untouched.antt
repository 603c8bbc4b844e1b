-- ===== src/Pairing/Untouched.antt =====
-- What leaves the pairing sessions as they are: registering a device and issuing tokens.
use agentic_control_tower.Prelude.{◌≡◌, refl, ◌∙◌, String, Option, List}
use agentic_control_tower.World.{World, ℤ}
use agentic_control_tower.Exec.{Exec}
use agentic_control_tower.Exec.Along.{Preorder, Along, along_rules}
use agentic_control_tower.Exec.Returns.{}
use agentic_control_tower.Store.Rows.{DeviceRow, TokenRow, TokenType}
use agentic_control_tower.Store.State.{Store}
use agentic_control_tower.Store.Security.{now_utc, new_id, new_token, expires_in}
use agentic_control_tower.Store.Sql.{insert}
use agentic_control_tower.Store.Sql.Laws.{Along-insert, Along-exists, Along-fetch}
use agentic_control_tower.Store.Pairing.{}
use agentic_control_tower.Store.Devices.{devices, create_device, get_device}
use agentic_control_tower.Store.Tokens.{auth_tokens, create_auth_token}
use agentic_control_tower.Store.Logged.{Logged, now_utc-Logged, new_token-Logged, new_id-Logged}
use agentic_control_tower.Pairing.{issue_tokens}

-- The pairing sessions are the same.
abbrev pub SamePairings : Store → Store → Type 0
SamePairings s t = t.pairing_sessions ≡ s.pairing_sessions

SamePairings-preorder : Preorder SamePairings
SamePairings-preorder = record { same = λ s. refl; join = λ s t u f g. g ∙ f }

module _ (w : World) where
  pub of_log : {A : Type 0} {m : Exec Store A} → Along Logged m → Along SamePairings m
  of_log along = record { at = λ s. (along.at s).pairing_sessions }

  now_utc-SamePairings : Along SamePairings (now_utc w)
  now_utc-SamePairings = of_log (now_utc-Logged w)

  new_token-SamePairings : Along SamePairings (new_token w)
  new_token-SamePairings = of_log (new_token-Logged w)

  new_id-SamePairings : (prefix : String) → Along SamePairings (new_id w prefix)
  new_id-SamePairings prefix = of_log (new_id-Logged w prefix)

  device-SamePairings : (d : DeviceRow) → Along SamePairings (insert devices d)
  device-SamePairings d = Along-insert SamePairings-preorder devices d λ s fresh. refl

  token-SamePairings : (t : TokenRow) → Along SamePairings (insert auth_tokens t)
  token-SamePairings t = Along-insert SamePairings-preorder auth_tokens t λ s fresh. refl

  ruleset pairing_rules = (
    along_rules, SamePairings-preorder, now_utc-SamePairings, new_token-SamePairings,
    new_id-SamePairings, device-SamePairings, token-SamePairings, Along-fetch, Along-exists,
  )

  pub create_device-SamePairings :
      (node_id name platform app : String) (version : Option String) (key : String)
      (permissions : List String)
      → Along SamePairings (create_device w node_id name platform app version key permissions)
  unfolding create_device get_device
  create_device-SamePairings node_id name platform app version key permissions =
      search pairing_rules depth 12

  create_auth_token-SamePairings :
      (token : String) (token_type : TokenType) (device_id : String) (ttl : ℤ)
      → Along SamePairings (create_auth_token w token token_type device_id ttl)
  unfolding create_auth_token expires_in
  create_auth_token-SamePairings token token_type device_id ttl = search pairing_rules depth 12

  pub issue_tokens-SamePairings :
      (device_id : String) → Along SamePairings (issue_tokens w device_id)
  unfolding issue_tokens
  issue_tokens-SamePairings device_id =
      search (pairing_rules, create_auth_token-SamePairings) depth 12
