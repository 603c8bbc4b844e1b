-- ===== src/Store/Tokens/Valid.antt =====
-- What a token that verifies says: its row is of the right type, not revoked and not expired, and its
-- device is active.
use agentic_control_tower.Prelude.{
  ◌≡◌, refl, sym, ◌∙◌, String, Bool, true, false, Option, none, some, leb, not, ◌&&◌, if◌then◌else◌,
}
use agentic_control_tower.World.{World}
use agentic_control_tower.Exec.{pure, ◌>>=◌}
use agentic_control_tower.Exec.Along.{Along}
use agentic_control_tower.Store.Logged.{Logged, logged_rules}
use agentic_control_tower.Exec.Returns.{
  Returns, after, on_option-some, unless-none, when-some, moved, pure-Returns, gets-Returns,
  or_key_error-Returns,
}
use agentic_control_tower.Store.Rows.{TokenRow, DeviceRow, is_active}
use agentic_control_tower.Store.State.{Store}
use agentic_control_tower.Store.Security.{now_utc, hash_token}
use agentic_control_tower.Store.Sql.{row_at, fetch}
use agentic_control_tower.Store.Devices.{devices, get_device}
use agentic_control_tower.Store.Tokens.{
  auth_tokens, is_access, not_revoked, joined, unexpired, get_token, verify_access_token,
  active_device, refresh_device, verify_refresh_token,
}

-- In the state `s` the token is stored with its hash, as an access token or as a refresh token, for
-- the device, which is active.
pub record Valid (w : World) (access : Bool) (token : String) (dev : DeviceRow) (s : Store)
    : Type 0 where
  pub row : TokenRow
  pub stored : row_at auth_tokens (hash_token w token) s ≡ some row
  pub of_type : is_access row.token_type ≡ access
  pub unrevoked : not_revoked row.revoked_at ≡ true
  pub in_time : leb row.expires_at (w.clock s.reads) ≡ false
  pub known : row_at devices row.device_id s ≡ some dev
  pub active : is_active dev.status ≡ true

by_value : (b : Bool) → not b ≡ false → b ≡ true
by_value true h = refl
by_value false h = cc

if_active :
    (b : Bool) (d dev : DeviceRow)
    → ◌≡◌ {A = Option DeviceRow} (if b then some d else none) (some dev)
    → (b ≡ true) × (d ≡ dev)
if_active true d dev h = (refl, cc)
if_active false d dev h = cc

module _ (w : World) where
  joined-active :
      (o : Option TokenRow) (device_at : String → Option DeviceRow) (dev : DeviceRow)
      → joined o device_at ≡ some dev
      → (t : TokenRow) × (o ≡ some t)
        × (is_access t.token_type ≡ true)
        × (not_revoked t.revoked_at ≡ true)
        × (device_at t.device_id ≡ some dev)
        × (is_active dev.status ≡ true)
  joined-active none device_at dev h = cc
  joined-active (some t) device_at dev h =
      by_tests (is_access t.token_type) (not_revoked t.revoked_at) (device_at t.device_id) refl refl
        refl h
    where
      by_tests :
          (of_type live : Bool) (d : Option DeviceRow)
          → is_access t.token_type ≡ of_type
          → not_revoked t.revoked_at ≡ live
          → device_at t.device_id ≡ d
          → (if of_type && live
              then elim d [ none ↦ none | some d ↦ if is_active d.status then some d else none ]
              else none)
            ≡ some dev
          → (t' : TokenRow) × (◌≡◌ {A = Option TokenRow} (some t) (some t'))
            × (is_access t'.token_type ≡ true)
            × (not_revoked t'.revoked_at ≡ true)
            × (device_at t'.device_id ≡ some dev)
            × (is_active dev.status ≡ true)
      by_tests true true (some d) of_type live there h =
          let (is_on, same) = if_active (is_active d.status) d dev h in
          (t, refl, of_type, live, cc, cc)
      by_tests true true none of_type live there h = cc
      by_tests true false d of_type live there h = cc
      by_tests false live d of_type is_live there h = cc

  unexpired-Returns :
      (row : TokenRow) {s t : Store}
      → Returns (unexpired w (some row)) s true t
      → leb row.expires_at (w.clock s.reads) ≡ false
  unfolding unexpired now_utc ◌>>=◌ pure
  unexpired-Returns row {s = s} h =
      let run = h.run in by_test (leb row.expires_at (w.clock s.reads)) refl cc
    where
      by_test :
          (b : Bool)
          → leb row.expires_at (w.clock s.reads) ≡ b
          → not (leb row.expires_at (w.clock s.reads)) ≡ true
          → leb row.expires_at (w.clock s.reads) ≡ false
      by_test true e h = cc
      by_test false e h = e

  get_token-Returns :
      (token : String) {s t : Store} {o : Option TokenRow}
      → Returns (get_token w token) s o t
      → (o ≡ row_at auth_tokens (hash_token w token) s) × (t ≡ s)
  unfolding get_token
  get_token-Returns token h = gets-Returns _ h

  -- An access token is accepted only if it is stored as one, not revoked and not expired, and its
  -- device, the one returned, is active.
  pub verify_access_token-Valid :
      (token : String) {s t : Store} {dev : DeviceRow}
      → Returns (verify_access_token w token) s (some dev) t
      → Valid w true token dev s
  unfolding verify_access_token
  verify_access_token-Valid token {s = s} {dev = dev} h = after _ _ h λ found s₁ read h₁.
      let (found_is, same₁) = gets-Returns _ read in
      let (d, found_d, h₂) = on_option-some _ _ h₁ in
      after _ _ h₂ λ token_row s₂ got h₃. after _ _ h₃ λ valid s₃ timed h₄.
        let (t, stored, of_type, live, known, is_on) =
          joined-active _ _ d (sym found_is ∙ found_d) in
        let (row_is, same₂) = get_token-Returns token got in
        let (result, _) = pure-Returns h₄ in
        let (is_valid, same_device) = if_active valid d dev (sym result) in
        let row_there : token_row ≡ some t = cc in
        let early = unexpired-Returns t (record { run = rw (row_there, is_valid) at timed.run }) in
        record {
          row = t;
          stored = stored;
          of_type = of_type;
          unrevoked = live;
          in_time = cc;
          known = cc;
          active = cc;
        }

  active_device-Returns :
      (device_id : String) {s t : Store} {dev : DeviceRow}
      → Returns (active_device w device_id) s (some dev) t
      → (row_at devices device_id s ≡ some dev) × (is_active dev.status ≡ true)
  unfolding active_device get_device fetch
  active_device-Returns device_id {dev = dev} h = after _ _ h λ d s₁ got h₁.
      after _ _ got λ found s₂ read h₂.
        let (found_is, same₂) = gets-Returns _ read in
        let (row_is, same₁) = or_key_error-Returns _ _ h₂ in
        let (result, _) = pure-Returns h₁ in
        let (is_on, same_device) = if_active (is_active d.status) d dev (sym result) in (cc, cc)

  unexpired-Logged : (row : TokenRow) → Along Logged (unexpired w (some row))
  unfolding unexpired
  unexpired-Logged row = search logged_rules

  refresh_device-Valid :
      (t : TokenRow) {s s' : Store} {dev : DeviceRow}
      → Returns (refresh_device w t) s (some dev) s'
      → (is_access t.token_type ≡ false)
        × (not_revoked t.revoked_at ≡ true)
        × (leb t.expires_at (w.clock s.reads) ≡ false)
        × (row_at devices t.device_id s ≡ some dev)
        × (is_active dev.status ≡ true)
  unfolding refresh_device
  refresh_device-Valid t h =
      let (of_type, h₁) = unless-none _ _ h in
      let (live, h₂) = unless-none _ _ h₁ in
      after _ _ h₂ λ valid s₁ timed h₃.
        let (is_valid, h₄) = when-some _ _ h₃ in
        let (known, is_on) = active_device-Returns t.device_id h₄ in
        let live' : not_revoked t.revoked_at ≡ true = by_value (not_revoked t.revoked_at) live in
        let logged = moved (unexpired-Logged t) timed in
        let same_devices = logged.devices in
        let early = unexpired-Returns t (record { run = rw (is_valid) at timed.run }) in
        (of_type, live', early, cc, is_on)

  -- A refresh token is accepted only if it is stored as one, not revoked and not expired, and its
  -- device, the one returned, is active.
  pub verify_refresh_token-Valid :
      (token : String) {s t : Store} {dev : DeviceRow}
      → Returns (verify_refresh_token w token) s (some dev) t
      → Valid w false token dev s
  unfolding verify_refresh_token
  verify_refresh_token-Valid token h = after _ _ h λ token_row s₁ got h₁.
      let (t, there, h₂) = on_option-some _ _ h₁ in
      let (row_is, same) = get_token-Returns token got in
      let (of_type, live, early, known, is_on) = refresh_device-Valid t h₂ in
      record {
        row = t;
        stored = cc;
        of_type = of_type;
        unrevoked = live;
        in_time = cc;
        known = cc;
        active = is_on;
      }
