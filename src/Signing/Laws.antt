-- ===== src/Signing/Laws.antt =====
-- What a verified request had: headers, an active device, a fresh timestamp, a signature and a new
-- nonce.
use agentic_control_tower.Prelude.{
  ◌≡◌, refl, String, Bool, true, false, some, List, [], ◌∷◌, ◌++◌, ◌&&◌, not, leb, ◌/◌,
  if◌then◌else◌, eq_refl, arith, ℕ,
}
use agentic_control_tower.World.{World, ℤ}
use agentic_control_tower.Exec.{http, ok, pure, modify, ◌>>=◌, ◌>>◌}
use agentic_control_tower.Exec.Along.{Preorder, Along, along_rules}
use agentic_control_tower.Exec.Returns.{
  Returns, moved, Raises, raise-Raises, bind-Raises, after, guard_or-Returns, on_option-Returns,
  pure-Returns, gets-Returns,
}
use agentic_control_tower.Store.Rows.{DeviceRow, NonceRow, is_active}
use agentic_control_tower.Store.State.{Store, Settings}
use agentic_control_tower.Store.Security.{now_utc, new_id, new_token, microseconds}
use agentic_control_tower.Store.Sql.{row_at, exists}
use agentic_control_tower.Store.Devices.{devices, seen_nonce, record_request_nonce}
use agentic_control_tower.Capabilities.{VerifiedDevice}
use agentic_control_tower.Signing.{
  HttpRequest, verify_signed_request, reject, known_device, parsed_timestamp, request_id,
  has_headers, text_of, distance, timestamp_tolerance_seconds, signature_verifies, canonical,
}

-- The request `r` was verified as coming from `dev`, between the states `s` and `t`.
pub record Verified (w : World) (settings : Settings) (r : HttpRequest) (s : Store)
    (dev : VerifiedDevice) (t : Store) : Type 0 where
  pub row : DeviceRow
  pub timestamp : ℤ
  pub headers : has_headers w settings r ≡ true
  pub known : row_at devices (text_of r.device_id_header) s ≡ some row
  pub active : is_active row.status ≡ true
  pub parsed : w.int (text_of r.timestamp_header) ≡ some timestamp
  pub fresh :
      leb (distance (w.clock s.reads / microseconds) timestamp) timestamp_tolerance_seconds ≡ true
  pub signed :
      signature_verifies w row.device_public_key
        (text_of r.signature_header)
        (canonical w settings r)
      ≡ true
  pub unused :
      seen_nonce (text_of r.device_id_header) (text_of r.nonce_header) s.request_nonces ≡ false
  pub used :
      seen_nonce (text_of r.device_id_header) (text_of r.nonce_header) t.request_nonces ≡ true
  pub result :
      dev
      ≡ record { device_id = row.device_id; node_id = row.node_id; permissions = row.permissions }

-- Between `s` and `t` at most the random source was used.
abbrev Drawn : Store → Store → Type 0
Drawn s t = (t.devices ≡ s.devices) × (t.request_nonces ≡ s.request_nonces) × (t.reads ≡ s.reads)

Drawn-preorder : Preorder Drawn
Drawn-preorder = record {
  same = λ s. (refl, refl, refl);
  join = λ s t u (d, n, c) (d', n', c'). (cc, cc, cc);
}

module _ (w : World) where
  new_id-Drawn : (prefix : String) → Along Drawn (new_id w prefix)
  unfolding new_id new_token ◌>>=◌ pure
  new_id-Drawn prefix = record { at = λ s. (refl, refl, refl) }

  request_id-Drawn : (r : HttpRequest) → Along Drawn (request_id w r)
  unfolding request_id
  request_id-Drawn r = search (along_rules, Drawn-preorder, new_id-Drawn)

  now_utc-Returns :
      {s t : Store} {now : ℕ}
      → Returns (now_utc w) s now t
      → (now ≡ w.clock s.reads) × (t.devices ≡ s.devices) × (t.request_nonces ≡ s.request_nonces)
  unfolding now_utc
  now_utc-Returns h = let run = h.run in (cc, cc, cc)

seen-append :
    (device nonce : String) (rows : List NonceRow) (n : NonceRow)
    → n.device_id ≡ device
    → n.nonce ≡ nonce
    → seen_nonce device nonce (rows ++ n ∷ []) ≡ true
unfolding seen_nonce
seen-append device nonce [] n d e = ground (arith, eq_refl device, eq_refl nonce)
seen-append device nonce (m ∷ rows) n d e = ground (arith, seen-append device nonce rows n d e)

recorded :
    (known seen : Bool) (f : Store → Store) {s t : Store}
    → Returns (if known && not seen then (modify f >> pure true) else pure false) s true t
    → (seen ≡ false) × (t ≡ f s)
unfolding ◌>>=◌ modify pure
recorded true true f h = let run = h.run in cc
recorded true false f h = let run = h.run in (refl, cc)
recorded false seen f h = let run = h.run in cc

exists-same :
    (device : String) {s t : Store} {b : Bool} → Returns (exists devices device) s b t → t ≡ s
unfolding exists
exists-same device h = (gets-Returns _ h).1

module _ (w : World) (device nonce : String) (timestamp : ℤ) where
  record_request_nonce-Returns :
      {s t : Store}
      → Returns (record_request_nonce w device nonce timestamp) s true t
      → (seen_nonce device nonce s.request_nonces ≡ false)
        × (seen_nonce device nonce t.request_nonces ≡ true)
  unfolding record_request_nonce
  record_request_nonce-Returns {s = s} h = after _ _ h λ created_at s₁ clock h₁.
      after _ _ h₁ λ known s₂ exists h₂. after _ _ h₂ λ seen s₃ read h₃.
        let (_, _, nonces) = now_utc-Returns w clock in
        let same₂ = exists-same _ exists in
        let (seen_is, same₃) = gets-Returns _ read in
        let (unseen, stored) = recorded known seen _ h₃ in
        let last : seen_nonce device nonce (
              s₃.request_nonces
              ++ record {
                device_id = device;
                nonce = nonce;
                timestamp = timestamp;
                created_at = created_at;
              }
                ∷ [])
            ≡ true =
          seen-append device nonce s₃.request_nonces _ refl refl in
        (cc, rw (stored) last)

module _ (w : World) (settings : Settings) (r : HttpRequest) where
  reject-Raises :
      {A : Type 0} (id reason : String) (code : ℕ) (detail : String)
      → Raises (reject w settings r {A = A} id reason code detail)
  unfolding reject
  reject-Raises id reason code detail = bind-Raises _ _ λ u. raise-Raises (http code detail)

  known_device-Returns :
      (id : String) {s t : Store} {row : DeviceRow}
      → Returns (known_device w settings r id) s row t
      → (row_at devices (text_of r.device_id_header) s ≡ some row) × (t ≡ s)
  unfolding known_device
  known_device-Returns id h = after _ _ h λ found s₁ read h₁.
      let (found_is, same₁) = gets-Returns _ read in
      let (row', there, h₂) = on_option-Returns _ _ _ (reject-Raises id _ _ _) h₁ in
      let (row_is, same₂) = pure-Returns h₂ in (cc, cc)

  parsed_timestamp-Returns :
      (id : String) {s t : Store} {timestamp : ℤ}
      → Returns (parsed_timestamp w settings r id) s timestamp t
      → (w.int (text_of r.timestamp_header) ≡ some timestamp) × (t ≡ s)
  unfolding parsed_timestamp
  parsed_timestamp-Returns id h =
      let (n, there, h₁) = on_option-Returns _ _ _ (reject-Raises id _ _ _) h in
      let (n_is, same) = pure-Returns h₁ in (cc, cc)

  -- A request that is verified has all four headers, names a device that is stored and active, has a
  -- timestamp within 300 seconds of the clock, a signature over the canonical request that verifies
  -- under the key of the device, and a nonce that was not recorded before and is recorded after; the
  -- result is the stored device.
  pub verified :
      {s t : Store} {dev : VerifiedDevice}
      → Returns (verify_signed_request w settings r) s dev t
      → Verified w settings r s dev t
  unfolding verify_signed_request
  verified {s = s} h = after _ _ h λ id s₁ drawn h₁. after _ _ h₁ λ _ s₂ headers h₂.
      after _ _ h₂ λ row s₃ known h₃. after _ _ h₃ λ _ s₄ active h₄.
        after _ _ h₄ λ timestamp s₅ parsed h₅. after _ _ h₅ λ now s₆ clock h₆.
          after _ _ h₆ λ _ s₇ fresh h₇. after _ _ h₇ λ _ s₈ signed h₈.
            after _ _ h₈ λ new s₉ recorded h₉. after _ _ h₉ λ _ s₁₀ unused h₁₀.
              let no = reject-Raises id in
              let (has, same₂) = guard_or-Returns _ _ (no _ _ _) headers in
              let (there, same₃) = known_device-Returns id known in
              let (is_on, same₄) = guard_or-Returns _ _ (no _ _ _) active in
              let (read, same₅) = parsed_timestamp-Returns id parsed in
              let (now_is, devices₆, nonces₆) = now_utc-Returns w clock in
              let (in_window, same₇) = guard_or-Returns _ _ (no _ _ _) fresh in
              let (verifies, same₈) = guard_or-Returns _ _ (no _ _ _) signed in
              let (is_new, same₁₀) = guard_or-Returns _ _ (no _ _ _) unused in
              let (devices₁, nonces₁, reads₁) = moved (request_id-Drawn w r) drawn in
              let (unseen, seen) =
                record_request_nonce-Returns w _ _ timestamp
                  (record { run = rw (is_new) at recorded.run }) in
              let (dev_is, t_is) = pure-Returns h₁₀ in
              record {
                row = row;
                timestamp = timestamp;
                headers = has;
                known = cc;
                active = is_on;
                parsed = read;
                fresh = cc;
                signed = verifies;
                unused = cc;
                used = cc;
                result = dev_is;
              }

-- A request of a device that has used the nonce before is not verified.
module _ (w : World) (settings : Settings) (r : HttpRequest) (s : Store) where
  pub used_nonce-not_verified :
      seen_nonce (text_of r.device_id_header) (text_of r.nonce_header) s.request_nonces ≡ true
      → (dev : VerifiedDevice) (t : Store) → ¬ (verify_signed_request w settings r s ≡ (ok dev, t))
  used_nonce-not_verified seen dev t run =
      let v = verified w settings r (record { run = run }) in let unused = v.unused in cc
