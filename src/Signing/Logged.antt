-- ===== src/Signing/Logged.antt =====
-- What the verification of a request leaves as it is: all tables but the nonces, the audit log and the
-- event feed.
use agentic_control_tower.Prelude.{◌≡◌, refl, ◌∙◌, ◌≤◌, String, ℕ, [], ◌∷◌, ◌++◌, arith}
use agentic_control_tower.World.{World, ℤ}
use agentic_control_tower.Exec.Along.{Preorder, Along, along_rules}
use agentic_control_tower.Exec.{Exec, modify}
use agentic_control_tower.Store.State.{Store, Settings}
use agentic_control_tower.Store.Rows.{NonceRow}
use agentic_control_tower.Store.Security.{now_utc}
use agentic_control_tower.Store.Devices.{record_request_nonce}
use agentic_control_tower.Store.Sql.{exists}
use agentic_control_tower.Store.Logged.{Logged, logged_rules, now_utc-Logged}
use agentic_control_tower.Signing.{
  HttpRequest, request_id, audit_auth_failure, reject, known_device, parsed_timestamp,
  verify_signed_request,
}

-- The sessions, the operator sessions and the grants are the same.
pub record Quiet (s t : Store) : Type 0 where
  pub assistance : t.assistance_sessions ≡ s.assistance_sessions
  pub browser : t.browser_assistance_sessions ≡ s.browser_assistance_sessions
  pub voice : t.voice_sessions ≡ s.voice_sessions
  pub tui : t.tui_sessions ≡ s.tui_sessions
  pub attach_tokens : t.tui_attach_tokens ≡ s.tui_attach_tokens
  pub operators : t.operator_sessions ≡ s.operator_sessions
  pub grants : t.capability_grants ≡ s.capability_grants
  pub reads : s.reads ≤ t.reads

pub Quiet-preorder : Preorder Quiet
Quiet-preorder = record {
  same = λ s. record {
    assistance = refl;
    browser = refl;
    voice = refl;
    tui = refl;
    attach_tokens = refl;
    operators = refl;
    grants = refl;
    reads = omega arith;
  };
  join = λ s t u f g. record {
    assistance = g.assistance ∙ f.assistance;
    browser = g.browser ∙ f.browser;
    voice = g.voice ∙ f.voice;
    tui = g.tui ∙ f.tui;
    attach_tokens = g.attach_tokens ∙ f.attach_tokens;
    operators = g.operators ∙ f.operators;
    grants = g.grants ∙ f.grants;
    reads = (let a = f.reads in let b = g.reads in omega arith);
  };
}

pub Logged-Quiet : (s t : Store) → Logged s t → Quiet s t
Logged-Quiet s t h = record {
  assistance = h.assistance_sessions;
  browser = h.browser_assistance_sessions;
  voice = h.voice_sessions;
  tui = h.tui_sessions;
  attach_tokens = h.tui_attach_tokens;
  operators = h.operator_sessions;
  grants = h.capability_grants;
  reads = h.reads;
}

pub quiet : {A : Type 0} {m : Exec Store A} → Along Logged m → Along Quiet m
quiet {m = m} h = record { at = λ s. Logged-Quiet s (m s).1 (h.at s) }

module _ (w : World) where
  pub request_id-Logged : (r : HttpRequest) → Along Logged (request_id w r)
  unfolding request_id
  request_id-Logged r = search logged_rules

  insert_nonce-Quiet :
      (n : NonceRow)
      → Along Quiet (modify (λ s. record s { request_nonces = s.request_nonces ++ n ∷ [] }))
  unfolding modify
  insert_nonce-Quiet n = record {
    at = λ s. record {
      assistance = refl;
      browser = refl;
      voice = refl;
      tui = refl;
      attach_tokens = refl;
      operators = refl;
      grants = refl;
      reads = omega arith;
    };
  }

  now_utc-Quiet : Along Quiet (now_utc w)
  now_utc-Quiet = quiet (now_utc-Logged w)

  record_request_nonce-Quiet :
      (device nonce : String) (timestamp : ℤ)
      → Along Quiet (record_request_nonce w device nonce timestamp)
  unfolding record_request_nonce exists
  record_request_nonce-Quiet device nonce timestamp =
      search (along_rules, Quiet-preorder, now_utc-Quiet, insert_nonce-Quiet) depth 14

module _ (w : World) (settings : Settings) (r : HttpRequest) where
  request_id-Quiet : Along Quiet (request_id w r)
  request_id-Quiet = quiet (request_id-Logged w r)

  audit_auth_failure-Quiet :
      (id reason : String) → Along Quiet (audit_auth_failure w settings r id reason)
  unfolding audit_auth_failure
  audit_auth_failure-Quiet id reason = quiet (search logged_rules depth 8)

  reject-Quiet :
      {A : Type 0} (id reason : String) (code : ℕ) (detail : String)
      → Along {A = A} Quiet (reject w settings r id reason code detail)
  unfolding reject
  reject-Quiet id reason code detail =
      search (along_rules, Quiet-preorder, audit_auth_failure-Quiet)

  pub verify_signed_request-Quiet : Along Quiet (verify_signed_request w settings r)
  unfolding verify_signed_request known_device parsed_timestamp
  verify_signed_request-Quiet =
      search
        (
          along_rules, Quiet-preorder, request_id-Quiet, reject-Quiet, now_utc-Quiet,
          record_request_nonce-Quiet,
        )
        depth 24
