-- ===== src/History.antt =====
-- What no call of the gateway undoes, as a reflexive and transitive relation between the state
-- before a call and the state after it.
pub mod Primitives
pub mod Stores
pub mod Tables
pub mod Guarded
pub mod Scan
pub mod Callers
pub mod Endpoints
pub mod Pairings
pub mod Notices
pub mod Contexts
pub mod SessionTables
pub mod Sessions
pub mod Assistance
pub mod Terminals
pub mod SessionCalls
pub mod Runs
use agentic_control_tower.Prelude.{
  ◌≡◌, refl, sym, ◌∙◌, ℕ, All, String, Bool, true, false, Option, none, some, List, [], ◌∷◌, ◌++◌,
  last?,
}
use mathlib.Core.Path.{subst}
use mathlib.Core.List.{append-nil, append_assoc}
use agentic_control_tower.World.{World}
use agentic_control_tower.Json.{null}
use agentic_control_tower.Exec.Along.{Preorder}
use agentic_control_tower.Table.{Unique}
use agentic_control_tower.Store.Rows.{
  ApprovalRow, ApprovalState, pending, approved, denied, expired, cancelled, DeviceRow, revoked,
  AuditRow, is_pending, DeviceStatus,
}
use agentic_control_tower.Store.State.{Store}
use agentic_control_tower.Store.Audit.{hash_of, sealed}
use agentic_control_tower.Store.Approvals.{approvals}
use agentic_control_tower.Store.Devices.{devices, seen_nonce}
use agentic_control_tower.Store.Sql.{row_at}
use agentic_control_tower.Store.Lasting.{Lasting, Lasting-same, Lasting-join}

abbrev pub Given : {A : Type 0} → Option A → Type 0
Given none = ⊥
Given (some a) = Unit

-- The columns of an approval that a decision does not write.
abbrev pub request_of : ApprovalRow → ApprovalRow
request_of a = record a {
  state = pending;
  decision_scope = none;
  decision_actor_device_id = none;
  decision_metadata = null;
  decided_at = none;
}

-- Every approval is still there, asks for the same, and is the same row once it is decided.
pub record Evolves (s t : Store) : Type 0 where
  pub at :
      (id : String) (a : ApprovalRow)
      → row_at approvals id s ≡ some a
      → (b : ApprovalRow) × (row_at approvals id t ≡ some b)
        × (request_of b ≡ request_of a)
        × (is_pending a.state ≡ false → b ≡ a)

-- The hash that an event which is appended to `rows` names, where `first` is that for no rows.
abbrev pub head_hash : Option String → List AuditRow → Option String
head_hash first [] = first
head_hash first (e ∷ rows) = head_hash (some e.hash) rows

-- Each event names the hash of the one before it, and its own hash is that of its contents.
abbrev pub Chained : World → Option String → List AuditRow → Type 0
Chained w previous [] = Unit
Chained w previous (e ∷ rows) =
    (e.previous_hash ≡ previous) × (e.hash ≡ (sealed w e).hash) × Chained w (some e.hash) rows

abbrev pub IsRevoked : Option DeviceRow → Type 0
IsRevoked none = ⊥
IsRevoked (some d) = d.status ≡ revoked

-- What the columns of an approval hold in a state: nothing of a decision where it is pending, the
-- time where it is over, and the device too where it was approved or denied.
abbrev pub Recorded : ApprovalState → Option ℕ → Option String → Type 0
Recorded pending decided_at actor = (decided_at ≡ none) × (actor ≡ none)
Recorded approved decided_at actor = Given decided_at × Given actor
Recorded denied decided_at actor = Given decided_at × Given actor
Recorded expired decided_at actor = Given decided_at
Recorded cancelled decided_at actor = Given decided_at

abbrev pub IsRecorded : ApprovalRow → Type 0
IsRecorded a = Recorded a.state a.decided_at a.decision_actor_device_id

pub record History (w : World) (s t : Store) : Type 0 where
  pub unique : Unique approvals.key s.approval_requests → Unique approvals.key t.approval_requests
  pub evolves : Evolves s t
  pub appended : (new : List AuditRow) × (t.audit_events ≡ s.audit_events ++ new)
  pub chained : Chained w none s.audit_events → Chained w none t.audit_events
  pub nonces :
      (device nonce : String)
      → seen_nonce device nonce s.request_nonces ≡ true
      → seen_nonce device nonce t.request_nonces ≡ true
  pub revocations :
      (id : String) → IsRevoked (row_at devices id s) → IsRevoked (row_at devices id t)
  pub recorded : All IsRecorded s.approval_requests → All IsRecorded t.approval_requests
  pub lasting : Lasting s t

Evolves-refl : (s : Store) → Evolves s s
Evolves-refl s = record { at = λ id a h. (a, h, refl, λ _. refl) }

Evolves-trans : (s t u : Store) → Evolves s t → Evolves t u → Evolves s u
Evolves-trans s t u f g = record {
  at = λ id a h.
      let (b, at_b, same_b, final_b) = f.at id a h in
      let (c, at_c, same_c, final_c) = g.at id b at_b in
      (
        c,
        at_c,
        same_c ∙ same_b,
        λ d.
            final_c (subst (λ (x : ApprovalRow). is_pending x.state ≡ false) (sym (final_b d)) d)
            ∙ final_b d,
      );
}

append_trans {ℓ} :
    {A : Type ℓ} {ys zs : List A} (xs : List A)
    → ((new : List A) × (ys ≡ xs ++ new))
    → ((new : List A) × (zs ≡ ys ++ new))
    → (new : List A) × (zs ≡ xs ++ new)
append_trans xs (n, p) (m, q) = (n ++ m, q ∙ rw p (append_assoc xs n m))

module _ (w : World) where
  pub History-preorder : Preorder (History w)
  History-preorder = record {
    same = λ s. record {
      unique = λ u. u;
      evolves = Evolves-refl s;
      appended = ([], sym (append-nil s.audit_events));
      chained = λ c. c;
      nonces = λ d n h. h;
      revocations = λ id h. h;
      recorded = λ x. x;
      lasting = Lasting-same s s refl refl refl refl;
    };
    join = λ s t u f g. record {
      unique = λ x. g.unique (f.unique x);
      evolves = Evolves-trans s t u f.evolves g.evolves;
      appended = append_trans s.audit_events f.appended g.appended;
      chained = λ c. g.chained (f.chained c);
      nonces = λ d n h. g.nonces d n (f.nonces d n h);
      revocations = λ id h. g.revocations id (f.revocations id h);
      recorded = λ x. g.recorded (f.recorded x);
      lasting = Lasting-join s t u f.lasting g.lasting;
    };
  }
