-- ===== src/Exec/Returns.antt =====
-- What is known when an action returned, for each way to build it: that its parts returned, and
-- that its tests passed.
use agentic_control_tower.Exec.Along.{Along}
use agentic_control_tower.Prelude.{
  ◌≡◌, refl, String, Bool, true, false, Option, none, some, if◌then◌else◌,
}
use agentic_control_tower.Exec.{
  Failure, http, key_error, integrity_error, Result, ok, err, Exec, pure, raise, gets, rethrow,
  or_key_error, guard_or, require, on_key_error, on_option, continue, ◌>>=◌,
}

-- `m` returned `a` at `s` and left `t`.
pub record Returns {S A : Type 0} (m : Exec S A) (s : S) (a : A) (t : S) : Type 0 where
  pub run : m s ≡ (ok a, t)

-- `m` raises at every state.
pub record Raises {S A : Type 0} (m : Exec S A) : Type 0 where
  pub never : (s : S) (a : A) (t : S) → ¬ Returns m s a t

module _ {S A : Type 0} where
  -- A relation that an action keeps holds between the state before it and the state it left.
  pub moved :
      {R : S → S → Type 0} {m : Exec S A} {s t : S} {a : A} → Along R m → Returns m s a t → R s t
  moved {R = R} {s = s} along h = rw (h.run) at (along.at s)

  pub moved_by :
      {R : S → S → Type 0} {m : Exec S A} {s t : S} {a : A} → Returns m s a t → Along R m → R s t
  moved_by h along = moved along h

  pub raise-Raises : (e : Failure) → Raises {S = S} {A = A} (raise e)
  unfolding raise
  raise-Raises e = record { never = λ s a t h. let run = h.run in cc }

  pub pure-Returns : {a b : A} {s t : S} → Returns (pure a) s b t → (b ≡ a) × (t ≡ s)
  unfolding pure
  pure-Returns h = let run = h.run in (cc, cc)

  pub on_key_error-Returns :
      (m : Exec S A) (e : Failure) {s t : S} {a : A}
      → Returns (on_key_error m e) s a t
      → Returns m s a t
  unfolding on_key_error
  on_key_error-Returns m e {s = s} {t = t} {a = a} h = record {
    run = of_run (m s).0 (m s).1 refl h.run;
  }
    where
      of_run :
          (r : Result A) (s' : S)
          → m s ≡ (r, s')
          → ◌≡◌ {A = Result A × S} (rethrow r e, s') (ok a, t)
          → m s ≡ (ok a, t)
      of_run (ok b) s' run h = cc
      of_run (err (http n d)) s' run h = cc
      of_run (err (key_error k)) s' run h = absurd (raised e s' h)
        where
          raised : (e : Failure) (s' : S) → ¬ (◌≡◌ {A = Result A × S} (err e, s') (ok a, t))
          raised e s' h = cc
      of_run (err integrity_error) s' run h = cc

  pub or_key_error-Returns :
      (k : String) (o : Option A) {s t : S} {a : A}
      → Returns (or_key_error k o) s a t
      → (o ≡ some a) × (t ≡ s)
  unfolding or_key_error
  or_key_error-Returns k none h = let run = h.run in (cc, cc)
  or_key_error-Returns k (some b) h = let run = h.run in (cc, cc)

  pub gets-Returns : (f : S → A) {s t : S} {a : A} → Returns (gets f) s a t → (a ≡ f s) × (t ≡ s)
  unfolding gets
  gets-Returns f h = let run = h.run in (cc, cc)

  pub if-Returns :
      (b : Bool) {m n : Exec S A} {s t : S} {a : A}
      → Raises n
      → Returns (if b then m else n) s a t
      → (b ≡ true) × Returns m s a t
  if-Returns true raises h = (refl, h)
  if-Returns false {s = s} {t = t} {a = a} raises h = absurd (raises.never s a t h)

module _ {S : Type 0} where
  pub require-Returns :
      (b : Bool) (e : Failure) {s t : S} {u : Unit {0}}
      → Returns (require b e) s u t
      → (b ≡ true) × (t ≡ s)
  unfolding require
  require-Returns true e h = let run = h.run in (refl, cc)
  require-Returns false e h = let run = h.run in (cc, cc)

  pub guard_or-Returns :
      (b : Bool) (m : Exec S (Unit {0})) {s t : S} {u : Unit {0}}
      → Raises m
      → Returns (guard_or b m) s u t
      → (b ≡ true) × (t ≡ s)
  unfolding guard_or
  guard_or-Returns true m raises h = let run = h.run in (refl, cc)
  guard_or-Returns false m {s = s} {t = t} {u = u} raises h =
      absurd (raises.never s u t (record { run = h.run }))

module _ {S A B : Type 0} where
  pub on_option-Returns :
      (o : Option A) (m : Exec S B) (f : A → Exec S B) {s t : S} {b : B}
      → Raises m
      → Returns (on_option o m f) s b t
      → (a : A) × (o ≡ some a) × Returns (f a) s b t
  unfolding on_option
  on_option-Returns none m f {s = s} {t = t} {b = b} raises h =
      absurd (raises.never s b t (record { run = h.run }))
  on_option-Returns (some a) m f raises h = (a, refl, record { run = h.run })

  pub on_option-none :
      (o : Option A) (m : Exec S B) (f : A → Exec S B) {s t : S} {b : B}
      → ((a : A) → Raises (f a))
      → Returns (on_option o m f) s b t
      → (o ≡ none) × Returns m s b t
  unfolding on_option
  on_option-none none m f raises h = (refl, record { run = h.run })
  on_option-none (some a) m f {s = s} {t = t} {b = b} raises h =
      absurd ((raises a).never s b t (record { run = h.run }))

  -- Both parts of a sequence returned.
  pub after :
      {C : Type 0} (m : Exec S A) (f : A → Exec S B) {s t : S} {b : B}
      → Returns (m >>= f) s b t
      → ((a : A) (s' : S) → Returns m s a s' → Returns (f a) s' b t → C)
      → C
  unfolding ◌>>=◌
  after {C = C} m f {s = s} {t = t} {b = b} h next = of_run (m s).0 (m s).1 refl h.run
    where
      of_run : (r : Result A) (s' : S) → m s ≡ (r, s') → continue r f s' ≡ (ok b, t) → C
      of_run (ok a) s' run h = next a s' (record { run = run }) (record { run = h })
      of_run (err e) s' run h = cc

  pub bind-Raises : (m : Exec S A) (f : A → Exec S B) → ((a : A) → Raises (f a)) → Raises (m >>= f)
  bind-Raises m f raises = record {
    never = λ s b t h. after m f h λ a s' run rest. (raises a).never s' b t rest;
  }

-- `if a is None: return None`, where something was returned.
module _ {S A B : Type 0} where
  pub on_option-some :
      (o : Option A) (f : A → Exec S (Option B)) {s t : S} {b : B}
      → Returns (on_option o (pure none) f) s (some b) t
      → (a : A) × (o ≡ some a) × Returns (f a) s (some b) t
  unfolding on_option pure
  on_option-some none f h = let run = h.run in cc
  on_option-some (some a) f h = (a, refl, record { run = h.run })

-- `if b: return None`, and `m if b else None`, where something was returned.
module _ {S B : Type 0} where
  pub unless-none :
      (b : Bool) (m : Exec S (Option B)) {s t : S} {x : B}
      → Returns (if b then pure none else m) s (some x) t
      → (b ≡ false) × Returns m s (some x) t
  unfolding pure
  unless-none true m h = let run = h.run in cc
  unless-none false m h = (refl, record { run = h.run })

  pub when-some :
      (b : Bool) (m : Exec S (Option B)) {s t : S} {x : B}
      → Returns (if b then m else pure none) s (some x) t
      → (b ≡ true) × Returns m s (some x) t
  unfolding pure
  when-some true m h = (refl, record { run = h.run })
  when-some false m h = let run = h.run in cc
