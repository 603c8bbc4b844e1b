-- ===== src/Exec.antt =====
-- A method of the gateway works on the stored state and may raise. Each method of the store
-- commits by itself, so what was written before a raise stays written, and the state comes back
-- beside the error too.
pub mod Along
pub mod Returns
use agentic_control_tower.Prelude.{ℕ, String, Bool, true, false, Option, none, some, List, [], ◌∷◌}

-- `HTTPException(status, detail)`, `KeyError` and `sqlite3.IntegrityError`.
pub data Failure : Type 0 where
  http : ℕ → String → Failure
  key_error : String → Failure
  integrity_error : Failure

pub data Result (A : Type 0) : Type 0 where
  ok : A → Result A
  err : Failure → Result A

abbrev pub Exec : Type 0 → Type 0 → Type 0
Exec S A = S → Result A × S

module _ {A : Type 0} where
  abbrev pub rethrow : Result A → Failure → Result A
  rethrow (ok a) e = ok a
  rethrow (err (key_error k)) e = err e
  rethrow (err (http n d)) e = err (http n d)
  rethrow (err integrity_error) e = err integrity_error

module _ {S A : Type 0} where
  unfoldable pub pure : A → Exec S A
  pure a s = (ok a, s)

  unfoldable pub raise : Failure → Exec S A
  raise e s = (err e, s)

  unfoldable pub gets : (S → A) → Exec S A
  gets f s = (ok (f s), s)

  -- The value of an optional row, and `KeyError(key)` where there is none.
  unfoldable pub or_key_error : String → Option A → Exec S A
  or_key_error key none s = (err (key_error key), s)
  or_key_error key (some a) s = (ok a, s)

  -- `try: m / except KeyError: raise e`
  unfoldable pub on_key_error : Exec S A → Failure → Exec S A
  on_key_error m e s = let (r, s') = m s in (rethrow r e, s')

module _ {A : Type 0} where
  abbrev pub suppressed : Result A → Result (Unit {0})
  suppressed (ok a) = ok tt
  suppressed (err (key_error k)) = ok tt
  suppressed (err (http n d)) = err (http n d)
  suppressed (err integrity_error) = err integrity_error

module _ {S A : Type 0} where
  -- `try: m / except KeyError: return`
  unfoldable pub suppress_key_error : Exec S A → Exec S (Unit {0})
  suppress_key_error m s = let (r, s') = m s in (suppressed r, s')

module _ {S : Type 0} where
  unfoldable pub modify : (S → S) → Exec S (Unit {0})
  modify f s = (ok tt, f s)

  -- `if not b: raise e`
  unfoldable pub require : Bool → Failure → Exec S (Unit {0})
  require true e s = (ok tt, s)
  require false e s = (err e, s)

  -- `if not b: m`, for an `m` that raises.
  unfoldable pub guard_or : Bool → Exec S (Unit {0}) → Exec S (Unit {0})
  guard_or true m s = (ok tt, s)
  guard_or false m s = m s

module _ {S A B : Type 0} where
  abbrev pub continue : Result A → (A → Exec S B) → Exec S B
  continue (ok a) f s = f a s
  continue (err e) f s = (err e, s)

  infixl 10 ◌>>=◌ ◌>>◌
  unfoldable pub ◌>>=◌ : Exec S A → (A → Exec S B) → Exec S B
  ◌>>=◌ m f s = let (r, s') = m s in continue r f s'

  abbrev pub ◌>>◌ : Exec S A → Exec S B → Exec S B
  m >> n = m >>= λ _. n

-- A call whose result goes to the caller.
module _ {S A : Type 0} where
  abbrev pub forget : Exec S A → Exec S (Unit {0})
  forget m = m >>= λ _. pure tt

module _ {S A B : Type 0} where
  -- `m` where the value is None, and `f` of it otherwise.
  unfoldable pub on_option : Option A → Exec S B → (A → Exec S B) → Exec S B
  on_option none m f = m
  on_option (some a) m f = f a

-- `for x in xs: body(x)`
module _ {S A : Type 0} where
  unfoldable pub for_each : List A → (A → Exec S (Unit {0})) → Exec S (Unit {0})
  for_each [] body = pure tt
  for_each (x ∷ xs) body = body x >>= λ _. for_each xs body
