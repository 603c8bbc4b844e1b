-- ===== src/Exec/Along.antt =====
-- How an action changes the state, as a reflexive and transitive relation between the state
-- before it and the state after it, whether it returned or raised. One rule for each way to build
-- an action.
use agentic_control_tower.Prelude.{
  ◌≡◌, refl, String, Bool, true, false, Option, none, some, List, [], ◌∷◌, if◌then◌else◌,
}
use agentic_control_tower.Exec.{
  Failure, Result, ok, err, Exec, pure, raise, gets, or_key_error, on_key_error, suppress_key_error,
  on_option, guard_or, require, continue, ◌>>=◌, for_each,
}

pub record Preorder {S : Type 0} (R : S → S → Type 0) : Type 0 where
  pub same : (s : S) → R s s
  pub join : (s t u : S) → R s t → R t u → R s u

pub record Along {S A : Type 0} (R : S → S → Type 0) (m : Exec S A) : Type 0 where
  pub at : (s : S) → R s (m s).1

module _ {S A : Type 0} {R : S → S → Type 0} (p : Preorder R) where
  pub Along-pure : (a : A) → Along R (pure a)
  unfolding pure
  Along-pure a = record { at = λ s. p.same s }

  pub Along-raise : (e : Failure) → Along R (raise {A = A} e)
  unfolding raise
  Along-raise e = record { at = λ s. p.same s }

  pub Along-gets : (f : S → A) → Along R (gets f)
  unfolding gets
  Along-gets f = record { at = λ s. p.same s }

  pub Along-or_key_error : (k : String) (o : Option A) → Along R (or_key_error k o)
  unfolding or_key_error
  Along-or_key_error k none = record { at = λ s. p.same s }
  Along-or_key_error k (some a) = record { at = λ s. p.same s }

  pub Along-on_key_error : (m : Exec S A) (e : Failure) → Along R m → Along R (on_key_error m e)
  unfolding on_key_error
  Along-on_key_error m e h = record { at = λ s. h.at s }

  pub Along-suppress_key_error : (m : Exec S A) → Along R m → Along R (suppress_key_error m)
  unfolding suppress_key_error
  Along-suppress_key_error m h = record { at = λ s. h.at s }

  pub Along-if :
      (b : Bool) (m n : Exec S A)
      → (b ≡ true → Along R m)
      → (b ≡ false → Along R n)
      → Along R (if b then m else n)
  Along-if true m n km kn = km refl
  Along-if false m n km kn = kn refl

module _ {S A B : Type 0} {R : S → S → Type 0} where
  pub Along-on_option :
      (o : Option B) (n : Exec S A) (f : B → Exec S A)
      → Along R n
      → ((b : B) → Along R (f b))
      → Along R (on_option o n f)
  unfolding on_option
  Along-on_option none n f hn hf = hn
  Along-on_option (some b) n f hn hf = hf b

module _ {S : Type 0} {R : S → S → Type 0} (p : Preorder R) where
  pub Along-require : (b : Bool) (e : Failure) → Along R (require b e)
  unfolding require
  Along-require true e = record { at = λ s. p.same s }
  Along-require false e = record { at = λ s. p.same s }

  pub Along-guard_or : (b : Bool) (m : Exec S (Unit {0})) → Along R m → Along R (guard_or b m)
  unfolding guard_or
  Along-guard_or true m h = record { at = λ s. p.same s }
  Along-guard_or false m h = record { at = h.at }

module _ {S A B : Type 0} {R : S → S → Type 0} (p : Preorder R) where
  Along-continue :
      (r : Result A) (f : A → Exec S B)
      → ((a : A) → Along R (f a))
      → (s : S) → R s (continue r f s).1
  Along-continue (ok a) f k s = (k a).at s
  Along-continue (err e) f k s = p.same s

  pub Along-bind :
      (m : Exec S A) (f : A → Exec S B) → Along R m → ((a : A) → Along R (f a)) → Along R (m >>= f)
  unfolding ◌>>=◌
  Along-bind m f h k = record {
    at = λ s.
        let (r, s') = m s in p.join s s' (continue r f s').1 (h.at s) (Along-continue r f k s');
  }

  -- The same from an earlier state `s₀`, where the first action is known to be good only at one state.
  pub bind-from :
      (m : Exec S A) (f : A → Exec S B) (s₀ s : S)
      → R s₀ (m s).1
      → ((a : A) → Along R (f a))
      → R s₀ ((m >>= f) s).1
  unfolding ◌>>=◌
  bind-from m f s₀ s h k =
      let (r, s') = m s in p.join s₀ s' (continue r f s').1 h (Along-continue r f k s')

module _ {S A : Type 0} {R : S → S → Type 0} (p : Preorder R) where
  pub Along-for_each :
      (xs : List A) (body : A → Exec S (Unit {0}))
      → ((x : A) → Along R (body x))
      → Along R (for_each xs body)
  unfolding for_each
  Along-for_each [] body h = Along-pure p tt
  Along-for_each (x ∷ xs) body h =
      Along-bind p (body x) (λ _. for_each xs body) (h x) (λ _. Along-for_each xs body h)

pub ruleset along_rules = (
  Along-pure, Along-raise, Along-gets, Along-or_key_error, Along-on_key_error,
  Along-suppress_key_error, Along-if, Along-on_option, Along-require, Along-guard_or, Along-bind,
  Along-for_each,
)
