-- ===== src/Approvals/Options.antt =====
-- The options that an approval request offers.
use agentic_control_tower.Prelude.{◌≡◌, refl, String, some, List, [], ◌∷◌, ◌++◌, last?}
use agentic_control_tower.Approvals.{approval_options_from_scopes, options_of_scopes, with_deny}

last?-append : {A : Type 0} (xs : List A) (x : A) → last? (xs ++ x ∷ []) ≡ some x
last?-append [] x = refl
last?-append (y ∷ xs) x = rw (last?-append xs x) refl

-- Whatever the scopes, the last of the options is to deny.
pub options_end_in_deny :
    (scopes : List String) → last? (approval_options_from_scopes scopes) ≡ some "deny"
unfolding approval_options_from_scopes
options_end_in_deny scopes = of_options (options_of_scopes scopes)
  where
    of_options : (options : List String) → last? (with_deny options) ≡ some "deny"
    of_options [] = refl
    of_options (o ∷ options) = last?-append (o ∷ options) "deny"
