-- ===== src/Json.antt =====
-- JSON values, as the payloads of audit records and event envelopes hold them.
use agentic_control_tower.Prelude.{ℕ, String, Bool, Option, none, some, List, [], ◌∷◌}

mutual
  pub data Json : Type 0 where
    null : Json
    bool : Bool → Json
    num : ℕ → Json
    str : String → Json
    arr : Items → Json
    obj : Fields → Json

  pub data Items : Type 0 where
    nil : Items
    cons : Json → Items → Items

  pub data Fields : Type 0 where
    end : Fields
    field : String → Json → Fields → Fields

abbrev pub to_fields : List (String × Json) → Fields
to_fields [] = end
to_fields ((k, v) ∷ rest) = field k v (to_fields rest)

-- `{key: value, …}`
abbrev pub dict : List (String × Json) → Json
dict entries = obj (to_fields entries)

abbrev pub to_items : List String → Items
to_items [] = nil
to_items (s ∷ rest) = cons (str s) (to_items rest)

-- A list of texts.
abbrev pub texts : List String → Json
texts ss = arr (to_items ss)

-- A text or None.
abbrev pub opt : Option String → Json
opt none = null
opt (some s) = str s

abbrev pub items : List Json → Items
items [] = nil
items (j ∷ rest) = cons j (items rest)
