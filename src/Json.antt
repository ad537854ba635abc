-- ===== src/Json.antt =====
-- What `json.loads` returns, as far as the readers look at it.
use neotolis_ai_workbench.Base.{ℕ, String, Bool, false, Option, none, some, ◌==◌, str_eq}
use neotolis_ai_workbench.Base.{if◌then◌else◌}

-- `other` is a number that is no natural, with whether Python finds it equal to 1, as it does 1.0.
mutual
  pub data Json : Type 0 where
    null : Json
    bool : Bool → Json
    int : ℕ → Json
    other : Bool → Json
    str : String → Json
    arr : Items → Json
    obj : Fields → Json

  pub data Items : Type 0 where
    nil : Items
    cons : Json → Items → Items

  pub data Fields : Type 0 where
    end : Fields
    field : String → Json → Fields → Fields

-- `d.get(key)`, `none` where the key is missing.
unfoldable pub get : String → Fields → Option Json
get k end = none
get k (field j v rest) = if str_eq j k then some v else get k rest

-- `value == 1` in Python: `True` and `1.0` are equal to 1 too.
unfoldable pub equals_one : Option Json → Bool
equals_one (some (int n)) = n == 1
equals_one (some (bool b)) = b
equals_one (some (other b)) = b
equals_one _ = false
