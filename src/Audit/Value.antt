-- ===== src/Audit/Value.antt =====
-- The values of audit metadata. A number is known by whether it is finite, and `other` is what is
-- neither JSON nor a number: undefined, a function, a symbol, a bigint.
use replay_bug.Common.{ℕ, suc, Bool, if◌then◌else◌}
use replay_bug.Common.Text.{Text, text_eq}

mutual
  pub data Value : Type 0 where
    null : Value
    bool : Bool → Value
    number : Bool → Value
    str : Text → Value
    arr : Items → Value
    obj : Fields → Value
    other : Value

  pub data Items : Type 0 where
    nil : Items
    cons : Value → Items → Items

  pub data Fields : Type 0 where
    end : Fields
    field : Text → Value → Fields → Fields

unfoldable pub count_fields : Fields → ℕ
count_fields end = 0
count_fields (field k v fs) = suc (count_fields fs)

-- `out[key] = value`
unfoldable pub set_field : Text → Value → Fields → Fields
set_field key value end = field key value end
set_field key value (field k v fs) =
    let rest = set_field key value fs in if text_eq k key then field k value fs else field k v rest
