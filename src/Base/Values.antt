-- ===== src/Base/Values.antt =====
-- `serde_json::Value` as far as objects are written and read: an object keeps its fields in a list.
-- Arrays, booleans, `null` and the numbers that the program does not write are any other value.
use Prim.Native.Nat.{ℕ}
use Prim.Native.String.{String}
use text.Mathlib.Text.{◌==◌ as str_eq}
use mathlib.Core.Option.{Option, none, some}
use entitle_hub.Base.Tests.{if◌then◌else◌}

mutual
  pub data Value (V : Type 0) : Type 0 where
    string : String → Value V
    number : ℕ → Value V
    object : Fields V → Value V
    other : V → Value V

  pub data Fields (V : Type 0) : Type 0 where
    no_fields : Fields V
    field : String → Value V → Fields V → Fields V

module _ {V : Type 0} where
  field_at : Fields V → String → Option (Value V)
  field_at no_fields key = none
  field_at (field name v entries) key = if str_eq name key then some v else field_at entries key

  -- `Value::get`
  unfoldable pub get : Value V → String → Option (Value V)
  unfolding field_at
  get (object entries) key = field_at entries key
  get (string s) key = none
  get (number n) key = none
  get (other v) key = none

  -- `Value::as_str`
  unfoldable pub as_str : Value V → Option String
  as_str (string s) = some s
  as_str (number n) = none
  as_str (object entries) = none
  as_str (other v) = none

  -- `and_then(Value::as_str)`
  unfoldable pub text_of : Option (Value V) → Option String
  unfolding as_str
  text_of none = none
  text_of (some v) = as_str v
