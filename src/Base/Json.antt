-- ===== src/Base/Json.antt =====
-- What the program uses of `serde_json::Value`: whether a value is an array, and the two empty
-- containers `json!([])` and `json!({})`. The type of values and its operations are a parameter.
use mathlib.Core.Path.{◌≡◌}
use mathlib.Core.Bool.{Bool, true}

pub record Json (V : Type 0) : Type 0 where
  pub is_array : V → Bool
  pub empty_array : V
  pub empty_object : V
  -- `json!([])` is an array.
  pub is_array-empty_array : is_array empty_array ≡ true
