-- ===== src/RateLimit.antt =====
-- backend/src/rate_limit.rs: a fixed window of attempts, counted in Redis, and the keys it counts
-- under. Redis, which keeps its own state, and `to_lowercase` are parameters. Metrics are left out.
pub mod Window
pub mod Keys
use Prim.Native.String as Text
use Prim.Native.Char.{Char, code}
use entitle_hub.Base.{
  ℕ, suc, ◌+◌, ◌^◌, ◌≡◌, Bool, true, false, ◌&&◌, ◌||◌, Option, none, some, String, ◌==◌, ltb, leb,
  if◌then◌else◌,
}
use entitle_hub.Base.Text.{trim, is_empty}
use entitle_hub.Error.{Result, ok, err, AppError, config, dependency}

-- The two commands of Redis, at a time of its clock. A failed command leaves a state too.
pub record Counters (R : Type 0) : Type 0 where
  pub incr : ℕ → R → String → Result ℕ × R
  pub expire : ℕ → R → String → ℕ → Result Bool × R

module _ {R : Type 0} (redis : Counters R) where
  abbrev pub decide : AppError → (max_attempts count : ℕ) → R → Result (Unit {0}) × R
  decide limited max_attempts count r = (if ltb max_attempts count then err limited else ok tt, r)

  -- After the first attempt's `expire`.
  abbrev pub after_expire :
      AppError → (max_attempts count : ℕ) → Result Bool → R → Result (Unit {0}) × R
  after_expire limited max_attempts count (err e) r = (err e, r)
  after_expire limited max_attempts count (ok _) r = decide limited max_attempts count r

  -- A count that a `u32` does not hold is an error of the conversion.
  unfoldable pub after_incr :
      ℕ
      → String
      → (max_attempts window_seconds : ℕ) → AppError
      → Result ℕ
      → R
      → Result (Unit {0}) × R
  after_incr now key max_attempts window_seconds limited (err e) r = (err e, r)
  after_incr now key max_attempts window_seconds limited (ok count) r =
      let (reply, r') = redis.expire now r key window_seconds in
      if leb (2 ^ 32) count
      then (err (dependency "redis rate limit incr failed"), r)
      else if count == 1
      then after_expire limited max_attempts count reply r'
      else decide limited max_attempts count r

  -- A window of 2^63 seconds or more, which the cast to `i64` makes negative, is left out.
  unfoldable pub check_fixed_window :
      ℕ → R → String → (max_attempts window_seconds : ℕ) → AppError → Result (Unit {0}) × R
  unfolding after_incr
  check_fixed_window now r key max_attempts window_seconds limited =
      let (reply, r') = redis.incr now r key in
      if max_attempts == 0
      then (err limited, r)
      else if window_seconds == 0
      then (err (config "rate limit window_seconds must be greater than 0"), r)
      else after_incr now key max_attempts window_seconds limited reply r'

-- Which characters a key keeps: letters, digits and `-`, `_`, `.`, `@`.
abbrev pub is_key_char : ℕ → Bool
is_key_char c =
    (leb 97 c && leb c 122)
    || (leb 65 c && leb c 90)
    || (leb 48 c && leb c 57)
    || c == 45
    || c == 95
    || c == 46
    || c == 64

abbrev pub key_char : Char → Char
key_char c = if is_key_char (code c) then c else "_"

unfoldable pub key_chars : String → String
key_chars Text.[] = Text.[]
key_chars (Text.◌∷◌ c s) = Text.◌∷◌ (key_char c) (key_chars s)

unfoldable pub key_part : String → String
unfolding key_chars trim
key_part value = if is_empty (trim value) then "empty" else key_chars (trim value)

infixr 60 ◌⊕◌
abbrev pub ◌⊕◌ : String → String → String
a ⊕ b = Text.◌++◌ a b

unfoldable pub login_key : (String → String) → (email ip : String) → String
login_key lower email ip = "rate:login:" ⊕ key_part (lower (trim email)) ⊕ ":" ⊕ key_part ip

unfoldable pub activation_key : (app_key machine_id ip : String) → String
activation_key app_key machine_id ip =
    "rate:activation:"
    ⊕ key_part (trim app_key)
    ⊕ ":"
    ⊕ key_part (trim machine_id)
    ⊕ ":"
    ⊕ key_part ip

unfoldable pub refresh_key : (session_id ip : String) → String
refresh_key session_id ip = "rate:refresh:" ⊕ key_part session_id ⊕ ":" ⊕ key_part ip

unfoldable pub heartbeat_key : String → String
heartbeat_key device_id = "rate:heartbeat:" ⊕ key_part device_id

unfoldable pub client_action_key : (action device_id : String) → String
client_action_key action device_id =
    "rate:client_action:" ⊕ key_part action ⊕ ":" ⊕ key_part device_id

unfoldable pub email_verify_key : (subject_id ip : String) → String
email_verify_key subject_id ip = "rate:email_verify:" ⊕ key_part subject_id ⊕ ":" ⊕ key_part ip

unfoldable pub mfa_key : (subject_id ip : String) → String
mfa_key subject_id ip = "rate:mfa:" ⊕ key_part subject_id ⊕ ":" ⊕ key_part ip

unfoldable pub download_key : (file_id device_id : String) → String
download_key file_id device_id = "rate:download:" ⊕ key_part file_id ⊕ ":" ⊕ key_part device_id

unfoldable pub ai_gateway_key : String → String
ai_gateway_key api_key_id = "rate:ai_gateway:" ⊕ key_part api_key_id
