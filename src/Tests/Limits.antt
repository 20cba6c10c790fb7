-- ===== src/Tests/Limits.antt =====
-- Tests of the rate limiter and of the address it counts under.

use entitle_hub.Base.{
  ℕ, suc, ◌+◌, ◌≤◌, ◌≡◌, refl, Bool, true, false, Option, none, some, List, [], ◌∷◌, String, str_eq,
  if◌then◌else◌, arith,
}
use text.Mathlib.TextPositions.{eq_refl}
use entitle_hub.Base.Rows.{exists}
use entitle_hub.Base.Text.{trim}
use entitle_hub.Error.{Result, ok, AppError, login_rate_limited}
use entitle_hub.RateLimit.{Counters, key_part, login_key}
use entitle_hub.RateLimit.Window.{
  Entry, live, kept, IsRedis, passes, window-bounded, undated-refused,
}
use entitle_hub.ClientIp.{Headers, Addresses, resolve_client_ip, attach_client_ip, client_ip}
use entitle_hub.ClientIp.Spoofing.{IsHeaderMap, client_ip-unspoofable}

-- A Redis that holds one key.
abbrev set_deadline : ℕ → Option Entry → ℕ → Result Bool × Option Entry
set_deadline t none w = (ok false, none)
set_deadline t (some e) w = (ok true, some (record { value = e.value; deadline = some (t + w) }))

abbrev counters : Counters (Option Entry)
counters = record {
  incr =
      λ t r k. (ok (suc (live t r)), some (record { value = suc (live t r); deadline = kept t r }));
  expire = λ t r k w. set_deadline t r w;
}

abbrev held : Option Entry → String → Option Entry
held r k = r

counters-IsRedis : IsRedis counters held
counters-IsRedis = record {
  incr_counts = λ t r k n e. ground arith;
  incr_fails = λ t r k e h. absurd (ground arith);
  expire_sets = λ t r k w b e h stored. ground arith;
  expire_fails = λ t r k w x e h stored. absurd (ground arith);
}

abbrev limited : AppError
limited = login_rate_limited "login rate limited"

abbrev attempts : List ℕ
attempts = 100 ∷ 101 ∷ 110 ∷ 159 ∷ []

window-bounded_example : passes counters "rate:login:a:b" 2 60 limited attempts none ≤ 2
window-bounded_example =
    window-bounded counters held "rate:login:a:b" 2 60 limited counters-IsRedis 100 attempts none
      refl (ground arith)

two_pass : passes counters "rate:login:a:b" 2 60 limited attempts none ≡ 2
unfolding passes entitle_hub.RateLimit.check_fixed_window
two_pass = refl

undated-refused_example :
    passes counters "rate:login:a:b" 2 60 limited
      (100 ∷ 9000 ∷ [])
      (some (record { value = 2; deadline = none }))
    ≡ 0
undated-refused_example =
    undated-refused counters held "rate:login:a:b" 2 60 limited counters-IsRedis 2 10000
      (100 ∷ 9000 ∷ []) (some (record { value = 2; deadline = none })) refl (omega arith)
      (omega arith) (ground arith)

-- Headers as a list of names with values; the last that is inserted counts.
abbrev get : List (String × String) → String → Option String
get [] name = none
get ((n, v) ∷ h) name = let rest = get h name in if str_eq n name then some v else rest

abbrev remove : List (String × String) → String → List (String × String)
remove [] name = []
remove ((n, v) ∷ h) name = let rest = remove h name in if str_eq n name then rest else (n, v) ∷ rest

abbrev headers : Headers (List (String × String))
headers = record {
  get = get;
  remove = remove;
  insert = λ h name value. (name, value) ∷ h;
  is_value = λ s. true;
}

get-remove : (h : List (String × String)) (name : String) → get (remove h name) name ≡ none
get-remove [] name = refl
get-remove ((n, v) ∷ h) name = ground (arith, get-remove h name)

headers-IsHeaderMap : IsHeaderMap headers
headers-IsHeaderMap = record {
  get-insert = λ h name value fits. rw (eq_refl name) refl;
  get-remove = get-remove;
}

-- Addresses as their texts.
abbrev ips : Addresses String
ips = record { same = str_eq; parse = some; to_string = λ s. s }

abbrev forged : List (String × String)
forged = ("X-Forwarded-For", "203.0.113.10") ∷ ("x-internal-client-ip", "203.0.113.11") ∷ []

client_ip-unspoofable_example :
    client_ip headers ips
      (attach_client_ip headers ips forged (some "198.51.100.7") ("127.0.0.1" ∷ []))
    ≡ client_ip headers ips
        (attach_client_ip headers ips [] (some "198.51.100.7") ("127.0.0.1" ∷ []))
unfolding exists
client_ip-unspoofable_example =
    client_ip-unspoofable headers ips headers-IsHeaderMap forged [] "198.51.100.7"
      ("127.0.0.1" ∷ []) refl

trusted_forwards :
    resolve_client_ip headers ips
      (("X-Forwarded-For", "203.0.113.10, 10.0.0.1") ∷ [])
      (some "127.0.0.1")
      ("127.0.0.1" ∷ [])
    ≡ "203.0.113.10"
unfolding resolve_client_ip exists trim
trusted_forwards = refl
