-- ===== src/ClientIp.antt =====
-- backend/src/http/client_ip.rs, and `client_ip` of backend/src/rate_limit.rs: the address that a
-- request is counted under. Headers, addresses and their texts are other libraries' types, so
-- parameters.
pub mod Spoofing
use Prim.Native.String as Text
use Prim.Native.Char.{Char, code}
use entitle_hub.Base.{
  ℕ, Bool, true, false, Option, none, some, List, String, ◌==◌, if◌then◌else◌, unwrap_or,
}
use entitle_hub.Base.Rows.{exists}
use entitle_hub.Base.Text.{trim, is_empty}

-- A map of headers: the text of a value, when the header is there and its bytes are text; removal,
-- insertion, and whether a text may be a value.
pub record Headers (H : Type 0) : Type 0 where
  pub get : H → String → Option String
  pub remove : H → String → H
  pub insert : H → String → String → H
  pub is_value : String → Bool

-- Addresses: equality, parsing and printing.
pub record Addresses (A : Type 0) : Type 0 where
  pub same : A → A → Bool
  pub parse : String → Option A
  pub to_string : A → String

abbrev pub internal_client_ip_header : String
internal_client_ip_header = "x-internal-client-ip"

-- `split(',').next()`; the comma has the code 44.
before_comma : String → String
before_comma Text.[] = Text.[]
before_comma (Text.◌∷◌ c s) = if code c == 44 then Text.[] else Text.◌∷◌ c (before_comma s)

-- `or_else`
abbrev or_else : Option String → Option String → Option String
or_else none other = other
or_else (some s) other = some s

module _ {H A : Type 0} (headers : Headers H) (ips : Addresses A) where
  abbrev shown : Option A → Option String
  shown none = none
  shown (some ip) = some (ips.to_string ip)

  unfoldable pub parse_header_ip : String → Option String
  parse_header_ip value = shown (ips.parse (trim value))

  abbrev parsed_first : Option String → Option String
  parsed_first none = none
  parsed_first (some value) = parse_header_ip (before_comma value)

  unfoldable pub forwarded_for : H → Option String
  unfolding before_comma parse_header_ip
  forwarded_for h = parsed_first (headers.get h "X-Forwarded-For")

  abbrev parsed : Option String → Option String
  parsed none = none
  parsed (some value) = parse_header_ip value

  unfoldable pub real_ip : H → Option String
  unfolding parse_header_ip
  real_ip h = parsed (headers.get h "X-Real-IP")

  -- An address is resolved from the headers of trusted peers only.
  unfoldable pub resolve_client_ip : H → Option A → List A → String
  unfolding forwarded_for real_ip
  resolve_client_ip h none trusted_proxies = "unknown"
  resolve_client_ip h (some peer) trusted_proxies =
      if exists (ips.same peer) trusted_proxies
      then unwrap_or (or_else (forwarded_for h) (real_ip h)) (ips.to_string peer)
      else ips.to_string peer

  -- The headers that the handlers see.
  unfoldable pub attach_client_ip : H → Option A → List A → H
  unfolding resolve_client_ip
  attach_client_ip h peer trusted_proxies =
      let ip = resolve_client_ip h peer trusted_proxies in
      let h' = headers.remove h internal_client_ip_header in
      if headers.is_value ip then headers.insert h' internal_client_ip_header ip else h'

  abbrev pub client_ip_of : Option String → String
  client_ip_of none = "unknown"
  client_ip_of (some value) = if is_empty (trim value) then "unknown" else trim value

  unfoldable pub client_ip : H → String
  client_ip h = client_ip_of (headers.get h internal_client_ip_header)
