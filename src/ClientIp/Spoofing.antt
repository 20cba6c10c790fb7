-- ===== src/ClientIp/Spoofing.antt =====
-- backend/src/http/client_ip.rs and backend/src/rate_limit.rs: whose word an address rests on.
use entitle_hub.Base.{
  ◌≡◌, refl, true, false, Option, none, some, List, String, Bool-cases, inl, inr, if◌then◌else◌,
  sym, ap, ◌∙◌,
}
use entitle_hub.Base.Rows.{exists}
use entitle_hub.ClientIp.{
  Headers, Addresses, internal_client_ip_header, resolve_client_ip, attach_client_ip, client_ip,
  client_ip_of,
}

-- A header that is inserted is read, one that is removed is not.
pub record IsHeaderMap {H : Type 0} (headers : Headers H) : Type 0 where
  pub get-insert :
      (h : H) (name value : String)
      → headers.is_value value ≡ true
      → headers.get (headers.insert h name value) name ≡ some value
  pub get-remove : (h : H) (name : String) → headers.get (headers.remove h name) name ≡ none

module _ {H A : Type 0} (headers : Headers H) (ips : Addresses A) (laws : IsHeaderMap headers) where
  -- What the handlers read is what was resolved, whatever the request said under that name.
  pub client_ip-attach :
      (h : H) (peer : Option A) (trusted_proxies : List A)
      → client_ip headers ips (attach_client_ip headers ips h peer trusted_proxies) ≡ (
          let ip = resolve_client_ip headers ips h peer trusted_proxies in
          client_ip_of headers ips (if headers.is_value ip then some ip else none))
  unfolding client_ip attach_client_ip
  client_ip-attach h peer trusted_proxies =
      let ip = resolve_client_ip headers ips h peer trusted_proxies in
      let h' = headers.remove h internal_client_ip_header in
      elim (Bool-cases (headers.is_value ip)) [
        | inl fits ↦
            rw fits
              (ap (client_ip_of headers ips) (laws.get-insert h' internal_client_ip_header ip fits))
        | inr unfit ↦
            rw unfit (ap (client_ip_of headers ips) (laws.get-remove h internal_client_ip_header))
      ]

  -- The addresses that two requests of the same peer are counted under agree whenever the peer is
  -- not a trusted proxy: no header of a request, the internal one included, has a say.
  pub client_ip-unspoofable :
      (h₁ h₂ : H) (peer : A) (trusted_proxies : List A)
      → exists (ips.same peer) trusted_proxies ≡ false
      → client_ip headers ips (attach_client_ip headers ips h₁ (some peer) trusted_proxies)
        ≡ client_ip headers ips (attach_client_ip headers ips h₂ (some peer) trusted_proxies)
  unfolding resolve_client_ip
  client_ip-unspoofable h₁ h₂ peer trusted_proxies untrusted =
      client_ip-attach h₁ (some peer) trusted_proxies
      ∙ rw untrusted refl
      ∙ sym (client_ip-attach h₂ (some peer) trusted_proxies)
