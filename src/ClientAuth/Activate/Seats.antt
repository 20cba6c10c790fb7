-- ===== src/ClientAuth/Activate/Seats.antt =====
-- What an activation leaves: a usable license, a live session, and no seat beyond the limit.
use entitle_hub.Base.{
  ℕ, ◌+◌, ◌≡◌, refl, Bool, some, none, arith, ==_refl, String, Option-cases, inl, inr,
}
use entitle_hub.Base.Int.{pos, ◌≤ℤ◌}
use entitle_hub.Base.Text.{trim}
use entitle_hub.Base.Json.{Json}
use entitle_hub.Base.Rows.{find}
use entitle_hub.Error.{ok, Result, Result-cases}
use entitle_hub.License.{License}
use entitle_hub.License.Service.{validate_license_key}
use entitle_hub.License.Laws.{IsUsable, validate_license_key-IsUsable}
use entitle_hub.Device.{Device}
use entitle_hub.Device.Binding.{bind_for_license}
use entitle_hub.Device.Binding.Limits.{bind_for_license-within}
use entitle_hub.Session.{ClientSession, new_client_session}
use entitle_hub.Store.{Store, Application}
use entitle_hub.Store.Devices.{
  find_device_by_machine_id, active_device_count_for_license, create_device_key,
}
use entitle_hub.Store.Licenses.{find_by_app_key}
use entitle_hub.Store.Sessions.{
  create_client_session, create_client_refresh_token, find_session_by_id, session_row,
}
use entitle_hub.ClientAuth.Refresh.{TokenTtls, Generated, Signer}
use entitle_hub.ClientAuth.Activate.{
  ActivateRequest, ActivateResponse, FreshIds, bind_input, activate_with, activate,
}

module _ {V : Type 0} (J : Json V) (ttls : TokenTtls) (parses : String → Bool)
    (fresh : FreshIds) where
  activate_with-within :
      (now : ℕ) (s t : Store V) (payload : ActivateRequest) (application : Application)
      (license : License V) (token token_hash : String) (refresh_id : ℕ) (signer : Signer)
      (r : ActivateResponse V)
      → pos (active_device_count_for_license s application.tenant_id application.id license.id)
        ≤ℤ license.max_devices
      → activate_with J ttls parses fresh now s payload application license token token_hash
          refresh_id signer
        ≡ ok (r, t)
      → pos (active_device_count_for_license t application.tenant_id application.id license.id)
        ≤ℤ license.max_devices
  unfolding activate_with active_device_count_for_license create_device_key create_client_session
      create_client_refresh_token
  activate_with-within now s t payload application license token token_hash refresh_id signer r
        within h =
      elim (Result-cases (
        bind_for_license J now fresh.device s
          (bind_input J ttls parses fresh application license payload) license)) [
            | inr (e, k) ↦ ground arith
            | inl ((bound, s₁), k) ↦
                let kept =
                  bind_for_license-within J now fresh.device s s₁
                    (bind_input J ttls parses fresh application license payload) bound license refl
                    within k in
                ground arith
          ]

  activate_with-session :
      (now : ℕ) (s t : Store V) (payload : ActivateRequest) (application : Application)
      (license : License V) (token token_hash : String) (refresh_id : ℕ) (signer : Signer)
      (r : ActivateResponse V)
      → activate_with J ttls parses fresh now s payload application license token token_hash
          refresh_id signer
        ≡ ok (r, t)
      → (c : ClientSession) × (find_session_by_id t r.session_id ≡ some c)
        × (c.device_id ≡ r.device_id)
        × (c.tenant_id ≡ application.tenant_id)
        × (c.app_id ≡ application.id)
        × (c.revoked_at ≡ none)
        × (c.expires_at ≡ now + ttls.session)
        × (r.entitlement_id ≡ some license.id)
  unfolding activate_with create_device_key create_client_session create_client_refresh_token
      find_session_by_id find
  activate_with-session now s t payload application license token token_hash refresh_id signer r h =
      elim (Result-cases (
        bind_for_license J now fresh.device s
          (bind_input J ttls parses fresh application license payload) license)) [
            | inr (e, k) ↦ ground arith
            | inl ((bound, s₁), k) ↦ (
              session_row now (
                  new_client_session fresh.session application.tenant_id application.id
                    license.customer_id bound.device.id bound.device.machine_id "license"
                    (now + ttls.session)),
              ground (arith, ==_refl fresh.session),
              ground arith,
              refl,
              refl,
              refl,
              refl,
              ground arith,
            )
          ]

  -- An activation with a license, of a machine that has a device already, returns that license with
  -- that device and changes no device: also where the device is bound to another license, it stays
  -- bound to that one.
  pub activate_with-not_rebound :
      (now : ℕ) (s t : Store V) (payload : ActivateRequest) (application : Application)
      (license : License V) (token token_hash : String) (refresh_id : ℕ) (signer : Signer)
      (r : ActivateResponse V) (d : Device V)
      → find_device_by_machine_id s application.tenant_id application.id (trim payload.machine_id)
        ≡ some d
      → activate_with J ttls parses fresh now s payload application license token token_hash
          refresh_id signer
        ≡ ok (r, t)
      → (r.entitlement_id ≡ some license.id) × (r.device_id ≡ d.id) × (t.devices ≡ s.devices)
  unfolding activate_with bind_for_license create_client_session create_client_refresh_token
  activate_with-not_rebound now s t payload application license token token_hash refresh_id signer r
        d found h =
      ground arith

  -- An activation that succeeds was given the key of a license of the application that may be used
  -- now. The session it returns stands under its identifier, unrevoked and on the returned device,
  -- and the seats of the license stay within its limit where they were.
  pub activate-within :
      (hash_license hash_refresh : String → Result String) (limiter : Result (Unit {0}))
      (prepare_signer : Result Signer) (refresh : Generated) (now : ℕ) (s t : Store V)
      (payload : ActivateRequest) (r : ActivateResponse V)
      → activate J ttls parses fresh hash_license hash_refresh limiter prepare_signer refresh now s
          payload
        ≡ ok (r, t)
      → (a : Application) × (l : License V) × (find_by_app_key s (trim payload.app_key) ≡ some a)
        × (validate_license_key hash_license s.licenses a.tenant_id a.id payload.license_key now
            ≡ ok l)
        × IsUsable l now
        × ((c : ClientSession) × (find_session_by_id t r.session_id ≡ some c)
            × (c.device_id ≡ r.device_id)
            × (c.tenant_id ≡ a.tenant_id)
            × (c.app_id ≡ a.id)
            × (c.revoked_at ≡ none)
            × (c.expires_at ≡ now + ttls.session)
            × (r.entitlement_id ≡ some l.id))
        × (pos (active_device_count_for_license s a.tenant_id a.id l.id) ≤ℤ l.max_devices
            → pos (active_device_count_for_license t a.tenant_id a.id l.id) ≤ℤ l.max_devices)
  unfolding activate
  activate-within hash_license hash_refresh limiter prepare_signer refresh now s t payload r h =
      elim (Option-cases (find_by_app_key s (trim payload.app_key))) [
        | inl e ↦ ground arith
        | inr (a, e) ↦
            elim (Result-cases (
              validate_license_key hash_license s.licenses a.tenant_id a.id payload.license_key
                now)) [
                  | inr (e', k) ↦ ground arith
                  | inl (l, k) ↦ elim (Result-cases (hash_refresh refresh.token)) [
                    | inr (e', k') ↦ ground arith
                    | inl (refresh_hash, k') ↦ elim (Result-cases prepare_signer) [
                      | inr (e', m) ↦ ground arith
                      | inl (signer, m) ↦
                          let h' : activate_with J ttls parses fresh now s payload a l refresh.token
                                refresh_hash refresh.id signer
                              ≡ ok (r, t) =
                            ground arith in
                          (
                            a,
                            l,
                            e,
                            k,
                            (validate_license_key-IsUsable hash_license s.licenses a.tenant_id a.id
                                payload.license_key now l k).0,
                            activate_with-session now s t payload a l refresh.token refresh_hash
                                refresh.id signer r h',
                            λ within.
                                activate_with-within now s t payload a l refresh.token refresh_hash
                                  refresh.id signer r within h',
                          )
                    ]
                  ]
                ]
      ]
