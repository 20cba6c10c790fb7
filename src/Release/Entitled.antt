-- ===== src/Release/Entitled.antt =====
-- backend/src/modules/release/repository.rs: what the statement that uses up a download token asks
-- of the application, the device and its license or subscription.
use entitle_hub.Base.{
  ℕ, ◌<◌, ◌≡◌, ◌⊎◌, true, none, some, String, eq_iff, Bool-cases, inl, inr, arith,
}
use entitle_hub.Base.Rows.{Any, exists-Any, exists}
use entitle_hub.License.{License}
use entitle_hub.License.Laws.{IsUsable}
use entitle_hub.Subscription.{Subscription}
use entitle_hub.Subscription.Laws
use entitle_hub.Device.{Device}
use entitle_hub.Store.{Application}
use entitle_hub.Release.{DownloadToken}
use entitle_hub.Release.Rows.{Releases}
use entitle_hub.Release.Tokens.{
  is_consumable, is_open_application, is_licensed, is_subscribed, is_entitled, is_downloading,
}

pub record IsOpen (dt : DownloadToken) (a : Application) : Type 0 where
  pub id : a.id ≡ dt.app_id
  pub of_tenant : a.tenant_id ≡ dt.tenant_id
  pub active : a.status ≡ "active"
  pub kept : a.deleted_at ≡ none

is_open_application-IsOpen :
    (dt : DownloadToken) (a : Application) → is_open_application dt a ≡ true → IsOpen dt a
is_open_application-IsOpen dt a h = record {
  id = ground arith;
  of_tenant = ground arith;
  active = ground (arith, eq_iff a.status "active");
  kept = ground arith;
}

module _ {V : Type 0} where
  pub record IsLicensed (now : ℕ) (dt : DownloadToken) (d : Device V) (l : License V) : Type 0 where
    pub of_device : d.license_id ≡ some l.id
    pub of_tenant : l.tenant_id ≡ dt.tenant_id
    pub of_app : l.app_id ≡ dt.app_id
    pub kept : l.deleted_at ≡ none
    pub usable : IsUsable l now

  pub record IsSubscribed (now : ℕ) (dt : DownloadToken) (d : Device V) (u : Subscription V)
      : Type 0 where
    pub of_device : d.subscription_id ≡ some u.id
    pub of_tenant : u.tenant_id ≡ dt.tenant_id
    pub of_app : u.app_id ≡ dt.app_id
    pub kept : u.deleted_at ≡ none
    pub usable : Laws.IsUsable u now

  -- The device of the token, which is active and has a license or a subscription to use now.
  pub record IsDownloading (now : ℕ) (s : Releases V) (dt : DownloadToken) (d : Device V)
      : Type 0 where
    pub id : d.id ≡ dt.device_id
    pub of_tenant : d.tenant_id ≡ dt.tenant_id
    pub of_app : d.app_id ≡ dt.app_id
    pub active : d.status ≡ "active"
    pub kept : d.deleted_at ≡ none
    pub entitled :
        Any (IsLicensed now dt d) s.store.licenses
        ⊎ Any (IsSubscribed now dt d) s.store.subscriptions

  is_licensed-IsLicensed :
      (now : ℕ) (dt : DownloadToken) (d : Device V) (l : License V)
      → is_licensed now dt d l ≡ true
      → IsLicensed now dt d l
  is_licensed-IsLicensed now dt d l h = record {
    of_device = ground arith;
    of_tenant = ground arith;
    of_app = ground arith;
    kept = ground arith;
    usable = ground (arith, eq_iff l.status "active");
  }

  is_subscribed-IsSubscribed :
      (now : ℕ) (dt : DownloadToken) (d : Device V) (u : Subscription V)
      → is_subscribed now dt d u ≡ true
      → IsSubscribed now dt d u
  is_subscribed-IsSubscribed now dt d u h = record {
    of_device = ground arith;
    of_tenant = ground arith;
    of_app = ground arith;
    kept = ground arith;
    usable = ground (arith, eq_iff u.status "active", eq_iff u.status "trialing");
  }

  is_downloading-IsDownloading :
      (now : ℕ) (s : Releases V) (dt : DownloadToken) (d : Device V)
      → is_downloading now s dt d ≡ true
      → IsDownloading now s dt d
  is_downloading-IsDownloading now s dt d h =
      let held : is_entitled now s dt d ≡ true = ground arith in
      record {
        id = ground arith;
        of_tenant = ground arith;
        of_app = ground arith;
        active = ground (arith, eq_iff d.status "active");
        kept = ground arith;
        entitled = elim (Bool-cases (exists (is_licensed now dt d) s.store.licenses)) [
          | inl hit ↦ inl (
              exists-Any (IsLicensed now dt d) (is_licensed now dt d) s.store.licenses
                (is_licensed-IsLicensed now dt d) hit)
          | inr miss ↦ inr (
              exists-Any (IsSubscribed now dt d) (is_subscribed now dt d) s.store.subscriptions
                (is_subscribed-IsSubscribed now dt d) (ground arith))
        ];
      }

  -- A token that may serve now, with its application and its device.
  pub record IsServing (now : ℕ) (s : Releases V) (dt : DownloadToken) : Type 0 where
    pub unused : dt.used_at ≡ none
    pub unrevoked : dt.revoked_at ≡ none
    pub unexpired : now < dt.expires_at
    pub application : Any (IsOpen dt) s.store.applications
    pub device : Any (IsDownloading now s dt) s.store.devices

  pub is_consumable-IsServing :
      (now : ℕ) (s : Releases V) (name token_hash : String) (dt : DownloadToken)
      → is_consumable now s name token_hash dt ≡ true
      → IsServing now s dt
  unfolding is_consumable
  is_consumable-IsServing now s name token_hash dt h = record {
    unused = ground arith;
    unrevoked = ground arith;
    unexpired = ground arith;
    application =
        exists-Any (IsOpen dt) (is_open_application dt) s.store.applications
          (is_open_application-IsOpen dt) (ground arith);
    device =
        exists-Any (IsDownloading now s dt) (is_downloading now s dt) s.store.devices
          (is_downloading-IsDownloading now s dt) (ground arith);
  }
