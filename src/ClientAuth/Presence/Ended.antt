-- ===== src/ClientAuth/Presence/Ended.antt =====
-- A session that its client ends.
use mathlib.Core.Option
use entitle_hub.Base.{ℕ, ◌≡◌, ◌==◌, ◌&&◌, refl, if◌then◌else◌, Bool, arith, inl, inr, Option-cases}
use entitle_hub.Base.Json.{Json}
use entitle_hub.Base.Rows.{find, update, find-update}
use entitle_hub.Error.{Result, ok, err, session_expired}
use entitle_hub.Store.{Store}
use entitle_hub.Store.Sessions.{find_session_by_id, revoke_session, is_live_session, revoke}
use entitle_hub.ClientAuth.{ClientContext, ClientAccessClaims, require_client_session}
use entitle_hub.ClientAuth.Presence.{logout}

module _ {V : Type 0} (J : Json V) where
  -- After a logout every request whose token names the session is refused as expired, at any time,
  -- whether or not the logout was the one that revoked the session.
  pub logout-locks_out :
      (now later : ℕ) (limiter : Result (Unit {0})) (s t : Store V) (client : ClientContext V)
      (revoked : Bool) (claims : ClientAccessClaims)
      → logout now limiter s client ≡ ok (revoked, t)
      → claims.session_id ≡ client.session_id
      → require_client_session J later t claims ≡ err (session_expired "session expired")
  unfolding logout require_client_session revoke_session find_session_by_id
  logout-locks_out now later limiter s t client revoked claims h named =
      let rows : t.sessions
          ≡ update (λ c. c.id == client.session_id && is_live_session c) (revoke now) s.sessions =
        ground arith in
      let looked : find (λ c. c.id == client.session_id) t.sessions
          ≡ Option.map (λ c. if is_live_session c then revoke now c else c)
              (find (λ c. c.id == client.session_id) s.sessions) =
        rw rows (
          find-update (λ c. c.id == client.session_id) is_live_session (revoke now) s.sessions
            (λ c. refl)) in
      rw named (elim (Option-cases (find (λ c. c.id == client.session_id) s.sessions)) [
        | inl e ↦ ground arith
        | inr (c, e) ↦ elim (Option-cases c.revoked_at) [
          | inl live ↦ ground arith
          | inr (at, gone) ↦ ground arith
        ]
      ])
