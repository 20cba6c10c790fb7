-- ===== src/ClientAuth/Reuse.antt =====
-- The rotation of refresh tokens: a token gives one successor, and its second use is detected.
use entitle_hub.Base.{
  ℕ, ◌+◌, ◌≡◌, refl, true, false, ◌&&◌, Option, some, String, arith, ==_refl, ◌==◌, List, [], ◌∷◌,
  str_eq, eq_iff, inl, inr, Option-cases,
}
use entitle_hub.Base.Json.{Json}
use entitle_hub.Base.Text.{trim}
use entitle_hub.Base.Rows.{
  find, exists, update, exists-update-gone, find-update-if, found-exists, find-true,
}
use entitle_hub.Error.{Result, Result-cases, ok, err, refresh_reuse_detected}
use entitle_hub.Session.{ClientRefreshToken, new_client_refresh_token}
use entitle_hub.Store.{Store}
use entitle_hub.Store.Sessions.{
  token_row, is_unused, is_live_session, revoke, revoke_session, mark_refresh_token_used,
  create_client_refresh_token, find_refresh_token_by_hash, find_session_by_id,
}
use entitle_hub.ClientAuth.Refresh.{
  TokenTtls, Generated, Signer, Prepared, RefreshResponse, commit_refresh, prepare_refresh, refresh,
}

-- A mark leaves a row with the identifier of the token it marks.
mark-keeps :
    (id other now : ℕ) (rows : List ClientRefreshToken)
    → exists (λ t. t.id == id && is_unused t) rows ≡ true
    → exists
        (λ u. u.id == other)
        (update (λ t. t.id == id && is_unused t) (λ t. record t { used_at = some now }) rows)
      ≡ false
    → (other == id) ≡ false
unfolding exists update
mark-keeps id other now [] h k = cc
mark-keeps id other now (t ∷ rows) h k = ground (arith, mark-keeps id other now rows)

-- A token that is found under its hash is found marked, behind a successor with another hash.
found-marked :
    (now : ℕ) (key : String) (token successor : ClientRefreshToken) (rows : List ClientRefreshToken)
    → find (λ u. str_eq u.token_hash key) rows ≡ some token
    → is_unused token ≡ true
    → exists
        (λ u. str_eq u.token_hash successor.token_hash)
        (update (λ u. u.id == token.id && is_unused u) (λ u. record u { used_at = some now }) rows)
      ≡ false
    → find
        (λ u. str_eq u.token_hash key)
        (successor
          ∷ update
              (λ u. u.id == token.id && is_unused u)
              (λ u. record u { used_at = some now })
              rows)
      ≡ some (record token { used_at = some now })
unfolding find
found-marked now key token successor rows found unused fresh =
    let mark : ClientRefreshToken → ClientRefreshToken = λ u. record u { used_at = some now } in
    let at =
      find-update-if (λ u. str_eq u.token_hash key) (λ u. u.id == token.id && is_unused u) mark rows
        (λ u. refl) in
    ground (
      arith,
      ==_refl token.id,
      eq_iff token.token_hash key,
      eq_iff successor.token_hash key,
      eq_iff token.token_hash successor.token_hash,
      find-true (λ u. str_eq u.token_hash key) rows token,
      found-exists (λ u. str_eq u.token_hash key) (λ u. str_eq u.token_hash successor.token_hash)
          (update (λ u. u.id == token.id && is_unused u) mark rows) (mark token),
    )

module _ {V : Type 0} (J : Json V) (ttls : TokenTtls) where
  -- Of two requests that hold the same refresh token, both checked before either commits, the
  -- second to commit, right after the first, is refused as a reuse, and its session is revoked.
  pub commit_refresh-once :
      (next other : Generated) (now later : ℕ) (s t : Store V) (p q : Prepared V)
      (r : RefreshResponse V)
      → q.stored_token.id ≡ p.stored_token.id
      → commit_refresh J ttls next now s p ≡ (t, ok r)
      → commit_refresh J ttls other later t q ≡ (
        revoke_session later t q.session.id,
        err (refresh_reuse_detected "refresh token reuse detected"),
      )
  unfolding commit_refresh mark_refresh_token_used create_client_refresh_token exists
  commit_refresh-once next other now later s t p q r same h = ground (
    arith,
    mark-keeps p.stored_token.id next.id now s.refresh_tokens,
    exists-update-gone (λ t. t.id == p.stored_token.id && is_unused t)
        (λ t. t.id == p.stored_token.id && is_unused t) (λ t. record t { used_at = some now })
        s.refresh_tokens (λ t. ground arith) (λ t. refl),
  )

  -- A refresh token that was exchanged is refused as a reuse when it comes right back, where the
  -- second request passes the rate limiter, and no session with the identifier of the response is
  -- live after that.
  pub refresh-replay :
      (hash : String → Result String) (limiter limiter' : Option ℕ → Result (Unit {0}))
      (signer signer' : Result Signer) (next other : Generated) (now later : ℕ) (s t : Store V)
      (text : String) (r : RefreshResponse V)
      → ((session : Option ℕ) → limiter' session ≡ ok tt)
      → refresh J ttls hash limiter signer next now s text ≡ (t, ok r)
      → (refresh J ttls hash limiter' signer' other later t text).1
          ≡ err (refresh_reuse_detected "refresh token reuse detected")
        × (exists
              (λ c. c.id == r.session_id && is_live_session c)
              (refresh J ttls hash limiter' signer' other later t text).0.sessions
            ≡ false)
  unfolding refresh prepare_refresh commit_refresh mark_refresh_token_used find_session_by_id
      create_client_refresh_token find_refresh_token_by_hash revoke_session find
  refresh-replay hash limiter limiter' signer signer' next other now later s t text r free h =
      elim (Result-cases (hash (trim text))) [
        | inr (e, hashed) ↦ ground arith
        | inl (key, hashed) ↦
            elim (Option-cases (find (λ u. str_eq u.token_hash key) s.refresh_tokens)) [
              | inl found ↦ ground arith
              | inr (token, found) ↦
                  elim (Option-cases (find (λ c. c.id == token.session_id) s.sessions)) [
                    | inl e ↦ ground (arith, free (some token.session_id))
                    | inr (session, e) ↦ elim (Result-cases (hash next.token)) [
                      | inr (e', hashed') ↦ ground (arith, free (some token.session_id))
                      | inl (key', hashed') ↦
                          let successor = token_row now (
                            new_client_refresh_token next.id session.id key'
                              (now + ttls.refresh)) in
                          ground (
                            arith,
                            free (some token.session_id),
                            found-marked now key token successor s.refresh_tokens,
                            exists-update-gone (λ c. c.id == session.id && is_live_session c)
                                (λ c. c.id == session.id && is_live_session c) (revoke later)
                                s.sessions (λ c. ground arith) (λ c. refl),
                          )
                    ]
                  ]
            ]
      ]
