-- ===== src/Account/Refresh/Reuse.antt =====
-- A refresh token of an administrator is exchanged once; its second use ends the session.
use entitle_hub.Base.{
  ℕ, ◌+◌, ◌≡◌, ◌∷◌, refl, ap, Bool, true, false, ◌&&◌, Option, some, none, String, arith, ◌==◌, inl,
  inr, List, Option-cases, ltb,
}
use entitle_hub.Base.Rows.{find, exists, update, exists-update-gone, found-exists, find-true}
use entitle_hub.Base.Spent.{changed_key}
use entitle_hub.Error.{ok, err, refresh_reuse_detected, session_expired}
use entitle_hub.Account.{
  Accounts, AdminSession, AdminRefreshToken, is_fresh, is_live, mark_admin_refresh_token_used,
  create_admin_refresh_token, extend_admin_session, update_session_user_agent, revoke_admin_session,
  revoke_refresh_tokens_for_session, revoked_session,
}
use entitle_hub.Account.Gate.{require_admin_session, load_session, joined}
use entitle_hub.Account.Refresh.{Renewal, Next, commit_renewal, end_session}

-- A session that was ended passes no gate.
end_session-locks_out :
    (permissions_of : ℕ → ℕ → List String) (now later : ℕ) (a : Accounts) (session_id : ℕ)
    → require_admin_session permissions_of later (end_session now a session_id) (some session_id)
      ≡ err (session_expired "session expired")
unfolding require_admin_session load_session joined revoke_admin_session
    revoke_refresh_tokens_for_session
end_session-locks_out permissions_of now later a session_id =
    let test : AdminSession → Bool =
      λ s. s.id == session_id && is_live s && ltb later s.expires_at in
    let ended : AdminSession → Bool = λ s. s.id == session_id && is_live s in
    let rows = update ended (revoked_session now) a.sessions in
    let gone : exists ended rows ≡ false =
      exists-update-gone ended ended (revoked_session now) a.sessions (λ s. ground arith)
        (λ s. refl) in
    elim (Option-cases (find test rows)) [
      | inl e ↦ ground arith
      | inr (s, e) ↦
          absurd (ground (arith, found-exists test ended rows s e gone, find-true test rows s e))
    ]

-- What a commit that succeeds says of the table of tokens.
commit_renewal-tokens :
    (ttl now : ℕ) (a t : Accounts) (next : Next) (agent : Option String) (p : Renewal)
    (session : AdminSession)
    → commit_renewal ttl now a next agent p ≡ (t, ok session)
    → let test : AdminRefreshToken → Bool = λ k. k.id == p.stored_token.id && is_fresh k in
      let rows = update test (λ k. record k { used_at = some now }) a.refresh_tokens in
      (exists test a.refresh_tokens ≡ true)
      × (exists (λ k. k.id == next.id) rows ≡ false)
      × ((k : AdminRefreshToken) × (k.id ≡ next.id) × (t.refresh_tokens ≡ k ∷ rows))
unfolding commit_renewal mark_admin_refresh_token_used create_admin_refresh_token
    extend_admin_session update_session_user_agent
commit_renewal-tokens ttl now a t next agent p session h =
    elim (Option-cases (find (λ s. s.id == p.session.id && is_live s) a.sessions)) [
      | inl e ↦ absurd (ground arith)
      | inr (s, e) ↦ (
        ground arith,
        ground arith,
        (
          record {
            id = next.id;
            session_id = p.session.id;
            token_hash = p.token_hash;
            created_at = now;
            expires_at = now + ttl;
            used_at = none;
            revoked_at = none;
          },
          refl,
          ground arith,
        ),
      )
    ]

-- Of two requests that hold the same refresh token, both checked before either commits, the second
-- to commit, right after the first, is refused as a reuse; after that no request with the session
-- of the token passes the gate.
pub commit_renewal-once :
    (permissions_of : ℕ → ℕ → List String) (ttl now later last : ℕ) (a t : Accounts)
    (next other : Next) (agent agent' : Option String) (p q : Renewal) (session : AdminSession)
    → commit_renewal ttl now a next agent p ≡ (t, ok session)
    → q.stored_token ≡ p.stored_token
    → ((commit_renewal ttl later t other agent' q).1
        ≡ err (refresh_reuse_detected "refresh token reuse detected"))
      × (require_admin_session permissions_of last
            (commit_renewal ttl later t other agent' q).0
            (some p.stored_token.session_id)
          ≡ err (session_expired "session expired"))
unfolding commit_renewal mark_admin_refresh_token_used exists
commit_renewal-once permissions_of ttl now later last a t next other agent agent' p q session h
      same =
    let test : AdminRefreshToken → Bool = λ k. k.id == p.stored_token.id && is_fresh k in
    let mark : AdminRefreshToken → AdminRefreshToken = λ k. record k { used_at = some now } in
    let rows = update test mark a.refresh_tokens in
    let (there, new, (k, id, left)) = commit_renewal-tokens ttl now a t next agent p session h in
    let spent : exists test rows ≡ false =
      exists-update-gone test test mark a.refresh_tokens (λ k. ground arith) (λ k. refl) in
    let apart =
      changed_key AdminRefreshToken.id test mark p.stored_token.id next.id a.refresh_tokens
        (λ k. refl) (λ k hit. ground arith) there new in
    let gone : exists test t.refresh_tokens ≡ false = rw left (ground arith) in
    let second : commit_renewal ttl later t other agent' q ≡ (
      end_session later t p.stored_token.session_id,
      err (refresh_reuse_detected "refresh token reuse detected"),
    ) =
      rw same (rw gone refl) in
    (
      ap (λ r. r.1) second,
      rw second (end_session-locks_out permissions_of later last t p.stored_token.session_id),
    )
