-- ===== src/ClientAuth/Recovery/Laws.antt =====
-- What the reset of a customer's password leaves: the password, the sessions and the token.
use mathlib.Core.Option
use entitle_hub.Base.{
  ap, ◌∙◌, sym, refl, ℕ, ◌≤◌, ◌≡◌, Bool, true, false, ◌&&◌, some, none, String, str_eq, ◌==◌, arith,
  ==_refl, Option-cases, inl, inr,
}
use entitle_hub.Base.Json.{Json}
use entitle_hub.Base.Rows.{
  find, exists, count, update, exists-update-gone, found-exists, find-true, find-update-same,
}
use entitle_hub.Base.Spent.{find_spent_row}
use entitle_hub.Error.{Result-cases, ok, err, session_expired}
use entitle_hub.Customer.{Customer}
use entitle_hub.Session.{ClientSession}
use entitle_hub.Store.{Store}
use entitle_hub.Store.Sessions.{find_session_by_id, is_live_session, revoke}
use entitle_hub.Account.{OneTimeToken, is_active_token, consume_token}
use entitle_hub.Account.Password.{Secrets, normalize_token, validate_new_password}
use entitle_hub.ClientAuth.{ClientAccessClaims, require_client_session}
use entitle_hub.ClientAuth.Recovery.{
  CustomerAccounts, CustomerPasswordResetConfirmRequest, confirm_customer_password_reset,
  find_active_password_reset_token, find_customer, update_customer, with_password, is_customer,
  is_password_token, is_session_of_customer, revoke_customer_sessions,
  revoke_customer_refresh_tokens, no_reset,
}

module _ {V : Type 0} where
  -- The parts of a reset that succeeds.
  record IsRenewed (x : Secrets) (now : ℕ) (a t : CustomerAccounts V)
      (payload : CustomerPasswordResetConfirmRequest) : Type 0 where
    token : String
    token_hash : String
    password_hash : String
    subject : OneTimeToken
    tenant_id : ℕ
    customer_id : ℕ
    customer : Customer
    normal : normalize_token payload.token ≡ ok token
    strong : validate_new_password x payload.new_password ≡ ok tt
    hashed : x.hash_token token ≡ ok token_hash
    hashed_password : x.hash_password payload.new_password ≡ ok password_hash
    found : find_active_password_reset_token now a token_hash ≡ ok subject
    of_tenant : subject.tenant_id ≡ some tenant_id
    of_subject : subject.subject_id ≡ some customer_id
    of_customer : find (is_customer tenant_id customer_id) a.customers ≡ some customer
    customers :
        t.customers
        ≡ update (is_customer tenant_id customer_id) (with_password password_hash) a.customers
    consumed : consume_token now a.one_time_tokens subject.id no_reset ≡ ok t.one_time_tokens
    sessions :
        t.store.sessions
        ≡ update
            (λ c. is_session_of_customer tenant_id customer_id c && is_live_session c)
            (revoke now)
            a.store.sessions

  confirm-IsRenewed :
      (x : Secrets) (now : ℕ) (a t : CustomerAccounts V)
      (payload : CustomerPasswordResetConfirmRequest)
      → confirm_customer_password_reset x now a payload ≡ ok t
      → IsRenewed x now a t payload
  unfolding confirm_customer_password_reset find_customer update_customer revoke_customer_sessions
      revoke_customer_refresh_tokens
  confirm-IsRenewed x now a t payload h = elim (Result-cases (normalize_token payload.token)) [
    | inr (e', k) ↦ absurd (ground arith)
    | inl (token, k) ↦ elim (Result-cases (x.hash_token token)) [
      | inr (e', l) ↦ absurd (ground arith)
      | inl (token_hash, l) ↦ elim (Result-cases (x.hash_password payload.new_password)) [
        | inr (e', m) ↦ absurd (ground arith)
        | inl (password_hash, m) ↦
            elim (Result-cases (find_active_password_reset_token now a token_hash)) [
              | inr (e', n) ↦ absurd (ground arith)
              | inl (subject, n) ↦ elim (Option-cases subject.tenant_id) [
                | inl o ↦ absurd (ground arith)
                | inr (tenant_id, o) ↦ elim (Option-cases subject.subject_id) [
                  | inl p ↦ absurd (ground arith)
                  | inr (customer_id, p) ↦
                      elim (Option-cases (find (is_customer tenant_id customer_id) a.customers)) [
                        | inl q ↦ absurd (ground arith)
                        | inr (customer, q) ↦
                            elim (Result-cases
                              (consume_token now a.one_time_tokens subject.id no_reset)) [
                                | inr (e', r) ↦ absurd (ground arith)
                                | inl (tokens, r) ↦
                                    let left : t.one_time_tokens ≡ tokens = ground arith in
                                    record {
                                      token = token;
                                      token_hash = token_hash;
                                      password_hash = password_hash;
                                      subject = subject;
                                      tenant_id = tenant_id;
                                      customer_id = customer_id;
                                      customer = customer;
                                      normal = k;
                                      strong = ground arith;
                                      hashed = l;
                                      hashed_password = m;
                                      found = n;
                                      of_tenant = o;
                                      of_subject = p;
                                      of_customer = q;
                                      customers = ground arith;
                                      consumed = r ∙ ap ok (sym left);
                                      sessions = ground arith;
                                    }
                              ]
                      ]
                ]
              ]
            ]
      ]
    ]
  ]

  -- A customer's session is refused once those sessions are revoked.
  revoked-locks_out :
      (J : Json V) (now later : ℕ) (s t : Store V) (tenant_id customer_id : ℕ)
      (claims : ClientAccessClaims) (session : ClientSession)
      → t.sessions
        ≡ update
            (λ c. is_session_of_customer tenant_id customer_id c && is_live_session c)
            (revoke now)
            s.sessions
      → find_session_by_id t claims.session_id ≡ some session
      → is_session_of_customer tenant_id customer_id session ≡ true
      → require_client_session J later t claims ≡ err (session_expired "session expired")
  unfolding require_client_session find_session_by_id
  revoked-locks_out J now later s t tenant_id customer_id claims session left found own =
      let ended : ClientSession → Bool =
        λ c. is_session_of_customer tenant_id customer_id c && is_live_session c in
      let gone : exists ended t.sessions ≡ false =
        rw left (
          exists-update-gone ended ended (revoke now) s.sessions (λ c. ground arith) (λ c. refl)) in
      let away =
        found-exists (λ c. c.id == claims.session_id) ended t.sessions session found gone in
      ground arith

  spent_reset :
      (now later : ℕ) (a t : CustomerAccounts V) (token_hash : String) (subject : OneTimeToken)
      → count (λ k. str_eq k.token_hash token_hash) a.one_time_tokens ≤ 1
      → find_active_password_reset_token now a token_hash ≡ ok subject
      → consume_token now a.one_time_tokens subject.id no_reset ≡ ok t.one_time_tokens
      → find_active_password_reset_token later t token_hash ≡ err no_reset
  unfolding find_active_password_reset_token consume_token
  spent_reset now later a t token_hash subject one found consumed =
      let at : find (is_password_token now token_hash) a.one_time_tokens ≡ some subject =
        ground arith in
      let own = find-true (is_password_token now token_hash) a.one_time_tokens subject at in
      let spend : OneTimeToken → OneTimeToken = λ k. record k { consumed_at = some now } in
      let spent : OneTimeToken → Bool = λ k. k.id == subject.id && is_active_token now k in
      let rows : t.one_time_tokens ≡ update spent spend a.one_time_tokens = ground arith in
      let hit : spent subject ≡ true = ground (arith, ==_refl subject.id) in
      let gone : find (is_password_token later token_hash) t.one_time_tokens ≡ none = rw rows (
        find_spent_row (λ k. str_eq k.token_hash token_hash) (is_password_token now token_hash)
          (is_password_token later token_hash) spent spend a.one_time_tokens subject
          (λ k p. ground arith) (λ k p. ground arith) (λ k. ground arith) one at hit) in
      ground arith

  -- The customer whom an active token names.
  pub record NamesCustomer (x : Secrets) (now : ℕ) (a : CustomerAccounts V) (given : String)
      (tenant_id customer_id : ℕ) : Type 0 where
    pub token : String
    pub token_hash : String
    pub subject : OneTimeToken
    pub normal : normalize_token given ≡ ok token
    pub hashed : x.hash_token token ≡ ok token_hash
    pub found : find_active_password_reset_token now a token_hash ≡ ok subject
    pub of_tenant : subject.tenant_id ≡ some tenant_id
    pub of_subject : subject.subject_id ≡ some customer_id

  -- A reset of a customer's password that succeeds sets the hash of the new password for the
  -- customer that the token names and ends the customer's access: every request whose token names a
  -- session that stands for that customer is refused as expired. The token itself is refused as
  -- invalid ever after, where no two tokens have the same hash.
  pub confirm_customer_password_reset-once :
      (J : Json V) (x : Secrets) (now : ℕ) (a t : CustomerAccounts V)
      (payload : CustomerPasswordResetConfirmRequest)
      → confirm_customer_password_reset x now a payload ≡ ok t
      → ((token_hash : String) → count (λ k. str_eq k.token_hash token_hash) a.one_time_tokens ≤ 1)
      → (tenant_id : ℕ) × (customer_id : ℕ) × (c : Customer) × (hash : String) × NamesCustomer x now
          a payload.token tenant_id customer_id
        × (x.hash_password payload.new_password ≡ ok hash)
        × (find_customer t.customers tenant_id customer_id ≡ ok c)
        × (c.password_hash ≡ some hash)
        × ((later : ℕ) (claims : ClientAccessClaims) (session : ClientSession)
            → find_session_by_id t.store claims.session_id ≡ some session
            → is_session_of_customer tenant_id customer_id session ≡ true
            → require_client_session J later t.store claims
              ≡ err (session_expired "session expired"))
        × ((later : ℕ) → confirm_customer_password_reset x later t payload ≡ err no_reset)
  unfolding confirm_customer_password_reset find_customer
  confirm_customer_password_reset-once J x now a t payload h unique =
      let r = confirm-IsRenewed x now a t payload h in
      let change = with_password r.password_hash in
      let test = is_customer r.tenant_id r.customer_id in
      let looked : find test t.customers ≡ some (change r.customer) = rw r.customers (
        find-update-same test change a.customers (λ c. refl)
        ∙ ap (Option.map change) r.of_customer) in
      (
        r.tenant_id,
        r.customer_id,
        change r.customer,
        r.password_hash,
        record {
          token = r.token;
          token_hash = r.token_hash;
          subject = r.subject;
          normal = r.normal;
          hashed = r.hashed;
          found = r.found;
          of_tenant = r.of_tenant;
          of_subject = r.of_subject;
        },
        r.hashed_password,
        rw looked refl,
        refl,
        λ later claims session.
            revoked-locks_out J now later a.store t.store r.tenant_id r.customer_id claims session
              r.sessions,
        λ later. rw r.normal (
            rw r.strong (
              rw r.hashed (
                rw r.hashed_password (
                  rw
                    (spent_reset now later a t r.token_hash r.subject (unique r.token_hash) r.found
                      r.consumed)
                    refl)))),
      )
