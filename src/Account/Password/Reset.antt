-- ===== src/Account/Password/Reset.antt =====
-- What a reset of a password leaves: the sessions that pass the gate, and the token.
use mathlib.Core.Option
use entitle_hub.Base.{
  ap, ◌∙◌, ℕ, ◌≤◌, ◌≡◌, refl, sym, Bool, true, false, ◌&&◌, Option, some, none, List, String,
  str_eq, ◌==◌, arith, ==_refl, Option-cases, inl, inr,
}
use entitle_hub.Base.Rows.{find, count, update, find-true, find-update-same, unfound-exists}
use entitle_hub.Base.Spent.{find_spent_row}
use entitle_hub.Error.{Result-cases, ok, err}
use entitle_hub.Admin.{AdminContext}
use entitle_hub.Account.{
  Accounts, TeamMember, OneTimeToken, is_member, find_member, revoke_admin_sessions,
  revoke_admin_refresh_tokens, is_active_token, consume_token,
}
use entitle_hub.Account.Gate.{require_admin_session}
use entitle_hub.Account.Password.{
  Secrets, PasswordResetConfirmRequest, revoke_all, confirm_password_reset, update_member_password,
  find_active_reset_subject, is_reset_token, invalid_token, normalize_token, validate_new_password,
}
use entitle_hub.Account.Password.Revoked.{revoke_all-passes}

-- The parts of a reset that succeeds.
record IsReset (x : Secrets) (now : ℕ) (a t : Accounts) (payload : PasswordResetConfirmRequest)
    : Type 0 where
  token : String
  token_hash : String
  password_hash : String
  subject : OneTimeToken
  tenant_id : ℕ
  member_id : ℕ
  changed : Accounts
  tokens : List OneTimeToken
  normal : normalize_token payload.token ≡ ok token
  hashed : x.hash_token token ≡ ok token_hash
  hashed_password : x.hash_password payload.new_password ≡ ok password_hash
  found : find_active_reset_subject now a token_hash ≡ ok subject
  of_tenant : subject.tenant_id ≡ some tenant_id
  of_member : subject.subject_id ≡ some member_id
  updated : update_member_password a tenant_id member_id password_hash ≡ ok changed
  consumed : consume_token now changed.one_time_tokens subject.id invalid_token ≡ ok tokens
  left : t ≡ revoke_all now (record changed { one_time_tokens = tokens }) tenant_id member_id none

confirm_password_reset-IsReset :
    (x : Secrets) (now : ℕ) (a t : Accounts) (payload : PasswordResetConfirmRequest)
    → confirm_password_reset x now a payload ≡ ok t
    → IsReset x now a t payload
unfolding confirm_password_reset
confirm_password_reset-IsReset x now a t payload h =
    elim (Result-cases (normalize_token payload.token)) [
      | inr (e', k) ↦ absurd (ground arith)
      | inl (token, k) ↦ elim (Result-cases (x.hash_token token)) [
        | inr (e', l) ↦ absurd (ground arith)
        | inl (token_hash, l) ↦ elim (Result-cases (x.hash_password payload.new_password)) [
          | inr (e', m) ↦ absurd (ground arith)
          | inl (password_hash, m) ↦
              elim (Result-cases (find_active_reset_subject now a token_hash)) [
                | inr (e', n) ↦ absurd (ground arith)
                | inl (subject, n) ↦ elim (Option-cases subject.tenant_id) [
                  | inl o ↦ absurd (ground arith)
                  | inr (tenant_id, o) ↦ elim (Option-cases subject.subject_id) [
                    | inl p ↦ absurd (ground arith)
                    | inr (member_id, p) ↦
                        elim (Result-cases
                          (update_member_password a tenant_id member_id password_hash)) [
                            | inr (e', q) ↦ absurd (ground arith)
                            | inl (changed, q) ↦
                                elim (Result-cases (
                                  consume_token now changed.one_time_tokens subject.id
                                    invalid_token)) [
                                      | inr (e', r) ↦ absurd (ground arith)
                                      | inl (tokens, r) ↦ (record {
                                        token = token;
                                        token_hash = token_hash;
                                        password_hash = password_hash;
                                        subject = subject;
                                        tenant_id = tenant_id;
                                        member_id = member_id;
                                        changed = changed;
                                        tokens = tokens;
                                        normal = k;
                                        hashed = l;
                                        hashed_password = m;
                                        found = n;
                                        of_tenant = o;
                                        of_member = p;
                                        updated = q;
                                        consumed = r;
                                        left = ground arith;
                                      })
                                    ]
                          ]
                  ]
                ]
              ]
        ]
      ]
    ]

-- A token that was consumed is not found again.
consumed-gone :
    (now later : ℕ) (a b : Accounts) (token_hash : String) (subject : OneTimeToken)
    (tokens : List OneTimeToken)
    → count (λ k. str_eq k.token_hash token_hash) a.one_time_tokens ≤ 1
    → find_active_reset_subject now a token_hash ≡ ok subject
    → consume_token now a.one_time_tokens subject.id invalid_token ≡ ok tokens
    → b.one_time_tokens ≡ tokens
    → find_active_reset_subject later b token_hash ≡ err invalid_token
unfolding find_active_reset_subject consume_token
consumed-gone now later a b token_hash subject tokens one found consumed left =
    let at : find (is_reset_token now token_hash) a.one_time_tokens ≡ some subject = ground arith in
    let own = find-true (is_reset_token now token_hash) a.one_time_tokens subject at in
    let spend : OneTimeToken → OneTimeToken = λ k. record k { consumed_at = some now } in
    let spent : OneTimeToken → Bool = λ k. k.id == subject.id && is_active_token now k in
    let rows : b.one_time_tokens ≡ update spent spend a.one_time_tokens = ground arith in
    let hit : spent subject ≡ true = ground (arith, ==_refl subject.id) in
    let gone : find (is_reset_token later token_hash) b.one_time_tokens ≡ none = rw rows (
      find_spent_row (λ k. str_eq k.token_hash token_hash) (is_reset_token now token_hash)
        (is_reset_token later token_hash) spent spend a.one_time_tokens subject
        (λ k p. ground arith) (λ k p. ground arith) (λ k. ground arith) one at hit) in
    ground arith

changed-hash :
    (now : ℕ) (a t changed : Accounts) (tokens : List OneTimeToken) (tenant_id member_id : ℕ)
    (hash : String)
    → update_member_password a tenant_id member_id hash ≡ ok changed
    → t ≡ revoke_all now (record changed { one_time_tokens = tokens }) tenant_id member_id none
    → (m : TeamMember) × (find_member t tenant_id member_id ≡ some m) × (m.password_hash ≡ hash)
unfolding update_member_password find_member revoke_admin_sessions revoke_admin_refresh_tokens
changed-hash now a t changed tokens tenant_id member_id hash updated left =
    let set : TeamMember → TeamMember = λ k. record k { password_hash = hash } in
    let rows : t.members ≡ update (is_member tenant_id member_id) set a.members = ground arith in
    let looked : find (is_member tenant_id member_id) t.members
        ≡ Option.map set (find (is_member tenant_id member_id) a.members) =
      rw rows (find-update-same (is_member tenant_id member_id) set a.members (λ k. refl)) in
    elim (Option-cases (find (is_member tenant_id member_id) a.members)) [
      | inl e ↦
          let gone = unfound-exists (is_member tenant_id member_id) a.members e in
          absurd (ground arith)
      | inr (k, e) ↦ (set k, ground arith, refl)
    ]

kept_tokens :
    (a changed : Accounts) (tenant_id member_id : ℕ) (hash : String)
    → update_member_password a tenant_id member_id hash ≡ ok changed
    → a.one_time_tokens ≡ changed.one_time_tokens
unfolding update_member_password
kept_tokens a changed tenant_id member_id hash h = ground arith

left_tokens :
    (now : ℕ) (t changed : Accounts) (tokens : List OneTimeToken) (tenant_id member_id : ℕ)
    → t ≡ revoke_all now (record changed { one_time_tokens = tokens }) tenant_id member_id none
    → t.one_time_tokens ≡ tokens
unfolding revoke_admin_sessions revoke_admin_refresh_tokens
left_tokens now t changed tokens tenant_id member_id h = ground arith

confirmed-strong :
    (x : Secrets) (now : ℕ) (a t : Accounts) (payload : PasswordResetConfirmRequest)
    → confirm_password_reset x now a payload ≡ ok t
    → validate_new_password x payload.new_password ≡ ok tt
unfolding confirm_password_reset
confirmed-strong x now a t payload h = ground arith

refused :
    (x : Secrets) (later : ℕ) (t : Accounts) (payload : PasswordResetConfirmRequest)
    (token token_hash password_hash : String)
    → normalize_token payload.token ≡ ok token
    → validate_new_password x payload.new_password ≡ ok tt
    → x.hash_token token ≡ ok token_hash
    → x.hash_password payload.new_password ≡ ok password_hash
    → find_active_reset_subject later t token_hash ≡ err invalid_token
    → confirm_password_reset x later t payload ≡ err invalid_token
unfolding confirm_password_reset
refused x later t payload token token_hash password_hash normal strong hashed hashed_password gone =
    ground arith

-- The member whom an active token names.
pub record NamesMember (x : Secrets) (now : ℕ) (a : Accounts) (given : String)
    (tenant_id member_id : ℕ) : Type 0 where
  pub token : String
  pub token_hash : String
  pub subject : OneTimeToken
  pub normal : normalize_token given ≡ ok token
  pub hashed : x.hash_token token ≡ ok token_hash
  pub found : find_active_reset_subject now a token_hash ≡ ok subject
  pub of_tenant : subject.tenant_id ≡ some tenant_id
  pub of_member : subject.subject_id ≡ some member_id

-- A reset that succeeds sets the new password's hash for the member that the token names and ends
-- that member's access: no request of the member passes the gate from any session that stands then.
-- The same token is refused as invalid ever after, where no two tokens have the same hash.
pub confirm_password_reset-once :
    (x : Secrets) (permissions_of : ℕ → ℕ → List String) (now : ℕ) (a t : Accounts)
    (payload : PasswordResetConfirmRequest)
    → confirm_password_reset x now a payload ≡ ok t
    → ((token_hash : String) → count (λ k. str_eq k.token_hash token_hash) a.one_time_tokens ≤ 1)
    → (tenant_id : ℕ) × (member_id : ℕ) × (m : TeamMember) × NamesMember x now a payload.token
        tenant_id member_id
      × (find_member t tenant_id member_id ≡ some m)
      × (x.hash_password payload.new_password ≡ ok m.password_hash)
      × ((later : ℕ) (cookie : Option ℕ) (client : AdminContext)
          → require_admin_session permissions_of later t cookie ≡ ok client
          → (client.tenant_id == tenant_id && client.team_member_id == member_id) ≡ false)
      × ((later : ℕ) → confirm_password_reset x later t payload ≡ err invalid_token)
confirm_password_reset-once x permissions_of now a t payload h unique =
    let r = confirm_password_reset-IsReset x now a t payload h in
    let (m, stands, hash) =
      changed-hash now a t r.changed r.tokens r.tenant_id r.member_id r.password_hash r.updated
        r.left in
    (
      r.tenant_id,
      r.member_id,
      m,
      record {
        token = r.token;
        token_hash = r.token_hash;
        subject = r.subject;
        normal = r.normal;
        hashed = r.hashed;
        found = r.found;
        of_tenant = r.of_tenant;
        of_member = r.of_member;
      },
      stands,
      r.hashed_password ∙ ap ok (sym hash),
      λ later cookie client passed.
          let gone =
            revoke_all-passes permissions_of now later
              (record r.changed { one_time_tokens = r.tokens }) r.tenant_id r.member_id none cookie
              client (rw (sym r.left) passed) in
          ground arith,
      λ later.
          refused x later t payload r.token r.token_hash r.password_hash r.normal
            (confirmed-strong x now a t payload h) r.hashed r.hashed_password
            (consumed-gone now later a t r.token_hash r.subject r.tokens (unique r.token_hash)
              r.found
              (rw (kept_tokens a r.changed r.tenant_id r.member_id r.password_hash r.updated)
                r.consumed)
              (left_tokens now t r.changed r.tokens r.tenant_id r.member_id r.left)),
    )
