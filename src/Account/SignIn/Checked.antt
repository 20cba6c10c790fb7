-- ===== src/Account/SignIn/Checked.antt =====
-- What a login of an administrator checks, and that a recovery code serves once.
use entitle_hub.Base.{
  ap, ◌∙◌, ℕ, ◌≡◌, refl, sym, Bool, true, false, Option, some, List, [], ◌∷◌, String, arith,
  Option-cases, Bool-cases, inl, inr, eq_iff,
}
use entitle_hub.Base.Rows.{find, count, select, take, exists-update-gone}
use entitle_hub.Error.{Result, Result-cases, ok}
use entitle_hub.Store.{Tenant}
use entitle_hub.Account.{Accounts, TeamMember}
use entitle_hub.Account.Gate.{tenant_of}
use entitle_hub.Account.SignIn.{
  Checks, check_password, check_mfa, find_login_candidates, the_only, is_candidate,
  verify_member_mfa_code, use_recovery_code, is_unused_code, given_code,
}

-- A code that a check uses up is not accepted by a second check.
pub use_recovery_code-once :
    (now later : ℕ) (a : Accounts) (m : TeamMember) (code_hash : String)
    → (use_recovery_code later (use_recovery_code now a m code_hash).0 m code_hash).1 ≡ false
unfolding use_recovery_code
use_recovery_code-once now later a m code_hash =
    exists-update-gone (is_unused_code m code_hash) (is_unused_code m code_hash)
      (λ c. record c { used_at = some now }) a.recovery_codes (λ c. ground arith) (λ c. refl)

only_row :
    (rows : List TeamMember) (m : TeamMember) → the_only (take 2 rows) ≡ some m → rows ≡ m ∷ []
unfolding the_only take
only_row [] m h = absurd (ground arith)
only_row (n ∷ []) m h = ground arith
only_row (n ∷ k ∷ rows) m h = absurd (ground arith)

none_selected :
    (p : TeamMember → Bool) (rows : List TeamMember) → select p rows ≡ [] → count p rows ≡ 0
unfolding select count
none_selected p [] h = refl
none_selected p (n ∷ rows) h = ground (arith, none_selected p rows)

-- The only row of a selection is what a lookup finds.
selected_only :
    (p : TeamMember → Bool) (rows : List TeamMember) (m : TeamMember)
    → select p rows ≡ m ∷ []
    → (find p rows ≡ some m) × (count p rows ≡ 1)
unfolding select find count
selected_only p [] m h = absurd (ground arith)
selected_only p (n ∷ rows) m h = elim (Bool-cases (p n)) [
  | inl hit ↦ ground (arith, none_selected p rows)
  | inr miss ↦ ground (arith, selected_only p rows m)
]

-- The checks of a password, read off their success.
pub check_password-checked :
    (checks : Checks) (a : Accounts) (email password : String) (m : TeamMember)
    → check_password checks a email password ≡ ok m
    → (tenant : Tenant) × (find (is_candidate checks.lower a email) a.members ≡ some m)
      × (count (is_candidate checks.lower a email) a.members ≡ 1)
      × (tenant_of a m.tenant_id ≡ some tenant)
      × (m.status ≡ "active")
      × (tenant.status ≡ "active")
      × (checks.verify_password password m.password_hash ≡ ok true)
unfolding check_password find_login_candidates
check_password-checked checks a email password m h =
    let rows = take 2 (select (is_candidate checks.lower a email) a.members) in
    elim (Option-cases (the_only rows)) [
      | inl e ↦ absurd (ground arith)
      | inr (n, e) ↦ elim (Option-cases (tenant_of a n.tenant_id)) [
        | inl k ↦ absurd (ground arith)
        | inr (tenant, k) ↦ elim (Result-cases (checks.verify_password password n.password_hash)) [
          | inr (e', l) ↦ absurd (ground arith)
          | inl (verified, l) ↦
              let same : n ≡ m = ground arith in
              let passed : verified ≡ true = ground arith in
              let (found, one) =
                selected_only (is_candidate checks.lower a email) a.members n
                  (only_row (select (is_candidate checks.lower a email) a.members) n e) in
              (
                tenant,
                found ∙ ap some same,
                one,
                ap (λ x. tenant_of a x.tenant_id) (sym same) ∙ k,
                ground (arith, eq_iff n.status "active"),
                ground (arith, eq_iff tenant.status "active"),
                ap (λ x. checks.verify_password password x.password_hash) (sym same)
                    ∙ l
                    ∙ ap ok passed,
              )
        ]
      ]
    ]

-- What the check of a second factor can change: which recovery codes are used.
pub record IsKept (a b : Accounts) : Type 0 where
  pub tenants : b.tenants ≡ a.tenants
  pub members : b.members ≡ a.members
  pub sessions : b.sessions ≡ a.sessions

verify_member_mfa_code-IsKept :
    (checks : Checks) (now : ℕ) (a : Accounts) (m : TeamMember) (code : String)
    → IsKept a (verify_member_mfa_code checks now a m code).0
unfolding verify_member_mfa_code use_recovery_code
verify_member_mfa_code-IsKept checks now a m code = elim (Option-cases m.mfa_secret_encrypted) [
  | inl e ↦ record { tenants = ground arith; members = ground arith; sessions = ground arith }
  | inr (secret, e) ↦ elim (Result-cases (checks.verify_totp secret code)) [
    | inr (e', k) ↦ record {
      tenants = ground arith;
      members = ground arith;
      sessions = ground arith;
    }
    | inl (passed, k) ↦ elim (Option-cases (checks.normalize_recovery_code code)) [
      | inl l ↦ elim (Bool-cases passed) [
        | inl p ↦ record { tenants = ground arith; members = ground arith; sessions = ground arith }
        | inr p ↦ record { tenants = ground arith; members = ground arith; sessions = ground arith }
      ]
      | inr (recovery, l) ↦ elim (Result-cases (checks.hash_code recovery)) [
        | inr (e', n) ↦ record {
          tenants = ground arith;
          members = ground arith;
          sessions = ground arith;
        }
        | inl (code_hash, n) ↦ record {
          tenants = ground arith;
          members = ground arith;
          sessions = ground arith;
        }
      ]
    ]
  ]
]

-- A member with a second factor passes with an accepted code only.
abbrev Accepted : Checks → ℕ → Accounts → TeamMember → Option String → Type 0
Accepted checks now a m mfa_code =
    m.mfa_enabled ≡ true
    → (code : String) × (given_code mfa_code ≡ ok code)
      × ((verify_member_mfa_code checks now a m code).1 ≡ ok true)

pub check_mfa-Accepted :
    (checks : Checks) (now : ℕ) (a b : Accounts) (m : TeamMember) (limiter : Result (Unit {0}))
    (mfa_code : Option String)
    → check_mfa checks now a m limiter mfa_code ≡ (b, ok tt)
    → IsKept a b × Accepted checks now a m mfa_code
unfolding check_mfa
check_mfa-Accepted checks now a b m limiter mfa_code h = elim (Bool-cases m.mfa_enabled) [
  | inr off ↦ (
    record { tenants = ground arith; members = ground arith; sessions = ground arith },
    λ on. absurd (ground arith),
  )
  | inl on ↦ elim (Result-cases (given_code mfa_code)) [
    | inr (e, k) ↦ absurd (ground arith)
    | inl (code, k) ↦
        let kept = verify_member_mfa_code-IsKept checks now a m code in
        elim (Result-cases (verify_member_mfa_code checks now a m code).1) [
          | inr (e, l) ↦ absurd (ground arith)
          | inl (passed, l) ↦
              let same : b ≡ (verify_member_mfa_code checks now a m code).0 = ground arith in
              let accepted : passed ≡ true = ground arith in
              (rw same kept, λ on'. (code, k, l ∙ ap ok accepted))
        ]
  ]
]
