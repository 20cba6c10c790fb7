-- ===== src/RateLimit/Window.antt =====
-- backend/src/rate_limit.rs: how many attempts a window lets through.
use entitle_hub.Base.{
  ℕ, zero, suc, ◌+◌, ◌-◌, ◌≤◌, ◌<◌, ◌≡◌, refl, ap, ◌∙◌, ◌⊎◌, inl, inr, Bool, false, Option, none,
  some, List, [], ◌∷◌, String, ◌==◌, ltb, leb, if◌then◌else◌, Bool-cases, arith,
}
use entitle_hub.Base.Rows.{All, All-map}
use entitle_hub.Error.{Result, ok, err, AppError, is_ok, Result-cases}
use entitle_hub.RateLimit.{Counters, check_fixed_window, after_incr, after_expire, decide}

-- What Redis holds under a key: a count, and when it expires if it does.
pub record Entry : Type 0 where
  pub value : ℕ
  pub deadline : Option ℕ

abbrev pub live_entry : ℕ → ℕ → Option ℕ → ℕ
live_entry t n none = n
live_entry t n (some d) = if ltb t d then n else 0

-- The count that a command sees at a time: 0 when the key is absent or has expired.
abbrev pub live : ℕ → Option Entry → ℕ
live t none = 0
live t (some e) = live_entry t e.value e.deadline

-- The deadline that an increment keeps.
abbrev pub kept_deadline : ℕ → ℕ → Option ℕ → Option ℕ
kept_deadline t n none = none
kept_deadline t n (some d) = if ltb t d then some d else none

abbrev pub kept : ℕ → Option Entry → Option ℕ
kept t none = none
kept t (some e) = kept_deadline t e.value e.deadline

-- The documented behaviour of INCR and EXPIRE on a key, under an account of what Redis holds. A
-- command that fails was not run, or was run and its reply was lost.
pub record IsRedis {R : Type 0} (redis : Counters R) (entry : R → String → Option Entry)
    : Type 0 where
  pub incr_counts :
      (t : ℕ) (r : R) (k : String) (n : ℕ)
      → (redis.incr t r k).0 ≡ ok n
      → (n ≡ suc (live t (entry r k)))
        × (entry (redis.incr t r k).1 k
            ≡ some (record { value = n; deadline = kept t (entry r k) }))
  pub incr_fails :
      (t : ℕ) (r : R) (k : String) (e : AppError)
      → (redis.incr t r k).0 ≡ err e
      → (entry (redis.incr t r k).1 k ≡ entry r k)
        ⊎ (entry (redis.incr t r k).1 k
            ≡ some (record { value = suc (live t (entry r k)); deadline = kept t (entry r k) }))
  pub expire_sets :
      (t : ℕ) (r : R) (k : String) (w : ℕ) (b : Bool) (e : Entry)
      → (redis.expire t r k w).0 ≡ ok b
      → entry r k ≡ some e
      → entry (redis.expire t r k w).1 k
        ≡ some (record { value = e.value; deadline = some (t + w) })
  pub expire_fails :
      (t : ℕ) (r : R) (k : String) (w : ℕ) (x : AppError) (e : Entry)
      → (redis.expire t r k w).0 ≡ err x
      → entry r k ≡ some e
      → (entry (redis.expire t r k w).1 k ≡ entry r k)
        ⊎ (entry (redis.expire t r k w).1 k
            ≡ some (record { value = e.value; deadline = some (t + w) }))

module _ {R : Type 0} (redis : Counters R) (key : String) (max window : ℕ)
    (limited : AppError) where
  abbrev pub check : ℕ → R → Result (Unit {0}) × R
  check t r = check_fixed_window redis t r key max window limited

  -- How many of the attempts at these times, one after the other, pass.
  unfoldable pub passes : List ℕ → R → ℕ
  passes [] r = 0
  passes (t ∷ ts) r =
      let rest = passes ts (check t r).1 in if is_ok (check t r).0 then suc rest else rest

-- A key keeps its count `n` at every time before `until`, and has one unless the count is 0.
abbrev Holds : ℕ → ℕ → Option Entry → Type 0
Holds until n none = n ≡ 0
Holds until n (some e) = record {
  counted : e.value ≡ n;
  open_until : (e.deadline ≡ none) ⊎ ((d : ℕ) × (e.deadline ≡ some d) × (until ≤ d));
}

live-Holds : (until n t : ℕ) (e : Option Entry) → Holds until n e → t < until → live t e ≡ n
live-Holds until n t e h early = ground arith

kept-Holds :
    (until n t : ℕ) (e : Option Entry)
    → Holds until n e
    → t < until
    → Holds until (suc n) (some (record { value = suc n; deadline = kept t e }))
kept-Holds until n t e h early = ground arith

later :
    (n until window m u : ℕ)
    → n ≤ m
    → (1 ≤ n) ⊎ (until ≤ u + window)
    → (1 ≤ m) ⊎ (until ≤ u + window)
later n until window m u more (inl h) = inl (omega arith)
later n until window m u more (inr h) = inr h

module _ {R : Type 0} (redis : Counters R) (entry : R → String → Option Entry) (key : String)
    (max window : ℕ) (limited : AppError) (laws : IsRedis redis entry) where
  abbrev Step : ℕ → ℕ → Result (Unit {0}) × R → Type 0
  Step until n (result, r) =
      (m : ℕ) × Holds until m (entry r key)
      × (n ≤ m)
      × ((is_ok result ≡ false) ⊎ ((m ≡ suc n) × (m ≤ max)))

  decide-Step :
      (until n : ℕ) (r : R)
      → Holds until (suc n) (entry r key)
      → Step until n (decide redis limited max (suc n) r)
  decide-Step until n r held = elim (Bool-cases (ltb max (suc n))) [
    | inl over ↦ rw over (suc n, held, omega arith, inl refl)
    | inr within ↦ rw within (suc n, held, omega arith, inr (refl, ground arith))
  ]

  after_expire-Step :
      (until n : ℕ) (reply : Result Bool) (r : R)
      → Holds until (suc n) (entry r key)
      → Step until n (after_expire redis limited max (suc n) reply r)
  after_expire-Step until n (err e) r held = (suc n, held, omega arith, inl refl)
  after_expire-Step until n (ok _) r held = decide-Step until n r held

  -- What `expire` leaves after the first attempt.
  expire-Holds :
      (until t : ℕ) (r : R) (d : Option ℕ)
      → entry r key ≡ some (record { value = 1; deadline = d })
      → Holds until 1 (entry r key)
      → until ≤ t + window
      → Holds until 1 (entry (redis.expire t r key window).1 key)
  expire-Holds until t r d stored held late = elim (Result-cases (redis.expire t r key window).0) [
    | inl (b, done) ↦
        rw (laws.expire_sets t r key window b _ done stored)
          (record { counted = refl; open_until = inr (t + window, refl, late) })
    | inr (e, failed) ↦ elim (laws.expire_fails t r key window e _ failed stored) [
      | inl same ↦ rw same held
      | inr set ↦ rw set (record { counted = refl; open_until = inr (t + window, refl, late) })
    ]
  ]

  -- After an increment to `n + 1`.
  counted-Step :
      (until n t : ℕ) (r : R) (d : Option ℕ)
      → entry r key ≡ some (record { value = suc n; deadline = d })
      → Holds until (suc n) (entry r key)
      → (1 ≤ n) ⊎ (until ≤ t + window)
      → Step until n (after_incr redis t key max window limited (ok (suc n)) r)
  unfolding after_incr
  counted-Step until zero t r d stored held late =
      after_expire-Step until zero (redis.expire t r key window).0 (redis.expire t r key window).1
        (expire-Holds until t r d stored held (ground arith))
  counted-Step until (suc m) t r d stored held late =
      elim (Bool-cases (leb 4294967296 (suc (suc m)))) [
        | inl over ↦ rw over (suc (suc m), held, omega arith, inl refl)
        | inr small ↦
            let many : (suc (suc m) == 1) ≡ false = ground arith in
            rw (small, many) (decide-Step until (suc m) r held)
      ]

  -- One attempt counts at most one, and passes only below the limit.
  check-Step :
      (until n t : ℕ) (r : R)
      → Holds until n (entry r key)
      → t < until
      → (1 ≤ n) ⊎ (until ≤ t + window)
      → Step until n (check redis key max window limited t r)
  unfolding check_fixed_window after_incr
  check-Step until n t r held early late = elim (Bool-cases (max == 0)) [
    | inl zero_max ↦ rw zero_max (n, held, omega arith, inl refl)
    | inr some_max ↦ elim (Bool-cases (window == 0)) [
      | inl zero_window ↦ rw (some_max, zero_window) (n, held, omega arith, inl refl)
      | inr some_window ↦
          rw (some_max, some_window)
            (elim (Result-cases (redis.incr t r key).0) [
              | inl (c, counted) ↦
                  let (c_eq, stored) = laws.incr_counts t r key c counted in
                  let r' = (redis.incr t r key).1 in
                  let c_n : c ≡ suc n =
                    c_eq ∙ ap suc (live-Holds until n t (entry r key) held early) in
                  let stored' : entry r' key
                      ≡ some (record { value = suc n; deadline = kept t (entry r key) }) =
                    stored
                    ∙ ap (λ v. some (record { value = v; deadline = kept t (entry r key) })) c_n in
                  rw (counted ∙ ap ok c_n) (
                    counted-Step until n t r' (kept t (entry r key)) stored'
                      (rw stored' (kept-Holds until n t (entry r key) held early)) late)
              | inr (e, failed) ↦ rw failed (elim (laws.incr_fails t r key e failed) [
                | inl same ↦ (n, rw same held, omega arith, inl refl)
                | inr lost ↦
                    let count_n = live-Holds until n t (entry r key) held early in
                    (
                      suc n,
                      rw (lost, count_n) (kept-Holds until n t (entry r key) held early),
                      omega arith,
                      inl refl,
                    )
              ])
            ])
    ]
  ]

  -- Attempts before `until`, where the first to be counted opens a window up to then.
  passes-left :
      (until n : ℕ) (times : List ℕ) (r : R)
      → Holds until n (entry r key)
      → All (λ t. (t < until) × ((1 ≤ n) ⊎ (until ≤ t + window))) times
      → passes redis key max window limited times r ≤ max - n
  unfolding passes
  passes-left until n [] r held inside = omega arith
  passes-left until n (t ∷ times) r held ((early, late), inside) =
      let (m, held', more, outcome) = check-Step until n t r held early late in
      let inside' =
        All-map times
          (λ u ((before, opened) : (u < until) × ((1 ≤ n) ⊎ (until ≤ u + window))).
            (before, later n until window m u more opened))
          inside in
      let rest =
        passes-left until m times (check redis key max window limited t r).1 held' inside' in
      ground arith

  -- Of any number of attempts under a key, one after the other within one window from a time at
  -- which the key is absent, at most `max_attempts` pass, also when commands of Redis fail or
  -- their replies are lost.
  pub window-bounded :
      (start : ℕ) (times : List ℕ) (r : R)
      → entry r key ≡ none
      → All (λ t. (start ≤ t) × (t < start + window)) times
      → passes redis key max window limited times r ≤ max
  window-bounded start times r absent inside =
      let left = passes-left (start + window) 0 times r (rw absent refl) (
        All-map times (λ t (h : (start ≤ t) × (t < start + window)). (h.1, inr (omega arith)))
          inside) in
      omega arith

  -- A key that holds a full count, not 0, and no deadline, as a failed `expire` can leave it, refuses all
  -- the attempts that follow, however late they come.
  pub undated-refused :
      (n until : ℕ) (times : List ℕ) (r : R)
      → entry r key ≡ some (record { value = n; deadline = none })
      → 1 ≤ n
      → max ≤ n
      → All (λ t. t < until) times
      → passes redis key max window limited times r ≡ 0
  undated-refused n until times r stuck some_count full inside =
      let left =
        passes-left until n times r (rw stuck (record { counted = refl; open_until = inl refl }))
          (All-map times (λ t (h : t < until). (h, inl some_count)) inside) in
      omega arith
