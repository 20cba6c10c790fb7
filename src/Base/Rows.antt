-- ===== src/Base/Rows.antt =====
-- Tables as lists of rows. A `where` clause is a test; the statements of the repositories are
-- `select` (at most one row), `count`, `exists`, `update` and `delete` under such a test.
use Prim.Native.Nat.{ℕ, zero, suc, ◌+◌, ◌≤◌}
use mathlib.Core.Path.{◌≡◌, refl}
use mathlib.Core.Bool.{Bool, true, false, ◌||◌, ◌&&◌}
use mathlib.Core.Option
use mathlib.Core.Logic.{◌⊎◌, inl, inr}
use mathlib.Core.Option.{Option, none, some}
use mathlib.Core.List.{List, [], ◌∷◌}
use native.Mathlib.Omega.{arith}
use entitle_hub.Base.Tests.{if◌then◌else◌, Bool-cases}

module _ {ℓ} {A : Type ℓ} where
  -- `fetch_optional`: the row that the clause selects.
  unfoldable pub find : (A → Bool) → List A → Option A
  find p [] = none
  find p (a ∷ rows) = if p a then some a else find p rows

  -- `select exists (...)`
  unfoldable pub exists : (A → Bool) → List A → Bool
  exists p [] = false
  exists p (a ∷ rows) = p a || exists p rows

  -- `select count(*)`
  unfoldable pub count : (A → Bool) → List A → ℕ
  count p [] = 0
  count p (a ∷ rows) = if p a then suc (count p rows) else count p rows

  -- `update ... set ... where`
  unfoldable pub update : (A → Bool) → (A → A) → List A → List A
  update p f [] = []
  update p f (a ∷ rows) = (if p a then f a else a) ∷ update p f rows

  -- `delete from ... where`
  unfoldable pub delete : (A → Bool) → List A → List A
  delete p [] = []
  delete p (a ∷ rows) = if p a then delete p rows else a ∷ delete p rows

  abbrev pub All {κ} : (A → Type κ) → List A → Type κ
  All P [] = Unit
  All P (a ∷ rows) = P a × All P rows

  -- Some row of the table.
  abbrev pub Any : (A → Type 0) → List A → Type 0
  Any P [] = ⊥
  Any P (a ∷ rows) = P a ⊎ Any P rows

module _ {ℓ} {A : Type ℓ} where
  pub exists-Any :
      (P : A → Type 0) (p : A → Bool) (rows : List A)
      → ((a : A) → p a ≡ true → P a)
      → exists p rows ≡ true
      → Any P rows
  unfolding exists
  exists-Any P p [] h there = absurd (ground arith)
  exists-Any P p (a ∷ rows) h there = elim (Bool-cases (p a)) [
    | inl hit ↦ inl (h a hit)
    | inr miss ↦ inr (exists-Any P p rows h (ground arith))
  ]

  -- An update adds to a count at most the rows that it changes.
  pub count-update-le :
      (q p : A → Bool) (f : A → A) (rows : List A)
      → count q (update p f rows) ≤ count q rows + count p rows
  unfolding count update
  count-update-le q p f [] = omega arith
  count-update-le q p f (a ∷ rows) = ground (arith, count-update-le q p f rows)

  -- An update under a test that its rows fail afterwards leaves no row that passes it.
  pub exists-update-gone :
      (p q : A → Bool) (f : A → A) (rows : List A)
      → ((a : A) → p (f a) ≡ false)
      → ((a : A) → p a ≡ q a)
      → exists p (update q f rows) ≡ false
  unfolding exists update
  exists-update-gone p q f [] h same = refl
  exists-update-gone p q f (a ∷ rows) h same =
      ground (arith, h a, same a, exists-update-gone p q f rows h same)

  -- A test that the update does not touch.
  pub exists-update-same :
      (p q : A → Bool) (f : A → A) (rows : List A)
      → ((a : A) → p (f a) ≡ p a)
      → exists p (update q f rows) ≡ exists p rows
  unfolding exists update
  exists-update-same p q f [] h = refl
  exists-update-same p q f (a ∷ rows) h = ground (arith, h a, exists-update-same p q f rows h)

  -- The row that a lookup finds after an update of the rows that pass `p` and `q`.
  pub find-update :
      (p q : A → Bool) (f : A → A) (rows : List A)
      → ((a : A) → p (f a) ≡ p a)
      → find p (update (λ a. p a && q a) f rows)
        ≡ Option.map (λ a. if q a then f a else a) (find p rows)
  unfolding find update
  find-update p q f [] h = refl
  find-update p q f (a ∷ rows) h = ground (arith, h a, find-update p q f rows h)

  pub exists_of_find :
      (p q : A → Bool) (rows : List A) (a : A)
      → find p rows ≡ some a
      → q a ≡ true
      → exists (λ b. p b && q b) rows ≡ true
  unfolding find exists
  exists_of_find p q [] a e h = cc
  exists_of_find p q (b ∷ rows) a e h = ground (arith, exists_of_find p q rows a)

  -- What a lookup finds passes its test.
  pub find-true : (p : A → Bool) (rows : List A) (a : A) → find p rows ≡ some a → p a ≡ true
  unfolding find
  find-true p [] a e = cc
  find-true p (b ∷ rows) a e = ground (arith, find-true p rows a)

  pub find-update-same :
      (p : A → Bool) (f : A → A) (rows : List A)
      → ((a : A) → p (f a) ≡ p a)
      → find p (update p f rows) ≡ Option.map f (find p rows)
  unfolding find update
  find-update-same p f [] h = refl
  find-update-same p f (a ∷ rows) h = ground (arith, h a, find-update-same p f rows h)

  -- The row that a lookup finds after an update of any rows that keeps its test.
  pub find-update-if :
      (p q : A → Bool) (f : A → A) (rows : List A)
      → ((a : A) → p (f a) ≡ p a)
      → find p (update q f rows) ≡ Option.map (λ a. if q a then f a else a) (find p rows)
  unfolding find update
  find-update-if p q f [] h = refl
  find-update-if p q f (a ∷ rows) h = ground (arith, h a, find-update-if p q f rows h)

  -- Where the search finds no row, none passes the test.
  pub unfound-exists : (p : A → Bool) (rows : List A) → find p rows ≡ none → exists p rows ≡ false
  unfolding find exists
  unfound-exists p [] h = refl
  unfound-exists p (a ∷ rows) h = ground (arith, unfound-exists p rows)

  -- A row that is found passes no test that no row passes.
  pub found-exists :
      (p q : A → Bool) (rows : List A) (a : A)
      → find p rows ≡ some a
      → exists q rows ≡ false
      → q a ≡ false
  unfolding find exists
  found-exists p q [] a e h = cc
  found-exists p q (b ∷ rows) a e h = ground (arith, found-exists p q rows a)

module _ {ℓ} {A : Type ℓ} where
  -- The rows of a `where` clause, in the order of the table.
  unfoldable pub select : (A → Bool) → List A → List A
  select p [] = []
  select p (a ∷ rows) = if p a then a ∷ select p rows else select p rows

  -- `limit`
  unfoldable pub take : ℕ → List A → List A
  take zero rows = []
  take (suc n) [] = []
  take (suc n) (a ∷ rows) = a ∷ take n rows

  pub count-update-same :
      (q p : A → Bool) (f : A → A) (rows : List A)
      → ((a : A) → q (f a) ≡ q a)
      → count q (update p f rows) ≡ count q rows
  unfolding count update
  count-update-same q p f [] h = refl
  count-update-same q p f (a ∷ rows) h = ground (arith, h a, count-update-same q p f rows h)

  -- A selection keeps what a narrower test finds and counts.
  pub find-select :
      (p q : A → Bool) (rows : List A)
      → ((a : A) → q a ≡ true → p a ≡ true)
      → (find q (select p rows) ≡ find q rows) × (count q (select p rows) ≡ count q rows)
  unfolding find count select
  find-select p q [] h = (refl, refl)
  find-select p q (a ∷ rows) h = ground (arith, h a, find-select p q rows h)

  pub All-map {κ μ} :
      {P : A → Type κ} {Q : A → Type μ} (rows : List A)
      → ((a : A) → P a → Q a)
      → All P rows
      → All Q rows
  All-map [] h held = tt
  All-map (a ∷ rows) h (first, held) = (h a first, All-map rows h held)

  -- What `update ... returning` gives: the row that the clause selects, as it is changed.
  unfoldable pub update_returning : (A → Bool) → (A → A) → List A → Option A
  unfolding find
  update_returning p f rows = Option.map f (find p rows)

  -- The first row of a lookup is also that of a narrower test that it passes.
  pub find-narrow :
      (p q : A → Bool) (rows : List A) (a : A)
      → find p rows ≡ some a
      → q a ≡ true
      → find (λ b. p b && q b) rows ≡ some a
  unfolding find
  find-narrow p q [] a e h = cc
  find-narrow p q (b ∷ rows) a e h = ground (arith, find-narrow p q rows a)
