-- ===== src/Base/Changes.antt =====
-- How inserts and updates of a table keep what holds of its rows.
use Prim.Native.Nat.{◌+◌, ◌≤◌}
use mathlib.Core.Path.{◌≡◌, refl, sym}
use mathlib.Core.Bool.{Bool, true, false}
use mathlib.Core.Option.{some, none}
use mathlib.Core.Logic.{inl, inr}
use mathlib.Core.List.{List, [], ◌∷◌, ◌++◌}
use native.Mathlib.Omega.{arith}
use entitle_hub.Base.Tests.{if◌then◌else◌, Bool-cases}
use entitle_hub.Base.Rows.{find, exists, count, update, select, All}

module _ {ℓ} {A : Type ℓ} where
  pub All-append {κ} :
      (P : A → Type κ) (rows : List A) (a : A) → All P rows → P a → All P (rows ++ (a ∷ []))
  All-append P [] a held h = (h, tt)
  All-append P (b ∷ rows) a (first, held) h = (first, All-append P rows a held h)

  pub count-append :
      (p : A → Bool) (rows : List A) (a : A)
      → count p (rows ++ (a ∷ [])) ≡ count p rows + (if p a then 1 else 0)
  unfolding count
  count-append p [] a = ground arith
  count-append p (b ∷ rows) a = ground (arith, count-append p rows a)

  -- A row at the end of the table does not hide another.
  pub find-append :
      (p : A → Bool) (rows : List A) (a b : A)
      → find p rows ≡ some b
      → find p (rows ++ (a ∷ [])) ≡ some b
  unfolding find
  find-append p [] a b e = absurd (ground arith)
  find-append p (c ∷ rows) a b e = ground (arith, find-append p rows a b)

  pub exists-count : (p : A → Bool) (rows : List A) → exists p rows ≡ false → count p rows ≡ 0
  unfolding exists count
  exists-count p [] none_there = refl
  exists-count p (a ∷ rows) none_there = ground (arith, exists-count p rows)

  pub All-update {κ} :
      (P : A → Type κ) (p : A → Bool) (f : A → A) (rows : List A)
      → ((a : A) → p a ≡ true → P a → P (f a))
      → All P rows
      → All P (update p f rows)
  unfolding update
  All-update P p f [] h held = tt
  All-update P p f (a ∷ rows) h (first, held) = (
    elim (Bool-cases (p a)) [ inl hit ↦ rw hit (h a hit first) | inr miss ↦ rw miss first ],
    All-update P p f rows h held,
  )

  -- What two updates under narrower tests do to a row.
  abbrev pub twice : (p p' : A → Bool) (f f' : A → A) → A → A
  twice p p' f f' a = let b = if p a then f a else a in if p' b then f' b else b

  twice-away :
      (q p p' : A → Bool) (f f' : A → A) (rows : List A)
      → ((a : A) → p a ≡ true → q a ≡ true)
      → ((a : A) → p' a ≡ true → q a ≡ true)
      → count q rows ≡ 0
      → update p' f' (update p f rows) ≡ rows
  unfolding update count
  twice-away q p p' f f' [] h h' gone = refl
  twice-away q p p' f f' (a ∷ rows) h h' gone =
      ground (arith, h a, h' a, twice-away q p p' f f' rows h h')

  -- Two updates that change at most the one row that passes `q`.
  pub All-update-twice {κ} :
      (P : A → Type κ) (q p p' : A → Bool) (f f' : A → A) (rows : List A) (a : A)
      → ((b : A) → p b ≡ true → q b ≡ true)
      → ((b : A) → p' b ≡ true → q b ≡ true)
      → count q rows ≤ 1
      → find q rows ≡ some a
      → P (twice p p' f f' a)
      → All P rows
      → All P (update p' f' (update p f rows))
  unfolding update count find
  All-update-twice P q p p' f f' [] a h h' one found good held = tt
  All-update-twice P q p p' f f' (b ∷ rows) a h h' one found good (first, held) =
      elim (Bool-cases (q b)) [
        | inl hit ↦
            let same : b ≡ a = ground arith in
            let gone : count q rows ≡ 0 = ground arith in
            (rw same good, rw (twice-away q p p' f f' rows h h' gone) held)
        | inr miss ↦
            let pb : p b ≡ false = ground (arith, h b) in
            let pb' : p' b ≡ false = ground (arith, h' b) in
            (
              rw (pb, pb') first,
              All-update-twice P q p p' f f' rows a h h' (ground arith) (ground arith) good held,
            )
      ]

  found-count :
      (p q : A → Bool) (rows : List A) (a : A)
      → ((b : A) → p b ≡ true → q b ≡ true)
      → find p rows ≡ some a
      → 1 ≤ count q rows
  unfolding find count
  found-count p q [] a h found = ground arith
  found-count p q (b ∷ rows) a h found = ground (arith, h b, found-count p q rows a h)

  -- When at most one row passes `q`, a narrower lookup finds that row.
  pub find-only :
      (p q : A → Bool) (rows : List A) (a : A)
      → ((b : A) → p b ≡ true → q b ≡ true)
      → count q rows ≤ 1
      → find p rows ≡ some a
      → find q rows ≡ some a
  unfolding find count
  find-only p q [] a h one found = cc
  find-only p q (b ∷ rows) a h one found =
      ground (arith, h b, found-count p q rows a h, find-only p q rows a h)

  pub twice-hit :
      (p p' : A → Bool) (f f' : A → A) (a : A)
      → p a ≡ true
      → p' (f a) ≡ true
      → twice p p' f f' a ≡ f' (f a)
  twice-hit p p' f f' a hit hit' = ground arith

  pub All-select {κ} :
      (P : A → Type κ) (p : A → Bool) (rows : List A)
      → All P rows
      → All (λ a. P a × (p a ≡ true)) (select p rows)
  unfolding select
  All-select P p [] held = tt
  All-select P p (a ∷ rows) (first, held) =
      let rest = All-select P p rows held in
      elim (Bool-cases (p a)) [ inl hit ↦ rw hit ((first, hit), rest) | inr miss ↦ rw miss rest ]

  All-if {κ} :
      (P : A → Type κ) (a : A) (rows : List A) (b : Bool)
      → All P (if b then a ∷ rows else rows)
      → (b ≡ true → P a) × All P rows
  All-if P a rows true held = (λ h. held.0, held.1)
  All-if P a rows false held = (λ h. absurd (ground arith), held)

  -- What holds of the rows that a clause selects holds of every row that passes it.
  pub All-of_select {κ} :
      (P : A → Type κ) (p : A → Bool) (rows : List A)
      → All P (select p rows)
      → All (λ a. p a ≡ true → P a) rows
  unfolding select
  All-of_select P p [] held = tt
  All-of_select P p (a ∷ rows) held =
      let (first, rest) = All-if P a (select p rows) (p a) held in
      (first, All-of_select P p rows rest)

  untouched-gone :
      (q p p' : A → Bool) (f : A → A) (rows : List A)
      → ((b : A) → p b ≡ true → q b ≡ true)
      → ((b : A) → p' b ≡ true → q b ≡ true)
      → count q rows ≡ 0
      → find p' (update p f rows) ≡ none
  unfolding find count update
  untouched-gone q p p' f [] h h' none_there = refl
  untouched-gone q p p' f (b ∷ rows) h h' none_there =
      ground (arith, h b, h' b, untouched-gone q p p' f rows h h')

  -- When at most one row passes `q`, a change of it that ends a narrower test leaves no row for that.
  pub find-spent :
      (q p p' : A → Bool) (f : A → A) (rows : List A) (a : A)
      → ((b : A) → p b ≡ true → q b ≡ true)
      → ((b : A) → p' b ≡ true → q b ≡ true)
      → ((b : A) → p' (f b) ≡ false)
      → count q rows ≤ 1
      → find p rows ≡ some a
      → find p' (update p f rows) ≡ none
  unfolding find count update
  find-spent q p p' f [] a h h' ends one found = refl
  find-spent q p p' f (b ∷ rows) a h h' ends one found = ground (
    arith,
    h b,
    h' b,
    ends b,
    untouched-gone q p p' f rows h h',
    found-count p q rows a h,
    find-spent q p p' f rows a h h' ends,
  )

  -- What holds of every row holds of the one that a lookup finds.
  pub All-find {κ} :
      (P : A → Type κ) (p : A → Bool) (rows : List A) (a : A)
      → All P rows
      → find p rows ≡ some a
      → P a
  unfolding find
  All-find P p [] a held found = cc
  All-find P p (b ∷ rows) a (first, held) found = elim (Bool-cases (p b)) [
    | inl hit ↦ let same : b ≡ a = ground arith in rw (sym same) first
    | inr miss ↦ All-find P p rows a held (ground arith)
  ]

  found_counted :
      (p q : A → Bool) (rows : List A) (a : A)
      → find p rows ≡ some a
      → q a ≡ true
      → 1 ≤ count q rows
  unfolding find count
  found_counted p q [] a found passes = absurd (ground arith)
  found_counted p q (b ∷ rows) a found passes = ground (arith, found_counted p q rows a)

  -- A row that is found and passes `r`, which at most one row can pass, is what `r` finds.
  pub find_unique :
      (p q r : A → Bool) (rows : List A) (a : A)
      → ((b : A) → r b ≡ true → q b ≡ true)
      → count q rows ≤ 1
      → find p rows ≡ some a
      → r a ≡ true
      → find r rows ≡ some a
  unfolding find count
  find_unique p q r [] a h one found passes = absurd (ground arith)
  find_unique p q r (b ∷ rows) a h one found passes =
      ground (arith, h a, h b, found_counted p q rows a, find_unique p q r rows a h)
