-- ===== src/Base/Spent.antt =====
-- Rows that serve once: an update that ends a test leaves no row that passes it.
use Prim.Native.Nat.{ℕ, ◌≤◌}
use mathlib.Core.Path.{◌≡◌, refl}
use mathlib.Core.Bool.{Bool, true, false}
use mathlib.Core.Option.{some, none}
use mathlib.Core.List.{List, [], ◌∷◌}
use native.Mathlib.Omega.{arith}
use entitle_hub.Base.Tests.{◌==◌}
use entitle_hub.Base.Rows.{find, exists, count, update}

module _ {ℓ} {A : Type ℓ} where
  counted :
      (p q : A → Bool) (rows : List A) (a : A)
      → ((b : A) → p b ≡ true → q b ≡ true)
      → find p rows ≡ some a
      → 1 ≤ count q rows
  unfolding find count
  counted p q [] a h found = ground arith
  counted p q (b ∷ rows) a h found = ground (arith, h b, counted p q rows a h)

  uncounted :
      (q p' r : A → Bool) (f : A → A) (rows : List A)
      → ((b : A) → p' b ≡ true → q b ≡ true)
      → ((b : A) → p' (f b) ≡ false)
      → count q rows ≡ 0
      → find p' (update r f rows) ≡ none
  unfolding find count update
  uncounted q p' r f [] h ends none_there = refl
  uncounted q p' r f (b ∷ rows) h ends none_there =
      ground (arith, h b, ends b, uncounted q p' r f rows h ends)

  -- The row that `p` finds is changed under another test, `r`, in a way that ends `p'`; when at most
  -- one row passes `q`, which both tests ask for, `p'` finds nothing afterwards.
  pub find_spent_row :
      (q p p' r : A → Bool) (f : A → A) (rows : List A) (a : A)
      → ((b : A) → p b ≡ true → q b ≡ true)
      → ((b : A) → p' b ≡ true → q b ≡ true)
      → ((b : A) → p' (f b) ≡ false)
      → count q rows ≤ 1
      → find p rows ≡ some a
      → r a ≡ true
      → find p' (update r f rows) ≡ none
  unfolding find count update
  find_spent_row q p p' r f [] a h h' ends one found hit = refl
  find_spent_row q p p' r f (b ∷ rows) a h h' ends one found hit = ground (
    arith,
    h b,
    h' b,
    ends b,
    uncounted q p' r f rows h' ends,
    counted p q rows a h,
    find_spent_row q p p' r f rows a h h' ends,
  )

module _ {ℓ} {A : Type ℓ} where
  -- A key that no row has after an update is not that of the row which the update changed.
  pub changed_key :
      (key : A → ℕ) (p : A → Bool) (f : A → A) (id other : ℕ) (rows : List A)
      → ((a : A) → key (f a) ≡ key a)
      → ((a : A) → p a ≡ true → (key a == id) ≡ true)
      → exists p rows ≡ true
      → exists (λ a. key a == other) (update p f rows) ≡ false
      → (other == id) ≡ false
  unfolding exists update
  changed_key key p f id other [] same h there gone = cc
  changed_key key p f id other (a ∷ rows) same h there gone =
      ground (arith, same a, h a, changed_key key p f id other rows same h)
