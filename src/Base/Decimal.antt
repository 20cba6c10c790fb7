-- ===== src/Base/Decimal.antt =====
-- How a number is printed: its decimal digits, the least significant first, and as a text.
use Prim.Native.Nat.{ℕ, zero, suc, ◌+◌, ◌*◌}
use Prim.Native.String.{String, ◌++◌ as ◌⊕◌}
use mathlib.Core.Path.{◌≡◌, refl}
use mathlib.Core.List.{List, [], ◌∷◌}
use native.Mathlib.Omega.{arith}
use entitle_hub.Base.Tests.{◌==◌, if◌then◌else◌}
use entitle_hub.Base.Int.{ℤ, pos, negsuc}

-- The digits of the next number.
increment : List ℕ → List ℕ
increment [] = 1 ∷ []
increment (d ∷ digits) =
    let carried = increment digits in if d == 9 then 0 ∷ carried else suc d ∷ digits

unfoldable pub digits_of : ℕ → List ℕ
unfolding increment
digits_of zero = 0 ∷ []
digits_of (suc n) = increment (digits_of n)

pub value : List ℕ → ℕ
value [] = 0
value (d ∷ digits) = d + 10 * value digits

value-increment : (digits : List ℕ) → value (increment digits) ≡ suc (value digits)
unfolding increment value
value-increment [] = refl
value-increment (d ∷ digits) = ground (arith, value-increment digits)

-- The digits of a number stand for it.
pub value-digits_of : (n : ℕ) → value (digits_of n) ≡ n
unfolding digits_of value
value-digits_of zero = refl
value-digits_of (suc n) = ground (arith, value-increment (digits_of n), value-digits_of n)

abbrev digit_text : ℕ → String
digit_text d =
    if d == 0
    then "0"
    else if d == 1
    then "1"
    else if d == 2
    then "2"
    else if d == 3
    then "3"
    else if d == 4
    then "4"
    else if d == 5
    then "5"
    else if d == 6
    then "6"
    else if d == 7
    then "7"
    else if d == 8
    then "8"
    else "9"

written : List ℕ → String
written [] = ""
written (d ∷ digits) = written digits ⊕ digit_text d

-- `to_string` of an `i64`.
unfoldable pub to_string : ℤ → String
unfolding written digits_of
to_string (pos n) = written (digits_of n)
to_string (negsuc n) = "-" ⊕ written (digits_of (suc n))

prints : to_string (pos 120) ≡ "120"
unfolding to_string
prints = refl
