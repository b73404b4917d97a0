-- ===== src/Prelude/BigInts.antt =====
-- Amounts as decimal strings: `BigInt(text)`, and early returns whose test may throw.
use Prim.Native.Nat.{ℕ}
use Prim.Native.String.{String}
use mathlib.Core.Path.{◌≡◌}
use mathlib.Core.Bool.{Bool, true, false, ◌&&◌}
use mathlib.Core.Option.{Option, none, some}
use mathlib.Core.List.{List, [], ◌∷◌}
use native.Mathlib.Omega.{arith}
use pearl_infra.Prelude.Tests.{ltb, if◌then◌else◌, ◌==◌}
use pearl_infra.Prelude.Lists.{every}
use pearl_infra.Prelude.Digits.{is_digit, digits_value}
use Prim.Native.Char.{code}

-- The characters of a string, as their codes.
unfoldable pub codes : String → List ℕ
codes String.[] = []
codes (String.◌∷◌ c s) = code c ∷ codes s

-- `BigInt(text)` on decimal digits, with `none` for the exception. Amounts of grains are decimal
-- texts; the signs, spaces and hexadecimal texts that `BigInt` also reads are none of them.
unfoldable pub big_int : String → Option ℕ
big_int text = if every is_digit (codes text) then some (digits_value 0 (codes text)) else none

-- The text of a number below zero, as `toString()` writes it.
unfoldable pub is_negative : String → Bool
is_negative String.[] = false
is_negative (String.◌∷◌ c s) =
    (code c == b'-') && (every is_digit (codes s) && ltb 0 (digits_value 0 (codes s)))

-- `BigInt(a) < BigInt(b)`, on what `BigInt` returned.
abbrev pub less : Option ℕ → Option ℕ → Option Bool
less (some a) (some b) = some (ltb a b)
less (some a) none = none
less none b = none

-- `BigInt(text) < b`, where the text may be that of a number below zero.
abbrev pub less_than : String → Option ℕ → Option Bool
less_than text none = none
less_than text (some b) = if is_negative text then some true else less (big_int text) (some b)

-- What is not below zero is read by `big_int` alone.
pub big_int-negative : (text : String) → is_negative text ≡ true → big_int text ≡ none
unfolding is_negative big_int codes
big_int-negative String.[] h = ground arith
big_int-negative (String.◌∷◌ c s) h = ground arith

-- `BigInt(a) + BigInt(b)`
abbrev pub plus : Option ℕ → Option ℕ → Option ℕ
plus (some a) (some b) = some (Prim.Native.Nat.◌+◌ a b)
plus (some a) none = none
plus none b = none

-- `const n = BigInt(text);` between the tests: it returns nothing, but may throw.
abbrev pub defined : Option ℕ → Option Bool
defined (some a) = some false
defined none = none

-- A series of early returns whose tests are `none` where they throw: `none` is an exception,
-- `some none` is the end of the series.
module _ {ℓ} {A : Type ℓ} where
  abbrev pub first_failure_or_throw : List (Option Bool × A) → Option (Option A)
  first_failure_or_throw [] = some none
  first_failure_or_throw ((none, message) ∷ guards) = none
  first_failure_or_throw ((some true, message) ∷ guards) = some (some message)
  first_failure_or_throw ((some false, message) ∷ guards) = first_failure_or_throw guards
