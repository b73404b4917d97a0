-- ===== src/Prelude/Digits.antt =====
-- Decimal digits as code points: `BigInt(text)` and `toString()` on natural numbers.
use Prim.Native.Nat.{ℕ, zero, suc, ◌+◌, ◌-◌, ◌*◌, ◌/◌, ◌%◌, ◌^◌, ◌≤◌, ◌<◌}
use mathlib.Core.Path.{◌≡◌, refl}
use mathlib.Core.Bool.{Bool, true, ◌&&◌}
use mathlib.Core.List.{List, [], ◌∷◌, ◌++◌}
use native.Mathlib.Omega.{arith}
use native.Mathlib.Nat.{pow-suc}
use pearl_infra.Prelude.Tests.{leb, ltb, if◌then◌else◌}
use pearl_infra.Prelude.Lists.{length, length-append, every}

-- `\d`
abbrev pub is_digit : ℕ → Bool
is_digit c = leb b'0' c && leb c b'9'

-- `BigInt(text)` on a text of digits, from the left; the empty text is 0.
unfoldable pub digits_value : ℕ → List ℕ → ℕ
digits_value acc [] = acc
digits_value acc (c ∷ cs) = digits_value (acc * 10 + (c - b'0')) cs

digits_of_fuel : ℕ → ℕ → List ℕ
digits_of_fuel zero n = []
digits_of_fuel (suc fuel) n =
    let high = digits_of_fuel fuel (n / 10) in
    let last = n % 10 + b'0' in if ltb n 10 then last ∷ [] else high ++ last ∷ []

-- `n.toString()`. A number has no more digits than its value plus one.
unfoldable pub digits_of : ℕ → List ℕ
unfolding digits_of_fuel
digits_of n = digits_of_fuel (suc n) n

digits_value-append :
    (acc c : ℕ) (cs : List ℕ)
    → digits_value acc (cs ++ c ∷ []) ≡ digits_value acc cs * 10 + (c - b'0')
unfolding digits_value
digits_value-append acc c [] = refl
digits_value-append acc c (x ∷ cs) = digits_value-append (acc * 10 + (x - b'0')) c cs

value_of_fuel : (fuel n : ℕ) → n < fuel → digits_value 0 (digits_of_fuel fuel n) ≡ n
unfolding digits_of_fuel digits_value
value_of_fuel zero n h = absurd (omega arith)
value_of_fuel (suc fuel) n h = ground (
  arith,
  value_of_fuel fuel (n / 10),
  digits_value-append 0 (n % 10 + b'0') (digits_of_fuel fuel (n / 10)),
)

pub digits_value-digits_of : (n : ℕ) → digits_value 0 (digits_of n) ≡ n
unfolding digits_of
digits_value-digits_of n = value_of_fuel (suc n) n (omega arith)

pub every-append {ℓ} :
    {A : Type ℓ} (p : A → Bool) (xs ys : List A)
    → every p xs ≡ true
    → every p ys ≡ true
    → every p (xs ++ ys) ≡ true
every-append p [] ys h k = k
every-append p (x ∷ xs) ys h k = ground (arith, every-append p xs ys)

digits_fuel_every : (fuel n : ℕ) → every is_digit (digits_of_fuel fuel n) ≡ true
unfolding digits_of_fuel
digits_fuel_every zero n = refl
digits_fuel_every (suc fuel) n = ground (
  arith,
  every-append is_digit (digits_of_fuel fuel (n / 10)) ((n % 10 + b'0') ∷ []),
  digits_fuel_every fuel (n / 10),
)

pub every_digit-digits_of : (n : ℕ) → every is_digit (digits_of n) ≡ true
unfolding digits_of
every_digit-digits_of n = digits_fuel_every (suc n) n

tenth_lt : (n p : ℕ) → n < p * 10 → n / 10 < p
tenth_lt n p h = omega arith

fuel_length : (fuel n d : ℕ) → n < 10 ^ suc d → length (digits_of_fuel fuel n) ≤ suc d
unfolding digits_of_fuel
fuel_length zero n d h = omega arith
fuel_length (suc fuel) n zero h = ground arith
fuel_length (suc fuel) n (suc d) h =
    let high : n / 10 < 10 ^ suc d = tenth_lt n (10 ^ suc d) (rw (← pow-suc 10 (suc d)) h) in
    let bound : length (digits_of_fuel fuel (n / 10)) ≤ suc d = fuel_length fuel (n / 10) d high in
    ground (arith, length-append (digits_of_fuel fuel (n / 10)) ((n % 10 + b'0') ∷ []))

-- A number below 10 ^ d is written with at most d digits, if d is positive.
pub length-digits_of : (n d : ℕ) → 0 < d → n < 10 ^ d → length (digits_of n) ≤ d
unfolding digits_of
length-digits_of n zero h k = absurd (omega arith)
length-digits_of n (suc d) h k = fuel_length (suc n) n d k

pub digits_of-ne-nil : (n : ℕ) → 0 < length (digits_of n)
unfolding digits_of digits_of_fuel
digits_of-ne-nil n =
    ground (arith, length-append (digits_of_fuel n (n / 10)) ((n % 10 + b'0') ∷ []))

-- `text.padStart(width, '0')` and `text.padEnd(width, '0')`
abbrev pub zeros : ℕ → List ℕ
zeros zero = []
zeros (suc n) = b'0' ∷ zeros n

abbrev pub pad_start : ℕ → List ℕ → List ℕ
pad_start width cs = zeros (width - length cs) ++ cs

abbrev pub pad_end : ℕ → List ℕ → List ℕ
pad_end width cs = cs ++ zeros (width - length cs)

pub length-zeros : (n : ℕ) → length (zeros n) ≡ n
length-zeros zero = refl
length-zeros (suc n) = omega (arith, length-zeros n)

pub every_digit-zeros : (n : ℕ) → every is_digit (zeros n) ≡ true
every_digit-zeros zero = refl
every_digit-zeros (suc n) = every_digit-zeros n

pub digits_value-zeros : (n : ℕ) (cs : List ℕ) → digits_value 0 (zeros n ++ cs) ≡ digits_value 0 cs
unfolding digits_value
digits_value-zeros zero cs = refl
digits_value-zeros (suc n) cs = digits_value-zeros n cs
