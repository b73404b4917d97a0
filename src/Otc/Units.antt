-- ===== src/Otc/Units.antt =====
-- services/otc-api/src/repository.ts, `parseDecimalUnits` and `formatDecimalUnits`: reading back
-- what was written.
use pearl_infra.Prelude.{
  ℕ, ◌+◌, ◌*◌, ◌/◌, ◌^◌, ◌<◌, ◌≡◌, refl, sym, ap, ◌∙◌, some, List, [], ◌∷◌, ◌++◌, true, arith,
}
use native.Mathlib.Nat.{div-add-mod'}
use pearl_infra.Prelude.Lists.{length, every, take}
use pearl_infra.Prelude.Digits.{
  is_digit, digits_value, digits_of, zeros, pad_start, digits_value-digits_of,
  every_digit-digits_of, digits_of-ne-nil,
}
use pearl_infra.Sdk.Amounts.{parse_decimal_to_units, format_units_to_decimal}
use pearl_infra.Sdk.RoundTrip.{
  split_point, is_empty_digits, low_part, length-padded, value-padded, padded_digits, parse-format,
}
use pearl_infra.Otc.Orders.{parse_decimal_units, format_decimal_units}
use pearl_infra.Otc.Sweeps.{big_units}

take-all : (xs ys : List ℕ) → take (length xs) (xs ++ ys) ≡ xs
take-all [] ys = refl
take-all (x ∷ xs) ys = ap (λ l. x ∷ l) (take-all xs ys)

take-exact : (n : ℕ) (xs ys : List ℕ) → length xs ≡ n → take n (xs ++ ys) ≡ xs
take-exact n xs ys e = ap (λ m. take m (xs ++ ys)) (sym e) ∙ take-all xs ys

parse_parts :
    (cs ds : List ℕ) (decimals : ℕ)
    → every is_digit cs ≡ true
    → every is_digit ds ≡ true
    → 0 < length cs
    → length ds ≡ decimals
    → parse_decimal_units (cs ++ b'.' ∷ ds) decimals
      ≡ some (digits_value 0 cs * 10 ^ decimals + digits_value 0 ds)
unfolding parse_decimal_units
parse_parts cs ds decimals whole part some_whole e =
    rw
      (
        split_point cs ds whole part,
        is_empty_digits cs some_whole,
        whole,
        part,
        take-exact decimals ds (zeros decimals) e,
      )
      (ground (arith, e))

-- Reading an amount that was written gives it back, for every positive number of decimals.
pub parse_units-format :
    (units decimals : ℕ)
    → 0 < decimals
    → parse_decimal_units (format_decimal_units units decimals) decimals ≡ some units
unfolding format_decimal_units low_part
parse_units-format units decimals positive =
    parse_parts (digits_of (units / 10 ^ decimals))
      (pad_start decimals (low_part units decimals positive)) decimals (every_digit-digits_of _)
      (padded_digits units decimals positive) (digits_of-ne-nil _)
      (length-padded units decimals positive)
    ∙ ap some (
        rw (digits_value-digits_of, value-padded units decimals positive)
          (div-add-mod' units (10 ^ decimals)))

-- The SDK's parser reads the same amount in it.
pub sdk-parse-format :
    (units decimals : ℕ)
    → 0 < decimals
    → parse_decimal_to_units (format_decimal_units units decimals) decimals ≡ some units
unfolding format_decimal_units format_units_to_decimal
sdk-parse-format = parse-format

pub big_units-digits_of : (n : ℕ) → big_units (digits_of n) ≡ some n
unfolding big_units
big_units-digits_of n = rw (every_digit-digits_of n, digits_value-digits_of n) refl
