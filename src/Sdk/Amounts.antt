-- ===== src/Sdk/Amounts.antt =====
-- packages/pearl-sdk/src/amounts.ts: decimal amounts and their integer units. A text is the list
-- of its code points; `none` is the thrown error.
use Prim.Native.Char.{code}
use mathlib.Core.List.{reverse}
use pearl_infra.Prelude.{
  ℕ, suc, ◌+◌, ◌*◌, ◌/◌, ◌%◌, ◌^◌, String, Option, none, some, List, [], ◌∷◌, ◌++◌, Bool, true,
  false, not, ◌&&◌, ◌||◌, ◌==◌, leb, ltb, if◌then◌else◌,
}
use pearl_infra.Prelude.Lists.{length, every, includes}
use pearl_infra.Prelude.Equality.{nat_eq}
use pearl_infra.Prelude.Digits.{is_digit, digits_value, digits_of, pad_start, pad_end}

abbrev pub codes : String → List ℕ
codes String.[] = []
codes (String.◌∷◌ c s) = code c ∷ codes s

-- The white space and line ends of JavaScript's `trim`.
abbrev pub is_space : ℕ → Bool
is_space c =
    (leb 9 c && leb c 13)
    || includes (32 ∷ 160 ∷ 0x1680 ∷ 0x2028 ∷ 0x2029 ∷ 0x202f ∷ 0x205f ∷ 0x3000 ∷ 0xfeff ∷ []) c
    || (leb 0x2000 c && leb c 0x200a)

unfoldable pub trim_start : List ℕ → List ℕ
trim_start [] = []
trim_start (c ∷ cs) = let rest = trim_start cs in if is_space c then rest else c ∷ cs

-- `text.trim()`
unfoldable pub trim : List ℕ → List ℕ
unfolding trim_start
trim cs = reverse (trim_start (reverse (trim_start cs)))

-- `text.split('.')`: the first part and the parts after it.
abbrev prepend : ℕ → List ℕ × List (List ℕ) → List ℕ × List (List ℕ)
prepend c (part, parts) = (c ∷ part, parts)

unfoldable pub split : ℕ → List ℕ → List ℕ × List (List ℕ)
split separator [] = ([], [])
split separator (c ∷ cs) =
    let rest = split separator cs in
    if c == separator then ([], rest.0 ∷ rest.1) else prepend c rest

-- `[, fractionalPart = '']`
abbrev pub fractional_part : List (List ℕ) → List ℕ
fractional_part [] = []
fractional_part (part ∷ parts) = part

abbrev pub is_empty : List ℕ → Bool
is_empty [] = true
is_empty (c ∷ cs) = false

-- The condition of the `throw`.
unfoldable pub is_invalid_amount : List ℕ → List ℕ → List (List ℕ) → ℕ → Bool
is_invalid_amount normalized whole_part parts decimals =
    is_empty normalized
    || (ltb 2 (suc (length parts))
        || (is_empty whole_part
            || (not (every is_digit whole_part)
                || (not (every is_digit (fractional_part parts))
                    || ltb decimals (length (fractional_part parts))))))

unfoldable pub parse_decimal_to_units : List ℕ → ℕ → Option ℕ
parse_decimal_to_units amount decimals =
    let normalized = trim amount in
    let parts = split b'.' normalized in
    if is_invalid_amount normalized parts.0 parts.1 decimals
    then none
    else some (
        digits_value 0 parts.0 * 10 ^ decimals
        + digits_value 0 (pad_end decimals (fractional_part parts.1)))

-- Of an amount that is not negative, which is all that a number can be here.
unfoldable pub format_units_to_decimal : ℕ → ℕ → List ℕ
format_units_to_decimal units decimals =
    digits_of (units / 10 ^ decimals)
    ++ b'.' ∷ pad_start decimals (digits_of (units % 10 ^ decimals))

unfoldable pub parse_prl_to_grains : String → Option ℕ
parse_prl_to_grains amount = parse_decimal_to_units (codes amount) 8

unfoldable pub parse_usdc_to_micros : String → Option ℕ
parse_usdc_to_micros amount = parse_decimal_to_units (codes amount) 6

unfoldable pub format_grains_to_prl : ℕ → List ℕ
format_grains_to_prl grains = format_units_to_decimal grains 8

unfoldable pub format_micros_to_usdc : ℕ → List ℕ
format_micros_to_usdc micros = format_units_to_decimal micros 6
