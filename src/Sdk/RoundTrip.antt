-- ===== src/Sdk/RoundTrip.antt =====
-- A formatted amount is read back as the amount that was formatted.
use mathlib.Core.List.{reverse, reverse-append, reverse-reverse, append_assoc, append-nil}
use native.Mathlib.Nat.{div-add-mod', mod-lt, pow-suc}
use pearl_infra.Prelude.{
  ℕ, zero, suc, ◌+◌, ◌-◌, ◌*◌, ◌/◌, ◌%◌, ◌^◌, ◌≤◌, ◌<◌, ◌≡◌, refl, ap, ◌∙◌, some, List, [], ◌∷◌,
  ◌++◌, true, false, arith,
}
use pearl_infra.Prelude.Lists.{length, length-append, every}
use pearl_infra.Prelude.Digits.{
  is_digit, digits_value, digits_of, pad_start, pad_end, zeros, digits_value-digits_of,
  every_digit-digits_of, length-digits_of, digits_of-ne-nil, every-append, length-zeros,
  every_digit-zeros, digits_value-zeros,
}
use pearl_infra.Sdk.Amounts.{
  is_space, trim_start, trim, split, is_empty, is_invalid_amount, parse_decimal_to_units,
  format_units_to_decimal,
}

pow_pos : (d : ℕ) → 0 < 10 ^ d
pow_pos zero = omega arith
pow_pos (suc d) = rw (pow-suc 10 d) (omega (arith, pow_pos d))

-- No digit is white space.
digit-not_space : (c : ℕ) → is_digit c ≡ true → is_space c ≡ false
digit-not_space c h = ground arith

trim_start_digit : (c : ℕ) (cs : List ℕ) → is_digit c ≡ true → trim_start (c ∷ cs) ≡ c ∷ cs
unfolding trim_start
trim_start_digit c cs h = rw (digit-not_space c h) refl

-- Cutting at the point.
split_digits : (cs : List ℕ) → every is_digit cs ≡ true → split b'.' cs ≡ (cs, [])
unfolding split
split_digits [] h = refl
split_digits (c ∷ cs) h = ground (arith, split_digits cs)

pub split_point :
    (cs ds : List ℕ)
    → every is_digit cs ≡ true
    → every is_digit ds ≡ true
    → split b'.' (cs ++ b'.' ∷ ds) ≡ (cs, ds ∷ [])
unfolding split
split_point [] ds h k = ground (arith, split_digits ds k)
split_point (c ∷ cs) ds h k = ground (arith, split_point cs ds)

-- A text that begins with a digit has nothing to trim at its start.
starts_digit :
    (cs rest : List ℕ)
    → 0 < length cs
    → every is_digit cs ≡ true
    → trim_start (cs ++ rest) ≡ cs ++ rest
starts_digit [] rest h k = absurd (omega arith)
starts_digit (c ∷ cs) rest h k = trim_start_digit c (cs ++ rest) (ground arith)

every-reverse : (cs : List ℕ) → every is_digit cs ≡ true → every is_digit (reverse cs) ≡ true
every-reverse [] h = refl
every-reverse (c ∷ cs) h =
    rw (reverse-append (c ∷ []) cs)
      (every-append is_digit (reverse cs) (c ∷ []) (every-reverse cs (ground arith)) (ground arith))

length-reverse : (cs : List ℕ) → length (reverse cs) ≡ length cs
length-reverse [] = refl
length-reverse (c ∷ cs) =
    rw (reverse-append (c ∷ []) cs)
      (omega (arith, length-append (reverse cs) (c ∷ []), length-reverse cs))

is_empty_point : (cs ds : List ℕ) → 0 < length cs → is_empty (cs ++ ds) ≡ false
is_empty_point [] ds h = absurd (omega arith)
is_empty_point (c ∷ cs) ds h = refl

pub is_empty_digits : (cs : List ℕ) → 0 < length cs → is_empty cs ≡ false
is_empty_digits [] h = absurd (omega arith)
is_empty_digits (c ∷ cs) h = refl

module _ (cs ds : List ℕ) (whole : every is_digit cs ≡ true) (part : every is_digit ds ≡ true)
    (some_whole : 0 < length cs) (some_part : 0 < length ds) where
  reverse_point : reverse (cs ++ b'.' ∷ ds) ≡ reverse ds ++ (b'.' ∷ reverse cs)
  reverse_point =
      reverse-append cs (b'.' ∷ ds)
      ∙ ap (λ xs. xs ++ reverse cs) (reverse-append (b'.' ∷ []) ds)
      ∙ append_assoc (reverse ds) (b'.' ∷ []) (reverse cs)

  trim_point : trim (cs ++ b'.' ∷ ds) ≡ cs ++ b'.' ∷ ds
  unfolding trim
  trim_point =
      rw
        (
          starts_digit cs (b'.' ∷ ds) some_whole whole,
          reverse_point,
          starts_digit (reverse ds) (b'.' ∷ reverse cs) (rw (length-reverse ds) some_part)
              (every-reverse ds part),
          ← reverse_point,
        )
        (reverse-reverse (cs ++ b'.' ∷ ds))

  padded : (decimals : ℕ) → length ds ≡ decimals → pad_end decimals ds ≡ ds
  padded decimals e =
      let none_left : decimals - length ds ≡ 0 = omega arith in rw none_left (append-nil ds)

  valid :
      (decimals : ℕ)
      → length ds ≡ decimals
      → is_invalid_amount (cs ++ b'.' ∷ ds) cs (ds ∷ []) decimals ≡ false
  unfolding is_invalid_amount
  valid decimals e =
      rw (is_empty_point cs (b'.' ∷ ds) some_whole, is_empty_digits cs some_whole, whole, part)
        (ground arith)

  parse_point :
      (decimals : ℕ)
      → length ds ≡ decimals
      → parse_decimal_to_units (cs ++ b'.' ∷ ds) decimals
        ≡ some (digits_value 0 cs * 10 ^ decimals + digits_value 0 ds)
  unfolding parse_decimal_to_units
  parse_point decimals e =
      rw (trim_point, split_point cs ds whole part, valid decimals e, padded decimals e) refl

module _ (units decimals : ℕ) (positive : 0 < decimals) where
  unfoldable pub low_part : List ℕ
  low_part = digits_of (units % 10 ^ decimals)

  low_part_le : length low_part ≤ decimals
  unfolding low_part
  low_part_le = length-digits_of _ decimals positive (mod-lt units (pow_pos decimals))

  pub length-padded : length (pad_start decimals low_part) ≡ decimals
  length-padded = omega (
    arith,
    length-append (zeros (decimals - length low_part)) low_part,
    length-zeros (decimals - length low_part),
    low_part_le,
  )

  pub value-padded : digits_value 0 (pad_start decimals low_part) ≡ units % 10 ^ decimals
  unfolding low_part
  value-padded = digits_value-zeros (decimals - length low_part) low_part ∙ digits_value-digits_of _

  padded_some : 0 < length (pad_start decimals low_part)
  padded_some = omega (arith, length-padded)

  pub padded_digits : every is_digit (pad_start decimals low_part) ≡ true
  unfolding low_part
  padded_digits =
      every-append is_digit (zeros (decimals - length low_part)) low_part
        (every_digit-zeros (decimals - length low_part))
        (every_digit-digits_of (units % 10 ^ decimals))

  -- Reading what was written gives the same units, for every positive number of decimals.
  pub parse-format :
      parse_decimal_to_units (format_units_to_decimal units decimals) decimals ≡ some units
  unfolding format_units_to_decimal low_part
  parse-format =
      parse_point (digits_of (units / 10 ^ decimals)) (pad_start decimals low_part)
        (every_digit-digits_of _) padded_digits (digits_of-ne-nil _) padded_some decimals
        length-padded
      ∙ ap some (rw (digits_value-digits_of, value-padded) (div-add-mod' units (10 ^ decimals)))
