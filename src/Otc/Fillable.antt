-- ===== src/Otc/Fillable.antt =====
-- services/otc-api: the check of an order before a quote is accepted, and the fill that follows it.
use pearl_infra.Prelude.{
  ℕ, ◌-◌, String, ◌≡◌, refl, inl, inr, some, true, false, arith, if◌then◌else◌, ltb, ◌==◌,
  Bool-cases,
}
use pearl_infra.Otc.Types.{OtcOrder, done, filled, partially_filled}
use pearl_infra.Otc.Orders.{
  is_fillable, filled_to, fill_order, parse_decimal_units, format_decimal_units,
}
use pearl_infra.Otc.Sweeps.{assert_order_fillable, is_expired}
use pearl_infra.Otc.Units.{parse_units-format, sdk-parse-format}

check_passed :
    (order : OtcOrder) (r a now : ℕ)
    → order.remaining_prl ≡ format_decimal_units r 8
    → assert_order_fillable order (format_decimal_units a 8) now ≡ done tt
    → (is_fillable order.status ≡ true) × (ltb r a ≡ false)
unfolding assert_order_fillable
check_passed order r a now left e = elim (Bool-cases (is_fillable order.status)) [
  | inr b ↦ absurd (ground (arith, rw (assert_order_fillable, b) at e))
  | inl b ↦ elim (Bool-cases (is_expired now order.expires_at)) [
    | inl late ↦ absurd (ground (arith, rw (assert_order_fillable, b, late) at e))
    | inr early ↦ elim (Bool-cases (ltb r a)) [
      | inr fits ↦ (b, fits)
      | inl big ↦ absurd (
          ground (
            arith,
            rw
                (
                  assert_order_fillable,
                  b,
                  early,
                  left,
                  sdk-parse-format a 8 (omega arith),
                  sdk-parse-format r 8 (omega arith),
                  big,
                )
                at e,
          ))
    ]
  ]
]

-- Where the check of an order passes, filling it succeeds, and leaves the difference: the order is
-- filled exactly where nothing is left. Both amounts are texts as the program writes them.
pub fillable_fills :
    (order : OtcOrder) (r a now : ℕ) (updated_at : String)
    → order.remaining_prl ≡ format_decimal_units r 8
    → assert_order_fillable order (format_decimal_units a 8) now ≡ done tt
    → (updated : OtcOrder) × (fill_order (format_decimal_units a 8) updated_at order ≡ done updated)
      × (parse_decimal_units updated.remaining_prl 8 ≡ some (r - a))
      × (updated.status ≡ (if r == a then filled else partially_filled))
unfolding fill_order
fillable_fills order r a now updated_at left e =
    let (b, fits) = check_passed order r a now left e in
    let status_same : (if (r - a) == 0 then filled else partially_filled)
        ≡ (if r == a then filled else partially_filled) =
      ground (arith, fits) in
    (
      filled_to (r - a) updated_at order,
      rw
          (
            fill_order,
            b,
            left,
            parse_units-format r 8 (omega arith),
            parse_units-format a 8 (omega arith),
            fits,
          )
          refl,
      parse_units-format (r - a) 8 (omega arith),
      status_same,
    )
