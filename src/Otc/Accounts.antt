-- ===== src/Otc/Accounts.antt =====
-- services/otc-api: the amounts of an order, and the changes that keep them.
use pearl_infra.Prelude.{
  ℕ, ◌+◌, ◌-◌, ◌≤◌, String, ◌≡◌, refl, inl, inr, ◌⊎◌, some, Option, Bool, true, false, not, arith,
  Option-cases, Bool-cases, ltb,
}
use mathlib.Core.Path.{subst}
use pearl_infra.Prelude.Equality.{string_eq}
use pearl_infra.Prelude.Map.{get, get-set_self}
use pearl_infra.Otc.Types.{
  Text, OtcOrderPrefundState, pending_funding, prefund_eq, OtcOrder, OtcError, Checked, throws,
  done,
}
use pearl_infra.Otc.Orders.{
  OrderRepository, put_order, update_order, is_fillable, in_state, guarded, filled_to, fill_order,
  reserve_order_fill, parse_decimal_units,
}
use pearl_infra.Otc.Sweeps.{remaining_of}
use pearl_infra.Otc.Units.{parse_units-format}
use pearl_infra.Otc.Calls.{fill_call, run_order_call}

pub Checked-cases :
    {A : Type 0} (c : Checked A) → ((e : OtcError) × (c ≡ throws e)) ⊎ ((a : A) × (c ≡ done a))
Checked-cases (throws e) = inl (e, refl)
Checked-cases (done a) = inr (a, refl)

module _ (order_id : String) where
  -- The order stands in the repository, with so many grains unfilled and so many of its prefund
  -- unswept, and it no longer waits for its funding.
  pub record Account (unfilled unswept : ℕ) (repo : OrderRepository) : Type 0 where
    pub order : OtcOrder
    pub stored : get order_id repo.orders ≡ some order
    pub own : order.order_id ≡ order_id
    pub remaining : parse_decimal_units order.remaining_prl 8 ≡ some unfilled
    pub prefund : remaining_of order ≡ some unswept
    pub past_funding : in_state pending_funding order.prefund_state ≡ false

  -- What a changed order has to show.
  pub record Facts (unfilled unswept : ℕ) (order : OtcOrder) : Type 0 where
    pub own : order.order_id ≡ order_id
    pub remaining : parse_decimal_units order.remaining_prl 8 ≡ some unfilled
    pub prefund : remaining_of order ≡ some unswept
    pub past_funding : in_state pending_funding order.prefund_state ≡ false

  pub put-Account :
      (r p : ℕ) (order : OtcOrder) (repo : OrderRepository)
      → Facts r p order
      → Account r p (put_order order_id order repo)
  put-Account r p order repo f = record {
    order = order;
    stored = get-set_self order_id order repo.orders;
    own = f.own;
    remaining = f.remaining;
    prefund = f.prefund;
    past_funding = f.past_funding;
  }

  -- A change that keeps the amounts.
  pub update-Account :
      (r p : ℕ) (change : OtcOrder → Checked OtcOrder) (repo : OrderRepository)
      (a : Account r p repo)
      → ((order : OtcOrder) → change a.order ≡ done order → Facts r p order)
      → Account r p (update_order order_id change repo).0
  unfolding update_order
  update-Account r p change repo a h = elim (Checked-cases (change a.order)) [
    | inl (error, e) ↦ rw (update_order, a.stored, e) a
    | inr (order, e) ↦ rw (update_order, a.stored, e) (put-Account r p order repo (h order e))
  ]

  pub guarded-Account :
      (r p : ℕ) (test : Option OtcOrderPrefundState → Bool) (change : OtcOrder → OtcOrder)
      (repo : OrderRepository) (a : Account r p repo)
      → (test a.order.prefund_state ≡ true → Facts r p (change a.order))
      → Account r p (update_order order_id (guarded test change) repo).0
  guarded-Account r p test change repo a h =
      update-Account r p (guarded test change) repo a (λ order e.
        elim (Bool-cases (test a.order.prefund_state)) [
          | inl t ↦
              let same : change a.order ≡ order = ground (arith, e, t) in
              subst (Facts r p) same (h t)
          | inr f ↦ absurd (ground (arith, e, f))
        ])

  -- The order after a call, with what the call filled and swept.
  abbrev pub Step : ℕ → ℕ → OrderRepository × (ℕ × ℕ) → Type 0
  Step r p (repo, (fills, sweeps)) =
      (unfilled : ℕ) × (unswept : ℕ) × Account unfilled unswept repo
      × (unfilled + fills ≡ r)
      × (unswept + sweeps ≡ p)

  pub same_amounts : (r p : ℕ) (repo : OrderRepository) → Account r p repo → Step r p (repo, (0, 0))
  same_amounts r p repo a = (r, p, a, omega arith, omega arith)

  filled-Facts :
      (r p fill : ℕ) (now : String) (order : OtcOrder)
      → Facts r p order
      → Facts (r - fill) p (filled_to (r - fill) now order)
  filled-Facts r p fill now order f = record {
    own = f.own;
    remaining = parse_units-format (r - fill) 8 (omega arith);
    prefund = f.prefund;
    past_funding = f.past_funding;
  }

  pub order-Facts : (r p : ℕ) (repo : OrderRepository) (a : Account r p repo) → Facts r p a.order
  order-Facts r p repo a = record {
    own = a.own;
    remaining = a.remaining;
    prefund = a.prefund;
    past_funding = a.past_funding;
  }

  fill_done :
      (r : ℕ) (amount : Text) (now : String) (order updated : OtcOrder)
      → parse_decimal_units order.remaining_prl 8 ≡ some r
      → fill_order amount now order ≡ done updated
      → (fill : ℕ) × (parse_decimal_units amount 8 ≡ some fill)
        × (fill ≤ r)
        × (filled_to (r - fill) now order ≡ updated)
  unfolding fill_order
  fill_done r amount now order updated e d = elim (Bool-cases (not (is_fillable order.status))) [
    | inl b ↦ absurd (ground (arith, rw (fill_order, b) at d))
    | inr b ↦ elim (Option-cases (parse_decimal_units amount 8)) [
      | inl n ↦ absurd (ground (arith, rw (fill_order, b, e, n) at d))
      | inr (fill, f) ↦ elim (Bool-cases (ltb r fill)) [
        | inl small ↦ absurd (ground (arith, rw (fill_order, b, e, f, small) at d))
        | inr fits ↦
            (fill, f, ground (arith, fits), ground (arith, rw (fill_order, b, e, f, fits) at d))
      ]
    ]
  ]

  pub fill-Step :
      (r p : ℕ) (amount : Text) (now : String) (repo : OrderRepository)
      → Account r p repo
      → Step r p (run_order_call order_id (fill_call amount now) repo)
  unfolding reserve_order_fill update_order
  fill-Step r p amount now repo a = elim (Checked-cases (fill_order amount now a.order)) [
    | inl (error, e) ↦
        rw (reserve_order_fill, update_order, a.stored, e) (r, p, a, omega arith, omega arith)
    | inr (updated, e) ↦
        let (fill, f, fits, same) = fill_done r amount now a.order updated a.remaining e in
        rw (reserve_order_fill, update_order, a.stored, e, f)
          (
            r - fill,
            p,
            put-Account (r - fill) p updated repo (
                subst (Facts (r - fill) p) same
                  (filled-Facts r p fill now a.order (order-Facts r p repo a))),
            omega arith,
            omega arith,
          )
  ]
