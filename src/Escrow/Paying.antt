-- ===== src/Escrow/Paying.antt =====
-- packages/pearl-escrow/src: what an unsigned transaction pays, and what the signer is asked to
-- sign.
use pearl_infra.Prelude.{
  ℕ, ◌+◌, ◌-◌, ◌≤◌, ◌<◌, String, ◌≡◌, refl, ap, ◌∙◌, inl, inr, ◌⊎◌, some, Option, ◌===◌, arith, ltb,
  leb, or_default, or_else, Option-cases, Bool-cases,
}
use mathlib.Core.Path.{subst}
use pearl_infra.Prelude.Equality.{string_eq}
use pearl_infra.Prelude.Lists.{head?}
use pearl_infra.Prelude.BigInts.{big_int}
use pearl_infra.Prelude.Text.{show}
use pearl_infra.Escrow.Types.{
  kind_eq, PearlEscrowOutput, PearlEscrowPackage, CreatePearlEscrowUnsignedTxInput,
  PearlEscrowUnsignedTx, EscrowError, EscrowResult, fails, returns,
}
use pearl_infra.Escrow.Texts.{is_non_negative_integer}
use pearl_infra.Escrow.UnsignedTx.{
  select_template, first_outpoint, max_safe_integer, TxParts, checked_amount, parse_outpoint,
  tx_parts, built_tx, unsigned_tx, spend_outpoint, create_pearl_escrow_unsigned_tx,
}

pub Result-cases :
    {A : Type 0} (r : EscrowResult A)
    → ((e : EscrowError) × (r ≡ fails e)) ⊎ ((a : A) × (r ≡ returns a))
Result-cases (fails e) = inl (e, refl)
Result-cases (returns a) = inr (a, refl)

-- The fee that is taken, with `feeGrains ?? '0'`.
abbrev pub fee_text : CreatePearlEscrowUnsignedTxInput → String
fee_text input = or_default input.fee_grains "0"

checked_sum :
    (escrow : PearlEscrowPackage) (fee_grains : String) (amount : ℕ)
    → checked_amount escrow fee_grains ≡ returns amount
    → (total : ℕ) × (fee : ℕ) × (big_int escrow.expected_amount_grains ≡ some total)
      × (big_int fee_grains ≡ some fee)
      × (amount + fee ≡ total)
      × (0 < amount)
unfolding checked_amount
checked_sum escrow fee_grains amount e = elim (Bool-cases (is_non_negative_integer fee_grains)) [
  | inr b ↦ absurd (ground (arith, rw (checked_amount, b) at e))
  | inl b ↦ elim (Option-cases (big_int escrow.expected_amount_grains)) [
    | inl n ↦ absurd (ground (arith, rw (checked_amount, b, n) at e))
    | inr (total, t) ↦ elim (Option-cases (big_int fee_grains)) [
      | inl n ↦ absurd (ground (arith, rw (checked_amount, b, t, n) at e))
      | inr (fee, f) ↦ elim (Bool-cases (leb total fee)) [
        | inl big ↦ absurd (ground (arith, rw (checked_amount, b, t, f, big) at e))
        | inr small ↦
            let same : returns (total - fee) ≡ returns amount =
              rw (checked_amount, b, t, f, small) at e in
            (total, fee, t, f, ground (arith, same, small), ground (arith, same, small))
      ]
    ]
  ]
]

module _ (number_of : String → Option ℕ) (default_sequence : ℕ)
    (to_output_script : String → String → Option String) (build_tx : TxParts → Option String) where
  -- What a transaction that was built pays: all of the escrow but the fee, to the address of the
  -- template's first output.
  pub record Pays (input : CreatePearlEscrowUnsignedTxInput) (tx : PearlEscrowUnsignedTx)
      : Type 0 where
    pub total : ℕ
    pub fee : ℕ
    pub amount : ℕ
    pub output : PearlEscrowOutput
    pub script : String
    pub at : String × ℕ
    pub reads_total : big_int input.escrow.expected_amount_grains ≡ some total
    pub reads_fee : big_int (fee_text input) ≡ some fee
    pub adds_up : amount + fee ≡ total
    pub positive : 0 < amount
    pub safe : amount ≤ max_safe_integer
    pub first_output : head? (select_template input.escrow input.kind).outputs ≡ some output
    pub output_script : to_output_script output.address input.escrow.network ≡ some script
    pub spends :
        parse_outpoint number_of default_sequence to_output_script build_tx tx.input_outpoint
        ≡ returns at
    pub built :
        build_tx
          (tx_parts number_of default_sequence to_output_script build_tx input at script amount)
        ≡ some tx.unsigned_tx_hex
    pub same_kind : tx.kind ≡ input.kind
    pub same_fee : tx.fee_grains ≡ fee_text input
    pub shown : tx.output_amount_grains ≡ show amount

  built_parts :
      (input : CreatePearlEscrowUnsignedTxInput) (at : String × ℕ) (address hex : String)
      (amount : ℕ)
      → built_tx number_of default_sequence to_output_script build_tx input at address amount
        ≡ returns hex
      → (script : String) × (to_output_script address input.escrow.network ≡ some script)
        × (amount ≤ max_safe_integer)
        × (build_tx
              (tx_parts number_of default_sequence to_output_script build_tx input at script amount)
            ≡ some hex)
  unfolding built_tx
  built_parts input at address hex amount e =
      elim (Option-cases (to_output_script address input.escrow.network)) [
        | inl n ↦ absurd (ground (arith, rw (built_tx, n) at e))
        | inr (script, s) ↦ elim (Bool-cases (ltb max_safe_integer amount)) [
          | inl big ↦ absurd (ground (arith, rw (built_tx, s, big) at e))
          | inr small ↦
              elim (Option-cases (
                build_tx (
                  tx_parts number_of default_sequence to_output_script build_tx input at script
                    amount))) [
                      | inl n ↦ absurd (ground (arith, rw (built_tx, s, small, n) at e))
                      | inr (text, b) ↦
                          let same : returns text ≡ returns hex = rw (built_tx, s, small, b) at e in
                          let same_text : text ≡ hex = ground (arith, same) in
                          (script, s, ground (arith, small), b ∙ ap some same_text)
                    ]
        ]
      ]

  spend-Pays :
      (input : CreatePearlEscrowUnsignedTxInput) (outpoint : String) (tx : PearlEscrowUnsignedTx)
      → spend_outpoint number_of default_sequence to_output_script build_tx input outpoint
        ≡ returns tx
      → Pays input tx
  unfolding spend_outpoint
  spend-Pays input outpoint tx e =
      elim (Result-cases (checked_amount input.escrow (fee_text input))) [
        | inl (error, n) ↦ absurd (ground (arith, rw (spend_outpoint, n) at e))
        | inr (amount, c) ↦
            elim (Option-cases (head? (select_template input.escrow input.kind).outputs)) [
              | inl n ↦ absurd (ground (arith, rw (spend_outpoint, c, n) at e))
              | inr (output, o) ↦
                  elim (Result-cases (
                    parse_outpoint number_of default_sequence to_output_script build_tx outpoint)) [
                      | inl (error, n) ↦ absurd (ground (arith, rw (spend_outpoint, c, o, n) at e))
                      | inr (at_point, p) ↦
                          elim (Result-cases (
                            built_tx number_of default_sequence to_output_script build_tx input
                              at_point output.address amount)) [
                                | inl (error, n) ↦
                                    absurd (ground (arith, rw (spend_outpoint, c, o, p, n) at e))
                                | inr (hex, b) ↦
                                    let same : returns (
                                          unsigned_tx number_of default_sequence to_output_script
                                            build_tx input outpoint amount hex)
                                        ≡ returns tx =
                                      rw (spend_outpoint, c, o, p, b) at e in
                                    let made : unsigned_tx number_of default_sequence
                                          to_output_script build_tx input outpoint amount hex
                                        ≡ tx =
                                      ground (arith, same) in
                                    let (total, fee, t, f, sum, some_left) =
                                      checked_sum input.escrow (fee_text input) amount c in
                                    let (script, s, safe, built) =
                                      built_parts input at_point output.address hex amount b in
                                    subst (Pays input) made (record {
                                      total = total;
                                      fee = fee;
                                      amount = amount;
                                      output = output;
                                      script = script;
                                      at = at_point;
                                      reads_total = t;
                                      reads_fee = f;
                                      adds_up = sum;
                                      positive = some_left;
                                      safe = safe;
                                      first_output = o;
                                      output_script = s;
                                      spends = p;
                                      built = built;
                                      same_kind = refl;
                                      same_fee = refl;
                                      shown = refl;
                                    })
                              ]
                    ]
            ]
      ]

  -- A transaction that is created spends the whole escrow: its one output and the fee add up to the
  -- escrow's amount, the output is positive and at most 2^53 - 1, and it pays the script of the
  -- first output's address in the template of its kind.
  pub unsigned_tx-Pays :
      (input : CreatePearlEscrowUnsignedTxInput) (tx : PearlEscrowUnsignedTx)
      → create_pearl_escrow_unsigned_tx number_of default_sequence to_output_script build_tx input
        ≡ returns tx
      → Pays input tx
  unfolding create_pearl_escrow_unsigned_tx
  unsigned_tx-Pays input tx e =
      elim (Option-cases (
        or_else input.escrow.funding_outpoint
          (first_outpoint (head? (select_template input.escrow input.kind).inputs)))) [
            | inl n ↦ absurd (ground (arith, rw (create_pearl_escrow_unsigned_tx, n) at e))
            | inr (outpoint, o) ↦ elim (Bool-cases (outpoint === "")) [
              | inl empty ↦
                  absurd (ground (arith, rw (create_pearl_escrow_unsigned_tx, o, empty) at e))
              | inr named ↦
                  spend-Pays input outpoint tx (rw (create_pearl_escrow_unsigned_tx, o, named) at e)
            ]
          ]
