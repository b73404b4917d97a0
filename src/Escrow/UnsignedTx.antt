-- ===== src/Escrow/UnsignedTx.antt =====
-- packages/pearl-escrow/src/unsigned-tx.ts
use pearl_infra.Prelude.{
  ℕ, ◌-◌, String, some, none, Option, List, [], ◌∷◌, not, ◌===◌, string_eq, ltb, leb, if◌then◌else◌,
  or_default, or_else,
}
use pearl_infra.Prelude.Lists.{head?}
use pearl_infra.Prelude.BigInts.{big_int}
use pearl_infra.Prelude.Text.{show, to_lower_case}
use pearl_infra.Escrow.Types.{
  PearlEscrowTemplateKind, release, refund, PearlEscrowInputTemplate, PearlEscrowTxTemplate,
  PearlEscrowPackage, CreatePearlEscrowUnsignedTxInput, PearlEscrowUnsignedTx, missing_outpoint,
  invalid_outpoint, invalid_fee, invalid_amount, fee_not_below_input, missing_output,
  invalid_address, unsafe_amount, invalid_transaction, EscrowResult, fails, returns,
}
use pearl_infra.Escrow.Texts.{is_txid, is_non_negative_integer, split_colon}

abbrev pub select_template : PearlEscrowPackage → PearlEscrowTemplateKind → PearlEscrowTxTemplate
select_template escrow release = escrow.release_template
select_template escrow refund = escrow.refund_template

-- `template.inputs[0]?.outpoint`
abbrev pub first_outpoint : Option PearlEscrowInputTemplate → Option String
first_outpoint none = none
first_outpoint (some input) = input.outpoint

-- `Number.MAX_SAFE_INTEGER`
abbrev pub max_safe_integer : ℕ
max_safe_integer = 9007199254740991

-- What the transaction is made of: its version is 2, and it has one input and one output.
pub record TxParts : Type 0 where
  pub lock_time : ℕ
  pub txid : String
  pub vout : ℕ
  pub sequence : ℕ
  pub script : String
  pub amount : ℕ

-- The amounts: the fee that is asked for, and what is left of the input.
abbrev pub output_amount : Option ℕ → Option ℕ → EscrowResult ℕ
output_amount none fee = fails invalid_amount
output_amount (some input) none = fails invalid_fee
output_amount (some input) (some fee) =
    if leb input fee then fails fee_not_below_input else returns (input - fee)

unfoldable pub checked_amount : PearlEscrowPackage → String → EscrowResult ℕ
checked_amount escrow fee_grains =
    if not (is_non_negative_integer fee_grains)
    then fails invalid_fee
    else output_amount (big_int escrow.expected_amount_grains) (big_int fee_grains)

-- `Number(text)` where it is a non-negative integer; `Transaction.DEFAULT_SEQUENCE`;
-- `toOutputScript`, which may throw; and the transaction of bitcoinjs-lib in hexadecimal, which
-- checks its parts.
module _ (number_of : String → Option ℕ) (default_sequence : ℕ)
    (to_output_script : String → String → Option String) (build_tx : TxParts → Option String) where
  abbrev parsed : String → String → EscrowResult (String × ℕ)
  parsed txid vout_raw =
      if not (is_txid txid) then fails invalid_outpoint else elim (number_of vout_raw) [
        | none ↦ fails invalid_outpoint
        | some vout ↦ returns (to_lower_case txid, vout)
      ]

  abbrev parsed_parts : String × List String → EscrowResult (String × ℕ)
  parsed_parts (txid, []) = fails invalid_outpoint
  parsed_parts (txid, vout_raw ∷ []) =
      if txid === ""
      then fails invalid_outpoint
      else if vout_raw === ""
      then fails invalid_outpoint
      else parsed txid vout_raw
  parsed_parts (txid, vout_raw ∷ extra ∷ more) = fails invalid_outpoint

  unfoldable pub parse_outpoint : String → EscrowResult (String × ℕ)
  parse_outpoint outpoint = parsed_parts (split_colon outpoint)

  abbrev default_sequence_for : PearlEscrowTxTemplate → ℕ
  default_sequence_for template = elim template.lock_time [
    | none ↦ default_sequence
    | some lock_time ↦ default_sequence - 1
  ]

  abbrev pub tx_parts : CreatePearlEscrowUnsignedTxInput → String × ℕ → String → ℕ → TxParts
  tx_parts input at script amount =
      let template = select_template input.escrow input.kind in
      record {
        lock_time = or_default template.lock_time 0;
        txid = at.0;
        vout = at.1;
        sequence = or_default input.sequence (default_sequence_for template);
        script = script;
        amount = amount;
      }

  -- The output of the transaction: its script, its amount as a number, and the whole.
  unfoldable pub built_tx :
      CreatePearlEscrowUnsignedTxInput → String × ℕ → String → ℕ → EscrowResult String
  built_tx input at address amount = elim (to_output_script address input.escrow.network) [
    | none ↦ fails invalid_address
    | some script ↦
        if ltb max_safe_integer amount
        then fails unsafe_amount
        else elim (build_tx (tx_parts input at script amount)) [
          | none ↦ fails invalid_transaction
          | some hex ↦ returns hex
        ]
  ]

  abbrev pub unsigned_tx :
      CreatePearlEscrowUnsignedTxInput → String → ℕ → String → PearlEscrowUnsignedTx
  unsigned_tx input outpoint amount hex = record {
    kind = input.kind;
    unsigned_tx_hex = hex;
    input_outpoint = outpoint;
    input_amount_grains = input.escrow.expected_amount_grains;
    output_amount_grains = show amount;
    fee_grains = or_default input.fee_grains "0";
    lock_time = or_default (select_template input.escrow input.kind).lock_time 0;
  }

  unfoldable pub spend_outpoint :
      CreatePearlEscrowUnsignedTxInput → String → EscrowResult PearlEscrowUnsignedTx
  spend_outpoint input outpoint =
      elim (checked_amount input.escrow (or_default input.fee_grains "0")) [
        | fails error ↦ fails error
        | returns amount ↦ elim (head? (select_template input.escrow input.kind).outputs) [
          | none ↦ fails missing_output
          | some output ↦ elim (parse_outpoint outpoint) [
            | fails error ↦ fails error
            | returns at ↦ elim (built_tx input at output.address amount) [
              | fails error ↦ fails error
              | returns hex ↦ returns (unsigned_tx input outpoint amount hex)
            ]
          ]
        ]
      ]

  unfoldable pub create_pearl_escrow_unsigned_tx :
      CreatePearlEscrowUnsignedTxInput → EscrowResult PearlEscrowUnsignedTx
  create_pearl_escrow_unsigned_tx input =
      elim (or_else input.escrow.funding_outpoint
        (first_outpoint (head? (select_template input.escrow input.kind).inputs))) [
          | none ↦ fails missing_outpoint
          | some outpoint ↦
              if outpoint === "" then fails missing_outpoint else spend_outpoint input outpoint
        ]
