-- ===== src/Watch/SpendKinds.antt =====
-- services/pearl-indexer/src/funding-scanner.ts: what a spend of a watched output is.
use pearl_infra.Prelude.{
  String, some, none, Option, List, [], ◌∷◌, ◌++◌, Bool, true, false, not, ◌&&◌, ◌||◌, ◌===◌,
  string_eq, if◌then◌else◌, ltb, leb, map,
}
use pearl_infra.Prelude.Lists.{length, filter, find, includes}
use pearl_infra.Prelude.Map.{get}
use pearl_infra.Prelude.Digits.{digits_value}
use pearl_infra.Prelude.BigInts.{codes}
use pearl_infra.Prelude.Text.{show, truthy, concat}
use pearl_infra.Indexer.Blocks.{PearlBlockOutput}
use pearl_infra.Watch.Types.{
  otc_escrow, bridge_deposit, bridge_reserve, purpose_name, WatchedAddress, MetadataValue,
  text_value, number_value, template_value, output_value, null_value, Metadata, RawField, raw_text,
  raw_number, raw_missing, RawOutput, ShownOutput,
}
use pearl_infra.Watch.Funding.{read_string_metadata, is_unsigned_integer_string}

pub data SpendClassification : Type 0 where
  release refund exit_release unknown_spend : SpendClassification

abbrev pub spend_name : SpendClassification → String
spend_name release = "release"
spend_name refund = "refund"
spend_name exit_release = "exit_release"
spend_name unknown_spend = "unknown_spend"

pub record ClassifiedSpend : Type 0 where
  pub classification : SpendClassification
  pub classification_data : Metadata

pub record ExpectedSpendOutput : Type 0 where
  pub source : String
  pub address : Option String
  pub amount_grains : Option String
  pub min_amount_grains : Option String
  pub max_amount_grains : Option String

-- 'release' | 'refund'
pub data SpendKind : Type 0 where
  to_release to_refund : SpendKind

abbrev pub kind_name : SpendKind → String
kind_name to_release = "release"
kind_name to_refund = "refund"

abbrev pub kind_classification : SpendKind → SpendClassification
kind_classification to_release = release
kind_classification to_refund = refund

abbrev equals_txid : String → Option String → Bool
equals_txid txid none = false
equals_txid txid (some read) = read === txid

unfoldable pub classify_by_expected_txid : WatchedAddress → String → Option SpendKind
classify_by_expected_txid watch spend_txid =
    if equals_txid spend_txid (read_string_metadata watch "release_txid")
    then some to_release
    else if equals_txid spend_txid (read_string_metadata watch "pearl_release_txid")
    then some to_release
    else if equals_txid spend_txid (read_string_metadata watch "refund_txid")
    then some to_refund
    else if equals_txid spend_txid (read_string_metadata watch "pearl_refund_txid")
    then some to_refund
    else none

abbrev pub shown : PearlBlockOutput → ShownOutput
shown output = record {
  txid = output.txid;
  vout = output.vout;
  address = output.script_pub_key.address;
  amount_grains = output.amount_grains;
}

-- The values that are there.
unfoldable pub present : List (Option String) → List String
present [] = []
present (none ∷ texts) = present texts
present (some text ∷ texts) = text ∷ present texts

abbrev is_external : List String → PearlBlockOutput → Bool
is_external change output = elim output.script_pub_key.address [
  | none ↦ false
  | some address ↦ truthy (some address) && not (includes change address)
]

-- The addresses are tested for being truthy; those read from metadata always are.
unfoldable pub change_addresses : WatchedAddress → List String
change_addresses watch =
    (if truthy (some watch.address) then watch.address ∷ [] else [])
    ++ present (
        read_string_metadata watch "reserve_address"
        ∷ read_string_metadata watch "change_address"
        ∷ read_string_metadata watch "reserve_change_address"
        ∷ [])

abbrev text_or_null : Option String → MetadataValue
text_or_null none = null_value
text_or_null (some text) = text_value text

-- What the outputs to other addresses than the reserve's come to.
abbrev pub reserve_verdict : String → List PearlBlockOutput → ClassifiedSpend
reserve_verdict spent_outpoint [] = record {
  classification = unknown_spend;
  classification_data =
      ("reason", text_value "no_external_release_output")
      ∷ ("spentOutpoint", text_value spent_outpoint)
      ∷ ("externalOutputCount", number_value 0)
      ∷ [];
}
reserve_verdict spent_outpoint (output ∷ []) = record {
  classification = exit_release;
  classification_data =
      ("matchedBy", text_value "single_external_reserve_output")
      ∷ ("amount_grains", text_value output.amount_grains)
      ∷ ("pearl_recipient", text_or_null output.script_pub_key.address)
      ∷ ("output", output_value (shown output))
      ∷ [];
}
reserve_verdict spent_outpoint (output ∷ second ∷ more) = record {
  classification = unknown_spend;
  classification_data =
      ("reason", text_value "ambiguous_external_release_outputs")
      ∷ ("spentOutpoint", text_value spent_outpoint)
      ∷ ("externalOutputCount", number_value (length (output ∷ second ∷ more)))
      ∷ [];
}

unfoldable pub classify_bridge_reserve_spend :
    WatchedAddress → String → List PearlBlockOutput → ClassifiedSpend
classify_bridge_reserve_spend watch spent_outpoint outputs =
    reserve_verdict spent_outpoint (filter (is_external (change_addresses watch)) outputs)

abbrev within : String → Option String → Option String → Bool
within amount none max = false
within amount (some min) none = false
within amount (some min) (some max) =
    is_unsigned_integer_string amount
    && (leb (digits_value 0 (codes min)) (digits_value 0 (codes amount))
        && leb (digits_value 0 (codes amount)) (digits_value 0 (codes max)))

-- The bounds are texts of digits wherever they are there, so that `BigInt` does not throw.
unfoldable pub output_amount_matches : String → ExpectedSpendOutput → Bool
output_amount_matches amount expected = elim expected.amount_grains [
  | some exact ↦ amount === exact
  | none ↦ within amount expected.min_amount_grains expected.max_amount_grains
]

abbrev address_matches : Option String → Option String → Bool
address_matches actual none = true
address_matches none (some address) = false
address_matches (some actual) (some address) = actual === address

abbrev pub output_matches : ExpectedSpendOutput → PearlBlockOutput → Bool
output_matches candidate output =
    address_matches output.script_pub_key.address candidate.address
    && output_amount_matches output.amount_grains candidate

-- The loop of `outputMatchesExpected`: `matchedBy` and the output, where one matches.
unfoldable pub first_match :
    List ExpectedSpendOutput → List PearlBlockOutput → Option (String × PearlBlockOutput)
first_match [] outputs = none
first_match (candidate ∷ expected) outputs =
    let rest = first_match expected outputs in
    elim (find (output_matches candidate) outputs) [
      | none ↦ rest
      | some output ↦ some (candidate.source, output)
    ]

abbrev ordered_bounds : String → String → Option (String × String)
ordered_bounds min max =
    if not (is_unsigned_integer_string min) || not (is_unsigned_integer_string max)
    then none
    else if ltb (digits_value 0 (codes max)) (digits_value 0 (codes min))
    then none
    else some (min, max)

abbrev both_bounds : Option String → Option String → Option (String × String)
both_bounds none max = none
both_bounds (some min) none = none
both_bounds (some min) (some max) = ordered_bounds min max

unfoldable pub read_direct_spend_amount_bounds :
    WatchedAddress → SpendKind → Option (String × String)
read_direct_spend_amount_bounds watch kind =
    both_bounds (read_string_metadata watch (concat (kind_name kind ∷ "_amount_min_grains" ∷ [])))
      (read_string_metadata watch (concat (kind_name kind ∷ "_amount_max_grains" ∷ [])))

abbrev field_text : RawField → Option String
field_text (raw_text text) = if text === "" then none else some text
field_text _ = none

-- `raw.amountGrains ?? raw.amount_grains`
abbrev field_or : RawField → RawField → RawField
field_or raw_missing other = other
field_or field other = field

abbrev amount_text : RawField → Option String
amount_text (raw_text text) = if text === "" then none else some text
amount_text (raw_number n) = some (show n)
amount_text _ = none

abbrev template_output : String → Option String → Option String → List ExpectedSpendOutput
template_output source none none = []
template_output source address amount =
    record {
      source = source;
      address = address;
      amount_grains = amount;
      min_amount_grains = none;
      max_amount_grains = none;
    }
    ∷ []

unfoldable pub read_outputs : List RawOutput → String → List ExpectedSpendOutput
read_outputs [] source = []
read_outputs (raw ∷ outputs) source =
    template_output source (field_text raw.address)
      (amount_text (field_or raw.amount_grains_camel raw.amount_grains_snake))
    ++ read_outputs outputs source

abbrev pub read_template_outputs : Option MetadataValue → String → List ExpectedSpendOutput
read_template_outputs (some (template_value outputs)) source = read_outputs outputs source
read_template_outputs _ source = []

abbrev direct_keys : SpendKind → List String
direct_keys to_release =
    "release_address" ∷ "release_destination_address" ∷ "buyer_pearl_address" ∷ "buyerPearlAddress"
    ∷ []
direct_keys to_refund =
    "refund_address" ∷ "refund_destination_address" ∷ "seller_pearl_refund_address"
    ∷ "sellerPearlRefundAddress" ∷ []

abbrev template_keys : SpendKind → String × String
template_keys to_release = ("release_template", "releaseTemplate")
template_keys to_refund = ("refund_template", "refundTemplate")

abbrev direct_output : String → String × String → String → ExpectedSpendOutput
direct_output source bounds address = record {
  source = source;
  address = some address;
  amount_grains = none;
  min_amount_grains = some bounds.0;
  max_amount_grains = some bounds.1;
}

abbrev direct_outputs : String → Option (String × String) → List String → List ExpectedSpendOutput
direct_outputs source none addresses = []
direct_outputs source (some bounds) addresses = map (direct_output source bounds) addresses

unfoldable pub read_expected_outputs : WatchedAddress → SpendKind → List ExpectedSpendOutput
read_expected_outputs watch kind =
    direct_outputs (concat (kind_name kind ∷ "_address" ∷ []))
      (read_direct_spend_amount_bounds watch kind)
      (present (map (read_string_metadata watch) (direct_keys kind)))
    ++ (read_template_outputs (get (template_keys kind).0 watch.metadata)
          (concat (kind_name kind ∷ "_template" ∷ []))
        ++ read_template_outputs (get (template_keys kind).1 watch.metadata)
            (concat (kind_name kind ∷ "_template" ∷ [])))

unfoldable pub output_matches_expected :
    WatchedAddress → SpendKind → List PearlBlockOutput → Option (String × PearlBlockOutput)
output_matches_expected watch kind outputs = first_match (read_expected_outputs watch kind) outputs

abbrev pub unknown : String → List (String × MetadataValue) → ClassifiedSpend
unknown reason data_fields = record {
  classification = unknown_spend;
  classification_data = ("reason", text_value reason) ∷ data_fields;
}

abbrev spend_fields : String → String → List (String × MetadataValue)
spend_fields spent_outpoint spend_txid =
    ("spentOutpoint", text_value spent_outpoint) ∷ ("spendTxid", text_value spend_txid) ∷ []

-- The branch `if (txidMatch)`: `expected` is the match of the kind that the id names.
abbrev pub verdict_by_txid :
    String
    → String
    → SpendKind
    → Option (String × PearlBlockOutput)
    → Option (String × PearlBlockOutput)
    → ClassifiedSpend
verdict_by_txid spend_txid spent_outpoint kind (some (source, output)) none = record {
  classification = kind_classification kind;
  classification_data =
      ("matchedBy", text_value (concat (kind_name kind ∷ "_txid_and_" ∷ source ∷ [])))
      ∷ ("spendTxid", text_value spend_txid)
      ∷ ("output", output_value (shown output))
      ∷ [];
}
verdict_by_txid spend_txid spent_outpoint kind (some expected) (some opposite) =
    unknown "ambiguous_template_match"
      (("matchedTxidKind", text_value (kind_name kind)) ∷ spend_fields spent_outpoint spend_txid)
verdict_by_txid spend_txid spent_outpoint kind none opposite =
    unknown "txid_output_policy_mismatch"
      (("matchedTxidKind", text_value (kind_name kind)) ∷ spend_fields spent_outpoint spend_txid)

abbrev matched_spend : SpendClassification → String × PearlBlockOutput → ClassifiedSpend
matched_spend kind matched = record {
  classification = kind;
  classification_data =
      ("matchedBy", text_value matched.0) ∷ ("output", output_value (shown matched.1)) ∷ [];
}

-- The branches after it, on `releaseMatch` and `refundMatch`.
abbrev pub verdict_by_outputs :
    String
    → String
    → Option (String × PearlBlockOutput)
    → Option (String × PearlBlockOutput)
    → ClassifiedSpend
verdict_by_outputs spend_txid spent_outpoint (some matched) none = matched_spend release matched
verdict_by_outputs spend_txid spent_outpoint none (some matched) = matched_spend refund matched
verdict_by_outputs spend_txid spent_outpoint (some a) (some b) =
    unknown "ambiguous_template_match" (spend_fields spent_outpoint spend_txid)
verdict_by_outputs spend_txid spent_outpoint none none =
    unknown "no_release_or_refund_template_match" (spend_fields spent_outpoint spend_txid)

abbrev pub verdict_by_kind :
    Option SpendKind
    → String
    → String
    → Option (String × PearlBlockOutput)
    → Option (String × PearlBlockOutput)
    → ClassifiedSpend
verdict_by_kind (some to_release) spend_txid spent_outpoint releases refunds =
    verdict_by_txid spend_txid spent_outpoint to_release releases refunds
verdict_by_kind (some to_refund) spend_txid spent_outpoint releases refunds =
    verdict_by_txid spend_txid spent_outpoint to_refund refunds releases
verdict_by_kind none spend_txid spent_outpoint releases refunds =
    verdict_by_outputs spend_txid spent_outpoint releases refunds

unfoldable pub classify_escrow_spend :
    WatchedAddress → String → String → List PearlBlockOutput → ClassifiedSpend
classify_escrow_spend watch spend_txid spent_outpoint outputs =
    verdict_by_kind (classify_by_expected_txid watch spend_txid) spend_txid spent_outpoint
      (output_matches_expected watch to_release outputs)
      (output_matches_expected watch to_refund outputs)

unfoldable pub classify_spend :
    WatchedAddress → String → String → List PearlBlockOutput → ClassifiedSpend
classify_spend watch spend_txid spent_outpoint outputs = elim watch.purpose [
  | bridge_reserve ↦ classify_bridge_reserve_spend watch spent_outpoint outputs
  | otc_escrow ↦ classify_escrow_spend watch spend_txid spent_outpoint outputs
  | bridge_deposit ↦
      unknown "unsupported_watch_purpose"
        (("purpose", text_value (purpose_name bridge_deposit)) ∷ [])
]
