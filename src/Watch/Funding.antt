-- ===== src/Watch/Funding.antt =====
-- services/pearl-indexer/src/funding-scanner.ts: what a watch's metadata says, and the verdict on an
-- output that pays to it.
use pearl_infra.Prelude.{
  ℕ, String, some, none, Option, Bool, false, ◌&&◌, ◌||◌, ◌===◌, string_eq, if◌then◌else◌, ltb,
  or_else, is_some,
}
use pearl_infra.Prelude.Lists.{length, every}
use pearl_infra.Prelude.Map.{get}
use pearl_infra.Prelude.Digits.{is_digit, digits_value}
use pearl_infra.Prelude.BigInts.{codes, big_int}
use pearl_infra.Prelude.Text.{show}
use pearl_infra.Prelude.Dates.{Timestamp, earlier}
use pearl_infra.Indexer.Blocks.{PearlBlockOutput, PearlBlockSummary}
use pearl_infra.Watch.Types.{WatchedAddress, text_value, number_value}

pub data FundingClassification : Type 0 where
  on_time late underpaid overpaid duplicate reorged unknown_funding : FundingClassification

abbrev pub classification_name : FundingClassification → String
classification_name on_time = "on_time"
classification_name late = "late"
classification_name underpaid = "underpaid"
classification_name overpaid = "overpaid"
classification_name duplicate = "duplicate"
classification_name reorged = "reorged"
classification_name unknown_funding = "unknown_funding"

-- `/^\d+$/`
abbrev pub is_unsigned_integer_string : String → Bool
is_unsigned_integer_string text = ltb 0 (length (codes text)) && every is_digit (codes text)

unfoldable pub read_string_metadata : WatchedAddress → String → Option String
read_string_metadata watch key = elim (get key watch.metadata) [
  | some (text_value text) ↦ if text === "" then none else some text
  | some (number_value n) ↦ some (show n)
  | _ ↦ none
]

-- `Number(text)` is exact: a height has few digits.
unfoldable pub read_number_metadata : WatchedAddress → String → Option ℕ
read_number_metadata watch key = elim (get key watch.metadata) [
  | some (number_value n) ↦ some n
  | some (text_value text) ↦
      if is_unsigned_integer_string text then some (digits_value 0 (codes text)) else none
  | _ ↦ none
]

abbrev pub deadline_height : WatchedAddress → Option ℕ
deadline_height watch =
    or_else (read_number_metadata watch "pearl_funding_deadline_height")
      (read_number_metadata watch "expiry_height")

abbrev pub deadline_ts : WatchedAddress → Option String
deadline_ts watch = or_else (read_string_metadata watch "pearl_funding_deadline_ts") (
    or_else (read_string_metadata watch "pearl_funding_deadline")
      (read_string_metadata watch "expiry_ts"))

-- The comparison of what `BigInt` returned.
abbrev pub compare_amounts : Option ℕ → Option ℕ → Bool → Option FundingClassification
compare_amounts none expected past = none
compare_amounts (some observed) none past = none
compare_amounts (some observed) (some expected) past = some (
    if past
    then late
    else if ltb observed expected
    then underpaid
    else if ltb expected observed
    then overpaid
    else on_time)

abbrev pub has_deadline : Option ℕ → Option String → Bool
has_deadline height ts = is_some height || is_some ts

-- `new Date(text).getTime()`
module _ (parse_date : String → Timestamp) where
  abbrev pub is_past_deadline : PearlBlockSummary → Option ℕ → Option String → Bool
  is_past_deadline block (some height) ts = ltb height block.height
  is_past_deadline block none (some ts) = earlier (parse_date ts) block.timestamp
  is_past_deadline block none none = false

  -- `none` is the exception that `BigInt` throws.
  unfoldable pub classify_funding :
      PearlBlockOutput → PearlBlockSummary → WatchedAddress → Option FundingClassification
  classify_funding output block watch = elim (read_string_metadata watch "expected_amount_grains") [
    | none ↦ some unknown_funding
    | some expected ↦
        if has_deadline (deadline_height watch) (deadline_ts watch)
        then compare_amounts (big_int output.amount_grains) (big_int expected)
            (is_past_deadline block (deadline_height watch) (deadline_ts watch))
        else some unknown_funding
  ]
