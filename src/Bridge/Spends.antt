-- ===== src/Bridge/Spends.antt =====
-- services/bridge-service/src/reserve-spend-matcher.ts
use pearl_infra.Prelude.{
  ℕ, String, some, none, Option, List, [], ◌∷◌, Bool, false, not, ◌&&◌, ◌||◌, ◌===◌, if◌then◌else◌,
  leb, ltb, string_eq,
}
use pearl_infra.Prelude.Lists.{length, filter, any, every, head?}
use pearl_infra.Prelude.Map.{get}
use pearl_infra.Prelude.Digits.{is_digit, digits_value}
use pearl_infra.Prelude.Text.{to_lower_case, truthy, show}
use pearl_infra.Prelude.BigInts.{codes}
use pearl_infra.Bridge.Types.{
  Metadata, MetadataValue, text_value, number_value, BridgeAddressSpend, BridgeExitStatus, exit_eq,
  BridgeExitRequest,
}
use pearl_infra.Bridge.Exits.{normalize_pearl_txid}

pub data MatchStatus : Type 0 where
  matched_exit_release unknown_spend amount_mismatch recipient_mismatch duplicate_release_txid :
      MatchStatus

pub record ReserveSpendMatch : Type 0 where
  pub spend_txid : String
  pub status : MatchStatus
  pub exit_id : Option String
  pub blockers : List String

-- `metadata?.[key]`
abbrev lookup : Option Metadata → String → Option MetadataValue
lookup none key = none
lookup (some metadata) key = get key metadata

-- `/^\d+$/` and `BigInt(value).toString()`
unfoldable pub normalize_amount_grains : String → Option String
normalize_amount_grains value =
    if ltb 0 (length (codes value)) && every is_digit (codes value)
    then some (show (digits_value 0 (codes value)))
    else none

-- `Number.MAX_SAFE_INTEGER`
abbrev max_safe_integer : ℕ
max_safe_integer = 9007199254740991

unfoldable pub read_amount_grains : Option Metadata → String → Option String
read_amount_grains metadata key = elim (lookup metadata key) [
  | some (text_value value) ↦ normalize_amount_grains value
  | some (number_value n) ↦ if leb n max_safe_integer then some (show n) else none
  | _ ↦ none
]

abbrev pub normalize_address : String → String
normalize_address = to_lower_case

unfoldable pub read_address : Option Metadata → String → Option String
read_address metadata key = elim (lookup metadata key) [
  | some (text_value value) ↦ if value === "" then none else some (normalize_address value)
  | _ ↦ none
]

abbrev unmatched : MatchStatus → BridgeAddressSpend → String → ReserveSpendMatch
unmatched status spend blocker = record {
  spend_txid = spend.spend_txid;
  status = status;
  exit_id = none;
  blockers = blocker ∷ [];
}

abbrev pub unknown : BridgeAddressSpend → String → ReserveSpendMatch
unknown spend blocker = unmatched unknown_spend spend blocker

-- `matched_exit_release` of an exit.
abbrev pub matched : BridgeAddressSpend → BridgeExitRequest → ReserveSpendMatch
matched spend exit = record {
  spend_txid = spend.spend_txid;
  status = matched_exit_release;
  exit_id = some exit.exit_id;
  blockers = [];
}

abbrev duplicate_of : BridgeAddressSpend → BridgeExitRequest → String → ReserveSpendMatch
duplicate_of spend exit blocker = record {
  spend_txid = spend.spend_txid;
  status = duplicate_release_txid;
  exit_id = some exit.exit_id;
  blockers = blocker ∷ [];
}

abbrev pub is_candidate : BridgeExitRequest → Bool
is_candidate exit =
    (exit.status === BridgeExitStatus.pending)
    || ((exit.status === BridgeExitStatus.processed) || (exit.status === BridgeExitStatus.released))

abbrev pub same_text : Option String → String → Bool
same_text none text = false
same_text (some other) text = other === text

abbrev pub has_amount : String → BridgeExitRequest → Bool
has_amount amount exit = same_text (normalize_amount_grains exit.requested_amount_grains) amount

abbrev pub has_recipient : String → BridgeExitRequest → Bool
has_recipient recipient exit = normalize_address exit.pearl_recipient === recipient

-- `exactCandidates`
unfoldable pub exact_candidates : String → String → List BridgeExitRequest → List BridgeExitRequest
exact_candidates amount recipient exits =
    filter (λ exit. has_amount amount exit && has_recipient recipient exit)
      (filter is_candidate exits)

-- `exact.pearlReleaseTxid ? normalizePearlTxid(exact.pearlReleaseTxid) : undefined`
abbrev pub exact_release_txid : Option String → Option String
exact_release_txid none = none
exact_release_txid (some txid) =
    if truthy (some txid) then some (normalize_pearl_txid txid) else none

abbrev pub has_normalized_txid : List String → String → Bool
has_normalized_txid txids txid = any (λ used. normalize_pearl_txid used === txid) txids

-- The branch of the one exit with the amount and the recipient of the spend.
unfoldable pub match_exact :
    BridgeAddressSpend → BridgeExitRequest → List String → ReserveSpendMatch
match_exact spend exact used =
    let release = exact_release_txid exact.pearl_release_txid in
    let txid = normalize_pearl_txid spend.spend_txid in
    if (exact.status === BridgeExitStatus.processed)
      && (truthy release && not (same_text release txid))
    then duplicate_of spend exact "processed_release_txid_mismatch"
    else if exact.status === BridgeExitStatus.released
    then (if same_text release txid
        then matched spend exact
        else duplicate_of spend exact "exit_already_released")
    else if has_normalized_txid used txid && not (same_text release txid)
    then unmatched duplicate_release_txid spend "release_txid_already_used"
    else matched spend exact

-- The branches behind it, where no exit has both.
unfoldable pub match_mismatch :
    BridgeAddressSpend → String → String → List BridgeExitRequest → ReserveSpendMatch
match_mismatch spend amount recipient exits =
    if truthy (some amount) && any (has_amount amount) (filter is_candidate exits)
    then unmatched recipient_mismatch spend "reserve_spend_recipient_mismatch"
    else if truthy (some recipient) && any (has_recipient recipient) (filter is_candidate exits)
    then unmatched amount_mismatch spend "reserve_spend_amount_mismatch"
    else unknown spend "unknown_reserve_spend"

unfoldable pub match_fields :
    BridgeAddressSpend → String → String → List BridgeExitRequest → List String → ReserveSpendMatch
match_fields spend amount recipient exits used =
    let exact = exact_candidates amount recipient exits in
    if ltb 1 (length exact)
    then unknown spend "ambiguous_exit_release_match"
    else elim (head? exact) [
      | some exit ↦ match_exact spend exit used
      | none ↦ match_mismatch spend amount recipient exits
    ]

-- `usedReleaseTxids` is empty where it is not given.
unfoldable pub match_reserve_spend_to_exit :
    BridgeAddressSpend → List BridgeExitRequest → List String → ReserveSpendMatch
match_reserve_spend_to_exit spend exits used =
    let amount = read_amount_grains spend.classification_data "amount_grains" in
    let recipient = read_address spend.classification_data "pearl_recipient" in
    if not (spend.classification === "exit_release")
    then unknown spend "reserve_spend_not_exit_release"
    else if not (truthy amount && truthy recipient)
    then unknown spend "reserve_spend_missing_match_fields"
    else elim amount [
      | none ↦ unknown spend "reserve_spend_missing_match_fields"
      | some a ↦ elim recipient [
        | none ↦ unknown spend "reserve_spend_missing_match_fields"
        | some r ↦ match_fields spend a r exits used
      ]
    ]
