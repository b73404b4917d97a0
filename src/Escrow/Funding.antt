-- ===== src/Escrow/Funding.antt =====
-- packages/pearl-escrow/src/funding.ts
use pearl_infra.Prelude.{
  ℕ, String, some, none, Option, [], ◌∷◌, Bool, true, false, not, ◌&&◌, ◌===◌, string_eq, ltb,
  if◌then◌else◌,
}
use pearl_infra.Prelude.BigInts.{big_int}
use pearl_infra.Prelude.Text.{concat, show, truthy}
use pearl_infra.Escrow.Types.{
  PearlEscrowPackage, PearlEscrowFundingCandidate, FundingMatchStatus, matched, underpaid, overpaid,
  script_mismatch, outpoint_mismatch, PearlEscrowFundingMatch, invalid_txid, invalid_amount,
  invalid_hex, missing_address, invalid_address, EscrowResult, fails, returns,
}
use pearl_infra.Escrow.Texts.{is_txid, is_positive_integer, normalize_hex}

abbrev pub is_match : FundingMatchStatus → Bool
is_match matched = true
is_match _ = false

-- Every caller passes `true` with `matched` and `false` with the other statuses.
unfoldable pub create_funding_match :
    PearlEscrowPackage
    → PearlEscrowFundingCandidate
    → String
    → String
    → FundingMatchStatus
    → PearlEscrowFundingMatch
create_funding_match escrow candidate outpoint script status = record {
  is_matched = is_match status;
  status = status;
  outpoint = outpoint;
  expected_amount_grains = escrow.expected_amount_grains;
  observed_amount_grains = candidate.amount_grains;
  script_pub_key_hex = script;
  block_height = candidate.block_height;
  confirmations = candidate.confirmations;
}

abbrev pub outpoint_of : PearlEscrowFundingCandidate → String
outpoint_of candidate = concat (candidate.txid ∷ ":" ∷ show candidate.vout ∷ [])

abbrev pub is_other_outpoint : Option String → String → Bool
is_other_outpoint none outpoint = false
is_other_outpoint (some expected) outpoint = truthy (some expected) && not (expected === outpoint)

-- The comparison of the two amounts, where `BigInt` may throw.
abbrev amount_status : Option ℕ → Option ℕ → EscrowResult FundingMatchStatus
amount_status none observed = fails invalid_amount
amount_status (some expected) none = fails invalid_amount
amount_status (some expected) (some observed) = returns (
    if ltb observed expected
    then underpaid
    else if ltb expected observed
    then overpaid
    else matched)

unfoldable pub funding_status :
    PearlEscrowPackage → PearlEscrowFundingCandidate → String → EscrowResult FundingMatchStatus
funding_status escrow candidate script =
    if is_other_outpoint escrow.funding_outpoint (outpoint_of candidate)
    then returns outpoint_mismatch
    else if not (script === escrow.taproot_output_script_hex)
    then returns script_mismatch
    else amount_status (big_int escrow.expected_amount_grains) (big_int candidate.amount_grains)

-- `bitcoinAddress.toOutputScript` in hexadecimal, with `none` for its exception.
module _ (to_output_script : String → String → Option String) where
  abbrev script_of_address : String → Option String → EscrowResult String
  script_of_address network none = fails missing_address
  script_of_address network (some address) =
      if address === "" then fails missing_address else elim (to_output_script address network) [
        | none ↦ fails invalid_address
        | some script ↦ returns script
      ]

  abbrev script_of_hex : String → EscrowResult String
  script_of_hex hex = elim (normalize_hex hex) [
    | none ↦ fails invalid_hex
    | some script ↦ returns script
  ]

  unfoldable pub candidate_script_pub_key_hex :
      PearlEscrowPackage → PearlEscrowFundingCandidate → EscrowResult String
  candidate_script_pub_key_hex escrow candidate = elim candidate.script_pub_key_hex [
    | none ↦ script_of_address escrow.network candidate.address
    | some hex ↦
        if hex === "" then script_of_address escrow.network candidate.address else script_of_hex hex
  ]

  unfoldable pub match_pearl_escrow_funding_output :
      PearlEscrowPackage → PearlEscrowFundingCandidate → EscrowResult PearlEscrowFundingMatch
  match_pearl_escrow_funding_output escrow candidate =
      if not (is_txid candidate.txid)
      then fails invalid_txid
      else if not (is_positive_integer candidate.amount_grains)
      then fails invalid_amount
      else elim (candidate_script_pub_key_hex escrow candidate) [
        | fails error ↦ fails error
        | returns script ↦ elim (funding_status escrow candidate script) [
          | fails error ↦ fails error
          | returns status ↦
              returns (create_funding_match escrow candidate (outpoint_of candidate) script status)
        ]
      ]
