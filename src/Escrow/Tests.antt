-- ===== src/Escrow/Tests.antt =====
-- The theorems about escrows on one escrow.
use pearl_infra.Prelude.{ℕ, String, ◌≡◌, refl, some, none, Option, [], ◌∷◌, true}
use pearl_infra.Prelude.Digits.{digits_value}
use pearl_infra.Prelude.BigInts.{codes, big_int}
use pearl_infra.Prelude.Text.{show, concat, to_lower_case}
use pearl_infra.Escrow.Types.{
  release, refund, PearlEscrowTxTemplate, PearlEscrowTemplateKind, PearlEscrowPackage,
  PearlEscrowFundingCandidate, PearlEscrowFundingMatch, matched, CreatePearlEscrowUnsignedTxInput,
  PearlEscrowUnsignedTx, PearlEscrowSignerPolicyInput, PearlEscrowSignerRequest, returns,
}
use pearl_infra.Escrow.Texts.{
  is_txid, is_positive_integer, is_non_negative_integer, without_prefix, normalize_hex, split_colon,
}
use pearl_infra.Escrow.Funding.{
  create_funding_match, funding_status, candidate_script_pub_key_hex,
  match_pearl_escrow_funding_output,
}
use pearl_infra.Escrow.UnsignedTx.{
  TxParts, checked_amount, parse_outpoint, built_tx, spend_outpoint,
  create_pearl_escrow_unsigned_tx,
}
use pearl_infra.Escrow.SignerRequest.{
  policy_error, create_pearl_escrow_tx_template_hash, create_pearl_escrow_signer_request,
  create_pearl_escrow_idempotency_key,
}
use pearl_infra.Escrow.Paying.{Pays, unsigned_tx-Pays}
use pearl_infra.Escrow.Asking.{Asked, request_pays_destination}
use pearl_infra.Escrow.Matching.{IsFunding, matched-IsFunding}

abbrev txid : String
txid = "00112233445566778899aabbccddeeff00112233445566778899aabbccddeeff"

abbrev outpoint : String
outpoint = "00112233445566778899aabbccddeeff00112233445566778899aabbccddeeff:1"

-- Stand-ins for the calls of other packages.
abbrev number_of : String → Option ℕ
number_of = big_int

abbrev to_output_script : String → String → Option String
to_output_script address network = some "5120aa"

abbrev build_tx : TxParts → Option String
build_tx parts = some "0200"

abbrev sha256_json : PearlEscrowUnsignedTx → String
sha256_json tx = "h"

abbrev template : PearlEscrowTemplateKind → String → PearlEscrowTxTemplate
template kind address = record {
  kind = kind;
  inputs = [];
  outputs = record { address = address; amount_grains = "500" } ∷ [];
  lock_time = none;
}

abbrev escrow : PearlEscrowPackage
escrow = record {
  trade_id = "t1";
  network = "mainnet";
  escrow_address = "prl1escrow";
  expected_amount_grains = "500";
  required_confirmations = 2;
  funding_outpoint = some outpoint;
  release_template = template release "prl1buyer";
  refund_template = template refund "prl1seller";
  taproot_output_script_hex = "5120aa";
}

abbrev created : CreatePearlEscrowUnsignedTxInput
created = record { escrow = escrow; kind = release; fee_grains = some "20"; sequence = none }

abbrev tx : PearlEscrowUnsignedTx
tx = record {
  kind = release;
  unsigned_tx_hex = "0200";
  input_outpoint = outpoint;
  input_amount_grains = "500";
  output_amount_grains = "480";
  fee_grains = "20";
  lock_time = 0;
}

tx_created :
    create_pearl_escrow_unsigned_tx number_of 4294967295 to_output_script build_tx created
    ≡ returns tx
unfolding create_pearl_escrow_unsigned_tx spend_outpoint checked_amount is_non_negative_integer
    is_positive_integer big_int codes digits_value parse_outpoint split_colon is_txid to_lower_case
    built_tx show
tx_created = refl

unsigned_tx-Pays_example : Pays number_of 4294967295 to_output_script build_tx created tx
unsigned_tx-Pays_example =
    unsigned_tx-Pays number_of 4294967295 to_output_script build_tx created tx tx_created

abbrev policy : PearlEscrowSignerPolicyInput
policy = record {
  escrow = escrow;
  action = release;
  unsigned_tx = tx;
  destination_address = "prl1buyer";
  fee_grains = "20";
  fee_cap_grains = "100";
  policy_version = "v1";
  decision_event_id = "d1";
  derivation_path = none;
  signer_key_id = none;
  observed_state_hash = "o1";
}

abbrev request : PearlEscrowSignerRequest
request = record {
  trade_id = "t1";
  action = release;
  network = "mainnet";
  funding_outpoint = outpoint;
  unsigned_tx_hex = "0200";
  tx_template_hash = "sha256:h";
  policy_version = "v1";
  decision_event_id = "d1";
  idempotency_key = create_pearl_escrow_idempotency_key "t1" release outpoint "sha256:h";
  derivation_path = none;
  signer_key_id = none;
  destination_address = "prl1buyer";
  fee_grains = "20";
  fee_cap_grains = "100";
  output_amount_grains = "480";
  observed_state_hash = "o1";
  created_at = "2026-01-01";
}

request_made : create_pearl_escrow_signer_request sha256_json policy "2026-01-01" ≡ returns request
unfolding create_pearl_escrow_signer_request policy_error is_non_negative_integer
    is_positive_integer big_int codes digits_value create_pearl_escrow_tx_template_hash
    normalize_hex without_prefix to_lower_case concat
request_made = refl

request_pays_destination_example :
    Asked number_of 4294967295 to_output_script build_tx created request
request_pays_destination_example =
    request_pays_destination number_of 4294967295 to_output_script build_tx sha256_json created
      policy "2026-01-01" request refl tx_created request_made

abbrev candidate : PearlEscrowFundingCandidate
candidate = record {
  txid = txid;
  vout = 1;
  amount_grains = "500";
  address = some "prl1escrow";
  script_pub_key_hex = none;
  block_height = some 7;
  confirmations = some 1;
}

abbrev funding_match : PearlEscrowFundingMatch
funding_match = record {
  is_matched = true;
  status = matched;
  outpoint = outpoint;
  expected_amount_grains = "500";
  observed_amount_grains = "500";
  script_pub_key_hex = "5120aa";
  block_height = some 7;
  confirmations = some 1;
}

candidate_matched :
    match_pearl_escrow_funding_output to_output_script escrow candidate ≡ returns funding_match
unfolding match_pearl_escrow_funding_output is_txid is_positive_integer codes
    candidate_script_pub_key_hex funding_status big_int digits_value create_funding_match concat
    show
candidate_matched = refl

matched-IsFunding_example : IsFunding to_output_script escrow candidate
matched-IsFunding_example =
    matched-IsFunding to_output_script escrow candidate funding_match candidate_matched refl
