-- ===== src/Bridge/Policy.antt =====
-- services/bridge-service/src/relayer-policy.ts
use pearl_infra.Prelude.{
  String, some, none, Option, List, [], ◌∷◌, Bool, not, ◌&&◌, ◌===◌, if◌then◌else◌, ltb, string_eq,
}
use mathlib.Core.Option.{map as map_option}
use pearl_infra.Prelude.Lists.{length, sort}
use pearl_infra.Prelude.Text.{concat, join, text_lt, truthy, show, slice_start}
use pearl_infra.Prelude.BigInts.{big_int, less, less_than, first_failure_or_throw}
use pearl_infra.Bridge.Quorum.{BridgeAttestationQuorum, BridgeAttestationQuorumStatus}
use pearl_infra.Bridge.Types.{
  MetadataValue, text_value, number_value, null_value, Metadata, ObservationMatchStatus, match_eq,
  BridgeExitStatus, exit_eq, exit_status_name, BridgeExitRequest, BridgePilotLimits,
  BridgeRelayerDecisionAction, wait, manual_review, prepare_mint, prepare_exit_release,
  mark_exit_released, relayer_action_name, BridgeRelayerDecision,
}
use pearl_infra.Bridge.Blockers.{DepositMintDecisionInput, get_deposit_blocker, text_of}

-- Of the reconciliation snapshot, the fields that the policy reads.
pub record BridgeReconciliationSnapshot : Type 0 where
  pub blockers : List String
  pub reserve_available_grains : String

pub record ExitReleaseDecisionInput : Type 0 where
  pub exit : BridgeExitRequest
  pub reconciliation : BridgeReconciliationSnapshot
  pub limits : BridgePilotLimits
  pub attestation_quorum : Option BridgeAttestationQuorum
  pub manual_approval_id : Option String

-- The action, the reason and the metadata that `decision` is called with.
pub record Verdict : Type 0 where
  pub action : BridgeRelayerDecisionAction
  pub reason : String
  pub metadata : Option Metadata

abbrev verdict : BridgeRelayerDecisionAction → String → Verdict
verdict action reason = record { action = action; reason = reason; metadata = none }

abbrev quorum_metadata : BridgeAttestationQuorum → Metadata
quorum_metadata quorum =
    ("eventHash", text_value quorum.event_hash)
    ∷ ("eventId", text_value quorum.event_id)
    ∷ ("relayerAttestations", number_value quorum.valid_attestation_count)
    ∷ []

unfoldable pub get_attestation_quorum_decision :
    Option BridgeAttestationQuorum → String → Option Verdict
get_attestation_quorum_decision none action =
    some (verdict wait (concat ("relayer quorum attestations are required before " ∷ action ∷ [])))
get_attestation_quorum_decision (some quorum) action = elim quorum.status [
  | BridgeAttestationQuorumStatus.manual_review ↦ some (record {
    action = manual_review;
    reason = concat ("relayer quorum is blocked: " ∷ join ", " quorum.blockers ∷ []);
    metadata = some (quorum_metadata quorum);
  })
  | BridgeAttestationQuorumStatus.wait ↦ some (record {
    action = wait;
    reason = concat (
        "waiting for relayer quorum attestations: "
        ∷ show quorum.valid_attestation_count
        ∷ "/"
        ∷ show quorum.required_attestations
        ∷ []);
    metadata = some (quorum_metadata quorum);
  })
  | BridgeAttestationQuorumStatus.approved ↦ none
]

abbrev text_or_null : Option String → MetadataValue
text_or_null none = null_value
text_or_null (some text) = text_value text

abbrev approved_metadata : String → String → BridgeAttestationQuorum → Metadata
approved_metadata amount approval quorum =
    ("amountGrains", text_value amount)
    ∷ ("approvalId", text_value approval)
    ∷ quorum_metadata quorum

-- The end of both decisions: the quorum, then the operator's approval. `none` stands for the
-- error `approved … quorum missing`.
unfoldable pub approve :
    Option BridgeAttestationQuorum
    → Option String
    → String
    → String
    → BridgeRelayerDecisionAction
    → String
    → String
    → Option Verdict
approve quorum approval step waiting action reason amount =
    elim (get_attestation_quorum_decision quorum step) [
      | some decided ↦ some decided
      | none ↦ elim quorum [
        | none ↦ none
        | some approved_quorum ↦
            if truthy approval
            then some (record {
              action = action;
              reason = reason;
              metadata = some (approved_metadata amount (text_of approval) approved_quorum);
            })
            else some (verdict wait waiting)
      ]
    ]

-- `!input.observation || input.observation.matchStatus !== 'confirmed'`, then the approval.
unfoldable pub confirmed_deposit : DepositMintDecisionInput → Option Verdict
confirmed_deposit input = elim input.observation [
  | none ↦ some (verdict wait "deposit does not have enough confirmations")
  | some o ↦
      if not (o.match_status === ObservationMatchStatus.confirmed)
      then some (verdict wait "deposit does not have enough confirmations")
      else approve input.attestation_quorum input.manual_approval_id "mint"
          "manual operator approval is required before mint" prepare_mint
          "confirmed Pearl deposit is approved for wPRL mint" o.amount_grains
]

-- `decideDepositMint` up to its calls of `decision`.
unfoldable pub deposit_verdict : DepositMintDecisionInput → Option Verdict
deposit_verdict input = elim (get_deposit_blocker input) [
  | none ↦ none
  | some (some reason) ↦ some (record {
    action = manual_review;
    reason = reason;
    metadata = some (
        ("watchId", text_value input.watch.watch_id)
        ∷ ("outpoint", text_or_null (map_option (λ o. o.outpoint) input.observation))
        ∷ []);
  })
  | some none ↦ confirmed_deposit input
]

abbrev pub exit_tests : ExitReleaseDecisionInput → List (Option Bool × Verdict)
exit_tests input =
    let exit = input.exit in
    let requested = big_int exit.requested_amount_grains in
    (
      some ((exit.status === BridgeExitStatus.released) && truthy exit.pearl_release_txid),
      verdict mark_exit_released "Pearl release already recorded for exit",
    )
    ∷ (
      some ((exit.status === BridgeExitStatus.processed) && truthy exit.pearl_release_txid),
      verdict wait "Igra exit is processed; waiting for Pearl reserve spend confirmation",
    )
    ∷ (
      some (not (exit.status === BridgeExitStatus.pending)),
      verdict wait (concat ("exit is not pending: " ∷ exit_status_name exit.status ∷ [])),
    )
    ∷ (
      some (ltb 0 (length input.reconciliation.blockers)),
      verdict manual_review (
          concat
            ("bridge reconciliation is blocked: " ∷ join ", " input.reconciliation.blockers ∷ [])),
    )
    ∷ (
      less (big_int input.limits.max_exit_grains) requested,
      verdict manual_review "exit exceeds max exit cap",
    )
    ∷ (
      less_than input.reconciliation.reserve_available_grains requested,
      verdict manual_review "exit exceeds available Pearl reserves",
    )
    ∷ []

-- `decideExitRelease` up to its calls of `decision`.
unfoldable pub exit_verdict : ExitReleaseDecisionInput → Option Verdict
exit_verdict input = elim (first_failure_or_throw (exit_tests input)) [
  | none ↦ none
  | some (some decided) ↦ some decided
  | some none ↦
      approve input.attestation_quorum input.manual_approval_id "release"
        "manual operator approval is required before Pearl release" prepare_exit_release
        "pending Igra exit is approved for Pearl reserve release" input.exit.requested_amount_grains
]

-- `[...].filter(Boolean).sort()`
abbrev source_ids_of : List (Option String) → List String
source_ids_of [] = []
source_ids_of (id ∷ ids) = if truthy id then text_of id ∷ source_ids_of ids else source_ids_of ids

-- Node's `createHash('sha256')` with its hexadecimal digest, and `JSON.stringify` of an object with
-- the given entries, are parameters.
module _ (hex_digest : String → String) (json_stringify : Metadata → String) where
  abbrev sha256 : String → String
  sha256 value = slice_start 24 (hex_digest value)

  abbrev stable_metadata : Option Metadata → String
  stable_metadata none = ""
  stable_metadata (some metadata) = json_stringify (sort (λ a b. text_lt a.0 b.0) metadata)

  abbrev pub decision : Verdict → List String → BridgeRelayerDecision
  decision v source_ids = record {
    action = v.action;
    reason = v.reason;
    idempotency_key = join ":" (
        "bridge"
        ∷ relayer_action_name v.action
        ∷ join "+" source_ids
        ∷ sha256 (concat (v.reason ∷ ":" ∷ stable_metadata v.metadata ∷ []))
        ∷ []);
    source_ids = source_ids;
    metadata = v.metadata;
  }

  unfoldable pub decide_deposit_mint : DepositMintDecisionInput → Option BridgeRelayerDecision
  decide_deposit_mint input =
      map_option
        (λ v. decision v (
          sort text_lt (
            source_ids_of
              (some input.watch.watch_id ∷ map_option (λ o. o.outpoint) input.observation ∷ []))))
        (deposit_verdict input)

  unfoldable pub decide_exit_release : ExitReleaseDecisionInput → Option BridgeRelayerDecision
  decide_exit_release input =
      map_option
        (λ v. decision v (
          sort text_lt (
            source_ids_of (
              some input.exit.exit_id
              ∷ some input.exit.igra_burn_txid
              ∷ input.exit.pearl_release_txid
              ∷ []))))
        (exit_verdict input)
