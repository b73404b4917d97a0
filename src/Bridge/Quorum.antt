-- ===== src/Bridge/Quorum.antt =====
-- services/bridge-service/src/attestations.ts
use pearl_infra.Prelude.{
  ℕ, String, Option, List, [], ◌∷◌, ◌++◌, Bool, not, ◌||◌, ◌===◌, if◌then◌else◌, leb, ltb, ◌==◌,
  string_eq, map,
}
use pearl_infra.Prelude.Lists.{unique, length, any, includes, sort}
use pearl_infra.Prelude.Map.{Dict, set, has}
use pearl_infra.Prelude.Text.{concat, text_lt}
use pearl_infra.Bridge.Types.{Metadata}

pub data BridgeEventKind : Type 0 where
  deposit exit : BridgeEventKind

pub data BridgeAttestationQuorumStatus : Type 0 where
  approved wait manual_review : BridgeAttestationQuorumStatus

pub record BridgeCanonicalEvent : Type 0 where
  pub event_id : String
  pub event_hash : String
  pub kind : BridgeEventKind
  pub domain : String
  pub payload : Metadata
  pub required_confirmations : ℕ
  pub observed_confirmations : ℕ

pub record BridgeRelayerAttestation : Type 0 where
  pub relayer_id : String
  pub event_id : String
  pub event_hash : String
  pub observed_at : String
  pub signature : Option String
  pub metadata : Option Metadata

pub record BridgeQuorumPolicy : Type 0 where
  pub relayer_ids : List String
  pub required_attestations : ℕ

pub record BridgeAttestationQuorum : Type 0 where
  pub status : BridgeAttestationQuorumStatus
  pub event_id : String
  pub event_hash : String
  pub required_attestations : ℕ
  pub valid_attestation_count : ℕ
  pub relayer_ids : List String
  pub blockers : List String

abbrev when : Bool → String → List String
when test blocker = if test then blocker ∷ [] else []

unfoldable pub validate_quorum_policy : BridgeQuorumPolicy → List String
validate_quorum_policy policy =
    let relayers = length (unique policy.relayer_ids) in
    when (length policy.relayer_ids == 0) "relayer_set_required"
    ++ when (not (relayers == length policy.relayer_ids)) "relayer_set_has_duplicates"
    ++ when (leb policy.required_attestations 0) "quorum_required_attestations_invalid"
    ++ when (ltb relayers policy.required_attestations) "quorum_exceeds_relayer_set"

unfoldable pub is_manual_review_blocker : String → Bool
is_manual_review_blocker blocker = not (blocker === "event_finality_not_reached")

-- What the loop over the attestations keeps: `validByRelayer` and `blockers`.
pub record Tally : Type 0 where
  pub valid_by_relayer : Dict BridgeRelayerAttestation
  pub blockers : List String

abbrev block : String → String → Tally → Tally
block reason relayer tally = record tally {
  blockers = tally.blockers ++ concat (reason ∷ relayer ∷ []) ∷ [];
}

-- One turn of the loop.
unfoldable pub count_attestation :
    BridgeCanonicalEvent → BridgeQuorumPolicy → Tally → BridgeRelayerAttestation → Tally
count_attestation event policy tally a =
    if not (includes policy.relayer_ids a.relayer_id)
    then block "unknown_relayer:" a.relayer_id tally
    else if not (a.event_id === event.event_id)
    then block "attestation_event_id_mismatch:" a.relayer_id tally
    else if not (a.event_hash === event.event_hash)
    then block "attestation_event_hash_mismatch:" a.relayer_id tally
    else if has a.relayer_id tally.valid_by_relayer
    then block "duplicate_attestation:" a.relayer_id tally
    else record tally { valid_by_relayer = set a.relayer_id a tally.valid_by_relayer }

unfoldable pub count_attestations :
    BridgeCanonicalEvent → BridgeQuorumPolicy → Tally → List BridgeRelayerAttestation → Tally
count_attestations event policy tally [] = tally
count_attestations event policy tally (a ∷ attestations) =
    count_attestations event policy (count_attestation event policy tally a) attestations

unfoldable pub quorum_status : List String → ℕ → ℕ → BridgeAttestationQuorumStatus
quorum_status blockers valid required =
    if any is_manual_review_blocker blockers
    then manual_review
    else if ltb 0 (length blockers) || ltb valid required
    then wait
    else approved

abbrev pub first_tally : BridgeCanonicalEvent → BridgeQuorumPolicy → Tally
first_tally event policy = record {
  valid_by_relayer = [];
  blockers =
      validate_quorum_policy policy
      ++ when (ltb event.observed_confirmations event.required_confirmations)
          "event_finality_not_reached";
}

unfoldable pub evaluate_bridge_attestation_quorum :
    BridgeCanonicalEvent
    → List BridgeRelayerAttestation
    → BridgeQuorumPolicy
    → BridgeAttestationQuorum
evaluate_bridge_attestation_quorum event attestations policy =
    let tally = count_attestations event policy (first_tally event policy) attestations in
    let relayer_ids = sort text_lt (map (λ entry. entry.0) tally.valid_by_relayer) in
    let blockers = sort text_lt (unique tally.blockers) in
    record {
      status = quorum_status blockers (length relayer_ids) policy.required_attestations;
      event_id = event.event_id;
      event_hash = event.event_hash;
      required_attestations = policy.required_attestations;
      valid_attestation_count = length relayer_ids;
      relayer_ids = relayer_ids;
      blockers = blockers;
    }
