-- ===== src/Bridge/Releasing.antt =====
-- When the relayer decides to release Pearl for an exit.
use pearl_infra.Prelude.{String, ◌≡◌, ◌↔◌, sym, ◌∙◌, some, none, [], false, arith}
use mathlib.Core.Option.{map as map_option}
use pearl_infra.Prelude.Lists.{All}
use pearl_infra.Prelude.BigInts.{big_int, first_failure_or_throw}
use pearl_infra.Bridge.Types.{Metadata, BridgeExitStatus, exit_eq, prepare_exit_release}
use pearl_infra.Bridge.Policy.{
  ExitReleaseDecisionInput, exit_tests, exit_verdict, decide_exit_release,
}
use pearl_infra.Bridge.Minting.{
  AtMost, less-AtMost, less_than-AtMost, no_failure_iff, IsApproved, approve_iff, action_of,
}

-- What a release for an exit rests on.
pub record ReleaseConditions (input : ExitReleaseDecisionInput) : Type 0 where
  pub pending : input.exit.status ≡ BridgeExitStatus.pending
  pub reconciled : input.reconciliation.blockers ≡ []
  pub under_max :
      AtMost (big_int input.exit.requested_amount_grains) (big_int input.limits.max_exit_grains)
  pub in_reserve :
      AtMost
        (big_int input.exit.requested_amount_grains)
        (big_int input.reconciliation.reserve_available_grains)
  pub approval : IsApproved input.attestation_quorum input.manual_approval_id

abbrev Passes : ExitReleaseDecisionInput → Type 0
Passes input = All (λ g. g.0 ≡ some false) (exit_tests input)

pass_conditions :
    (input : ExitReleaseDecisionInput)
    → Passes input
    → IsApproved input.attestation_quorum input.manual_approval_id
    → ReleaseConditions input
pass_conditions input (_, (_, (is_pending, (blockers, (cap, (reserve, _)))))) a = record {
  pending = ground arith;
  reconciled = ground arith;
  under_max = (less-AtMost _ _).0 cap;
  in_reserve = (less_than-AtMost _ _).0 reserve;
  approval = a;
}

conditions_pass : (input : ExitReleaseDecisionInput) → ReleaseConditions input → Passes input
conditions_pass input c = (
  ground (arith, c.pending),
  (
    ground (arith, c.pending),
    (
      ground (arith, c.pending),
      (
        ground (arith, c.reconciled),
        ((less-AtMost _ _).1 c.under_max, ((less_than-AtMost _ _).1 c.in_reserve, tt)),
      ),
    ),
  ),
)

verdict_releases :
    (input : ExitReleaseDecisionInput)
    → (map_option (λ v. v.action) (exit_verdict input) ≡ some prepare_exit_release) ↔ (
        (first_failure_or_throw (exit_tests input) ≡ some none)
        × IsApproved input.attestation_quorum input.manual_approval_id)
unfolding exit_verdict
verdict_releases input =
    let ends =
      approve_iff input.attestation_quorum input.manual_approval_id "release"
        "manual operator approval is required before Pearl release" prepare_exit_release
        "pending Igra exit is approved for Pearl reserve release" input.exit.requested_amount_grains
        (ground arith) (ground arith) in
    (λ h. (ground arith, ends.0 (ground arith)), λ h. ground (arith, ends.1 h.1))

action_of-verdict :
    (hex_digest : String → String) (json_stringify : Metadata → String)
    (input : ExitReleaseDecisionInput)
    → action_of (decide_exit_release hex_digest json_stringify input)
      ≡ map_option (λ v. v.action) (exit_verdict input)
unfolding decide_exit_release
action_of-verdict hex_digest json_stringify input = ground arith

-- The relayer decides to release Pearl for an exit exactly when the exit is pending, the
-- reconciliation has no blocker, the requested amount is within the exit cap and the available
-- reserve, all three read as numbers, and both the quorum and an operator have approved.
pub prepare_exit_release_iff :
    (hex_digest : String → String) (json_stringify : Metadata → String)
    (input : ExitReleaseDecisionInput)
    → (action_of (decide_exit_release hex_digest json_stringify input) ≡ some prepare_exit_release)
      ↔ ReleaseConditions input
prepare_exit_release_iff hex_digest json_stringify input =
    let same = action_of-verdict hex_digest json_stringify input in
    let releases = verdict_releases input in
    let passes = no_failure_iff (exit_tests input) in
    (
      λ h.
          let (clear, approved) = releases.0 (sym same ∙ h) in
          pass_conditions input (passes.0 clear) approved,
      λ c. same ∙ releases.1 (passes.1 (conditions_pass input c), c.approval),
    )
