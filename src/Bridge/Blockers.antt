-- ===== src/Bridge/Blockers.antt =====
-- services/bridge-service/src/relayer-policy.ts: what blocks a deposit.
use pearl_infra.Prelude.{
  ℕ, String, some, none, Option, List, [], ◌∷◌, ◌++◌, Bool, true, false, not, ◌&&◌, ◌||◌, ◌===◌,
  if◌then◌else◌, ltb, string_eq, or_default,
}
use pearl_infra.Prelude.Lists.{length, filter, any}
use pearl_infra.Prelude.Map.{get}
use pearl_infra.Prelude.Text.{concat, truthy, show}
use pearl_infra.Prelude.BigInts.{big_int, less, plus, defined, first_failure_or_throw}
use pearl_infra.Bridge.Quorum.{BridgeAttestationQuorum}
use pearl_infra.Bridge.Types.{
  text_value, number_value, Metadata, BridgeWatchPurpose, ObservationMatchStatus, match_eq,
  BridgeAddressObservation, WatchedBridgeAddressWithHistory, exit_eq, BridgePilotLimits,
}

pub record DepositMintDecisionInput : Type 0 where
  pub watch : WatchedBridgeAddressWithHistory
  pub observation : Option BridgeAddressObservation
  pub limits : BridgePilotLimits
  pub minted_supply_grains : String
  pub attestation_quorum : Option BridgeAttestationQuorum
  pub manual_approval_id : Option String

abbrev is_deposit : BridgeWatchPurpose → Bool
is_deposit BridgeWatchPurpose.bridge_deposit = true
is_deposit BridgeWatchPurpose.bridge_reserve = false

unfoldable pub read_string : Metadata → String → Option String
read_string metadata key = elim (get key metadata) [
  | some (text_value text) ↦ if text === "" then none else some text
  | some (number_value n) ↦ some (show n)
  | _ ↦ none
]

abbrev pub live_observations : List BridgeAddressObservation → List BridgeAddressObservation
live_observations = filter (λ o. not (o.match_status === ObservationMatchStatus.detached))

-- The tests of `getDepositBlocker` on the watch and its observation, which read no amount.
abbrev pub watch_tests :
    WatchedBridgeAddressWithHistory → BridgeAddressObservation → List (Option Bool × String)
watch_tests watch o =
    (some (not (is_deposit watch.purpose)), "watch is not a bridge deposit watch")
    ∷ (some (not (o.watch_id === watch.watch_id)), "deposit observation does not belong to watch")
    ∷ (
      some (not (any (λ c. c.outpoint === o.outpoint) watch.observations)),
      "deposit observation is not in watch history",
    )
    ∷ (
      some (ltb 1 (length (live_observations watch.observations))),
      "multiple live deposit observations require operator review",
    )
    ∷ (
      some (
          (o.match_status === ObservationMatchStatus.detached) || (o.classification === "reorged")),
      "deposit observation reorged",
    )
    ∷ (some (o.classification === "late"), "deposit arrived after expiry")
    ∷ (some (o.classification === "underpaid"), "deposit is below expected minimum")
    ∷ (some (o.classification === "duplicate"), "duplicate deposit requires operator review")
    ∷ (
      some (not (o.classification === "on_time")),
      concat ("deposit classification requires operator review: " ∷ o.classification ∷ []),
    )
    ∷ (
      some (o.match_status === ObservationMatchStatus.spent),
      "deposit outpoint already spent/consumed",
    )
    ∷ (
      some (ltb o.confirmations watch.required_confirmations),
      "deposit does not have enough confirmations",
    )
    ∷ []

abbrev pub text_of : Option String → String
text_of text = or_default text ""

-- `limits.rollingWindowCapGrains && used + amount > cap`
abbrev pub exceeds_rolling_window : BridgePilotLimits → Option ℕ → Option Bool
exceeds_rolling_window limits amount =
    if truthy limits.rolling_window_cap_grains
    then less (big_int (text_of limits.rolling_window_cap_grains))
        (plus (big_int (or_default limits.rolling_window_used_grains "0")) amount)
    else some false

-- The tests on the amount; each reads the texts it compares by `BigInt`.
abbrev pub amount_tests :
    DepositMintDecisionInput → BridgeAddressObservation → List (Option Bool × String)
amount_tests input o =
    let amount = big_int o.amount_grains in
    let expected_min = read_string input.watch.metadata "expected_amount_min_grains" in
    let expected_max = read_string input.watch.metadata "expected_amount_max_grains" in
    (defined amount, "")
    ∷ (
      some (not (truthy expected_min && truthy expected_max)),
      "deposit watch is missing expected amount bounds",
    )
    ∷ (less amount (big_int (text_of expected_min)), "deposit below expected minimum")
    ∷ (less (big_int (text_of expected_max)) amount, "deposit above expected maximum")
    ∷ (less amount (big_int input.limits.min_deposit_grains), "deposit below pilot minimum")
    ∷ (less (big_int input.limits.max_deposit_grains) amount, "deposit above pilot maximum")
    ∷ (
      less (big_int input.limits.pilot_supply_cap_grains)
          (plus (big_int input.minted_supply_grains) amount),
      "pilot supply cap would be exceeded",
    )
    ∷ (exceeds_rolling_window input.limits amount, "rolling mint cap would be exceeded")
    ∷ []

-- `none` where it throws, `some none` where nothing blocks the deposit.
unfoldable pub get_deposit_blocker : DepositMintDecisionInput → Option (Option String)
get_deposit_blocker input = elim input.observation [
  | none ↦ some none
  | some o ↦ first_failure_or_throw (watch_tests input.watch o ++ amount_tests input o)
]
