-- ===== src/Bridge/Minting.antt =====
-- When the relayer decides to mint against a deposit.
use pearl_infra.Prelude.{
  ℕ, ◌≤◌, String, ◌≡◌, ◌≢◌, ◌↔◌, refl, sym, ◌∙◌, some, none, Option, List, [], ◌∷◌, ◌++◌, Bool,
  true, false, ◌===◌, arith, ===_sound, eq_iff, string_eq,
}
use mathlib.Core.Option.{map as map_option}
use pearl_infra.Prelude.Lists.{length, any, All, All-append, All-split}
use pearl_infra.Prelude.Text.{truthy}
use pearl_infra.Prelude.BigInts.{
  big_int, less, less_than, big_int-negative, plus, first_failure_or_throw,
}
use pearl_infra.Bridge.Quorum.{BridgeAttestationQuorum, BridgeAttestationQuorumStatus}
use pearl_infra.Bridge.Types.{
  Metadata, BridgeWatchPurpose, ObservationMatchStatus, match_eq, BridgeAddressObservation,
  BridgeRelayerDecisionAction, BridgeRelayerDecision, wait, manual_review, prepare_mint,
}
use pearl_infra.Bridge.Blockers.{
  DepositMintDecisionInput, read_string, live_observations, watch_tests, amount_tests, text_of,
  exceeds_rolling_window, get_deposit_blocker,
}
use pearl_infra.Bridge.Policy.{
  get_attestation_quorum_decision, approve, confirmed_deposit, deposit_verdict, decide_deposit_mint,
}

-- Both texts are numbers, and the first is not above the second.
abbrev pub AtMost : Option ℕ → Option ℕ → Type 0
AtMost a b = (x : ℕ) × (y : ℕ) × (a ≡ some x) × (b ≡ some y) × (x ≤ y)

pub less-AtMost : (a b : Option ℕ) → (less b a ≡ some false) ↔ AtMost a b
less-AtMost none none = (λ h. ground arith, λ h. ground arith)
less-AtMost none (some b) = (λ h. ground arith, λ h. ground arith)
less-AtMost (some a) none = (λ h. ground arith, λ h. ground arith)
less-AtMost (some a) (some b) = (λ h. (a, b, refl, refl, ground arith), λ h. ground arith)

pub less_than-AtMost :
    (text : String) (a : Option ℕ) → (less_than text a ≡ some false) ↔ AtMost a (big_int text)
less_than-AtMost text none = (λ h. ground arith, λ h. ground arith)
less_than-AtMost text (some a) = (
  λ h. (less-AtMost (some a) (big_int text)).0 (ground arith),
  λ h. ground (arith, (less-AtMost (some a) (big_int text)).1 h, big_int-negative text),
)

module _ {ℓ} {A : Type ℓ} where
  -- The series ends exactly where no test throws or holds.
  pub no_failure_iff :
      (guards : List (Option Bool × A))
      → (first_failure_or_throw guards ≡ some none) ↔ All (λ g. g.0 ≡ some false) guards
  no_failure_iff [] = (λ h. tt, λ h. refl)
  no_failure_iff ((none, m) ∷ guards) = (λ h. ground arith, λ h. ground arith)
  no_failure_iff ((some true, m) ∷ guards) = (λ h. ground arith, λ h. ground arith)
  no_failure_iff ((some false, m) ∷ guards) =
      (λ h. (refl, (no_failure_iff guards).0 h), λ h. (no_failure_iff guards).1 h.1)

-- An approved quorum and an operator's approval.
pub record IsApproved (quorum : Option BridgeAttestationQuorum) (approval : Option String)
    : Type 0 where
  pub quorum_is :
      (q : BridgeAttestationQuorum) × (quorum ≡ some q)
      × (q.status ≡ BridgeAttestationQuorumStatus.approved)
  pub operator : truthy approval ≡ true

-- The shared end of both decisions reaches its action exactly on an approval.
pub approve_iff :
    (quorum : Option BridgeAttestationQuorum) (approval : Option String) (step waiting : String)
    (action : BridgeRelayerDecisionAction) (reason amount : String)
    → action ≢ wait
    → action ≢ manual_review
    → (map_option (λ v. v.action) (approve quorum approval step waiting action reason amount)
        ≡ some action)
      ↔ IsApproved quorum approval
unfolding approve get_attestation_quorum_decision
approve_iff none approval step waiting action reason amount d r =
    (λ e. ground arith, λ c. ground arith)
approve_iff (some q) approval step waiting action reason amount d r = (
  λ e. record { quorum_is = (q, refl, ground arith); operator = ground arith },
  λ c. ground arith,
)

-- The bounds that the watch itself sets, in grains.
abbrev expected : DepositMintDecisionInput → String → Option ℕ
expected input key = big_int (text_of (read_string input.watch.metadata key))

abbrev expected_min : DepositMintDecisionInput → Option ℕ
expected_min input = expected input "expected_amount_min_grains"

abbrev expected_max : DepositMintDecisionInput → Option ℕ
expected_max input = expected input "expected_amount_max_grains"

-- What a mint against the observation `o` rests on.
pub record MintConditions (input : DepositMintDecisionInput) (o : BridgeAddressObservation)
    : Type 0 where
  pub deposit_watch : input.watch.purpose ≡ BridgeWatchPurpose.bridge_deposit
  pub own_watch : o.watch_id ≡ input.watch.watch_id
  pub in_history : any (λ c. c.outpoint === o.outpoint) input.watch.observations ≡ true
  pub only_live : length (live_observations input.watch.observations) ≤ 1
  pub confirmed : o.match_status ≡ ObservationMatchStatus.confirmed
  pub on_time : o.classification ≡ "on_time"
  pub deep : input.watch.required_confirmations ≤ o.confirmations
  pub has_min : truthy (read_string input.watch.metadata "expected_amount_min_grains") ≡ true
  pub has_max : truthy (read_string input.watch.metadata "expected_amount_max_grains") ≡ true
  pub above_expected : AtMost (expected_min input) (big_int o.amount_grains)
  pub below_expected : AtMost (big_int o.amount_grains) (expected_max input)
  pub above_pilot : AtMost (big_int input.limits.min_deposit_grains) (big_int o.amount_grains)
  pub below_pilot : AtMost (big_int o.amount_grains) (big_int input.limits.max_deposit_grains)
  pub under_cap :
      AtMost
        (plus (big_int input.minted_supply_grains) (big_int o.amount_grains))
        (big_int input.limits.pilot_supply_cap_grains)
  pub under_window : exceeds_rolling_window input.limits (big_int o.amount_grains) ≡ some false
  pub approval : IsApproved input.attestation_quorum input.manual_approval_id

abbrev Passes : List (Option Bool × String) → Type 0
Passes = All (λ g. g.0 ≡ some false)

pass_conditions :
    (input : DepositMintDecisionInput) (o : BridgeAddressObservation)
    → Passes (watch_tests input.watch o)
    → Passes (amount_tests input o)
    → o.match_status ≡ ObservationMatchStatus.confirmed
    → IsApproved input.attestation_quorum input.manual_approval_id
    → MintConditions input o
pass_conditions input o h
      (_, (bounds, (above, (below, (pilot_min, (pilot_max, (supply, (window, _)))))))) c a =
    record {
      deposit_watch = ground arith;
      own_watch = ground (arith, ===_sound o.watch_id input.watch.watch_id);
      in_history = ground arith;
      only_live = ground arith;
      confirmed = c;
      on_time = ground (arith, ===_sound o.classification "on_time");
      deep = ground arith;
      has_min = ground arith;
      has_max = ground arith;
      above_expected = (less-AtMost _ _).0 above;
      below_expected = (less-AtMost _ _).0 below;
      above_pilot = (less-AtMost _ _).0 pilot_min;
      below_pilot = (less-AtMost _ _).0 pilot_max;
      under_cap = (less-AtMost _ _).0 supply;
      under_window = window;
      approval = a;
    }

classified :
    (found : String)
    → found ≡ "on_time"
    → (other : String) → ("on_time" === other) ≡ false
    → (found === other) ≡ false
classified found e other h = rw e h

conditions_watch :
    (input : DepositMintDecisionInput) (o : BridgeAddressObservation)
    → MintConditions input o
    → Passes (watch_tests input.watch o)
conditions_watch input o c =
    let is_not = classified o.classification c.on_time in
    ground (
      arith,
      eq_iff o.watch_id input.watch.watch_id,
      eq_iff o.classification "on_time",
      is_not "reorged" refl,
      is_not "late" refl,
      is_not "underpaid" refl,
      is_not "duplicate" refl,
    )

conditions_amount :
    (input : DepositMintDecisionInput) (o : BridgeAddressObservation)
    → MintConditions input o
    → Passes (amount_tests input o)
conditions_amount input o c = (
  ground (arith, c.above_expected),
  (
    ground (arith, c.has_min, c.has_max),
    (
      (less-AtMost _ _).1 c.above_expected,
      (
        (less-AtMost _ _).1 c.below_expected,
        (
          (less-AtMost _ _).1 c.above_pilot,
          (
            (less-AtMost _ _).1 c.below_pilot,
            ((less-AtMost _ _).1 c.under_cap, (c.under_window, tt)),
          ),
        ),
      ),
    ),
  ),
)

abbrev pub action_of : Option BridgeRelayerDecision → Option BridgeRelayerDecisionAction
action_of decided = map_option (λ d. d.action) decided

no_blocker :
    (input : DepositMintDecisionInput) (o : BridgeAddressObservation)
    → input.observation ≡ some o
    → get_deposit_blocker input
      ≡ first_failure_or_throw (watch_tests input.watch o ++ amount_tests input o)
unfolding get_deposit_blocker
no_blocker input o e = ground arith

-- Where nothing blocks the deposit, it is minted on its confirmation and the approval.
verdict_mints :
    (input : DepositMintDecisionInput) (o : BridgeAddressObservation)
    → input.observation ≡ some o
    → (map_option (λ v. v.action) (deposit_verdict input) ≡ some prepare_mint) ↔ (
        (get_deposit_blocker input ≡ some none)
        × (o.match_status ≡ ObservationMatchStatus.confirmed)
        × IsApproved input.attestation_quorum input.manual_approval_id)
unfolding deposit_verdict confirmed_deposit
verdict_mints input o e =
    let ends =
      approve_iff input.attestation_quorum input.manual_approval_id "mint"
        "manual operator approval is required before mint" prepare_mint
        "confirmed Pearl deposit is approved for wPRL mint" o.amount_grains (ground arith)
        (ground arith) in
    (λ h. (ground arith, ground arith, ends.0 (ground arith)), λ h. ground (arith, ends.1 h.2))

action_of-verdict :
    (hex_digest : String → String) (json_stringify : Metadata → String)
    (input : DepositMintDecisionInput)
    → action_of (decide_deposit_mint hex_digest json_stringify input)
      ≡ map_option (λ v. v.action) (deposit_verdict input)
unfolding decide_deposit_mint
action_of-verdict hex_digest json_stringify input = ground arith

-- The relayer decides to mint against an observed deposit exactly when the deposit is the only
-- live one of its own deposit watch, confirmed, on time and deep enough, its amount is within
-- the watch's bounds, the pilot's bounds, the supply cap and the rolling window, all of which
-- are read as numbers, and both the quorum and an operator have approved. Whether the
-- reconciliation of the bridge is clean plays no part: it is no input of the decision.
pub prepare_mint_iff :
    (hex_digest : String → String) (json_stringify : Metadata → String)
    (input : DepositMintDecisionInput) (o : BridgeAddressObservation)
    → input.observation ≡ some o
    → (action_of (decide_deposit_mint hex_digest json_stringify input) ≡ some prepare_mint)
      ↔ MintConditions input o
prepare_mint_iff hex_digest json_stringify input o e =
    let same = action_of-verdict hex_digest json_stringify input in
    let mints = verdict_mints input o e in
    let passes = no_failure_iff (watch_tests input.watch o ++ amount_tests input o) in
    (
      λ h.
          let (clear, is_confirmed, approved) = mints.0 (sym same ∙ h) in
          let (watch, amount) =
            All-split (λ g. g.0 ≡ some false) (watch_tests input.watch o) (amount_tests input o)
              (passes.0 (sym (no_blocker input o e) ∙ clear)) in
          pass_conditions input o watch amount is_confirmed approved,
      λ c.
          same
          ∙ mints.1 (
            no_blocker input o e
                ∙ passes.1 (
                    All-append (λ g. g.0 ≡ some false) (watch_tests input.watch o)
                      (amount_tests input o) (conditions_watch input o c)
                      (conditions_amount input o c)),
            c.confirmed,
            c.approval,
          ),
    )
