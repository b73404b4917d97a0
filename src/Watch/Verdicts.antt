-- ===== src/Watch/Verdicts.antt =====
-- services/pearl-indexer/src/funding-scanner.ts: when a payment is on time, and when a spend is a
-- release or a refund.
use pearl_infra.Prelude.{
  ℕ, String, ◌≡◌, ◌⊎◌, inl, inr, refl, some, none, Option, List, [], ◌∷◌, Bool, true, false, arith,
  Option-cases, Bool-cases,
}
use pearl_infra.Prelude.Lists.{All, find, find_sound, any}
use pearl_infra.Prelude.BigInts.{big_int}
use pearl_infra.Prelude.Dates.{Timestamp}
use pearl_infra.Indexer.Blocks.{PearlBlockOutput, PearlBlockSummary}
use pearl_infra.Watch.Types.{WatchedAddress}
use pearl_infra.Watch.Funding.{
  read_string_metadata, deadline_height, deadline_ts, has_deadline, is_past_deadline,
}
use pearl_infra.Watch.SpendKinds.{
  release, SpendKind, to_release, to_refund, ExpectedSpendOutput, classify_escrow_spend,
  classify_by_expected_txid, verdict_by_kind, output_matches_expected, first_match, output_matches,
  read_expected_outputs,
}

-- What `classifyFunding` asks of a payment that is on time.
pub record IsOnTime (parse_date : String → Timestamp) (output : PearlBlockOutput)
    (block : PearlBlockSummary) (watch : WatchedAddress) : Type 0 where
  pub expected : String
  pub amount : ℕ
  pub expects : read_string_metadata watch "expected_amount_grains" ≡ some expected
  pub expected_amount : big_int expected ≡ some amount
  pub paid_amount : big_int output.amount_grains ≡ some amount
  pub deadline : has_deadline (deadline_height watch) (deadline_ts watch) ≡ true
  pub not_past :
      is_past_deadline parse_date block (deadline_height watch) (deadline_ts watch) ≡ false

-- `a` is an element of the list.
abbrev pub Among : {A : Type 0} → A → List A → Type 0
Among a [] = ⊥
Among a (x ∷ xs) = (a ≡ x) ⊎ Among a xs

found-Among :
    (p : PearlBlockOutput → Bool) (outputs : List PearlBlockOutput) (output : PearlBlockOutput)
    → find p outputs ≡ some output
    → Among output outputs
found-Among p [] output e = absurd (ground (arith, e))
found-Among p (o ∷ outputs) output e = elim (Bool-cases (p o)) [
  | inl f ↦ inl (ground (arith, e, f))
  | inr f ↦ inr (found-Among p outputs output (ground (arith, e, f)))
]

-- What matches stands in both lists.
abbrev pub Matched : List ExpectedSpendOutput → List PearlBlockOutput → Type 0
Matched expected outputs =
    (candidate : ExpectedSpendOutput) × (output : PearlBlockOutput) × Among candidate expected
    × Among output outputs
    × (output_matches candidate output ≡ true)

first_match-Matched :
    (expected : List ExpectedSpendOutput) (outputs : List PearlBlockOutput)
    (found : String × PearlBlockOutput)
    → first_match expected outputs ≡ some found
    → Matched expected outputs
unfolding first_match
first_match-Matched [] outputs found e = absurd (ground (arith, e))
first_match-Matched (candidate ∷ expected) outputs found e =
    elim (Option-cases (find (output_matches candidate) outputs)) [
      | inr (output, f) ↦ (
        candidate,
        output,
        inl refl,
        found-Among (output_matches candidate) outputs output f,
        find_sound (output_matches candidate) outputs output f,
      )
      | inl f ↦
          let (c, o, m, n, h) =
            first_match-Matched expected outputs found (rw (first_match, f) at e) in
          (c, o, inr m, n, h)
    ]

find-any :
    (p : PearlBlockOutput → Bool) (outputs : List PearlBlockOutput)
    → find p outputs ≡ none
    → any p outputs ≡ false
find-any p [] e = refl
find-any p (o ∷ outputs) e = ground (arith, find-any p outputs)

-- No output of the transaction matches an expected one.
abbrev pub Missed : List ExpectedSpendOutput → List PearlBlockOutput → Type 0
Missed expected outputs = All (λ candidate. any (output_matches candidate) outputs ≡ false) expected

no_match-Missed :
    (expected : List ExpectedSpendOutput) (outputs : List PearlBlockOutput)
    → first_match expected outputs ≡ none
    → Missed expected outputs
unfolding first_match
no_match-Missed [] outputs e = tt
no_match-Missed (c ∷ expected) outputs e = elim (Option-cases (find (output_matches c) outputs)) [
  | inr (o, f) ↦ absurd (ground (arith, e, f))
  | inl f ↦ (
    find-any (output_matches c) outputs f,
    no_match-Missed expected outputs (rw (first_match, f) at e),
  )
]

abbrev Found : Type 0
Found = Option (String × PearlBlockOutput)

release_found :
    (kind : Option SpendKind) (spend_txid spent_outpoint : String) (releases refunds : Found)
    → (verdict_by_kind kind spend_txid spent_outpoint releases refunds).classification ≡ release
    → ((found : String × PearlBlockOutput) × (releases ≡ some found)) × (refunds ≡ none)
release_found kind t o (some found) none e = ((found, refl), refl)
release_found none t o (some found) (some other) e = absurd (ground (arith, e))
release_found none t o none (some other) e = absurd (ground (arith, e))
release_found none t o none none e = absurd (ground (arith, e))
release_found (some to_release) t o (some found) (some other) e = absurd (ground (arith, e))
release_found (some to_release) t o none (some other) e = absurd (ground (arith, e))
release_found (some to_release) t o none none e = absurd (ground (arith, e))
release_found (some to_refund) t o (some found) (some other) e = absurd (ground (arith, e))
release_found (some to_refund) t o none (some other) e = absurd (ground (arith, e))
release_found (some to_refund) t o none none e = absurd (ground (arith, e))

-- An escrow's spend is a release only where an output of its transaction matches an output that
-- the watch expects of a release, and none matches one that it expects of a refund.
pub release_sound :
    (watch : WatchedAddress) (spend_txid spent_outpoint : String) (outputs : List PearlBlockOutput)
    → (classify_escrow_spend watch spend_txid spent_outpoint outputs).classification ≡ release
    → Matched (read_expected_outputs watch to_release) outputs
      × Missed (read_expected_outputs watch to_refund) outputs
unfolding classify_escrow_spend output_matches_expected
release_sound watch spend_txid spent_outpoint outputs e =
    let ((found, f), g) =
      release_found (classify_by_expected_txid watch spend_txid) spend_txid spent_outpoint
        (first_match (read_expected_outputs watch to_release) outputs)
        (first_match (read_expected_outputs watch to_refund) outputs) e in
    (
      first_match-Matched (read_expected_outputs watch to_release) outputs found f,
      no_match-Missed (read_expected_outputs watch to_refund) outputs g,
    )
