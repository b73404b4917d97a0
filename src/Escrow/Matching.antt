-- ===== src/Escrow/Matching.antt =====
-- packages/pearl-escrow/src/funding.ts: what a matched funding output is.
use pearl_infra.Prelude.{
  ℕ, String, ◌≡◌, refl, ap, ◌∙◌, inl, inr, some, Option, true, false, ◌===◌, arith, string_eq,
  Option-cases, Bool-cases, ===_sound,
}
use pearl_infra.Prelude.BigInts.{big_int}
use pearl_infra.Escrow.Types.{
  PearlEscrowPackage, PearlEscrowFundingCandidate, FundingMatchStatus, matched, underpaid, overpaid,
  script_mismatch, outpoint_mismatch, PearlEscrowFundingMatch, returns,
}
use pearl_infra.Escrow.Texts.{is_txid, is_positive_integer}
use pearl_infra.Escrow.Funding.{
  create_funding_match, outpoint_of, is_match, is_other_outpoint, funding_status,
  candidate_script_pub_key_hex, match_pearl_escrow_funding_output,
}
use pearl_infra.Escrow.Paying.{Result-cases}

matched_amounts :
    (escrow : PearlEscrowPackage) (candidate : PearlEscrowFundingCandidate) (script : String)
    → funding_status escrow candidate script ≡ returns matched
    → (n : ℕ) × (is_other_outpoint escrow.funding_outpoint (outpoint_of candidate) ≡ false)
      × (script ≡ escrow.taproot_output_script_hex)
      × (big_int escrow.expected_amount_grains ≡ some n)
      × (big_int candidate.amount_grains ≡ some n)
unfolding funding_status
matched_amounts escrow candidate script e =
    elim (Bool-cases (is_other_outpoint escrow.funding_outpoint (outpoint_of candidate))) [
      | inl n ↦ absurd (ground (arith, rw (funding_status, n) at e))
      | inr o ↦ elim (Bool-cases (script === escrow.taproot_output_script_hex)) [
        | inr n ↦ absurd (ground (arith, rw (funding_status, o, n) at e))
        | inl s ↦ elim (Option-cases (big_int escrow.expected_amount_grains)) [
          | inl n ↦ absurd (ground (arith, rw (funding_status, o, s, n) at e))
          | inr (expected, x) ↦ elim (Option-cases (big_int candidate.amount_grains)) [
            | inl n ↦ absurd (ground (arith, rw (funding_status, o, s, x, n) at e))
            | inr (observed, y) ↦
                let same : observed ≡ expected =
                  ground (arith, rw (funding_status, o, s, x, y) at e) in
                (
                  expected,
                  o,
                  ===_sound script escrow.taproot_output_script_hex s,
                  x,
                  ground (arith, y, same),
                )
          ]
        ]
      ]
    ]

is_match-matched : (s : FundingMatchStatus) → is_match s ≡ true → s ≡ matched
is_match-matched matched e = refl
is_match-matched underpaid e = absurd (ground (arith, e))
is_match-matched overpaid e = absurd (ground (arith, e))
is_match-matched script_mismatch e = absurd (ground (arith, e))
is_match-matched outpoint_mismatch e = absurd (ground (arith, e))

-- What a match says of the candidate.
pub record IsFunding (to_output_script : String → String → Option String)
    (escrow : PearlEscrowPackage) (candidate : PearlEscrowFundingCandidate) : Type 0 where
  pub amount : ℕ
  pub own_outpoint : is_other_outpoint escrow.funding_outpoint (outpoint_of candidate) ≡ false
  pub own_script :
      candidate_script_pub_key_hex to_output_script escrow candidate
      ≡ returns escrow.taproot_output_script_hex
  pub expected : big_int escrow.expected_amount_grains ≡ some amount
  pub paid : big_int candidate.amount_grains ≡ some amount

-- An output is reported as matched only where its script is that of the escrow, its amount is
-- exactly the expected one, and it is the escrow's funding outpoint where that is known.
pub matched-IsFunding :
    (to_output_script : String → String → Option String) (escrow : PearlEscrowPackage)
    (candidate : PearlEscrowFundingCandidate) (m : PearlEscrowFundingMatch)
    → match_pearl_escrow_funding_output to_output_script escrow candidate ≡ returns m
    → m.is_matched ≡ true
    → IsFunding to_output_script escrow candidate
unfolding match_pearl_escrow_funding_output create_funding_match
matched-IsFunding to_output_script escrow candidate m e t =
    elim (Bool-cases (is_txid candidate.txid)) [
      | inr n ↦ absurd (ground (arith, rw (match_pearl_escrow_funding_output, n) at e))
      | inl a ↦ elim (Bool-cases (is_positive_integer candidate.amount_grains)) [
        | inr n ↦ absurd (ground (arith, rw (match_pearl_escrow_funding_output, a, n) at e))
        | inl b ↦
            elim (Result-cases (candidate_script_pub_key_hex to_output_script escrow candidate)) [
              | inl (error, n) ↦
                  absurd (ground (arith, rw (match_pearl_escrow_funding_output, a, b, n) at e))
              | inr (script, s) ↦ elim (Result-cases (funding_status escrow candidate script)) [
                | inl (error, n) ↦
                    absurd (ground (arith, rw (match_pearl_escrow_funding_output, a, b, s, n) at e))
                | inr (status, f) ↦
                    let same : is_match status ≡ m.is_matched =
                      ground (arith, rw (match_pearl_escrow_funding_output, a, b, s, f) at e) in
                    let is_matched_status : status ≡ matched = is_match-matched status (same ∙ t) in
                    let (n, o, own, x, y) =
                      matched_amounts escrow candidate script (f ∙ ap returns is_matched_status) in
                    record {
                      amount = n;
                      own_outpoint = o;
                      own_script = s ∙ ap returns own;
                      expected = x;
                      paid = y;
                    }
              ]
            ]
      ]
    ]
