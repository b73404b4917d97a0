-- ===== src/Settlement/BaseTerms.antt =====
-- What the worker may rely on when the Base escrow is reported as funded.
use pearl_infra.Prelude.{
  ℕ, String, some, none, Option, [], ◌∷◌, Bool, true, false, not, ◌&&◌, ◌||◌, string_eq, nat_eq,
  is_some, ◌≡◌, refl, inl, inr, arith, ===_sound, Option-cases, ap,
}
use pearl_infra.Prelude.Lists.{includes}
use pearl_infra.Prelude.Guards.{All-pass}
use pearl_infra.Prelude.Text.{to_lower_case, truthy, show}
use pearl_infra.Sdk.Amounts.{parse_usdc_to_micros}
use pearl_infra.Sdk.Trade.{OtcTrade}
use pearl_infra.Usdc.Types.{UsdcEscrowStatus, status_eq, UsdcEscrowTradeEventState}
use pearl_infra.Settlement.Types.{BaseEscrowStatus, BaseEscrowEventState}
use pearl_infra.Settlement.BaseState.{
  find_mismatch, mismatch_guards, requires_created_terms, unix_seconds, is_text, differs_from,
  is_other_expiry, ok, find_base_escrow_state_mismatch, observed_base_state,
  base_escrow_event_state_from_usdc_trade_state,
}

funded_amount :
    (state : UsdcEscrowTradeEventState) (trade : OtcTrade)
    → state.status ≡ UsdcEscrowStatus.deposited
    → (includes
          (UsdcEscrowStatus.deposited ∷ UsdcEscrowStatus.released ∷ UsdcEscrowStatus.refunded ∷ [])
          state.status
        && not (is_text state.amount_micros trade.usdc_escrow.expected_amount_micros))
      ≡ false
    → is_text state.amount_micros trade.usdc_escrow.expected_amount_micros ≡ true
funded_amount state trade f h = ground arith

-- The terms of a funded escrow agree with the trade's.
pub record TermsAgree (state : UsdcEscrowTradeEventState) (trade : OtcTrade) : Type 0 where
  pub trade_key : state.trade_key ≡ trade.usdc_escrow.trade_key
  pub chain_id : state.chain_id ≡ trade.usdc_escrow.chain_id
  pub contract : to_lower_case state.contract_address ≡ to_lower_case trade.usdc_escrow.contract
  pub amount : state.amount_micros ≡ some trade.usdc_escrow.expected_amount_micros
  pub expiry : state.expiry_unix_seconds ≡ unix_seconds trade.usdc_escrow.expires_at
  pub buyer :
      (b : String) × (state.buyer ≡ some b)
      × (to_lower_case b ≡ to_lower_case trade.buyer_usdc_address)
  pub seller :
      (s : String) × (state.seller ≡ some s)
      × (to_lower_case s ≡ to_lower_case trade.seller_usdc_receive_address)

is_text_sound : (a : Option String) (b : String) → is_text a b ≡ true → a ≡ some b
is_text_sound none b h = cc
is_text_sound (some a) b h = ap some (===_sound a b h)

agrees :
    (a : Option String) (b : String)
    → truthy a ≡ true
    → differs_from a b ≡ false
    → (x : String) × (a ≡ some x) × (to_lower_case x ≡ to_lower_case b)
agrees none b h k = cc
agrees (some a) b h k = (a, refl, ===_sound _ _ (ground arith))

same_expiry : (a b : Option ℕ) → is_some a ≡ true → is_other_expiry a b ≡ false → a ≡ b
same_expiry none b h k = cc
same_expiry (some a) none h k = cc
same_expiry (some a) (some b) h k = ground arith

of_not : (b : Bool) → not b ≡ false → b ≡ true
of_not b h = ground arith

four_terms :
    (needs a b c d : Bool)
    → needs ≡ true
    → (needs && (not a || (not b || (not c || not d)))) ≡ false
    → (a ≡ true) × (b ≡ true) × (d ≡ true)
four_terms needs a b c d h k = ground arith

funded_terms :
    (state : UsdcEscrowTradeEventState) (trade : OtcTrade) (amount fee : String)
    → find_mismatch state trade amount fee ≡ none
    → state.status ≡ UsdcEscrowStatus.deposited
    → TermsAgree state trade
unfolding find_mismatch requires_created_terms
funded_terms state trade amount fee e f =
    let p = All-pass (mismatch_guards state trade amount fee) e in
    let terms =
      four_terms (requires_created_terms state.status) (truthy state.buyer) (truthy state.seller)
        (is_some state.fee_micros) (is_some state.expiry_unix_seconds) (rw f refl) p.1.1.1.0 in
    record {
      trade_key = ===_sound state.trade_key trade.usdc_escrow.trade_key (of_not _ p.0);
      chain_id = ===_sound state.chain_id trade.usdc_escrow.chain_id (of_not _ p.1.0);
      contract =
          ===_sound (to_lower_case state.contract_address)
            (to_lower_case trade.usdc_escrow.contract) (of_not _ p.1.1.0);
      amount =
          is_text_sound state.amount_micros trade.usdc_escrow.expected_amount_micros
            (funded_amount state trade f p.1.1.1.1.1.1.1.1.1.0);
      expiry =
          same_expiry state.expiry_unix_seconds (unix_seconds trade.usdc_escrow.expires_at) terms.2
            p.1.1.1.1.1.1.0;
      buyer = agrees state.buyer trade.buyer_usdc_address terms.0 p.1.1.1.1.0;
      seller = agrees state.seller trade.seller_usdc_receive_address terms.1 p.1.1.1.1.1.0;
    }

observed_deposit :
    (state : UsdcEscrowTradeEventState) (mismatch : Option String)
    → (observed_base_state state mismatch).status ≡ BaseEscrowStatus.deposited
    → (mismatch ≡ none) × (state.status ≡ UsdcEscrowStatus.deposited)
unfolding observed_base_state
observed_deposit state mismatch h = ground arith

-- If the worker sees the Base escrow as deposited, the contract's events name the escrow that the
-- trade names, with its amount, expiry, buyer and seller.
pub deposited_terms :
    (state : UsdcEscrowTradeEventState) (trade : OtcTrade) (seen : BaseEscrowEventState)
    → base_escrow_event_state_from_usdc_trade_state (some state) trade ≡ ok seen
    → seen.status ≡ BaseEscrowStatus.deposited
    → (state.status ≡ UsdcEscrowStatus.deposited) × TermsAgree state trade
unfolding base_escrow_event_state_from_usdc_trade_state find_base_escrow_state_mismatch
deposited_terms state trade seen e f =
    elim (Option-cases (parse_usdc_to_micros trade.amount_usdc)) [
      | inl bad ↦ absurd (ground (arith, bad))
      | inr (amount, read) ↦ elim (Option-cases (parse_usdc_to_micros trade.fee_usdc)) [
        | inl bad ↦ absurd (ground (arith, bad, read))
        | inr (fee, read_fee) ↦
            let mismatch = find_mismatch state trade (show amount) (show fee) in
            let found : (mismatch ≡ none) × (state.status ≡ UsdcEscrowStatus.deposited) =
              observed_deposit state mismatch (ground (arith, read, read_fee)) in
            (found.1, funded_terms state trade (show amount) (show fee) found.0 found.1)
      ]
    ]
