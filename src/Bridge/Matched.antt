-- ===== src/Bridge/Matched.antt =====
-- What a reserve spend that is matched to an exit says of the exit.
use pearl_infra.Prelude.{
  String, ◌≡◌, ◌≢◌, ◌⊎◌, inl, inr, sym, ap, ◌∙◌, some, none, Option, List, [], ◌∷◌, true, false,
  arith, eq_iff, ltb, string_eq, Option-cases, Bool-cases,
}
use pearl_infra.Prelude.Lists.{length, head?}
use pearl_infra.Prelude.Text.{truthy}
use pearl_infra.Bridge.Types.{BridgeAddressSpend, BridgeExitStatus, exit_eq, BridgeExitRequest}
use pearl_infra.Bridge.Exits.{normalize_pearl_txid}
use pearl_infra.Bridge.Spends.{
  same_text, matched_exit_release, read_amount_grains, read_address, exact_candidates,
  exact_release_txid, has_normalized_txid, match_exact, match_mismatch, match_fields,
  match_reserve_spend_to_exit,
}

-- The release that the exit already has is the spend.
abbrev pub IsOwn : BridgeAddressSpend → BridgeExitRequest → Type 0
IsOwn spend exit =
    exact_release_txid exit.pearl_release_txid ≡ some (normalize_pearl_txid spend.spend_txid)

-- What a match of a spend with `exit` rests on.
pub record MatchConditions (spend : BridgeAddressSpend) (exits : List BridgeExitRequest)
    (used : List String) (exit : BridgeExitRequest) : Type 0 where
  pub amount : String
  pub recipient : String
  pub is_release : spend.classification ≡ "exit_release"
  pub amount_read : read_amount_grains spend.classification_data "amount_grains" ≡ some amount
  pub recipient_read : read_address spend.classification_data "pearl_recipient" ≡ some recipient
  pub only_exit : exact_candidates amount recipient exits ≡ exit ∷ []
  pub released : exit.status ≡ BridgeExitStatus.released → IsOwn spend exit
  pub processed :
      exit.status ≡ BridgeExitStatus.processed
      → (truthy (exact_release_txid exit.pearl_release_txid) ≡ false) ⊎ IsOwn spend exit
  pub unused :
      exit.status ≢ BridgeExitStatus.released
      → (has_normalized_txid used (normalize_pearl_txid spend.spend_txid) ≡ false)
        ⊎ IsOwn spend exit

one_head :
    (exits : List BridgeExitRequest) (exit : BridgeExitRequest)
    → ltb 1 (length exits) ≡ false
    → head? exits ≡ some exit
    → exits ≡ exit ∷ []
one_head [] exit h e = ground arith
one_head (a ∷ []) exit h e = ground arith
one_head (a ∷ b ∷ exits) exit h e = ground arith

same_text_sound : (r : Option String) (t : String) → same_text r t ≡ true → r ≡ some t
same_text_sound none t h = ground arith
same_text_sound (some u) t h = ground (arith, eq_iff u t)

module _ (spend : BridgeAddressSpend) (exit : BridgeExitRequest) (used : List String) where
  own :
      same_text (exact_release_txid exit.pearl_release_txid) (normalize_pearl_txid spend.spend_txid)
        ≡ true
      → IsOwn spend exit
  own =
      same_text_sound (exact_release_txid exit.pearl_release_txid)
        (normalize_pearl_txid spend.spend_txid)

  exact_released :
      (match_exact spend exit used).status ≡ matched_exit_release
      → exit.status ≡ BridgeExitStatus.released
      → IsOwn spend exit
  unfolding match_exact
  exact_released h s = own (ground arith)

  exact_processed :
      (match_exact spend exit used).status ≡ matched_exit_release
      → exit.status ≡ BridgeExitStatus.processed
      → (truthy (exact_release_txid exit.pearl_release_txid) ≡ false) ⊎ IsOwn spend exit
  unfolding match_exact
  exact_processed h s =
      elim (Bool-cases (
        same_text (exact_release_txid exit.pearl_release_txid)
          (normalize_pearl_txid spend.spend_txid))) [
            | inl same ↦ inr (own same)
            | inr other ↦ inl (ground arith)
          ]

  exact_unused :
      (match_exact spend exit used).status ≡ matched_exit_release
      → exit.status ≢ BridgeExitStatus.released
      → (has_normalized_txid used (normalize_pearl_txid spend.spend_txid) ≡ false)
        ⊎ IsOwn spend exit
  unfolding match_exact
  exact_unused h s =
      elim (Bool-cases (
        same_text (exact_release_txid exit.pearl_release_txid)
          (normalize_pearl_txid spend.spend_txid))) [
            | inl same ↦ inr (own same)
            | inr other ↦ inl (ground arith)
          ]

match_of_exact :
    (spend : BridgeAddressSpend) (amount recipient : String) (exits : List BridgeExitRequest)
    (used : List String)
    → (match_fields spend amount recipient exits used).status ≡ matched_exit_release
    → (exit : BridgeExitRequest) × (exact_candidates amount recipient exits ≡ exit ∷ [])
      × ((match_fields spend amount recipient exits used) ≡ match_exact spend exit used)
unfolding match_fields match_mismatch
match_of_exact spend amount recipient exits used h =
    elim (Option-cases (head? (exact_candidates amount recipient exits))) [
      | inl missing ↦ absurd (ground arith)
      | inr (exit, found) ↦
          let one : ltb 1 (length (exact_candidates amount recipient exits)) ≡ false =
            ground arith in
          (
            exit,
            one_head (exact_candidates amount recipient exits) exit one found,
            ground (arith, one, found),
          )
    ]

fields_of_match :
    (spend : BridgeAddressSpend) (exits : List BridgeExitRequest) (used : List String)
    → (match_reserve_spend_to_exit spend exits used).status ≡ matched_exit_release
    → (amount : String) × (recipient : String) × (spend.classification ≡ "exit_release")
      × (read_amount_grains spend.classification_data "amount_grains" ≡ some amount)
      × (read_address spend.classification_data "pearl_recipient" ≡ some recipient)
      × (match_reserve_spend_to_exit spend exits used
          ≡ match_fields spend amount recipient exits used)
unfolding match_reserve_spend_to_exit
fields_of_match spend exits used h =
    let release : spend.classification ≡ "exit_release" =
      ground (arith, eq_iff spend.classification "exit_release") in
    elim (Option-cases (read_amount_grains spend.classification_data "amount_grains")) [
      | inl missing ↦ absurd (ground arith)
      | inr (amount, a) ↦
          elim (Option-cases (read_address spend.classification_data "pearl_recipient")) [
            | inl missing ↦ absurd (ground arith)
            | inr (recipient, r) ↦ (amount, recipient, release, a, r, ground (arith, a, r))
          ]
    ]

match_exact-exit_id :
    (spend : BridgeAddressSpend) (exit : BridgeExitRequest) (used : List String)
    → (match_exact spend exit used).status ≡ matched_exit_release
    → (match_exact spend exit used).exit_id ≡ some exit.exit_id
unfolding match_exact
match_exact-exit_id spend exit used h = ground arith

-- A reserve spend that is matched names one exit: the only pending, processed or released one with
-- the amount and the recipient that the spend's data give. A released exit has this spend as its
-- release, a processed one has it or none, and an exit that is not released takes a spend that is
-- already used only where it is its own.
pub matched_sound :
    (spend : BridgeAddressSpend) (exits : List BridgeExitRequest) (used : List String)
    → (match_reserve_spend_to_exit spend exits used).status ≡ matched_exit_release
    → (exit : BridgeExitRequest) × ((match_reserve_spend_to_exit spend exits used).exit_id
        ≡ some exit.exit_id)
      × MatchConditions spend exits used exit
matched_sound spend exits used h =
    let (amount, recipient, release, a, r, same) = fields_of_match spend exits used h in
    let (exit, only, exact) =
      match_of_exact spend amount recipient exits used (sym (ap (λ m. m.status) same) ∙ h) in
    let result : match_reserve_spend_to_exit spend exits used ≡ match_exact spend exit used =
      same ∙ exact in
    let status : (match_exact spend exit used).status ≡ matched_exit_release =
      sym (ap (λ m. m.status) result) ∙ h in
    (
      exit,
      ap (λ m. m.exit_id) result ∙ match_exact-exit_id spend exit used status,
      record {
        amount = amount;
        recipient = recipient;
        is_release = release;
        amount_read = a;
        recipient_read = r;
        only_exit = only;
        released = exact_released spend exit used status;
        processed = exact_processed spend exit used status;
        unused = exact_unused spend exit used status;
      },
    )
