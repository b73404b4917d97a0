-- ===== src/Bridge/Approved.antt =====
-- What an approved quorum rests on.
use pearl_infra.Prelude.{
  ℕ, suc, ◌+◌, ◌≤◌, ◌<◌, String, ◌≡◌, ◌≢◌, sym, ◌∙◌, refl, List, [], ◌∷◌, ◌++◌, true, false, arith,
  eq_iff, string_eq, map,
}
use mathlib.Core.Path.{subst, ap}
use pearl_infra.Prelude.Lists.{
  unique, unique_from, insert_new, length, All, includes, sort, insert_sorted, length-append,
}
use pearl_infra.Prelude.Map.{Dict, set, has, get-set, length-set_new}
use pearl_infra.Prelude.Text.{text_lt, concat}
use pearl_infra.Bridge.Quorum.{
  BridgeCanonicalEvent, BridgeRelayerAttestation, BridgeQuorumPolicy, approved, Tally,
  validate_quorum_policy, count_attestation, count_attestations, quorum_status, first_tally,
  evaluate_bridge_attestation_quorum,
}

length-insert_sorted :
    (x : String) (xs : List String) → length (insert_sorted text_lt x xs) ≡ suc (length xs)
length-insert_sorted x [] = refl
length-insert_sorted x (y ∷ ys) = ground (arith, length-insert_sorted x ys)

length-sort : (xs : List String) → length (sort text_lt xs) ≡ length xs
length-sort [] = refl
length-sort (x ∷ xs) = ground (arith, length-insert_sorted x (sort text_lt xs), length-sort xs)

unique_from-le : (seen texts : List String) → length seen ≤ length (unique_from seen texts)
unique_from-le seen [] = omega arith
unique_from-le seen (text ∷ texts) =
    ground (arith, unique_from-le (insert_new seen text) texts, length-append seen (text ∷ []))

unique-nil : (texts : List String) → length (unique texts) ≡ 0 → texts ≡ []
unfolding unique
unique-nil [] h = refl
unique-nil (text ∷ texts) h = ground (arith, unique_from-le (text ∷ []) texts)

status_approved :
    (blockers : List String) (valid required : ℕ)
    → quorum_status blockers valid required ≡ approved
    → (length blockers ≡ 0) × (required ≤ valid)
unfolding quorum_status
status_approved blockers valid required h = ground arith

-- An attestation that counts.
pub record IsValid (event : BridgeCanonicalEvent) (policy : BridgeQuorumPolicy)
    (a : BridgeRelayerAttestation) : Type 0 where
  pub authorized : includes policy.relayer_ids a.relayer_id ≡ true
  pub own_event : a.event_id ≡ event.event_id
  pub own_hash : a.event_hash ≡ event.event_hash

-- No two attestations are of one relayer.
abbrev pub Distinct : List BridgeRelayerAttestation → Type 0
Distinct [] = Unit
Distinct (a ∷ attestations) =
    All (λ b. b.relayer_id ≢ a.relayer_id) attestations × Distinct attestations

abbrev Grows : Tally → String → String → Type 0
Grows tally reason relayer =
    length (tally.blockers ++ concat (reason ∷ relayer ∷ []) ∷ []) ≡ length tally.blockers + 1

grows : (tally : Tally) (reason relayer : String) → Grows tally reason relayer
grows tally reason relayer =
    omega (arith, length-append tally.blockers (concat (reason ∷ relayer ∷ []) ∷ []))

-- Each of the blockers that an attestation may add makes the list longer.
four_blockers :
    (tally : Tally) (a : BridgeRelayerAttestation)
    → Grows tally "unknown_relayer:" a.relayer_id
      × Grows tally "attestation_event_id_mismatch:" a.relayer_id
      × Grows tally "attestation_event_hash_mismatch:" a.relayer_id
      × Grows tally "duplicate_attestation:" a.relayer_id
four_blockers tally a = (grows tally _ _, grows tally _ _, grows tally _ _, grows tally _ _)

not_kept :
    (attestations : List BridgeRelayerAttestation) (k : String) (v : BridgeRelayerAttestation)
    (m : Dict BridgeRelayerAttestation)
    → All (λ b. has b.relayer_id (set k v m) ≡ false) attestations
    → All (λ b. has b.relayer_id m ≡ false) attestations × All (λ b. b.relayer_id ≢ k) attestations
not_kept [] k v m h = (tt, tt)
not_kept (b ∷ attestations) k v m h =
    let (old, other) = not_kept attestations k v m h.1 in
    let at = get-set k b.relayer_id v m in
    ((ground (arith, at), old), (ground (arith, at, eq_iff k b.relayer_id), other))

length-map : (m : Dict BridgeRelayerAttestation) → length (map (λ entry. entry.0) m) ≡ length m
length-map [] = refl
length-map (entry ∷ m) = omega (arith, length-map m)

module _ (event : BridgeCanonicalEvent) (policy : BridgeQuorumPolicy) where
  count_grows :
      (tally : Tally) (a : BridgeRelayerAttestation)
      → length tally.blockers ≤ length (count_attestation event policy tally a).blockers
  unfolding count_attestation
  count_grows tally a = ground (arith, four_blockers tally a)

  counts_grow :
      (tally : Tally) (attestations : List BridgeRelayerAttestation)
      → length tally.blockers ≤ length (count_attestations event policy tally attestations).blockers
  unfolding count_attestations
  counts_grow tally [] = omega arith
  counts_grow tally (a ∷ attestations) = omega (
    arith,
    count_grows tally a,
    counts_grow (count_attestation event policy tally a) attestations,
  )

  -- An attestation that adds no blocker is valid, is its relayer's first, and is kept.
  count_clean :
      (tally : Tally) (a : BridgeRelayerAttestation)
      → length (count_attestation event policy tally a).blockers ≡ 0
      → IsValid event policy a
        × (has a.relayer_id tally.valid_by_relayer ≡ false)
        × ((count_attestation event policy tally a).valid_by_relayer
            ≡ set a.relayer_id a tally.valid_by_relayer)
  unfolding count_attestation
  count_clean tally a h = (
    record {
      authorized = ground (arith, four_blockers tally a);
      own_event = ground (arith, four_blockers tally a, eq_iff a.event_id event.event_id);
      own_hash = ground (arith, four_blockers tally a, eq_iff a.event_hash event.event_hash);
    },
    ground (arith, four_blockers tally a),
    ground (arith, four_blockers tally a),
  )

  -- Where the loop adds no blocker, every attestation is valid, they are of distinct relayers that
  -- the tally did not have, and each is kept.
  counts_clean :
      (tally : Tally) (attestations : List BridgeRelayerAttestation)
      → length (count_attestations event policy tally attestations).blockers ≡ 0
      → All (IsValid event policy) attestations
        × All (λ b. has b.relayer_id tally.valid_by_relayer ≡ false) attestations
        × Distinct attestations
        × (length (count_attestations event policy tally attestations).valid_by_relayer
            ≡ length tally.valid_by_relayer + length attestations)
  unfolding count_attestations
  counts_clean tally [] h = (tt, tt, tt, omega arith)
  counts_clean tally (a ∷ attestations) h =
      let after = count_attestation event policy tally a in
      let clean = count_clean tally a (omega (arith, h, counts_grow after attestations)) in
      let rest = counts_clean after attestations h in
      let (old, fresh) =
        not_kept attestations a.relayer_id a tally.valid_by_relayer
          (subst (λ m. All (λ b. has b.relayer_id m ≡ false) attestations) clean.2 rest.1) in
      (
        (clean.0, rest.0),
        (clean.1, old),
        (fresh, rest.2),
        omega (
          arith,
          rest.3,
          ap length clean.2,
          length-set_new a.relayer_id a tally.valid_by_relayer clean.1,
        ),
      )

nil_append : (xs ys : List String) → length (xs ++ ys) ≡ 0 → (length xs ≡ 0) × (length ys ≡ 0)
nil_append xs ys h =
    let both = length-append xs ys in (omega (arith, h, both), omega (arith, h, both))

first_clean :
    (event : BridgeCanonicalEvent) (policy : BridgeQuorumPolicy)
    → length (first_tally event policy).blockers ≡ 0
    → (0 < policy.required_attestations)
      × (event.required_confirmations ≤ event.observed_confirmations)
unfolding validate_quorum_policy
first_clean event policy h =
    let (of_policy, of_event) = nil_append (validate_quorum_policy policy) _ h in
    (ground arith, ground arith)

-- An approved quorum was given at least the required number of attestations, and the required
-- number is positive; each that was given is by an authorised relayer for this very event, no
-- two are by one relayer, and the event has its confirmations.
pub approved_quorum :
    (event : BridgeCanonicalEvent) (attestations : List BridgeRelayerAttestation)
    (policy : BridgeQuorumPolicy)
    → (evaluate_bridge_attestation_quorum event attestations policy).status ≡ approved
    → All (IsValid event policy) attestations
      × Distinct attestations
      × (0 < policy.required_attestations)
      × (policy.required_attestations ≤ length attestations)
      × (event.required_confirmations ≤ event.observed_confirmations)
unfolding evaluate_bridge_attestation_quorum
approved_quorum event attestations policy h =
    let tally = count_attestations event policy (first_tally event policy) attestations in
    let (none_left, enough) = status_approved _ _ _ h in
    let clean : length tally.blockers ≡ 0 =
      ap length
        (unique-nil tally.blockers (sym (length-sort (unique tally.blockers)) ∙ none_left)) in
    let (valid, _, distinct, kept) =
      counts_clean event policy (first_tally event policy) attestations clean in
    let start = counts_grow event policy (first_tally event policy) attestations in
    let first = first_clean event policy (omega (arith, start, clean)) in
    let count : policy.required_attestations ≤ length attestations = omega (
      arith,
      kept,
      enough,
      length-sort (map (λ entry. entry.0) tally.valid_by_relayer),
      length-map tally.valid_by_relayer,
    ) in
    (valid, distinct, first.0, count, first.1)
