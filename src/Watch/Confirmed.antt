-- ===== src/Watch/Confirmed.antt =====
-- services/pearl-indexer/src/watched-address-repository.ts, `advanceConfirmations`: what the
-- observations say after it.
use pearl_infra.Prelude.{
  ℕ, ◌+◌, ◌≤◌, ◌<◌, String, ◌≡◌, ◌⊎◌, inl, inr, refl, sym, some, List, [], ◌∷◌, Bool, true, false,
  not, ◌&&◌, ◌||◌, ◌===◌, string_eq, arith, eq_iff, Option-cases, Bool-cases, or_default, ===_refl,
  ap, ◌∙◌,
}
use mathlib.Core.Path.{subst}
use pearl_infra.Prelude.Lists.{All, any}
use pearl_infra.Prelude.Map.{Dict, get, get-set, values, All-values, any-values}
use pearl_infra.Prelude.Int.{pos_part, neg_part, eqb_ℤ, eqb_ℤ_sound}
use pearl_infra.Watch.Types.{AddressObservation, WatchedAddress, match_eq, pending, confirmed}
use pearl_infra.Watch.Repository.{
  WatchRepository, advance_list, replace_list, advance_watches, advance_confirmations,
  confirmations_at, status_at, observations_of,
}
use pearl_infra.Watch.Wells.{IsWell, replace-none, replace-some}

abbrev pub is_open : AddressObservation → Bool
is_open o = (o.match_status === pending) || (o.match_status === confirmed)

-- What the tip says of an observation: a block at the tip has one confirmation, each block below it
-- one more, and a block above it none or fewer. The observation is confirmed when the blocks from
-- its own to the tip are as many as required, and pending otherwise.
pub record SaysTip (tip required : ℕ) (o : AddressObservation) : Type 0 where
  pub counts : pos_part o.confirmations + o.height ≡ tip + 1 + neg_part o.confirmations
  pub if_confirmed : o.match_status ≡ confirmed → required + o.height ≤ tip + 1
  pub if_pending : o.match_status ≡ pending → tip + 1 < required + o.height

-- An observation that is neither spent nor detached says what the tip says.
abbrev pub IsCurrent : ℕ → ℕ → AddressObservation → Type 0
IsCurrent tip required o = (is_open o ≡ false) ⊎ SaysTip tip required o

computed-SaysTip :
    (tip required : ℕ) (o : AddressObservation)
    → o.confirmations ≡ confirmations_at tip o
    → o.match_status ≡ status_at tip required o
    → SaysTip tip required o
computed-SaysTip tip required o c m = record {
  counts = ground (arith, c);
  if_confirmed = λ e. ground (arith, c, m, e);
  if_pending = λ e. ground (arith, c, m, e);
}

advance-IsCurrent :
    (tip required : ℕ) (list : List AddressObservation)
    → All (IsCurrent tip required) (advance_list tip required list).0
unfolding advance_list
advance-IsCurrent tip required [] = tt
advance-IsCurrent tip required (o ∷ list) =
    elim (Bool-cases (not (o.match_status === pending) && not (o.match_status === confirmed))) [
      | inl e ↦ rw (advance_list, e) (inl (ground arith), advance-IsCurrent tip required list)
      | inr e ↦
          elim (Bool-cases (
            eqb_ℤ (confirmations_at tip o) o.confirmations
            && (o.match_status === status_at tip required o))) [
              | inl f ↦
                  rw (advance_list, e, f)
                    (
                      inr (
                          computed-SaysTip tip required o
                            (sym
                              (eqb_ℤ_sound (confirmations_at tip o) o.confirmations (ground arith)))
                            ((match_eq.beq_iff o.match_status (status_at tip required o)).0
                              (ground arith))),
                      advance-IsCurrent tip required list,
                    )
              | inr f ↦
                  rw (advance_list, e, f)
                    (
                      inr (computed-SaysTip tip required _ refl refl),
                      advance-IsCurrent tip required list,
                    )
            ]
    ]

abbrev list_of : String → Dict (List AddressObservation) → List AddressObservation
list_of id observations = or_default (get id observations) []

abbrev advanced :
    ℕ → WatchedAddress → Dict (List AddressObservation) → Dict (List AddressObservation)
advanced tip w observations =
    replace_list w.watch_id
      (advance_list tip w.required_confirmations (list_of w.watch_id observations)).0 observations

advanced-IsCurrent :
    (tip : ℕ) (w : WatchedAddress) (observations : Dict (List AddressObservation))
    → All
        (IsCurrent tip w.required_confirmations)
        (list_of w.watch_id (advanced tip w observations))
unfolding advance_list
advanced-IsCurrent tip w observations = elim (Option-cases (get w.watch_id observations)) [
  | inl e ↦ rw (replace-none w.watch_id _ observations e, e) tt
  | inr (list, e) ↦
      rw (replace-some w.watch_id _ list observations e, get-set, ===_refl w.watch_id)
        (advance-IsCurrent tip w.required_confirmations (list_of w.watch_id observations))
]

advanced-other :
    (tip : ℕ) (id : String) (w : WatchedAddress) (observations : Dict (List AddressObservation))
    → (w.watch_id === id) ≡ false
    → get id (advanced tip w observations) ≡ get id observations
advanced-other tip id w observations h = elim (Option-cases (get w.watch_id observations)) [
  | inl e ↦ ap (get id) (replace-none w.watch_id _ observations e)
  | inr (list, e) ↦
      ap (get id) (replace-some w.watch_id _ list observations e)
      ∙ ground (
        arith,
        get-set w.watch_id id
            (advance_list tip w.required_confirmations (list_of w.watch_id observations)).0
            observations,
        h,
      )
]

-- The loop over the watches: the list of `w` is current once `w` has been passed.
watches-IsCurrent :
    (tip : ℕ) (w : WatchedAddress) (watches : List WatchedAddress)
    (observations : Dict (List AddressObservation))
    → All (λ other. (other.watch_id === w.watch_id) ≡ true → other ≡ w) watches
    → (any (λ other. other.watch_id === w.watch_id) watches ≡ true)
      ⊎ All (IsCurrent tip w.required_confirmations) (list_of w.watch_id observations)
    → All
        (IsCurrent tip w.required_confirmations)
        (list_of w.watch_id (advance_watches tip watches observations).0)
unfolding advance_watches
watches-IsCurrent tip w [] observations same (inl h) = absurd (ground arith)
watches-IsCurrent tip w [] observations same (inr h) = h
watches-IsCurrent tip w (other ∷ watches) observations same h =
    elim (Bool-cases (other.watch_id === w.watch_id)) [
      | inl e ↦ watches-IsCurrent tip w watches _ same.1 (
          inr (
            subst
              (λ x.
                All (IsCurrent tip w.required_confirmations)
                  (list_of w.watch_id (advanced tip x observations)))
              (sym (same.0 e)) (advanced-IsCurrent tip w observations)))
      | inr e ↦ watches-IsCurrent tip w watches _ same.1 (elim h [
        | inl m ↦ inl (ground (arith, m, e))
        | inr c ↦ inr (rw (advanced-other tip w.watch_id other observations e) c)
      ])
    ]

-- In a repository that satisfies its invariant, after the tip is advanced, every observation of a
-- registered watch, active or closed, that is neither spent nor detached counts the blocks from its
-- own height to the tip, both included (zero for the block after the tip and below zero from there
-- on), and it is confirmed where they are at least as many as the watch requires, and pending where
-- they are fewer.
pub advance_exact :
    (tip : ℕ) (repo : WatchRepository) (id : String) (w : WatchedAddress)
    → IsWell repo
    → get id repo.watches ≡ some w
    → All
        (IsCurrent tip w.required_confirmations)
        (observations_of id (advance_confirmations tip repo).0)
unfolding advance_confirmations
advance_exact tip repo id w s e =
    subst
      (λ k.
        All (IsCurrent tip w.required_confirmations)
          (observations_of k (advance_confirmations tip repo).0))
      (s.keyed id w e)
      (watches-IsCurrent tip w (values repo.watches) repo.observations
        (All-values _ repo.watches s.watch_keys (λ k other f h.
          ground
            (arith, s.keyed k other f, s.keyed id w e, f, e, eq_iff other.watch_id w.watch_id)))
        (inl (any-values _ id w repo.watches e (===_refl w.watch_id))))
