-- ===== src/Watch/Replay.antt =====
-- services/pearl-indexer/src/watched-address-repository.ts, `recordObservation`: recording an
-- outpoint again.
use pearl_infra.Prelude.{
  String, ◌≡◌, inl, inr, refl, sym, ap, ◌∙◌, some, none, List, [], ◌∷◌, ◌++◌, true, false, ◌===◌,
  string_eq, if◌then◌else◌, map, arith, eq_iff, Option-cases, Bool-cases, or_default,
}
use mathlib.Core.Path.{subst}
use pearl_infra.Prelude.Lists.{find}
use pearl_infra.Prelude.Map.{get, get-set, get-set_self}
use pearl_infra.Watch.Types.{AddressObservation}
use pearl_infra.Watch.Repository.{
  WatchRepository, RecordObservationInput, is_live, at_outpoint, new_observation, record_in,
  record_observation, observations_of,
}

found_last :
    (obs : AddressObservation) (list : List AddressObservation)
    → find (at_outpoint obs.outpoint) list ≡ none
    → find (at_outpoint obs.outpoint) (list ++ obs ∷ []) ≡ some obs
found_last obs [] e = ground (arith, eq_iff obs.outpoint obs.outpoint)
found_last obs (o ∷ list) e = ground (arith, found_last obs list, e)

found_replaced :
    (obs existing : AddressObservation) (list : List AddressObservation)
    → find (at_outpoint obs.outpoint) list ≡ some existing
    → find
        (at_outpoint obs.outpoint)
        (map (λ o. if at_outpoint obs.outpoint o then obs else o) list)
      ≡ some obs
found_replaced obs existing [] e = absurd (ground (arith, e))
found_replaced obs existing (o ∷ list) e = elim (Bool-cases (at_outpoint obs.outpoint o)) [
  | inl f ↦ rw f (ground (arith, eq_iff obs.outpoint obs.outpoint))
  | inr f ↦ rw (f, f) (found_replaced obs existing list (ground (arith, e, f)))
]

-- A live observation of the outpoint is there afterwards.
recorded_live :
    (obs : AddressObservation) (list : List AddressObservation)
    → is_live obs ≡ true
    → (o : AddressObservation) × (find (at_outpoint obs.outpoint) (record_in obs list) ≡ some o)
      × (is_live o ≡ true)
unfolding record_in
recorded_live obs list live = elim (Option-cases (find (at_outpoint obs.outpoint) list)) [
  | inl e ↦ rw (record_in, e) (obs, found_last obs list e, live)
  | inr (existing, e) ↦ elim (Bool-cases (is_live existing)) [
    | inl f ↦ rw (record_in, e, f) (existing, e, f)
    | inr f ↦ rw (record_in, e, f) (obs, found_replaced obs existing list e, live)
  ]
]

kept_live :
    (obs o : AddressObservation) (list : List AddressObservation)
    → find (at_outpoint obs.outpoint) list ≡ some o
    → is_live o ≡ true
    → record_in obs list ≡ list
unfolding record_in
kept_live obs o list e f = rw (record_in, e, f) refl

record_twice :
    (first again : AddressObservation) (list : List AddressObservation)
    → is_live first ≡ true
    → again.outpoint ≡ first.outpoint
    → record_in again (record_in first list) ≡ record_in first list
record_twice first again list live same =
    let (o, e, f) = recorded_live first list live in
    kept_live again o (record_in first list)
      (subst (λ p. find (at_outpoint p) (record_in first list) ≡ some o) (sym same) e) f

recorded_here :
    (now : String) (input : RecordObservationInput) (repo : WatchRepository) (id : String)
    → input.watch_id ≡ id
    → observations_of id (record_observation now input repo)
      ≡ record_in (new_observation now input) (observations_of id repo)
unfolding record_observation
recorded_here now input repo id e =
    subst
      (λ k.
        observations_of k (record_observation now input repo)
        ≡ record_in (new_observation now input) (observations_of k repo))
      e (rw (get-set_self input.watch_id _ repo.observations) refl)

recorded_elsewhere :
    (now : String) (input : RecordObservationInput) (repo : WatchRepository) (id : String)
    → (input.watch_id === id) ≡ false
    → observations_of id (record_observation now input repo) ≡ observations_of id repo
unfolding record_observation
recorded_elsewhere now input repo id e =
    let same : get id (record_observation now input repo).observations ≡ get id repo.observations =
      ground (
        arith,
        e,
        get-set input.watch_id id
            (record_in (new_observation now input) (observations_of input.watch_id repo))
            repo.observations,
      ) in
    ap (λ o. or_default o []) same

-- Recording an outpoint of a watch again, whatever block, height, amount, classification and time
-- the second call gives, leaves the observations of every watch as the first call left them.
pub record_replay :
    (now later : String) (input again : RecordObservationInput) (repo : WatchRepository)
    (id : String)
    → again.outpoint ≡ input.outpoint
    → again.watch_id ≡ input.watch_id
    → observations_of id (record_observation later again (record_observation now input repo))
      ≡ observations_of id (record_observation now input repo)
record_replay now later input again repo id same_outpoint same_watch =
    elim (Bool-cases (input.watch_id === id)) [
      | inl e ↦
          let here : input.watch_id ≡ id = (eq_iff input.watch_id id).0 e in
          recorded_here later again (record_observation now input repo) id (same_watch ∙ here)
          ∙ (ap (record_in (new_observation later again)) (recorded_here now input repo id here)
              ∙ (record_twice (new_observation now input) (new_observation later again)
                    (observations_of id repo) refl same_outpoint
                  ∙ sym (recorded_here now input repo id here)))
      | inr e ↦
          recorded_elsewhere later again (record_observation now input repo) id
            (ap (λ k. k === id) same_watch ∙ e)
    ]
