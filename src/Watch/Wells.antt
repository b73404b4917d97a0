-- ===== src/Watch/Wells.antt =====
-- services/pearl-indexer/src/watched-address-repository.ts: the invariant of the repository, and
-- the calls of `MemoryWatchedAddressRepository` that keep it.
use pearl_infra.Prelude.{
  ℕ, String, ◌≡◌, inl, inr, ◌⊎◌, ◌∙◌, ap, nat_eq, refl, some, none, Option, List, [], ◌∷◌, Bool,
  true, false, ◌&&◌, ◌===◌, string_eq, if◌then◌else◌, arith, eq_iff, Option-cases, Bool-cases,
  or_default,
}
use pearl_infra.Prelude.Lists.{length, find}
use pearl_infra.Prelude.Map.{Dict, get, set, get-set, values, UniqueKeys, set-UniqueKeys}
use pearl_infra.Watch.Types.{
  AddressObservation, WatchedAddress, RegisterWatchInput, ObservedOutpoint,
}
use pearl_infra.Watch.Repository.{
  WatchRepository, RecordObservationInput, RecordSpendInput, register, diff_watch_fields, close,
  is_live, at_outpoint, new_observation, record_observation, find_observed, find_observed_outpoint,
  mark_spent, record_spend, record_spend_of, is_spend, spends_of, advance_list, replace_list,
  advance_watches, advance_confirmations, detach_list, detach_entries,
  detach_observations_for_block, observations_of,
}
use pearl_infra.Watch.Tidy.{
  IsTidy, CountedAt, is_counted, record-IsTidy, mark_spent-IsTidy, found-LiveAt, advance-IsTidy,
  detach-IsTidy,
}

-- A watch stands under its id.
abbrev pub Keyed : Dict WatchedAddress → Type 0
Keyed watches = (k : String) (w : WatchedAddress) → get k watches ≡ some w → w.watch_id ≡ k

abbrev pub AllTidy : Dict (List AddressObservation) → Type 0
AllTidy observations = (id : String) → IsTidy (or_default (get id observations) [])

pub record IsWell (repo : WatchRepository) : Type 0 where
  pub watch_keys : UniqueKeys repo.watches
  pub keyed : Keyed repo.watches
  pub observation_keys : UniqueKeys repo.observations
  pub tidy : AllTidy repo.observations

set-AllTidy :
    (k : String) (list : List AddressObservation) (observations : Dict (List AddressObservation))
    → AllTidy observations
    → IsTidy list
    → AllTidy (set k list observations)
set-AllTidy k list observations h t id = rw (get-set k id list observations) (go (k === id))
  where
    go : (b : Bool) → IsTidy (or_default (if b then some list else get id observations) [])
    go true = t
    go false = h id

set-Keyed :
    (k : String) (w : WatchedAddress) (watches : Dict WatchedAddress)
    → Keyed watches
    → w.watch_id ≡ k
    → Keyed (set k w watches)
set-Keyed k w watches h e j v f = ground (arith, get-set k j w watches, h j v, eq_iff k j)

pub record-IsWell :
    (q now : String) (input : RecordObservationInput) (repo : WatchRepository)
    → IsWell repo
    → CountedAt q (observations_of input.watch_id repo)
    → (is_counted (new_observation now input) ≡ true → input.outpoint ≡ q)
    → IsWell (record_observation now input repo)
unfolding record_observation
record-IsWell q now input repo s c h = record {
  watch_keys = s.watch_keys;
  keyed = s.keyed;
  observation_keys = set-UniqueKeys _ _ repo.observations s.observation_keys;
  tidy =
      set-AllTidy _ _ repo.observations s.tidy
        (record-IsTidy q (new_observation now input) _ (s.tidy input.watch_id).distinct c h);
}

abbrev live_at : String → List AddressObservation → Option AddressObservation
live_at x list = find (λ o. at_outpoint x o && is_live o) list

-- A new entry under another key hides none of those after it.
live_later :
    (x id k : String) (list : List AddressObservation) (entries : Dict (List AddressObservation))
    (o : AddressObservation)
    → get k entries ≡ none
    → live_at x (or_default (get id entries) []) ≡ some o
    → live_at x (or_default (get id ((k, list) ∷ entries)) []) ≡ some o
unfolding get
live_later x id k list entries o n e = elim (Bool-cases (k === id)) [
  | inl same ↦
      let gone : get id entries ≡ none = rw (← (eq_iff k id).0 same) n in
      absurd (ground (arith, rw gone at e))
  | inr other ↦ rw (get, other) e
]

-- The list that a found observation stands in is that of its watch.
found_in :
    (x : String) (watches : Dict WatchedAddress) (entries : Dict (List AddressObservation))
    (observed : ObservedOutpoint)
    → Keyed watches
    → UniqueKeys entries
    → find_observed x watches entries ≡ some observed
    → live_at x (or_default (get observed.watch.watch_id entries) []) ≡ some observed.observation
unfolding find_observed
found_in x watches [] observed keyed u e = ground arith
found_in x watches ((id, list) ∷ entries) observed keyed u e =
    let later : find_observed x watches entries ≡ some observed
        → live_at x (or_default (get observed.watch.watch_id ((id, list) ∷ entries)) [])
          ≡ some observed.observation =
      λ e'.
        live_later x observed.watch.watch_id id list entries observed.observation u.0
          (found_in x watches entries observed keyed u.1 e') in
    elim (Option-cases (live_at x list)) [
      | inl f ↦ later (ground (arith, e, f))
      | inr (o, f) ↦ elim (Option-cases (get id watches)) [
        | inl g ↦ later (ground (arith, e, f, g))
        | inr (w, g) ↦
            let here : get w.watch_id ((id, list) ∷ entries) ≡ some list =
              unfold get in ground (arith, eq_iff id w.watch_id, keyed id w g) in
            let same : some (record { watch = w; observation = o }) ≡ some observed =
              ground (arith, e, f, g) in
            let parts : observed ≡ record { watch = w; observation = o } = ground (arith, same) in
            rw (parts, here) f
      ]
    ]

spent-IsWell :
    (now : String) (input : RecordSpendInput) (id : String) (repo : WatchRepository)
    → IsWell repo
    → IsTidy (mark_spent input.spent_outpoint (observations_of id repo))
    → IsWell (record_spend_of now input id repo).0
unfolding record_spend_of
spent-IsWell now input id repo s t =
    elim (Option-cases (find (is_spend input) (spends_of id repo))) [
      | inr (existing, e) ↦ rw (record_spend_of, e) s
      | inl e ↦
          rw (record_spend_of, e)
            (record {
              watch_keys = s.watch_keys;
              keyed = s.keyed;
              observation_keys = set-UniqueKeys _ _ repo.observations s.observation_keys;
              tidy = set-AllTidy _ _ repo.observations s.tidy t;
            })
    ]

pub record_spend-IsWell :
    (now : String) (input : RecordSpendInput) (repo : WatchRepository)
    → IsWell repo
    → IsWell (record_spend now input repo).0
unfolding record_spend find_observed_outpoint
record_spend-IsWell now input repo s =
    elim (Option-cases (find_observed input.spent_outpoint repo.watches repo.observations)) [
      | inl e ↦ rw (record_spend, find_observed_outpoint, e) s
      | inr (observed, e) ↦
          rw (record_spend, find_observed_outpoint, e)
            (spent-IsWell now input observed.watch.watch_id repo s (
              mark_spent-IsTidy input.spent_outpoint _
                (found-LiveAt _ observed.observation _ (s.tidy observed.watch.watch_id).distinct
                  (found_in _ repo.watches repo.observations observed s.keyed s.observation_keys e))
                (s.tidy observed.watch.watch_id)))
    ]

pub replace-none :
    (id : String) (list : List AddressObservation) (observations : Dict (List AddressObservation))
    → get id observations ≡ none
    → replace_list id list observations ≡ observations
unfolding replace_list
replace-none id list observations e = ground (arith, e)

pub replace-some :
    (id : String) (list old : List AddressObservation)
    (observations : Dict (List AddressObservation))
    → get id observations ≡ some old
    → replace_list id list observations ≡ set id list observations
unfolding replace_list
replace-some id list old observations e = ground (arith, e)

advance_one :
    (tip required : ℕ) (id : String) (observations : Dict (List AddressObservation))
    → UniqueKeys observations
    → AllTidy observations
    → let next =
        replace_list id
          (advance_list tip required (or_default (get id observations) [])).0
          observations in
      UniqueKeys next × AllTidy next
advance_one tip required id observations u h = elim (Option-cases (get id observations)) [
  | inl e ↦ rw (replace-none id _ observations e) (u, h)
  | inr (list, e) ↦
      let tidy : IsTidy list = rw e at (h id) in
      rw (replace-some id _ list observations e, e)
        (
          set-UniqueKeys id (advance_list tip required list).0 observations u,
          set-AllTidy id (advance_list tip required list).0 observations h
              (advance-IsTidy tip required list tidy),
        )
]

advance_watches-AllTidy :
    (tip : ℕ) (watches : List WatchedAddress) (observations : Dict (List AddressObservation))
    → UniqueKeys observations
    → AllTidy observations
    → UniqueKeys (advance_watches tip watches observations).0
      × AllTidy (advance_watches tip watches observations).0
unfolding advance_watches
advance_watches-AllTidy tip [] observations u h = (u, h)
advance_watches-AllTidy tip (watch ∷ watches) observations u h =
    let next = advance_one tip watch.required_confirmations watch.watch_id observations u h in
    advance_watches-AllTidy tip watches _ next.0 next.1

pub advance-IsWell :
    (tip : ℕ) (repo : WatchRepository) → IsWell repo → IsWell (advance_confirmations tip repo).0
unfolding advance_confirmations
advance-IsWell tip repo s =
    let done =
      advance_watches-AllTidy tip (values repo.watches) repo.observations s.observation_keys
        s.tidy in
    record { watch_keys = s.watch_keys; keyed = s.keyed; observation_keys = done.0; tidy = done.1 }

abbrev pub detached_list :
    String → Option (List AddressObservation) → Option (List AddressObservation)
detached_list hash none = none
detached_list hash (some list) = some (detach_list hash list).0

pub get-detach :
    (hash id : String) (entries : Dict (List AddressObservation))
    → get id (detach_entries hash entries).0 ≡ detached_list hash (get id entries)
unfolding get detach_entries
get-detach hash id [] = refl
get-detach hash id ((k, list) ∷ entries) = ground (arith, get-detach hash id entries)

detach-UniqueKeys :
    (hash : String) (entries : Dict (List AddressObservation))
    → UniqueKeys entries
    → UniqueKeys (detach_entries hash entries).0
unfolding detach_entries
detach-UniqueKeys hash [] u = tt
detach-UniqueKeys hash ((k, list) ∷ entries) u =
    (get-detach hash k entries ∙ ap (detached_list hash) u.0, detach-UniqueKeys hash entries u.1)

pub detach-IsWell :
    (hash : String) (repo : WatchRepository)
    → IsWell repo
    → IsWell (detach_observations_for_block hash repo).0
unfolding detach_observations_for_block
detach-IsWell hash repo s = record {
  watch_keys = s.watch_keys;
  keyed = s.keyed;
  observation_keys = detach-UniqueKeys hash repo.observations s.observation_keys;
  tidy = λ id.
      rw (get-detach hash id repo.observations) (go id (Option-cases (get id repo.observations)));
}
  where
    go :
        (id : String)
        → (get id repo.observations ≡ none)
          ⊎ ((a : List AddressObservation) × (get id repo.observations ≡ some a))
        → IsTidy (or_default (detached_list hash (get id repo.observations)) [])
    go id (inl e) = rw e (rw e at (s.tidy id))
    go id (inr (list, e)) = rw e (detach-IsTidy hash list (rw e at (s.tidy id)))

put-IsWell :
    (k : String) (w : WatchedAddress) (repo : WatchRepository)
    → IsWell repo
    → w.watch_id ≡ k
    → IsWell (record repo { watches = set k w repo.watches })
put-IsWell k w repo s e = record {
  watch_keys = set-UniqueKeys k w repo.watches s.watch_keys;
  keyed = set-Keyed k w repo.watches s.keyed e;
  observation_keys = s.observation_keys;
  tidy = s.tidy;
}

pub register-IsWell :
    (now : String) (input : RegisterWatchInput) (repo : WatchRepository)
    → IsWell repo
    → IsWell (register now input repo).0
unfolding register
register-IsWell now input repo s = elim (Option-cases (get input.watch_id repo.watches)) [
  | inl e ↦ rw (register, e) (put-IsWell _ _ repo s refl)
  | inr (existing, e) ↦ elim (Bool-cases (length (diff_watch_fields existing input) === 0)) [
    | inl same ↦ rw (register, e, same) (put-IsWell _ _ repo s (s.keyed _ existing e))
    | inr differ ↦ rw (register, e, differ) s
  ]
]

pub close-IsWell :
    (now watch_id : String) (repo : WatchRepository)
    → IsWell repo
    → IsWell (close now watch_id repo).0
unfolding close
close-IsWell now watch_id repo s = elim (Option-cases (get watch_id repo.watches)) [
  | inl e ↦ rw (close, e) s
  | inr (watch, e) ↦ rw (close, e) (put-IsWell _ _ repo s (s.keyed watch_id watch e))
]
