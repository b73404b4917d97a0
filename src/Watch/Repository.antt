-- ===== src/Watch/Repository.antt =====
-- services/pearl-indexer/src/watched-address-repository.ts, `MemoryWatchedAddressRepository`.
-- `now` is the time that a call reads.
use pearl_infra.Prelude.{
  ℕ, suc, ◌+◌, String, some, none, Option, List, [], ◌∷◌, ◌++◌, Bool, true, false, not, ◌&&◌, ◌===◌,
  string_eq, nat_eq, if◌then◌else◌, map, or_default,
}
use pearl_infra.Prelude.Lists.{length, filter, find, includes, sort}
use pearl_infra.Prelude.Map.{Dict, get, set, values}
use pearl_infra.Prelude.Int.{ℤ, pos, sub_ℕ, leb_ℤ, eqb_ℤ}
use pearl_infra.Prelude.Text.{text_lt}
use pearl_infra.Watch.Types.{
  WatchPurpose, purpose_eq, WatchStatus, active, closed, PearlNetwork, network_eq,
  ObservationMatchStatus, pending, confirmed, spent, detached, match_eq, Metadata,
  RegisterWatchInput, WatchedAddress, AddressObservation, AddressSpend, ObservedOutpoint,
  WatchHistory,
}

pub record WatchRepository : Type 0 where
  pub watches : Dict WatchedAddress
  pub observations : Dict (List AddressObservation)
  pub spends : Dict (List AddressSpend)

pub record RecordObservationInput : Type 0 where
  pub outpoint : String
  pub watch_id : String
  pub block_hash : String
  pub height : ℕ
  pub amount_grains : String
  pub classification : String

pub record RecordSpendInput : Type 0 where
  pub spend_txid : String
  pub spent_outpoint : String
  pub block_hash : String
  pub height : ℕ
  pub classification : String
  pub classification_data : Option Metadata

-- What `register` throws or returns.
pub data RegisterResult : Type 0 where
  watch_conflict : String → List String → RegisterResult
  registered : WatchedAddress → Bool → RegisterResult

abbrev when : Bool → String → List String
when test field = if test then field ∷ [] else []

unfoldable pub diff_watch_fields : WatchedAddress → RegisterWatchInput → List String
diff_watch_fields existing input =
    when (not (existing.purpose === input.purpose)) "purpose"
    ++ when (not (existing.network === input.network)) "network"
    ++ when (not (existing.address === input.address)) "address"
    ++ when (not (existing.required_confirmations === input.required_confirmations))
        "required_confirmations"

-- `{ ...a, ...b }`
unfoldable pub spread_over : Metadata → Metadata → Metadata
spread_over a [] = a
spread_over a ((k, v) ∷ b) = spread_over (set k v a) b

-- The metadata of the first registration stays; only keys that it lacks are added.
abbrev pub merged_metadata : RegisterWatchInput → WatchedAddress → Metadata
merged_metadata input existing = spread_over (or_default input.metadata []) existing.metadata

-- `shallowRecordEqual(existing.metadata, merged)`: the merged record has every key of the existing
-- one, with its value, so the two are equal when they are as long.
abbrev same_record : Metadata → Metadata → Bool
same_record existing merged = length existing === length merged

abbrev pub new_watch : String → RegisterWatchInput → WatchedAddress
new_watch now input = record {
  watch_id = input.watch_id;
  purpose = input.purpose;
  network = input.network;
  address = input.address;
  required_confirmations = input.required_confirmations;
  status = active;
  metadata = or_default input.metadata [];
  created_at = now;
  updated_at = now;
}

-- An existing watch that agrees with the request.
abbrev pub with_metadata : String → RegisterWatchInput → WatchedAddress → WatchedAddress
with_metadata now input existing = record existing {
  metadata = merged_metadata input existing;
  updated_at =
      if same_record existing.metadata (merged_metadata input existing)
      then existing.updated_at
      else now;
}

abbrev put_watch : WatchedAddress → String → WatchRepository → WatchRepository
put_watch watch watch_id repo = record repo { watches = set watch_id watch repo.watches }

unfoldable pub register :
    String → RegisterWatchInput → WatchRepository → WatchRepository × RegisterResult
register now input repo = elim (get input.watch_id repo.watches) [
  | none ↦
      (put_watch (new_watch now input) input.watch_id repo, registered (new_watch now input) true)
  | some existing ↦
      let diffs = diff_watch_fields existing input in
      let updated = with_metadata now input existing in
      if (length diffs === 0)
      then (put_watch updated input.watch_id repo, registered updated false)
      else (repo, watch_conflict input.watch_id diffs)
]

-- `this.observations.get(watchId) ?? []`
abbrev pub observations_of : String → WatchRepository → List AddressObservation
observations_of watch_id repo = or_default (get watch_id repo.observations) []

abbrev pub spends_of : String → WatchRepository → List AddressSpend
spends_of watch_id repo = or_default (get watch_id repo.spends) []

-- `get`
unfoldable pub get_watch : String → WatchRepository → Option WatchHistory
get_watch watch_id repo = elim (get watch_id repo.watches) [
  | none ↦ none
  | some watch ↦ some (record {
    watch = watch;
    observations = observations_of watch_id repo;
    spends = spends_of watch_id repo;
  })
]

-- `none` is the error `no watch for watch_id …`.
unfoldable pub close : String → String → WatchRepository → WatchRepository × Option WatchedAddress
close now watch_id repo = elim (get watch_id repo.watches) [
  | none ↦ (repo, none)
  | some watch ↦
      let updated : WatchedAddress = record watch { status = closed; updated_at = now } in
      (put_watch updated watch_id repo, some updated)
]

abbrev is_active : WatchStatus → Bool
is_active active = true
is_active closed = false

abbrev pub list_active : List WatchPurpose → WatchRepository → List WatchedAddress
list_active wanted repo =
    sort (λ a b. text_lt a.created_at b.created_at)
      (filter (λ w. is_active w.status && includes wanted w.purpose) (values repo.watches))

abbrev pub find_active_by_address : PearlNetwork → String → WatchRepository → List WatchedAddress
find_active_by_address network address repo =
    filter (λ w. is_active w.status && ((w.network === network) && (w.address === address)))
      (values repo.watches)

abbrev pub is_live : AddressObservation → Bool
is_live o = not (o.match_status === detached)

abbrev pub new_observation : String → RecordObservationInput → AddressObservation
new_observation now input = record {
  outpoint = input.outpoint;
  watch_id = input.watch_id;
  block_hash = input.block_hash;
  height = input.height;
  amount_grains = input.amount_grains;
  confirmations = pos 1;
  match_status = pending;
  classification = input.classification;
  observed_at = now;
}

abbrev pub at_outpoint : String → AddressObservation → Bool
at_outpoint outpoint o = o.outpoint === outpoint

abbrev put_observations : String → List AddressObservation → WatchRepository → WatchRepository
put_observations watch_id list repo = record repo {
  observations = set watch_id list repo.observations;
}

-- The list that `recordObservation` leaves: a live observation of the outpoint stays, a detached
-- one is replaced, and a new one goes to the end.
unfoldable pub record_in : AddressObservation → List AddressObservation → List AddressObservation
record_in obs list = elim (find (at_outpoint obs.outpoint) list) [
  | none ↦ list ++ obs ∷ []
  | some existing ↦
      if is_live existing
      then list
      else map (λ o. if at_outpoint obs.outpoint o then obs else o) list
]

unfoldable pub record_observation :
    String → RecordObservationInput → WatchRepository → WatchRepository
record_observation now input repo =
    put_observations input.watch_id
      (record_in (new_observation now input) (observations_of input.watch_id repo)) repo

-- The loop of `findObservedOutpoint` over the entries of `observations`.
unfoldable pub find_observed :
    String → Dict WatchedAddress → Dict (List AddressObservation) → Option ObservedOutpoint
find_observed outpoint watches [] = none
find_observed outpoint watches ((watch_id, list) ∷ entries) =
    let rest = find_observed outpoint watches entries in
    elim (find (λ o. at_outpoint outpoint o && is_live o) list) [
      | none ↦ rest
      | some o ↦ elim (get watch_id watches) [
        | none ↦ rest
        | some watch ↦ some (record { watch = watch; observation = o })
      ]
    ]

unfoldable pub find_observed_outpoint : String → WatchRepository → Option ObservedOutpoint
find_observed_outpoint outpoint repo = find_observed outpoint repo.watches repo.observations

abbrev new_spend : String → RecordSpendInput → AddressSpend
new_spend now input = record {
  spend_txid = input.spend_txid;
  spent_outpoint = input.spent_outpoint;
  block_hash = input.block_hash;
  height = input.height;
  classification = input.classification;
  classification_data = some (or_default input.classification_data []);
  observed_at = now;
}

unfoldable pub mark_spent : String → List AddressObservation → List AddressObservation
mark_spent outpoint [] = []
mark_spent outpoint (o ∷ list) =
    (if at_outpoint outpoint o then record o { match_status = spent } else o)
    ∷ mark_spent outpoint list

abbrev pub is_spend : RecordSpendInput → AddressSpend → Bool
is_spend input s =
    (s.spend_txid === input.spend_txid) && (s.spent_outpoint === input.spent_outpoint)

-- The second half of `recordSpend`, for the watch of the spent outpoint.
unfoldable pub record_spend_of :
    String → RecordSpendInput → String → WatchRepository → WatchRepository × AddressSpend
record_spend_of now input watch_id repo = elim (find (is_spend input) (spends_of watch_id repo)) [
  | some existing ↦ (repo, existing)
  | none ↦ (
    record repo {
      spends = set watch_id (spends_of watch_id repo ++ new_spend now input ∷ []) repo.spends;
      observations =
          set watch_id (mark_spent input.spent_outpoint (observations_of watch_id repo))
            repo.observations;
    },
    new_spend now input,
  )
]

-- `none` is the error `cannot record spend for unknown outpoint …`.
unfoldable pub record_spend :
    String → RecordSpendInput → WatchRepository → WatchRepository × Option AddressSpend
record_spend now input repo = elim (find_observed_outpoint input.spent_outpoint repo) [
  | none ↦ (repo, none)
  | some observed ↦
      let done = record_spend_of now input observed.watch.watch_id repo in (done.0, some done.1)
]

-- `tipHeight - o.height + 1`
abbrev pub confirmations_at : ℕ → AddressObservation → ℤ
confirmations_at tip o = sub_ℕ (tip + 1) o.height

abbrev pub status_at : ℕ → ℕ → AddressObservation → ObservationMatchStatus
status_at tip required o =
    if leb_ℤ (pos required) (confirmations_at tip o) then confirmed else pending

-- The loop over one watch's observations, with the number of those that change.
unfoldable pub advance_list : ℕ → ℕ → List AddressObservation → List AddressObservation × ℕ
advance_list tip required [] = ([], 0)
advance_list tip required (o ∷ list) =
    let rest = advance_list tip required list in
    let moved : AddressObservation = record o {
      confirmations = confirmations_at tip o;
      match_status = status_at tip required o;
    } in
    if not (o.match_status === pending) && not (o.match_status === confirmed)
    then (o ∷ rest.0, rest.1)
    else if eqb_ℤ (confirmations_at tip o) o.confirmations
        && (o.match_status === status_at tip required o)
    then (o ∷ rest.0, rest.1)
    else (moved ∷ rest.0, suc rest.1)

-- A list is changed in place: a watch without one gets none.
unfoldable pub replace_list :
    String
    → List AddressObservation
    → Dict (List AddressObservation)
    → Dict (List AddressObservation)
replace_list watch_id list observations = elim (get watch_id observations) [
  | none ↦ observations
  | some old ↦ set watch_id list observations
]

unfoldable pub advance_watches :
    ℕ → List WatchedAddress → Dict (List AddressObservation) → Dict (List AddressObservation) × ℕ
advance_watches tip [] observations = (observations, 0)
advance_watches tip (watch ∷ watches) observations =
    let moved =
      advance_list tip watch.required_confirmations
        (or_default (get watch.watch_id observations) []) in
    let rest = advance_watches tip watches (replace_list watch.watch_id moved.0 observations) in
    (rest.0, moved.1 + rest.1)

unfoldable pub advance_confirmations : ℕ → WatchRepository → WatchRepository × ℕ
advance_confirmations tip repo =
    let done = advance_watches tip (values repo.watches) repo.observations in
    (record repo { observations = done.0 }, done.1)

unfoldable pub detach_list : String → List AddressObservation → List AddressObservation × ℕ
detach_list block_hash [] = ([], 0)
detach_list block_hash (o ∷ list) =
    let rest = detach_list block_hash list in
    if (o.block_hash === block_hash) && is_live o
    then (record o { match_status = detached; classification = "reorged" } ∷ rest.0, suc rest.1)
    else (o ∷ rest.0, rest.1)

unfoldable pub detach_entries :
    String → Dict (List AddressObservation) → Dict (List AddressObservation) × ℕ
detach_entries block_hash [] = ([], 0)
detach_entries block_hash ((watch_id, list) ∷ entries) =
    let rest = detach_entries block_hash entries in
    let done = detach_list block_hash list in ((watch_id, done.0) ∷ rest.0, done.1 + rest.1)

unfoldable pub detach_observations_for_block : String → WatchRepository → WatchRepository × ℕ
detach_observations_for_block block_hash repo =
    let done = detach_entries block_hash repo.observations in
    (record repo { observations = done.0 }, done.1)
