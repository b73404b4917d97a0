-- ===== src/Usdc/Ingest.antt =====
-- packages/usdc-escrow-client/src/events.ts, `ingestEvents`: the states that the repository
-- keeps, against the events that it stores.
use pearl_infra.Prelude.{
  String, ◌≡◌, ◌⊎◌, ◌∙◌, ap, sym, inl, inr, refl, some, none, Option, List, [], ◌∷◌, ◌++◌, true,
  map, arith, eq_iff, ◌===◌, string_eq, Bool-cases,
}
use mathlib.Core.Path.{subst}
use pearl_infra.Prelude.Lists.{filter, includes, unique}
use pearl_infra.Prelude.Map.{Dict, get, set, values, get-set}
use pearl_infra.Prelude.Sorted.{Exists}
use pearl_infra.Usdc.Types.{UsdcEscrowTradeEvent, UsdcEscrowTradeEventState}
use pearl_infra.Usdc.Events.{EventResult, ok, mismatch}
use pearl_infra.Usdc.Repository.{
  EventRepository, insert_events, trade_states_of, keep_state, update_states, returned,
  ingest_events,
}
use pearl_infra.Usdc.Latest.{IsLatest, normalize-IsLatest}
use pearl_infra.Usdc.Inserted.{
  has_key, events_of_trade, filter-append, append_nil, append-nil_left, values-insert_events,
  includes-unique_from, filter-none, All-filtered-nil,
}

-- Every trade has the state after the last of its events that are stored.
abbrev pub AllLatest : EventRepository → Type 0
AllLatest repository =
    (key : String)
    → IsLatest key (events_of_trade key repository) (get key repository.state_by_trade_key)

-- Every trade has that state, or the one that it had in `states`.
abbrev pub AllLatestOr : Dict UsdcEscrowTradeEventState → EventRepository → Type 0
AllLatestOr states repository =
    (key : String)
    → IsLatest key (events_of_trade key repository) (get key repository.state_by_trade_key)
      ⊎ (get key repository.state_by_trade_key ≡ get key states)

-- A trade without an event has no state.
no_event :
    (key : String) (events : List UsdcEscrowTradeEvent) (s : Option UsdcEscrowTradeEventState)
    → IsLatest key events s
    → events ≡ []
    → s ≡ none
no_event key events none l e = refl
no_event key events (some s) l e = absurd (subst (Exists _) e l)

-- What holds while the states of the trades `keys` are still to be updated: each other trade has
-- its latest state, and each of these has that or the one in `states`.
Pending : List String → Dict UsdcEscrowTradeEventState → EventRepository → Type 0
Pending keys states repository =
    (key : String)
    → IsLatest key (events_of_trade key repository) (get key repository.state_by_trade_key)
      ⊎ ((includes keys key ≡ true)
          × (get key repository.state_by_trade_key ≡ get key states)
          × (events_of_trade key repository ≡ [] → get key states ≡ none))

keep-Pending :
    (key : String) (keys : List String) (states : Dict UsdcEscrowTradeEventState)
    (repository : EventRepository) (new : Option UsdcEscrowTradeEventState)
    → IsLatest key (events_of_trade key repository) new
    → Pending (key ∷ keys) states repository
    → Pending keys states (keep_state key new repository)
unfolding keep_state Pending
keep-Pending key keys states repository none l h k = elim (h k) [
  | inl latest ↦ inl latest
  | inr (there, same, empty) ↦ elim (Bool-cases (key === k)) [
    | inl e ↦
        let at : key ≡ k = (eq_iff key k).0 e in
        let nothing = All-filtered-nil key (values repository.events_by_id) l in
        let no_state : get k repository.state_by_trade_key ≡ none =
          same ∙ empty (subst (λ x. events_of_trade x repository ≡ []) at nothing) in
        inl (
          subst (IsLatest k (events_of_trade k repository)) (sym no_state)
            (subst (λ x. IsLatest x (events_of_trade x repository) none) at l))
    | inr e ↦ inr (ground (arith, there, e), same, empty)
  ]
]
keep-Pending key keys states repository (some s) l h k =
    let at = get-set key k s repository.state_by_trade_key in
    elim (Bool-cases (key === k)) [
      | inl e ↦
          let now : get k (set key s repository.state_by_trade_key) ≡ some s =
            ground (arith, at, e) in
          inl (
            subst (IsLatest k (events_of_trade k repository)) (sym now) (
              subst (λ x. IsLatest x (events_of_trade x repository) (some s)) ((eq_iff key k).0 e)
                l))
      | inr e ↦
          let kept : get k (set key s repository.state_by_trade_key)
              ≡ get k repository.state_by_trade_key =
            ground (arith, at, e) in
          elim (h k) [
            | inl latest ↦ inl (subst (IsLatest k (events_of_trade k repository)) (sym kept) latest)
            | inr (there, same, empty) ↦ inr (ground (arith, there, e), kept ∙ same, empty)
          ]
    ]

-- What is so after a call that returned or threw.
abbrev pub Settled :
    Dict UsdcEscrowTradeEventState → EventRepository → EventResult EventRepository → Type 0
Settled states repository (ok r) = AllLatest repository
Settled states repository (mismatch trade) = AllLatestOr states repository

Pending-AllLatestOr :
    (keys : List String) (states : Dict UsdcEscrowTradeEventState) (repository : EventRepository)
    → Pending keys states repository
    → AllLatestOr states repository
unfolding Pending
Pending-AllLatestOr keys states repository h key = elim (h key) [
  | inl latest ↦ inl latest
  | inr (there, same, empty) ↦ inr same
]

turn-Settled :
    (key : String) (keys : List String) (states : Dict UsdcEscrowTradeEventState)
    (repository : EventRepository) (r : EventResult (Dict UsdcEscrowTradeEventState))
    → trade_states_of key repository ≡ r
    → Pending (key ∷ keys) states repository
    → ((next : EventRepository)
        → Pending keys states next
        → let after = update_states keys next in Settled states after.0 after.1)
    → let after : EventRepository × EventResult EventRepository =
        elim r as (λ _. EventRepository × EventResult EventRepository) [
          | mismatch trade ↦ (repository, mismatch trade)
          | ok found ↦ update_states keys (keep_state key (get key found) repository)
        ] in
      Settled states after.0 after.1
unfolding trade_states_of
turn-Settled key keys states repository (mismatch trade) e h rest =
    Pending-AllLatestOr (key ∷ keys) states repository h
turn-Settled key keys states repository (ok found) e h rest =
    rest (keep_state key (get key found) repository) (
      keep-Pending key keys states repository (get key found)
        (normalize-IsLatest (events_of_trade key repository) found key e) h)

update-Settled :
    (keys : List String) (states : Dict UsdcEscrowTradeEventState) (repository : EventRepository)
    → Pending keys states repository
    → let after = update_states keys repository in Settled states after.0 after.1
unfolding update_states Pending trade_states_of
update-Settled [] states repository h = λ key. elim (h key) [
  | inl latest ↦ latest
  | inr (there, same, empty) ↦ absurd (ground (arith, there))
]
update-Settled (key ∷ keys) states repository h =
    turn-Settled key keys states repository (trade_states_of key repository) refl h
      (λ next. update-Settled keys states next)

-- After the first loop the trades of the new events are still to be updated.
inserted-Pending :
    (events : List UsdcEscrowTradeEvent) (repository : EventRepository)
    → AllLatest repository
    → let inserted = insert_events events repository.events_by_id in
      Pending
        (unique (map (λ event. event.trade_key) inserted.1))
        repository.state_by_trade_key
        (record repository { events_by_id = inserted.0 })
unfolding Pending unique
inserted-Pending events repository h key =
    let inserted = insert_events events repository.events_by_id in
    let old = filter (has_key key) (values repository.events_by_id) in
    let grown : filter (has_key key) (values inserted.0) ≡ old ++ filter (has_key key) inserted.1 =
      ap (filter (has_key key)) (values-insert_events events repository.events_by_id)
      ∙ filter-append key (values repository.events_by_id) inserted.1 in
    elim (Bool-cases (includes (map (λ event. event.trade_key) inserted.1) key)) [
      | inl e ↦ inr (
        includes-unique_from key [] (map (λ event. event.trade_key) inserted.1) ∙ e,
        refl,
        λ empty. no_event key old _ (h key) (append-nil_left old _ (sym grown ∙ empty)),
      )
      | inr e ↦
          let same : filter (has_key key) (values inserted.0) ≡ old =
            grown ∙ (ap (λ l. old ++ l) (filter-none key inserted.1 e) ∙ append_nil old) in
          inl
            (subst (λ l. IsLatest key l (get key repository.state_by_trade_key)) (sym same) (h key))
    ]

-- Where the state of every trade has the data of the last of its stored events (name, status,
-- transaction, source id, block number, confirmations), it still has after a call of `ingestEvents`
-- that returns, whatever events in whatever order the call brings; where the call throws, that
-- holds of each trade with the events stored by then, or the trade has the state that it had before.
pub ingest-AllLatest :
    (events : List UsdcEscrowTradeEvent) (repository : EventRepository)
    → AllLatest repository
    → let after = ingest_events events repository in
      ((out : List UsdcEscrowTradeEventState) × (after.1 ≡ ok out) × AllLatest after.0)
      ⊎ ((trade : String) × (after.1 ≡ mismatch trade)
          × AllLatestOr repository.state_by_trade_key after.0)
unfolding ingest_events
ingest-AllLatest events repository h =
    let inserted = insert_events events repository.events_by_id in
    let keys = unique (map (λ event. event.trade_key) inserted.1) in
    let updated = update_states keys (record repository { events_by_id = inserted.0 }) in
    outcome keys updated.0 updated.1
      (update-Settled keys repository.state_by_trade_key _ (inserted-Pending events repository h))
  where
    outcome :
        (keys : List String) (after : EventRepository) (r : EventResult EventRepository)
        → Settled repository.state_by_trade_key after r
        → ((out : List UsdcEscrowTradeEventState) × (returned keys r ≡ ok out) × AllLatest after)
          ⊎ ((trade : String) × (returned keys r ≡ mismatch trade)
              × AllLatestOr repository.state_by_trade_key after)
    outcome keys after (ok r) s = inl (_, refl, s)
    outcome keys after (mismatch trade) s = inr (trade, refl, s)
