-- ===== src/Usdc/Inserted.antt =====
-- packages/usdc-escrow-client/src/events.ts, the first loop of `ingestEvents`: where the new
-- events are stored, and which trades they are of.
use pearl_infra.Prelude.{
  String, ◌≡◌, ◌∙◌, ap, sym, inl, inr, refl, List, [], ◌∷◌, ◌++◌, Bool, false, ◌||◌, map, arith,
  eq_iff, ◌===◌, string_eq, Bool-cases,
}
use pearl_infra.Prelude.Lists.{All, filter, includes, insert_new, unique_from}
use pearl_infra.Prelude.Map.{Dict, set, has, values, values-set_new}
use pearl_infra.Usdc.Types.{UsdcEscrowTradeEvent}
use pearl_infra.Usdc.Events.{create_usdc_escrow_source_event_id}
use pearl_infra.Usdc.Repository.{EventRepository, insert_events}

abbrev pub has_key : String → UsdcEscrowTradeEvent → Bool
has_key key event = event.trade_key === key

-- `eventsForTrade`
abbrev pub events_of_trade : String → EventRepository → List UsdcEscrowTradeEvent
events_of_trade key repository = filter (has_key key) (values repository.events_by_id)

pub filter-append :
    (key : String) (xs ys : List UsdcEscrowTradeEvent)
    → filter (has_key key) (xs ++ ys) ≡ filter (has_key key) xs ++ filter (has_key key) ys
filter-append key [] ys = refl
filter-append key (x ∷ xs) ys = ground (arith, filter-append key xs ys)

append_assoc : (xs ys zs : List UsdcEscrowTradeEvent) → xs ++ ys ++ zs ≡ xs ++ (ys ++ zs)
append_assoc [] ys zs = refl
append_assoc (x ∷ xs) ys zs = ap (λ l. x ∷ l) (append_assoc xs ys zs)

pub append_nil : (xs : List UsdcEscrowTradeEvent) → xs ++ [] ≡ xs
append_nil [] = refl
append_nil (x ∷ xs) = ap (λ l. x ∷ l) (append_nil xs)

pub append-nil_left : (xs ys : List UsdcEscrowTradeEvent) → xs ++ ys ≡ [] → xs ≡ []
append-nil_left [] ys e = refl
append-nil_left (x ∷ xs) ys e = absurd (ground (arith, e))

-- The new events stand after those that are known.
pub values-insert_events :
    (events : List UsdcEscrowTradeEvent) (known : Dict UsdcEscrowTradeEvent)
    → values (insert_events events known).0 ≡ values known ++ (insert_events events known).1
unfolding insert_events
values-insert_events [] known = sym (append_nil (values known))
values-insert_events (event ∷ events) known =
    let id = create_usdc_escrow_source_event_id event in
    elim (Bool-cases (has id known)) [
      | inl e ↦ rw (insert_events, e) (values-insert_events events known)
      | inr e ↦
          rw (insert_events, e)
            (values-insert_events events (set id event known)
              ∙ ap (λ l. l ++ (insert_events events (set id event known)).1)
                  (values-set_new id event known (ground arith))
              ∙ append_assoc (values known) (event ∷ [])
                  (insert_events events (set id event known)).1)
    ]

includes-append :
    (key : String) (xs ys : List String)
    → includes (xs ++ ys) key ≡ (includes xs key || includes ys key)
includes-append key [] ys = refl
includes-append key (x ∷ xs) ys = ground (arith, includes-append key xs ys)

includes-insert_new :
    (key : String) (seen : List String) (text : String)
    → includes (insert_new seen text) key ≡ (includes seen key || (text === key))
includes-insert_new key seen text =
    ground (arith, includes-append key seen (text ∷ []), eq_iff text key)

pub includes-unique_from :
    (key : String) (seen texts : List String)
    → includes (unique_from seen texts) key ≡ (includes seen key || includes texts key)
includes-unique_from key seen [] = ground arith
includes-unique_from key seen (text ∷ texts) = ground (
  arith,
  includes-unique_from key (insert_new seen text) texts,
  includes-insert_new key seen text,
)

-- No event of the trade is new: its events stay as they are.
pub filter-none :
    (key : String) (events : List UsdcEscrowTradeEvent)
    → includes (map (λ event. event.trade_key) events) key ≡ false
    → filter (has_key key) events ≡ []
filter-none key [] h = refl
filter-none key (event ∷ events) h = ground (arith, filter-none key events)

pub All-filtered-nil :
    (key : String) (events : List UsdcEscrowTradeEvent)
    → All (λ event. (event.trade_key === key) ≡ false) (filter (has_key key) events)
    → filter (has_key key) events ≡ []
All-filtered-nil key [] h = refl
All-filtered-nil key (event ∷ events) h = elim (Bool-cases (event.trade_key === key)) [
  | inl e ↦
      let both : ((event.trade_key === key) ≡ false)
          × All (λ x. (x.trade_key === key) ≡ false) (filter (has_key key) events) =
        rw e at h in
      absurd (ground (arith, both.0, e))
  | inr e ↦ rw e (All-filtered-nil key events (rw e at h))
]
