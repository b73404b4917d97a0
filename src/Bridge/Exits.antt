-- ===== src/Bridge/Exits.antt =====
-- services/bridge-service/src/repository.ts, `InMemoryBridgeStateRepository`
use pearl_infra.Prelude.{
  ℕ, String, some, none, Option, List, [], ◌∷◌, Bool, true, false, not, ◌&&◌, ◌||◌, ◌===◌,
  if◌then◌else◌, leb, ltb, ◌==◌, or_else, string_eq, nat_eq,
}
use pearl_infra.Prelude.Lists.{length, find, filter, sort, take, head?, every}
use pearl_infra.Prelude.Map.{Dict, get, set, values}
use pearl_infra.Prelude.Text.{to_lower_case, truthy, concat, text_lt}
use pearl_infra.Prelude.Digits.{is_digit}
use pearl_infra.Prelude.BigInts.{codes}
use pearl_infra.Bridge.Types.{
  Metadata, BridgeExitStatus, exit_eq, BridgeExitRequest, BridgeReconciliationSnapshotRecord,
  IgraBridgeEvent, BridgeAdminDecision,
}

-- `[0-9a-f]`
abbrev is_hex_digit : ℕ → Bool
is_hex_digit c = is_digit c || (leb b'a' c && leb c b'f')

-- `/^0x[0-9a-f]{64}$/.test(text)`
unfoldable pub is_prefixed_hash : List ℕ → Bool
is_prefixed_hash (a ∷ b ∷ rest) =
    (a == b'0') && ((b == b'x') && ((length rest == 64) && every is_hex_digit rest))
is_prefixed_hash _ = false

-- `text.slice(2)`
abbrev drop_two : String → String
drop_two String.[] = ""
drop_two (String.◌∷◌ a String.[]) = ""
drop_two (String.◌∷◌ a (String.◌∷◌ b s)) = s

unfoldable pub normalize_pearl_txid : String → String
normalize_pearl_txid txid =
    let normalized = to_lower_case txid in
    if is_prefixed_hash (codes normalized) then drop_two normalized else normalized

abbrev spread : Option Metadata → Metadata
spread none = []
spread (some m) = m

-- `{ ...a, ...b }`
abbrev merge_metadata : Metadata → Metadata → Metadata
merge_metadata a [] = a
merge_metadata a ((k, v) ∷ b) = merge_metadata (set k v a) b

abbrev pub is_terminal : BridgeExitStatus → Bool
is_terminal status =
    (status === BridgeExitStatus.released)
    || ((status === BridgeExitStatus.refunded) || (status === BridgeExitStatus.cancelled))

unfoldable pub merge_exit : BridgeExitRequest → BridgeExitRequest → BridgeExitRequest
merge_exit existing next =
    let keep_terminal = is_terminal existing.status in
    let keep_processed =
      (existing.status === BridgeExitStatus.processed)
      && (next.status === BridgeExitStatus.pending) in
    record next {
      status = if keep_terminal || keep_processed then existing.status else next.status;
      pearl_release_txid = or_else existing.pearl_release_txid next.pearl_release_txid;
      pearl_release_block = or_else existing.pearl_release_block next.pearl_release_block;
      released_at = or_else existing.released_at next.released_at;
      metadata = some (merge_metadata (spread existing.metadata) (spread next.metadata));
      created_at = existing.created_at;
      updated_at = next.updated_at;
    }

-- Another exit for the same burn event of Igra.
abbrev pub same_burn : BridgeExitRequest → BridgeExitRequest → Bool
same_burn next candidate =
    not (candidate.exit_id === next.exit_id)
    && ((candidate.igra_burn_txid === next.igra_burn_txid)
        && (candidate.igra_burn_log_index === next.igra_burn_log_index))

-- A candidate that was released by the transaction.
abbrev pub is_released_by : String → Option String → Bool
is_released_by release none = false
is_released_by release (some txid) = normalize_pearl_txid txid === release

abbrev pub same_release : BridgeExitRequest → String → BridgeExitRequest → Bool
same_release next release candidate =
    not (candidate.exit_id === next.exit_id) && is_released_by release candidate.pearl_release_txid

release_conflict : List BridgeExitRequest → BridgeExitRequest → Option String → Option String
release_conflict existing next none = none
release_conflict existing next (some txid) =
    if truthy (some txid)
    then elim (find (same_release next (normalize_pearl_txid txid)) existing) [
      | none ↦ none
      | some other ↦
          some (concat ("Pearl release txid already belongs to exit " ∷ other.exit_id ∷ []))
    ]
    else none

-- `assertNoExitConflict`: the message of the error that it throws.
unfoldable pub exit_conflict : List BridgeExitRequest → BridgeExitRequest → Option String
unfolding release_conflict
exit_conflict existing next = elim (find (same_burn next) existing) [
  | none ↦ release_conflict existing next next.pearl_release_txid
  | some other ↦ some (concat ("Igra exit event already belongs to exit " ∷ other.exit_id ∷ []))
]

-- `targetId === undefined || decision.targetId === targetId`
abbrev is_for : Option String → BridgeAdminDecision → Bool
is_for none decision = true
is_for (some target) decision = decision.target_id === target

-- What `upsertExitRequest` throws or returns.
pub data UpsertResult : Type 0 where
  conflict : String → UpsertResult
  stored : BridgeExitRequest → Bool → UpsertResult

-- The state of the repository: its four maps.
pub record BridgeState (Snapshot : Type 0) : Type 0 where
  pub snapshots : Dict (BridgeReconciliationSnapshotRecord Snapshot)
  pub events : Dict IgraBridgeEvent
  pub exits : Dict BridgeExitRequest
  pub decisions : Dict BridgeAdminDecision

-- A record that is kept under its key if none is there, and whether it was.
unfoldable pub save_first {ℓ} : {V : Type ℓ} → String → V → Dict V → Dict V × (V × Bool)
save_first key value m = elim (get key m) [
  | some existing ↦ (m, (existing, false))
  | none ↦ (set key value m, (value, true))
]

module _ {Snapshot : Type 0} where
  abbrev pub save_reconciliation_snapshot :
      BridgeReconciliationSnapshotRecord Snapshot
      → BridgeState Snapshot
      → BridgeState Snapshot × (BridgeReconciliationSnapshotRecord Snapshot × Bool)
  save_reconciliation_snapshot r state =
      let saved = save_first r.snapshot_id r state.snapshots in
      (record state { snapshots = saved.0 }, saved.1)

  abbrev pub save_igra_event :
      IgraBridgeEvent → BridgeState Snapshot → BridgeState Snapshot × (IgraBridgeEvent × Bool)
  save_igra_event event state =
      let saved = save_first event.event_id event state.events in
      (record state { events = saved.0 }, saved.1)

  abbrev pub save_admin_decision :
      BridgeAdminDecision
      → BridgeState Snapshot
      → BridgeState Snapshot × (BridgeAdminDecision × Bool)
  save_admin_decision decision state =
      let saved = save_first decision.idempotency_key decision state.decisions in
      (record state { decisions = saved.0 }, saved.1)

  unfoldable pub upsert_exit_request :
      BridgeExitRequest → BridgeState Snapshot → BridgeState Snapshot × UpsertResult
  upsert_exit_request exit state = elim (exit_conflict (values state.exits) exit) [
    | some message ↦ (state, conflict message)
    | none ↦ elim (get exit.exit_id state.exits) [
      | some existing ↦
          let merged = merge_exit existing exit in
          (record state { exits = set exit.exit_id merged state.exits }, stored merged false)
      | none ↦ (record state { exits = set exit.exit_id exit state.exits }, stored exit true)
    ]
  ]

  abbrev pub find_exit_request : String → BridgeState Snapshot → Option BridgeExitRequest
  find_exit_request exit_id state = get exit_id state.exits

  abbrev pub list_exit_requests : BridgeState Snapshot → List BridgeExitRequest
  list_exit_requests state = sort (λ a b. text_lt b.updated_at a.updated_at) (values state.exits)

  abbrev pub list_reconciliation_snapshots :
      ℕ → BridgeState Snapshot → List (BridgeReconciliationSnapshotRecord Snapshot)
  list_reconciliation_snapshots limit state =
      take limit (sort (λ a b. text_lt b.observed_at a.observed_at) (values state.snapshots))

  abbrev pub latest_reconciliation_snapshot :
      BridgeState Snapshot → Option (BridgeReconciliationSnapshotRecord Snapshot)
  latest_reconciliation_snapshot state = head? (list_reconciliation_snapshots 1 state)

  -- By block, then by position in the block.
  abbrev pub list_igra_events : BridgeState Snapshot → List IgraBridgeEvent
  list_igra_events state =
      sort
        (λ a b.
          ltb a.block_number b.block_number
          || ((a.block_number == b.block_number) && ltb a.log_index b.log_index))
        (values state.events)

  abbrev pub list_admin_decisions : Option String → BridgeState Snapshot → List BridgeAdminDecision
  list_admin_decisions target_id state =
      sort (λ a b. text_lt b.created_at a.created_at)
        (filter (is_for target_id) (values state.decisions))
