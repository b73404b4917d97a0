-- ===== src/Bridge/Keeps.antt =====
-- What later upserts leave as it was: an exit's terminal status and its release.
use pearl_infra.Prelude.{
  String, ◌≡◌, inl, inr, some, List, [], ◌∷◌, true, arith, eq_iff, ◌===◌, string_eq, Option-cases,
  Bool-cases,
}
use mathlib.Core.Path.{subst}
use pearl_infra.Prelude.Map.{get, values, get-set}
use pearl_infra.Bridge.Types.{BridgeExitRequest, BridgeExitStatus, exit_eq}
use pearl_infra.Bridge.Exits.{
  BridgeState, exit_conflict, merge_exit, upsert_exit_request, is_terminal,
}
use pearl_infra.Bridge.Exclusive.{upsert_conflict, upsert_new, upsert_known}

-- The relayer's upserts, one after the other; those that throw leave the state as it was.
abbrev pub upsert_all :
    {Snapshot : Type 0} → List BridgeExitRequest → BridgeState Snapshot → BridgeState Snapshot
upsert_all [] state = state
upsert_all (e ∷ es) state = upsert_all es (upsert_exit_request e state).0

-- What is settled of an exit and is never taken back.
pub record Settled (e : BridgeExitRequest) (final : BridgeExitStatus) (txid created_at : String)
    : Type 0 where
  pub status : e.status ≡ final
  pub release : e.pearl_release_txid ≡ some txid
  pub created : e.created_at ≡ created_at

merge-Settled :
    (old e : BridgeExitRequest) (final : BridgeExitStatus) (txid created_at : String)
    → is_terminal final ≡ true
    → Settled old final txid created_at
    → Settled (merge_exit old e) final txid created_at
unfolding merge_exit
merge-Settled old e final txid created_at closed h = record {
  status = ground arith;
  release = ground arith;
  created = ground arith;
}

module _ {Snapshot : Type 0} (k : String) (final : BridgeExitStatus)
    (txid created_at : String) where
  -- The exit under the id `k` is settled.
  abbrev pub Holds : BridgeState Snapshot → Type 0
  Holds state =
      (a : BridgeExitRequest) × (get k state.exits ≡ some a) × Settled a final txid created_at

  upsert-Holds :
      (e : BridgeExitRequest) (state : BridgeState Snapshot)
      → is_terminal final ≡ true
      → Holds state
      → Holds (upsert_exit_request e state).0
  upsert-Holds e state closed (a, found, h) =
      elim (Option-cases (exit_conflict (values state.exits) e)) [
        | inr (message, clash) ↦ (a, rw (upsert_conflict e state message clash) found, h)
        | inl free ↦ elim (Option-cases (get e.exit_id state.exits)) [
          | inl new ↦ (
            a,
            rw (upsert_new e state free new)
                (ground (arith, get-set e.exit_id k e state.exits, eq_iff e.exit_id k)),
            h,
          )
          | inr (old, known) ↦ elim (Bool-cases (e.exit_id === k)) [
            | inl same ↦
                let at : e.exit_id ≡ k = (eq_iff e.exit_id k).0 same in
                let is_old : a ≡ old = ground (arith, at, found, known) in
                (
                  merge_exit old e,
                  rw (upsert_known e state old free known)
                      (ground (arith, get-set e.exit_id k (merge_exit old e) state.exits)),
                  merge-Settled old e final txid created_at closed
                      (subst (λ x. Settled x final txid created_at) is_old h),
                )
            | inr other ↦ (
              a,
              rw (upsert_known e state old free known)
                  (ground (arith, get-set e.exit_id k (merge_exit old e) state.exits)),
              h,
            )
          ]
        ]
      ]

  -- An exit that is released, refunded or cancelled, and has its Pearl release, keeps that status,
  -- that release and its creation time, whatever the relayer stores after it, errors included.
  pub upsert_all-Holds :
      (es : List BridgeExitRequest) (state : BridgeState Snapshot)
      → is_terminal final ≡ true
      → Holds state
      → Holds (upsert_all es state)
  upsert_all-Holds [] state closed h = h
  upsert_all-Holds (e ∷ es) state closed h =
      upsert_all-Holds es (upsert_exit_request e state).0 closed (upsert-Holds e state closed h)
