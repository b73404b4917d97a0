-- ===== src/Bridge/Exclusive.antt =====
-- The exits that the bridge keeps never share a burn event or a Pearl release.
use pearl_infra.Prelude.{
  String, ◌≡◌, ◌≢◌, ◌⊎◌, inl, inr, refl, sym, some, none, Option, List, [], ◌∷◌, Bool, true, false,
  ◌&&◌, ◌===◌, arith, ===_comm, eq_iff, Option-cases, Bool-cases, string_eq, nat_eq,
}
use mathlib.Core.Path.{subst}
use pearl_infra.Prelude.Lists.{find}
use pearl_infra.Prelude.Map.{Dict, get, set, values, get-set}
use pearl_infra.Prelude.Text.{truthy}
use pearl_infra.Bridge.Types.{BridgeExitRequest, exit_eq}
use pearl_infra.Bridge.Exits.{
  BridgeState, normalize_pearl_txid, same_burn, same_release, is_released_by, exit_conflict,
  merge_exit, upsert_exit_request,
}

abbrev pub same_event : BridgeExitRequest → BridgeExitRequest → Bool
same_event a b =
    (a.igra_burn_txid === b.igra_burn_txid) && (a.igra_burn_log_index === b.igra_burn_log_index)

-- Two release transactions that are there and are the same one.
abbrev pub shared_release : Option String → Option String → Bool
shared_release (some t) (some u) =
    truthy (some t) && (truthy (some u) && (normalize_pearl_txid t === normalize_pearl_txid u))
shared_release (some t) none = false
shared_release none u = false

abbrev pub Apart : BridgeExitRequest → BridgeExitRequest → Type 0
Apart a b =
    (same_event a b ≡ false) × (shared_release a.pearl_release_txid b.pearl_release_txid ≡ false)

-- Every exit is under its id, and no two share a burn event or a release.
pub record IsExclusive (m : Dict BridgeExitRequest) : Type 0 where
  pub own_key : (k : String) (a : BridgeExitRequest) → get k m ≡ some a → a.exit_id ≡ k
  pub apart :
      (k j : String) (a b : BridgeExitRequest)
      → get k m ≡ some a
      → get j m ≡ some b
      → k ≢ j
      → Apart a b

shared_release_comm : (t u : Option String) → shared_release t u ≡ shared_release u t
shared_release_comm none none = refl
shared_release_comm none (some u) = refl
shared_release_comm (some t) none = refl
shared_release_comm (some t) (some u) =
    ground (arith, ===_comm (normalize_pearl_txid t) (normalize_pearl_txid u))

Apart-sym : (a b : BridgeExitRequest) → Apart a b → Apart b a
Apart-sym a b h = ground (
  arith,
  ===_comm a.igra_burn_txid b.igra_burn_txid,
  ===_comm a.igra_burn_log_index b.igra_burn_log_index,
  shared_release_comm a.pearl_release_txid b.pearl_release_txid,
)

values_fail :
    (p : BridgeExitRequest → Bool) (m : Dict BridgeExitRequest) (k : String) (a : BridgeExitRequest)
    → find p (values m) ≡ none
    → get k m ≡ some a
    → p a ≡ false
unfolding get values
values_fail p [] k a h g = ground arith
values_fail p ((j, v) ∷ m) k a h g = ground (arith, values_fail p m k a)

set_cases :
    (k : String) (e : BridgeExitRequest) (m : Dict BridgeExitRequest) (j : String)
    (a : BridgeExitRequest)
    → get j (set k e m) ≡ some a
    → ((j ≡ k) × (e ≡ a)) ⊎ ((j ≢ k) × (get j m ≡ some a))
set_cases k e m j a g =
    let split = get-set k j e m in
    elim (Bool-cases (k === j)) [
      | inl same ↦ inl (ground (arith, eq_iff k j), ground (arith, split))
      | inr other ↦ inr (ground (arith, eq_iff k j), ground (arith, split))
    ]

-- An exit that is apart from those under other keys can be put under its own.
set-IsExclusive :
    (m : Dict BridgeExitRequest) (k : String) (e : BridgeExitRequest)
    → e.exit_id ≡ k
    → IsExclusive m
    → ((j : String) (b : BridgeExitRequest) → get j m ≡ some b → j ≢ k → Apart e b)
    → IsExclusive (set k e m)
set-IsExclusive m k e own h new = record {
  own_key = λ j a g. elim (set_cases k e m j a g) [
    | inl (at, same) ↦ subst (λ (x : BridgeExitRequest). x.exit_id ≡ j) same (cc (own, at))
    | inr (off, old) ↦ h.own_key j a old
  ];
  apart = λ i j a b f g d. elim (set_cases k e m i a f) [
    | inl (p, same) ↦ elim (set_cases k e m j b g) [
      | inl (q, _) ↦ absurd (d (cc (p, q)))
      | inr (q, old) ↦ subst (λ x. Apart x b) same (new j b old q)
    ]
    | inr (p, old) ↦ elim (set_cases k e m j b g) [
      | inl (q, same) ↦ subst (λ x. Apart a x) same (Apart-sym e a (new i a old p))
      | inr (q, old_b) ↦ h.apart i j a b old old_b d
    ]
  ];
}

no_burn :
    (m : List BridgeExitRequest) (e : BridgeExitRequest)
    → exit_conflict m e ≡ none
    → find (same_burn e) m ≡ none
unfolding exit_conflict
no_burn m e free = ground arith

no_release :
    (m : List BridgeExitRequest) (e : BridgeExitRequest) (t : String)
    → exit_conflict m e ≡ none
    → e.pearl_release_txid ≡ some t
    → truthy (some t) ≡ true
    → find (same_release e (normalize_pearl_txid t)) m ≡ none
unfolding exit_conflict
no_release m e t free is full = ground arith

-- What the tests of `assertNoExitConflict` leave.
burn_apart :
    (e b : BridgeExitRequest)
    → same_burn e b ≡ false
    → b.exit_id ≢ e.exit_id
    → same_event e b ≡ false
burn_apart e b h d = ground (
  arith,
  ===_comm e.igra_burn_txid b.igra_burn_txid,
  ===_comm e.igra_burn_log_index b.igra_burn_log_index,
  eq_iff b.exit_id e.exit_id,
)

not_shared :
    (r u : Option String)
    → ((t : String)
        → r ≡ some t
        → truthy (some t) ≡ true
        → is_released_by (normalize_pearl_txid t) u ≡ false)
    → shared_release r u ≡ false
not_shared none u h = refl
not_shared (some t) none h = refl
not_shared (some t) (some u) h =
    ground (arith, h t refl, ===_comm (normalize_pearl_txid t) (normalize_pearl_txid u))

release_apart :
    (e b : BridgeExitRequest)
    → ((t : String)
        → e.pearl_release_txid ≡ some t
        → truthy (some t) ≡ true
        → same_release e (normalize_pearl_txid t) b ≡ false)
    → b.exit_id ≢ e.exit_id
    → shared_release e.pearl_release_txid b.pearl_release_txid ≡ false
release_apart e b h d =
    not_shared e.pearl_release_txid b.pearl_release_txid
      (λ t is full. ground (arith, h t is full, eq_iff b.exit_id e.exit_id))

no_conflict :
    (m : Dict BridgeExitRequest) (e : BridgeExitRequest)
    → IsExclusive m
    → exit_conflict (values m) e ≡ none
    → (j : String) (b : BridgeExitRequest) → get j m ≡ some b
    → j ≢ e.exit_id
    → Apart e b
no_conflict m e h free j b g d =
    let other : b.exit_id ≢ e.exit_id = λ same. d (cc (same, h.own_key j b g)) in
    (
      burn_apart e b (values_fail (same_burn e) m j b (no_burn (values m) e free) g) other,
      release_apart e b
          (λ t is full.
            values_fail (same_release e (normalize_pearl_txid t)) m j b
              (no_release (values m) e t free is full) g)
          other,
    )

-- The merged exit keeps the burn event of the new one, and the release of either.
merged-Apart : (old e b : BridgeExitRequest) → Apart old b → Apart e b → Apart (merge_exit old e) b
unfolding merge_exit
merged-Apart old e b h k = ground arith

module _ {Snapshot : Type 0} (e : BridgeExitRequest) (state : BridgeState Snapshot) where
  pub upsert_conflict :
      (message : String)
      → exit_conflict (values state.exits) e ≡ some message
      → (upsert_exit_request e state).0.exits ≡ state.exits
  unfolding upsert_exit_request
  upsert_conflict message h = ground arith

  pub upsert_new :
      exit_conflict (values state.exits) e ≡ none
      → get e.exit_id state.exits ≡ none
      → (upsert_exit_request e state).0.exits ≡ set e.exit_id e state.exits
  unfolding upsert_exit_request
  upsert_new h k = ground arith

  pub upsert_known :
      (old : BridgeExitRequest)
      → exit_conflict (values state.exits) e ≡ none
      → get e.exit_id state.exits ≡ some old
      → (upsert_exit_request e state).0.exits ≡ set e.exit_id (merge_exit old e) state.exits
  unfolding upsert_exit_request
  upsert_known old h k = ground arith

merge_exit-exit_id : (old e : BridgeExitRequest) → (merge_exit old e).exit_id ≡ e.exit_id
unfolding merge_exit
merge_exit-exit_id old e = refl

-- Storing an exit, be it new, merged with a known one or refused, keeps the exits apart: if no
-- two exits of the repository had one burn event or one Pearl release, no two have after it,
-- and each is under its own id.
pub upsert-IsExclusive :
    {Snapshot : Type 0} (e : BridgeExitRequest) (state : BridgeState Snapshot)
    → IsExclusive state.exits
    → IsExclusive (upsert_exit_request e state).0.exits
upsert-IsExclusive e state h = elim (Option-cases (exit_conflict (values state.exits) e)) [
  | inr (message, found) ↦ rw (upsert_conflict e state message found) h
  | inl free ↦ elim (Option-cases (get e.exit_id state.exits)) [
    | inl new ↦
        rw (upsert_new e state free new)
          (set-IsExclusive state.exits e.exit_id e refl h (no_conflict state.exits e h free))
    | inr (old, known) ↦ rw (upsert_known e state old free known) (
        set-IsExclusive state.exits e.exit_id (merge_exit old e) (merge_exit-exit_id old e) h
          (λ j b g d.
            merged-Apart old e b (h.apart e.exit_id j old b known g (λ same. d (sym same)))
              (no_conflict state.exits e h free j b g d)))
  ]
]
