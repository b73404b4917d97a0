-- ===== src/Prelude/Map.antt =====
-- JavaScript's `Map<string, V>`, in insertion order: `set` on a key that is there keeps its place.
use mathlib.Core.Path.{◌≡◌, refl}
use mathlib.Core.Logic.{inl, inr}
use mathlib.Core.Bool.{Bool, true, false}
use mathlib.Core.Option.{Option, none, some}
use mathlib.Core.List.{List, [], ◌∷◌, ◌++◌}
use native.Mathlib.Omega.{arith}
use text.Mathlib.TextEquality.{eq_iff}
use Prim.Native.String.{String}
use Prim.Native.Nat.{suc}
use pearl_infra.Prelude.Lists.{length, All, any}
use pearl_infra.Prelude.Tests.{if◌then◌else◌, is_some, Bool-cases}
use pearl_infra.Prelude.Equality.{◌===◌, string_eq}

abbrev pub Dict {ℓ} : Type ℓ → Type ℓ
Dict V = List (String × V)

module _ {ℓ} {V : Type ℓ} where
  -- `m.get(k)`
  unfoldable pub get : String → Dict V → Option V
  get k [] = none
  get k ((j, v) ∷ m) = if j === k then some v else get k m

  -- `m.has(k)`
  abbrev pub has : String → Dict V → Bool
  has k m = is_some (get k m)

  -- `m.set(k, v)`
  unfoldable pub set : String → V → Dict V → Dict V
  set k v [] = (k, v) ∷ []
  set k v ((j, w) ∷ m) = if j === k then (k, v) ∷ m else (j, w) ∷ set k v m

  -- `[...m.values()]`
  unfoldable pub values : Dict V → List V
  values [] = []
  values ((j, v) ∷ m) = v ∷ values m

  pub get-set :
      (k j : String) (v : V) (m : Dict V)
      → get j (set k v m) ≡ (if k === j then some v else get j m)
  unfolding get set
  get-set k j v [] = refl
  get-set k j v ((i, w) ∷ m) = ground (arith, eq_iff k j, eq_iff i k, eq_iff i j, get-set k j v m)

  pub get-set_self : (k : String) (v : V) (m : Dict V) → get k (set k v m) ≡ some v
  get-set_self k v m = ground (arith, get-set k k v m, eq_iff k k)

  -- A new key goes to the end.
  pub values-set_new :
      (k : String) (v : V) (m : Dict V) → get k m ≡ none → values (set k v m) ≡ values m ++ v ∷ []
  unfolding get set values
  values-set_new k v [] h = refl
  values-set_new k v ((i, w) ∷ m) h = ground (arith, values-set_new k v m)

  pub length-set_new :
      (k : String) (v : V) (m : Dict V) → has k m ≡ false → length (set k v m) ≡ suc (length m)
  unfolding get set
  length-set_new k v [] h = refl
  length-set_new k v ((i, w) ∷ m) h = ground (arith, length-set_new k v m)

  -- No key stands twice: what the entries of a `Map` are like.
  abbrev pub UniqueKeys : Dict V → Type ℓ
  UniqueKeys [] = Unit
  UniqueKeys ((k, v) ∷ m) = (get k m ≡ none) × UniqueKeys m

  pub set-UniqueKeys : (k : String) (v : V) (m : Dict V) → UniqueKeys m → UniqueKeys (set k v m)
  unfolding get set
  set-UniqueKeys k v [] u = (refl, tt)
  set-UniqueKeys k v ((j, w) ∷ m) u = elim (Bool-cases (j === k)) [
    | inl e ↦ rw e (rw (← (eq_iff j k).0 e) u.0, u.1)
    | inr e ↦
        rw e
          (ground (arith, get-set k j v m, u.0, eq_iff j k, eq_iff k j), set-UniqueKeys k v m u.1)
  ]

  -- What holds of whatever `get` returns holds of all the values.
  pub All-values {κ} :
      (P : V → Type κ) (m : Dict V)
      → UniqueKeys m
      → ((k : String) (v : V) → get k m ≡ some v → P v)
      → All P (values m)
  unfolding get values
  All-values P [] u h = tt
  All-values P ((j, w) ∷ m) u h = (h j w (ground (arith, eq_iff j j)), All-values P m u.1 tail)
    where
      tail : (k : String) (v : V) → get k m ≡ some v → P v
      tail k v e = h k v (ground (arith, eq_iff j k, u.0))

  -- What `get` returns is a value.
  pub any-values :
      (p : V → Bool) (k : String) (v : V) (m : Dict V)
      → get k m ≡ some v
      → p v ≡ true
      → any p (values m) ≡ true
  unfolding get values
  any-values p k v [] e h = ground arith
  any-values p k v ((j, w) ∷ m) e h = ground (arith, any-values p k v m)

pub ruleset map_laws = (get-set, get-set_self)
