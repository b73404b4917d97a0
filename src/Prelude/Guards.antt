-- ===== src/Prelude/Guards.antt =====
-- A series of early returns, `if (test) return message;`, ended by `return undefined`.
use mathlib.Core.Path.{◌≡◌, refl}
use mathlib.Core.Bool.{Bool, false}
use mathlib.Core.Option.{Option, none, some}
use mathlib.Core.List.{List, [], ◌∷◌}
use native.Mathlib.Omega.{arith}
use pearl_infra.Prelude.Tests.{if◌then◌else◌}
use pearl_infra.Prelude.Lists.{All}

module _ {ℓ} {A : Type ℓ} where
  abbrev pub first_failure : List (Bool × A) → Option A
  first_failure [] = none
  first_failure ((test, message) ∷ guards) = if test then some message else first_failure guards

  -- Where nothing is returned, no test held.
  pub All-pass :
      (guards : List (Bool × A)) → first_failure guards ≡ none → All (λ g. g.0 ≡ false) guards
  All-pass [] h = tt
  All-pass ((test, message) ∷ guards) h = (ground arith, All-pass guards (ground arith))

  -- The other way round.
  pub pass-All :
      (guards : List (Bool × A)) → All (λ g. g.0 ≡ false) guards → first_failure guards ≡ none
  pass-All [] h = refl
  pass-All ((test, message) ∷ guards) h = ground (arith, pass-All guards h.1)
