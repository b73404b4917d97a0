-- ===== src/Prelude/Equality.antt =====
-- JavaScript's `===` on strings, numbers and string-literal unions.
use Prim.Native.Nat.{ℕ, zero, suc}
use Prim.Native.String.{String}
use mathlib.Core.Path.{◌≡◌, refl}
use mathlib.Core.Logic.{◌↔◌}
use mathlib.Core.Bool.{Bool, true}
use mathlib.Core.Option.{Option, none, some}
use mathlib.Core.List.{List, [], ◌∷◌}
use text.Mathlib.Text.{◌==◌ as str_eq}
use text.Mathlib.TextEquality.{eq_iff}
use native.Mathlib.Omega.{arith}
use pearl_infra.Prelude.Tests.{◌==◌ as nat_beq, ==_iff}

pub record Eq {ℓ} (A : Type ℓ) : Type ℓ where
  pub beq : A → A → Bool
  pub beq_iff : (a b : A) → (beq a b ≡ true) ↔ (a ≡ b)

infix 50 ◌===◌
abbrev pub ◌===◌ {ℓ} : {A : Type ℓ} ⦃e : Eq A⦄ → A → A → Bool
◌===◌ ⦃e⦄ = e.beq

instance abbrev pub nat_eq : Eq ℕ
nat_eq = record { beq = nat_beq; beq_iff = ==_iff }

instance abbrev pub string_eq : Eq String
string_eq = record { beq = str_eq; beq_iff = eq_iff }

module _ {ℓ} {A : Type ℓ} ⦃e : Eq A⦄ where
  pub ===_refl : (a : A) → (a === a) ≡ true
  ===_refl a = (e.beq_iff a a).1 refl

  pub ===_sound : (a b : A) → (a === b) ≡ true → a ≡ b
  ===_sound a b = (e.beq_iff a b).0

  pub ===_comm : (a b : A) → (a === b) ≡ (b === a)
  ===_comm a b = ground (arith, e.beq_iff a b, e.beq_iff b a)

-- A union of string literals is compared by the position of its members.
module _ {ℓ} {A : Type ℓ} where
  abbrev pub get_elem? : List A → ℕ → Option A
  get_elem? [] i = none
  get_elem? (x ∷ xs) zero = some x
  get_elem? (x ∷ xs) (suc i) = get_elem? xs i

  pub index_iff :
      (index : A → ℕ) (members : List A)
      → ((a : A) → get_elem? members (index a) ≡ some a)
      → (a b : A) → ((nat_beq (index a) (index b)) ≡ true) ↔ (a ≡ b)
  index_iff index members h a b = (same, λ e. rw e ((==_iff _ _).1 refl))
    where
      same : (nat_beq (index a) (index b)) ≡ true → a ≡ b
      same e = cc (h a, h b, (==_iff (index a) (index b)).0 e)

  abbrev pub enum_eq :
      (index : A → ℕ) (members : List A) → ((a : A) → get_elem? members (index a) ≡ some a) → Eq A
  enum_eq index members h = record {
    beq = λ a b. nat_beq (index a) (index b);
    beq_iff = index_iff index members h;
  }
