-- ===== src/Prelude/Sorted.antt =====
-- `a.sort(compare)` sorts, and keeps the elements.
use mathlib.Core.Path.{◌≡◌}
use mathlib.Core.Logic.{◌⊎◌, inl, inr}
use mathlib.Core.Bool.{Bool, true, false}
use mathlib.Core.List.{List, [], ◌∷◌}
use pearl_infra.Prelude.Tests.{Bool-cases}
use pearl_infra.Prelude.Lists.{All, sort, insert_sorted}

module _ {A : Type 0} where
  -- Some element of a list, by recursion.
  abbrev pub Exists : (A → Type 0) → List A → Type 0
  Exists P [] = ⊥
  Exists P (x ∷ xs) = P x ⊎ Exists P xs

  -- The element that is there also satisfies what all of them do.
  pub Exists-map :
      {P Q R : A → Type 0} (xs : List A)
      → ((x : A) → Q x → P x → R x)
      → All Q xs
      → Exists P xs
      → Exists R xs
  Exists-map [] f q h = elim h [ ]
  Exists-map (x ∷ xs) f q (inl p) = inl (f x q.0 p)
  Exists-map (x ∷ xs) f q (inr p) = inr (Exists-map xs f q.1 p)

  pub All-map : {P Q : A → Type 0} (xs : List A) → ((x : A) → P x → Q x) → All P xs → All Q xs
  All-map [] f p = tt
  All-map (x ∷ xs) f p = (f x p.0, All-map xs f p.1)

  pub All-true : {P : A → Type 0} (xs : List A) → ((x : A) → P x) → All P xs
  All-true [] f = tt
  All-true (x ∷ xs) f = (f x, All-true xs f)

  module _ (before : A → A → Bool) where
    All-insert :
        (P : A → Type 0) (x : A) (l : List A) → P x → All P l → All P (insert_sorted before x l)
    All-insert P x [] p h = (p, tt)
    All-insert P x (y ∷ l) p h = elim (Bool-cases (before y x)) [
      | inl e ↦ rw e (h.0, All-insert P x l p h.1)
      | inr e ↦ rw e (p, h)
    ]

    All-uninsert :
        (P : A → Type 0) (x : A) (l : List A) → All P (insert_sorted before x l) → P x × All P l
    All-uninsert P x [] h = h
    All-uninsert P x (y ∷ l) h = elim (Bool-cases (before y x)) [
      | inl e ↦
          let both : P y × All P (insert_sorted before x l) = rw e at h in
          let rest = All-uninsert P x l both.1 in (rest.0, (both.0, rest.1))
      | inr e ↦ rw e at h
    ]

    pub All-unsort : (P : A → Type 0) (l : List A) → All P (sort before l) → All P l
    All-unsort P [] h = tt
    All-unsort P (x ∷ l) h =
        let both = All-uninsert P x (sort before l) h in (both.0, All-unsort P l both.1)

    Exists-uninsert :
        (P : A → Type 0) (x : A) (l : List A)
        → Exists P (insert_sorted before x l)
        → P x ⊎ Exists P l
    Exists-uninsert P x [] h = h
    Exists-uninsert P x (y ∷ l) h = elim (Bool-cases (before y x)) [
      | inl e ↦
          let either : P y ⊎ Exists P (insert_sorted before x l) = rw e at h in
          elim either [
            | inl p ↦ inr (inl p)
            | inr later ↦ elim (Exists-uninsert P x l later) [ inl p ↦ inl p | inr q ↦ inr (inr q) ]
          ]
      | inr e ↦ rw e at h
    ]

    pub Exists-unsort : (P : A → Type 0) (l : List A) → Exists P (sort before l) → Exists P l
    Exists-unsort P [] h = elim h [ ]
    Exists-unsort P (x ∷ l) h = elim (Exists-uninsert P x (sort before l) h) [
      | inl p ↦ inl p
      | inr q ↦ inr (Exists-unsort P l q)
    ]

    -- No element comes before one that stands ahead of it.
    abbrev pub IsSorted : List A → Type 0
    IsSorted [] = Unit
    IsSorted (x ∷ l) = All (λ y. before y x ≡ false) l × IsSorted l

    module _ (asym : (a b : A) → before a b ≡ true → before b a ≡ false)
        (trans : (a b c : A) → before b a ≡ false → before c b ≡ false → before c a ≡ false) where
      insert-IsSorted : (x : A) (l : List A) → IsSorted l → IsSorted (insert_sorted before x l)
      insert-IsSorted x [] s = (tt, tt)
      insert-IsSorted x (y ∷ l) s = elim (Bool-cases (before y x)) [
        | inl e ↦
            rw e
              (All-insert (λ z. before z y ≡ false) x l (asym y x e) s.0, insert-IsSorted x l s.1)
        | inr e ↦ rw e ((e, All-map l (λ z. trans x y z e) s.0), s)
      ]

      pub sort-IsSorted : (l : List A) → IsSorted (sort before l)
      sort-IsSorted [] = tt
      sort-IsSorted (x ∷ l) = insert-IsSorted x (sort before l) (sort-IsSorted l)
