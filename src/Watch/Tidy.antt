-- ===== src/Watch/Tidy.antt =====
-- One payment is counted for a watch: the invariant of a watch's list of observations, and the
-- changes of the list that keep it.
use pearl_infra.Prelude.{
  ℕ, ◌≤◌, String, ◌≡◌, inl, inr, refl, ap, some, none, List, [], ◌∷◌, ◌++◌, Bool, true, false, not,
  ◌&&◌, ◌===◌, string_eq, if◌then◌else◌, map, arith, eq_iff, Option-cases, Bool-cases, ===_comm,
  ◌∙◌,
}
use mathlib.Core.Path.{subst}
use pearl_infra.Prelude.Lists.{All, All-append, find, length, filter}
use pearl_infra.Watch.Types.{AddressObservation}
use pearl_infra.Watch.Repository.{
  is_live, at_outpoint, record_in, mark_spent, advance_list, detach_list,
}

-- A live observation with a verdict of its own.
abbrev pub is_counted : AddressObservation → Bool
is_counted o = is_live o && not (o.classification === "duplicate")

abbrev pub outpoints : List AddressObservation → List String
outpoints list = map (λ o. o.outpoint) list

abbrev pub Apart : String → List String → Type 0
Apart p others = All (λ other. (other === p) ≡ false) others

abbrev pub Distinct : List String → Type 0
Distinct [] = Unit
Distinct (p ∷ others) = Apart p others × Distinct others

-- Only an observation of the outpoint `p` counts.
abbrev pub CountedAt : String → List AddressObservation → Type 0
CountedAt p list = All (λ o. is_counted o ≡ true → o.outpoint ≡ p) list

pub record IsTidy (list : List AddressObservation) : Type 0 where
  pub distinct : Distinct (outpoints list)
  pub place : String
  pub counted : CountedAt place list

abbrev pub counted_of : List AddressObservation → List AddressObservation
counted_of list = filter is_counted list

none_counted :
    (o : AddressObservation) (p : String) (list : List AddressObservation)
    → o.outpoint ≡ p
    → Apart o.outpoint (outpoints list)
    → CountedAt p list
    → length (counted_of list) ≡ 0
none_counted o p [] e a c = refl
none_counted o p (x ∷ list) e a c =
    ground (arith, none_counted o p list e a.1 c.1, a.0, c.0, eq_iff x.outpoint o.outpoint)

-- What the invariant is for.
pub length-counted : (list : List AddressObservation) → IsTidy list → length (counted_of list) ≤ 1
length-counted list t = go list t.place t.distinct t.counted
  where
    go :
        (list : List AddressObservation) (p : String)
        → Distinct (outpoints list)
        → CountedAt p list
        → length (counted_of list) ≤ 1
    go [] p d c = ground arith
    go (o ∷ list) p d c = elim (Bool-cases (is_counted o)) [
      | inl e ↦ ground (arith, none_counted o p list (c.0 e) d.0 c.1)
      | inr e ↦ ground (arith, go list p d.1 c.1)
    ]

Apart-append :
    (p q : String) (ps : List String) → Apart p ps → (q === p) ≡ false → Apart p (ps ++ q ∷ [])
Apart-append p q [] a h = (h, tt)
Apart-append p q (x ∷ ps) a h = (a.0, Apart-append p q ps a.1 h)

Distinct-append :
    (q : String) (ps : List String) → Distinct ps → Apart q ps → Distinct (ps ++ q ∷ [])
Distinct-append q [] d a = (tt, tt)
Distinct-append q (p ∷ ps) d a =
    (Apart-append p q ps d.0 (===_comm q p ∙ a.0), Distinct-append q ps d.1 a.1)

not_found-Apart :
    (p : String) (list : List AddressObservation)
    → find (at_outpoint p) list ≡ none
    → Apart p (outpoints list)
not_found-Apart p [] h = tt
not_found-Apart p (o ∷ list) h = (ground arith, not_found-Apart p list (ground arith))

outpoints-append :
    (obs : AddressObservation) (list : List AddressObservation)
    → outpoints (list ++ obs ∷ []) ≡ outpoints list ++ obs.outpoint ∷ []
outpoints-append obs [] = refl
outpoints-append obs (o ∷ list) = ap (λ l. o.outpoint ∷ l) (outpoints-append obs list)

replaced : AddressObservation → List AddressObservation → List AddressObservation
replaced obs list = map (λ o. if at_outpoint obs.outpoint o then obs else o) list

outpoints-replaced :
    (obs : AddressObservation) (list : List AddressObservation)
    → outpoints (replaced obs list) ≡ outpoints list
unfolding replaced
outpoints-replaced obs [] = refl
outpoints-replaced obs (o ∷ list) = elim (Bool-cases (at_outpoint obs.outpoint o)) [
  | inl e ↦ ground (arith, eq_iff o.outpoint obs.outpoint, outpoints-replaced obs list)
  | inr e ↦ ground (arith, outpoints-replaced obs list)
]

CountedAt-replaced :
    (q : String) (obs : AddressObservation) (list : List AddressObservation)
    → (is_counted obs ≡ true → obs.outpoint ≡ q)
    → CountedAt q list
    → CountedAt q (replaced obs list)
unfolding replaced
CountedAt-replaced q obs [] h c = tt
CountedAt-replaced q obs (o ∷ list) h c = elim (Bool-cases (at_outpoint obs.outpoint o)) [
  | inl e ↦ rw e (h, CountedAt-replaced q obs list h c.1)
  | inr e ↦ rw e (c.0, CountedAt-replaced q obs list h c.1)
]

-- Recording keeps the invariant, where only one place is counted after it.
pub record-IsTidy :
    (q : String) (obs : AddressObservation) (list : List AddressObservation)
    → Distinct (outpoints list)
    → CountedAt q list
    → (is_counted obs ≡ true → obs.outpoint ≡ q)
    → IsTidy (record_in obs list)
unfolding record_in
record-IsTidy q obs list d c h = elim (Option-cases (find (at_outpoint obs.outpoint) list)) [
  | inl e ↦
      rw (record_in, e)
        (record {
          distinct = rw (outpoints-append obs list) (
              Distinct-append obs.outpoint (outpoints list) d
                (not_found-Apart obs.outpoint list e));
          place = q;
          counted =
              All-append (λ o. is_counted o ≡ true → o.outpoint ≡ q) list (obs ∷ []) c (h, tt);
        })
  | inr (existing, e) ↦ elim (Bool-cases (is_live existing)) [
    | inl live ↦ rw (record_in, e, live) (record { distinct = d; place = q; counted = c })
    | inr dead ↦
        rw (record_in, e, dead)
          (let t : IsTidy (replaced obs list) = record {
            distinct = rw (outpoints-replaced obs list) d;
            place = q;
            counted = CountedAt-replaced q obs list h c;
          } in
            unfold replaced in t)
  ]
]

-- Where the outpoints are distinct, a live observation at `x` is the only one there.
abbrev pub LiveAt : String → List AddressObservation → Type 0
LiveAt x list = All (λ o. at_outpoint x o ≡ true → is_live o ≡ true) list

Apart-LiveAt :
    (x : String) (list : List AddressObservation) → Apart x (outpoints list) → LiveAt x list
Apart-LiveAt x [] a = tt
Apart-LiveAt x (o ∷ list) a = (λ e. ground arith, Apart-LiveAt x list a.1)

Apart-not_found :
    (x : String) (list : List AddressObservation)
    → Apart x (outpoints list)
    → find (λ o. at_outpoint x o && is_live o) list ≡ none
Apart-not_found x [] a = refl
Apart-not_found x (o ∷ list) a = ground (arith, Apart-not_found x list a.1)

pub found-LiveAt :
    (x : String) (found : AddressObservation) (list : List AddressObservation)
    → Distinct (outpoints list)
    → find (λ o. at_outpoint x o && is_live o) list ≡ some found
    → LiveAt x list
found-LiveAt x found [] d e = tt
found-LiveAt x found (o ∷ list) d e = elim (Bool-cases (at_outpoint x o)) [
  | inl here ↦
      let at_x : o.outpoint ≡ x = (eq_iff o.outpoint x).0 here in
      let apart : Apart x (outpoints list) = subst (λ p. Apart p (outpoints list)) at_x d.0 in
      (λ e'. ground (arith, Apart-not_found x list apart), Apart-LiveAt x list apart)
  | inr away ↦ (λ e'. ground arith, found-LiveAt x found list d.1 (ground arith))
]

outpoints-mark_spent :
    (x : String) (list : List AddressObservation) → outpoints (mark_spent x list) ≡ outpoints list
unfolding mark_spent
outpoints-mark_spent x [] = refl
outpoints-mark_spent x (o ∷ list) = ground (arith, outpoints-mark_spent x list)

CountedAt-mark_spent :
    (q x : String) (list : List AddressObservation)
    → LiveAt x list
    → CountedAt q list
    → CountedAt q (mark_spent x list)
unfolding mark_spent
CountedAt-mark_spent q x [] l c = tt
CountedAt-mark_spent q x (o ∷ list) l c =
    (λ e. ground (arith, l.0, c.0), CountedAt-mark_spent q x list l.1 c.1)

pub mark_spent-IsTidy :
    (x : String) (list : List AddressObservation)
    → LiveAt x list
    → IsTidy list
    → IsTidy (mark_spent x list)
mark_spent-IsTidy x list l t = record {
  distinct = rw (outpoints-mark_spent x list) t.distinct;
  place = t.place;
  counted = CountedAt-mark_spent t.place x list l t.counted;
}

outpoints-advance :
    (tip required : ℕ) (list : List AddressObservation)
    → outpoints (advance_list tip required list).0 ≡ outpoints list
unfolding advance_list
outpoints-advance tip required [] = refl
outpoints-advance tip required (o ∷ list) = ground (arith, outpoints-advance tip required list)

CountedAt-advance :
    (q : String) (tip required : ℕ) (list : List AddressObservation)
    → CountedAt q list
    → CountedAt q (advance_list tip required list).0
unfolding advance_list
CountedAt-advance q tip required [] c = tt
CountedAt-advance q tip required (o ∷ list) c =
    ground (arith, CountedAt-advance q tip required list c.1, c.0)

pub advance-IsTidy :
    (tip required : ℕ) (list : List AddressObservation)
    → IsTidy list
    → IsTidy (advance_list tip required list).0
advance-IsTidy tip required list t = record {
  distinct = rw (outpoints-advance tip required list) t.distinct;
  place = t.place;
  counted = CountedAt-advance t.place tip required list t.counted;
}

outpoints-detach :
    (hash : String) (list : List AddressObservation)
    → outpoints (detach_list hash list).0 ≡ outpoints list
unfolding detach_list
outpoints-detach hash [] = refl
outpoints-detach hash (o ∷ list) = ground (arith, outpoints-detach hash list)

CountedAt-detach :
    (q hash : String) (list : List AddressObservation)
    → CountedAt q list
    → CountedAt q (detach_list hash list).0
unfolding detach_list
CountedAt-detach q hash [] c = tt
CountedAt-detach q hash (o ∷ list) c = ground (arith, CountedAt-detach q hash list c.1, c.0)

pub detach-IsTidy :
    (hash : String) (list : List AddressObservation)
    → IsTidy list
    → IsTidy (detach_list hash list).0
detach-IsTidy hash list t = record {
  distinct = rw (outpoints-detach hash list) t.distinct;
  place = t.place;
  counted = CountedAt-detach t.place hash list t.counted;
}
