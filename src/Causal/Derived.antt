-- ===== src/Causal/Derived.antt =====
-- Edges that are inferred from others, and what the two queries of an invalidation find and write.
use mathlib.Core.Path.{subst}
use mathlib.Core.Bool.{or-true}
use engrammic.Base.{
  ℕ, zero, suc, ◌≡◌, refl, sym, inl, inr, Bool, true, false, not, ◌&&◌, ◌||◌, List, [], ◌∷◌, ◌++◌,
  arith, ◌==◌, ==→eq, ==_self, Bool-cases, or_default, is_empty, keep, any, contains,
}
use engrammic.Causal.{Cause, derived_of, find_derived, tombstone_edges, set_of}

-- An edge is inferred from the edge `a`, or is it, in so many steps.
pub data Chain (silo : ℕ) (rs : List Cause) (a : ℕ) : ℕ → ℕ → Type 0 where
  ends : Chain silo rs a zero a
  step :
      {k : ℕ} (b c : ℕ)
      → Chain silo rs a k b
      → contains c (derived_of silo b rs) ≡ true
      → Chain silo rs a (suc k) c

-- Whether an edge of the silo with the identifier has not been invalidated.
abbrev pub is_live : ℕ → ℕ → List Cause → Bool
is_live silo b rs =
    any (λ r. ((r.id == b) && (r.silo_id == silo)) && not (or_default r.invalidated false)) rs

pub contains-append :
    (x : ℕ) (xs ys : List ℕ) → contains x (xs ++ ys) ≡ (contains x xs || contains x ys)
contains-append x [] ys = refl
contains-append x (z ∷ xs) ys = ground (arith, contains-append x xs ys)

pub contains-keep :
    (x : ℕ) (p : ℕ → Bool) (xs : List ℕ) → contains x (keep p xs) ≡ (p x && contains x xs)
contains-keep x p [] = ground arith
contains-keep x p (y ∷ ys) = elim (Bool-cases (x == y)) [
  | inl same ↦
      subst (λ z. contains x (keep p (z ∷ ys)) ≡ (p x && contains x (z ∷ ys))) (==→eq x y same)
        (elim (Bool-cases (p x)) [
          | inl hit ↦ rw (hit, ==_self x) refl
          | inr miss ↦ rw miss (rw (contains-keep x p ys, miss) refl)
        ])
  | inr other ↦ ground (arith, contains-keep x p ys)
]

pub contains-set_of : (x : ℕ) (xs : List ℕ) → contains x (set_of xs) ≡ contains x xs
unfolding set_of
contains-set_of x [] = refl
contains-set_of x (y ∷ ys) = elim (Bool-cases (contains y (set_of ys))) [
  | inl there ↦ elim (Bool-cases (x == y)) [
    | inl same ↦
        rw (there, same) (subst (λ z. contains z (set_of ys) ≡ true) (sym (==→eq x y same)) there)
    | inr other ↦ rw (there, other) (contains-set_of x ys)
  ]
  | inr new ↦ rw new (ground (arith, contains-append x (set_of ys) (y ∷ []), contains-set_of x ys))
]

module _ (silo now reason : ℕ) where
  pub derived_of-tombstone_edges :
      (eids : List ℕ) (x : ℕ) (rs : List Cause)
      → derived_of silo x (tombstone_edges silo eids now reason rs) ≡ derived_of silo x rs
  unfolding derived_of tombstone_edges
  derived_of-tombstone_edges eids x [] = refl
  derived_of-tombstone_edges eids x (r ∷ rs) = ground (arith, derived_of-tombstone_edges eids x rs)

  pub is_live-tombstone_edges :
      (eids : List ℕ) (b : ℕ) (rs : List Cause)
      → is_live silo b (tombstone_edges silo eids now reason rs)
        ≡ (not (contains b eids) && is_live silo b rs)
  unfolding tombstone_edges
  is_live-tombstone_edges eids b [] = ground arith
  is_live-tombstone_edges eids b (r ∷ rs) = ground (arith, is_live-tombstone_edges eids b rs)

pub contains-find_derived :
    (silo a b : ℕ) (eids : List ℕ) (rs : List Cause)
    → contains a eids ≡ true
    → contains b (derived_of silo a rs) ≡ true
    → contains b (find_derived silo eids rs) ≡ true
unfolding find_derived
contains-find_derived silo a b [] rs h k = cc
contains-find_derived silo a b (e ∷ eids) rs h k =
    rw (contains-append b (derived_of silo e rs) (find_derived silo eids rs))
      (elim (Bool-cases (a == e)) [
        | inl same ↦
            rw (subst (λ z. contains b (derived_of silo z rs) ≡ true) (==→eq a e same) k) refl
        | inr other ↦ rw (contains-find_derived silo a b eids rs (ground arith) k) (or-true _)
      ])

pub derived_of_found :
    (silo b : ℕ) (eids : List ℕ) (rs : List Cause)
    → contains b (find_derived silo eids rs) ≡ true
    → (a : ℕ) × (contains a eids ≡ true) × (contains b (derived_of silo a rs) ≡ true)
unfolding find_derived
derived_of_found silo b [] rs h = cc
derived_of_found silo b (e ∷ eids) rs h = elim (Bool-cases (contains b (derived_of silo e rs))) [
  | inl here ↦ (e, rw (==_self e) refl, here)
  | inr absent ↦
      let (a, m, d) =
        derived_of_found silo b eids rs
          (ground (arith, contains-append b (derived_of silo e rs) (find_derived silo eids rs))) in
      (a, rw m (or-true _), d)
]

pub contains-empty : (x : ℕ) (xs : List ℕ) → is_empty xs ≡ true → contains x xs ≡ false
contains-empty x [] h = refl
contains-empty x (y ∷ ys) h = cc
