-- ===== src/Causal/Walking.antt =====
-- What holds of an invalidation after each level.
use mathlib.Core.Path.{subst}
use engrammic.Base.{
  ℕ, zero, suc, ◌≤◌, ◌≡◌, refl, sym, ◌∙◌, ◌⊎◌, inl, inr, true, false, not, ◌&&◌, ◌||◌, List, ◌++◌,
  arith, Bool-cases, keep, contains,
}
use engrammic.Causal.{
  Cause, derived_of, find_derived, tombstone_edges, set_of, Walked, batch_of, walk_level,
}
use engrammic.Causal.Derived.{
  Chain, ends, step, is_live, contains-append, contains-keep, contains-set_of,
  derived_of-tombstone_edges, is_live-tombstone_edges, contains-find_derived, derived_of_found,
}

-- The state after `i` levels of a walk from `start` over the edges `base`.
pub record Walking (silo start : ℕ) (base : List Cause) (i : ℕ) (w : Walked) : Type 0 where
  pub same : (x : ℕ) → derived_of silo x w.edges ≡ derived_of silo x base
  pub closed :
      (x y : ℕ)
      → contains x w.visited ≡ true
      → contains y (derived_of silo x base) ≡ true
      → (contains y w.visited || contains y w.frontier) ≡ true
  pub within :
      (k x : ℕ)
      → k ≤ i
      → Chain silo base start k x
      → (contains x w.visited || contains x w.frontier) ≡ true
  pub dead :
      (x : ℕ)
      → (contains x w.visited || contains x w.frontier) ≡ true
      → (x ≡ start) ⊎ (is_live silo x w.edges ≡ false)
  pub reached : (x : ℕ) → contains x w.frontier ≡ true → Chain silo base start i x
  pub killed :
      (x : ℕ)
      → is_live silo x w.edges ≡ false
      → (is_live silo x base ≡ false) ⊎ ((k : ℕ) × (k ≤ i) × Chain silo base start k x)
  pub persists : (x : ℕ) → is_live silo x base ≡ false → is_live silo x w.edges ≡ false

module _ (silo now reason start : ℕ) (base : List Cause) (i : ℕ) (w : Walked) where
  abbrev visited : List ℕ
  visited = w.visited ++ batch_of w

  abbrev rows : List ℕ
  rows = find_derived silo (batch_of w) w.edges

  abbrev new : List ℕ
  new = keep (λ x. not (contains x visited)) rows

  contains-visited : (x : ℕ) → contains x visited ≡ (contains x w.visited || contains x w.frontier)
  contains-visited x = ground (
    arith,
    contains-append x w.visited (batch_of w),
    contains-keep x (λ eid. not (contains eid w.visited)) w.frontier,
  )

  contains-new : (x : ℕ) → contains x new ≡ (not (contains x visited) && contains x rows)
  contains-new x = contains-keep x (λ y. not (contains y visited)) rows

  module _ (h : Walking silo start base i w) where
    next_closed :
        (x y : ℕ)
        → contains x visited ≡ true
        → contains y (derived_of silo x base) ≡ true
        → (contains y visited || contains y (set_of new)) ≡ true
    next_closed x y m d = elim (Bool-cases (contains x w.visited)) [
      | inl old ↦ rw (contains-visited y) (rw (h.closed x y old d) refl)
      | inr fresh ↦
          rw (contains-set_of y new, contains-new y)
            (ground (
              arith,
              contains-find_derived silo x y (batch_of w) w.edges (in_batch fresh)
                  (rw (h.same x) d),
            ))
    ]
      where
        in_batch : contains x w.visited ≡ false → contains x (batch_of w) ≡ true
        in_batch fresh = ground (
          arith,
          contains-visited x,
          contains-keep x (λ eid. not (contains eid w.visited)) w.frontier,
        )

    next_within :
        (k x : ℕ)
        → k ≤ suc i
        → Chain silo base start k x
        → (contains x visited || contains x (set_of new)) ≡ true
    next_within k _ l ends =
        rw (contains-visited start) (rw (h.within zero start (omega arith) ends) refl)
    next_within k _ l (step {k = j} b c ch d) =
        next_closed b c (contains-visited b ∙ h.within j b (omega arith) ch) d

    next_dead :
        (x : ℕ)
        → (contains x visited || contains x (set_of new)) ≡ true
        → (x ≡ start) ⊎ (is_live silo x (tombstone_edges silo new now reason w.edges) ≡ false)
    next_dead x m = elim (Bool-cases (contains x visited)) [
      | inl old ↦ elim (h.dead x (sym (contains-visited x) ∙ old)) [
        | inl first ↦ inl first
        | inr gone ↦ inr (ground (arith, is_live-tombstone_edges silo now reason new x w.edges))
      ]
      | inr fresh ↦ inr (
          ground
            (arith, contains-set_of x new, is_live-tombstone_edges silo now reason new x w.edges))
    ]

    next_reached : (x : ℕ) → contains x (set_of new) ≡ true → Chain silo base start (suc i) x
    next_reached x m =
        let (a, in_batch, d) = derived_of_found silo x (batch_of w) w.edges in_rows in
        step a x
          (h.reached a
            (ground (arith, contains-keep a (λ eid. not (contains eid w.visited)) w.frontier)))
          (subst (λ l. contains x l ≡ true) (h.same a) d)
      where
        in_rows : contains x rows ≡ true
        in_rows = ground (arith, contains-set_of x new, contains-new x)

    next_killed :
        (x : ℕ)
        → is_live silo x (tombstone_edges silo new now reason w.edges) ≡ false
        → (is_live silo x base ≡ false) ⊎ ((k : ℕ) × (k ≤ suc i) × Chain silo base start k x)
    next_killed x m = elim (Bool-cases (contains x new)) [
      | inl fresh ↦ inr (suc i, omega arith, next_reached x (contains-set_of x new ∙ fresh))
      | inr old ↦
          elim (h.killed x
            (ground (arith, is_live-tombstone_edges silo now reason new x w.edges))) [
              | inl before ↦ inl before
              | inr (k, l, ch) ↦ inr (k, omega arith, ch)
            ]
    ]

    pub walk_level-Walking :
        Walking silo start base (suc i) (walk_level silo now reason (batch_of w) w)
    unfolding walk_level
    walk_level-Walking = record {
      same = λ x. derived_of-tombstone_edges silo now reason new x w.edges ∙ h.same x;
      closed = next_closed;
      within = next_within;
      dead = next_dead;
      reached = next_reached;
      killed = next_killed;
      persists = λ x e.
          ground (arith, h.persists x e, is_live-tombstone_edges silo now reason new x w.edges);
    }
