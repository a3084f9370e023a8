-- ===== src/Causal/Targets.antt =====
-- Which edges a tombstone run reaches.
use mathlib.Core.Path.{subst}
use mathlib.Core.Bool.{or-true}
use engrammic.Base.{
  ℕ, zero, ◌+◌, ◌≤◌, ◌≡◌, refl, sym, ◌∙◌, ◌≢◌, ◌⊎◌, inl, inr, ◌↔◌, true, false, not, ◌&&◌, Option,
  List, [], ◌∷◌, arith, ◌==◌, ==→eq, ==_self, Bool-cases, or_default, length, take, contains,
}
use engrammic.Causal.{
  Cause, derived_of, tombstone_edges, ops_tombstone, ops_tombstone_cascade,
  invalidate_derived_edges, Criteria, find_matching, Tombstoning, tombstone_target,
  tombstone_targets, run_tombstone,
}
use engrammic.Causal.Derived.{
  Chain, ends, step, is_live, derived_of-tombstone_edges, is_live-tombstone_edges,
}
use mathlib.Core.List.{Memᴰ}
use engrammic.Causal.Selecting.{IsSelected, selected_ids, contains-selected_ids}
use engrammic.Causal.Reached.{invalidate_derived_edges_iff, walk_same, walk_persists}

module _ (silo a : ℕ) (rs ss : List Cause)
    (same : (x : ℕ) → derived_of silo x rs ≡ derived_of silo x ss) where
  Chain-mono : {k b : ℕ} → Chain silo rs a k b → Chain silo ss a k b
  Chain-mono ends = ends
  Chain-mono (step b c ch d) =
      step b c (Chain-mono ch) (subst (λ l. contains c l ≡ true) (same b) d)

ne_of : (a b : ℕ) → (a == b) ≡ false → a ≢ b
ne_of a b h = λ e. ground arith

-- Inferred from one of the targets in at most `depth` steps, or a target itself.
abbrev pub IsHit : ℕ → ℕ → List ℕ → List Cause → ℕ → Type 0
IsHit silo depth targets rs b =
    (t : ℕ) × (k : ℕ) × (contains t targets ≡ true) × (k ≤ depth) × Chain silo rs t k b

module _ (silo depth now : ℕ) where
  -- A run over these targets, from the edges `rs` to the edges `ss`.
  record Ran (targets : List ℕ) (rs ss : List Cause) : Type 0 where
    same : (x : ℕ) → derived_of silo x ss ≡ derived_of silo x rs
    exact :
        (b : ℕ)
        → (is_live silo b ss ≡ false)
          ↔ ((is_live silo b rs ≡ false) ⊎ IsHit silo depth targets rs b)

  module _ (t : ℕ) (rs : List Cause) where
    abbrev marked : List Cause
    marked = tombstone_edges silo (t ∷ []) now ops_tombstone rs

    abbrev after : List Cause
    after = (invalidate_derived_edges t silo depth ops_tombstone_cascade now marked).0

    marked_same : (x : ℕ) → derived_of silo x marked ≡ derived_of silo x rs
    marked_same x = derived_of-tombstone_edges silo now ops_tombstone (t ∷ []) x rs

    marked_live : (b : ℕ) → is_live silo b marked ≡ (not (contains b (t ∷ [])) && is_live silo b rs)
    marked_live b = is_live-tombstone_edges silo now ops_tombstone (t ∷ []) b rs

    target_dead : is_live silo t after ≡ false
    target_dead =
        walk_persists t silo depth ops_tombstone_cascade now t marked
          (rw (marked_live t, ==_self t) refl)

    hits :
        (b : ℕ)
        → is_live silo b after ≡ false
        → (is_live silo b rs ≡ false) ⊎ IsHit silo depth (t ∷ []) rs b
    hits b e = elim (Bool-cases (b == t)) [
      | inl itself ↦ inr (
        t,
        zero,
        rw (==_self t) refl,
        omega arith,
        subst (Chain silo rs t zero) (sym (==→eq b t itself)) ends,
      )
      | inr other ↦
          elim ((invalidate_derived_edges_iff t silo depth ops_tombstone_cascade now b marked
              (ne_of b t other)).0
            e) [
              | inl before ↦ inl (ground (arith, marked_live b))
              | inr (k, l, ch) ↦
                  inr (t, k, rw (==_self t) refl, l, Chain-mono silo t marked rs marked_same ch)
            ]
    ]

    hit_dead :
        (b : ℕ)
        → (is_live silo b rs ≡ false) ⊎ IsHit silo depth (t ∷ []) rs b
        → is_live silo b after ≡ false
    hit_dead b (inl before) =
        walk_persists t silo depth ops_tombstone_cascade now b marked
          (ground (arith, marked_live b))
    hit_dead b (inr (u, k, m, l, ch)) = elim (Bool-cases (b == t)) [
      | inl itself ↦ subst (λ x. is_live silo x after ≡ false) (sym (==→eq b t itself)) target_dead
      | inr other ↦
          (invalidate_derived_edges_iff t silo depth ops_tombstone_cascade now b marked
              (ne_of b t other)).1
            (inr (
              k,
              l,
              Chain-mono silo t rs marked (λ x. sym (marked_same x))
                  (subst (λ x. Chain silo rs x k b) (==→eq u t (ground arith)) ch),
            ))
    ]

    target-Ran : Ran (t ∷ []) rs after
    target-Ran = record {
      same = λ x. walk_same t silo depth ops_tombstone_cascade now x marked ∙ marked_same x;
      exact = λ b. (hits b, hit_dead b);
    }

  module _ (t : ℕ) (ts : List ℕ) (rs ss us : List Cause) (first : Ran (t ∷ []) rs ss)
      (next : Ran ts ss us) where
    Ran-cons : Ran (t ∷ ts) rs us
    Ran-cons = record { same = λ x. next.same x ∙ first.same x; exact = λ b. (forth b, back b) }
      where
        forth :
            (b : ℕ)
            → is_live silo b us ≡ false
            → (is_live silo b rs ≡ false) ⊎ IsHit silo depth (t ∷ ts) rs b
        forth b e = elim ((next.exact b).0 e) [
          | inr (u, k, m, l, ch) ↦
              inr (u, k, rw m (or-true _), l, Chain-mono silo u ss rs first.same ch)
          | inl before ↦ elim ((first.exact b).0 before) [
            | inl earlier ↦ inl earlier
            | inr (u, k, m, l, ch) ↦ inr (u, k, ground arith, l, ch)
          ]
        ]

        back :
            (b : ℕ)
            → (is_live silo b rs ≡ false) ⊎ IsHit silo depth (t ∷ ts) rs b
            → is_live silo b us ≡ false
        back b (inl before) = (next.exact b).1 (inl ((first.exact b).1 (inl before)))
        back b (inr (u, k, m, l, ch)) = elim (Bool-cases (u == t)) [
          | inl head ↦ (next.exact b).1 (inl ((first.exact b).1 (inr (u, k, rw head refl, l, ch))))
          | inr later ↦
              (next.exact b).1
                (inr (u, k, ground arith, l, Chain-mono silo u rs ss (λ x. sym (first.same x)) ch))
        ]

  Ran-nil : (rs : List Cause) → Ran [] rs rs
  Ran-nil rs = record { same = λ x. refl; exact = λ b. (λ e. inl e, before b) }
    where
      before :
          (b : ℕ)
          → (is_live silo b rs ≡ false) ⊎ IsHit silo depth [] rs b
          → is_live silo b rs ≡ false
      before b (inl e) = e
      before b (inr (t, k, m, l, ch)) = cc

  tombstone_targets-Ran :
      (ts : List ℕ) (s : Tombstoning)
      → Ran ts s.edges (tombstone_targets silo depth now ts s).edges
        × ((tombstone_targets silo depth now ts s).direct ≡ s.direct + length ts)
  unfolding tombstone_targets tombstone_target
  tombstone_targets-Ran [] s = (Ran-nil s.edges, omega arith)
  tombstone_targets-Ran (t ∷ ts) s =
      let (ran, counted) = tombstone_targets-Ran ts (tombstone_target silo depth now t s) in
      (Ran-cons t ts s.edges (after t s.edges) _ (target-Ran t s.edges) ran, omega (arith, counted))

-- A tombstone run leaves an identifier without a live edge in the silo exactly where it was so
-- before, or where it is one of the targets or inferred from one in at most `max_depth` steps; and
-- it counts every target as tombstoned. The targets are the given edges, or the first ones, up to the
-- limit, of a list that holds exactly the identifiers of the edges of the silo that were never set
-- invalidated, or that were set not invalidated and pass every filter of the criteria.
pub run_tombstone_iff :
    (silo : ℕ) (edge_ids : Option (List ℕ)) (criteria : Criteria) (max_depth batch_limit now b : ℕ)
    (rs : List Cause)
    → (ids : List ℕ) × ((x : ℕ)
        → (contains x ids ≡ true)
          ↔ ((r : Cause) × Memᴰ r rs × (r.id ≡ x) × IsSelected criteria silo r))
      × (let targets = or_default edge_ids (take batch_limit ids) in
          let t = run_tombstone silo edge_ids criteria max_depth batch_limit now rs in
          ((is_live silo b t.edges ≡ false)
            ↔ ((is_live silo b rs ≡ false) ⊎ IsHit silo max_depth targets rs b))
          × (t.direct ≡ length targets))
unfolding run_tombstone find_matching
run_tombstone_iff silo edge_ids criteria max_depth batch_limit now b rs =
    let ids = selected_ids criteria silo rs in
    let targets = or_default edge_ids (take batch_limit ids) in
    let (ran, counted) =
      tombstone_targets-Ran silo max_depth now targets
        (record { edges = rs; direct = 0; derived = 0 }) in
    (ids, λ x. contains-selected_ids criteria silo x rs, (ran.exact b, omega (arith, counted)))
