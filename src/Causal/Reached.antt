-- ===== src/Causal/Reached.antt =====
-- Which edges an invalidation reaches.
use mathlib.Core.Path.{subst}
use engrammic.Base.{
  ℕ, zero, suc, ◌+◌, ◌≤◌, ◌≡◌, refl, sym, ◌≢◌, ◌⊎◌, inl, inr, ◌↔◌, true, false, not, ◌||◌, List,
  arith, ◌==◌, ==→eq, ==_self, Bool-cases, is_empty, contains,
}
use engrammic.Causal.{
  Cause, derived_of, Walked, batch_of, walk_level, walk, start_at, invalidate_derived_edges,
}
use engrammic.Causal.Derived.{Chain, ends, step, is_live, contains-keep, contains-empty}
use engrammic.Causal.Walking.{Walking, walk_level-Walking}

-- Where a walk stops: at the greatest depth, or where all of the frontier has been visited.
record Finished (silo start : ℕ) (base : List Cause) (depth : ℕ) (w : Walked) : Type 0 where
  level : ℕ
  bounded : level ≤ depth
  walking : Walking silo start base level w
  complete :
      (k x : ℕ)
      → k ≤ depth
      → Chain silo base start k x
      → (contains x w.visited || contains x w.frontier) ≡ true

module _ (silo now reason start : ℕ) (base : List Cause) where
  stuck_complete :
      (i : ℕ) (w : Walked) (k x : ℕ)
      → Walking silo start base i w
      → is_empty (batch_of w) ≡ true
      → Chain silo base start k x
      → (contains x w.visited || contains x w.frontier) ≡ true
  stuck_complete i w k _ h e ends = h.within zero start (omega arith) ends
  stuck_complete i w k _ h e (step {k = j} b c ch d) =
      h.closed b c
        (ground (
          arith,
          stuck_complete i w j b h e ch,
          contains-keep b (λ eid. not (contains eid w.visited)) w.frontier,
          contains-empty b (batch_of w) e,
        ))
        d

  walk-Finished :
      (depth i : ℕ) (w : Walked)
      → Walking silo start base i w
      → Finished silo start base (depth + i) (walk silo now reason depth w)
  unfolding walk
  walk-Finished zero i w h = record {
    level = i;
    bounded = omega arith;
    walking = h;
    complete = λ k x l ch. h.within k x (omega arith) ch;
  }
  walk-Finished (suc depth) i w h = elim (Bool-cases (is_empty (batch_of w))) [
    | inl stuck ↦ rw stuck (record {
      level = i;
      bounded = omega arith;
      walking = h;
      complete = λ k x l ch. stuck_complete i w k x h stuck ch;
    })
    | inr more ↦ rw more (
        subst
          (λ n.
            Finished silo start base n
              (walk silo now reason depth (walk_level silo now reason (batch_of w) w)))
          (omega arith)
          (walk-Finished depth (suc i) (walk_level silo now reason (batch_of w) w)
            (walk_level-Walking silo now reason start base i w h)))
  ]

  start_at-Walking : Walking silo start base zero (start_at start base)
  start_at-Walking = record {
    same = λ x. refl;
    closed = λ x y m d. cc;
    within = at_start;
    dead = λ x m. inl (==→eq x start (ground arith));
    reached = λ x m. subst (Chain silo base start zero) (sym (==→eq x start (ground arith))) ends;
    killed = λ x e. inl e;
    persists = λ x e. e;
  }
    where
      at_start : (k x : ℕ) → k ≤ zero → Chain silo base start k x → ((x == start) || false) ≡ true
      at_start k _ l ends = rw (==_self start) refl
      at_start k _ l (step b c ch d) = absurd (omega arith)

-- After an invalidation, an identifier other than the superseded one is without a live edge in the
-- silo exactly where it was before, or where an edge with it is inferred from the superseded edge in
-- at most `max_depth` steps.
pub invalidate_derived_edges_iff :
    (superseded silo max_depth reason now b : ℕ) (rs : List Cause)
    → b ≢ superseded
    → (is_live silo b (invalidate_derived_edges superseded silo max_depth reason now rs).0 ≡ false)
      ↔ ((is_live silo b rs ≡ false) ⊎ ((k : ℕ) × (k ≤ max_depth) × Chain silo rs superseded k b))
unfolding invalidate_derived_edges
invalidate_derived_edges_iff superseded silo max_depth reason now b rs other = (forth, back)
  where
    done :
        Finished silo superseded rs
          (max_depth + 0)
          (walk silo now reason max_depth (start_at superseded rs))
    done =
        walk-Finished silo now reason superseded rs max_depth zero (start_at superseded rs)
          (start_at-Walking silo now reason superseded rs)

    forth :
        is_live silo b (walk silo now reason max_depth (start_at superseded rs)).edges ≡ false
        → (is_live silo b rs ≡ false) ⊎ ((k : ℕ) × (k ≤ max_depth) × Chain silo rs superseded k b)
    forth h = elim (done.walking.killed b h) [
      | inl before ↦ inl before
      | inr (k, l, ch) ↦ inr (k, omega (arith, done.bounded), ch)
    ]

    back :
        (is_live silo b rs ≡ false) ⊎ ((k : ℕ) × (k ≤ max_depth) × Chain silo rs superseded k b)
        → is_live silo b (walk silo now reason max_depth (start_at superseded rs)).edges ≡ false
    back (inl before) = done.walking.persists b before
    back (inr (k, l, ch)) = elim (done.walking.dead b (done.complete k b (omega arith) ch)) [
      | inl same ↦ absurd (other same)
      | inr gone ↦ gone
    ]

pub walk_same :
    (superseded silo max_depth reason now x : ℕ) (rs : List Cause)
    → derived_of silo x (invalidate_derived_edges superseded silo max_depth reason now rs).0
      ≡ derived_of silo x rs
unfolding invalidate_derived_edges
walk_same superseded silo max_depth reason now x rs =
    (walk-Finished silo now reason superseded rs max_depth zero (start_at superseded rs)
        (start_at-Walking silo now reason superseded rs)).walking.same
      x

pub walk_persists :
    (superseded silo max_depth reason now x : ℕ) (rs : List Cause)
    → is_live silo x rs ≡ false
    → is_live silo x (invalidate_derived_edges superseded silo max_depth reason now rs).0 ≡ false
unfolding invalidate_derived_edges
walk_persists superseded silo max_depth reason now x rs =
    (walk-Finished silo now reason superseded rs max_depth zero (start_at superseded rs)
        (start_at-Walking silo now reason superseded rs)).walking.persists
      x
