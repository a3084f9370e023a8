-- ===== src/Causal/Tests.antt =====
-- Invalidations at concrete inputs.
use engrammic.Base.{
  ℕ, ◌≤◌, ◌≡◌, refl, ◌⊎◌, ◌↔◌, true, false, not, none, some, List, [], ◌∷◌, map, arith, length,
  is_empty, take, contains,
}
use engrammic.Causal.{
  Cause, derived_of, find_derived, tombstone_edges, set_of, walk_level, walk,
  invalidate_derived_edges, Criteria, find_matching, selects, run_tombstone,
}
use engrammic.Causal.Derived.{Chain, is_live}
use engrammic.Causal.Reached.{invalidate_derived_edges_iff}
use mathlib.Core.List.{Memᴰ}
use engrammic.Causal.Selecting.{IsSelected}
use engrammic.Causal.Targets.{IsHit, run_tombstone_iff}

abbrev cause : ℕ → List ℕ → Cause
cause id sources = record {
  id = id;
  silo_id = 1;
  inferred = not (is_empty sources);
  inferred_from_edge_ids = sources;
  consensus_confidence = some 700;
  extraction_confidence = none;
  created_at = some id;
  invalidated = none;
  invalidated_at = none;
  invalidation_reason = none;
}

-- Edge 4 is inferred from 2 and from 3, which are inferred from 1.
abbrev diamond : List Cause
diamond =
    cause 1 [] ∷ cause 2 (1 ∷ []) ∷ cause 3 (1 ∷ []) ∷ cause 4 (2 ∷ 3 ∷ []) ∷ cause 5 (4 ∷ []) ∷ []

abbrev criteria : Criteria
criteria = record {
  edge_type_is_causes = none;
  confidence_below = some 800;
  created_before = some 2;
}

-- Three edges are invalidated, and four counted, since edge 4 is found once from 2 and once from 3.
counted_twice :
    ((invalidate_derived_edges 1 1 2 9 50 diamond).1 ≡ 4)
    × (map (λ r. r.invalidated) (invalidate_derived_edges 1 1 2 9 50 diamond).0
        ≡ none ∷ some true ∷ some true ∷ some true ∷ none ∷ [])
unfolding invalidate_derived_edges walk walk_level find_derived derived_of tombstone_edges set_of
counted_twice = (refl, refl)

abbrev restored : ℕ → Cause
restored id = record (cause id []) { invalidated = some false }

-- The filters choose among the edges that were set to false, and take every edge that was never set.
selected : find_matching criteria 1 500 (restored 1 ∷ restored 2 ∷ cause 3 [] ∷ []) ≡ 1 ∷ 3 ∷ []
unfolding find_matching selects
selected = refl

invalidate_derived_edges_iff_example :
    (is_live 1 4 (invalidate_derived_edges 1 1 2 9 50 diamond).0 ≡ false)
    ↔ ((is_live 1 4 diamond ≡ false) ⊎ ((k : ℕ) × (k ≤ 2) × Chain 1 diamond 1 k 4))
invalidate_derived_edges_iff_example =
    invalidate_derived_edges_iff 1 1 2 9 50 4 diamond (λ e. omega (arith, e))

-- The filters would let edge 1 alone through, but each edge of `diamond` was never set.
run_tombstone_iff_example :
    (ids : List ℕ) × ((x : ℕ)
      → (contains x ids ≡ true)
        ↔ ((r : Cause) × Memᴰ r diamond × (r.id ≡ x) × IsSelected criteria 1 r))
    × (((is_live 1 5 (run_tombstone 1 none criteria 3 2 50 diamond).edges ≡ false)
          ↔ ((is_live 1 5 diamond ≡ false) ⊎ IsHit 1 3 (take 2 ids) diamond 5))
        × ((run_tombstone 1 none criteria 3 2 50 diamond).direct ≡ length (take 2 ids)))
run_tombstone_iff_example = run_tombstone_iff 1 none criteria 3 2 50 5 diamond
