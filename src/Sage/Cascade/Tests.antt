-- ===== src/Sage/Cascade/Tests.antt =====
-- A cascade at a concrete store.
use engrammic.Base.{ℕ, Bool, false, [], ◌∷◌}
use engrammic.Graph.{Store, synthesized_from, wisdom}
use engrammic.Graph.Samples.{plain}
use engrammic.Sage.Cascade.{cascade}
use engrammic.Sage.Cascade.Scope.{Evolves, cascade-Evolves}

-- The belief 2 rests on 1, which has changed.
abbrev beliefs : Store
beliefs = record {
  nodes = plain 1 ∷ record (plain 2) { layer = wisdom } ∷ [];
  edges = record { type = synthesized_from; source = 2; target = 1; weight = 1000 } ∷ [];
}

abbrev never : ℕ → Bool
never node = false

cascade-Evolves_example : Evolves 1 beliefs (cascade never 1 7 1 beliefs).store
cascade-Evolves_example = cascade-Evolves never 1 7 1 beliefs
