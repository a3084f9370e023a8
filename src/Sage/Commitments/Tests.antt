-- ===== src/Sage/Commitments/Tests.antt =====
-- Commitments and hypotheses at concrete stores.
use engrammic.Base.{◌≤◌, ◌≡◌, refl, false, none, some, [], ◌∷◌}
use engrammic.Graph.{Store, active}
use engrammic.Graph.Samples.{plain}
use engrammic.Sage.Results.{ok, err, already_crystallized}
use engrammic.Sage.Commitments.{
  Hypothesis, Wisdom, validate_about_refs, create_commitment_with_about, mark_crystallized,
  commitment, commit_events, commit, crystallize_found, crystallize,
}
use engrammic.Sage.Commitments.Declaring.{
  declarations, abouts, commit-declarations, crystallize_again,
}

abbrev graph : Store
graph = record { nodes = plain 1 ∷ plain 2 ∷ []; edges = [] }

abbrev idea : Hypothesis
idea = record {
  id = 5;
  silo = 1;
  session = 3;
  content = 9 ∷ [];
  confidence = some 700;
  state = some active;
  crystallized_into = none;
}

abbrev start : Wisdom
start = record { graph = graph; declared = []; hypotheses = idea ∷ [] }

abbrev after : Wisdom
after = create_commitment_with_about (commitment 10 1 (8 ∷ []) 800) (1 ∷ 2 ∷ []) 4 start

committed : commit false start (8 ∷ []) (1 ∷ 2 ∷ []) 1 4 800 [] 10 ≡ ok (after, commit_events 10)
unfolding commit validate_about_refs
committed = refl

-- A commitment about two nodes is declared twice.
declared_twice : declarations 10 after ≡ 2
unfolding create_commitment_with_about
declared_twice = refl

commit-declarations_example :
    (declarations 10 after ≡ abouts 10 after) × (2 ≤ declarations 10 after)
commit-declarations_example =
    commit-declarations false start after (8 ∷ []) (1 ∷ 2 ∷ []) 1 4 800 [] 10 (commit_events 10)
      refl refl committed

abbrev settled : Wisdom
settled =
    mark_crystallized 5 1 11
      (create_commitment_with_about (commitment 11 1 (9 ∷ []) 700) [] 4 start)

crystallizes : crystallize start 5 1 4 (some 3) 11 ≡ ok (settled, commit_events 11)
unfolding crystallize crystallize_found
crystallizes = refl

-- A hypothesis about nothing becomes a commitment that no one declared.
undeclared : declarations 11 settled ≡ 0
unfolding mark_crystallized create_commitment_with_about
undeclared = refl

crystallize_again_example : crystallize settled 5 1 6 (some 3) 12 ≡ err already_crystallized
crystallize_again_example =
    crystallize_again start settled 5 1 4 11 6 12 (some 3) (commit_events 11) crystallizes
