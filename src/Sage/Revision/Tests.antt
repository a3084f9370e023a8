-- ===== src/Sage/Revision/Tests.antt =====
-- Revisions of a concrete belief.
use engrammic.Base.{
  ℕ, ◌≡◌, refl, Bool, true, false, Option, none, some, List, [], ◌∷◌, length, keep,
}
use engrammic.Graph.{Node, Store, Edge, stale, wisdom, knowledge, synthesized_from, set_where}
use engrammic.Graph.Samples.{plain}
use engrammic.Sage.Proposals.{Synthesis, synthesized, noisy_or_aggregate}
use engrammic.Sage.Results.{ok, compute_embedding, update_heat}
use engrammic.Sage.Revision.{
  Call, supersede_call, no_new_belief, revise_belief, revise_from, mark_revision, answered,
  replace_belief, create_belief, update_belief_after_revision,
}
use engrammic.Sage.Revision.{update_call}

abbrev fact : ℕ → Node
fact id = record (plain id) { is_fact = true; layer = knowledge }

abbrev belief : Option ℕ → Node
belief cluster = record (plain 20) {
  is_belief = true;
  layer = wisdom;
  synthesis_state = some stale;
  content = 65 ∷ [];
  source_cluster_id = cluster;
}

abbrev source : ℕ → Edge
source f = record { type = synthesized_from; source = 20; target = f; weight = 1000 }

abbrev store : Option ℕ → Store
store cluster = record {
  nodes = belief cluster ∷ fact 1 ∷ fact 2 ∷ fact 3 ∷ [];
  edges = source 1 ∷ source 2 ∷ source 3 ∷ [];
}

abbrev writer : List Node → List ℕ → Synthesis
writer facts old = synthesized (66 ∷ 32 ∷ [])

abbrev echo : List Node → List ℕ → Synthesis
echo facts old = synthesized (32 ∷ old)

abbrev quiet : Call → Bool
quiet c = false

abbrev no_supersede : Call → Bool
no_supersede supersede_call = true
no_supersede c = false

replaced :
    (revise_belief quiet 20 1 30 50 writer (store none)).1
    ≡ ok (
      record {
        new_belief_id = some 30;
        old_belief_id = 20;
        content_changed = true;
        is_invalidated = false;
      },
      compute_embedding 30 ∷ update_heat 30 ∷ [],
    )
unfolding revise_belief mark_revision set_where revise_from noisy_or_aggregate answered
    replace_belief
replaced = refl

echoed : (revise_belief quiet 20 1 30 50 echo (store none)).1 ≡ ok (no_new_belief 20 false, [])
unfolding revise_belief mark_revision set_where revise_from noisy_or_aggregate answered
echoed = refl

-- The new belief stays beside the old one when the driver raises at the last call.
two_beliefs :
    length
      (keep (λ n. n.is_belief) (revise_belief no_supersede 20 1 30 50 writer (store none)).0.nodes)
    ≡ 2
unfolding revise_belief mark_revision set_where revise_from noisy_or_aggregate answered
    replace_belief create_belief update_belief_after_revision
two_beliefs = refl

abbrev update_raises : Call → Bool
update_raises update_call = true
update_raises c = false
