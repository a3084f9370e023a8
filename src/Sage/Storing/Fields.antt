-- ===== src/Sage/Storing/Fields.antt =====
-- What metadata cannot change of a claim: its identifier and silo, and a triple it does not set.
use engrammic.Base.{
  ℕ, ◌≡◌, refl, ◌∙◌, inl, inr, Bool, true, false, List, [], ◌∷◌, arith, Bool-cases, any,
}
use engrammic.Graph.{Node}
use engrammic.Graph.Updates.{Keeps}
use engrammic.Sage.Contradictions.{all_given}
use engrammic.Sage.Storing.{
  Property, set_layer, set_state, set_claim_status, set_confidence, set_subject, set_predicate,
  set_object, set_evidence, set_other, write_property, write_properties, ClaimRequest, fresh_claim,
  claim_node,
}

-- Metadata that writes the subject, the predicate or the object.
abbrev pub sets_triple : Property → Bool
sets_triple (set_subject s) = true
sets_triple (set_predicate p) = true
sets_triple (set_object o) = true
sets_triple p = false

write_property_triple :
    (p : Property) (n : Node) → sets_triple p ≡ false → (write_property p n).subject ≡ n.subject
write_property_triple (set_subject s) n h = absurd cc
write_property_triple (set_predicate s) n h = refl
write_property_triple (set_object s) n h = refl
write_property_triple (set_layer s) n h = refl
write_property_triple (set_state s) n h = refl
write_property_triple (set_claim_status s) n h = refl
write_property_triple (set_confidence s) n h = refl
write_property_triple (set_evidence s) n h = refl
write_property_triple (set_other s) n h = refl

pub write_properties_triple :
    (ps : List Property) (n : Node)
    → any sets_triple ps ≡ false
    → (write_properties ps n).subject ≡ n.subject
write_properties_triple [] n h = refl
write_properties_triple (p ∷ ps) n h =
    write_properties_triple ps (write_property p n) (ground arith)
    ∙ write_property_triple p n (ground arith)

write_property-Keeps : (p : Property) → Keeps (write_property p)
write_property-Keeps (set_layer x) n = (refl, refl)
write_property-Keeps (set_state x) n = (refl, refl)
write_property-Keeps (set_claim_status x) n = (refl, refl)
write_property-Keeps (set_confidence x) n = (refl, refl)
write_property-Keeps (set_subject x) n = (refl, refl)
write_property-Keeps (set_predicate x) n = (refl, refl)
write_property-Keeps (set_object x) n = (refl, refl)
write_property-Keeps (set_evidence x) n = (refl, refl)
write_property-Keeps (set_other x) n = (refl, refl)

pub write_properties-Keeps : (ps : List Property) → Keeps (write_properties ps)
write_properties-Keeps [] n = (refl, refl)
write_properties-Keeps (p ∷ ps) n =
    let rest = write_properties-Keeps ps (write_property p n) in
    let first = write_property-Keeps p n in (rest.0 ∙ first.0, rest.1 ∙ first.1)

claim_node_key :
    (id : ℕ) (r : ClaimRequest) (silo : ℕ)
    → ((claim_node id r silo).id ≡ id) × ((claim_node id r silo).silo ≡ silo)
unfolding claim_node
claim_node_key id r silo = elim (Bool-cases (all_given r.subject r.predicate r.object_value)) [
  | inl yes_ ↦ rw yes_ (write_properties-Keeps r.metadata (fresh_claim id r silo))
  | inr no_ ↦ rw no_ (write_properties-Keeps r.metadata (fresh_claim id r silo))
]

pub claim_node-id : (id : ℕ) (r : ClaimRequest) (silo : ℕ) → (claim_node id r silo).id ≡ id
claim_node-id id r silo = (claim_node_key id r silo).0

pub claim_node-silo : (id : ℕ) (r : ClaimRequest) (silo : ℕ) → (claim_node id r silo).silo ≡ silo
claim_node-silo id r silo = (claim_node_key id r silo).1
