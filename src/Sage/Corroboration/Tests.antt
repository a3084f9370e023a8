-- ===== src/Sage/Corroboration/Tests.antt =====
-- Corroboration at a concrete store.
use engrammic.Base.{ℕ, ◌≡◌, refl, ap, Bool, true, false, some, List, [], ◌∷◌}
use engrammic.Graph.{Node, Store, knowledge, EvidenceRef, node_ref, uri}
use engrammic.Graph.Samples.{plain}
use engrammic.Sage.Corroboration.{
  check_corroboration, check_semantic_corroboration, Triple, count_distinct,
}
use engrammic.Sage.Corroboration.Matching.{check_semantic_corroboration_covers}

abbrev always : Triple → Triple → Bool
always a b = true

abbrev never : List ℕ → List ℕ → Bool
never a b = false

abbrev claim : ℕ → ℕ → List EvidenceRef → Node
claim id object refs = record (plain id) {
  is_claim = true;
  layer = knowledge;
  subject = some 7;
  predicate = some 8;
  object = some object;
  evidence = refs;
}

-- 4 and 5 say the same with three references between them; 6 says something else.
abbrev agreed : Store
agreed = record {
  nodes =
      claim 4 1 (node_ref 1 ∷ uri 1 ∷ [])
      ∷ claim 5 1 (uri 1 ∷ uri 2 ∷ [])
      ∷ claim 6 2 (uri 3 ∷ [])
      ∷ [];
  edges = [];
}

exact_count : check_corroboration agreed 4 1 3 ≡ (3, true)
unfolding check_corroboration count_distinct
exact_count = refl

semantic_count : check_semantic_corroboration always never agreed 4 1 3 ≡ (4, true)
unfolding check_semantic_corroboration count_distinct
semantic_count = refl

check_semantic_corroboration_covers_example :
    (check_semantic_corroboration always never agreed 4 1 3).1 ≡ true
check_semantic_corroboration_covers_example =
    check_semantic_corroboration_covers always never (λ t. refl) agreed 4 1 3
      (claim 4 1 (node_ref 1 ∷ uri 1 ∷ [])) refl refl refl (ap (λ r. r.1) exact_count)
