-- ===== src/Sage/Contradictions/Tests.antt =====
-- Contradictions at a concrete store.
use engrammic.Base.{ℕ, ◌≡◌, refl, ◌↔◌, true, some, [], ◌∷◌}
use engrammic.Graph.{Node, Store, knowledge}
use mathlib.Core.List.{Memᴰ}
use engrammic.Graph.Samples.{plain}
use engrammic.Sage.Results.{conflict_detected}
use engrammic.Sage.Contradictions.{detect_spo_conflict, check_contradiction_before_write}
use engrammic.Sage.Contradictions.Flagging.{Flagged}
use engrammic.Sage.Contradictions.Reporting.{Rival, detect_spo_conflict_flags}

abbrev says : ℕ → ℕ → Node
says id object = record (plain id) {
  is_claim = true;
  layer = knowledge;
  subject = some 7;
  predicate = some 8;
  object = some object;
}

-- Two claims that contradict the new claim 3, and one that agrees.
abbrev disputed : Store
disputed = record { nodes = says 3 1 ∷ says 4 2 ∷ says 5 1 ∷ says 6 9 ∷ []; edges = [] }

rejected_before :
    check_contradiction_before_write disputed (some 7) (some 8) (some 1) 1 ≡ 4 ∷ 6 ∷ []
unfolding check_contradiction_before_write
rejected_before = refl

detect_spo_conflict_flags_example :
    let r = detect_spo_conflict disputed 3 (some 7) (some 8) (some 1) 1 in
    (Memᴰ (conflict_detected 3 6) r.1 ↔ Rival disputed 3 1 7 8 1 6)
    × ((Memᴰ (conflict_detected 3 6) r.1 × Flagged r.0 1 3 6) ↔ Rival disputed 3 1 7 8 1 6)
detect_spo_conflict_flags_example =
    detect_spo_conflict_flags 3 1 7 8 1 disputed 6 refl (λ e. cc) (λ e. cc) (λ e. cc)
