-- ===== src/Sage/Commitments.antt =====
-- TX8, `commit`, and TX14, `crystallize`: commitments about nodes, with who declared them.
-- Beside the graph store stand the DECLARED_BY edges, each a commitment and an agent, and the
-- working hypotheses, whose properties are those of the nodes themselves. What is written to
-- Postgres is not modelled. The new identifier is an argument.
pub mod Declaring
pub mod Tests
use engrammic.Base.{
  ℕ, Bool, ◌&&◌, Option, none, some, List, [], ◌∷◌, ◌++◌, map, ◌==◌, if◌then◌else◌, is_some, keep,
  any, find_first, map_where,
}
use engrammic.Graph.{Node, Store, Edge, NodeState, new_node, wisdom, about, has_type, is_tombstoned}
use engrammic.Sage.Contradictions.{check_ncb_before_write}
use engrammic.Sage.Proposals.Accepting.{rejected_neighbours}
use engrammic.Sage.Storing.{Property, write_properties, evidence_rows, is_missing}
use engrammic.Sage.Results.{
  BrainError, empty_about_refs, about_ref_not_found, about_ref_tombstoned, hypothesis_not_found,
  hypothesis_tombstoned, already_crystallized, no_confidence, Result, err, Event, compute_embedding,
  update_heat, first_error, unless,
}

pub record Hypothesis : Type 0 where
  pub id : ℕ
  pub silo : ℕ
  pub session : ℕ
  pub content : List ℕ
  pub confidence : Option ℕ
  pub state : Option NodeState
  pub crystallized_into : Option ℕ

pub record Wisdom : Type 0 where
  pub graph : Store
  pub declared : List (ℕ × ℕ)
  pub hypotheses : List Hypothesis

-- `_validate_about_refs`; VALIDATE_ABOUT_REFS selects as the query for evidence does.
unfoldable pub validate_about_refs : Store → List ℕ → ℕ → Option BrainError
validate_about_refs st [] silo = some empty_about_refs
validate_about_refs st (r ∷ rs) silo =
    let rows = evidence_rows st silo (r ∷ rs) in
    if any (is_missing rows) (r ∷ rs)
    then some about_ref_not_found
    else if any (λ n. is_tombstoned n.state) rows
    then some about_ref_tombstoned
    else none

abbrev pub about_edge : ℕ → ℕ → Edge
about_edge source target = record { type = about; source = source; target = target; weight = 1000 }

-- CREATE_COMMITMENT_WITH_ABOUT: one row for each node that is matched, and one DECLARED_BY edge for
-- each row.
unfoldable pub create_commitment_with_about : Node → List ℕ → ℕ → Wisdom → Wisdom
create_commitment_with_about c refs agent w =
    let nodes = c ∷ w.graph.nodes in
    let rows = evidence_rows (record w.graph { nodes = nodes }) c.silo refs in
    record w {
      graph = record {
        nodes = nodes;
        edges = map (λ a. about_edge c.id a.id) rows ++ w.graph.edges;
      };
      declared = map (λ a. (c.id, agent)) rows ++ w.declared;
    }

abbrev pub commitment : ℕ → ℕ → List ℕ → ℕ → Node
commitment id silo content confidence = record (new_node id silo wisdom content) {
  confidence = some confidence;
}

abbrev pub commit_events : ℕ → List Event
commit_events id = compute_embedding id ∷ update_heat id ∷ []

-- `enforced` is `ncb_enforcement_enabled`; the metadata is merged last.
unfoldable pub commit :
    Bool → Wisdom → List ℕ → List ℕ → ℕ → ℕ → ℕ → List Property → ℕ → Result (Wisdom × List Event)
unfolding validate_about_refs create_commitment_with_about
commit enforced w content refs silo agent confidence metadata id =
    unless
      (first_error (validate_about_refs w.graph refs silo)
        (if enforced then rejected_neighbours (check_ncb_before_write w.graph refs silo) else none))
      (
        create_commitment_with_about
            (write_properties metadata (commitment id silo content confidence)) refs agent w,
        commit_events id,
      )

-- GET_HYPOTHESIS_FOR_CRYSTALLIZE, or GET_HYPOTHESIS_BY_ID without a session.
abbrev pub hypothesis_at : ℕ → ℕ → Option ℕ → Hypothesis → Bool
hypothesis_at id silo none h = h.id == id && h.silo == silo
hypothesis_at id silo (some session) h = h.id == id && (h.silo == silo && h.session == session)

-- `_validate_hypothesis`, for the row that was found.
abbrev pub hypothesis_error : Hypothesis → Option BrainError
hypothesis_error h =
    if is_tombstoned h.state
    then some hypothesis_tombstoned
    else if is_some h.crystallized_into
    then some already_crystallized
    else none

-- GET_HYPOTHESIS_ABOUT_REFS
abbrev pub hypothesis_about_refs : Store → ℕ → List Node
hypothesis_about_refs st id =
    keep (λ a. any (λ e. has_type about e && (e.source == id && e.target == a.id)) st.edges)
      st.nodes

abbrev pub about_error : List Node → Option BrainError
about_error rows = if any (λ a. is_tombstoned a.state) rows then some about_ref_tombstoned else none

-- CREATE_CRYSTALLIZED_FROM_EDGE: the hypothesis is marked; the edge says the same and is not kept.
unfoldable pub mark_crystallized : ℕ → ℕ → ℕ → Wisdom → Wisdom
mark_crystallized id silo new w = record w {
  hypotheses =
      map_where (hypothesis_at id silo none) (λ h. record h { crystallized_into = some new })
        w.hypotheses;
}

abbrev pub with_float {ℓ} : {A : Type ℓ} → Option ℕ → (ℕ → Result A) → Result A
with_float none k = err no_confidence
with_float (some c) k = k c

unfoldable pub crystallize_found : Wisdom → Hypothesis → ℕ → ℕ → ℕ → Result (Wisdom × List Event)
unfolding create_commitment_with_about mark_crystallized
crystallize_found w h silo agent new =
    let rows = hypothesis_about_refs w.graph h.id in
    elim (hypothesis_error h) [
      | some e ↦ err e
      | none ↦ with_float h.confidence (λ c. unless (about_error rows) (
        mark_crystallized h.id silo new (
            create_commitment_with_about (commitment new silo h.content c) (map (λ a. a.id) rows)
              agent w),
        commit_events new,
      ))
    ]

unfoldable pub crystallize : Wisdom → ℕ → ℕ → ℕ → Option ℕ → ℕ → Result (Wisdom × List Event)
unfolding crystallize_found
crystallize w id silo agent session new =
    elim (find_first (hypothesis_at id silo session) w.hypotheses) [
      | none ↦ err hypothesis_not_found
      | some h ↦ crystallize_found w h silo agent new
    ]
