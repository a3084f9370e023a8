-- ===== src/Sage/Revision/Releasing.antt =====
-- In what state a revision leaves the belief.
use engrammic.Base.{ℕ, ◌≡◌, true, false, none, some, List, if◌then◌else◌, find_first}
use engrammic.Graph.{Node, Store, is_active}
use engrammic.Sage.Results.{Result, ok, err, Event}
use engrammic.Sage.Revision.{belief_node_at, revision_error, ReviseBeliefResult, Revised}

-- The belief that a query by key finds.
abbrev pub Finds : Store → ℕ → ℕ → Node → Type 0
Finds st id silo n = find_first (belief_node_at id silo) st.nodes ≡ some n

-- After an error the belief can be revised again; after a revision with a new belief it is active no
-- more; after any other it is active and no revision is in progress.
abbrev pub Left : Node → Result (ReviseBeliefResult × List Event) → Type 0
Left n (err e) = revision_error n ≡ none
Left n (ok (r, events)) =
    if r.content_changed
    then is_active n.state ≡ false
    else (is_active n.state ≡ true) × (n.revision_in_progress ≡ false)

-- The same before the error is handled: the belief is still active.
abbrev Mid : Node → Result (ReviseBeliefResult × List Event) → Type 0
Mid n (err e) = is_active n.state ≡ true
Mid n (ok r) = Left n (ok r)

abbrev Ends : ℕ → ℕ → Revised → Type 0
Ends id silo a = (n : Node) × Finds a.0 id silo n × Mid n a.1
