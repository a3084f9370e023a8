-- ===== src/Sage/Forgetting/Edges.antt =====
-- The edges after forgetting and cancelling.
use engrammic.Base.{
  ℕ, ◌+◌, ◌≡◌, refl, ap, ◌∙◌, inl, inr, Bool, true, false, some, List, arith, Option-cases,
}
use engrammic.Graph.{Node, Store, set_where, find_node}
use engrammic.Graph.Thinning.{Thins, same-Thins}
use engrammic.Vectors.{DeadLetter}
use engrammic.Sage.Results.{ok}
use engrammic.Sage.Cascade.Scope.{cascade-Evolves}
use engrammic.Sage.Forgetting.{
  Outside, Forgotten, forget, after_cascade, tombstone_node, cancel_forget, restore_and_report,
  restore_node, cancel_window_seconds,
}

after_cascade-edges :
    (out : Outside) (wants_cascade : Bool) (n : Node) (id silo later : ℕ) (st : Store)
    → (after_cascade out wants_cascade n id silo later st).0.edges ≡ st.edges
unfolding after_cascade
after_cascade-edges out false n id silo later st = refl
after_cascade-edges out true n id silo later st =
    (cascade-Evolves out.fails silo later id st).edges_same

forget-store :
    (out : Outside) (st : Store) (queue : List DeadLetter) (id silo : ℕ) (wants_cascade : Bool)
    (now later : ℕ) (f : Forgotten) (n : Node)
    → find_node st id silo ≡ some n
    → forget out st queue id silo wants_cascade now later ≡ ok f
    → f.store
      ≡ (after_cascade out wants_cascade n id silo later
          (tombstone_node id silo (now + cancel_window_seconds) st)).0
unfolding forget
forget-store out st queue id silo wants_cascade now later f n found h = ground arith

pub forget-Thins :
    (out : Outside) (st : Store) (queue : List DeadLetter) (id silo : ℕ) (wants_cascade : Bool)
    (now later : ℕ) (f : Forgotten)
    → forget out st queue id silo wants_cascade now later ≡ ok f
    → Thins st f.store
unfolding forget tombstone_node set_where
forget-Thins out st queue id silo wants_cascade now later f h =
    elim (Option-cases (find_node st id silo)) [
      | inl missing ↦ absurd (ground arith)
      | inr (n, found) ↦ same-Thins st f.store (
          ap (λ (s : Store). s.edges)
            (forget-store out st queue id silo wants_cascade now later f n found h)
          ∙ after_cascade-edges out wants_cascade n id silo later
              (tombstone_node id silo (now + cancel_window_seconds) st))
    ]

cancel_forget-edges :
    (st : Store) (id silo first second : ℕ)
    → (cancel_forget st id silo first second).0.edges ≡ st.edges
unfolding cancel_forget restore_and_report restore_node set_where
cancel_forget-edges st id silo first second = ground arith

pub cancel_forget-Thins :
    (st : Store) (id silo first second : ℕ) → Thins st (cancel_forget st id silo first second).0
cancel_forget-Thins st id silo first second =
    same-Thins st (cancel_forget st id silo first second).0
      (cancel_forget-edges st id silo first second)
