-- ===== src/Sage/Collection/Collecting.antt =====
-- What the collector deletes.
use mathlib.Core.Path.{subst}
use mathlib.Core.List.{append-nil, append_assoc}
use engrammic.Base.{
  ℕ, zero, suc, ◌+◌, ◌≡◌, refl, sym, ap, ◌∙◌, ◌≢◌, inl, inr, Bool, true, false, not, ◌&&◌, ◌||◌,
  List, [], ◌∷◌, ◌++◌, map, arith, ◌==◌, Bool-cases, length, take, keep, length-append, contains,
}
use engrammic.Graph.{Node, Store, is_tombstoned, matches}
use mathlib.Core.Bool.{and_comm}
use engrammic.Graph.Updates.{find_node-matches}
use engrammic.Graph.Unique.{find_node-UniqueAt, UniqueAt, keep-UniqueAt}
use engrammic.Sage.Collection.{
  Fault, no_fault, at_edges, at_node, collectable, tombstoned_for_gc, delete_edges, delete_node,
  Collected, collect_one, collect, hard_delete,
}

-- Kept by a run that deleted the nodes of the silo with the identifiers `gone`.
abbrev pub survives : ℕ → List ℕ → Node → Bool
survives silo gone n = not (contains n.id gone && ((n.silo == silo) && is_tombstoned n.state))

abbrev pub is_no_fault : Fault → Bool
is_no_fault no_fault = true
is_no_fault f = false

keep-ext {ℓ} :
    {A : Type ℓ} (p q : A → Bool) (xs : List A) → ((x : A) → p x ≡ q x) → keep p xs ≡ keep q xs
keep-ext p q [] h = refl
keep-ext p q (x ∷ xs) h = rw (h x, keep-ext p q xs h) refl

keep-keep {ℓ} :
    {A : Type ℓ} (p q : A → Bool) (xs : List A) → keep p (keep q xs) ≡ keep (λ x. q x && p x) xs
keep-keep p q [] = refl
keep-keep p q (x ∷ xs) = elim (Bool-cases (q x)) [
  | inl hit ↦ rw hit (rw (keep-keep p q xs) refl)
  | inr miss ↦ rw miss (keep-keep p q xs)
]

keep-true {ℓ} : {A : Type ℓ} (p : A → Bool) (xs : List A) → ((x : A) → p x ≡ true) → keep p xs ≡ xs
keep-true p [] h = refl
keep-true p (x ∷ xs) h = rw (h x) (rw (keep-true p xs h) refl)

keep-append {ℓ} :
    {A : Type ℓ} (p : A → Bool) (xs ys : List A) → keep p (xs ++ ys) ≡ keep p xs ++ keep p ys
keep-append p [] ys = refl
keep-append p (x ∷ xs) ys = ground (arith, keep-append p xs ys)

contains-snoc :
    (x id : ℕ) (gone : List ℕ) → contains x (gone ++ id ∷ []) ≡ (contains x gone || (x == id))
contains-snoc x id [] = ground arith
contains-snoc x id (g ∷ gone) = ground (arith, contains-snoc x id gone)

survives-snoc :
    (silo id : ℕ) (gone : List ℕ) (n : Node)
    → (survives silo gone n && not (matches id silo n && is_tombstoned n.state))
      ≡ survives silo (gone ++ id ∷ []) n
survives-snoc silo id gone n = rw (contains-snoc n.id id gone) (ground arith)

nodes-delete_edges : (id silo : ℕ) (st : Store) → (delete_edges id silo st).nodes ≡ st.nodes
unfolding delete_edges
nodes-delete_edges id silo st = ground arith

nodes-delete :
    (silo id : ℕ) (gone : List ℕ) (base : List Node) (st : Store)
    → st.nodes ≡ keep (survives silo gone) base
    → (delete_node id silo (delete_edges id silo st)).nodes
      ≡ keep (survives silo (gone ++ id ∷ [])) base
unfolding delete_node delete_edges
nodes-delete silo id gone base st h =
    rw (nodes-delete_edges id silo st, h)
      (keep-keep (λ n. not (matches id silo n && is_tombstoned n.state)) (survives silo gone) base
        ∙ keep-ext _ (survives silo (gone ++ id ∷ [])) base (survives-snoc silo id gone))

-- The state of a run after the candidates `done`.
record Ran (faults : ℕ → Fault) (silo : ℕ) (base : List Node) (done : List ℕ) (c : Collected)
    : Type 0 where
  nodes_kept : c.store.nodes ≡ keep (survives silo c.deleted_ids) base
  counted : length c.deleted_ids + c.skipped_count ≡ length done
  deleted_are : c.deleted_ids ≡ keep (λ id. is_no_fault (faults id)) done

module _ (faults : ℕ → Fault) (silo : ℕ) (base : List Node) where
  collect_one-Ran :
      (id : ℕ) (done : List ℕ) (c : Collected) (f : Fault)
      → faults id ≡ f
      → Ran faults silo base done c
      → Ran faults silo base (done ++ id ∷ []) (collect_one faults silo id c)
  unfolding collect_one
  collect_one-Ran id done c no_fault e r =
      rw (e, collect_one)
        (record {
          nodes_kept = nodes-delete silo id c.deleted_ids base c.store r.nodes_kept;
          counted = omega (
            arith,
            r.counted,
            length-append c.deleted_ids (id ∷ []),
            length-append done (id ∷ []),
          );
          deleted_are =
              rw (keep-append (λ i. is_no_fault (faults i)) done (id ∷ []), e)
                (ap (λ l. l ++ id ∷ []) r.deleted_are);
        })
  collect_one-Ran id done c at_edges e r =
      rw (e, collect_one)
        (record {
          nodes_kept = r.nodes_kept;
          counted = omega (arith, r.counted, length-append done (id ∷ []));
          deleted_are =
              rw (keep-append (λ i. is_no_fault (faults i)) done (id ∷ []), e)
                (r.deleted_are ∙ sym (append-nil _));
        })
  collect_one-Ran id done c at_node e r =
      rw (e, collect_one)
        (record {
          nodes_kept = nodes-delete_edges id silo c.store ∙ r.nodes_kept;
          counted = omega (arith, r.counted, length-append done (id ∷ []));
          deleted_are =
              rw (keep-append (λ i. is_no_fault (faults i)) done (id ∷ []), e)
                (r.deleted_are ∙ sym (append-nil _));
        })

  collect-Ran :
      (ids done : List ℕ) (c : Collected)
      → Ran faults silo base done c
      → Ran faults silo base (done ++ ids) (collect faults silo ids c)
  unfolding collect
  collect-Ran [] done c r = subst (λ l. Ran faults silo base l c) (sym (append-nil done)) r
  collect-Ran (id ∷ ids) done c r =
      subst (λ l. Ran faults silo base l (collect faults silo ids (collect_one faults silo id c)))
        (append_assoc done (id ∷ []) ids)
        (collect-Ran ids (done ++ id ∷ []) (collect_one faults silo id c)
          (collect_one-Ran id done c (faults id) refl r))

hard_delete-Ran :
    (faults : ℕ → Fault) (st : Store) (silo now batch_size : ℕ)
    → Ran faults silo st.nodes
        (tombstoned_for_gc silo now batch_size st)
        (hard_delete faults st silo now batch_size)
unfolding hard_delete
hard_delete-Ran faults st silo now batch_size =
    collect-Ran faults silo st.nodes (tombstoned_for_gc silo now batch_size st) [] _ (record {
      nodes_kept = sym (keep-true (survives silo []) st.nodes (λ n. refl));
      counted = refl;
      deleted_are = refl;
    })

-- A collection deletes, of the candidates, exactly those for which the driver did not raise, counts
-- the others as skipped, and removes from the store exactly the tombstoned nodes of the silo with a
-- deleted identifier, in one pass over the nodes.
pub hard_delete_exact :
    (faults : ℕ → Fault) (st : Store) (silo now batch_size : ℕ)
    → let c = hard_delete faults st silo now batch_size in
      let candidates = tombstoned_for_gc silo now batch_size st in
      (c.deleted_ids ≡ keep (λ id. is_no_fault (faults id)) candidates)
      × (length c.deleted_ids + c.skipped_count ≡ length candidates)
      × (c.store.nodes ≡ keep (survives silo c.deleted_ids) st.nodes)
hard_delete_exact faults st silo now batch_size =
    let r = hard_delete-Ran faults st silo now batch_size in
    (r.deleted_are, r.counted, r.nodes_kept)

contains-keep :
    (x : ℕ) (p : ℕ → Bool) (xs : List ℕ) → contains x (keep p xs) ≡ true → contains x xs ≡ true
contains-keep x p [] h = h
contains-keep x p (y ∷ ys) h = ground (arith, contains-keep x p ys)

contains-take : (x n : ℕ) (xs : List ℕ) → contains x (take n xs) ≡ true → contains x xs ≡ true
contains-take x zero xs h = cc
contains-take x (suc n) [] h = h
contains-take x (suc n) (y ∷ ys) h = ground (arith, contains-take x n ys)

matched_of_contains :
    (silo now id : ℕ) (ns : List Node)
    → contains id (map (λ n. n.id) (keep (collectable silo now) ns)) ≡ true
    → keep (λ m. matches id silo m && collectable silo now m) ns ≢ []
matched_of_contains silo now id [] h = λ e. cc
matched_of_contains silo now id (n ∷ ns) h = ground (arith, matched_of_contains silo now id ns)

not-contains-deleted :
    (faults : ℕ → Fault) (st : Store) (silo now batch_size id : ℕ) (n : Node)
    → UniqueAt st id silo n
    → collectable silo now n ≡ false
    → contains id (hard_delete faults st silo now batch_size).deleted_ids ≡ false
not-contains-deleted faults st silo now batch_size id n u safe =
    elim (Bool-cases (contains id (hard_delete faults st silo now batch_size).deleted_ids)) [
      | inr absent ↦ absent
      | inl deleted ↦ absurd (
          unfold tombstoned_for_gc in
          matched_of_contains silo now id st.nodes
            (contains-take id batch_size _ (
              contains-keep id (λ i. is_no_fault (faults i)) _
                (subst (λ l. contains id l ≡ true)
                  (hard_delete-Ran faults st silo now batch_size).deleted_are deleted)))
            (keep-UniqueAt st id silo n (collectable silo now) u ∙ rw safe refl))
    ]

-- A node alone with its key that is not tombstoned, or whose cancel window has not passed or is
-- missing, is never deleted.
pub hard_delete_spares :
    (faults : ℕ → Fault) (st : Store) (silo now batch_size id : ℕ) (n : Node)
    → UniqueAt st id silo n
    → collectable silo now n ≡ false
    → UniqueAt (hard_delete faults st silo now batch_size).store id silo n
hard_delete_spares faults st silo now batch_size id n u safe =
    let gone = (hard_delete faults st silo now batch_size).deleted_ids in
    rw ((hard_delete-Ran faults st silo now batch_size).nodes_kept) (
      keep-keep (matches id silo) (survives silo gone) st.nodes
      ∙ keep-ext (λ m. survives silo gone m && matches id silo m)
          (λ m. matches id silo m && survives silo gone m) st.nodes
          (λ m. and_comm (survives silo gone m) (matches id silo m))
      ∙ keep-UniqueAt st id silo n (survives silo gone) u
      ∙ rw (kept gone (not-contains-deleted faults st silo now batch_size id n u safe)) refl)
  where
    same_id : n.id ≡ id
    same_id = ground (arith, find_node-matches st id silo n (find_node-UniqueAt st id silo n u))

    kept : (gone : List ℕ) → contains id gone ≡ false → survives silo gone n ≡ true
    kept gone absent = rw (same_id, absent) refl
