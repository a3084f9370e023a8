-- ===== src/Sage/Contradictions/Flagging.antt =====
-- What `detect_spo_conflict` leaves in the store for each claim that conflicts.

use engrammic.Base.{
  ℕ, ◌≡◌, refl, sym, ap, ◌∙◌, inl, inr, Bool, true, false, not, ◌&&◌, Option, some, List, [], ◌∷◌,
  ◌++◌, map, arith, ◌==◌, ==_self, Bool-cases, keep, any, All, map_where, any-map_where,
}
use engrammic.Graph.{
  Node, Store, Edge, ConflictStatus, unresolved, contradicts, link_edge, set_where, matches, joins,
}
use engrammic.Sage.Results.{conflict_detected}
use engrammic.Sage.Contradictions.{
  conflicts_with, all_given, contradicts_edge, create_bidirectional_contradicts,
  set_conflict_status, flag_conflicts, conflict_ids, detect_spo_conflict, is_one_of,
}

abbrev pub is_unresolved : Option ConflictStatus → Bool
is_unresolved (some unresolved) = true
is_unresolved s = false

abbrev pub unflagged : ℕ → ℕ → Node → Bool
unflagged id silo n = matches id silo n && not (is_unresolved n.conflict_status)

-- `new` and `existing` contradict each other in both directions, and both wait for a resolution.
pub record Flagged (st : Store) (silo new existing : ℕ) : Type 0 where
  pub forth : any (joins (link_edge contradicts) new existing) st.edges ≡ true
  pub back : any (joins (link_edge contradicts) existing new) st.edges ≡ true
  pub new_waits : any (unflagged new silo) st.nodes ≡ false
  pub existing_waits : any (unflagged existing silo) st.nodes ≡ false

abbrev Exists : Store → ℕ → ℕ → Type 0
Exists st silo id = any (matches id silo) st.nodes ≡ true

mark : Node → Node
mark n = record n { conflict_status = some unresolved }

module _ (silo new : ℕ) where
  abbrev step : ℕ → Store → Store
  step i st =
      set_conflict_status new i silo unresolved (create_bidirectional_contradicts new i silo st)

  step-Exists : (i id : ℕ) (st : Store) → Exists st silo id → Exists (step i st) silo id
  unfolding set_conflict_status create_bidirectional_contradicts set_where mark
  step-Exists i id st h =
      elim (Bool-cases (any (matches new silo) st.nodes && any (matches i silo) st.nodes)) [
        | inl yes_ ↦
            rw yes_
              (any-map_where (matches id silo) (is_one_of new i silo) mark st.nodes (λ n. refl) ∙ h)
        | inr no_ ↦
            rw no_
              (any-map_where (matches id silo) (is_one_of new i silo) mark st.nodes (λ n. refl) ∙ h)
      ]

  step_edges :
      (q : Edge → Bool) (i : ℕ) (st : Store)
      → any q st.edges ≡ true
      → any q (step i st).edges ≡ true
  unfolding set_conflict_status create_bidirectional_contradicts set_where
  step_edges q i st h = ground arith

  unflagged_kept :
      (p : Node → Bool) (id : ℕ) (ns : List Node)
      → any (unflagged id silo) ns ≡ false
      → any (unflagged id silo) (map_where p mark ns) ≡ false
  unfolding mark
  unflagged_kept p id [] h = refl
  unflagged_kept p id (n ∷ ns) h = ground (arith, unflagged_kept p id ns)

  flagged_now :
      (p : Node → Bool) (id : ℕ) (ns : List Node)
      → ((n : Node) → matches id silo n ≡ true → p n ≡ true)
      → any (unflagged id silo) (map_where p mark ns) ≡ false
  unfolding mark
  flagged_now p id [] k = refl
  flagged_now p id (n ∷ ns) k = ground (arith, k n, flagged_now p id ns k)

  step_nodes :
      (P : List Node → Type 0) (i : ℕ) (st : Store)
      → P (map_where (is_one_of new i silo) mark st.nodes)
      → P (step i st).nodes
  unfolding set_conflict_status create_bidirectional_contradicts set_where mark
  step_nodes P i st h =
      elim (Bool-cases (any (matches new silo) st.nodes && any (matches i silo) st.nodes)) [
        | inl yes_ ↦ rw yes_ h
        | inr no_ ↦ rw no_ h
      ]

  step_keeps : (i id : ℕ) (st : Store) → Flagged st silo new id → Flagged (step i st) silo new id
  step_keeps i id st f = record {
    forth = step_edges (joins (link_edge contradicts) new id) i st f.forth;
    back = step_edges (joins (link_edge contradicts) id new) i st f.back;
    new_waits =
        step_nodes (λ ns. any (unflagged new silo) ns ≡ false) i st
          (unflagged_kept (is_one_of new i silo) new st.nodes f.new_waits);
    existing_waits =
        step_nodes (λ ns. any (unflagged id silo) ns ≡ false) i st
          (unflagged_kept (is_one_of new i silo) id st.nodes f.existing_waits);
  }

  step_flags :
      (i : ℕ) (st : Store) → Exists st silo new → Exists st silo i → Flagged (step i st) silo new i
  step_flags i st en ei = record {
    forth =
        unfold set_conflict_status create_bidirectional_contradicts set_where contradicts_edge in
        rw (en, ei) (ground arith);
    back =
        unfold set_conflict_status create_bidirectional_contradicts set_where contradicts_edge in
        rw (en, ei) (ground arith);
    new_waits =
        step_nodes (λ ns. any (unflagged new silo) ns ≡ false) i st
          (flagged_now (is_one_of new i silo) new st.nodes (λ n h. ground arith));
    existing_waits =
        step_nodes (λ ns. any (unflagged i silo) ns ≡ false) i st
          (flagged_now (is_one_of new i silo) i st.nodes (λ n h. ground arith));
  }

  flag_keeps :
      (ids : List ℕ) (id : ℕ) (st : Store)
      → Flagged st silo new id
      → Flagged (flag_conflicts silo new ids st) silo new id
  unfolding flag_conflicts
  flag_keeps [] id st f = f
  flag_keeps (i ∷ is) id st f = flag_keeps is id (step i st) (step_keeps i id st f)

  all_exist :
      (i : ℕ) (ids : List ℕ) (st : Store)
      → All (Exists st silo) ids
      → All (Exists (step i st) silo) ids
  all_exist i [] st h = tt
  all_exist i (id ∷ ids) st (h, hs) = (step-Exists i id st h, all_exist i ids st hs)

  flag_all :
      (ids : List ℕ) (st : Store)
      → Exists st silo new
      → All (Exists st silo) ids
      → All (Flagged (flag_conflicts silo new ids st) silo new) ids
  unfolding flag_conflicts
  flag_all [] st en es = tt
  flag_all (i ∷ is) st en (e, es) = (
    flag_keeps is i (step i st) (step_flags i st en e),
    flag_all is (step i st) (step-Exists i new st en) (all_exist i is st es),
  )

any-has {ℓ} :
    {A : Type ℓ} (q : A → Bool) (x : A) (before after : List A)
    → q x ≡ true
    → any q (before ++ x ∷ after) ≡ true
any-has q x [] after h = ground arith
any-has q x (b ∷ before) after h = ground (arith, any-has q x before after h)

append_cons {ℓ} :
    {A : Type ℓ} (xs : List A) (y : A) (ys : List A) → (xs ++ y ∷ []) ++ ys ≡ xs ++ y ∷ ys
append_cons [] y ys = refl
append_cons (x ∷ xs) y ys = ap (λ zs. x ∷ zs) (append_cons xs y ys)

module _ (st : Store) (new : ℕ) (s p o : Option ℕ) (silo : ℕ) where
  conflicts_exist :
      (before after : List Node)
      → st.nodes ≡ before ++ after
      → All
          (Exists st silo)
          (map (λ c. c.id) (keep (λ c. conflicts_with silo s p o c && not (c.id == new)) after))
  conflicts_exist before [] e = tt
  conflicts_exist before (n ∷ ns) e =
      let rest = conflicts_exist (before ++ n ∷ []) ns (e ∙ sym (append_cons before n ns)) in
      elim (Bool-cases (conflicts_with silo s p o n && not (n.id == new))) [
        | inl yes_ ↦
            rw yes_
              (rw e (any-has (matches n.id silo) n before ns (ground (arith, ==_self n.id))), rest)
        | inr no_ ↦ rw no_ rest
      ]

  pub flags_all :
      any (matches new silo) st.nodes ≡ true
      → all_given s p o ≡ true
      → All
          (Flagged (detect_spo_conflict st new s p o silo).0 silo new)
          (map (λ c. c.id) (keep (λ c. conflicts_with silo s p o c && not (c.id == new)) st.nodes))
        × ((detect_spo_conflict st new s p o silo).1
            ≡ map (conflict_detected new) (
                map
                  (λ c. c.id)
                  (keep (λ c. conflicts_with silo s p o c && not (c.id == new)) st.nodes)))
  unfolding detect_spo_conflict conflict_ids
  flags_all en given = rw given (
    flag_all silo new (conflict_ids st new s p o silo) st en (conflicts_exist [] st.nodes refl),
    refl,
  )
