-- ===== src/Retention/Deleting/Erased.antt =====
-- What a hard delete does and what it reports.
use mathlib.Core.List.{append_assoc}
use engrammic.Base.{
  ℕ, ◌≡◌, refl, sym, ap, ◌∙◌, inl, inr, Bool, not, ◌&&◌, Option, List, [], ◌∷◌, ◌++◌, arith, ◌==◌,
  if◌then◌else◌, Bool-cases, is_empty, keep, contains,
}
use engrammic.Vectors.{Attempts, DeadLetter}
use engrammic.Retention.{Item, Vault, keyed}
use engrammic.Retention.Deleting.{
  hard_delete_query, hard_delete_node, hard_delete_nodes, gather, Erasure, completed, failed,
  status_of, erase_one, erase_each, erase,
}

-- The items that are left when these identifiers of the silo are gone.
abbrev pub without : ℕ → List ℕ → Item → Bool
without silo ids n = not ((n.silo == silo) && contains n.id ids)

without_once :
    (silo id : ℕ) (ids : List ℕ) (ns : List Item)
    → keep (without silo ids) (keep (λ n. not (keyed id silo n)) ns)
      ≡ keep (without silo (id ∷ ids)) ns
without_once silo id ids [] = refl
without_once silo id ids (n ∷ ns) = ground (arith, without_once silo id ids ns)

without_none : (silo : ℕ) (ns : List Item) → keep (without silo []) ns ≡ ns
without_none silo [] = refl
without_none silo (n ∷ ns) = ground (arith, without_none silo ns)

append-nil_right : (xs : List ℕ) → xs ++ [] ≡ xs
append-nil_right [] = refl
append-nil_right (x ∷ xs) = ap (◌∷◌ x) (append-nil_right xs)

module _ (is_uuid : ℕ → Bool) (vectors : Option (ℕ → Attempts)) (silo : ℕ) where
  -- A batch deletion removes every node of the silo with one of the identifiers, but counts none as
  -- deleted, and leaves the dead-letter queue as it is.
  pub hard_delete_nodes_uncounted :
      (ids : List ℕ) (v : Vault) (queue : List DeadLetter)
      → let r = hard_delete_nodes is_uuid vectors silo ids (v, queue) in
        (r.0.0.items ≡ keep (without silo ids) v.items) × (r.0.1 ≡ queue) × (r.1 ≡ 0)
  unfolding hard_delete_nodes hard_delete_node hard_delete_query
  hard_delete_nodes_uncounted [] v queue = (sym (without_none silo v.items), refl, refl)
  hard_delete_nodes_uncounted (id ∷ ids) v queue =
      let (gone, same, count) =
        hard_delete_nodes_uncounted ids (hard_delete_query id silo v).0 queue in
      (gone ∙ without_once silo id ids v.items, same, count)

status_of_failures :
    (failures : List ℕ) → status_of [] failures ≡ (if is_empty failures then completed else failed)
status_of_failures [] = refl
status_of_failures (f ∷ failures) = refl

abbrev pub tried : (ℕ → Bool) → List ℕ → List ℕ
tried fails ids = keep (λ id. not (fails id)) ids

-- The identifiers that an erasure concerns: those passed and, in a cascade, what refers to them.
abbrev pub targets : ℕ → List ℕ → Bool → Vault → List ℕ
targets silo node_ids cascade v =
    (if cascade then gather v silo node_ids (node_ids, 0) else (node_ids, 0)).0

module _ (fails is_uuid : ℕ → Bool) (vectors : Option (ℕ → Attempts)) (silo : ℕ) where
  erase_each_lem :
      (ids : List ℕ) (e : Erasure)
      → let r = erase_each fails is_uuid vectors silo ids e in
        (r.vault.items ≡ keep (without silo (tried fails ids)) e.vault.items)
        × (r.dead_letters ≡ e.dead_letters)
        × (r.erased_ids ≡ e.erased_ids)
        × (r.failed_ids ≡ e.failed_ids ++ ids)
  unfolding erase_each erase_one hard_delete_node hard_delete_query
  erase_each_lem [] e =
      (sym (without_none silo e.vault.items), refl, refl, sym (append-nil_right e.failed_ids))
  erase_each_lem (id ∷ ids) e = elim (Bool-cases (fails id)) [
    | inl broken ↦
        let e' : Erasure = record e { failed_ids = e.failed_ids ++ id ∷ [] } in
        let (gone, same, none_, all) = erase_each_lem ids e' in
        let one : erase_one fails is_uuid vectors silo id e ≡ e' = rw (erase_one, broken) refl in
        let on = ap (erase_each fails is_uuid vectors silo ids) one in
        (
          ap (λ (r : Erasure). r.vault.items) on ∙ gone ∙ rw broken refl,
          ap (λ (r : Erasure). r.dead_letters) on ∙ same,
          ap (λ (r : Erasure). r.erased_ids) on ∙ none_,
          ap (λ (r : Erasure). r.failed_ids) on ∙ all ∙ append_assoc e.failed_ids (id ∷ []) ids,
        )
    | inr works ↦
        let e' : Erasure = record e {
          vault = (hard_delete_query id silo e.vault).0;
          failed_ids = e.failed_ids ++ id ∷ [];
        } in
        let (gone, same, none_, all) = erase_each_lem ids e' in
        let one : erase_one fails is_uuid vectors silo id e ≡ e' = rw (erase_one, works) refl in
        let on = ap (erase_each fails is_uuid vectors silo ids) one in
        (
          ap (λ (r : Erasure). r.vault.items) on
              ∙ gone
              ∙ without_once silo id (tried fails ids) e.vault.items
              ∙ rw works refl,
          ap (λ (r : Erasure). r.dead_letters) on ∙ same,
          ap (λ (r : Erasure). r.erased_ids) on ∙ none_,
          ap (λ (r : Erasure). r.failed_ids) on ∙ all ∙ append_assoc e.failed_ids (id ∷ []) ids,
        )
  ]

  -- An erasure removes from the silo every target for which the driver does not fail, but reports
  -- each target as failed and none as erased, and leaves the dead-letter queue of the vectors alone.
  -- Its status is `completed` only where there is nothing to erase, and `failed` otherwise.
  pub erase_reports_failure :
      (node_ids : List ℕ) (cascade : Bool) (v : Vault) (queue : List DeadLetter)
      → let r = erase fails is_uuid vectors silo node_ids cascade v queue in
        let all = targets silo node_ids cascade v in
        (r.0.vault.items ≡ keep (without silo (tried fails all)) v.items)
        × (r.0.dead_letters ≡ queue)
        × (r.0.erased_ids ≡ [])
        × (r.0.failed_ids ≡ all)
        × (r.1 ≡ (if is_empty all then completed else failed))
  unfolding erase
  erase_reports_failure node_ids cascade v queue =
      let all = targets silo node_ids cascade v in
      let (gone, same, none_, failures) =
        erase_each_lem all
          (record { vault = v; dead_letters = queue; erased_ids = []; failed_ids = [] }) in
      (gone, same, none_, failures, rw (none_, failures) (status_of_failures all))
