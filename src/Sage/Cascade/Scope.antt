-- ===== src/Sage/Cascade/Scope.antt =====
-- What the cascade may touch.
use mathlib.Core.Path.{subst}
use engrammic.Base.{
  change, ℕ, zero, suc, ◌-◌, ◌≡◌, refl, sym, ap, ◌∙◌, ◌⊎◌, inl, inr, Bool, true, Option, none, some,
  List, [], ◌∷◌, arith, ltb, Bool-cases, contains,
}
use engrammic.Graph.{Node, Store, tombstoned, is_wisdom, find_node, set_where}
use engrammic.Graph.Updates.{Keeps, find_node-set_where}
use engrammic.Sage.Cascade.{
  Progress, settle_belief, wisdom_at, tombstone_belief, mark_stale, count_active_source_facts,
  handle, each, cascade_from, cascade, max_cascade_depth, synthesis_threshold, get_dependents,
}

-- `n` with the fields that the cascade writes taken from `m`.
abbrev pub with_marks : Node → Node → Node
with_marks n m = record n {
  state = m.state;
  tombstoned_at = m.tombstoned_at;
  synthesis_state = m.synthesis_state;
}

-- How the cascade may change a node: a belief of the silo may get another synthesis state, and may
-- be tombstoned. All else of it stays.
pub record Aged (silo : ℕ) (n m : Node) : Type 0 where
  pub belief : is_wisdom n.layer ≡ true
  pub inside : n.silo ≡ silo
  pub else_same : m ≡ with_marks n m
  pub state_moves : (m.state ≡ n.state) ⊎ (m.state ≡ some tombstoned)

abbrev pub Ages : ℕ → Option Node → Option Node → Type 0
Ages silo none o = o ≡ none
Ages silo (some n) o = (m : Node) × (o ≡ some m) × ((m ≡ n) ⊎ Aged silo n m)

pub record Evolves (silo : ℕ) (st st' : Store) : Type 0 where
  pub edges_same : st'.edges ≡ st.edges
  pub nodes_age : (i s : ℕ) → Ages silo (find_node st i s) (find_node st' i s)

Ages-refl : (silo : ℕ) (o : Option Node) → Ages silo o o
Ages-refl silo none = refl
Ages-refl silo (some n) = (n, refl, inl refl)

Aged-trans : (silo : ℕ) (n m k : Node) → Aged silo n m → Aged silo m k → Aged silo n k
Aged-trans silo n m k a b = record {
  belief = a.belief;
  inside = a.inside;
  else_same = b.else_same ∙ ap (λ (x : Node). with_marks x k) a.else_same;
  state_moves = elim b.state_moves [
    | inl same ↦ elim a.state_moves [ inl also ↦ inl (same ∙ also) | inr gone ↦ inr (same ∙ gone) ]
    | inr gone ↦ inr gone
  ];
}

Ages-trans : (silo : ℕ) (o p q : Option Node) → Ages silo o p → Ages silo p q → Ages silo o q
Ages-trans silo none p q h k = subst (λ x. Ages silo x q) h k
Ages-trans silo (some n) p q (m, e, h) k =
    let k' : Ages silo (some m) q = subst (λ x. Ages silo x q) e k in (k'.0, k'.1, both h k'.2)
  where
    both : {k : Node} → (m ≡ n) ⊎ Aged silo n m → (k ≡ m) ⊎ Aged silo m k → (k ≡ n) ⊎ Aged silo n k
    both (inl p) (inl q) = inl (q ∙ p)
    both {k} (inl p) (inr b) = inr (subst (λ x. Aged silo x k) p b)
    both (inr a) (inl q) = inr (subst (Aged silo n) (sym q) a)
    both {k} (inr a) (inr b) = inr (Aged-trans silo n m k a b)

Evolves-refl : (silo : ℕ) (st : Store) → Evolves silo st st
Evolves-refl silo st = record {
  edges_same = refl;
  nodes_age = λ i s. Ages-refl silo (find_node st i s);
}

Evolves-trans :
    (silo : ℕ) (st st' st'' : Store)
    → Evolves silo st st'
    → Evolves silo st' st''
    → Evolves silo st st''
Evolves-trans silo st st' st'' a b = record {
  edges_same = b.edges_same ∙ a.edges_same;
  nodes_age = λ i s.
      Ages-trans silo (find_node st i s) (find_node st' i s) (find_node st'' i s) (a.nodes_age i s)
        (b.nodes_age i s);
}

-- A write to the belief `dep` of the silo that sets such fields only.
Ages-change :
    (g : Node → Node) (dep silo : ℕ) (o : Option Node)
    → ((n : Node) → g n ≡ with_marks n (g n))
    → ((n : Node) → ((g n).state ≡ n.state) ⊎ ((g n).state ≡ some tombstoned))
    → Ages silo o (change (wisdom_at dep silo) g o)
Ages-change g dep silo none same moves = refl
Ages-change g dep silo (some n) same moves = elim (Bool-cases (wisdom_at dep silo n)) [
  | inl hit ↦ rw hit (
    g n,
    refl,
    inr (record {
      belief = ground arith;
      inside = ground arith;
      else_same = same n;
      state_moves = moves n;
    }),
  )
  | inr miss ↦ rw miss (n, refl, inl refl)
]

Evolves-set :
    (g : Node → Node) (dep silo : ℕ) (st : Store)
    → ((n : Node) → g n ≡ with_marks n (g n))
    → ((n : Node) → ((g n).state ≡ n.state) ⊎ ((g n).state ≡ some tombstoned))
    → Keeps g
    → Evolves silo st (set_where (wisdom_at dep silo) g st)
Evolves-set g dep silo st same moves keeps = record {
  edges_same = unfold set_where in refl;
  nodes_age = λ i s.
      rw (find_node-set_where (wisdom_at dep silo) g st i s keeps)
        (Ages-change g dep silo (find_node st i s) same moves);
}

settle_belief-Evolves :
    (dep silo now : ℕ) (st : Store) → Evolves silo st (settle_belief dep silo now st)
unfolding settle_belief
settle_belief-Evolves dep silo now st =
    elim (Bool-cases (ltb (count_active_source_facts st dep silo) synthesis_threshold)) [
      | inl few ↦ rw few (
          Evolves-set (tombstone_belief now) dep silo st (λ n. refl) (λ n. inr refl)
            (λ n. (refl, refl)))
      | inr enough ↦
          rw enough
            (Evolves-set mark_stale dep silo st (λ n. refl) (λ n. inl refl) (λ n. (refl, refl)))
    ]

module _ (fails : ℕ → Bool) (silo now : ℕ) where
  abbrev Grows : (ℕ → Progress → Progress) → Type 0
  Grows recurse = (node : ℕ) (p : Progress) → Evolves silo p.store (recurse node p).store

  handle-Evolves :
      (recurse : ℕ → Progress → Progress) (dep : Node) (p : Progress)
      → Grows recurse
      → Evolves silo p.store (handle fails silo now recurse dep p).store
  unfolding handle
  handle-Evolves recurse dep p grows = elim (Bool-cases (is_wisdom dep.layer)) [
    | inl wise ↦ rw wise (elim (Bool-cases (fails dep.id)) [
      | inl bad ↦ rw bad (Evolves-refl silo p.store)
      | inr good ↦ rw good (settle_belief-Evolves dep.id silo now p.store)
    ])
    | inr other ↦ rw other (grows dep.id p)
  ]

  each-Evolves :
      (recurse : ℕ → Progress → Progress) (deps : List Node) (p : Progress)
      → Grows recurse
      → Evolves silo p.store (each fails silo now recurse deps p).store
  unfolding each
  each-Evolves recurse [] p grows = Evolves-refl silo p.store
  each-Evolves recurse (dep ∷ deps) p grows =
      Evolves-trans silo p.store (handle fails silo now recurse dep p).store _
        (handle-Evolves recurse dep p grows)
        (each-Evolves recurse deps (handle fails silo now recurse dep p) grows)

  cascade_from-Evolves : (left : ℕ) → Grows (cascade_from fails silo now left)
  unfolding cascade_from
  cascade_from-Evolves zero node p = Evolves-refl silo p.store
  cascade_from-Evolves (suc left) node p = elim (Bool-cases (contains node p.visited)) [
    | inl seen ↦ rw seen (Evolves-refl silo p.store)
    | inr new ↦ rw new (elim (Bool-cases (fails node)) [
      | inl bad ↦ rw bad (Evolves-refl silo p.store)
      | inr good ↦ rw good (
          each-Evolves (cascade_from fails silo now left) (get_dependents p.store node silo) _
            (cascade_from-Evolves left))
    ])
  ]

  -- Whatever the driver does, the cascade changes no edge, no node of another silo and no node
  -- outside the wisdom layer; a belief keeps all fields but its synthesis state, its lifecycle
  -- state and `tombstoned_at`, and its lifecycle state stays or becomes TOMBSTONED.
  pub cascade-Evolves :
      (node : ℕ) (st : Store) → Evolves silo st (cascade fails silo now node st).store
  unfolding cascade
  cascade-Evolves node st =
      each-Evolves (cascade_from fails silo now (max_cascade_depth - 1))
        (get_dependents st node silo) _ (cascade_from-Evolves (max_cascade_depth - 1))
