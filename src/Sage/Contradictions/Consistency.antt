-- ===== src/Sage/Contradictions/Consistency.antt =====
-- Silos in which no two active claims contradict each other, and the writes that keep them so.
use engrammic.Base.{
  ℕ, ◌≡◌, refl, inl, inr, Bool, false, ◌&&◌, Option, none, some, List, [], ◌∷◌, arith, ◌==◌,
  if◌then◌else◌, Bool-cases, any, All, map_where,
}
use engrammic.Graph.{Node, Store, ConflictStatus, unresolved, is_active, set_where, matches}
use engrammic.Sage.Contradictions.{
  same, differs, conflicts_with, set_conflict_status, create_bidirectional_contradicts,
  flag_conflicts, is_one_of,
}

abbrev pub is_active_claim : ℕ → Node → Bool
is_active_claim silo n = (n.is_claim && n.silo == silo) && is_active n.state

-- Two active claims of the silo with one subject and predicate and different objects.
abbrev pub clash : ℕ → Node → Node → Bool
clash silo a b = is_active_claim silo a && conflicts_with silo a.subject a.predicate a.object b

abbrev pub ClearOf : ℕ → Node → List Node → Type 0
ClearOf silo a ns = All (λ b. clash silo a b ≡ false) ns

-- INV1: no two active claims of the silo contradict each other.
abbrev pub IsConsistent : ℕ → List Node → Type 0
IsConsistent silo ns = All (λ a. ClearOf silo a ns) ns

pub All-map {ℓ κ κ'} :
    {A : Type ℓ} (P : A → Type κ) (Q : A → Type κ') (xs : List A)
    → ((x : A) → P x → Q x)
    → All P xs
    → All Q xs
All-map P Q [] f a = tt
All-map P Q (x ∷ xs) f (p, ps) = (f x p, All-map P Q xs f ps)

same_sym : (x y : Option ℕ) → same x y ≡ same y x
same_sym none none = refl
same_sym none (some b) = refl
same_sym (some a) none = refl
same_sym (some a) (some b) = ground arith

differs_sym : (x y : Option ℕ) → differs x y ≡ differs y x
differs_sym none none = refl
differs_sym none (some b) = refl
differs_sym (some a) none = refl
differs_sym (some a) (some b) = ground arith

differs_self : (x : Option ℕ) → differs x x ≡ false
differs_self none = refl
differs_self (some a) = ground arith

clash_self : (silo : ℕ) (a : Node) → clash silo a a ≡ false
clash_self silo a = ground (arith, differs_self a.object)

clash_sym : (silo : ℕ) (a b : Node) → clash silo a b ≡ false → clash silo b a ≡ false
clash_sym silo a b h = ground (
  arith,
  same_sym a.subject b.subject,
  same_sym a.predicate b.predicate,
  differs_sym a.object b.object,
)

-- A node that clashes with no other may be added.
pub cons-IsConsistent :
    (silo : ℕ) (new : Node) (ns : List Node)
    → ClearOf silo new ns
    → IsConsistent silo ns
    → IsConsistent silo (new ∷ ns)
cons-IsConsistent silo new ns clear ok_ = ((clash_self silo new, clear), both ns ns clear ok_)
  where
    both :
        (as_ ms : List Node)
        → ClearOf silo new as_
        → All (λ a. ClearOf silo a ms) as_
        → All (λ a. ClearOf silo a (new ∷ ms)) as_
    both [] ms c k = tt
    both (a ∷ as_) ms (c, cs) (k, ks) = ((clash_sym silo new a c, k), both as_ ms cs ks)

-- A change that keeps what a claim says and does not make it active.
abbrev pub Calms : (Node → Node) → Type 0
Calms g =
    (silo : ℕ) (n m : Node)
    → (clash silo n m ≡ false → clash silo (g n) m ≡ false)
      × (clash silo n m ≡ false → clash silo n (g m) ≡ false)

module _ (silo : ℕ) (p : Node → Bool) (g : Node → Node) (calm : Calms g) where
  clear-map_where :
      (a : Node) (ns : List Node) → ClearOf silo a ns → ClearOf silo a (map_where p g ns)
  clear-map_where a [] c = tt
  clear-map_where a (n ∷ ns) (c, cs) = (
    elim (Bool-cases (p n)) [ inl yes_ ↦ rw yes_ ((calm silo a n).1 c) | inr no_ ↦ rw no_ c ],
    clear-map_where a ns cs,
  )

  clear-changed :
      (a : Node) (ns : List Node) → ClearOf silo a ns → ClearOf silo (if p a then g a else a) ns
  clear-changed a ns c = elim (Bool-cases (p a)) [
    | inl yes_ ↦ rw yes_ (
        All-map (λ b. clash silo a b ≡ false) (λ b. clash silo (g a) b ≡ false) ns
          (λ b. (calm silo a b).0) c)
    | inr no_ ↦ rw no_ c
  ]

  -- A `SET` of a calm change keeps a silo consistent.
  pub map_where-IsConsistent :
      (ns : List Node) → IsConsistent silo ns → IsConsistent silo (map_where p g ns)
  map_where-IsConsistent ns ok_ = outer ns ok_
    where
      outer :
          (ms : List Node)
          → All (λ a. ClearOf silo a ns) ms
          → All (λ a. ClearOf silo a (map_where p g ns)) (map_where p g ms)
      outer [] k = tt
      outer (m ∷ ms) (k, ks) =
          (clear-changed m (map_where p g ns) (clear-map_where m ns k), outer ms ks)

status-Calms : (status : ConflictStatus) → Calms (λ n. record n { conflict_status = some status })
status-Calms status silo n m = (λ h. h, λ h. h)

-- Flagging conflicts changes no claim's text and makes none active.
pub flag_conflicts-IsConsistent :
    (silo kind new : ℕ) (ids : List ℕ) (st : Store)
    → IsConsistent kind st.nodes
    → IsConsistent kind (flag_conflicts silo new ids st).nodes
unfolding flag_conflicts set_conflict_status set_where create_bidirectional_contradicts
flag_conflicts-IsConsistent silo kind new [] st ok_ = ok_
flag_conflicts-IsConsistent silo kind new (i ∷ is) st ok_ =
    flag_conflicts-IsConsistent silo kind new is _
      (elim (Bool-cases (any (matches new silo) st.nodes && any (matches i silo) st.nodes)) [
        | inl yes_ ↦ rw yes_ marked
        | inr no_ ↦ rw no_ marked
      ])
  where
    marked : IsConsistent kind (
        map_where
          (is_one_of new i silo)
          (λ n. record n { conflict_status = some unresolved })
          st.nodes)
    marked =
        map_where-IsConsistent kind (is_one_of new i silo) _ (status-Calms unresolved) st.nodes ok_
