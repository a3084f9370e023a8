-- ===== src/Coherence/Settling.antt =====
-- What the filter leaves.
use mathlib.Core.List.{Memᴰ}
use mathlib.Core.List.Memᴰ
use mathlib.Core.Path.{subst}
use engrammic.Base.{
  ℕ, ◌≡◌, refl, sym, ap, ◌∙◌, ◌⊎◌, inl, inr, Bool, true, false, some, List, [], ◌∷◌, arith, ◌==◌,
  ==→eq, Bool-cases, keep, contains,
}
use engrammic.Coherence.{
  Hit, Table, dominates, get, by_id, compare_pair, compare_others, compare_all, dominated_ids,
  stays, filter_dominated_contradictions,
}

module _ (t : Table) (x : ℕ) where
  -- The set of dominated identifiers only grows.
  compare_pair_mono :
      (i o : ℕ) (a : Hit) (d : List ℕ)
      → contains x (compare_pair t i a o d) ≡ false
      → contains x d ≡ false
  unfolding compare_pair
  compare_pair_mono i o a d h = ground arith

  compare_others_mono :
      (i : ℕ) (a : Hit) (os d : List ℕ)
      → contains x (compare_others t i a os d) ≡ false
      → contains x d ≡ false
  unfolding compare_others
  compare_others_mono i a [] d h = h
  compare_others_mono i a (o ∷ os) d h =
      compare_pair_mono i o a d (compare_others_mono i a os (compare_pair t i a o d) h)

  compare_all_mono :
      (rest : Table) (d : List ℕ) → contains x (compare_all t rest d) ≡ false → contains x d ≡ false
  unfolding compare_all
  compare_all_mono [] d h = h
  compare_all_mono ((i, a) ∷ rest) d h =
      compare_others_mono i a a.contradicts d (compare_all_mono rest _ h)

-- Neither dominates the other.
abbrev pub IsTie : Hit → Hit → Type 0
IsTie a b = (dominates a b ≡ false) × (dominates b a ≡ false)

module _ (t : Table) (i j : ℕ) (a b : Hit) (there : get j t ≡ some b) where
  compare_pair_settles :
      (d : List ℕ)
      → contains i (compare_pair t i a j d) ≡ false
      → contains j (compare_pair t i a j d) ≡ false
      → IsTie a b
  unfolding compare_pair
  compare_pair_settles d hi hj = (ground arith, ground arith)

  compare_others_settles :
      (os d : List ℕ)
      → contains j os ≡ true
      → contains i (compare_others t i a os d) ≡ false
      → contains j (compare_others t i a os d) ≡ false
      → IsTie a b
  unfolding compare_others
  compare_others_settles [] d m hi hj = cc
  compare_others_settles (o ∷ os) d m hi hj = elim (Bool-cases (j == o)) [
    | inl here ↦
        compare_pair_settles d
          (subst (λ y. contains i (compare_pair t i a y d) ≡ false) (sym (==→eq j o here))
            (compare_others_mono t i i a os _ hi))
          (subst (λ y. contains j (compare_pair t i a y d) ≡ false) (sym (==→eq j o here))
            (compare_others_mono t j i a os _ hj))
    | inr away ↦ compare_others_settles os (compare_pair t i a o d) (ground arith) hi hj
  ]

  same_entry :
      (x n : ℕ) (v : Hit) (d : List ℕ)
      → n ≡ i
      → v ≡ a
      → contains x (compare_others t n v v.contradicts d) ≡ false
      → contains x (compare_others t i a a.contradicts d) ≡ false
  same_entry x n v d en ev h =
      subst (λ w. contains x (compare_others t i w w.contradicts d) ≡ false) ev
        (subst (λ k. contains x (compare_others t k v v.contradicts d) ≡ false) en h)

  compare_all_settles :
      (rest : Table) (d : List ℕ)
      → get i rest ≡ some a
      → contains j a.contradicts ≡ true
      → contains i (compare_all t rest d) ≡ false
      → contains j (compare_all t rest d) ≡ false
      → IsTie a b
  unfolding compare_all get
  compare_all_settles [] d m k hi hj = cc
  compare_all_settles ((n, v) ∷ rest) d m k hi hj = elim (Bool-cases (n == i)) [
    | inl here ↦
        compare_others_settles a.contradicts d k
          (same_entry i n v d (==→eq n i here) (ground arith) (compare_all_mono t i rest _ hi))
          (same_entry j n v d (==→eq n i here) (ground arith) (compare_all_mono t j rest _ hj))
    | inr away ↦
        compare_all_settles rest (compare_others t n v v.contradicts d) (ground arith) k hi hj
  ]

keep-stays_nil : (rs : List Hit) → keep (stays []) rs ≡ rs
keep-stays_nil [] = refl
keep-stays_nil (r ∷ rs) = ground (arith, keep-stays_nil rs)

List-cases {ℓ} : {A : Type ℓ} (l : List A) → (l ≡ []) ⊎ ((x : A) × (xs : List A) × (l ≡ x ∷ xs))
List-cases [] = inl refl
List-cases (x ∷ xs) = inr (x, xs, refl)

-- The filter keeps the results that were not found dominated.
pub filter_dominated_contradictions_lem :
    (rs : List Hit) → (filter_dominated_contradictions rs).0 ≡ keep (stays (dominated_ids rs)) rs
unfolding filter_dominated_contradictions
filter_dominated_contradictions_lem [] = refl
filter_dominated_contradictions_lem (r ∷ rs) = elim (List-cases (dominated_ids (r ∷ rs))) [
  | inl none_ ↦
      let same : (filter_dominated_contradictions (r ∷ rs)).0 ≡ r ∷ rs =
        rw (filter_dominated_contradictions, none_) refl in
      same
      ∙ sym (subst (λ d. keep (stays d) (r ∷ rs) ≡ r ∷ rs) (sym none_) (keep-stays_nil (r ∷ rs)))
  | inr (d, ds, some_) ↦
      let same : (filter_dominated_contradictions (r ∷ rs)).0 ≡ keep (stays (d ∷ ds)) (r ∷ rs) =
        rw (filter_dominated_contradictions, some_) refl in
      same ∙ sym (ap (λ (e : List ℕ). keep (stays e) (r ∷ rs)) some_)
]

keep-mem : (p : Hit → Bool) (r : Hit) (rs : List Hit) → Memᴰ r (keep p rs) → p r ≡ true
keep-mem p r [] m = absurd (Memᴰ.not-nil m)
keep-mem p r (x ∷ rs) m = elim (Bool-cases (p x)) [
  | inl yes_ ↦ elim (Memᴰ.cases_cons (subst (Memᴰ r) (rw yes_ refl) m)) [
    | inl same ↦ rw same yes_
    | inr rest ↦ keep-mem p r rs rest
  ]
  | inr not_ ↦ keep-mem p r rs (subst (Memᴰ r) (rw not_ refl) m)
]

kept-contains :
    (rs : List Hit) (c : Hit) (n : ℕ)
    → Memᴰ c (filter_dominated_contradictions rs).0
    → c.node_id ≡ some n
    → contains n (compare_all (by_id rs) (by_id rs) []) ≡ false
unfolding dominated_ids
kept-contains rs c n m e =
    let stayed : stays (dominated_ids rs) c ≡ true =
      keep-mem (stays (dominated_ids rs)) c rs
        (subst (Memᴰ c) (filter_dominated_contradictions_lem rs) m) in
    ground arith

-- Two results that are kept, of which one contradicts the other, and each the last with its
-- identifier, tie: neither dominates the other.
pub filter-IsTie :
    (rs : List Hit) (a b : Hit) (i j : ℕ)
    → Memᴰ a (filter_dominated_contradictions rs).0
    → Memᴰ b (filter_dominated_contradictions rs).0
    → a.node_id ≡ some i
    → b.node_id ≡ some j
    → get i (by_id rs) ≡ some a
    → get j (by_id rs) ≡ some b
    → contains j a.contradicts ≡ true
    → IsTie a b
filter-IsTie rs a b i j ma mb ia jb ga gb k =
    compare_all_settles (by_id rs) i j a b gb (by_id rs) [] ga k (kept-contains rs a i ma ia)
      (kept-contains rs b j mb jb)
