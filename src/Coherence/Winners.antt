-- ===== src/Coherence/Winners.antt =====
-- Results that nothing dominates.
use mathlib.Core.List.{Memᴰ}
use mathlib.Core.List.Memᴰ
use mathlib.Core.Path.{subst}
use engrammic.Base.{
  ℕ, ◌≡◌, refl, sym, ap, ◌∙◌, inl, inr, Bool, true, false, none, some, List, [], ◌∷◌, arith, ◌==◌,
  ==→eq, Bool-cases, Option-cases, keep, contains,
}
use engrammic.Coherence.Settling.{filter_dominated_contradictions_lem}
use engrammic.Coherence.{
  Hit, Table, dominates, get, put, fill, by_id, compare_pair, compare_others, compare_all,
  dominated_ids, filter_dominated_contradictions, stays,
}

module _ (t : Table) (x : ℕ) (best : Hit) (found : get x t ≡ some best)
    (undominated : (k : ℕ) (r : Hit) → get k t ≡ some r → dominates r best ≡ false) where
  get_at : (k : ℕ) (r : Hit) → get k t ≡ some r → (x == k) ≡ true → r ≡ best
  get_at k r there self =
      let same : get k t ≡ some best = subst (λ y. get y t ≡ some best) (==→eq x k self) found in
      ground arith

  compare_pair-spares :
      (i o : ℕ) (a : Hit) (d : List ℕ)
      → get i t ≡ some a
      → contains x d ≡ false
      → contains x (compare_pair t i a o d) ≡ false
  unfolding compare_pair
  compare_pair-spares i o a d here h = elim (Option-cases (get o t)) [
    | inl missing ↦ rw (compare_pair, missing) h
    | inr (other, there) ↦
        let safe : dominates a best ≡ false = undominated i a here in
        let safe_too : dominates other best ≡ false = undominated o other there in
        ground (arith, get_at o other there, get_at i a here)
  ]

  compare_others-spares :
      (i : ℕ) (a : Hit) (os d : List ℕ)
      → get i t ≡ some a
      → contains x d ≡ false
      → contains x (compare_others t i a os d) ≡ false
  unfolding compare_others
  compare_others-spares i a [] d here h = h
  compare_others-spares i a (o ∷ os) d here h =
      compare_others-spares i a os (compare_pair t i a o d) here
        (compare_pair-spares i o a d here h)

  compare_all-spares :
      (rest : Table) (d : List ℕ)
      → ((k : ℕ) (r : Hit) → Memᴰ (k, r) rest → get k t ≡ some r)
      → contains x d ≡ false
      → contains x (compare_all t rest d) ≡ false
  unfolding compare_all
  compare_all-spares [] d in_table h = h
  compare_all-spares ((i, a) ∷ rest) d in_table h =
      compare_all-spares rest (compare_others t i a a.contradicts d)
        (λ k r m. in_table k r (Memᴰ.tail m))
        (compare_others-spares i a a.contradicts d (in_table i a (Memᴰ.head refl)) h)

mem-keep : (p : Hit → Bool) (r : Hit) (rs : List Hit) → Memᴰ r rs → p r ≡ true → Memᴰ r (keep p rs)
mem-keep p r [] m h = m
mem-keep p r (x ∷ rs) m h = elim (Memᴰ.cases_cons m) [
  | inl same ↦ rw (subst (λ y. p y ≡ true) same h) (Memᴰ.head same)
  | inr later ↦ elim (Bool-cases (p x)) [
    | inl yes_ ↦ rw yes_ (Memᴰ.tail (mem-keep p r rs later h))
    | inr not_ ↦ rw not_ (mem-keep p r rs later h)
  ]
]

-- Every key once.
abbrev IsTable : Table → Type 0
IsTable [] = Unit {0}
IsTable ((k, v) ∷ t) = (get k t ≡ none) × IsTable t

get-put_other : (id k : ℕ) (r : Hit) (t : Table) → (id == k) ≡ false → get k (put id r t) ≡ get k t
unfolding get put
get-put_other id k r [] away = ground arith
get-put_other id k r ((n, v) ∷ t) away = ground (arith, get-put_other id k r t away)

put-IsTable : (id : ℕ) (r : Hit) (t : Table) → IsTable t → IsTable (put id r t)
unfolding put
put-IsTable id r [] v = (unfold get in refl, tt)
put-IsTable id r ((k, w) ∷ t) (fresh, rest) = elim (Bool-cases (k == id)) [
  | inl here ↦ rw here (fresh, rest)
  | inr away ↦ rw away (get-put_other id k r t (ground arith) ∙ fresh, put-IsTable id r t rest)
]

fill-IsTable : (rs : List Hit) (t : Table) → IsTable t → IsTable (fill rs t)
unfolding fill
fill-IsTable [] t v = v
fill-IsTable (r ∷ rs) t v = elim (Option-cases r.node_id) [
  | inl missing ↦ rw missing (fill-IsTable rs t v)
  | inr (id, given) ↦ rw given (fill-IsTable rs (put id r t) (put-IsTable id r t v))
]

get_of_mem : (t : Table) (k : ℕ) (r : Hit) → IsTable t → Memᴰ (k, r) t → get k t ≡ some r
unfolding get
get_of_mem [] k r v m = absurd (Memᴰ.not-nil m)
get_of_mem ((n, w) ∷ t) k r (fresh, rest) m = elim (Memᴰ.cases_cons m) [
  | inl same ↦
      let key : k ≡ n = ap (λ (e : ℕ × Hit). e.0) same in
      let val : r ≡ w = ap (λ (e : ℕ × Hit). e.1) same in ground arith
  | inr later ↦
      let there : get k t ≡ some r = get_of_mem t k r rest later in
      elim (Bool-cases (n == k)) [
        | inl clash ↦
            let gone : get k t ≡ none = subst (λ y. get y t ≡ none) (==→eq n k clash) fresh in
            absurd (ground arith)
        | inr away ↦ rw away there
      ]
]

-- A result that is the last with its identifier and that no result dominates is kept, whatever it
-- contradicts and whatever contradicts it.
pub filter_keeps_best :
    (rs : List Hit) (x : ℕ) (best : Hit)
    → Memᴰ best rs
    → best.node_id ≡ some x
    → get x (by_id rs) ≡ some best
    → ((k : ℕ) (r : Hit) → get k (by_id rs) ≡ some r → dominates r best ≡ false)
    → Memᴰ best (filter_dominated_contradictions rs).0
unfolding by_id dominated_ids
filter_keeps_best rs x best mem named found undominated =
    subst (Memᴰ best) (sym (filter_dominated_contradictions_lem rs))
      (mem-keep (stays (dominated_ids rs)) best rs mem (ground (arith, spared)))
  where
    spared : contains x (compare_all (by_id rs) (by_id rs) []) ≡ false
    spared =
        compare_all-spares (by_id rs) x best found undominated (by_id rs) []
          (λ k r m. get_of_mem (by_id rs) k r (fill-IsTable rs [] tt) m) refl
