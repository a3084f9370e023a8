-- ===== src/Sage/Corroboration/Matching.antt =====
-- Exact corroboration and corroboration by similarity.
use engrammic.Base.{
  find_first-true, ℕ, zero, suc, ◌≤◌, ◌≡◌, refl, sym, ap, ◌∙◌, inl, inr, Bool, true, false, ◌&&◌,
  Option, none, some, List, [], ◌∷◌, arith, ==→eq, ==_self, Bool-cases, is_some, is_empty, keep,
  any, find_first, keep-and,
}
use engrammic.Graph.{Node, Store, is_active}
use engrammic.Sage.Promotion.{claim_at}
use engrammic.Sage.Contradictions.{is_given, all_given, same}
use engrammic.Sage.Corroboration.{
  count_distinct, counted, says_the_same, or_itself, row_or_default, check_corroboration, Triple,
  triple_of, is_whole, is_live_claim, check_semantic_corroboration,
}
use engrammic.Sage.Corroboration.Counting.{count_distinct_mono}

same-eq : (x y : Option ℕ) → same x y ≡ true → x ≡ y
same-eq none none h = absurd cc
same-eq none (some b) h = absurd cc
same-eq (some a) none h = absurd cc
same-eq (some a) (some b) h = ap some (==→eq a b h)

same_self : (x : Option ℕ) → is_given x ≡ true → same x x ≡ true
same_self none h = absurd cc
same_self (some a) h = ==_self a

is_some-given : (x : Option ℕ) → is_given x ≡ true → is_some x ≡ true
is_some-given none h = absurd cc
is_some-given (some a) h = refl

find_first-any :
    (q p : Node → Bool) (n : Node) (ns : List Node)
    → find_first q ns ≡ some n
    → p n ≡ true
    → any p ns ≡ true
find_first-any q p n [] e h = cc
find_first-any q p n (m ∷ ms) e h = elim (Bool-cases (q m)) [
  | inl yes_ ↦ let eq_ : m ≡ n = ground arith in rw eq_ (rw h refl)
  | inr no_ ↦ ground (arith, find_first-any q p n ms)
]

or_itself-keep :
    (q : Node → Bool) (new : Node) (ns : List Node)
    → any q ns ≡ true
    → or_itself new (keep q ns) ≡ keep q ns
or_itself-keep q new [] h = cc
or_itself-keep q new (n ∷ ns) h = elim (Bool-cases (q n)) [
  | inl yes_ ↦ rw yes_ refl
  | inr no_ ↦ rw no_ (or_itself-keep q new ns (ground arith))
]

is_empty-keep : (q : Node → Bool) (ns : List Node) → any q ns ≡ true → is_empty (keep q ns) ≡ false
is_empty-keep q [] h = cc
is_empty-keep q (n ∷ ns) h = elim (Bool-cases (q n)) [
  | inl yes_ ↦ rw yes_ refl
  | inr no_ ↦ rw no_ (is_empty-keep q ns (ground arith))
]

row_reaches :
    (threshold count more : ℕ)
    → count ≤ more
    → (row_or_default threshold count).1 ≡ true
    → (counted threshold more).1 ≡ true
row_reaches threshold zero more le h = absurd cc
row_reaches threshold (suc n) more le h = ground arith

module _ (triple_close : Triple → Triple → Bool) (content_close : List ℕ → List ℕ → Bool)
    (close_self : (t : Triple) → triple_close t t ≡ true) where
  close-same :
      (silo : ℕ) (new c : Node)
      → says_the_same silo new c ≡ true
      → triple_close (triple_of new) (triple_of c) ≡ true
  close-same silo new c h =
      let s = same-eq c.subject new.subject (ground arith) in
      let p = same-eq c.predicate new.predicate (ground arith) in
      let o = same-eq c.object new.object (ground arith) in
      rw (s, p, o) (close_self (triple_of new))

  whole-same :
      (silo : ℕ) (new c : Node)
      → all_given new.subject new.predicate new.object ≡ true
      → says_the_same silo new c ≡ true
      → (is_live_claim silo c && is_whole c) ≡ true
  whole-same silo new c given h =
      let s = same-eq c.subject new.subject (ground arith) in
      let p = same-eq c.predicate new.predicate (ground arith) in
      let o = same-eq c.object new.object (ground arith) in
      let s' = is_some-given new.subject (ground arith) in
      let p' = is_some-given new.predicate (ground arith) in
      let o' = is_some-given new.object (ground arith) in rw (s, p, o, s', p', o') (ground arith)

  -- If a triple comes close to itself, then an active claim of the store whose triple is given and
  -- that reaches a threshold of promotion by exact matches also reaches it by similarity.
  pub check_semantic_corroboration_covers :
      (st : Store) (id silo threshold : ℕ) (new : Node)
      → find_first (claim_at id silo) st.nodes ≡ some new
      → is_active new.state ≡ true
      → all_given new.subject new.predicate new.object ≡ true
      → (check_corroboration st id silo threshold).1 ≡ true
      → (check_semantic_corroboration triple_close content_close st id silo threshold).1 ≡ true
  unfolding check_corroboration check_semantic_corroboration
  check_semantic_corroboration_covers st id silo threshold new found live given exact =
      let same_ = says_the_same silo new in
      let cand : (Node → Bool) = λ c. is_live_claim silo c && is_whole c in
      let near : (Node → Bool) = λ c. triple_close (triple_of new) (triple_of c) in
      let own = find_first-any (claim_at id silo) same_ new st.nodes found own_same in
      let own_cand =
        find_first-any (claim_at id silo) cand new st.nodes found
          (whole-same silo new new given own_same) in
      let le =
        count_distinct_mono same_ (λ c. cand c && near c) st.nodes
          (λ c h. rw (whole-same silo new c given h, close-same silo new c h) refl) in
      row_reaches_found own own_cand le
    where
      own_same : says_the_same silo new new ≡ true
      own_same =
          let matched = find_first-true (claim_at id silo) new st.nodes found in
          let s = same_self new.subject (ground arith) in
          let p = same_self new.predicate (ground arith) in
          let o = same_self new.object (ground arith) in rw (s, p, o, live) (ground arith)

      row_reaches_found :
          any (says_the_same silo new) st.nodes ≡ true
          → any (λ c. is_live_claim silo c && is_whole c) st.nodes ≡ true
          → count_distinct (keep (says_the_same silo new) st.nodes)
            ≤ count_distinct (
                keep
                  (λ c.
                    (is_live_claim silo c && is_whole c)
                    && triple_close (triple_of new) (triple_of c))
                  st.nodes)
          → (check_semantic_corroboration triple_close content_close st id silo threshold).1 ≡ true
      row_reaches_found own own_cand le =
          rw (found, given, check_semantic_corroboration)
            (rw
              (
                is_empty-keep (λ c. is_live_claim silo c && is_whole c) st.nodes own_cand,
                sym (
                    keep-and (λ c. is_live_claim silo c && is_whole c)
                      (λ c. triple_close (triple_of new) (triple_of c)) st.nodes),
              )
              (row_reaches threshold _ _ le (sym exact_row ∙ exact)))
        where
          exact_row :
              (check_corroboration st id silo threshold).1
              ≡ (row_or_default threshold
                  (count_distinct (keep (says_the_same silo new) st.nodes))).1
          exact_row =
              rw (found, check_corroboration)
                (rw (or_itself-keep (says_the_same silo new) new st.nodes own) refl)
