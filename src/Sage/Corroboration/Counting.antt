-- ===== src/Sage/Corroboration/Counting.antt =====
-- Counting distinct references: more references never count less.
use mathlib.Core.Path.{subst}
use engrammic.Base.{
  ◌+◌, ◌≤◌, ◌≡◌, refl, sym, ap, ◌∙◌, inl, inr, Bool, true, false, not, ◌||◌, List, [], ◌∷◌, ◌++◌,
  arith, if◌then◌else◌, ==→eq, ==_self, Bool-cases, length, keep,
}
use engrammic.Graph.{Node, EvidenceRef, node_ref, uri}
use engrammic.Sage.Corroboration.{same_ref, has_ref, distinct, all_evidence, count_distinct}

same_ref_self : (r : EvidenceRef) → same_ref r r ≡ true
same_ref_self (node_ref a) = ==_self a
same_ref_self (uri a) = ==_self a

same_ref-eq : (r t : EvidenceRef) → same_ref r t ≡ true → r ≡ t
same_ref-eq (node_ref a) (node_ref b) h = ap node_ref (==→eq a b h)
same_ref-eq (uri a) (uri b) h = ap uri (==→eq a b h)
same_ref-eq (node_ref a) (uri b) h = absurd cc
same_ref-eq (uri a) (node_ref b) h = absurd cc

has_ref-append :
    (r : EvidenceRef) (xs ys : List EvidenceRef)
    → has_ref r (xs ++ ys) ≡ (has_ref r xs || has_ref r ys)
has_ref-append r [] ys = refl
has_ref-append r (x ∷ xs) ys = ground (arith, has_ref-append r xs ys)

has_ref-same :
    (r t : EvidenceRef) (xs : List EvidenceRef) → same_ref r t ≡ true → has_ref r xs ≡ has_ref t xs
has_ref-same r t xs h = ap (λ a. has_ref a xs) (same_ref-eq r t h)

has_ref-distinct :
    (r : EvidenceRef) (xs : List EvidenceRef) → has_ref r (distinct xs) ≡ has_ref r xs
has_ref-distinct r [] = refl
has_ref-distinct r (x ∷ xs) = elim (Bool-cases (has_ref x (distinct xs))) [
  | inl old ↦ rw old (elim (Bool-cases (same_ref r x)) [
    | inl same_ ↦ rw same_ (has_ref-same r x (distinct xs) same_ ∙ old)
    | inr other ↦ rw other (has_ref-distinct r xs)
  ])
  | inr new_ ↦ rw new_ (ap (λ b. same_ref r x || b) (has_ref-distinct r xs))
]

abbrev without : EvidenceRef → List EvidenceRef → List EvidenceRef
without r xs = keep (λ t. not (same_ref r t)) xs

has_ref-without :
    (r t : EvidenceRef) (xs : List EvidenceRef)
    → same_ref r t ≡ false
    → has_ref t (without r xs) ≡ has_ref t xs
has_ref-without r t [] h = refl
has_ref-without r t (x ∷ xs) h = elim (Bool-cases (same_ref r x)) [
  | inl same_ ↦ rw same_ (elim (Bool-cases (same_ref t x)) [
    | inl both ↦ absurd (
        let eq_ : r ≡ t = same_ref-eq r x same_ ∙ sym (same_ref-eq t x both) in
        let back = subst (λ a. same_ref r a ≡ false) (sym eq_) h in
        let self_ = same_ref_self r in cc)
    | inr other ↦ rw other (has_ref-without r t xs h)
  ])
  | inr other ↦ rw other (ap (λ b. same_ref t x || b) (has_ref-without r t xs h))
]

-- Removing a reference takes one off the count, if it is there.
length-without :
    (r : EvidenceRef) (xs : List EvidenceRef)
    → length (distinct xs) ≡ (if has_ref r xs then 1 else 0) + length (distinct (without r xs))
length-without r [] = omega arith
length-without r (x ∷ xs) =
    let rest = length-without r xs in
    elim (Bool-cases (same_ref r x)) [
      | inl same_ ↦
          let moved = has_ref-same r x xs same_ in rw (same_, has_ref-distinct x xs) (ground arith)
      | inr other ↦
          rw
            (
              other,
              has_ref-distinct x xs,
              has_ref-distinct x (without r xs),
              has_ref-without r x xs other,
            )
            (ground arith)
    ]

-- If each reference of a list is in another, the other has at least as many distinct ones.
pub length-distinct-le :
    (xs ys : List EvidenceRef)
    → ((r : EvidenceRef) → has_ref r xs ≡ true → has_ref r ys ≡ true)
    → length (distinct xs) ≤ length (distinct ys)
length-distinct-le [] ys sub = omega arith
length-distinct-le (x ∷ xs) ys sub = elim (Bool-cases (has_ref x xs)) [
  | inl old ↦
      rw (has_ref-distinct x xs, old) (length-distinct-le xs ys (λ r h. sub r (ground arith)))
  | inr new_ ↦
      let rest = length-distinct-le xs (without x ys) (λ r h. elim (Bool-cases (same_ref x r)) [
        | inl same_ ↦ absurd (let moved = has_ref-same x r xs same_ in cc)
        | inr other ↦ has_ref-without x r ys other ∙ sub r (ground arith)
      ]) in
      let there = sub x (rw (same_ref_self x) refl) in
      let counted_ = length-without x ys in rw (has_ref-distinct x xs, new_) (ground arith)
]

evidence_keep :
    (q p : Node → Bool) (ns : List Node)
    → ((n : Node) → q n ≡ true → p n ≡ true)
    → (r : EvidenceRef) → has_ref r (all_evidence (keep q ns)) ≡ true
    → has_ref r (all_evidence (keep p ns)) ≡ true
evidence_keep q p [] f r h = h
evidence_keep q p (n ∷ ns) f r h =
    let rest = evidence_keep q p ns f r in
    let left = has_ref-append r n.evidence (all_evidence (keep q ns)) in
    let right = has_ref-append r n.evidence (all_evidence (keep p ns)) in
    elim (Bool-cases (q n)) [
      | inl yes_ ↦ let also = f n yes_ in rw also (ground arith)
      | inr no_ ↦ ground arith
    ]

-- A selection that admits more claims counts no fewer references.
pub count_distinct_mono :
    (q p : Node → Bool) (ns : List Node)
    → ((n : Node) → q n ≡ true → p n ≡ true)
    → count_distinct (keep q ns) ≤ count_distinct (keep p ns)
unfolding count_distinct
count_distinct_mono q p ns f =
    length-distinct-le (all_evidence (keep q ns)) (all_evidence (keep p ns))
      (evidence_keep q p ns f)
