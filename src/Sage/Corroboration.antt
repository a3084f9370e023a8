-- ===== src/Sage/Corroboration.antt =====
-- How often a claim of sage/transactions.py is corroborated: the distinct references to evidence of
-- the claims that say the same, exactly or by similarity.
-- The embedding service is a parameter: whether the vectors of two texts come as close as the
-- threshold asks, for the triples (0.80) and for the contents (0.85) of two claims. A call of it
-- that raises is not modelled.
pub mod Counting
pub mod Matching
pub mod Tests
use engrammic.Base.{
  ℕ, zero, suc, Bool, true, false, not, ◌&&◌, ◌||◌, Option, none, some, List, [], ◌∷◌, ◌++◌, leb,
  ◌==◌, if◌then◌else◌, is_some, length, is_empty, keep, find_first,
}
use engrammic.Graph.{Node, Store, EvidenceRef, node_ref, uri, is_active}
use engrammic.Sage.Promotion.{claim_at, promotion_threshold}
use engrammic.Sage.Contradictions.{all_given, same}

abbrev pub same_ref : EvidenceRef → EvidenceRef → Bool
same_ref (node_ref a) (node_ref b) = a == b
same_ref (uri a) (uri b) = a == b
same_ref r t = false

abbrev pub has_ref : EvidenceRef → List EvidenceRef → Bool
has_ref r [] = false
has_ref r (t ∷ ts) = same_ref r t || has_ref r ts

-- `collect(DISTINCT ev)`, `set.update`
abbrev pub distinct : List EvidenceRef → List EvidenceRef
distinct [] = []
distinct (r ∷ rs) = let rest = distinct rs in if has_ref r rest then rest else r ∷ rest

abbrev pub all_evidence : List Node → List EvidenceRef
all_evidence [] = []
all_evidence (c ∷ cs) = c.evidence ++ all_evidence cs

unfoldable pub count_distinct : List Node → ℕ
count_distinct cs = length (distinct (all_evidence cs))

-- The answers of the functions: a count, and whether it reaches the threshold for promotion.
abbrev pub counted : ℕ → ℕ → ℕ × Bool
counted threshold count = (count, leb threshold count)

abbrev pub says_the_same : ℕ → Node → Node → Bool
says_the_same silo new c =
    (c.is_claim && c.silo == silo)
    && ((same c.subject new.subject && (same c.predicate new.predicate && same c.object new.object))
        && is_active c.state)

-- `CASE WHEN size(claims) = 0 THEN [new] ELSE claims END`
abbrev pub or_itself : Node → List Node → List Node
or_itself new [] = new ∷ []
or_itself new (c ∷ cs) = c ∷ cs

-- Without any evidence `UNWIND` leaves no row.
abbrev pub row_or_default : ℕ → ℕ → ℕ × Bool
row_or_default threshold zero = (1, false)
row_or_default threshold (suc n) = counted threshold (suc n)

unfoldable pub check_corroboration : Store → ℕ → ℕ → ℕ → ℕ × Bool
unfolding count_distinct
check_corroboration st id silo threshold = elim (find_first (claim_at id silo) st.nodes) [
  | none ↦ (1, false)
  | some new ↦
      row_or_default threshold
        (count_distinct (or_itself new (keep (says_the_same silo new) st.nodes)))
]

pub record Triple : Type 0 where
  pub subject : Option ℕ
  pub predicate : Option ℕ
  pub object : Option ℕ

abbrev pub triple_of : Node → Triple
triple_of n = record { subject = n.subject; predicate = n.predicate; object = n.object }

abbrev pub is_whole : Node → Bool
is_whole n = is_some n.subject && (is_some n.predicate && is_some n.object)

abbrev pub is_live_claim : ℕ → Node → Bool
is_live_claim silo c = (c.is_claim && c.silo == silo) && is_active c.state

module _ (triple_close : Triple → Triple → Bool) (content_close : List ℕ → List ℕ → Bool) where
  -- `_check_freeform_corroboration`, for the claim that was found.
  unfoldable pub check_freeform_corroboration : Store → Node → ℕ → ℕ → ℕ → ℕ × Bool
  check_freeform_corroboration st new id silo threshold =
      let candidates = keep (λ c. is_live_claim silo c && not (is_whole c)) st.nodes in
      counted threshold (
        if is_empty new.content || is_empty candidates
        then length new.evidence
        else length (
            distinct (
              new.evidence
              ++ all_evidence (
                  keep (λ c. not (c.id == id) && content_close new.content c.content) candidates))))

  unfoldable pub check_semantic_corroboration : Store → ℕ → ℕ → ℕ → ℕ × Bool
  unfolding count_distinct check_freeform_corroboration
  check_semantic_corroboration st id silo threshold =
      elim (find_first (claim_at id silo) st.nodes) [
        | none ↦ (1, false)
        | some new ↦
            let candidates = keep (λ c. is_live_claim silo c && is_whole c) st.nodes in
            if all_given new.subject new.predicate new.object
            then counted threshold (
                if is_empty candidates
                then length new.evidence
                else count_distinct
                    (keep (λ c. triple_close (triple_of new) (triple_of c)) candidates))
            else check_freeform_corroboration st new id silo threshold
      ]

  -- `_check_corroboration`: with an embedding service by similarity, else exactly.
  unfoldable pub claim_corroboration : Bool → Store → ℕ → ℕ → ℕ × Bool
  unfolding check_corroboration check_semantic_corroboration
  claim_corroboration true st id silo = check_semantic_corroboration st id silo promotion_threshold
  claim_corroboration false st id silo = check_corroboration st id silo promotion_threshold
