-- ===== src/Sage/Promotion/Edges.antt =====
-- The edges after a promotion.
use mathlib.Core.Path.{subst}
use engrammic.Base.{
  ℕ, ◌≡◌, refl, sym, ap, ◌⊎◌, inl, inr, Bool, true, false, not, ◌&&◌, ◌||◌, Option, arith, ◌==◌,
  Bool-cases, or_default, Option-cases, any, find_first,
}
use engrammic.Graph.{Store, set_where, matches, is_promoted}
use engrammic.Graph.Thinning.{Thins, same-Thins, keep-Thins}
use engrammic.Sage.Results.{ok}
use engrammic.Sage.Promotion.{
  Model, Promoted, promote, promote_unpromoted, cleanup_sources, update_claim_to_promoted, claim_at,
  is_linked_source, boosted, verified,
}

cleanup_sources-Thins :
    (fails : Bool) (id silo : ℕ) (st : Store) → Thins st (cleanup_sources fails id silo st)
unfolding cleanup_sources
cleanup_sources-Thins true id silo st = λ e m. m
cleanup_sources-Thins false id silo st = elim (Bool-cases (any (matches id silo) st.nodes)) [
  | inl there ↦
      keep-Thins st (cleanup_sources false id silo st)
        (λ e. not (
          any (λ s. is_linked_source st id s && ((e.source == s.id) || (e.target == s.id)))
            st.nodes))
        (rw (cleanup_sources, there) refl)
  | inr gone ↦ same-Thins st (cleanup_sources false id silo st) (rw (cleanup_sources, gone) refl)
]

promote-store :
    (cleanup_fails : Bool) (llm : Option Model) (st : Store) (id silo : ℕ) (passed : Option ℕ)
    (st' : Store) (r : Option Promoted)
    → promote cleanup_fails llm st id silo passed ≡ ok (st', r)
    → (st ≡ st')
      ⊎ ((new : ℕ) × (cleanup_sources cleanup_fails id silo
              (update_claim_to_promoted id silo new st)
            ≡ st'))
unfolding promote promote_unpromoted
promote-store cleanup_fails llm st id silo passed st' r h =
    elim (Option-cases (find_first (claim_at id silo) st.nodes)) [
      | inl missing ↦ absurd (ground arith)
      | inr (c, found) ↦ elim (Bool-cases (is_promoted c.claim_status)) [
        | inl already ↦ inl (ground arith)
        | inr fresh ↦ elim (Bool-cases (verified llm st c id)) [
          | inr refuted ↦ inl (ground arith)
          | inl supported ↦ elim (Option-cases c.confidence) [
            | inl none_ ↦ absurd (ground arith)
            | inr (confidence, given) ↦
                let count = or_default passed (or_default c.corroboration_count 0) in
                inr (boosted confidence count, ground arith)
          ]
        ]
      ]
    ]

pub promote-Thins :
    (cleanup_fails : Bool) (llm : Option Model) (st : Store) (id silo : ℕ) (passed : Option ℕ)
    (st' : Store) (r : Option Promoted)
    → promote cleanup_fails llm st id silo passed ≡ ok (st', r)
    → Thins st st'
unfolding update_claim_to_promoted set_where
promote-Thins cleanup_fails llm st id silo passed st' r h =
    elim (promote-store cleanup_fails llm st id silo passed st' r h) [
      | inl same ↦ same-Thins st st' (ap (λ (s : Store). s.edges) (sym same))
      | inr (new, written) ↦
          subst (Thins st) written
            (cleanup_sources-Thins cleanup_fails id silo (update_claim_to_promoted id silo new st))
    ]
