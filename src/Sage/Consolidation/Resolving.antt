-- ===== src/Sage/Consolidation/Resolving.antt =====
-- The resolver with its two nodes exchanged.
use mathlib.Core.Path.{subst}
use mathlib.Core.Bool.{false≢true}
use engrammic.Base.{ℕ, ◌≡◌, sym, ap, ◌∙◌, ◌≢◌, inl, inr, Bool, true, false, arith, Bool-cases}
use engrammic.Sage.Consolidation.{ConflictSignals, tiebreak, decided, resolve}

tiebreak_sym : (a b : ConflictSignals) → a.node_id ≢ b.node_id → tiebreak a b ≡ tiebreak b a
unfolding tiebreak
tiebreak_sym a b distinct = ground arith

-- Of two nodes with different identifiers the same one wins, whichever comes first, if closeness of
-- scores is symmetric and holds of equal scores.
pub resolve_sym :
    (score : ConflictSignals → ℕ) (is_close : ℕ → ℕ → Bool) (a b : ConflictSignals)
    → ((x y : ℕ) → is_close x y ≡ is_close y x)
    → ((x : ℕ) → is_close x x ≡ true)
    → a.node_id ≢ b.node_id
    → resolve score is_close a b ≡ resolve score is_close b a
unfolding resolve
resolve_sym score is_close a b symmetric reflexive distinct =
    elim (Bool-cases (is_close (score a) (score b))) [
      | inl near ↦
          let back : is_close (score b) (score a) ≡ true = symmetric (score b) (score a) ∙ near in
          rw (near, back) (ap decided (tiebreak_sym a b distinct))
      | inr far ↦
          let back : is_close (score b) (score a) ≡ false = symmetric (score b) (score a) ∙ far in
          let apart : score a ≢ score b = λ e.
            false≢true
              (sym far ∙ subst (λ y. is_close (score a) y ≡ true) e (reflexive (score a))) in
          rw (far, back) (ground arith)
    ]
