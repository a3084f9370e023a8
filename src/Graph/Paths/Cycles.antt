-- ===== src/Graph/Paths/Cycles.antt =====
-- A new edge and the cycles that it may close.
use mathlib.Core.List.{Memᴰ}
use mathlib.Core.List.Memᴰ
use mathlib.Core.Path.{subst}
use mathlib.Core.Bool.{false≢true}
use engrammic.Base.{ℕ, ◌≡◌, sym, ap, ◌∙◌, ◌≢◌, ◌⊎◌, inl, inr, true, false, List, [], ◌∷◌}
use engrammic.Graph.{Edge, EdgeType, has_type}
use engrammic.Graph.Paths.{has_path}
use engrammic.Graph.Paths.Walks.{Walk, last, step, IsAcyclic, Walk-mono, Walk-trans}
use engrammic.Graph.Paths.Search.{has_path_iff}

-- A walk over one more edge `e` avoids it, or reaches its source and goes on from its target.
through :
    {t : EdgeType} (e : Edge) (es : List Edge) {b a : ℕ}
    → Walk t (e ∷ es) b a
    → Walk t es b a
      ⊎ (((a ≡ e.source) ⊎ Walk t es e.source a) × ((b ≡ e.target) ⊎ Walk t es b e.target))
through e es (last x m s) = elim (Memᴰ.cases_cons m) [
  | inl same ↦
      inr (inl (sym s.1 ∙ ap (λ y. y.source) same), inl (sym s.2 ∙ ap (λ y. y.target) same))
  | inr k ↦ inl (last x k s)
]
through {t} e es {b} {a} (step c x m s w) = elim (Memᴰ.cases_cons m) [
  | inl same ↦ inr (
    inl (sym s.1 ∙ ap (λ y. y.source) same),
    elim (through e es w) [
      | inl v ↦ inr (subst (Walk t es b) (sym s.2 ∙ ap (λ y. y.target) same) v)
      | inr p ↦ p.1
    ],
  )
  | inr k ↦ elim (through e es w) [
    | inl v ↦ inl (step c x k s v)
    | inr (inl here, after) ↦ inr (inr (last x k (s.0, s.1, s.2 ∙ here)), after)
    | inr (inr v, after) ↦ inr (inr (step c x k s v), after)
  ]
]

-- If no path leads back and the ends differ, a new edge closes no cycle.
pub cons-IsAcyclic :
    (t : EdgeType) (e : Edge) (es : List Edge)
    → IsAcyclic t es
    → e.source ≢ e.target
    → has_path t es e.target e.source ≡ false
    → IsAcyclic t (e ∷ es)
cons-IsAcyclic t e es acyclic distinct clear x w = elim (through e es w) [
  | inl v ↦ acyclic x v
  | inr (inl p, inl q) ↦ distinct (sym p ∙ q)
  | inr (inl p, inr v) ↦ back (subst (λ y. Walk t es y e.target) p v)
  | inr (inr v, inl q) ↦ back (subst (Walk t es e.source) q v)
  | inr (inr u, inr v) ↦ back (Walk-trans v u)
]
  where
    back : Walk t es e.source e.target → ⊥
    back v = cc ((has_path_iff t es e.target e.source).1 v)

drop_other :
    {t : EdgeType} (e : Edge) (es : List Edge) {b a : ℕ}
    → has_type t e ≡ false
    → Walk t (e ∷ es) b a
    → Walk t es b a
drop_other {t} e es other (last x m s) = elim (Memᴰ.cases_cons m) [
  | inl same ↦ absurd (false≢true (sym other ∙ subst (λ y. has_type t y ≡ true) same s.0))
  | inr k ↦ last x k s
]
drop_other {t} e es other (step c x m s w) = elim (Memᴰ.cases_cons m) [
  | inl same ↦ absurd (false≢true (sym other ∙ subst (λ y. has_type t y ≡ true) same s.0))
  | inr k ↦ step c x k s (drop_other e es other w)
]

-- An edge of another type matters to no walk.
pub cons-IsAcyclic_other :
    (t : EdgeType) (e : Edge) (es : List Edge)
    → IsAcyclic t es
    → has_type t e ≡ false
    → IsAcyclic t (e ∷ es)
cons-IsAcyclic_other t e es acyclic other x w = acyclic x (drop_other e es other w)

-- Fewer edges, fewer walks.
pub IsAcyclic-mono :
    (t : EdgeType) (es fs : List Edge)
    → ((e : Edge) → Memᴰ e fs → Memᴰ e es)
    → IsAcyclic t es
    → IsAcyclic t fs
IsAcyclic-mono t es fs f acyclic x w = acyclic x (Walk-mono f w)

-- Without edges there is no walk.
pub nil-IsAcyclic : (t : EdgeType) → IsAcyclic t []
nil-IsAcyclic t x (last e m s) = Memᴰ.not-nil m
nil-IsAcyclic t x (step c e m s w) = Memᴰ.not-nil m
