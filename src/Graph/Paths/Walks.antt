-- ===== src/Graph/Paths/Walks.antt =====
-- Walks along the edges of one type, the relation that the Cypher path patterns are about.
use mathlib.Core.List.{Memᴰ}
use mathlib.Core.List.Memᴰ
use mathlib.Core.Path.{subst}
use engrammic.Base.{ℕ, ◌≡◌, refl, sym, ap, ◌∙◌, ◌⊎◌, inl, inr, true, List, [], ◌∷◌, ◌++◌}
use engrammic.Graph.{Edge, EdgeType, has_type}

abbrev pub IsStep : EdgeType → Edge → ℕ → ℕ → Type 0
IsStep t e a b = (has_type t e ≡ true) × (e.source ≡ a) × (e.target ≡ b)

-- A walk of one edge or more of type `t`, ending in `b`.
pub data Walk (t : EdgeType) (es : List Edge) (b : ℕ) : ℕ → Type 0 where
  last : {a : ℕ} (e : Edge) → Memᴰ e es → IsStep t e a b → Walk t es b a
  step : {a : ℕ} (c : ℕ) (e : Edge) → Memᴰ e es → IsStep t e a c → Walk t es b c → Walk t es b a

abbrev pub IsAcyclic : EdgeType → List Edge → Type 0
IsAcyclic t es = (x : ℕ) → ¬ Walk t es x x

module _ {t : EdgeType} {es : List Edge} where
  pub Walk-mono :
      {fs : List Edge} {b a : ℕ}
      → ((e : Edge) → Memᴰ e es → Memᴰ e fs)
      → Walk t es b a
      → Walk t fs b a
  Walk-mono f (last e m s) = last e (f e m) s
  Walk-mono f (step c e m s w) = step c e (f e m) s (Walk-mono f w)

  pub Walk-trans : {b c a : ℕ} → Walk t es b a → Walk t es c b → Walk t es c a
  Walk-trans {b = b} (last e m s) v = step b e m s v
  Walk-trans (step c e m s w) v = step c e m s (Walk-trans w v)

pub mem_without :
    (e x : Edge) (before after : List Edge)
    → Memᴰ x (before ++ e ∷ after)
    → (x ≡ e) ⊎ Memᴰ x (before ++ after)
mem_without e x before after m = elim (Memᴰ.append_cases before m) [
  | inl h ↦ inr (Memᴰ.append_left after h)
  | inr h ↦ elim (Memᴰ.cases_cons h) [
    | inl same ↦ inl same
    | inr k ↦ inr (Memᴰ.append_right before k)
  ]
]

pub mem_with :
    (e x : Edge) (before after : List Edge)
    → Memᴰ x (before ++ after)
    → Memᴰ x (before ++ e ∷ after)
mem_with e x before after m = elim (Memᴰ.append_cases before m) [
  | inl h ↦ Memᴰ.append_left (e ∷ after) h
  | inr h ↦ Memᴰ.append_right before (Memᴰ.tail h)
]

-- A walk need not use an edge twice: it avoids `e`, or goes on from the end of `e` without it.
pub avoid :
    {t : EdgeType} (e : Edge) (before after : List Edge) {b a : ℕ}
    → Walk t (before ++ e ∷ after) b a
    → Walk t (before ++ after) b a ⊎ Walk t (before ++ after) b e.target ⊎ (e.target ≡ b)
avoid e before after (last x m s) = elim (mem_without e x before after m) [
  | inl same ↦ inr (inr (ap (λ y. y.target) (sym same) ∙ s.2))
  | inr k ↦ inl (last x k s)
]
avoid {t} e before after {b} {a} (step c x m s w) = elim (avoid e before after w) [
  | inr done ↦ inr done
  | inl v ↦ elim (mem_without e x before after m) [
    | inl same ↦
        inr (inl (subst (Walk t (before ++ after) b) (sym (ap (λ y. y.target) (sym same) ∙ s.2)) v))
    | inr k ↦ inl (step c x k s v)
  ]
]

pub split_mem :
    {x : Edge} {es : List Edge}
    → Memᴰ x es
    → (before : List Edge) × (after : List Edge) × (es ≡ before ++ x ∷ after)
split_mem {x} (Memᴰ.head {xs = xs} e) = ([], xs, rw e refl)
split_mem (Memᴰ.tail {x = y} m) =
    let (before, after, e) = split_mem m in (y ∷ before, after, ap (◌∷◌ y) e)
