-- ===== src/Graph/Paths/Search.antt =====
-- `has_path` and the walks of the relation.
use mathlib.Core.List.{Memᴰ, append_assoc}
use mathlib.Core.List.Memᴰ
use mathlib.Core.Path.{subst}
use mathlib.Core.Bool.{or-true}
use engrammic.Base.{
  ℕ, zero, suc, ◌≤◌, ◌≡◌, refl, sym, ◌∙◌, ◌⊎◌, inl, inr, ◌↔◌, Bool, true, false, ◌&&◌, ◌||◌, List,
  [], ◌∷◌, ◌++◌, arith, ◌==◌, ==→eq, ==_self, Bool-cases, length, length-append,
}
use engrammic.Graph.{Edge, EdgeType, has_type}
use engrammic.Graph.Paths.{scan, trail, has_path}
use engrammic.Graph.Paths.Walks.{Walk, last, step, IsStep, avoid, split_mem, mem_with, Walk-mono}

module _ (rest : List Edge → ℕ → Bool) (t : EdgeType) (a b : ℕ) where
  scan_hit :
      (e : Edge) (before mid after : List Edge)
      → has_type t e ≡ true
      → e.source ≡ a
      → ((e.target == b) || rest (before ++ (mid ++ after)) e.target) ≡ true
      → scan rest t a b before (mid ++ e ∷ after) ≡ true
  unfolding scan
  scan_hit e before [] after h k g = rw (h, k, ==_self a, g) refl
  scan_hit e before (x ∷ mid) after h k g =
      rw (scan_hit e (before ++ x ∷ []) mid after h k (rw append_assoc g)) (or-true _)

  abbrev found : List Edge → Edge → List Edge → Bool
  found before e after =
      has_type t e && (e.source == a) && ((e.target == b) || rest (before ++ after) e.target)

  scan_sound :
      (before after : List Edge)
      → scan rest t a b before after ≡ true
      → (e : Edge) × (pre : List Edge) × (post : List Edge) × (before ++ after ≡ pre ++ e ∷ post)
        × (has_type t e ≡ true)
        × (e.source ≡ a)
        × (((e.target == b) || rest (pre ++ post) e.target) ≡ true)
  unfolding scan
  scan_sound before [] h = cc
  scan_sound before (e ∷ after) h = elim (Bool-cases (found before e after)) [
    | inl hit ↦ (e, before, after, refl, ground arith, ground arith, ground arith)
    | inr miss ↦
        let (x, pre, post, eq, typed, starts, ends) =
          scan_sound (before ++ e ∷ []) after (ground arith) in
        (x, pre, post, sym (append_assoc before (e ∷ []) after) ∙ eq, typed, starts, ends)
  ]

length-without :
    (e : Edge) (before after : List Edge)
    → length (before ++ e ∷ after) ≡ suc (length (before ++ after))
length-without e before after =
    omega (arith, length-append before (e ∷ after), length-append before after)

trail_sound :
    (t : EdgeType) (k : ℕ) (es : List Edge) (a b : ℕ) → trail t k es a b ≡ true → Walk t es b a
unfolding trail
trail_sound t zero es a b h = cc
trail_sound t (suc k) es a b h =
    let (e, pre, post, eq, typed, starts, ends) =
      scan_sound (λ rest c. trail t k rest c b) t a b [] es h in
    let m : Memᴰ e es = subst (Memᴰ e) (sym eq) (Memᴰ.append_right pre (Memᴰ.head refl)) in
    elim (Bool-cases (e.target == b)) [
      | inl there ↦ last e m (typed, starts, ==→eq e.target b there)
      | inr on ↦
          step e.target e m (typed, starts, refl)
            (Walk-mono (λ x k. subst (Memᴰ x) (sym eq) (mem_with e x pre post k))
              (trail_sound t k (pre ++ post) e.target b (ground arith)))
    ]

module _ (t : EdgeType) (k b : ℕ)
    (rest_complete : (es : List Edge) (c : ℕ)
      → length es ≤ k
      → Walk t es b c
      → trail t k es c b ≡ true) where
  rest_found :
      (e : Edge) (pre post : List Edge)
      → length (pre ++ e ∷ post) ≤ suc k
      → (e.target ≡ b) ⊎ Walk t (pre ++ e ∷ post) b e.target
      → ((e.target == b) || trail t k (pre ++ post) e.target b) ≡ true
  rest_found e pre post h (inl there) = rw there (rw (==_self b) refl)
  rest_found e pre post h (inr w) = elim (avoid e pre post w) [
    | inl v ↦ rw (rest_complete (pre ++ post) e.target shorter v) (or-true _)
    | inr (inl v) ↦ rw (rest_complete (pre ++ post) e.target shorter v) (or-true _)
    | inr (inr there) ↦ rw there (rw (==_self b) refl)
  ]
    where
      shorter : length (pre ++ post) ≤ k
      shorter = omega (arith, length-without e pre post)

  trail_first :
      (e : Edge) (es : List Edge) (a : ℕ)
      → length es ≤ suc k
      → Memᴰ e es
      → IsStep t e a e.target
      → (e.target ≡ b) ⊎ Walk t es b e.target
      → trail t (suc k) es a b ≡ true
  unfolding trail
  trail_first e es a h m s w =
      let (pre, post, eq) = split_mem m in
      subst (λ l. scan (λ rest c. trail t k rest c b) t a b [] l ≡ true) (sym eq)
        (scan_hit (λ rest c. trail t k rest c b) t a b e [] pre post s.0 s.1
          (rest_found e pre post (subst (λ l. length l ≤ suc k) eq h)
            (subst (λ l. (e.target ≡ b) ⊎ Walk t l b e.target) eq w)))

trail_complete :
    (t : EdgeType) (k : ℕ) (es : List Edge) (a b : ℕ)
    → length es ≤ k
    → Walk t es b a
    → trail t k es a b ≡ true
trail_complete t zero [] a b h (last e m s) = absurd (Memᴰ.not-nil m)
trail_complete t zero [] a b h (step c e m s w) = absurd (Memᴰ.not-nil m)
trail_complete t zero (x ∷ es) a b h w = absurd (omega arith)
trail_complete t (suc k) es a b h (last e m s) =
    trail_first t k b (λ fs c. trail_complete t k fs c b) e es a h m (s.0, s.1, refl) (inl s.2)
trail_complete t (suc k) es a b h (step c e m s w) =
    trail_first t k b (λ fs d. trail_complete t k fs d b) e es a h m (s.0, s.1, refl)
      (inr (subst (Walk t es b) (sym s.2) w))

-- The cycle check is exact: it finds a trail between two nodes, along edges of one type, exactly
-- where a walk of one or more such edges joins them.
pub has_path_iff :
    (t : EdgeType) (es : List Edge) (a b : ℕ) → (has_path t es a b ≡ true) ↔ Walk t es b a
unfolding has_path
has_path_iff t es a b =
    (trail_sound t (length es) es a b, trail_complete t (length es) es a b (omega arith))

pub no_path_iff :
    (t : EdgeType) (es : List Edge) (a b : ℕ) → (has_path t es a b ≡ false) ↔ (¬ Walk t es b a)
no_path_iff t es a b = (
  λ clear w. cc ((has_path_iff t es a b).1 w),
  λ none_. elim (Bool-cases (has_path t es a b)) [
    | inl found ↦ absurd (none_ ((has_path_iff t es a b).0 found))
    | inr clear ↦ clear
  ],
)
