-- ===== src/Causal/Selecting.antt =====
-- Which edges the query of a tombstone run selects.
use engrammic.Base.{
  ℕ, ◌<◌, ◌≡◌, refl, sym, ap, ◌∙◌, ◌≢◌, ◌⊎◌, inl, inr, ◌↔◌, Bool, true, false, ◌&&◌, ◌||◌, Option,
  none, some, List, [], ◌∷◌, map, arith, ◌==◌, ==→eq, ==_self, ltb→lt, Bool-cases, or_default,
  Option-cases, keep, contains,
}
use mathlib.Core.List.{Memᴰ}
use mathlib.Core.List.Memᴰ
use mathlib.Core.Path.{subst}
use engrammic.Causal.{Cause, Criteria, below, passes, selects}

abbrev pub IsBelow : Option ℕ → ℕ → Type 0
IsBelow v c = (x : ℕ) × (v ≡ some x) × (x < c)

-- An edge that the filters of the criteria let through.
pub record Passes (f : Criteria) (r : Cause) : Type 0 where
  pub edge_type : f.edge_type_is_causes ≢ some false
  pub confidence :
      (f.confidence_below ≡ none)
      ⊎ ((c : ℕ) × (f.confidence_below ≡ some c)
          × (IsBelow r.consensus_confidence c ⊎ IsBelow r.extraction_confidence c))
  pub created :
      (f.created_before ≡ none) ⊎ ((t : ℕ) × (f.created_before ≡ some t) × IsBelow r.created_at t)

-- An edge of the silo that was never set invalidated, or that was set not invalidated and that the
-- filters let through.
abbrev pub IsSelected : Criteria → ℕ → Cause → Type 0
IsSelected f silo r =
    (r.silo_id ≡ silo) × ((r.invalidated ≡ none) ⊎ ((r.invalidated ≡ some false) × Passes f r))

below-IsBelow : (v : Option ℕ) (c : ℕ) → (below v c ≡ true) ↔ IsBelow v c
below-IsBelow none c = (λ h. cc, λ b. cc)
below-IsBelow (some x) c = (λ h. (x, refl, ltb→lt x c h), λ (y, e, l). ground arith)

type_passes : (o : Option Bool) → (or_default o true ≡ true) ↔ (o ≢ some false)
type_passes none = (λ h e. cc, λ n. refl)
type_passes (some true) = (λ h e. cc, λ n. refl)
type_passes (some false) = (λ h. cc, λ n. absurd (n refl))

confidence_passes :
    (o a b : Option ℕ)
    → (elim o [ none ↦ true | some c ↦ below a c || below b c ] ≡ true)
      ↔ ((o ≡ none) ⊎ ((c : ℕ) × (o ≡ some c) × (IsBelow a c ⊎ IsBelow b c)))
confidence_passes none a b = (λ h. inl refl, λ s. refl)
confidence_passes (some c) a b = (forth, back)
  where
    forth :
        (below a c || below b c) ≡ true
        → (some c ≡ none) ⊎ ((d : ℕ) × (some c ≡ some d) × (IsBelow a d ⊎ IsBelow b d))
    forth h = elim (Bool-cases (below a c)) [
      | inl yes_ ↦ inr (c, refl, inl ((below-IsBelow a c).0 yes_))
      | inr no_ ↦ inr (c, refl, inr ((below-IsBelow b c).0 (ground arith)))
    ]

    back :
        (some c ≡ none) ⊎ ((d : ℕ) × (some c ≡ some d) × (IsBelow a d ⊎ IsBelow b d))
        → (below a c || below b c) ≡ true
    back (inl e) = cc
    back (inr (d, e, inl (x, at_x, l))) = rw at_x (ground arith)
    back (inr (d, e, inr (x, at_x, l))) = rw at_x (ground arith)

created_passes :
    (o a : Option ℕ)
    → (elim o [ none ↦ true | some t ↦ below a t ] ≡ true)
      ↔ ((o ≡ none) ⊎ ((t : ℕ) × (o ≡ some t) × IsBelow a t))
created_passes none a = (λ h. inl refl, λ s. refl)
created_passes (some t) a = (λ h. inr (t, refl, (below-IsBelow a t).0 h), back)
  where
    back : (some t ≡ none) ⊎ ((u : ℕ) × (some t ≡ some u) × IsBelow a u) → below a t ≡ true
    back (inl e) = cc
    back (inr (u, e, (x, at_x, l))) = rw at_x (ground arith)

passes-Passes : (f : Criteria) (r : Cause) → (passes f r ≡ true) ↔ Passes f r
passes-Passes f r = (
  λ h. record {
    edge_type = (type_passes f.edge_type_is_causes).0 (ground arith);
    confidence =
        (confidence_passes f.confidence_below r.consensus_confidence r.extraction_confidence).0
          (ground arith);
    created = (created_passes f.created_before r.created_at).0 (ground arith);
  },
  λ p. ground (
    arith,
    (type_passes f.edge_type_is_causes).1 p.edge_type,
    (confidence_passes f.confidence_below r.consensus_confidence r.extraction_confidence).1
        p.confidence,
    (created_passes f.created_before r.created_at).1 p.created,
  ),
)

pub selects-IsSelected :
    (f : Criteria) (silo : ℕ) (r : Cause) → (selects f silo r ≡ true) ↔ IsSelected f silo r
unfolding selects
selects-IsSelected f silo r = elim (Option-cases r.invalidated) [
  | inl never ↦ (
    λ h. (==→eq r.silo_id silo (ground arith), inl never),
    λ (e, s). rw (e, ==_self silo, never) refl,
  )
  | inr (set_, is_set) ↦ elim (Bool-cases set_) [
    | inl gone ↦ (
      λ h. absurd (ground (arith, is_set, gone)),
      λ (e, s). absurd (elim s [ inl never ↦ cc | inr (live, p) ↦ cc ]),
    )
    | inr live ↦ (
      λ h. (
        ==→eq r.silo_id silo (ground arith),
        inr (is_set ∙ ap (λ b. some b) live, (passes-Passes f r).0 (ground (arith, is_set, live))),
      ),
      λ (e, s). elim s [
        | inl never ↦ absurd (cc)
        | inr (_, p) ↦ rw (e, ==_self silo, is_set, live, (passes-Passes f r).1 p) refl
      ],
    )
  ]
]

-- The identifiers of the edges that are selected.
abbrev pub selected_ids : Criteria → ℕ → List Cause → List ℕ
selected_ids f silo rs = map (λ r. r.id) (keep (selects f silo) rs)

pub contains-selected_ids :
    (f : Criteria) (silo x : ℕ) (rs : List Cause)
    → (contains x (selected_ids f silo rs) ≡ true)
      ↔ ((r : Cause) × Memᴰ r rs × (r.id ≡ x) × IsSelected f silo r)
contains-selected_ids f silo x rs = (forth rs, λ (r, m, e, s). back rs r m e s)
  where
    forth :
        (qs : List Cause)
        → contains x (selected_ids f silo qs) ≡ true
        → (r : Cause) × Memᴰ r qs × (r.id ≡ x) × IsSelected f silo r
    forth [] h = absurd (cc)
    forth (q ∷ qs) h = elim (Bool-cases (selects f silo q && (q.id == x))) [
      | inl here ↦ (
        q,
        Memᴰ.head refl,
        ==→eq q.id x (ground arith),
        (selects-IsSelected f silo q).0 (ground arith),
      )
      | inr there ↦ let (r, m, e, s) = forth qs (ground arith) in (r, Memᴰ.tail m, e, s)
    ]

    back :
        (qs : List Cause) (r : Cause)
        → Memᴰ r qs
        → r.id ≡ x
        → IsSelected f silo r
        → contains x (selected_ids f silo qs) ≡ true
    back [] r m e s = absurd (Memᴰ.not-nil m)
    back (q ∷ qs) r m e s = elim (Memᴰ.cases_cons m) [
      | inl same ↦
          let hit : selects f silo q ≡ true =
            subst (λ y. selects f silo y ≡ true) same ((selects-IsSelected f silo r).1 s) in
          rw hit (rw (sym (ap (λ y. y.id) same) ∙ e, ==_self x) refl)
      | inr k ↦ ground (arith, back qs r k e s)
    ]
