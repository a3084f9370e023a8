-- ===== src/Sage/Commitments/Declaring.antt =====
-- Who declared a commitment (INV7), and hypotheses that become commitments once.
use mathlib.Core.Path.{subst}
use engrammic.Base.{
  ℕ, ◌+◌, ◌≤◌, ◌≡◌, refl, sym, ap, ◌∙◌, inl, inr, Bool, true, false, ◌&&◌, Option, none, some, List,
  [], ◌∷◌, ◌++◌, map, arith, ◌==◌, ==_self, Option-cases, length, keep, any, find_first, All,
  length-append, find_first-true, find_first-map_where,
}
use engrammic.Graph.{Node, Store, Edge, about, has_type, matches, is_tombstoned}
use engrammic.Sage.Storing.{Property, write_properties, evidence_rows}
use engrammic.Sage.Storing.Fields.{write_properties-Keeps}
use engrammic.Sage.Storing.Evidence.{is_evidence, all_found}
use engrammic.Sage.Results.{
  already_crystallized, Result, ok, err, Event, first_error-none, unless, unless-eq-ok,
}
use engrammic.Sage.Commitments.{
  Hypothesis, Wisdom, validate_about_refs, about_edge, create_commitment_with_about, commitment,
  commit_events, commit, hypothesis_at, hypothesis_error, hypothesis_about_refs, about_error,
  mark_crystallized, with_float, crystallize_found, crystallize,
}

-- The DECLARED_BY and the ABOUT edges of a commitment.
abbrev pub declarations : ℕ → Wisdom → ℕ
declarations id w = length (keep (λ d. d.0 == id) w.declared)

abbrev pub abouts : ℕ → Wisdom → ℕ
abouts id w = length (keep (λ e. has_type about e && e.source == id) w.graph.edges)

declared_rows :
    (id agent : ℕ) (rows : List Node) (ds : List (ℕ × ℕ))
    → length (keep (λ d. d.0 == id) (map (λ a. (id, agent)) rows ++ ds))
      ≡ length rows + length (keep (λ d. d.0 == id) ds)
declared_rows id agent [] ds = omega arith
declared_rows id agent (a ∷ rows) ds =
    rw (==_self id) (omega (arith, declared_rows id agent rows ds))

about_rows :
    (id : ℕ) (rows : List Node) (es : List Edge)
    → length
        (keep (λ e. has_type about e && e.source == id) (map (λ a. about_edge id a.id) rows ++ es))
      ≡ length rows + length (keep (λ e. has_type about e && e.source == id) es)
about_rows id [] es = omega arith
about_rows id (a ∷ rows) es = rw (==_self id) (omega (arith, about_rows id rows es))

length-keep-any : (q : Node → Bool) (ns : List Node) → any q ns ≡ true → 1 ≤ length (keep q ns)
length-keep-any q [] h = cc
length-keep-any q (n ∷ ns) h = ground (arith, length-keep-any q ns)

-- Each reference that is found gives a row at least.
rows_enough :
    (st : Store) (silo : ℕ) (refs : List ℕ)
    → All (λ e. is_evidence st silo e ≡ true) refs
    → length refs ≤ length (evidence_rows st silo refs)
rows_enough st silo [] h = omega arith
rows_enough st silo (r ∷ rs) (h, hs) = omega (
  arith,
  length-append (keep (matches r silo) st.nodes) (evidence_rows st silo rs),
  length-keep-any (matches r silo) st.nodes h,
  rows_enough st silo rs hs,
)

valid_found :
    (st : Store) (refs : List ℕ) (silo : ℕ)
    → validate_about_refs st refs silo ≡ none
    → All (λ e. is_evidence st silo e ≡ true) refs
unfolding validate_about_refs
valid_found st [] silo h = tt
valid_found st (r ∷ rs) silo h = all_found st silo (r ∷ rs) (r ∷ rs) (ground arith)

found_cons :
    (c : Node) (st : Store) (silo : ℕ) (refs : List ℕ)
    → All (λ e. is_evidence st silo e ≡ true) refs
    → All (λ e. is_evidence (record st { nodes = c ∷ st.nodes }) silo e ≡ true) refs
found_cons c st silo [] h = tt
found_cons c st silo (r ∷ rs) (h, hs) = (rw h (ground arith), found_cons c st silo rs hs)

module _ (c : Node) (refs : List ℕ) (agent id : ℕ) (w : Wisdom) (named : c.id ≡ id) where
  created_declarations :
      (abouts id (create_commitment_with_about c refs agent w)
        ≡ length (evidence_rows (record w.graph { nodes = c ∷ w.graph.nodes }) c.silo refs)
          + abouts id w)
      × (declarations id (create_commitment_with_about c refs agent w)
          ≡ length (evidence_rows (record w.graph { nodes = c ∷ w.graph.nodes }) c.silo refs)
            + declarations id w)
  unfolding create_commitment_with_about
  created_declarations =
      rw named (about_rows id _ w.graph.edges, declared_rows id agent _ w.declared)

-- INV7 asks for one declaration. A commitment under a new identifier that `commit` accepts gets as
-- many DECLARED_BY edges as ABOUT edges, and at least one for each node that it is about.
pub commit-declarations :
    (enforced : Bool) (w w' : Wisdom) (content refs : List ℕ) (silo agent confidence : ℕ)
    (metadata : List Property) (id : ℕ) (events : List Event)
    → abouts id w ≡ 0
    → declarations id w ≡ 0
    → commit enforced w content refs silo agent confidence metadata id ≡ ok (w', events)
    → (declarations id w' ≡ abouts id w') × (length refs ≤ declarations id w')
unfolding commit
commit-declarations enforced w w' content refs silo agent confidence metadata id events no_about
      no_declared committed =
    let (accepted, same_) = unless-eq-ok _ _ _ committed in
    let valid = (first_error-none (validate_about_refs w.graph refs silo) _ accepted).0 in
    let keys = write_properties-Keeps metadata (commitment id silo content confidence) in
    let node = write_properties metadata (commitment id silo content confidence) in
    let (as_, ds) = created_declarations node refs agent id w keys.0 in
    let enough =
      rows_enough (record w.graph { nodes = node ∷ w.graph.nodes }) silo refs
        (found_cons node w.graph silo refs (valid_found w.graph refs silo valid)) in
    let enough' =
      subst
        (λ s.
          length refs
          ≤ length (evidence_rows (record w.graph { nodes = node ∷ w.graph.nodes }) s refs))
        (sym keys.1) enough in
    subst (λ v. (declarations id v ≡ abouts id v) × (length refs ≤ declarations id v))
      (ap (λ t. t.0) same_) (omega arith, omega arith)

some-ok {ℓ} :
    {A : Type ℓ} (c : Option ℕ) (k : ℕ → Result A) (a : A)
    → with_float c k ≡ ok a
    → (x : ℕ) × (c ≡ some x) × (k x ≡ ok a)
some-ok none k a h = cc
some-ok (some x) k a h = (x, refl, h)

hypotheses-create :
    (c : Node) (refs : List ℕ) (agent : ℕ) (w : Wisdom)
    → (create_commitment_with_about c refs agent w).hypotheses ≡ w.hypotheses
unfolding create_commitment_with_about
hypotheses-create c refs agent w = refl

marked :
    (session : Option ℕ) (id silo new : ℕ) (w : Wisdom) (h : Hypothesis)
    → find_first (hypothesis_at id silo session) w.hypotheses ≡ some h
    → hypothesis_at id silo none h ≡ true
    → find_first (hypothesis_at id silo session) (mark_crystallized id silo new w).hypotheses
      ≡ some (record h { crystallized_into = some new })
unfolding mark_crystallized
marked none id silo new w h found fits =
    find_first-map_where (hypothesis_at id silo none) (hypothesis_at id silo none)
      (λ x. record x { crystallized_into = some new }) w.hypotheses (λ x. refl)
    ∙ rw (found, fits) refl
marked (some s) id silo new w h found fits =
    find_first-map_where (hypothesis_at id silo (some s)) (hypothesis_at id silo none)
      (λ x. record x { crystallized_into = some new }) w.hypotheses (λ x. refl)
    ∙ rw (found, fits) refl

fits_key :
    (session : Option ℕ) (id silo : ℕ) (h : Hypothesis)
    → hypothesis_at id silo session h ≡ true
    → (h.id ≡ id) × (hypothesis_at id silo none h ≡ true)
fits_key none id silo h k = (ground arith, k)
fits_key (some s) id silo h k = (ground arith, ground arith)

not_tombstoned : (h : Hypothesis) → hypothesis_error h ≡ none → is_tombstoned h.state ≡ false
not_tombstoned h e = ground arith

-- What a hypothesis was when it was crystallized, and the store that is left.
crystallize_found-ok :
    (w w' : Wisdom) (h : Hypothesis) (silo agent new : ℕ) (events : List Event)
    → crystallize_found w h silo agent new ≡ ok (w', events)
    → (is_tombstoned h.state ≡ false)
      × (v : Wisdom) × (v.hypotheses ≡ w.hypotheses)
      × (w' ≡ mark_crystallized h.id silo new v)
unfolding crystallize_found
crystallize_found-ok w w' h silo agent new events k = elim (Option-cases (hypothesis_error h)) [
  | inr (e, eq_) ↦ absurd (let bad = rw (eq_, crystallize_found) at k in cc)
  | inl ready ↦
      let rows = hypothesis_about_refs w.graph h.id in
      let made : (ℕ → Wisdom) = λ x.
        create_commitment_with_about (commitment new silo h.content x) (map (λ a. a.id) rows) agent
          w in
      let rest : with_float h.confidence (λ x.
        unless (about_error rows) (mark_crystallized h.id silo new (made x), commit_events new))
          ≡ ok (w', events) =
        rw (ready, crystallize_found) at k in
      let (x, eq_, written) = some-ok h.confidence _ (w', events) rest in
      let same_ = (unless-eq-ok (about_error rows) _ _ written).1 in
      (
        not_tombstoned h ready,
        made x,
        hypotheses-create (commitment new silo h.content x) (map (λ a. a.id) rows) agent w,
        sym (ap (λ t. t.0) same_),
      )
]

refused :
    (h : Hypothesis) (new agent' new' : ℕ) (w : Wisdom) (silo : ℕ)
    → is_tombstoned h.state ≡ false
    → crystallize_found w (record h { crystallized_into = some new }) silo agent' new'
      ≡ err already_crystallized
unfolding crystallize_found
refused h new agent' new' w silo kept = rw (kept, crystallize_found) refl

-- A hypothesis that was crystallized is refused as crystallized when this is asked again with the
-- same session or none as before, whoever asks.
pub crystallize_again :
    (w w' : Wisdom) (id silo agent new agent' new' : ℕ) (session : Option ℕ) (events : List Event)
    → crystallize w id silo agent session new ≡ ok (w', events)
    → crystallize w' id silo agent' session new' ≡ err already_crystallized
unfolding crystallize
crystallize_again w w' id silo agent new agent' new' session events done =
    elim (Option-cases (find_first (hypothesis_at id silo session) w.hypotheses)) [
      | inl miss ↦ absurd (let bad = rw (miss, crystallize) at done in cc)
      | inr (h, found) ↦
          let found_done : crystallize_found w h silo agent new ≡ ok (w', events) =
            rw (found, crystallize) at done in
          let (kept, v, same_, left) =
            crystallize_found-ok w w' h silo agent new events found_done in
          let (key, fits) =
            fits_key session id silo h
              (find_first-true (hypothesis_at id silo session) h w.hypotheses found) in
          let left' : w' ≡ mark_crystallized id silo new v =
            left ∙ ap (λ i. mark_crystallized i silo new v) key in
          let refound : find_first (hypothesis_at id silo session) w'.hypotheses
              ≡ some (record h { crystallized_into = some new }) =
            ap (λ u. find_first (hypothesis_at id silo session) u.hypotheses) left'
            ∙ marked session id silo new v h
                (ap (λ hs. find_first (hypothesis_at id silo session) hs) same_ ∙ found) fits in
          rw (refound, crystallize) (refused h new agent' new' w' silo kept)
    ]
