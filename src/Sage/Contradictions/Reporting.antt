-- ===== src/Sage/Contradictions/Reporting.antt =====
-- What `detect_spo_conflict` reports, against a description of the claims that conflict.
use mathlib.Core.List.{Memᴰ}
use mathlib.Core.List.Memᴰ
use mathlib.Core.Path.{subst}
use engrammic.Base.{
  ℕ, ◌≡◌, refl, sym, ap, ◌≢◌, inl, inr, ◌↔◌, Bool, true, not, ◌&&◌, Option, none, some, List, [],
  ◌∷◌, map, arith, ◌==◌, ==→eq, Bool-cases, keep, any, All,
}
use engrammic.Graph.{Node, Store, is_active, matches}
use engrammic.Sage.Results.{conflict_detected}
use engrammic.Sage.Contradictions.{same, differs, conflicts_with, detect_spo_conflict}
use engrammic.Sage.Contradictions.Flagging.{Flagged, flags_all}

conflict_detected_injective :
    (new a b : ℕ) → conflict_detected new a ≡ conflict_detected new b → a ≡ b
conflict_detected_injective new a b h = cc

-- Another active claim of the silo with the same subject and predicate and a different object.
pub record IsRival (new silo s p o : ℕ) (n : Node) : Type 0 where
  pub is_claim : n.is_claim ≡ true
  pub in_silo : n.silo ≡ silo
  pub active_ : is_active n.state ≡ true
  pub subject : n.subject ≡ some s
  pub predicate : n.predicate ≡ some p
  pub object : (x : ℕ) × (n.object ≡ some x) × (x ≢ o)
  pub other : n.id ≢ new

abbrev pub Rival : Store → ℕ → ℕ → ℕ → ℕ → ℕ → ℕ → Type 0
Rival st new silo s p o id = (n : Node) × Memᴰ n st.nodes × (n.id ≡ id) × IsRival new silo s p o n

module _ (new silo s p o : ℕ) where
  abbrev rivals : Node → Bool
  rivals c = conflicts_with silo (some s) (some p) (some o) c && not (c.id == new)

  same-some : (v : Option ℕ) (a : ℕ) → same v (some a) ≡ true → v ≡ some a
  same-some none a h = absurd (cc)
  same-some (some b) a h = ap (λ x. some x) (==→eq b a h)

  differs-some :
      (v : Option ℕ) (a : ℕ) → differs v (some a) ≡ true → (x : ℕ) × (v ≡ some x) × (x ≢ a)
  differs-some none a h = absurd (cc)
  differs-some (some b) a h = (b, refl, λ e. ground arith)

  rivals-IsRival : (n : Node) → rivals n ≡ true → IsRival new silo s p o n
  rivals-IsRival n h = record {
    is_claim = ground arith;
    in_silo = ==→eq n.silo silo (ground arith);
    active_ = ground arith;
    subject = same-some n.subject s (ground arith);
    predicate = same-some n.predicate p (ground arith);
    object = differs-some n.object o (ground arith);
    other = λ e. ground arith;
  }

  IsRival-rivals : (n : Node) → IsRival new silo s p o n → rivals n ≡ true
  IsRival-rivals n r =
      let (x, at_x, apart) = r.object in
      rw (r.is_claim, r.in_silo, r.active_, r.subject, r.predicate, at_x) (ground (arith, r.other))

  abbrev rival_ids : List Node → List ℕ
  rival_ids ns = map (λ c. c.id) (keep rivals ns)

  reported :
      (id : ℕ) (ns : List Node)
      → Memᴰ (conflict_detected new id) (map (conflict_detected new) (rival_ids ns))
      → (n : Node) × Memᴰ n ns × (n.id ≡ id) × IsRival new silo s p o n
  reported id [] = λ m. absurd (Memᴰ.not-nil m)
  reported id (n ∷ ns) = elim (Bool-cases (rivals n)) [
    | inr no_ ↦ rw no_ (λ m. let (k, at_k, e, r) = reported id ns m in (k, Memᴰ.tail at_k, e, r))
    | inl yes_ ↦ rw yes_ (λ m. elim (Memᴰ.cases_cons m) [
      | inl same_ ↦ (
        n,
        Memᴰ.head refl,
        sym (conflict_detected_injective new id n.id same_),
        rivals-IsRival n yes_,
      )
      | inr rest ↦ let (k, at_k, e, r) = reported id ns rest in (k, Memᴰ.tail at_k, e, r)
    ])
  ]

  both_hold :
      (P : ℕ → Type 0) (k : Node) (ks : List Node)
      → rivals k ≡ true
      → All P (rival_ids (k ∷ ks))
      → P k.id × All P (rival_ids ks)
  both_hold P k ks yes_ = rw yes_ (λ all. all)

  rival_reported :
      (P : ℕ → Type 0) (n : Node) (ns : List Node)
      → Memᴰ n ns
      → rivals n ≡ true
      → All P (rival_ids ns)
      → Memᴰ (conflict_detected new n.id) (map (conflict_detected new) (rival_ids ns)) × P n.id
  rival_reported P n [] m h = λ all. absurd (Memᴰ.not-nil m)
  rival_reported P n (k ∷ ks) m h = elim (Memᴰ.cases_cons m) [
    | inl same_ ↦
        let yes_ = subst (λ x. rivals x ≡ true) same_ h in
        let here = ap (λ (x : Node). x.id) same_ in
        λ all. (
          rw yes_ (Memᴰ.head (ap (conflict_detected new) here)),
          subst P (sym here) (both_hold P k ks yes_ all).0,
        )
    | inr rest ↦ elim (Bool-cases (rivals k)) [
      | inl yes_ ↦ λ all.
          let (found, holds) = rival_reported P n ks rest h (both_hold P k ks yes_ all).1 in
          (rw yes_ (Memᴰ.tail found), holds)
      | inr no_ ↦ rw no_ (rival_reported P n ks rest h)
    ]
  ]

  -- If a claim is in the store, and its subject, predicate and object are given, then
  -- `detect_spo_conflict` reports a conflict of it with an identifier exactly where another active
  -- claim of the silo with this identifier has the same subject and predicate and a different object;
  -- exactly there the pair is also flagged in the store: it contradicts in both directions and waits
  -- for a resolution.
  pub detect_spo_conflict_flags :
      (st : Store) (id : ℕ)
      → any (matches new silo) st.nodes ≡ true
      → s ≢ 0
      → p ≢ 0
      → o ≢ 0
      → let r = detect_spo_conflict st new (some s) (some p) (some o) silo in
        (Memᴰ (conflict_detected new id) r.1 ↔ Rival st new silo s p o id)
        × ((Memᴰ (conflict_detected new id) r.1 × Flagged r.0 silo new id)
            ↔ Rival st new silo s p o id)
  detect_spo_conflict_flags st id en hs hp ho =
      let (flagged, events) = flags_all st new (some s) (some p) (some o) silo en (ground arith) in
      let back : Memᴰ (conflict_detected new id)
            (detect_spo_conflict st new (some s) (some p) (some o) silo).1
          → Rival st new silo s p o id =
        λ m. reported id st.nodes (subst (Memᴰ (conflict_detected new id)) events m) in
      let forth : Rival st new silo s p o id
          → Memᴰ (conflict_detected new id)
              (detect_spo_conflict st new (some s) (some p) (some o) silo).1
            × Flagged (detect_spo_conflict st new (some s) (some p) (some o) silo).0 silo new id =
        λ (n, m, e, r).
          let (told, marked) =
            rival_reported
              (Flagged (detect_spo_conflict st new (some s) (some p) (some o) silo).0 silo new) n
              st.nodes m (IsRival-rivals n r) flagged in
          (
            subst (Memᴰ (conflict_detected new id)) (sym events) (
                subst
                  (λ i.
                    Memᴰ (conflict_detected new i)
                      (map (conflict_detected new) (rival_ids st.nodes)))
                  e told),
            subst (Flagged (detect_spo_conflict st new (some s) (some p) (some o) silo).0 silo new)
                e marked,
          ) in
      ((back, λ v. (forth v).0), (λ (m, _). back m, forth))
