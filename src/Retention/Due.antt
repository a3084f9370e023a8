-- ===== src/Retention/Due.antt =====
-- Which nodes the ageing step tombstones, against a description of the nodes that are due.
use engrammic.Base.{
  ℕ, ◌+◌, ◌*◌, ◌≤◌, ◌<◌, ◌≡◌, refl, ap, ◌∙◌, ◌⊎◌, inl, inr, true, false, none, some, [], ◌∷◌, arith,
  Bool-cases, or_default, Option-cases,
}
use engrammic.Retention.{
  DecayClass, ephemeral, standard, durable, permanent, unknown, Item, Vault, RetentionPolicy,
  is_eligible_for_tombstone, is_permanent, find_tombstone_candidates, tombstone_nodes,
}
use engrammic.Retention.Aging.{
  OnlyAt, fits, contains-find_tombstone_candidates, tombstone_nodes-OnlyAt,
}

-- Old enough for its class, and cold enough where the class asks for it.
pub data HasAged (p : RetentionPolicy) (now created heat : ℕ) : DecayClass → Type 0 where
  ephemeral_aged :
      created + 3600 * p.ephemeral_max_age_hours ≤ now → HasAged p now created heat ephemeral
  standard_aged :
      created + 86400 * p.standard_max_age_days ≤ now
      → heat < p.standard_heat_threshold
      → HasAged p now created heat standard
  durable_aged :
      created + 86400 * p.durable_max_age_days ≤ now
      → heat < p.durable_heat_threshold
      → HasAged p now created heat durable

-- A node that is due for its tombstone; a missing heat counts as 0.5.
pub record IsDue (p : RetentionPolicy) (now : ℕ) (n : Item) : Type 0 where
  pub decay : DecayClass
  pub created : ℕ
  pub decay_given : n.decay_class ≡ some decay
  pub created_given : n.created_at ≡ some created
  pub aged : HasAged p now created (or_default n.heat_score 500) decay
  pub untouched : n.tombstoned_at ≡ none
  pub no_reflection : n.is_reflection ≡ false

module _ (p : RetentionPolicy) (now : ℕ) where
  eligible-HasAged :
      (c : DecayClass) (created heat : ℕ)
      → is_eligible_for_tombstone p c created heat now ≡ true
      → HasAged p now created heat c
  unfolding is_eligible_for_tombstone
  eligible-HasAged permanent created heat h = absurd (cc)
  eligible-HasAged ephemeral created heat h = HasAged.ephemeral_aged (ground arith)
  eligible-HasAged standard created heat h = HasAged.standard_aged (ground arith) (ground arith)
  eligible-HasAged durable created heat h = HasAged.durable_aged (ground arith) (ground arith)
  eligible-HasAged unknown created heat h = absurd (cc)

  HasAged-eligible :
      (c : DecayClass) (created heat : ℕ)
      → HasAged p now created heat c
      → (is_eligible_for_tombstone p c created heat now ≡ true) × (is_permanent (some c) ≡ false)
  unfolding is_eligible_for_tombstone
  HasAged-eligible _ created heat (ephemeral_aged old) = (ground arith, refl)
  HasAged-eligible _ created heat (standard_aged old cold) = (ground arith, refl)
  HasAged-eligible _ created heat (durable_aged old cold) = (ground arith, refl)

  fits-IsDue : (silo : ℕ) (n : Item) → fits p silo now n ≡ true → IsDue p now n
  fits-IsDue silo n h = elim (Option-cases n.decay_class) [
    | inl no_class ↦ absurd (ground (arith, no_class))
    | inr (c, has_class) ↦ elim (Option-cases n.created_at) [
      | inl no_time ↦ absurd (ground (arith, has_class, no_time))
      | inr (t, has_time) ↦ elim (Option-cases n.tombstoned_at) [
        | inr (x, gone) ↦ absurd (ground (arith, gone))
        | inl untouched ↦ record {
          decay = c;
          created = t;
          decay_given = has_class;
          created_given = has_time;
          aged =
              eligible-HasAged c t (or_default n.heat_score 500)
                (ground (arith, has_class, has_time));
          untouched = untouched;
          no_reflection = ground arith;
        }
      ]
    ]
  ]

  IsDue-fits : (silo : ℕ) (n : Item) → IsDue p now n → fits p silo now n ≡ true
  IsDue-fits silo n d =
      let (eligible, forgets) =
        HasAged-eligible d.decay d.created (or_default n.heat_score 500) d.aged in
      rw (d.decay_given, d.created_given, d.untouched, d.no_reflection)
        (rw (eligible, forgets) refl)

-- The ageing step on a node that no other shares its key with: either the node is due, that is, it has
-- a decay class other than PERMANENT, was created long enough ago for this class and is cold enough
-- for it, is no reflection and not tombstoned; then it is tombstoned by this run, marked for a new
-- heat, and the same in all else. Or it is not due, and stays as it is.
pub tombstone_nodes-find_tombstone_candidates :
    (p : RetentionPolicy) (silo run now later id : ℕ) (v : Vault) (n : Item)
    → OnlyAt v.items id silo n
    → let items =
        (tombstone_nodes (find_tombstone_candidates p silo now v) silo run later v).0.items in
      IsDue p now n
        × OnlyAt items id silo (record n {
          tombstoned_at = some later;
          retention_run_id = some run;
          heat_dirty = true;
        })
      ⊎ (¬ IsDue p now n) × OnlyAt items id silo n
tombstone_nodes-find_tombstone_candidates p silo run now later id v n only =
    let ids = find_tombstone_candidates p silo now v in
    let listed = contains-find_tombstone_candidates p silo now id v n only in
    let aged = tombstone_nodes-OnlyAt ids silo run later id v n only in
    elim (Bool-cases (fits p silo now n)) [
      | inl yes_ ↦ inl (
        fits-IsDue p now silo n yes_,
        aged ∙ ap (λ (m : Item). m ∷ []) (rw (listed, yes_) (ground arith)),
      )
      | inr no_ ↦ inr (
        λ due. cc (IsDue-fits p now silo n due),
        aged ∙ ap (λ (m : Item). m ∷ []) (rw (listed, no_) (ground arith)),
      )
    ]
