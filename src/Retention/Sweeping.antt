-- ===== src/Retention/Sweeping.antt =====
-- retention/service.py: reflections beyond the limit, summaries without their chain, and the
-- whole sweep.
pub mod Limits
use engrammic.Base.{
  ℕ, zero, suc, ◌-◌, Bool, true, false, not, ◌&&◌, Option, none, some, List, [], ◌∷◌, ◌++◌, map,
  ltb, leb, ◌==◌, if◌then◌else◌, is_some, keep,
}
use engrammic.Vectors.{Attempts, DeadLetter}
use engrammic.Retention.{
  Item, Vault, Label, memory_label, event_label, chain_label, RetentionPolicy, days, live,
  find_tombstone_candidates, tombstone_nodes,
}
use engrammic.Retention.Deleting.{hard_delete_nodes}

-- `ORDER BY n.created_at DESC`, where a missing value counts as the greatest.
abbrev pub not_newer : Item → Item → Bool
not_newer a b = elim b.created_at [
  | none ↦ true
  | some tb ↦ elim a.created_at [ none ↦ false | some ta ↦ leb ta tb ]
]

pub insert_newest : Item → List Item → List Item
insert_newest n [] = n ∷ []
insert_newest n (m ∷ ms) = if not_newer m n then n ∷ m ∷ ms else m ∷ insert_newest n ms

pub newest_first : List Item → List Item
unfolding insert_newest
newest_first [] = []
newest_first (n ∷ ns) = insert_newest n (newest_first ns)

abbrev pub skip : ℕ → List Item → List Item
skip zero ns = ns
skip (suc k) [] = []
skip (suc k) (n ∷ ns) = skip k ns

abbrev pub is_memory : Label → Bool
is_memory memory_label = true
is_memory l = false

abbrev pub is_event : Label → Bool
is_event event_label = true
is_event l = false

abbrev pub is_chain_label : Label → Bool
is_chain_label chain_label = true
is_chain_label l = false

abbrev pub live_reflection : ℕ → Item → Bool
live_reflection silo n = (n.silo == silo) && (is_memory n.label && (n.is_reflection && live n))

-- FIND_EXCESS_META_OBSERVATIONS
pub find_excess : ℕ → ℕ → Vault → List ℕ
unfolding newest_first
find_excess silo keep_count v =
    map (λ n. n.id) (skip keep_count (newest_first (keep (live_reflection silo) v.items)))

pub tombstone_excess_meta_observations : RetentionPolicy → ℕ → ℕ → ℕ → Vault → Vault × ℕ
tombstone_excess_meta_observations p silo run now v =
    tombstone_nodes (find_excess silo p.meta_observation_max_count v) silo run now v

-- `OPTIONAL MATCH pattern WHERE …`: the matches that satisfy both, or one row with a null.
abbrev pub optional_match : (Item → Bool) → List Item → List (Option Item)
optional_match p ns = elim (keep p ns) [ [] ↦ none ∷ [] | m ∷ ms ↦ map some (m ∷ ms) ]

-- `c IS NULL`, for a `c` that is bound.
abbrev pub is_null : Option Item → Bool
is_null c = not (is_some c)

abbrev pub is_summary : ℕ → Item → Bool
is_summary silo e =
    (e.silo == silo)
    && (is_event e.label && (e.is_reasoning_trace && (is_some e.source_chain_id && live e)))

abbrev pub is_source_chain : ℕ → Item → Item → Bool
is_source_chain silo e c =
    (c.silo == silo)
    && (is_chain_label c.label && elim e.source_chain_id [ none ↦ false | some id ↦ c.id == id ])

-- FIND_ORPHANED_SUMMARIES: for each summary a row per row of the optional match, whose `WHERE`
-- holds the test `c IS NULL`.
pub orphan_rows : ℕ → List Item → List Item → List ℕ
orphan_rows silo all [] = []
orphan_rows silo all (e ∷ es) =
    let rest = orphan_rows silo all es in
    if is_summary silo e
    then map (λ c. e.id) (optional_match (λ c. is_source_chain silo e c && is_null (some c)) all)
      ++ rest
    else rest

pub find_orphaned_summaries : ℕ → Vault → List ℕ
unfolding orphan_rows
find_orphaned_summaries silo v = orphan_rows silo v.items v.items

pub tombstone_orphaned_summaries : ℕ → ℕ → ℕ → Vault → Vault × ℕ
tombstone_orphaned_summaries silo run now v =
    tombstone_nodes (find_orphaned_summaries silo v) silo run now v

abbrev pub past_grace : ℕ → ℕ → Item → Bool
past_grace silo cutoff n =
    (n.silo == silo) && elim n.tombstoned_at [ none ↦ false | some t ↦ ltb t cutoff ]

-- FIND_HARD_DELETE_CANDIDATES; `now - timedelta(days=…)` on dates far from zero.
pub find_hard_delete_candidates : RetentionPolicy → ℕ → ℕ → Vault → List ℕ
find_hard_delete_candidates p silo now v =
    map (λ n. n.id) (keep (past_grace silo (now - days p.grace_period_days)) v.items)

pub record Sweep : Type 0 where
  pub vault : Vault
  pub dead_letters : List DeadLetter
  pub tombstoned : ℕ
  pub meta_tombstoned : ℕ
  pub orphan_tombstoned : ℕ
  pub deleted : ℕ

-- `clock` gives the reading of each step.
pub run_sweep :
    (ℕ → Bool)
    → Option (ℕ → Attempts)
    → RetentionPolicy
    → ℕ
    → ℕ
    → (ℕ → ℕ)
    → Vault
    → List DeadLetter
    → Sweep
run_sweep is_uuid vectors p silo run clock v queue =
    let (v₁, tombstoned) =
      tombstone_nodes (find_tombstone_candidates p silo (clock 0) v) silo run (clock 1) v in
    let (v₂, meta) = tombstone_excess_meta_observations p silo run (clock 2) v₁ in
    let (v₃, orphans) = tombstone_orphaned_summaries silo run (clock 3) v₂ in
    let ((v₄, queue'), deleted) =
      hard_delete_nodes is_uuid vectors silo (find_hard_delete_candidates p silo (clock 4) v₃)
        (v₃, queue) in
    record {
      vault = v₄;
      dead_letters = queue';
      tombstoned = tombstoned;
      meta_tombstoned = meta;
      orphan_tombstoned = orphans;
      deleted = deleted;
    }
