-- ===== src/Retention/Sweeping/Limits.antt =====
-- How many reflections a sweep leaves, and which summaries it tombstones.
use mathlib.Core.List.{Memᴰ}
use mathlib.Core.List.Memᴰ
use mathlib.Core.Path.{subst}
use engrammic.Base.{
  ℕ, zero, suc, ◌≤◌, ◌≡◌, refl, sym, ap, ◌∙◌, inl, inr, Bool, true, false, not, ◌&&◌, some, List,
  [], ◌∷◌, map, arith, if◌then◌else◌, Bool-cases, is_some, length, keep, contains, map_where,
}
use engrammic.Retention.{
  Item, Vault, RetentionPolicy, live, tombstone_item, tombstone_nodes, soil, mark_heat_dirty,
}
use engrammic.Retention.Aging.{
  OnlyAt, hit, items-tombstone_nodes, tombstone_nodes-OnlyAt, contains-map-keep, any-regroup,
  any-keyed, keyed_of,
}
use engrammic.Retention.Sweeping.{
  is_event, insert_newest, newest_first, skip, live_reflection, find_excess,
  tombstone_excess_meta_observations, optional_match, is_null, is_summary, is_source_chain,
  orphan_rows, find_orphaned_summaries, tombstone_orphaned_summaries,
}

module _ (q : Item → Bool) where
  length-keep-insert_newest :
      (n : Item) (ns : List Item) → length (keep q (insert_newest n ns)) ≡ length (keep q (n ∷ ns))
  unfolding insert_newest
  length-keep-insert_newest n [] = refl
  length-keep-insert_newest n (m ∷ ns) = ground (arith, length-keep-insert_newest n ns)

  length-keep-newest_first :
      (ns : List Item) → length (keep q (newest_first ns)) ≡ length (keep q ns)
  unfolding newest_first
  length-keep-newest_first [] = refl
  length-keep-newest_first (n ∷ ns) =
      ground (arith, length-keep-insert_newest n (newest_first ns), length-keep-newest_first ns)

  keep_none : (ns : List Item) → ((n : Item) → Memᴰ n ns → q n ≡ false) → keep q ns ≡ []
  keep_none [] h = refl
  keep_none (n ∷ ns) h =
      ground (arith, h n (Memᴰ.head refl), keep_none ns (λ m k. h m (Memᴰ.tail k)))

  length-keep-skip : (k : ℕ) (ns : List Item) → keep q (skip k ns) ≡ [] → length (keep q ns) ≤ k
  length-keep-skip zero ns h = rw h (omega arith)
  length-keep-skip (suc k) [] h = omega arith
  length-keep-skip (suc k) (n ∷ ns) h = ground (arith, length-keep-skip k ns h)

contains_of_mem :
    (n : Item) (ns : List Item) → Memᴰ n ns → contains n.id (map (λ m. m.id) ns) ≡ true
contains_of_mem n [] m = absurd (Memᴰ.not-nil m)
contains_of_mem n (x ∷ ns) m = elim (Memᴰ.cases_cons m) [
  | inl same ↦ let at : n.id ≡ x.id = ap (λ (y : Item). y.id) same in ground arith
  | inr later ↦ ground (arith, contains_of_mem n ns later)
]

abbrev spared : List ℕ → Item → Bool
spared ids m = not (contains m.id ids)

keep-live_reflection :
    (silo run now : ℕ) (ids rows : List ℕ) (ns : List Item)
    → length (
        keep (live_reflection silo) (
          mark_heat_dirty silo rows (map_where (hit silo now run ids) (tombstone_item now run) ns)))
      ≡ length (keep (spared ids) (keep (live_reflection silo) ns))
unfolding mark_heat_dirty
keep-live_reflection silo run now ids rows [] = refl
keep-live_reflection silo run now ids rows (n ∷ ns) =
    ground (arith, keep-live_reflection silo run now ids rows ns)

-- After the step for reflections, at most the configured number of live reflections is left.
pub tombstone_excess_meta_observations_bound :
    (p : RetentionPolicy) (silo run now : ℕ) (v : Vault)
    → length
        (keep (live_reflection silo) (tombstone_excess_meta_observations p silo run now v).0.items)
      ≤ p.meta_observation_max_count
unfolding tombstone_excess_meta_observations find_excess
tombstone_excess_meta_observations_bound p silo run now v =
    subst (λ x. x ≤ p.meta_observation_max_count) (sym counted)
      (length-keep-skip (spared ids) p.meta_observation_max_count sorted (
        keep_none (spared ids) (skip p.meta_observation_max_count sorted)
          (λ n m. ap not (contains_of_mem n (skip p.meta_observation_max_count sorted) m))))
  where
    sorted : List Item
    sorted = newest_first (keep (live_reflection silo) v.items)

    ids : List ℕ
    ids = map (λ n. n.id) (skip p.meta_observation_max_count sorted)

    counted :
        length (keep (live_reflection silo) (tombstone_nodes ids silo run now v).0.items)
        ≡ length (keep (spared ids) sorted)
    counted =
        ap (λ (ns : List Item). length (keep (live_reflection silo) ns))
          (items-tombstone_nodes ids silo run now v)
        ∙ keep-live_reflection silo run now ids _ v.items
        ∙ sym (length-keep-newest_first (spared ids) (keep (live_reflection silo) v.items))

never_null : (c : Item → Bool) (ns : List Item) → keep (λ m. c m && is_null (some m)) ns ≡ []
never_null c [] = refl
never_null c (n ∷ ns) = ground (arith, never_null c ns)

one_row :
    (silo : ℕ) (e : Item) (all : List Item)
    → map (λ c. e.id) (optional_match (λ c. is_source_chain silo e c && is_null (some c)) all)
      ≡ e.id ∷ []
one_row silo e all = rw (optional_match, never_null (is_source_chain silo e) all) refl

orphan_rows_all :
    (silo : ℕ) (all es : List Item)
    → orphan_rows silo all es ≡ map (λ e. e.id) (keep (is_summary silo) es)
unfolding orphan_rows
orphan_rows_all silo all [] = refl
orphan_rows_all silo all (e ∷ es) = elim (Bool-cases (is_summary silo e)) [
  | inl yes_ ↦ rw (yes_, one_row silo e all) (ap (◌∷◌ e.id) (orphan_rows_all silo all es))
  | inr not_ ↦ rw not_ (orphan_rows_all silo all es)
]

-- What is asked of a summary besides its silo.
abbrev summarises : Item → Bool
summarises e = is_event e.label && (e.is_reasoning_trace && (is_some e.source_chain_id && live e))

-- The step for orphaned summaries tombstones a node, if no other has its key, exactly where it is a
-- live summary of a reasoning chain, whether that chain is there or not.
pub tombstone_orphaned_summaries_all :
    (silo run now id : ℕ) (v : Vault) (n : Item)
    → OnlyAt v.items id silo n
    → OnlyAt
        (tombstone_orphaned_summaries silo run now v).0.items
        id
        silo
        (if is_summary silo n then soil (tombstone_item now run n) else n)
unfolding tombstone_orphaned_summaries find_orphaned_summaries
tombstone_orphaned_summaries_all silo run now id v n only =
    tombstone_nodes-OnlyAt (find_orphaned_summaries silo v) silo run now id v n only
    ∙ ap (λ (m : Item). m ∷ []) same
  where
    listed : contains id (find_orphaned_summaries silo v) ≡ summarises n
    listed =
        ap (contains id) (orphan_rows_all silo v.items v.items)
        ∙ contains-map-keep id (is_summary silo) v.items
        ∙ any-regroup id silo summarises v.items
        ∙ any-keyed summarises id silo n v.items only

    same :
        (if live n && contains id (find_orphaned_summaries silo v)
          then soil (tombstone_item now run n)
          else n)
        ≡ (if is_summary silo n then soil (tombstone_item now run n) else n)
    same = rw listed (ground (arith, keyed_of id silo n v.items only))
