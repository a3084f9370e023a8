-- ===== src/Retention/Tests.antt =====
-- The retention parts at a concrete silo.
use engrammic.Base.{ℕ, ◌≤◌, refl, ◌⊎◌, Bool, true, false, none, some, [], ◌∷◌, length, keep}
use engrammic.Retention.{
  Item, Vault, RetentionPolicy, standard, memory_label, event_label, chain_label, days,
  find_tombstone_candidates, tombstone_nodes,
}
use engrammic.Retention.Aging.{OnlyAt}
use engrammic.Retention.Due.{IsDue, tombstone_nodes-find_tombstone_candidates}
use engrammic.Retention.Sweeping.{live_reflection, tombstone_excess_meta_observations}
use engrammic.Retention.Sweeping.Limits.{tombstone_excess_meta_observations_bound}

abbrev policy : RetentionPolicy
policy = record {
  ephemeral_max_age_hours = 24;
  standard_max_age_days = 7;
  standard_heat_threshold = 300;
  durable_max_age_days = 30;
  durable_heat_threshold = 200;
  meta_observation_max_count = 1;
  grace_period_days = 7;
}

abbrev memory_item : ℕ → Item
memory_item id = record {
  id = id;
  silo = 1;
  label = memory_label;
  decay_class = some standard;
  is_reflection = false;
  is_reasoning_trace = false;
  source_chain_id = none;
  created_at = some 0;
  heat_score = some 100;
  tombstoned_at = none;
  retention_run_id = none;
  heat_dirty = false;
  forget_requested_at = none;
}

abbrev reflection : ℕ → Item
reflection id = record (memory_item id) { is_reflection = true; created_at = some id }

-- A summary of the reasoning chain 5.
abbrev summary : Item
summary = record (memory_item 4) {
  label = event_label;
  is_reasoning_trace = true;
  source_chain_id = some 5;
}

abbrev chain : Item
chain = record (memory_item 5) { label = chain_label; decay_class = none }

abbrev vault : Vault
vault = record {
  items = memory_item 1 ∷ reflection 2 ∷ reflection 3 ∷ summary ∷ chain ∷ [];
  links = (1, 2) ∷ [];
}

tombstone_nodes-find_tombstone_candidates_example :
    let items =
      (tombstone_nodes
        (find_tombstone_candidates policy 1 (days 9) vault)
        1
        77
        (days 10)
        vault).0.items in
    IsDue policy (days 9) (memory_item 1)
      × OnlyAt items 1 1 (record (memory_item 1) {
        tombstoned_at = some (days 10);
        retention_run_id = some 77;
        heat_dirty = true;
      })
    ⊎ (¬ IsDue policy (days 9) (memory_item 1)) × OnlyAt items 1 1 (memory_item 1)
tombstone_nodes-find_tombstone_candidates_example =
    tombstone_nodes-find_tombstone_candidates policy 1 77 (days 9) (days 10) 1 vault (memory_item 1)
      refl

tombstone_excess_meta_observations_bound_example :
    length
      (keep (live_reflection 1) (tombstone_excess_meta_observations policy 1 77 9 vault).0.items)
    ≤ 1
tombstone_excess_meta_observations_bound_example =
    tombstone_excess_meta_observations_bound policy 1 77 9 vault

abbrev anything : ℕ → Bool
anything id = true

abbrev nothing : ℕ → Bool
nothing id = false
