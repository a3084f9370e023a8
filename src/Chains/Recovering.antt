-- ===== src/Chains/Recovering.antt =====
-- What a run of the recovery job brings about.
use engrammic.Base.{
  ℕ, ◌≡◌, refl, ◌∙◌, ◌≢◌, inl, inr, true, false, not, ◌||◌, some, List, [], ◌∷◌, arith, ◌==◌, ==→eq,
  ==_self, Bool-cases, Option-cases, is_empty,
}
use engrammic.Chains.{ReasoningChainSteps, OrphanedChain, Stores}
use engrammic.Chains.Recovery.{
  fetch_orphaned_chains, find_row, project, Calls, Recovered, retry_failed, write_projection,
  retry_written, retry_one, retry_chains_to_memgraph, orphan_chain_recovery_job,
}
use engrammic.Chains.Tracking.{
  has_orphan, has_chain, has_orphan-increment_retry, has_orphan-delete_orphan,
  has_chain-upsert_chain, find_row_id,
}

-- The chain is in the graph and has no dead letter.
abbrev pub IsRecovered : ℕ → Stores → Type 0
IsRecovered c s = (has_chain c s.chains ≡ true) × (has_orphan c s.orphans ≡ false)

module _ (b : Calls) (now c : ℕ) where
  failed-IsRecovered :
      (d : ℕ) (r : Recovered)
      → IsRecovered c r.stores
      → IsRecovered c (retry_failed b now d r).stores
  failed-IsRecovered d r h = elim (Bool-cases (b.increment_ok d)) [
    | inl ok ↦ rw ok (h.0, has_orphan-increment_retry c now d r.stores.orphans ∙ h.1)
    | inr bad ↦ rw bad h
  ]

  written-IsRecovered :
      (d : ℕ) (q : ReasoningChainSteps) (r : Recovered)
      → IsRecovered c r.stores
      → IsRecovered c (retry_written b now d (write_projection now q r)).stores
  written-IsRecovered d q r h =
      let shown = has_chain-upsert_chain c (project now q) r.stores.chains in
      elim (Bool-cases (b.delete_ok d)) [
        | inl ok ↦ rw ok (
          ground (arith, shown, h.0),
          ground (arith, has_orphan-delete_orphan c d r.stores.orphans, h.1),
        )
        | inr bad ↦
            rw bad
              (failed-IsRecovered d (write_projection now q r) (ground (arith, shown, h.0), h.1))
      ]

  retry_one-IsRecovered :
      (o : OrphanedChain) (r : Recovered)
      → IsRecovered c r.stores
      → IsRecovered c (retry_one b now o r).stores
  unfolding retry_one
  retry_one-IsRecovered o r h = elim (Option-cases (find_row o.chain_id r.stores.rows)) [
    | inl gone ↦ rw (gone, retry_one) (failed-IsRecovered o.chain_id r h)
    | inr (q, there) ↦
        elim (Bool-cases
          (not (b.fetch_ok o.chain_id) || is_empty q.steps || not (b.graph_ok o.chain_id))) [
            | inl fails ↦ rw (there, retry_one, fails) (failed-IsRecovered o.chain_id r h)
            | inr ok ↦ rw (there, retry_one, ok) (written-IsRecovered o.chain_id q r h)
          ]
  ]

  retry_chains-IsRecovered :
      (os : List OrphanedChain) (r : Recovered)
      → IsRecovered c r.stores
      → IsRecovered c (retry_chains_to_memgraph b now os r).stores
  unfolding retry_chains_to_memgraph
  retry_chains-IsRecovered [] r h = h
  retry_chains-IsRecovered (o ∷ os) r h =
      let next = retry_one b now o r in
      elim (Bool-cases (next.raised)) [
        | inl yes_ ↦ rw yes_ (retry_one-IsRecovered o r h)
        | inr no_ ↦ rw no_ (retry_chains-IsRecovered os next (retry_one-IsRecovered o r h))
      ]

  -- A turn raises only where `increment_retry` does.
  retry_one_quiet :
      (o : OrphanedChain) (r : Recovered)
      → b.increment_ok o.chain_id ≡ true
      → r.raised ≡ false
      → (retry_one b now o r).raised ≡ false
  unfolding retry_one
  retry_one_quiet o r counts before = elim (Option-cases (find_row o.chain_id r.stores.rows)) [
    | inl gone ↦ rw (gone, retry_one) (rw counts before)
    | inr (q, there) ↦
        elim (Bool-cases
          (not (b.fetch_ok o.chain_id) || is_empty q.steps || not (b.graph_ok o.chain_id))) [
            | inl fails ↦ rw (there, retry_one, fails) (rw counts before)
            | inr ok ↦ elim (Bool-cases (b.delete_ok o.chain_id)) [
              | inl done ↦ rw (there, retry_one, ok) (rw done before)
              | inr bad ↦ rw (there, retry_one, ok) (rw (bad, counts) before)
            ]
          ]
  ]

  rows-retry_one :
      (o : OrphanedChain) (r : Recovered) → (retry_one b now o r).stores.rows ≡ r.stores.rows
  unfolding retry_one
  rows-retry_one o r = elim (Option-cases (find_row o.chain_id r.stores.rows)) [
    | inl gone ↦ rw (gone, retry_one) (ground arith)
    | inr (q, there) ↦ rw (there, retry_one) (ground arith)
  ]

  module _ (q : ReasoningChainSteps) (steps : is_empty q.steps ≡ false)
      (fetched : b.fetch_ok c ≡ true) (wrote : b.graph_ok c ≡ true) (deleted : b.delete_ok c ≡ true)
      (counts : (d : ℕ) → d ≢ c → b.increment_ok d ≡ true) where
    retry_one_recovers :
        (o : OrphanedChain) (r : Recovered)
        → (o.chain_id == c) ≡ true
        → find_row c r.stores.rows ≡ some q
        → IsRecovered c (retry_one b now o r).stores
    unfolding retry_one project
    retry_one_recovers o r same there = rw (==→eq o.chain_id c same) (
        rw (there, retry_one, steps, fetched, wrote, deleted)
          (
            rw
                (
                  has_chain-upsert_chain c (project now q) r.stores.chains,
                  find_row_id c r.stores.rows q there,
                )
                refl,
            rw (has_orphan-delete_orphan c c r.stores.orphans, ==_self c) refl,
          ))

    retry_chains_recovers :
        (os : List OrphanedChain) (r : Recovered)
        → r.raised ≡ false
        → has_orphan c os ≡ true
        → find_row c r.stores.rows ≡ some q
        → IsRecovered c (retry_chains_to_memgraph b now os r).stores
    unfolding retry_chains_to_memgraph
    retry_chains_recovers [] r before m there = cc
    retry_chains_recovers (o ∷ os) r before m there =
        let next = retry_one b now o r in
        elim (Bool-cases (o.chain_id == c)) [
          | inl same ↦
              let done = retry_one_recovers o r same there in
              elim (Bool-cases (next.raised)) [
                | inl yes_ ↦ rw yes_ done
                | inr no_ ↦ rw no_ (retry_chains-IsRecovered os next done)
              ]
          | inr other ↦
              let quiet = retry_one_quiet o r (counts o.chain_id (λ e. ground arith)) before in
              rw quiet
                (retry_chains_recovers os next quiet (ground arith) (rw (rows-retry_one o r) there))
        ]

-- A chain with a dead letter is recovered by the next run of the job at a time when the dead letter
-- is below the limit of retries and its backoff has passed: if its steps are in Postgres and are not
-- empty, and they are fetched, the graph takes the write and the dead letter is deleted, and if
-- `increment_retry` raises for no other chain, then the chain is in the graph and the dead letter is
-- gone, whichever other calls for the other chains raise.
pub orphan_chain_recovery_job_recovers :
    (b : Calls) (now c : ℕ) (q : ReasoningChainSteps) (s : Stores)
    → has_orphan c (fetch_orphaned_chains now s.orphans).0 ≡ true
    → find_row c s.rows ≡ some q
    → q.steps ≢ []
    → b.fetch_ok c ≡ true
    → b.graph_ok c ≡ true
    → b.delete_ok c ≡ true
    → ((d : ℕ) → d ≢ c → b.increment_ok d ≡ true)
    → IsRecovered c (orphan_chain_recovery_job b now s).stores
unfolding orphan_chain_recovery_job
orphan_chain_recovery_job_recovers b now c q s eligible there steps fetched wrote deleted counts =
    retry_chains_recovers b now c q (nonempty q.steps steps) fetched wrote deleted counts
      (fetch_orphaned_chains now s.orphans).0
      (record { stores = s; success_count = 0; failed_count = 0; raised = false }) refl eligible
      there
  where
    nonempty : {A : Type 0} (xs : List A) → xs ≢ [] → is_empty xs ≡ false
    nonempty [] h = absurd (h refl)
    nonempty (x ∷ xs) h = refl
