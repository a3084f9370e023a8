-- ===== src/Chains/Tracking.antt =====
-- No chain is left in Postgres alone without a dead letter.
use engrammic.Base.{
  ℕ, zero, suc, ◌+◌, ◌≡◌, refl, ◌≢◌, inl, inr, Bool, true, false, not, ◌&&◌, ◌||◌, some, List, [],
  ◌∷◌, arith, ◌==◌, Bool-cases, Option-cases, is_empty, any,
}
use engrammic.Chains.{
  ReasoningChainSteps, OrphanedChain, ReasoningChain, Stores, upsert_row, delete_row, add_orphan,
  upsert_chain, summarise, Draft, Backends, orphan_raised, compensate, put_steps, write_chain,
}
use engrammic.Chains.Recovery.{
  fetch_orphaned_chains, find_row, project, delete_orphan, increment_retry, Calls, Recovered,
  retry_failed, write_projection, retry_written, retry_one, retry_chains_to_memgraph,
  orphan_chain_recovery_job,
}

abbrev pub has_row : ℕ → List ReasoningChainSteps → Bool
has_row c = any (λ r. r.chain_id == c)

abbrev pub has_orphan : ℕ → List OrphanedChain → Bool
has_orphan c = any (λ o. o.chain_id == c)

abbrev pub has_chain : ℕ → List ReasoningChain → Bool
has_chain c = any (λ d. d.chain_id == c)

-- Every chain with steps in Postgres is in the graph or has a dead letter.
abbrev pub IsTracked : Stores → Type 0
IsTracked s =
    (c : ℕ) → has_row c s.rows ≡ true → (has_chain c s.chains || has_orphan c s.orphans) ≡ true

has_row-upsert_row :
    (c : ℕ) (r : ReasoningChainSteps) (qs : List ReasoningChainSteps)
    → has_row c (upsert_row r qs) ≡ ((r.chain_id == c) || has_row c qs)
unfolding upsert_row
has_row-upsert_row c r [] = refl
has_row-upsert_row c r (q ∷ qs) = ground (arith, has_row-upsert_row c r qs)

has_row-delete_row :
    (c d : ℕ) (qs : List ReasoningChainSteps)
    → has_row c (delete_row d qs) ≡ (not (d == c) && has_row c qs)
has_row-delete_row c d [] = ground arith
has_row-delete_row c d (q ∷ qs) = ground (arith, has_row-delete_row c d qs)

has_orphan-add_orphan :
    (c chain silo error : ℕ) (os : List OrphanedChain)
    → has_orphan c (add_orphan chain silo error os) ≡ ((chain == c) || has_orphan c os)
unfolding add_orphan
has_orphan-add_orphan c chain silo error [] = refl
has_orphan-add_orphan c chain silo error (o ∷ os) =
    ground (arith, has_orphan-add_orphan c chain silo error os)

pub has_orphan-delete_orphan :
    (c d : ℕ) (os : List OrphanedChain)
    → has_orphan c (delete_orphan d os) ≡ (not (d == c) && has_orphan c os)
has_orphan-delete_orphan c d [] = ground arith
has_orphan-delete_orphan c d (o ∷ os) = ground (arith, has_orphan-delete_orphan c d os)

pub has_orphan-increment_retry :
    (c now d : ℕ) (os : List OrphanedChain)
    → has_orphan c (increment_retry now d os) ≡ has_orphan c os
has_orphan-increment_retry c now d [] = refl
has_orphan-increment_retry c now d (o ∷ os) = ground (arith, has_orphan-increment_retry c now d os)

pub has_chain-upsert_chain :
    (c : ℕ) (x : ReasoningChain) (ds : List ReasoningChain)
    → has_chain c (upsert_chain x ds) ≡ ((x.chain_id == c) || has_chain c ds)
unfolding upsert_chain
has_chain-upsert_chain c x [] = refl
has_chain-upsert_chain c x (d ∷ ds) = ground (arith, has_chain-upsert_chain c x ds)

abbrev row : Draft → ReasoningChainSteps
row d = record { chain_id = d.chain_id; silo_id = d.silo_id; steps = d.steps }

module _ (delete_ok : ℕ → Bool) (orphan_ok : Bool) (d : Draft) (error : ℕ) (s : Stores)
    (tracked : IsTracked s) where
  compensate-IsTracked :
      (left attempt : ℕ)
      → let r = compensate left attempt delete_ok orphan_ok d error (put_steps d s) in
        r.1 ≢ orphan_raised → IsTracked r.0
  unfolding compensate
  compensate-IsTracked zero attempt = elim (Bool-cases orphan_ok) [
    | inl ok ↦ rw ok (λ h c m. ground (
      arith,
      has_row-upsert_row c (row d) s.rows,
      has_orphan-add_orphan c d.chain_id d.silo_id error s.orphans,
      tracked c,
    ))
    | inr refused ↦ rw refused (λ h. absurd (h refl))
  ]
  compensate-IsTracked (suc left) attempt = elim (Bool-cases (delete_ok attempt)) [
    | inl ok ↦ rw ok (λ h c m. tracked c (
        ground (
          arith,
          has_row-upsert_row c (row d) s.rows,
          has_row-delete_row c d.chain_id (upsert_row (row d) s.rows),
        )))
    | inr refused ↦ rw refused (compensate-IsTracked left (attempt + 1))
  ]

write_chain-IsTracked :
    (b : Backends) (d : Draft) (s : Stores)
    → IsTracked s
    → (write_chain b d s).1 ≢ orphan_raised
    → IsTracked (write_chain b d s).0
unfolding write_chain summarise
write_chain-IsTracked b d s tracked = elim (Bool-cases b.upsert_ok) [
  | inr refused ↦ rw refused (λ h. tracked)
  | inl ok ↦ elim (Option-cases b.graph_error) [
    | inl done ↦
        rw (ok, done)
          (λ h c m. ground (
            arith,
            has_row-upsert_row c (row d) s.rows,
            has_chain-upsert_chain c (summarise d) s.chains,
            tracked c,
          ))
    | inr (error, failed) ↦
        rw (ok, failed) (compensate-IsTracked b.delete_ok b.orphan_ok d error s tracked 3 0)
  ]
]

pub find_row_id :
    (c : ℕ) (qs : List ReasoningChainSteps) (r : ReasoningChainSteps)
    → find_row c qs ≡ some r
    → (r.chain_id == c) ≡ true
find_row_id c [] r h = cc
find_row_id c (q ∷ qs) r h = elim (Bool-cases (q.chain_id == c)) [
  | inl hit ↦ ground arith
  | inr miss ↦ find_row_id c qs r (ground arith)
]

module _ (b : Calls) (now : ℕ) where
  retry_failed-IsTracked :
      (d : ℕ) (r : Recovered) → IsTracked r.stores → IsTracked (retry_failed b now d r).stores
  retry_failed-IsTracked d r tracked = elim (Bool-cases (b.increment_ok d)) [
    | inl ok ↦ rw ok (λ c m. rw (has_orphan-increment_retry c now d r.stores.orphans) (tracked c m))
    | inr bad ↦ rw bad tracked
  ]

  retry_written-IsTracked :
      (d : ℕ) (q : ReasoningChainSteps) (r : Recovered)
      → (q.chain_id == d) ≡ true
      → IsTracked r.stores
      → IsTracked (retry_written b now d (write_projection now q r)).stores
  unfolding project
  retry_written-IsTracked d q r same tracked = elim (Bool-cases (b.delete_ok d)) [
    | inl ok ↦ rw ok (λ c m. ground (
      arith,
      has_chain-upsert_chain c (project now q) r.stores.chains,
      has_orphan-delete_orphan c d r.stores.orphans,
      tracked c,
    ))
    | inr bad ↦ rw bad (
        retry_failed-IsTracked d (write_projection now q r) (λ c m.
          ground (arith, has_chain-upsert_chain c (project now q) r.stores.chains, tracked c)))
  ]

  retry_one-IsTracked :
      (o : OrphanedChain) (r : Recovered)
      → IsTracked r.stores
      → IsTracked (retry_one b now o r).stores
  unfolding retry_one
  retry_one-IsTracked o r tracked = elim (Option-cases (find_row o.chain_id r.stores.rows)) [
    | inl gone ↦ rw (gone, retry_one) (retry_failed-IsTracked o.chain_id r tracked)
    | inr (q, there) ↦
        elim (Bool-cases
          (not (b.fetch_ok o.chain_id) || is_empty q.steps || not (b.graph_ok o.chain_id))) [
            | inl fails ↦ rw (there, retry_one, fails) (retry_failed-IsTracked o.chain_id r tracked)
            | inr ok ↦
                rw (there, retry_one, ok)
                  (retry_written-IsTracked o.chain_id q r
                    (find_row_id o.chain_id r.stores.rows q there) tracked)
          ]
  ]

  retry_chains-IsTracked :
      (os : List OrphanedChain) (r : Recovered)
      → IsTracked r.stores
      → IsTracked (retry_chains_to_memgraph b now os r).stores
  unfolding retry_chains_to_memgraph
  retry_chains-IsTracked [] r tracked = tracked
  retry_chains-IsTracked (o ∷ os) r tracked =
      let next = retry_one b now o r in
      elim (Bool-cases (next.raised)) [
        | inl yes_ ↦ rw yes_ (retry_one-IsTracked o r tracked)
        | inr no_ ↦ rw no_ (retry_chains-IsTracked os next (retry_one-IsTracked o r tracked))
      ]

abbrev pub empty_stores : Stores
empty_stores = record { rows = []; orphans = []; chains = [] }

-- The stores after writes of chains, where no dead letter was itself refused, and recoveries, in any
-- order and with any failures of the backends.
pub data Happens : Stores → Type 0 where
  starts : Happens empty_stores
  writes :
      {s : Stores} (b : Backends) (d : Draft)
      → (write_chain b d s).1 ≢ orphan_raised
      → Happens s
      → Happens (write_chain b d s).0
  recovers :
      {s : Stores} (b : Calls) (now : ℕ)
      → Happens s
      → Happens (orphan_chain_recovery_job b now s).stores

-- However the backends fail while chains are written and recovered, every chain whose steps are in
-- Postgres is in the graph or has a dead letter, as long as no dead letter is itself refused.
pub Happens-IsTracked : (s : Stores) → Happens s → IsTracked s
unfolding orphan_chain_recovery_job
Happens-IsTracked _ starts = λ c m. cc
Happens-IsTracked _ (writes {s = s} b d h p) = write_chain-IsTracked b d s (Happens-IsTracked s p) h
Happens-IsTracked _ (recovers {s = s} b now p) =
    retry_chains-IsTracked b now (fetch_orphaned_chains now s.orphans).0
      (record { stores = s; success_count = 0; failed_count = 0; raised = false })
      (Happens-IsTracked s p)
