-- ===== src/Lib.antt =====
-- Engrammic: the transactions on the knowledge graph and the parts that guard its storage.
--
-- The service keeps memories, claims, facts and beliefs as nodes of a graph, with typed edges. The
-- functions of context_service/sage/transactions.py change the graph by the Cypher queries of
-- context_service/db/queries.py and report reaction events; calls to the storage backends run
-- behind circuit breakers, and vector deletions that fail go to a dead-letter queue. Paths below
-- are those of the package src/context_service.
--
-- Base      The shared names, Boolean tests on the native numbers, list functions.
-- Graph     The store: nodes with the properties that the transactions read or write, edges, and
--           the shapes of Cypher (match by key, match and set). Graph.Paths is the search for a
--           path of one edge type, Graph.Updates and Graph.Unique what a `SET` does to a lookup.
-- Breaker   extraction/filter/circuit_breaker.py: CircuitBreaker, with the clock readings as
--           arguments. Breaker.Guard is engine/storage_circuit.py: guard_hard_fail, guard_degrade.
-- Vectors   retention/dead_letter.py and the retry loop of retention/service.py `hard_delete_node`,
--           which sage/transactions.py `forget` repeats.
-- Sage      sage/transactions.py. Supersession: supersede, _validate_supersession,
--           _would_create_cycle, _create_supersedes_edge. Linking: link, _validate_link,
--           _run_incremental_propagation. Storing: store_claim with its checks and edges.
--           Contradictions: detect_spo_conflict and the checks before a write. Corroboration:
--           check_corroboration, check_semantic_corroboration. Proposals: synthesize_from_facts and
--           accept_proposal, on a view of the belief and fact nodes. Revision: revise_belief.
--           Commitments: commit, crystallize. Cascade: cascade_staleness.
--           Forgetting: forget, cancel_forget. Collection: hard_delete. Promotion: promote, and
--           sage/source_verification.py. Demotion: demote.
--           Results holds the error codes and the events, History the transactions in sequence, and
--           Consolidation is sage/consolidation.py, which resolves conflicts and supersedes.
-- Chains    engine/chain_saga.py: write_chain, which writes a reasoning chain to Postgres and to the
--           graph and compensates; Chains.Recovery is pipelines/jobs/orphan_recovery.py, which
--           projects the chains that were left in Postgres alone.
-- Causal    engine/causal_invalidation.py: invalidate_derived_edges, and engine/tombstone.py:
--           run_tombstone, on the CAUSES edges with what they are inferred from.
-- Custodian custodian/validators.py: CitationValidator, custodian/business_rules.py and
--           custodian/pipeline.py: run_validation. Custodian.Visits is custodian/visit_state.py.
-- Reactions reactions/batch_embedding.py: BatchEmbeddingAccumulator, whose steps are the blocks
--           under its lock.
-- Sessions  engine/session_state.py and engine/nudges.py.
-- Synthesis synthesis/independence.py and synthesis/trigger.py.
-- Telemetry telemetry/buffer.py: MetricsBuffer, and telemetry/flush.py: flush_metrics_to_db.
-- Coherence retrieval/coherence.py: filter_dominated_contradictions, with _dominates.
-- Retention retention/policy.py, retention/service.py and retention/queries.py: the sweep of a silo,
--           on its own view of a node, since it reads the properties beside `properties`.
--           Retention.Deleting is the hard delete and retention/erasure_service.py,
--           Retention.Sweeping the limits and the whole sweep, Retention.Requests
--           retention/forget_service.py.
--
-- A transaction is a function from the store, its arguments and its clock readings to the new store
-- with the result, or an error code. Queries of a transaction run one after the other on that store,
-- without other transactions between them. Identifiers, silos, texts and times are numbers; a
-- confidence counts thousandths of one.
--
-- Where other coroutines may run while a call is awaited and a property depends on it, what they do
-- meanwhile is an argument (Telemetry) or a step of a relation (Reactions, Chains).
--
-- Bounds and fuel. The invalidation of derived edges runs at most `max_depth` levels, as its loop
-- does, and the compensation of a chain three attempts. A path search takes at most as many steps
-- as there are edges, which suffices, because a trail uses no edge twice. The cascade runs at most
-- ten levels, as MAX_CASCADE_DEPTH says, and defers what lies deeper, as the code does. All else is
-- recursion on lists.
--
-- Parameters: the vector store's answers, which calls of Postgres and of the graph raise, what
-- the embedding service gives and which texts it finds close, the extraction schema, the quality
-- score of a visit, the rows of the synthesis queries, the language model's answers, the propagated
-- and the consolidation scores, the storing of a merged claim, the driver's exceptions, which
-- identifiers parse as UUIDs, and the coroutines behind a guard. The items of one Cypher `SET` take
-- effect one after the other, and `AND` binds closer than `OR`, as Cypher has it.
--
-- Not modelled: store_memory; the custodian's agents and its write path; the reaction tasks; the
-- HTTP and MCP front ends, the pipelines, embeddings, reranking and the drivers, which are input
-- and output or calls of models.
pub mod Base
pub mod Breaker
pub mod Causal
pub mod Chains
pub mod Coherence
pub mod Custodian
pub mod Graph
pub mod Reactions
pub mod Retention
pub mod Sage
pub mod Sessions
pub mod Synthesis
pub mod Telemetry
pub mod Vectors
