-- ===== src/Sage.antt =====
-- sage/transactions.py: the write path. A transaction validates, writes to the graph store and
-- returns the reaction events that it emits, or raises an error.
pub mod Results
pub mod Supersession
pub mod Contradictions
pub mod Corroboration
pub mod Storing
pub mod Proposals
pub mod Revision
pub mod Commitments
pub mod Linking
pub mod Cascade
pub mod Forgetting
pub mod Collection
pub mod Promotion
pub mod Demotion
pub mod History
pub mod Consolidation
