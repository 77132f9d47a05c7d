-- ===== src/Crdt.antt =====
-- api/federation/crdt.py: the replicated data types of the federation. Times are clock ticks, which
-- are only compared; amounts of a counter are natural numbers of units.
pub mod VectorClock
pub mod OrSet
pub mod Registers
pub mod MergeSets
mod Tests
