-- ===== src/Jobs.antt =====
-- core/jobs.py: job records, their life cycle and the in-memory repository.
-- Times and the four priority adjustments are finite non-negative floats that this file only
-- compares and stores: they are natural numbers of some fixed unit. Arguments have the types that
-- the source annotates, so its `isinstance` tests cannot fail.
pub mod Record
pub mod Lifecycle
pub mod Repository
mod Tests
